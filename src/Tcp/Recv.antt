-- ===== src/Tcp/Recv.antt =====
-- The receive path: ncb_mark_lb and ncb_unmark_lb of ncb.c, and tcp_lb_assemble,
-- tcp_prase_logic_packet and the unpacking block of tcp_dispatch_io_recv of tcp.c.
-- `none` stands for undefined behaviour: a copy outside a block, a NULL buffer or parser, or a
-- failed assertion; and for a loop that outruns its fuel.
pub mod Spec
pub mod Copy
pub mod Rounds
pub mod Waits
pub mod Loop
pub mod Segment
pub mod Fill
pub mod Unpack
pub mod Stream
pub mod Raw
pub mod Handle
use swnet_win.Base.{
  ℕ, zero, suc, ◌+◌, ◌-◌, ◌*◌, ℤ, pos, negsuc, sub_ℕ, pos_part, neg_part, ltb_ℤ, is_neg, minus_one,
  Bool, true, false, ◌&&◌, not, Option, none, some, List, [], ◌∷◌, ◌++◌, ltb, leb, ◌==◌,
  if◌then◌else◌, ◌>>=◌, length, take, drop, bit_and,
}
use swnet_win.Types.{Packet, Ncb, Block}

-- TCP_RECV_BUFFER_SIZE (17 pages) and TCP_MAXIMUM_PACKET_SIZE.
abbrev pub tcp_recv_buffer_size : ℕ
tcp_recv_buffer_size = 17 * 4096

abbrev pub tcp_maximum_packet_size : ℕ
tcp_maximum_packet_size = 50 * 1048576

-- EVT_RECEIVEDATA as the callback sees it: the link, the size, and the bytes of that size.
pub record Received : Type 0 where
  pub link : ℤ
  pub size : ℕ
  pub bytes : List ℕ

-- What a stage leaves: its return value, the two structures, and the callbacks made in order.
pub record Unpacked : Type 0 where
  pub retval : ℤ
  pub ncb : Ncb
  pub packet : Packet
  pub events : List Received

-- The `n` bytes of a block from `off` on, if it holds them.
abbrev pub read_bytes : List ℕ → ℕ → ℕ → Option (List ℕ)
read_bytes block off n =
    if leb (off + n) (length block) then some (take n (drop off block)) else none

-- `memcpy` and `memmove` of `src` to `off` in a block, if it has room.
abbrev pub write_bytes : List ℕ → ℕ → List ℕ → Option (List ℕ)
write_bytes block off src =
    if leb (off + length src) (length block)
    then some (take off block ++ (src ++ drop (off + length src) block))
    else none

-- The callback is made only if one is set.
abbrev pub deliver : Ncb → Received → List Received
deliver ncb e = if ncb.nis_callback then e ∷ [] else []

-- ncb_lb_marked
abbrev pub ncb_lb_marked : Ncb → Bool
ncb_lb_marked ncb = elim ncb.lb_data [ none ↦ false | some d ↦ ltb 0 ncb.lb_length ]

-- ncb_unmark_lb. The assertion on the length is a fault here.
unfoldable pub ncb_unmark_lb : Ncb → Option Ncb
ncb_unmark_lb ncb = elim ncb.lb_data [
  | none ↦ some (record ncb { lb_length = 0 })
  | some d ↦
      if ltb 0 ncb.lb_length
      then some (record ncb { lb_data = none; lb_cpy_offset = 0; lb_length = 0 })
      else none
]

-- tcp_lb_assemble: the block is full. The user gets it, and what is left over moves to the front.
pub lb_complete : Ncb → Packet → List ℕ → Block → ℕ → ℕ → Option Unpacked
lb_complete ncb packet lb buffer user_size lb_acquire_size = do
  chunk ← read_bytes buffer.bytes 0 lb_acquire_size
  filled ← write_bytes lb ncb.lb_cpy_offset chunk
  payload ← read_bytes filled ncb.tcp_tst.cb user_size
  unmarked ← ncb_unmark_lb ncb
  left ← read_bytes buffer.bytes lb_acquire_size (packet.size_for_translation - lb_acquire_size)
  moved ← write_bytes buffer.bytes 0 left
  some (record {
    retval = pos (packet.size_for_translation - lb_acquire_size);
    ncb = unmarked;
    packet = if packet.size_for_translation == lb_acquire_size then packet else record packet {
      ori_buffer = some (record buffer { bytes = moved });
      size_for_translation = packet.size_for_translation - lb_acquire_size;
    };
    events = deliver ncb (record { link = ncb.hld; size = user_size; bytes = payload });
  })

-- tcp_lb_assemble: the segment does not fill the block.
pub lb_append : Ncb → Packet → List ℕ → Block → Option Unpacked
lb_append ncb packet lb buffer = do
  chunk ← read_bytes buffer.bytes 0 packet.size_for_translation
  filled ← write_bytes lb ncb.lb_cpy_offset chunk
  some (record {
    retval = pos 0;
    ncb = record ncb {
      lb_data = some filled;
      lb_cpy_offset = ncb.lb_cpy_offset + packet.size_for_translation;
    };
    packet = packet;
    events = [];
  })

pub failed : Ncb → Packet → List Received → Unpacked
failed ncb packet events = record {
  retval = minus_one;
  ncb = ncb;
  packet = packet;
  events = events;
}

-- tcp_lb_assemble, from the user size on.
pub lb_fill : Ncb → Packet → List ℕ → Block → ℤ → Option Unpacked
lb_fill ncb packet lb buffer user_size =
    let acquire : ℤ =
      sub_ℕ (pos_part user_size + ncb.tcp_tst.cb) (neg_part user_size + ncb.lb_cpy_offset) in
    if ltb_ℤ (pos packet.size_for_translation) acquire
    then lb_append ncb packet lb buffer
    else elim acquire [
      | negsuc n ↦ none
      | pos n ↦ elim user_size [ negsuc k ↦ none | pos u ↦ lb_complete ncb packet lb buffer u n ]
    ]

-- tcp_lb_assemble
pub tcp_lb_assemble : Ncb → Packet → Option Unpacked
tcp_lb_assemble ncb packet =
    if packet.size_for_translation == 0
    then some (failed ncb packet [])
    else elim ncb.tcp_tst.parser [
      | none ↦ some (failed ncb packet [])
      | some parser ↦ do
        lb ← ncb.lb_data
        buffer ← packet.ori_buffer
        header ← read_bytes lb 0 ncb.tcp_tst.cb
        let answer : ℤ × ℤ = parser header ncb.tcp_tst.cb
        if is_neg answer.0
            then some (failed ncb packet [])
            else lb_fill ncb packet lb buffer answer.1
    ]

-- The event for `size` bytes of the buffer from `off` on.
abbrev pub received_bytes : Ncb → List ℕ → ℕ → ℕ → Option Received
received_bytes ncb buffer off size = do
  bytes ← read_bytes buffer off size
  some (record { link = ncb.hld; size = size; bytes = bytes })

-- What one round of the loop in tcp_prase_logic_packet decides.
pub data Round : Type 0 where
  -- return -1
  reject : Round
  -- a packet larger than the buffer: mark the large block and return
  large : ℕ → Round
  -- `break`: more bytes are needed
  starve : Round
  -- a whole packet, of this user size and data
  whole : ℕ → Received → Round

module _ (malloc : ℕ → Option (List ℕ)) (linkattr_tcp_fully_receive : ℕ) where
  -- ncb_mark_lb
  pub ncb_mark_lb : Ncb → ℕ → ℕ → List ℕ → Option (ℤ × Ncb)
  ncb_mark_lb ncb cb current_size source =
      if ltb cb current_size then some (minus_one, ncb) else elim (malloc cb) [
        | none ↦ some (minus_one, record ncb { lb_length = cb; lb_data = none })
        | some block ↦ do
          chunk ← read_bytes source 0 current_size
          filled ← write_bytes block 0 chunk
          some (
            pos 0,
            record ncb { lb_length = cb; lb_data = some filled; lb_cpy_offset = current_size },
          )
      ]

  -- The data of a packet: all of it for a link with LINKATTR_TCP_FULLY_RECEIVE, else the payload.
  unfoldable pub logic_data : Ncb → List ℕ → ℕ → ℕ → Option Received
  logic_data ncb buffer offset user_size =
      if bit_and ncb.attr linkattr_tcp_fully_receive == 0
      then received_bytes ncb buffer (offset + ncb.tcp_tst.cb) user_size
      else received_bytes ncb buffer offset (user_size + ncb.tcp_tst.cb)

  -- One round, at `useful` bytes from `offset` on.
  unfoldable pub prase_round : Ncb → List ℕ → ℕ → ℕ → Option Round
  prase_round ncb buffer useful offset = if ltb useful ncb.tcp_tst.cb then some starve else do
    parser ← ncb.tcp_tst.parser
    header ← read_bytes buffer offset ncb.tcp_tst.cb
    let answer : ℤ × ℤ = parser header ncb.tcp_tst.cb
    if is_neg answer.0 then some reject else elim answer.1 [
      | negsuc n ↦ some reject
      | pos user_size ↦
          if ltb tcp_maximum_packet_size user_size
          then some reject
          else if ltb tcp_recv_buffer_size (user_size + ncb.tcp_tst.cb)
          then some (large (user_size + ncb.tcp_tst.cb))
          else if ltb useful (user_size + ncb.tcp_tst.cb)
          then some starve
          else do data_ ← logic_data ncb buffer offset user_size; some (whole user_size data_)
    ]

  -- After `break`: what is left moves to the front of the buffer.
  unfoldable pub prase_finish : Ncb → Packet → Block → ℕ → ℕ → List Received → Option Unpacked
  prase_finish ncb packet buffer useful offset events = do
    left ← read_bytes buffer.bytes offset useful
    moved ← write_bytes buffer.bytes 0 left
    some (record {
      retval = pos 0;
      ncb = ncb;
      packet = record packet {
        analyzed_offset = useful;
        ori_buffer = some (record buffer {
          bytes = if not (useful == 0) && not (offset == 0) then moved else buffer.bytes;
        });
      };
      events = events;
    })

  -- A packet that is too large for the buffer starts a large block.
  pub prase_large : Ncb → Packet → Block → ℕ → ℕ → List Received → ℕ → Option Unpacked
  prase_large ncb packet buffer useful offset events total = do
    (ret, marked) ← ncb_mark_lb ncb total useful (drop offset buffer.bytes)
    if is_neg ret
        then some (failed marked packet events)
        else some (record {
          retval = pos 0;
          ncb = marked;
          packet = record packet { analyzed_offset = 0 };
          events = events;
        })

  -- The loop of tcp_prase_logic_packet; each round that goes on uses up one unit of fuel.
  unfoldable pub prase_loop : ℕ → Ncb → Packet → Block → ℕ → ℕ → List Received → Option Unpacked
  prase_loop zero ncb packet buffer useful offset events = none
  prase_loop (suc fuel) ncb packet buffer useful offset events =
      elim (prase_round ncb buffer.bytes useful offset) [
        | none ↦ none
        | some reject ↦ some (failed ncb packet events)
        | some (large total) ↦ prase_large ncb packet buffer useful offset events total
        | some starve ↦ prase_finish ncb packet buffer useful offset events
        | some (whole user_size e) ↦
            prase_loop fuel ncb packet buffer (useful - (user_size + ncb.tcp_tst.cb))
              (offset + (user_size + ncb.tcp_tst.cb)) (events ++ deliver ncb e)
      ]

  -- tcp_prase_logic_packet: with no header template the whole segment is one event.
  pub prase_raw : Ncb → Packet → Block → ℕ → Option Unpacked
  prase_raw ncb packet buffer useful = do
    e ← received_bytes ncb buffer.bytes 0 useful
    some (record {
      retval = pos 0;
      ncb = ncb;
      packet = record packet { analyzed_offset = 0 };
      events = deliver ncb e;
    })

  -- tcp_prase_logic_packet
  unfoldable pub tcp_prase_logic_packet : Ncb → Packet → Option Unpacked
  tcp_prase_logic_packet ncb packet =
      let useful : ℕ = packet.analyzed_offset + packet.size_for_translation in
      if packet.size_for_translation == 0 then some (failed ncb packet []) else do
        buffer ← packet.ori_buffer
        if ncb.tcp_tst.cb == 0
            then prase_raw ncb packet buffer useful
            else prase_loop (suc useful) ncb packet buffer useful 0 []

  -- tcp_dispatch_io_recv: the parse after the large block, and the next request.
  unfoldable pub recv_parse : Ncb → Packet → List Received → Option Unpacked
  recv_parse ncb packet before = do
    out ← tcp_prase_logic_packet ncb packet
    if is_neg out.retval
        then some (record out { events = before ++ out.events })
        else some (record out {
          packet = record (out.packet) {
            irp = some (out.packet.analyzed_offset);
            size_for_req = tcp_recv_buffer_size - out.packet.analyzed_offset;
          };
          events = before ++ out.events;
        })

  -- tcp_dispatch_io_recv: the block that unpacks one completed request.
  unfoldable pub recv_unpack : Ncb → Packet → Option Unpacked
  recv_unpack ncb packet =
      if ncb_lb_marked ncb
      then tcp_lb_assemble ncb packet >>= (λ out.
        if ltb_ℤ (pos 0) out.retval then recv_parse out.ncb out.packet out.events else some out)
      else recv_parse ncb packet []
