-- ===== src/Tcp/Write.antt =====
-- tcp_write, tcp.c.
pub mod Framing
use swnet_win.Base.{
  ℕ, ◌+◌, ◌*◌, ℤ, pos, negsuc, minus_one, sub_ℕ, eq_ℤ, is_neg, Bool, true, false, ◌||◌, not, Option,
  none, some, List, ◌++◌, ltb, ◌==◌, long_ge, if◌then◌else◌, take, drop, length, bit_and,
}
use swnet_win.Types.{proto_tcp, send, no_access, Block, Tst, Packet, Ncb}
use swnet_win.Packets.{allocate_packet, freepkt}
use swnet_win.Tcp.Recv.{tcp_maximum_packet_size}
use swnet_win.Tcp.Recv.Copy.{put}
use swnet_win.Tcp.Send.{tcp_maximum_sender_cached_cnt_pre_link}
use swnet_win.Tcp.Object.{tcprefr}
use swnet_win.Tcp.Io.{tcp_try_write}
use swnet_win.World.{
  M, U, return, when◌then◌else◌, on_option, ◌>>=◌, ◌>>◌, ask, allocate, release, get_ncb, objdefr,
}

-- `nis_serializer_t`: from the room for the data, the origin and the size that it is given, its
-- return value and what the room holds then.
abbrev pub Serializer : Type 0
Serializer = List ℕ → List ℕ → ℤ → ℤ × List ℕ

-- The data behind `off` bytes of a buffer: by the serializer, or copied. `none` is its refusal.
pub place_data : Option Serializer → List ℕ → ℕ → List ℕ → ℕ → ℤ → Option (List ℕ)
place_data none buffer off origin cb given = some (put buffer off (take cb origin))
place_data (some serializer) buffer off origin cb given =
    let answer = serializer (drop off buffer) origin given in
    if is_neg answer.0 then none else some (take off buffer ++ answer.1)

-- Whether tcp_write leaves the header to the caller.
unfoldable pub no_build : ℕ → Ncb → Bool
no_build mask ncb = elim ncb.tcp_tst.builder [
  | none ↦ true
  | some build ↦ not (bit_and ncb.attr mask == 0)
]

-- The length of the packet.
pub total_packet_length : ℕ → Ncb → ℕ → ℕ
total_packet_length mask ncb cb = if no_build mask ncb then cb else ncb.tcp_tst.cb + cb

-- The bytes of the packet in a buffer of that length. The serializer is told the size without the
-- header only if there is no header; else it is told the size less the header's once more.
pub fill_packet : ℕ → Ncb → Option Serializer → List ℕ → List ℕ → ℕ → Option (List ℕ)
fill_packet mask ncb serializer buffer origin cb =
    if no_build mask ncb
    then place_data serializer buffer 0 origin cb (pos cb)
    else elim ncb.tcp_tst.builder [
      | none ↦ none
      | some build ↦
          let built = build buffer cb in
          if is_neg built.0
          then none
          else place_data serializer built.1 ncb.tcp_tst.cb origin cb (sub_ℕ cb ncb.tcp_tst.cb)
    ]

-- tcp_write, from the filled buffer on: a failure frees all that was allocated.
pub write_filled : Bool → ℤ → Block → ℕ → M ℤ
write_filled inited lnk buffer total = do
  packet ← allocate_packet lnk proto_tcp send 0 no_access
  elim packet [
    | none ↦ do release (some buffer); return minus_one
    | some p ↦ do
      let full : Packet = record p { ori_buffer = some buffer; irp = some 0; size_for_req = total }
      retval ← tcp_try_write inited lnk (some full)
      when is_neg retval then freepkt full else return tt
      return retval
  ]

-- tcp_write, once the link is referenced
pub write_referenced : Bool → ℤ → List ℕ → ℕ → Option Serializer → M ℤ
write_referenced inited lnk origin cb serializer = do
  ncb ← get_ncb lnk
  mask ← ask (λ env. env.linkattr_tcp_no_build)
  when long_ge ncb.tcp_sender_list_size tcp_maximum_sender_cached_cnt_pre_link
      then return minus_one
      else (do
        block ← allocate (total_packet_length mask ncb cb)
        elim block [
          | none ↦ return minus_one
          | some b ↦ elim (fill_packet mask ncb serializer b.bytes origin cb) [
            | none ↦ do release (some b); return minus_one
            | some bytes ↦
                write_filled inited lnk (record b { bytes = bytes })
                  (total_packet_length mask ncb cb)
          ]
        ])

-- tcp_write. INVALID_HTCPLINK is -1; the origin is `none` for NULL.
pub tcp_write : Bool → ℤ → Option (List ℕ) → ℤ → Option Serializer → M ℤ
tcp_write inited lnk none cb serializer = return minus_one
tcp_write inited lnk (some origin) (negsuc n) serializer = return minus_one
tcp_write inited lnk (some origin) (pos cb) serializer =
    when eq_ℤ lnk minus_one || (cb == 0 || ltb tcp_maximum_packet_size cb)
    then return minus_one
    else (do
      found ← tcprefr lnk
      when is_neg found then ask (λ env. negsuc env.enoent) else (do
        retval ← write_referenced inited lnk origin cb serializer
        ncb ← get_ncb lnk
        objdefr ncb.hld
        return retval))
