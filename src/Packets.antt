-- ===== src/Packets.antt =====
-- packet.c: the life of a packet, and the calls that hand packets to the system.
pub mod Ownership
pub mod Balance
use swnet_win.Base.{
  ℕ, ℤ, pos, negsuc, minus_one, is_neg, eq_ℤ, Bool, true, false, ◌&&◌, ◌||◌, ◌==◌, Option, none,
  some, ltb, if◌then◌else◌,
}
use swnet_win.Types.{
  ProtoType, proto_udp, PktType, PageStyle, no_access, virtual_heap, non_paged_pool, SockAddr,
  Block, Packet, Ncb,
}
use swnet_win.World.{
  Env, World, M, U, return, when◌then◌else◌, on_option, ◌>>=◌, ◌>>◌, emit, Event, packet_made,
  packet_freed, posted, Syscall, wsa_send, wsa_recv, accept_ex, connect_ex, wsa_recv_from,
  wsa_send_to, transmit_packets, wsa_ioctl, wsa_connect, getsockname, inet_pton, objrefr, objdefr,
  get_ncb, put_ncb, syscall, overlapped, io_pending, address, ask, allocate_as, allocate,
  lock_pages, release,
}

-- Where the data of a new packet goes. `none` is the failure, `some none` a packet with no buffer.
pub packet_buffer : ℕ → PageStyle → M (Option (Option Block))
packet_buffer cb style =
    when ltb 0 cb
    then (λ env w. elim style [
      | non_paged_pool ↦
          (lock_pages cb >>= (λ b. on_option b (return none) (λ block. return (some (some block)))))
            env w
      | virtual_heap ↦
          (allocate cb >>= (λ b. on_option b (return none) (λ block. return (some (some block)))))
            env w
      | no_access ↦ return none env w
    ])
    else (λ env w. elim style [
      | no_access ↦ return (some none) env w
      | non_paged_pool ↦ return none env w
      | virtual_heap ↦ return none env w
    ])

abbrev pub null_addr : SockAddr
null_addr = record { port = 0; addr = 0 }

-- The fields of a fresh packet. `irp_` starts at the buffer.
pub init_packet : ℕ → ℤ → ProtoType → PktType → ℕ → PageStyle → Option Block → Packet
init_packet self h proto type cb style buffer = record {
  self = self;
  type = type;
  proto_type = proto;
  page_style = style;
  flag = 0;
  link = h;
  accepted_link = minus_one;
  remote_addr = null_addr;
  local_addr = null_addr;
  size_for_req = cb;
  size_for_translation = 0;
  size_completion = 0;
  analyzed_offset = 0;
  ori_buffer = buffer;
  irp = elim buffer [ none ↦ none | some b ↦ some 0 ];
  grp_packets = none;
  grp_packets_cnt = 0;
}

-- allocate_packet, into `output`
pub allocate_packet : ℤ → ProtoType → PktType → ℕ → PageStyle → M (Option Packet)
allocate_packet h proto type cb style = when is_neg h then return none else (do
  size ← ask (λ env. env.sizeof_packet)
  structure ← allocate_as packet_made size
  on_option structure (return none) (λ s. do
    buffer ← packet_buffer cb style
    on_option buffer (do emit (packet_freed s.address); return none)
        (λ b. return (some (init_packet s.address h proto type cb style b)))))

-- freepkt
unfoldable pub freepkt : Packet → M U
freepkt packet = do
  elim packet.page_style [
    | no_access ↦
        when ltb 0 packet.grp_packets_cnt
        then elim packet.grp_packets [
          | some g ↦ release (some g)
          | none ↦ release packet.ori_buffer
        ]
        else release packet.ori_buffer
    | non_paged_pool ↦ release packet.ori_buffer
    | virtual_heap ↦ release packet.ori_buffer
  ]
  emit (packet_freed packet.self)

-- What an overlapped call reports: SOCKET_ERROR is a failure unless the IO is pending. Whatever else
-- it reports, the system holds the packet.
pub submitted : Packet → ℤ → M ℤ
submitted packet retval =
    when eq_ℤ retval minus_one
    then (do
      pending ← io_pending
      when pending then (do emit (posted packet); return (pos 0)) else return minus_one)
    else (do emit (posted packet); return retval)

-- A call on the socket of the packet's link, between objrefr and objdefr.
pub on_link : ℤ → (Ncb → M ℤ) → M ℤ
on_link link body = do
  found ← objrefr link
  when found
      then (do ncb ← get_ncb link; retval ← body ncb; objdefr ncb.hld; return retval)
      else return minus_one

-- asio_tcp_send
pub asio_tcp_send : Packet → M ℤ
asio_tcp_send packet =
    on_link packet.link (λ ncb. do retval ← overlapped (wsa_send packet); submitted packet retval)

-- asio_tcp_recv
pub asio_tcp_recv : Packet → M ℤ
asio_tcp_recv packet =
    on_link packet.link (λ ncb. do retval ← overlapped (wsa_recv packet); submitted packet retval)

-- asio_udp_recv
pub asio_udp_recv : Packet → M ℤ
asio_udp_recv packet =
    on_link packet.link
      (λ ncb. do retval ← overlapped (wsa_recv_from packet); submitted packet retval)

-- A BOOL function: FALSE is a failure unless the IO is pending.
pub submitted_bool : Packet → ℤ → M ℤ
submitted_bool packet ok =
    when eq_ℤ ok (pos 0)
    then (do
      pending ← io_pending
      when pending then (do emit (posted packet); return (pos 0)) else return minus_one)
    else (do emit (posted packet); return (pos 0))

-- asio_tcp_connect
pub asio_tcp_connect : Packet → M ℤ
asio_tcp_connect packet = on_link packet.link (λ ncb. do
  status ← syscall (wsa_ioctl ncb.hld)
  when is_neg status
      then return minus_one
      else (do ok ← syscall (connect_ex packet); submitted_bool packet ok))

-- asio_tcp_accept. A link that is gone is passed over with 0, and nothing is posted.
pub asio_tcp_accept : Packet → M ℤ
asio_tcp_accept packet = on_link packet.link (λ ncb_listen. do
  status ← syscall (wsa_ioctl ncb_listen.hld)
  when is_neg status then return minus_one else (do
    found ← objrefr packet.accepted_link
    when found
        then (do
          ncb_income ← get_ncb packet.accepted_link
          ok ← syscall (accept_ex packet)
          retval ← submitted_bool packet ok
          objdefr ncb_income.hld
          return retval)
        else return (pos 0)))

-- syio_udp_send, which frees the packet once the call was made; `htons` is the byte swap of the
-- system's library.
pub syio_udp_send : (ℕ → ℕ) → Packet → ℕ → M ℤ
syio_udp_send htons packet r_port = do
  found ← objrefr packet.link
  when found
      then (do
        ncb ← get_ncb packet.link
        parsed ← syscall inet_pton
        when is_neg parsed || eq_ℤ parsed (pos 0)
            then (do objdefr packet.link; return minus_one)
            else (do
              target ← address
              retval ← syscall (
                  wsa_send_to
                    (record packet { remote_addr = record target { port = htons r_port } }))
              freepkt packet
              objdefr ncb.hld
              return (if eq_ℤ retval minus_one then minus_one else retval)))
      else return minus_one

-- syio_v_disconnect, on the control block at `h`
unfoldable pub syio_v_disconnect : ℤ → M ℤ
syio_v_disconnect h = do
  ncb ← get_ncb h
  elim ncb.proto_type [
    | proto_udp ↦
        when ncb.connected == 0
        then return (pos 0)
        else (do put_ncb h (record ncb { connected = 0 }); syscall (wsa_connect null_addr))
    | _ ↦ return minus_one
  ]

-- The local address, taken from the socket while the port or the address is not known.
unfoldable pub learn_local_addr : ℤ → (ℕ → ℕ) → M U
learn_local_addr h convert = do
  ncb ← get_ncb h
  when ncb.local_addr.port == 0 || ncb.local_addr.addr == 0
      then (do
        got ← syscall getsockname
        name ← address
        when is_neg got
            then return tt
            else put_ncb h
                (record ncb { local_addr = record { port = name.port; addr = convert name.addr } }))
      else return tt

-- syio_v_connect; `htonl` is the byte swap of the system's library
unfoldable pub syio_v_connect : (ℕ → ℕ) → ℤ → SockAddr → M ℤ
syio_v_connect htonl h r_addr = do
  retval ← syscall (wsa_connect r_addr)
  when eq_ℤ retval minus_one
      then return minus_one
      else (do learn_local_addr h htonl; return (pos 0))

-- syio_grp_send. `known` says whether an earlier call has found the extension function.
pub syio_grp_send : Bool → Packet → M ℤ
syio_grp_send known packet = on_link packet.link (λ ncb. do
  status ← (when known then return (pos 0) else syscall (wsa_ioctl ncb.hld))
  when is_neg status then return minus_one else (do
    ok ← syscall (transmit_packets packet)
    when eq_ℤ ok (pos 0) then return minus_one else return (pos 0)))
