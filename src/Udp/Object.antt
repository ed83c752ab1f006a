-- ===== src/Udp/Object.antt =====
-- The life of a UDP link, udp.c: udprefr, udp_update_opts, udp_entry, udp_unload,
-- udp_allocate_object, udp_allocate_recv_array and udp_create.
pub mod Balance
use swnet_win.Base.{
  ℕ, zero, suc, ◌*◌, ◌==◌, bit_and, bit_or, ℤ, pos, negsuc, minus_one, is_neg, is_nonpos, Bool,
  true, false, not, ◌&&◌, if◌then◌else◌, Option, none, some, List, [], ◌∷◌,
}
use swnet_win.Types.{proto_udp, recv, non_paged_pool, Block, Packet}
use swnet_win.Packets.{allocate_packet, freepkt, asio_udp_recv}
use swnet_win.Links.{ncb_init, ncb_post_preclose, ncb_post_close, ioatth, ioclose, free_context}
use swnet_win.Os.{page_size}
use swnet_win.Options.{
  so_rcvbuf, so_sndbuf, so_broadcast, get_option, ncb_set_window_size, ncb_set_linger,
}
use swnet_win.World.{
  M, U, return, when◌then◌else◌, on_option, ◌>>=◌, ◌>>◌, setsockopt, wsa_ioctl, wsa_socket,
  wsa_bind, getsockname, inet_pton, new_object, objrefr, objdefr, objclos, get_ncb, put_ncb,
  syscall, address, ask, allocate, release,
}

-- udprefr: 0 with a reference taken, or a negative error with none.
unfoldable pub udprefr : ℤ → M ℤ
udprefr hld = when is_neg hld then ask (λ env. negsuc env.enoent) else (do
  found ← objrefr hld
  when found
      then (do
        ncb ← get_ncb hld
        elim ncb.proto_type [
          | proto_udp ↦ return (pos 0)
          | _ ↦ do objdefr hld; ask (λ env. negsuc env.eprototype)
        ])
      else ask (λ env. negsuc env.enoent))

-- udp_update_opts: buffers of 0xFFFF bytes, and SO_LINGER on with no time.
unfoldable pub udp_update_opts : M ℤ
udp_update_opts = do
  ncb_set_window_size so_rcvbuf 0xFFFF
  ncb_set_window_size so_sndbuf 0xFFFF
  ncb_set_linger 1 0
  return (pos 0)

-- udp_set_boardcast and udp_get_boardcast
unfoldable pub udp_set_boardcast : ℕ → M ℤ
udp_set_boardcast enable = syscall (setsockopt so_broadcast enable)

pub udp_get_boardcast : M (ℤ × Option ℕ)
udp_get_boardcast = get_option so_broadcast

-- udp_cinit_t
pub record UdpInit : Type 0 where
  pub ipv4 : ℕ
  pub port : ℕ
  pub f_user_callback : Bool
  pub ncb_flag : ℕ

-- udp_entry: the port that the system chose, where none is asked for.
unfoldable pub learn_port : (ℕ → ℕ) → ℤ → UdpInit → M U
learn_port ntohs h ctx =
    when ctx.port == 0
    then (do
      got ← syscall getsockname
      name ← address
      ncb ← get_ncb h
      when is_neg got
          then return tt
          else put_ncb h
              (record ncb { local_addr = record ncb.local_addr { port = ntohs name.port } }))
    else return tt

-- udp_entry: the flags. Broadcast is an option of the socket, multicast a mark alone.
unfoldable pub entry_flags : ℤ → UdpInit → M ℤ
entry_flags h ctx = do
  broadcast ← ask (λ env. env.udp_flag_broadcast)
  multicast ← ask (λ env. env.udp_flag_multicast)
  ncb ← get_ncb h
  when bit_and ctx.ncb_flag broadcast == 0
      then when bit_and ctx.ncb_flag multicast == 0
        then return (pos 0)
        else (do put_ncb h (record ncb { flag = bit_or ncb.flag multicast }); return (pos 0))
      else (do
        retval ← udp_set_boardcast 1
        when is_neg retval
            then return minus_one
            else (do put_ncb h (record ncb { flag = bit_or ncb.flag broadcast }); return (pos 0)))

-- udp_entry, on a socket; a negative result is the way out of its block
unfoldable pub udp_entry_socket : (ℕ → ℕ) → Bool → ℤ → UdpInit → M ℤ
udp_entry_socket ntohs inited h ctx = do
  bound ← syscall wsa_bind
  when is_neg bound then return minus_one else (do
    ncb ← get_ncb h
    put_ncb h (record ncb { local_addr = record { port = ctx.port; addr = ctx.ipv4 } })
    learn_port ntohs h ctx
    udp_update_opts
    flags ← entry_flags h ctx
    when is_neg flags then return minus_one else (do
      reset ← syscall (wsa_ioctl h)
      when is_neg reset then return minus_one else (do
        attached ← ioatth inited h
        when is_neg attached then return minus_one else (do
          ready ← get_ncb h
          put_ncb h (record ready { nis_callback = ctx.f_user_callback })
          return (pos 0)))))

-- udp_entry, on the block of the object `h`
unfoldable pub udp_entry : (ℕ → ℕ) → Bool → ℤ → UdpInit → M ℤ
udp_entry ntohs inited h ctx = do
  put_ncb h (record (ncb_init proto_udp) { hld = h })
  fd ← syscall wsa_socket
  elim fd [
    | negsuc n ↦ return minus_one
    | pos s ↦ do
      put_ncb h (record (ncb_init proto_udp) { hld = h; sockfd = some s })
      retval ← udp_entry_socket ntohs inited h ctx
      when is_neg retval then (do ioclose h; return minus_one) else return (pos 0)
  ]

-- udp_unload
pub udp_unload : ℤ → M U
udp_unload h = do
  opened ← get_ncb h
  ncb_post_preclose opened
  ioclose h
  ncb ← get_ncb h
  free_context ncb
  ncb_post_close ncb

-- udp_allocate_object
unfoldable pub udp_allocate_object : (ℕ → ℕ) → Bool → UdpInit → M ℤ
udp_allocate_object ntohs inited ctx = do
  h ← new_object
  when is_neg h then return minus_one else (do
    found ← objrefr h
    retval ← (when found then udp_entry ntohs inited h ctx else return minus_one)
    objdefr h
    when is_neg retval then (do objclos h; return minus_one) else return h)

-- udp_allocate_recv_array: the packets allocated, and whether all of them are.
unfoldable pub recv_packets : ℤ → ℕ → ℕ → M (Bool × List Packet)
recv_packets h size zero = return (true, [])
recv_packets h size (suc cnt) = do
  packet ← allocate_packet h proto_udp recv size non_paged_pool
  on_option packet (return (false, []))
      (λ p. do rest ← recv_packets h size cnt; return (rest.0, p ∷ rest.1))

unfoldable pub free_packets : List Packet → M U
free_packets [] = return tt
free_packets (packet ∷ rest) = do freepkt packet; free_packets rest

-- udp_allocate_recv_array, the array with its own block. No packet at all is a failure.
unfoldable pub udp_allocate_recv_array : ℤ → ℕ → M (Option (Block × List Packet))
udp_allocate_recv_array h cnt = do
  size ← ask (λ env. env.sizeof_pointer)
  pkt_array ← allocate (size * cnt)
  on_option pkt_array (return none) (λ block. do
    packets ← recv_packets h page_size cnt
    when packets.0 && not (cnt == 0)
        then return (some (block, packets.1))
        else (do free_packets packets.1; release (some block); return none))

-- udp_create: the requests for data; what each call gives does not count
unfoldable pub recv_all : List Packet → M U
recv_all [] = return tt
recv_all (packet ∷ rest) = do asio_udp_recv packet; recv_all rest

-- so_asio_count
abbrev pub so_asio_count : ℕ
so_asio_count = 1

-- udp_create. The address is `none` for NULL, and INVALID_HUDPLINK is -1.
unfoldable pub udp_create : (ℕ → ℕ) → (ℕ → ℕ) → Bool → Bool → Bool → ℕ → ℕ → M ℤ
udp_create ntohs htons inited has_callback has_address l_port flag =
    when has_callback && not (so_asio_count == 0)
    then (do
      parsed ← (when has_address then syscall inet_pton else return (pos 1))
      given ← address
      when is_nonpos parsed then return minus_one else (do
        h ← udp_allocate_object ntohs inited (record {
          ipv4 = if has_address then given.addr else 0;
          port = htons l_port;
          f_user_callback = has_callback;
          ncb_flag = flag;
        })
        when is_neg h then return minus_one else (do
          pkt_array ← udp_allocate_recv_array h so_asio_count
          on_option pkt_array (do objclos h; return minus_one)
              (λ a. do recv_all a.1; release (some a.0); return h))))
    else return minus_one
