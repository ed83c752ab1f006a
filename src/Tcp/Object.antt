-- ===== src/Tcp/Object.antt =====
-- The life of a TCP link, tcp.c: tcprefr, tcp_update_opts, tcp_entry, tcp_unload and
-- tcp_allocate_object.
pub mod References
pub mod Unload
pub mod Balance
use swnet_win.Base.{
  ℕ, ℤ, pos, negsuc, minus_one, is_neg, Bool, true, false, if◌then◌else◌, Option, none, some, List,
  [], ◌∷◌,
}
use swnet_win.Types.{proto_tcp, SockAddr, Packet, Ncb}
use swnet_win.Packets.{freepkt}
use swnet_win.Links.{ncb_init, ncb_post_preclose, ncb_post_close, ioatth, ioclose, free_context}
use swnet_win.Options.{
  so_rcvbuf, so_sndbuf, ncb_set_window_size, ncb_set_linger, ncb_set_keepalive, tcp_set_nodelay,
}
use swnet_win.Tcp.Recv.{ncb_unmark_lb}
use swnet_win.World.{
  new_object, Env, M, U, return, when◌then◌else◌, on_option, ◌>>=◌, ◌>>◌, emit, lock_entered,
  lock_left, setsockopt, wsa_socket, wsa_bind, objrefr, objdefr, objclos, get_ncb, put_ncb, syscall,
  ask,
}

-- tcprefr: 0 with a reference taken, or a negative error with none.
unfoldable pub tcprefr : ℤ → M ℤ
tcprefr hld = when is_neg hld then ask (λ env. negsuc env.einval) else (do
  found ← objrefr hld
  when found
      then (do
        ncb ← get_ncb hld
        elim ncb.proto_type [
          | proto_tcp ↦ return (pos 0)
          | _ ↦ do objdefr hld; ask (λ env. negsuc env.eprototype)
        ])
      else ask (λ env. negsuc env.enoent))

-- tcp_update_opts: SO_RCVBUF and SO_SNDBUF of TCP_BUFFER_SIZE, SO_LINGER, SO_KEEPALIVE and
-- TCP_NODELAY, in this order; the results do not count.
pub tcp_update_opts : M ℤ
tcp_update_opts = do
  ncb_set_window_size so_rcvbuf 0x11000
  ncb_set_window_size so_sndbuf 0x11000
  ncb_set_linger 1 0
  ncb_set_keepalive 1
  tcp_set_nodelay 1
  return (pos 0)

-- tcp_cinit_t
pub record TcpInit : Type 0 where
  pub ip : ℕ
  pub port : ℕ
  pub callback : Bool
  pub is_remote : Bool

-- tcp_entry, the part on the socket.
pub entry_socket : Bool → ℤ → Ncb → TcpInit → M ℤ
entry_socket inited h ncb ctx = when ctx.is_remote then return (pos 0) else (do
  tcp_update_opts
  put_ncb h (record ncb { local_addr = record { port = ctx.port; addr = ctx.ip } })
  bound ← syscall wsa_bind
  when is_neg bound then return minus_one else ioatth inited h)

-- tcp_entry, on the block of the object `h`
pub tcp_entry : Bool → ℤ → TcpInit → M ℤ
tcp_entry inited h ctx = do
  let fresh : Ncb = record (ncb_init proto_tcp) { nis_callback = ctx.callback; hld = h }
  put_ncb h fresh
  fd ← syscall wsa_socket
  elim fd [
    | negsuc n ↦ do ioclose h; return minus_one
    | pos s ↦ do
      put_ncb h (record fresh { sockfd = some s })
      retval ← entry_socket inited h (record fresh { sockfd = some s }) ctx
      when is_neg retval then (do ioclose h; return retval) else return retval
  ]

-- tcp_unload: the packets that wait are freed one by one.
pub drain : ℤ → List Packet → M U
drain h [] = return tt
drain h (packet ∷ rest) = do
  ncb ← get_ncb h
  put_ncb h (record ncb { tcp_sender_cache = rest })
  freepkt packet
  drain h rest

-- tcp_unload. The assertion of ncb_unmark_lb stops the program, which is no step here.
pub tcp_unload : ℤ → M U
tcp_unload h = do
  opened ← get_ncb h
  ncb_post_preclose opened
  ioclose h
  closed ← get_ncb h
  on_option (ncb_unmark_lb closed) (return tt) (λ ncb. do
    put_ncb h (record ncb { tcp_sender_list_size = 0 })
    emit (lock_entered h)
    drain h ncb.tcp_sender_cache
    emit (lock_left h)
    free_context ncb
    ncb_post_close ncb)

-- tcp_allocate_object
pub tcp_allocate_object : Bool → TcpInit → M ℤ
tcp_allocate_object inited ctx = do
  h ← new_object
  when is_neg h then return minus_one else (do
    found ← objrefr h
    retval ← (when found then tcp_entry inited h ctx else return minus_one)
    objdefr h
    when is_neg retval then (do objclos h; return minus_one) else return h)
