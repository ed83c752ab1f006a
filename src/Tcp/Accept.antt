-- ===== src/Tcp/Accept.antt =====
-- Accepting links, tcp.c: tcp_syn, tcp_syn_copy, tcp_shutdown_by_packet and tcp_dispatch_io_syn.
pub mod Balance
use swnet_win.Base.{
  ℕ, zero, suc, ◌+◌, ℤ, pos, minus_one, is_neg, Bool, true, false, none, some, ◌==◌, bit_and,
}
use swnet_win.Types.{proto_tcp, send, recv, syn, connect, virtual_heap, Packet}
use swnet_win.Packets.{allocate_packet, freepkt, asio_tcp_accept, asio_tcp_recv}
use swnet_win.Links.{ioatth, ncb_post_accepted}
use swnet_win.Tcp.Recv.{tcp_recv_buffer_size}
use swnet_win.Tcp.Object.{tcprefr, tcp_allocate_object}
use swnet_win.Options.{so_update_accept_context}
use swnet_win.World.{
  on_option, M, U, return, when◌then◌else◌, ◌>>=◌, ◌>>◌, wsa_ioctl, setsockopt, objdefr, objclos,
  get_ncb, put_ncb, syscall, address, ask,
}

-- TCP_ACCEPT_EXTENSION_SIZE
abbrev pub tcp_accept_extension_size : ℕ
tcp_accept_extension_size = 1024

-- `do { … } while (i++ < TCP_SYN_REQ_TIMES)` makes TCP_SYN_REQ_TIMES + 1 rounds at most.
abbrev pub tcp_syn_rounds : ℕ
tcp_syn_rounds = 150 + 1

module _ (inited : Bool) where
  -- The rounds of tcp_syn, for the listening link at `h`.
  pub syn_loop : ℕ → ℤ → Packet → M ℤ
  syn_loop zero h syn_packet = do ncb_listen ← get_ncb h; objclos ncb_listen.hld; return minus_one
  syn_loop (suc n) h syn_packet = do
    ncb_listen ← get_ncb h
    income ←
        tcp_allocate_object inited
          (record { ip = 0; port = 0; callback = ncb_listen.nis_callback; is_remote = true })
    when is_neg income then (do objclos ncb_listen.hld; return minus_one) else (do
      retval ← asio_tcp_accept (record syn_packet { accepted_link = income })
      when is_neg retval then (do objclos income; syn_loop n h syn_packet) else return (pos 0))

  -- tcp_syn
  pub tcp_syn : ℤ → M ℤ
  tcp_syn h = do
    ncb_listen ← get_ncb h
    syn_packet ← allocate_packet ncb_listen.hld proto_tcp syn tcp_accept_extension_size virtual_heap
    on_option syn_packet (return minus_one) (λ packet. syn_loop tcp_syn_rounds h packet)

  -- tcp_syn_copy, the context that the listening link hands on
  pub copy_context : ℤ → ℤ → M U
  copy_context h_listen h_accepted = do
    ncb_listen ← get_ncb h_listen
    ncb_accepted ← get_ncb h_accepted
    mask ← ask (λ env. env.linkattr_tcp_update_accept_context)
    when bit_and ncb_listen.attr mask == 0
        then return tt
        else put_ncb h_accepted
            (record ncb_accepted { attr = ncb_listen.attr; tcp_tst = ncb_listen.tcp_tst })

  -- tcp_syn_copy. `known` says whether an earlier call has found the extension function.
  pub tcp_syn_copy : Bool → ℤ → ℤ → Packet → M ℤ
  tcp_syn_copy known h_listen h_accepted packet = do
    status ← (when known then return (pos 0) else syscall (wsa_ioctl h_accepted))
    when is_neg status then return minus_one else (do
      retval ← syscall (setsockopt so_update_accept_context 0)
      when is_neg retval then return minus_one else (do
        r_addr ← address
        l_addr ← (λ env w. (env.accepted_local w.history, w))
        copy_context h_listen h_accepted
        ncb_accepted ← get_ncb h_accepted
        put_ncb h_accepted (record ncb_accepted { remote_addr = r_addr; local_addr = l_addr })
        attached ← ioatth inited h_accepted
        when is_neg attached then return minus_one else (do
          ncb_listen ← get_ncb h_listen
          ncb_post_accepted ncb_listen ncb_accepted.hld
          return (pos 0))))

  -- tcp_shutdown_by_packet
  pub tcp_shutdown_by_packet : Packet → M U
  tcp_shutdown_by_packet packet = elim packet.type [
    | recv ↦ do objclos packet.link; freepkt packet
    | send ↦ do objclos packet.link; freepkt packet
    | connect ↦ do objclos packet.link; freepkt packet
    | syn ↦ do
      found ← tcprefr packet.link
      when is_neg found
          then return tt
          else (do tcp_syn packet.link; ncb ← get_ncb packet.link; objdefr ncb.hld)
      objclos packet.accepted_link
      freepkt packet
    | _ ↦ return tt
  ]

  -- tcp_dispatch_io_syn: the accepted link starts to receive.
  pub accepted_recv : Bool → ℤ → ℤ → Packet → M ℤ
  accepted_recv known h_listen h_accepted packet = do
    copied ← tcp_syn_copy known h_listen h_accepted packet
    when is_neg copied then return copied else (do
      ncb_accepted ← get_ncb h_accepted
      packet_recv ←
          allocate_packet ncb_accepted.hld proto_tcp recv tcp_recv_buffer_size virtual_heap
      on_option packet_recv (return minus_one) (λ p. asio_tcp_recv p))

  -- tcp_dispatch_io_syn
  pub tcp_dispatch_io_syn : Bool → Packet → M U
  tcp_dispatch_io_syn known packet = do
    listening ← tcprefr packet.link
    when is_neg listening then return tt else (do
      accepted ← tcprefr packet.accepted_link
      when is_neg accepted then return tt else (do
        retval ← accepted_recv known packet.link packet.accepted_link packet
        ncb_accepted ← get_ncb packet.accepted_link
        when is_neg retval then objclos ncb_accepted.hld else return tt
        objdefr ncb_accepted.hld)
      next ← tcp_syn packet.link
      ncb_listen ← get_ncb packet.link
      when is_neg next then objclos ncb_listen.hld else return tt
      objdefr ncb_listen.hld)
