-- ===== src/Tcp/Io/Balance.antt =====
-- The references held by the handlers of tcp.c for sends, failures and connects, step by step.
use swnet_win.Base.{
  ℕ, ℤ, minus_one, is_neg, Bool, ◌≡◌, ◌≢◌, refl, ◌∙◌, Option, none, some, List, arith,
}
use swnet_win.Types.{PktType, send, recv, syn, connect, Packet, Ncb}
use swnet_win.World.{Env, return, on_option, ◌>>◌, put_ncb, emit, lock_left}
use swnet_win.Packets.Balance.{freepkt-Holds, asio_tcp_send-Holds}
use swnet_win.Ledger.Held.{
  Allocates, Holds, Holds-bind, Holds-then, Holds-give, Holds-when, Holds-branch, Holds-get,
  Holds-put, Holds-ask, Holds-enter, Holds-leave, Holds-objdefr,
}
use swnet_win.Tcp.Send.{Locked, take_next, try_write_locked, release_pending}
use swnet_win.Tcp.Object.Balance.{Holds-tcprefr}
use swnet_win.Tcp.Accept.Balance.{tcp_shutdown_by_packet-Holds}
use swnet_win.Links.{ncb_post_connected}
use swnet_win.Packets.Balance.{learn_local_addr-Holds, allocate_packet-Holds, asio_tcp_recv-Holds}
use swnet_win.Ledger.Held.{
  Holds-on_option, Holds-syscall, Holds-address, Holds-notified, Holds-objclos,
}
use swnet_win.Tcp.Io.{
  update_remote_addr, connected_recv, tcp_dispatch_io_connected, send_next, tcp_try_write,
  tcp_dispatch_io_send, tcp_dispatch_io_recv, tcp_dispatch_io_exception, tcp_dispatch_io_event,
}
use swnet_win.Tcp.Accept.{tcp_dispatch_io_syn}
use swnet_win.Tcp.Accept.Balance.{tcp_dispatch_io_syn-Holds}

-- The critical section does not change the handle.
locked_hld :
    (others : List ℕ) (ncb : Ncb) (packet : Option Packet) (r : Locked)
    → try_write_locked others ncb packet ≡ some r
    → r.ncb.hld ≡ ncb.hld
unfolding try_write_locked take_next
locked_hld others ncb none r e = ground (arith, e)
locked_hld others ncb (some p) r e = ground (arith, e)

module _ {env : Env} (allocates : Allocates env) (inited : Bool) where
  send_next-Holds :
      {p : ℤ → ℕ} (retval : ℤ) (packet : Option Packet)
      → Holds env p (send_next inited retval packet) (λ r. p)
  unfolding send_next
  send_next-Holds retval none = Holds-give _
  send_next-Holds retval (some packet) = Holds-bind (asio_tcp_send-Holds packet) (λ sent.
      Holds-then
        (Holds-when (λ c. tcp_shutdown_by_packet-Holds allocates inited packet) (λ c. Holds-give _))
        (Holds-give _))

  locked-Holds :
      {p : ℤ → ℕ} {h : ℤ} (others : List ℕ) (ncb : Ncb) (packet : Option Packet) (o : Option Locked)
      → ncb.hld ≡ h
      → try_write_locked others ncb packet ≡ o
      → Holds env p
          (on_option o
            (return minus_one)
            (λ r. do put_ncb h r.ncb; emit (lock_left h); send_next inited r.retval r.next_packet))
          (λ r. p)
  unfolding on_option
  locked-Holds others ncb packet none e i = record { run = λ w known. (known, λ k. refl) }
  locked-Holds others ncb packet (some r) e i =
      Holds-then (Holds-put (locked_hld others ncb packet r i ∙ e))
        (Holds-then (Holds-leave _) (send_next-Holds _ _))

  tcp_try_write-Holds :
      {p : ℤ → ℕ} (h : ℤ) (packet : Option Packet)
      → Holds env p (tcp_try_write inited h packet) (λ r. p)
  unfolding tcp_try_write
  tcp_try_write-Holds h packet = Holds-then (Holds-enter h) (
      Holds-get (λ ncb e.
        Holds-bind (Holds-ask (λ env w. env.interference w.history))
          (λ others. locked-Holds others ncb packet _ e refl)))

  pub tcp_dispatch_io_send-Holds :
      {p : ℤ → ℕ} (packet : Packet) → Holds env p (tcp_dispatch_io_send inited packet) (λ u. p)
  unfolding tcp_dispatch_io_send release_pending
  tcp_dispatch_io_send-Holds packet =
      Holds-when (λ c. tcp_shutdown_by_packet-Holds allocates inited packet)
        (λ c. Holds-bind (Holds-tcprefr packet.link) (λ found.
          Holds-branch (is_neg found) (freepkt-Holds packet) (
            Holds-get (λ n e. Holds-then (Holds-put e) (
              Holds-then (tcp_try_write-Holds packet.link none)
                (Holds-then (freepkt-Holds packet) (Holds-objdefr packet.link refl)))))))

  pub tcp_dispatch_io_exception-Holds :
      {p : ℤ → ℕ} (packet : Packet) (status : ℕ)
      → Holds env p (tcp_dispatch_io_exception inited packet status) (λ u. p)
  unfolding tcp_dispatch_io_exception release_pending
  tcp_dispatch_io_exception-Holds packet status = Holds-bind (Holds-tcprefr packet.link) (λ found.
      Holds-branch (is_neg found) (freepkt-Holds packet) (
        Holds-then
          (Holds-when
            (λ s.
              Holds-when (λ d. tcp_shutdown_by_packet-Holds allocates inited packet)
                (λ d. Holds-get (λ n e. Holds-then (Holds-put e) (
                  Holds-then (freepkt-Holds packet)
                    (Holds-then (tcp_try_write-Holds packet.link none) (Holds-give _))))))
            (λ s. tcp_shutdown_by_packet-Holds allocates inited packet))
          (Holds-get (λ n e. Holds-objdefr packet.link e))))

  connected_Holds : {p : ℤ → ℕ} (ncb : Ncb) → Holds env p (ncb_post_connected ncb) (λ u. p)
  unfolding ncb_post_connected
  connected_Holds ncb = Holds-when (λ c. Holds-notified _ _) (λ c. Holds-give _)

  update_remote_addr-Holds : {p : ℤ → ℕ} (h : ℤ) → Holds env p (update_remote_addr h) (λ u. p)
  unfolding update_remote_addr
  update_remote_addr-Holds h = Holds-bind (Holds-syscall _) (λ updated.
      Holds-when (λ c. Holds-give _)
        (λ c. Holds-bind (Holds-syscall _) (λ got.
          Holds-bind Holds-address
            (λ peer. Holds-get (λ n e. Holds-when (λ c. Holds-give _) (λ c. Holds-put e))))))

  connected_recv-Holds : {p : ℤ → ℕ} (h : ℤ) → Holds env p (connected_recv inited h) (λ r. p)
  unfolding connected_recv
  connected_recv-Holds h = Holds-get (λ n e. Holds-bind (allocate_packet-Holds _ _ _ _ _) (λ o.
      Holds-on_option o (Holds-give _) (λ packet. Holds-bind (asio_tcp_recv-Holds packet) (λ r.
        Holds-when
          (λ c. Holds-then (tcp_shutdown_by_packet-Holds allocates inited packet) (Holds-give _))
          (λ c. Holds-give _)))))

  pub tcp_dispatch_io_connected-Holds :
      {p : ℤ → ℕ} (ntohl : ℕ → ℕ) (packet : Packet)
      → Holds env p (tcp_dispatch_io_connected inited ntohl packet) (λ u. p)
  unfolding tcp_dispatch_io_connected
  tcp_dispatch_io_connected-Holds ntohl packet = Holds-bind (Holds-tcprefr packet.link) (λ found.
      Holds-branch (is_neg found) (freepkt-Holds packet) (
        Holds-then (freepkt-Holds packet) (
          Holds-then (learn_local_addr-Holds packet.link ntohl) (
            Holds-then (update_remote_addr-Holds packet.link) (
              Holds-bind (connected_recv-Holds packet.link) (λ receiving. Holds-get (λ n e.
                Holds-when (λ c. Holds-then (connected_Holds n) (Holds-objdefr packet.link e))
                  (λ c. Holds-then (Holds-objdefr packet.link e) (Holds-objclos _)))))))))

  pub tcp_dispatch_io_event-Holds :
      {p : ℤ → ℕ} (found : Bool) (ntohl : ℕ → ℕ) (packet : Packet) (status : ℕ)
      → packet.type ≢ recv
      → Holds env p (tcp_dispatch_io_event inited found ntohl packet status) (λ u. p)
  unfolding tcp_dispatch_io_event
  tcp_dispatch_io_event-Holds {p = p} found ntohl packet status not_recv =
      Holds-when (λ c. by_type packet.type not_recv)
        (λ c. tcp_dispatch_io_exception-Holds packet status)
    where
      by_type :
          (type : PktType)
          → type ≢ recv
          → Holds env p
              (elim type [
                | syn ↦ tcp_dispatch_io_syn inited found packet
                | recv ↦ tcp_dispatch_io_recv inited packet
                | send ↦ tcp_dispatch_io_send inited packet
                | connect ↦ tcp_dispatch_io_connected inited ntohl packet
                | _ ↦ return tt
              ])
              (λ u. p)
      by_type syn ne = tcp_dispatch_io_syn-Holds allocates inited found packet
      by_type recv ne = absurd (ne refl)
      by_type send ne = tcp_dispatch_io_send-Holds packet
      by_type connect ne = tcp_dispatch_io_connected-Holds ntohl packet
      by_type _ ne = Holds-give _
