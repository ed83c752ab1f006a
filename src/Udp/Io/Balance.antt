-- ===== src/Udp/Io/Balance.antt =====
-- The references that the handlers of udp.c for IO events hold, step by step.
use swnet_win.Base.{ℕ, ℤ, is_neg}
use swnet_win.Types.{PktType, send, recv, Packet, Ncb}
use swnet_win.World.{Env, return}
use swnet_win.Packets.Balance.{freepkt-Holds, asio_udp_recv-Holds}
use swnet_win.Ledger.Held.{
  Holds, Holds-bind, Holds-then, Holds-give, Holds-when, Holds-branch, Holds-get, Holds-syscall,
  Holds-objdefr, Holds-objclos, Holds-notified,
}
use swnet_win.Udp.Object.Balance.{Holds-udprefr}
use swnet_win.Udp.Io.{
  udp_shutdown_by_packet, udp_notify, recv_again, udp_dispatch_io_recv, udp_dispatch_io_send,
  udp_dispatch_io_exception, udp_dispatch_io_event,
}

module _ {env : Env} {p : ℤ → ℕ} where
  shutdown-Holds : (packet : Packet) → Holds env p (udp_shutdown_by_packet packet) (λ u. p)
  unfolding udp_shutdown_by_packet
  shutdown-Holds packet = Holds-then (Holds-objclos _) (freepkt-Holds packet)

  notify-Holds :
      (ntohs : ℕ → ℕ) (packet : Packet) (ncb : Ncb)
      → Holds env p (udp_notify ntohs packet ncb) (λ u. p)
  unfolding udp_notify
  notify-Holds ntohs packet ncb =
      Holds-when
        (λ c.
          Holds-bind (Holds-syscall _)
            (λ text. Holds-when (λ d. Holds-notified _ _) (λ d. Holds-give _)))
        (λ c. Holds-give _)

  recv_again-Holds : (packet : Packet) → Holds env p (recv_again packet) (λ u. p)
  unfolding recv_again
  recv_again-Holds packet = Holds-then (asio_udp_recv-Holds _) (Holds-give _)

module _ {env : Env} {p : ℤ → ℕ} where
  recv-Holds :
      (ntohs : ℕ → ℕ) (packet : Packet) → Holds env p (udp_dispatch_io_recv ntohs packet) (λ u. p)
  unfolding udp_dispatch_io_recv
  recv-Holds ntohs packet = Holds-bind (Holds-udprefr packet.link) (λ found.
      Holds-branch (is_neg found) (Holds-give _) (
        Holds-get (λ n e. Holds-then (notify-Holds ntohs packet n) (
          Holds-then (recv_again-Holds packet)
            (Holds-get (λ after e'. Holds-objdefr packet.link e'))))))

  exception-Holds :
      (packet : Packet) (status : ℕ)
      → Holds env p (udp_dispatch_io_exception packet status) (λ u. p)
  unfolding udp_dispatch_io_exception
  exception-Holds packet status = Holds-bind (Holds-udprefr packet.link) (λ found.
      Holds-branch (is_neg found) (Holds-give _) (
        Holds-then (Holds-when (λ c. recv_again-Holds packet) (λ c. shutdown-Holds packet))
          (Holds-get (λ n e. Holds-objdefr packet.link e))))

  pub udp_dispatch_io_event-Holds :
      (ntohs : ℕ → ℕ) (packet : Packet) (status : ℕ)
      → Holds env p (udp_dispatch_io_event ntohs packet status) (λ u. p)
  unfolding udp_dispatch_io_event udp_dispatch_io_send
  udp_dispatch_io_event-Holds ntohs packet status =
      Holds-when (λ c. Holds-when (λ d. shutdown-Holds packet) (λ d. by_type packet.type))
        (λ c. exception-Holds packet status)
    where
      by_type :
          (type : PktType)
          → Holds env p
              (elim type [
                | recv ↦ udp_dispatch_io_recv ntohs packet
                | send ↦ udp_dispatch_io_send packet
                | _ ↦ return tt
              ])
              (λ u. p)
      by_type recv = recv-Holds ntohs packet
      by_type send = freepkt-Holds packet
      by_type _ = Holds-give _
