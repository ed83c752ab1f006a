-- ===== src/Network/References.antt =====
-- The references across an IO thread: __iorun of io.c.
use swnet_win.Base.{ℕ, ℤ, Bool, ◌≡◌, ◌≢◌, refl, Option, none, some, List, [], ◌∷◌}
use swnet_win.Types.{ProtoType, proto_udp, proto_tcp, proto_pipe, recv, Packet}
use swnet_win.World.{Env, World, return, on_option}
use swnet_win.Ledger.{KnowsHandles, KeepsRefs}
use swnet_win.Ledger.Held.{Allocates, Holds, Holds-then, Holds-give, Holds-when, Holds-KeepsRefs}
use swnet_win.Tcp.Io.{tcp_dispatch_io_event}
use swnet_win.Tcp.Io.Balance.{tcp_dispatch_io_event-Holds}
use swnet_win.Udp.Io.{udp_dispatch_io_event}
use swnet_win.Udp.Io.Balance.{udp_dispatch_io_event-Holds}
use swnet_win.Network.{Completion, so_dispatch_io_event, so_dispatch_pipe_event, iorun}

-- A packet that is neither a pipe's nor data that a TCP link received.
abbrev pub IsCounted : Packet → Type 0
IsCounted packet =
    (packet.proto_type ≢ proto_pipe) × (packet.proto_type ≡ proto_tcp → packet.type ≢ recv)

abbrev pub AreCounted : List Completion → Type 0
AreCounted [] = Unit {0}
AreCounted (c ∷ cs) = ((p : Packet) → c.ovlp ≡ some p → IsCounted p) × AreCounted cs

module _ {env : Env} (allocates : Allocates env) (inited known : Bool) (ntohs ntohl : ℕ → ℕ)
    {p : ℤ → ℕ} where
  packet-Holds :
      (q : Packet) (bytes status : ℕ)
      → IsCounted q
      → Holds env p (so_dispatch_io_event inited known ntohs ntohl (some q) bytes status) (λ u. p)
  unfolding so_dispatch_io_event on_option
  packet-Holds q bytes status counted = by_proto q.proto_type counted.0 counted.1
    where
      packet : Packet
      packet = record q { size_for_translation = bytes }

      by_proto :
          (proto : ProtoType)
          → proto ≢ proto_pipe
          → (proto ≡ proto_tcp → q.type ≢ recv)
          → Holds env p
              (elim proto [
                | proto_udp ↦ udp_dispatch_io_event ntohs packet status
                | proto_tcp ↦ tcp_dispatch_io_event inited known ntohl packet status
                | proto_pipe ↦ so_dispatch_pipe_event packet
                | _ ↦ return tt
              ])
              (λ u. p)
      by_proto proto_udp np nr = udp_dispatch_io_event-Holds ntohs packet status
      by_proto proto_tcp np nr =
          tcp_dispatch_io_event-Holds allocates inited known ntohl packet status (nr refl)
      by_proto proto_pipe np nr = absurd (np refl)
      by_proto _ np nr = Holds-give _

  nothing :
      (bytes status : ℕ)
      → Holds env p (so_dispatch_io_event inited known ntohs ntohl none bytes status) (λ u. p)
  unfolding so_dispatch_io_event on_option
  nothing bytes status = record { run = λ w known. (known, λ h. refl) }

  event-Holds :
      (o : Option Packet) (bytes status : ℕ)
      → ((q : Packet) → o ≡ some q → IsCounted q)
      → Holds env p (so_dispatch_io_event inited known ntohs ntohl o bytes status) (λ u. p)
  event-Holds none bytes status counted = nothing bytes status
  event-Holds (some q) bytes status counted = packet-Holds q bytes status (counted q refl)

  failed-Holds :
      (o : Option Packet) (bytes status : ℕ)
      → ((q : Packet) → o ≡ some q → IsCounted q)
      → Holds env p
          (on_option o
            (return tt)
            (λ q. so_dispatch_io_event inited known ntohs ntohl (some q) bytes status))
          (λ u. p)
  unfolding on_option
  failed-Holds none bytes status counted = record { run = λ w known. (known, λ h. refl) }
  failed-Holds (some q) bytes status counted = packet-Holds q bytes status (counted q refl)

  iorun-Holds :
      (cs : List Completion)
      → AreCounted cs
      → Holds env p (iorun inited known ntohs ntohl cs) (λ r. p)
  unfolding iorun
  iorun-Holds [] counted = Holds-give _
  iorun-Holds (c ∷ cs) counted =
      Holds-when
        (λ ok.
          Holds-when (λ last. Holds-give _)
            (λ more.
              Holds-then (event-Holds c.ovlp c.bytes_transfered c.status counted.0)
                (iorun-Holds cs counted.1)))
        (λ bad.
          Holds-then (failed-Holds c.ovlp c.bytes_transfered c.status counted.0)
            (iorun-Holds cs counted.1))

module _ (env : Env) (allocates : Allocates env) (inited known : Bool) (ntohs ntohl : ℕ → ℕ) where
  -- An IO thread that handles completions, in any order and with any results and statuses, gives
  -- back the references of every link as often as it takes them, through all the handlers of TCP
  -- and UDP, when none of the packets is a pipe's or data that a TCP link received. The object
  -- manager gives an object for a handle that it has just allocated, and control blocks know their
  -- handles.
  pub iorun-KeepsRefs :
      (cs : List Completion) (w : World) (h : ℤ)
      → AreCounted cs
      → KnowsHandles w
      → KeepsRefs h w (iorun inited known ntohs ntohl cs env w).1
  iorun-KeepsRefs cs w h counted knows =
      Holds-KeepsRefs w h (iorun-Holds allocates inited known ntohs ntohl cs counted) knows
