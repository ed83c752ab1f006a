-- ===== src/Tcp/Io/Receiving.antt =====
-- The references held by the handler of received data, tcp_dispatch_io_recv of tcp.c.
use swnet_win.Base.{
  ℕ, ℤ, is_neg, Bool, true, false, ◌≡◌, refl, ◌∙◌, Option, none, some, List, [], ◌∷◌, if◌then◌else◌,
  ◌==◌, arith,
}
use swnet_win.Types.{Packet, Ncb}
use swnet_win.World.{
  Env, World, Event, M, U, return, ◌>>=◌, ◌>>◌, when◌then◌else◌, put_ncb, objdefr, objclos,
}
use swnet_win.Packets.{asio_tcp_recv, freepkt}
use swnet_win.Packets.Balance.{freepkt-Holds, asio_tcp_recv-Holds}
use swnet_win.Ledger.{KnowsHandles, KeepsRefs}
use swnet_win.Ledger.Held.{
  Allocates, Moves, Holds, with_ref, Holds-bind, Holds-then, Holds-give, Holds-when, Holds-put,
  Holds-objdefr, Holds-objclos, Holds-notified,
}
use swnet_win.Tcp.Object.{tcprefr}
use swnet_win.Tcp.Object.Balance.{Holds-tcprefr}
use swnet_win.Tcp.Accept.{tcp_shutdown_by_packet}
use swnet_win.Tcp.Accept.Balance.{tcp_shutdown_by_packet-Holds}
use swnet_win.Tcp.Recv.{Received, Unpacked, recv_unpack}
use swnet_win.Tcp.Recv.Handle.{recv_unpack-Keeps}
use swnet_win.Tcp.Io.{notify_all, recv_referenced, tcp_dispatch_io_recv}

-- What malloc gives after a history.
abbrev pub blocks_after : Env → List Event → ℕ → Option (List ℕ)
blocks_after env t n = elim (env.malloc t n) [ none ↦ none | some b ↦ some b.bytes ]

-- The request unpacks without a fault, on the link as it is.
abbrev pub Unpacks : Env → World → Packet → Type 0
Unpacks env w packet =
    (t : List Event)
    → (out : Unpacked) × (recv_unpack (blocks_after env t) env.linkattr_tcp_fully_receive
          (w.ncbs packet.link) packet
        ≡ some out)

tcprefr-ncbs : (env : Env) (h : ℤ) (w : World) → (tcprefr h env w).1.ncbs ≡ w.ncbs
unfolding tcprefr ◌>>=◌ ◌>>◌ when◌then◌else◌
tcprefr-ncbs env h w = ground (arith)

-- What the handler does with an unpacked request.
abbrev opened : Packet → Ncb → Option Unpacked → M U
opened packet ncb o = elim o [
  | none ↦ return tt
  | some out ↦ do
    put_ncb packet.link out.ncb
    notify_all ncb.hld out.events
    retval ← (when is_neg out.retval then return out.retval else asio_tcp_recv out.packet)
    when is_neg retval then (do objclos out.ncb.hld; freepkt out.packet) else return tt
    objdefr out.ncb.hld
]

module _ {env : Env} where
  notify_all-Holds :
      {p : ℤ → ℕ} (h : ℤ) (es : List Received) → Holds env p (notify_all h es) (λ u. p)
  unfolding notify_all
  notify_all-Holds h [] = Holds-give _
  notify_all-Holds h (e ∷ es) = Holds-then (Holds-notified _ _) (notify_all-Holds h es)

  unpacked-Holds :
      {p : ℤ → ℕ} (packet : Packet) (ncb : Ncb) (out : Unpacked)
      → out.ncb.hld ≡ packet.link
      → Holds env (with_ref packet.link p) (opened packet ncb (some out)) (λ u. p)
  unpacked-Holds packet ncb out e = Holds-then (Holds-put e) (
      Holds-then (notify_all-Holds ncb.hld out.events) (
        Holds-bind (Holds-when (λ c. Holds-give _) (λ c. asio_tcp_recv-Holds out.packet)) (λ retval.
          Holds-then
            (Holds-when (λ c. Holds-then (Holds-objclos _) (freepkt-Holds out.packet))
              (λ c. Holds-give _))
            (Holds-objdefr packet.link e))))

module _ (env : Env) (p : ℤ → ℕ) where
  opened-Moves :
      (packet : Packet) (ncb : Ncb) (w : World) (o : Option Unpacked) (out : Unpacked)
      → KnowsHandles w
      → o ≡ some out
      → out.ncb.hld ≡ packet.link
      → Moves (with_ref packet.link p) p w (opened packet ncb o env w).1
  opened-Moves packet ncb w o out known e k = rw e ((unpacked-Holds packet ncb out k).run w known)

  recv_referenced-Moves :
      (inited : Bool) (packet : Packet) (w : World)
      → KnowsHandles w
      → Unpacks env w packet
      → Moves (with_ref packet.link p) p w (recv_referenced inited packet env w).1
  unfolding recv_referenced ◌>>=◌
  recv_referenced-Moves inited packet w known unpacks =
      let (out, e) = unpacks w.history in
      opened-Moves packet (w.ncbs packet.link) w _ out known e
        (recv_unpack-Keeps _ _ (w.ncbs packet.link) packet out e ∙ known packet.link)

  referenced-Moves :
      (inited found : Bool) (packet : Packet) (w : World)
      → KnowsHandles w
      → (found ≡ false → Unpacks env w packet)
      → Moves
          (if found then p else with_ref packet.link p)
          p
          w
          ((when found then freepkt packet else recv_referenced inited packet) env w).1
  unfolding when◌then◌else◌
  referenced-Moves inited true packet w known unpacks = (freepkt-Holds packet).run w known
  referenced-Moves inited false packet w known unpacks =
      recv_referenced-Moves inited packet w known (unpacks refl)

  sized-Moves :
      (allocates : Allocates env) (inited none_left : Bool) (packet : Packet) (w : World)
      → KnowsHandles w
      → (none_left ≡ false → Unpacks env w packet)
      → Moves p p w
          ((when none_left then tcp_shutdown_by_packet inited packet else (do
            found ← tcprefr packet.link
            when is_neg found then freepkt packet else recv_referenced inited packet))
            env w).1
  unfolding when◌then◌else◌ ◌>>=◌
  sized-Moves allocates inited true packet w known unpacks =
      (tcp_shutdown_by_packet-Holds allocates inited packet).run w known
  sized-Moves allocates inited false packet w known unpacks =
      let a = (Holds-tcprefr {env = env} {p = p} packet.link).run w known in
      let same = tcprefr-ncbs env packet.link w in
      let b =
        referenced-Moves inited (is_neg (tcprefr packet.link env w).0) packet
          (tcprefr packet.link env w).1 a.0 (λ ok t. rw same (unpacks refl t)) in
      (b.0, λ h. omega (arith, a.1 h, b.1 h))

  tcp_dispatch_io_recv-Moves :
      (allocates : Allocates env) (inited : Bool) (packet : Packet) (w : World)
      → KnowsHandles w
      → ((packet.size_for_translation == 0) ≡ false → Unpacks env w packet)
      → Moves p p w (tcp_dispatch_io_recv inited packet env w).1
  unfolding tcp_dispatch_io_recv
  tcp_dispatch_io_recv-Moves allocates inited packet w known unpacks =
      sized-Moves allocates inited (packet.size_for_translation == 0) packet w known unpacks

-- tcp_dispatch_io_recv gives back the references of every link as often as it takes them, on every
-- branch: no bytes received, a link that is gone, a malformed stream, and a next request that the
-- system refuses. A request with bytes unpacks without a fault on the link as it is, the object
-- manager gives an object for a handle that it has just allocated, and control blocks know their
-- handles.
pub tcp_dispatch_io_recv-KeepsRefs :
    (env : Env) (allocates : Allocates env) (inited : Bool) (packet : Packet) (w : World) (h : ℤ)
    → KnowsHandles w
    → ((packet.size_for_translation == 0) ≡ false → Unpacks env w packet)
    → KeepsRefs h w (tcp_dispatch_io_recv inited packet env w).1
tcp_dispatch_io_recv-KeepsRefs env allocates inited packet w h known unpacks =
    let a = tcp_dispatch_io_recv-Moves env (λ k. 0) allocates inited packet w known unpacks in
    omega (arith, a.1 h)
