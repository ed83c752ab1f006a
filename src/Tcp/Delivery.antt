-- ===== src/Tcp/Delivery.antt =====
-- From tcp_write on one side to the callbacks of tcp_dispatch_io_recv on the other, tcp.c.
use swnet_win.Base.{
  ℕ, is_neg, false, subst, inl, inr, ◌≡◌, sym, ap, ◌∙◌, Option, some, List, [], flatten,
}
use swnet_win.Types.{Ncb, Packet}
use swnet_win.Tcp.Recv.{Unpacked}
use swnet_win.Tcp.Recv.Spec.{Link, Outcome, rest, malformed, deframe}
use swnet_win.Tcp.Recv.Waits.{Waits, Mallocs}
use swnet_win.Tcp.Recv.Segment.{HasTemplate}
use swnet_win.Tcp.Recv.Stream.{recv_stream, AllFit, Agrees, recv_stream-deframe}
use swnet_win.Tcp.Write.Framing.{AllFrames, message_events, frames-deframe}

abbrev rest_of : Outcome → List ℕ
rest_of (rest xs) = xs
rest_of malformed = []

module _ (malloc : ℕ → Option (List ℕ)) (mask : ℕ) (l : Link) (mallocs : Mallocs malloc)
    (template : HasTemplate l) where
  -- Two ways to cut the same stream into segments make the same callbacks in the same order, and
  -- one fails exactly if the other does; neither faults. Malloc gives the block it is asked for,
  -- the template has at least one byte and fits the receive buffer, and the link waits with no byte
  -- held.
  pub recv_stream-resegment :
      (ncb : Ncb) (p : Packet) (segs segs' : List (List ℕ))
      → Waits mask l ncb p []
      → AllFit malloc mask ncb p segs
      → AllFit malloc mask ncb p segs'
      → flatten segs ≡ flatten segs'
      → (out out' : Unpacked) × (recv_stream malloc mask ncb p segs ≡ some out)
        × (recv_stream malloc mask ncb p segs' ≡ some out')
        × (out.events ≡ out'.events)
        × (is_neg out.retval ≡ is_neg out'.retval)
  recv_stream-resegment ncb p segs segs' w fit fit' same =
      let (out, e, a) = recv_stream-deframe malloc mask l mallocs template ncb p segs w fit in
      let (out', e', a') = recv_stream-deframe malloc mask l mallocs template ncb p segs' w fit' in
      let (d, n) = both (flatten segs) out out' a (rw same a') in (out, out', e, e', d, n)
    where
      both :
          (xs : List ℕ) (out out' : Unpacked)
          → Agrees malloc mask l mallocs template xs out
          → Agrees malloc mask l mallocs template xs out'
          → (out.events ≡ out'.events) × (is_neg out.retval ≡ is_neg out'.retval)
      both xs out out' (inl (h, n, d, w)) (inl (h', n', d', w')) = (cc, cc)
      both xs out out' (inr (n, d)) (inr (n', d')) = (cc, cc)
      both xs out out' (inl (h, n, d, w)) (inr (n', d')) = cc
      both xs out out' (inr (n, d)) (inl (h', n', d', w')) = cc

  -- A stream of frames, one for each message, that arrives cut into segments in any way that the
  -- requests allow, makes exactly one callback for each message, with its bytes, in order; the
  -- handler does not fail, and the link waits with no byte held. The link does not ask for whole
  -- packets, malloc gives the block it is asked for, and the template has at least one byte and
  -- fits the receive buffer.
  pub recv_stream-delivers :
      (ncb : Ncb) (p : Packet) (segs frames messages : List (List ℕ))
      → l.fully ≡ false
      → Waits mask l ncb p []
      → AllFit malloc mask ncb p segs
      → AllFrames l frames messages
      → flatten segs ≡ flatten frames
      → (out : Unpacked) × (recv_stream malloc mask ncb p segs ≡ some out)
        × (out.events ≡ message_events l messages)
        × (is_neg out.retval ≡ false)
        × Waits mask l out.ncb out.packet []
  recv_stream-delivers ncb p segs frames messages plain w fit framed same =
      let (out, e, a) = recv_stream-deframe malloc mask l mallocs template ncb p segs w fit in
      let d = frames-deframe l template.at_least plain framed in
      let (x, n, v) = settled (flatten segs) out a (ap (deframe l) same ∙ d) in (out, e, x, n, v)
    where
      settled :
          (xs : List ℕ) (out : Unpacked)
          → Agrees malloc mask l mallocs template xs out
          → deframe l xs ≡ (message_events l messages, rest [])
          → (out.events ≡ message_events l messages)
            × (is_neg out.retval ≡ false)
            × Waits mask l out.ncb out.packet []
      settled xs out (inl (h, n, d, w)) e =
          let q : (out.events, rest h) ≡ (message_events l messages, rest []) = sym d ∙ e in
          (
            ap (λ t. t.0) q,
            n,
            subst (λ k. Waits mask l out.ncb out.packet k) (ap (λ t. rest_of t.1) q) w,
          )
      settled xs out (inr (n, d)) e = cc
