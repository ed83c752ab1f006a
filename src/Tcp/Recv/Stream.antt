-- ===== src/Tcp/Recv/Stream.antt =====
-- The receive path of tcp.c over the segments of a stream, against the reference.
use swnet_win.Base.{
  ℕ, pos, is_neg, minus_one, false, inl, inr, ◌≡◌, refl, ap, ◌∙◌, subst, Option, some, List, [],
  ◌∷◌, ◌++◌, append-nil, append_assoc, if◌then◌else◌, ◌>>=◌, ◌⊎◌, arith, flatten, length,
  length-take,
}
use swnet_win.Types.{Ncb, Packet, Block}
use swnet_win.Tcp.Recv.{Received, Unpacked}
use swnet_win.Tcp.Recv.Spec.{
  Link, rest, malformed, short, stop, head_of, whole_or_short, Deframes, deframe,
}
use swnet_win.Tcp.Recv.Spec.Laws.{Deframes-append, Deframes-append_malformed, Deframes-deframe}
use swnet_win.Tcp.Recv.Waits.{Fixed, Idle, Large, Waits, Handled, Mallocs, Does}
use swnet_win.Tcp.Recv.Segment.{recv_segment, Fits, HasTemplate, recv_segment-Idle}
use swnet_win.Tcp.Recv.Unpack.{recv_segment-Large}

module _ {mask : ℕ} (l : Link) where
  -- A link waits only for a packet that is not whole.
  pub Waits-short :
      {ncb : Ncb} {p : Packet} {h : List ℕ} → Waits mask l ncb p h → head_of l h ≡ short
  unfolding head_of whole_or_short
  Waits-short (Waits.idle b fixed i) = i.partial
  Waits-short {ncb} {p} {h} (Waits.large b lb u fixed i) =
      let held : length h ≡ ncb.lb_cpy_offset =
        ap length i.bytes ∙ (length-take ncb.lb_cpy_offset lb ∙ omega (arith, i.lb_size, i.room)) in
      ground (arith, held, i.announced, i.room, i.total, i.header)

  -- What one segment does, then what the later ones do.
  joined :
      {xs k : List ℕ} {ds : List Received} {r : Unpacked} (ys : List ℕ)
      → Deframes l xs ds (rest k)
      → Handled mask l (k ++ ys) [] r
      → Handled mask l (xs ++ ys) [] (record r { events = ds ++ r.events })
  joined {ds = ds} ys d (Handled.waits es k' ev n d' w) =
      Handled.waits (ds ++ es) k' (ap (λ t. ds ++ t) ev) n (Deframes-append l ys d d') w
  joined {ds = ds} ys d (Handled.fails es ev n d') =
      Handled.fails (ds ++ es) (ap (λ t. ds ++ t) ev) n (Deframes-append l ys d d')

module _ (malloc : ℕ → Option (List ℕ)) (mask : ℕ) where
  -- The completed requests of a link one after the other, up to one that fails.
  pub recv_stream : Ncb → Packet → List (List ℕ) → Option Unpacked
  recv_stream ncb p [] = some (record { retval = pos 0; ncb = ncb; packet = p; events = [] })
  recv_stream ncb p (seg ∷ segs) = do
    out ← recv_segment malloc mask ncb p seg
    let later = recv_stream out.ncb out.packet segs
    if is_neg out.retval
        then some out
        else later >>= (λ r. some (record r { events = out.events ++ r.events }))

  -- Each segment is one that WSARecv may give for the request that it completes; a link that failed
  -- makes no request.
  abbrev pub AllFit : Ncb → Packet → List (List ℕ) → Type 0
  AllFit ncb p [] = Unit {0}
  AllFit ncb p (seg ∷ segs) =
      Fits p seg
      × ((out : Unpacked)
          → recv_segment malloc mask ncb p seg ≡ some out
          → is_neg out.retval ≡ false
          → AllFit out.ncb out.packet segs)

  module _ (l : Link) (mallocs : Mallocs malloc) (template : HasTemplate l) where
    after_small :
        (ncb : Ncb) (p : Packet) (b : Block) (h seg : List ℕ)
        → Fixed mask l ncb
        → Idle mask l ncb p b h
        → Fits p seg
        → Does mask l (h ++ seg) [] (recv_segment malloc mask ncb p seg)
    after_small ncb p b h seg fixed =
        subst
          (λ k.
            HasTemplate k
            → Idle mask k ncb p b h
            → Fits p seg
            → Does mask k (h ++ seg) [] (recv_segment malloc mask ncb p seg))
          fixed.same
          (λ t i f.
            recv_segment-Idle malloc mask l.parser mallocs ncb fixed.parser_set t i.unmarked p b h
              seg i f)
          template

    after_big :
        (ncb : Ncb) (p : Packet) (b : Block) (lb : List ℕ) (u : ℕ) (h seg : List ℕ)
        → Fixed mask l ncb
        → Large mask l ncb p b lb u h
        → Fits p seg
        → Does mask l (h ++ seg) [] (recv_segment malloc mask ncb p seg)
    after_big ncb p b lb u h seg fixed =
        subst
          (λ k.
            HasTemplate k
            → Large mask k ncb p b lb u h
            → Fits p seg
            → Does mask k (h ++ seg) [] (recv_segment malloc mask ncb p seg))
          fixed.same
          (λ t i f.
            recv_segment-Large malloc mask l.parser mallocs ncb fixed.parser_set t p b lb u h seg i
              f)
          template

    -- One segment, in any state in which the link waits.
    pub recv_segment_lem :
        {ncb : Ncb} {p : Packet} {h : List ℕ} (seg : List ℕ)
        → Waits mask l ncb p h
        → Fits p seg
        → Does mask l (h ++ seg) [] (recv_segment malloc mask ncb p seg)
    recv_segment_lem {ncb} {p} {h} seg (Waits.idle b fixed i) fits =
        after_small ncb p b h seg fixed i fits
    recv_segment_lem {ncb} {p} {h} seg (Waits.large b lb u fixed i) fits =
        after_big ncb p b lb u h seg fixed i fits

    recv_rest :
        (ncb : Ncb) (p : Packet) (h seg : List ℕ) (segs : List (List ℕ)) (out : Unpacked)
        → recv_segment malloc mask ncb p seg ≡ some out
        → Handled mask l (h ++ seg) [] out
        → ((k : List ℕ)
            → is_neg out.retval ≡ false
            → Waits mask l out.ncb out.packet k
            → Does mask l (k ++ flatten segs) [] (recv_stream out.ncb out.packet segs))
        → Does mask l (h ++ flatten (seg ∷ segs)) [] (recv_stream ncb p (seg ∷ segs))
    unfolding recv_stream
    recv_rest ncb p h seg segs out e (Handled.waits ds k ev n d w) next =
        let (r, er, hr) = next k n w in
        let ev' : out.events ≡ ds = ev in
        (
          record r { events = out.events ++ r.events },
          rw e (rw (n, er)),
          rw (← append_assoc h seg (flatten segs)) (rw ev' (joined l (flatten segs) d hr)),
        )
    recv_rest ncb p h seg segs out e (Handled.fails ds ev n d) next = (
      out,
      rw e (rw n),
      Handled.fails ds ev n
          (rw (← append_assoc h seg (flatten segs)) (Deframes-append_malformed l (flatten segs) d)),
    )

    -- All segments.
    pub recv_stream-Handled :
        (ncb : Ncb) (p : Packet) (h : List ℕ) (segs : List (List ℕ))
        → Waits mask l ncb p h
        → AllFit ncb p segs
        → Does mask l (h ++ flatten segs) [] (recv_stream ncb p segs)
    unfolding recv_stream
    recv_stream-Handled ncb p h [] w fit = (
      record { retval = pos 0; ncb = ncb; packet = p; events = [] },
      refl,
      rw append-nil (Handled.waits [] h refl refl (stop (Waits-short l w)) w),
    )
    recv_stream-Handled ncb p h (seg ∷ segs) w (fits, later) =
        let (out, e, handled) = recv_segment_lem seg w fits in
        recv_rest ncb p h seg segs out e handled
          (λ k n w'. recv_stream-Handled out.ncb out.packet k segs w' (later out e n))

    -- The outcome of a whole stream, against the reference as a function.
    abbrev pub Agrees : List ℕ → Unpacked → Type 0
    Agrees xs out =
        ((h : List ℕ) × (is_neg out.retval ≡ false)
          × (deframe l xs ≡ (out.events, rest h))
          × Waits mask l out.ncb out.packet h)
        ⊎ ((out.retval ≡ minus_one) × (deframe l xs ≡ (out.events, malformed)))

    agrees : {xs : List ℕ} {out : Unpacked} → Handled mask l xs [] out → Agrees xs out
    agrees (Handled.waits ds h ev n d w) =
        inl (h, n, rw ev (Deframes-deframe l template.at_least d), w)
    agrees (Handled.fails ds ev n d) = inr (n, rw ev (Deframes-deframe l template.at_least d))

    -- For any stream, cut into segments in any way that the requests allow, a link that waits with
    -- no byte held never faults and never runs out of fuel: the callbacks are those of the
    -- reference `deframe` on the whole stream, in order. Either the link then waits with exactly
    -- the bytes that the reference leaves, or both report a malformed stream and the handler
    -- returns -1. Malloc gives the block it is asked for, and the template has at least one byte
    -- and fits the receive buffer.
    pub recv_stream-deframe :
        (ncb : Ncb) (p : Packet) (segs : List (List ℕ))
        → Waits mask l ncb p []
        → AllFit ncb p segs
        → (out : Unpacked) × (recv_stream ncb p segs ≡ some out) × Agrees (flatten segs) out
    recv_stream-deframe ncb p segs w fit =
        let (out, e, handled) = recv_stream-Handled ncb p [] segs w fit in (out, e, agrees handled)
