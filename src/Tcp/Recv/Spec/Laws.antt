-- ===== src/Tcp/Recv/Spec/Laws.antt =====
-- The reference for the receive path, on streams in pieces.
use swnet_win.Base.{
  ℕ, zero, suc, ◌+◌, ◌≤◌, ◌<◌, ◌≡◌, sym, ◌∙◌, List, ◌++◌, append_assoc, length, drop, length-append,
  length-drop, take-append_le, drop-append_le, arith,
}
use swnet_win.Tcp.Recv.{Received}
use swnet_win.Tcp.Recv.Spec.{
  Link, bad, packet, Outcome, rest, malformed, size_of, whole_or_short, head_of, event_of,
  events_of, Deframes, stop, refuse, more, deframe_fuel, deframe,
}

module _ (l : Link) where
  pub size_of-append : (xs ys : List ℕ) → l.cb ≤ length xs → size_of l (xs ++ ys) ≡ size_of l xs
  unfolding size_of
  size_of-append xs ys h = rw (take-append_le l.cb xs ys h)

  -- A packet that is whole is whole.
  pub head_of-packet :
      (xs : List ℕ) (u : ℕ)
      → head_of l xs ≡ packet u
      → (u + l.cb ≤ length xs) × (size_of l xs ≡ packet u)
  unfolding head_of whole_or_short
  head_of-packet xs u h = ground arith

  head_of-append_packet :
      (xs ys : List ℕ) (u : ℕ) → head_of l xs ≡ packet u → head_of l (xs ++ ys) ≡ packet u
  unfolding head_of whole_or_short
  head_of-append_packet xs ys u h =
      let p = head_of-packet xs u h in
      ground (arith, size_of-append xs ys (omega arith), p, length-append xs ys)

  head_of-append_bad : (xs ys : List ℕ) → head_of l xs ≡ bad → head_of l (xs ++ ys) ≡ bad
  unfolding head_of whole_or_short
  head_of-append_bad xs ys h = ground (arith, size_of-append xs ys, length-append xs ys)

  events_of-append :
      (xs ys : List ℕ) (u : ℕ) → u + l.cb ≤ length xs → events_of l (xs ++ ys) u ≡ events_of l xs u
  unfolding events_of event_of
  events_of-append xs ys u h = rw (
    take-append_le (u + l.cb) xs ys h,
    drop-append_le l.cb xs ys (omega arith),
    take-append_le u (drop l.cb xs) ys (omega (arith, length-drop l.cb xs)),
  )

  -- A stream cut in two: the second piece goes on where the first stopped.
  pub Deframes-append :
      {xs r : List ℕ} {ds es : List Received} {o : Outcome} (ys : List ℕ)
      → Deframes l xs ds (rest r)
      → Deframes l (r ++ ys) es o
      → Deframes l (xs ++ ys) (ds ++ es) o
  Deframes-append ys (stop h) d = d
  Deframes-append {xs} {r} {ds} {es} {o} ys (more {es = e} {ds = tl} u h w t) d =
      let p = head_of-packet xs u h in
      let t' : Deframes l (drop (u + l.cb) (xs ++ ys)) (tl ++ es) o =
        rw (drop-append_le (u + l.cb) xs ys p.0) (Deframes-append ys t d) in
      rw append_assoc
        (more u (head_of-append_packet xs ys u h) (w ∙ sym (events_of-append xs ys u p.0)) t')

  -- What is refused stays refused, whatever follows.
  pub Deframes-append_malformed :
      {xs : List ℕ} {ds : List Received} (ys : List ℕ)
      → Deframes l xs ds malformed
      → Deframes l (xs ++ ys) ds malformed
  Deframes-append_malformed {xs} ys (refuse h) = refuse (head_of-append_bad xs ys h)
  Deframes-append_malformed {xs} ys (more {ds = tl} u h w t) =
      let p = head_of-packet xs u h in
      more u (head_of-append_packet xs ys u h) (w ∙ sym (events_of-append xs ys u p.0))
        (rw (drop-append_le (u + l.cb) xs ys p.0) (Deframes-append_malformed ys t))

  deframe_fuel-eq :
      (n : ℕ) {xs : List ℕ} {ds : List Received} {o : Outcome}
      → 0 < l.cb
      → length xs < n
      → Deframes l xs ds o
      → deframe_fuel l n xs ≡ (ds, o)
  unfolding deframe_fuel
  deframe_fuel-eq zero c h d = absurd (omega arith)
  deframe_fuel-eq (suc n) c h (stop e) = rw (e, deframe_fuel)
  deframe_fuel-eq (suc n) c h (refuse e) = rw (e, deframe_fuel)
  deframe_fuel-eq (suc n) {xs} c h (more u e w t) =
      let p = head_of-packet xs u e in
      let ih = deframe_fuel-eq n c (omega (arith, length-drop (u + l.cb) xs)) t in
      ground (arith, e, w, ih)

  -- The relation and the function agree.
  pub Deframes-deframe :
      {xs : List ℕ} {ds : List Received} {o : Outcome}
      → 0 < l.cb
      → Deframes l xs ds o
      → deframe l xs ≡ (ds, o)
  unfolding deframe
  Deframes-deframe {xs} c d = deframe_fuel-eq (suc (length xs)) c (omega arith) d
