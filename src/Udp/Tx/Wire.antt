-- ===== src/Udp/Tx/Wire.antt =====
-- __udp_tx_single_packet of udp.c and what it hands to sendto.
use swnet_win.Base.{
  ℕ, zero, suc, ◌+◌, ◌-◌, ◌≤◌, ◌<◌, ltb, ℤ, pos, negsuc, minus_one, is_nonpos, false, true,
  Bool-cases, ltb→lt, ◌≡◌, refl, sym, ap, subst, ◌∙◌, ◌⊎◌, inl, inr, Option, some, List, [], ◌∷◌,
  ◌++◌, append-nil, append_assoc, length, length-take, take, drop, take-split, drop-drop,
  take-take_le, arith,
}
use swnet_win.World.{
  Env, World, return, Event, called, datagram_sent, send_to, sent, ◌>>=◌, ◌>>◌, when◌then◌else◌,
}
use swnet_win.Udp.Tx.{advance, udp_tx_single_packet, tx_loop}

-- The bytes that sendto took, in order.
abbrev pub wire : List Event → List ℕ
wire [] = []
wire (datagram_sent bytes ∷ t) = wire t ++ bytes
wire (_ ∷ t) = wire t

-- How often sendto was called.
abbrev pub tries : List Event → ℕ
tries [] = 0
tries (called (send_to bytes) ∷ t) = suc (tries t)
tries (_ ∷ t) = tries t

-- sendto takes at most the bytes that it is given.
abbrev pub TakesAtMost : Env → Type 0
TakesAtMost env =
    (t : List Event) (bytes : List ℕ) (n : ℕ)
    → env.system t (send_to bytes) ≡ pos n
    → n ≤ length bytes

-- From the call of number `limit` on, sendto is not interrupted.
abbrev pub Settles : Env → ℕ → Type 0
Settles env limit = (t : List Event) → env.interrupted t ≡ true → tries t < limit

-- The first `n` of these bytes are sent with 0, or less of them with -1.
abbrev pub Sent : ℕ → List ℕ → List Event → Option ℤ × World → Type 0
Sent n bytes t r =
    ((r.0 ≡ some (pos 0)) × (wire r.1.history ≡ wire t ++ take n bytes))
    ⊎ ((k : ℕ) × (k < n) × (r.0 ≡ some minus_one) × (wire r.1.history ≡ wire t ++ take k bytes))

-- What was sent before is counted in.
Sent-extend :
    (m n l : ℕ) (bytes : List ℕ) (t t' : List Event) (r : Option ℤ × World)
    → wire t' ≡ wire t ++ take m bytes
    → m + n ≡ l
    → Sent n (drop m bytes) t' r
    → Sent l bytes t r
Sent-extend m n l bytes t t' r e s sent = elim sent [
  | inl (ok, w) ↦ inl (ok, w ∙ joined n ∙ ap (λ j. wire t ++ take j bytes) s)
  | inr (k, lt, ok, w) ↦ inr (m + k, omega (arith, s, lt), ok, w ∙ joined k)
]
  where
    joined : (k : ℕ) → wire t' ++ take k (drop m bytes) ≡ wire t ++ take (m + k) bytes
    joined k = rw e (
        append_assoc (wire t) (take m bytes) (take k (drop m bytes))
        ∙ ap (λ x. wire t ++ x) (take-split m k bytes))

suc_is_pos : (n : ℕ) → is_nonpos (pos (suc n)) ≡ false
suc_is_pos n = ground arith

ℤ-sign : (a : ℤ) → ((n : ℕ) × (a ≡ pos (suc n))) ⊎ ((a ≡ pos 0) ⊎ ((n : ℕ) × (a ≡ negsuc n)))
ℤ-sign (pos zero) = inr (inl refl)
ℤ-sign (pos (suc n)) = inl (n, refl)
ℤ-sign (negsuc n) = inr (inr (n, refl))

module _ (env : Env) (limit : ℕ) (at_most : TakesAtMost env) (settles : Settles env limit)
    (bytes : List ℕ) (cb : ℕ) (room : cb ≤ length bytes) where
  -- sendto took nothing: the loop goes on if it was interrupted.
  again :
      (fuel offset : ℕ) (w w' : World)
      → offset < cb
      → (cb - offset) + (limit - tries w.history) < suc fuel
      → tries w'.history ≡ suc (tries w.history)
      → wire w'.history ≡ wire w.history ++ []
      → ((cb - offset) + (limit - tries w'.history) < fuel
          → Sent (cb - offset) (drop offset bytes) w'.history (tx_loop fuel bytes cb offset env w'))
      → Sent (cb - offset) (drop offset bytes) w.history (
          (when env.interrupted w'.history
              then tx_loop fuel bytes cb offset
              else return (some minus_one))
            env w')
  unfolding when◌then◌else◌
  again fuel offset w w' more lt t e ih = elim (Bool-cases (env.interrupted w'.history)) [
    | inl i ↦ rw i (
        Sent-extend 0 (cb - offset) (cb - offset) (drop offset bytes) w.history w'.history
          (tx_loop fuel bytes cb offset env w') e (omega arith)
          (ih (omega (arith, lt, t, settles w'.history i))))
    | inr i ↦ rw i (inr (0, omega (arith, more), refl, e))
  ]

  tx_loop_lem :
      (fuel offset : ℕ) (w : World)
      → offset ≤ cb
      → (cb - offset) + (limit - tries w.history) < fuel
      → Sent (cb - offset) (drop offset bytes) w.history (tx_loop fuel bytes cb offset env w)
  unfolding tx_loop ◌>>=◌ ◌>>◌ when◌then◌else◌
  tx_loop_lem zero offset w le lt = absurd (omega (arith, lt))
  tx_loop_lem (suc fuel) offset w le lt = elim (Bool-cases (ltb offset cb)) [
    | inr e ↦ rw e (
        inl (
          refl,
          sym (append-nil _)
              ∙ ap (λ k. wire w.history ++ take k (drop offset bytes)) {x = 0} (ground (arith, e)),
        ))
    | inl e ↦
        let chunk : List ℕ = take (cb - offset) (drop offset bytes) in
        elim (ℤ-sign (env.system w.history (send_to chunk))) [
          | inl (n, a) ↦
              let took : suc n ≤ cb - offset = omega (
                arith,
                at_most w.history chunk (suc n) a,
                length-take (cb - offset) (drop offset bytes),
              ) in
              let sent : World = record w {
                history = datagram_sent (take (suc n) chunk) ∷ called (send_to chunk) ∷ w.history;
              } in
              rw (e, a, suc_is_pos n)
                (Sent-extend (suc n) (cb - (offset + suc n)) (cb - offset) (drop offset bytes)
                  w.history sent.history (tx_loop fuel bytes cb (offset + suc n) env sent)
                  (ap (λ x. wire w.history ++ x)
                    (take-take_le (suc n) (cb - offset) (drop offset bytes) took))
                  (omega (arith, took))
                  (rw (drop-drop (suc n) offset bytes) (
                    tx_loop_lem fuel (offset + suc n) sent (omega (arith, took, le))
                      (omega (arith, took, lt)))))
          | inr (inl a) ↦
              rw (e, a)
                (again fuel offset w _ (ltb→lt offset cb e) lt refl refl
                  (tx_loop_lem fuel offset _ le))
          | inr (inr (n, a)) ↦
              rw (e, a)
                (again fuel offset w _ (ltb→lt offset cb e) lt refl
                  (sym (append-nil (wire w.history))) (tx_loop_lem fuel offset _ le))
        ]
  ]

  -- __udp_tx_single_packet ends, and either returns 0 with sendto having taken all the bytes of the
  -- datagram in order, or -1 with sendto having taken fewer, those at the front. sendto takes at
  -- most the bytes it is given and is no longer interrupted after `limit` calls; the buffer has the
  -- size that the call says, and the fuel exceeds that size and `limit` together.
  pub udp_tx_single_packet-Sent :
      (fuel : ℕ) (w : World)
      → cb + limit < fuel
      → Sent cb bytes w.history (udp_tx_single_packet fuel bytes cb env w)
  unfolding udp_tx_single_packet
  udp_tx_single_packet-Sent fuel w enough =
      subst (λ n. Sent n bytes w.history (tx_loop fuel bytes cb 0 env w)) {x = cb - 0} (omega arith)
        (tx_loop_lem fuel 0 w (omega arith) (omega (arith, enough)))

-- What a count of other events says: sending leaves it as it is.
module _ (count : List Event → ℕ)
    (skips_call : (bytes : List ℕ) (t : List Event) → count (called (send_to bytes) ∷ t) ≡ count t)
    (skips_sent : (bytes : List ℕ) (t : List Event) → count (datagram_sent bytes ∷ t) ≡ count t)
    (env : Env) (bytes : List ℕ) (cb : ℕ) where
  count-sent :
      (a : ℤ) (chunk : List ℕ) (t : List Event)
      → count (sent a chunk (called (send_to chunk) ∷ t)) ≡ count t
  count-sent (pos n) chunk t = skips_sent (take n chunk) _ ∙ skips_call chunk t
  count-sent (negsuc n) chunk t = skips_call chunk t

  pub tx_loop-count :
      (fuel offset : ℕ) (w : World)
      → count (tx_loop fuel bytes cb offset env w).1.history ≡ count w.history
  unfolding tx_loop ◌>>=◌ ◌>>◌ when◌then◌else◌
  tx_loop-count zero offset w = refl
  tx_loop-count (suc fuel) offset w = elim (Bool-cases (ltb offset cb)) [
    | inr e ↦ rw e refl
    | inl e ↦
        let chunk : List ℕ = take (cb - offset) (drop offset bytes) in
        let answer = env.system w.history (send_to chunk) in
        let next : World = record w {
          history = sent answer chunk (called (send_to chunk) ∷ w.history);
        } in
        let same : count next.history ≡ count w.history = count-sent answer chunk w.history in
        elim (Bool-cases (is_nonpos answer)) [
          | inr p ↦ rw (e, p) (tx_loop-count fuel (advance offset answer) next ∙ same)
          | inl p ↦ elim (Bool-cases (env.interrupted next.history)) [
            | inl i ↦ rw (e, p, i) (tx_loop-count fuel offset next ∙ same)
            | inr i ↦ rw (e, p, i) same
          ]
        ]
  ]
