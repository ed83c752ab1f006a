-- ===== src/Udp/Tx/Bounds.antt =====
-- The calls of sendto that __udp_tx_single_packet of udp.c makes.
use swnet_win.Base.{
  ℕ, zero, suc, ◌+◌, ◌-◌, ◌≤◌, ◌<◌, ltb, ℤ, pos, negsuc, is_nonpos, true, Bool-cases, ltb→lt, ◌≡◌,
  refl, sym, ap, ◌∙◌, inl, inr, List, [], ◌∷◌, ◌++◌, append-nil, append_assoc, length, length-take,
  length-drop, take, drop, take-split, take-take_le, arith,
}
use swnet_win.World.{Env, World, Event, called, send_to, sent, ◌>>=◌, ◌>>◌, when◌then◌else◌}
use swnet_win.Udp.Tx.{advance, udp_tx_single_packet, tx_loop}
use swnet_win.Udp.Tx.Wire.{wire}

-- The calls of sendto in `h`, which come after `t`: each is for one byte at least, and what sendto took
-- after `t` and before the call, followed by the bytes of the call, is the datagram.
abbrev pub Asks : List ℕ → List Event → List Event → Type 0
Asks datagram t [] = Unit {0}
Asks datagram t (called (send_to chunk) ∷ h) =
    (0 < length chunk) × (wire (h ++ t) ++ chunk ≡ wire t ++ datagram) × Asks datagram t h
Asks datagram t (_ ∷ h) = Asks datagram t h

-- All that happened between two worlds are such calls and what sendto took.
abbrev pub Asked : List ℕ → World → World → Type 0
Asked datagram w w' = (h : List Event) × (w'.history ≡ h ++ w.history) × Asks datagram w.history h

advance_nonpos : (offset : ℕ) (a : ℤ) → is_nonpos a ≡ true → advance offset a ≡ offset
advance_nonpos offset (pos n) e = ground (arith, e)
advance_nonpos offset (negsuc n) e = refl

sent-append :
    (a : ℤ) (chunk : List ℕ) (h t : List Event)
    → sent a chunk (called (send_to chunk) ∷ (h ++ t))
      ≡ sent a chunk (called (send_to chunk) ∷ h) ++ t
sent-append (pos n) chunk h t = refl
sent-append (negsuc n) chunk h t = refl

module _ (env : Env) (bytes : List ℕ) (cb : ℕ) (room : cb ≤ length bytes) (t : List Event) where
  Asks-sent :
      (a : ℤ) (chunk : List ℕ) (h : List Event)
      → Asks (take cb bytes) t (called (send_to chunk) ∷ h)
      → Asks (take cb bytes) t (sent a chunk (called (send_to chunk) ∷ h))
  Asks-sent (pos n) chunk h asks = asks
  Asks-sent (negsuc n) chunk h asks = asks

  -- The bytes from `offset` on, behind those that were taken.
  joined :
      (offset n : ℕ) (u : List Event)
      → wire u ≡ wire t ++ take offset bytes
      → wire u ++ take n (drop offset bytes) ≡ wire t ++ take (offset + n) bytes
  joined offset n u e =
      ap (λ x. x ++ take n (drop offset bytes)) e
      ∙ append_assoc (wire t) (take offset bytes) (take n (drop offset bytes))
      ∙ ap (λ x. wire t ++ x) (take-split offset n bytes)

  -- What was taken after an answer, if that is not all.
  wire-sent :
      (a : ℤ) (offset : ℕ) (u : List Event)
      → wire u ≡ wire t ++ take offset bytes
      → advance offset a < cb
      → let chunk : List ℕ = take (cb - offset) (drop offset bytes) in
        wire (sent a chunk (called (send_to chunk) ∷ u)) ≡ wire t ++ take (advance offset a) bytes
  wire-sent (pos n) offset u e lt =
      ap (λ x. wire u ++ x) (take-take_le n (cb - offset) (drop offset bytes) (omega (arith, lt)))
      ∙ joined offset n u e
  wire-sent (negsuc n) offset u e lt = e

  tx_loop-Asks :
      (fuel offset : ℕ) (h : List Event) (w : World)
      → w.history ≡ h ++ t
      → Asks (take cb bytes) t h
      → (offset < cb → wire w.history ≡ wire t ++ take offset bytes)
      → (h' : List Event) × ((tx_loop fuel bytes cb offset env w).1.history ≡ h' ++ t)
        × Asks (take cb bytes) t h'
  unfolding tx_loop ◌>>=◌ ◌>>◌ when◌then◌else◌
  tx_loop-Asks zero offset h w e asks taken = (h, e, asks)
  tx_loop-Asks (suc fuel) offset h w e asks taken = elim (Bool-cases (ltb offset cb)) [
    | inr done ↦ rw done (h, e, asks)
    | inl more ↦
        let chunk : List ℕ = take (cb - offset) (drop offset bytes) in
        let answer = env.system w.history (send_to chunk) in
        let lt = ltb→lt offset cb more in
        let now = taken lt in
        let size = length-take (cb - offset) (drop offset bytes) in
        let rest = length-drop offset bytes in
        let next : World = record w {
          history = sent answer chunk (called (send_to chunk) ∷ w.history);
        } in
        let h' : List Event = sent answer chunk (called (send_to chunk) ∷ h) in
        let e' : next.history ≡ h' ++ t =
          ap (λ u. sent answer chunk (called (send_to chunk) ∷ u)) e
          ∙ sent-append answer chunk h t in
        let whole : wire (h ++ t) ++ chunk ≡ wire t ++ take cb bytes =
          ap (λ u. wire u ++ chunk) (sym e)
          ∙ joined offset (cb - offset) w.history now
          ∙ ap (λ k. wire t ++ take k bytes) (omega (arith, lt)) in
        let asked : Asks (take cb bytes) t h' =
          Asks-sent answer chunk h (omega (arith, size, rest, lt, room), whole, asks) in
        let after = wire-sent answer offset w.history now in
        elim (Bool-cases (is_nonpos answer)) [
          | inr p ↦ rw (more, p) (tx_loop-Asks fuel (advance offset answer) h' next e' asked after)
          | inl p ↦ elim (Bool-cases (env.interrupted next.history)) [
            | inl i ↦
                let stay = advance_nonpos offset answer p in
                rw (more, p, i)
                  (tx_loop-Asks fuel offset h' next e' asked (λ lt'.
                    after (omega (arith, stay, lt')) ∙ ap (λ k. wire t ++ take k bytes) stay))
            | inr i ↦ rw (more, p, i) (h', e', asked)
          ]
        ]
  ]

-- Whatever sendto answers, and however often it is called, every call that __udp_tx_single_packet
-- makes is for one byte at least and for exactly the part of the datagram that sendto has not taken
-- yet: the bytes taken since the start, followed by those of the call, are the first `cb` bytes of
-- the buffer. The buffer has the size that the call says.
pub udp_tx_single_packet-Asks :
    (env : Env) (bytes : List ℕ) (cb : ℕ)
    → cb ≤ length bytes
    → (fuel : ℕ) (w : World) → Asked (take cb bytes) w (udp_tx_single_packet fuel bytes cb env w).1
unfolding udp_tx_single_packet
udp_tx_single_packet-Asks env bytes cb room fuel w =
    tx_loop-Asks env bytes cb room w.history fuel 0 [] w refl tt
      (λ lt. sym (append-nil (wire w.history)))
