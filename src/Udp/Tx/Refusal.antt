-- ===== src/Udp/Tx/Refusal.antt =====
-- The calls of sendto for which __udp_tx_single_packet of udp.c gives up.
use swnet_win.Base.{
  ℕ, zero, suc, ◌-◌, ltb, ℤ, pos, negsuc, is_nonpos, minus_one, not, ◌&&◌, Bool-cases, ◌≡◌, refl,
  ◌∙◌, ap, if◌then◌else◌, inl, inr, some, List, [], ◌∷◌, take, drop, arith,
}
use swnet_win.World.{Env, World, Event, called, send_to, sent, ◌>>=◌, ◌>>◌, when◌then◌else◌}
use swnet_win.Udp.Tx.{advance, tx_loop}

-- How often sendto took nothing and was not interrupted.
abbrev pub refusals : Env → List Event → ℕ
refusals env [] = 0
refusals env (called (send_to chunk) ∷ t) =
    let answer : ℤ = env.system t (send_to chunk) in
    if is_nonpos answer && not (env.interrupted (sent answer chunk (called (send_to chunk) ∷ t)))
    then suc (refusals env t)
    else refusals env t
refusals env (_ ∷ t) = refusals env t

module _ (env : Env) (bytes : List ℕ) (cb : ℕ) where
  refusals-sent :
      (a : ℤ) (chunk : List ℕ) (t : List Event) → refusals env (sent a chunk t) ≡ refusals env t
  refusals-sent (pos n) chunk t = refl
  refusals-sent (negsuc n) chunk t = refl

  -- The loop fails with -1 exactly after one such call.
  pub tx_loop-refusals :
      (fuel offset : ℕ) (w : World)
      → let r = tx_loop fuel bytes cb offset env w in
        r.0 ≡ some minus_one → refusals env r.1.history ≡ suc (refusals env w.history)
  unfolding tx_loop ◌>>=◌ ◌>>◌ when◌then◌else◌
  tx_loop-refusals zero offset w = λ e. absurd (ground (arith, e))
  tx_loop-refusals (suc fuel) offset w = elim (Bool-cases (ltb offset cb)) [
    | inr done ↦ rw done (λ e. absurd (ground (arith, e)))
    | inl more ↦
        let chunk : List ℕ = take (cb - offset) (drop offset bytes) in
        let answer = env.system w.history (send_to chunk) in
        let next : World = record w {
          history = sent answer chunk (called (send_to chunk) ∷ w.history);
        } in
        let same = refusals-sent answer chunk (called (send_to chunk) ∷ w.history) in
        elim (Bool-cases (is_nonpos answer)) [
          | inr p ↦
              let kept : refusals env next.history ≡ refusals env w.history = same ∙ rw p refl in
              rw (more, p) (λ e. tx_loop-refusals fuel (advance offset answer) next e ∙ ap suc kept)
          | inl p ↦ elim (Bool-cases (env.interrupted next.history)) [
            | inl i ↦
                let kept : refusals env next.history ≡ refusals env w.history =
                  same ∙ rw (p, i) refl in
                rw (more, p, i) (λ e. tx_loop-refusals fuel offset next e ∙ ap suc kept)
            | inr i ↦ rw (more, p, i) (λ e. same ∙ rw (p, i) refl)
          ]
        ]
  ]
