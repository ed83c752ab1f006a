-- ===== src/Os/Loop.antt =====
-- The loop of os_lock_virtual_pages of os.c.
use swnet_win.Base.{
  ℕ, zero, suc, ◌+◌, ◌-◌, ◌<◌, ◌≤◌, ◌==◌, ◌&&◌, ℤ, pos, negsuc, is_neg, eq_ℤ, if◌then◌else◌, Bool,
  true, false, Bool-cases, ◌≡◌, refl, ap, ◌∙◌, ◌⊎◌, inl, inr, Option, some, List, [], ◌∷◌, arith,
}
use swnet_win.World.{
  Env, World, Event, called, pages_made, pages_freed, virtual_lock, virtual_unlock, virtual_commit,
  ◌>>=◌, ◌>>◌, when◌then◌else◌,
}
use swnet_win.Ledger.{pages_taken, pages_given}
use swnet_win.Os.{
  error_working_set_quota, error_noaccess, succeeds, Locking, open_self, grow_working_set,
  lock_loop,
}

-- How often VirtualLock was called.
abbrev pub locks : List Event → ℕ
locks [] = 0
locks (called (virtual_lock memory) ∷ t) = suc (locks t)
locks (_ ∷ t) = locks t

-- From the call of number `limit` on, the working set is large enough.
abbrev pub Suffices : Env → ℕ → Type 0
Suffices env limit = (t : List Event) → env.last_error t ≡ error_working_set_quota → locks t < limit

-- VirtualAlloc of pages that are reserved raises an exception, gives NULL, or keeps their address.
abbrev pub Commits : Env → Type 0
Commits env =
    (t : List Event) (memory : ℕ)
    → let r = env.system t (virtual_commit memory) in
      (is_neg r ≡ true) ⊎ ((r ≡ pos 0) ⊎ (r ≡ pos memory))

-- Whether VirtualLock has locked the block at this address, and it was neither unlocked nor freed since.
abbrev pub is_locked : Env → ℕ → List Event → Bool
is_locked env a [] = false
is_locked env a (called (virtual_lock m) ∷ t) =
    if m == a && succeeds (env.system t (virtual_lock m)) then true else is_locked env a t
is_locked env a (called (virtual_unlock m) ∷ t) = if m == a then false else is_locked env a t
is_locked env a (pages_made m ∷ t) = if m == a then false else is_locked env a t
is_locked env a (pages_freed m ∷ t) = if m == a then false else is_locked env a t
is_locked env a (_ ∷ t) = is_locked env a t

-- How often VirtualLock failed.
abbrev pub misses : Env → List Event → ℕ
misses env [] = 0
misses env (called (virtual_lock m) ∷ t) =
    if succeeds (env.system t (virtual_lock m)) then misses env t else suc (misses env t)
misses env (_ ∷ t) = misses env t

-- How often VirtualAlloc gave NULL for pages that are reserved.
abbrev pub lost : Env → List Event → ℕ
lost env [] = 0
lost env (called (virtual_commit m) ∷ t) =
    if eq_ℤ (env.system t (virtual_commit m)) (pos 0) then suc (lost env t) else lost env t
lost env (_ ∷ t) = lost env t

abbrev rounds : Bool → ℕ
rounds true = 1
rounds false = 0

-- The loop made and freed no pages. It ended on the block that it was given, which is locked if the
-- loop was successful; or a commit gave NULL, and the block is forgotten.
pub record Ended (env : Env) (memory : ℕ) (w : World) (r : Option Locking × World) : Type 0 where
  pub result : Locking
  pub is_result : r.0 ≡ some result
  pub same_taken : pages_taken r.1.history ≡ pages_taken w.history
  pub same_given : pages_given r.1.history ≡ pages_given w.history
  pub missed : result.successful ≡ false → misses env w.history < misses env r.1.history
  pub block :
      ((result.memory ≡ memory)
        × (lost env r.1.history ≡ lost env w.history)
        × (result.successful ≡ true → is_locked env memory r.1.history ≡ true))
      ⊎ ((result.memory ≡ 0)
          × (lost env r.1.history ≡ suc (lost env w.history))
          × (result.successful ≡ false))

pub not_zero : (n : ℕ) → 0 < n → n == 0 ≡ false
not_zero n h = ground arith

neg-nonzero : (a : ℤ) → is_neg a ≡ true → eq_ℤ a (pos 0) ≡ false
neg-nonzero (pos n) e = ground (arith, e)
neg-nonzero (negsuc n) e = refl

pos-nonzero : (n : ℕ) → 0 < n → eq_ℤ (pos n) (pos 0) ≡ false
pos-nonzero n h = ground arith

module _ (env : Env) where
  -- What comes before the next round.
  grown_lem :
      (opened : Bool) (w : World)
      → let r = open_self opened env w in
        let g = grow_working_set env r.1 in
        (pages_taken r.1.history ≡ pages_taken w.history)
        × (pages_given r.1.history ≡ pages_given w.history)
        × (locks r.1.history ≡ locks w.history)
        × (pages_taken g.1.history ≡ pages_taken w.history)
        × (pages_given g.1.history ≡ pages_given w.history)
        × (locks g.1.history ≡ locks w.history)
        × (lost env r.1.history ≡ lost env w.history)
        × (lost env g.1.history ≡ lost env w.history)
        × (misses env r.1.history ≡ misses env w.history)
        × (misses env g.1.history ≡ misses env w.history)
  unfolding open_self grow_working_set ◌>>=◌ ◌>>◌ when◌then◌else◌
  grown_lem opened w = ground arith

Ended-extend :
    (env : Env) (memory : ℕ) (w w' : World) (r : Option Locking × World)
    → pages_taken w'.history ≡ pages_taken w.history
    → pages_given w'.history ≡ pages_given w.history
    → lost env w'.history ≡ lost env w.history
    → misses env w.history ≤ misses env w'.history
    → Ended env memory w' r
    → Ended env memory w r
Ended-extend env memory w w' r t g l m e = record {
  missed = λ bad. let more = e.missed bad in omega (arith, m, more);
  result = e.result;
  is_result = e.is_result;
  same_taken = e.same_taken ∙ t;
  same_given = e.same_given ∙ g;
  block = elim e.block [
    | inl (m, s, k) ↦ inl (m, s ∙ l, k)
    | inr (m, s, k) ↦ inr (m, s ∙ ap suc l, k)
  ];
}

-- The loop stops in this world, with the block.
stops :
    (env : Env) (memory : ℕ) (ok opened : Bool) (w w' : World)
    → pages_taken w'.history ≡ pages_taken w.history
    → pages_given w'.history ≡ pages_given w.history
    → lost env w'.history ≡ lost env w.history
    → (ok ≡ true → is_locked env memory w'.history ≡ true)
    → (ok ≡ false → misses env w.history < misses env w'.history)
    → Ended env memory w (some (record { successful = ok; memory = memory; opened = opened }), w')
stops env memory ok opened w w' t g l k m = record {
  missed = m;
  result = _;
  is_result = refl;
  same_taken = t;
  same_given = g;
  block = inl (refl, l, k);
}

module _ (env : Env) (limit : ℕ) (suffices : Suffices env limit) (commits : Commits env) where
  pub lock_loop_lem :
      (fuel memory : ℕ) (opened flag : Bool) (w : World)
      → 0 < memory
      → (limit - locks w.history) + rounds flag < fuel
      → Ended env memory w (lock_loop fuel memory opened flag env w)
  unfolding lock_loop ◌>>=◌ ◌>>◌ when◌then◌else◌
  lock_loop_lem zero memory opened flag w held lt = absurd (omega (arith, lt))
  lock_loop_lem (suc fuel) memory opened flag w held lt =
      let w1 : World = record w { history = called (virtual_lock memory) ∷ w.history } in
      let o = open_self opened env w1 in
      let g = grow_working_set env o.1 in
      let same = grown_lem env opened w1 in
      elim (Bool-cases (succeeds (env.system w.history (virtual_lock memory)))) [
        | inl s ↦ rw s (
            stops env memory true opened w w1 refl refl refl (λ k. ground (arith, s))
              (λ k. absurd (ground (arith, k))))
        | inr s ↦
            let miss : misses env w1.history ≡ suc (misses env w.history) = rw s refl in
            elim (Bool-cases (env.last_error w1.history == error_working_set_quota)) [
              | inl q ↦
                  let late = suffices w1.history (ground (arith, q)) in
                  elim (Bool-cases o.0) [
                    | inr closed ↦
                        rw (s, q, closed)
                          (stops env memory false false w o.1 same.0 same.1 same.6
                            (λ k. absurd (ground (arith, k))) (λ k. omega (arith, miss, same.8)))
                    | inl ready ↦ elim (Bool-cases g.0) [
                      | inr refused ↦
                          rw (s, q, ready, refused)
                            (stops env memory false true w g.1 same.3 same.4 same.7
                              (λ k. absurd (ground (arith, k))) (λ k. omega (arith, miss, same.9)))
                      | inl grown ↦
                          rw (s, q, ready, grown)
                            (Ended-extend env memory w g.1 (lock_loop fuel memory true flag env g.1)
                              same.3 same.4 same.7 (omega (arith, miss, same.9))
                              (lock_loop_lem fuel memory true flag g.1 held
                                (omega (arith, lt, late, same.5))))
                    ]
                  ]
              | inr q ↦ elim (Bool-cases (env.last_error w1.history == error_noaccess && flag)) [
                | inr other ↦
                    rw (s, q, other)
                      (stops env memory false opened w w1 refl refl refl
                        (λ k. absurd (ground (arith, k))) (λ k. omega (arith, miss)))
                | inl again ↦
                    let w2 : World = record w1 {
                      history = called (virtual_commit memory) ∷ w1.history;
                    } in
                    let fresh : flag ≡ true = ground (arith, again) in
                    elim (commits w1.history memory) [
                      | inl raised ↦
                          let kept : eq_ℤ (env.system w1.history (virtual_commit memory)) (pos 0)
                              ≡ false =
                            neg-nonzero _ raised in
                          rw (s, q, again, raised)
                            (stops env memory false opened w w2 refl refl (rw kept refl)
                              (λ k. absurd (ground (arith, k))) (λ k. omega (arith, miss)))
                      | inr (inl null) ↦
                          rw (s, q, again, null)
                            (record {
                              result = _;
                              is_result = refl;
                              same_taken = refl;
                              same_given = refl;
                              missed = λ k. omega (arith, miss);
                              block = inr (refl, rw null refl, refl);
                            })
                      | inr (inr same_address) ↦
                          let kept : eq_ℤ (env.system w1.history (virtual_commit memory)) (pos 0)
                              ≡ false =
                            rw same_address (pos-nonzero memory held) in
                          rw (s, q, again, same_address, not_zero memory held)
                            (Ended-extend env memory w w2
                              (lock_loop fuel memory opened false env w2) refl refl (rw kept refl)
                              (omega (arith, miss))
                              (lock_loop_lem fuel memory opened false w2 held
                                (omega (arith, lt, ap rounds fresh))))
                    ]
              ]
            ]
      ]
