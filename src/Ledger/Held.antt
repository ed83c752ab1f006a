-- ===== src/Ledger/Held.antt =====
-- Reference counting of the handlers, by the references that each part holds before and after it.
use swnet_win.Base.{
  ℕ, suc, ◌+◌, ℤ, pos, negsuc, eq_ℤ, is_neg, Bool, true, false, ◌≡◌, refl, sym, ap, ◌∙◌,
  if◌then◌else◌, Bool-cases, inl, inr, Option, none, some, List, ◌∷◌, arith,
}
use swnet_win.Types.{Ncb}
use swnet_win.World.{
  Env, World, Event, referenced, new_object, M, return, ◌>>=◌, ◌>>◌, when◌then◌else◌, on_option,
  objrefr, objdefr, get_ncb, put_ncb, address, objclos, emit, Syscall, syscall, Notice, notified,
  lock_entered, lock_left,
}
use swnet_win.Ledger.{taken, given, KnowsHandles, KeepsRefs}

-- From `p` references of each handle to `q` of the result.
abbrev pub Moves : (ℤ → ℕ) → (ℤ → ℕ) → World → World → Type 0
Moves p q w w' =
    KnowsHandles w'
    × ((h : ℤ)
        → taken h w'.history + given h w.history + p h
          ≡ taken h w.history + given h w'.history + q h)

-- A part of a handler that holds `p` before it, and then `q` by its result, whatever it is answered.
pub record Holds (env : Env) {A : Type 0} (p : ℤ → ℕ) (m : M A) (q : A → ℤ → ℕ) : Type 0 where
  pub run : (w : World) → KnowsHandles w → Moves p (q (m env w).0) w (m env w).1

-- One reference more of `k`.
abbrev pub with_ref : ℤ → (ℤ → ℕ) → ℤ → ℕ
with_ref k p h = if eq_ℤ k h then suc (p h) else p h

eq_ℤ-sound : (a b : ℤ) → eq_ℤ a b ≡ true → a ≡ b
eq_ℤ-sound (pos a) (pos b) e = ap pos (ground (arith, e))
eq_ℤ-sound (pos a) (negsuc b) e = ground (arith, e)
eq_ℤ-sound (negsuc a) (pos b) e = ground (arith, e)
eq_ℤ-sound (negsuc a) (negsuc b) e = ap negsuc (ground (arith, e))

module _ {env : Env} where
  pub Holds-bind :
      {A B : Type 0} {p : ℤ → ℕ} {q : A → ℤ → ℕ} {r : B → ℤ → ℕ} {m : M A} {k : A → M B}
      → Holds env p m q
      → ((a : A) → Holds env (q a) (k a) r)
      → Holds env p (m >>= k) r
  unfolding ◌>>=◌
  Holds-bind hm hk = record {
    run = λ w known.
        let a = hm.run w known in
        let b = (hk _).run _ a.0 in (b.0, λ h. omega (arith, a.1 h, b.1 h));
  }

  pub Holds-return : {A : Type 0} {q : A → ℤ → ℕ} (a : A) → Holds env (q a) (return a) q
  Holds-return a = record { run = λ w known. (known, λ h. refl) }

  pub Holds-when :
      {A : Type 0} {p : ℤ → ℕ} {q : A → ℤ → ℕ} {c : Bool} {m n : M A}
      → (c ≡ true → Holds env p m q)
      → (c ≡ false → Holds env p n q)
      → Holds env p (when c then m else n) q
  unfolding when◌then◌else◌
  Holds-when {c = true} hm hn = record { run = λ w known. (hm refl).run w known }
  Holds-when {c = false} hm hn = record { run = λ w known. (hn refl).run w known }

  pub Holds-on_option :
      {A B : Type 0} {p : ℤ → ℕ} {q : B → ℤ → ℕ} {m : M B} {k : A → M B} (o : Option A)
      → Holds env p m q
      → ((a : A) → Holds env p (k a) q)
      → Holds env p (on_option o m k) q
  unfolding on_option
  Holds-on_option none hm hk = record { run = λ w known. hm.run w known }
  Holds-on_option (some a) hm hk = record { run = λ w known. (hk a).run w known }

  pub Holds-get :
      {A : Type 0} {p : ℤ → ℕ} {q : A → ℤ → ℕ} {h : ℤ} {k : Ncb → M A}
      → ((n : Ncb) → n.hld ≡ h → Holds env p (k n) q)
      → Holds env p (get_ncb h >>= k) q
  unfolding ◌>>=◌
  Holds-get {h = h} hk = record { run = λ w known. (hk (w.ncbs h) (known h)).run w known }

  pub Holds-then :
      {A B : Type 0} {p q : ℤ → ℕ} {r : B → ℤ → ℕ} {m : M A} {k : M B}
      → Holds env p m (λ a. q)
      → Holds env q k r
      → Holds env p (m >> k) r
  unfolding ◌>>◌ ◌>>=◌
  Holds-then hm hk = Holds-bind hm (λ a. hk)

  -- objrefr: the branch with an object holds one reference more.
  pub Holds-objrefr :
      {A : Type 0} {p : ℤ → ℕ} {q : A → ℤ → ℕ} {m n : M A} (k : ℤ)
      → Holds env (with_ref k p) m q
      → Holds env p n q
      → Holds env p (objrefr k >>= (λ found. when found then m else n)) q
  unfolding ◌>>=◌ when◌then◌else◌
  Holds-objrefr {p = p} {q = q} {m = m} {n = n} k hm hn = record {
    run = λ w known.
        let a = hm.run (objrefr k env w).1 known in
        let b = hn.run w known in (ground (arith, a.0, b.0), λ h. ground (arith, a.1 h, b.1 h));
  }

  pub Holds-objdefr :
      {p : ℤ → ℕ} (k : ℤ) {n : ℤ} → n ≡ k → Holds env (with_ref k p) (objdefr n) (λ u. p)
  Holds-objdefr k e = record { run = λ w known. (known, λ h. ground (arith, e)) }

  -- A control block is written back to its own handle.
  pub Holds-put : {p : ℤ → ℕ} {h : ℤ} {n : Ncb} → n.hld ≡ h → Holds env p (put_ncb h n) (λ u. p)
  Holds-put {h = h} {n = n} e = record { run = λ w known. ((λ k. at_handle w known k), λ k. refl) }
    where
      at_handle :
          (w : World) → KnowsHandles w → (k : ℤ) → (if eq_ℤ k h then n else w.ncbs k).hld ≡ k
      at_handle w known k = elim (Bool-cases (eq_ℤ k h)) [
        | inl same ↦ rw same (e ∙ sym (eq_ℤ-sound k h same))
        | inr other ↦ rw other (known k)
      ]

  -- Steps that touch no reference.
  pub Holds-give : {A : Type 0} {p : ℤ → ℕ} (a : A) → Holds env p (return a) (λ b. p)
  Holds-give a = record { run = λ w known. (known, λ h. refl) }

  pub Holds-ask :
      {A : Type 0} {p : ℤ → ℕ} (f : Env → World → A) → Holds env p (λ e w. (f e w, w)) (λ a. p)
  Holds-ask f = record { run = λ w known. (known, λ h. refl) }

  pub Holds-address : {p : ℤ → ℕ} → Holds env p address (λ a. p)
  Holds-address = Holds-ask _

  pub Holds-syscall : {p : ℤ → ℕ} (c : Syscall) → Holds env p (syscall c) (λ r. p)
  Holds-syscall c = record { run = λ w known. (known, λ h. refl) }

  pub Holds-objclos : {p : ℤ → ℕ} (k : ℤ) → Holds env p (objclos k) (λ u. p)
  Holds-objclos k = record { run = λ w known. (known, λ h. refl) }

  pub Holds-enter : {p : ℤ → ℕ} (k : ℤ) → Holds env p (emit (lock_entered k)) (λ u. p)
  Holds-enter k = record { run = λ w known. (known, λ h. refl) }

  pub Holds-leave : {p : ℤ → ℕ} (k : ℤ) → Holds env p (emit (lock_left k)) (λ u. p)
  Holds-leave k = record { run = λ w known. (known, λ h. refl) }

  pub Holds-notified : {p : ℤ → ℕ} (k : ℤ) (n : Notice) → Holds env p (emit (notified k n)) (λ u. p)
  Holds-notified k n = record { run = λ w known. (known, λ h. refl) }

  -- The branches of a test that decides what is held.
  pub Holds-branch :
      {A : Type 0} {p p' : ℤ → ℕ} {q : A → ℤ → ℕ} {m n : M A} (c : Bool)
      → Holds env p m q
      → Holds env p' n q
      → Holds env (if c then p else p') (when c then m else n) q
  unfolding when◌then◌else◌
  Holds-branch true hm hn = record { run = λ w known. hm.run w known }
  Holds-branch false hm hn = record { run = λ w known. hn.run w known }

-- The object manager gives an object for the handle that it has just allocated.
abbrev pub Allocates : Env → Type 0
Allocates env =
    (t : List Event) → is_neg (env.objallo t) ≡ false → env.refer t (env.objallo t) ≡ true

module _ {env : Env} (allocates : Allocates env) where
  -- objallo, and the objrefr after it.
  pub Holds-objallo :
      {A : Type 0} {p : ℤ → ℕ} {q : A → ℤ → ℕ} {n : M A} (j : ℤ → Bool → M A)
      → Holds env p n q
      → ((h : ℤ) → Holds env (with_ref h p) (j h true) q)
      → Holds env p (new_object >>= (λ h. when is_neg h then n else (objrefr h >>= j h))) q
  unfolding ◌>>=◌ when◌then◌else◌
  Holds-objallo {p = p} {q = q} {n = n} j hn hj = record {
    run = λ w known.
        let h = env.objallo w.history in
        elim (Bool-cases (is_neg h)) [
          | inl bad ↦ rw bad (hn.run w known)
          | inr good ↦
              let found = allocates w.history good in
              rw good (
                rw (◌>>=◌, found)
                  (let a = (hj h).run (record w { history = referenced h ∷ w.history }) known in
                    (a.0, λ k. ground (arith, a.1 k))))
        ];
  }

-- A handler that holds nothing before it and nothing after it gives back what it takes.
pub Holds-KeepsRefs :
    {env : Env} {A : Type 0} {m : M A} (w : World) (h : ℤ)
    → Holds env (λ k. 0) m (λ a k. 0)
    → KnowsHandles w
    → KeepsRefs h w (m env w).1
Holds-KeepsRefs w h holds known = let a = holds.run w known in omega (arith, a.1 h)
