-- ===== src/Os/Pages.antt =====
-- The pages that os_lock_virtual_pages of os.c holds.
use swnet_win.Base.{
  ℕ, suc, ◌+◌, ◌<◌, ◌==◌, ◌||◌, ◌%◌, not, pos_part, true, false, Bool-cases, ◌≡◌, ◌≢◌, refl, ◌⊎◌,
  inl, inr, Option, some, ◌∷◌, arith,
}
use swnet_win.World.{Env, World, called, virtual_alloc, pages_made, ◌>>=◌, ◌>>◌, when◌then◌else◌}
use swnet_win.Ledger.{pages_taken, pages_given}
use swnet_win.Os.{
  page_size, Locking, lock_loop, lock_finish, os_allocate_block, os_free_memory_block,
  os_lock_virtual_pages,
}
use swnet_win.Os.Loop.{Suffices, Commits, is_locked, misses, lost, Ended, not_zero, lock_loop_lem}

-- Why there may be no block: a size that is no positive number of pages, or no pages of VirtualAlloc,
-- or a VirtualLock that failed.
abbrev pub Fails : Env → ℕ → World → World → Type 0
Fails env size w w' =
    ((size % page_size ≢ 0) ⊎ (size ≡ 0))
    ⊎ ((pos_part (env.system w.history virtual_alloc) ≡ 0)
        ⊎ (misses env w.history < misses env w'.history))

-- What the caller of os_lock_virtual_pages for new pages has: a block that is not NULL and is locked,
-- and one allocation of pages more; or NULL, for a reason, and no more than before, save the allocations
-- of the blocks for which a commit gave NULL.
abbrev pub Locked : Env → ℕ → World → Option ℕ × World → Type 0
Locked env size w r =
    (a : ℕ) × (r.0 ≡ some a)
    × (((0 < a)
          × (is_locked env a r.1.history ≡ true)
          × (pages_taken r.1.history + pages_given w.history
              ≡ suc (pages_taken w.history + pages_given r.1.history)))
        ⊎ ((a ≡ 0)
            × Fails env size w r.1
            × (pages_taken r.1.history + pages_given w.history + lost env w.history
                ≡ pages_taken w.history + pages_given r.1.history + lost env r.1.history)))

bad_size :
    (size : ℕ)
    → not (size % page_size == 0) || size == 0 ≡ true
    → (size % page_size ≢ 0) ⊎ (size ≡ 0)
bad_size size e = ground (arith, e)

module _ (env : Env) (limit : ℕ) (suffices : Suffices env limit) (commits : Commits env) where
  finish_lem :
      (size memory : ℕ) (w w1 : World) (r : Option Locking × World)
      → 0 < memory
      → pages_taken w1.history ≡ suc (pages_taken w.history)
      → pages_given w1.history ≡ pages_given w.history
      → lost env w1.history ≡ lost env w.history
      → misses env w1.history ≡ misses env w.history
      → Ended env memory w1 r
      → Locked env size w (lock_finish r.0 env r.1)
  unfolding lock_finish os_free_memory_block ◌>>=◌ ◌>>◌ when◌then◌else◌
  finish_lem size memory w w1 r held t g l m e =
      let taken_e = e.same_taken in
      let given_e = e.same_given in
      let nz = not_zero memory held in
      rw e.is_result (elim e.block [
        | inl (same, lost_e, locked) ↦ elim (Bool-cases e.result.successful) [
          | inl s ↦ elim (Bool-cases e.result.opened) [
            | inl o ↦
                rw (s, o, same)
                  (memory, refl, inl (held, locked s, omega (arith, t, g, taken_e, given_e)))
            | inr o ↦
                rw (s, o, same)
                  (memory, refl, inl (held, locked s, omega (arith, t, g, taken_e, given_e)))
          ]
          | inr s ↦
              let why : misses env w.history < misses env r.1.history =
                let more = e.missed s in omega (arith, m, more) in
              elim (Bool-cases e.result.opened) [
                | inl o ↦
                    rw (s, o, same, nz)
                      (
                        0,
                        refl,
                        inr (refl, inr (inr why), omega (arith, t, g, l, taken_e, given_e, lost_e)),
                      )
                | inr o ↦
                    rw (s, o, same, nz)
                      (
                        0,
                        refl,
                        inr (refl, inr (inr why), omega (arith, t, g, l, taken_e, given_e, lost_e)),
                      )
              ]
        ]
        | inr (null, lost_e, s) ↦
            let why : misses env w.history < misses env r.1.history =
              let more = e.missed s in omega (arith, m, more) in
            elim (Bool-cases e.result.opened) [
              | inl o ↦
                  rw (s, o, null)
                    (
                      0,
                      refl,
                      inr (refl, inr (inr why), omega (arith, t, g, l, taken_e, given_e, lost_e)),
                    )
              | inr o ↦
                  rw (s, o, null)
                    (
                      0,
                      refl,
                      inr (refl, inr (inr why), omega (arith, t, g, l, taken_e, given_e, lost_e)),
                    )
            ]
      ])

  -- os_lock_virtual_pages for new pages ends, and gives either a block that VirtualLock has locked,
  -- and that was neither unlocked nor freed since, with one allocation of pages made and not freed;
  -- or NULL, where the size is no positive number of pages, VirtualAlloc gave none, or a
  -- VirtualLock failed, with every allocation freed again, save one for each commit that gave NULL,
  -- whose block is leaked. From the `limit`-th call of VirtualLock on the working set suffices,
  -- pages that are committed again keep their address unless VirtualAlloc fails, and the fuel
  -- exceeds `limit` by more than one.
  pub os_lock_virtual_pages-Locked :
      (fuel size : ℕ) (w : World)
      → limit + 1 < fuel
      → Locked env size w (os_lock_virtual_pages fuel 0 size env w)
  unfolding os_lock_virtual_pages os_allocate_block ◌>>=◌ ◌>>◌ when◌then◌else◌
  os_lock_virtual_pages-Locked fuel size w enough =
      let made = pos_part (env.system w.history virtual_alloc) in
      let w1 : World = record w { history = pages_made made ∷ called virtual_alloc ∷ w.history } in
      elim (Bool-cases (not (size % page_size == 0) || size == 0)) [
        | inl refused ↦ rw refused (0, refl, inr (refl, inl (bad_size size refused), refl))
        | inr asked ↦ elim (Bool-cases (made == 0)) [
          | inl null ↦
              rw (asked, null) (0, refl, inr (refl, inr (inl (ground (arith, null))), refl))
          | inr block ↦
              let held : 0 < made = ground (arith, block) in
              rw (asked, block)
                (rw block (
                  finish_lem size made w w1 (lock_loop fuel made false true env w1) held refl refl
                    refl refl
                    (lock_loop_lem env limit suffices commits fuel made false true w1 held
                      (omega (arith, enough)))))
        ]
      ]
