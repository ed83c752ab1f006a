-- ===== src/Udp/Group/Blocks.antt =====
-- The blocks of a group of packets: udp_initialize_grp and udp_release_grp of udp.c.
use swnet_win.Base.{
  ℕ, suc, ◌+◌, ltb, ◌==◌, ◌||◌, ℤ, pos, negsuc, is_neg, true, Bool-cases, ◌≡◌, refl, ap, ap₂, sym,
  ◌∙◌, ◌⊎◌, inl, inr, none, some, Option, Option-cases, List, [], ◌∷◌, length, arith,
}
use swnet_win.World.{
  Env, World, block_made, block_freed, dereferenced, ◌>>=◌, ◌>>◌, when◌then◌else◌, on_option,
}
use swnet_win.Ledger.{blocks_made, blocks_freed, KeepsBlocks}
use swnet_win.Udp.Object.{udprefr}
use swnet_win.Udp.Group.{
  Item, fill_items, free_items, init_referenced, udp_initialize_grp, udp_release_grp,
}

-- No item has a block.
abbrev pub Fresh : List Item → Type 0
Fresh [] = Unit {0}
Fresh (item ∷ items) = (item.block ≡ none) × Fresh items

-- The blocks up to the first item with none, and the items once they are freed.
abbrev pub held : List Item → ℕ
held [] = 0
held (item ∷ items) = elim item.block [ none ↦ 0 | some b ↦ suc (held items) ]

abbrev pub cleared : List Item → List Item
cleared [] = []
cleared (item ∷ items) = elim item.block [
  | none ↦ item ∷ items
  | some b ↦ record item { block = none } ∷ cleared items
]

at_none :
    {A B : Type 0} (o : Option A) (x : B) (f : A → B)
    → o ≡ none
    → elim o [ none ↦ x | some b ↦ f b ] ≡ x
at_none none x f e = refl
at_none (some b) x f e = absurd (ground (arith, e))

cleared-Fresh : (items : List Item) → Fresh items → cleared items ≡ items
cleared-Fresh [] fresh = refl
cleared-Fresh (item ∷ items) fresh = at_none item.block _ _ fresh.0

held-Fresh : (items : List Item) → Fresh items → held items ≡ 0
held-Fresh [] fresh = refl
held-Fresh (item ∷ items) fresh = at_none item.block _ _ fresh.0

fresh_item : (item : Item) → item.block ≡ none → record item { block = none } ≡ item
fresh_item item e = ap (λ b. record item { block = b }) (sym e)

module _ (env : Env) where
  pub free_items_lem :
      (items : List Item) (w : World)
      → let r = free_items items env w in
        (r.0 ≡ cleared items)
        × (blocks_freed r.1.history ≡ held items + blocks_freed w.history)
        × (blocks_made r.1.history ≡ blocks_made w.history)
  unfolding free_items ◌>>=◌ ◌>>◌ on_option
  free_items_lem [] w = ground arith
  free_items_lem (item ∷ items) w = elim (Option-cases item.block) [
    | inl e ↦ rw e (ground arith)
    | inr (b, e) ↦ rw e (
        let r = free_items_lem items (record w { history = block_freed b.address ∷ w.history }) in
        (ap (λ t. record item { block = none } ∷ t) r.0, omega (arith, r.1), r.2))
  ]

  pub fill_items_lem :
      (mtu : ℕ) (items : List Item) (w : World)
      → Fresh items
      → let r = fill_items mtu items env w in
        (cleared r.0.1 ≡ items)
        × (blocks_made r.1.history ≡ held r.0.1 + blocks_made w.history)
        × (blocks_freed r.1.history ≡ blocks_freed w.history)
        × (r.0.0 ≡ true → held r.0.1 ≡ length items)
  unfolding fill_items ◌>>=◌ ◌>>◌ when◌then◌else◌ on_option
  fill_items_lem mtu [] w fresh = ground arith
  fill_items_lem mtu (item ∷ items) w fresh =
      elim (Bool-cases (item.length == 0 || ltb mtu item.length)) [
        | inl c ↦
            let none_held = held-Fresh (item ∷ items) fresh in
            rw c (
              cleared-Fresh (item ∷ items) fresh,
              omega (arith, none_held),
              refl,
              λ t. absurd (ground (arith, t)),
            )
        | inr c ↦ elim (Option-cases (env.malloc w.history item.length)) [
          | inl e ↦
              rw (c, e)
                (
                  ap (λ i. i ∷ items) (fresh_item item fresh.0),
                  omega arith,
                  refl,
                  λ t. absurd (ground (arith, t)),
                )
          | inr (b, e) ↦
              rw (c, e)
                (let r =
                    fill_items_lem mtu items
                      (record w { history = block_made b.address ∷ w.history }) fresh.1 in
                  (
                    ap₂ (λ i t. i ∷ t) (fresh_item item fresh.0) r.0,
                    omega (arith, r.1),
                    r.2,
                    λ t. ap suc (r.3 t),
                  ))
        ]
      ]

  udprefr_lem :
      (lnk : ℤ) (w : World)
      → let r = udprefr lnk env w in
        (blocks_made r.1.history ≡ blocks_made w.history)
        × (blocks_freed r.1.history ≡ blocks_freed w.history)
  unfolding udprefr ◌>>=◌ ◌>>◌ when◌then◌else◌
  udprefr_lem lnk w = ground arith

-- The group that udp_initialize_grp leaves: every item has its block and the result is 0, or the
-- result is negative, the group is as it was, and no block is held. Releasing it gives the group
-- back as it was, with as many blocks freed as made.
pub record Initialized (env : Env) (w : World) (items : List Item) (r : (ℤ × List Item) × World)
    : Type 0 where
  pub outcome :
      ((r.0.0 ≡ pos 0) × (held r.0.1 ≡ length items))
      ⊎ ((is_neg r.0.0 ≡ true) × (r.0.1 ≡ items) × KeepsBlocks w r.1)
  pub released : let s = udp_release_grp (some r.0.1) env r.1 in (s.0 ≡ items) × KeepsBlocks w s.1

module _ (env : Env) where
  unchanged :
      (w w' : World) (items : List Item) (n : ℕ)
      → Fresh items
      → KeepsBlocks w w'
      → Initialized env w items ((negsuc n, items), w')
  unfolding udp_release_grp
  unchanged w w' items n fresh kept =
      let r = free_items_lem env items w' in
      let none_held = held-Fresh items fresh in
      record {
        outcome = inr (refl, refl, kept);
        released = (r.0 ∙ cleared-Fresh items fresh, omega (arith, r.1, r.2, none_held, kept));
      }

  -- The handler from the reference on.
  referenced :
      (w w' : World) (items : List Item) (lnk : ℤ)
      → Fresh items
      → blocks_made w'.history ≡ blocks_made w.history
      → blocks_freed w'.history ≡ blocks_freed w.history
      → Initialized env w items (init_referenced lnk items env w')
  unfolding init_referenced udp_release_grp ◌>>=◌ ◌>>◌ when◌then◌else◌
  referenced w w' items lnk fresh m f = elim (Bool-cases ((w'.ncbs lnk).connected == 0)) [
    | inl c ↦ rw c (unchanged w _ items 0 fresh (omega (arith, m, f)))
    | inr c ↦
        let filled = fill_items env.mtu items env w' in
        let fill = fill_items_lem env env.mtu items w' fresh in
        elim (Bool-cases filled.0.0) [
          | inl ok ↦
              let w1 : World = record filled.1 {
                history = dereferenced (w'.ncbs lnk).hld ∷ filled.1.history;
              } in
              let r = free_items_lem env filled.0.1 w1 in
              rw (c, ok)
                (record {
                  outcome = inl (refl, fill.3 ok);
                  released = (r.0 ∙ fill.0, omega (arith, r.1, r.2, fill.1, fill.2, m, f));
                })
          | inr failed ↦
              let g = free_items_lem env filled.0.1 filled.1 in
              let freed_all = free_items filled.0.1 env filled.1 in
              let w2 : World = record freed_all.1 {
                history = dereferenced (w'.ncbs lnk).hld ∷ freed_all.1.history;
              } in
              rw (c, failed, g.0 ∙ fill.0)
                (unchanged w w2 items 0 fresh (omega (arith, g.1, g.2, fill.1, fill.2, m, f)))
        ]
  ]

  -- For a group whose items have no blocks, udp_initialize_grp either returns 0 with a block for
  -- every item, or a negative error with the group as it was and every block that was made freed
  -- again; in both cases udp_release_grp afterwards gives back the group as it was, with as many
  -- blocks freed as made.
  pub udp_initialize_grp-Initialized :
      (w : World) (lnk : ℤ) (items : List Item)
      → Fresh items
      → Initialized env w items (udp_initialize_grp lnk (some items) env w)
  unfolding udp_initialize_grp ◌>>=◌ when◌then◌else◌
  udp_initialize_grp-Initialized w lnk items fresh =
      let r = udprefr_lem env lnk w in
      let found = udprefr lnk env w in
      elim (Bool-cases (length items == 0)) [
        | inl c ↦ rw c (unchanged w w items 0 fresh refl)
        | inr c ↦ elim (Bool-cases (is_neg found.0)) [
          | inl f ↦ rw (c, f) (unchanged w found.1 items 0 fresh (omega (arith, r.0, r.1)))
          | inr f ↦ rw (c, f) (referenced w found.1 items lnk fresh r.0 r.1)
        ]
      ]
