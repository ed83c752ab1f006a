-- ===== src/Mxx/Context.antt =====
-- The user's context of a link: nis_setctx and nis_getctx of mxx.c.
use swnet_win.Base.{
  ℕ, ◌<◌, ◌==◌, ℤ, pos, minus_one, true, false, Bool-cases, ◌≡◌, refl, ap, ◌∙◌, ◌⊎◌, inl, inr,
  Option, Option-cases, none, some, List, ◌∷◌, not, Bool, length, eq_ℤ-refl, take, take_all, arith,
}
use swnet_win.Types.{Block, Ncb}
use swnet_win.World.{
  Env, World, Event, release, referenced, block_made, set_at, is_live, dangles, ◌>>=◌, ◌>>◌,
  when◌then◌else◌, on_option,
}
use swnet_win.Tcp.Recv.Copy.{put, take-put, length-put}
use swnet_win.Udp.Tx.Write.{Sized}
use swnet_win.Mxx.{copy_ctx, renew_ctx, nis_setctx, context_of, nis_getctx}

-- The context of a link: it has none, of size zero; or it has a block of its size, which is not freed.
abbrev pub IsContext : ℤ → World → Type 0
IsContext lnk w =
    let n = w.ncbs lnk in
    ((n.ncb_ctx ≡ none) × (n.ncb_ctx_size ≡ 0))
    ⊎ ((b : Block) × (n.ncb_ctx ≡ some b)
        × (length b.bytes ≡ n.ncb_ctx_size)
        × (is_live b.address w.history ≡ true))

-- The user sees this context, and the link's context is sound.
abbrev pub Shows : ℤ → List ℕ → ℕ → World → Type 0
Shows lnk ctx size w = (context_of (w.ncbs lnk) ≡ (some ctx, size)) × IsContext lnk w

same_address : (n : ℕ) → n == n ≡ true
same_address n = ground arith

not_zero : (n : ℕ) → 0 < n → n == 0 ≡ false
not_zero n h = ground arith

module _ (env : Env) (lnk : ℤ) (ctx : List ℕ) (size : ℕ) (given : length ctx ≡ size)
    (some_size : 0 < size) where
  -- A copy over the whole of the context's block.
  copy_ctx_lem :
      (w : World) (n : Ncb) (b : Block)
      → n.ncb_ctx ≡ some b
      → n.ncb_ctx_size ≡ size
      → length b.bytes ≡ size
      → is_live b.address w.history ≡ true
      → let r = copy_ctx lnk n ctx env w in (r.0 ≡ some (pos 0)) × Shows lnk ctx size r.1
  unfolding copy_ctx context_of on_option ◌>>=◌ ◌>>◌ when◌then◌else◌
  copy_ctx_lem w n b e s l live =
      let whole : take size ctx ≡ ctx = take_all size ctx (omega (arith, given)) in
      let copied : take size (put b.bytes 0 ctx) ≡ ctx =
        ap (λ k. take k (put b.bytes 0 ctx)) {x = size} (omega (arith, given))
        ∙ take-put b.bytes 0 ctx (omega (arith, given, l)) in
      rw (e, live, s, eq_ℤ-refl lnk, not_zero size some_size, whole)
        (
          refl,
          (
            ap (λ t. (some t, size)) copied,
            inr (_, refl, length-put b.bytes 0 ctx (omega (arith, given, l)) ∙ l, live),
          ),
        )

  -- What is left of nis_setctx, where the link was `gone` or not.
  abbrev Set : Bool → Option ℤ × World → Type 0
  Set gone r =
      ((r.0 ≡ some (pos 0)) × Shows lnk ctx size r.1)
      ⊎ ((r.0 ≡ some minus_one) × ((gone ≡ true) ⊎ ((t : List Event) × (env.malloc t size ≡ none))))

  renew_ctx_lem :
      (w : World) (n : Ncb)
      → Sized env
      → (dangles n.ncb_ctx env w).0 ≡ false
      → Set false (renew_ctx lnk n ctx size env w)
  unfolding renew_ctx ◌>>=◌ ◌>>◌ when◌then◌else◌ on_option
  renew_ctx_lem w n sized live =
      let w2 : World = (release n.ncb_ctx env w).1 in
      elim (Option-cases (env.malloc w2.history size)) [
        | inl e ↦ rw (live, e) (inr (refl, inr (w2.history, e)))
        | inr (b, e) ↦
            let w3 : World = record {
              ncbs = set_at w2.ncbs lnk (record n { ncb_ctx_size = size });
              history = block_made b.address ∷ w2.history;
            } in
            let n' : Ncb = record n { ncb_ctx_size = size; ncb_ctx = some b } in
            rw (live, e)
              (inl (
                copy_ctx_lem w3 n' b refl refl (sized w2.history size b e)
                  (rw (same_address b.address) refl)))
      ]

  IsContext-live : (w : World) → IsContext lnk w → (dangles (w.ncbs lnk).ncb_ctx env w).0 ≡ false
  IsContext-live w (inl (e, z)) = rw e refl
  IsContext-live w (inr (b, e, l, live)) = rw (e, live) refl

  nis_setctx-Set :
      (w : World)
      → Sized env
      → IsContext lnk w
      → Set (not (env.refer w.history lnk)) (nis_setctx lnk (some ctx) size env w)
  unfolding nis_setctx ◌>>=◌ ◌>>◌ when◌then◌else◌ on_option
  nis_setctx-Set w sized is =
      let n = w.ncbs lnk in
      let w1 : World = record w { history = referenced lnk ∷ w.history } in
      elim (Bool-cases (env.refer w.history lnk)) [
        | inr f ↦ rw f (inr (refl, inl refl))
        | inl f ↦ elim (Bool-cases (size == n.ncb_ctx_size)) [
          | inl same ↦ elim is [
            | inl (e, z) ↦ absurd (ground (arith, same, z, some_size))
            | inr (b, e, l, live) ↦
                let eq : n.ncb_ctx_size ≡ size = ground (arith, same) in
                rw (f, not_zero size some_size, same) (inl (copy_ctx_lem w1 n b e eq (l ∙ eq) live))
          ]
          | inr other ↦
              rw (f, not_zero size some_size, other)
                (renew_ctx_lem w1 n sized (IsContext-live w is))
        ]
      ]

  -- nis_setctx with a context of `size` bytes is not undefined behaviour: either it fails with -1,
  -- where the link is gone or malloc gives no block of this size after some history, or it returns
  -- 0, the context of the link is sound again, and nis_getctx gives exactly these bytes and this
  -- size, or fails where the link is gone by then. The size is above 0, malloc gives blocks of the
  -- size it is asked for, and the link's context is sound before: there is none, of size 0, or
  -- there is a block of its size that is not freed.
  pub nis_getctx-nis_setctx :
      (w : World)
      → Sized env
      → IsContext lnk w
      → let r = nis_setctx lnk (some ctx) size env w in
        let g = nis_getctx lnk true env r.1 in
        ((r.0 ≡ some (pos 0))
          × IsContext lnk r.1
          × (((env.refer r.1.history lnk ≡ false) × (g.0 ≡ some none))
              ⊎ (g.0 ≡ some (some (some ctx, size)))))
        ⊎ ((r.0 ≡ some minus_one)
            × ((env.refer w.history lnk ≡ false) ⊎ ((t : List Event) × (env.malloc t size ≡ none))))
  unfolding nis_getctx ◌>>=◌ ◌>>◌ when◌then◌else◌
  nis_getctx-nis_setctx w sized is = elim (nis_setctx-Set w sized is) [
    | inr (failed, why) ↦
        inr (failed, elim why [ inl gone ↦ inl (ground (arith, gone)) | inr full ↦ inr full ])
    | inl (ok, shows) ↦
        let r = nis_setctx lnk (some ctx) size env w in
        inl (
          ok,
          shows.1,
          elim (Bool-cases (env.refer r.1.history lnk)) [
            | inr f ↦ rw f (inl (refl, refl))
            | inl f ↦ rw (f, IsContext-live r.1 shows.1) (inr (ap (λ c. some (some c)) shows.0))
          ],
        )
  ]
