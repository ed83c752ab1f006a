-- ===== src/Tcp/Api/Settings.antt =====
-- The template and the attributes of a link: tcp_settst, tcp_settst_r, tcp_gettst and tcp_setattr of tcp.c.
use swnet_win.Base.{
  ℕ, ℤ, pos, is_neg, Bool, true, Option, none, some, ◌≡◌, ◌⊎◌, eq_ℤ-refl, if◌then◌else◌, bit_or,
  arith,
}
use swnet_win.Types.{Tst}
use swnet_win.World.{Env, World, ◌>>=◌, ◌>>◌, when◌then◌else◌, on_option}
use swnet_win.Ledger.{KnowsHandles, KeepsRefs}
use swnet_win.Tcp.Object.{tcprefr}
use swnet_win.Tcp.Api.{with_link, tcp_settst, tcp_settst_r, tcp_gettst, tcp_setattr, clear_bits}

module _ (env : Env) (w : World) (known : KnowsHandles w) (h : ℤ) where
  -- On every branch tcp_settst_r leaves the template of the link as it was, also when it reports
  -- success, and the references balanced. Control blocks know their handles.
  pub tcp_settst_r-keeps :
      (tst : Option Tst)
      → let r = tcp_settst_r h tst env w in
        (((r.1.ncbs h).tcp_tst ≡ (w.ncbs h).tcp_tst) × KeepsRefs h w r.1)
  unfolding tcp_settst_r with_link tcprefr ◌>>=◌ ◌>>◌ when◌then◌else◌ on_option
  tcp_settst_r-keeps none = ground (arith, known h)
  tcp_settst_r-keeps (some tst) = ground (arith, known h)

  -- tcp_settst either returns 0 with only the template of the link changed, to the one given, or
  -- returns an error with the link unchanged; the references are balanced either way. Control
  -- blocks know their handles.
  tcp_settst-sets :
      (tst : Tst)
      → let r = tcp_settst h (some tst) env w in
        KeepsRefs h w r.1
        × (((r.0 ≡ pos 0) × (r.1.ncbs h ≡ record (w.ncbs h) { tcp_tst = tst }))
            ⊎ ((is_neg r.0 ≡ true) × (r.1.ncbs h ≡ w.ncbs h)))
  unfolding tcp_settst with_link tcprefr ◌>>=◌ ◌>>◌ when◌then◌else◌ on_option
  tcp_settst-sets tst = ground (arith, known h, eq_ℤ-refl h)

  -- tcp_gettst changes no control block, leaves the references balanced, and gives 0 with the
  -- template of the link or a negative error. Control blocks know their handles.
  tcp_gettst-gives :
      let r = tcp_gettst h env w in
      KeepsRefs h w r.1
      × (r.1.ncbs ≡ w.ncbs)
      × ((r.0 ≡ (pos 0, some (w.ncbs h).tcp_tst)) ⊎ (is_neg r.0.0 ≡ true))
  unfolding tcp_gettst tcprefr ◌>>=◌ ◌>>◌ when◌then◌else◌ on_option
  tcp_gettst-gives = ground (arith, known h, eq_ℤ-refl h)

  -- After tcp_settst has succeeded, tcp_gettst gives the template that was set, or fails. Control
  -- blocks know their handles.
  pub tcp_settst-tcp_gettst :
      (tst : Tst)
      → let r = tcp_settst h (some tst) env w in
        let s = tcp_gettst h env r.1 in
        r.0 ≡ pos 0 → (s.0 ≡ (pos 0, some tst)) ⊎ (is_neg s.0.0 ≡ true)
  unfolding tcp_settst tcp_gettst with_link tcprefr ◌>>=◌ ◌>>◌ when◌then◌else◌ on_option
  tcp_settst-tcp_gettst tst done = ground (arith, known h, eq_ℤ-refl h)

  -- tcp_setattr either returns 0 with only the attributes of the link changed, the bits given set
  -- or cleared, or returns a negative error with no control block changed; the references are
  -- balanced either way. Control blocks know their handles.
  pub tcp_setattr-sets :
      (attr : ℕ) (enable : Bool)
      → let r = tcp_setattr h attr enable env w in
        KeepsRefs h w r.1
        × (((r.0 ≡ pos 0)
              × (r.1.ncbs h ≡ record (w.ncbs h) {
                attr =
                    if enable then bit_or (w.ncbs h).attr attr else clear_bits (w.ncbs h).attr attr;
              }))
            ⊎ ((is_neg r.0 ≡ true) × (r.1.ncbs ≡ w.ncbs)))
  unfolding tcp_setattr with_link tcprefr ◌>>=◌ ◌>>◌ when◌then◌else◌ on_option
  tcp_setattr-sets attr enable = ground (arith, known h, eq_ℤ-refl h)
