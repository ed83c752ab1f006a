-- ===== src/Tcp/Api/Balance.antt =====
-- The references that tcp_settst_r and tcp_gettst_r of tcp.c hold, step by step.
use swnet_win.Base.{ℕ, ℤ, is_neg, refl, Option, none, some}
use swnet_win.Types.{Tst}
use swnet_win.World.{Env}
use swnet_win.Ledger.Held.{
  Holds, Holds-bind, Holds-then, Holds-give, Holds-ask, Holds-when, Holds-branch, Holds-get,
  Holds-put, Holds-objdefr,
}
use swnet_win.Tcp.Object.Balance.{Holds-tcprefr}
use swnet_win.Tcp.Api.{with_link, tcp_settst_r, tcp_gettst_r}

module _ {env : Env} {p : ℤ → ℕ} where
  pub tcp_settst_r-Holds :
      (lnk : ℤ) (tst : Option Tst) → Holds env p (tcp_settst_r lnk tst) (λ r. p)
  unfolding tcp_settst_r with_link
  tcp_settst_r-Holds lnk none = Holds-ask _
  tcp_settst_r-Holds lnk (some tst) =
      Holds-when (λ c. Holds-ask _)
        (λ c. Holds-bind (Holds-tcprefr lnk) (λ found. Holds-branch (is_neg found) (Holds-give _) (
          Holds-get (λ n e.
            Holds-bind (Holds-then (Holds-put e) (Holds-then (Holds-put e) (Holds-give _)))
              (λ r. Holds-get (λ after e'. Holds-then (Holds-objdefr lnk e') (Holds-give r)))))))

  pub tcp_gettst_r-Holds :
      (lnk : ℤ) (tst : Option Tst) → Holds env p (tcp_gettst_r lnk tst) (λ r. p)
  unfolding tcp_gettst_r
  tcp_gettst_r-Holds lnk none = Holds-bind (Holds-ask _) (λ e. Holds-give _)
  tcp_gettst_r-Holds lnk (some tst) = Holds-bind (Holds-tcprefr lnk) (λ found.
      Holds-branch (is_neg found) (Holds-give _)
        (Holds-get (λ n e. Holds-then (Holds-objdefr lnk refl) (Holds-give _))))
