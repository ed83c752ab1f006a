-- ===== src/Mxx/References.antt =====
-- The references across nis_cntl of mxx.c.
use swnet_win.Base.{ℕ, ℤ, ◌≡◌, ◌≢◌, refl, Option, none, some}
use swnet_win.Types.{Ncb}
use swnet_win.World.{Env, World, return, ◌>>◌, on_option, objdefr}
use swnet_win.Ledger.{KnowsHandles, KeepsRefs}
use swnet_win.Ledger.Held.{
  Holds, with_ref, Holds-bind, Holds-then, Holds-give, Holds-return, Holds-ask, Holds-get,
  Holds-put, Holds-objrefr, Holds-objdefr, Holds-KeepsRefs,
}
use swnet_win.Tcp.Api.Balance.{tcp_settst_r-Holds, tcp_gettst_r-Holds}
use swnet_win.Mxx.{
  Cntl, ni_setattr, ni_getattr, ni_setctx, ni_getctx, ni_settst, ni_gettst, unknown_command,
  cntl_referenced, nis_cntl,
}

-- The reference on the link, for a command that is known.
abbrev known_holds : {A : Type 0} → (ℤ → ℕ) → ℤ → Option A → ℤ → ℕ
known_holds p link none = p
known_holds p link (some a) = with_ref link p

module _ {env : Env} {p : ℤ → ℕ} (stale : Option ℕ) (link : ℤ) where
  command-Holds :
      (n : Ncb) (cmd : Cntl)
      → n.hld ≡ link
      → cmd ≢ unknown_command
      → Holds env (with_ref link p) (cntl_referenced stale link n cmd) (known_holds p link)
  unfolding cntl_referenced
  command-Holds n (ni_setattr attr) e ne = Holds-then (Holds-put e) (Holds-return _)
  command-Holds n ni_getattr e ne = Holds-return _
  command-Holds n (ni_setctx context) e ne = Holds-then (Holds-put e) (Holds-return _)
  command-Holds n ni_getctx e ne = Holds-then (Holds-put e) (Holds-return _)
  command-Holds n (ni_settst tst) e ne =
      Holds-bind (tcp_settst_r-Holds link tst) (λ r. Holds-return _)
  command-Holds n (ni_gettst tst) e ne =
      Holds-bind (tcp_gettst_r-Holds link tst) (λ r. Holds-return _)
  command-Holds n unknown_command e ne = absurd (ne refl)

  answer-Holds :
      {A : Type 0} (r : Option A) (error : A)
      → Holds env
          (known_holds p link r)
          (on_option r (return error) (λ out. objdefr link >> return out))
          (λ a. p)
  unfolding on_option
  answer-Holds none error = record { run = λ w known. (known, λ h. refl) }
  answer-Holds (some out) error = Holds-then (Holds-objdefr link refl) (Holds-give out)

  nis_cntl-Holds :
      (cmd : Cntl) → cmd ≢ unknown_command → Holds env p (nis_cntl stale link cmd) (λ r. p)
  unfolding nis_cntl
  nis_cntl-Holds cmd ne = Holds-bind (Holds-ask _) (λ enoent. Holds-bind (Holds-ask _) (λ einval.
      Holds-objrefr link
        (Holds-get (λ n e. Holds-bind (command-Holds n cmd e ne) (λ r. answer-Holds r _)))
        (Holds-give _)))

-- nis_cntl gives back the references of every link as often as it takes them, for each of its
-- commands, whatever tcp_settst_r and tcp_gettst_r return, and for a link that is gone. The command
-- is one of those that it knows, and control blocks know their handles.
pub nis_cntl-KeepsRefs :
    (env : Env) (w : World) (h : ℤ) (stale : Option ℕ) (link : ℤ) (cmd : Cntl)
    → KnowsHandles w
    → cmd ≢ unknown_command
    → KeepsRefs h w (nis_cntl stale link cmd env w).1
nis_cntl-KeepsRefs env w h stale link cmd knows ne =
    Holds-KeepsRefs w h (nis_cntl-Holds stale link cmd ne) knows
