-- ===== src/Tcp/Object/References.antt =====
-- What tcprefr of tcp.c does to the references of a link.
use swnet_win.Base.{ℤ, pos, is_neg, true, ◌≡◌, ◌⊎◌, arith}
use swnet_win.Types.{proto_tcp}
use swnet_win.World.{Env, World, ◌>>=◌, ◌>>◌, when◌then◌else◌, on_option}
use swnet_win.Ledger.{KnowsHandles, KeepsRefs, TakesRef}
use swnet_win.Tcp.Object.{tcprefr}

module _ (env : Env) (w : World) (known : KnowsHandles w) (h : ℤ) where
  -- tcprefr returns 0 for a TCP link and then holds exactly one reference more than before, or it
  -- returns a negative error and holds none. Control blocks know their handles.
  pub tcprefr-TakesRef :
      let r = tcprefr h env w in
      ((r.0 ≡ pos 0) × ((w.ncbs h).proto_type ≡ proto_tcp) × TakesRef h w r.1)
      ⊎ ((is_neg r.0 ≡ true) × KeepsRefs h w r.1)
  unfolding tcprefr ◌>>=◌ ◌>>◌ when◌then◌else◌ on_option
  tcprefr-TakesRef = ground (arith, known h)
