-- ===== src/Network/Startup.antt =====
-- so_init and so_uninit of network.c, called in any order.
use swnet_win.Base.{ℕ, is_neg, false, Bool-cases, ◌≡◌, refl, ◌⊎◌, inl, inr, ◌∷◌, arith, List, ◌∷◌}
use swnet_win.Types.{proto_udp, ProtoType, proto_ip, proto_tcp, proto_pipe}
use swnet_win.Io.{Atomic, IoState, ioinit}
use swnet_win.World.{
  wsa_cleanup, called, Event, Env, World, called, wsa_startup, ◌>>=◌, ◌>>◌, when◌then◌else◌,
}
use swnet_win.Network.{
  Sockets, set_initialized, so_init, any_initialized, uninit_protocol, so_uninit,
}

-- The state at the start of the program.
abbrev pub unstarted : IoState → Sockets
unstarted io = record { startup = 0; initialized = λ k. false; io = io }

-- What any sequence of calls of so_init and so_uninit reaches.
pub data Reach (env : Env) (atomic : Atomic) : Sockets → World → Type 0 where
  start : (io : IoState) (w : World) → Reach env atomic (unstarted io) w
  init :
      {s : Sockets} {w : World} (proto : ProtoType)
      → Reach env atomic s w
      → Reach env atomic (so_init atomic proto s env w).0.1 (so_init atomic proto s env w).1
  uninit :
      {s : Sockets} {w : World} (proto : ProtoType)
      → Reach env atomic s w
      → Reach env atomic (so_uninit atomic proto s env w).0 (so_uninit atomic proto s env w).1

-- The library is started once or not at all, and only UDP is marked as in use.
pub record IsUdpOnly (s : Sockets) : Type 0 where
  pub once : (s.startup ≡ 0) ⊎ (s.startup ≡ 1)
  pub no_tcp : s.initialized proto_tcp ≡ false
  pub no_ip : s.initialized proto_ip ≡ false
  pub no_pipe : s.initialized proto_pipe ≡ false

set_initialized-IsUdpOnly :
    (proto : ProtoType) (s : Sockets) → IsUdpOnly s → IsUdpOnly (set_initialized proto s)
unfolding set_initialized
set_initialized-IsUdpOnly proto s i =
    let o = i.once in
    let t = i.no_tcp in let p = i.no_ip in let q = i.no_pipe in ground (arith, o, t, p, q)

started-IsUdpOnly :
    (s : Sockets)
    → IsUdpOnly s
    → (n : ℕ) (io : IoState) → (n ≡ 0) ⊎ (n ≡ 1)
    → IsUdpOnly (record s { startup = n; io = io })
started-IsUdpOnly s i n io o = record {
  once = o;
  no_tcp = i.no_tcp;
  no_ip = i.no_ip;
  no_pipe = i.no_pipe;
}

module _ (env : Env) (atomic : Atomic) where
  so_init-IsUdpOnly :
      (proto : ProtoType) (s : Sockets) (w : World)
      → IsUdpOnly s
      → IsUdpOnly (so_init atomic proto s env w).0.1
  unfolding so_init ◌>>=◌ ◌>>◌ when◌then◌else◌
  so_init-IsUdpOnly proto s w i = elim i.once [
    | inr e ↦ rw e (set_initialized-IsUdpOnly proto _ (started-IsUdpOnly s i 1 s.io (inr refl)))
    | inl e ↦ elim (Bool-cases (is_neg (env.system w.history wsa_startup))) [
      | inl f ↦ rw (e, f) (started-IsUdpOnly s i 0 s.io (inl refl))
      | inr f ↦
          let r = ioinit atomic s.io env (record w { history = called wsa_startup ∷ w.history }) in
          elim (Bool-cases (is_neg r.0.0)) [
            | inl g ↦ rw (e, f, g) (started-IsUdpOnly s i 0 r.0.1 (inl refl))
            | inr g ↦
                rw (e, f, g)
                  (set_initialized-IsUdpOnly proto _ (started-IsUdpOnly s i 1 r.0.1 (inr refl)))
          ]
    ]
  ]

  so_uninit-IsUdpOnly :
      (proto : ProtoType) (s : Sockets) (w : World)
      → IsUdpOnly s
      → IsUdpOnly (so_uninit atomic proto s env w).0
  unfolding so_uninit uninit_protocol ◌>>=◌ ◌>>◌ when◌then◌else◌
  so_uninit-IsUdpOnly proto s w i =
      let t = i.no_tcp in
      let o = i.once in let p = i.no_ip in let q = i.no_pipe in ground (arith, o, t, p, q)

  -- Whatever calls of so_init and so_uninit the program makes, for any protocols and with any
  -- answers of the system: TCP is never marked as in use, only UDP ever is, and the counter of
  -- starts is 0 or 1.
  pub Reach-IsUdpOnly : (s : Sockets) (w : World) → Reach env atomic s w → IsUdpOnly s
  Reach-IsUdpOnly s w (start io u) = record {
    once = inl refl;
    no_tcp = refl;
    no_ip = refl;
    no_pipe = refl;
  }
  Reach-IsUdpOnly s w (init {s = t} {w = u} proto r) =
      so_init-IsUdpOnly proto t u (Reach-IsUdpOnly t u r)
  Reach-IsUdpOnly s w (uninit {s = t} {w = u} proto r) =
      so_uninit-IsUdpOnly proto t u (Reach-IsUdpOnly t u r)

  -- Whatever calls of so_init and so_uninit came before: so_uninit for UDP ends with WSACleanup,
  -- also when so_init was called for TCP and so_uninit for TCP was not.
  pub so_uninit-cleans :
      (s : Sockets) (w : World)
      → Reach env atomic s w
      → (t : List Event) × ((so_uninit atomic proto_udp s env w).1.history ≡ called wsa_cleanup ∷ t)
  unfolding so_uninit uninit_protocol any_initialized ◌>>=◌ ◌>>◌ when◌then◌else◌
  so_uninit-cleans s w reach =
      let i = Reach-IsUdpOnly s w reach in
      let t = i.no_tcp in let p = i.no_ip in let q = i.no_pipe in rw (t, p, q) (_, refl)
