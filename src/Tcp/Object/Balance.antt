-- ===== src/Tcp/Object/Balance.antt =====
-- The references held by tcprefr, tcp_entry and tcp_allocate_object of tcp.c, step by step.
use swnet_win.Base.{
  ℕ, ℤ, pos, negsuc, is_neg, minus_one, Bool, ◌≡◌, refl, if◌then◌else◌, Option, none, some, arith,
}
use swnet_win.Types.{proto_tcp, Ncb}
use swnet_win.World.{Env, ◌>>=◌, ◌>>◌, when◌then◌else◌, syscall, return, shutdown_close, put_ncb}
use swnet_win.Options.{ncb_set_window_size, ncb_set_linger, ncb_set_keepalive, tcp_set_nodelay}
use swnet_win.Links.{ioatth, ioclose, ncb_init}
use swnet_win.Ledger.Held.{
  Holds, with_ref, Holds-bind, Holds-then, Holds-give, Holds-when, Holds-get, Holds-put,
  Holds-syscall, Holds-objdefr, Holds-objclos, Holds-objallo, Allocates,
}
use swnet_win.Tcp.Object.{
  tcprefr, tcp_update_opts, TcpInit, entry_socket, tcp_entry, tcp_allocate_object,
}

module _ {env : Env} {p : ℤ → ℕ} where
  -- tcprefr: a reference more, unless it fails.
  pub Holds-tcprefr : (k : ℤ) → Holds env p (tcprefr k) (λ r. if is_neg r then p else with_ref k p)
  unfolding tcprefr ◌>>=◌ ◌>>◌ when◌then◌else◌
  Holds-tcprefr k = record {
    run = λ w known. (λ h. ground (arith, known h), λ h. ground (arith, known k));
  }

  pub ioatth-Holds : (inited : Bool) (h : ℤ) → Holds env p (ioatth inited h) (λ r. p)
  unfolding ioatth
  ioatth-Holds inited h =
      Holds-when
        (λ c.
          Holds-bind (Holds-syscall _)
            (λ bound. Holds-when (λ c. Holds-give _) (λ c. Holds-give _)))
        (λ c. Holds-give _)

  update_opts-Holds : Holds env p tcp_update_opts (λ r. p)
  unfolding tcp_update_opts ncb_set_window_size ncb_set_linger ncb_set_keepalive tcp_set_nodelay
  update_opts-Holds = Holds-then (Holds-syscall _) (
      Holds-then (Holds-syscall _) (
        Holds-then (Holds-syscall _)
          (Holds-then (Holds-syscall _) (Holds-then (Holds-syscall _) (Holds-give _)))))

  pub ioclose-Holds : (h : ℤ) → Holds env p (ioclose h) (λ u. p)
  unfolding ioclose
  ioclose-Holds h = Holds-get (λ n e. closing n e n.sockfd)
    where
      closing :
          (n : Ncb)
          → n.hld ≡ h
          → (fd : Option ℕ)
          → Holds env p
              (elim fd [
                | none ↦ return tt
                | some s ↦ do syscall shutdown_close; put_ncb h (record n { sockfd = none })
              ])
              (λ u. p)
      closing n e none = Holds-give _
      closing n e (some fd) = Holds-then (Holds-syscall _) (Holds-put e)

  entry_socket-Holds :
      (inited : Bool) (h : ℤ) (n : Ncb) (ctx : TcpInit)
      → n.hld ≡ h
      → Holds env p (entry_socket inited h n ctx) (λ r. p)
  unfolding entry_socket
  entry_socket-Holds inited h n ctx e =
      Holds-when (λ c. Holds-give _)
        (λ c. Holds-then update_opts-Holds (
          Holds-then (Holds-put e) (
            Holds-bind (Holds-syscall _)
              (λ bound. Holds-when (λ c. Holds-give _) (λ c. ioatth-Holds inited h)))))

  tcp_entry-Holds :
      (inited : Bool) (h : ℤ) (ctx : TcpInit) → Holds env p (tcp_entry inited h ctx) (λ r. p)
  unfolding tcp_entry
  tcp_entry-Holds inited h ctx = Holds-then (Holds-put refl) (Holds-bind (Holds-syscall _) opened)
    where
      fresh : Ncb
      fresh = record (ncb_init proto_tcp) { nis_callback = ctx.callback; hld = h }

      opened :
          (fd : ℤ)
          → Holds env p
              (elim fd [
                | negsuc n ↦ do ioclose h; return minus_one
                | pos s ↦ do
                  put_ncb h (record fresh { sockfd = some s })
                  retval ← entry_socket inited h (record fresh { sockfd = some s }) ctx
                  when is_neg retval then (do ioclose h; return retval) else return retval
              ])
              (λ r. p)
      opened (negsuc n) = Holds-then (ioclose-Holds h) (Holds-give _)
      opened (pos s) = Holds-then (Holds-put refl) (
          Holds-bind (entry_socket-Holds inited h _ ctx refl) (λ r.
            Holds-when (λ c. Holds-then (ioclose-Holds h) (Holds-give r)) (λ c. Holds-give r)))

module _ {env : Env} (allocates : Allocates env) {p : ℤ → ℕ} where
  pub tcp_allocate_object-Holds :
      (inited : Bool) (ctx : TcpInit) → Holds env p (tcp_allocate_object inited ctx) (λ r. p)
  unfolding tcp_allocate_object
  tcp_allocate_object-Holds inited ctx = Holds-objallo allocates _ (Holds-give _) (λ h.
      Holds-bind (Holds-when (λ c. tcp_entry-Holds inited h ctx) (λ c. Holds-give _)) (λ r.
        Holds-then (Holds-objdefr h refl)
          (Holds-when (λ c. Holds-then (Holds-objclos h) (Holds-give _)) (λ c. Holds-give h))))
