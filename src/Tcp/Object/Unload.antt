-- ===== src/Tcp/Object/Unload.antt =====
-- tcp_unload of tcp.c and the packets that wait to be sent.
use swnet_win.Base.{
  suc, ◌+◌, ltb, ℤ, true, ◌≡◌, ◌⊎◌, List, [], ◌∷◌, length, none, arith, Option-cases, ap₂, ◌∙◌, inl,
  inr, some, refl,
}
use swnet_win.Types.{Packet, Ncb}
use swnet_win.World.{
  Env, World, put_ncb, emit, lock_entered, lock_left, ◌>>=◌, ◌>>◌, when◌then◌else◌, on_option,
}
use swnet_win.Ledger.{freed}
use swnet_win.Links.{ioclose, free_context, ncb_post_preclose, ncb_post_close}
use swnet_win.Packets.{freepkt}
use swnet_win.Tcp.Recv.{ncb_unmark_lb}
use swnet_win.Tcp.Object.{drain, tcp_unload}

module _ (env : Env) (h : ℤ) where
  freepkt-frees :
      (w : World) (p : Packet) → freed (freepkt p env w).1.history ≡ suc (freed w.history)
  unfolding freepkt ◌>>=◌ ◌>>◌ when◌then◌else◌ on_option
  freepkt-frees w p = ground arith

  -- The world after the first packet.
  next : World → Packet → List Packet → World
  next w p rest =
      (freepkt p env (put_ncb h (record (w.ncbs h) { tcp_sender_cache = rest }) env w).1).1

  next-frees :
      (w : World) (p : Packet) (ps : List Packet)
      → freed (next w p ps).history ≡ suc (freed w.history)
  unfolding next ◌>>=◌ ◌>>◌ when◌then◌else◌ on_option
  next-frees w p ps =
      freepkt-frees (put_ncb h (record (w.ncbs h) { tcp_sender_cache = ps }) env w).1 p

  drain-frees :
      (w : World) (packets : List Packet)
      → freed (drain h packets env w).1.history ≡ length packets + freed w.history
  unfolding drain next ◌>>=◌ ◌>>◌ when◌then◌else◌ on_option
  drain-frees w [] = ground arith
  drain-frees w (p ∷ ps) = ground (arith, drain-frees (next w p ps) ps, next-frees w p ps)

  -- The link after its socket is closed.
  closed : World → World
  closed w = (ioclose h env (ncb_post_preclose (w.ncbs h) env w).1).1

  closed-keeps :
      (w : World)
      → (freed (closed w).history ≡ freed w.history)
        × (((closed w).ncbs h).lb_data ≡ (w.ncbs h).lb_data)
        × (((closed w).ncbs h).lb_length ≡ (w.ncbs h).lb_length)
        × (((closed w).ncbs h).tcp_sender_cache ≡ (w.ncbs h).tcp_sender_cache)
  unfolding closed ioclose ncb_post_preclose ◌>>=◌ ◌>>◌ when◌then◌else◌
  closed-keeps w = ground arith

  unmarked :
      (ncb : Ncb)
      → (ncb.lb_data ≡ none) ⊎ (ltb 0 ncb.lb_length ≡ true)
      → (n : Ncb) × (ncb_unmark_lb ncb ≡ some n) × (n.tcp_sender_cache ≡ ncb.tcp_sender_cache)
  unfolding ncb_unmark_lb
  unmarked ncb marked = elim (Option-cases ncb.lb_data) [
    | inl e ↦ rw e (_, refl, refl)
    | inr (d, e) ↦ elim marked [
      | inl none_e ↦ absurd (ground (arith, e, none_e))
      | inr l ↦ rw (e, l) (_, refl, refl)
    ]
  ]

  finished-frees :
      (w : World) (n : Ncb)
      → freed ((do free_context n; ncb_post_close n) env w).1.history ≡ freed w.history
  unfolding free_context ncb_post_close ◌>>=◌ ◌>>◌ when◌then◌else◌
  finished-frees w n = ground arith

  -- tcp_unload frees as many packets as waited to be sent, when the link has no large block or a
  -- large block of a length above 0.
  pub tcp_unload-frees :
      (w : World)
      → ((w.ncbs h).lb_data ≡ none) ⊎ (ltb 0 (w.ncbs h).lb_length ≡ true)
      → freed (tcp_unload h env w).1.history ≡ length (w.ncbs h).tcp_sender_cache + freed w.history
  unfolding tcp_unload closed ◌>>=◌ ◌>>◌ on_option
  tcp_unload-frees w marked =
      let c = closed-keeps w in
      let m = unmarked ((closed w).ncbs h) (rw (c.1, c.2) marked) in
      let entered : World =
        ((do put_ncb h (record m.0 { tcp_sender_list_size = 0 }); emit (lock_entered h)) env
          (closed w)).1 in
      let drained : World = (drain h m.0.tcp_sender_cache env entered).1 in
      let finished = finished-frees (emit (lock_left h) env drained).1 m.0 in
      rw m.1 (
        finished
        ∙ drain-frees entered m.0.tcp_sender_cache
        ∙ ap₂ (λ a b. length a + b) (m.2 ∙ c.3) c.0)
