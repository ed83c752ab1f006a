-- ===== src/Network/Pipes.antt =====
-- The references across a message to a link's pipe: tcp_awaken, udp_awaken, and
-- so_dispatch_pipe_event of network.c.
use swnet_win.Base.{ℕ, ℤ, true, ◌≡◌, refl, eq_ℤ-refl, Option, List, ◌∷◌, arith}
use swnet_win.Types.{Packet, Ncb}
use swnet_win.World.{Env, World, M, referenced, emit, posted, ◌>>=◌, ◌>>◌, when◌then◌else◌}
use swnet_win.Links.{ncb_post_pipedata}
use swnet_win.Packets.Balance.{freepkt-Holds, allocate_packet-Holds}
use swnet_win.Ledger.{KnowsHandles, TakesRef}
use swnet_win.Ledger.Held.{
  Holds, Holds-bind, Holds-then, Holds-give, Holds-when, Holds-on_option, Holds-get, Holds-syscall,
  Holds-notified,
}
use swnet_win.Udp.Object.Balance.{Holds-allocate, Holds-release}
use swnet_win.Pipe.{EpollManager, pipe_buffer, post_pipe, awaken_referenced, awaken}
use swnet_win.Network.{so_dispatch_pipe_event}

module _ {env : Env} {p : ℤ → ℕ} where
  Holds-posted : (packet : Packet) → Holds env p (emit (posted packet)) (λ u. p)
  Holds-posted packet = record { run = λ w known. (known, λ h. refl) }

  awaken_referenced-Holds :
      (epmgr : EpollManager) (link : ℤ) (pipedata : Option (List ℕ)) (cb : ℤ)
      → Holds env p (awaken_referenced epmgr link pipedata cb) (λ r. p)
  unfolding awaken_referenced pipe_buffer post_pipe
  awaken_referenced-Holds epmgr link pipedata cb = Holds-get (λ n e.
      Holds-on_option _ (Holds-give _) (λ epfd.
        Holds-when (λ c. Holds-give _)
          (λ c.
            Holds-bind
              (Holds-when
                (λ d.
                  Holds-bind (Holds-allocate _)
                    (λ o. Holds-on_option o (Holds-give _) (λ b. Holds-give _)))
                (λ d. Holds-give _))
              (λ buffer. Holds-on_option buffer (Holds-give _) (λ b.
                Holds-bind (allocate_packet-Holds _ _ _ _ _) (λ packet.
                  Holds-on_option packet (Holds-then (Holds-release b) (Holds-give _)) (λ q.
                    Holds-on_option _ (Holds-give _) (λ filled. Holds-bind (Holds-syscall _) (λ ok.
                      Holds-when (λ f. Holds-then (freepkt-Holds _) (Holds-give _))
                        (λ f. Holds-then (Holds-posted _) (Holds-give _)))))))))))

  notify_pipe-Holds : (n : Ncb) (cb : ℕ) → Holds env p (ncb_post_pipedata n cb) (λ u. p)
  unfolding ncb_post_pipedata
  notify_pipe-Holds n cb = Holds-when (λ c. Holds-notified _ _) (λ c. Holds-give _)

-- A reference taken before a part that holds none.
taken-TakesRef :
    {env : Env} {A : Type 0} {m : M A} (w : World) (link : ℤ)
    → Holds env (λ h. 0) m (λ r h. 0)
    → KnowsHandles w
    → TakesRef link w (m env (record w { history = referenced link ∷ w.history })).1
taken-TakesRef w link holds known =
    let w1 : World = record w { history = referenced link ∷ w.history } in
    let a = holds.run w1 known in let b = a.1 link in let s = eq_ℤ-refl link in ground (arith, b, s)

module _ (env : Env) (w : World) (known : KnowsHandles w) where
  -- Neither end of a message to the pipe of a link gives back the reference that it takes: neither
  -- tcp_awaken and udp_awaken, whatever they return, nor so_dispatch_pipe_event, which hands the
  -- message to the user. The link of the message exists, and control blocks know their handles.
  pub pipe-TakesRef :
      (epmgr : EpollManager) (pipedata : Option (List ℕ)) (cb : ℤ) (packet : Packet)
      → env.refer w.history packet.link ≡ true
      → TakesRef packet.link w (awaken epmgr packet.link pipedata cb env w).1
        × TakesRef packet.link w (so_dispatch_pipe_event packet env w).1
  unfolding awaken so_dispatch_pipe_event ◌>>=◌ ◌>>◌ when◌then◌else◌
  pipe-TakesRef epmgr pipedata cb packet found = rw found (
    taken-TakesRef w packet.link (awaken_referenced-Holds epmgr packet.link pipedata cb) known,
    taken-TakesRef w packet.link
        (Holds-then (Holds-get (λ n e. notify_pipe-Holds n packet.size_for_translation))
          (freepkt-Holds packet))
        known,
  )
