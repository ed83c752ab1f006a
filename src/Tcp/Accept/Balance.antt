-- ===== src/Tcp/Accept/Balance.antt =====
-- The references held by the functions of tcp.c that accept links, step by step.
use swnet_win.Base.{ℕ, zero, suc, ℤ, is_neg, Bool, ◌≡◌, refl}
use swnet_win.Types.{Ncb, PktType, Packet, send, recv, syn, connect, pipe, unknown}
use swnet_win.World.{Env, return, objclos, objdefr, get_ncb, ◌>>=◌, ◌>>◌, when◌then◌else◌}
use swnet_win.Packets.{freepkt}
use swnet_win.Packets.Balance.{freepkt-Holds, allocate_packet-Holds, asio_tcp_accept-Holds}
use swnet_win.Ledger.Held.{
  Allocates, Holds, Holds-bind, Holds-then, Holds-give, Holds-when, Holds-branch, Holds-on_option,
  Holds-get, Holds-objdefr, Holds-objclos,
}
use swnet_win.Tcp.Object.{tcprefr}
use swnet_win.Tcp.Object.Balance.{Holds-tcprefr, tcp_allocate_object-Holds}
use swnet_win.Links.{ncb_post_accepted}
use swnet_win.Packets.Balance.{asio_tcp_recv-Holds}
use swnet_win.Tcp.Object.Balance.{ioatth-Holds}
use swnet_win.Ledger.Held.{Holds-put, Holds-syscall, Holds-address, Holds-ask, Holds-notified}
use swnet_win.Tcp.Accept.{
  copy_context, tcp_syn_copy, accepted_recv, tcp_dispatch_io_syn, syn_loop, tcp_syn,
  tcp_shutdown_by_packet,
}

module _ {env : Env} (allocates : Allocates env) (inited : Bool) where
  syn_loop-Holds :
      {p : ℤ → ℕ} (n : ℕ) (h : ℤ) (packet : Packet)
      → Holds env p (syn_loop inited n h packet) (λ r. p)
  unfolding syn_loop
  syn_loop-Holds zero h packet = Holds-get (λ n e. Holds-then (Holds-objclos _) (Holds-give _))
  syn_loop-Holds (suc n) h packet = Holds-get (λ ncb e.
      Holds-bind (tcp_allocate_object-Holds allocates inited _) (λ income.
        Holds-when (λ c. Holds-then (Holds-objclos _) (Holds-give _))
          (λ c. Holds-bind (asio_tcp_accept-Holds _) (λ r.
            Holds-when (λ c. Holds-then (Holds-objclos _) (syn_loop-Holds n h packet))
              (λ c. Holds-give _)))))

  pub tcp_syn-Holds : {p : ℤ → ℕ} (h : ℤ) → Holds env p (tcp_syn inited h) (λ r. p)
  unfolding tcp_syn
  tcp_syn-Holds h = Holds-get (λ n e.
      Holds-bind (allocate_packet-Holds _ _ _ _ _)
        (λ o. Holds-on_option o (Holds-give _) (λ packet. syn_loop-Holds _ h packet)))

  closes :
      {p : ℤ → ℕ} (k : ℤ) (packet : Packet) → Holds env p (objclos k >> freepkt packet) (λ u. p)
  closes k packet = Holds-then (Holds-objclos k) (freepkt-Holds packet)

  retried :
      {p : ℤ → ℕ} (packet : Packet)
      → Holds env p
          (do
            found ← tcprefr packet.link
            when is_neg found
                then return tt
                else (do tcp_syn inited packet.link; ncb ← get_ncb packet.link; objdefr ncb.hld)
            objclos packet.accepted_link
            freepkt packet)
          (λ u. p)
  retried packet = Holds-bind (Holds-tcprefr packet.link) (λ found.
      Holds-then
        (Holds-branch (is_neg found) (Holds-give _)
          (Holds-then (tcp_syn-Holds packet.link) (Holds-get (λ n e. Holds-objdefr packet.link e))))
        (closes packet.accepted_link packet))

  by_type :
      {p : ℤ → ℕ} (packet : Packet) (type : PktType)
      → packet.type ≡ type
      → Holds env p (tcp_shutdown_by_packet inited packet) (λ u. p)
  unfolding tcp_shutdown_by_packet freepkt
  by_type packet recv e = rw e (closes packet.link packet)
  by_type packet send e = rw e (closes packet.link packet)
  by_type packet connect e = rw e (closes packet.link packet)
  by_type packet syn e = rw e (retried packet)
  by_type packet pipe e = rw e (Holds-give _)
  by_type packet unknown e = rw e (Holds-give _)

  pub tcp_shutdown_by_packet-Holds :
      {p : ℤ → ℕ} (packet : Packet) → Holds env p (tcp_shutdown_by_packet inited packet) (λ u. p)
  tcp_shutdown_by_packet-Holds packet = by_type packet packet.type refl

  accepted_Holds : {p : ℤ → ℕ} (ncb : Ncb) (k : ℤ) → Holds env p (ncb_post_accepted ncb k) (λ u. p)
  unfolding ncb_post_accepted
  accepted_Holds ncb k = Holds-when (λ c. Holds-notified _ _) (λ c. Holds-give _)

  copy_context-Holds : {p : ℤ → ℕ} (k a : ℤ) → Holds env p (copy_context inited k a) (λ u. p)
  unfolding copy_context
  copy_context-Holds k a = Holds-get (λ n e. Holds-get (λ m e'.
      Holds-bind (Holds-ask (λ env w. env.linkattr_tcp_update_accept_context))
        (λ mask. Holds-when (λ c. Holds-give _) (λ c. Holds-put e'))))

  tcp_syn_copy-Holds :
      {p : ℤ → ℕ} (found : Bool) (k a : ℤ) (packet : Packet)
      → Holds env p (tcp_syn_copy inited found k a packet) (λ r. p)
  unfolding tcp_syn_copy
  tcp_syn_copy-Holds found k a packet =
      Holds-bind (Holds-when (λ c. Holds-give _) (λ c. Holds-syscall _)) (λ status.
        Holds-when (λ c. Holds-give _)
          (λ c. Holds-bind (Holds-syscall _) (λ r.
            Holds-when (λ c. Holds-give _)
              (λ c. Holds-bind Holds-address (λ r_addr. Holds-bind (Holds-ask _) (λ l_addr.
                Holds-then (copy_context-Holds k a) (
                  Holds-get (λ m e. Holds-then (Holds-put e) (
                    Holds-bind (ioatth-Holds inited a) (λ attached.
                      Holds-when (λ c. Holds-give _)
                        (λ c.
                          Holds-get
                            (λ n e'. Holds-then (accepted_Holds n _) (Holds-give _)))))))))))))

  accepted_recv-Holds :
      {p : ℤ → ℕ} (found : Bool) (k a : ℤ) (packet : Packet)
      → Holds env p (accepted_recv inited found k a packet) (λ r. p)
  unfolding accepted_recv
  accepted_recv-Holds found k a packet = Holds-bind (tcp_syn_copy-Holds found k a packet) (λ copied.
      Holds-when (λ c. Holds-give _)
        (λ c. Holds-get (λ n e.
          Holds-bind (allocate_packet-Holds _ _ _ _ _)
            (λ o. Holds-on_option o (Holds-give _) (λ r. asio_tcp_recv-Holds r)))))

  pub tcp_dispatch_io_syn-Holds :
      {p : ℤ → ℕ} (found : Bool) (packet : Packet)
      → Holds env p (tcp_dispatch_io_syn inited found packet) (λ u. p)
  unfolding tcp_dispatch_io_syn
  tcp_dispatch_io_syn-Holds found packet = Holds-bind (Holds-tcprefr packet.link) (λ listening.
      Holds-branch (is_neg listening) (Holds-give _) (
        Holds-bind (Holds-tcprefr packet.accepted_link) (λ accepted.
          Holds-then
            (Holds-branch (is_neg accepted) (Holds-give _) (
              Holds-bind (accepted_recv-Holds found packet.link packet.accepted_link packet) (λ r.
                Holds-get (λ n e.
                  Holds-then (Holds-when (λ c. Holds-objclos _) (λ c. Holds-give _))
                    (Holds-objdefr packet.accepted_link e)))))
            (Holds-bind (tcp_syn-Holds packet.link) (λ next. Holds-get (λ n e.
              Holds-then (Holds-when (λ c. Holds-objclos _) (λ c. Holds-give _))
                (Holds-objdefr packet.link e)))))))
