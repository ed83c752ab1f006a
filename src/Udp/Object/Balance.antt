-- ===== src/Udp/Object/Balance.antt =====
-- The references that the functions of udp.c for the life of a link hold, step by step.
use swnet_win.Base.{
  ℕ, zero, suc, ℤ, pos, negsuc, minus_one, is_neg, Bool, refl, Option, none, some, List, [], ◌∷◌,
  if◌then◌else◌, arith,
}
use swnet_win.Types.{proto_udp, Block, Packet}
use swnet_win.World.{Env, ◌>>=◌, ◌>>◌, when◌then◌else◌, return, put_ncb, allocate, release}
use swnet_win.Links.{ncb_init, ioclose}
use swnet_win.Options.{ncb_set_window_size, ncb_set_linger}
use swnet_win.Packets.Balance.{freepkt-Holds, allocate_packet-Holds, asio_udp_recv-Holds}
use swnet_win.Tcp.Object.Balance.{ioatth-Holds, ioclose-Holds}
use swnet_win.Ledger.Held.{
  Allocates, Holds, with_ref, Holds-bind, Holds-then, Holds-give, Holds-ask, Holds-address,
  Holds-when, Holds-on_option, Holds-get, Holds-put, Holds-syscall, Holds-objdefr, Holds-objclos,
  Holds-objallo,
}
use swnet_win.Os.{page_size}
use swnet_win.Udp.Object.{
  udprefr, udp_update_opts, udp_set_boardcast, UdpInit, learn_port, entry_flags, udp_entry_socket,
  udp_entry, udp_allocate_object, recv_packets, free_packets, udp_allocate_recv_array, recv_all,
  udp_create,
}

module _ {env : Env} {p : ℤ → ℕ} where
  -- udprefr: a reference more, unless it fails.
  pub Holds-udprefr : (k : ℤ) → Holds env p (udprefr k) (λ r. if is_neg r then p else with_ref k p)
  unfolding udprefr ◌>>=◌ ◌>>◌ when◌then◌else◌
  Holds-udprefr k = record {
    run = λ w known. (λ h. ground (arith, known h), λ h. ground (arith, known k));
  }

  pub Holds-allocate : (n : ℕ) → Holds env p (allocate n) (λ o. p)
  Holds-allocate n = record { run = λ w known. (λ k. ground (arith, known k), λ h. ground arith) }

  pub Holds-release : (o : Option Block) → Holds env p (release o) (λ u. p)
  Holds-release none = record { run = λ w known. (known, λ h. refl) }
  Holds-release (some b) = record { run = λ w known. (known, λ h. refl) }

  update_opts-Holds : Holds env p udp_update_opts (λ r. p)
  unfolding udp_update_opts ncb_set_window_size ncb_set_linger
  update_opts-Holds =
      Holds-then (Holds-syscall _)
        (Holds-then (Holds-syscall _) (Holds-then (Holds-syscall _) (Holds-give _)))

  learn_port-Holds :
      (ntohs : ℕ → ℕ) (h : ℤ) (ctx : UdpInit) → Holds env p (learn_port ntohs h ctx) (λ u. p)
  unfolding learn_port
  learn_port-Holds ntohs h ctx =
      Holds-when
        (λ c. Holds-bind (Holds-syscall _) (λ got.
          Holds-bind Holds-address
            (λ name. Holds-get (λ n e. Holds-when (λ c. Holds-give _) (λ c. Holds-put e)))))
        (λ c. Holds-give _)

  entry_flags-Holds : (h : ℤ) (ctx : UdpInit) → Holds env p (entry_flags h ctx) (λ r. p)
  unfolding entry_flags udp_set_boardcast
  entry_flags-Holds h ctx = Holds-bind (Holds-ask _) (λ broadcast.
      Holds-bind (Holds-ask _) (λ multicast. Holds-get (λ n e.
        Holds-when
          (λ c. Holds-when (λ d. Holds-give _) (λ d. Holds-then (Holds-put e) (Holds-give _)))
          (λ c.
            Holds-bind (Holds-syscall _) (λ r.
              Holds-when (λ d. Holds-give _) (λ d. Holds-then (Holds-put e) (Holds-give _)))))))

  entry_socket-Holds :
      (ntohs : ℕ → ℕ) (inited : Bool) (h : ℤ) (ctx : UdpInit)
      → Holds env p (udp_entry_socket ntohs inited h ctx) (λ r. p)
  unfolding udp_entry_socket
  entry_socket-Holds ntohs inited h ctx = Holds-bind (Holds-syscall _) (λ bound.
      Holds-when (λ c. Holds-give _)
        (λ c. Holds-get (λ n e. Holds-then (Holds-put e) (
          Holds-then (learn_port-Holds ntohs h ctx) (
            Holds-then update_opts-Holds (
              Holds-bind (entry_flags-Holds h ctx) (λ flags.
                Holds-when (λ c. Holds-give _)
                  (λ c. Holds-bind (Holds-syscall _) (λ reset.
                    Holds-when (λ c. Holds-give _)
                      (λ c. Holds-bind (ioatth-Holds inited h) (λ attached.
                        Holds-when (λ c. Holds-give _)
                          (λ c.
                            Holds-get
                              (λ ready e'. Holds-then (Holds-put e') (Holds-give _))))))))))))))

  entry-Holds :
      (ntohs : ℕ → ℕ) (inited : Bool) (h : ℤ) (ctx : UdpInit)
      → Holds env p (udp_entry ntohs inited h ctx) (λ r. p)
  unfolding udp_entry
  entry-Holds ntohs inited h ctx = Holds-then (Holds-put refl) (Holds-bind (Holds-syscall _) opened)
    where
      opened :
          (fd : ℤ)
          → Holds env p
              (elim fd [
                | negsuc n ↦ return minus_one
                | pos s ↦ do
                  put_ncb h (record (ncb_init proto_udp) { hld = h; sockfd = some s })
                  retval ← udp_entry_socket ntohs inited h ctx
                  when is_neg retval then (do ioclose h; return minus_one) else return (pos 0)
              ])
              (λ r. p)
      opened (negsuc n) = Holds-give _
      opened (pos s) = Holds-then (Holds-put refl) (
          Holds-bind (entry_socket-Holds ntohs inited h ctx) (λ r.
            Holds-when (λ c. Holds-then (ioclose-Holds h) (Holds-give _)) (λ c. Holds-give _)))

  free_packets-Holds : (packets : List Packet) → Holds env p (free_packets packets) (λ u. p)
  unfolding free_packets
  free_packets-Holds [] = Holds-give _
  free_packets-Holds (packet ∷ rest) = Holds-then (freepkt-Holds packet) (free_packets-Holds rest)

  recv_packets-Holds : (h : ℤ) (size cnt : ℕ) → Holds env p (recv_packets h size cnt) (λ r. p)
  unfolding recv_packets
  recv_packets-Holds h size zero = Holds-give _
  recv_packets-Holds h size (suc cnt) = Holds-bind (allocate_packet-Holds _ _ _ _ _) (λ o.
      Holds-on_option o (Holds-give _)
        (λ packet. Holds-bind (recv_packets-Holds h size cnt) (λ rest. Holds-give _)))

  recv_array-Holds : (h : ℤ) (cnt : ℕ) → Holds env p (udp_allocate_recv_array h cnt) (λ r. p)
  unfolding udp_allocate_recv_array
  recv_array-Holds h cnt = Holds-bind (Holds-ask _) (λ size. Holds-bind (Holds-allocate _) (λ o.
      Holds-on_option o (Holds-give _) (λ block.
        Holds-bind (recv_packets-Holds h page_size cnt) (λ packets.
          Holds-when (λ c. Holds-give _)
            (λ c.
              Holds-then (free_packets-Holds packets.1)
                (Holds-then (Holds-release (some block)) (Holds-give _)))))))

  recv_all-Holds : (packets : List Packet) → Holds env p (recv_all packets) (λ u. p)
  unfolding recv_all
  recv_all-Holds [] = Holds-give _
  recv_all-Holds (packet ∷ rest) = Holds-then (asio_udp_recv-Holds packet) (recv_all-Holds rest)

module _ {env : Env} (allocates : Allocates env) {p : ℤ → ℕ} where
  allocate_object-Holds :
      (ntohs : ℕ → ℕ) (inited : Bool) (ctx : UdpInit)
      → Holds env p (udp_allocate_object ntohs inited ctx) (λ r. p)
  unfolding udp_allocate_object
  allocate_object-Holds ntohs inited ctx = Holds-objallo allocates _ (Holds-give _) (λ h.
      Holds-bind (Holds-when (λ c. entry-Holds ntohs inited h ctx) (λ c. Holds-give _)) (λ r.
        Holds-then (Holds-objdefr h refl)
          (Holds-when (λ c. Holds-then (Holds-objclos h) (Holds-give _)) (λ c. Holds-give h))))

  pub udp_create-Holds :
      (ntohs htons : ℕ → ℕ) (inited has_callback has_address : Bool) (l_port flag : ℕ)
      → Holds env p (udp_create ntohs htons inited has_callback has_address l_port flag) (λ r. p)
  unfolding udp_create
  udp_create-Holds ntohs htons inited has_callback has_address l_port flag =
      Holds-when
        (λ c. Holds-bind (Holds-when (λ d. Holds-syscall _) (λ d. Holds-give _)) (λ parsed.
          Holds-bind Holds-address (λ given.
            Holds-when (λ d. Holds-give _)
              (λ d. Holds-bind (allocate_object-Holds ntohs inited _) (λ h.
                Holds-when (λ e. Holds-give _)
                  (λ e. Holds-bind (recv_array-Holds h _) (λ o.
                    Holds-on_option o (Holds-then (Holds-objclos h) (Holds-give _)) (λ a.
                      Holds-then (recv_all-Holds a.1)
                        (Holds-then (Holds-release (some a.0)) (Holds-give h))))))))))
        (λ c. Holds-give _)
