-- ===== src/Udp/Group/Balance.antt =====
-- The references that the functions of udp.c on groups of packets hold, step by step.
use swnet_win.Base.{ℕ, ℤ, is_neg, Bool, Option, none, some, List, [], ◌∷◌}
use swnet_win.Types.{SockAddr, Packet, Ncb}
use swnet_win.World.{Env}
use swnet_win.Packets.Balance.{
  freepkt-Holds, allocate_packet-Holds, syio_grp_send-Holds, syio_v_connect-Holds,
  syio_v_disconnect-Holds,
}
use swnet_win.Ledger.Held.{
  Holds, Holds-bind, Holds-then, Holds-give, Holds-when, Holds-branch, Holds-on_option, Holds-get,
  Holds-put, Holds-ask, Holds-address, Holds-syscall, Holds-objdefr,
}
use swnet_win.Udp.Object.Balance.{Holds-udprefr, Holds-allocate, Holds-release}
use swnet_win.Udp.Group.{
  Item, fill_items, free_items, udp_initialize_grp, init_referenced, raise_to, udp_raise_grp,
  udp_detach_grp, send_group, udp_write_grp,
}

module _ {env : Env} {p : ℤ → ℕ} where
  fill_items-Holds : (mtu : ℕ) (items : List Item) → Holds env p (fill_items mtu items) (λ r. p)
  unfolding fill_items
  fill_items-Holds mtu [] = Holds-give _
  fill_items-Holds mtu (item ∷ items) =
      Holds-when (λ c. Holds-give _)
        (λ c. Holds-bind (Holds-allocate _) (λ made.
          Holds-on_option made (Holds-give _)
            (λ b. Holds-bind (fill_items-Holds mtu items) (λ rest. Holds-give _))))

  free_items-Holds : (items : List Item) → Holds env p (free_items items) (λ r. p)
  unfolding free_items
  free_items-Holds [] = Holds-give _
  free_items-Holds (item ∷ items) = Holds-on_option item.block (Holds-give _) (λ b.
      Holds-then (Holds-release (some b))
        (Holds-bind (free_items-Holds items) (λ rest. Holds-give _)))

  raise_to-Holds :
      (htonl : ℕ → ℕ) (lnk : ℤ) (n : Ncb) (r_addr : SockAddr)
      → Holds env p (raise_to htonl lnk n r_addr) (λ r. p)
  unfolding raise_to
  raise_to-Holds htonl lnk n r_addr =
      Holds-when
        (λ c. Holds-bind (syio_v_connect-Holds htonl lnk r_addr) (λ r. Holds-get (λ ready e.
          Holds-when (λ d. Holds-give _) (λ d. Holds-then (Holds-put e) (Holds-give _)))))
        (λ c. Holds-when (λ d. Holds-give _) (λ d. Holds-give _))

  send_group-Holds :
      (known : Bool) (packet : Packet) (count : ℕ)
      → Holds env p (send_group known packet count) (λ r. p)
  unfolding send_group
  send_group-Holds known packet count = Holds-bind (Holds-ask _) (λ size.
      Holds-bind (Holds-allocate _) (λ elements.
        Holds-bind (Holds-on_option elements (Holds-give _) (λ e. syio_grp_send-Holds known _))
          (λ r. Holds-then (freepkt-Holds _) (Holds-give _))))

module _ {env : Env} {p : ℤ → ℕ} where
  pub udp_initialize_grp-Holds :
      (lnk : ℤ) (grp : Option (List Item)) → Holds env p (udp_initialize_grp lnk grp) (λ r. p)
  unfolding udp_initialize_grp init_referenced
  udp_initialize_grp-Holds lnk none = Holds-give _
  udp_initialize_grp-Holds lnk (some items) =
      Holds-when (λ c. Holds-give _)
        (λ c. Holds-bind (Holds-udprefr lnk) (λ found. Holds-branch (is_neg found) (Holds-give _) (
          Holds-bind (Holds-ask _) (λ mtu. Holds-get (λ n e.
            Holds-bind
              (Holds-when (λ d. Holds-give _)
                (λ d. Holds-bind (fill_items-Holds mtu items) (λ filled.
                  Holds-when (λ f. Holds-give _)
                    (λ f. Holds-bind (free_items-Holds filled.1) (λ cleared. Holds-give _)))))
              (λ r. Holds-then (Holds-objdefr lnk e) (Holds-give r)))))))

  pub udp_raise_grp-Holds :
      (htons htonl : ℕ → ℕ) (lnk : ℤ) (r_port : ℕ)
      → Holds env p (udp_raise_grp htons htonl lnk r_port) (λ r. p)
  unfolding udp_raise_grp
  udp_raise_grp-Holds htons htonl lnk r_port = Holds-bind (Holds-udprefr lnk) (λ found.
      Holds-branch (is_neg found) (Holds-give _) (
        Holds-get (λ n e. Holds-bind (Holds-syscall _) (λ parsed. Holds-bind Holds-address (λ given.
          Holds-bind (Holds-when (λ c. Holds-give _) (λ c. raise_to-Holds htonl lnk n _))
            (λ r. Holds-get (λ after e'. Holds-then (Holds-objdefr lnk e') (Holds-give r))))))))

  pub udp_detach_grp-Holds : (lnk : ℤ) → Holds env p (udp_detach_grp lnk) (λ u. p)
  unfolding udp_detach_grp
  udp_detach_grp-Holds lnk = Holds-bind (Holds-udprefr lnk) (λ found.
      Holds-branch (is_neg found) (Holds-give _) (
        Holds-get (λ n e.
          Holds-then
            (Holds-when (λ c. Holds-give _)
              (λ c. Holds-then (syio_v_disconnect-Holds lnk) (Holds-give _)))
            (Holds-get (λ after e'. Holds-objdefr lnk e')))))

  pub udp_write_grp-Holds :
      (known : Bool) (lnk : ℤ) (grp : Option (List Item))
      → Holds env p (udp_write_grp known lnk grp) (λ r. p)
  unfolding udp_write_grp
  udp_write_grp-Holds known lnk none = Holds-give _
  udp_write_grp-Holds known lnk (some items) =
      Holds-when (λ c. Holds-give _)
        (λ c. Holds-bind (Holds-udprefr lnk) (λ found. Holds-branch (is_neg found) (Holds-give _) (
          Holds-get (λ n e.
            Holds-bind
              (Holds-when (λ d. Holds-give _)
                (λ d. Holds-bind (allocate_packet-Holds _ _ _ _ _) (λ o.
                  Holds-on_option o (Holds-give _) (λ packet. send_group-Holds known packet _))))
              (λ r. Holds-get (λ after e'. Holds-then (Holds-objdefr lnk e') (Holds-give r)))))))
