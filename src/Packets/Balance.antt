-- ===== src/Packets/Balance.antt =====
-- The references that the functions of packet.c hold, step by step.
use swnet_win.Base.{ℕ, ℤ, pos, minus_one, Bool, ◌==◌, ◌≡◌, refl, arith}
use swnet_win.Types.{SockAddr, ProtoType, proto_udp, PktType, PageStyle, Packet, Ncb}
use swnet_win.World.{
  Env, M, return, put_ncb, syscall, wsa_connect, Syscall, overlapped, ◌>>=◌, ◌>>◌, when◌then◌else◌,
  on_option,
}
use swnet_win.Ledger.Held.{
  Holds, with_ref, Holds-bind, Holds-then, Holds-return, Holds-give, Holds-address, Holds-when,
  Holds-get, Holds-put, Holds-syscall, Holds-objrefr, Holds-objdefr,
}
use swnet_win.Packets.{
  on_link, submitted, submitted_bool, freepkt, packet_buffer, asio_tcp_send, asio_tcp_recv,
  null_addr, syio_grp_send, syio_v_connect, syio_v_disconnect, asio_udp_recv, asio_tcp_connect,
  asio_tcp_accept, allocate_packet, learn_local_addr,
}

module _ {env : Env} {p : ℤ → ℕ} where
  Holds-overlapped : (c : Syscall) → Holds env p (overlapped c) (λ r. p)
  Holds-overlapped c = record { run = λ w known. (known, λ h. refl) }

  submitted-Holds : (packet : Packet) (r : ℤ) → Holds env p (submitted packet r) (λ r. p)
  unfolding submitted ◌>>=◌ ◌>>◌ when◌then◌else◌ on_option
  submitted-Holds packet r = record {
    run = λ w known. (λ k. ground (arith, known k), λ h. ground arith);
  }

  submitted_bool-Holds : (packet : Packet) (r : ℤ) → Holds env p (submitted_bool packet r) (λ r. p)
  unfolding submitted_bool ◌>>=◌ ◌>>◌ when◌then◌else◌ on_option
  submitted_bool-Holds packet r = record {
    run = λ w known. (λ k. ground (arith, known k), λ h. ground arith);
  }

  pub freepkt-Holds : (packet : Packet) → Holds env p (freepkt packet) (λ u. p)
  unfolding freepkt ◌>>=◌ ◌>>◌ when◌then◌else◌ on_option
  freepkt-Holds packet = record {
    run = λ w known. (λ k. ground (arith, known k), λ h. ground arith);
  }

  pub allocate_packet-Holds :
      (k : ℤ) (proto : ProtoType) (type : PktType) (cb : ℕ) (style : PageStyle)
      → Holds env p (allocate_packet k proto type cb style) (λ r. p)
  unfolding allocate_packet packet_buffer ◌>>=◌ ◌>>◌ when◌then◌else◌ on_option
  allocate_packet-Holds k proto type cb style = record {
    run = λ w known. (λ k. ground (arith, known k), λ h. ground arith);
  }

  pub learn_local_addr-Holds : (h : ℤ) (f : ℕ → ℕ) → Holds env p (learn_local_addr h f) (λ u. p)
  unfolding learn_local_addr
  learn_local_addr-Holds h f = Holds-get (λ n e.
      Holds-when
        (λ c. Holds-bind (Holds-syscall _) (λ got.
          Holds-bind Holds-address (λ name. Holds-when (λ c. Holds-give _) (λ c. Holds-put e))))
        (λ c. Holds-give _))

module _ {env : Env} {p : ℤ → ℕ} where
  on_link-Holds :
      (link : ℤ) (body : Ncb → M ℤ)
      → ((n : Ncb) → Holds env (with_ref link p) (body n) (λ r. with_ref link p))
      → Holds env p (on_link link body) (λ r. p)
  unfolding on_link
  on_link-Holds link body hb =
      Holds-objrefr link
        (Holds-get
          (λ n e. Holds-bind (hb n) (λ r. Holds-then (Holds-objdefr link e) (Holds-return r))))
        (Holds-give _)

  pub asio_tcp_send-Holds : (packet : Packet) → Holds env p (asio_tcp_send packet) (λ r. p)
  unfolding asio_tcp_send
  asio_tcp_send-Holds packet =
      on_link-Holds packet.link _ (λ n. Holds-bind (Holds-overlapped _) (submitted-Holds packet))

  pub asio_tcp_recv-Holds : (packet : Packet) → Holds env p (asio_tcp_recv packet) (λ r. p)
  unfolding asio_tcp_recv
  asio_tcp_recv-Holds packet =
      on_link-Holds packet.link _ (λ n. Holds-bind (Holds-overlapped _) (submitted-Holds packet))

  pub asio_udp_recv-Holds : (packet : Packet) → Holds env p (asio_udp_recv packet) (λ r. p)
  unfolding asio_udp_recv
  asio_udp_recv-Holds packet =
      on_link-Holds packet.link _ (λ n. Holds-bind (Holds-overlapped _) (submitted-Holds packet))

  pub syio_grp_send-Holds :
      (found : Bool) (packet : Packet) → Holds env p (syio_grp_send found packet) (λ r. p)
  unfolding syio_grp_send
  syio_grp_send-Holds found packet = on_link-Holds packet.link _ (λ n.
      Holds-bind (Holds-when (λ c. Holds-give _) (λ c. Holds-syscall _)) (λ status.
        Holds-when (λ c. Holds-give _)
          (λ c.
            Holds-bind (Holds-syscall _)
              (λ ok. Holds-when (λ d. Holds-give _) (λ d. Holds-give _)))))

  pub syio_v_disconnect-Holds : (h : ℤ) → Holds env p (syio_v_disconnect h) (λ r. p)
  unfolding syio_v_disconnect
  syio_v_disconnect-Holds h = Holds-get (λ n e. by_proto n e n.proto_type)
    where
      closing :
          (n : Ncb)
          → n.hld ≡ h
          → Holds env p
              (when n.connected == 0
                then return (pos 0)
                else (do put_ncb h (record n { connected = 0 }); syscall (wsa_connect null_addr)))
              (λ r. p)
      closing n e = Holds-when (λ c. Holds-give _) (λ c. Holds-then (Holds-put e) (Holds-syscall _))

      by_proto :
          (n : Ncb)
          → n.hld ≡ h
          → (proto : ProtoType)
          → Holds env p
              (elim proto [
                | proto_udp ↦ when n.connected == 0 then return (pos 0) else (do
                  put_ncb h (record n { connected = 0 })
                  syscall (wsa_connect null_addr))
                | _ ↦ return minus_one
              ])
              (λ r. p)
      by_proto n e proto_udp = closing n e
      by_proto n e _ = Holds-give _

  pub syio_v_connect-Holds :
      (htonl : ℕ → ℕ) (h : ℤ) (r_addr : SockAddr)
      → Holds env p (syio_v_connect htonl h r_addr) (λ r. p)
  unfolding syio_v_connect
  syio_v_connect-Holds htonl h r_addr = Holds-bind (Holds-syscall _) (λ r.
      Holds-when (λ c. Holds-give _)
        (λ c. Holds-then (learn_local_addr-Holds h htonl) (Holds-give _)))

  pub asio_tcp_connect-Holds : (packet : Packet) → Holds env p (asio_tcp_connect packet) (λ r. p)
  unfolding asio_tcp_connect on_link
  asio_tcp_connect-Holds packet =
      Holds-objrefr packet.link
        (Holds-get (λ n e.
          Holds-bind
            (Holds-bind (Holds-syscall _) (λ status.
              Holds-when (λ c. Holds-give _)
                (λ c. Holds-bind (Holds-syscall _) (submitted_bool-Holds packet))))
            (λ r. Holds-then (Holds-objdefr packet.link e) (Holds-return r))))
        (Holds-give _)

  pub asio_tcp_accept-Holds : (packet : Packet) → Holds env p (asio_tcp_accept packet) (λ r. p)
  unfolding asio_tcp_accept on_link
  asio_tcp_accept-Holds packet =
      Holds-objrefr packet.link
        (Holds-get (λ n e.
          Holds-bind
            (Holds-bind (Holds-syscall _) (λ status.
              Holds-when (λ c. Holds-give _)
                (λ c.
                  Holds-objrefr packet.accepted_link
                    (Holds-get (λ income e'. Holds-bind (Holds-syscall _) (λ ok.
                      Holds-bind (submitted_bool-Holds packet ok) (λ r.
                        Holds-then (Holds-objdefr packet.accepted_link e') (Holds-return r)))))
                    (Holds-give _))))
            (λ r. Holds-then (Holds-objdefr packet.link e) (Holds-return r))))
        (Holds-give _)
