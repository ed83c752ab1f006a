-- ===== src/Udp/Group/Peer.antt =====
-- The peer of a link: udp_raise_grp of udp.c.
use swnet_win.Base.{
  ℕ, ◌==◌, ℤ, pos, minus_one, is_neg, is_nonpos, eq_ℤ-refl, true, Bool-cases, ◌≡◌, ◌≢◌, refl, ◌⊎◌,
  inl, inr, List, [], ◌∷◌, arith,
}
use swnet_win.Types.{SockAddr}
use swnet_win.World.{
  Env, World, Event, called, inet_pton, wsa_connect, ◌>>=◌, ◌>>◌, when◌then◌else◌,
}
use swnet_win.Packets.{learn_local_addr, syio_v_connect}
use swnet_win.Udp.Object.{udprefr}
use swnet_win.Udp.Group.{raise_to, udp_raise_grp}

-- The addresses that WSAConnect was called for, the last one first.
abbrev pub connects : List Event → List SockAddr
connects [] = []
connects (called (wsa_connect a) ∷ t) = a ∷ connects t
connects (_ ∷ t) = connects t

module _ (env : Env) where
  connect_lem :
      (htonl : ℕ → ℕ) (lnk : ℤ) (r_addr : SockAddr) (w : World)
      → let r = syio_v_connect htonl lnk r_addr env w in
        ((r.0 ≡ pos 0) ⊎ (r.0 ≡ minus_one))
        × ((r.1.ncbs lnk).connected ≡ (w.ncbs lnk).connected)
        × (connects r.1.history ≡ r_addr ∷ connects w.history)
  unfolding syio_v_connect learn_local_addr ◌>>=◌ ◌>>◌ when◌then◌else◌
  connect_lem htonl lnk r_addr w = let e = eq_ℤ-refl lnk in ground (arith, e)

  udprefr_lem :
      (lnk : ℤ) (w : World)
      → let r = udprefr lnk env w in
        ((r.1.ncbs lnk).connected ≡ (w.ncbs lnk).connected)
        × (connects r.1.history ≡ connects w.history)
  unfolding udprefr ◌>>=◌ ◌>>◌ when◌then◌else◌
  udprefr_lem lnk w = ground arith

-- The address that udp_raise_grp is asked for: what inet_pton gives, and the port.
abbrev pub asked : Env → (ℕ → ℕ) → ℤ → ℕ → World → SockAddr
asked env htons lnk r_port w = record {
  port = htons r_port;
  addr = (env.address (called inet_pton ∷ (udprefr lnk env w).1.history)).addr;
}

-- A call to set the peer of a link: it returns 0 after one WSAConnect, for exactly this address and
-- port, on a link that had no peer and has this address now; or it returns 0 with no WSAConnect, on a
-- link that had this address, whatever its port was; or it fails and the link keeps the address that it
-- had, and if it had one, there was no WSAConnect.
abbrev pub Raised : ℤ → SockAddr → World → ℤ × World → Type 0
Raised lnk r_addr w r =
    let before = (w.ncbs lnk).connected in
    let after = (r.1.ncbs lnk).connected in
    ((r.0 ≡ pos 0)
      × (before ≡ 0)
      × (after ≡ r_addr.addr)
      × (connects r.1.history ≡ r_addr ∷ connects w.history))
    ⊎ (((r.0 ≡ pos 0)
          × (before ≢ 0)
          × (before ≡ r_addr.addr)
          × (after ≡ before)
          × (connects r.1.history ≡ connects w.history))
        ⊎ ((is_neg r.0 ≡ true)
            × (after ≡ before)
            × ((before ≡ 0) ⊎ (connects r.1.history ≡ connects w.history))))

module _ (env : Env) where
  raise_to_lem :
      (htonl : ℕ → ℕ) (lnk : ℤ) (w : World) (r_addr : SockAddr)
      → Raised lnk r_addr w (raise_to htonl lnk (w.ncbs lnk) r_addr env w)
  unfolding raise_to ◌>>=◌ ◌>>◌ when◌then◌else◌
  raise_to_lem htonl lnk w r_addr =
      let c = connect_lem env htonl lnk r_addr w in
      let now = (w.ncbs lnk).connected in
      elim (Bool-cases (now == 0)) [
        | inl z ↦
            let none_yet : now ≡ 0 = ground (arith, z) in
            elim c.0 [
              | inl ok ↦ rw (z, ok, eq_ℤ-refl lnk) (inl (refl, none_yet, refl, c.2))
              | inr failed ↦ rw (z, failed) (inr (inr (refl, c.1, inl none_yet)))
            ]
        | inr nz ↦ elim (Bool-cases (now == r_addr.addr)) [
          | inl same ↦
              rw (nz, same) (inr (inl (refl, ground (arith, nz), ground (arith, same), refl, refl)))
          | inr other ↦ rw (nz, other) (inr (inr (refl, refl, inr refl)))
        ]
      ]

  -- udp_raise_grp either returns 0 after one WSAConnect, for exactly the address and port that it
  -- was asked for, on a link that had no peer, and the link has this address then; or it returns 0
  -- with no WSAConnect on a link that had this address before, whatever the port; or it returns a
  -- negative error and the link keeps the address that it had, with no WSAConnect if it had one: a
  -- link that has a peer is never connected to another one.
  pub udp_raise_grp-Raised :
      (htons htonl : ℕ → ℕ) (lnk : ℤ) (r_port : ℕ) (w : World)
      → Raised lnk (asked env htons lnk r_port w) w (udp_raise_grp htons htonl lnk r_port env w)
  unfolding udp_raise_grp ◌>>=◌ ◌>>◌ when◌then◌else◌
  udp_raise_grp-Raised htons htonl lnk r_port w =
      let r = udprefr lnk env w in
      let same = udprefr_lem env lnk w in
      elim (Bool-cases (is_neg r.0)) [
        | inl gone ↦ rw gone (inr (inr (refl, same.0, inr same.1)))
        | inr found ↦ elim (Bool-cases (is_nonpos (env.system r.1.history inet_pton))) [
          | inl bad ↦ rw (found, bad) (inr (inr (refl, same.0, inr same.1)))
          | inr good ↦
              let w1 : World = record r.1 { history = called inet_pton ∷ r.1.history } in
              rw (found, good)
                (rw⁻¹ (same.0, same.1) (raise_to_lem htonl lnk w1 (asked env htons lnk r_port w)))
        ]
      ]
