-- ===== src/Tcp/Recv/Rounds.antt =====
-- One round of tcp_prase_logic_packet against the head of the bytes that it looks at.
use swnet_win.Base.{
  ℕ, ◌+◌, ◌≤◌, ◌<◌, ℤ, pos, negsuc, is_neg, Bool-cases, not, ◌≡◌, refl, ◌⊎◌, inl, inr, Option, some,
  List, ltb, ◌==◌, length, take, drop, length-window, take-window, take-drop-window, arith, bit_and,
}
use swnet_win.Types.{Ncb}
use swnet_win.Tcp.Recv.{
  Received, Round, reject, large, starve, whole, deliver, logic_data, prase_round,
  tcp_recv_buffer_size, tcp_maximum_packet_size,
}
use swnet_win.Tcp.Recv.Spec.{
  Link, short, bad, packet, size_of, whole_or_short, head_of, event_of, events_of,
}

pub ℤ-cases : (z : ℤ) → ((n : ℕ) × (z ≡ pos n)) ⊎ ((n : ℕ) × (z ≡ negsuc n))
ℤ-cases (pos n) = inl (n, refl)
ℤ-cases (negsuc n) = inr (n, refl)

-- The link whose stream a control block reads.
abbrev pub link_of : ℕ → Ncb → (List ℕ → ℕ → ℤ × ℤ) → Link
link_of mask ncb parser = record {
  hld = ncb.hld;
  cb = ncb.tcp_tst.cb;
  parser = parser;
  listening = ncb.nis_callback;
  fully = not (bit_and ncb.attr mask == 0);
}

module _ (malloc : ℕ → Option (List ℕ)) (mask : ℕ) (ncb : Ncb) (parser : List ℕ → ℕ → ℤ × ℤ) where
  -- What each verdict says of the bytes.
  abbrev pub RoundIs : List ℕ → Round → Type 0
  RoundIs xs reject = head_of (link_of mask ncb parser) xs ≡ bad
  RoundIs xs starve =
      (head_of (link_of mask ncb parser) xs ≡ short) × (length xs < tcp_recv_buffer_size)
  RoundIs xs (large t) =
      (u : ℕ) × (size_of (link_of mask ncb parser) xs ≡ packet u)
      × (t ≡ u + ncb.tcp_tst.cb)
      × (tcp_recv_buffer_size < t)
      × (ncb.tcp_tst.cb ≤ length xs)
  RoundIs xs (whole u e) =
      (head_of (link_of mask ncb parser) xs ≡ packet u)
      × (deliver ncb e ≡ events_of (link_of mask ncb parser) xs u)

  module _ (b : List ℕ) (useful offset : ℕ) (inside : offset + useful ≤ length b) where
    abbrev xs : List ℕ
    xs = take useful (drop offset b)

    logic_data_lem :
        (u : ℕ)
        → u + ncb.tcp_tst.cb ≤ useful
        → u + ncb.tcp_tst.cb ≤ tcp_recv_buffer_size
        → (e : Received) × (logic_data malloc mask ncb b offset u ≡ some e)
          × (deliver ncb e ≡ events_of (link_of mask ncb parser) xs u)
    unfolding logic_data events_of event_of
    logic_data_lem u h k = elim (Bool-cases (bit_and ncb.attr mask == 0)) [
      | inl plain ↦ (
        record { link = ncb.hld; size = u; bytes = take u (drop (offset + ncb.tcp_tst.cb) b) },
        ground arith,
        ground (arith, take-drop-window b offset useful inside ncb.tcp_tst.cb u),
      )
      | inr fully ↦ (
        record {
          link = ncb.hld;
          size = u + ncb.tcp_tst.cb;
          bytes = take (u + ncb.tcp_tst.cb) (drop offset b);
        },
        ground arith,
        ground (arith, take-window b offset useful inside (u + ncb.tcp_tst.cb)),
      )
    ]

    pub prase_round_lem :
        ncb.tcp_tst.parser ≡ some parser
        → ncb.tcp_tst.cb ≤ tcp_recv_buffer_size
        → useful ≤ tcp_recv_buffer_size
        → (r : Round) × (prase_round malloc mask ncb b useful offset ≡ some r) × RoundIs xs r
    unfolding prase_round head_of whole_or_short size_of
    prase_round_lem hp c1 c2 = elim (Bool-cases (ltb useful cb)) [
      | inl few ↦ (starve, rw few, (ground (arith, len), ground (arith, len)))
      | inr enough ↦ elim (Bool-cases (is_neg answer.0)) [
        | inl refused ↦ (reject, ground arith, ground (arith, len, header))
        | inr read ↦ elim (ℤ-cases answer.1) [
          | inr (n, negative) ↦ (reject, ground arith, ground (arith, len, header))
          | inl (u, size) ↦ elim (Bool-cases (ltb tcp_maximum_packet_size u)) [
            | inl huge ↦ (reject, ground arith, ground (arith, len, header))
            | inr sane ↦ elim (Bool-cases (ltb tcp_recv_buffer_size (u + cb))) [
              | inl big ↦ (
                large (u + cb),
                ground arith,
                (u, ground (arith, header), refl, ground arith, ground (arith, len)),
              )
              | inr fits ↦ elim (Bool-cases (ltb useful (u + cb))) [
                | inl part ↦
                    (starve, ground arith, (ground (arith, len, header), ground (arith, len)))
                | inr all ↦
                    let d = logic_data_lem u (ground arith) (ground arith) in
                    (whole u d.0, ground (arith, d.1), (ground (arith, len, header), d.2))
              ]
            ]
          ]
        ]
      ]
    ]
      where
        cb : ℕ
        cb = ncb.tcp_tst.cb

        answer : ℤ × ℤ
        answer = parser (take cb (drop offset b)) cb

        len : length xs ≡ useful
        len = length-window b offset useful inside

        header : cb ≤ useful → take cb xs ≡ take cb (drop offset b)
        header h = take-window b offset useful inside cb h
