-- ===== src/Tcp/Recv/Loop.antt =====
-- The loop of tcp_prase_logic_packet against the reference.
use swnet_win.Base.{
  ℕ, zero, suc, ◌+◌, ◌-◌, ◌≤◌, ◌<◌, ℤ, pos, Bool-cases, ◌==◌, if◌then◌else◌, not, ◌&&◌, inl, inr,
  take-append_le, take-take_le, ◌≡◌, refl, sym, ap, ◌∙◌, Option, none, some, List, [], ◌++◌,
  append-nil, append_assoc, length, take, drop, length-append, length-drop, length-window, take_all,
  drop-window, arith,
}
use swnet_win.Types.{Ncb, Packet, Block}
use swnet_win.Tcp.Recv.{
  Received, Unpacked, Round, reject, large, starve, whole, failed, ncb_mark_lb, prase_round,
  prase_loop, prase_finish, prase_large, deliver, tcp_recv_buffer_size,
}
use swnet_win.Tcp.Recv.Spec.Laws.{head_of-packet}
use swnet_win.Tcp.Recv.Spec.{Link, packet, events_of, head_of, whole_or_short, stop, refuse, more}
use swnet_win.Tcp.Recv.Rounds.{link_of, RoundIs, prase_round_lem}
use swnet_win.Tcp.Recv.Waits.{HasBuffer, Waits, Handled, Ends, Mallocs}

-- What memmove leaves in the buffer: the `n` bytes from `o` on stand at its start.
module _ (b : List ℕ) (n o : ℕ) (inside : o + n ≤ length b) where
  abbrev moved : List ℕ
  moved = take n (drop o b) ++ drop (0 + length (take n (drop o b))) b

  abbrev compacted : List ℕ
  compacted = if not (n == 0) && not (o == 0) then moved else b

  length-moved : length moved ≡ length b
  length-moved = omega (
    arith,
    length-append (take n (drop o b)) (drop (0 + length (take n (drop o b))) b),
    length-drop (0 + length (take n (drop o b))) b,
    length-window b o n inside,
  )

  take-moved : take n moved ≡ take n (drop o b)
  take-moved =
      take-append_le n (take n (drop o b)) _ (omega (arith, length-window b o n inside))
      ∙ take-take_le n n (drop o b) (omega arith)

  length-compacted : length compacted ≡ length b
  length-compacted = ground (arith, length-moved)

  take-compacted : take n compacted ≡ take n (drop o b)
  take-compacted = elim (Bool-cases (n == 0)) [
    | inl z ↦ let e : n ≡ 0 = ground arith in rw e
    | inr nz ↦ elim (Bool-cases (o == 0)) [
      | inl z ↦ let e : o ≡ 0 = ground arith in ground (arith, ap (λ k. take n (drop k b)) e)
      | inr oz ↦ ground (arith, take-moved)
    ]
  ]

-- A packet in front of what a call handles.
pub Handled-more :
    (mask : ℕ) (l : Link) {xs : List ℕ} {before es : List Received} {out : Unpacked} (u : ℕ)
    → head_of l xs ≡ packet u
    → es ≡ events_of l xs u
    → Handled mask l (drop (u + l.cb) xs) (before ++ es) out
    → Handled mask l xs before out
Handled-more mask l {before = before} {es = es} u h w (Handled.waits ds r e n d s) =
    Handled.waits (es ++ ds) r (e ∙ append_assoc before es ds) n (more u h w d) s
Handled-more mask l {before = before} {es = es} u h w (Handled.fails ds e n d) =
    Handled.fails (es ++ ds) (e ∙ append_assoc before es ds) n (more u h w d)

module _ (malloc : ℕ → Option (List ℕ)) (mask : ℕ) (parser : List ℕ → ℕ → ℤ × ℤ)
    (mallocs : Mallocs malloc) (ncb : Ncb) (p : Packet) (b : Block) (buffer : HasBuffer p b)
    (fixed : ncb.tcp_tst.parser ≡ some parser) (unmarked : ncb.lb_data ≡ none) where
  abbrev link : Link
  link = link_of mask ncb parser

  prase_finish_lem :
      (useful offset : ℕ) (before : List Received)
      → offset + useful ≤ tcp_recv_buffer_size
      → RoundIs malloc mask ncb parser (take useful (drop offset b.bytes)) starve
      → Ends mask link
          (take useful (drop offset b.bytes))
          before
          (prase_finish malloc mask ncb p b useful offset before)
  unfolding prase_finish
  prase_finish_lem useful offset before inside is = (
    record {
      retval = pos 0;
      ncb = ncb;
      packet = record p {
        analyzed_offset = useful;
        ori_buffer = some (record b { bytes = compacted b.bytes useful offset within });
      };
      events = before;
    },
    ground (arith, buffer.size, len),
    Handled.waits [] xs (sym (append-nil before)) refl (stop is.0) (
        Waits.idle _ (record { parser_set = fixed; same = refl })
          (record {
            buffer = record {
              has = refl;
              size = length-compacted b.bytes useful offset within ∙ buffer.size;
            };
            unmarked = unmarked;
            at = refl;
            req = refl;
            room = omega (arith, is.1, len);
            bytes = sym (take-compacted b.bytes useful offset within);
            partial = is.0;
          })),
  )
    where
      xs : List ℕ
      xs = take useful (drop offset b.bytes)

      within : offset + useful ≤ length b.bytes
      within = omega (arith, buffer.size)

      len : length xs ≡ useful
      len = length-window b.bytes offset useful within

  prase_large_lem :
      (useful offset total : ℕ) (before : List Received)
      → offset + useful ≤ tcp_recv_buffer_size
      → RoundIs malloc mask ncb parser (take useful (drop offset b.bytes)) (large total)
      → Ends mask link
          (take useful (drop offset b.bytes))
          before
          (prase_large malloc mask ncb p b useful offset before total)
  unfolding prase_large ncb_mark_lb head_of whole_or_short
  prase_large_lem useful offset total before inside (u, sized, e, big, header) =
      let (block, given, size) = mallocs total in
      (
        record {
          retval = pos 0;
          ncb = record ncb {
            lb_length = total;
            lb_data = some (xs ++ drop (0 + length xs) block);
            lb_cpy_offset = useful;
          };
          packet = record p { analyzed_offset = 0 };
          events = before;
        },
        ground (arith, given, size, len, buffer.size, length-drop offset b.bytes),
        Handled.waits [] xs (sym (append-nil before)) refl
            (stop (ground (arith, sized, len, header, big)))
            (Waits.large b (xs ++ drop (0 + length xs) block) u
              (record { parser_set = fixed; same = refl })
              (record {
                buffer = record { has = buffer.has; size = buffer.size };
                marked = refl;
                lb_size = omega (
                  arith,
                  len,
                  size,
                  length-append xs (drop (0 + length xs) block),
                  length-drop (0 + length xs) block,
                );
                at = refl;
                req = omega arith;
                start = refl;
                total = e;
                big = big;
                room = omega arith;
                header = omega (arith, len);
                bytes = sym (
                    take-append_le useful xs _ (omega (arith, len))
                    ∙ take_all useful xs (omega (arith, len)));
                announced = sized;
              })),
      )
    where
      xs : List ℕ
      xs = take useful (drop offset b.bytes)

      len : length xs ≡ useful
      len = length-window b.bytes offset useful (omega (arith, buffer.size))

  after_round :
      (fuel useful offset : ℕ) (before : List Received) (r : Round)
      → offset + useful ≤ tcp_recv_buffer_size
      → useful < suc fuel
      → 0 < ncb.tcp_tst.cb
      → prase_round malloc mask ncb b.bytes useful offset ≡ some r
      → RoundIs malloc mask ncb parser (take useful (drop offset b.bytes)) r
      → ((n o : ℕ) (es : List Received)
          → o + n ≤ tcp_recv_buffer_size
          → n < fuel
          → Ends mask link
              (take n (drop o b.bytes))
              es
              (prase_loop malloc mask fuel ncb p b n o es))
      → Ends mask link
          (take useful (drop offset b.bytes))
          before
          (prase_loop malloc mask (suc fuel) ncb p b useful offset before)
  unfolding prase_loop failed
  after_round fuel useful offset before reject inside f c e is ih = (
    failed ncb p before,
    rw (e, prase_loop),
    Handled.fails [] (sym (append-nil before)) refl (refuse is),
  )
  after_round fuel useful offset before starve inside f c e is ih =
      rw (e, prase_loop) (prase_finish_lem useful offset before inside is)
  after_round fuel useful offset before (large t) inside f c e is ih =
      rw (e, prase_loop) (prase_large_lem useful offset t before inside is)
  after_round fuel useful offset before (whole u d) inside f c e is ih =
      rw (e, prase_loop)
        (let k : ℕ = u + ncb.tcp_tst.cb in
          let all = head_of-packet link (take useful (drop offset b.bytes)) u is.0 in
          let len = length-window b.bytes offset useful (omega (arith, buffer.size)) in
          let (out, ends, handled) =
            ih (useful - k) (offset + k) (before ++ deliver ncb d) (omega (arith, all.0, len))
              (omega (arith, all.0, len)) in
          (
            out,
            ends,
            Handled-more mask link u is.0 is.1
                (rw (drop-window b.bytes offset useful (omega (arith, buffer.size)) k) handled),
          ))

  -- With more fuel than bytes the loop of tcp_prase_logic_packet ends, without a fault, on any
  -- window of the receive buffer: its callbacks after the earlier ones are those of the reference
  -- on the bytes of the window, and it either leaves the link waiting with the bytes that the
  -- reference leaves, once the next request is set up, or returns -1 on what the reference calls
  -- malformed. Malloc gives the block it is asked for, the parser is set, no large block is marked,
  -- and the template has at least one byte and fits the buffer.
  pub prase_loop_lem :
      (fuel useful offset : ℕ) (before : List Received)
      → ncb.tcp_tst.cb ≤ tcp_recv_buffer_size
      → 0 < ncb.tcp_tst.cb
      → offset + useful ≤ tcp_recv_buffer_size
      → useful < fuel
      → Ends mask link
          (take useful (drop offset b.bytes))
          before
          (prase_loop malloc mask fuel ncb p b useful offset before)
  prase_loop_lem zero useful offset before c1 c2 inside f = absurd (omega arith)
  prase_loop_lem (suc fuel) useful offset before c1 c2 inside f =
      let (r, e, is) =
        prase_round_lem malloc mask ncb parser b.bytes useful offset (omega (arith, buffer.size))
          fixed c1 (omega arith) in
      after_round fuel useful offset before r inside f c2 e is
        (λ n o es i lt. prase_loop_lem fuel n o es c1 c2 i lt)
