-- ===== src/Tcp/Recv/Fill.antt =====
-- The handler on a segment while a large block is being filled.
use swnet_win.Base.{
  ℕ, ◌+◌, ◌-◌, ◌≤◌, ◌<◌, ℤ, pos, is_neg, false, ◌≡◌, refl, sym, ap, ◌∙◌, none, some, List, [], ◌++◌,
  append-nil, ◌==◌, if◌then◌else◌, length, take, drop, length-take, length-drop, length-append,
  take-take_le, take-append_le, drop-append_le, take_all, drop_all, drop-take, arith,
}
use swnet_win.Types.{Ncb, Packet, Block}
use swnet_win.Tcp.Recv.{
  Received, tcp_lb_assemble, lb_fill, lb_append, lb_complete, ncb_unmark_lb, deliver, write_bytes,
  read_bytes, tcp_recv_buffer_size,
}
use swnet_win.Tcp.Recv.Copy.{put, length-put, take-put, take-across, drop-across}
use swnet_win.Tcp.Recv.Spec.{
  Link, packet, stop, size_of, head_of, whole_or_short, event_of, events_of,
}
use swnet_win.Tcp.Recv.Spec.Laws.{size_of-append}
use swnet_win.Tcp.Recv.Rounds.{link_of, ℤ-cases}
use swnet_win.Tcp.Recv.Waits.{Large, Waits, Handled, Does}
use swnet_win.Tcp.Recv.Segment.{arrive, Fits}

-- A size that is announced was read from a header that the parser took.
pub size_of-packet :
    (l : Link) (xs : List ℕ) (u : ℕ)
    → size_of l xs ≡ packet u
    → (is_neg (l.parser (take l.cb xs) l.cb).0 ≡ false) × ((l.parser (take l.cb xs) l.cb).1 ≡ pos u)
unfolding size_of
size_of-packet l xs u h = ground (arith, ℤ-cases (l.parser (take l.cb xs) l.cb).1)

module _ (mask : ℕ) (parser : List ℕ → ℕ → ℤ × ℤ) (ncb : Ncb)
    (fixed : ncb.tcp_tst.parser ≡ some parser) (p : Packet) (b : Block) (lb : List ℕ) (u : ℕ)
    (h seg : List ℕ) (large : Large mask (link_of mask ncb parser) ncb p b lb u h)
    (fits : Fits p seg) where
  -- The buffer with the segment in it, and the packet that the handler gets.
  abbrev pub buffer : Block
  buffer = record b { bytes = put b.bytes 0 seg }

  abbrev pub filled : Packet
  filled = record p { ori_buffer = some buffer; size_for_translation = length seg }

  -- How many bytes the block lacks.
  abbrev pub lacks : ℕ
  lacks = u + ncb.tcp_tst.cb - ncb.lb_cpy_offset

  pub inside : length seg ≤ length b.bytes
  inside = omega (arith, fits.room, large.req, large.buffer.size)

  pub length-held : length h ≡ ncb.lb_cpy_offset
  length-held =
      rw large.bytes (omega (arith, length-take ncb.lb_cpy_offset lb, large.lb_size, large.room))

  header : take ncb.tcp_tst.cb h ≡ take ncb.tcp_tst.cb lb
  header = rw large.bytes (take-take_le ncb.tcp_tst.cb ncb.lb_cpy_offset lb large.header)

  answer :
      (is_neg (parser (take ncb.tcp_tst.cb lb) ncb.tcp_tst.cb).0 ≡ false)
      × ((parser (take ncb.tcp_tst.cb lb) ncb.tcp_tst.cb).1 ≡ pos u)
  answer = rw (← header) (size_of-packet (link_of mask ncb parser) h u large.announced)

  pub arrive_large : arrive p seg ≡ some filled
  unfolding arrive
  arrive_large =
      let has = large.buffer.has in
      let at = large.at in let room = fits.room in ground (arith, inside)

  pub assemble_append :
      length seg < lacks → tcp_lb_assemble ncb filled ≡ lb_append ncb filled lb buffer
  unfolding tcp_lb_assemble lb_fill
  assemble_append lt =
      let m = large.marked in
      let c = large.header in
      let r = large.room in
      let t = large.total in let s = fits.some_bytes in ground (arith, answer, large.lb_size)

  pub assemble_complete :
      lacks ≤ length seg → tcp_lb_assemble ncb filled ≡ lb_complete ncb filled lb buffer u lacks
  unfolding tcp_lb_assemble lb_fill
  assemble_complete ge =
      let m = large.marked in
      let c = large.header in
      let r = large.room in
      let t = large.total in let s = fits.some_bytes in ground (arith, answer, large.lb_size)

  pub size_buffer : length buffer.bytes ≡ tcp_recv_buffer_size
  size_buffer = length-put b.bytes 0 seg (omega (arith, inside)) ∙ large.buffer.size

  -- The segment stands at the start of the buffer.
  first_bytes : (n : ℕ) → n ≤ length seg → take n buffer.bytes ≡ take n seg
  first_bytes n le = take-append_le n seg _ le

  longer : size_of (link_of mask ncb parser) (h ++ seg) ≡ packet u
  longer =
      size_of-append (link_of mask ncb parser) h seg (omega (arith, length-held, large.header))
      ∙ large.announced

  pub lb_append_lem :
      length seg < lacks
      → lb_append ncb filled lb buffer
        ≡ some (record {
          retval = pos 0;
          ncb = record ncb {
            lb_data = some (put lb ncb.lb_cpy_offset seg);
            lb_cpy_offset = ncb.lb_cpy_offset + length seg;
          };
          packet = filled;
          events = [];
        })
  unfolding lb_append
  lb_append_lem lt =
      let room : ncb.lb_cpy_offset + length seg ≤ length lb =
        omega (arith, large.total, large.lb_size) in
      ground (
        arith,
        first_bytes (length seg),
        take_all (length seg) seg,
        size_buffer,
        inside,
        large.buffer.size,
      )

  -- The segment does not fill the block: it is appended, and the link waits on.
  pub fill_part :
      length seg < lacks
      → Does mask (link_of mask ncb parser) (h ++ seg) [] (tcp_lb_assemble ncb filled)
  unfolding head_of whole_or_short
  fill_part lt =
      let grown : Ncb = record ncb {
        lb_data = some (put lb ncb.lb_cpy_offset seg);
        lb_cpy_offset = ncb.lb_cpy_offset + length seg;
      } in
      let room : ncb.lb_cpy_offset + length seg ≤ length lb =
        omega (arith, large.total, large.lb_size) in
      (
        record { retval = pos 0; ncb = grown; packet = filled; events = [] },
        assemble_append lt ∙ lb_append_lem lt,
        Handled.waits [] (h ++ seg) refl refl
            (stop (
              ground (
                arith,
                longer,
                length-append h seg,
                length-held,
                large.room,
                large.total,
                large.header,
              )))
            (Waits.large buffer (put lb ncb.lb_cpy_offset seg) u
              (record { parser_set = fixed; same = refl })
              (record {
                buffer = record { has = refl; size = size_buffer };
                marked = refl;
                lb_size = length-put lb ncb.lb_cpy_offset seg room ∙ large.lb_size;
                at = large.at;
                req = large.req;
                start = large.start;
                total = large.total;
                big = large.big;
                room = omega (arith, large.total);
                header = omega (arith, large.header);
                bytes = rw large.bytes (sym (take-put lb ncb.lb_cpy_offset seg room));
                announced = longer;
              })),
      )

  -- The block once it is full.
  full : List ℕ
  full = h ++ take lacks seg

  abbrev pub left : List ℕ
  left = take (length seg - lacks) (drop lacks buffer.bytes)

  abbrev pub unmarked : Ncb
  unmarked = record ncb { lb_data = none; lb_cpy_offset = 0; lb_length = 0 }

  abbrev pub shifted : Packet
  shifted = record filled {
    ori_buffer = some (record buffer { bytes = put buffer.bytes 0 left });
    size_for_translation = length seg - lacks;
  }

  abbrev pub event : Received
  event = record { link = ncb.hld; size = u; bytes = take u (drop ncb.tcp_tst.cb (h ++ seg)) }

  fills : ncb.lb_cpy_offset + lacks ≡ length lb
  fills = omega (arith, large.total, large.lb_size, large.room)

  pub head_of_full : lacks ≤ length seg → head_of (link_of mask ncb parser) (h ++ seg) ≡ packet u
  unfolding head_of whole_or_short
  head_of_full ge =
      ground
        (arith, longer, length-append h seg, length-held, large.header, large.total, large.room)

  pub events_of_full : deliver ncb event ≡ events_of (link_of mask ncb parser) (h ++ seg) u
  unfolding events_of event_of
  events_of_full = ground (arith, large.big, large.total)

  pub drop_full : drop (u + ncb.tcp_tst.cb) (h ++ seg) ≡ drop lacks seg
  drop_full =
      let e : u + ncb.tcp_tst.cb ≡ length h + lacks =
        omega (arith, length-held, large.total, large.room) in
      ap (λ k. drop k (h ++ seg)) e ∙ drop-across h seg lacks

  pub left_lem : lacks ≤ length seg → left ≡ drop lacks seg
  left_lem ge =
      ap (take (length seg - lacks)) (drop-append_le lacks seg _ ge)
      ∙ (take-append_le (length seg - lacks) (drop lacks seg) _
            (omega (arith, length-drop lacks seg))
          ∙ take_all (length seg - lacks) (drop lacks seg) (omega (arith, length-drop lacks seg)))

  filled_block :
      lacks ≤ length seg → put lb ncb.lb_cpy_offset (take lacks seg) ≡ h ++ take lacks seg
  filled_block ge =
      let n : length (take lacks seg) ≡ lacks = omega (arith, length-take lacks seg) in
      let none_left : drop (ncb.lb_cpy_offset + length (take lacks seg)) lb ≡ [] =
        drop_all _ lb (omega (arith, n, fills)) in
      rw none_left (rw append-nil (ap (λ t. t ++ take lacks seg) (sym large.bytes)))

  payload_lem :
      lacks ≤ length seg
      → take u (drop ncb.tcp_tst.cb (h ++ take lacks seg)) ≡ take u (drop ncb.tcp_tst.cb (h ++ seg))
  payload_lem ge = rw (← take-across h seg lacks) (
      rw drop-take (
        take-take_le u _ (drop ncb.tcp_tst.cb (h ++ seg))
          (omega (arith, length-held, large.total, large.room))))

  read_chunk : lacks ≤ length seg → read_bytes buffer.bytes 0 lacks ≡ some (take lacks seg)
  read_chunk ge = ground (arith, first_bytes lacks, inside, size_buffer, large.buffer.size)

  write_chunk :
      lacks ≤ length seg
      → write_bytes lb ncb.lb_cpy_offset (take lacks seg) ≡ some (h ++ take lacks seg)
  write_chunk ge = ground (arith, filled_block ge, fills, length-take lacks seg)

  read_payload :
      lacks ≤ length seg
      → read_bytes (h ++ take lacks seg) ncb.tcp_tst.cb u
        ≡ some (take u (drop ncb.tcp_tst.cb (h ++ seg)))
  read_payload ge = ground (
    arith,
    payload_lem ge,
    length-append h (take lacks seg),
    length-held,
    length-take lacks seg,
    large.total,
    large.room,
  )

  unmark_lem : ncb_unmark_lb ncb ≡ some unmarked
  unfolding ncb_unmark_lb
  unmark_lem = let m = large.marked in ground (arith, large.big)

  read_left : lacks ≤ length seg → read_bytes buffer.bytes lacks (length seg - lacks) ≡ some left
  read_left ge = ground (arith, inside, size_buffer, large.buffer.size)

  pub length-left : lacks ≤ length seg → length left ≡ length seg - lacks
  length-left ge = ap length (left_lem ge) ∙ length-drop lacks seg

  write_left : lacks ≤ length seg → write_bytes buffer.bytes 0 left ≡ some (put buffer.bytes 0 left)
  write_left ge = ground (arith, length-left ge, inside, size_buffer, large.buffer.size)

  pub lb_complete_lem :
      lacks ≤ length seg
      → lb_complete ncb filled lb buffer u lacks
        ≡ some (record {
          retval = pos (length seg - lacks);
          ncb = unmarked;
          packet = if length seg == lacks then filled else shifted;
          events = deliver ncb event;
        })
  unfolding lb_complete
  lb_complete_lem ge = ground (
    arith,
    read_chunk ge,
    write_chunk ge,
    read_payload ge,
    unmark_lem,
    read_left ge,
    write_left ge,
  )
