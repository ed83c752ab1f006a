-- ===== src/Tcp/Recv/Unpack.antt =====
-- The unpacking block on a segment while a large block is being filled.
use swnet_win.Base.{
  ℕ, ◌+◌, ◌-◌, ◌≤◌, ◌<◌, ℤ, pos, true, ◌≡◌, refl, sym, ap, ◌∙◌, subst, Option, some, List, [], ◌++◌,
  append-nil, ◌==◌, if◌then◌else◌, length, take, drop, take-append_le, ◌≢◌, dec_lt, ℕ_discrete,
  take_all, drop_all, arith,
}
use swnet_win.Types.{Ncb, Packet, Block}
use swnet_win.Tcp.Recv.{
  Received, deliver, ncb_lb_marked, tcp_recv_buffer_size, recv_unpack, tcp_lb_assemble,
}
use swnet_win.Tcp.Recv.Copy.{put, length-put}
use swnet_win.Tcp.Recv.Spec.{short, stop, head_of}
use swnet_win.Tcp.Recv.Rounds.{link_of}
use swnet_win.Tcp.Recv.Waits.{Large, Waits, Handled, Mallocs, Does}
use swnet_win.Tcp.Recv.Loop.{Handled-more}
use swnet_win.Tcp.Recv.Segment.{recv_segment, Fits, HasTemplate, recv_parse_lem}
use swnet_win.Tcp.Recv.Fill

module _ (malloc : ℕ → Option (List ℕ)) (mask : ℕ) (parser : List ℕ → ℕ → ℤ × ℤ)
    (mallocs : Mallocs malloc) (ncb : Ncb) (fixed : ncb.tcp_tst.parser ≡ some parser)
    (template : HasTemplate (link_of mask ncb parser)) (p : Packet) (b : Block) (lb : List ℕ)
    (u : ℕ) (h seg : List ℕ) (large : Large mask (link_of mask ncb parser) ncb p b lb u h)
    (fits : Fits p seg) where
  abbrev buffer : Block
  buffer = Fill.buffer mask parser ncb fixed p b lb u h seg large fits

  abbrev filled : Packet
  filled = Fill.filled mask parser ncb fixed p b lb u h seg large fits

  abbrev left : List ℕ
  left = Fill.left mask parser ncb fixed p b lb u h seg large fits

  abbrev unmarked : Ncb
  unmarked = Fill.unmarked mask parser ncb fixed p b lb u h seg large fits

  abbrev shifted : Packet
  shifted = Fill.shifted mask parser ncb fixed p b lb u h seg large fits

  abbrev event : Received
  event = Fill.event mask parser ncb fixed p b lb u h seg large fits

  abbrev lacks : ℕ
  lacks = Fill.lacks mask parser ncb fixed p b lb u h seg large fits

  marked : ncb_lb_marked ncb ≡ true
  marked = let m = large.marked in ground (arith, large.big)

  unpack_part :
      length seg < lacks
      → Does mask (link_of mask ncb parser) (h ++ seg) [] (recv_unpack malloc mask ncb filled)
  unfolding recv_unpack
  unpack_part lt =
      let (out, e, d) = Fill.fill_part mask parser ncb fixed p b lb u h seg large fits lt in
      let made =
        Fill.assemble_append mask parser ncb fixed p b lb u h seg large fits lt
        ∙ Fill.lb_append_lem mask parser ncb fixed p b lb u h seg large fits lt in
      (out, ground (arith, marked, made, e), d)

  made :
      lacks ≤ length seg
      → tcp_lb_assemble ncb filled
        ≡ some (record {
          retval = pos (length seg - lacks);
          ncb = unmarked;
          packet = if length seg == lacks then filled else shifted;
          events = deliver ncb event;
        })
  made ge =
      Fill.assemble_complete mask parser ncb fixed p b lb u h seg large fits ge
      ∙ Fill.lb_complete_lem mask parser ncb fixed p b lb u h seg large fits ge

  -- The link after a large packet, with nothing left of the segment.
  unpack_exact :
      lacks ≤ length seg
      → length seg ≡ lacks
      → Does mask (link_of mask ncb parser) (h ++ seg) [] (recv_unpack malloc mask ncb filled)
  unfolding recv_unpack head_of
  unpack_exact ge e = (
    record { retval = pos 0; ncb = unmarked; packet = filled; events = deliver ncb event },
    ground (arith, marked, made ge),
    Handled-more mask (link_of mask ncb parser) u
        (Fill.head_of_full mask parser ncb fixed p b lb u h seg large fits ge)
        (Fill.events_of_full mask parser ncb fixed p b lb u h seg large fits)
        (rw nothing (
          Handled.waits [] [] (sym (append-nil _)) refl (stop starved) (
            Waits.idle buffer (record { parser_set = fixed; same = refl })
              (record {
                buffer = record {
                  has = refl;
                  size = Fill.size_buffer mask parser ncb fixed p b lb u h seg large fits;
                };
                unmarked = refl;
                at = large.at ∙ ap some (sym large.start);
                req = omega (arith, large.req, large.start);
                room = omega (arith, large.start);
                bytes = rw large.start refl;
                partial = starved;
              })))),
  )
    where
      nothing : drop (u + ncb.tcp_tst.cb) (h ++ seg) ≡ []
      nothing =
          Fill.drop_full mask parser ncb fixed p b lb u h seg large fits
          ∙ drop_all lacks seg (omega arith)

      starved : head_of (link_of mask ncb parser) [] ≡ short
      starved = ground (arith, template.at_least)

  unpack_more :
      lacks ≤ length seg
      → length seg ≢ lacks
      → Does mask (link_of mask ncb parser) (h ++ seg) [] (recv_unpack malloc mask ncb filled)
  unfolding recv_unpack
  unpack_more ge ne =
      let (out, e, d) =
        recv_parse_lem malloc mask parser mallocs unmarked fixed template refl shifted
          (record buffer { bytes = put buffer.bytes 0 left }) (deliver ncb event)
          (record {
            has = refl;
            size = length-put buffer.bytes 0 left (omega (arith, len, inside, size)) ∙ size;
          })
          (omega arith) (omega (arith, large.start, size, inside, ge, large.buffer.size)) in
      (
        out,
        ground (arith, marked, made ge, e),
        Handled-more mask (link_of mask ncb parser) u
            (Fill.head_of_full mask parser ncb fixed p b lb u h seg large fits ge)
            (Fill.events_of_full mask parser ncb fixed p b lb u h seg large fits)
            (subst (λ xs. Handled mask (link_of mask ncb parser) xs (deliver ncb event) out) behind
              d),
      )
    where
      inside : length seg ≤ length b.bytes
      inside = Fill.inside mask parser ncb fixed p b lb u h seg large fits

      size : length buffer.bytes ≡ tcp_recv_buffer_size
      size = Fill.size_buffer mask parser ncb fixed p b lb u h seg large fits

      len : length left ≡ length seg - lacks
      len = Fill.length-left mask parser ncb fixed p b lb u h seg large fits ge

      behind :
          take (p.analyzed_offset + (length seg - lacks)) (put buffer.bytes 0 left)
          ≡ drop (u + ncb.tcp_tst.cb) (h ++ seg)
      behind =
          ap (λ k. take k (put buffer.bytes 0 left)) {y = length left}
            (omega (arith, large.start, len))
          ∙ (take-append_le (length left) left _ (omega arith)
              ∙ (take_all (length left) left (omega arith)
                  ∙ (Fill.left_lem mask parser ncb fixed p b lb u h seg large fits ge
                      ∙ sym (Fill.drop_full mask parser ncb fixed p b lb u h seg large fits))))

  -- A segment while a large block is being filled.
  pub recv_segment-Large :
      Does mask (link_of mask ncb parser) (h ++ seg) [] (recv_segment malloc mask ncb p seg)
  unfolding recv_segment
  recv_segment-Large =
      rw (Fill.arrive_large mask parser ncb fixed p b lb u h seg large fits)
        (elim (dec_lt (length seg) lacks) [
          | yes lt ↦ unpack_part lt
          | no ge ↦ elim (ℕ_discrete (length seg) lacks) [
            | yes e ↦ unpack_exact (omega arith) e
            | no ne ↦ unpack_more (omega arith) ne
          ]
        ])
