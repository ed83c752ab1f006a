-- ===== src/Tcp/Recv/Raw.antt =====
-- The receive path of tcp.c on a link with no header template, `cb_` of 0.
use swnet_win.Base.{
  ℕ, ◌+◌, ◌≤◌, ◌≡◌, refl, sym, ap, ◌∙◌, pos, Option, none, some, List, length, take, arith,
}
use swnet_win.Types.{Ncb, Packet, Block}
use swnet_win.Tcp.Recv.{
  Unpacked, deliver, tcp_recv_buffer_size, prase_raw, tcp_prase_logic_packet, recv_parse,
  recv_unpack,
}
use swnet_win.Tcp.Recv.Copy.{put, length-put, take-put}
use swnet_win.Tcp.Recv.Waits.{HasBuffer}
use swnet_win.Tcp.Recv.Segment.{arrive, recv_segment, Fits}

-- The whole receive buffer waits for a segment.
pub record RawIdle (ncb : Ncb) (p : Packet) (b : Block) : Type 0 where
  pub buffer : HasBuffer p b
  pub no_template : ncb.tcp_tst.cb ≡ 0
  pub unmarked : ncb.lb_data ≡ none
  pub at : p.irp ≡ some 0
  pub req : p.size_for_req ≡ tcp_recv_buffer_size
  pub start : p.analyzed_offset ≡ 0

-- On a link with no header template, whose receive buffer is free and whose packet asks for all of
-- it, a segment that fits makes one callback with exactly its bytes, if a callback is set; the
-- handler returns 0 and asks for the whole buffer again.
pub recv_segment-raw :
    (malloc : ℕ → Option (List ℕ)) (mask : ℕ) (ncb : Ncb) (p : Packet) (b : Block) (seg : List ℕ)
    → RawIdle ncb p b
    → Fits p seg
    → (out : Unpacked) × (b' : Block) × (recv_segment malloc mask ncb p seg ≡ some out)
      × (out.events ≡ deliver ncb (record { link = ncb.hld; size = length seg; bytes = seg }))
      × (out.retval ≡ pos 0)
      × RawIdle out.ncb out.packet b'
unfolding recv_segment arrive recv_unpack recv_parse tcp_prase_logic_packet prase_raw
recv_segment-raw malloc mask ncb p b seg i fits =
    let inside : 0 + length seg ≤ length b.bytes = omega (arith, fits.room, i.req, i.buffer.size) in
    let zero_add : 0 + length seg ≡ length seg = omega arith in
    let b' : Block = record b { bytes = put b.bytes 0 seg } in
    let landed : take (length seg) (put b.bytes 0 seg) ≡ seg =
      sym (ap (λ k. take k (put b.bytes 0 seg)) zero_add) ∙ take-put b.bytes 0 seg inside in
    let size = length-put b.bytes 0 seg inside in
    let has = i.buffer.has in
    let at = i.at in
    let req = i.req in
    let start = i.start in
    let c = i.no_template in
    let none_yet = i.unmarked in
    let room = fits.room in
    let n = fits.some_bytes in
    let full = i.buffer.size in
    let out : Unpacked = record {
      retval = pos 0;
      ncb = ncb;
      packet = record p {
        ori_buffer = some b';
        size_for_translation = length seg;
        analyzed_offset = 0;
        irp = some 0;
        size_for_req = tcp_recv_buffer_size;
      };
      events = deliver ncb (record { link = ncb.hld; size = length seg; bytes = seg });
    } in
    (
      out,
      b',
      ground arith,
      refl,
      refl,
      record {
        buffer = record { has = refl; size = size ∙ full };
        no_template = c;
        unmarked = none_yet;
        at = refl;
        req = refl;
        start = refl;
      },
    )
