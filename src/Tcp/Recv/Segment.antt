-- ===== src/Tcp/Recv/Segment.antt =====
-- A segment that completes a request, and the handler on it: the idle link.
use swnet_win.Base.{
  ℕ, suc, ◌+◌, ◌≤◌, ◌<◌, ℤ, ◌≡◌, refl, ap, ◌∙◌, Option, none, some, List, [], ◌++◌, leb,
  if◌then◌else◌, ◌>>=◌, length, take, arith,
}
use swnet_win.Types.{Ncb, Packet, Block}
use swnet_win.Tcp.Recv.{
  Received, Unpacked, tcp_prase_logic_packet, recv_parse, recv_unpack, write_bytes,
  tcp_recv_buffer_size,
}
use swnet_win.Tcp.Recv.Copy.{put, length-put, take-put}
use swnet_win.Tcp.Recv.Spec.{Link}
use swnet_win.Tcp.Recv.Rounds.{link_of}
use swnet_win.Tcp.Recv.Waits.{HasBuffer, Idle, Handled, rearmed, Mallocs, Does, Ends}
use swnet_win.Tcp.Recv.Loop.{prase_loop_lem}

-- WSARecv puts the bytes of a segment, at most `size_for_req` of them, behind `irp`, and the IO
-- thread notes their number.
unfoldable pub arrive : Packet → List ℕ → Option Packet
arrive p seg = do
  b ← p.ori_buffer
  o ← p.irp
  bytes ← (if leb (length seg) p.size_for_req then write_bytes b.bytes o seg else none)
  some (record p {
    ori_buffer = some (record b { bytes = bytes });
    size_for_translation = length seg;
  })

-- One completed request, from the segment to the next request.
unfoldable pub recv_segment : (ℕ → Option (List ℕ)) → ℕ → Ncb → Packet → List ℕ → Option Unpacked
recv_segment malloc mask ncb p seg = do filled ← arrive p seg; recv_unpack malloc mask ncb filled

-- A segment as WSARecv may give it: not empty, and no longer than what was asked for.
pub record Fits (p : Packet) (seg : List ℕ) : Type 0 where
  pub some_bytes : 0 < length seg
  pub room : length seg ≤ p.size_for_req

-- The header template is there, and no larger than the receive buffer.
pub record HasTemplate (l : Link) : Type 0 where
  pub at_least : 0 < l.cb
  pub at_most : l.cb ≤ tcp_recv_buffer_size

module _ (malloc : ℕ → Option (List ℕ)) (mask : ℕ) (parser : List ℕ → ℕ → ℤ × ℤ)
    (mallocs : Mallocs malloc) (ncb : Ncb) (fixed : ncb.tcp_tst.parser ≡ some parser)
    (template : HasTemplate (link_of mask ncb parser)) (unmarked : ncb.lb_data ≡ none) where
  tcp_prase_logic_packet_lem :
      (p : Packet) (b : Block)
      → HasBuffer p b
      → 0 < p.size_for_translation
      → p.analyzed_offset + p.size_for_translation ≤ tcp_recv_buffer_size
      → Ends mask
          (link_of mask ncb parser)
          (take (p.analyzed_offset + p.size_for_translation) b.bytes)
          []
          (tcp_prase_logic_packet malloc mask ncb p)
  unfolding tcp_prase_logic_packet
  tcp_prase_logic_packet_lem p b buffer n room =
      let useful : ℕ = p.analyzed_offset + p.size_for_translation in
      let (out, e, h) =
        prase_loop_lem malloc mask parser mallocs ncb p b buffer fixed unmarked (suc useful) useful
          0 [] template.at_most template.at_least (omega arith) (omega arith) in
      let has = buffer.has in let c = template.at_least in (out, ground arith, h)

  recv_parse_ends :
      (p : Packet) (xs : List ℕ) (before : List Received) (out : Unpacked)
      → tcp_prase_logic_packet malloc mask ncb p ≡ some out
      → Handled mask (link_of mask ncb parser) xs [] (rearmed out)
      → Does mask (link_of mask ncb parser) xs before (recv_parse malloc mask ncb p before)
  unfolding recv_parse
  recv_parse_ends p xs before out e (Handled.waits ds h ev n d w) = (
    record (rearmed out) { events = before ++ out.events },
    rw (e, n),
    Handled.waits ds h (ap (λ t. before ++ t) ev) n d w,
  )
  recv_parse_ends p xs before out e (Handled.fails ds ev n d) = (
    record out { events = before ++ out.events },
    ground arith,
    Handled.fails ds (ap (λ t. before ++ t) ev) n d,
  )

  -- The parse of what stands at the start of the buffer.
  pub recv_parse_lem :
      (p : Packet) (b : Block) (before : List Received)
      → HasBuffer p b
      → 0 < p.size_for_translation
      → p.analyzed_offset + p.size_for_translation ≤ tcp_recv_buffer_size
      → Does mask
          (link_of mask ncb parser)
          (take (p.analyzed_offset + p.size_for_translation) b.bytes)
          before
          (recv_parse malloc mask ncb p before)
  recv_parse_lem p b before buffer n room =
      let (out, e, h) = tcp_prase_logic_packet_lem p b buffer n room in
      recv_parse_ends p _ before out e h

  -- A segment on an idle link.
  pub recv_segment-Idle :
      (p : Packet) (b : Block) (h seg : List ℕ)
      → Idle mask (link_of mask ncb parser) ncb p b h
      → Fits p seg
      → Does mask (link_of mask ncb parser) (h ++ seg) [] (recv_segment malloc mask ncb p seg)
  unfolding recv_segment arrive recv_unpack
  recv_segment-Idle p b h seg idle fits = rw idle.bytes (
      rw (← take-put b.bytes p.analyzed_offset seg inside) (
        let (out, e, d) = parsed in
        let has = idle.buffer.has in
        let at = idle.at in
        let none_yet = idle.unmarked in let room = fits.room in (out, ground arith, d)))
    where
      inside : p.analyzed_offset + length seg ≤ length b.bytes
      inside = omega (arith, idle.buffer.size, idle.req, fits.room, idle.room)

      filled : Packet
      filled = record p {
        ori_buffer = some (record b { bytes = put b.bytes p.analyzed_offset seg });
        size_for_translation = length seg;
      }

      parsed :
          Does mask
            (link_of mask ncb parser)
            (take (p.analyzed_offset + length seg) (put b.bytes p.analyzed_offset seg))
            []
            (recv_parse malloc mask ncb filled [])
      parsed =
          recv_parse_lem filled (record b { bytes = put b.bytes p.analyzed_offset seg }) []
            (record {
              has = refl;
              size = length-put b.bytes p.analyzed_offset seg inside ∙ idle.buffer.size;
            })
            fits.some_bytes (omega (arith, inside, idle.buffer.size))
