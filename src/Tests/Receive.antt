-- ===== src/Tests/Receive.antt =====
-- The theorems on the receive path at a link with a header of one byte.
use swnet_win.Base.{
  ℕ, ◌≤◌, pos, is_neg, true, false, ◌≡◌, refl, subst, Option, none, some, List, [], ◌∷◌, flatten,
  length, take, drop, replicate, length-replicate, arith,
}
use swnet_win.Types.{Block, Packet, Ncb}
use swnet_win.Tcp.Recv.{Unpacked, deliver, prase_loop, tcp_recv_buffer_size}
use swnet_win.Tcp.Recv.Spec.{Link, head_of, whole_or_short, size_of}
use swnet_win.Tcp.Recv.Waits.{HasBuffer, Idle, Waits, Handled, Mallocs, Ends}
use swnet_win.Tcp.Recv.Segment.{recv_segment, Fits, HasTemplate}
use swnet_win.Tcp.Recv.Loop.{prase_loop_lem}
use swnet_win.Tcp.Recv.Stream.{recv_stream, AllFit, Agrees, recv_segment_lem, recv_stream-deframe}
use swnet_win.Tcp.Recv.Raw.{RawIdle, recv_segment-raw}
use swnet_win.Tcp.Write.{no_build, fill_packet}
use swnet_win.Tcp.Write.Framing.{Builds, Frames, AllFrames, message_events, fill_packet-Frames}
use swnet_win.Tcp.Delivery.{recv_stream-resegment, recv_stream-delivers}
use swnet_win.Tests.{
  read_header, build_header, byte_header, open_link, receive_block, receive_packet,
}

abbrev zeroed : ℕ → Option (List ℕ)
zeroed n = some (replicate n 0)

zeroed-Mallocs : Mallocs zeroed
zeroed-Mallocs n = (replicate n 0, refl, length-replicate n 0)

abbrev byte_link : Link
byte_link = record { hld = pos 7; cb = 1; parser = read_header; listening = true; fully = false }

byte_link-HasTemplate : HasTemplate byte_link
byte_link-HasTemplate = record { at_least = omega arith; at_most = omega arith }

abbrev link7 : Ncb
link7 = open_link byte_header

receive_packet-HasBuffer : HasBuffer receive_packet receive_block
receive_packet-HasBuffer = record {
  has = refl;
  size = length-replicate {A = ℕ} tcp_recv_buffer_size 0;
}

link7-Idle : Idle 4 byte_link link7 receive_packet receive_block []
unfolding head_of
link7-Idle = record {
  buffer = receive_packet-HasBuffer;
  unmarked = refl;
  at = refl;
  req = refl;
  room = omega arith;
  bytes = refl;
  partial = refl;
}

link7-Waits : Waits 4 byte_link link7 receive_packet []
link7-Waits = Waits.idle receive_block (record { parser_set = refl; same = refl }) link7-Idle

-- The messages 5, 6 and 9 in one segment.
abbrev segment : List ℕ
segment = 2 ∷ 5 ∷ 6 ∷ 1 ∷ 9 ∷ []

segment-Fits : Fits receive_packet segment
segment-Fits = record { some_bytes = omega arith; room = omega arith }

segment-AllFit : AllFit zeroed 4 link7 receive_packet (segment ∷ [])
segment-AllFit = (segment-Fits, λ out e n. tt)

recv_stream-deframe_example :
    (out : Unpacked) × (recv_stream zeroed 4 link7 receive_packet (segment ∷ []) ≡ some out)
    × Agrees zeroed 4 byte_link zeroed-Mallocs byte_link-HasTemplate (flatten (segment ∷ [])) out
recv_stream-deframe_example =
    recv_stream-deframe zeroed 4 byte_link zeroed-Mallocs byte_link-HasTemplate link7 receive_packet
      (segment ∷ []) link7-Waits segment-AllFit

-- The same messages as the builder frames them.
byte_header-Builds : Builds build_header byte_link
byte_header-Builds = record {
  accepts = accepts;
  in_place = in_place;
  reads_ok = reads_ok;
  reads = reads;
}
  where
    accepts : (buffer : List ℕ) (n : ℕ) → is_neg (build_header buffer n).0 ≡ false
    accepts [] n = refl
    accepts (x ∷ xs) n = refl

    in_place : (buffer : List ℕ) (n : ℕ) → length (build_header buffer n).1 ≡ length buffer
    in_place [] n = refl
    in_place (x ∷ xs) n = refl

    reads_ok :
        (buffer : List ℕ) (n : ℕ)
        → 1 ≤ length buffer
        → is_neg (read_header (take 1 (build_header buffer n).1) 1).0 ≡ false
    reads_ok [] n h = absurd (omega (arith, h))
    reads_ok (x ∷ xs) n h = refl

    reads :
        (buffer : List ℕ) (n : ℕ)
        → 1 ≤ length buffer
        → (read_header (take 1 (build_header buffer n).1) 1).1 ≡ pos n
    reads [] n h = absurd (omega (arith, h))
    reads (x ∷ xs) n h = refl

fill_packet-Frames_example :
    (bytes : List ℕ) × (fill_packet 2 link7 none (0 ∷ 0 ∷ 0 ∷ []) (5 ∷ 6 ∷ []) 2 ≡ some bytes)
    × Frames byte_link bytes (5 ∷ 6 ∷ [])
unfolding no_build
fill_packet-Frames_example =
    fill_packet-Frames byte_link 2 link7 build_header byte_header-Builds refl refl refl
      (0 ∷ 0 ∷ 0 ∷ []) (5 ∷ 6 ∷ []) refl (omega arith)

frame_of_two : Frames byte_link (2 ∷ 5 ∷ 6 ∷ []) (5 ∷ 6 ∷ [])
unfolding head_of whole_or_short size_of
frame_of_two = record { size = refl; head = refl; payload = refl }

frame_of_one : Frames byte_link (1 ∷ 9 ∷ []) (9 ∷ [])
unfolding head_of whole_or_short size_of
frame_of_one = record { size = refl; head = refl; payload = refl }

abbrev frames : List (List ℕ)
frames = (2 ∷ 5 ∷ 6 ∷ []) ∷ (1 ∷ 9 ∷ []) ∷ []

abbrev messages : List (List ℕ)
messages = (5 ∷ 6 ∷ []) ∷ (9 ∷ []) ∷ []

frames-AllFrames : AllFrames byte_link frames messages
frames-AllFrames = AllFrames.one frame_of_two (AllFrames.one frame_of_one AllFrames.done)

recv_stream-delivers_example :
    (out : Unpacked) × (recv_stream zeroed 4 link7 receive_packet (segment ∷ []) ≡ some out)
    × (out.events ≡ message_events byte_link messages)
    × (is_neg out.retval ≡ false)
    × Waits 4 byte_link out.ncb out.packet []
recv_stream-delivers_example =
    recv_stream-delivers zeroed 4 byte_link zeroed-Mallocs byte_link-HasTemplate link7
      receive_packet (segment ∷ []) frames messages refl link7-Waits segment-AllFit frames-AllFrames
      refl

-- The same bytes in two segments.
abbrev two_segments : List (List ℕ)
two_segments = (2 ∷ 5 ∷ 6 ∷ 1 ∷ []) ∷ (9 ∷ []) ∷ []

-- A link that waits has room for one byte more.
Waits-Fits :
    {ncb : Ncb} {p : Packet} {h : List ℕ} (x : ℕ) → Waits 4 byte_link ncb p h → Fits p (x ∷ [])
Waits-Fits x (Waits.idle b fixed i) = record {
  some_bytes = omega arith;
  room = omega (arith, i.req, i.room);
}
Waits-Fits x (Waits.large b lb u fixed i) = record {
  some_bytes = omega arith;
  room = omega (arith, i.req);
}

two_segments-AllFit : AllFit zeroed 4 link7 receive_packet two_segments
two_segments-AllFit = (first_Fits, λ out e n. (second out e n, λ out' e' n'. tt))
  where
    first_Fits : Fits receive_packet (2 ∷ 5 ∷ 6 ∷ 1 ∷ [])
    first_Fits = record { some_bytes = omega arith; room = omega arith }

    waiting :
        {xs : List ℕ} {out : Unpacked}
        → is_neg out.retval ≡ false
        → Handled 4 byte_link xs [] out
        → Fits out.packet (9 ∷ [])
    waiting n (Handled.waits ds h ev m d w) = Waits-Fits 9 w
    waiting n (Handled.fails ds ev m d) = cc

    second :
        (out : Unpacked)
        → recv_segment zeroed 4 link7 receive_packet (2 ∷ 5 ∷ 6 ∷ 1 ∷ []) ≡ some out
        → is_neg out.retval ≡ false
        → Fits out.packet (9 ∷ [])
    second out e n =
        let (out', e', h) =
          recv_segment_lem zeroed 4 byte_link zeroed-Mallocs byte_link-HasTemplate
            (2 ∷ 5 ∷ 6 ∷ 1 ∷ []) link7-Waits first_Fits in
        let same : out' ≡ out = cc in
        waiting n (subst (λ o. Handled 4 byte_link (2 ∷ 5 ∷ 6 ∷ 1 ∷ []) [] o) same h)

recv_stream-resegment_example :
    (out out' : Unpacked) × (recv_stream zeroed 4 link7 receive_packet (segment ∷ []) ≡ some out)
    × (recv_stream zeroed 4 link7 receive_packet two_segments ≡ some out')
    × (out.events ≡ out'.events)
    × (is_neg out.retval ≡ is_neg out'.retval)
recv_stream-resegment_example =
    recv_stream-resegment zeroed 4 byte_link zeroed-Mallocs byte_link-HasTemplate link7
      receive_packet (segment ∷ []) two_segments link7-Waits segment-AllFit two_segments-AllFit refl

-- A link with no template.
abbrev raw_link : Ncb
raw_link = open_link (record { cb = 0; builder = none; parser = none })

recv_segment-raw_example :
    (out : Unpacked) × (b' : Block) × (recv_segment zeroed 4 raw_link receive_packet (5 ∷ 6 ∷ [])
      ≡ some out)
    × (out.events ≡ deliver raw_link (record { link = pos 7; size = 2; bytes = 5 ∷ 6 ∷ [] }))
    × (out.retval ≡ pos 0)
    × RawIdle out.ncb out.packet b'
recv_segment-raw_example =
    recv_segment-raw zeroed 4 raw_link receive_packet receive_block (5 ∷ 6 ∷ [])
      (record {
        buffer = receive_packet-HasBuffer;
        no_template = refl;
        unmarked = refl;
        at = refl;
        req = refl;
        start = refl;
      })
      (record { some_bytes = omega arith; room = omega arith })

prase_loop_lem_example :
    Ends 4 byte_link
      (take 5 (drop 0 receive_block.bytes))
      []
      (prase_loop zeroed 4 6 link7 receive_packet receive_block 5 0 [])
prase_loop_lem_example =
    prase_loop_lem zeroed 4 read_header zeroed-Mallocs link7 receive_packet receive_block
      receive_packet-HasBuffer refl refl 6 5 0 [] (omega arith) (omega arith) (omega arith)
      (omega arith)
