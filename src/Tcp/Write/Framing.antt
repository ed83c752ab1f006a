-- ===== src/Tcp/Write/Framing.antt =====
-- What tcp_write puts into a packet, against the reference for the receive path.
use swnet_win.Base.{
  ℕ, ◌+◌, ◌-◌, ◌≤◌, ◌<◌, ℤ, pos, is_neg, false, ◌≡◌, ap, subst, ◌∙◌, none, some, List, [], ◌∷◌,
  ◌++◌, append-nil, length, take, drop, flatten, length-append, length-take, take-append_le,
  drop-append_ge, take_all, drop_all, if◌then◌else◌, arith,
}
use swnet_win.Types.{Ncb}
use swnet_win.Tcp.Recv.{Received, tcp_maximum_packet_size}
use swnet_win.Tcp.Recv.Copy.{put}
use swnet_win.Tcp.Recv.Spec.{
  Link, short, packet, rest, size_of, whole_or_short, head_of, event_of, events_of, Deframes, stop,
  more, deframe,
}
use swnet_win.Tcp.Recv.Spec.Laws.{Deframes-append, Deframes-deframe}
use swnet_win.Tcp.Write.{place_data, no_build, fill_packet}

-- A header builder writes into the buffer that it is given, and the parser of the other side reads
-- the size back from what it wrote.
pub record Builds (build : List ℕ → ℕ → ℤ × List ℕ) (l : Link) : Type 0 where
  pub accepts : (buffer : List ℕ) (n : ℕ) → is_neg (build buffer n).0 ≡ false
  pub in_place : (buffer : List ℕ) (n : ℕ) → length (build buffer n).1 ≡ length buffer
  pub reads_ok :
      (buffer : List ℕ) (n : ℕ)
      → l.cb ≤ length buffer
      → is_neg (l.parser (take l.cb (build buffer n).1) l.cb).0 ≡ false
  pub reads :
      (buffer : List ℕ) (n : ℕ)
      → l.cb ≤ length buffer
      → (l.parser (take l.cb (build buffer n).1) l.cb).1 ≡ pos n

-- One packet on the wire for a message.
pub record Frames (l : Link) (bytes message : List ℕ) : Type 0 where
  pub size : length bytes ≡ l.cb + length message
  pub head : head_of l bytes ≡ packet (length message)
  pub payload : drop l.cb bytes ≡ message

put_all : (b src : List ℕ) (o : ℕ) → length b ≡ o + length src → put b o src ≡ take o b ++ src
put_all b src o e =
    ap (λ t. take o b ++ (src ++ t)) (drop_all (o + length src) b (omega (arith, e)))
    ∙ ap (λ t. take o b ++ t) (append-nil src)

drop-front : (h s : List ℕ) (n : ℕ) → length h ≡ n → drop n (h ++ s) ≡ s
drop-front h s n e =
    let z : n - length h ≡ 0 = omega (arith, e) in
    drop-append_ge n h s (omega (arith, e)) ∙ ap (λ k. drop k s) z

module _ (l : Link) (mask : ℕ) (ncb : Ncb) (build : List ℕ → ℕ → ℤ × List ℕ)
    (builds : Builds build l) (builder_set : ncb.tcp_tst.builder ≡ some build)
    (same_size : ncb.tcp_tst.cb ≡ l.cb) (header : no_build mask ncb ≡ false) where
  framed :
      (built message : List ℕ)
      → length built ≡ l.cb + length message
      → length message ≤ tcp_maximum_packet_size
      → is_neg (l.parser (take l.cb built) l.cb).0 ≡ false
      → (l.parser (take l.cb built) l.cb).1 ≡ pos (length message)
      → Frames l (put built l.cb message) message
  unfolding head_of whole_or_short size_of
  framed built message e small ok reads =
      let p = put_all built message l.cb e in
      let t = length-take l.cb built in
      let n = length-append (take l.cb built) message in
      let front : take l.cb (put built l.cb message) ≡ take l.cb built =
        ap (take l.cb) p
        ∙ (take-append_le l.cb (take l.cb built) message (omega (arith, t, e))
            ∙ take_all l.cb (take l.cb built) (omega (arith, t, e))) in
      let size : length (put built l.cb message) ≡ l.cb + length message =
        ap length p ∙ omega (arith, n, t, e) in
      record {
        size = size;
        head = ground (arith, size, front, ok, reads, small);
        payload =
            ap (drop l.cb) p ∙ drop-front (take l.cb built) message l.cb (omega (arith, t, e));
      }

  -- When a link has a builder whose header the parser of the other side reads back, and tcp_write
  -- builds the header and copies the data, a message of at most 50 MB in a buffer of the length
  -- that is allocated becomes one frame: its length is the header's and the message's, the
  -- reference takes the message's size from it, and the bytes behind the header are the message.
  pub fill_packet-Frames :
      (buffer message : List ℕ)
      → length buffer ≡ ncb.tcp_tst.cb + length message
      → length message ≤ tcp_maximum_packet_size
      → (bytes : List ℕ) × (fill_packet mask ncb none buffer message (length message) ≡ some bytes)
        × Frames l bytes message
  unfolding fill_packet place_data
  fill_packet-Frames buffer message e small =
      let n = length message in
      let built = (build buffer n).1 in
      let same = take_all n message (omega arith) in
      let room : length built ≡ l.cb + n =
        builds.in_place buffer n ∙ (e ∙ ap (λ k. k + n) same_size) in
      let long : l.cb ≤ length buffer = omega (arith, e, same_size) in
      let ok = builds.accepts buffer n in
      (
        put built l.cb message,
        ground (arith, header, builder_set, ok, same, same_size),
        framed built message room small (builds.reads_ok buffer n long)
            (builds.reads buffer n long),
      )

-- The frames of several messages, one for each.
pub data AllFrames (l : Link) : List (List ℕ) → List (List ℕ) → Type 0 where
  done : AllFrames l [] []
  one :
      {bytes message : List ℕ} {frames messages : List (List ℕ)}
      → Frames l bytes message
      → AllFrames l frames messages
      → AllFrames l (bytes ∷ frames) (message ∷ messages)

-- The callbacks for messages.
abbrev pub message_events : Link → List (List ℕ) → List Received
message_events l [] = []
message_events l (m ∷ ms) =
    if l.listening
    then record { link = l.hld; size = length m; bytes = m } ∷ message_events l ms
    else message_events l ms

module _ (l : Link) (template : 0 < l.cb) (payload_only : l.fully ≡ false) where
  empty-short : head_of l [] ≡ short
  unfolding head_of
  empty-short = ground (arith, template)

  cut-short :
      (bytes : List ℕ) (m : List ℕ)
      → length bytes ≡ l.cb + length m
      → drop (length m + l.cb) bytes ≡ []
  cut-short bytes m e = drop_all (length m + l.cb) bytes (omega (arith, e))

  frame-Deframes :
      {bytes m : List ℕ} → Frames l bytes m → Deframes l bytes (message_events l (m ∷ [])) (rest [])
  unfolding events_of event_of
  frame-Deframes {bytes} {m} f =
      let whole = take_all (length m) m (omega arith) in
      let tail : Deframes l (drop (length m + l.cb) bytes) [] (rest []) =
        rw (cut-short bytes m f.size) (stop empty-short) in
      subst (λ es. Deframes l bytes es (rest [])) (append-nil (message_events l (m ∷ [])))
        (more (length m) f.head (ground (arith, payload_only, f.payload, whole)) tail)

  messages-cons :
      (m : List ℕ) (ms : List (List ℕ))
      → message_events l (m ∷ []) ++ message_events l ms ≡ message_events l (m ∷ ms)
  messages-cons m ms = ground arith

  frames-Deframes :
      {frames messages : List (List ℕ)}
      → AllFrames l frames messages
      → Deframes l (flatten frames) (message_events l messages) (rest [])
  frames-Deframes done = stop empty-short
  frames-Deframes (one {bytes} {message} {frames} {messages} f fs) =
      subst (λ es. Deframes l (bytes ++ flatten frames) es (rest []))
        (messages-cons message messages)
        (Deframes-append l (flatten frames) (frame-Deframes f) (frames-Deframes fs))

  pub frames-deframe :
      {frames messages : List (List ℕ)}
      → AllFrames l frames messages
      → deframe l (flatten frames) ≡ (message_events l messages, rest [])
  frames-deframe fs = Deframes-deframe l template (frames-Deframes fs)
