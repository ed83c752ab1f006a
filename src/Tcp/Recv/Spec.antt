-- ===== src/Tcp/Recv/Spec.antt =====
-- The reference for the receive path: a byte stream cut into packets, with no buffers, no offsets
-- and no large blocks.
pub mod Laws
use swnet_win.Base.{
  ℕ, zero, suc, ◌+◌, ◌-◌, ◌≤◌, ◌<◌, ℤ, pos, negsuc, is_neg, Bool, not, ◌&&◌, true, false, ◌≡◌, refl,
  sym, ap, ◌∙◌, List, [], ◌∷◌, ◌++◌, append_assoc, ltb, ◌==◌, if◌then◌else◌, length, take, drop,
  length-append, length-drop, take-append_le, drop-append_le, arith,
}
use swnet_win.Tcp.Recv.{Received, tcp_maximum_packet_size, tcp_recv_buffer_size}

-- What a link fixes for its stream: its handle, the header template, whether a callback is set,
-- and whether the user wants whole packets.
pub record Link : Type 0 where
  pub hld : ℤ
  pub cb : ℕ
  pub parser : List ℕ → ℕ → ℤ × ℤ
  pub listening : Bool
  pub fully : Bool

-- What the head of a stream is.
pub data Head : Type 0 where
  -- more bytes are needed
  short : Head
  -- the header is refused, or its size is
  bad : Head
  -- a packet with this user size
  packet : ℕ → Head

pub data Outcome : Type 0 where
  -- the bytes of a packet that is not whole yet
  rest : List ℕ → Outcome
  malformed : Outcome

module _ (l : Link) where
  -- What the header says of the first packet.
  unfoldable pub size_of : List ℕ → Head
  size_of xs =
      if is_neg (l.parser (take l.cb xs) l.cb).0
      then bad
      else elim (l.parser (take l.cb xs) l.cb).1 [
        | negsuc n ↦ bad
        | pos u ↦ if ltb tcp_maximum_packet_size u then bad else packet u
      ]

  -- A packet counts only when all of it is there.
  unfoldable pub whole_or_short : ℕ → Head → Head
  whole_or_short n short = short
  whole_or_short n bad = bad
  whole_or_short n (packet u) = if ltb n (u + l.cb) then short else packet u

  unfoldable pub head_of : List ℕ → Head
  head_of xs = if ltb (length xs) l.cb then short else whole_or_short (length xs) (size_of xs)

  -- The event for the first packet. One that fits the receive buffer is given whole on request; a
  -- larger one never is.
  unfoldable pub event_of : List ℕ → ℕ → Received
  event_of xs u =
      if l.fully && not (ltb tcp_recv_buffer_size (u + l.cb))
      then record { link = l.hld; size = u + l.cb; bytes = take (u + l.cb) xs }
      else record { link = l.hld; size = u; bytes = take u (drop l.cb xs) }

  unfoldable pub events_of : List ℕ → ℕ → List Received
  events_of xs u = if l.listening then event_of xs u ∷ [] else []

  -- The packets of a stream in order, as a relation: each is followed by those of the bytes behind.
  pub data Deframes : List ℕ → List Received → Outcome → Type 0 where
    stop : {xs : List ℕ} → head_of xs ≡ short → Deframes xs [] (rest xs)
    refuse : {xs : List ℕ} → head_of xs ≡ bad → Deframes xs [] malformed
    more :
        {xs : List ℕ} {es ds : List Received} {o : Outcome} (u : ℕ)
        → head_of xs ≡ packet u
        → es ≡ events_of xs u
        → Deframes (drop (u + l.cb) xs) ds o
        → Deframes xs (es ++ ds) o

  -- The same as a function. Each round takes a packet of at least `cb` bytes, so the length of
  -- the stream is fuel enough when the template is not empty.
  unfoldable pub deframe_fuel : ℕ → List ℕ → List Received × Outcome
  deframe_fuel zero xs = ([], rest xs)
  deframe_fuel (suc n) xs = elim (head_of xs) [
    | short ↦ ([], rest xs)
    | bad ↦ ([], malformed)
    | packet u ↦
        let tail = deframe_fuel n (drop (u + l.cb) xs) in (events_of xs u ++ tail.0, tail.1)
  ]

  unfoldable pub deframe : List ℕ → List Received × Outcome
  deframe xs = deframe_fuel (suc (length xs)) xs
