-- ===== src/Tcp/Recv/Waits.antt =====
-- The states in which a link waits for its next segment, and the bytes that each one holds.
use swnet_win.Base.{
  ℕ, ◌+◌, ◌-◌, ◌≤◌, ◌<◌, ◌≡◌, Option, none, some, List, ◌++◌, length, take, is_neg, minus_one,
  false,
}
use swnet_win.Types.{Ncb, Packet, Block}
use swnet_win.Tcp.Recv.{Received, Unpacked, tcp_recv_buffer_size}
use swnet_win.Tcp.Recv.Spec.{Link, short, packet, rest, malformed, size_of, head_of, Deframes}
use swnet_win.Tcp.Recv.Rounds.{link_of}

-- The receive buffer of a packet: there, and of the size of TCP_RECV_BUFFER_SIZE.
pub record HasBuffer (p : Packet) (b : Block) : Type 0 where
  pub has : p.ori_buffer ≡ some b
  pub size : length b.bytes ≡ tcp_recv_buffer_size

module _ (mask : ℕ) (l : Link) where
  -- The control block belongs to the link.
  pub record Fixed (ncb : Ncb) : Type 0 where
    pub parser_set : ncb.tcp_tst.parser ≡ some l.parser
    pub same : link_of mask ncb l.parser ≡ l

  -- The bytes stand at the start of the receive buffer, and the next request goes behind them.
  pub record Idle (ncb : Ncb) (p : Packet) (b : Block) (h : List ℕ) : Type 0 where
    pub buffer : HasBuffer p b
    pub unmarked : ncb.lb_data ≡ none
    pub at : p.irp ≡ some p.analyzed_offset
    pub req : p.size_for_req ≡ tcp_recv_buffer_size - p.analyzed_offset
    pub room : p.analyzed_offset < tcp_recv_buffer_size
    pub bytes : h ≡ take p.analyzed_offset b.bytes
    pub partial : head_of l h ≡ short

  -- The bytes stand in a large block of `u` bytes and a header, and the receive buffer is free.
  pub record Large (ncb : Ncb) (p : Packet) (b : Block) (lb : List ℕ) (u : ℕ) (h : List ℕ)
      : Type 0 where
    pub buffer : HasBuffer p b
    pub marked : ncb.lb_data ≡ some lb
    pub lb_size : length lb ≡ ncb.lb_length
    pub at : p.irp ≡ some 0
    pub req : p.size_for_req ≡ tcp_recv_buffer_size
    pub start : p.analyzed_offset ≡ 0
    pub total : ncb.lb_length ≡ u + l.cb
    pub big : tcp_recv_buffer_size < ncb.lb_length
    pub room : ncb.lb_cpy_offset < ncb.lb_length
    pub header : l.cb ≤ ncb.lb_cpy_offset
    pub bytes : h ≡ take ncb.lb_cpy_offset lb
    pub announced : size_of l h ≡ packet u

  -- The link waits, with the bytes `h` not delivered yet.
  pub data Waits (ncb : Ncb) (p : Packet) (h : List ℕ) : Type 0 where
    idle : (b : Block) → Fixed ncb → Idle ncb p b h → Waits ncb p h
    large : (b : Block) (lb : List ℕ) (u : ℕ) → Fixed ncb → Large ncb p b lb u h → Waits ncb p h

  -- What comes of the bytes `xs`: the events of the reference after those of `before`, and either
  -- a link that waits with what the reference leaves, or the failure that it reports.
  pub data Handled (xs : List ℕ) (before : List Received) (out : Unpacked) : Type 0 where
    waits :
        (ds : List Received) (h : List ℕ)
        → out.events ≡ before ++ ds
        → is_neg out.retval ≡ false
        → Deframes l xs ds (rest h)
        → Waits out.ncb out.packet h
        → Handled xs before out
    fails :
        (ds : List Received)
        → out.events ≡ before ++ ds
        → out.retval ≡ minus_one
        → Deframes l xs ds malformed
        → Handled xs before out

-- The request for the next segment, as tcp_dispatch_io_recv sets it up.
abbrev pub rearm : Packet → Packet
rearm p = record p {
  irp = some p.analyzed_offset;
  size_for_req = tcp_recv_buffer_size - p.analyzed_offset;
}

abbrev pub rearmed : Unpacked → Unpacked
rearmed out = record out { packet = rearm (out.packet) }

-- What is asked of `malloc`: it gives a block of the size asked for.
abbrev pub Mallocs : (ℕ → Option (List ℕ)) → Type 0
Mallocs malloc = (n : ℕ) → (b : List ℕ) × (malloc n ≡ some b) × (length b ≡ n)

-- What a call comes to that leaves the link waiting or fails.
abbrev pub Does : ℕ → Link → List ℕ → List Received → Option Unpacked → Type 0
Does mask l xs before r = (out : Unpacked) × (r ≡ some out) × Handled mask l xs before out

-- The same, once the next request is set up.
abbrev pub Ends : ℕ → Link → List ℕ → List Received → Option Unpacked → Type 0
Ends mask l xs before r = (out : Unpacked) × (r ≡ some out) × Handled mask l xs before (rearmed out)
