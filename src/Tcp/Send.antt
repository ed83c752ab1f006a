-- ===== src/Tcp/Send.antt =====
-- The send path of tcp.c: the critical section of tcp_try_write, and what a completion does to the
-- counter. The rest of the handlers around it is in Tcp/Io.
pub mod Fifo
pub mod History
use swnet_win.Base.{
  ℕ, zero, suc, ℤ, pos, minus_one, Bool, true, false, Option, none, some, List, [], ◌∷◌, ◌++◌,
  if◌then◌else◌, increment, decrement, long_ge,
}
use swnet_win.Types.{Packet, Ncb}

-- TCP_MAXIMUM_SENDER_CACHED_CNT_PRE_LINK
abbrev pub tcp_maximum_sender_cached_cnt_pre_link : ℕ
tcp_maximum_sender_cached_cnt_pre_link = 500

-- `n` decrements by the completions of other threads, which take no lock.
pub interfere : ℕ → ℕ → ℕ
interfere n pending = elim n [ zero ↦ pending | suc (m → rest) ↦ decrement rest ]

-- The loop that claims the right to send. The list gives, for each round, the decrements that other
-- threads make between its two steps; a round past its end sees none. The result is whether the
-- right was claimed, and the counter.
unfoldable pub claim : List ℕ → ℕ → Bool × ℕ
claim [] pending =
    if long_ge (increment pending) 2
    then (false, decrement (increment pending))
    else (true, increment pending)
claim (d ∷ ds) pending =
    let again = claim ds (decrement (interfere d (increment pending))) in
    if long_ge (increment pending) 2
    then if long_ge (decrement (interfere d (increment pending))) 1
      then (false, decrement (interfere d (increment pending)))
      else again
    else (true, increment pending)

-- What the critical section leaves: the return value, the packet to send, and the control block.
pub record Locked : Type 0 where
  pub retval : ℤ
  pub next_packet : Option Packet
  pub ncb : Ncb

-- tcp_try_write, from the loop on. Taking the head of an empty queue would be a fault, `none`.
unfoldable pub take_next : List ℕ → Ncb → Option Locked
take_next others ncb =
    let claimed = claim others ncb.tcp_write_pending in
    let waiting : Ncb = record ncb { tcp_write_pending = claimed.1 } in
    if claimed.0
    then elim ncb.tcp_sender_cache [
      | [] ↦ none
      | x ∷ rest ↦ some (record {
        retval = pos 0;
        next_packet = some x;
        ncb = record ncb {
          tcp_write_pending = claimed.1;
          tcp_sender_cache = rest;
          tcp_sender_list_size = decrement ncb.tcp_sender_list_size;
        };
      })
    ]
    else some (record { retval = pos 0; next_packet = none; ncb = waiting })

-- The critical section of tcp_try_write.
unfoldable pub try_write_locked : List ℕ → Ncb → Option Packet → Option Locked
try_write_locked others ncb (some packet) =
    if long_ge (increment ncb.tcp_sender_list_size) tcp_maximum_sender_cached_cnt_pre_link
    then some (record {
      retval = minus_one;
      next_packet = none;
      ncb = record ncb { tcp_sender_list_size = decrement (increment ncb.tcp_sender_list_size) };
    })
    else take_next others (record ncb {
      tcp_sender_list_size = increment ncb.tcp_sender_list_size;
      tcp_sender_cache = ncb.tcp_sender_cache ++ packet ∷ [];
    })
try_write_locked others ncb none = elim ncb.tcp_sender_cache [
  | [] ↦ some (record { retval = minus_one; next_packet = none; ncb = ncb })
  | x ∷ rest ↦ take_next others ncb
]

-- The decrement with which tcp_dispatch_io_send and tcp_dispatch_io_exception begin.
unfoldable pub release_pending : Ncb → Ncb
release_pending ncb = record ncb { tcp_write_pending = decrement ncb.tcp_write_pending }
