-- ===== src/Tcp/Send/Fifo.antt =====
-- The critical section of tcp_try_write, tcp.c, as an operation on a queue.
use swnet_win.Base.{
  ℕ, zero, suc, ◌+◌, ◌≤◌, ◌<◌, pos, minus_one, true, false, Bool-cases, inl, inr, ◌⊎◌, ◌≡◌, ◌≢◌,
  refl, ap, Option, none, some, List, [], ◌∷◌, ◌++◌, length, length-append, ◌==◌, increment,
  decrement, arith,
}
use swnet_win.Types.{Packet, Ncb}
use swnet_win.Tcp.Send.{
  Locked, claim, interfere, take_next, try_write_locked, tcp_maximum_sender_cached_cnt_pre_link,
}

-- The counter is the length of the queue and below the limit, and at most one packet is in flight.
pub record IsSender (ncb : Ncb) : Type 0 where
  pub counted : ncb.tcp_sender_list_size ≡ length ncb.tcp_sender_cache
  pub bounded : ncb.tcp_sender_list_size < tcp_maximum_sender_cached_cnt_pre_link
  pub single : ncb.tcp_write_pending ≤ 1

abbrev pub next_list : Option Packet → List Packet
next_list none = []
next_list (some p) = p ∷ []

-- The decrements that other threads make in the first round of the loop.
abbrev pub first : List ℕ → ℕ
first [] = 0
first (d ∷ ds) = d

claim-zero : (ds : List ℕ) → claim ds 0 ≡ (true, 1)
unfolding claim
claim-zero [] = refl
claim-zero (d ∷ ds) = refl

-- If at most one packet is in flight and other threads complete no more than that, the loop that
-- claims the right to send leaves the counter at one, and it claims exactly if nothing is in flight
-- any more, whatever later completions are offered to it.
pub claim_lem :
    (others : List ℕ) (pending : ℕ)
    → first others ≤ pending
    → pending ≤ 1
    → claim others pending ≡ (first others == pending, 1)
unfolding claim interfere
claim_lem [] zero f s = refl
claim_lem [] (suc zero) f s = refl
claim_lem [] (suc (suc n)) f s = absurd (omega arith)
claim_lem (d ∷ ds) (suc (suc n)) f s = absurd (omega arith)
claim_lem (zero ∷ ds) zero f s = refl
claim_lem (zero ∷ ds) (suc zero) f s = refl
claim_lem (suc d ∷ ds) zero f s = absurd (omega arith)
claim_lem (suc zero ∷ ds) (suc zero) f s = claim-zero ds
claim_lem (suc (suc d) ∷ ds) (suc zero) f s = absurd (omega arith)

-- What a critical section does to the queue `q` that it starts from, while others complete `d`.
pub record Serves (ncb : Ncb) (q : List Packet) (d : ℕ) (r : Locked) : Type 0 where
  pub keeps : IsSender r.ncb
  pub busy : r.ncb.tcp_write_pending ≡ 1
  pub fifo : q ≡ next_list r.next_packet ++ r.ncb.tcp_sender_cache
  pub inflight :
      r.ncb.tcp_write_pending + d ≡ ncb.tcp_write_pending + length (next_list r.next_packet)

-- The two ways out of the critical section once a packet is queued.
take_next_waits :
    (others : List ℕ) (ncb : Ncb)
    → claim others ncb.tcp_write_pending ≡ (false, 1)
    → take_next others ncb
      ≡ some (record {
        retval = pos 0;
        next_packet = none;
        ncb = record ncb { tcp_write_pending = 1 };
      })
unfolding take_next
take_next_waits others ncb e = ground arith

take_next_sends :
    (others : List ℕ) (ncb : Ncb) (x : Packet) (rest : List Packet)
    → claim others ncb.tcp_write_pending ≡ (true, 1)
    → ncb.tcp_sender_cache ≡ x ∷ rest
    → take_next others ncb
      ≡ some (record {
        retval = pos 0;
        next_packet = some x;
        ncb = record ncb {
          tcp_write_pending = 1;
          tcp_sender_cache = rest;
          tcp_sender_list_size = decrement ncb.tcp_sender_list_size;
        };
      })
unfolding take_next
take_next_sends others ncb x rest e q = ground arith

-- What `take_next` needs: other threads complete at most what is in flight, and a packet is queued.
record Queued (others : List ℕ) (ncb : Ncb) : Type 0 where
  honest : first others ≤ ncb.tcp_write_pending
  single : ncb.tcp_write_pending ≤ 1
  counted : ncb.tcp_sender_list_size ≡ length ncb.tcp_sender_cache
  bounded : ncb.tcp_sender_list_size < tcp_maximum_sender_cached_cnt_pre_link

take_next_lem :
    (others : List ℕ) (ncb : Ncb) (x : Packet) (rest : List Packet)
    → ncb.tcp_sender_cache ≡ x ∷ rest
    → Queued others ncb
    → (r : Locked) × (take_next others ncb ≡ some r)
      × (r.retval ≡ pos 0)
      × Serves ncb ncb.tcp_sender_cache (first others) r
take_next_lem others ncb x rest q v =
    let claimed = claim_lem others ncb.tcp_write_pending v.honest v.single in
    elim (Bool-cases (first others == ncb.tcp_write_pending)) [
      | inl free ↦
          let e : first others ≡ ncb.tcp_write_pending = ground arith in
          let n : length ncb.tcp_sender_cache ≡ suc (length rest) = ap length q in
          (
            record {
              retval = pos 0;
              next_packet = some x;
              ncb = record ncb {
                tcp_write_pending = 1;
                tcp_sender_cache = rest;
                tcp_sender_list_size = decrement ncb.tcp_sender_list_size;
              };
            },
            take_next_sends others ncb x rest (rw free at claimed) q,
            refl,
            record {
              keeps = record {
                counted = omega (arith, v.counted, v.bounded);
                bounded = omega (arith, v.counted, v.bounded);
                single = omega arith;
              };
              busy = refl;
              fifo = q;
              inflight = omega arith;
            },
          )
      | inr busy ↦ (
        record { retval = pos 0; next_packet = none; ncb = record ncb { tcp_write_pending = 1 } },
        take_next_waits others ncb (rw busy at claimed),
        refl,
        record {
          keeps = record { counted = v.counted; bounded = v.bounded; single = omega arith };
          busy = refl;
          fifo = refl;
          inflight = ground (arith, v.honest, v.single);
        },
      )
    ]

pub List-cases :
    (q : List Packet) → (q ≡ []) ⊎ ((x : Packet) × (rest : List Packet) × (q ≡ x ∷ rest))
List-cases [] = inl refl
List-cases (x ∷ rest) = inr (x, rest, refl)

append-cons :
    (q : List Packet) (p : Packet) → (x : Packet) × (rest : List Packet) × (q ++ p ∷ [] ≡ x ∷ rest)
append-cons [] p = (p, [], refl)
append-cons (x ∷ q) p = (x, q ++ p ∷ [], refl)

-- On a consistent sender with room for one packet more, tcp_try_write with a packet succeeds: the
-- queue with the packet at its end is the packet to send next, if any, followed by the new queue;
-- the sender stays consistent with one packet in flight; and a packet is to be sent exactly as far
-- as completions made room, whatever completions happen meanwhile.
pub try_write-queues :
    (others : List ℕ) (ncb : Ncb) (p : Packet)
    → IsSender ncb
    → first others ≤ ncb.tcp_write_pending
    → suc (length ncb.tcp_sender_cache) < tcp_maximum_sender_cached_cnt_pre_link
    → (r : Locked) × (try_write_locked others ncb (some p) ≡ some r)
      × (r.retval ≡ pos 0)
      × Serves ncb (ncb.tcp_sender_cache ++ p ∷ []) (first others) r
unfolding try_write_locked
try_write-queues others ncb p v honest room =
    let queued : Ncb = record ncb {
      tcp_sender_list_size = increment ncb.tcp_sender_list_size;
      tcp_sender_cache = ncb.tcp_sender_cache ++ p ∷ [];
    } in
    let (x, rest, q) = append-cons ncb.tcp_sender_cache p in
    let n = length-append {0} ncb.tcp_sender_cache (p ∷ []) in
    let (r, e, z, s) = take_next_lem others queued x rest q (record {
      honest = honest;
      single = v.single;
      counted = omega (arith, n, v.counted, v.bounded);
      bounded = omega (arith, v.counted);
    }) in
    (
      r,
      ground (arith, e, v.counted),
      z,
      record { keeps = s.keeps; busy = s.busy; fifo = s.fifo; inflight = s.inflight },
    )

-- On a consistent sender whose queue would reach 500 packets, tcp_try_write with a packet returns
-- -1, sends nothing, and leaves the control block as it was.
pub try_write-refuses :
    (others : List ℕ) (ncb : Ncb) (p : Packet)
    → IsSender ncb
    → tcp_maximum_sender_cached_cnt_pre_link ≤ suc (length ncb.tcp_sender_cache)
    → try_write_locked others ncb (some p)
      ≡ some (record { retval = minus_one; next_packet = none; ncb = ncb })
unfolding try_write_locked
try_write-refuses others ncb p v full = ground (arith, v.counted, v.bounded)

-- On a consistent sender with a queue that is not empty, tcp_try_write without a packet succeeds:
-- the queue is the packet to send next, if any, followed by the new queue; the sender stays
-- consistent with one packet in flight; and a packet is to be sent exactly as far as completions
-- made room.
pub try_write-next :
    (others : List ℕ) (ncb : Ncb)
    → IsSender ncb
    → first others ≤ ncb.tcp_write_pending
    → ncb.tcp_sender_cache ≢ []
    → (r : Locked) × (try_write_locked others ncb none ≡ some r)
      × (r.retval ≡ pos 0)
      × Serves ncb ncb.tcp_sender_cache (first others) r
unfolding try_write_locked
try_write-next others ncb v honest ne = elim (List-cases ncb.tcp_sender_cache) [
  | inl e ↦ absurd (ne e)
  | inr (x, rest, q) ↦
      let (r, e, z, s) =
        take_next_lem others ncb x rest q (record {
          honest = honest;
          single = v.single;
          counted = v.counted;
          bounded = v.bounded;
        }) in
      (r, ground (arith, e), z, s)
]

pub try_write-empty :
    (others : List ℕ) (ncb : Ncb)
    → ncb.tcp_sender_cache ≡ []
    → try_write_locked others ncb none
      ≡ some (record { retval = minus_one; next_packet = none; ncb = ncb })
unfolding try_write_locked
try_write-empty others ncb e = ground arith
