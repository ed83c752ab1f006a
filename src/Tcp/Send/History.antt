-- ===== src/Tcp/Send/History.antt =====
-- The sender of one link under any interleaving of its threads. A thread takes the critical section
-- of tcp_try_write as one step, and a completion is two steps: the decrement, which takes no lock,
-- and the call of tcp_try_write with no packet.
use swnet_win.Base.{
  ℕ, suc, ◌+◌, ◌-◌, ◌≤◌, ◌<◌, is_neg, true, false, inl, inr, ◌⊎◌, ◌≡◌, refl, sym, ap, subst, ◌∙◌,
  Option, none, some, List, [], ◌∷◌, ◌++◌, append_assoc, length, length-append, arith,
}
use swnet_win.Types.{Packet, Ncb}
use swnet_win.Tcp.Send.{
  Locked, try_write_locked, release_pending, tcp_maximum_sender_cached_cnt_pre_link,
}
use swnet_win.Tcp.Send.Fifo.{
  IsSender, Serves, first, next_list, try_write-queues, try_write-refuses, try_write-next,
  try_write-empty, List-cases,
}

-- The link, the threads between the two steps of a completion, the packets that tcp_try_write
-- accepted, those that went to the system, and how many of these completed.
pub record Sender : Type 0 where
  pub ncb : Ncb
  pub resuming : ℕ
  pub accepted : List Packet
  pub sent : List Packet
  pub completed : ℕ

pub data Step (s : Sender) : Sender → Type 0 where
  -- tcp_write queues a packet; meanwhile other threads decrement.
  write :
      (others : List ℕ) (p : Packet) (r : Locked)
      → first others ≤ s.ncb.tcp_write_pending
      → try_write_locked others s.ncb (some p) ≡ some r
      → is_neg r.retval ≡ false
      → Step s (record {
        ncb = r.ncb;
        resuming = s.resuming + first others;
        accepted = s.accepted ++ p ∷ [];
        sent = s.sent ++ next_list r.next_packet;
        completed = s.completed + first others;
      })
  -- tcp_write is refused a packet.
  refuse :
      (others : List ℕ) (p : Packet) (r : Locked)
      → first others ≤ s.ncb.tcp_write_pending
      → try_write_locked others s.ncb (some p) ≡ some r
      → is_neg r.retval ≡ true
      → Step s (record s { ncb = r.ncb })
  -- a packet in flight completes
  complete :
      0 < s.ncb.tcp_write_pending
      → Step s (record s {
        ncb = release_pending s.ncb;
        resuming = s.resuming + 1;
        completed = s.completed + 1;
      })
  -- the completing thread looks for the next packet
  resume :
      (others : List ℕ) (r : Locked)
      → 0 < s.resuming
      → first others ≤ s.ncb.tcp_write_pending
      → try_write_locked others s.ncb none ≡ some r
      → is_neg r.retval ≡ false
      → Step s (record s {
        ncb = r.ncb;
        resuming = s.resuming + first others - 1;
        sent = s.sent ++ next_list r.next_packet;
        completed = s.completed + first others;
      })
  -- and finds none
  rest :
      (others : List ℕ) (r : Locked)
      → 0 < s.resuming
      → first others ≤ s.ncb.tcp_write_pending
      → try_write_locked others s.ncb none ≡ some r
      → is_neg r.retval ≡ true
      → Step s (record s { ncb = r.ncb; resuming = s.resuming - 1 })

pub data Reach (s : Sender) : Sender → Type 0 where
  here : Reach s s
  next : {t u : Sender} → Reach s t → Step t u → Reach s u

-- First in, first out; one packet in flight at most; and packets wait only behind one in flight or
-- a thread that will look for them.
pub record IsConsistent (s : Sender) : Type 0 where
  pub sender : IsSender s.ncb
  pub fifo : s.accepted ≡ s.sent ++ s.ncb.tcp_sender_cache
  pub flight : length s.sent ≡ s.completed + s.ncb.tcp_write_pending
  pub live : (s.ncb.tcp_write_pending ≡ 1) ⊎ ((s.ncb.tcp_sender_cache ≡ []) ⊎ (0 < s.resuming))

-- A critical section that serves the queue keeps the history consistent.
serve :
    (s : Sender) (q : List Packet) (d n : ℕ) (accepted : List Packet) (r : Locked)
    → IsConsistent s
    → accepted ≡ s.sent ++ q
    → Serves s.ncb q d r
    → IsConsistent (record {
      ncb = r.ncb;
      resuming = n;
      accepted = accepted;
      sent = s.sent ++ next_list r.next_packet;
      completed = s.completed + d;
    })
serve s q d n accepted r v e served = record {
  sender = served.keeps;
  fifo =
      e
      ∙ (ap (λ t. s.sent ++ t) served.fifo
          ∙ sym (append_assoc s.sent (next_list r.next_packet) r.ncb.tcp_sender_cache));
  flight =
      omega (arith, length-append {0} s.sent (next_list r.next_packet), v.flight, served.inflight);
  live = inl served.busy;
}

room-cases :
    (n : ℕ)
    → (suc n < tcp_maximum_sender_cached_cnt_pre_link)
      ⊎ (tcp_maximum_sender_cached_cnt_pre_link ≤ suc n)
room-cases n = grind arith

same : {a : Option Locked} {r q : Locked} → a ≡ some r → a ≡ some q → q ≡ r
same e f = cc

-- The only results of a critical section with a packet, by the room in the queue.
write-Step :
    (s : Sender) (others : List ℕ) (p : Packet) (r : Locked)
    → IsConsistent s
    → first others ≤ s.ncb.tcp_write_pending
    → try_write_locked others s.ncb (some p) ≡ some r
    → ((is_neg r.retval ≡ false) × Serves s.ncb (s.ncb.tcp_sender_cache ++ p ∷ []) (first others) r)
      ⊎ (is_neg r.retval ≡ true)
write-Step s others p r v honest e = elim (room-cases (length s.ncb.tcp_sender_cache)) [
  | inl room ↦
      let (q, e', z, served) = try_write-queues others s.ncb p v.sender honest room in
      let eq : q ≡ r = same e e' in
      inl (
        subst (λ x. is_neg x.retval ≡ false) eq (ap is_neg z),
        subst (λ x. Serves s.ncb (s.ncb.tcp_sender_cache ++ p ∷ []) (first others) x) eq served,
      )
  | inr full ↦ inr (
      subst (λ (x : Locked). is_neg x.retval ≡ true)
        (same e (try_write-refuses others s.ncb p v.sender full)) refl)
]

-- A refused packet changes nothing.
refuse-Step :
    (s : Sender) (others : List ℕ) (p : Packet) (r : Locked)
    → IsConsistent s
    → first others ≤ s.ncb.tcp_write_pending
    → try_write_locked others s.ncb (some p) ≡ some r
    → is_neg r.retval ≡ true
    → r.ncb ≡ s.ncb
refuse-Step s others p r v honest e bad = elim (room-cases (length s.ncb.tcp_sender_cache)) [
  | inl room ↦
      let (q, e', z, served) = try_write-queues others s.ncb p v.sender honest room in
      let fine = subst (λ x. is_neg x.retval ≡ false) (same e e') (ap is_neg z) in absurd (cc)
  | inr full ↦ ap (λ x. x.ncb) (sym (same e (try_write-refuses others s.ncb p v.sender full)))
]

next-Step :
    (s : Sender) (others : List ℕ) (r : Locked)
    → IsConsistent s
    → first others ≤ s.ncb.tcp_write_pending
    → try_write_locked others s.ncb none ≡ some r
    → is_neg r.retval ≡ false
    → Serves s.ncb s.ncb.tcp_sender_cache (first others) r
next-Step s others r v honest e ok = elim (List-cases s.ncb.tcp_sender_cache) [
  | inl none_left ↦
      let f = same e (try_write-empty others s.ncb none_left) in
      let neg : is_neg r.retval ≡ true = subst (λ (x : Locked). is_neg x.retval ≡ true) f refl in
      absurd (cc)
  | inr (x, tail, q) ↦
      let (r', e', z, served) = try_write-next others s.ncb v.sender honest (ground arith) in
      subst (Serves s.ncb s.ncb.tcp_sender_cache (first others)) (same e e') served
]

rest-Step :
    (s : Sender) (others : List ℕ) (r : Locked)
    → IsConsistent s
    → first others ≤ s.ncb.tcp_write_pending
    → try_write_locked others s.ncb none ≡ some r
    → is_neg r.retval ≡ true
    → (s.ncb.tcp_sender_cache ≡ []) × (r.ncb ≡ s.ncb)
rest-Step s others r v honest e bad = elim (List-cases s.ncb.tcp_sender_cache) [
  | inl none_left ↦
      (none_left, ap (λ x. x.ncb) (sym (same e (try_write-empty others s.ncb none_left))))
  | inr (x, tail, q) ↦
      let (r', e', z, served) = try_write-next others s.ncb v.sender honest (ground arith) in
      let fine = subst (λ x. is_neg x.retval ≡ false) (same e e') (ap is_neg z) in absurd (cc)
]

pub Step-IsConsistent : {s t : Sender} → Step s t → IsConsistent s → IsConsistent t
unfolding release_pending
Step-IsConsistent {s} (write others p r honest e ok) v = elim (write-Step s others p r v honest e) [
  | inl (_, served) ↦
      serve s (s.ncb.tcp_sender_cache ++ p ∷ []) (first others) _ _ r v
        (ap (λ t. t ++ p ∷ []) v.fifo ∙ append_assoc s.sent s.ncb.tcp_sender_cache (p ∷ [])) served
  | inr bad ↦ absurd (cc)
]
Step-IsConsistent {s} (refuse others p r honest e bad) v =
    rw (refuse-Step s others p r v honest e bad) v
Step-IsConsistent {s} (complete h) v = record {
  sender = record {
    counted = v.sender.counted;
    bounded = v.sender.bounded;
    single = omega (arith, v.sender.single);
  };
  fifo = v.fifo;
  flight = omega (arith, v.flight, v.sender.single);
  live = inr (inr (omega arith));
}
Step-IsConsistent {s} (resume others r h honest e ok) v =
    serve s s.ncb.tcp_sender_cache (first others) _ s.accepted r v v.fifo
      (next-Step s others r v honest e ok)
Step-IsConsistent {s} (rest others r h honest e bad) v =
    let (empty, same_ncb) = rest-Step s others r v honest e bad in
    rw same_ncb
      (record { sender = v.sender; fifo = v.fifo; flight = v.flight; live = inr (inl empty) })

-- Whatever writes, completions and searches for the next packet the threads of a link make, in any
-- order: the packets accepted are those sent followed by those queued, in order; the counter is the
-- length of the queue and below 500; at most one packet is in flight, and it accounts for each
-- packet sent that has not completed; and packets wait only while one is in flight or a thread is
-- still to look for them.
pub Reach-IsConsistent : {s t : Sender} → IsConsistent s → Reach s t → IsConsistent t
Reach-IsConsistent v here = v
Reach-IsConsistent v (next r st) = Step-IsConsistent st (Reach-IsConsistent v r)
