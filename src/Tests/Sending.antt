-- ===== src/Tests/Sending.antt =====
-- The theorems on the send path at a link with nothing to send.
use swnet_win.Base.{
  ℕ, pos, minus_one, true, inl, inr, ◌≡◌, refl, sym, none, some, [], ◌∷◌, replicate,
  length-replicate, arith,
}
use swnet_win.Types.{Packet, Ncb}
use swnet_win.Tcp.Send.{Locked, claim, take_next, try_write_locked, release_pending}
use swnet_win.Tcp.Send.Fifo.{
  IsSender, Serves, claim_lem, try_write-queues, try_write-refuses, try_write-next,
}
use swnet_win.Tcp.Send.History.{Sender, Step, Reach, IsConsistent, Reach-IsConsistent}
use swnet_win.Tests.{byte_header, open_link, receive_packet}

abbrev quiet : Ncb
quiet = open_link byte_header

-- A packet with an address of its own.
abbrev numbered : ℕ → Packet
numbered n = record receive_packet { self = n }

quiet-IsSender : IsSender quiet
quiet-IsSender = record { counted = refl; bounded = omega arith; single = omega arith }

claim_lem_example : claim (1 ∷ []) 1 ≡ (true, 1)
claim_lem_example = claim_lem (1 ∷ []) 1 (omega arith) (omega arith)

try_write-queues_example :
    (r : Locked) × (try_write_locked [] quiet (some (numbered 1)) ≡ some r)
    × (r.retval ≡ pos 0)
    × Serves quiet (numbered 1 ∷ []) 0 r
try_write-queues_example =
    try_write-queues [] quiet (numbered 1) quiet-IsSender (omega arith) (omega arith)

-- 499 packets wait behind one in flight.
abbrev full : Ncb
full = record quiet {
  tcp_sender_cache = replicate 499 (numbered 2);
  tcp_sender_list_size = 499;
  tcp_write_pending = 1;
}

full-IsSender : IsSender full
full-IsSender = record {
  counted = sym (length-replicate 499 (numbered 2));
  bounded = omega arith;
  single = omega arith;
}

try_write-refuses_example :
    try_write_locked [] full (some (numbered 3))
    ≡ some (record { retval = minus_one; next_packet = none; ncb = full })
try_write-refuses_example =
    try_write-refuses [] full (numbered 3) full-IsSender
      (omega (arith, length-replicate 499 (numbered 2)))

-- One packet waits, and nothing is in flight any more.
abbrev one_waits : Ncb
one_waits = record quiet { tcp_sender_cache = numbered 4 ∷ []; tcp_sender_list_size = 1 }

try_write-next_example :
    (r : Locked) × (try_write_locked [] one_waits none ≡ some r)
    × (r.retval ≡ pos 0)
    × Serves one_waits (numbered 4 ∷ []) 0 r
try_write-next_example =
    try_write-next [] one_waits
      (record { counted = refl; bounded = omega arith; single = omega arith }) (omega arith)
      (λ e. cc)

abbrev started : Sender
started = record { ncb = quiet; resuming = 0; accepted = []; sent = []; completed = 0 }

started-IsConsistent : IsConsistent started
started-IsConsistent = record {
  sender = quiet-IsSender;
  fifo = refl;
  flight = refl;
  live = inr (inl refl);
}

-- The packet 5 is written and sent at once, and completes.
abbrev written : Sender
written = record {
  ncb = record quiet { tcp_write_pending = 1 };
  resuming = 0;
  accepted = numbered 5 ∷ [];
  sent = numbered 5 ∷ [];
  completed = 0;
}

abbrev finished : Sender
finished = record written { ncb = quiet; resuming = 1; completed = 1 }

started-written : Step started written
unfolding try_write_locked take_next claim
started-written =
    Step.write [] (numbered 5)
      (record {
        retval = pos 0;
        next_packet = some (numbered 5);
        ncb = record quiet { tcp_write_pending = 1 };
      })
      (omega arith) refl refl

written-finished : Step written finished
unfolding release_pending
written-finished = Step.complete (omega arith)

Reach-IsConsistent_example : IsConsistent finished
Reach-IsConsistent_example =
    Reach-IsConsistent {s = started} {t = finished} started-IsConsistent
      (Reach.next (Reach.next Reach.here started-written) written-finished)
