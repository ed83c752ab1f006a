-- ===== src/Tests/Links.antt =====
-- The theorems on UDP links, pipes, contexts and the IO threads, at concrete runs.
use swnet_win.Base.{
  ℕ, ◌≤◌, ℤ, pos, negsuc, minus_one, true, false, ◌≡◌, refl, ◌⊎◌, inr, none, some, List, [], ◌∷◌,
  ◌++◌, length, length-replicate, replicate, arith,
}
use swnet_win.Types.{proto_tcp, proto_udp, send}
use swnet_win.World.{
  ◌>>=◌, ◌>>◌, when◌then◌else◌, on_option, Env, World, Event, Syscall, send_to, virtual_commit,
  virtual_lock, called, wsa_cleanup,
}
use swnet_win.Ledger.{KeepsRefs, TakesRef}
use swnet_win.Udp.Tx.{udp_tx_single_packet, udp_write}
use swnet_win.Udp.Tx.Wire.{TakesAtMost, Settles, Sent, udp_tx_single_packet-Sent}
use swnet_win.Udp.Tx.Bounds.{Asked, udp_tx_single_packet-Asks}
use swnet_win.Udp.Tx.Write.{Sized, Ends, udp_write-Written}
use swnet_win.Udp.Group.{Item, udp_initialize_grp, udp_raise_grp, udp_detach_grp, udp_write_grp}
use swnet_win.Udp.Group.Blocks.{Initialized, udp_initialize_grp-Initialized}
use swnet_win.Udp.Group.Peer.{Raised, asked, udp_raise_grp-Raised}
use swnet_win.Udp.Object.{udp_create}
use swnet_win.Udp.References.{udp_create-KeepsRefs, udp_grp-KeepsRefs}
use swnet_win.Io.{Atomic, IoState}
use swnet_win.Pipe.{awaken}
use swnet_win.Network.{Sockets, Completion, so_init, so_uninit, so_dispatch_pipe_event, iorun}
use swnet_win.Network.Startup.{start, init, IsUdpOnly, unstarted, Reach-IsUdpOnly, so_uninit-cleans}
use swnet_win.Network.References.{AreCounted, iorun-KeepsRefs}
use swnet_win.Network.Pipes.{pipe-TakesRef}
use swnet_win.Mxx.{nis_setctx, clear_ctx, renew_ctx, nis_getctx, nis_cntl, ni_getctx}
use swnet_win.Mxx.Context.{IsContext, nis_getctx-nis_setctx}
use swnet_win.Mxx.References.{nis_cntl-KeepsRefs}
use swnet_win.Os.{os_lock_virtual_pages}
use swnet_win.Os.Loop.{locks, Suffices, Commits}
use swnet_win.Os.Pages.{Locked, os_lock_virtual_pages-Locked}
use swnet_win.Arp.{arp_create, arp_nrequest}
use swnet_win.Arp.References.{arp-KeepsRefs}
use swnet_win.Tests.{receive_packet}
use swnet_win.Tests.Resources.{willing, willing-Allocates, world, world-KnowsHandles}

-- sendto takes two bytes at a time, and malloc gives what it is asked for.
abbrev by_two : List ℕ → ℕ
by_two [] = 0
by_two (x ∷ []) = 1
by_two (x ∷ y ∷ t) = 2

abbrev answer : Syscall → ℤ
answer (send_to bytes) = pos (by_two bytes)
answer _ = pos 0

abbrev sending : Env
sending = record willing {
  system = λ t c. answer c;
  malloc = λ t n. some (record { address = 1000; bytes = replicate n 0 });
}

by_two_lem : (bytes : List ℕ) → by_two bytes ≤ length bytes
by_two_lem [] = omega arith
by_two_lem (x ∷ []) = omega arith
by_two_lem (x ∷ y ∷ t) = omega arith

sending-TakesAtMost : TakesAtMost sending
sending-TakesAtMost t bytes n e = let l = by_two_lem bytes in ground (arith, e, l)

sending-Settles : Settles sending 0
sending-Settles t e = absurd (ground (arith, e))

sending-Sized : Sized sending
sending-Sized t n b e = let l = length-replicate {A = ℕ} n 0 in ground (arith, e, l)

abbrev message : List ℕ
message = 1 ∷ 2 ∷ 3 ∷ 4 ∷ 5 ∷ []

udp_tx_single_packet-Sent_example :
    Sent 5 message [] (udp_tx_single_packet 9 message 5 sending world)
udp_tx_single_packet-Sent_example =
    udp_tx_single_packet-Sent sending 0 sending-TakesAtMost sending-Settles message 5 (omega arith)
      9 world (omega arith)

udp_tx_single_packet-Asks_example :
    Asked message world (udp_tx_single_packet 9 (message ++ 6 ∷ []) 5 sending world).1
udp_tx_single_packet-Asks_example =
    udp_tx_single_packet-Asks sending (message ++ 6 ∷ []) 5 (omega arith) 9 world

udp_write-Written_example :
    Ends sending
      (pos 7)
      (pos 7)
      5
      message
      (pos 5)
      true
      80
      world
      (udp_write 9 (pos 7) message (pos 5) true 80 none sending world)
udp_write-Written_example =
    udp_write-Written sending 0 sending-TakesAtMost sending-Settles sending-Sized 9 (pos 7) message
      5 (omega arith) (omega arith) world (pos 7) (pos 5) true 80 refl

-- A world whose links are UDP links that have a peer.
abbrev udp_world : World
udp_world = record {
  ncbs = λ h. record (world.ncbs h) { proto_type = proto_udp; connected = 3 };
  history = [];
}

abbrev group : List Item
group = record { block = none; length = 100 } ∷ record { block = none; length = 200 } ∷ []

udp_initialize_grp-Initialized_example :
    Initialized sending udp_world group (udp_initialize_grp (pos 7) (some group) sending udp_world)
udp_initialize_grp-Initialized_example =
    udp_initialize_grp-Initialized sending udp_world (pos 7) group (refl, (refl, tt))

udp_raise_grp-Raised_example :
    Raised
      (pos 7)
      (asked willing (λ p. p) (pos 7) 80 udp_world)
      udp_world
      (udp_raise_grp (λ p. p) (λ a. a) (pos 7) 80 willing udp_world)
udp_raise_grp-Raised_example = udp_raise_grp-Raised willing (λ p. p) (λ a. a) (pos 7) 80 udp_world

udp_create-KeepsRefs_example :
    KeepsRefs (pos 8) world (udp_create (λ p. p) (λ p. p) true true false 80 1 willing world).1
udp_create-KeepsRefs_example =
    udp_create-KeepsRefs willing world (pos 8) willing-Allocates world-KnowsHandles (λ p. p)
      (λ p. p) true true false 80 1

udp_grp-KeepsRefs_example :
    KeepsRefs (pos 7) world (udp_initialize_grp (pos 7) (some group) willing world).1
    × KeepsRefs (pos 7) world (udp_raise_grp (λ p. p) (λ a. a) (pos 7) 80 willing world).1
    × KeepsRefs (pos 7) world (udp_detach_grp (pos 7) willing world).1
    × KeepsRefs (pos 7) world (udp_write_grp false (pos 7) (some group) willing world).1
udp_grp-KeepsRefs_example =
    udp_grp-KeepsRefs willing world (pos 7) world-KnowsHandles (pos 7) (some group) (λ p. p)
      (λ a. a) 80 false

-- A datagram that arrived, and a packet of a TCP link that was sent.
abbrev completions : List Completion
completions =
    record {
      successful = true;
      ovlp = some (record receive_packet { proto_type = proto_udp });
      bytes_transfered = 10;
      status = 0;
    }
    ∷ record {
      successful = false;
      ovlp = some (record receive_packet { type = send });
      bytes_transfered = 0;
      status = 0xC000013C;
    }
    ∷ []

completions-AreCounted : AreCounted completions
completions-AreCounted = (
  (λ p e. ((λ q. ground (arith, e, q)), (λ q r. ground (arith, e, q)))),
  ((λ p e. ((λ q. ground (arith, e, q)), (λ q r. ground (arith, e, r)))), tt),
)

iorun-KeepsRefs_example :
    KeepsRefs (pos 7) world (iorun true false (λ a. a) (λ a. a) completions willing world).1
iorun-KeepsRefs_example =
    iorun-KeepsRefs willing willing-Allocates true false (λ a. a) (λ a. a) completions world (pos 7)
      completions-AreCounted world-KnowsHandles

-- The first caller starts, and the last one stops.
abbrev atomic : Atomic
atomic = record {
  initial_try = λ s. (true, pos 1);
  initial_exception = λ s. negsuc 0;
  initial_complete = λ s. pos 2;
  initial_regress = λ s. (true, pos 0);
}

abbrev io : IoState
io = record { inited = pos 0; epmgr = record { epos = none; divisions = 0 }; block = none }

abbrev tcp_started : (ℤ × Sockets) × World
tcp_started = so_init atomic proto_tcp (unstarted io) willing world

Reach-IsUdpOnly_example : IsUdpOnly tcp_started.0.1
Reach-IsUdpOnly_example =
    Reach-IsUdpOnly willing atomic tcp_started.0.1 tcp_started.1 (init proto_tcp (start io world))

so_uninit-cleans_example :
    (t : List Event) × ((so_uninit atomic proto_udp tcp_started.0.1 willing tcp_started.1).1.history
      ≡ called wsa_cleanup ∷ t)
so_uninit-cleans_example =
    so_uninit-cleans willing atomic tcp_started.0.1 tcp_started.1 (init proto_tcp (start io world))

pipe-TakesRef_example :
    TakesRef (pos 7) world (awaken io.epmgr (pos 7) (some message) (pos 5) willing world).1
    × TakesRef (pos 7) world (so_dispatch_pipe_event receive_packet willing world).1
pipe-TakesRef_example =
    pipe-TakesRef willing world world-KnowsHandles io.epmgr (some message) (pos 5) receive_packet
      refl

-- A world whose links have a context of two bytes.
abbrev with_contexts : World
with_contexts = record {
  ncbs = λ h. record (world.ncbs h) {
    ncb_ctx = some (record { address = 70; bytes = 8 ∷ 9 ∷ [] });
    ncb_ctx_size = 2;
  };
  history = [];
}

nis_getctx-nis_setctx_example :
    let r = nis_setctx (pos 7) (some message) 5 sending with_contexts in
    let g = nis_getctx (pos 7) true sending r.1 in
    ((r.0 ≡ some (pos 0))
      × IsContext (pos 7) r.1
      × (((true ≡ false) × (g.0 ≡ some none)) ⊎ (g.0 ≡ some (some (some message, 5)))))
    ⊎ ((r.0 ≡ some minus_one) × ((true ≡ false) ⊎ ((t : List Event) × (sending.malloc t 5 ≡ none))))
nis_getctx-nis_setctx_example =
    nis_getctx-nis_setctx sending (pos 7) message 5 refl (omega arith) with_contexts sending-Sized
      (inr (_, refl, refl, refl))

-- A context that is set after it was cleared: the block is freed again.
set_after_clear :
    (nis_setctx
      (pos 7)
      (some message)
      5
      sending
      (nis_setctx (pos 7) none 0 sending with_contexts).1).0
    ≡ none
unfolding nis_setctx clear_ctx renew_ctx ◌>>=◌ ◌>>◌ when◌then◌else◌ on_option
set_after_clear = refl

nis_cntl-KeepsRefs_example :
    KeepsRefs (pos 7) world (nis_cntl none (pos 7) ni_getctx willing world).1
nis_cntl-KeepsRefs_example =
    nis_cntl-KeepsRefs willing world (pos 7) none (pos 7) ni_getctx world-KnowsHandles
      (λ e. ground (arith, e))

-- The system keeps the addresses that it commits, and locks pages once they are committed.
abbrev committing : List Event → Syscall → ℤ
committing t (virtual_commit memory) = pos memory
committing t (virtual_lock memory) = pos (locks t)
committing t _ = pos 5

abbrev strict : Env
strict = record willing { system = committing; last_error = λ t. 998 }

strict-Suffices : Suffices strict 0
strict-Suffices t e = absurd (ground (arith, e))

strict-Commits : Commits strict
strict-Commits t memory = inr (inr refl)

os_lock_virtual_pages-Locked_example :
    Locked strict 4096 world (os_lock_virtual_pages 3 0 4096 strict world)
os_lock_virtual_pages-Locked_example =
    os_lock_virtual_pages-Locked strict 0 strict-Suffices strict-Commits 3 4096 world (omega arith)

arp-KeepsRefs_example :
    KeepsRefs (pos 8) world (arp_create true 1 [] willing world).1
    × KeepsRefs
        (pos 8)
        world
        (arp_nrequest (λ a. a) (λ a. a) (λ r. r) message (pos 8) 2 willing world).1
arp-KeepsRefs_example =
    arp-KeepsRefs willing world (pos 8) willing-Allocates world-KnowsHandles true 1 [] (λ a. a)
      (λ a. a) (λ r. r) message (pos 8) 2
