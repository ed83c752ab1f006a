-- ===== src/Ledger.antt =====
-- What a history says of the resources: the references of each object, and the packets.
pub mod Held
use swnet_win.Base.{ℕ, suc, ◌+◌, ℤ, eq_ℤ, Bool, true, false, ◌≡◌, List, [], ◌∷◌}
use swnet_win.World.{
  World, Event, referenced, dereferenced, packet_made, packet_freed, posted, block_made,
  block_freed, pages_made, pages_freed,
}

abbrev bump : Bool → ℕ → ℕ
bump true n = suc n
bump false n = n

-- How many references of `h` were taken, and given back.
abbrev pub taken : ℤ → List Event → ℕ
taken h [] = 0
taken h (referenced k ∷ t) = bump (eq_ℤ k h) (taken h t)
taken h (_ ∷ t) = taken h t

abbrev pub given : ℤ → List Event → ℕ
given h [] = 0
given h (dereferenced k ∷ t) = bump (eq_ℤ k h) (given h t)
given h (_ ∷ t) = given h t

-- How many packets were allocated, freed, and handed to the system.
abbrev pub made : List Event → ℕ
made [] = 0
made (packet_made a ∷ t) = suc (made t)
made (_ ∷ t) = made t

abbrev pub freed : List Event → ℕ
freed [] = 0
freed (packet_freed a ∷ t) = suc (freed t)
freed (_ ∷ t) = freed t

abbrev pub in_system : List Event → ℕ
in_system [] = 0
in_system (posted p ∷ t) = suc (in_system t)
in_system (_ ∷ t) = in_system t

-- Blocks of the allocator, packets apart.
abbrev pub blocks_made : List Event → ℕ
blocks_made [] = 0
blocks_made (block_made a ∷ t) = suc (blocks_made t)
blocks_made (_ ∷ t) = blocks_made t

abbrev pub blocks_freed : List Event → ℕ
blocks_freed [] = 0
blocks_freed (block_freed a ∷ t) = suc (blocks_freed t)
blocks_freed (_ ∷ t) = blocks_freed t

-- Pages of VirtualAlloc.
abbrev pub pages_taken : List Event → ℕ
pages_taken [] = 0
pages_taken (pages_made a ∷ t) = suc (pages_taken t)
pages_taken (_ ∷ t) = pages_taken t

abbrev pub pages_given : List Event → ℕ
pages_given [] = 0
pages_given (pages_freed a ∷ t) = suc (pages_given t)
pages_given (_ ∷ t) = pages_given t

-- Each control block knows its handle.
abbrev pub KnowsHandles : World → Type 0
KnowsHandles w = (k : ℤ) → (w.ncbs k).hld ≡ k

-- References of `h` are given back as often as they are taken.
abbrev pub KeepsRefs : ℤ → World → World → Type 0
KeepsRefs h w w' = taken h w'.history + given h w.history ≡ taken h w.history + given h w'.history

-- One more is taken than given back.
abbrev pub TakesRef : ℤ → World → World → Type 0
TakesRef h w w' =
    taken h w'.history + given h w.history ≡ suc (taken h w.history + given h w'.history)

-- As many blocks are freed as are made.
abbrev pub KeepsBlocks : World → World → Type 0
KeepsBlocks w w' =
    blocks_made w'.history + blocks_freed w.history
    ≡ blocks_made w.history + blocks_freed w'.history
