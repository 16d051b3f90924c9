-- ===== src/Tx/BlockPool.antt =====
-- include/SoapySidekiq/TxBlockPool.hpp: the construction of the pool of transmit blocks.
pub mod Balance
use soapy_sidekiq.Base.{
  ℕ, zero, suc, ◌==◌, ◌||◌, List, [], ◌∷◌, ◌++◌, if◌then◌else◌, Outcome, ok, throw,
  invalid_argument, bad_alloc,
}

-- One round of the loop: the allocator returns null, or a block, whose shared owner is then made or not.
pub data Allocation : Type 0 where
  no_block : Allocation
  block : ℕ → Allocation
  block_without_owner : ℕ → Allocation

-- How a construction ends, and the blocks that it has released. The blocks of a pool are in order.
pub record Built : Type 0 where
  pub outcome : Outcome (List ℕ)
  pub released : List ℕ

-- What unwinding does: the vector of the owners is destroyed, and with it each block that it holds.
abbrev pub unwound : List ℕ → List ℕ → Built
unwound owned loose = record { outcome = throw bad_alloc; released = loose ++ owned }

-- The loop, with the owners so far. Where the answers of the allocator end early, it has none left.
unfoldable pub allocate_blocks : ℕ → List Allocation → List ℕ → Built
allocate_blocks zero answers owned = record { outcome = ok owned; released = [] }
allocate_blocks (suc n) [] owned = unwound owned []
allocate_blocks (suc n) (no_block ∷ answers) owned = unwound owned []
allocate_blocks (suc n) (block b ∷ answers) owned = allocate_blocks n answers (owned ++ (b ∷ []))
allocate_blocks (suc n) (block_without_owner b ∷ answers) owned = unwound owned (b ∷ [])

-- The constructor.
unfoldable pub build_pool : ℕ → ℕ → List Allocation → Built
build_pool count samples answers =
    if count == 0 || samples == 0
    then record { outcome = throw invalid_argument; released = [] }
    else allocate_blocks count answers []
