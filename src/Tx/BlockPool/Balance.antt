-- ===== src/Tx/BlockPool/Balance.antt =====
-- Every block that was allocated is in the pool or released.
use soapy_sidekiq.Base.{
  ℕ, zero, suc, ◌+◌, ◌≤◌, ◌≡◌, ◌==◌, ◌||◌, refl, Bool-cases, inl, inr, arith, List, [], ◌∷◌, ◌++◌,
  length, length-append, Outcome, ok, throw,
}
use soapy_sidekiq.Tx.BlockPool.{
  Allocation, no_block, block, block_without_owner, allocate_blocks, build_pool,
}
use soapy_sidekiq.Tx.Slots.{occurs}

-- The blocks that the allocator hands out in the rounds that take place.
unfoldable pub handed_out : ℕ → List Allocation → List ℕ
handed_out zero answers = []
handed_out (suc n) [] = []
handed_out (suc n) (no_block ∷ answers) = []
handed_out (suc n) (block b ∷ answers) = b ∷ handed_out n answers
handed_out (suc n) (block_without_owner b ∷ answers) = b ∷ []

abbrev pub pooled : Outcome (List ℕ) → List ℕ
pooled (ok blocks) = blocks
pooled (throw e) = []

-- A pool of `count` blocks, or none.
abbrev pub IsWhole : ℕ → Outcome (List ℕ) → List ℕ → Type 0
IsWhole count (ok blocks) released = (length blocks ≡ count) × (released ≡ [])
IsWhole count (throw e) released = Unit

occurs-append : (k : ℕ) (xs ys : List ℕ) → occurs k (xs ++ ys) ≡ occurs k xs + occurs k ys
unfolding occurs
occurs-append k [] ys = omega arith
occurs-append k (x ∷ xs) ys = omega (arith, occurs-append k xs ys)

allocate_blocks-occurs :
    (n : ℕ) (answers : List Allocation) (owned : List ℕ) (k : ℕ)
    → occurs k (pooled (allocate_blocks n answers owned).outcome)
        + occurs k (allocate_blocks n answers owned).released
      ≡ occurs k owned + occurs k (handed_out n answers)
unfolding allocate_blocks handed_out occurs
allocate_blocks-occurs zero answers owned k = omega arith
allocate_blocks-occurs (suc n) [] owned k = omega arith
allocate_blocks-occurs (suc n) (no_block ∷ answers) owned k = omega arith
allocate_blocks-occurs (suc n) (block b ∷ answers) owned k =
    omega (
      arith,
      allocate_blocks-occurs n answers (owned ++ (b ∷ [])) k,
      occurs-append k owned (b ∷ []),
    )
allocate_blocks-occurs (suc n) (block_without_owner b ∷ answers) owned k = omega arith

allocate_blocks-IsWhole :
    (n count : ℕ) (answers : List Allocation) (owned : List ℕ)
    → length owned + n ≡ count
    → IsWhole count
        (allocate_blocks n answers owned).outcome
        (allocate_blocks n answers owned).released
unfolding allocate_blocks
allocate_blocks-IsWhole zero count answers owned h = (omega arith, refl)
allocate_blocks-IsWhole (suc n) count [] owned h = tt
allocate_blocks-IsWhole (suc n) count (no_block ∷ answers) owned h = tt
allocate_blocks-IsWhole (suc n) count (block b ∷ answers) owned h =
    allocate_blocks-IsWhole n count answers (owned ++ (b ∷ []))
      (omega (arith, length-append owned (b ∷ [])))
allocate_blocks-IsWhole (suc n) count (block_without_owner b ∷ answers) owned h = tt

-- However the allocator answers and whichever owner cannot be made, a pool of a positive number of blocks of
-- a positive size is built whole, with as many blocks as were asked for and none released, or its
-- construction throws; and each block that was handed out is, as often as it was, in the pool or released,
-- so that a failed construction has released them all.
pub build_pool_balanced :
    (count samples : ℕ) (answers : List Allocation)
    → 1 ≤ count
    → 1 ≤ samples
    → IsWhole count
        (build_pool count samples answers).outcome
        (build_pool count samples answers).released
      × ((b : ℕ)
          → occurs b (pooled (build_pool count samples answers).outcome)
              + occurs b (build_pool count samples answers).released
            ≡ occurs b (handed_out count answers))
unfolding build_pool occurs
build_pool_balanced count samples answers c s = elim (Bool-cases (count == 0 || samples == 0)) [
  | inl z ↦ absurd (ground arith)
  | inr p ↦ simp p (allocate_blocks-IsWhole count count answers [] (omega arith), λ b. balanced b)
]
  where
    balanced :
        (b : ℕ)
        → occurs b (pooled (allocate_blocks count answers []).outcome)
            + occurs b (allocate_blocks count answers []).released
          ≡ occurs b (handed_out count answers)
    balanced b = omega (arith, allocate_blocks-occurs count answers [] b)
