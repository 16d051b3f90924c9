-- ===== src/RxQueue/Blocks.antt =====
-- The samples that a queue holds, and the invariant of its blocks.
use soapy_sidekiq.Base.{
  ℕ, ◌*◌, ◌/◌, ◌%◌, ◌≤◌, ◌<◌, ◌≡◌, List, [], ◌∷◌, ◌++◌, length, length-append, length-drop, drop,
  arith, append_assoc, refl, ap, sym, ◌∙◌,
}
use soapy_sidekiq.Base.Words.{IsU64}
use soapy_sidekiq.RxQueue.{Block, Queue}

-- A block holds complete pairs, has an unread one, and its vector's size is a word.
pub record IsBlock (b : Block) : Type 0 where
  pub pairs : length b.samples % 2 ≡ 0
  pub unread_pair : b.offset < length b.samples / 2
  pub word : IsU64 (length b.samples)

abbrev pub AreBlocks : List Block → Type 0
AreBlocks [] = Unit {0}
AreBlocks (b ∷ bs) = IsBlock b × AreBlocks bs

abbrev pub unread : Block → List ℕ
unread b = drop (b.offset * 2) b.samples

-- All unread samples, oldest first.
abbrev pub pending : List Block → List ℕ
pending [] = []
pending (b ∷ bs) = unread b ++ pending bs

pub record IsValid (q : Queue) : Type 0 where
  pub capacity_positive : 0 < q.capacity_blocks
  pub bounded : length q.blocks ≤ q.capacity_blocks
  pub blocks_valid : AreBlocks q.blocks

pub pending-append : (bs cs : List Block) → pending (bs ++ cs) ≡ pending bs ++ pending cs
pending-append [] cs = refl
pending-append (b ∷ bs) cs =
    ap (◌++◌ (unread b)) (pending-append bs cs)
    ∙ sym (append_assoc (unread b) (pending bs) (pending cs))

pub AreBlocks-append : (bs cs : List Block) → AreBlocks bs → AreBlocks cs → AreBlocks (bs ++ cs)
AreBlocks-append [] cs h k = k
AreBlocks-append (b ∷ bs) cs h k = (h.0, AreBlocks-append bs cs h.1 k)

pub pending-pairs : (bs : List Block) → AreBlocks bs → length (pending bs) % 2 ≡ 0
pending-pairs [] v = refl
pending-pairs (b ∷ bs) v = omega (
  arith,
  length-append (unread b) (pending bs),
  length-drop (b.offset * 2) b.samples,
  pending-pairs bs v.1,
  v.0.pairs,
  v.0.unread_pair,
)
