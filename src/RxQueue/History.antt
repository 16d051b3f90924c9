-- ===== src/RxQueue/History.antt =====
-- Whatever threads do to the queue, in any order: its invariant, and where each sample goes.
use soapy_sidekiq.Base.{
  ℕ, ◌+◌, ◌≤◌, ◌<◌, ◌≡◌, refl, sym, ap, ◌∙◌, true, false, not, ◌&&◌, Bool, Bool-cases, inl, inr,
  List, [], ◌∷◌, ◌++◌, append_assoc, append-nil, ◌*◌, length, length-append, arith, Option, none,
  some, ◌==◌, ==_iff, take-append-drop, if◌then◌else◌,
}
use soapy_sidekiq.Base.Words.{IsU64, add64}
use soapy_sidekiq.RxQueue.{Block, Queue, start, stop, fail, reset, pop_front, enqueue}
use soapy_sidekiq.RxQueue.Blocks.{
  IsBlock, AreBlocks, IsValid, unread, pending, pending-append, AreBlocks-append,
}
use soapy_sidekiq.RxQueue.Reading.{
  Call, starts, stops, fails, resets, pushes, takes, Copy, copy_blocks, remaining, interfere,
  interferes,
}
use soapy_sidekiq.RxQueue.Reading.Fifo.{Copied, copy_blocks-Copied}

-- The calls that the types of C++ and the checks of `pushWithPhase` allow.
abbrev pub IsCall : Call → Type 0
IsCall starts = Unit {0}
IsCall stops = Unit {0}
IsCall fails = Unit {0}
IsCall resets = Unit {0}
IsCall (pushes block) = IsBlock block
IsCall (takes requested) = IsU64 requested

abbrev pub AreCalls : List Call → Type 0
AreCalls [] = Unit {0}
AreCalls (c ∷ cs) = IsCall c × AreCalls cs

length-pop_front : (bs : List Block) → length (pop_front bs) ≤ length bs
unfolding pop_front
length-pop_front [] = omega arith
length-pop_front (b ∷ bs) = omega arith

pop_front_shorter : (bs : List Block) → 0 < length bs → length (pop_front bs) + 1 ≡ length bs
unfolding pop_front
pop_front_shorter [] h = absurd (omega arith)
pop_front_shorter (b ∷ bs) h = omega arith

pop_front-AreBlocks : (bs : List Block) → AreBlocks bs → AreBlocks (pop_front bs)
unfolding pop_front
pop_front-AreBlocks [] v = tt
pop_front-AreBlocks (b ∷ bs) v = v.1

abbrev pub accepting : Queue → Bool
accepting q = q.running && not q.failed

abbrev pub full : Queue → Bool
full q = length q.blocks == q.capacity_blocks

-- The queue that a push leaves, by its two tests.
enqueue_stopped : (q : Queue) (b : Block) → accepting q ≡ false → (enqueue q b).1 ≡ q
unfolding enqueue
enqueue_stopped q b h = ground arith

enqueue_displaces :
    (q : Queue) (b : Block)
    → accepting q ≡ true
    → full q ≡ true
    → (enqueue q b).1 ≡ record q {
      blocks = pop_front q.blocks ++ (b ∷ []);
      dropped_blocks = add64 q.dropped_blocks 1;
    }
unfolding enqueue
enqueue_displaces q b h k = ground arith

enqueue_appends :
    (q : Queue) (b : Block)
    → accepting q ≡ true
    → full q ≡ false
    → (enqueue q b).1 ≡ record q { blocks = q.blocks ++ (b ∷ []) }
unfolding enqueue
enqueue_appends q b h k = ground arith

pub enqueue-IsValid : (q : Queue) (b : Block) → IsBlock b → IsValid q → IsValid (enqueue q b).1
enqueue-IsValid q b hb v = elim (Bool-cases (accepting q)) [
  | inl h ↦ elim (Bool-cases (full q)) [
    | inl k ↦ rw (enqueue_displaces q b h k) (record {
      capacity_positive = v.capacity_positive;
      bounded = omega (
        arith,
        length-append (pop_front q.blocks) (b ∷ []),
        pop_front_shorter q.blocks,
        (==_iff _ _).0 k,
      );
      blocks_valid =
          AreBlocks-append (pop_front q.blocks) (b ∷ [])
            (pop_front-AreBlocks q.blocks v.blocks_valid) (hb, tt);
    })
    | inr k ↦ rw (enqueue_appends q b h k) (record {
      capacity_positive = v.capacity_positive;
      bounded = ground (arith, length-append q.blocks (b ∷ []));
      blocks_valid = AreBlocks-append q.blocks (b ∷ []) v.blocks_valid (hb, tt);
    })
  ]
  | inr h ↦ rw (enqueue_stopped q b h) v
]

-- No call breaks the invariant.
pub interfere-IsValid : (c : Call) (q : Queue) → IsCall c → IsValid q → IsValid (interfere c q)
unfolding interfere start stop fail reset
interfere-IsValid starts q k v = record {
  capacity_positive = v.capacity_positive;
  bounded = omega arith;
  blocks_valid = tt;
}
interfere-IsValid stops q k v = record {
  capacity_positive = v.capacity_positive;
  bounded = v.bounded;
  blocks_valid = v.blocks_valid;
}
interfere-IsValid fails q k v = record {
  capacity_positive = v.capacity_positive;
  bounded = v.bounded;
  blocks_valid = v.blocks_valid;
}
interfere-IsValid resets q k v = record {
  capacity_positive = v.capacity_positive;
  bounded = omega arith;
  blocks_valid = tt;
}
interfere-IsValid (pushes b) q k v = enqueue-IsValid q b k v
interfere-IsValid (takes n) q k v = taken (copy_blocks-Copied n q.blocks v.blocks_valid k)
  where
    taken :
        (d : Copy) × (copy_blocks n q.blocks ≡ some d)
          × Copied n (record { output = []; samples = 0; blocks = q.blocks }) d
        → IsValid (remaining q (copy_blocks n q.blocks))
    taken (d, e, c) = rw e (record {
      capacity_positive = v.capacity_positive;
      bounded = omega (arith, c.shorter, v.bounded);
      blocks_valid = c.valid;
    })

-- The queue keeps its invariant through any calls of any threads: it never holds more blocks than its
-- capacity, and each holds complete pairs with one unread at least.
pub interferes-IsValid :
    (cs : List Call) (q : Queue) → AreCalls cs → IsValid q → IsValid (interferes cs q)
unfolding interferes
interferes-IsValid [] q k v = v
interferes-IsValid (c ∷ cs) q k v =
    interferes-IsValid cs (interfere c q) k.1 (interfere-IsValid c q k.0 v)

-- The samples that a call brings into the queue.
abbrev pub arrived : Call → Queue → List ℕ
arrived (pushes b) q = if accepting q then unread b else []
arrived _ q = []

pub front_unread : List Block → List ℕ
front_unread [] = []
front_unread (b ∷ bs) = unread b

abbrev pub output_of : Option Copy → List ℕ
output_of none = []
output_of (some c) = c.output

-- The samples that a call takes out, in order: those that a reader gets, those of the oldest block that
-- a full queue gives up, and all of them when a session starts afresh.
unfoldable pub departed : Call → Queue → List ℕ
departed starts q = pending q.blocks
departed stops q = []
departed fails q = []
departed resets q = pending q.blocks
departed (pushes b) q = if accepting q && full q then front_unread q.blocks else []
departed (takes n) q = output_of (copy_blocks n q.blocks)

pub arrivals : List Call → Queue → List ℕ
arrivals [] q = []
arrivals (c ∷ cs) q = arrived c q ++ arrivals cs (interfere c q)

pub departures : List Call → Queue → List ℕ
departures [] q = []
departures (c ∷ cs) q = departed c q ++ departures cs (interfere c q)

pending-pop_front : (bs : List Block) → pending bs ≡ front_unread bs ++ pending (pop_front bs)
unfolding front_unread pop_front
pending-pop_front [] = refl
pending-pop_front (b ∷ bs) = refl

enqueue_conserves :
    (q : Queue) (b : Block)
    → pending q.blocks ++ arrived (pushes b) q
      ≡ departed (pushes b) q ++ pending (enqueue q b).1.blocks
unfolding departed
enqueue_conserves q b = elim (Bool-cases (accepting q)) [
  | inl h ↦ elim (Bool-cases (full q)) [
    | inl k ↦
        rw
          (
            enqueue_displaces q b h k,
            h,
            k,
            pending-append (pop_front q.blocks) (b ∷ []),
            append-nil,
          )
          (ap (λ xs. xs ++ unread b) (pending-pop_front q.blocks)
            ∙ append_assoc (front_unread q.blocks) (pending (pop_front q.blocks)) (unread b))
    | inr k ↦ rw (enqueue_appends q b h k, h, k, pending-append q.blocks (b ∷ []), append-nil) refl
  ]
  | inr h ↦ rw (enqueue_stopped q b h, h) (append-nil (pending q.blocks))
]

interfere_conserves :
    (c : Call) (q : Queue)
    → IsCall c
    → IsValid q
    → pending q.blocks ++ arrived c q ≡ departed c q ++ pending (interfere c q).blocks
unfolding interfere start stop fail reset departed
interfere_conserves starts q k v = refl
interfere_conserves stops q k v = append-nil (pending q.blocks)
interfere_conserves fails q k v = append-nil (pending q.blocks)
interfere_conserves resets q k v = refl
interfere_conserves (pushes b) q k v = enqueue_conserves q b
interfere_conserves (takes n) q k v = taken (copy_blocks-Copied n q.blocks v.blocks_valid k)
  where
    taken :
        (d : Copy) × (copy_blocks n q.blocks ≡ some d)
          × Copied n (record { output = []; samples = 0; blocks = q.blocks }) d
        → pending q.blocks ++ []
          ≡ output_of (copy_blocks n q.blocks)
            ++ pending (remaining q (copy_blocks n q.blocks)).blocks
    taken (d, e, c) =
        rw (e, c.output, c.rest, append-nil) (sym (take-append-drop (2 * n) (pending q.blocks)))

-- Over any history of calls by any threads, what was in the queue and what came in, in order, is what
-- went out and what is left, in order: no sample is lost, duplicated or reordered. Samples go out to
-- readers, with the oldest block of a full queue, or where a session starts afresh.
pub interferes_conserves :
    (cs : List Call) (q : Queue)
    → AreCalls cs
    → IsValid q
    → pending q.blocks ++ arrivals cs q ≡ departures cs q ++ pending (interferes cs q).blocks
unfolding arrivals departures interferes
interferes_conserves [] q k v = append-nil (pending q.blocks)
interferes_conserves (c ∷ cs) q k v =
    sym (append_assoc (pending q.blocks) (arrived c q) (arrivals cs q'))
    ∙ ap (λ xs. xs ++ arrivals cs q') (interfere_conserves c q k.0 v)
    ∙ append_assoc (departed c q) (pending q'.blocks) (arrivals cs q')
    ∙ ap (◌++◌ (departed c q)) (interferes_conserves cs q' k.1 (interfere-IsValid c q k.0 v))
    ∙ sym (append_assoc (departed c q) (departures cs q') (pending (interferes cs q').blocks))
  where
    q' : Queue
    q' = interfere c q
