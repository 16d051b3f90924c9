-- ===== src/RxQueue/Reading.antt =====
-- `RxSampleQueue::read`: the wait for data, and the copy that consumes blocks.
pub mod Fifo
pub mod Delivery
use soapy_sidekiq.Base.{
  ℕ, zero, suc, ◌+◌, ◌-◌, ◌*◌, ◌/◌, Bool, true, false, not, ◌&&◌, ◌||◌, Option, none, some, List,
  [], ◌∷◌, ◌++◌, Outcome, ok, throw, Exception, invalid_argument, length, take, drop, ltb, ◌==◌,
  min, if◌then◌else◌,
}
use soapy_sidekiq.Base.Int.{ℤ, pos, ltb_ℤ}
use soapy_sidekiq.Base.Words.{add64, sub64, mul64}
use soapy_sidekiq.RxQueue.{Queue, Block, start, stop, fail, reset, enqueue, block_time}

pub data RxReadStatus : Type 0 where
  samples timeout stopped error : RxReadStatus

pub record RxReadResult : Type 0 where
  pub status : RxReadStatus
  pub samples : ℕ
  pub time_ns : ℤ
  pub has_time : Bool

-- The output buffer so far, `result.samples`, and the blocks that are left.
pub record Copy : Type 0 where
  pub output : List ℕ
  pub samples : ℕ
  pub blocks : List Block

-- One round of the copy, from the front block.
unfoldable pub copy_round : ℕ → Block → List Block → Copy → Copy
copy_round requested b bs c =
    let block_samples = length b.samples / 2 in
    let available = sub64 block_samples b.offset in
    let to_copy = min available (sub64 requested c.samples) in
    let block = record b { offset = add64 b.offset to_copy } in
    record {
      output = c.output ++ take (mul64 to_copy 2) (drop (mul64 b.offset 2) b.samples);
      samples = add64 c.samples to_copy;
      blocks = if block.offset == block_samples then bs else block ∷ bs;
    }

-- The `while` loop; `none` means that the fuel ran out.
unfoldable pub copy_loop : ℕ → ℕ → Copy → Option Copy
copy_loop zero requested c = none
copy_loop (suc fuel) requested c =
    let rounds =
      λ (b : Block) (bs : List Block). copy_loop fuel requested (copy_round requested b bs c) in
    if ltb c.samples requested then elim c.blocks [ [] ↦ some c | b ∷ bs ↦ rounds b bs ] else some c

-- What other threads do to the queue while a reader waits. Another reader that gets there first takes
-- a number of samples.
pub data Call : Type 0 where
  starts stops fails resets : Call
  pushes : Block → Call
  takes : ℕ → Call

-- Every round ends the request or uses up a block, so this fuel is enough.
unfoldable pub copy_blocks : ℕ → List Block → Option Copy
copy_blocks requested blocks =
    copy_loop (length blocks + 2) requested (record { output = []; samples = 0; blocks = blocks })

abbrev pub remaining : Queue → Option Copy → Queue
remaining q none = q
remaining q (some c) = record q { blocks = c.blocks }

unfoldable pub interfere : Call → Queue → Queue
interfere starts q = start q
interfere stops q = stop q
interfere fails q = fail q
interfere resets q = reset q
interfere (pushes block) q = (enqueue q block).1
interfere (takes requested) q = remaining q (copy_blocks requested q.blocks)

unfoldable pub interferes : List Call → Queue → Queue
interferes [] q = q
interferes (c ∷ cs) q = interferes cs (interfere c q)

abbrev pub is_empty : List Block → Bool
is_empty [] = true
is_empty (b ∷ bs) = false

-- The predicate of the wait.
abbrev pub ready : Queue → Bool
ready q = not (is_empty q.blocks) || q.failed || not q.running

-- The queue when `wait_for` returns, after what the other threads did up to then: the reader that
-- finds the queue ready does not wait at all.
unfoldable pub waited : List Call → Queue → Queue
waited others q = if ready q then q else interferes others q

pub record Reading : Type 0 where
  pub result : Outcome RxReadResult
  pub output : List ℕ
  pub queue : Queue

abbrev pub no_samples : RxReadStatus → RxReadResult
no_samples status = record { status = status; samples = 0; time_ns = pos 0; has_time = false }

-- A copy that ran out of fuel is no result; `Fifo` shows that there is none.
unfoldable pub copied : Queue → ℤ → Option Copy → Option Reading
copied q time_ns none = none
copied q time_ns (some c) = some (record {
  result =
      ok (record { status = samples; samples = c.samples; time_ns = time_ns; has_time = true });
  output = c.output;
  queue = record q { blocks = c.blocks };
})

unfoldable pub timed : Queue → ℕ → Outcome ℤ → Option Reading
timed q requested (throw e) = some (record { result = throw e; output = []; queue = q })
timed q requested (ok time_ns) = copied q time_ns (copy_blocks requested q.blocks)

-- The part under the lock, after the wait.
unfoldable pub deliver : ℕ → Queue → List Block → Option Reading
deliver requested q [] = some (record {
  result = ok (no_samples (if q.failed then error else stopped));
  output = [];
  queue = q;
})
deliver requested q (b ∷ bs) = timed q requested (block_time b)

unfoldable pub read : Queue → Bool → ℕ → ℤ → List Call → Option Reading
read q output_is_null requested timeout_us others =
    let rejected : Reading = record { result = throw invalid_argument; output = []; queue = q } in
    let nothing : Reading = record { result = ok (no_samples samples); output = []; queue = q } in
    let q' = waited others q in
    if not (requested == 0) && output_is_null
    then some rejected
    else if ltb_ℤ timeout_us (pos 0)
    then some rejected
    else if requested == 0
    then some nothing
    else if ready q'
    then deliver requested q' q'.blocks
    else some (record { result = ok (no_samples timeout); output = []; queue = q' })
