-- ===== src/RxQueue.antt =====
-- RxSampleQueue.cpp and include/SoapySidekiq/RxSampleQueue.hpp: the bounded handoff of received blocks.
-- A method that throws does so before it changes the queue; `read` is in the child Reading.
pub mod Blocks
pub mod Timing
pub mod History
pub mod Reading
use soapy_sidekiq.Base.{
  ℕ, zero, suc, ◌+◌, ◌-◌, ◌*◌, ◌/◌, ◌%◌, Bool, true, false, not, ◌&&◌, ◌||◌, Option, none, some,
  List, [], ◌∷◌, ◌++◌, Outcome, ok, throw, invalid_argument, overflow_error, ◌>>=◌, length, take,
  ltb, leb, ◌==◌, if◌then◌else◌,
}
use soapy_sidekiq.Base.Int.{ℤ, pos, ◌+ℤ◌, ltb_ℤ, eqb_ℤ}
use soapy_sidekiq.Base.Words.{u64, int64_max, uint64_max, add64, sub64, mul64}
use soapy_sidekiq.Timestamp.Product.{multiply_divide}
use soapy_sidekiq.Timestamp.Rate.{TimestampRate, TimestampPhase, is_valid, convert}

pub data RxPushStatus : Type 0 where
  accepted dropped_oldest stopped : RxPushStatus

-- Samples are interleaved I and Q words. They are only moved, so a word is its bit pattern.
pub record Block : Type 0 where
  pub samples : List ℕ
  pub offset : ℕ
  pub time_ns : ℤ
  pub sample_rate : TimestampRate
  pub time_remainder : ℕ
  pub time_denominator : ℕ

pub record Queue : Type 0 where
  pub capacity_blocks : ℕ
  pub blocks : List Block
  pub running : Bool
  pub failed : Bool
  pub dropped_blocks : ℕ

abbrev pub empty_queue : ℕ → Queue
empty_queue capacity = record {
  capacity_blocks = capacity;
  blocks = [];
  running = false;
  failed = false;
  dropped_blocks = 0;
}

-- The constructor.
unfoldable pub make : ℕ → Outcome Queue
make capacity = if capacity == 0 then throw invalid_argument else ok (empty_queue capacity)

unfoldable pub start : Queue → Queue
start q = record q { blocks = []; running = true; failed = false; dropped_blocks = 0 }

unfoldable pub stop : Queue → Queue
stop q = record q { running = false }

unfoldable pub fail : Queue → Queue
fail q = record q { running = false; failed = true }

unfoldable pub reset : Queue → Queue
reset q = record q { blocks = []; running = false; failed = false; dropped_blocks = 0 }

-- `blocks_.pop_front()`, done only on a full queue, whose capacity is positive.
pub pop_front : List Block → List Block
pop_front [] = []
pop_front (b ∷ bs) = bs

-- What `pushWithPhase` does under its lock.
unfoldable pub enqueue : Queue → Block → RxPushStatus × Queue
unfolding pop_front
enqueue q block =
    if not q.running || q.failed
    then (stopped, q)
    else if length q.blocks == q.capacity_blocks
    then (
      dropped_oldest,
      record q {
        blocks = pop_front q.blocks ++ (block ∷ []);
        dropped_blocks = add64 q.dropped_blocks 1;
      },
    )
    else (accepted, record q { blocks = q.blocks ++ (block ∷ []) })

unfoldable pub push_with_phase :
    Queue → List ℕ → ℤ → TimestampRate → ℕ → ℕ → Outcome (RxPushStatus × Queue)
push_with_phase q samples time_ns sample_rate remainder denominator =
    if length samples == 0 || not (length samples % 2 == 0)
    then throw invalid_argument
    else if not (is_valid sample_rate)
    then throw invalid_argument
    else ok (
        enqueue q (record {
          samples = samples;
          offset = 0;
          time_ns = time_ns;
          sample_rate = sample_rate;
          time_remainder = remainder;
          time_denominator = denominator;
        }))

-- The overloads that take an owned vector.
unfoldable pub push : Queue → List ℕ → ℤ → TimestampRate → Outcome (RxPushStatus × Queue)
push q samples time_ns sample_rate = push_with_phase q samples time_ns sample_rate 0 1

unfoldable pub push_ticks :
    Queue → List ℕ → ℕ → TimestampRate → TimestampRate → Outcome (RxPushStatus × Queue)
push_ticks q samples timestamp timestamp_frequency sample_rate = do
  phase ← convert timestamp_frequency timestamp
  push_with_phase q samples (pos phase.nanoseconds) sample_rate phase.remainder phase.denominator

-- The overloads that take a pointer and a count: `none` is the null pointer, `some` the memory there.
unfoldable pub copied_samples : Option (List ℕ) → ℕ → Outcome (List ℕ)
copied_samples none complex_samples = throw invalid_argument
copied_samples (some memory) complex_samples =
    if complex_samples == 0 || ltb (uint64_max / 2) complex_samples
    then throw invalid_argument
    else ok (take (mul64 complex_samples 2) memory)

unfoldable pub push_pointer :
    Queue → Option (List ℕ) → ℕ → ℤ → TimestampRate → Outcome (RxPushStatus × Queue)
push_pointer q memory complex_samples time_ns sample_rate = do
  samples ← copied_samples memory complex_samples
  push q samples time_ns sample_rate

unfoldable pub push_ticks_pointer :
    Queue → Option (List ℕ) → ℕ → ℕ → TimestampRate → TimestampRate → Outcome (RxPushStatus × Queue)
push_ticks_pointer q memory complex_samples timestamp timestamp_frequency sample_rate = do
  samples ← copied_samples memory complex_samples
  push_ticks q samples timestamp timestamp_frequency sample_rate

-- Whether the fractions of the block's time and of its offset make up a whole nanosecond.
unfoldable pub carries : Block → TimestampPhase → Bool
carries block phase =
    let threshold =
      multiply_divide (sub64 phase.denominator phase.remainder) block.time_denominator
        phase.denominator in
    let minimum_phase = add64 threshold.quotient (if threshold.remainder == 0 then 0 else 1) in
    not (block.time_remainder == 0)
    && not (phase.remainder == 0)
    && leb minimum_phase block.time_remainder

-- The time of the block's next unread sample, from the phase of its offset.
unfoldable pub offset_time : Block → TimestampPhase → Outcome ℤ
offset_time block phase =
    let time_ns = block.time_ns +ℤ pos phase.nanoseconds in
    if ltb 0 phase.nanoseconds && ltb_ℤ (pos (int64_max - phase.nanoseconds)) block.time_ns
    then throw overflow_error
    else if carries block phase
    then if eqb_ℤ time_ns (pos int64_max) then throw overflow_error else ok (time_ns +ℤ pos 1)
    else ok time_ns

unfoldable pub block_time : Block → Outcome ℤ
block_time block = do phase ← convert block.sample_rate block.offset; offset_time block phase

unfoldable pub queued_blocks : Queue → ℕ
queued_blocks q = length q.blocks
