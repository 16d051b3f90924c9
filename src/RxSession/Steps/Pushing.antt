-- ===== src/RxSession/Steps/Pushing.antt =====
-- What a push leaves of a queue.
use soapy_sidekiq.Base.{
  ℕ, ◌%◌, ◌≡◌, inl, inr, not, ◌||◌, Bool-cases, arith, length, List, ok, Outcome-cases, ◌==◌,
}
use soapy_sidekiq.Base.Int.{ℤ, pos}
use soapy_sidekiq.Base.Words.{IsU64}
use soapy_sidekiq.Timestamp.Rate.{TimestampRate, TimestampPhase, convert}
use soapy_sidekiq.RxQueue.{Queue, Block, RxPushStatus, enqueue, push_with_phase, push_ticks}
use soapy_sidekiq.RxQueue.Blocks.{IsValid, IsBlock}
use soapy_sidekiq.RxQueue.History.{enqueue-IsValid}

new_block : List ℕ → ℤ → TimestampRate → ℕ → ℕ → Block
new_block samples time_ns rate remainder denominator = record {
  samples = samples;
  offset = 0;
  time_ns = time_ns;
  sample_rate = rate;
  time_remainder = remainder;
  time_denominator = denominator;
}

enqueue-flags :
    (q : Queue) (b : Block)
    → ((enqueue q b).1.running ≡ q.running) × ((enqueue q b).1.failed ≡ q.failed)
unfolding enqueue
enqueue-flags q b = ground arith

-- A push that does not throw has enqueued a block.
push_with_phase-eq-ok :
    (q : Queue) (samples : List ℕ) (time_ns : ℤ) (rate : TimestampRate) (r d : ℕ)
    (p : RxPushStatus × Queue)
    → IsU64 (length samples)
    → push_with_phase q samples time_ns rate r d ≡ ok p
    → IsBlock (new_block samples time_ns rate r d)
      × (enqueue q (new_block samples time_ns rate r d) ≡ p)
unfolding push_with_phase new_block
push_with_phase-eq-ok q samples time_ns rate r d p h e =
    elim (Bool-cases (length samples == 0 || not (length samples % 2 == 0))) [
      | inl bad ↦ cc (rw (bad, push_with_phase) at e)
      | inr good ↦ (ground arith, ground arith)
    ]

-- So has one of a counter of ticks.
pub push_ticks-eq-ok :
    (q : Queue) (samples : List ℕ) (timestamp : ℕ) (clock rate : TimestampRate)
    (p : RxPushStatus × Queue)
    → IsU64 (length samples)
    → push_ticks q samples timestamp clock rate ≡ ok p
    → (b : Block) × IsBlock b × (enqueue q b ≡ p)
unfolding push_ticks
push_ticks-eq-ok q samples timestamp clock rate p h e =
    elim (Outcome-cases (convert clock timestamp)) [
      | inr (x, thrown) ↦ cc (rw (thrown, push_ticks) at e)
      | inl (phase, done) ↦ pushed_block phase (
          push_with_phase-eq-ok q samples (pos phase.nanoseconds) rate phase.remainder
            phase.denominator p h (rw (done, push_ticks) at e))
    ]
  where
    pushed_block :
        (phase : TimestampPhase)
        → IsBlock (new_block samples (pos phase.nanoseconds) rate phase.remainder phase.denominator)
          × (enqueue q
                (new_block samples (pos phase.nanoseconds) rate phase.remainder phase.denominator)
              ≡ p)
        → (b : Block) × IsBlock b × (enqueue q b ≡ p)
    pushed_block phase (v, f) = (_, v, f)

pub push_ticks-IsValid :
    (q : Queue) (samples : List ℕ) (timestamp : ℕ) (clock rate : TimestampRate)
    (p : RxPushStatus × Queue)
    → IsValid q
    → IsU64 (length samples)
    → push_ticks q samples timestamp clock rate ≡ ok p
    → IsValid p.1 × (p.1.running ≡ q.running) × (p.1.failed ≡ q.failed)
push_ticks-IsValid q samples timestamp clock rate p v h e =
    enqueued (push_ticks-eq-ok q samples timestamp clock rate p h e)
  where
    enqueued :
        (b : Block) × IsBlock b × (enqueue q b ≡ p)
        → IsValid p.1 × (p.1.running ≡ q.running) × (p.1.failed ≡ q.failed)
    enqueued (b, hb, f) =
        rw (← f) (enqueue-IsValid q b hb v, (enqueue-flags q b).0, (enqueue-flags q b).1)
