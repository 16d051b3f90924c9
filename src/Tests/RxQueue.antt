-- ===== src/Tests/RxQueue.antt =====
-- A queue of two blocks at 1.5 samples/s, the older one read up to its second pair.
use soapy_sidekiq.Base.{
  ◌/◌, ◌≡◌, refl, true, false, List, [], ◌∷◌, ◌++◌, arith, ok, throw, overflow_error, ltb,
  if◌then◌else◌,
}
use soapy_sidekiq.Base.Int.{pos}
use soapy_sidekiq.Base.Words.{int64_max}
use soapy_sidekiq.Timestamp.Rate.{TimestampRate, from_frequency}
use soapy_sidekiq.Timestamp.Rate.Exact.{scaled}
use soapy_sidekiq.RxQueue.{Block, Queue, push_ticks, enqueue, block_time}
use soapy_sidekiq.RxQueue.Blocks.{IsValid, pending}
use soapy_sidekiq.RxQueue.History.{arrivals, departures, interferes-IsValid, interferes_conserves}
use soapy_sidekiq.RxQueue.Reading.{Call, stops, pushes, takes, interferes, waited, read}
use soapy_sidekiq.RxQueue.Reading.Delivery.{Answered, read_answers}
use soapy_sidekiq.RxQueue.Timing.{stamped, exact_time, block_time_exact, push_ticks_stamps}

abbrev rate : TimestampRate
rate = record { numerator = 3; denominator = 2 }

abbrev clock : TimestampRate
clock = from_frequency 40_000_000

abbrev older : Block
older = stamped (1 ∷ 2 ∷ 3 ∷ 4 ∷ []) clock 100 rate 1

abbrev newer : Block
newer = stamped (5 ∷ 6 ∷ []) clock 200 rate 0

abbrev queue : Queue
queue = record {
  capacity_blocks = 2;
  blocks = older ∷ newer ∷ [];
  running = true;
  failed = false;
  dropped_blocks = 0;
}

queue-IsValid : IsValid queue
queue-IsValid = omega arith

-- A push that displaces the older block, a reader, and the end of the session.
abbrev calls : List Call
calls = pushes newer ∷ takes 1 ∷ stops ∷ []

interferes-IsValid_example : IsValid (interferes calls queue)
interferes-IsValid_example = interferes-IsValid calls queue (omega arith) queue-IsValid

interferes_conserves_example :
    pending queue.blocks ++ arrivals calls queue
    ≡ departures calls queue ++ pending (interferes calls queue).blocks
interferes_conserves_example = interferes_conserves calls queue (omega arith) queue-IsValid

read_answers_example : Answered 2 (waited [] queue) (read queue false 2 (pos 1000) [])
read_answers_example =
    read_answers queue 2 (pos 1000) [] queue-IsValid tt (omega arith) (omega arith) (omega arith)

block_time_exact_example : block_time older ≡ (
    let t = exact_time clock 100 rate 1 in
    if ltb int64_max t then throw overflow_error else ok (pos t))
block_time_exact_example =
    block_time_exact (1 ∷ 2 ∷ 3 ∷ 4 ∷ []) clock rate 100 1 (omega arith) (omega arith) (omega arith)
      (omega arith)

push_ticks_stamps_example : push_ticks queue (5 ∷ 6 ∷ []) 200 clock rate ≡ (
    if ltb int64_max (scaled clock 200 / clock.numerator)
    then throw overflow_error
    else ok (enqueue queue newer))
push_ticks_stamps_example =
    push_ticks_stamps queue (5 ∷ 6 ∷ []) clock rate 200 (omega arith) (omega arith) (omega arith)
      (omega arith) refl
