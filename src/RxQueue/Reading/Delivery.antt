-- ===== src/RxQueue/Reading/Delivery.antt =====
-- What `read` gives its caller on every branch.
use soapy_sidekiq.Base.{
  ℕ, ◌*◌, ◌/◌, ◌<◌, ◌≡◌, refl, ap, inl, inr, true, false, Bool-cases, List, [], ◌∷◌, length, take,
  drop, arith, Option, some, Outcome, ok, throw, Exception, Outcome-cases, ◌==◌, if◌then◌else◌, min,
}
use soapy_sidekiq.Base.Int.{ℤ, pos, ◌≤ℤ◌, ltb_ℤ}
use soapy_sidekiq.Base.Words.{IsU64}
use soapy_sidekiq.RxQueue.{Block, Queue, block_time}
use soapy_sidekiq.RxQueue.Blocks.{IsValid, pending}
use soapy_sidekiq.RxQueue.History.{AreCalls, interferes-IsValid}
use soapy_sidekiq.RxQueue.Reading.{
  RxReadStatus, RxReadResult, Reading, Copy, Call, copy_blocks, ready, waited, copied, timed,
  deliver, read, no_samples,
}
use soapy_sidekiq.RxQueue.Reading.Fifo.{Copied, copy_blocks-Copied}

-- A reading that leaves the queue as it found it.
abbrev untouched : Queue → Outcome RxReadResult → Reading
untouched q result = record { result = result; output = []; queue = q }

-- The answers of a reader that waited, if it had to, and found the queue `q`.
pub data Answer (requested : ℕ) (q : Queue) (r : Reading) : Type 0 where
  -- The wait ran out with no samples and no change of the session.
  timed_out :
      ready q ≡ false
      → r ≡ untouched q (ok (no_samples RxReadStatus.timeout))
      → Answer requested q r
  -- The session is over and its samples are read.
  ended :
      q.blocks ≡ []
      → ready q ≡ true
      → r
        ≡ untouched q
            (ok (no_samples (if q.failed then RxReadStatus.error else RxReadStatus.stopped)))
      → Answer requested q r
  -- The time of the first sample is out of range: nothing is consumed.
  no_time :
      (b : Block) (bs : List Block) (e : Exception)
      → q.blocks ≡ b ∷ bs
      → block_time b ≡ throw e
      → r ≡ untouched q (throw e)
      → Answer requested q r
  -- The oldest samples, as many as asked for and there, with the time of the first.
  delivered :
      (b : Block) (bs : List Block) (t : ℤ)
      → q.blocks ≡ b ∷ bs
      → block_time b ≡ ok t
      → r.result
        ≡ ok (record {
          status = RxReadStatus.samples;
          samples = min requested (length (pending q.blocks) / 2);
          time_ns = t;
          has_time = true;
        })
      → r.output ≡ take (2 * requested) (pending q.blocks)
      → pending r.queue.blocks ≡ drop (2 * requested) (pending q.blocks)
      → r.queue ≡ record q { blocks = r.queue.blocks }
      → Answer requested q r

abbrev pub Answered : ℕ → Queue → Option Reading → Type 0
Answered requested q o = (r : Reading) × (o ≡ some r) × Answer requested q r × IsValid r.queue

timed-Answered :
    (requested : ℕ) (q : Queue) (b : Block) (bs : List Block)
    → IsValid q
    → IsU64 requested
    → q.blocks ≡ b ∷ bs
    → Answered requested q (timed q requested (block_time b))
unfolding timed copied
timed-Answered requested q b bs v hr hb = elim (Outcome-cases (block_time b)) [
  | inr (e, h) ↦ (untouched q (throw e), rw h refl, no_time b bs e hb h refl, v)
  | inl (t, h) ↦ with_copy t h (copy_blocks-Copied requested q.blocks v.blocks_valid hr)
]
  where
    with_copy :
        (t : ℤ)
        → block_time b ≡ ok t
        → (d : Copy) × (copy_blocks requested q.blocks ≡ some d)
          × Copied requested (record { output = []; samples = 0; blocks = q.blocks }) d
        → (r : Reading) × (timed q requested (block_time b) ≡ some r)
          × Answer requested q r
          × IsValid r.queue
    with_copy t h (d, e, c) = (
      record {
        result = ok (record {
          status = RxReadStatus.samples;
          samples = d.samples;
          time_ns = t;
          has_time = true;
        });
        output = d.output;
        queue = record q { blocks = d.blocks };
      },
      rw (h, timed, e, copied) refl,
      delivered b bs t hb h
          (ap
            (λ n.
              ok (record {
                status = RxReadStatus.samples;
                samples = n;
                time_ns = t;
                has_time = true;
              }))
            (omega (arith, c.count)))
          c.output c.rest refl,
      record {
        capacity_positive = v.capacity_positive;
        bounded = omega (arith, c.shorter, v.bounded);
        blocks_valid = c.valid;
      },
    )

deliver-Answered :
    (requested : ℕ) (q : Queue) (bs : List Block)
    → IsValid q
    → IsU64 requested
    → ready q ≡ true
    → q.blocks ≡ bs
    → Answered requested q (deliver requested q bs)
unfolding deliver
deliver-Answered requested q [] v hr h e = (
  untouched q (ok (no_samples (if q.failed then RxReadStatus.error else RxReadStatus.stopped))),
  refl,
  ended e h refl,
  v,
)
deliver-Answered requested q (b ∷ bs) v hr h e = timed-Answered requested q b bs v hr e

waited-IsValid :
    (others : List Call) (q : Queue) → AreCalls others → IsValid q → IsValid (waited others q)
unfolding waited
waited-IsValid others q k v = elim (Bool-cases (ready q)) [
  | inl h ↦ rw h v
  | inr h ↦ rw h (interferes-IsValid others q k v)
]

-- Whatever other threads do during the wait, a read with a buffer, a request and a nonnegative timeout
-- returns, with one of the four answers, and leaves the queue valid. In particular the loop ends, the
-- samples come in order from the oldest on, as many as were asked for and are there, and a time that
-- is out of range consumes nothing.
pub read_answers :
    (q : Queue) (requested : ℕ) (timeout_us : ℤ) (others : List Call)
    → IsValid q
    → AreCalls others
    → 0 < requested
    → IsU64 requested
    → pos 0 ≤ℤ timeout_us
    → Answered requested (waited others q) (read q false requested timeout_us others)
unfolding read
read_answers q requested timeout_us others v k positive word patient =
    rw (asked, in_time)
      (elim (Bool-cases (ready (waited others q))) [
        | inl h ↦ rw h (deliver-Answered requested _ _ (waited-IsValid others q k v) word h refl)
        | inr h ↦ rw h (
          untouched (waited others q) (ok (no_samples RxReadStatus.timeout)),
          refl,
          timed_out h refl,
          waited-IsValid others q k v,
        )
      ])
  where
    asked : (requested == 0) ≡ false
    asked = ground arith

    in_time : ltb_ℤ timeout_us (pos 0) ≡ false
    in_time = ground arith
