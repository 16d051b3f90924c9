-- ===== src/RxStream/Answers.antt =====
-- Every read of the stream returns, and says what it delivered.
use Prim.Native.Nat.{min}
use soapy_sidekiq.Base.{
  ℕ, ◌*◌, ◌/◌, ◌≤◌, ◌<◌, ◌≡◌, refl, ◌⊎◌, inl, inr, Bool, true, false, ◌==◌, arith, List, [], length,
  take, drop, ◌∷◌, ltb, if◌then◌else◌, Option, none, some, ok, throw, Exception,
}
use soapy_sidekiq.Base.Int.{ℤ, pos, ltb_ℤ, ◌≤ℤ◌}
use soapy_sidekiq.Base.Words.{int_max}
use soapy_sidekiq.RxQueue.{Queue, Block, block_time}
use soapy_sidekiq.RxQueue.Blocks.{IsValid, pending}
use soapy_sidekiq.RxQueue.History.{AreCalls}
use soapy_sidekiq.RxQueue.Reading.{RxReadStatus, RxReadResult, Call, Reading, ready, waited}
use soapy_sidekiq.RxQueue.Reading.Delivery.{
  Answer, timed_out, ended, no_time, delivered, Answered, read_answers,
}
use soapy_sidekiq.RxQueue.Reading as Buffer
use soapy_sidekiq.RxSession.{Session, read}
use soapy_sidekiq.RxStream.{
  samples, timeout, stream_error, RxDevice, StreamReading, translated, finish, read_session,
  read_stream,
}

-- The buffer that holds `native`.
abbrev pub encoded : RxDevice → List ℕ → List ℕ
encoded d native = if d.rx_use_short then native else d.to_float native

-- The samples that the session still has after a read.
abbrev waiting_in : Option Session → List ℕ
waiting_in none = []
waiting_in (some s) = pending s.queue.blocks

abbrev pub left : StreamReading → List ℕ
left r = waiting_in r.device.session

-- A read of `num_elems` samples that found the queue `q`.
pub data Delivers (has_time_flag num_elems : ℕ) (d : RxDevice) (q : Queue) (r : StreamReading)
    : Type 0 where
  -- The oldest samples, with the exact time of the first.
  gives :
      (b : Block) (bs : List Block)
      → q.blocks ≡ b ∷ bs
      → block_time b ≡ ok r.time_ns
      → r.code ≡ samples (min num_elems (length (pending q.blocks) / 2))
      → r.output ≡ encoded d (take (2 * num_elems) (pending q.blocks))
      → r.flags ≡ has_time_flag
      → left r ≡ drop (2 * num_elems) (pending q.blocks)
      → Delivers has_time_flag num_elems d q r
  -- No samples: there are none, or the time of the first is out of range, and all of them stay.
  fails :
      ((r.code ≡ timeout) × (ready q ≡ false))
        ⊎ ((r.code ≡ stream_error) × (q.blocks ≡ []) × (ready q ≡ true))
        ⊎ ((r.code ≡ stream_error)
            × ((b : Block) × (bs : List Block) × (e : Exception) × (q.blocks ≡ b ∷ bs)
                × (block_time b ≡ throw e)))
      → r.output ≡ []
      → r.flags ≡ 0
      → r.time_ns ≡ pos 0
      → left r ≡ pending q.blocks
      → Delivers has_time_flag num_elems d q r

module _ (has_time_flag num_elems : ℕ) (s : Session) (short : Bool)
    (to_float : List ℕ → List ℕ) where
  abbrev pub device : RxDevice
  device = record { session = some s; rx_use_short = short; to_float = to_float }

  -- What the session answered, as SoapySDR sees it.
  finish-Delivers :
      (q : Queue) (r : Reading)
      → Answer num_elems q r
      → (x : StreamReading) × (finish has_time_flag device s (some r) ≡ some x)
        × Delivers has_time_flag num_elems device q x
  unfolding finish translated
  finish-Delivers q r (timed_out h e) = rw e (_, refl, fails (inl (refl, h)) refl refl refl refl)
  finish-Delivers q r (ended h k e) = rw e (over q.failed)
    where
      over :
          (f : Bool)
          → (x : StreamReading) × (finish has_time_flag device s (
                some (record {
                  result =
                      ok (
                        Buffer.no_samples (if f then RxReadStatus.error else RxReadStatus.stopped));
                  output = [];
                  queue = q;
                }))
              ≡ some x)
            × Delivers has_time_flag num_elems device q x
      over true = (_, refl, fails (inr (inl (refl, h, k))) refl refl refl refl)
      over false = (_, refl, fails (inr (inl (refl, h, k))) refl refl refl refl)
  finish-Delivers q r (no_time b bs x h k e) =
      rw e (_, refl, fails (inr (inr (refl, (b, bs, x, h, k)))) refl refl refl refl)
  finish-Delivers q r (delivered b bs t h k result output rest same) =
      rw (result, output) (_, refl, gives b bs h k refl refl refl rest)

  -- `readStream` on the active RX stream, with a buffer and a request that the result can count, returns:
  -- either with as many samples as are there and asked for, from the oldest on, in the caller's format and
  -- with the exact time of the first, and those behind them stay for the next read. Or with no samples and no
  -- time, and then nothing is consumed: with a timeout when there was nothing to read, or with an error when
  -- the session is over and empty, or the time of the first sample is out of range. (Any conversion to CF32.)
  pub read_stream_result :
      (timeout_us : ℤ) (others : List Call) (flags : ℕ) (time_ns : ℤ)
      → IsValid s.queue
      → AreCalls others
      → 0 < num_elems
      → num_elems ≤ int_max
      → pos 0 ≤ℤ timeout_us
      → (x : StreamReading) × (read_stream has_time_flag device
            (some (record { is_rx = true; is_active = true }))
            false
            num_elems
            timeout_us
            others
            flags
            time_ns
          ≡ some x)
        × Delivers has_time_flag num_elems device (waited others s.queue) x
  unfolding read_stream read_session read
  read_stream_result timeout_us others flags time_ns v k h b t =
      rw (small, in_time, some_asked)
        (answered (read_answers s.queue num_elems timeout_us others v k h (omega (arith, b)) t))
    where
      small : ltb int_max num_elems ≡ false
      small = ground arith

      in_time : ltb_ℤ timeout_us (pos 0) ≡ false
      in_time = ground arith

      some_asked : (num_elems == 0) ≡ false
      some_asked = ground arith

      answered :
          Answered num_elems
            (waited others s.queue)
            (Buffer.read s.queue false num_elems timeout_us others)
          → (x : StreamReading) × (finish has_time_flag device s
                (Buffer.read s.queue false num_elems timeout_us others)
              ≡ some x)
            × Delivers has_time_flag num_elems device (waited others s.queue) x
      answered (r, e, a, w) = rw e (finish-Delivers (waited others s.queue) r a)
