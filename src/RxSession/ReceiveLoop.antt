-- ===== src/RxSession/ReceiveLoop.antt =====
-- `receiveLoop`, one step at a time: the test of its `while`, the return of `backend_.receive()` with
-- the second test, the treatment of the result, and each store of a failure. Other threads may change the session between the
-- steps, so a result may be treated after the session was told to stop.
use soapy_sidekiq.Base.{
  ℕ, Bool, true, false, not, none, some, Outcome, ok, throw, length, ◌==◌, if◌then◌else◌,
}
use soapy_sidekiq.Base.Int.{ℤ, negsuc}
use soapy_sidekiq.Base.Words.{add64, mul64}
use soapy_sidekiq.Timestamp.Rate.{from_frequency}
use soapy_sidekiq.RxQueue.{Queue, RxPushStatus, fail, push_ticks}
use soapy_sidekiq.RxSession.{
  RxReceiveStatus, success, no_data, overrun, RxReceiveResult, RxSessionConfiguration, Session,
  Last, Failure, reporting, flagging, halting, closing, Worker, absent, at_gate, receiving,
  handling, failing, finished,
}

-- A fatal result, whose stores are steps of their own.
unfoldable pub fail_with : ℤ → Session → Session
fail_with code s = record s { worker = failing (reporting code) }

-- One store of a failure; the last one ends the loop.
unfoldable pub fail_step : Failure → Session → Session
fail_step (reporting code) s = record s { receive_error = code; worker = failing flagging }
fail_step flagging s = record s { failed = true; worker = failing halting }
fail_step halting s = record s { running = false; worker = failing closing }
fail_step closing s = record s { queue = fail s.queue; worker = finished }

unfoldable pub is_expected : RxSessionConfiguration → Last → ℕ → Bool
is_expected c none timestamp = true
is_expected c (some last) timestamp = timestamp == add64 last c.block_samples

-- The diagnostic count.
unfoldable pub count_discontinuity : RxSessionConfiguration → Last → ℕ → Session → Session
count_discontinuity c last timestamp s =
    if is_expected c last timestamp
    then s
    else record s { timestamp_discontinuities = add64 s.timestamp_discontinuities 1 }

-- After `pushTicks`: back to the test of the loop, or the `catch (...)` around it.
unfoldable pub pushed :
    RxSessionConfiguration → ℕ → Session → Outcome (RxPushStatus × Queue) → Session
pushed c timestamp s (ok (status, queue)) = record s {
  queue = queue;
  worker = at_gate c (some timestamp);
}
pushed c timestamp s (throw e) = fail_with (negsuc 0) s

-- The part of the body behind the size check.
unfoldable pub accept_block : RxSessionConfiguration → RxReceiveResult → Last → Session → Session
accept_block c r last s =
    let timestamp = if c.use_rf_timestamp then r.rf_timestamp else r.system_timestamp in
    let frequency =
      if c.use_rf_timestamp then c.sample_rate else from_frequency c.system_timestamp_frequency in
    let s' = count_discontinuity c last r.rf_timestamp s in
    pushed c r.rf_timestamp s' (push_ticks s'.queue r.samples timestamp frequency c.sample_rate)

unfoldable pub receive_block : RxSessionConfiguration → RxReceiveResult → Last → Session → Session
receive_block c r last s =
    if not (r.handle == c.handle)
    then record s { worker = at_gate c last }
    else if not (length r.samples == mul64 c.block_samples 2)
    then fail_with (negsuc 0) s
    else accept_block c r last s

unfoldable pub dispatch :
    RxReceiveStatus → RxSessionConfiguration → RxReceiveResult → Last → Session → Session
dispatch no_data c r last s = record s { worker = at_gate c last }
dispatch overrun c r last s = record s {
  hardware_overruns = add64 s.hardware_overruns 1;
  worker = at_gate c last;
}
dispatch RxReceiveStatus.error c r last s = fail_with r.error_code s
dispatch success c r last s = receive_block c r last s

-- The return of the backend, up to the second test of `running_`; or an exception.
unfoldable pub receive_step :
    RxSessionConfiguration → Last → Outcome RxReceiveResult → Session → Session
receive_step c last (throw e) s = fail_with (negsuc 0) s
receive_step c last (ok r) s = record s {
  worker = if s.running then handling c last r else finished;
}

-- `while (running_.load())`.
unfoldable pub gate_step : RxSessionConfiguration → Last → Session → Session
gate_step c last s = record s { worker = if s.running then receiving c last else finished }

unfoldable pub step_at : Outcome RxReceiveResult → Session → Worker → Session
step_at result s absent = s
step_at result s (at_gate c last) = gate_step c last s
step_at result s (receiving c last) = receive_step c last result s
step_at result s (handling c last r) = dispatch r.status c r last s
step_at result s (failing f) = fail_step f s
step_at result s finished = s

-- The step that the worker is at; `result` is what the backend returns if it is called.
abbrev pub worker_step : Outcome RxReceiveResult → Session → Session
worker_step result s = step_at result s s.worker
