-- ===== src/RxSession/Steps/Safety/Working.antt =====
-- The worker keeps the session sound.
use soapy_sidekiq.Base.{
  ℕ, ◌≡◌, refl, ◌&&◌, Bool, true, false, if◌then◌else◌, inl, inr, not, ◌||◌, Bool-cases, arith,
  length, Outcome, ok, throw, ◌==◌,
}
use soapy_sidekiq.Base.Int.{ℤ, negsuc}
use soapy_sidekiq.Base.Words.{IsU64, mul64, add64}
use soapy_sidekiq.Timestamp.Rate.{TimestampRate, from_frequency}
use soapy_sidekiq.RxQueue.{Queue, RxPushStatus, fail, push_ticks}
use soapy_sidekiq.RxQueue.Blocks.{IsValid}
use soapy_sidekiq.RxSession.{
  RxReceiveStatus, success, no_data, overrun, RxReceiveResult, RxSessionConfiguration, Session,
  Last, Failure, reporting, flagging, halting, closing, Worker, absent, at_gate, receiving,
  handling, failing, finished, joinable, is_working,
}
use soapy_sidekiq.RxSession.ReceiveLoop.{
  fail_with, fail_step, count_discontinuity, pushed, accept_block, receive_block, dispatch,
  gate_step, receive_step, step_at, is_expected,
}
use soapy_sidekiq.RxSession.Steps.{Phase}
use soapy_sidekiq.RxSession.Steps.Pushing.{push_ticks-IsValid}
use soapy_sidekiq.RxSession.Steps.Safety.{IsSound, agree, is_halting, is_closing}

-- The worker is in its loop, and no failure has begun.
abbrev loops : Worker → Bool
loops (at_gate c last) = true
loops (receiving c last) = true
loops (handling c last r) = true
loops _ = false

-- Where it may come next: to the end only when the session was told to stop.
abbrev goes_on : Bool → Worker → Bool
goes_on running (at_gate c last) = true
goes_on running (receiving c last) = true
goes_on running (handling c last r) = true
goes_on running (failing (reporting code)) = true
goes_on running finished = not running
goes_on running _ = false

loops_lem :
    (w : Worker)
    → loops w ≡ true
    → (joinable w && is_working w && not (is_halting w) && not (is_closing w)) ≡ true
loops_lem absent h = cc h
loops_lem (at_gate c last) h = refl
loops_lem (receiving c last) h = refl
loops_lem (handling c last r) h = refl
loops_lem (failing f) h = cc h
loops_lem finished h = cc h

goes_on_lem :
    (running : Bool) (w : Worker)
    → goes_on running w ≡ true
    → ((is_working w || not running) && not (is_halting w) && not (is_closing w)) ≡ true
goes_on_lem running absent h = cc h
goes_on_lem running (at_gate c last) h = refl
goes_on_lem running (receiving c last) h = refl
goes_on_lem running (handling c last r) h = refl
goes_on_lem running (failing (reporting code)) h = refl
goes_on_lem running (failing flagging) h = refl
goes_on_lem running (failing halting) h = cc h
goes_on_lem running (failing closing) h = cc h
goes_on_lem running finished h = ground (arith, h)

agree_on :
    (p : Phase) (w w' : Worker) (running active failed accepting shows : Bool)
    → loops w ≡ true
    → goes_on running w' ≡ true
    → agree p w running active failed accepting shows ≡ true
    → agree p w' running active failed accepting shows ≡ true
agree_on p w w' running active failed accepting shows l g v =
    ground (arith, loops_lem w l, goes_on_lem running w' g, v)

-- A step within the loop: it changes no flag, and the queue at most by a push.
abbrev Next : Session → Session → Type 0
Next s s' =
    (goes_on s.running s'.worker ≡ true)
    × (s'.running ≡ s.running)
    × (s'.active ≡ s.active)
    × (s'.failed ≡ s.failed)
    × IsValid s'.queue
    × (s'.queue.running ≡ s.queue.running)
    × (s'.queue.failed ≡ s.queue.failed)

Next-IsSound :
    (p : Phase) (s s' : Session) → loops s.worker ≡ true → Next s s' → IsSound p s → IsSound p s'
Next-IsSound p s s' l (g, r, a, f, q, qr, qf) v = record {
  queue_valid = q;
  agreement =
      rw (r, a, f, qr, qf)
        (agree_on p s.worker s'.worker s.running s.active s.failed s.queue.running s.queue.failed l
          g v.agreement);
}

fail_with-Next : (code : ℤ) (s : Session) → IsValid s.queue → Next s (fail_with code s)
unfolding fail_with
fail_with-Next code s v = (refl, refl, refl, refl, v, refl, refl)

pushed-Next :
    (c : RxSessionConfiguration) (t : ℕ) (s : Session) (o : Outcome (RxPushStatus × Queue))
    → IsValid s.queue
    → ((p : RxPushStatus × Queue)
        → o ≡ ok p
        → IsValid p.1 × (p.1.running ≡ s.queue.running) × (p.1.failed ≡ s.queue.failed))
    → Next s (pushed c t s o)
unfolding pushed
pushed-Next c t s (throw e) v k = fail_with-Next (negsuc 0) s v
pushed-Next c t s (ok (status, q)) v k =
    (refl, refl, refl, refl, (k (status, q) refl).0, (k (status, q) refl).1, (k (status, q) refl).2)

accept_block-Next :
    (c : RxSessionConfiguration) (r : RxReceiveResult) (last : Last) (s : Session)
    → IsU64 (length r.samples)
    → IsValid s.queue
    → Next s (accept_block c r last s)
unfolding accept_block count_discontinuity
accept_block-Next c r last s h v = counted (is_expected c last r.rf_timestamp)
  where
    timestamp : ℕ
    timestamp = if c.use_rf_timestamp then r.rf_timestamp else r.system_timestamp

    frequency : TimestampRate
    frequency =
        if c.use_rf_timestamp then c.sample_rate else from_frequency c.system_timestamp_frequency

    of_push :
        (s' : Session)
        → IsValid s'.queue
        → Next s' (
            pushed c r.rf_timestamp s'
              (push_ticks s'.queue r.samples timestamp frequency c.sample_rate))
    of_push s' w =
        pushed-Next c r.rf_timestamp s' _ w (λ p e. push_ticks-IsValid _ r.samples _ _ _ p w h e)

    counts : Bool → Session
    counts b =
        if b
        then s
        else record s { timestamp_discontinuities = add64 s.timestamp_discontinuities 1 }

    counted :
        (b : Bool)
        → Next s (
            pushed c r.rf_timestamp
              (counts b)
              (push_ticks (counts b).queue r.samples timestamp frequency c.sample_rate))
    counted true = of_push s v
    counted false = of_push (counts false) v

receive_block-Next :
    (c : RxSessionConfiguration) (r : RxReceiveResult) (last : Last) (s : Session)
    → IsValid s.queue
    → Next s (receive_block c r last s)
unfolding receive_block
receive_block-Next c r last s v = elim (Bool-cases (r.handle == c.handle)) [
  | inr other ↦ rw other (refl, refl, refl, refl, v, refl, refl)
  | inl mine ↦ elim (Bool-cases (length r.samples == mul64 c.block_samples 2)) [
    | inr bad ↦ rw (mine, bad) (fail_with-Next (negsuc 0) s v)
    | inl good ↦ rw (mine, good) (accept_block-Next c r last s (ground arith) v)
  ]
]

dispatch-Next :
    (status : RxReceiveStatus) (c : RxSessionConfiguration) (r : RxReceiveResult) (last : Last)
    (s : Session)
    → IsValid s.queue
    → Next s (dispatch status c r last s)
unfolding dispatch
dispatch-Next no_data c r last s v = (refl, refl, refl, refl, v, refl, refl)
dispatch-Next overrun c r last s v = (refl, refl, refl, refl, v, refl, refl)
dispatch-Next RxReceiveStatus.error c r last s v = fail_with-Next r.error_code s v
dispatch-Next success c r last s v = receive_block-Next c r last s v

receive_step-Next :
    (c : RxSessionConfiguration) (last : Last) (result : Outcome RxReceiveResult) (s : Session)
    → IsValid s.queue
    → Next s (receive_step c last result s)
unfolding receive_step
receive_step-Next c last (throw e) s v = fail_with-Next (negsuc 0) s v
receive_step-Next c last (ok r) s v = (goes s.running, refl, refl, refl, v, refl, refl)
  where
    goes : (b : Bool) → goes_on b (if b then handling c last r else finished) ≡ true
    goes true = refl
    goes false = refl

gate_step-Next :
    (c : RxSessionConfiguration) (last : Last) (s : Session)
    → IsValid s.queue
    → Next s (gate_step c last s)
unfolding gate_step
gate_step-Next c last s v = (goes s.running, refl, refl, refl, v, refl, refl)
  where
    goes : (b : Bool) → goes_on b (if b then receiving c last else finished) ≡ true
    goes true = refl
    goes false = refl

fail-IsValid : (q : Queue) → IsValid q → IsValid (fail q)
unfolding fail
fail-IsValid q v = record {
  capacity_positive = v.capacity_positive;
  bounded = v.bounded;
  blocks_valid = v.blocks_valid;
}

-- The agreement with the worker at a known place.
placed :
    (p : Phase) (s : Session) (w : Worker)
    → s.worker ≡ w
    → IsSound p s
    → agree p w s.running s.active s.failed s.queue.running s.queue.failed ≡ true
placed p s w e v = rw e at v.agreement

fail_step-IsSound :
    (p : Phase) (f : Failure) (s : Session)
    → s.worker ≡ failing f
    → IsSound p s
    → IsSound p (fail_step f s)
unfolding fail_step fail
fail_step-IsSound p (reporting code) s e v = record {
  queue_valid = v.queue_valid;
  agreement = ground (arith, placed p s _ e v);
}
fail_step-IsSound p flagging s e v = record {
  queue_valid = v.queue_valid;
  agreement = ground (arith, placed p s _ e v);
}
fail_step-IsSound p halting s e v = record {
  queue_valid = v.queue_valid;
  agreement = ground (arith, placed p s _ e v);
}
fail_step-IsSound p closing s e v = record {
  queue_valid = unfold fail in fail-IsValid s.queue v.queue_valid;
  agreement = ground (arith, placed p s _ e v);
}

-- Each step of the worker.
pub step_at-IsSound :
    (p : Phase) (result : Outcome RxReceiveResult) (s : Session) (w : Worker)
    → s.worker ≡ w
    → IsSound p s
    → IsSound p (step_at result s w)
unfolding step_at
step_at-IsSound p result s absent e v = v
step_at-IsSound p result s (at_gate c last) e v =
    Next-IsSound p s _ (rw e refl) (gate_step-Next c last s v.queue_valid) v
step_at-IsSound p result s (receiving c last) e v =
    Next-IsSound p s _ (rw e refl) (receive_step-Next c last result s v.queue_valid) v
step_at-IsSound p result s (handling c last r) e v =
    Next-IsSound p s _ (rw e refl) (dispatch-Next r.status c r last s v.queue_valid) v
step_at-IsSound p result s (failing f) e v = fail_step-IsSound p f s e v
step_at-IsSound p result s finished e v = v
