-- ===== src/RxSession/Steps/Winding.antt =====
-- What is left for the worker of a session that was told to stop.
use soapy_sidekiq.Base.{
  ℕ, ◌-◌, ◌≤◌, ◌≡◌, refl, ap, ◌∙◌, inl, inr, false, Bool-cases, arith, length, Outcome, ok, throw,
  ◌==◌,
}
use soapy_sidekiq.Base.Int.{ℤ, negsuc}
use soapy_sidekiq.Base.Words.{IsU64, mul64}
use soapy_sidekiq.RxQueue.{Queue, Block, RxPushStatus, fail, enqueue}
use soapy_sidekiq.RxQueue.Blocks.{IsBlock}
use soapy_sidekiq.RxSession.{
  RxReceiveStatus, success, no_data, overrun, RxReceiveResult, RxSessionConfiguration, Session,
  Last, Failure, reporting, flagging, halting, closing, Worker, absent, at_gate, receiving,
  handling, failing, finished,
}
use soapy_sidekiq.RxSession.ReceiveLoop.{
  fail_with, fail_step, count_discontinuity, pushed, accept_block, receive_block, dispatch,
  gate_step, receive_step, step_at, is_expected,
}
use soapy_sidekiq.RxSession.Steps.Pushing.{push_ticks-eq-ok}

-- How many more steps the worker takes.
abbrev pub rest : Worker → ℕ
rest absent = 0
rest (at_gate c last) = 1
rest (receiving c last) = 5
rest (handling c last r) = 5
rest (failing (reporting code)) = 4
rest (failing flagging) = 3
rest (failing halting) = 2
rest (failing closing) = 1
rest finished = 0

pub record IsStopped (s : Session) : Type 0 where
  pub stopped : s.running ≡ false
  pub closed : s.queue.running ≡ false

-- The session `s'` is `s` but for the worker, its counters and its failure.
pub record Winds (s s' : Session) : Type 0 where
  pub stopped : s'.running ≡ false
  pub closed : s'.queue.running ≡ false
  pub kept : s'.queue.blocks ≡ s.queue.blocks
  pub owned : s'.active ≡ s.active
  pub configured : s'.active_configuration ≡ s.active_configuration

pub Winds-trans : (s t u : Session) → Winds s t → Winds t u → Winds s u
Winds-trans s t u v w = record {
  stopped = w.stopped;
  closed = w.closed;
  kept = w.kept ∙ v.kept;
  owned = w.owned ∙ v.owned;
  configured = w.configured ∙ v.configured;
}

pub moves-Winds :
    (s s' : Session)
    → IsStopped s
    → s'.queue ≡ s.queue
    → s'.running ≡ s.running
    → s'.active ≡ s.active
    → s'.active_configuration ≡ s.active_configuration
    → Winds s s'
moves-Winds s s' v q r a c = record {
  stopped = r ∙ v.stopped;
  closed = ap (λ (k : Queue). k.running) q ∙ v.closed;
  kept = ap (λ (k : Queue). k.blocks) q;
  owned = a;
  configured = c;
}

failed-Winds :
    (code : ℤ) (s : Session)
    → IsStopped s
    → Winds s (fail_with code s) × (rest (fail_with code s).worker ≤ 4)
unfolding fail_with
failed-Winds code s v = (moves-Winds s _ v refl refl refl refl, omega arith)

fail_step-Winds :
    (f : Failure) (s : Session)
    → IsStopped s
    → Winds s (fail_step f s) × (rest (fail_step f s).worker ≤ rest (failing f) - 1)
unfolding fail_step fail
fail_step-Winds (reporting code) s v = (moves-Winds s _ v refl refl refl refl, omega arith)
fail_step-Winds flagging s v = (moves-Winds s _ v refl refl refl refl, omega arith)
fail_step-Winds halting s v = (
  record { stopped = refl; closed = v.closed; kept = refl; owned = refl; configured = refl },
  omega arith,
)
fail_step-Winds closing s v = (
  record { stopped = v.stopped; closed = refl; kept = refl; owned = refl; configured = refl },
  omega arith,
)

-- A stopped queue accepts nothing.
enqueue-stopped : (q : Queue) (b : Block) → q.running ≡ false → (enqueue q b).1 ≡ q
unfolding enqueue
enqueue-stopped q b h = ground arith

pushed-Winds :
    (c : RxSessionConfiguration) (t : ℕ) (s : Session) (o : Outcome (RxPushStatus × Queue))
    → IsStopped s
    → ((p : RxPushStatus × Queue) → o ≡ ok p → (b : Block) × IsBlock b × (enqueue s.queue b ≡ p))
    → Winds s (pushed c t s o) × (rest (pushed c t s o).worker ≤ 4)
unfolding pushed
pushed-Winds c t s (throw e) v k = failed-Winds (negsuc 0) s v
pushed-Winds c t s (ok (status, q)) v k =
    (moves-Winds s _ v (same (k (status, q) refl)) refl refl refl, omega arith)
  where
    same : (b : Block) × IsBlock b × (enqueue s.queue b ≡ (status, q)) → q ≡ s.queue
    same (b, hb, e) = rw (← enqueue-stopped s.queue b v.closed, e) refl

count_discontinuity-Winds :
    (c : RxSessionConfiguration) (last : Last) (t : ℕ) (s : Session)
    → IsStopped s
    → Winds s (count_discontinuity c last t s)
unfolding count_discontinuity
count_discontinuity-Winds c last t s v = elim (Bool-cases (is_expected c last t)) [
  | inl h ↦ rw h (moves-Winds s s v refl refl refl refl)
  | inr h ↦ rw h (moves-Winds s _ v refl refl refl refl)
]

accept_block-Winds :
    (c : RxSessionConfiguration) (r : RxReceiveResult) (last : Last) (s : Session)
    → IsU64 (length r.samples)
    → IsStopped s
    → Winds s (accept_block c r last s) × (rest (accept_block c r last s).worker ≤ 4)
unfolding accept_block
accept_block-Winds c r last s h v = (Winds-trans s _ _ counted after.0, after.1)
  where
    counted : Winds s (count_discontinuity c last r.rf_timestamp s)
    counted = count_discontinuity-Winds c last r.rf_timestamp s v

    s' : Session
    s' = count_discontinuity c last r.rf_timestamp s

    after : Winds s' (accept_block c r last s) × (rest (accept_block c r last s).worker ≤ 4)
    after =
        pushed-Winds c r.rf_timestamp _ _
          (record { stopped = counted.stopped; closed = counted.closed })
          (λ p e. push_ticks-eq-ok _ r.samples _ _ _ p h e)

receive_block-Winds :
    (c : RxSessionConfiguration) (r : RxReceiveResult) (last : Last) (s : Session)
    → IsStopped s
    → Winds s (receive_block c r last s) × (rest (receive_block c r last s).worker ≤ 4)
unfolding receive_block
receive_block-Winds c r last s v = elim (Bool-cases (r.handle == c.handle)) [
  | inr other ↦ rw other (moves-Winds s _ v refl refl refl refl, omega arith)
  | inl mine ↦ elim (Bool-cases (length r.samples == mul64 c.block_samples 2)) [
    | inr bad ↦ rw (mine, bad) (failed-Winds (negsuc 0) s v)
    | inl good ↦ rw (mine, good) (accept_block-Winds c r last s (ground arith) v)
  ]
]

dispatch-Winds :
    (status : RxReceiveStatus) (c : RxSessionConfiguration) (r : RxReceiveResult) (last : Last)
    (s : Session)
    → IsStopped s
    → Winds s (dispatch status c r last s) × (rest (dispatch status c r last s).worker ≤ 4)
unfolding dispatch
dispatch-Winds no_data c r last s v = (moves-Winds s _ v refl refl refl refl, omega arith)
dispatch-Winds overrun c r last s v = (moves-Winds s _ v refl refl refl refl, omega arith)
dispatch-Winds RxReceiveStatus.error c r last s v = failed-Winds r.error_code s v
dispatch-Winds success c r last s v = receive_block-Winds c r last s v

-- The worker of a stopped session comes nearer to its end with each step.
pub step_at-Winds :
    (result : Outcome RxReceiveResult) (s : Session) (w : Worker)
    → s.worker ≡ w
    → IsStopped s
    → Winds s (step_at result s w) × (rest (step_at result s w).worker ≤ rest w - 1)
unfolding step_at gate_step receive_step
step_at-Winds result s absent e v = (moves-Winds s s v refl refl refl refl, simp e (omega arith))
step_at-Winds result s (at_gate c last) e v =
    (moves-Winds s _ v refl refl refl refl, simp v.stopped (omega arith))
step_at-Winds (throw x) s (receiving c last) e v = failed-Winds (negsuc 0) s v
step_at-Winds (ok r) s (receiving c last) e v =
    (moves-Winds s _ v refl refl refl refl, simp v.stopped (omega arith))
step_at-Winds result s (handling c last r) e v = dispatch-Winds r.status c r last s v
step_at-Winds result s (failing f) e v = fail_step-Winds f s v
step_at-Winds result s finished e v = (moves-Winds s s v refl refl refl refl, simp e (omega arith))
