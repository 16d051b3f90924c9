-- ===== src/RxSession/Steps/Shutdown.antt =====
-- `deactivate` ends.
use soapy_sidekiq.Base.{
  ◌-◌, ◌≤◌, ◌≡◌, refl, inl, inr, Bool, true, false, not, ◌&&◌, Bool-cases, arith, length, List, [],
  ◌∷◌, Outcome, ok, throw, some,
}
use soapy_sidekiq.Base.Int.{ℤ}
use soapy_sidekiq.RxQueue.{stop}
use soapy_sidekiq.RxSession.{
  RxReceiveResult, RxStreamBackend, Session, Worker, absent, at_gate, receiving, handling, failing,
  reporting, flagging, halting, closing, finished, is_working,
}
use soapy_sidekiq.RxSession.Lifecycle.{
  owns_hardware_or_worker, stops_hardware, lets_go, signal_stop, stop_outcome, release_hardware,
  join, await_worker, deactivate,
}
use soapy_sidekiq.RxSession.ReceiveLoop.{worker_step}
use soapy_sidekiq.RxSession.Steps.Winding.{
  IsStopped, Winds, Winds-trans, moves-Winds, rest, step_at-Winds,
}

rest-idle : (w : Worker) → is_working w ≡ false → rest w ≡ 0
rest-idle absent h = refl
rest-idle (at_gate c last) h = cc h
rest-idle (receiving c last) h = cc h
rest-idle (handling c last r) h = cc h
rest-idle (failing f) h = cc h
rest-idle finished h = refl

working-rest : (w : Worker) → is_working w ≡ true → 1 ≤ rest w
working-rest absent h = cc h
working-rest (at_gate c last) h = omega arith
working-rest (receiving c last) h = omega arith
working-rest (handling c last r) h = omega arith
working-rest (failing (reporting code)) h = omega arith
working-rest (failing flagging) h = omega arith
working-rest (failing halting) h = omega arith
working-rest (failing closing) h = omega arith
working-rest finished h = cc h

-- The worker ends.
await_worker-Winds :
    (results : List (Outcome RxReceiveResult)) (s : Session)
    → IsStopped s
    → rest s.worker ≤ length results
    → (t : Session) × (await_worker results s ≡ some t) × Winds s t
unfolding await_worker
await_worker-Winds [] s v h = elim (Bool-cases (is_working s.worker)) [
  | inl busy ↦ absurd (omega (arith, working-rest s.worker busy, h))
  | inr idle ↦ (s, rw idle refl, moves-Winds s s v refl refl refl refl)
]
await_worker-Winds (result ∷ results) s v h = elim (Bool-cases (is_working s.worker)) [
  | inl busy ↦ later busy (
      await_worker-Winds results (worker_step result s)
        (record { stopped = step.0.stopped; closed = step.0.closed }) (omega (arith, step.1, h)))
  | inr idle ↦ (s, rw idle refl, moves-Winds s s v refl refl refl refl)
]
  where
    step : Winds s (worker_step result s) × (rest (worker_step result s).worker ≤ rest s.worker - 1)
    step = step_at-Winds result s s.worker refl v

    later :
        is_working s.worker ≡ true
        → (t : Session) × (await_worker results (worker_step result s) ≡ some t)
          × Winds (worker_step result s) t
        → (t : Session) × (await_worker (result ∷ results) s ≡ some t) × Winds s t
    later busy (t, e, w) = (t, rw busy e, Winds-trans s (worker_step result s) t step.0 w)

-- What a `deactivate` of `s` that stops the hardware with `outcome` leaves.
pub record Deactivated (enodev : ℤ) (outcome : Outcome ℤ) (s t : Session) : Type 0 where
  pub no_worker : t.worker ≡ absent
  pub stopped : t.running ≡ false
  pub closed : t.queue.running ≡ false
  pub kept : t.queue.blocks ≡ s.queue.blocks
  pub configured : t.active_configuration ≡ s.active_configuration
  pub owned : t.active ≡ (not (lets_go enodev outcome) && s.active)

pub release_hardware-eq :
    (enodev : ℤ) (outcome : Outcome ℤ) (s : Session)
    → release_hardware enodev outcome s
      ≡ record s { active = not (lets_go enodev outcome) && s.active }
unfolding release_hardware
release_hardware-eq enodev (throw e) s = refl
release_hardware-eq enodev (ok status) s = elim (Bool-cases (stops_hardware enodev status)) [
  | inl t ↦ rw t refl
  | inr f ↦ rw f refl
]

-- The session for which the join waits.
abbrev signalled : ℤ → Outcome ℤ → Session → Session
signalled enodev outcome s = record s {
  running = false;
  queue = record s.queue { running = false };
  active = not (lets_go enodev outcome) && s.active;
}

rest_bound : (w : Worker) → rest w ≤ 5
rest_bound absent = omega arith
rest_bound (at_gate c last) = omega arith
rest_bound (receiving c last) = omega arith
rest_bound (handling c last r) = omega arith
rest_bound (failing (reporting code)) = omega arith
rest_bound (failing flagging) = omega arith
rest_bound (failing halting) = omega arith
rest_bound (failing closing) = omega arith
rest_bound finished = omega arith

-- `deactivate` of a session that owns hardware or a worker returns after at most five more steps of the
-- worker, the four stores of a failure among them, whatever the backend returns or throws in them, and whether or not the hardware stops. Then the
-- worker is joined, the session does not run, the unread blocks and the configuration are kept for readers
-- and for a later attempt, and the hardware is still owned exactly if it was and its stop threw or failed.
pub deactivate_ends :
    (enodev : ℤ) (b : RxStreamBackend) (on_pps : Bool) (results : List (Outcome RxReceiveResult))
    (s : Session)
    → owns_hardware_or_worker s ≡ true
    → 5 ≤ length results
    → (t : Session) × (deactivate enodev b on_pps results s ≡ some (stop_outcome b on_pps s, t))
      × Deactivated enodev (stop_outcome b on_pps s) s t
unfolding deactivate signal_stop stop stop_outcome join
deactivate_ends enodev b on_pps results s o h = ended (
    await_worker-Winds results (signalled enodev outcome s)
      (record { stopped = refl; closed = refl }) (omega (arith, rest_bound s.worker, h)))
  where
    outcome : Outcome ℤ
    outcome = stop_outcome b on_pps s

    ended :
        (t : Session) × (await_worker results (signalled enodev outcome s) ≡ some t)
          × Winds (signalled enodev outcome s) t
        → (t : Session) × (deactivate enodev b on_pps results s ≡ some (outcome, t))
          × Deactivated enodev outcome s t
    ended (t, e, w) = (
      join t,
      rw (o, release_hardware-eq, e) refl,
      record {
        no_worker = refl;
        stopped = w.stopped;
        closed = w.closed;
        kept = w.kept;
        configured = w.configured;
        owned = w.owned;
      },
    )
