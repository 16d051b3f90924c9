-- ===== src/Streams/Ownership/Stopped.antt =====
-- What a stop lets go.
use soapy_sidekiq.Base.{
  ◌≡◌, refl, ◌∙◌, inl, inr, Bool, not, ◌&&◌, Bool-cases, arith, Option, none, some, List, [], ◌∷◌,
  Outcome,
}
use soapy_sidekiq.Base.Int.{ℤ}
use soapy_sidekiq.RxQueue.{stop}
use soapy_sidekiq.RxSession.{Session, RxStreamBackend, RxReceiveResult, is_working}
use soapy_sidekiq.RxSession.Lifecycle.{
  deactivate, joined, join, await_worker, Returned, owns_hardware_or_worker, release_hardware,
  signal_stop, stop_outcome, lets_go,
}
use soapy_sidekiq.RxSession.ReceiveLoop.{worker_step}
use soapy_sidekiq.RxSession.Steps.Shutdown.{release_hardware-eq}
use soapy_sidekiq.RxSession.Steps.Winding.{IsStopped, Winds, step_at-Winds}

-- The hardware is owned after a stop if it was before and the stop failed.
abbrev pub Releases : ℤ → Session → Option Returned → Type 0
Releases enodev s none = Unit
Releases enodev s (some (outcome, t)) =
    owns_hardware_or_worker t ≡ (not (lets_go enodev outcome) && s.active)

await_worker-owned :
    (results : List (Outcome RxReceiveResult)) (s t : Session)
    → IsStopped s
    → await_worker results s ≡ some t
    → t.active ≡ s.active
unfolding await_worker
await_worker-owned [] s t v e = elim (Bool-cases (is_working s.worker)) [
  | inl busy ↦ cc (rw busy at e)
  | inr idle ↦ cc (rw idle at e)
]
await_worker-owned (result ∷ results) s t v e = elim (Bool-cases (is_working s.worker)) [
  | inl busy ↦
      await_worker-owned results (worker_step result s) t
        (record { stopped = step.stopped; closed = step.closed }) (rw busy at e)
      ∙ step.owned
  | inr idle ↦ cc (rw idle at e)
]
  where
    step : Winds s (worker_step result s)
    step = (step_at-Winds result s s.worker refl v).0

joined-Releases :
    (enodev : ℤ) (outcome : Outcome ℤ) (s : Session) (r : Option Session)
    → ((t : Session) → r ≡ some t → t.active ≡ (not (lets_go enodev outcome) && s.active))
    → Releases enodev s (joined outcome r)
unfolding join
joined-Releases enodev outcome s none h = tt
joined-Releases enodev outcome s (some t) h = ground (arith, h t refl)

pub deactivate-Releases :
    (enodev : ℤ) (b : RxStreamBackend) (on_pps : Bool) (results : List (Outcome RxReceiveResult))
    (s : Session)
    → Releases enodev s (deactivate enodev b on_pps results s)
unfolding deactivate signal_stop stop
deactivate-Releases enodev b on_pps results s = elim (Bool-cases (owns_hardware_or_worker s)) [
  | inl owns ↦ rw owns (
      joined-Releases enodev outcome s
        (await_worker results (release_hardware enodev outcome (signal_stop s))) released)
  | inr free ↦ rw free free
]
  where
    outcome : Outcome ℤ
    outcome = stop_outcome b on_pps (signal_stop s)

    closing : Session
    closing = record (signal_stop s) { active = not (lets_go enodev outcome) && s.active }

    released :
        (t : Session)
        → await_worker results (release_hardware enodev outcome (signal_stop s)) ≡ some t
        → t.active ≡ (not (lets_go enodev outcome) && s.active)
    released t e =
        await_worker-owned results closing t (record { stopped = refl; closed = refl })
          (rw release_hardware-eq at e)
