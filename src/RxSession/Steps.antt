-- ===== src/RxSession/Steps.antt =====
-- The interleavings of a session: steps of the worker, of readers, and of the one thread that holds the
-- lifecycle mutex, as a relation. A step is one store of a flag, one operation of the queue, one call of the
-- backend, or the creation or the join of the thread. The counters, which only diagnose, are stored with the
-- step behind them. The last lines of `shutdown` run in a destructor, with no other thread, and are left out.
pub mod Pushing
pub mod Safety
pub mod Reachable
pub mod Activation
pub mod Winding
pub mod Shutdown
use soapy_sidekiq.Base.{ℕ, ◌≡◌, ◌⊎◌, Bool, true, false, Outcome, ok}
use soapy_sidekiq.Base.Int.{ℤ, pos}
use soapy_sidekiq.Base.Words.{IsU64}
use soapy_sidekiq.RxQueue.Reading.{takes, interfere}
use soapy_sidekiq.RxSession.{
  RxReceiveResult, RxStreamBackend, RxSessionConfiguration, Session, absent, finished,
}
use soapy_sidekiq.RxSession.Lifecycle.{
  owns_hardware_or_worker, is_usable, cleared, owned, start_queue, store_running, create_thread,
  reset_queue, stop_queue, stop_outcome, release_hardware, join,
}
use soapy_sidekiq.RxSession.ReceiveLoop.{worker_step}

-- What the holder of the lifecycle mutex does next. Nobody holds it; or `activate`, whose hardware has started,
-- clears the state of the last run, owns the hardware, starts the queue, stores `running_`, and creates the
-- thread, or, without a thread, undoes these three; or `deactivate` stores `running_`, stops the queue, stops
-- the hardware, and waits for the worker with the outcome.
pub data Phase : Type 0 where
  unlocked : Phase
  clearing owning opening starting launching undoing resetting releasing :
      RxSessionConfiguration → Phase
  halting closing stopping : Bool → Phase
  joining : Outcome ℤ → Phase

pub record System : Type 0 where
  pub session : Session
  pub phase : Phase

-- One step of the holder of the mutex on the session `s`.
pub data Move (enodev : ℤ) (s : Session) : Phase → Phase → Session → Type 0 where
  -- A start that throws or returns another status changes nothing.
  begins :
      (b : RxStreamBackend) (c : RxSessionConfiguration)
      → is_usable c ≡ true
      → owns_hardware_or_worker s ≡ false
      → b.start_stream c.handle c.on_pps ≡ ok (pos 0)
      → Move enodev s unlocked (clearing c) s
  clears : (c : RxSessionConfiguration) → Move enodev s (clearing c) (owning c) (cleared c s)
  owns : (c : RxSessionConfiguration) → Move enodev s (owning c) (opening c) (owned s)
  opens : (c : RxSessionConfiguration) → Move enodev s (opening c) (starting c) (start_queue s)
  starts :
      (c : RxSessionConfiguration) → Move enodev s (starting c) (launching c) (store_running true s)
  launches : (c : RxSessionConfiguration) → Move enodev s (launching c) unlocked (create_thread c s)
  fails : (c : RxSessionConfiguration) → Move enodev s (launching c) (undoing c) s
  undoes :
      (c : RxSessionConfiguration) → Move enodev s (undoing c) (resetting c) (store_running false s)
  resets : (c : RxSessionConfiguration) → Move enodev s (resetting c) (releasing c) (reset_queue s)
  releases :
      (b : RxStreamBackend) (c : RxSessionConfiguration)
      → Move enodev s
          (releasing c)
          unlocked
          (release_hardware enodev (b.stop_stream c.handle false) s)
  deactivates :
      (on_pps : Bool) → owns_hardware_or_worker s ≡ true → Move enodev s unlocked (halting on_pps) s
  halts : (on_pps : Bool) → Move enodev s (halting on_pps) (closing on_pps) (store_running false s)
  closes : (on_pps : Bool) → Move enodev s (closing on_pps) (stopping on_pps) (stop_queue s)
  stops :
      (b : RxStreamBackend) (on_pps : Bool)
      → Move enodev s
          (stopping on_pps)
          (joining (stop_outcome b on_pps s))
          (release_hardware enodev (stop_outcome b on_pps s) s)
  joins :
      (outcome : Outcome ℤ)
      → (s.worker ≡ finished) ⊎ (s.worker ≡ absent)
      → Move enodev s (joining outcome) unlocked (join s)

pub data Step (enodev : ℤ) (t u : System) : Type 0 where
  works :
      (result : Outcome RxReceiveResult)
      → u ≡ record t { session = worker_step result t.session }
      → Step enodev t u
  read :
      (requested : ℕ)
      → IsU64 requested
      → u ≡ record t {
        session = record t.session { queue = interfere (takes requested) t.session.queue };
      }
      → Step enodev t u
  moves :
      (p : Phase) (s : Session)
      → Move enodev t.session t.phase p s
      → u ≡ record { session = s; phase = p }
      → Step enodev t u

pub data Reach (enodev : ℤ) (t : System) : System → Type 0 where
  here : Reach enodev t t
  next : {u v : System} → Reach enodev t u → Step enodev u v → Reach enodev t v
