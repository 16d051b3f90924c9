-- ===== src/Streams/Ownership/Reachable.antt =====
-- The calls of an application in any order, with the receive worker between them.
use soapy_sidekiq.Base.{
  ℕ, ◌≡◌, refl, ap, sym, ◌∙◌, Bool, true, false, arith, Option, none, some, List, Outcome, ok,
  throw,
}
use mathlib.Core.Path.{subst}
use soapy_sidekiq.Base.Double.{IsDouble}
use soapy_sidekiq.Base.Int.{ℤ, pos, eqb_ℤ}
use soapy_sidekiq.RxSession.{
  Session, RxReceiveResult, Worker, absent, at_gate, receiving, handling, failing, finished,
}
use soapy_sidekiq.RxSession.Lifecycle.{owns_hardware_or_worker}
use soapy_sidekiq.RxSession.ReceiveLoop.{worker_step, step_at}
use soapy_sidekiq.StreamRequest.{StreamDirection, front}
use soapy_sidekiq.Streams.{
  Constants, StreamHandle, Device, Called, find_stream_handle, stream_direction,
}
use soapy_sidekiq.Streams.Activate.{Starting, activate_stream, activate_stream_impl}
use soapy_sidekiq.Streams.Ownership.{owns_rx, IsSound, Keeps, with_session-Keeps}
use soapy_sidekiq.Streams.Ownership.Closing.{Closes, close_stream-Closes}
use soapy_sidekiq.Streams.Ownership.Deactivating.{
  AreErrors, is_free, Deactivates, deactivate_stream-Deactivates,
}
use soapy_sidekiq.Streams.Ownership.Opening.{IsFresh, SetsUp}
use soapy_sidekiq.Streams.Ownership.Opening.Atomic.{setup_stream_atomic}
use soapy_sidekiq.Streams.Ownership.Starting.{activate_stream_ends}
use soapy_sidekiq.Streams.Setup.{SetupSdk, is_some, setup_stream}
use soapy_sidekiq.Streams.Stop.{
  Stopping, close_stream, close_found, deactivate_stream, deactivate_found,
}
use soapy_sidekiq.Tx.{Tx}

-- A device as its constructor leaves it.
pub record IsNew (d : Device) : Type 0 where
  pub no_rx : d.active_rx_stream ≡ none
  pub no_tx : d.active_tx_stream ≡ none
  pub idle_rx : owns_rx d.session ≡ false
  pub idle_tx : d.tx_stream_active ≡ false
  pub no_thread : d.tx_thread ≡ false

-- `writes` stands for the calls that use the ring of TX, and for its callbacks.
pub data IsReachable (k : Constants) : Device → Type 0 where
  new : {d : Device} → IsNew d → IsReachable k d
  sets_up :
      {d : Device} (sdk : SetupSdk) (code : ℤ) (format channels : List ℕ) (has_args : Bool)
      → IsReachable k d
      → IsFresh sdk.address d
      → IsReachable k (setup_stream k sdk code format channels has_args d).1
  activates :
      {d d' : Device} (o : Starting) (stream flags : ℕ) (time_ns : ℤ) (num_elems : ℕ)
      (r : Outcome ℤ)
      → IsReachable k d
      → IsDouble o.actual_rate.1
      → activate_stream k o stream flags time_ns num_elems d ≡ some (r, d')
      → IsReachable k d'
  deactivates :
      {d d' : Device} (o : Stopping) (stream flags : ℕ) (time_ns : ℤ) (r : Outcome ℤ)
      → IsReachable k d
      → deactivate_stream k o stream flags time_ns d ≡ some (r, d')
      → IsReachable k d'
  closes :
      {d d' : Device} (o : Stopping) (stream : ℕ) (r : Outcome (Unit {0}))
      → IsReachable k d
      → close_stream k o stream d ≡ some (r, d')
      → IsReachable k d'
  receives :
      {d : Device} (s : Session) (result : Outcome RxReceiveResult)
      → IsReachable k d
      → d.session ≡ some s
      → IsReachable k (record d { session = some (worker_step result s) })
  writes : {d : Device} (t : Tx) → IsReachable k d → IsReachable k (record d { tx = t })

new-IsSound : (d : Device) → IsNew d → IsSound d
new-IsSound d n = record {
  rx_stream = rw n.no_rx tt;
  tx_stream = rw n.no_tx tt;
  apart = rw n.no_rx tt;
  rx_held = λ h. cc (h, n.idle_rx);
  tx_held = λ h. cc (h, n.idle_tx);
  thread_active = λ h. cc (h, n.no_thread);
}

writes-IsSound : (d : Device) (t : Tx) → IsSound d → IsSound (record d { tx = t })
writes-IsSound d t v = record {
  rx_stream = v.rx_stream;
  tx_stream = v.tx_stream;
  apart = v.apart;
  rx_held = v.rx_held;
  tx_held = v.tx_held;
  thread_active = v.thread_active;
}

-- A worker that takes a step was there before.
worker_step-owns :
    (result : Outcome RxReceiveResult) (s : Session) (w : Worker)
    → s.worker ≡ w
    → owns_hardware_or_worker (worker_step result s) ≡ true
    → owns_hardware_or_worker s ≡ true
unfolding step_at
worker_step-owns result s absent e h =
    ap owns_hardware_or_worker (sym (ap (step_at result s) e)) ∙ h
worker_step-owns result s (at_gate c last) e h = simp e (ground arith)
worker_step-owns result s (receiving c last) e h = simp e (ground arith)
worker_step-owns result s (handling c last r) e h = simp e (ground arith)
worker_step-owns result s (failing f) e h = simp e (ground arith)
worker_step-owns result s finished e h = simp e (ground arith)

receives-IsSound :
    (d : Device) (s : Session) (result : Outcome RxReceiveResult)
    → IsSound d
    → d.session ≡ some s
    → IsSound (record d { session = some (worker_step result s) })
receives-IsSound d s result v e = (with_session-Keeps d (some (worker_step result s)) v held).sound
  where
    held : owns_hardware_or_worker (worker_step result s) ≡ true → is_some d.active_rx_stream ≡ true
    held o = v.rx_held (rw e (worker_step-owns result s s.worker refl o))

setup_stream-IsSound :
    (k : Constants) (sdk : SetupSdk) (code : ℤ) (format channels : List ℕ) (has_args : Bool)
    (d : Device)
    → IsSound d
    → IsFresh sdk.address d
    → IsSound (setup_stream k sdk code format channels has_args d).1
unfolding SetsUp setup_stream
setup_stream-IsSound k sdk code format channels has_args d v fresh =
    by_direction (stream_direction k code) refl
  where
    ended :
        (direction : StreamDirection) (r : Called ℕ)
        → SetsUp direction (front channels) d r
        → IsSound r.1
    ended direction (throw e, d') w = w.sound
    ended direction (ok stream, d') w = w.sound

    by_direction :
        (x : Outcome StreamDirection)
        → stream_direction k code ≡ x
        → IsSound (setup_stream k sdk code format channels has_args d).1
    by_direction (throw e) f = simp f v
    by_direction (ok direction) f =
        ended direction (setup_stream k sdk code format channels has_args d)
          (setup_stream_atomic k sdk code direction format channels has_args d v fresh f)

-- A call that ends leaves the device sound.
abbrev Left : {A : Type 0} → Option (Called A) → Type 0
Left none = Unit
Left (some (r, d)) = IsSound d

module _ (k : Constants) (c : AreErrors k) (d : Device) (v : IsSound d) where
  deactivate_stream-Left :
      (o : Stopping) (stream flags : ℕ) (time_ns : ℤ) (x : Option StreamHandle)
      → find_stream_handle d stream ≡ x
      → Left (deactivate_stream k o stream flags time_ns d)
  unfolding deactivate_stream
  deactivate_stream-Left o stream flags time_ns none e = simp e v
  deactivate_stream-Left o stream flags time_ns (some h) e =
      ended (deactivate_found k o flags time_ns d (find_stream_handle d stream))
        (deactivate_stream-Deactivates k o stream flags time_ns d h v c e)
    where
      ended : (r : Option (Called ℤ)) → Deactivates h.direction d r → Left r
      ended none w = tt
      ended (some (r, d')) w = w.0.sound

  close_stream-Left :
      (o : Stopping) (stream : ℕ) (x : Option StreamHandle)
      → find_stream_handle d stream ≡ x
      → Left (close_stream k o stream d)
  unfolding close_stream
  close_stream-Left o stream none e = simp e v
  close_stream-Left o stream (some h) e =
      ended (close_found k o stream d (find_stream_handle d stream))
        (close_stream-Closes k o stream d h v c e)
    where
      ended : (r : Option (Called (Unit {0}))) → Closes h.direction stream d r → Left r
      ended none w = tt
      ended (some (throw e, d')) w = w.sound
      ended (some (ok done, d')) w = w.sound

  activate_stream-Left :
      (o : Starting) (stream flags : ℕ) (time_ns : ℤ) (num_elems : ℕ) (x : Option StreamHandle)
      → IsDouble o.actual_rate.1
      → find_stream_handle d stream ≡ x
      → Left (activate_stream k o stream flags time_ns num_elems d)
  unfolding activate_stream activate_stream_impl
  activate_stream-Left o stream flags time_ns num_elems none real e = simp e v
  activate_stream-Left o stream flags time_ns num_elems (some h) real e =
      ended (activate_stream_ends k o stream flags time_ns num_elems d h v c real e)
    where
      ended :
          (status : ℤ) × (d' : Device) × (activate_stream k o stream flags time_ns num_elems d
              ≡ some (ok status, d'))
            × Keeps d d'
            × (eqb_ℤ status (pos 0) ≡ true → is_free h.direction d' ≡ false)
          → Left (activate_stream k o stream flags time_ns num_elems d)
      ended (status, d', f, w, owned) = subst Left (sym f) w.sound

-- In every state that calls of `setupStream`, `activateStream`, `deactivateStream` and `closeStream` reach
-- from a new device, in any order, with any arguments and answers of the SDK, and with steps of the receive
-- worker and changes of the transmit ring between them: tokens are of their direction, not null and distinct;
-- hardware or a worker of RX, or an activation of TX, has its stream, by which it can be stopped; and a
-- thread that starts TX belongs to an activation.
pub reachable-IsSound : (k : Constants) (d : Device) → AreErrors k → IsReachable k d → IsSound d
reachable-IsSound k d c (new n) = new-IsSound d n
reachable-IsSound k _ c (sets_up {d = d} sdk code format channels has_args v fresh) =
    setup_stream-IsSound k sdk code format channels has_args d (reachable-IsSound k d c v) fresh
reachable-IsSound k _ c (activates {d = d} o stream flags time_ns num_elems r v real f) =
    subst Left f (
      activate_stream-Left k c d (reachable-IsSound k d c v) o stream flags time_ns num_elems _ real
        refl)
reachable-IsSound k _ c (deactivates {d = d} o stream flags time_ns r v f) =
    subst Left f
      (deactivate_stream-Left k c d (reachable-IsSound k d c v) o stream flags time_ns _ refl)
reachable-IsSound k _ c (closes {d = d} o stream r v f) =
    subst Left f (close_stream-Left k c d (reachable-IsSound k d c v) o stream _ refl)
reachable-IsSound k _ c (receives {d = d} s result v e) =
    receives-IsSound d s result (reachable-IsSound k d c v) e
reachable-IsSound k _ c (writes {d = d} t v) = writes-IsSound d t (reachable-IsSound k d c v)
