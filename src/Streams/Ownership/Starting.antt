-- ===== src/Streams/Ownership/Starting.antt =====
-- `activateStream` returns, and success means that the hardware is owned.
use soapy_sidekiq.Base.{
  ℕ, ◌≡◌, ◌==◌, refl, inl, inr, ◌⊎◌, Bool, true, false, not, ◌&&◌, ◌||◌, Option, none, some,
  Outcome, ok, throw, Exception, runtime_error, if◌then◌else◌,
}
use soapy_sidekiq.Base.Double.{IsDouble}
use soapy_sidekiq.Base.Int.{ℤ, pos, eqb_ℤ}
use soapy_sidekiq.RxSession.{Session, RxSessionConfiguration}
use soapy_sidekiq.RxSession.Lifecycle.{Returned, owns_hardware_or_worker, activate_configured}
use soapy_sidekiq.StreamRequest.{StreamDirection, rx, tx}
use soapy_sidekiq.Streams.{
  Constants, StreamHandle, Device, Called, find_stream_handle, on_time, other_flags,
}
use soapy_sidekiq.Streams.Activate.{
  Starting, prepare, with_rate, configuration, activated_rx, activate_prepared, activate_rx,
  admit_writes, start_on_pps, start_now, tx_configures, activate_tx, activate_by, activate_found,
  activate_stream_impl, caught, activate_stream,
}
use soapy_sidekiq.Streams.Ownership.{
  IsSound, Keeps, Keeps-refl, with_session-Keeps, find_stream-active,
}
use soapy_sidekiq.Streams.Ownership.Deactivating.{AreErrors, is_free}
use soapy_sidekiq.Streams.Setup.{is_some}
use soapy_sidekiq.Timestamp.Rate.{TimestampRate, from_actual_rate}
use soapy_sidekiq.Streams.Ownership.Launched.{
  Owned, activate_configured-Owned, Ends, from_actual_rate-Ends,
}
use soapy_sidekiq.Tx.{Tx}

-- What the implementation does of a stream of this direction, and, after its `catch`, the whole.
unfoldable pub Activates : StreamDirection → Device → Option (Called ℤ) → Type 0
Activates direction d none = ⊥
Activates direction d (some (throw e, d')) = Keeps d d'
Activates direction d (some (ok status, d')) =
    Keeps d d' × (eqb_ℤ status (pos 0) ≡ true → is_free direction d' ≡ false)

if-Activates :
    (direction : StreamDirection) (d : Device) (b : Bool) (x y : Option (Called ℤ))
    → Activates direction d x
    → Activates direction d y
    → Activates direction d (if b then x else y)
if-Activates direction d true x y p q = p
if-Activates direction d false x y p q = q

module _ (k : Constants) (o : Starting) (d : Device) (v : IsSound d) (c : AreErrors k) where
  failed-Activates :
      (direction : StreamDirection) (d' : Device)
      → Keeps d d'
      → Activates direction d (some (ok k.stream_error, d'))
  unfolding Activates
  failed-Activates direction d' w = (w, λ z. cc (z, c.stream_error_fails))

  thrown-Activates :
      (direction : StreamDirection) (d' : Device) (e : Exception)
      → Keeps d d'
      → Activates direction d (some (throw e, d'))
  unfolding Activates
  thrown-Activates direction d' e w = w

  activated_rx-Activates :
      is_some d.active_rx_stream ≡ true
      → (r : Returned) → Owned r
      → Activates rx d (some (activated_rx d r))
  unfolding Owned Activates
  activated_rx-Activates held (throw e, s) w = with_session-Keeps d (some s) v (λ z. held)
  activated_rx-Activates held (ok status, s) w = answered (eqb_ℤ status (pos 0)) w
    where
      answered :
          (z : Bool)
          → (z ≡ true → owns_hardware_or_worker s ≡ true)
          → Activates rx d (
              some (
                if not z
                then (throw runtime_error, record d { session = some s })
                else (ok (pos 0), record d { session = some s })))
      answered false f = with_session-Keeps d (some s) v (λ z. held)
      answered true f = (with_session-Keeps d (some s) v (λ z. held), λ z. rw (f refl) refl)

  activate_rx-Activates :
      (h : StreamHandle) (on_pps : Bool) (x : Option Session)
      → is_some d.active_rx_stream ≡ true
      → IsDouble o.actual_rate.1
      → Activates rx d (activate_rx k o h on_pps d x)
  unfolding prepare
  activate_rx-Activates h on_pps none held real = failed-Activates rx d (Keeps-refl d v)
  activate_rx-Activates h on_pps (some s) held real = rated (not (eqb_ℤ o.actual_rate.0 (pos 0)))
    where
      prepared :
          (p : Outcome RxSessionConfiguration) → Activates rx d (activate_prepared k o d s (some p))
      prepared p =
          activated_rx-Activates held (activate_configured k.enodev o.backend o.thread_starts p s)
            (activate_configured-Owned k.enodev o.backend o.thread_starts p s)

      with_fuel :
          (r : Outcome (Option TimestampRate))
          → Ends r
          → Activates rx d (activate_prepared k o d s (with_rate o h on_pps d r))
      with_fuel (throw e) w = prepared (throw e)
      with_fuel (ok none) w = absurd w
      with_fuel (ok (some rate)) w = prepared (configuration o h on_pps d rate)

      rated :
          (b : Bool)
          → Activates rx d (
              activate_prepared k o d s (
                if b
                then some (throw runtime_error)
                else with_rate o h on_pps d (from_actual_rate o.actual_rate.1)))
      rated true = prepared (throw runtime_error)
      rated false =
          with_fuel (from_actual_rate o.actual_rate.1) (from_actual_rate-Ends o.actual_rate.1 real)

  admitted-Keeps :
      (b : Bool) (t : Tx)
      → is_some d.active_tx_stream ≡ true
      → Keeps d (record d { tx_thread = b; tx_stream_active = true; tx = t })
  admitted-Keeps b t held = record {
    sound = record {
      rx_stream = v.rx_stream;
      tx_stream = v.tx_stream;
      apart = v.apart;
      rx_held = v.rx_held;
      tx_held = λ z. held;
      thread_active = λ z. refl;
    };
    same_rx = refl;
    same_tx = refl;
  }

  prepared-Keeps : (t : Tx) → Keeps d (record d { tx = t })
  prepared-Keeps t = record {
    sound = record {
      rx_stream = v.rx_stream;
      tx_stream = v.tx_stream;
      apart = v.apart;
      rx_held = v.rx_held;
      tx_held = v.tx_held;
      thread_active = v.thread_active;
    };
    same_rx = refl;
    same_tx = refl;
  }

  admitted-Activates :
      (b : Bool) (t : Tx)
      → is_some d.active_tx_stream ≡ true
      → Activates tx d
          (some (ok (pos 0), record d { tx_thread = b; tx_stream_active = true; tx = t }))
  unfolding Activates
  admitted-Activates b t held = (admitted-Keeps b t held, λ z. refl)

  either :
      (b : Bool) (x y : Called ℤ)
      → Activates tx d (some x)
      → Activates tx d (some y)
      → Activates tx d (some (if b then x else y))
  either true x y p q = p
  either false x y p q = q

  start_on_pps-Activates :
      (t : Tx)
      → is_some d.active_tx_stream ≡ true
      → Activates tx d (some (start_on_pps o (record d { tx = t })))
  unfolding start_on_pps admit_writes
  start_on_pps-Activates t held =
      either (not o.thread_starts) _ _ (thrown-Activates tx _ runtime_error (prepared-Keeps _))
        (admitted-Activates true _ held)

  start_now-Activates :
      (t : Tx)
      → is_some d.active_tx_stream ≡ true
      → Activates tx d (some (start_now k o (record d { tx = t })))
  unfolding start_now admit_writes
  start_now-Activates t held =
      either (not (eqb_ℤ o.start_tx (pos 0))) _ _ (failed-Activates tx _ (prepared-Keeps t))
        (admitted-Activates d.tx_thread _ held)

  activate_tx-Activates :
      (flags : ℕ)
      → is_some d.active_tx_stream ≡ true
      → Activates tx d (some (activate_tx k o flags d))
  unfolding activate_tx
  activate_tx-Activates flags held = either (d.tx_stream_active || d.tx_thread) _ _ failed (
      either (not (tx_configures o d.iq_swap)) _ _ failed (
        either (flags == k.time_flag) _ _ (start_on_pps-Activates _ held)
          (start_now-Activates _ held)))
    where
      failed : Activates tx d (some (ok k.stream_error, d))
      failed = failed-Activates tx d (Keeps-refl d v)

  activate_stream_impl-Activates :
      (stream flags : ℕ) (time_ns : ℤ) (num_elems : ℕ) (h : StreamHandle)
      → IsDouble o.actual_rate.1
      → find_stream_handle d stream ≡ some h
      → Activates h.direction d (activate_stream_impl k o stream flags time_ns num_elems d)
  unfolding activate_stream_impl Activates
  activate_stream_impl-Activates stream flags time_ns num_elems h real e =
      simp e (checked (find_stream-active d stream h v e))
    where
      by_direction :
          ((h.direction ≡ rx) × (d.active_rx_stream ≡ some h))
            ⊎ ((h.direction ≡ tx) × (d.active_tx_stream ≡ some h))
          → Activates h.direction d (activate_by k o flags h d h.direction)
      by_direction (inl (r, a)) =
          simp r (activate_rx-Activates h (on_time k flags) d.session (rw a refl) real)
      by_direction (inr (t, a)) = simp t (activate_tx-Activates flags (rw a refl))

      refused : Activates h.direction d (some (ok k.not_supported, d))
      refused = (Keeps-refl d v, λ z. cc (z, c.not_supported_fails))

      checked :
          ((h.direction ≡ rx) × (d.active_rx_stream ≡ some h))
            ⊎ ((h.direction ≡ tx) × (d.active_tx_stream ≡ some h))
          → Activates h.direction d (activate_found k o flags time_ns num_elems d (some h))
      checked place =
          if-Activates h.direction d
            (not (other_flags k flags == 0)
              || not (num_elems == 0)
              || (on_time k flags && not (eqb_ℤ time_ns (pos 0))))
            _ _ refused (by_direction place)

-- Whatever the SDK answers and whether or not a thread can be made, `activateStream` of a stream that the
-- device has returns and does not throw. The device stays sound and keeps its streams, and if the call
-- returns 0, the hardware of that direction is owned, so that a `deactivateStream` stops it. It needs
-- SoapySDR's codes of errors not to be 0.
pub activate_stream_ends :
    (k : Constants) (o : Starting) (stream flags : ℕ) (time_ns : ℤ) (num_elems : ℕ) (d : Device)
    (h : StreamHandle)
    → IsSound d
    → AreErrors k
    → IsDouble o.actual_rate.1
    → find_stream_handle d stream ≡ some h
    → (status : ℤ) × (d' : Device) × (activate_stream k o stream flags time_ns num_elems d
        ≡ some (ok status, d'))
      × Keeps d d'
      × (eqb_ℤ status (pos 0) ≡ true → is_free h.direction d' ≡ false)
unfolding activate_stream Activates
activate_stream_ends k o stream flags time_ns num_elems d h v c real e =
    returned (activate_stream_impl k o stream flags time_ns num_elems d)
      (activate_stream_impl-Activates k o d v c stream flags time_ns num_elems h real e)
  where
    returned :
        (r : Option (Called ℤ))
        → Activates h.direction d r
        → (status : ℤ) × (d' : Device) × (caught k r ≡ some (ok status, d'))
          × Keeps d d'
          × (eqb_ℤ status (pos 0) ≡ true → is_free h.direction d' ≡ false)
    returned none w = absurd w
    returned (some (throw x, d')) w =
        (k.stream_error, d', refl, w, λ z. cc (z, c.stream_error_fails))
    returned (some (ok status, d')) w = (status, d', refl, w.0, w.1)
