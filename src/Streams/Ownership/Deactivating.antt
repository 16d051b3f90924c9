-- ===== src/Streams/Ownership/Deactivating.antt =====
-- `deactivateStream` and `stopTxStream` keep the streams, and let the hardware go when they succeed.
use soapy_sidekiq.Base.{
  ℕ, ◌≡◌, ◌==◌, refl, inl, inr, Bool, true, false, not, ◌&&◌, ◌||◌, Bool-cases, arith, Option, none,
  some, Outcome, ok, throw, if◌then◌else◌,
}
use soapy_sidekiq.Base.Int.{ℤ, pos, eqb_ℤ}
use soapy_sidekiq.RxSession.{Session}
use soapy_sidekiq.RxSession.Lifecycle.{deactivate, Returned, owns_hardware_or_worker}
use soapy_sidekiq.RxSession.Steps.Activation.{is_success}
use soapy_sidekiq.StreamRequest.{StreamDirection, rx, tx}
use soapy_sidekiq.Streams.{
  Constants, StreamHandle, Device, Called, find_stream_handle, on_time, other_flags,
}
use soapy_sidekiq.Streams.Ownership.{owns_rx, IsSound, Keeps, Keeps-refl, with_session-Keeps}
use soapy_sidekiq.Streams.Ownership.Stopped.{Releases, deactivate-Releases}
use soapy_sidekiq.Streams.Setup.{is_some}
use soapy_sidekiq.Streams.Stop.{
  Stopping, stop_tx_writes, join_tx, drained, stop_hardware_tx, stop_tx_stream, deactivated_rx,
  deactivate_rx, deactivated_tx, deactivate_by, deactivate_stream,
}

-- SoapySDR's codes of errors are not the code of success.
pub record AreErrors (k : Constants) : Type 0 where
  pub stream_error_fails : eqb_ℤ k.stream_error (pos 0) ≡ false
  pub not_supported_fails : eqb_ℤ k.not_supported (pos 0) ≡ false

-- The hardware of a direction is not owned.
abbrev pub is_free : StreamDirection → Device → Bool
is_free rx d = not (owns_rx d.session)
is_free tx d = not d.tx_stream_active

-- After a `deactivateStream` of a stream of this direction.
abbrev pub Deactivates : StreamDirection → Device → Option (Called ℤ) → Type 0
Deactivates direction d none = Unit
Deactivates direction d (some (outcome, d')) =
    Keeps d d' × (is_success outcome ≡ true → is_free direction d' ≡ true)

abbrev pub Stops : Device → ℤ × Device → Type 0
Stops d (status, d') = Keeps d d' × (eqb_ℤ status (pos 0) ≡ true → d'.tx_stream_active ≡ false)

join_tx-Keeps :
    (e : ℤ) (start : Outcome ℤ) (d : Device)
    → IsSound d
    → Keeps d (join_tx e start d) × ((join_tx e start d).tx_thread ≡ false)
unfolding join_tx
join_tx-Keeps e start d v = elim (Bool-cases d.tx_thread) [
  | inl t ↦ simp t (
    record {
      sound = record {
        rx_stream = v.rx_stream;
        tx_stream = v.tx_stream;
        apart = v.apart;
        rx_held = v.rx_held;
        tx_held = v.tx_held;
        thread_active = λ h. cc h;
      };
      same_rx = refl;
      same_tx = refl;
    },
    refl,
  )
  | inr f ↦ simp f (Keeps-refl d v, refl)
]

-- The state in which `stopTxStream` asks for the hardware.
drained-Keeps :
    (k : Constants) (o : Stopping) (d : Device)
    → IsSound d
    → Keeps d (drained k o d) × ((drained k o d).tx_thread ≡ false)
drained-Keeps k o d v =
    (record { sound = step.0.sound; same_rx = step.0.same_rx; same_tx = step.0.same_tx }, step.1)
  where
    waited : Device
    waited = record d { tx = stop_tx_writes o.events d.tx }

    step :
        Keeps waited (join_tx k.stream_error o.start waited)
        × ((join_tx k.stream_error o.start waited).tx_thread ≡ false)
    step = join_tx-Keeps k.stream_error o.start waited (record {
      rx_stream = v.rx_stream;
      tx_stream = v.tx_stream;
      apart = v.apart;
      rx_held = v.rx_held;
      tx_held = v.tx_held;
      thread_active = v.thread_active;
    })

-- The hardware of TX is let go.
released_tx-Keeps :
    (d d' : Device)
    → Keeps d d'
    → d'.tx_thread ≡ false
    → Keeps d (record d' { tx_stream_active = false })
released_tx-Keeps d d' w idle = record {
  sound = record {
    rx_stream = w.sound.rx_stream;
    tx_stream = w.sound.tx_stream;
    apart = w.sound.apart;
    rx_held = w.sound.rx_held;
    tx_held = λ h. cc h;
    thread_active = λ h. cc (h, idle);
  };
  same_rx = w.same_rx;
  same_tx = w.same_tx;
}

pub stop_tx_stream-Stops :
    (k : Constants) (o : Stopping) (on_pps : Bool) (d : Device)
    → IsSound d
    → Stops d (stop_tx_stream k o on_pps d)
unfolding stop_tx_stream
stop_tx_stream-Stops k o on_pps d v = by_activity d'.tx_stream_active refl
  where
    d' : Device
    d' = drained k o d

    w : Keeps d d' × (d'.tx_thread ≡ false)
    w = drained-Keeps k o d v

    asked :
        (status : ℤ) (z e : Bool)
        → eqb_ℤ status (pos 0) ≡ z
        → Stops d (
            if not z && not e
            then (status, d')
            else (pos 0, record d' { tx_stream_active = false }))
    asked status true e h = (released_tx-Keeps d d' w.0 w.1, λ z. refl)
    asked status false true h = (released_tx-Keeps d d' w.0 w.1, λ z. refl)
    asked status false false h = (w.0, λ z. cc (z, h))

    by_handle :
        (x : Option StreamHandle) → is_some x ≡ true → Stops d (stop_hardware_tx k o on_pps d' x)
    by_handle none h = cc h
    by_handle (some h) e =
        asked (o.stop_tx h.tx_handle on_pps) (eqb_ℤ (o.stop_tx h.tx_handle on_pps) (pos 0))
          (eqb_ℤ (o.stop_tx h.tx_handle on_pps) k.enodev) refl

    by_activity :
        (a : Bool)
        → d'.tx_stream_active ≡ a
        → Stops d
            (if not a then (pos 0, d') else stop_hardware_tx k o on_pps d' d'.active_tx_stream)
    by_activity false e = (w.0, λ h. e)
    by_activity true e = by_handle d'.active_tx_stream (w.0.sound.tx_held e)

-- What a session still owns after a stop, it owned before.
stopped-Keeps :
    (d : Device) (s t : Session) (l : Bool)
    → IsSound d
    → d.session ≡ some s
    → owns_hardware_or_worker t ≡ (not l && s.active)
    → Keeps d (record d { session = some t })
stopped-Keeps d s t l v e h =
    with_session-Keeps d (some t) v (λ owns. v.rx_held (before (ground arith)))
  where
    before : s.active ≡ true → owns_rx d.session ≡ true
    before a = rw e (ground arith)

-- The answer of `deactivateStream` for RX.
deactivated_rx-Deactivates :
    (k : Constants) (d : Device) (s : Session) (r : Option Returned)
    → IsSound d
    → AreErrors k
    → d.session ≡ some s
    → Releases k.enodev s r
    → Deactivates rx d (deactivated_rx k d r)
deactivated_rx-Deactivates k d s none v c e h = tt
deactivated_rx-Deactivates k d s (some (throw x, t)) v c e h =
    (stopped-Keeps d s t false v e h, λ z. cc z)
deactivated_rx-Deactivates k d s (some (ok status, t)) v c e h =
    answered (eqb_ℤ status k.enodev) (eqb_ℤ status (pos 0)) h
  where
    answered :
        (n z : Bool)
        → owns_hardware_or_worker t ≡ (not (z || n) && s.active)
        → Deactivates rx d (
            if n
            then some (ok (pos 0), record d { session = some t })
            else if not z
            then some (ok k.stream_error, record d { session = some t })
            else some (ok (pos 0), record d { session = some t }))
    answered true z h = (stopped-Keeps d s t (z || true) v e h, λ y. ground arith)
    answered false false h = (stopped-Keeps d s t false v e h, λ y. cc (y, c.stream_error_fails))
    answered false true h = (stopped-Keeps d s t true v e h, λ y. ground arith)

deactivate_rx-Deactivates :
    (k : Constants) (o : Stopping) (on_pps : Bool) (d : Device) (x : Option Session)
    → IsSound d
    → AreErrors k
    → d.session ≡ x
    → Deactivates rx d (deactivate_rx k o on_pps d x)
deactivate_rx-Deactivates k o on_pps d none v c e = answered (eqb_ℤ k.stream_error k.enodev)
  where
    free : not (owns_rx d.session) ≡ true
    free = rw e refl

    answered :
        (n : Bool)
        → Deactivates rx d (if n then some (ok (pos 0), d) else some (ok k.stream_error, d))
    answered true = (Keeps-refl d v, λ z. free)
    answered false = (Keeps-refl d v, λ z. free)
deactivate_rx-Deactivates k o on_pps d (some s) v c e =
    deactivated_rx-Deactivates k d s (deactivate k.enodev o.backend on_pps o.results s) v c e
      (deactivate-Releases k.enodev o.backend on_pps o.results s)

deactivated_tx-Deactivates :
    (k : Constants) (d : Device) (r : ℤ × Device)
    → AreErrors k
    → Stops d r
    → Deactivates tx d (some (deactivated_tx k r))
deactivated_tx-Deactivates k d (status, d') c w = answered (eqb_ℤ status (pos 0)) w.1
  where
    answered :
        (z : Bool)
        → (z ≡ true → d'.tx_stream_active ≡ false)
        → Deactivates tx d (some (if not z then (ok k.stream_error, d') else (ok (pos 0), d')))
    answered true h = (w.0, λ y. rw (h refl) refl)
    answered false h = (w.0, λ y. cc (y, c.stream_error_fails))

pub deactivate_stream-Deactivates :
    (k : Constants) (o : Stopping) (stream flags : ℕ) (time_ns : ℤ) (d : Device) (h : StreamHandle)
    → IsSound d
    → AreErrors k
    → find_stream_handle d stream ≡ some h
    → Deactivates h.direction d (deactivate_stream k o stream flags time_ns d)
unfolding deactivate_stream
deactivate_stream-Deactivates k o stream flags time_ns d h v c e = simp e (
    checked (not (other_flags k flags == 0) || (on_time k flags && not (eqb_ℤ time_ns (pos 0))))
      h.direction)
  where
    by_direction : (x : StreamDirection) → Deactivates x d (deactivate_by k o (on_time k flags) d x)
    by_direction rx = deactivate_rx-Deactivates k o (on_time k flags) d d.session v c refl
    by_direction tx =
        deactivated_tx-Deactivates k d (stop_tx_stream k o (on_time k flags) d) c
          (stop_tx_stream-Stops k o (on_time k flags) d v)

    checked :
        (b : Bool) (x : StreamDirection)
        → Deactivates x d
            (if b then some (ok k.not_supported, d) else deactivate_by k o (on_time k flags) d x)
    checked true x = (Keeps-refl d v, λ z. cc (z, c.not_supported_fails))
    checked false x = by_direction x
