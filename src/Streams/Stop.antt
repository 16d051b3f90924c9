-- ===== src/Streams/Stop.antt =====
-- `deactivateStream` and `closeStream`, and from TxStreaming.cpp `stopTxWrites`, `stopTxStream` and
-- `shutdownTx`.
use soapy_sidekiq.Base.{
  ℕ, ◌==◌, ◌||◌, ◌&&◌, Bool, true, false, not, Option, none, some, List, Outcome, ok, throw,
  invalid_argument, runtime_error, if◌then◌else◌,
}
use soapy_sidekiq.Base.Int.{ℤ, pos, eqb_ℤ}
use soapy_sidekiq.RxSession.{Session, RxStreamBackend, RxReceiveResult}
use soapy_sidekiq.RxSession.Lifecycle.{deactivate, Returned}
use soapy_sidekiq.StreamRequest.{StreamDirection, rx, tx}
use soapy_sidekiq.Tx.{Tx, Event, happen, streaming_start}
use soapy_sidekiq.Streams.{
  Constants, StreamHandle, Device, Called, find_stream_handle, on_time, other_flags,
}

-- What happens beside a stop and what the SDK answers to it: what the receive worker still gets; what other
-- threads do to TX until the last call has left; the start for which the thread is still in the SDK; and the
-- stop of TX on a handle, at a PPS edge or at once.
pub record Stopping : Type 0 where
  pub backend : RxStreamBackend
  pub results : List (Outcome RxReceiveResult)
  pub events : List Event
  pub start : Outcome ℤ
  pub stop_tx : ℕ → Bool → ℤ

-- `stopTxWrites`. It returns when the counts of writers and of status readers are 0.
unfoldable pub stop_tx_writes : List Event → Tx → Tx
stop_tx_writes events t = record (happen events (record t { writes_stopping = true })) {
  active_writers = 0;
}

-- The join of the thread that starts TX, which returns when that thread has published its result.
unfoldable pub join_tx : ℤ → Outcome ℤ → Device → Device
join_tx stream_error start d =
    if d.tx_thread
    then record d {
      tx_thread = false;
      tx = if d.tx.start_finished then d.tx else streaming_start stream_error start d.tx;
    }
    else d

abbrev pub stop_hardware_tx :
    Constants → Stopping → Bool → Device → Option StreamHandle → ℤ × Device
stop_hardware_tx k o on_pps d none = (pos 0, d)
stop_hardware_tx k o on_pps d (some h) =
    let status = o.stop_tx h.tx_handle on_pps in
    if not (eqb_ℤ status (pos 0)) && not (eqb_ℤ status k.enodev)
    then (status, d)
    else (pos 0, record d { tx_stream_active = false })

abbrev pub drained : Constants → Stopping → Device → Device
drained k o d = join_tx k.stream_error o.start (record d { tx = stop_tx_writes o.events d.tx })

-- `stopTxStream`.
unfoldable pub stop_tx_stream : Constants → Stopping → Bool → Device → ℤ × Device
stop_tx_stream k o on_pps d =
    let d' = drained k o d in
    if not d'.tx_stream_active
    then (pos 0, d')
    else stop_hardware_tx k o on_pps d' d'.active_tx_stream

-- `shutdownTx`, which drops the status.
unfoldable pub shutdown_tx : Constants → Stopping → Device → Device
shutdown_tx k o d = record (stop_tx_stream k o false d).1 {
  active_tx_stream = none;
  has_tx_blocks = false;
}

-- The answers of `deactivateStream` after the stop of the session: -ENODEV counts as stopped.
abbrev pub deactivated_rx : Constants → Device → Option Returned → Option (Called ℤ)
deactivated_rx k d none = none
deactivated_rx k d (some (throw e, s)) = some (throw e, record d { session = some s })
deactivated_rx k d (some (ok status, s)) =
    let d' = record d { session = some s } in
    if eqb_ℤ status k.enodev
    then some (ok (pos 0), d')
    else if not (eqb_ℤ status (pos 0))
    then some (ok k.stream_error, d')
    else some (ok (pos 0), d')

abbrev pub deactivate_rx : Constants → Stopping → Bool → Device → Option Session → Option (Called ℤ)
deactivate_rx k o on_pps d none =
    if eqb_ℤ k.stream_error k.enodev then some (ok (pos 0), d) else some (ok k.stream_error, d)
deactivate_rx k o on_pps d (some s) =
    deactivated_rx k d (deactivate k.enodev o.backend on_pps o.results s)

abbrev pub deactivated_tx : Constants → ℤ × Device → Called ℤ
deactivated_tx k (status, d) =
    if not (eqb_ℤ status (pos 0)) then (ok k.stream_error, d) else (ok (pos 0), d)

abbrev pub deactivate_by :
    Constants → Stopping → Bool → Device → StreamDirection → Option (Called ℤ)
deactivate_by k o on_pps d rx = deactivate_rx k o on_pps d d.session
deactivate_by k o on_pps d tx = some (deactivated_tx k (stop_tx_stream k o on_pps d))

abbrev pub deactivate_found :
    Constants → Stopping → ℕ → ℤ → Device → Option StreamHandle → Option (Called ℤ)
deactivate_found k o flags time_ns d none = some (ok k.stream_error, d)
deactivate_found k o flags time_ns d (some h) =
    if not (other_flags k flags == 0) || (on_time k flags && not (eqb_ℤ time_ns (pos 0)))
    then some (ok k.not_supported, d)
    else deactivate_by k o (on_time k flags) d h.direction

-- `deactivateStream`; `none` says that the results end before the receive worker does. A token that was
-- found is the active one of its direction.
unfoldable pub deactivate_stream : Constants → Stopping → ℕ → ℕ → ℤ → Device → Option (Called ℤ)
deactivate_stream k o stream flags time_ns d =
    deactivate_found k o flags time_ns d (find_stream_handle d stream)

abbrev pub closed_rx : Option (Called ℤ) → Option (Called (Unit {0}))
closed_rx none = none
closed_rx (some (throw e, d)) = some (throw e, d)
closed_rx (some (ok status, d)) =
    if not (eqb_ℤ status (pos 0))
    then some (throw runtime_error, d)
    else some (ok tt, record d { active_rx_stream = none })

abbrev pub close_rx :
    Constants → Stopping → ℕ → Device → Option Session → Option (Called (Unit {0}))
close_rx k o stream d none = some (ok tt, record d { active_rx_stream = none })
close_rx k o stream d (some s) =
    if s.running
    then some (throw runtime_error, d)
    else closed_rx (deactivate_stream k o stream 0 (pos 0) d)

abbrev pub closed_tx : ℤ × Device → Called (Unit {0})
closed_tx (status, d) =
    if not (eqb_ℤ status (pos 0))
    then (throw runtime_error, d)
    else (ok tt, record d { active_tx_stream = none; has_tx_blocks = false })

abbrev pub close_by :
    Constants → Stopping → ℕ → Device → StreamDirection → Option (Called (Unit {0}))
close_by k o stream d rx = close_rx k o stream d d.session
close_by k o stream d tx =
    if d.tx_stream_active
    then some (throw runtime_error, d)
    else some (closed_tx (stop_tx_stream k o false d))

abbrev pub close_found :
    Constants → Stopping → ℕ → Device → Option StreamHandle → Option (Called (Unit {0}))
close_found k o stream d none = some (throw invalid_argument, d)
close_found k o stream d (some h) = close_by k o stream d h.direction

-- `closeStream`.
unfoldable pub close_stream : Constants → Stopping → ℕ → Device → Option (Called (Unit {0}))
close_stream k o stream d = close_found k o stream d (find_stream_handle d stream)
