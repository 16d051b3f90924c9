-- ===== src/Streams/Activate.antt =====
-- `activateStream`.
use soapy_sidekiq.Base.{
  ℕ, ◌==◌, ◌||◌, ◌&&◌, Bool, true, false, not, Option, none, some, Outcome, ok, throw,
  runtime_error, if◌then◌else◌,
}
use soapy_sidekiq.Base.Int.{ℤ, pos, eqb_ℤ}
use soapy_sidekiq.Base.Double.{Double}
use soapy_sidekiq.RxSession.{Session, RxStreamBackend, RxSessionConfiguration}
use soapy_sidekiq.RxSession.Lifecycle.{activate_configured, Returned}
use soapy_sidekiq.StreamRequest.{StreamDirection, rx, tx}
use soapy_sidekiq.Timestamp.Rate.{TimestampRate, from_actual_rate}
use soapy_sidekiq.Streams.{
  Constants, StreamHandle, Device, Called, find_stream_handle, on_time, other_flags,
}

-- What the SDK answers, and whether `std::thread` can make a thread.
pub record Starting : Type 0 where
  pub backend : RxStreamBackend
  pub thread_starts : Bool
  pub actual_rate : ℤ × Double
  pub system_frequency : ℤ × ℕ
  pub iq_order : ℤ
  pub tx_block_size : ℤ
  pub tx_data_flow_mode : ℤ
  pub tx_transfer_mode : ℤ
  pub num_tx_threads : ℤ
  pub start_tx : ℤ

-- The callback that captures the timing, after its read of the rate.
unfoldable pub configuration :
    Starting → StreamHandle → Bool → Device → TimestampRate → Outcome RxSessionConfiguration
configuration o h on_pps d rate =
    if not d.rf_time_source && not (eqb_ℤ o.system_frequency.0 (pos 0))
    then throw runtime_error
    else ok (record {
      handle = h.rx_handle;
      block_samples = d.rx_payload_size_in_words;
      sample_rate = rate;
      system_timestamp_frequency = if d.rf_time_source then d.sys_freq else o.system_frequency.1;
      use_rf_timestamp = d.rf_time_source;
      on_pps = on_pps;
    })

-- `none` says that the reduction of the rate ran out of fuel.
abbrev pub with_rate :
    Starting
    → StreamHandle
    → Bool
    → Device
    → Outcome (Option TimestampRate)
    → Option (Outcome RxSessionConfiguration)
with_rate o h on_pps d (throw e) = some (throw e)
with_rate o h on_pps d (ok none) = none
with_rate o h on_pps d (ok (some rate)) = some (configuration o h on_pps d rate)

unfoldable pub prepare :
    Starting → StreamHandle → Bool → Device → Option (Outcome RxSessionConfiguration)
prepare o h on_pps d =
    if not (eqb_ℤ o.actual_rate.0 (pos 0))
    then some (throw runtime_error)
    else with_rate o h on_pps d (from_actual_rate o.actual_rate.1)

abbrev pub activated_rx : Device → Returned → Called ℤ
activated_rx d (throw e, s) = (throw e, record d { session = some s })
activated_rx d (ok status, s) =
    let d' = record d { session = some s } in
    if not (eqb_ℤ status (pos 0)) then (throw runtime_error, d') else (ok (pos 0), d')

abbrev pub activate_prepared :
    Constants
    → Starting
    → Device
    → Session
    → Option (Outcome RxSessionConfiguration)
    → Option (Called ℤ)
activate_prepared k o d s none = none
activate_prepared k o d s (some prepared) =
    some (activated_rx d (activate_configured k.enodev o.backend o.thread_starts prepared s))

abbrev pub activate_rx :
    Constants → Starting → StreamHandle → Bool → Device → Option Session → Option (Called ℤ)
activate_rx k o h on_pps d none = some (ok k.stream_error, d)
activate_rx k o h on_pps d (some s) = activate_prepared k o d s (prepare o h on_pps d)

-- The end of a successful activation.
unfoldable pub admit_writes : Device → Device
admit_writes d = record d { tx_stream_active = true; tx = record d.tx { writes_stopping = false } }

-- The start on a PPS edge by a thread, or at once.
unfoldable pub start_on_pps : Starting → Device → Called ℤ
start_on_pps o d =
    let d' = record d { tx = record d.tx { start_finished = false; start_status = pos 0 } } in
    if not o.thread_starts then (throw runtime_error, d') else (
      ok (pos 0),
      admit_writes (record d' { tx_thread = true; tx = record d'.tx { first_transmit = true } }),
    )

unfoldable pub start_now : Constants → Starting → Device → Called ℤ
start_now k o d =
    if not (eqb_ℤ o.start_tx (pos 0))
    then (ok k.stream_error, d)
    else (ok (pos 0), admit_writes (record d { tx = record d.tx { underruns = 0 } }))

-- The calls that configure the hardware for TX, in order; the first that fails ends the activation.
unfoldable pub tx_configures : Starting → Bool → Bool
tx_configures o iq_swap =
    (not iq_swap || eqb_ℤ o.iq_order (pos 0))
    && eqb_ℤ o.tx_block_size (pos 0)
    && eqb_ℤ o.tx_data_flow_mode (pos 0)
    && eqb_ℤ o.tx_transfer_mode (pos 0)
    && eqb_ℤ o.num_tx_threads (pos 0)

unfoldable pub activate_tx : Constants → Starting → ℕ → Device → Called ℤ
activate_tx k o flags d =
    let d' = record d { tx = record d.tx { first_transmit = false } } in
    if d.tx_stream_active || d.tx_thread
    then (ok k.stream_error, d)
    else if not (tx_configures o d.iq_swap)
    then (ok k.stream_error, d)
    else if flags == k.time_flag
    then start_on_pps o d'
    else start_now k o d'

abbrev pub activate_by :
    Constants → Starting → ℕ → StreamHandle → Device → StreamDirection → Option (Called ℤ)
activate_by k o flags h d rx = activate_rx k o h (on_time k flags) d d.session
activate_by k o flags h d tx = some (activate_tx k o flags d)

abbrev pub activate_found :
    Constants → Starting → ℕ → ℤ → ℕ → Device → Option StreamHandle → Option (Called ℤ)
activate_found k o flags time_ns num_elems d none = some (ok k.stream_error, d)
activate_found k o flags time_ns num_elems d (some h) =
    if not (other_flags k flags == 0)
      || not (num_elems == 0)
      || (on_time k flags && not (eqb_ℤ time_ns (pos 0)))
    then some (ok k.not_supported, d)
    else activate_by k o flags h d h.direction

-- `activateStreamImpl`. A token that was found is the active one of its direction.
unfoldable pub activate_stream_impl :
    Constants → Starting → ℕ → ℕ → ℤ → ℕ → Device → Option (Called ℤ)
activate_stream_impl k o stream flags time_ns num_elems d =
    activate_found k o flags time_ns num_elems d (find_stream_handle d stream)

abbrev pub caught : Constants → Option (Called ℤ) → Option (Called ℤ)
caught k none = none
caught k (some (throw e, d)) = some (ok k.stream_error, d)
caught k (some (ok status, d)) = some (ok status, d)

-- `activateStream`. What is thrown derives from `std::exception`.
unfoldable pub activate_stream : Constants → Starting → ℕ → ℕ → ℤ → ℕ → Device → Option (Called ℤ)
activate_stream k o stream flags time_ns num_elems d =
    caught k (activate_stream_impl k o stream flags time_ns num_elems d)
