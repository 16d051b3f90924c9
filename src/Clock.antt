-- ===== src/Clock.antt =====
-- TimeClock.cpp: the time of the hardware, and the reference clock.
pub mod Pps
pub mod HardwareTime
use soapy_sidekiq.Base.{
  ℕ, ◌==◌, Bool, true, false, not, ◌&&◌, ◌||◌, List, [], ◌∷◌, Outcome, ok, throw, ◌>>=◌,
  invalid_argument, runtime_error, if◌then◌else◌,
}
use soapy_sidekiq.Base.Double.{Double, at_least_pow}
use soapy_sidekiq.Base.Int.{ℤ, pos, eqb_ℤ, ltb_ℤ}
use soapy_sidekiq.Base.Text.{Text, is_empty, is_same, equals_ignore_case}
use soapy_sidekiq.DeviceOptions.{internal_clock, external_clock}
use soapy_sidekiq.Settings.{sys_timestamp_text}
use soapy_sidekiq.StreamRequest.{StreamDirection, rx, tx}
use soapy_sidekiq.Streams.{Device, num_channels, get_handle, configure_while_rx_inactive}
use soapy_sidekiq.Timestamp.Conversion.{ticks_to_nanoseconds, nanoseconds_to_ticks}

-- "now", "1pps", "rx_rf_timestamp", "tx_rf_timestamp".
abbrev pub now_text : Text
now_text = 110 ∷ 111 ∷ 119 ∷ []

abbrev pub one_pps_text : Text
one_pps_text = 49 ∷ 112 ∷ 112 ∷ 115 ∷ []

abbrev pub rx_rf_timestamp : Text
rx_rf_timestamp =
    114 ∷ 120 ∷ 95 ∷ 114 ∷ 102 ∷ 95 ∷ 116 ∷ 105 ∷ 109 ∷ 101 ∷ 115 ∷ 116 ∷ 97 ∷ 109 ∷ 112 ∷ []

abbrev pub tx_rf_timestamp : Text
tx_rf_timestamp =
    116 ∷ 120 ∷ 95 ∷ 114 ∷ 102 ∷ 95 ∷ 116 ∷ 105 ∷ 109 ∷ 101 ∷ 115 ∷ 116 ∷ 97 ∷ 109 ∷ 112 ∷ []

-- The reference clocks that the SDK knows.
pub data RefClock : Type 0 where
  internal external host invalid : RefClock

-- Reads and writes, over the state of the hardware. A read gives a status with the value that it stores, a
-- write a status with the hardware behind it. `at_rate` is `ticksToNanosecondsAtRate`, which computes in
-- long double, and `ref_clock_freq` the frequency in the table of parameters.
pub record ClockSdk (H : Type 0) : Type 0 where
  pub frequency : H → ℤ × ℕ
  pub system_time : H → ℤ × ℕ
  pub actual_rate : H → StreamDirection → ℕ → ℤ × Double
  pub rf_time : H → StreamDirection → ℕ → ℤ × ℕ
  pub update_timestamps : H → ℕ → ℤ × H
  pub update_on_pps : H → ℕ → ℕ → ℤ × H
  pub at_rate : ℕ → Double → Outcome ℕ
  pub ref_clock : H → ℤ × RefClock
  pub select_ref_clock : H → RefClock → ℤ × H
  pub ext_ref_clock_freq : H → ℤ × ℕ
  pub ref_clock_freq : ℕ

abbrev pub succeeds : ℤ → Bool
succeeds status = eqb_ℤ status (pos 0)

unfoldable pub is_system : Text → Bool
is_system what = is_empty what || equals_ignore_case what sys_timestamp_text

-- `hasHardwareTime`.
unfoldable pub has_hardware_time : Device → Text → Bool
has_hardware_time d what =
    if is_system what
    then true
    else if equals_ignore_case what rx_rf_timestamp
    then not (d.num_rx_channels == 0)
    else if equals_ignore_case what tx_rf_timestamp
    then not (d.num_tx_channels == 0)
    else false

module _ {H : Type 0} (sdk : ClockSdk H) (d : Device) where
  unfoldable pub get_system_time : H → Outcome ℕ
  get_system_time hardware =
      let frequency = sdk.frequency hardware in
      let time = sdk.system_time hardware in
      if not (succeeds frequency.0)
      then throw runtime_error
      else if frequency.1 == 0
      then throw runtime_error
      else if not (succeeds time.0)
      then throw runtime_error
      else ticks_to_nanoseconds time.1 frequency.1

  abbrev pub rf_time_of : H → StreamDirection → ℕ → Outcome ℕ
  rf_time_of hardware direction handle =
      let rate = sdk.actual_rate hardware direction handle in
      let time = sdk.rf_time hardware direction handle in
      if not (succeeds rate.0)
      then throw runtime_error
      else if not (at_least_pow rate.1 0) || at_least_pow rate.1 32
      then throw runtime_error
      else if not (succeeds time.0)
      then throw runtime_error
      else sdk.at_rate time.1 rate.1

  unfoldable pub get_rf_time : StreamDirection → H → Outcome ℕ
  get_rf_time direction hardware = get_handle d direction 0 >>= rf_time_of hardware direction

  -- `getHardwareTime`.
  unfoldable pub get_hardware_time : Text → H → Outcome ℕ
  get_hardware_time what hardware =
      if is_system what
      then get_system_time hardware
      else if equals_ignore_case what rx_rf_timestamp
      then get_rf_time rx hardware
      else if equals_ignore_case what tx_rf_timestamp
      then get_rf_time tx hardware
      else throw invalid_argument

  abbrev pub updated : ℤ × H → Outcome (Unit {0}) × H
  updated (status, hardware) =
      if not (succeeds status) then (throw runtime_error, hardware) else (ok tt, hardware)

  -- At a PPS edge the RF counter starts at zero.
  abbrev pub update : Bool → H → Outcome ℕ → Outcome (Unit {0}) × H
  update now hardware (throw e) = (throw e, hardware)
  update now hardware (ok timestamp) = updated (
      if now
      then sdk.update_timestamps hardware timestamp
      else sdk.update_on_pps hardware 0 timestamp)

  unfoldable pub write_time : Bool → ℤ → H → Outcome (Unit {0}) × H
  write_time now time_ns hardware =
      let frequency = sdk.frequency hardware in
      if not (succeeds frequency.0)
      then (throw runtime_error, hardware)
      else update now hardware (nanoseconds_to_ticks time_ns frequency.1)

  -- `setHardwareTime`.
  unfoldable pub set_hardware_time : ℤ → Text → H → Outcome (Unit {0}) × H
  set_hardware_time time_ns what hardware =
      let now = is_empty what || equals_ignore_case what now_text in
      if not now && not (equals_ignore_case what one_pps_text)
      then (throw invalid_argument, hardware)
      else if ltb_ℤ time_ns (pos 0)
      then (throw invalid_argument, hardware)
      else configure_while_rx_inactive d.session (write_time now time_ns hardware) hardware

  abbrev pub clock_name : RefClock → Outcome Text
  clock_name internal = ok internal_clock
  clock_name host = ok internal_clock
  clock_name external = ok external_clock
  clock_name invalid = throw runtime_error

  -- `getClockSource` and `setClockSource`.
  unfoldable pub get_clock_source : H → Outcome Text
  get_clock_source hardware =
      if not (succeeds (sdk.ref_clock hardware).0)
      then throw runtime_error
      else clock_name (sdk.ref_clock hardware).1

  abbrev pub select : RefClock → H → Outcome (Unit {0}) × H
  select clock hardware =
      configure_while_rx_inactive d.session (updated (sdk.select_ref_clock hardware clock)) hardware

  unfoldable pub set_clock_source : Text → H → Outcome (Unit {0}) × H
  set_clock_source source hardware =
      if equals_ignore_case source internal_clock
      then select internal hardware
      else if equals_ignore_case source external_clock
      then select external hardware
      else (throw invalid_argument, hardware)

  abbrev pub nonzero : ℕ → Outcome ℕ
  nonzero frequency = if frequency == 0 then throw runtime_error else ok frequency

  -- `getReferenceClockRate`, which asks for an external clock by its name.
  unfoldable pub get_reference_clock_rate : H → Outcome ℕ
  get_reference_clock_rate hardware =
      let external_frequency = sdk.ext_ref_clock_freq hardware in
      get_clock_source hardware >>= (λ source.
        if is_same source external_clock
        then if not (succeeds external_frequency.0)
          then throw runtime_error
          else nonzero external_frequency.1
        else nonzero sdk.ref_clock_freq)
