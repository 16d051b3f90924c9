-- ===== src/Rates.antt =====
-- RFControls.cpp: sample rates and bandwidths.
pub mod Setting
pub mod Listing
use soapy_sidekiq.Base.{
  ℕ, zero, suc, ◌+◌, ◌/◌, ◌==◌, min, Bool, true, false, not, ◌||◌, List, [], ◌∷◌, Option, none,
  some, Outcome, ok, throw, ◌>>=◌, ◌>>◌, invalid_argument, runtime_error, ltb, leb, if◌then◌else◌,
}
use soapy_sidekiq.Base.Conversion.{checked_unsigned}
use soapy_sidekiq.Base.Double.{Double, at_least_pow}
use soapy_sidekiq.Base.Int.{ℤ, pos, eqb_ℤ}
use soapy_sidekiq.Base.Words.{add64}
use soapy_sidekiq.StreamRequest.{StreamDirection}
use soapy_sidekiq.Streams.{
  Constants, Device, validate_channel, get_handle, stream_direction, configure_while_rx_inactive,
}

-- What the SDK stores when a rate is read.
pub record RateReading : Type 0 where
  pub status : ℤ
  pub configured_rate : ℕ
  pub actual_rate : Double
  pub actual_bandwidth : ℕ

-- Reads and writes, over the state of the hardware. A write gives a status with the hardware behind it.
pub record RateSdk (H : Type 0) : Type 0 where
  pub read_rate : H → StreamDirection → ℕ → RateReading
  pub write_rate : H → StreamDirection → ℕ → ℕ → ℕ → ℤ × H
  pub min_rate : H → ℤ × ℕ
  pub max_rate : H → ℤ × ℕ

pub record RateAndBandwidth : Type 0 where
  pub configured_rate : ℕ
  pub actual_rate : Double
  pub actual_bandwidth : ℕ

-- The checks of a reading. A rate that is below 1, or not a number, is not at least 1.
unfoldable pub checked_reading : RateReading → Outcome RateAndBandwidth
checked_reading r =
    if not (eqb_ℤ r.status (pos 0))
    then throw runtime_error
    else if r.configured_rate == 0
        || not (at_least_pow r.actual_rate 0)
        || at_least_pow r.actual_rate 32
    then throw runtime_error
    else if r.actual_bandwidth == 0
    then throw runtime_error
    else ok (record {
      configured_rate = r.configured_rate;
      actual_rate = r.actual_rate;
      actual_bandwidth = r.actual_bandwidth;
    })

unfoldable pub at_least_one : ℕ → Outcome ℕ
at_least_one n = if n == 0 then throw invalid_argument else ok n

module _ {H : Type 0} (k : Constants) (sdk : RateSdk H) (d : Device) (code : ℤ) (channel : ℕ) where
  -- The handle of a channel that is validated first.
  unfoldable pub channel_handle : Outcome (StreamDirection × ℕ)
  channel_handle =
      validate_channel k d code channel
      >> (stream_direction k code
          >>= (λ direction. get_handle d direction channel >>= (λ handle. ok (direction, handle))))

  unfoldable pub read_rate_and_bandwidth : H → Outcome RateAndBandwidth
  read_rate_and_bandwidth hardware =
      channel_handle >>= (λ place. checked_reading (sdk.read_rate hardware place.0 place.1))

  abbrev pub read_back : ℤ × H → Outcome (Unit {0}) × H
  read_back (status, hardware) =
      if not (eqb_ℤ status (pos 0))
      then (throw runtime_error, hardware)
      else (read_rate_and_bandwidth hardware >>= (λ reading. ok tt), hardware)

  abbrev pub applied : ℕ → ℕ → H → Outcome (StreamDirection × ℕ) → Outcome (Unit {0}) × H
  applied rate bandwidth hardware (throw e) = (throw e, hardware)
  applied rate bandwidth hardware (ok place) =
      read_back (sdk.write_rate hardware place.0 place.1 rate bandwidth)

  unfoldable pub apply_rate_and_bandwidth : ℕ → ℕ → H → Outcome (Unit {0}) × H
  apply_rate_and_bandwidth rate bandwidth hardware = applied rate bandwidth hardware channel_handle

  abbrev pub apply_rate : ℕ → H → Outcome RateAndBandwidth → Outcome (Unit {0}) × H
  apply_rate requested hardware (throw e) = (throw e, hardware)
  apply_rate requested hardware (ok previous) =
      apply_rate_and_bandwidth requested (min previous.actual_bandwidth requested) hardware

  abbrev pub apply_bandwidth : ℕ → H → Outcome RateAndBandwidth → Outcome (Unit {0}) × H
  apply_bandwidth requested hardware (throw e) = (throw e, hardware)
  apply_bandwidth requested hardware (ok previous) =
      apply_rate_and_bandwidth previous.configured_rate requested hardware

  abbrev pub while_inactive :
      (ℕ → H → Outcome RateAndBandwidth → Outcome (Unit {0}) × H)
      → H
      → Outcome ℕ
      → Outcome (Unit {0}) × H
  while_inactive apply hardware (throw e) = (throw e, hardware)
  while_inactive apply hardware (ok requested) =
      configure_while_rx_inactive d.session
        (apply requested hardware (read_rate_and_bandwidth hardware)) hardware

  -- `setSampleRate` and `setBandwidth`.
  unfoldable pub set_sample_rate : Double → H → Outcome (Unit {0}) × H
  set_sample_rate rate hardware =
      while_inactive apply_rate hardware
        (validate_channel k d code channel >> (checked_unsigned 32 rate >>= at_least_one))

  unfoldable pub set_bandwidth : Double → H → Outcome (Unit {0}) × H
  set_bandwidth bandwidth hardware =
      while_inactive apply_bandwidth hardware
        (validate_channel k d code channel >> checked_unsigned 32 bandwidth)

  -- `getSampleRate` and `getBandwidth`.
  unfoldable pub get_sample_rate : H → Outcome Double
  get_sample_rate hardware = read_rate_and_bandwidth hardware >>= (λ r. ok r.actual_rate)

  unfoldable pub get_bandwidth : H → Outcome ℕ
  get_bandwidth hardware = read_rate_and_bandwidth hardware >>= (λ r. ok r.actual_bandwidth)

  -- `getSampleRateRange`, whose bounds are integers of 32 bits, which a double holds exactly.
  unfoldable pub get_sample_rate_range : H → Outcome (ℕ × ℕ)
  get_sample_rate_range hardware =
      let minimum = sdk.min_rate hardware in
      let maximum = sdk.max_rate hardware in
      validate_channel k d code channel
      >> (if not (eqb_ℤ minimum.0 (pos 0))
          then throw runtime_error
          else if not (eqb_ℤ maximum.0 (pos 0))
          then throw runtime_error
          else if minimum.1 == 0 || ltb maximum.1 minimum.1
          then throw runtime_error
          else ok (minimum.1, maximum.1))

-- The loop of `listSampleRates`, with a counter of 64 bits.
abbrev pub rate_step : ℕ
rate_step = 250000

abbrev pub listed : ℕ → Option (List ℕ) → Option (List ℕ)
listed rate none = none
listed rate (some rates) = some (rate ∷ rates)

unfoldable pub grid : ℕ → ℕ → ℕ → Option (List ℕ)
grid zero rate maximum = none
grid (suc fuel) rate maximum =
    let rest = grid fuel (add64 rate rate_step) maximum in
    if leb rate maximum then listed rate rest else some []

-- `listSampleRates`, with as many rounds as steps fit below the maximum, and two.
unfoldable pub list_sample_rates : Outcome (ℕ × ℕ) → Outcome (Option (List ℕ))
list_sample_rates range =
    range >>= (λ bounds. ok (grid (bounds.1 / rate_step + 2) bounds.0 bounds.1))
