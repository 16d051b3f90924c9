-- ===== src/Tests/Rates.antt =====
-- A card at two million samples per second that is asked for one million, and a list of rates.
use soapy_sidekiq.Base.{ℕ, ◌*◌, ◌^◌, ◌≡◌, refl, ◌⊎◌, false, arith, List, ok, some}
use soapy_sidekiq.Base.Conversion.{checked_unsigned, truncate}
use soapy_sidekiq.Base.Double.{Double, finite, at_least_pow}
use soapy_sidekiq.Base.Int.{pos}
use soapy_sidekiq.Rates.{
  RateReading, RateSdk, set_sample_rate, list_sample_rates, at_least_one, apply_rate_and_bandwidth,
  channel_handle, checked_reading, read_rate_and_bandwidth,
}
use soapy_sidekiq.Rates.Listing.{IsGrid, list_sample_rates-IsGrid}
use soapy_sidekiq.Rates.Setting.{Untouched, SetsRate, set_sample_rate_once}
use soapy_sidekiq.Streams.{
  get_handle, get_num_channels, stream_direction, validate_channel, configure_while_rx_inactive,
}
use soapy_sidekiq.Tests.Streams.{constants, new_device}

-- The hardware is its rate and its bandwidth.
abbrev Hardware : Type 0
Hardware = ℕ × ℕ

abbrev two_million : Double
two_million = finite false (15625 * 2 ^ 39) (pos 21)

abbrev reading : Hardware → RateReading
reading h = record {
  status = pos 0;
  configured_rate = h.0;
  actual_rate = two_million;
  actual_bandwidth = h.1;
}

abbrev sdk : RateSdk Hardware
sdk = record {
  read_rate = λ h direction handle. reading h;
  write_rate = λ h direction handle rate bandwidth. (pos 0, (rate, bandwidth));
  min_rate = λ h. (pos 0, 250000);
  max_rate = λ h. (pos 0, 1000000);
}

-- One million and a half of a sample.
abbrev rate : Double
rate = finite false (2000001 * 2 ^ 32) (pos 20)

set_sample_rate_once_example :
    Untouched constants sdk new_device
      (pos 1)
      1
      (2000000, 1600000)
      (set_sample_rate constants sdk new_device (pos 1) 1 rate (2000000, 1600000))
    ⊎ SetsRate constants sdk new_device
        (pos 1)
        1
        (2000000, 1600000)
        rate
        (set_sample_rate constants sdk new_device (pos 1) 1 rate (2000000, 1600000))
set_sample_rate_once_example =
    set_sample_rate_once constants sdk new_device (pos 1) 1 (2000000, 1600000) rate
      (omega arith, omega arith)

-- The half is dropped, and the bandwidth is cut to the rate.
written :
    (set_sample_rate constants sdk new_device (pos 1) 1 rate (2000000, 1600000)).1
    ≡ (1000000, 1000000)
unfolding set_sample_rate validate_channel get_num_channels checked_unsigned truncate at_least_pow
    at_least_one configure_while_rx_inactive apply_rate_and_bandwidth channel_handle get_handle
    stream_direction checked_reading read_rate_and_bandwidth
written = refl

list_sample_rates-IsGrid_example :
    (rates : List ℕ) × (list_sample_rates (ok (250000, 4294967295)) ≡ ok (some rates))
    × IsGrid 250000 4294967295 rates
list_sample_rates-IsGrid_example = list_sample_rates-IsGrid 250000 4294967295 (omega arith)
