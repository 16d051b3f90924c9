-- ===== src/Tests/Clock.antt =====
-- A counter of 40 MHz, and the attribute of the kernel.
use soapy_sidekiq.Base.{ℕ, ◌≡◌, refl, arith, ok, some, [], ◌∷◌}
use soapy_sidekiq.Base.Double.{Double}
use soapy_sidekiq.Base.Int.{pos}
use soapy_sidekiq.Base.Text.{is_same, Text}
use soapy_sidekiq.Clock.{ClockSdk, internal, set_hardware_time}
use soapy_sidekiq.Clock.HardwareTime.{KeepsTime, ReadsBackAfter, set_hardware_time-ReadsBack}
use soapy_sidekiq.Clock.Pps.{
  external, parse_kernel_source, tokens, is_space, active_source, is_bracketed,
}
use soapy_sidekiq.Tests.Streams.{new_device}

-- The hardware is its system counter.
abbrev pub sdk : ClockSdk ℕ
sdk = record {
  frequency = λ h. (pos 0, 40000000);
  system_time = λ h. (pos 0, h);
  actual_rate = λ h direction handle. (pos 0, Double.zero);
  rf_time = λ h direction handle. (pos 0, h);
  update_timestamps = λ h t. (pos 0, t);
  update_on_pps = λ h rf t. (pos 0, h);
  at_rate = λ t rate. ok t;
  ref_clock = λ h. (pos 0, internal);
  select_ref_clock = λ h clock. (pos 0, h);
  ext_ref_clock_freq = λ h. (pos 0, 10000000);
  ref_clock_freq = 40000000;
}

sdk-KeepsTime : KeepsTime sdk 40000000
sdk-KeepsTime = record {
  frequency_word = omega arith;
  frequency_positive = omega arith;
  frequency_known = λ h. refl;
  time_set = λ h t works. refl;
}

set_hardware_time-ReadsBack_example :
    ReadsBackAfter sdk new_device 40000000 sdk-KeepsTime 1000000012
      (omega arith)
      (set_hardware_time sdk new_device (pos 1000000012) [] 5)
set_hardware_time-ReadsBack_example =
    set_hardware_time-ReadsBack sdk new_device 40000000 sdk-KeepsTime 1000000012 (omega arith) [] 5
      refl

-- "a [external]".
abbrev line : Text
line = 97 ∷ 32 ∷ 91 ∷ 101 ∷ 120 ∷ 116 ∷ 101 ∷ 114 ∷ 110 ∷ 97 ∷ 108 ∷ 93 ∷ []

parsed : parse_kernel_source line ≡ some external
unfolding parse_kernel_source tokens is_space active_source is_bracketed is_same
parsed = refl
