-- ===== src/Settings.antt =====
-- Settings.cpp: `writeSetting` and `readSetting`.
pub mod Sources
pub mod Writing
pub mod Restoring
pub mod Switching
pub mod Transaction
pub mod RoundTrip
use soapy_sidekiq.Base.{ℕ, Bool, [], ◌∷◌}
use soapy_sidekiq.Base.Text.{Text}
use soapy_sidekiq.Streams.{Device}

-- Keys and values: "iq_swap", "counter", "timetype", "sys_clock_freq", "full_scale", "overload", "cal_offset", "true", "false", "rf_timestamp", "sys_timestamp".
abbrev pub iq_swap_key : Text
iq_swap_key = 105 ∷ 113 ∷ 95 ∷ 115 ∷ 119 ∷ 97 ∷ 112 ∷ []

abbrev pub counter_key : Text
counter_key = 99 ∷ 111 ∷ 117 ∷ 110 ∷ 116 ∷ 101 ∷ 114 ∷ []

abbrev pub timetype_key : Text
timetype_key = 116 ∷ 105 ∷ 109 ∷ 101 ∷ 116 ∷ 121 ∷ 112 ∷ 101 ∷ []

abbrev pub sys_clock_freq_key : Text
sys_clock_freq_key =
    115 ∷ 121 ∷ 115 ∷ 95 ∷ 99 ∷ 108 ∷ 111 ∷ 99 ∷ 107 ∷ 95 ∷ 102 ∷ 114 ∷ 101 ∷ 113 ∷ []

abbrev pub full_scale_key : Text
full_scale_key = 102 ∷ 117 ∷ 108 ∷ 108 ∷ 95 ∷ 115 ∷ 99 ∷ 97 ∷ 108 ∷ 101 ∷ []

abbrev pub overload_key : Text
overload_key = 111 ∷ 118 ∷ 101 ∷ 114 ∷ 108 ∷ 111 ∷ 97 ∷ 100 ∷ []

abbrev pub cal_offset_key : Text
cal_offset_key = 99 ∷ 97 ∷ 108 ∷ 95 ∷ 111 ∷ 102 ∷ 102 ∷ 115 ∷ 101 ∷ 116 ∷ []

abbrev pub true_text : Text
true_text = 116 ∷ 114 ∷ 117 ∷ 101 ∷ []

abbrev pub false_text : Text
false_text = 102 ∷ 97 ∷ 108 ∷ 115 ∷ 101 ∷ []

abbrev pub rf_timestamp_text : Text
rf_timestamp_text = 114 ∷ 102 ∷ 95 ∷ 116 ∷ 105 ∷ 109 ∷ 101 ∷ 115 ∷ 116 ∷ 97 ∷ 109 ∷ 112 ∷ []

abbrev pub sys_timestamp_text : Text
sys_timestamp_text = 115 ∷ 121 ∷ 115 ∷ 95 ∷ 116 ∷ 105 ∷ 109 ∷ 101 ∷ 115 ∷ 116 ∷ 97 ∷ 109 ∷ 112 ∷ []

-- The members that settings read or write. `full_scale` is `maxValue` as an integer.
pub record Settings : Type 0 where
  pub device : Device
  pub counter : Bool
  pub timetype : Text
  pub full_scale : ℕ
