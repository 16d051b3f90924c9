-- ===== src/Settings/Writing.antt =====
-- `writeSetting` and `readSetting`.
use soapy_sidekiq.Base.{
  ℕ, ◌≡◌, refl, ◌==◌, Bool, true, false, not, ◌&&◌, ◌||◌, List, [], ◌∷◌, Outcome, ok, throw,
  invalid_argument, runtime_error, if◌then◌else◌,
}
use soapy_sidekiq.Base.Double.{Double}
use soapy_sidekiq.Base.Int.{ℤ, pos, eqb_ℤ}
use soapy_sidekiq.Base.Text.{Text, is_same, equals_ignore_case, to_decimal, to_lower}
use soapy_sidekiq.Settings.{
  Settings, iq_swap_key, counter_key, timetype_key, sys_clock_freq_key, full_scale_key,
  overload_key, cal_offset_key, true_text, false_text, rf_timestamp_text, sys_timestamp_text,
}
use soapy_sidekiq.Settings.Sources.{SourceSdk, iq, counter, switch_all}
use soapy_sidekiq.StreamRequest.{rx}
use soapy_sidekiq.Streams.{configure_while_rx_inactive, get_handle}

-- "1" and "0".
unfoldable pub parse_setting_bool : Text → Outcome Bool
parse_setting_bool value =
    if equals_ignore_case value true_text || is_same value (49 ∷ [])
    then ok true
    else if equals_ignore_case value false_text || is_same value (48 ∷ [])
    then ok false
    else throw invalid_argument

abbrev pub bool_text : Bool → Text
bool_text b = if b then true_text else false_text

-- What `getSettingInfo` says of a setting, without its name and its description.
pub record ArgInfo : Type 0 where
  pub key : Text
  pub value : Text
  pub is_bool : Bool
  pub options : List Text

abbrev pub argument : Bool → Text → Text → ArgInfo
argument is_bool key value = record { key = key; value = value; is_bool = is_bool; options = [] }

unfoldable pub get_setting_info : Settings → List ArgInfo
get_setting_info s =
    argument true iq_swap_key (bool_text s.device.iq_swap)
    ∷ argument true counter_key (bool_text s.counter)
    ∷ argument false sys_clock_freq_key (to_decimal s.device.sys_freq)
    ∷ argument false full_scale_key (to_decimal s.full_scale)
    ∷ record {
      key = timetype_key;
      value = s.timetype;
      is_bool = false;
      options = rf_timestamp_text ∷ sys_timestamp_text ∷ [];
    }
    ∷ []

-- The SDK: `write_iq_order` takes whether I comes first. The reads give a status with a value, of which
-- `cal_offset` is printed by `std::to_string` of a double.
pub record SettingSdk (H : Type 0) : Type 0 where
  pub sources : SourceSdk H
  pub write_iq_order : H → Bool → ℤ × H
  pub overload_state : H → ℕ → ℤ × ℕ
  pub cal_offset : H → ℕ → ℤ × Double
  pub to_string : Double → Text

-- What a write leaves: the settings, the hardware, and how it ended.
pub record Written (H : Type 0) : Type 0 where
  pub outcome : Outcome (Unit {0})
  pub settings : Settings
  pub hardware : H

abbrev pub printed {ℓ} : {A : Type ℓ} → (A → Text) → ℤ × A → Outcome Text
printed print (status, value) =
    if not (eqb_ℤ status (pos 0)) then throw runtime_error else ok (print value)

abbrev pub of_first {ℓ} : {A : Type ℓ} → (A → Text) → (ℕ → ℤ × A) → Outcome ℕ → Outcome Text
of_first print answer (throw e) = throw e
of_first print answer (ok handle) = printed print (answer handle)

module _ {H : Type 0} (sdk : SettingSdk H) where
  unfoldable pub write_iq_swap : Outcome Bool → Settings → H → Written H
  write_iq_swap (throw e) s hardware = record {
    outcome = throw e;
    settings = s;
    hardware = hardware;
  }
  write_iq_swap (ok requested) s hardware =
      let written = sdk.write_iq_order hardware requested in
      if not (eqb_ℤ written.0 (pos 0))
      then record { outcome = throw runtime_error; settings = s; hardware = written.1 }
      else record {
        outcome = ok tt;
        settings = record s { device = record s.device { iq_swap = requested } };
        hardware = written.1;
      }

  abbrev pub counted : Bool → Settings → Outcome (Unit {0}) → H → Written H
  counted requested s (throw e) hardware = record {
    outcome = throw e;
    settings = s;
    hardware = hardware;
  }
  counted requested s (ok done) hardware = record {
    outcome = ok tt;
    settings = record s { counter = requested };
    hardware = hardware;
  }

  unfoldable pub write_counter : Outcome Bool → Settings → H → Written H
  write_counter (throw e) s hardware = record {
    outcome = throw e;
    settings = s;
    hardware = hardware;
  }
  write_counter (ok requested) s hardware =
      let source = if requested then counter else iq in
      let switched =
        switch_all sdk.sources source s.device.rx_table s.device.num_rx_channels hardware in
      if s.device.num_rx_channels == 0
      then record { outcome = throw runtime_error; settings = s; hardware = hardware }
      else counted requested s switched.outcome switched.hardware

  abbrev pub configured : H → Outcome (Unit {0}) × Settings → Written H
  configured hardware (outcome, s) = record { outcome = outcome; settings = s; hardware = hardware }

  unfoldable pub write_timetype : Text → Settings → H → Written H
  write_timetype value s hardware =
      let s' = record s {
        timetype = value;
        device = record s.device { rf_time_source = is_same value rf_timestamp_text };
      } in
      if not (is_same value rf_timestamp_text) && not (is_same value sys_timestamp_text)
      then record { outcome = throw invalid_argument; settings = s; hardware = hardware }
      else configured hardware (configure_while_rx_inactive s.device.session (ok tt, s') s)

  -- A read-only key is refused like an unknown one.
  unfoldable pub write_setting : Text → Text → Settings → H → Written H
  write_setting key value s hardware =
      if equals_ignore_case key iq_swap_key
      then write_iq_swap (parse_setting_bool value) s hardware
      else if equals_ignore_case key counter_key
      then write_counter (parse_setting_bool value) s hardware
      else if equals_ignore_case key timetype_key
      then write_timetype value s hardware
      else record { outcome = throw invalid_argument; settings = s; hardware = hardware }

  unfoldable pub read_setting : Text → Settings → H → Outcome Text
  read_setting key s hardware =
      let first = get_handle s.device rx 0 in
      if equals_ignore_case key iq_swap_key
      then ok (bool_text s.device.iq_swap)
      else if equals_ignore_case key counter_key
      then ok (bool_text s.counter)
      else if equals_ignore_case key timetype_key
      then ok s.timetype
      else if equals_ignore_case key sys_clock_freq_key
      then ok (to_decimal s.device.sys_freq)
      else if equals_ignore_case key full_scale_key
      then ok (to_decimal s.full_scale)
      else if equals_ignore_case key overload_key
      then of_first to_decimal (sdk.overload_state hardware) first
      else if equals_ignore_case key cal_offset_key
      then of_first sdk.to_string (sdk.cal_offset hardware) first
      else throw invalid_argument

-- Each listed setting is read with the value that it is listed with.
abbrev AreRead : {H : Type 0} → SettingSdk H → Settings → H → List ArgInfo → Type 0
AreRead sdk s hardware [] = Unit
AreRead sdk s hardware (a ∷ rest) =
    (read_setting sdk a.key s hardware ≡ ok a.value) × AreRead sdk s hardware rest

get_setting_info-AreRead :
    {H : Type 0} (sdk : SettingSdk H) (s : Settings) (hardware : H)
    → AreRead sdk s hardware (get_setting_info s)
unfolding get_setting_info read_setting equals_ignore_case to_lower
get_setting_info-AreRead sdk s hardware = (refl, (refl, (refl, (refl, (refl, tt)))))
