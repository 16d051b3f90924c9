-- ===== src/Settings/RoundTrip.antt =====
-- What was written is read.
use soapy_sidekiq.Base.{
  ◌==◌, ◌≡◌, refl, ap, inl, inr, Bool, true, false, not, ◌&&◌, ◌||◌, Bool-cases, arith, [], ◌∷◌,
  Outcome, ok, throw, if◌then◌else◌, Option, none, some,
}
use soapy_sidekiq.Base.Int.{pos, eqb_ℤ}
use soapy_sidekiq.Base.Text.{Text, is_same, equals_ignore_case}
use soapy_sidekiq.RxSession.{Session}
use soapy_sidekiq.RxSession.Lifecycle.{owns_hardware_or_worker}
use soapy_sidekiq.Settings.{
  Settings, iq_swap_key, counter_key, timetype_key, true_text, rf_timestamp_text,
  sys_timestamp_text,
}
use soapy_sidekiq.Settings.Sources.{Switched, switch_all, iq, counter}
use soapy_sidekiq.Settings.Writing.{
  SettingSdk, Written, parse_setting_bool, write_iq_swap, counted, write_counter, configured,
  write_timetype, write_setting, bool_text, read_setting,
}
use soapy_sidekiq.Streams.{configure_while_rx_inactive}

-- What a key shows when this value was accepted.
abbrev pub shown : Text → Text → Text
shown key value =
    if equals_ignore_case key iq_swap_key || equals_ignore_case key counter_key
    then bool_text (equals_ignore_case value true_text || is_same value (49 ∷ []))
    else value

module _ {H : Type 0} (sdk : SettingSdk H) where
  -- A write that began with the settings `s`.
  unfoldable pub Shows : Text → Text → Settings → Written H → Type 0
  Shows key value s r = ended r.outcome
    where
      ended : Outcome (Unit {0}) → Type 0
      ended (throw e) = r.settings ≡ s
      ended (ok done) = (h : H) → read_setting sdk key r.settings h ≡ ok (shown key value)

  -- A Boolean that was parsed is the one that is shown.
  parse_setting_bool-ok :
      (value : Text) (b : Bool)
      → parse_setting_bool value ≡ ok b
      → b ≡ (equals_ignore_case value true_text || is_same value (49 ∷ []))
  unfolding parse_setting_bool
  parse_setting_bool-ok value b e = ground (arith, e)

  write_iq_swap-Shows :
      (key value : Text) (s : Settings) (hardware : H) (parsed : Outcome Bool)
      → equals_ignore_case key iq_swap_key ≡ true
      → parse_setting_bool value ≡ parsed
      → Shows key value s (write_iq_swap sdk parsed s hardware)
  unfolding Shows write_iq_swap read_setting
  write_iq_swap-Shows key value s hardware (throw e) k p = refl
  write_iq_swap-Shows key value s hardware (ok b) k p =
      elim (Bool-cases (eqb_ℤ (sdk.write_iq_order hardware b).0 (pos 0))) [
        | inr fails ↦ simp fails refl
        | inl works ↦ simp (works, k) (λ h. ap ok (ap bool_text (parse_setting_bool-ok value b p)))
      ]

  write_counter-Shows :
      (key value : Text) (s : Settings) (hardware : H) (parsed : Outcome Bool)
      → equals_ignore_case key iq_swap_key ≡ false
      → equals_ignore_case key counter_key ≡ true
      → parse_setting_bool value ≡ parsed
      → Shows key value s (write_counter sdk parsed s hardware)
  unfolding Shows write_counter read_setting
  write_counter-Shows key value s hardware (throw e) i k p = refl
  write_counter-Shows key value s hardware (ok b) i k p =
      elim (Bool-cases (s.device.num_rx_channels == 0)) [
        | inl empty ↦ simp empty refl
        | inr some_channels ↦ simp some_channels (switched _ refl)
      ]
    where
      ended : Switched H
      ended =
          switch_all sdk.sources (if b then counter else iq) s.device.rx_table
            s.device.num_rx_channels hardware

      switched :
          (o : Outcome (Unit {0}))
          → ended.outcome ≡ o
          → Shows key value s (counted sdk b s ended.outcome ended.hardware)
      switched (throw e) f = simp f refl
      switched (ok done) f =
          simp (f, i, k) (λ h. ap ok (ap bool_text (parse_setting_bool-ok value b p)))

  write_timetype-Shows :
      (key value : Text) (s : Settings) (hardware : H)
      → equals_ignore_case key iq_swap_key ≡ false
      → equals_ignore_case key counter_key ≡ false
      → equals_ignore_case key timetype_key ≡ true
      → Shows key value s (write_timetype sdk value s hardware)
  unfolding Shows write_timetype read_setting configure_while_rx_inactive
  write_timetype-Shows key value s hardware i c k =
      elim (Bool-cases
        (not (is_same value rf_timestamp_text) && not (is_same value sys_timestamp_text))) [
          | inl bad ↦ simp bad refl
          | inr good ↦ simp good (of_session s.device.session refl)
        ]
    where
      changed : Settings
      changed = record s {
        timetype = value;
        device = record s.device { rf_time_source = is_same value rf_timestamp_text };
      }

      of_session :
          (x : Option Session)
          → s.device.session ≡ x
          → Shows key value s (
              configured sdk hardware
                (configure_while_rx_inactive s.device.session (ok tt, changed) s))
      of_session none e = simp (e, i, c, k) (λ h. refl)
      of_session (some t) e = elim (Bool-cases (owns_hardware_or_worker t)) [
        | inl busy ↦ simp (e, busy) refl
        | inr idle ↦ simp (e, idle, i, c, k) (λ h. refl)
      ]

  -- A write of a setting that does not throw is read back, with any state of the hardware: the Boolean that
  -- was meant, as true or false, for the keys of the I/Q swap and of the counter, and else the value as it
  -- was given. A write that throws, be it for its key, its value, the SDK or a running RX stream, leaves
  -- every setting as it was.
  pub write_setting-Shows :
      (key value : Text) (s : Settings) (hardware : H)
      → Shows key value s (write_setting sdk key value s hardware)
  unfolding write_setting Shows
  write_setting-Shows key value s hardware =
      elim (Bool-cases (equals_ignore_case key iq_swap_key)) [
        | inl i ↦ simp i (write_iq_swap-Shows key value s hardware _ i refl)
        | inr i ↦ elim (Bool-cases (equals_ignore_case key counter_key)) [
          | inl c ↦ simp (i, c) (write_counter-Shows key value s hardware _ i c refl)
          | inr c ↦ elim (Bool-cases (equals_ignore_case key timetype_key)) [
            | inl t ↦ simp (i, c, t) (write_timetype-Shows key value s hardware i c t)
            | inr t ↦ simp (i, c, t) refl
          ]
        ]
      ]
