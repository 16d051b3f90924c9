-- ===== src/Rates/Setting.antt =====
-- `setSampleRate` and `setBandwidth` write once or not at all.
use mathlib.Core.Path.{subst}
use soapy_sidekiq.Base.{
  ℕ, ◌≤◌, ◌≡◌, ◌==◌, refl, ap, ◌∙◌, not, ◌||◌, runtime_error, if◌then◌else◌, sym, min, ◌⊎◌, inl,
  inr, Bool, true, false, Bool-cases, arith, Option, none, some, Outcome, ok, throw, ◌>>=◌, ◌>>◌,
}
use soapy_sidekiq.Base.Conversion.{checked_unsigned, IsChecked, checked_unsigned-IsChecked}
use soapy_sidekiq.Base.Double.{Double, IsDouble, at_least_pow}
use soapy_sidekiq.Base.Int.{ℤ, pos, eqb_ℤ, ◌≤ℤ◌, ◌<ℤ◌}
use soapy_sidekiq.RxSession.{Session}
use soapy_sidekiq.RxSession.Lifecycle.{owns_hardware_or_worker}
use soapy_sidekiq.Rates.{
  RateReading, checked_reading, RateSdk, RateAndBandwidth, channel_handle, read_rate_and_bandwidth,
  read_back, applied, apply_rate_and_bandwidth, apply_rate, at_least_one, while_inactive,
  set_sample_rate,
}
use soapy_sidekiq.StreamRequest.{StreamDirection}
use soapy_sidekiq.Streams.{Constants, Device, validate_channel, configure_while_rx_inactive}
use soapy_sidekiq.Streams.Ownership.{owns_rx}

abbrev pub is_ok {ℓ} : {A : Type ℓ} → Outcome A → Bool
is_ok (ok a) = true
is_ok (throw e) = false

-- A finite double from 1 below 2 ^ 32, by its exponent.
abbrev pub IsRate : Double → Type 0
IsRate Double.not_finite = ⊥
IsRate Double.zero = ⊥
IsRate (Double.finite negative mantissa exponent) =
    (negative ≡ false) × (pos 0 <ℤ exponent) × (exponent ≤ℤ pos 32)

at_least_pow-IsRate : (x : Double) → at_least_pow x 0 ≡ true → at_least_pow x 32 ≡ false → IsRate x
unfolding at_least_pow
at_least_pow-IsRate Double.not_finite h k = cc h
at_least_pow-IsRate Double.zero h k = cc h
at_least_pow-IsRate (Double.finite true mantissa exponent) h k = cc h
at_least_pow-IsRate (Double.finite false mantissa exponent) h k = (refl, ground arith, ground arith)

module _ {H : Type 0} (k : Constants) (sdk : RateSdk H) (d : Device) (code : ℤ) (channel : ℕ)
    (hardware : H) where
  abbrev read : H → Outcome RateAndBandwidth
  read = read_rate_and_bandwidth k sdk d code channel

  -- A reading that can be used: read without an error, a rate from 1 below 2 ^ 32, and a bandwidth.
  pub record IsUsable (r : RateReading) : Type 0 where
    pub works : r.status ≡ pos 0
    pub configured : 1 ≤ r.configured_rate
    pub in_range : IsRate r.actual_rate
    pub has_bandwidth : 1 ≤ r.actual_bandwidth

  checked_reading-IsUsable :
      (r : RateReading) (x : RateAndBandwidth)
      → checked_reading r ≡ ok x
      → IsUsable r × (x.actual_bandwidth ≡ r.actual_bandwidth)
  unfolding checked_reading
  checked_reading-IsUsable r x e =
      by_status (eqb_ℤ r.status (pos 0))
        (r.configured_rate == 0
          || not (at_least_pow r.actual_rate 0)
          || at_least_pow r.actual_rate 32)
        (r.actual_bandwidth == 0) refl refl refl e
    where
      reading : RateAndBandwidth
      reading = record {
        configured_rate = r.configured_rate;
        actual_rate = r.actual_rate;
        actual_bandwidth = r.actual_bandwidth;
      }

      bandwidth_of : ok reading ≡ ok x → x.actual_bandwidth ≡ reading.actual_bandwidth
      bandwidth_of g = cc g

      by_status :
          (s v w : Bool)
          → eqb_ℤ r.status (pos 0) ≡ s
          → (r.configured_rate == 0
              || not (at_least_pow r.actual_rate 0)
              || at_least_pow r.actual_rate 32)
            ≡ v
          → (r.actual_bandwidth == 0) ≡ w
          → (if not s
              then throw runtime_error
              else if v
              then throw runtime_error
              else if w
              then throw runtime_error
              else ok reading)
            ≡ ok x
          → IsUsable r × (x.actual_bandwidth ≡ r.actual_bandwidth)
      by_status false v w p q z g = cc g
      by_status true true w p q z g = cc g
      by_status true false true p q z g = cc g
      by_status true false false p q z g = (
        record {
          works = ground (arith, p);
          configured = ground (arith, q);
          in_range = at_least_pow-IsRate r.actual_rate (ground (arith, q)) (ground (arith, q));
          has_bandwidth = ground (arith, z);
        },
        bandwidth_of g,
      )

  read-IsUsable :
      (h : H) (place : StreamDirection × ℕ) (x : RateAndBandwidth)
      → channel_handle k sdk d code channel ≡ ok place
      → read h ≡ ok x
      → IsUsable (sdk.read_rate h place.0 place.1)
        × (x.actual_bandwidth ≡ (sdk.read_rate h place.0 place.1).actual_bandwidth)
  unfolding read_rate_and_bandwidth
  read-IsUsable h place x p e = checked_reading-IsUsable (sdk.read_rate h place.0 place.1) x (
      ap (λ o. o >>= (λ (q : StreamDirection × ℕ). checked_reading (sdk.read_rate h q.0 q.1)))
        (sym p)
      ∙ e)

  is_ok-cases :
      (o : Outcome RateAndBandwidth) → is_ok o ≡ true → (x : RateAndBandwidth) × (o ≡ ok x)
  is_ok-cases (ok x) h = (x, refl)
  is_ok-cases (throw e) h = cc h

  -- The hardware is as it was, and the call threw.
  pub record Untouched (r : Outcome (Unit {0}) × H) : Type 0 where
    pub same : r.1 ≡ hardware
    pub thrown : is_ok r.0 ≡ false

  -- One write of this rate and bandwidth, to the handle of the channel; success needs a valid reading after it.
  pub record WroteOnce (rate bandwidth : ℕ) (r : Outcome (Unit {0}) × H) : Type 0 where
    pub place : StreamDirection × ℕ
    pub placed : channel_handle k sdk d code channel ≡ ok place
    pub written : r.1 ≡ (sdk.write_rate hardware place.0 place.1 rate bandwidth).1
    pub accepted :
        is_ok r.0 ≡ true
        → (eqb_ℤ (sdk.write_rate hardware place.0 place.1 rate bandwidth).0 (pos 0) ≡ true)
          × IsUsable (sdk.read_rate r.1 place.0 place.1)

  abbrev done : Outcome (Unit {0})
  done = ok tt

  ok_of_bind : {A : Type 0} (m : Outcome A) → is_ok (m >>= (λ a. done)) ≡ true → is_ok m ≡ true
  ok_of_bind (ok a) h = refl
  ok_of_bind (throw e) h = h

  read_back-WroteOnce :
      (rate bandwidth : ℕ) (place : StreamDirection × ℕ)
      → channel_handle k sdk d code channel ≡ ok place
      → WroteOnce rate bandwidth
          (read_back k sdk d code channel (sdk.write_rate hardware place.0 place.1 rate bandwidth))
  read_back-WroteOnce rate bandwidth place p = elim (Bool-cases (eqb_ℤ written.0 (pos 0))) [
    | inl works ↦ simp works (record {
      place = place;
      placed = p;
      written = refl;
      accepted =
          λ h. (works, usable (is_ok-cases (read written.1) (ok_of_bind (read written.1) h)));
    })
    | inr fails ↦
        simp fails (record { place = place; placed = p; written = refl; accepted = λ h. cc h })
  ]
    where
      written : ℤ × H
      written = sdk.write_rate hardware place.0 place.1 rate bandwidth

      usable :
          (x : RateAndBandwidth) × (read written.1 ≡ ok x)
          → IsUsable (sdk.read_rate written.1 place.0 place.1)
      usable (x, e) = (read-IsUsable written.1 place x p e).0

  apply_rate_and_bandwidth-cases :
      (rate bandwidth : ℕ)
      → Untouched (apply_rate_and_bandwidth k sdk d code channel rate bandwidth hardware)
        ⊎ WroteOnce rate bandwidth
            (apply_rate_and_bandwidth k sdk d code channel rate bandwidth hardware)
  unfolding apply_rate_and_bandwidth
  apply_rate_and_bandwidth-cases rate bandwidth =
      by_place (channel_handle k sdk d code channel) refl
    where
      by_place :
          (o : Outcome (StreamDirection × ℕ))
          → channel_handle k sdk d code channel ≡ o
          → Untouched (applied k sdk d code channel rate bandwidth hardware o)
            ⊎ WroteOnce rate bandwidth (applied k sdk d code channel rate bandwidth hardware o)
      by_place (throw e) p = inl (record { same = refl; thrown = refl })
      by_place (ok place) p = inr (read_back-WroteOnce rate bandwidth place p)

  -- A result that is kept when RX is inactive.
  while_rx_inactive-cases :
      (r : Outcome (Unit {0}) × H) (session : Option Session)
      → Untouched (configure_while_rx_inactive session r hardware)
        ⊎ ((owns_rx session ≡ false) × (configure_while_rx_inactive session r hardware ≡ r))
  unfolding configure_while_rx_inactive
  while_rx_inactive-cases r none = inr (refl, refl)
  while_rx_inactive-cases r (some s) = elim (Bool-cases (owns_hardware_or_worker s)) [
    | inl busy ↦ simp busy (inl (record { same = refl; thrown = refl }))
    | inr idle ↦ simp idle (inr (refl, refl))
  ]

  -- What a set of the rate does when it does anything.
  pub record SetsRate (rate : Double) (r : Outcome (Unit {0}) × H) : Type 0 where
    pub requested : ℕ
    -- The integral part of the rate, which fits 32 bits.
    pub wanted : IsChecked 32 rate (ok requested)
    pub positive : 1 ≤ requested
    pub idle : owns_rx d.session ≡ false
    -- The bandwidth that was read before.
    pub bandwidth : ℕ
    pub once : WroteOnce requested (min bandwidth requested) r
    pub read_before : IsUsable (sdk.read_rate hardware once.place.0 once.place.1)
    pub was : bandwidth ≡ (sdk.read_rate hardware once.place.0 once.place.1).actual_bandwidth

  apply_rate-cases :
      (requested : ℕ) (o : Outcome RateAndBandwidth)
      → read hardware ≡ o
      → Untouched (apply_rate k sdk d code channel requested hardware o)
        ⊎ ((previous : RateAndBandwidth) × (read hardware ≡ ok previous)
            × WroteOnce requested
                (min previous.actual_bandwidth requested)
                (apply_rate k sdk d code channel requested hardware o))
  apply_rate-cases requested (throw e) h = inl (record { same = refl; thrown = refl })
  apply_rate-cases requested (ok previous) h =
      elim (apply_rate_and_bandwidth-cases requested (min previous.actual_bandwidth requested)) [
        | inl u ↦ inl u
        | inr w ↦ inr (previous, h, w)
      ]

  wanted_rate :
      (v : Outcome (Unit {0})) (c : Outcome ℕ) (n : ℕ)
      → (v >> (c >>= at_least_one)) ≡ ok n
      → (c ≡ ok n) × (1 ≤ n)
  unfolding at_least_one
  wanted_rate (throw e) c n h = cc h
  wanted_rate (ok u) (throw e) n h = cc h
  wanted_rate (ok u) (ok m) n h = elim (Bool-cases (m == 0)) [
    | inl z ↦ cc (simp z at h)
    | inr p ↦ (simp p at h, positive (simp p at h) p)
  ]
    where
      positive : ok m ≡ ok n → (m == 0) ≡ false → 1 ≤ n
      positive e p = ground (arith, e)

  -- `setSampleRate` either throws and leaves the hardware as it was, or it writes once: then the rate is the
  -- integral part of the one asked for, at least 1, RX is not active, the bandwidth is the smaller of the
  -- actual one that was read before and the new rate, and the call returns only if the write succeeded and the
  -- card then reads, without an error, a configured rate other than 0, an actual rate from 1 below 2 ^ 32 and a
  -- bandwidth other than 0, as it had before. (The rate asked for is a double in normal form.)
  pub set_sample_rate_once :
      (rate : Double)
      → IsDouble rate
      → Untouched (set_sample_rate k sdk d code channel rate hardware)
        ⊎ SetsRate rate (set_sample_rate k sdk d code channel rate hardware)
  unfolding set_sample_rate
  set_sample_rate_once rate normal = by_request _ refl
    where
      by_request :
          (o : Outcome ℕ)
          → (validate_channel k d code channel >> (checked_unsigned 32 rate >>= at_least_one)) ≡ o
          → Untouched
              (while_inactive k sdk d code channel (apply_rate k sdk d code channel) hardware o)
            ⊎ SetsRate rate
                (while_inactive k sdk d code channel (apply_rate k sdk d code channel) hardware o)
      by_request (throw e) h = inl (record { same = refl; thrown = refl })
      by_request (ok n) h =
          elim (while_rx_inactive-cases (apply_rate k sdk d code channel n hardware (read hardware))
            d.session) [
              | inl u ↦ inl u
              | inr (idle, e) ↦ elim (apply_rate-cases n (read hardware) refl) [
                | inl u ↦ inl (subst Untouched (sym e) u)
                | inr (previous, was, w) ↦ inr (record {
                  requested = n;
                  wanted =
                      subst (IsChecked 32 rate) (wanted_rate _ (checked_unsigned 32 rate) n h).0
                        (checked_unsigned-IsChecked 32 rate normal);
                  positive = (wanted_rate _ (checked_unsigned 32 rate) n h).1;
                  idle = idle;
                  bandwidth = previous.actual_bandwidth;
                  once = subst (WroteOnce n (min previous.actual_bandwidth n)) (sym e) w;
                  read_before = (read-IsUsable hardware w.place previous w.placed was).0;
                  was = (read-IsUsable hardware w.place previous w.placed was).1;
                })
              ]
            ]
