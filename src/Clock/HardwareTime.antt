-- ===== src/Clock/HardwareTime.antt =====
-- The time that is set is read.
use native.Mathlib.Nat.{lt-div-mul-add}
use soapy_sidekiq.Base.{
  ℕ, ◌+◌, ◌*◌, ◌/◌, ◌≤◌, ◌<◌, ◌≡◌, ◌==◌, refl, sym, ◌∙◌, inl, inr, Bool, true, false, ◌||◌,
  Bool-cases, arith, [], Option, none, some, Outcome, ok, throw, Exception, invalid_argument,
  logic_error, if◌then◌else◌,
}
use soapy_sidekiq.Base.Int.{pos, ltb_ℤ}
use soapy_sidekiq.Base.Text.{Text, is_empty, equals_ignore_case}
use soapy_sidekiq.Base.Words.{IsU64, int64_max, uint64_max}
use soapy_sidekiq.Clock.{
  ClockSdk, succeeds, is_system, get_system_time, get_hardware_time, now_text, update, write_time,
  set_hardware_time,
}
use soapy_sidekiq.RxSession.{Session}
use soapy_sidekiq.RxSession.Lifecycle.{owns_hardware_or_worker}
use soapy_sidekiq.Streams.{Device, configure_while_rx_inactive}
use soapy_sidekiq.Timestamp.Conversion.{
  nanoseconds_per_second, ticks_to_nanoseconds, nanoseconds_to_ticks,
}
use soapy_sidekiq.Timestamp.Conversion.RoundTrip.{back_le, within-ok, within-small}
use soapy_sidekiq.Timestamp.Conversion.Exact.{
  ticks_to_nanoseconds_exact, nanoseconds_to_ticks_exact,
}

-- What the SDK documents of its counters: the system counter has a frequency of 64 bits that is not 0 and
-- that an update does not change; and an update at once that succeeds sets the system counter, which is
-- then read before its next tick.
pub record KeepsTime {H : Type 0} (sdk : ClockSdk H) (f : ℕ) : Type 0 where
  pub frequency_word : IsU64 f
  pub frequency_positive : 0 < f
  pub frequency_known : (h : H) → sdk.frequency h ≡ (pos 0, f)
  pub time_set :
      (h : H) (t : ℕ)
      → succeeds (sdk.update_timestamps h t).0 ≡ true
      → sdk.system_time (sdk.update_timestamps h t).1 ≡ (pos 0, t)

-- There and back, what is lost is less than a tick and a nanosecond.
there_and_back :
    (n f : ℕ)
    → 0 < f
    → (n * f / nanoseconds_per_second * nanoseconds_per_second / f ≤ n)
      × (n * f
          < n * f / nanoseconds_per_second * nanoseconds_per_second / f * f
            + f
            + nanoseconds_per_second)
there_and_back n f h = (
  back_le n nanoseconds_per_second f (omega arith) h,
  omega (
    arith,
    lt-div-mul-add {a = n * f} {b = nanoseconds_per_second} (omega arith),
    lt-div-mul-add {a = n * f / nanoseconds_per_second * nanoseconds_per_second} {b = f} h,
  ),
)

module _ {H : Type 0} (sdk : ClockSdk H) (d : Device) (f : ℕ) (law : KeepsTime sdk f) (n : ℕ)
    (range : n ≤ int64_max) where
  -- The time is read, less than a tick and a nanosecond early.
  abbrev pub ReadsBack : H → Type 0
  ReadsBack h =
      (m : ℕ) × (get_hardware_time sdk d [] h ≡ ok m)
      × (m ≤ n)
      × (n * f < m * f + f + nanoseconds_per_second)

  unfoldable pub ReadsBackAfter : Outcome (Unit {0}) × H → Type 0
  ReadsBackAfter (throw e, h) = Unit
  ReadsBackAfter (ok done, h) = ReadsBack h

  if-ReadsBackAfter :
      (b : Bool) (x y : Outcome (Unit {0}) × H)
      → (b ≡ true → ReadsBackAfter x)
      → (b ≡ false → ReadsBackAfter y)
      → ReadsBackAfter (if b then x else y)
  if-ReadsBackAfter true x y p q = p refl
  if-ReadsBackAfter false x y p q = q refl

  thrown : (e : Exception) (h : H) → ReadsBackAfter (throw e, h)
  unfolding ReadsBackAfter
  thrown e h = tt

  set-ReadsBack :
      (h : H) (t : ℕ)
      → sdk.system_time h ≡ (pos 0, t)
      → (t ≡ n * f / nanoseconds_per_second)
      → t ≤ uint64_max
      → ReadsBack h
  unfolding get_hardware_time get_system_time is_system
  set-ReadsBack h t e q b = (
    t * nanoseconds_per_second / f,
    simp (law.frequency_known h, e, nonzero) answered,
    rw q (there_and_back n f law.frequency_positive).0,
    rw q (there_and_back n f law.frequency_positive).1,
  )
    where
      nonzero : (f == 0) ≡ false
      nonzero = ground (arith, law.frequency_positive)

      bound : t * nanoseconds_per_second / f ≤ n
      bound = rw q (there_and_back n f law.frequency_positive).0

      answered : ticks_to_nanoseconds t f ≡ ok (t * nanoseconds_per_second / f)
      answered =
          ticks_to_nanoseconds_exact t f (omega arith) law.frequency_positive
          ∙ within-small int64_max (t * nanoseconds_per_second / f) (omega (arith, bound, range))

  update-ReadsBackAfter :
      (h : H) (o : Outcome ℕ)
      → nanoseconds_to_ticks (pos n) f ≡ o
      → ReadsBackAfter (update sdk d true h o)
  unfolding ReadsBackAfter
  update-ReadsBackAfter h (throw e) q = tt
  update-ReadsBackAfter h (ok t) q = elim (Bool-cases (succeeds (sdk.update_timestamps h t).0)) [
    | inr fails ↦ simp fails tt
    | inl works ↦
        simp works
          (set-ReadsBack (sdk.update_timestamps h t).1 t (law.time_set h t works) exact.0 exact.1)
  ]
    where
      exact : (t ≡ n * f / nanoseconds_per_second) × (t ≤ uint64_max)
      exact = both (
          within-ok uint64_max (n * f / nanoseconds_per_second) t
            (sym (nanoseconds_to_ticks_exact n f law.frequency_word law.frequency_positive) ∙ q))
        where
          both :
              (t ≡ n * f / nanoseconds_per_second) × (n * f / nanoseconds_per_second ≤ uint64_max)
              → (t ≡ n * f / nanoseconds_per_second) × (t ≤ uint64_max)
          both (a, b) = (a, rw a b)

  write_time-ReadsBackAfter : (h : H) → ReadsBackAfter (write_time sdk d true (pos n) h)
  unfolding write_time
  write_time-ReadsBackAfter h = simp (law.frequency_known h) (update-ReadsBackAfter h _ refl)

  inactive-ReadsBackAfter :
      (session : Option Session) (r : Outcome (Unit {0}) × H) (h : H)
      → ReadsBackAfter r
      → ReadsBackAfter (configure_while_rx_inactive session r h)
  unfolding configure_while_rx_inactive
  inactive-ReadsBackAfter none r h w = w
  inactive-ReadsBackAfter (some s) r h w =
      if-ReadsBackAfter (owns_hardware_or_worker s) _ _ (λ b. thrown logic_error h) (λ b. w)

  -- A time of 0 or more nanoseconds that `setHardwareTime` sets at once, without throwing, is read by
  -- `getHardwareTime` from the system counter: never late, and early by less than one tick and one nanosecond,
  -- at any frequency of the counter. It needs the SDK to set the counter as it reports, and the read to come
  -- before the next tick.
  pub set_hardware_time-ReadsBack :
      (what : Text) (h : H)
      → (is_empty what || equals_ignore_case what now_text) ≡ true
      → ReadsBackAfter (set_hardware_time sdk d (pos n) what h)
  unfolding set_hardware_time
  set_hardware_time-ReadsBack what h now = simp now (
      if-ReadsBackAfter (ltb_ℤ (pos n) (pos 0)) _ _ (λ b. thrown invalid_argument h)
        (λ b. inactive-ReadsBackAfter d.session _ h (write_time-ReadsBackAfter h)))
