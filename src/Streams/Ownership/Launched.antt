-- ===== src/Streams/Ownership/Launched.antt =====
-- A session that was started owns its hardware, and its rate is found.
use soapy_sidekiq.Base.{
  zero, suc, ◌*◌, ◌^◌, ◌-◌, ◌%◌, dec_lt, ◌≡◌, refl, inl, inr, ◌⊎◌, Bool, true, false, not, arith,
  Option, none, some, Outcome, ok, throw, Exception, logic_error, invalid_argument, if◌then◌else◌,
}
use soapy_sidekiq.Base.Double.{IsDouble, Double, not_finite, finite, digits}
use soapy_sidekiq.Base.Int.{ℤ, pos, negsuc, ◌≤ℤ◌, ◌<ℤ◌, eqb_ℤ}
use soapy_sidekiq.RxSession.{Session, RxStreamBackend, RxSessionConfiguration}
use soapy_sidekiq.RxSession.Lifecycle
use soapy_sidekiq.RxSession.Lifecycle.{
  Returned, owns_hardware_or_worker, activate, activate_configured, is_usable,
}
use soapy_sidekiq.Timestamp.Rate.{TimestampRate, from_actual_rate}
use soapy_sidekiq.Timestamp.Rate.Actual.{from_actual_rate_exact, from_actual_rate_rejects}
use soapy_sidekiq.Timestamp.Rate.Exact.{IsProper}

-- A session that was started owns its hardware.
unfoldable pub Owned : Returned → Type 0
Owned (throw e, t) = Unit
Owned (ok status, t) = eqb_ℤ status (pos 0) ≡ true → owns_hardware_or_worker t ≡ true

if-Owned : (b : Bool) (x y : Returned) → Owned x → Owned y → Owned (if b then x else y)
if-Owned true x y p q = p
if-Owned false x y p q = q

launched-Owned :
    (c : RxSessionConfiguration) (s : Session)
    → Owned (ok (pos 0), Lifecycle.launched c (Lifecycle.published c s))
unfolding Owned Lifecycle.launched Lifecycle.opened Lifecycle.published
launched-Owned c s z = refl

thrown-Owned : (e : Exception) (s : Session) → Owned (throw e, s)
unfolding Owned
thrown-Owned e s = tt

started-Owned :
    (enodev : ℤ) (b : RxStreamBackend) (thread_starts : Bool) (c : RxSessionConfiguration)
    (s : Session) (o : Outcome ℤ)
    → Owned (Lifecycle.started enodev b thread_starts c s o)
unfolding Owned Lifecycle.started
started-Owned enodev b thread_starts c s (throw e) = thrown-Owned e s
started-Owned enodev b thread_starts c s (ok status) = answered (eqb_ℤ status (pos 0)) refl
  where
    failed : eqb_ℤ status (pos 0) ≡ false → Owned (ok status, s)
    failed f z = cc (z, f)

    answered :
        (z : Bool)
        → eqb_ℤ status (pos 0) ≡ z
        → Owned (
            if not z
            then (ok status, s)
            else if thread_starts
            then (ok (pos 0), Lifecycle.launched c (Lifecycle.published c s))
            else (
              throw Exception.foreign,
              Lifecycle.rolled_back enodev
                  (b.stop_stream c.handle false)
                  (Lifecycle.opened (Lifecycle.published c s)),
            ))
    answered false f = failed f
    answered true f =
        if-Owned thread_starts _
          (
            throw Exception.foreign,
            Lifecycle.rolled_back enodev (b.stop_stream c.handle false)
                (Lifecycle.opened (Lifecycle.published c s)),
          )
          (launched-Owned c s) tt

activate-Owned :
    (enodev : ℤ) (b : RxStreamBackend) (thread_starts : Bool) (c : RxSessionConfiguration)
    (s : Session)
    → Owned (activate enodev b thread_starts c s)
unfolding activate
activate-Owned enodev b thread_starts c s =
    if-Owned (not (is_usable c)) _ _ (thrown-Owned invalid_argument s) (
      if-Owned (owns_hardware_or_worker s) _ _ (thrown-Owned logic_error s)
        (started-Owned enodev b thread_starts c s (b.start_stream c.handle c.on_pps)))

pub activate_configured-Owned :
    (enodev : ℤ) (b : RxStreamBackend) (thread_starts : Bool) (p : Outcome RxSessionConfiguration)
    (s : Session)
    → Owned (activate_configured enodev b thread_starts p s)
unfolding activate_configured
activate_configured-Owned enodev b thread_starts p s =
    if-Owned (owns_hardware_or_worker s) _ _ (thrown-Owned logic_error s) (prepared p)
  where
    prepared :
        (q : Outcome RxSessionConfiguration) → Owned (Lifecycle.prepared enodev b thread_starts s q)
    prepared (throw e) = thrown-Owned e s
    prepared (ok c) = activate-Owned enodev b thread_starts c s

abbrev pub Ends : Outcome (Option TimestampRate) → Type 0
Ends (throw e) = Unit
Ends (ok none) = ⊥
Ends (ok (some rate)) = Unit

thrown-Ends : (o : Outcome (Option TimestampRate)) → o ≡ throw invalid_argument → Ends o
thrown-Ends (throw e) h = tt
thrown-Ends (ok none) h = cc h
thrown-Ends (ok (some rate)) h = tt

found-Ends :
    (o : Outcome (Option TimestampRate)) (rate : TimestampRate) → o ≡ ok (some rate) → Ends o
found-Ends (throw e) rate h = tt
found-Ends (ok none) rate h = cc h
found-Ends (ok (some r)) rate h = tt

pub from_actual_rate-Ends : (x : Double) → IsDouble x → Ends (from_actual_rate x)
unfolding from_actual_rate
from_actual_rate-Ends not_finite h = tt
from_actual_rate-Ends Double.zero h = tt
from_actual_rate-Ends (finite negative mantissa exponent) h = by_sign negative
  where
    out :
        (n : Bool) (e : ℤ)
        → (n ≡ true) ⊎ ((e ≤ℤ pos 0) ⊎ (pos 32 <ℤ e))
        → Ends (from_actual_rate (finite n mantissa e))
    out n e o = thrown-Ends _ ((from_actual_rate_rejects n mantissa e).1 o)

    by_exponent : (e : ℤ) → Ends (from_actual_rate (finite false mantissa e))
    by_exponent (negsuc e) = out false (negsuc e) (inr (inl (omega arith)))
    by_exponent (pos zero) = out false (pos 0) (inr (inl (omega arith)))
    by_exponent (pos (suc e)) = elim (dec_lt 31 e) [
      | yes large ↦ out false (pos (suc e)) (inr (inr (omega arith)))
      | no small ↦ inside (from_actual_rate_exact mantissa (suc e) h (omega arith) (omega arith))
    ]
      where
        inside :
            (r : TimestampRate) × (from_actual_rate (finite false mantissa (pos (suc e)))
                ≡ ok (some r))
              × (r.numerator * 2 ^ (digits - suc e) ≡ mantissa * r.denominator)
              × ((r.denominator ≡ 1) ⊎ (r.numerator % 2 ≡ 1))
              × IsProper r
            → Ends (from_actual_rate (finite false mantissa (pos (suc e))))
        inside (r, found, a, b, c) = found-Ends _ r found

    by_sign : (n : Bool) → Ends (from_actual_rate (finite n mantissa exponent))
    by_sign true = out true exponent (inl refl)
    by_sign false = by_exponent exponent
