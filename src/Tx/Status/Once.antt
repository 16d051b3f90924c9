-- ===== src/Tx/Status/Once.antt =====
-- An underrun is reported once.
use soapy_sidekiq.Base.{ℕ, ◌≡◌, Bool, true, false, List, [], ◌∷◌, Option, none, some}
use soapy_sidekiq.Tx.{Tx, Event, calls_back, starts_streaming, stops_writes}
use soapy_sidekiq.Tx.Status.{
  StatusCode, underflow, timeout, stream_error, not_supported, Poll, Polled, answers, continues,
}

-- The hardware is not started anew, which would reset its counter.
abbrev pub NoStart : List Event → Type 0
NoStart [] = Unit
NoStart (calls_back i ∷ es) = NoStart es
NoStart (starts_streaming e o ∷ es) = ⊥
NoStart (stops_writes ∷ es) = NoStart es

-- Every poll finds the counter at `c`.
abbrev pub AllAt : ℕ → List Poll → Type 0
AllAt c [] = Unit
AllAt c (p ∷ ps) = (p.errors ≡ c) × NoStart p.locking × NoStart p.pausing × AllAt c ps

-- A turn that reports no underrun, and keeps the base at `c` if it goes on.
IsQuiet : ℕ → Polled → Type 0
IsQuiet c (answers underflow t) = ⊥
IsQuiet c (answers timeout t) = Unit
IsQuiet c (answers stream_error t) = Unit
IsQuiet c (answers not_supported t) = Unit
IsQuiet c (continues t) = t.underruns ≡ c

-- The call does not report an underrun.
abbrev pub is_quiet : Option (StatusCode × Tx) → Bool
is_quiet none = true
is_quiet (some (underflow, t)) = false
is_quiet (some (timeout, t)) = true
is_quiet (some (stream_error, t)) = true
is_quiet (some (not_supported, t)) = true

-- An answer that reports an underrun has moved the last count to `c`.
RebasesTo : ℕ → StatusCode → Tx → Type 0
RebasesTo c underflow t = t.underruns ≡ c
RebasesTo c timeout t = Unit
RebasesTo c stream_error t = Unit
RebasesTo c not_supported t = Unit

AnswersAt : ℕ → Polled → Type 0
AnswersAt c (answers code t) = RebasesTo c code t
AnswersAt c (continues t) = Unit

-- What a call answered, if it did.
Reports : ℕ → Option (StatusCode × Tx) → Type 0
Reports c none = Unit
Reports c (some (code, t)) = RebasesTo c code t
