-- ===== src/Tx/Status/Ends.antt =====
-- Polling for underruns ends.
use soapy_sidekiq.Base.{
  ◌≡◌, refl, inl, inr, Bool, true, false, not, ◌&&◌, ◌||◌, Bool-cases, arith, List, [], ◌∷◌, ltb,
  if◌then◌else◌, Option, none, some,
}
use soapy_sidekiq.Base.Int.{ℤ, pos, eqb_ℤ, ltb_ℤ}
use soapy_sidekiq.Tx.{Tx, happen}
use soapy_sidekiq.Tx.Write.{StreamHandle}
use soapy_sidekiq.Tx.Status.{
  StatusCode, stream_error, not_supported, Poll, Polled, answers, continues, pause, count_underruns,
  poll_locked, poll, after_poll, poll_all, read_stream_status,
}

-- A poll after which the call returns in any case.
abbrev pub some_late : List Poll → Bool
some_late [] = false
some_late (p ∷ ps) = not p.locks || p.expired || some_late ps

abbrev pub is_answer : Option (StatusCode × Tx) → Bool
is_answer none = false
is_answer (some x) = true

IsFinal : Polled → Type 0
IsFinal (answers code t) = Unit
IsFinal (continues t) = ⊥

if-IsFinal : (b : Bool) (x y : Polled) → IsFinal x → IsFinal y → IsFinal (if b then x else y)
if-IsFinal true x y v w = v
if-IsFinal false x y v w = w

expired-IsFinal : (p : Poll) (t : Tx) → p.expired ≡ true → IsFinal (pause p t)
unfolding pause IsFinal
expired-IsFinal p t e = simp e tt

late-IsFinal : (p : Poll) (t : Tx) → p.expired ≡ true → IsFinal (poll p t)
unfolding poll poll_locked count_underruns IsFinal
late-IsFinal p t e =
    unfold IsFinal in
    if-IsFinal p.locks _ _
      (if-IsFinal u.writes_stopping _ _ tt (
        if-IsFinal (u.first_transmit && u.start_finished && not (eqb_ℤ u.start_status (pos 0))) _ _
          tt
          (if-IsFinal (u.first_transmit && not u.start_finished) _ _ (expired-IsFinal p u e) (
            if-IsFinal (not (eqb_ℤ p.sdk_status (pos 0))) _ _ tt (
              if-IsFinal (ltb u.underruns p.errors) _ _ tt
                (expired-IsFinal p (record u { underruns = p.errors }) e))))))
      tt
  where
    u : Tx
    u = happen p.locking t

unlocked-IsFinal : (p : Poll) (t : Tx) → p.locks ≡ false → IsFinal (poll p t)
unfolding poll IsFinal
unlocked-IsFinal p t e = rw e tt

final-is_answer :
    (loop : Tx → Option (StatusCode × Tx)) (x : Polled)
    → IsFinal x
    → is_answer (after_poll loop x) ≡ true
unfolding IsFinal
final-is_answer loop (answers code t) v = refl
final-is_answer loop (continues t) v = absurd v

later-is_answer :
    (loop : Tx → Option (StatusCode × Tx)) (x : Polled)
    → ((t : Tx) → is_answer (loop t) ≡ true)
    → is_answer (after_poll loop x) ≡ true
later-is_answer loop (answers code t) k = refl
later-is_answer loop (continues t) k = k t

poll_all-is_answer :
    (ps : List Poll) (t : Tx) → some_late ps ≡ true → is_answer (poll_all ps t) ≡ true
unfolding poll_all
poll_all-is_answer [] t h = cc h
poll_all-is_answer (p ∷ ps) t h = elim (Bool-cases p.expired) [
  | inl late ↦ final-is_answer _ (poll p t) (late-IsFinal p t late)
  | inr early ↦ elim (Bool-cases p.locks) [
    | inr unlocked ↦ final-is_answer _ (poll p t) (unlocked-IsFinal p t unlocked)
    | inl locked ↦ later-is_answer _ (poll p t) (λ u. poll_all-is_answer ps u (ground arith))
  ]
]

-- `readStreamStatus` returns: at the latest with the first poll that cannot lock before the deadline or
-- ends after it.
pub read_stream_status_ends :
    (handle : Option StreamHandle) (polls : List Poll) (timeout_us : ℤ) (t : Tx)
    → some_late polls ≡ true
    → is_answer (read_stream_status handle polls timeout_us t) ≡ true
unfolding read_stream_status
read_stream_status_ends none polls timeout_us t h = refl
read_stream_status_ends (some handle) polls timeout_us t h =
    checked (not handle.is_tx) (not handle.is_active) (ltb_ℤ timeout_us (pos 0)) t.writes_stopping
  where
    checked :
        (a b c d : Bool)
        → is_answer (
            if a
            then some (not_supported, t)
            else if b
            then some (stream_error, t)
            else if c
            then some (stream_error, t)
            else if d
            then some (stream_error, t)
            else poll_all polls t)
          ≡ true
    checked true b c d = refl
    checked false true c d = refl
    checked false false true d = refl
    checked false false false true = refl
    checked false false false false = poll_all-is_answer polls t h
