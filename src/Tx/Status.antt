-- ===== src/Tx/Status.antt =====
-- `readStreamStatus`, which polls the hardware's count of underruns. The channel mask is 1 for an
-- underflow, flags and time are always 0, and the count of readers is left out.
pub mod Once
pub mod Ends
use soapy_sidekiq.Base.{
  ℕ, ◌+◌, ◌-◌, ◌==◌, Bool, true, false, not, ◌&&◌, ◌||◌, List, [], ◌∷◌, ltb, if◌then◌else◌, Option,
  none, some,
}
use soapy_sidekiq.Base.Int.{ℤ, pos, eqb_ℤ, ltb_ℤ}
use soapy_sidekiq.Tx.{Tx, Event, happen, wait}
use soapy_sidekiq.Tx.Write.{StreamHandle}

pub data StatusCode : Type 0 where
  underflow timeout stream_error not_supported : StatusCode

-- One turn of the loop: whether the status mutex was free before the deadline and what happened until
-- then, what the SDK answers with its counter, whether the deadline has passed by the end, and what
-- happens in the pause.
pub record Poll : Type 0 where
  pub locks : Bool
  pub locking : List Event
  pub sdk_status : ℤ
  pub errors : ℕ
  pub expired : Bool
  pub pausing : List Event

pub data Polled : Type 0 where
  answers : StatusCode → Tx → Polled
  continues : Tx → Polled

-- The end of a turn.
unfoldable pub pause : Poll → Tx → Polled
pause p t =
    let t' = wait (λ (u : Tx). u.writes_stopping) p.pausing t in
    if p.expired
    then answers timeout t
    else if t'.writes_stopping
    then answers stream_error t'
    else continues t'

-- The counter is read, and becomes the base of later comparisons.
unfoldable pub count_underruns : Poll → Tx → Polled
count_underruns p t =
    let t' = record t { underruns = p.errors } in
    if not (eqb_ℤ p.sdk_status (pos 0))
    then answers stream_error t
    else if ltb t.underruns p.errors
    then answers underflow t'
    else pause p t'

unfoldable pub poll_locked : Poll → Tx → Polled
poll_locked p t =
    if t.writes_stopping
    then answers stream_error t
    else if t.first_transmit && t.start_finished && not (eqb_ℤ t.start_status (pos 0))
    then answers stream_error t
    else if t.first_transmit && not t.start_finished
    then pause p t
    else count_underruns p t

unfoldable pub poll : Poll → Tx → Polled
poll p t =
    if p.locks then poll_locked p (happen p.locking t) else answers timeout (happen p.locking t)

abbrev pub after_poll : (Tx → Option (StatusCode × Tx)) → Polled → Option (StatusCode × Tx)
after_poll loop (answers code t) = some (code, t)
after_poll loop (continues t) = loop t

-- The loop, for the turns of a list; `none` says that the list ends first.
unfoldable pub poll_all : List Poll → Tx → Option (StatusCode × Tx)
poll_all [] t = none
poll_all (p ∷ ps) t = after_poll (λ u. poll_all ps u) (poll p t)

-- `readStreamStatus`.
unfoldable pub read_stream_status :
    Option StreamHandle → List Poll → ℤ → Tx → Option (StatusCode × Tx)
read_stream_status none polls timeout_us t = some (stream_error, t)
read_stream_status (some handle) polls timeout_us t =
    let polled = poll_all polls t in
    if not handle.is_tx
    then some (not_supported, t)
    else if not handle.is_active
    then some (stream_error, t)
    else if ltb_ℤ timeout_us (pos 0)
    then some (stream_error, t)
    else if t.writes_stopping
    then some (stream_error, t)
    else polled
