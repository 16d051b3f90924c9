-- ===== src/RxSession/Steps/Safety.antt =====
-- What holds of the session between any two steps.
pub mod Working
pub mod Owning
use soapy_sidekiq.Base.{◌≡◌, Bool, true, false, not, ◌&&◌, ◌||◌, arith}
use soapy_sidekiq.RxQueue.Blocks.{IsValid}
use soapy_sidekiq.RxSession.{
  Session, Worker, Failure, absent, at_gate, receiving, handling, failing, reporting, flagging,
  halting, closing, finished, is_working, joinable,
}
use soapy_sidekiq.RxSession.Steps.{
  System, Phase, unlocked, clearing, owning, opening, starting, launching, undoing, resetting,
  releasing, stopping, joining,
}

-- The worker is about to store `running_` for a failure, or has done so.
abbrev pub is_halting : Worker → Bool
is_halting (failing halting) = true
is_halting _ = false

abbrev pub is_closing : Worker → Bool
is_closing (failing closing) = true
is_closing _ = false

-- Where `activate` is.
abbrev pub activates : Phase → Bool
activates (clearing c) = true
activates (owning c) = true
activates (opening c) = true
activates (starting c) = true
activates (launching c) = true
activates (undoing c) = true
activates (resetting c) = true
activates (releasing c) = true
activates _ = false

-- The failure of the last run is cleared, and still shown by the queue.
abbrev pub is_cleared : Phase → Bool
is_cleared (owning c) = true
is_cleared (opening c) = true
is_cleared _ = false

-- The queue is open, and a thread is to be created or was not.
abbrev pub is_open : Phase → Bool
is_open (starting c) = true
is_open (launching c) = true
is_open (undoing c) = true
is_open (resetting c) = true
is_open _ = false

abbrev pub is_owned : Phase → Bool
is_owned (opening c) = true
is_owned (releasing c) = true
is_owned p = is_open p

-- `running_` is stored, and there is no thread.
abbrev pub lacks_thread : Phase → Bool
lacks_thread (launching c) = true
lacks_thread (undoing c) = true
lacks_thread _ = false

-- `running_` is false, before it is stored or after that was undone, or in `deactivate`.
abbrev pub is_still : Phase → Bool
is_still (clearing c) = true
is_still (owning c) = true
is_still (opening c) = true
is_still (starting c) = true
is_still (resetting c) = true
is_still (releasing c) = true
is_still (Phase.closing on_pps) = true
is_still (stopping on_pps) = true
is_still (joining outcome) = true
is_still _ = false

-- The queue may be open although `running_` is false.
abbrev pub may_accept : Phase → Bool
may_accept (starting c) = true
may_accept (resetting c) = true
may_accept (Phase.closing on_pps) = true
may_accept _ = false

-- The flags, at a phase and with a worker: `running_`, `active_` and `failed_`, and `running_` and `failed_` of
-- the queue.
abbrev pub agree : Phase → Worker → Bool → Bool → Bool → Bool → Bool → Bool
agree p w running active failed accepting shows =
    (not running || (active && accepting && not shows && (is_working w || lacks_thread p)))
    && (not accepting || running || may_accept p || is_closing w)
    && (not failed || shows || is_halting w || is_closing w)
    && (not shows || failed || is_cleared p)
    && (not failed || not running || is_halting w)
    && (not (is_still p) || not running)
    && (not (activates p) || not (joinable w))
    && (not (is_owned p) || (active && not failed))
    && (not (is_cleared p) || not failed)
    && (not (is_open p) || (accepting && not shows))
    && (not (is_halting w || is_closing w) || failed)
    && (not (is_closing w) || not running)

abbrev pub agrees : Phase → Session → Bool
agrees p s = agree p s.worker s.running s.active s.failed s.queue.running s.queue.failed

pub record IsSound (p : Phase) (s : Session) : Type 0 where
  pub queue_valid : IsValid s.queue
  pub agreement : agrees p s ≡ true
