-- ===== src/RxSession.antt =====
-- RxStreamSession.cpp and include/SoapySidekiq/RxStreamSession.hpp: the life of the receive worker.
-- The lifecycle mutex makes each of `activate`, `deactivate` and `shutdown` one step against the others;
-- the worker, which takes no part in that mutex, is the child ReceiveLoop.
pub mod ReceiveLoop
pub mod Lifecycle
pub mod Steps
use soapy_sidekiq.Base.{ℕ, Bool, true, false, Option, List, Outcome}
use soapy_sidekiq.Base.Int.{ℤ}
use soapy_sidekiq.Timestamp.Rate.{TimestampRate}
use soapy_sidekiq.RxQueue.{Queue}
use soapy_sidekiq.RxQueue.Reading.{Call, Reading}
use soapy_sidekiq.RxQueue.Reading as Buffer

pub data RxReceiveStatus : Type 0 where
  success no_data overrun error : RxReceiveStatus

pub record RxReceiveResult : Type 0 where
  pub status : RxReceiveStatus
  pub handle : ℕ
  pub samples : List ℕ
  pub rf_timestamp : ℕ
  pub system_timestamp : ℕ
  pub error_code : ℤ

-- `start` and `stop` of the backend, which is hardware: what they return, or that they throw.
pub record RxStreamBackend : Type 0 where
  pub start_stream : ℕ → Bool → Outcome ℤ
  pub stop_stream : ℕ → Bool → Outcome ℤ

pub record RxSessionConfiguration : Type 0 where
  pub handle : ℕ
  pub block_samples : ℕ
  pub sample_rate : TimestampRate
  pub system_timestamp_frequency : ℕ
  pub use_rf_timestamp : Bool
  pub on_pps : Bool

-- The local variables of the loop: `none` is `have_last_timestamp == false`.
abbrev pub Last : Type 0
Last = Option ℕ

-- The next of the four stores of a fatal result: `receive_error_`, `failed_`, `running_`, and `queue_.fail()`.
pub data Failure : Type 0 where
  reporting : ℤ → Failure
  flagging halting closing : Failure

-- `receive_thread_`: not joinable, or at the test of its `while`, or in `backend_.receive()`, or behind
-- the second test of `running_` with a result, or at a store of a failure, or returned and not yet joined. The thread has its own copy of the configuration.
pub data Worker : Type 0 where
  absent : Worker
  at_gate : RxSessionConfiguration → Last → Worker
  receiving : RxSessionConfiguration → Last → Worker
  handling : RxSessionConfiguration → Last → RxReceiveResult → Worker
  failing : Failure → Worker
  finished : Worker

-- The members of the session.
pub record Session : Type 0 where
  pub queue : Queue
  pub worker : Worker
  pub running : Bool
  pub failed : Bool
  pub hardware_overruns : ℕ
  pub timestamp_discontinuities : ℕ
  pub receive_error : ℤ
  pub active_configuration : RxSessionConfiguration
  pub active : Bool

-- `receive_thread_.joinable()`.
abbrev pub joinable : Worker → Bool
joinable absent = false
joinable (at_gate c last) = true
joinable (receiving c last) = true
joinable (handling c last r) = true
joinable (failing f) = true
joinable finished = true

-- The worker is in its loop.
abbrev pub is_working : Worker → Bool
is_working absent = false
is_working (at_gate c last) = true
is_working (receiving c last) = true
is_working (handling c last r) = true
is_working (failing f) = true
is_working finished = false

-- `RxStreamSession::read`.
unfoldable pub read : Session → Bool → ℕ → ℤ → List Call → Option Reading
read s output_is_null requested timeout_us others =
    Buffer.read s.queue output_is_null requested timeout_us others
