-- ===== src/RxStream.antt =====
-- RxStreaming.cpp: `readStream` over the session.
pub mod Answers
use soapy_sidekiq.Base.{
  ℕ, Bool, true, false, not, ◌&&◌, ◌||◌, ◌==◌, List, [], ltb, if◌then◌else◌, Option, none, some,
  Outcome, ok, throw,
}
use soapy_sidekiq.Base.Int.{ℤ, pos, ltb_ℤ}
use soapy_sidekiq.Base.Words.{int_max}
use soapy_sidekiq.RxQueue.Reading.{RxReadStatus, RxReadResult, Call, Reading}
use soapy_sidekiq.RxSession.{Session, read}

-- A count of samples, or one of SoapySDR's error codes.
pub data ReadCode : Type 0 where
  samples : ℕ → ReadCode
  timeout stream_error not_supported overflow : ReadCode

-- The device: the session, if the active stream has one; CS16 or CF32; and the conversion of a native
-- sample to CF32, which is floating point.
pub record RxDevice : Type 0 where
  pub session : Option Session
  pub rx_use_short : Bool
  pub to_float : List ℕ → List ℕ

-- What the caller sees: the code, the buffer, and the two values that it passed by reference.
pub record StreamReading : Type 0 where
  pub code : ReadCode
  pub output : List ℕ
  pub flags : ℕ
  pub time_ns : ℤ
  pub device : RxDevice

pub record RxHandle : Type 0 where
  pub is_rx : Bool
  pub is_active : Bool

abbrev pub without_data : ReadCode → ℕ → ℤ → RxDevice → Option StreamReading
without_data code flags time_ns d =
    some (record { code = code; output = []; flags = flags; time_ns = time_ns; device = d })

-- `has_time_flag` is the value of SOAPY_SDR_HAS_TIME.
unfoldable pub translated : ℕ → RxDevice → List ℕ → RxReadResult → StreamReading
translated has_time_flag d output result = record {
  code = samples result.samples;
  output = if d.rx_use_short then output else d.to_float output;
  flags = if result.has_time then has_time_flag else 0;
  time_ns = if result.has_time then result.time_ns else pos 0;
  device = d;
}

abbrev pub by_status : ℕ → RxDevice → List ℕ → RxReadResult → RxReadStatus → Option StreamReading
by_status has_time_flag d output result RxReadStatus.timeout = without_data timeout 0 (pos 0) d
by_status has_time_flag d output result RxReadStatus.samples =
    some (translated has_time_flag d output result)
by_status has_time_flag d output result RxReadStatus.stopped = without_data stream_error 0 (pos 0) d
by_status has_time_flag d output result RxReadStatus.error = without_data stream_error 0 (pos 0) d

-- The end of the implementation, and the `catch` around it.
unfoldable pub finish : ℕ → RxDevice → Session → Option Reading → Option StreamReading
finish has_time_flag d s none = none
finish has_time_flag d s (some r) = returned r.result
  where
    d' : RxDevice
    d' = record d { session = some (record s { queue = r.queue }) }

    returned : Outcome RxReadResult → Option StreamReading
    returned (throw e) = without_data stream_error 0 (pos 0) d'
    returned (ok result) = by_status has_time_flag d' r.output result result.status

unfoldable pub read_session :
    ℕ → RxDevice → Bool → ℕ → ℤ → List Call → ℕ → ℤ → Option Session → Option StreamReading
read_session has_time_flag d buffer_is_null num_elems timeout_us others flags time_ns none =
    without_data stream_error flags time_ns d
read_session has_time_flag d buffer_is_null num_elems timeout_us others flags time_ns (some s) =
    if ltb int_max num_elems
    then without_data overflow 0 (pos 0) d
    else if ltb_ℤ timeout_us (pos 0) || (not (num_elems == 0) && buffer_is_null)
    then without_data stream_error 0 (pos 0) d
    else finish has_time_flag d s (read s (num_elems == 0) num_elems timeout_us others)

-- `readStream`; `flags` and `time_ns` are the values that the caller's references have before.
unfoldable pub read_stream :
    ℕ → RxDevice → Option RxHandle → Bool → ℕ → ℤ → List Call → ℕ → ℤ → Option StreamReading
read_stream has_time_flag d none buffer_is_null num_elems timeout_us others flags time_ns =
    without_data stream_error flags time_ns d
read_stream has_time_flag d (some handle) buffer_is_null num_elems timeout_us others flags time_ns =
    if not handle.is_rx
    then without_data not_supported flags time_ns d
    else if not handle.is_active
    then without_data stream_error flags time_ns d
    else read_session has_time_flag d buffer_is_null num_elems timeout_us others flags time_ns
        d.session
