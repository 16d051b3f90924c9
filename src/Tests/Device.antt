-- ===== src/Tests/Device.antt =====
-- Requests, sensors and received blocks at concrete inputs.
use soapy_sidekiq.Base.{Bool, false, ℕ, ◌≡◌, ◌↔◌, true, false, List, [], ◌∷◌, arith, ok, some}
use soapy_sidekiq.Base.Int.{pos, negsuc}
use soapy_sidekiq.RxQueue.Reading.{waited}
use soapy_sidekiq.RxSession.{Session}
use soapy_sidekiq.RxSession.Lifecycle.{empty_session}
use soapy_sidekiq.RxQueue.{empty_queue}
use soapy_sidekiq.RxBackend.{SdkCodes, SdkReceive}
use soapy_sidekiq.RxStream.{StreamReading, read_stream}
use soapy_sidekiq.RxStream.Answers.{Delivers, device, read_stream_result}
use soapy_sidekiq.Sensors.{SensorBackend}
use soapy_sidekiq.StreamRequest.{rx, cs16, cs16_name, StreamRequest, validate_stream_request}
use soapy_sidekiq.StreamRequest.Valid.{IsAcceptable, validate_stream_request_iff}

abbrev request : StreamRequest
request = record { direction = rx; format = cs16; channel = 1 }

validate_stream_request_iff_example :
    (validate_stream_request rx cs16_name (1 ∷ []) 2 false ≡ ok request)
    ↔ IsAcceptable rx cs16_name (1 ∷ []) 2 false request
validate_stream_request_iff_example =
    validate_stream_request_iff rx cs16_name (1 ∷ []) 2 false request

-- The reading fails after the accelerometer was turned on. The hardware is whether it is on.
abbrev sensor : SensorBackend Bool
sensor = record {
  read_temperature = λ h. ((pos 0, pos 40), h);
  is_accelerometer_supported = λ h. ((pos 0, true), h);
  set_accelerometer_enabled = λ h on. (pos 0, on);
  read_accelerometer = λ h. ((negsuc 4, record { x = pos 1; y = pos 2; z = pos 3 }), h);
}

abbrev codes : SdkCodes
codes = record {
  no_data_status = pos 2;
  overrun_status = pos 3;
  invalid = negsuc 21;
  header_size = 24;
}

abbrev delivery : SdkReceive
delivery = record {
  status = pos 0;
  handle = 1;
  block = some (record { data_at = λ k. k; rf_timestamp = 5; sys_timestamp = 6 });
  byte_length = 32;
}

abbrev session : Session
session = empty_session (empty_queue 4)

abbrev to_float : List ℕ → List ℕ
to_float xs = xs

read_stream_result_example :
    (x : StreamReading) × (read_stream 4
        (device 4 2 session true to_float)
        (some (record { is_rx = true; is_active = true }))
        false
        2
        (pos 1000)
        []
        0
        (pos 7)
      ≡ some x)
    × Delivers 4 2 (device 4 2 session true to_float) (waited [] session.queue) x
read_stream_result_example =
    read_stream_result 4 2 session true to_float (pos 1000) [] 0 (pos 7) (omega arith) tt
      (omega arith) (omega arith) (omega arith)
