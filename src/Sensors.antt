-- ===== src/Sensors.antt =====
-- SensorReader.cpp, include/SoapySidekiq/SensorReader.hpp: reads of the sensors of a card.
pub mod Balance
use soapy_sidekiq.Base.{Bool, true, false, not, if◌then◌else◌, Option, none, some}
use soapy_sidekiq.Base.Int.{ℤ, pos, eqb_ℤ}

-- The calls whose failure is reported.
pub data Operation : Type 0 where
  read_temperature query_support enable_accelerometer read_accelerometer disable_accelerometer :
      Operation

-- What a call returns, or the exception with its operation and status.
pub data Sensed {ℓ} (A : Type ℓ) : Type ℓ where
  sensed : A → Sensed A
  sensor_error : Operation → ℤ → Sensed A

pub record AccelerometerReading : Type 0 where
  pub x : ℤ
  pub y : ℤ
  pub z : ℤ

-- The hardware as a state of any type: a call answers its status, the value that it stores, and the hardware
-- after it.
pub record SensorBackend (H : Type 0) : Type 0 where
  pub read_temperature : H → (ℤ × ℤ) × H
  pub is_accelerometer_supported : H → (ℤ × Bool) × H
  pub set_accelerometer_enabled : H → Bool → ℤ × H
  pub read_accelerometer : H → (ℤ × AccelerometerReading) × H

abbrev pub is_success : ℤ → Bool
is_success status = eqb_ℤ status (pos 0)

module _ {H : Type 0} (b : SensorBackend H) where
  unfoldable pub temperature_of : H → Sensed ℤ × H
  temperature_of h =
      let read = b.read_temperature h in
      if not (is_success read.0.0)
      then (sensor_error Operation.read_temperature read.0.0, read.1)
      else (sensed read.0.1, read.1)

  abbrev pub Acquired : Type 0
  Acquired = Sensed (Option AccelerometerReading) × H

  -- The statuses of the reading and of the switch-off after it; the first failure is reported.
  unfoldable pub after_reading : (ℤ × AccelerometerReading) × H → Acquired
  after_reading (reading, h) =
      let disabled = b.set_accelerometer_enabled h false in
      if not (is_success reading.0)
      then (sensor_error Operation.read_accelerometer reading.0, disabled.1)
      else if not (is_success disabled.0)
      then (sensor_error disable_accelerometer disabled.0, disabled.1)
      else (sensed (some reading.1), disabled.1)

  unfoldable pub after_enabling : ℤ × H → Acquired
  after_enabling (status, h) =
      if not (is_success status)
      then (sensor_error enable_accelerometer status, h)
      else after_reading (b.read_accelerometer h)

  -- `readAccelerometer`.
  unfoldable pub acquire : H → Acquired
  acquire h =
      let queried = b.is_accelerometer_supported h in
      if not (is_success queried.0.0)
      then (sensor_error query_support queried.0.0, queried.1)
      else if not queried.0.1
      then (sensed none, queried.1)
      else after_enabling (b.set_accelerometer_enabled queried.1 true)
