-- ===== src/Sensors/Balance.antt =====
-- The accelerometer is not left on.
use soapy_sidekiq.Base.{◌≡◌, ◌⊎◌, Bool, true, false, none, some}
use soapy_sidekiq.Base.Int.{ℤ}
use soapy_sidekiq.Sensors.{
  Operation, sensed, sensor_error, SensorBackend, is_success, Acquired, AccelerometerReading,
}

-- The accelerometer as a switch: a call that succeeds sets it, queries and readings leave it as it is. What a
-- switching call that fails does to it is open.
pub record IsSwitch {H : Type 0} (b : SensorBackend H) (is_on : H → Bool) : Type 0 where
  pub query_keeps : (h : H) → is_on (b.is_accelerometer_supported h).1 ≡ is_on h
  pub reading_keeps : (h : H) → is_on (b.read_accelerometer h).1 ≡ is_on h
  pub switches :
      (h : H) (on : Bool)
      → is_success (b.set_accelerometer_enabled h on).0 ≡ true
      → is_on (b.set_accelerometer_enabled h on).1 ≡ on

module _ {H : Type 0} (b : SensorBackend H) (is_on : H → Bool) where
  -- The ways in which a read that began at `h` ends.
  pub data Balances (h : H) (r : Acquired b) : Type 0 where
    -- There is no accelerometer, or that is not known: nothing was switched.
    unasked :
        (status : ℤ) (supported : Bool)
        → (b.is_accelerometer_supported h).0 ≡ (status, supported)
        → ((is_success status ≡ true) × (supported ≡ false) × (r.0 ≡ sensed none))
          ⊎ ((is_success status ≡ false) × (r.0 ≡ sensor_error Operation.query_support status))
        → is_on r.1 ≡ is_on h
        → Balances h r
    refused :
        (status : ℤ)
        → is_success status ≡ false
        → r.0 ≡ sensor_error Operation.enable_accelerometer status
        → Balances h r
    -- It was read, and it is off.
    measured :
        (h' : H) (reading : AccelerometerReading)
        → (b.read_accelerometer h').0.1 ≡ reading
        → is_on h' ≡ true
        → is_success (b.read_accelerometer h').0.0 ≡ true
        → r.0 ≡ sensed (some reading)
        → is_on r.1 ≡ false
        → Balances h r
    -- The reading failed. It is off, unless the call that should switch it off failed as well.
    unread :
        (h' : H)
        → is_on h' ≡ true
        → is_success (b.read_accelerometer h').0.0 ≡ false
        → r.0 ≡ sensor_error Operation.read_accelerometer (b.read_accelerometer h').0.0
        → (is_on r.1 ≡ false)
          ⊎ (is_success (b.set_accelerometer_enabled (b.read_accelerometer h').1 false).0 ≡ false)
        → Balances h r
    -- Only the call that should switch it off failed.
    stuck :
        (status : ℤ)
        → is_success status ≡ false
        → r.0 ≡ sensor_error Operation.disable_accelerometer status
        → Balances h r
