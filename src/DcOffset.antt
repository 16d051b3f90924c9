-- ===== src/DcOffset.antt =====
-- RFControls.cpp: the automatic correction of the DC offset.
pub mod Bit
pub mod RoundTrip
use soapy_sidekiq.Base.{
  ℕ, ◌==◌, Bool, true, false, not, ◌||◌, Outcome, ok, throw, ◌>>=◌, ◌>>◌, invalid_argument,
  runtime_error, if◌then◌else◌,
}
use soapy_sidekiq.Base.Int.{ℤ}
use soapy_sidekiq.Clock.{succeeds}
use soapy_sidekiq.DcOffset.Bit.{has_bit, add_bit, remove_bit}
use soapy_sidekiq.StreamRequest.{StreamDirection, rx, tx}
use soapy_sidekiq.Streams.{Constants, Device, validate_channel, get_handle, stream_direction}

-- `skiq_rx_cal_mode_t`, with any other value.
pub data CalMode : Type 0 where
  manual automatic unsupported : CalMode

abbrev pub is_automatic : CalMode → Bool
is_automatic automatic = true
is_automatic manual = false
is_automatic unsupported = false

-- The SDK over the state of the hardware: the types of calibration of a handle, the mask of the selected
-- types, and the mode. `dc_bit` is the place of the bit `skiq_rx_cal_type_dc_offset`.
pub record CalSdk (H : Type 0) : Type 0 where
  pub dc_bit : ℕ
  pub types_available : H → ℕ → ℤ × ℕ
  pub read_mask : H → ℕ → ℤ × ℕ
  pub write_mask : H → ℕ → ℕ → ℤ × H
  pub read_mode : H → ℕ → ℤ × CalMode
  pub write_mode : H → ℕ → CalMode → ℤ × H

unfoldable pub checked {ℓ} : {A : Type ℓ} → ℤ × A → Outcome A
checked (status, a) = if succeeds status then ok a else throw runtime_error

abbrev pub supported : CalMode → Outcome CalMode
supported manual = ok manual
supported automatic = ok automatic
supported unsupported = throw runtime_error

module _ {H : Type 0} (k : Constants) (sdk : CalSdk H) (d : Device) (code : ℤ) (channel : ℕ) where
  abbrev pub mode_in : H → StreamDirection → Outcome Bool
  mode_in hardware tx = ok false
  mode_in hardware rx = get_handle d rx channel >>= (λ handle.
      checked (sdk.types_available hardware handle) >>= (λ types. ok (has_bit sdk.dc_bit types)))

  unfoldable pub has_dc_offset_mode : H → Outcome Bool
  has_dc_offset_mode hardware =
      validate_channel k d code channel >> (stream_direction k code >>= mode_in hardware)

  -- The mask that is read, and the mode, which is read only when the correction is switched on.
  unfoldable pub read_original : Bool → ℕ → H → Outcome (ℕ × CalMode)
  read_original on handle hardware = checked (sdk.read_mask hardware handle) >>= (λ mask.
      if on
      then checked (sdk.read_mode hardware handle) >>= supported >>= (λ mode. ok (mask, mode))
      else ok (mask, manual))

  abbrev pub desired_mask : Bool → ℕ → ℕ
  desired_mask on mask = if on then add_bit sdk.dc_bit mask else remove_bit sdk.dc_bit mask

  -- After the write of the mode: a failed one restores the mode and the mask.
  abbrev pub mode_written : Bool → ℕ → ℕ → CalMode → ℤ × H → Outcome (Unit {0}) × H
  mode_written on handle mask mode (status, hardware) =
      let restored = (sdk.write_mode hardware handle mode).1 in
      if succeeds status then (ok tt, hardware) else (
        throw runtime_error,
        (if desired_mask on mask == mask
            then restored
            else (sdk.write_mask restored handle mask).1),
      )

  abbrev pub write_mode_after : Bool → ℕ → ℕ → CalMode → H → Outcome (Unit {0}) × H
  write_mode_after on handle mask mode hardware =
      if not on || is_automatic mode
      then (ok tt, hardware)
      else mode_written on handle mask mode (sdk.write_mode hardware handle automatic)

  -- After the write of the mask: a failed one restores it.
  abbrev pub mask_written : Bool → ℕ → ℕ → CalMode → ℤ × H → Outcome (Unit {0}) × H
  mask_written on handle mask mode (status, hardware) =
      if succeeds status
      then write_mode_after on handle mask mode hardware
      else (throw runtime_error, (sdk.write_mask hardware handle mask).1)

  abbrev pub write_original : Bool → ℕ → H → Outcome (ℕ × CalMode) → Outcome (Unit {0}) × H
  write_original on handle hardware (throw e) = (throw e, hardware)
  write_original on handle hardware (ok (mask, mode)) =
      if desired_mask on mask == mask
      then write_mode_after on handle mask mode hardware
      else mask_written on handle mask mode (sdk.write_mask hardware handle (desired_mask on mask))

  abbrev pub write_handle : Bool → H → Outcome ℕ → Outcome (Unit {0}) × H
  write_handle on hardware (throw e) = (throw e, hardware)
  write_handle on hardware (ok handle) =
      write_original on handle hardware (read_original on handle hardware)

  abbrev pub set_available : Bool → H → Outcome Bool → Outcome (Unit {0}) × H
  set_available on hardware (throw e) = (throw e, hardware)
  set_available on hardware (ok false) = ((if on then throw invalid_argument else ok tt), hardware)
  set_available on hardware (ok true) = write_handle on hardware (get_handle d rx channel)

  unfoldable pub set_dc_offset_mode : Bool → H → Outcome (Unit {0}) × H
  set_dc_offset_mode on hardware = set_available on hardware (has_dc_offset_mode hardware)

  unfoldable pub read_handle : H → ℕ → Outcome Bool
  read_handle hardware handle = checked (sdk.read_mask hardware handle) >>= (λ mask.
      if has_bit sdk.dc_bit mask
      then checked (sdk.read_mode hardware handle)
        >>= supported
        >>= (λ mode. ok (is_automatic mode))
      else ok false)

  abbrev pub get_available : H → Bool → Outcome Bool
  get_available hardware false = ok false
  get_available hardware true = get_handle d rx channel >>= read_handle hardware

  unfoldable pub get_dc_offset_mode : H → Outcome Bool
  get_dc_offset_mode hardware = has_dc_offset_mode hardware >>= get_available hardware
