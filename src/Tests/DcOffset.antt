-- ===== src/Tests/DcOffset.antt =====
-- A card that is calibrated by hand, with another type of calibration selected.
use soapy_sidekiq.Base.{ℕ, ◌≡◌, refl, true, ok}
use soapy_sidekiq.Base.Int.{pos}
use soapy_sidekiq.DcOffset.{
  CalMode, manual, automatic, CalSdk, checked, has_dc_offset_mode, read_original,
  set_dc_offset_mode,
}
use soapy_sidekiq.DcOffset.Bit.{has_bit, add_bit}
use soapy_sidekiq.DcOffset.RoundTrip.{Shows, IsMemory, set_dc_offset_mode-Shows}
use soapy_sidekiq.Streams.{get_handle, get_num_channels, stream_direction, validate_channel}
use soapy_sidekiq.Tests.Streams.{constants, new_device}

-- The hardware is its mask and its mode.
abbrev sdk : CalSdk (ℕ × CalMode)
sdk = record {
  dc_bit = 0;
  types_available = λ h handle. (pos 0, 3);
  read_mask = λ h handle. (pos 0, h.0);
  write_mask = λ h handle mask. (pos 0, (mask, h.1));
  read_mode = λ h handle. (pos 0, h.1);
  write_mode = λ h handle mode. (pos 0, (h.0, mode));
}

sdk-IsMemory : IsMemory sdk
sdk-IsMemory = record {
  mask_stored = λ h handle mask s. refl;
  mode_stored = λ h handle mode s. refl;
  mask_kept = λ h handle mode other. refl;
  mode_kept = λ h handle mask other. refl;
  types_kept_by_mask = λ h handle mask other. refl;
  types_kept_by_mode = λ h handle mode other. refl;
}

switched :
    set_dc_offset_mode constants sdk new_device (pos 1) 1 true (2, manual) ≡ (ok tt, (3, automatic))
unfolding set_dc_offset_mode has_dc_offset_mode validate_channel get_num_channels stream_direction
    get_handle checked has_bit read_original add_bit
switched = refl

set_dc_offset_mode-Shows_example :
    Shows constants sdk new_device
      (pos 1)
      1
      true
      (set_dc_offset_mode constants sdk new_device (pos 1) 1 true (2, manual))
set_dc_offset_mode-Shows_example =
    set_dc_offset_mode-Shows constants sdk new_device (pos 1) 1 true (2, manual) sdk-IsMemory
