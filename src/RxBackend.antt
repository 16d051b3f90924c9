-- ===== src/RxBackend.antt =====
-- SidekiqRxBackend.cpp: the blocks of the SDK as results of the driver.
pub mod Normal
use soapy_sidekiq.Base.{
  ℕ, zero, suc, ◌+◌, ◌-◌, ◌*◌, ◌/◌, ◌%◌, ◌==◌, Bool, true, false, not, ◌||◌, List, [], ◌∷◌, ltb,
  if◌then◌else◌, Option, none, some, Outcome, ok,
}
use soapy_sidekiq.Base.Int.{ℤ, pos, eqb_ℤ}
use soapy_sidekiq.RxSession.{RxReceiveStatus, success, no_data, overrun, RxReceiveResult}

-- What `skiq_receive` stores through its pointers; the data array has no length of its own.
pub record SdkBlock : Type 0 where
  pub data_at : ℕ → ℕ
  pub rf_timestamp : ℕ
  pub sys_timestamp : ℕ

pub record SdkReceive : Type 0 where
  pub status : ℤ
  pub handle : ℕ
  pub block : Option SdkBlock
  pub byte_length : ℕ

-- The SDK's constants: the statuses no data and overrun, the value of -EINVAL, and the size of a header.
-- Success is 0.
pub record SdkCodes : Type 0 where
  pub no_data_status : ℤ
  pub overrun_status : ℤ
  pub invalid : ℤ
  pub header_size : ℕ

abbrev pub without_samples : RxReceiveStatus → ℤ → RxReceiveResult
without_samples status error_code = record {
  status = status;
  handle = 0;
  samples = [];
  rf_timestamp = 0;
  system_timestamp = 0;
  error_code = error_code;
}

-- The loop that copies the data array, from an index on.
unfoldable pub copied_data : (ℕ → ℕ) → ℕ → ℕ → List ℕ
copied_data data_at index zero = []
copied_data data_at index (suc n) = data_at index ∷ copied_data data_at (index + 1) n

unfoldable pub normalised : SdkCodes → SdkReceive → Option SdkBlock → RxReceiveResult
normalised codes r none =
    without_samples RxReceiveStatus.error
      (if eqb_ℤ r.status (pos 0) then codes.invalid else r.status)
normalised codes r (some block) =
    let complex_samples = (r.byte_length - codes.header_size) / 4 in
    if not (eqb_ℤ r.status (pos 0))
      || ltb r.byte_length codes.header_size
      || not ((r.byte_length - codes.header_size) % 4 == 0)
    then without_samples RxReceiveStatus.error
        (if eqb_ℤ r.status (pos 0) then codes.invalid else r.status)
    else record {
      status = success;
      handle = r.handle;
      samples = copied_data block.data_at 0 (complex_samples * 2);
      rf_timestamp = block.rf_timestamp;
      system_timestamp = block.sys_timestamp;
      error_code = pos 0;
    }

-- `SidekiqRxBackend::receive`.
unfoldable pub receive : SdkCodes → SdkReceive → RxReceiveResult
receive codes r =
    if eqb_ℤ r.status codes.no_data_status
    then without_samples no_data (pos 0)
    else if eqb_ℤ r.status codes.overrun_status
    then without_samples overrun (pos 0)
    else normalised codes r r.block
