-- ===== src/RxBackend/Normal.antt =====
-- Every received block fits its header.
use soapy_sidekiq.Base.{
  ℕ, ◌+◌, ◌-◌, ◌*◌, ◌%◌, ◌≡◌, ◌==◌, ◌⊎◌, Bool, true, false, not, ◌&&◌, List, ◌∷◌, [], length, ltb,
  none, some,
}
use soapy_sidekiq.Base.Int.{pos, eqb_ℤ}
use soapy_sidekiq.RxSession.{RxReceiveStatus, success, no_data, overrun, RxReceiveResult}
use soapy_sidekiq.RxBackend.{SdkBlock, SdkReceive, SdkCodes, without_samples}

-- The samples of the driver are those of the SDK from an index of its array on, in order.
abbrev pub AreFrom : (ℕ → ℕ) → ℕ → List ℕ → Type 0
AreFrom data_at i [] = Unit
AreFrom data_at i (x ∷ xs) = (x ≡ data_at i) × AreFrom data_at (i + 1) xs

-- The SDK reports success with a block of whole pairs behind a whole header.
abbrev pub is_whole : SdkCodes → SdkReceive → Bool
is_whole codes r =
    eqb_ℤ r.status (pos 0)
    && not (ltb r.byte_length codes.header_size)
    && (r.byte_length - codes.header_size) % 4 == 0

-- A block that the driver passes on.
pub record IsComplete (codes : SdkCodes) (r : SdkReceive) (x : RxReceiveResult) : Type 0 where
  pub block : SdkBlock
  pub received : r.block ≡ some block
  pub whole_block : is_whole codes r ≡ true
  pub success_status : x.status ≡ success
  pub same_handle : x.handle ≡ r.handle
  -- Four bytes a pair, and nothing left over.
  pub whole : codes.header_size + 2 * length x.samples ≡ r.byte_length
  pub pairs : length x.samples % 2 ≡ 0
  pub same_samples : AreFrom block.data_at 0 x.samples
  pub same_rf_timestamp : x.rf_timestamp ≡ block.rf_timestamp
  pub same_system_timestamp : x.system_timestamp ≡ block.sys_timestamp
  pub no_error : x.error_code ≡ pos 0

-- A result without samples, and why: the SDK has no data, or lost some, or what it gave is not a whole
-- block, which is an error with the SDK's status or, where that is a success, the code of -EINVAL.
pub data IsEmpty (codes : SdkCodes) (r : SdkReceive) (x : RxReceiveResult) : Type 0 where
  idle : r.status ≡ codes.no_data_status → x ≡ without_samples no_data (pos 0) → IsEmpty codes r x
  lost : r.status ≡ codes.overrun_status → x ≡ without_samples overrun (pos 0) → IsEmpty codes r x
  failed :
      x ≡ without_samples RxReceiveStatus.error r.status
      → eqb_ℤ r.status (pos 0) ≡ false
      → IsEmpty codes r x
  malformed :
      x ≡ without_samples RxReceiveStatus.error codes.invalid
      → r.status ≡ pos 0
      → (r.block ≡ none) ⊎ (is_whole codes r ≡ false)
      → IsEmpty codes r x
