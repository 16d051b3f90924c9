-- ===== src/Streams/Setup.antt =====
-- `setupStream`.
use soapy_sidekiq.Base.{
  ℕ, ◌==◌, ◌-◌, ◌/◌, ◌%◌, ◌||◌, Bool, true, false, not, Option, none, some, List, Outcome, ok,
  throw, invalid_argument, runtime_error, leb, if◌then◌else◌,
}
use soapy_sidekiq.Base.Int.{ℤ, pos, eqb_ℤ, pos_part, ltb_ℤ}
use soapy_sidekiq.StreamRequest.{
  StreamDirection, rx, tx, StreamRequest, StreamFormat, cs16, cf32, validate_stream_request,
}
use soapy_sidekiq.Tx.{initialize_buffers}
use soapy_sidekiq.Tx.BlockPool.{Allocation, Built, build_pool}
use soapy_sidekiq.Streams.{
  Constants, StreamHandle, Device, Called, stream_direction, active_stream, num_channels,
  get_handle,
}

-- What the SDK and the allocators answer: the status of each call, with the value that it stores.
pub record SetupSdk : Type 0 where
  pub rx_block_size : ℤ
  pub system_frequency : ℤ × ℕ
  pub iq_order : ℤ
  pub transfer_timeout : ℤ
  pub address : ℕ
  pub allocations : List Allocation

abbrev pub is_some {ℓ} : {A : Type ℓ} → Option A → Bool
is_some none = false
is_some (some a) = true

abbrev pub is_cs16 : StreamFormat → Bool
is_cs16 cs16 = true
is_cs16 cf32 = false

abbrev pub word_bytes : ℕ
word_bytes = 4

-- `setupStream` for RX, from the read of the block size on.
unfoldable pub publish_rx : SetupSdk → StreamHandle → Device → Called ℕ
publish_rx sdk h d =
    if not (eqb_ℤ sdk.transfer_timeout (pos 0))
    then (throw runtime_error, d)
    else (ok h.address, record d { active_rx_stream = some h })

unfoldable pub order_rx : SetupSdk → StreamHandle → Device → Called ℕ
order_rx sdk h d =
    if not (eqb_ℤ sdk.system_frequency.0 (pos 0))
    then (throw runtime_error, d)
    else if d.iq_swap
    then if not (eqb_ℤ sdk.iq_order (pos 0)) then (throw runtime_error, d) else publish_rx sdk h d
    else publish_rx sdk h d

unfoldable pub setup_rx : Constants → SetupSdk → StreamHandle → StreamFormat → Device → Called ℕ
setup_rx k sdk h format d =
    let bytes = pos_part sdk.rx_block_size in
    let d' = record d {
      rx_payload_size_in_words = (bytes - k.rx_header_size) / word_bytes;
      rx_use_short = is_cs16 format;
      sys_freq = sdk.system_frequency.1;
    } in
    if ltb_ℤ sdk.rx_block_size (pos 0)
    then (throw runtime_error, d)
    else if leb bytes k.rx_header_size || not (bytes % word_bytes == 0)
    then (throw runtime_error, d)
    else order_rx sdk h d'

-- `initializeTxBuffers`: the pool is built before a member changes.
unfoldable pub with_buffers : Built → Device → Called (Unit {0})
with_buffers built d = by_outcome built.outcome
  where
    by_outcome : Outcome (List ℕ) → Called (Unit {0})
    by_outcome (throw e) = (throw e, d)
    by_outcome (ok blocks) =
        (ok tt, record d { tx = initialize_buffers d.tx_buffer_count d.tx; has_tx_blocks = true })

abbrev pub publish_tx : StreamHandle → Called (Unit {0}) → Called ℕ
publish_tx h (throw e, d) = (throw e, d)
publish_tx h (ok done, d) = (ok h.address, record d { active_tx_stream = some h })

-- `setupStream` for TX.
unfoldable pub setup_tx : SetupSdk → StreamHandle → StreamFormat → Device → Called ℕ
setup_tx sdk h format d =
    let d' = record d { tx_use_short = is_cs16 format; sys_freq = sdk.system_frequency.1 } in
    if not (eqb_ℤ sdk.system_frequency.0 (pos 0))
    then (throw runtime_error, d')
    else publish_tx h
        (with_buffers (build_pool d'.tx_buffer_count d'.tx.block_size sdk.allocations) d')

abbrev pub with_handle :
    Constants → SetupSdk → StreamRequest → StreamDirection → Device → Outcome ℕ → Called ℕ
with_handle k sdk r direction d (throw e) = (throw e, d)
with_handle k sdk r rx d (ok handle) =
    setup_rx k sdk
      (record {
        address = sdk.address;
        direction = rx;
        channel = r.channel;
        rx_handle = handle;
        tx_handle = k.no_handle;
      })
      r.format d
with_handle k sdk r tx d (ok handle) =
    setup_tx sdk
      (record {
        address = sdk.address;
        direction = tx;
        channel = r.channel;
        rx_handle = k.no_handle;
        tx_handle = handle;
      })
      r.format d

abbrev pub requested :
    Constants → SetupSdk → Bool → StreamDirection → Device → Outcome StreamRequest → Called ℕ
requested k sdk has_args direction d (throw e) = (throw e, d)
requested k sdk has_args direction d (ok r) =
    if has_args
    then (throw invalid_argument, d)
    else with_handle k sdk r direction d (get_handle d direction r.channel)

abbrev pub directed :
    Constants → SetupSdk → List ℕ → List ℕ → Bool → Device → Outcome StreamDirection → Called ℕ
directed k sdk format channels has_args d (throw e) = (throw e, d)
directed k sdk format channels has_args d (ok direction) = requested k sdk has_args direction d (
    validate_stream_request direction format channels (num_channels d direction)
      (is_some (active_stream d direction)))

-- `setupStream`. `has_args` is `!args.empty()`.
unfoldable pub setup_stream : Constants → SetupSdk → ℤ → List ℕ → List ℕ → Bool → Device → Called ℕ
setup_stream k sdk direction format channels has_args d =
    directed k sdk format channels has_args d (stream_direction k direction)
