-- ===== src/Streams.antt =====
-- Streaming.cpp, and of DeviceLifecycle.cpp the channels: what a device knows of its streams.
pub mod Setup
pub mod Stop
pub mod Activate
pub mod Ownership
use soapy_sidekiq.Base.{
  ℕ, ◌==◌, ◌-◌, ◌/◌, ◌%◌, ◌||◌, ◌&&◌, Bool, true, false, not, Option, none, some, Outcome, ok,
  throw, ◌>>=◌, invalid_argument, out_of_range, logic_error, ltb, if◌then◌else◌,
}
use soapy_sidekiq.Base.Int.{ℤ, pos, eqb_ℤ}
use soapy_sidekiq.RxSession.{Session}
use soapy_sidekiq.RxSession.Lifecycle.{owns_hardware_or_worker}
use soapy_sidekiq.StreamRequest.{StreamDirection, rx, tx}
use soapy_sidekiq.Tx.{Tx}

-- The values that the headers of SoapySDR and of the SDK give. `time_flag` is SOAPY_SDR_HAS_TIME, which is
-- one bit, and `enodev` is -ENODEV.
pub record Constants : Type 0 where
  pub rx_direction : ℤ
  pub tx_direction : ℤ
  pub time_flag : ℕ
  pub stream_error : ℤ
  pub not_supported : ℤ
  pub enodev : ℤ
  pub rx_header_size : ℕ
  pub no_handle : ℕ

-- A token with its address, which is not 0. A stream has the direction that was asked for.
pub record StreamHandle : Type 0 where
  pub address : ℕ
  pub direction : StreamDirection
  pub channel : ℕ
  pub rx_handle : ℕ
  pub tx_handle : ℕ

-- The members that the streams use. The table of handles is a function of the channel.
pub record Device : Type 0 where
  pub session : Option Session
  pub active_rx_stream : Option StreamHandle
  pub active_tx_stream : Option StreamHandle
  pub num_rx_channels : ℕ
  pub num_tx_channels : ℕ
  pub rx_table : ℕ → ℕ
  pub tx_table : ℕ → ℕ
  pub rx_payload_size_in_words : ℕ
  pub rx_use_short : Bool
  pub tx_use_short : Bool
  pub iq_swap : Bool
  pub rf_time_source : Bool
  pub sys_freq : ℕ
  pub tx_buffer_count : ℕ
  pub tx : Tx
  -- `_tx_streaming_thread.joinable()`.
  pub tx_thread : Bool
  pub tx_stream_active : Bool
  pub has_tx_blocks : Bool

-- The device with its state, and what a call returns or throws.
abbrev pub Called {ℓ} : Type ℓ → Type ℓ
Called A = Outcome A × Device

unfoldable pub stream_direction : Constants → ℤ → Outcome StreamDirection
stream_direction k direction =
    if eqb_ℤ direction k.rx_direction
    then ok rx
    else if eqb_ℤ direction k.tx_direction
    then ok tx
    else throw invalid_argument

abbrev pub is_at : ℕ → Option StreamHandle → Bool
is_at stream none = false
is_at stream (some h) = h.address == stream

-- `findStreamHandle`: addresses are compared, and nothing else is looked at. The address 0 is null.
unfoldable pub find_stream_handle : Device → ℕ → Option StreamHandle
find_stream_handle d stream =
    if stream == 0
    then none
    else if is_at stream d.active_rx_stream
    then d.active_rx_stream
    else if is_at stream d.active_tx_stream
    then d.active_tx_stream
    else none

abbrev pub num_channels : Device → StreamDirection → ℕ
num_channels d rx = d.num_rx_channels
num_channels d tx = d.num_tx_channels

abbrev pub active_stream : Device → StreamDirection → Option StreamHandle
active_stream d rx = d.active_rx_stream
active_stream d tx = d.active_tx_stream

abbrev pub table : Device → StreamDirection → ℕ → ℕ
table d rx = d.rx_table
table d tx = d.tx_table

-- `getNumChannels`, `validateChannel`, `getRxHandle` and `getTxHandle`.
unfoldable pub get_num_channels : Constants → Device → ℤ → Outcome ℕ
get_num_channels k d direction =
    if eqb_ℤ direction k.rx_direction
    then ok d.num_rx_channels
    else if eqb_ℤ direction k.tx_direction
    then ok d.num_tx_channels
    else throw invalid_argument

unfoldable pub validate_channel : Constants → Device → ℤ → ℕ → Outcome (Unit {0})
validate_channel k d direction channel =
    get_num_channels k d direction
    >>= (λ count. if ltb channel count then ok tt else throw out_of_range)

unfoldable pub get_handle : Device → StreamDirection → ℕ → Outcome ℕ
get_handle d direction channel =
    if ltb channel (num_channels d direction)
    then ok (table d direction channel)
    else throw out_of_range

-- `configureWhileRxInactive`, of a device in the state `s`; `configured` is how the callback ends.
unfoldable pub configure_while_rx_inactive :
    {S : Type 0} → Option Session → Outcome (Unit {0}) × S → S → Outcome (Unit {0}) × S
configure_while_rx_inactive none configured s = configured
configure_while_rx_inactive (some session) configured s =
    if owns_hardware_or_worker session then (throw logic_error, s) else configured

-- `getStreamMTU`.
unfoldable pub get_stream_mtu : Device → ℕ → Outcome ℕ
get_stream_mtu d stream = mtu (find_stream_handle d stream)
  where
    mtu : Option StreamHandle → Outcome ℕ
    mtu none = throw invalid_argument
    mtu (some h) = by_direction h.direction
      where
        by_direction : StreamDirection → Outcome ℕ
        by_direction rx = ok d.rx_payload_size_in_words
        by_direction tx = ok d.tx.block_size

-- `(flags & SOAPY_SDR_HAS_TIME) != 0`, and the flags that are not this one.
unfoldable pub on_time : Constants → ℕ → Bool
on_time k flags = flags / k.time_flag % 2 == 1

unfoldable pub other_flags : Constants → ℕ → ℕ
other_flags k flags = if on_time k flags then flags - k.time_flag else flags
