-- ===== src/Streams/Ownership/Opening/Atomic.antt =====
-- `setupStream` makes one stream or none.
use soapy_sidekiq.Base.{
  ℕ, ◌≡◌, refl, Bool, true, false, not, Option, none, some, List, Outcome, ok, throw, runtime_error,
  if◌then◌else◌, ltb, ltb→lt, out_of_range, invalid_argument,
}
use soapy_sidekiq.Base.Int.{ℤ, pos, eqb_ℤ}
use soapy_sidekiq.StreamRequest.{
  StreamDirection, rx, tx, StreamRequest, StreamFormat, front, validate_stream_request,
}
use soapy_sidekiq.StreamRequest.Valid.{IsAcceptable, validate_stream_request_iff}
use soapy_sidekiq.Streams.{
  Constants, StreamHandle, Device, active_stream, num_channels, get_handle, stream_direction, table,
}
use soapy_sidekiq.Streams.Ownership.{IsSound}
use soapy_sidekiq.Streams.Ownership.Opening.{
  IsFresh, IsReady, SetsUp, if-SetsUp, unchanged, setup_rx-SetsUp, refused_tx, with_buffers-SetsUp,
}
use soapy_sidekiq.Streams.Setup.{
  SetupSdk, is_some, is_cs16, setup_tx, with_handle, requested, setup_stream,
}
use soapy_sidekiq.Tx.BlockPool.{build_pool}

setup_tx-SetsUp :
    (sdk : SetupSdk) (channel : ℕ) (h : StreamHandle) (format : StreamFormat) (d : Device)
    → IsReady tx channel h d
    → SetsUp tx channel d (setup_tx sdk h format d)
unfolding setup_tx
setup_tx-SetsUp sdk channel h format d r =
    if-SetsUp tx channel d (not (eqb_ℤ sdk.system_frequency.0 (pos 0))) _ _
      (refused_tx channel h d (is_cs16 format) sdk.system_frequency.1 r runtime_error)
      (with_buffers-SetsUp channel h d (is_cs16 format) sdk.system_frequency.1 r
        (build_pool d.tx_buffer_count d.tx.block_size sdk.allocations) _ refl)

none_of : (x : Option StreamHandle) → is_some x ≡ false → x ≡ none
none_of none h = refl
none_of (some a) h = cc h

module _ (k : Constants) (sdk : SetupSdk) (d : Device) (v : IsSound d)
    (fresh : IsFresh sdk.address d) where
  with_handle-SetsUp :
      (direction : StreamDirection) (r : StreamRequest) (b : Bool)
      → active_stream d direction ≡ none
      → ltb r.channel (num_channels d direction) ≡ b
      → SetsUp direction r.channel d (
          with_handle k sdk r direction d
            (if b then ok (table d direction r.channel) else throw out_of_range))
  with_handle-SetsUp rx r false free inside = unchanged rx r.channel d out_of_range v
  with_handle-SetsUp tx r false free inside = unchanged tx r.channel d out_of_range v
  with_handle-SetsUp rx r true free inside = setup_rx-SetsUp k sdk r.channel _ r.format d (record {
    fresh = fresh;
    sound = v;
    free = free;
    directed = refl;
    on_channel = refl;
    in_range = ltb→lt r.channel d.num_rx_channels inside;
    mapped = refl;
  })
  with_handle-SetsUp tx r true free inside = setup_tx-SetsUp sdk r.channel _ r.format d (record {
    fresh = fresh;
    sound = v;
    free = free;
    directed = refl;
    on_channel = refl;
    in_range = ltb→lt r.channel d.num_tx_channels inside;
    mapped = refl;
  })

  requested-SetsUp :
      (direction : StreamDirection) (format channels : List ℕ) (has_args : Bool)
      (x : Outcome StreamRequest)
      → validate_stream_request direction format channels
          (num_channels d direction)
          (is_some (active_stream d direction))
        ≡ x
      → SetsUp direction (front channels) d (requested k sdk has_args direction d x)
  unfolding get_handle
  requested-SetsUp direction format channels has_args (throw e) q =
      unchanged direction (front channels) d e v
  requested-SetsUp direction format channels has_args (ok r) q = rw (← a.same_channel) (
      if-SetsUp direction r.channel d has_args _ _
        (unchanged direction r.channel d invalid_argument v) handled)
    where
      a :
          IsAcceptable direction format channels
            (num_channels d direction)
            (is_some (active_stream d direction))
            r
      a =
          (validate_stream_request_iff direction format channels (num_channels d direction)
              (is_some (active_stream d direction)) r).0
            q

      handled :
          SetsUp direction r.channel d
            (with_handle k sdk r direction d (get_handle d direction r.channel))
      handled = with_handle-SetsUp direction r _ (none_of _ a.free) refl

-- `setupStream` for a direction is atomic. Either it throws, and the streams are as they were and the device
-- is sound; or the token that it returns is found, as a stream of this direction that had none before, on
-- the first channel that was asked for, which the device has, with that channel's handle, and the other
-- direction and the session are untouched. It needs a new token that is not null and has no other stream's
-- address.
pub setup_stream_atomic :
    (k : Constants) (sdk : SetupSdk) (code : ℤ) (direction : StreamDirection)
    (format channels : List ℕ) (has_args : Bool) (d : Device)
    → IsSound d
    → IsFresh sdk.address d
    → stream_direction k code ≡ ok direction
    → SetsUp direction (front channels) d (setup_stream k sdk code format channels has_args d)
unfolding setup_stream
setup_stream_atomic k sdk code direction format channels has_args d v fresh e =
    simp e (requested-SetsUp k sdk d v fresh direction format channels has_args _ refl)
