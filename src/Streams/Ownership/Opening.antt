-- ===== src/Streams/Ownership/Opening.antt =====
-- What `setupStream` leaves, whether it makes a stream or throws.
pub mod Atomic
use soapy_sidekiq.Base.{
  ℕ, ◌<◌, ◌≡◌, ◌≢◌, ◌==◌, ==_iff, refl, ◌⊎◌, inl, inr, Bool, true, false, not, ◌||◌, Bool-cases,
  arith, Option, none, some, List, Outcome, ok, throw, Outcome-cases, runtime_error, Exception,
  if◌then◌else◌, leb, ◌-◌, ◌%◌, ◌/◌, ltb, out_of_range, invalid_argument,
}
use soapy_sidekiq.Base.Int.{ℤ, pos, eqb_ℤ, pos_part, ltb_ℤ}
use soapy_sidekiq.StreamRequest.{
  StreamDirection, rx, tx, StreamRequest, StreamFormat, front, validate_stream_request,
}
use soapy_sidekiq.StreamRequest.Valid.{IsAcceptable, validate_stream_request_iff}
use soapy_sidekiq.Streams.{
  Constants, StreamHandle, Device, Called, find_stream_handle, is_at, active_stream, num_channels,
  table, get_handle, stream_direction,
}
use soapy_sidekiq.Streams.Ownership.{owns_rx, IsSound, IsStream, Apart, Keeps, Keeps-refl}
use soapy_sidekiq.Streams.Ownership.Closing.{opposite}
use soapy_sidekiq.Streams.Setup.{
  SetupSdk, is_some, is_cs16, word_bytes, publish_rx, order_rx, setup_rx, with_buffers, publish_tx,
  setup_tx, with_handle, requested, directed, setup_stream,
}
use soapy_sidekiq.Tx.{Tx}
use soapy_sidekiq.Tx.BlockPool.{Built, build_pool}

-- The address of a new token is not null, and no stream has it.
pub record IsFresh (address : ℕ) (d : Device) : Type 0 where
  pub not_null : address ≢ 0
  pub rx_elsewhere : is_at address d.active_rx_stream ≡ false
  pub tx_elsewhere : is_at address d.active_tx_stream ≡ false

abbrev pub sdk_handle : StreamDirection → StreamHandle → ℕ
sdk_handle rx h = h.rx_handle
sdk_handle tx h = h.tx_handle

-- The device has a new stream with this token, on the channel that was asked for.
pub record SetUp (direction : StreamDirection) (channel : ℕ) (stream : ℕ) (d d' : Device)
    : Type 0 where
  pub sound : IsSound d'
  pub handle : StreamHandle
  pub known : find_stream_handle d' stream ≡ some handle
  pub directed : handle.direction ≡ direction
  pub was_free : active_stream d direction ≡ none
  pub on_channel : handle.channel ≡ channel
  pub in_range : channel < num_channels d direction
  pub mapped : sdk_handle direction handle ≡ table d direction channel
  pub other_kept : active_stream d' (opposite direction) ≡ active_stream d (opposite direction)
  pub same_session : d'.session ≡ d.session

unfoldable pub SetsUp : StreamDirection → ℕ → Device → Called ℕ → Type 0
SetsUp direction channel d (throw e, d') = Keeps d d'
SetsUp direction channel d (ok stream, d') = SetUp direction channel stream d d'

-- What is known when the handle of the channel was read.
pub record IsReady (direction : StreamDirection) (channel : ℕ) (h : StreamHandle) (d : Device)
    : Type 0 where
  pub fresh : IsFresh h.address d
  pub sound : IsSound d
  pub free : active_stream d direction ≡ none
  pub directed : h.direction ≡ direction
  pub on_channel : h.channel ≡ channel
  pub in_range : channel < num_channels d direction
  pub mapped : sdk_handle direction h ≡ table d direction channel

module _ (direction : StreamDirection) (channel : ℕ) (d : Device) where
  pub if-SetsUp :
      (b : Bool) (x y : Called ℕ)
      → SetsUp direction channel d x
      → SetsUp direction channel d y
      → SetsUp direction channel d (if b then x else y)
  if-SetsUp true x y p q = p
  if-SetsUp false x y p q = q

-- The members that a failed set-up may have changed.
abbrev rx_noted : ℕ → Bool → ℕ → Device → Device
rx_noted words short frequency d = record d {
  rx_payload_size_in_words = words;
  rx_use_short = short;
  sys_freq = frequency;
}

rx_noted-Keeps : (w : ℕ) (b : Bool) (f : ℕ) (d : Device) → IsSound d → Keeps d (rx_noted w b f d)
rx_noted-Keeps w b f d v = record {
  sound = record {
    rx_stream = v.rx_stream;
    tx_stream = v.tx_stream;
    apart = v.apart;
    rx_held = v.rx_held;
    tx_held = v.tx_held;
    thread_active = v.thread_active;
  };
  same_rx = refl;
  same_tx = refl;
}

Apart-rx :
    (h : StreamHandle) (place : Option StreamHandle)
    → is_at h.address place ≡ false
    → Apart (some h) place
Apart-rx h none a = tt
Apart-rx h (some g) a = ground arith

Apart-tx :
    (h : StreamHandle) (place : Option StreamHandle)
    → is_at h.address place ≡ false
    → Apart place (some h)
Apart-tx h none a = tt
Apart-tx h (some g) a = ground arith

find_rx :
    (d : Device) (h : StreamHandle)
    → h.address ≢ 0
    → find_stream_handle (record d { active_rx_stream = some h }) h.address ≡ some h
unfolding find_stream_handle
find_rx d h n = ground arith

find_tx :
    (d : Device) (h : StreamHandle)
    → h.address ≢ 0
    → is_at h.address d.active_rx_stream ≡ false
    → find_stream_handle (record d { active_tx_stream = some h }) h.address ≡ some h
unfolding find_stream_handle
find_tx d h n a = ground arith

module _ (channel : ℕ) (h : StreamHandle) (d : Device) (w : ℕ) (b : Bool) (f : ℕ)
    (r : IsReady rx channel h d) where
  abbrev noted : Device
  noted = rx_noted w b f d

  refused_rx : (e : Exception) → SetsUp rx channel d (throw e, noted)
  unfolding SetsUp
  refused_rx e = rx_noted-Keeps w b f d r.sound

  published_rx : SetsUp rx channel d (ok h.address, record noted { active_rx_stream = some h })
  unfolding SetsUp
  published_rx = record {
    sound = record {
      rx_stream = (r.directed, r.fresh.not_null);
      tx_stream = r.sound.tx_stream;
      apart = Apart-rx h d.active_tx_stream r.fresh.tx_elsewhere;
      rx_held = λ o. refl;
      tx_held = r.sound.tx_held;
      thread_active = r.sound.thread_active;
    };
    handle = h;
    known = find_rx noted h r.fresh.not_null;
    directed = r.directed;
    was_free = r.free;
    on_channel = r.on_channel;
    in_range = r.in_range;
    mapped = r.mapped;
    other_kept = refl;
    same_session = refl;
  }

  publish_rx-SetsUp : (sdk : SetupSdk) → SetsUp rx channel d (publish_rx sdk h noted)
  unfolding publish_rx
  publish_rx-SetsUp sdk =
      if-SetsUp rx channel d (not (eqb_ℤ sdk.transfer_timeout (pos 0))) _ _
        (refused_rx runtime_error) published_rx

  order_rx-SetsUp : (sdk : SetupSdk) → SetsUp rx channel d (order_rx sdk h noted)
  unfolding order_rx
  order_rx-SetsUp sdk =
      if-SetsUp rx channel d (not (eqb_ℤ sdk.system_frequency.0 (pos 0))) _ _
        (refused_rx runtime_error)
        (if-SetsUp rx channel d d.iq_swap _ _
          (if-SetsUp rx channel d (not (eqb_ℤ sdk.iq_order (pos 0))) _ _ (refused_rx runtime_error)
            (publish_rx-SetsUp sdk))
          (publish_rx-SetsUp sdk))

pub unchanged :
    (direction : StreamDirection) (channel : ℕ) (d : Device) (e : Exception)
    → IsSound d
    → SetsUp direction channel d (throw e, d)
unfolding SetsUp
unchanged direction channel d e v = Keeps-refl d v

pub setup_rx-SetsUp :
    (k : Constants) (sdk : SetupSdk) (channel : ℕ) (h : StreamHandle) (format : StreamFormat)
    (d : Device)
    → IsReady rx channel h d
    → SetsUp rx channel d (setup_rx k sdk h format d)
unfolding setup_rx
setup_rx-SetsUp k sdk channel h format d r =
    if-SetsUp rx channel d (ltb_ℤ sdk.rx_block_size (pos 0)) _ _
      (unchanged rx channel d runtime_error r.sound)
      (if-SetsUp rx channel d
        (leb (pos_part sdk.rx_block_size) k.rx_header_size
          || not (pos_part sdk.rx_block_size % word_bytes == 0))
        _ _ (unchanged rx channel d runtime_error r.sound)
        (order_rx-SetsUp channel h d _ _ _ r sdk))

module _ (channel : ℕ) (h : StreamHandle) (d : Device) (b : Bool) (f : ℕ)
    (r : IsReady tx channel h d) where
  abbrev noted_tx : Device
  noted_tx = record d { tx_use_short = b; sys_freq = f }

  noted_tx-Keeps : (x : Tx) (p : Bool) → Keeps d (record noted_tx { tx = x; has_tx_blocks = p })
  noted_tx-Keeps x p = record {
    sound = record {
      rx_stream = r.sound.rx_stream;
      tx_stream = r.sound.tx_stream;
      apart = r.sound.apart;
      rx_held = r.sound.rx_held;
      tx_held = r.sound.tx_held;
      thread_active = r.sound.thread_active;
    };
    same_rx = refl;
    same_tx = refl;
  }

  pub refused_tx : (e : Exception) → SetsUp tx channel d (throw e, noted_tx)
  unfolding SetsUp
  refused_tx e = noted_tx-Keeps d.tx d.has_tx_blocks

  published_tx :
      (x : Tx)
      → SetsUp tx channel d (
        ok h.address,
        record noted_tx { tx = x; has_tx_blocks = true; active_tx_stream = some h },
      )
  unfolding SetsUp
  published_tx x = record {
    sound = record {
      rx_stream = r.sound.rx_stream;
      tx_stream = (r.directed, r.fresh.not_null);
      apart = Apart-tx h d.active_rx_stream r.fresh.rx_elsewhere;
      rx_held = r.sound.rx_held;
      tx_held = λ o. refl;
      thread_active = r.sound.thread_active;
    };
    handle = h;
    known =
        find_tx (record noted_tx { tx = x; has_tx_blocks = true }) h r.fresh.not_null
          r.fresh.rx_elsewhere;
    directed = r.directed;
    was_free = r.free;
    on_channel = r.on_channel;
    in_range = r.in_range;
    mapped = r.mapped;
    other_kept = refl;
    same_session = refl;
  }

  pub with_buffers-SetsUp :
      (built : Built) (o : Outcome (List ℕ))
      → built.outcome ≡ o
      → SetsUp tx channel d (publish_tx h (with_buffers built noted_tx))
  unfolding with_buffers
  with_buffers-SetsUp built (throw e) q = simp q (refused_tx e)
  with_buffers-SetsUp built (ok blocks) q = simp q (published_tx _)
