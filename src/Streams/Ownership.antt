-- ===== src/Streams/Ownership.antt =====
-- Which streams a device has, and what they own of the hardware.
pub mod Stopped
pub mod Deactivating
pub mod Closing
pub mod Opening
pub mod Launched
pub mod Starting
pub mod Reachable
use soapy_sidekiq.Base.{
  ℕ, ◌≡◌, ◌≢◌, ◌⊎◌, ◌==◌, ==_iff, refl, sym, ◌∙◌, ap, inl, inr, Bool, true, false, not, ◌&&◌,
  Bool-cases, arith, Option, none, some, if◌then◌else◌,
}
use soapy_sidekiq.RxSession.{Session}
use soapy_sidekiq.RxSession.Lifecycle.{owns_hardware_or_worker}
use soapy_sidekiq.StreamRequest.{StreamDirection, rx, tx}
use soapy_sidekiq.Streams.{StreamHandle, Device, find_stream_handle, is_at}
use soapy_sidekiq.Streams.Setup.{is_some}

abbrev pub owns_rx : Option Session → Bool
owns_rx none = false
owns_rx (some s) = owns_hardware_or_worker s

-- A stream of one direction, at an address.
abbrev pub IsStream : StreamDirection → Option StreamHandle → Type 0
IsStream direction none = Unit
IsStream direction (some h) = (h.direction ≡ direction) × (h.address ≢ 0)

abbrev pub Apart : Option StreamHandle → Option StreamHandle → Type 0
Apart none g = Unit
Apart (some h) none = Unit
Apart (some h) (some g) = h.address ≢ g.address

pub record IsSound (d : Device) : Type 0 where
  pub rx_stream : IsStream rx d.active_rx_stream
  pub tx_stream : IsStream tx d.active_tx_stream
  pub apart : Apart d.active_rx_stream d.active_tx_stream
  -- Hardware that is owned has a stream, by which it can be stopped.
  pub rx_held : owns_rx d.session ≡ true → is_some d.active_rx_stream ≡ true
  pub tx_held : d.tx_stream_active ≡ true → is_some d.active_tx_stream ≡ true
  -- A thread that starts TX belongs to an activation.
  pub thread_active : d.tx_thread ≡ true → d.tx_stream_active ≡ true

-- A token that was found is the one of its direction.
pub find_stream-active :
    (d : Device) (stream : ℕ) (h : StreamHandle)
    → IsSound d
    → find_stream_handle d stream ≡ some h
    → ((h.direction ≡ rx) × (d.active_rx_stream ≡ some h))
      ⊎ ((h.direction ≡ tx) × (d.active_tx_stream ≡ some h))
unfolding find_stream_handle
find_stream-active d stream h v e =
    by_place (stream == 0) (is_at stream d.active_rx_stream) (is_at stream d.active_tx_stream) e
  where
    streams :
        (direction : StreamDirection) (place : Option StreamHandle)
        → IsStream direction place
        → place ≡ some h
        → h.direction ≡ direction
    streams direction none w f = cc f
    streams direction (some g) w f = cc (f, w.0)

    by_place :
        (null at_rx at_tx : Bool)
        → (if null
            then none
            else if at_rx
            then d.active_rx_stream
            else if at_tx
            then d.active_tx_stream
            else none)
          ≡ some h
        → ((h.direction ≡ rx) × (d.active_rx_stream ≡ some h))
          ⊎ ((h.direction ≡ tx) × (d.active_tx_stream ≡ some h))
    by_place true at_rx at_tx f = cc f
    by_place false true at_tx f = inl (streams rx d.active_rx_stream v.rx_stream f, f)
    by_place false false true f = inr (streams tx d.active_tx_stream v.tx_stream f, f)
    by_place false false false f = cc f

-- A call that leaves the device sound, with the streams that it had.
pub record Keeps (d d' : Device) : Type 0 where
  pub sound : IsSound d'
  pub same_rx : d'.active_rx_stream ≡ d.active_rx_stream
  pub same_tx : d'.active_tx_stream ≡ d.active_tx_stream

pub Keeps-refl : (d : Device) → IsSound d → Keeps d d
Keeps-refl d v = record { sound = v; same_rx = refl; same_tx = refl }

-- A session that owns no more than before.
pub with_session-Keeps :
    (d : Device) (s : Option Session)
    → IsSound d
    → (owns_rx s ≡ true → is_some d.active_rx_stream ≡ true)
    → Keeps d (record d { session = s })
with_session-Keeps d s v h = record {
  sound = record {
    rx_stream = v.rx_stream;
    tx_stream = v.tx_stream;
    apart = v.apart;
    rx_held = h;
    tx_held = v.tx_held;
    thread_active = v.thread_active;
  };
  same_rx = refl;
  same_tx = refl;
}
