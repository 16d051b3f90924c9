-- ===== src/Streams/Ownership/Closing.antt =====
-- `closeStream` lets the hardware go before the stream.
use soapy_sidekiq.Base.{
  ℕ, ◌≡◌, ◌==◌, ==_iff, refl, ◌⊎◌, inl, inr, Bool, true, false, not, Bool-cases, arith, Option,
  none, some, ok, throw, runtime_error, if◌then◌else◌,
}
use soapy_sidekiq.Base.Int.{ℤ, pos, eqb_ℤ}
use soapy_sidekiq.RxSession.{Session}
use soapy_sidekiq.StreamRequest.{StreamDirection, rx, tx}
use soapy_sidekiq.Streams.{
  Constants, StreamHandle, Device, Called, find_stream_handle, is_at, active_stream,
}
use soapy_sidekiq.Streams.Ownership.{owns_rx, IsSound, Apart, Keeps, Keeps-refl, find_stream-active}
use soapy_sidekiq.Streams.Ownership.Deactivating.{
  AreErrors, is_free, Deactivates, deactivate_stream-Deactivates, stop_tx_stream-Stops, Stops,
}
use soapy_sidekiq.Streams.Stop.{
  Stopping, closed_rx, close_rx, closed_tx, close_by, close_stream, stop_tx_stream,
  deactivate_stream,
}

abbrev pub opposite : StreamDirection → StreamDirection
opposite rx = tx
opposite tx = rx

-- The stream `h`, which had this token, is gone.
pub record IsClosed (direction : StreamDirection) (stream : ℕ) (d d' : Device) : Type 0 where
  pub sound : IsSound d'
  pub gone : active_stream d' direction ≡ none
  pub free : is_free direction d' ≡ true
  pub unknown : find_stream_handle d' stream ≡ none
  pub other_kept : active_stream d' (opposite direction) ≡ active_stream d (opposite direction)

abbrev pub Closes : StreamDirection → ℕ → Device → Option (Called (Unit {0})) → Type 0
Closes direction stream d none = Unit
Closes direction stream d (some (throw e, d')) = Keeps d d'
Closes direction stream d (some (ok done, d')) = IsClosed direction stream d d'

find_stream-address :
    (d : Device) (stream : ℕ) (h : StreamHandle)
    → find_stream_handle d stream ≡ some h
    → h.address ≡ stream
unfolding find_stream_handle
find_stream-address d stream h e =
    by_place (stream == 0) (is_at stream d.active_rx_stream) refl (is_at stream d.active_tx_stream)
      refl e
  where
    addressed :
        (place : Option StreamHandle)
        → is_at stream place ≡ true
        → place ≡ some h
        → h.address ≡ stream
    addressed none a f = cc f
    addressed (some g) a f = cc (f, (==_iff g.address stream).0 a)

    by_place :
        (null at_rx : Bool)
        → is_at stream d.active_rx_stream ≡ at_rx
        → (at_tx : Bool) → is_at stream d.active_tx_stream ≡ at_tx
        → (if null
            then none
            else if at_rx
            then d.active_rx_stream
            else if at_tx
            then d.active_tx_stream
            else none)
          ≡ some h
        → h.address ≡ stream
    by_place true at_rx r at_tx t f = cc f
    by_place false true r at_tx t f = addressed d.active_rx_stream r f
    by_place false false r true t f = addressed d.active_tx_stream t f
    by_place false false r false t f = cc f

pub unknown_stream :
    (d : Device) (stream : ℕ)
    → is_at stream d.active_rx_stream ≡ false
    → is_at stream d.active_tx_stream ≡ false
    → find_stream_handle d stream ≡ none
unfolding find_stream_handle
unknown_stream d stream r t = elim (Bool-cases (stream == 0)) [
  | inl z ↦ rw z refl
  | inr z ↦ rw (z, r, t) refl
]

-- The other stream has another token.
elsewhere_tx :
    (stream : ℕ) (h : StreamHandle) (place : Option StreamHandle)
    → Apart (some h) place
    → h.address ≡ stream
    → is_at stream place ≡ false
elsewhere_tx stream h none apart a = refl
elsewhere_tx stream h (some g) apart a = ground arith

elsewhere_rx :
    (stream : ℕ) (h : StreamHandle) (place : Option StreamHandle)
    → Apart place (some h)
    → h.address ≡ stream
    → is_at stream place ≡ false
elsewhere_rx stream h none apart a = refl
elsewhere_rx stream h (some g) apart a = ground arith

Apart-none : (place : Option StreamHandle) → Apart place none
Apart-none none = tt
Apart-none (some h) = tt

drop_rx-IsClosed :
    (stream : ℕ) (d d' : Device) (h : StreamHandle)
    → IsSound d
    → Keeps d d'
    → d.active_rx_stream ≡ some h
    → h.address ≡ stream
    → owns_rx d'.session ≡ false
    → IsClosed rx stream d (record d' { active_rx_stream = none })
drop_rx-IsClosed stream d d' h v w r a free = record {
  sound = record {
    rx_stream = tt;
    tx_stream = w.sound.tx_stream;
    apart = tt;
    rx_held = λ o. cc (o, free);
    tx_held = w.sound.tx_held;
    thread_active = w.sound.thread_active;
  };
  gone = refl;
  free = rw free refl;
  unknown =
      unknown_stream (record d' { active_rx_stream = none }) stream refl
        (rw w.same_tx (elsewhere_tx stream h d.active_tx_stream (rw r at v.apart) a));
  other_kept = w.same_tx;
}

drop_tx-IsClosed :
    (stream : ℕ) (d d' : Device) (h : StreamHandle)
    → IsSound d
    → Keeps d d'
    → d.active_tx_stream ≡ some h
    → h.address ≡ stream
    → d'.tx_stream_active ≡ false
    → IsClosed tx stream d (record d' { active_tx_stream = none; has_tx_blocks = false })
drop_tx-IsClosed stream d d' h v w t a free = record {
  sound = record {
    rx_stream = w.sound.rx_stream;
    tx_stream = tt;
    apart = Apart-none d'.active_rx_stream;
    rx_held = w.sound.rx_held;
    tx_held = λ o. cc (o, free);
    thread_active = w.sound.thread_active;
  };
  gone = refl;
  free = rw free refl;
  unknown =
      unknown_stream (record d' { active_tx_stream = none; has_tx_blocks = false }) stream
        (rw w.same_rx (elsewhere_rx stream h d.active_rx_stream (rw t at v.apart) a)) refl;
  other_kept = w.same_rx;
}

of_rx :
    (d : Device) (r : Option (Called ℤ)) (x : StreamDirection)
    → x ≡ rx
    → Deactivates x d r
    → Deactivates rx d r
of_rx d r rx e w = w
of_rx d r tx e w = cc e

module _ (k : Constants) (o : Stopping) (stream : ℕ) (d : Device) (h : StreamHandle) (v : IsSound d)
    (c : AreErrors k) (e : find_stream_handle d stream ≡ some h) where
  after_deactivation :
      d.active_rx_stream ≡ some h
      → (r : Option (Called ℤ)) → Deactivates rx d r
      → Closes rx stream d (closed_rx r)
  after_deactivation a none w = tt
  after_deactivation a (some (throw x, d')) w = w.0
  after_deactivation a (some (ok status, d')) w = answered (eqb_ℤ status (pos 0)) w.1
    where
      answered :
          (z : Bool)
          → (z ≡ true → not (owns_rx d'.session) ≡ true)
          → Closes rx stream d (
              if not z
              then some (throw runtime_error, d')
              else some (ok tt, record d' { active_rx_stream = none }))
      answered false f = w.0
      answered true f =
          drop_rx-IsClosed stream d d' h v w.0 a (find_stream-address d stream h e)
            (ground (arith, f refl))

  close_rx-Closes :
      h.direction ≡ rx
      → d.active_rx_stream ≡ some h
      → (x : Option Session) → d.session ≡ x
      → Closes rx stream d (close_rx k o stream d x)
  close_rx-Closes r a none s =
      drop_rx-IsClosed stream d d h v (Keeps-refl d v) a (find_stream-address d stream h e)
        (rw s refl)
  close_rx-Closes r a (some t) s = stopped t.running
    where
      deactivates : Deactivates rx d (deactivate_stream k o stream 0 (pos 0) d)
      deactivates =
          of_rx d (deactivate_stream k o stream 0 (pos 0) d) h.direction r
            (deactivate_stream-Deactivates k o stream 0 (pos 0) d h v c e)

      stopped :
          (running : Bool)
          → Closes rx stream d (
              if running
              then some (throw runtime_error, d)
              else closed_rx (deactivate_stream k o stream 0 (pos 0) d))
      stopped true = Keeps-refl d v
      stopped false = after_deactivation a (deactivate_stream k o stream 0 (pos 0) d) deactivates

  after_stop :
      d.active_tx_stream ≡ some h
      → (r : ℤ × Device) → Stops d r
      → Closes tx stream d (some (closed_tx r))
  after_stop a (status, d') w = answered (eqb_ℤ status (pos 0)) w.1
    where
      answered :
          (z : Bool)
          → (z ≡ true → d'.tx_stream_active ≡ false)
          → Closes tx stream d (
              some (
                if not z
                then (throw runtime_error, d')
                else (ok tt, record d' { active_tx_stream = none; has_tx_blocks = false })))
      answered false f = w.0
      answered true f =
          drop_tx-IsClosed stream d d' h v w.0 a (find_stream-address d stream h e) (f refl)

  close_tx-Closes : d.active_tx_stream ≡ some h → Closes tx stream d (close_by k o stream d tx)
  close_tx-Closes a = stopped d.tx_stream_active
    where
      stopped :
          (active : Bool)
          → Closes tx stream d (
              if active
              then some (throw runtime_error, d)
              else some (closed_tx (stop_tx_stream k o false d)))
      stopped true = Keeps-refl d v
      stopped false = after_stop a (stop_tx_stream k o false d) (stop_tx_stream-Stops k o false d v)

  -- `closeStream` of a stream that the device has either throws, with both streams kept and the device
  -- sound, or closes: then the hardware of its direction is no longer owned, its token is unknown, and the
  -- stream of the other direction is kept. It needs SoapySDR's codes of errors not to be 0.
  pub close_stream-Closes : Closes h.direction stream d (close_stream k o stream d)
  unfolding close_stream
  close_stream-Closes = simp e (by_place (find_stream-active d stream h v e))
    where
      by_place :
          ((h.direction ≡ rx) × (d.active_rx_stream ≡ some h))
            ⊎ ((h.direction ≡ tx) × (d.active_tx_stream ≡ some h))
          → Closes h.direction stream d (close_by k o stream d h.direction)
      by_place (inl (r, a)) = simp r (close_rx-Closes r a d.session refl)
      by_place (inr (t, a)) = simp t (close_tx-Closes a)
