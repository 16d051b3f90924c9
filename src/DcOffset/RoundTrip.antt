-- ===== src/DcOffset/RoundTrip.antt =====
-- A mode that was set is read back.
use mathlib.Core.Path.{fun_ext}
use soapy_sidekiq.Base.{
  ℕ, ◌==◌, ◌≡◌, refl, sym, ap, inl, inr, Bool, true, false, Bool-cases, Outcome, ok, throw, ◌>>=◌,
  ◌>>◌, ◌∙◌, arith, if◌then◌else◌,
}
use soapy_sidekiq.Base.Int.{ℤ, pos}
use soapy_sidekiq.Clock.{succeeds}
use soapy_sidekiq.DcOffset.{
  CalMode, manual, automatic, unsupported, CalSdk, checked, supported, mode_in, has_dc_offset_mode,
  read_original, desired_mask, mode_written, write_mode_after, mask_written, write_original,
  write_handle, set_available, set_dc_offset_mode, read_handle, get_dc_offset_mode,
}
use soapy_sidekiq.DcOffset.Bit.{has_bit, has_bit-add_bit, has_bit-remove_bit}
use soapy_sidekiq.StreamRequest.{StreamDirection, rx, tx}
use soapy_sidekiq.Streams.{Constants, Device, validate_channel, get_handle, stream_direction}

-- The registers of the card: a write that succeeds is read back, and it changes no other register. What a failed
-- write leaves in its own register is open.
pub record IsMemory {H : Type 0} (sdk : CalSdk H) : Type 0 where
  pub mask_stored :
      (h : H) (handle mask : ℕ)
      → succeeds (sdk.write_mask h handle mask).0 ≡ true
      → sdk.read_mask (sdk.write_mask h handle mask).1 handle ≡ (pos 0, mask)
  pub mode_stored :
      (h : H) (handle : ℕ) (mode : CalMode)
      → succeeds (sdk.write_mode h handle mode).0 ≡ true
      → sdk.read_mode (sdk.write_mode h handle mode).1 handle ≡ (pos 0, mode)
  pub mask_kept :
      (h : H) (handle : ℕ) (mode : CalMode) (other : ℕ)
      → sdk.read_mask (sdk.write_mode h handle mode).1 other ≡ sdk.read_mask h other
  pub mode_kept :
      (h : H) (handle mask other : ℕ)
      → sdk.read_mode (sdk.write_mask h handle mask).1 other ≡ sdk.read_mode h other
  pub types_kept_by_mask :
      (h : H) (handle mask other : ℕ)
      → sdk.types_available (sdk.write_mask h handle mask).1 other ≡ sdk.types_available h other
  pub types_kept_by_mode :
      (h : H) (handle : ℕ) (mode : CalMode) (other : ℕ)
      → sdk.types_available (sdk.write_mode h handle mode).1 other ≡ sdk.types_available h other

module _ {H : Type 0} (k : Constants) (sdk : CalSdk H) (d : Device) (code : ℤ) (channel : ℕ) where
  -- A call that returned is read back.
  abbrev pub Shows : Bool → Outcome (Unit {0}) × H → Type 0
  Shows on (throw e, hardware) = Unit
  Shows on (ok done, hardware) = get_dc_offset_mode k sdk d code channel hardware ≡ ok on

  abbrev has : H → Outcome Bool
  has = has_dc_offset_mode k sdk d code channel

  has_dc_offset_mode-eq :
      (h h' : H) → ((x : ℕ) → sdk.types_available h x ≡ sdk.types_available h' x) → has h ≡ has h'
  unfolding has_dc_offset_mode
  has_dc_offset_mode-eq h h' e =
      ap (λ g. validate_channel k d code channel >> (stream_direction k code >>= g)) (fun_ext same)
    where
      same :
          (direction : StreamDirection)
          → mode_in k sdk d code channel h direction ≡ mode_in k sdk d code channel h' direction
      same tx = refl
      same rx =
          ap
            (λ f.
              get_handle d rx channel
              >>= (λ handle. checked (f handle) >>= (λ types. ok (has_bit sdk.dc_bit types))))
            (fun_ext e)

  module _ (handle : ℕ) (placed : get_handle d rx channel ≡ ok handle) where
    -- What a snapshot says of the readings.
    snapshot :
        (on : Bool) (h : H) (mask : ℕ) (mode : CalMode)
        → read_original k sdk d code channel on handle h ≡ ok (mask, mode)
        → (checked (sdk.read_mask h handle) ≡ ok mask)
          × (on ≡ true → checked (sdk.read_mode h handle) ≡ ok mode)
    unfolding read_original
    snapshot on h mask mode = of_mask on (checked (sdk.read_mask h handle))
      where
        paired : ℕ → CalMode → Outcome (ℕ × CalMode)
        paired m x = ok (m, x)

        of_mode :
            (m : ℕ) (c : Outcome CalMode)
            → (c >>= supported >>= paired m) ≡ ok (mask, mode)
            → (m ≡ mask) × (c ≡ ok mode)
        of_mode m (throw e) r = cc r
        of_mode m (ok manual) r = (cc r, cc r)
        of_mode m (ok automatic) r = (cc r, cc r)
        of_mode m (ok unsupported) r = cc r

        of_mask :
            (on : Bool) (c : Outcome ℕ)
            → (c >>= (λ m.
                if on
                then checked (sdk.read_mode h handle) >>= supported >>= paired m
                else paired m manual))
              ≡ ok (mask, mode)
            → (c ≡ ok mask) × (on ≡ true → checked (sdk.read_mode h handle) ≡ ok mode)
        of_mask on (throw e) r = cc r
        of_mask false (ok m) r = (cc r, λ p. cc p)
        of_mask true (ok m) r = (
          ap ok (of_mode m (checked (sdk.read_mode h handle)) r).0,
          λ p. (of_mode m (checked (sdk.read_mode h handle)) r).1,
        )

    get_dc_offset_mode-of :
        (on : Bool) (mask : ℕ) (h : H)
        → has h ≡ ok true
        → checked (sdk.read_mask h handle) ≡ ok (desired_mask k sdk d code channel on mask)
        → (on ≡ true → checked (sdk.read_mode h handle) ≡ ok automatic)
        → get_dc_offset_mode k sdk d code channel h ≡ ok on
    unfolding get_dc_offset_mode read_handle
    get_dc_offset_mode-of true mask h a m c =
        rw (a, placed, m, has_bit-add_bit sdk.dc_bit mask, c refl) refl
    get_dc_offset_mode-of false mask h a m c =
        rw (a, placed, m, has_bit-remove_bit sdk.dc_bit mask) refl

    module _ (memory : IsMemory sdk) where
      mode_written-Shows :
          (mask : ℕ) (mode : CalMode) (h : H)
          → has h ≡ ok true
          → checked (sdk.read_mask h handle) ≡ ok (desired_mask k sdk d code channel true mask)
          → Shows true (
              mode_written k sdk d code channel true handle mask mode
                (sdk.write_mode h handle automatic))
      unfolding checked
      mode_written-Shows mask mode h a m =
          elim (Bool-cases (succeeds (sdk.write_mode h handle automatic).0)) [
            | inl works ↦ simp works (
                get_dc_offset_mode-of true mask _
                  (has_dc_offset_mode-eq _ _ (memory.types_kept_by_mode h handle automatic) ∙ a)
                  (ap checked (memory.mask_kept h handle automatic handle) ∙ m)
                  (λ on. stored works))
            | inr fails ↦ simp fails tt
          ]
        where
          stored :
              succeeds (sdk.write_mode h handle automatic).0 ≡ true
              → checked (sdk.read_mode (sdk.write_mode h handle automatic).1 handle) ≡ ok automatic
          stored works = rw (memory.mode_stored h handle automatic works) refl

      write_mode_after-Shows :
          (on : Bool) (mask : ℕ) (mode : CalMode) (h : H)
          → has h ≡ ok true
          → checked (sdk.read_mask h handle) ≡ ok (desired_mask k sdk d code channel on mask)
          → (on ≡ true → checked (sdk.read_mode h handle) ≡ ok mode)
          → Shows on (write_mode_after k sdk d code channel on handle mask mode h)
      write_mode_after-Shows false mask mode h a m c =
          get_dc_offset_mode-of false mask h a m (λ on. cc on)
      write_mode_after-Shows true mask automatic h a m c = get_dc_offset_mode-of true mask h a m c
      write_mode_after-Shows true mask manual h a m c = mode_written-Shows mask manual h a m
      write_mode_after-Shows true mask unsupported h a m c =
          mode_written-Shows mask unsupported h a m

      mask_written-Shows :
          (on : Bool) (mask : ℕ) (mode : CalMode) (h : H)
          → has h ≡ ok true
          → (on ≡ true → checked (sdk.read_mode h handle) ≡ ok mode)
          → Shows on (
              mask_written k sdk d code channel on handle mask mode
                (sdk.write_mask h handle (desired_mask k sdk d code channel on mask)))
      unfolding checked
      mask_written-Shows on mask mode h a c =
          elim (Bool-cases (succeeds (sdk.write_mask h handle desired).0)) [
            | inl works ↦ simp works (
                write_mode_after-Shows on mask mode _
                  (has_dc_offset_mode-eq _ _ (memory.types_kept_by_mask h handle desired) ∙ a)
                  (rw (memory.mask_stored h handle desired works) refl)
                  (λ p. ap checked (memory.mode_kept h handle desired handle) ∙ c p))
            | inr fails ↦ simp fails tt
          ]
        where
          desired : ℕ
          desired = desired_mask k sdk d code channel on mask

      write_original-Shows :
          (on : Bool) (h : H) (o : Outcome (ℕ × CalMode))
          → has h ≡ ok true
          → read_original k sdk d code channel on handle h ≡ o
          → Shows on (write_original k sdk d code channel on handle h o)
      write_original-Shows on h (throw e) a r = tt
      write_original-Shows on h (ok (mask, mode)) a r = by_change (desired == mask) refl
        where
          desired : ℕ
          desired = desired_mask k sdk d code channel on mask

          by_change :
              (same : Bool)
              → (desired == mask) ≡ same
              → Shows on (
                  if same
                  then write_mode_after k sdk d code channel on handle mask mode h
                  else mask_written k sdk d code channel on handle mask mode
                      (sdk.write_mask h handle desired))
          by_change true same =
              write_mode_after-Shows on mask mode h a
                ((snapshot on h mask mode r).0 ∙ ap ok (sym (ground (arith, same))))
                (snapshot on h mask mode r).1
          by_change false changes =
              mask_written-Shows on mask mode h a (snapshot on h mask mode r).1

  -- A mode that `setDCOffsetMode` returns from having set is the one that `getDCOffsetMode` then answers, where a
  -- write to the card that succeeds is read back and changes no other register.
  pub set_dc_offset_mode-Shows :
      (on : Bool) (h : H) → IsMemory sdk → Shows on (set_dc_offset_mode k sdk d code channel on h)
  unfolding set_dc_offset_mode get_dc_offset_mode
  set_dc_offset_mode-Shows on h memory = by_support on (has h) refl
    where
      by_handle :
          (on : Bool) (o : Outcome ℕ)
          → get_handle d rx channel ≡ o
          → has h ≡ ok true
          → Shows on (write_handle k sdk d code channel on h o)
      by_handle on (throw e) p a = tt
      by_handle on (ok handle) p a = write_original-Shows handle p memory on h _ a refl

      by_support :
          (on : Bool) (o : Outcome Bool)
          → has h ≡ o
          → Shows on (set_available k sdk d code channel on h o)
      by_support on (throw e) a = tt
      by_support true (ok false) a = tt
      by_support false (ok false) a = rw a refl
      by_support on (ok true) a = by_handle on (get_handle d rx channel) refl a
