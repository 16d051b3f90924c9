-- ===== src/Settings/Transaction.antt =====
-- The data source of every RX channel is switched, or that of none.
use mathlib.Core.Path.{subst}
use soapy_sidekiq.Base.{
  ℕ, zero, suc, ◌+◌, ◌<◌, ◌≡◌, ◌≢◌, refl, ◌∙◌, ap, ◌⊎◌, inl, inr, Bool, true, false, not, arith, [],
  Outcome, ok, throw, runtime_error, if◌then◌else◌,
}
use soapy_sidekiq.Base.Int.{ℤ}
use soapy_sidekiq.Settings.Restoring.{succeeds, IsFaithful, Among, Agrees}
use soapy_sidekiq.Settings.Switching.{EndsFor, switch_sources-EndsFor}
use soapy_sidekiq.Settings.Sources.{
  DataSource, SourceSdk, Snapshot, is_known, noted, snapshot, switched_from, switch_all,
}

module _ {H : Type 0} (sdk : SourceSdk H) (source_of : H → ℕ → DataSource)
    (f : IsFaithful sdk source_of) (h0 : H) where
  -- The handles that were noted.
  abbrev Lists : (ℕ → ℕ) → ℕ → ℕ → Outcome Snapshot → Type 0
  Lists table remaining channel (throw e) = Unit
  Lists table remaining channel (ok handles) =
      Agrees sdk source_of f h0 handles
      × ((k : ℕ) → k < remaining → Among (table (channel + k)) handles)
      × ((y : ℕ) → Among y handles → (k : ℕ) × (k < remaining) × (table (channel + k) ≡ y))

  noted-Lists :
      (table : ℕ → ℕ) (remaining channel : ℕ) (old : DataSource) (rest : Outcome Snapshot)
      → old ≡ source_of h0 (table channel)
      → Lists table remaining (channel + 1) rest
      → Lists table (suc remaining) channel (noted (table channel) old rest)
  noted-Lists table remaining channel old (throw e) o w = tt
  noted-Lists table remaining channel old (ok handles) o w =
      ((o, w.0), λ k. inside k, λ y m. found y m)
    where
      inside :
          (k : ℕ)
          → k < suc remaining
          → (table channel ≡ table (channel + k)) ⊎ Among (table (channel + k)) handles
      inside zero h = inl (ap table (omega arith))
      inside (suc k) h = inr (
          subst (λ n. Among (table n) handles) {x = channel + 1 + k} {y = channel + suc k}
            (omega arith) (w.1 k (omega arith)))

      found :
          (y : ℕ)
          → (table channel ≡ y) ⊎ Among y handles
          → (k : ℕ) × (k < suc remaining) × (table (channel + k) ≡ y)
      found y (inl e) = (0, omega arith, ap table {x = channel + 0} {y = channel} (omega arith) ∙ e)
      found y (inr m) = later (w.2 y m)
        where
          later :
              (k : ℕ) × (k < remaining) × (table (channel + 1 + k) ≡ y)
              → (k : ℕ) × (k < suc remaining) × (table (channel + k) ≡ y)
          later (k, b, e) = (
            suc k,
            omega arith,
            ap table {x = channel + suc k} {y = channel + 1 + k} (omega arith) ∙ e,
          )

  snapshot-Lists :
      (table : ℕ → ℕ) (remaining channel : ℕ)
      → Lists table remaining channel (snapshot sdk h0 table remaining channel)
  unfolding snapshot
  snapshot-Lists table zero channel = (tt, λ k h. absurd (omega arith), λ y m. absurd m)
  snapshot-Lists table (suc remaining) channel =
      checked (succeeds answer.0) (is_known answer.1) (f.reads h0 (table channel))
        (snapshot-Lists table remaining (channel + 1))
    where
      answer : ℤ × DataSource
      answer = sdk.read_source h0 (table channel)

      checked :
          (p q : Bool)
          → (p ≡ true → answer.1 ≡ source_of h0 (table channel))
          → Lists table remaining (channel + 1) (snapshot sdk h0 table remaining (channel + 1))
          → Lists table (suc remaining) channel (
              if not p
              then throw runtime_error
              else if not q
              then throw runtime_error
              else noted (table channel) answer.1 (snapshot sdk h0 table remaining (channel + 1)))
      checked false q e w = tt
      checked true false e w = tt
      checked true true e w =
          noted-Lists table remaining channel answer.1
            (snapshot sdk h0 table remaining (channel + 1)) (e refl) w

  -- How the whole call ends.
  abbrev pub IsTransaction : DataSource → (ℕ → ℕ) → ℕ → Outcome (Unit {0}) → ℤ → H → Type 0
  IsTransaction source table channels (throw e) rollback h =
      succeeds rollback ≡ true → (y : ℕ) → source_of h y ≡ source_of h0 y
  IsTransaction source table channels (ok done) rollback h =
      ((k : ℕ) → k < channels → source_of h (table k) ≡ source)
      × ((y : ℕ) → ((k : ℕ) → k < channels → table k ≢ y) → source_of h y ≡ source_of h0 y)

  -- The switch of the data source is a transaction. If it succeeds, the handle of every channel has the new
  -- source, and no other handle has changed. If it throws, from a read, from an unknown source or from a
  -- write at any channel, then every handle has the source that it had before, also the one whose write
  -- failed, unless a write of the compensation failed, which the rollback status reports. The SDK's reads and
  -- writes are taken to do what they report, and a failed write to change at most its own handle.
  pub switch_all-IsTransaction :
      (source : DataSource) (table : ℕ → ℕ) (channels : ℕ)
      → IsTransaction source table channels
          (switch_all sdk source table channels h0).outcome
          (switch_all sdk source table channels h0).rollback_status
          (switch_all sdk source table channels h0).hardware
  unfolding switch_all
  switch_all-IsTransaction source table channels =
      noticed (snapshot sdk h0 table channels 0) (snapshot-Lists table channels 0)
    where
      ended :
          (handles : Snapshot) (o : Outcome (Unit {0})) (rollback : ℤ) (h : H)
          → Lists table channels 0 (ok handles)
          → EndsFor sdk source_of f h0 source [] handles o rollback h
          → IsTransaction source table channels o rollback h
      ended handles (throw e) rollback h w v = v
      ended handles (ok done) rollback h w v =
          (λ k b. v.0 (table k) (inr (listed k b)), λ y n. other y n (v.1 y))
        where
          listed : (k : ℕ) → k < channels → Among (table k) handles
          listed k b =
              subst (λ n. Among (table n) handles) {x = 0 + k} {y = k} (omega arith) (w.1 k b)

          other :
              (y : ℕ)
              → ((k : ℕ) → k < channels → table k ≢ y)
              → (⊥ ⊎ Among y handles) ⊎ (source_of h y ≡ source_of h0 y)
              → source_of h y ≡ source_of h0 y
          other y n (inr e) = e
          other y n (inl (inl m)) = absurd m
          other y n (inl (inr m)) = absurd (excluded (w.2 y m))
            where
              excluded : (k : ℕ) × (k < channels) × (table (0 + k) ≡ y) → ⊥
              excluded (k, b, e) = n k b (ap table {x = k} {y = 0 + k} (omega arith) ∙ e)

      noticed :
          (taken : Outcome Snapshot)
          → Lists table channels 0 taken
          → IsTransaction source table channels
              (switched_from sdk source taken h0).outcome
              (switched_from sdk source taken h0).rollback_status
              (switched_from sdk source taken h0).hardware
      noticed (throw e) w = λ s y. refl
      noticed (ok handles) w = ended handles _ _ _ w (
          switch_sources-EndsFor sdk source_of f h0 source [] handles h0 tt w.0 (λ y. inl refl)
            (λ y m. absurd m))
