-- ===== src/Settings/Switching.antt =====
-- The writes to the handles, one after the other.
use soapy_sidekiq.Base.{
  ℕ, ◌≡◌, ◌≢◌, ◌∙◌, ◌⊎◌, inl, inr, true, Bool-cases, [], ◌∷◌, Outcome, ok, throw,
}
use soapy_sidekiq.Base.Int.{ℤ}
use soapy_sidekiq.Settings.Restoring.{
  succeeds, IsFaithful, Among, Agrees, restore-source_of, eq_or_ne,
}
use soapy_sidekiq.Settings.Sources.{DataSource, SourceSdk, Snapshot, switch_sources}

module _ {H : Type 0} (sdk : SourceSdk H) (source_of : H → ℕ → DataSource)
    (f : IsFaithful sdk source_of) (h0 : H) where
  -- How the writes to the handles in `todo` end, after those in `attempted`.
  abbrev pub EndsFor : DataSource → Snapshot → Snapshot → Outcome (Unit {0}) → ℤ → H → Type 0
  EndsFor source attempted todo (throw e) rollback h =
      succeeds rollback ≡ true → (y : ℕ) → source_of h y ≡ source_of h0 y
  EndsFor source attempted todo (ok done) rollback h =
      ((y : ℕ) → Among y attempted ⊎ Among y todo → source_of h y ≡ source)
      × ((y : ℕ) → (Among y attempted ⊎ Among y todo) ⊎ (source_of h y ≡ source_of h0 y))

  EndsFor-moved :
      (source : DataSource) (attempted later : Snapshot) (x : ℕ) (old : DataSource)
      (o : Outcome (Unit {0})) (rollback : ℤ) (h : H)
      → EndsFor source ((x, old) ∷ attempted) later o rollback h
      → EndsFor source attempted ((x, old) ∷ later) o rollback h
  EndsFor-moved source attempted later x old (throw e) rollback h w = w
  EndsFor-moved source attempted later x old (ok done) rollback h w =
      (λ y m. w.0 y (back y m), λ y. forth y (w.1 y))
    where
      back :
          (y : ℕ)
          → Among y attempted ⊎ ((x ≡ y) ⊎ Among y later)
          → ((x ≡ y) ⊎ Among y attempted) ⊎ Among y later
      back y (inl m) = inl (inr m)
      back y (inr (inl e)) = inl (inl e)
      back y (inr (inr m)) = inr m

      forth :
          (y : ℕ)
          → (((x ≡ y) ⊎ Among y attempted) ⊎ Among y later) ⊎ (source_of h y ≡ source_of h0 y)
          → (Among y attempted ⊎ ((x ≡ y) ⊎ Among y later)) ⊎ (source_of h y ≡ source_of h0 y)
      forth y (inl (inl (inl e))) = inl (inr (inl e))
      forth y (inl (inl (inr m))) = inl (inl m)
      forth y (inl (inr m)) = inl (inr (inr m))
      forth y (inr e) = inr e

  -- A write, even one that fails, touches only the handle that is attempted.
  write_source-touches :
      (source : DataSource) (attempted : Snapshot) (h : H) (x : ℕ) (old : DataSource)
      → ((y : ℕ) → (source_of h y ≡ source_of h0 y) ⊎ Among y attempted)
      → (y : ℕ)
      → (source_of (sdk.write_source h x source).1 y ≡ source_of h0 y)
        ⊎ Among y ((x, old) ∷ attempted)
  write_source-touches source attempted h x old i y = placed (eq_or_ne x y) (i y)
    where
      placed :
          (x ≡ y) ⊎ (x ≢ y)
          → (source_of h y ≡ source_of h0 y) ⊎ Among y attempted
          → (source_of (sdk.write_source h x source).1 y ≡ source_of h0 y)
            ⊎ Among y ((x, old) ∷ attempted)
      placed (inl same) p = inr (inl same)
      placed (inr other) (inl e) = inl (f.keeps h x y source other ∙ e)
      placed (inr other) (inr m) = inr (inr m)

  write_source-sets :
      (source : DataSource) (attempted : Snapshot) (h : H) (x : ℕ) (old : DataSource)
      → ((y : ℕ) → Among y attempted → source_of h y ≡ source)
      → succeeds (sdk.write_source h x source).0 ≡ true
      → (y : ℕ) → Among y ((x, old) ∷ attempted)
      → source_of (sdk.write_source h x source).1 y ≡ source
  write_source-sets source attempted h x old i w y m = placed (eq_or_ne x y) m
    where
      placed :
          (x ≡ y) ⊎ (x ≢ y)
          → (x ≡ y) ⊎ Among y attempted
          → source_of (sdk.write_source h x source).1 y ≡ source
      placed (inl same) p = rw (← same) (f.writes h x source w)
      placed (inr other) (inl same) = absurd (other same)
      placed (inr other) (inr n) = f.keeps h x y source other ∙ i y n

  pub switch_sources-EndsFor :
      (source : DataSource) (attempted todo : Snapshot) (h : H)
      → Agrees sdk source_of f h0 attempted
      → Agrees sdk source_of f h0 todo
      → ((y : ℕ) → (source_of h y ≡ source_of h0 y) ⊎ Among y attempted)
      → ((y : ℕ) → Among y attempted → source_of h y ≡ source)
      → EndsFor source attempted todo
          (switch_sources sdk source attempted todo h).outcome
          (switch_sources sdk source attempted todo h).rollback_status
          (switch_sources sdk source attempted todo h).hardware
  unfolding switch_sources
  switch_sources-EndsFor source attempted [] h a b i j = (λ y m. set y m, λ y. untouched y (i y))
    where
      set : (y : ℕ) → Among y attempted ⊎ ⊥ → source_of h y ≡ source
      set y (inl m) = j y m
      set y (inr m) = absurd m

      untouched :
          (y : ℕ)
          → (source_of h y ≡ source_of h0 y) ⊎ Among y attempted
          → (Among y attempted ⊎ ⊥) ⊎ (source_of h y ≡ source_of h0 y)
      untouched y (inl e) = inr e
      untouched y (inr m) = inl (inl m)
  switch_sources-EndsFor source attempted ((x, old) ∷ later) h a b i j =
      elim (Bool-cases (succeeds (sdk.write_source h x source).0)) [
        | inr fails ↦ simp fails (λ s y.
            restore-source_of sdk source_of f h0 ((x, old) ∷ attempted) written (b.0, a) s y
              (write_source-touches source attempted h x old i y))
        | inl works ↦ simp works (
            EndsFor-moved source attempted later x old _ _ _ (
              switch_sources-EndsFor source ((x, old) ∷ attempted) later written (b.0, a) b.1
                (write_source-touches source attempted h x old i)
                (write_source-sets source attempted h x old j works)))
      ]
    where
      written : H
      written = (sdk.write_source h x source).1
