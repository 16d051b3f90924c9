-- ===== src/Settings/Restoring.antt =====
-- The compensation after a write that failed.
use soapy_sidekiq.Base.{
  ℕ, ◌≡◌, ◌≢◌, ◌==◌, ==_iff, ◌∙◌, ◌⊎◌, inl, inr, Bool, true, Bool-cases, [], ◌∷◌,
}
use soapy_sidekiq.Base.Int.{ℤ, pos, eqb_ℤ}
use soapy_sidekiq.Settings.Sources.{DataSource, SourceSdk, Snapshot, restore}

abbrev pub succeeds : ℤ → Bool
succeeds status = eqb_ℤ status (pos 0)

-- What the SDK documents, for the sources that the hardware has: a read that succeeds stores the source, a
-- write that succeeds sets it, and a write, even one that fails, changes no other handle.
pub record IsFaithful {H : Type 0} (sdk : SourceSdk H) (source_of : H → ℕ → DataSource)
    : Type 0 where
  pub reads :
      (h : H) (x : ℕ)
      → succeeds (sdk.read_source h x).0 ≡ true
      → (sdk.read_source h x).1 ≡ source_of h x
  pub writes :
      (h : H) (x : ℕ) (v : DataSource)
      → succeeds (sdk.write_source h x v).0 ≡ true
      → source_of (sdk.write_source h x v).1 x ≡ v
  pub keeps :
      (h : H) (x y : ℕ) (v : DataSource)
      → x ≢ y
      → source_of (sdk.write_source h x v).1 y ≡ source_of h y

abbrev pub Among : ℕ → Snapshot → Type 0
Among y [] = ⊥
Among y ((x, old) ∷ rest) = (x ≡ y) ⊎ Among y rest

pub eq_or_ne : (x y : ℕ) → (x ≡ y) ⊎ (x ≢ y)
eq_or_ne x y = elim (Bool-cases (x == y)) [
  | inl e ↦ inl ((==_iff x y).0 e)
  | inr n ↦ inr (λ e. cc ((==_iff x y).1 e, n))
]

module _ {H : Type 0} (sdk : SourceSdk H) (source_of : H → ℕ → DataSource)
    (f : IsFaithful sdk source_of) (h0 : H) where
  -- The sources that were noted are those of `h0`.
  abbrev pub Agrees : Snapshot → Type 0
  Agrees [] = Unit
  Agrees ((x, old) ∷ rest) = (old ≡ source_of h0 x) × Agrees rest

  pub restore-source_of :
      (list : Snapshot) (h : H)
      → Agrees list
      → succeeds (restore sdk list h).0 ≡ true
      → (y : ℕ) → (source_of h y ≡ source_of h0 y) ⊎ Among y list
      → source_of (restore sdk list h).1 y ≡ source_of h0 y
  unfolding restore
  restore-source_of [] h a s y (inl e) = e
  restore-source_of [] h a s y (inr m) = absurd m
  restore-source_of ((x, old) ∷ rest) h a s y place = elim (Bool-cases (succeeds written.0)) [
    | inr fails ↦ cc (simp fails at s)
    | inl works ↦
        restore-source_of rest written.1 a.1 (simp works at s) y (placed works (eq_or_ne x y) place)
  ]
    where
      written : ℤ × H
      written = sdk.write_source h x old

      placed :
          succeeds written.0 ≡ true
          → (x ≡ y) ⊎ (x ≢ y)
          → (source_of h y ≡ source_of h0 y) ⊎ ((x ≡ y) ⊎ Among y rest)
          → (source_of written.1 y ≡ source_of h0 y) ⊎ Among y rest
      placed w (inl same) p = inl (rw (← same) (f.writes h x old w ∙ a.0))
      placed w (inr other) (inl e) = inl (f.keeps h x y old other ∙ e)
      placed w (inr other) (inr (inl same)) = absurd (other same)
      placed w (inr other) (inr (inr m)) = inr m
