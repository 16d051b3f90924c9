-- ===== src/Rates/Listing.antt =====
-- The grid of sample rates.
use soapy_sidekiq.Base.{
  ℕ, zero, suc, ◌+◌, ◌*◌, ◌^◌, ◌/◌, ◌≤◌, ◌<◌, ◌≡◌, refl, ◌∙◌, ap, inl, inr, true, Bool-cases, arith,
  List, [], ◌∷◌, get_elem?, none, some, ok, leb, leb→le, leb→lt,
}
use soapy_sidekiq.Base.Words.{add64}
use soapy_sidekiq.Rates.{rate_step, listed, grid, list_sample_rates}

-- The rates from `rate` on, in steps, up to the maximum.
pub record IsGrid (rate maximum : ℕ) (rates : List ℕ) : Type 0 where
  pub inside : (i : ℕ) → rate + i * 250000 ≤ maximum → get_elem? rates i ≡ some (rate + i * 250000)
  pub outside : (i : ℕ) → maximum < rate + i * 250000 → get_elem? rates i ≡ none

get_elem-IsGrid :
    (rate maximum : ℕ) (rates : List ℕ)
    → rate ≤ maximum
    → IsGrid (rate + 250000) maximum rates
    → IsGrid rate maximum (rate ∷ rates)
get_elem-IsGrid rate maximum rates h g = record {
  inside = λ i. at_inside i;
  outside = λ i. at_outside i;
}
  where
    at_inside :
        (i : ℕ)
        → rate + i * 250000 ≤ maximum
        → get_elem? (rate ∷ rates) i ≡ some (rate + i * 250000)
    at_inside zero b = ap some {x = rate} {y = rate + 0 * 250000} (omega arith)
    at_inside (suc i) b =
        g.inside i (omega arith)
        ∙ ap some {x = rate + 250000 + i * 250000} {y = rate + suc i * 250000} (omega arith)

    at_outside : (i : ℕ) → maximum < rate + i * 250000 → get_elem? (rate ∷ rates) i ≡ none
    at_outside zero b = absurd (omega arith)
    at_outside (suc i) b = g.outside i (omega arith)

empty-IsGrid : (rate maximum : ℕ) → maximum < rate → IsGrid rate maximum []
empty-IsGrid rate maximum h = record { inside = λ i b. absurd (omega arith); outside = λ i b. refl }

add64-small :
    (rate maximum : ℕ) → rate ≤ maximum → maximum < 2 ^ 32 → add64 rate 250000 ≡ rate + 250000
add64-small rate maximum h b = omega arith

grid-IsGrid :
    (fuel rate maximum : ℕ)
    → maximum < 2 ^ 32
    → maximum < rate + fuel * 250000
    → (rates : List ℕ) × (grid (suc fuel) rate maximum ≡ some rates) × IsGrid rate maximum rates
unfolding grid
grid-IsGrid zero rate maximum w h = elim (Bool-cases (leb rate maximum)) [
  | inl more ↦ absurd (omega (arith, leb→le rate maximum more))
  | inr over ↦ ([], rw over refl, empty-IsGrid rate maximum (leb→lt rate maximum over))
]
grid-IsGrid (suc fuel) rate maximum w h = elim (Bool-cases (leb rate maximum)) [
  | inr over ↦ ([], rw over refl, empty-IsGrid rate maximum (leb→lt rate maximum over))
  | inl more ↦ extended more (grid-IsGrid fuel (rate + 250000) maximum w (omega arith))
]
  where
    extended :
        leb rate maximum ≡ true
        → (rates : List ℕ) × (grid (suc fuel) (rate + 250000) maximum ≡ some rates)
          × IsGrid (rate + 250000) maximum rates
        → (rates : List ℕ) × (grid (suc (suc fuel)) rate maximum ≡ some rates)
          × IsGrid rate maximum rates
    extended more (rates, e, g) = (
      rate ∷ rates,
      rw more (
          ap (listed rate) (
            ap (λ n. grid (suc fuel) n maximum)
              (add64-small rate maximum (leb→le rate maximum more) w)
            ∙ e)),
      get_elem-IsGrid rate maximum rates (leb→le rate maximum more) g,
    )

-- `listSampleRates` ends within its fuel for any bounds of 32 bits, and lists the minimum, and every 250000
-- above it, as far as the maximum and no further: its counter of 64 bits does not wrap.
pub list_sample_rates-IsGrid :
    (minimum maximum : ℕ)
    → maximum < 2 ^ 32
    → (rates : List ℕ) × (list_sample_rates (ok (minimum, maximum)) ≡ ok (some rates))
      × IsGrid minimum maximum rates
unfolding list_sample_rates
list_sample_rates-IsGrid minimum maximum w =
    found (grid-IsGrid (maximum / rate_step + 1) minimum maximum w (omega arith))
  where
    found :
        (rates : List ℕ) × (grid (suc (maximum / rate_step + 1)) minimum maximum ≡ some rates)
          × IsGrid minimum maximum rates
        → (rates : List ℕ) × (ok (grid (maximum / rate_step + 2) minimum maximum) ≡ ok (some rates))
          × IsGrid minimum maximum rates
    found (rates, e, g) = (
      rates,
      ap ok (
          ap (λ n. grid n minimum maximum) {x = maximum / rate_step + 2}
            {y = suc (maximum / rate_step + 1)} (omega arith)
          ∙ e),
      g,
    )
