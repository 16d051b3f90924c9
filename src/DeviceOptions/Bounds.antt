-- ===== src/DeviceOptions/Bounds.antt =====
-- What accepted options are.
use mathlib.Core.Path.{subst}
use soapy_sidekiq.Base.{
  ℕ, ◌+◌, ◌%◌, ◌≤◌, ◌≡◌, ◌==◌, refl, Bool, true, false, not, ◌||◌, arith, List, map, Option, none,
  some, Outcome, ok, throw, invalid_argument, ◌>>=◌, ltb, if◌then◌else◌,
}
use soapy_sidekiq.Base.Text.{Text, is_empty, to_lower, from_digits}
use soapy_sidekiq.DeviceOptions.{
  DeviceOptions, Arguments, uint32_max, find, within, parse_unsigned, optional_string,
  optional_source, is_choice, chosen, parse_topology, check_block_size, parse_block_size,
  check_buffer_count, parse_buffer_count, parse_card, clock_choices, time_choices,
  parse_device_options, card_key, topology_key, tx_block_size_key, tx_buffer_count_key,
  clock_source_key, time_source_key,
}

-- What holds of the result of a call that does not throw.
abbrev Gives : {A : Type 0} → (A → Type 0) → Outcome A → Type 0
Gives P (ok a) = P a
Gives P (throw e) = Unit

bind-Gives :
    {A B : Type 0} (P : A → Type 0) (Q : B → Type 0) (m : Outcome A) (f : A → Outcome B)
    → Gives P m
    → ((a : A) → P a → Gives Q (f a))
    → Gives Q (m >>= f)
bind-Gives P Q (ok a) f p h = h a p
bind-Gives P Q (throw e) f p h = tt

if-Gives :
    {A : Type 0} (P : A → Type 0) (b : Bool) (x y : Outcome A)
    → Gives P x
    → (b ≡ false → Gives P y)
    → Gives P (if b then x else y)
if-Gives P true x y p q = p
if-Gives P false x y p q = q refl

within-Gives : (m : ℕ) (o : Option ℕ) → Gives (λ n. n ≤ m) (within m o)
within-Gives m none = tt
within-Gives m (some n) =
    if-Gives (λ k. k ≤ m) (ltb uint32_max n || ltb m n) _ _ tt (λ h. ground arith)

parse_unsigned-Gives : (v : Text) (m : ℕ) → Gives (λ n. n ≤ m) (parse_unsigned v m)
unfolding parse_unsigned
parse_unsigned-Gives v m =
    if-Gives (λ k. k ≤ m) (is_empty v) _ _ tt (λ h. within-Gives m (from_digits v 0))

parse_card-Gives : (o : Option Text) → Gives (λ n. n ≤ 255) (parse_card o)
parse_card-Gives none = tt
parse_card-Gives (some v) = parse_unsigned-Gives v 255

abbrev pub IsByte : Option ℕ → Type 0
IsByte none = Unit
IsByte (some n) = n ≤ 255

parse_topology-Gives : (o : Option Text) → Gives IsByte (parse_topology o)
parse_topology-Gives none = tt
parse_topology-Gives (some v) =
    bind-Gives (λ n. n ≤ 255) IsByte (parse_unsigned v 255) (λ n. ok (some n))
      (parse_unsigned-Gives v 255) (λ n h. h)

-- A payload that fills packets, with the header, of whole increments.
abbrev pub IsPayload : ℕ → Type 0
IsPayload n = (1 ≤ n) × (n ≤ 65532) × ((n + 4) % 256 ≡ 0)

check_block_size-Gives : (n : ℕ) → n ≤ 65532 → Gives IsPayload (check_block_size n)
unfolding check_block_size
check_block_size-Gives n h = if-Gives IsPayload (n == 0) _ _ tt (λ p.
    if-Gives IsPayload (not ((n + 4) % 256 == 0)) _ _ tt (λ q. (ground arith, h, ground arith)))

parse_block_size-Gives : (o : Option Text) → Gives IsPayload (parse_block_size o)
parse_block_size-Gives none = (omega arith, omega arith, omega arith)
parse_block_size-Gives (some v) =
    bind-Gives (λ n. n ≤ 65532) IsPayload (parse_unsigned v 65532) check_block_size
      (parse_unsigned-Gives v 65532) check_block_size-Gives

abbrev pub IsCount : ℕ → Type 0
IsCount n = (1 ≤ n) × (n ≤ 30000)

check_buffer_count-Gives : (n : ℕ) → n ≤ 30000 → Gives IsCount (check_buffer_count n)
unfolding check_buffer_count
check_buffer_count-Gives n h = if-Gives IsCount (n == 0) _ _ tt (λ p. (ground arith, h))

parse_buffer_count-Gives : (o : Option Text) → Gives IsCount (parse_buffer_count o)
parse_buffer_count-Gives none = (omega arith, omega arith)
parse_buffer_count-Gives (some v) =
    bind-Gives (λ n. n ≤ 30000) IsCount (parse_unsigned v 30000) check_buffer_count
      (parse_unsigned-Gives v 30000) check_buffer_count-Gives

-- A source that is left out, or is one of the choices in any case.
abbrev pub IsSource : List Text → Option Text → Type 0
IsSource choices none = Unit
IsSource choices (some v) = is_choice (map to_lower v) choices ≡ true

chosen-Gives : (choices : List Text) (o : Option Text) → Gives (IsSource choices) (chosen choices o)
chosen-Gives choices none = tt
chosen-Gives choices (some v) = by_test (is_choice (map to_lower v) choices) refl
  where
    by_test :
        (b : Bool)
        → is_choice (map to_lower v) choices ≡ b
        → Gives (IsSource choices) (if b then ok (some v) else throw invalid_argument)
    by_test true h = h
    by_test false h = tt

optional_source-Gives :
    (arguments : Arguments) (key : Text) (choices : List Text)
    → Gives (IsSource choices) (optional_source arguments key choices)
unfolding optional_source
optional_source-Gives arguments key choices =
    bind-Gives (λ o. Unit {0}) (IsSource choices) (optional_string arguments key) (chosen choices)
      (anything (optional_string arguments key)) (λ o u. chosen-Gives choices o)
  where
    anything : (m : Outcome (Option Text)) → Gives (λ o. Unit {0}) m
    anything (ok o) = tt
    anything (throw e) = tt

pub record IsValid (o : DeviceOptions) : Type 0 where
  pub card_byte : o.card ≤ 255
  pub topology_byte : IsByte o.topology
  pub payload : IsPayload o.tx_block_size
  pub count : IsCount o.tx_buffer_count
  pub clock_known : IsSource clock_choices o.clock_source
  pub time_known : IsSource time_choices o.time_source

parse_device_options-Gives :
    (arguments : Arguments) → Gives IsValid (parse_device_options arguments)
unfolding parse_device_options
parse_device_options-Gives a =
    bind-Gives (λ n. n ≤ 255) IsValid (parse_card (find card_key a)) _ (parse_card-Gives _)
      (λ c pc.
        bind-Gives IsByte IsValid (parse_topology (find topology_key a)) _ (parse_topology-Gives _)
          (λ t pt.
            bind-Gives IsPayload IsValid (parse_block_size (find tx_block_size_key a)) _
              (parse_block_size-Gives _)
              (λ b pb.
                bind-Gives IsCount IsValid (parse_buffer_count (find tx_buffer_count_key a)) _
                  (parse_buffer_count-Gives _)
                  (λ n pn.
                    bind-Gives (IsSource clock_choices) IsValid
                      (optional_source a clock_source_key clock_choices) _
                      (optional_source-Gives a clock_source_key clock_choices)
                      (λ x px.
                        bind-Gives (IsSource time_choices) IsValid
                          (optional_source a time_source_key time_choices) _
                          (optional_source-Gives a time_source_key time_choices)
                          (λ y py. record {
                            card_byte = pc;
                            topology_byte = pt;
                            payload = pb;
                            count = pn;
                            clock_known = px;
                            time_known = py;
                          }))))))

-- Options that are accepted, from any arguments, are within their bounds: the card and the topology fit a
-- byte; a TX block is not empty, fits the 16 bits of the SDK's parameter, and fills whole packet increments
-- with its header; there is at least one buffer, and at most 30000; and a clock or time source is one of
-- the documented names, in any case. So too for the defaults of what is left out.
pub parse_device_options_bounds :
    (arguments : Arguments) (o : DeviceOptions) → parse_device_options arguments ≡ ok o → IsValid o
parse_device_options_bounds arguments o e =
    subst (Gives IsValid) e (parse_device_options-Gives arguments)
