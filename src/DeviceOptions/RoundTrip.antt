-- ===== src/DeviceOptions/RoundTrip.antt =====
-- Options that are written as arguments are parsed to the same options.
use soapy_sidekiq.Base.{
  ℕ, ◌≤◌, ◌≡◌, refl, ap, ◌∙◌, true, false, arith, List, [], ◌∷◌, Option, none, some, Outcome, ok,
  ◌>>=◌,
}
use soapy_sidekiq.Base.Text.{Text, is_same, to_decimal, from_digits-to_decimal, to_decimal-is_empty}
use soapy_sidekiq.DeviceOptions.{
  DeviceOptions, Arguments, find, parse_unsigned, optional_string, optional_source, is_choice,
  parse_topology, check_block_size, parse_block_size, check_buffer_count, parse_buffer_count,
  parse_card, clock_choices, time_choices, parse_device_options, uint32_max, card_key, topology_key,
  tx_block_size_key, tx_buffer_count_key, clock_source_key, time_source_key,
}
use soapy_sidekiq.DeviceOptions.Bounds.{IsValid, IsPayload, IsCount, IsByte, IsSource}

abbrev optional : Text → Option Text → Arguments → Arguments
optional key none rest = rest
optional key (some v) rest = (key, v) ∷ rest

abbrev number : Option ℕ → Option Text
number none = none
number (some n) = some (to_decimal n)

-- The arguments that name these options.
abbrev pub to_arguments : DeviceOptions → Arguments
to_arguments o =
    (card_key, to_decimal o.card)
    ∷ (tx_block_size_key, to_decimal o.tx_block_size)
    ∷ (tx_buffer_count_key, to_decimal o.tx_buffer_count)
    ∷ optional topology_key (number o.topology)
        (optional clock_source_key o.clock_source (optional time_source_key o.time_source []))

parse_unsigned-to_decimal :
    (n m : ℕ) → n ≤ m → m ≤ uint32_max → parse_unsigned (to_decimal n) m ≡ ok n
unfolding parse_unsigned
parse_unsigned-to_decimal n m h b =
    simp (to_decimal-is_empty n, from_digits-to_decimal n) (ground arith)

find-optional_same :
    (key : Text) (v : Option Text) (rest : Arguments)
    → find key rest ≡ none
    → is_same key key ≡ true
    → find key (optional key v rest) ≡ v
unfolding find
find-optional_same key none rest h s = h
find-optional_same key (some v) rest h s = rw s refl

find-optional_other :
    (key other : Text) (v : Option Text) (rest : Arguments)
    → is_same other key ≡ false
    → find key (optional other v rest) ≡ find key rest
unfolding find
find-optional_other key other none rest s = refl
find-optional_other key other (some v) rest s = rw s refl

find_topology : (o : DeviceOptions) → find topology_key (to_arguments o) ≡ number o.topology
unfolding find is_same
find_topology o =
    find-optional_same topology_key (number o.topology) _
      (find-optional_other topology_key clock_source_key o.clock_source _ refl
        ∙ find-optional_other topology_key time_source_key o.time_source [] refl)
      refl

find_clock_source : (o : DeviceOptions) → find clock_source_key (to_arguments o) ≡ o.clock_source
unfolding find is_same
find_clock_source o =
    find-optional_other clock_source_key topology_key (number o.topology) _ refl
    ∙ find-optional_same clock_source_key o.clock_source _
        (find-optional_other clock_source_key time_source_key o.time_source [] refl) refl

find_time_source : (o : DeviceOptions) → find time_source_key (to_arguments o) ≡ o.time_source
unfolding find is_same
find_time_source o =
    find-optional_other time_source_key topology_key (number o.topology) _ refl
    ∙ find-optional_other time_source_key clock_source_key o.clock_source _ refl
    ∙ find-optional_same time_source_key o.time_source [] refl refl

-- An accepted source is not empty.
source_kept :
    (key : Text) (choices : List Text) (a : Arguments) (v : Option Text)
    → is_choice [] choices ≡ false
    → IsSource choices v
    → find key a ≡ v
    → optional_source a key choices ≡ ok v
unfolding optional_source optional_string
source_kept key choices a none n h f = simp f refl
source_kept key choices a (some []) n h f = cc (h, n)
source_kept key choices a (some (c ∷ cs)) n h f = simp (f, h) refl

topology_kept : (t : Option ℕ) → IsByte t → parse_topology (number t) ≡ ok t
topology_kept none h = refl
topology_kept (some n) h = rw (parse_unsigned-to_decimal n 255 h (omega arith)) refl

block_size_kept : (n : ℕ) → IsPayload n → parse_block_size (some (to_decimal n)) ≡ ok n
unfolding check_block_size
block_size_kept n h = rw (parse_unsigned-to_decimal n 65532 h.1 (omega arith)) (ground arith)

buffer_count_kept : (n : ℕ) → IsCount n → parse_buffer_count (some (to_decimal n)) ≡ ok n
unfolding check_buffer_count
buffer_count_kept n h = rw (parse_unsigned-to_decimal n 30000 h.1 (omega arith)) (ground arith)

find_card : (o : DeviceOptions) → find card_key (to_arguments o) ≡ some (to_decimal o.card)
unfolding find is_same
find_card o = refl

find_block_size :
    (o : DeviceOptions)
    → find tx_block_size_key (to_arguments o) ≡ some (to_decimal o.tx_block_size)
unfolding find is_same
find_block_size o = refl

find_buffer_count :
    (o : DeviceOptions)
    → find tx_buffer_count_key (to_arguments o) ≡ some (to_decimal o.tx_buffer_count)
unfolding find is_same
find_buffer_count o = refl

no_clock : is_choice [] clock_choices ≡ false
unfolding is_choice is_same
no_clock = refl

no_time : is_choice [] time_choices ≡ false
unfolding is_choice is_same
no_time = refl

bind-ok : {A B : Type 0} (m : Outcome A) (a : A) (f : A → Outcome B) → m ≡ ok a → (m >>= f) ≡ f a
bind-ok m a f e = rw e refl

-- Options within their bounds, written as arguments with their numbers in decimal and without what is left
-- out, are accepted and parsed to the same options: nothing is lost, and every set of options within the
-- bounds can be asked for.
pub parse_device_options-to_arguments :
    (o : DeviceOptions) → IsValid o → parse_device_options (to_arguments o) ≡ ok o
unfolding parse_device_options
parse_device_options-to_arguments o v =
    bind-ok (parse_card (find card_key a)) o.card _
      (ap parse_card (find_card o) ∙ parse_unsigned-to_decimal o.card 255 v.card_byte (omega arith))
    ∙ bind-ok (parse_topology (find topology_key a)) o.topology _
        (ap parse_topology (find_topology o) ∙ topology_kept o.topology v.topology_byte)
    ∙ bind-ok (parse_block_size (find tx_block_size_key a)) o.tx_block_size _
        (ap parse_block_size (find_block_size o) ∙ block_size_kept o.tx_block_size v.payload)
    ∙ bind-ok (parse_buffer_count (find tx_buffer_count_key a)) o.tx_buffer_count _
        (ap parse_buffer_count (find_buffer_count o) ∙ buffer_count_kept o.tx_buffer_count v.count)
    ∙ bind-ok (optional_source a clock_source_key clock_choices) o.clock_source _ (
        source_kept clock_source_key clock_choices a o.clock_source no_clock v.clock_known
          (find_clock_source o))
    ∙ bind-ok (optional_source a time_source_key time_choices) o.time_source _ (
        source_kept time_source_key time_choices a o.time_source no_time v.time_known
          (find_time_source o))
  where
    a : Arguments
    a = to_arguments o
