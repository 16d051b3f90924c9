-- ===== src/DeviceOptions.antt =====
-- DeviceOptions.cpp, include/SoapySidekiq/DeviceOptions.hpp: the arguments of the device's constructor.
pub mod Bounds
pub mod RoundTrip
use soapy_sidekiq.Base.{
  ℕ, ◌+◌, ◌-◌, ◌%◌, ◌==◌, Bool, true, false, not, ◌||◌, List, [], ◌∷◌, map, Option, none, some,
  Outcome, ok, throw, ◌>>=◌, invalid_argument, ltb, if◌then◌else◌,
}
use soapy_sidekiq.Base.Text.{Text, is_same, is_empty, to_lower, from_digits}

-- "card", "topology", "tx_block_size", "tx_buffer_count", "clock_source", "time_source", "internal_clock", "external_clock", "1pps_source_unavailable", "1pps_source_external", "1pps_source_internal".
abbrev pub card_key : Text
card_key = 99 ∷ 97 ∷ 114 ∷ 100 ∷ []

abbrev pub topology_key : Text
topology_key = 116 ∷ 111 ∷ 112 ∷ 111 ∷ 108 ∷ 111 ∷ 103 ∷ 121 ∷ []

abbrev pub tx_block_size_key : Text
tx_block_size_key = 116 ∷ 120 ∷ 95 ∷ 98 ∷ 108 ∷ 111 ∷ 99 ∷ 107 ∷ 95 ∷ 115 ∷ 105 ∷ 122 ∷ 101 ∷ []

abbrev pub tx_buffer_count_key : Text
tx_buffer_count_key =
    116 ∷ 120 ∷ 95 ∷ 98 ∷ 117 ∷ 102 ∷ 102 ∷ 101 ∷ 114 ∷ 95 ∷ 99 ∷ 111 ∷ 117 ∷ 110 ∷ 116 ∷ []

abbrev pub clock_source_key : Text
clock_source_key = 99 ∷ 108 ∷ 111 ∷ 99 ∷ 107 ∷ 95 ∷ 115 ∷ 111 ∷ 117 ∷ 114 ∷ 99 ∷ 101 ∷ []

abbrev pub time_source_key : Text
time_source_key = 116 ∷ 105 ∷ 109 ∷ 101 ∷ 95 ∷ 115 ∷ 111 ∷ 117 ∷ 114 ∷ 99 ∷ 101 ∷ []

abbrev pub internal_clock : Text
internal_clock = 105 ∷ 110 ∷ 116 ∷ 101 ∷ 114 ∷ 110 ∷ 97 ∷ 108 ∷ 95 ∷ 99 ∷ 108 ∷ 111 ∷ 99 ∷ 107 ∷ []

abbrev pub external_clock : Text
external_clock = 101 ∷ 120 ∷ 116 ∷ 101 ∷ 114 ∷ 110 ∷ 97 ∷ 108 ∷ 95 ∷ 99 ∷ 108 ∷ 111 ∷ 99 ∷ 107 ∷ []

abbrev pub pps_unavailable : Text
pps_unavailable =
    49 ∷ 112 ∷ 112 ∷ 115 ∷ 95 ∷ 115 ∷ 111 ∷ 117 ∷ 114 ∷ 99 ∷ 101 ∷ 95 ∷ 117 ∷ 110 ∷ 97 ∷ 118 ∷ 97
    ∷ 105 ∷ 108 ∷ 97 ∷ 98 ∷ 108 ∷ 101 ∷ []

abbrev pub pps_external : Text
pps_external =
    49 ∷ 112 ∷ 112 ∷ 115 ∷ 95 ∷ 115 ∷ 111 ∷ 117 ∷ 114 ∷ 99 ∷ 101 ∷ 95 ∷ 101 ∷ 120 ∷ 116 ∷ 101 ∷ 114
    ∷ 110 ∷ 97 ∷ 108 ∷ []

abbrev pub pps_internal : Text
pps_internal =
    49 ∷ 112 ∷ 112 ∷ 115 ∷ 95 ∷ 115 ∷ 111 ∷ 117 ∷ 114 ∷ 99 ∷ 101 ∷ 95 ∷ 105 ∷ 110 ∷ 116 ∷ 101 ∷ 114
    ∷ 110 ∷ 97 ∷ 108 ∷ []

abbrev pub default_tx_block_size : ℕ
default_tx_block_size = 16380

abbrev pub default_tx_buffer_count : ℕ
default_tx_buffer_count = 30000

abbrev pub max_tx_buffer_count : ℕ
max_tx_buffer_count = 30000

abbrev pub tx_header_words : ℕ
tx_header_words = 4

abbrev pub tx_packet_increment_words : ℕ
tx_packet_increment_words = 256

abbrev pub max_tx_block_size : ℕ
max_tx_block_size = 65536 - tx_header_words

abbrev pub uint8_max : ℕ
uint8_max = 255

abbrev pub uint32_max : ℕ
uint32_max = 4294967295

pub record DeviceOptions : Type 0 where
  pub card : ℕ
  pub topology : Option ℕ
  pub tx_block_size : ℕ
  pub tx_buffer_count : ℕ
  pub clock_source : Option Text
  pub time_source : Option Text

-- The arguments, as pairs of a key and a value.
abbrev pub Arguments : Type 0
Arguments = List (Text × Text)

unfoldable pub find : Text → Arguments → Option Text
find key [] = none
find key ((k, v) ∷ rest) = if is_same k key then some v else find key rest

-- `std::from_chars` reads digits; here all of the value, within 32 bits.
abbrev pub within : ℕ → Option ℕ → Outcome ℕ
within maximum none = throw invalid_argument
within maximum (some n) = if ltb uint32_max n || ltb maximum n then throw invalid_argument else ok n

unfoldable pub parse_unsigned : Text → ℕ → Outcome ℕ
parse_unsigned value maximum =
    if is_empty value then throw invalid_argument else within maximum (from_digits value 0)

abbrev pub not_empty : Option Text → Outcome (Option Text)
not_empty none = ok none
not_empty (some v) = if is_empty v then throw invalid_argument else ok (some v)

unfoldable pub optional_string : Arguments → Text → Outcome (Option Text)
optional_string arguments key = not_empty (find key arguments)

unfoldable pub is_choice : Text → List Text → Bool
is_choice v [] = false
is_choice v (c ∷ cs) = is_same c v || is_choice v cs

abbrev pub chosen : List Text → Option Text → Outcome (Option Text)
chosen choices none = ok none
chosen choices (some v) =
    if is_choice (map to_lower v) choices then ok (some v) else throw invalid_argument

unfoldable pub optional_source : Arguments → Text → List Text → Outcome (Option Text)
optional_source arguments key choices = optional_string arguments key >>= chosen choices

abbrev pub parse_topology : Option Text → Outcome (Option ℕ)
parse_topology none = ok none
parse_topology (some v) = parse_unsigned v uint8_max >>= (λ n. ok (some n))

unfoldable pub check_block_size : ℕ → Outcome ℕ
check_block_size n =
    if n == 0
    then throw invalid_argument
    else if not ((n + tx_header_words) % tx_packet_increment_words == 0)
    then throw invalid_argument
    else ok n

abbrev pub parse_block_size : Option Text → Outcome ℕ
parse_block_size none = ok default_tx_block_size
parse_block_size (some v) = parse_unsigned v max_tx_block_size >>= check_block_size

unfoldable pub check_buffer_count : ℕ → Outcome ℕ
check_buffer_count n = if n == 0 then throw invalid_argument else ok n

abbrev pub parse_buffer_count : Option Text → Outcome ℕ
parse_buffer_count none = ok default_tx_buffer_count
parse_buffer_count (some v) = parse_unsigned v max_tx_buffer_count >>= check_buffer_count

abbrev pub parse_card : Option Text → Outcome ℕ
parse_card none = throw invalid_argument
parse_card (some v) = parse_unsigned v uint8_max

abbrev pub clock_choices : List Text
clock_choices = internal_clock ∷ external_clock ∷ []

abbrev pub time_choices : List Text
time_choices = pps_unavailable ∷ pps_external ∷ pps_internal ∷ []

-- `parseDeviceOptions`.
unfoldable pub parse_device_options : Arguments → Outcome DeviceOptions
parse_device_options arguments = parse_card (find card_key arguments) >>= (λ card.
    parse_topology (find topology_key arguments) >>= (λ topology.
      parse_block_size (find tx_block_size_key arguments) >>= (λ tx_block_size.
        parse_buffer_count (find tx_buffer_count_key arguments) >>= (λ tx_buffer_count.
          optional_source arguments clock_source_key clock_choices >>= (λ clock_source.
            optional_source arguments time_source_key time_choices >>= (λ time_source. ok (record {
              card = card;
              topology = topology;
              tx_block_size = tx_block_size;
              tx_buffer_count = tx_buffer_count;
              clock_source = clock_source;
              time_source = time_source;
            })))))))
