-- ===== src/Tests/DeviceOptions.antt =====
-- Card 3 with blocks of 1020 samples and the external clock.
use soapy_sidekiq.Base.{◌≡◌, refl, arith, [], ◌∷◌, none, some, ok}
use soapy_sidekiq.Base.Text.{from_digits, is_same, to_lower}
use soapy_sidekiq.DeviceOptions.{
  DeviceOptions, Arguments, card_key, tx_block_size_key, clock_source_key, external_clock, find,
  parse_device_options, parse_unsigned, check_block_size, optional_source, optional_string,
  is_choice, clock_choices,
}
use soapy_sidekiq.DeviceOptions.Bounds.{IsValid, IsSource, parse_device_options_bounds}
use soapy_sidekiq.DeviceOptions.RoundTrip.{to_arguments, parse_device_options-to_arguments}

abbrev pub arguments : Arguments
arguments =
    (tx_block_size_key, 49 ∷ 48 ∷ 50 ∷ 48 ∷ [])
    ∷ (card_key, 51 ∷ [])
    ∷ (clock_source_key, external_clock)
    ∷ []

abbrev options : DeviceOptions
options = record {
  card = 3;
  topology = none;
  tx_block_size = 1020;
  tx_buffer_count = 30000;
  clock_source = some external_clock;
  time_source = none;
}

parsed : parse_device_options arguments ≡ ok options
unfolding parse_device_options find parse_unsigned check_block_size optional_source optional_string
    is_choice from_digits is_same to_lower
parsed = refl

parse_device_options_bounds_example : IsValid options
parse_device_options_bounds_example = parse_device_options_bounds arguments options parsed

external_known : IsSource clock_choices (some external_clock)
unfolding is_choice is_same to_lower
external_known = refl

options-IsValid : IsValid options
options-IsValid = record {
  card_byte = omega arith;
  topology_byte = tt;
  payload = (omega arith, omega arith, omega arith);
  count = (omega arith, omega arith);
  clock_known = external_known;
  time_known = tt;
}

parse_device_options-to_arguments_example : parse_device_options (to_arguments options) ≡ ok options
parse_device_options-to_arguments_example =
    parse_device_options-to_arguments options options-IsValid
