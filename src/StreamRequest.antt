-- ===== src/StreamRequest.antt =====
-- StreamConfiguration.cpp, include/SoapySidekiq/StreamConfiguration.hpp: the check of a stream request.
pub mod Valid
use soapy_sidekiq.Base.{
  ℕ, zero, suc, ◌==◌, Bool, true, false, not, ◌&&◌, List, [], ◌∷◌, length, ltb, if◌then◌else◌,
  Outcome, ok, throw, Option, none, some, invalid_argument, logic_error, out_of_range,
}

pub data StreamDirection : Type 0 where
  rx tx : StreamDirection

pub data StreamFormat : Type 0 where
  cs16 cf32 : StreamFormat

pub record StreamRequest : Type 0 where
  pub direction : StreamDirection
  pub format : StreamFormat
  pub channel : ℕ

-- A string is its list of character codes.
unfoldable pub is_text : List ℕ → List ℕ → Bool
is_text [] [] = true
is_text [] (d ∷ ds) = false
is_text (c ∷ cs) [] = false
is_text (c ∷ cs) (d ∷ ds) = c == d && is_text cs ds

abbrev pub cs16_name : List ℕ
cs16_name = 67 ∷ 83 ∷ 49 ∷ 54 ∷ []

abbrev pub cf32_name : List ℕ
cf32_name = 67 ∷ 70 ∷ 51 ∷ 50 ∷ []

unfoldable pub parse_format : List ℕ → Outcome StreamFormat
parse_format format =
    if is_text format cs16_name
    then ok cs16
    else if is_text format cf32_name
    then ok cf32
    else throw invalid_argument

-- The first channel, or channel 0 where none is named.
abbrev pub front : List ℕ → ℕ
front [] = 0
front (c ∷ cs) = c

abbrev pub requested : StreamDirection → ℕ → Outcome StreamFormat → Outcome StreamRequest
requested direction channel (throw e) = throw e
requested direction channel (ok format) =
    ok (record { direction = direction; format = format; channel = channel })

unfoldable pub validate_stream_request :
    StreamDirection → List ℕ → List ℕ → ℕ → Bool → Outcome StreamRequest
validate_stream_request direction format channels available_channels stream_already_configured =
    if stream_already_configured
    then throw logic_error
    else if ltb 1 (length channels)
    then throw invalid_argument
    else if not (ltb (front channels) available_channels)
    then throw out_of_range
    else requested direction (front channels) (parse_format format)
