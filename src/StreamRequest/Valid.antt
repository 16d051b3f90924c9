-- ===== src/StreamRequest/Valid.antt =====
-- Which requests are accepted.
use soapy_sidekiq.Base.{
  ℕ, ◌≤◌, ◌<◌, ◌≡◌, refl, ap, sym, ==_iff, inl, inr, Bool, true, false, not, Bool-cases, arith,
  List, [], ◌∷◌, length, ltb, ltb→le, ltb→lt, if◌then◌else◌, Outcome, ok, throw, logic_error,
  invalid_argument, out_of_range, ◌↔◌,
}
use soapy_sidekiq.StreamRequest.{
  StreamDirection, StreamFormat, cs16, cf32, StreamRequest, is_text, cs16_name, cf32_name,
  parse_format, front, requested, validate_stream_request,
}

abbrev pub name_of : StreamFormat → List ℕ
name_of cs16 = cs16_name
name_of cf32 = cf32_name

is_text-eq : (cs ds : List ℕ) → is_text cs ds ≡ true → cs ≡ ds
unfolding is_text
is_text-eq [] [] h = refl
is_text-eq [] (d ∷ ds) h = cc h
is_text-eq (c ∷ cs) [] h = cc h
is_text-eq (c ∷ cs) (d ∷ ds) h =
    rw ((==_iff c d).0 (ground arith), is_text-eq cs ds (ground arith)) refl

is_text_refl : (cs : List ℕ) → is_text cs cs ≡ true
unfolding is_text
is_text_refl [] = refl
is_text_refl (c ∷ cs) = rw (is_text_refl cs) (ground arith)

parse_format-eq :
    (format : List ℕ) (x : StreamFormat) → parse_format format ≡ ok x → format ≡ name_of x
unfolding parse_format
parse_format-eq format x e = elim (Bool-cases (is_text format cs16_name)) [
  | inl a ↦ named cs16 (is_text-eq format cs16_name a) (cc (rw (a, parse_format) at e))
  | inr a ↦ elim (Bool-cases (is_text format cf32_name)) [
    | inl b ↦ named cf32 (is_text-eq format cf32_name b) (cc (rw (a, b, parse_format) at e))
    | inr b ↦ cc (rw (a, b, parse_format) at e)
  ]
]
  where
    named : (y : StreamFormat) → format ≡ name_of y → y ≡ x → format ≡ name_of x
    named y f h = rw (← h) f

parse_format-name_of : (x : StreamFormat) → parse_format (name_of x) ≡ ok x
unfolding parse_format is_text
parse_format-name_of cs16 = refl
parse_format-name_of cf32 = refl

-- What a request must be, and what it is normalised to.
pub record IsAcceptable (direction : StreamDirection) (format channels : List ℕ)
    (available_channels : ℕ) (stream_already_configured : Bool) (r : StreamRequest) : Type 0 where
  pub free : stream_already_configured ≡ false
  pub single : length channels ≤ 1
  pub in_range : front channels < available_channels
  pub named : format ≡ name_of r.format
  pub same_channel : r.channel ≡ front channels
  pub same_direction : r.direction ≡ direction

module _ (direction : StreamDirection) (format channels : List ℕ) (available_channels : ℕ)
    (stream_already_configured : Bool) (r : StreamRequest) where
  checked :
      (a b c : Bool) (p : Outcome StreamFormat)
      → (if a
          then throw logic_error
          else if b
          then throw invalid_argument
          else if not c
          then throw out_of_range
          else requested direction (front channels) p)
        ≡ ok r
      → (a ≡ false)
        × (b ≡ false)
        × (c ≡ true)
        × (p ≡ ok r.format)
        × (r.channel ≡ front channels)
        × (r.direction ≡ direction)
  checked true b c p e = cc e
  checked false true c p e = cc e
  checked false false false p e = cc e
  checked false false true (throw x) e = cc e
  checked false false true (ok f) e = (
    refl,
    refl,
    refl,
    ap (λ (q : StreamRequest). ok q.format) same,
    sym (ap (λ (q : StreamRequest). q.channel) same),
    sym (ap (λ (q : StreamRequest). q.direction) same),
  )
    where
      same :
          ◌≡◌ {A = StreamRequest}
            (record { direction = direction; format = f; channel = front channels })
            r
      same = cc e

  -- A request is accepted exactly if no stream is there, at most one channel is named, the channel (0
  -- where none is named) is available, and the format is CS16 or CF32; and the normalised request then has
  -- that channel, that format and the given direction.
  pub validate_stream_request_iff :
      (validate_stream_request direction format channels available_channels
          stream_already_configured
        ≡ ok r)
      ↔ IsAcceptable direction format channels available_channels stream_already_configured r
  unfolding validate_stream_request
  validate_stream_request_iff = (accepted, complete)
    where
      valid :
          (stream_already_configured ≡ false)
            × (ltb 1 (length channels) ≡ false)
            × (ltb (front channels) available_channels ≡ true)
            × (parse_format format ≡ ok r.format)
            × (r.channel ≡ front channels)
            × (r.direction ≡ direction)
          → IsAcceptable direction format channels available_channels stream_already_configured r
      valid (a, b, c, p, d, e) = record {
        free = a;
        single = ltb→le 1 (length channels) b;
        in_range = ltb→lt (front channels) available_channels c;
        named = parse_format-eq format r.format p;
        same_channel = d;
        same_direction = e;
      }

      accepted :
          validate_stream_request direction format channels available_channels
              stream_already_configured
            ≡ ok r
          → IsAcceptable direction format channels available_channels stream_already_configured r
      accepted e = valid (
          checked stream_already_configured (ltb 1 (length channels))
            (ltb (front channels) available_channels) (parse_format format) e)

      complete :
          IsAcceptable direction format channels available_channels stream_already_configured r
          → validate_stream_request direction format channels available_channels
              stream_already_configured
            ≡ ok r
      complete v =
          rw
            (
              v.free,
              single,
              in_range,
              v.named,
              parse_format-name_of r.format,
              ← v.same_channel,
              ← v.same_direction,
            )
            refl
        where
          single : ltb 1 (length channels) ≡ false
          single = ground (arith, v.single)

          in_range : ltb (front channels) available_channels ≡ true
          in_range = ground (arith, v.in_range)
