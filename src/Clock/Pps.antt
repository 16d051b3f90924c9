-- ===== src/Clock/Pps.antt =====
-- The source of the PPS edges, with the kernel's attribute where the SDK has no answer.
use soapy_sidekiq.Base.{
  ℕ, ◌-◌, ◌==◌, Bool, false, not, ◌&&◌, ◌||◌, List, [], ◌∷◌, ◌++◌, length, take, drop, Option, none,
  some, Outcome, ok, throw, invalid_argument, runtime_error, leb, if◌then◌else◌,
}
use soapy_sidekiq.Base.Int.{ℤ}
use soapy_sidekiq.Base.Text.{Text, is_empty, is_same, equals_ignore_case}
use soapy_sidekiq.Clock.{succeeds}
use soapy_sidekiq.DeviceOptions.{pps_unavailable, pps_external, pps_internal}
use soapy_sidekiq.Streams.{Device, configure_while_rx_inactive}

-- "internal-gps", "external", "unavailable".
abbrev pub kernel_internal : Text
kernel_internal = 105 ∷ 110 ∷ 116 ∷ 101 ∷ 114 ∷ 110 ∷ 97 ∷ 108 ∷ 45 ∷ 103 ∷ 112 ∷ 115 ∷ []

abbrev pub kernel_external : Text
kernel_external = 101 ∷ 120 ∷ 116 ∷ 101 ∷ 114 ∷ 110 ∷ 97 ∷ 108 ∷ []

abbrev pub kernel_unavailable : Text
kernel_unavailable = 117 ∷ 110 ∷ 97 ∷ 118 ∷ 97 ∷ 105 ∷ 108 ∷ 97 ∷ 98 ∷ 108 ∷ 101 ∷ []

pub data PpsSource : Type 0 where
  unavailable external host other : PpsSource

-- The SDK, the kernel's attribute and `usleep`, over the state of the hardware. `kernel_line` is the first
-- line of the attribute, if it can be read; `kernel_write` says whether the write and its flush succeeded;
-- and `sleep` whether the wait was not interrupted, with the hardware after it.
pub record PpsSdk (H : Type 0) : Type 0 where
  pub read_source : H → ℤ × PpsSource
  pub write_source : H → PpsSource → ℤ × H
  pub kernel_line : H → Option Text
  pub kernel_write : H → Text → Bool × H
  pub last_edge : H → ℤ × ℕ
  pub sleep : H → Bool × H

unfoldable pub is_space : ℕ → Bool
is_space c = c == 32 || (leb 9 c && leb c 13)

abbrev pub flushed : Text → List Text → List Text
flushed [] tokens = tokens
flushed (c ∷ cs) tokens = (c ∷ cs) ∷ tokens

-- The tokens of `>>`, after the characters `read` of one.
unfoldable pub tokens : Text → Text → List Text
tokens [] read = flushed read []
tokens (c ∷ cs) read =
    let after = tokens cs [] in
    let longer = tokens cs (read ++ (c ∷ [])) in if is_space c then flushed read after else longer

abbrev pub first : Text → ℕ
first [] = 0
first (c ∷ cs) = c

abbrev pub last : Text → ℕ
last [] = 0
last (c ∷ []) = c
last (c ∷ d ∷ cs) = last (d ∷ cs)

unfoldable pub is_bracketed : Text → Bool
is_bracketed token = leb 2 (length token) && first token == 91 && last token == 93

-- What the first token in brackets holds, or nothing.
unfoldable pub active_source : List Text → Text
active_source [] = []
active_source (token ∷ rest) =
    if is_bracketed token then take (length token - 2) (drop 1 token) else active_source rest

-- `readKernel1PpsSource`.
unfoldable pub parse_kernel_source : Text → Option PpsSource
parse_kernel_source line =
    let source = active_source (tokens line []) in
    if is_empty source
    then none
    else if is_same source kernel_internal
    then some host
    else if is_same source kernel_external
    then some external
    else if is_same source kernel_unavailable
    then some unavailable
    else none

abbrev pub read_kernel_source : Option Text → Option PpsSource
read_kernel_source none = none
read_kernel_source (some line) = parse_kernel_source line

abbrev pub source_name : PpsSource → Outcome Text
source_name unavailable = ok pps_unavailable
source_name external = ok pps_external
source_name host = ok pps_internal
source_name other = throw runtime_error

abbrev pub name_or_fail : Option PpsSource → Outcome Text
name_or_fail none = throw runtime_error
name_or_fail (some source) = source_name source

module _ {H : Type 0} (sdk : PpsSdk H) (d : Device) where
  -- `getTimeSource`.
  unfoldable pub get_time_source : H → Outcome Text
  get_time_source hardware =
      if succeeds (sdk.read_source hardware).0
      then source_name (sdk.read_source hardware).1
      else name_or_fail (read_kernel_source (sdk.kernel_line hardware))

  -- `writeKernel1PpsSource`.
  abbrev pub write_kernel_source : H → PpsSource → Bool × H
  write_kernel_source hardware external = sdk.kernel_write hardware kernel_external
  write_kernel_source hardware host = sdk.kernel_write hardware kernel_internal
  write_kernel_source hardware unavailable = (false, hardware)
  write_kernel_source hardware other = (false, hardware)

  -- `check_1pps`, between two observations a second apart.
  unfoldable pub observe_edge : H → Outcome (Unit {0}) × H
  observe_edge hardware =
      let previous = sdk.last_edge hardware in
      let slept = sdk.sleep hardware in
      let current = sdk.last_edge slept.1 in
      if not (succeeds previous.0)
      then (throw runtime_error, hardware)
      else if not slept.0
      then (throw runtime_error, slept.1)
      else if not (succeeds current.0)
      then (throw runtime_error, slept.1)
      else if current.1 == previous.1
      then (throw runtime_error, slept.1)
      else (ok tt, slept.1)

  abbrev pub check_1pps : PpsSource → H → Outcome (Unit {0}) × H
  check_1pps external hardware = observe_edge hardware
  check_1pps host hardware = observe_edge hardware
  check_1pps unavailable hardware = (ok tt, hardware)
  check_1pps other hardware = (ok tt, hardware)

  abbrev pub checked : PpsSource → Bool × H → Outcome (Unit {0}) × H
  checked source (accepted, hardware) =
      if accepted then check_1pps source hardware else (throw runtime_error, hardware)

  unfoldable pub choose : PpsSource → H → Outcome (Unit {0}) × H
  choose source hardware =
      let written = sdk.write_source hardware source in
      if succeeds written.0
      then check_1pps source written.1
      else checked source (write_kernel_source written.1 source)

  abbrev pub select_source : PpsSource → H → Outcome (Unit {0}) × H
  select_source source hardware =
      configure_while_rx_inactive d.session (choose source hardware) hardware

  -- `setTimeSource`.
  unfoldable pub set_time_source : Text → H → Outcome (Unit {0}) × H
  set_time_source source hardware =
      if equals_ignore_case source pps_unavailable
      then select_source unavailable hardware
      else if equals_ignore_case source pps_external
      then select_source external hardware
      else if equals_ignore_case source pps_internal
      then select_source host hardware
      else (throw invalid_argument, hardware)
