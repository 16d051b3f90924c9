-- ===== src/Settings/Sources.antt =====
-- The part of `writeSetting` that switches the data source of every RX channel, or of none.
use soapy_sidekiq.Base.{
  ℕ, zero, suc, ◌+◌, Bool, true, false, not, List, [], ◌∷◌, Outcome, ok, throw, runtime_error,
  if◌then◌else◌,
}
use soapy_sidekiq.Base.Int.{ℤ, pos, eqb_ℤ}

-- A source of samples: converted samples, a counter, or a value that is neither.
pub data DataSource : Type 0 where
  iq counter unknown : DataSource

-- Reads and writes of the source of a handle, over the state of the hardware. A read gives a status with
-- the value that it stores, a write a status with the hardware behind it.
pub record SourceSdk (H : Type 0) : Type 0 where
  pub read_source : H → ℕ → ℤ × DataSource
  pub write_source : H → ℕ → DataSource → ℤ × H

-- A handle with its source before the writes.
abbrev pub Snapshot : Type 0
Snapshot = List (ℕ × DataSource)

abbrev pub is_known : DataSource → Bool
is_known iq = true
is_known counter = true
is_known unknown = false

abbrev pub noted : ℕ → DataSource → Outcome Snapshot → Outcome Snapshot
noted handle old (throw e) = throw e
noted handle old (ok rest) = ok ((handle, old) ∷ rest)

-- How the writes ended. `rollback_status` is the first failure of the compensation, which the message of
-- the exception reports.
pub record Switched (H : Type 0) : Type 0 where
  pub outcome : Outcome (Unit {0})
  pub rollback_status : ℤ
  pub hardware : H

module _ {H : Type 0} (sdk : SourceSdk H) where
  -- The loop that reads, over `remaining` channels from `channel` on; `table` gives their handles.
  unfoldable pub snapshot : H → (ℕ → ℕ) → ℕ → ℕ → Outcome Snapshot
  snapshot hardware table zero channel = ok []
  snapshot hardware table (suc remaining) channel =
      let answer = sdk.read_source hardware (table channel) in
      let rest = snapshot hardware table remaining (channel + 1) in
      if not (eqb_ℤ answer.0 (pos 0))
      then throw runtime_error
      else if not (is_known answer.1)
      then throw runtime_error
      else noted (table channel) answer.1 rest

  -- The compensation, from the write that failed back to the first; every attempt is made.
  unfoldable pub restore : Snapshot → H → ℤ × H
  restore [] hardware = (pos 0, hardware)
  restore ((handle, old) ∷ earlier) hardware =
      let written = sdk.write_source hardware handle old in
      let rest = restore earlier written.1 in
      (if eqb_ℤ written.0 (pos 0) then rest.0 else written.0, rest.1)

  -- The loop that writes; `attempted` are the handles before, the last one first.
  unfoldable pub switch_sources : DataSource → Snapshot → Snapshot → H → Switched H
  switch_sources source attempted [] hardware = record {
    outcome = ok tt;
    rollback_status = pos 0;
    hardware = hardware;
  }
  switch_sources source attempted ((handle, old) ∷ later) hardware =
      let written = sdk.write_source hardware handle source in
      let rest = switch_sources source ((handle, old) ∷ attempted) later written.1 in
      let restored = restore ((handle, old) ∷ attempted) written.1 in
      if not (eqb_ℤ written.0 (pos 0))
      then record {
        outcome = throw runtime_error;
        rollback_status = restored.0;
        hardware = restored.1;
      }
      else rest

  abbrev pub switched_from : DataSource → Outcome Snapshot → H → Switched H
  switched_from source (throw e) hardware = record {
    outcome = throw e;
    rollback_status = pos 0;
    hardware = hardware;
  }
  switched_from source (ok handles) hardware = switch_sources source [] handles hardware

  -- Both loops, for a number of channels.
  unfoldable pub switch_all : DataSource → (ℕ → ℕ) → ℕ → H → Switched H
  switch_all source table channels hardware =
      switched_from source (snapshot hardware table channels 0) hardware
