-- ===== src/Tx.antt =====
-- TxStreaming.cpp, include/SoapySidekiq/TxCompletionState.hpp: the ring of transmit buffers and what
-- other threads do to it: completion callbacks, the worker that starts the hardware on a PPS edge, and
-- the call that stops writers.
pub mod Slots
pub mod Write
pub mod Status
pub mod BlockPool
use soapy_sidekiq.Base.{
  ℕ, zero, suc, ◌==◌, Bool, true, false, List, [], ◌∷◌, length, ltb, if◌then◌else◌, Option, none,
  some, Outcome, ok, throw,
}
use soapy_sidekiq.Base.Int.{ℤ, pos, negsuc, eqb_ℤ}
use soapy_sidekiq.Base.Words.{add64}

-- What the calls return: a count of samples, or one of SoapySDR's error codes.
pub data Written : Type 0 where
  wrote : ℕ → Written
  timeout stream_error not_supported : Written

pub record TxCompletion : Type 0 where
  -- 1 for a buffer that is reserved or with the hardware.
  pub slots : List ℕ
  pub completed : ℕ

-- The members for TX. `in_flight` is the contexts of the accepted submissions, by their buffer, whose
-- callback has not run: the SDK owns them. `start_error` is the value of SOAPY_SDR_STREAM_ERROR.
pub record Tx : Type 0 where
  pub completion : TxCompletion
  pub in_flight : List ℕ
  pub block_index : ℕ
  pub block_size : ℕ
  pub writes_stopping : Bool
  pub active_writers : ℕ
  pub first_transmit : Bool
  pub start_finished : Bool
  pub start_status : ℤ
  pub underruns : ℕ

-- `slots[i]`, and `slots[i] = v`.
unfoldable pub slot_at : ℕ → List ℕ → ℕ
slot_at i [] = 0
slot_at zero (v ∷ vs) = v
slot_at (suc i) (v ∷ vs) = slot_at i vs

unfoldable pub set_slot : ℕ → ℕ → List ℕ → List ℕ
set_slot i x [] = []
set_slot zero x (v ∷ vs) = x ∷ vs
set_slot (suc i) x (v ∷ vs) = v ∷ set_slot i x vs

-- The i-th outstanding context, and the others.
unfoldable pub nth : ℕ → List ℕ → Option ℕ
nth i [] = none
nth zero (v ∷ vs) = some v
nth (suc i) (v ∷ vs) = nth i vs

unfoldable pub remove_at : ℕ → List ℕ → List ℕ
remove_at i [] = []
remove_at zero (v ∷ vs) = vs
remove_at (suc i) (v ∷ vs) = v ∷ remove_at i vs

-- `initializeTxBuffers`.
unfoldable pub zeros : ℕ → List ℕ
zeros zero = []
zeros (suc n) = 0 ∷ zeros n

unfoldable pub initialize_buffers : ℕ → Tx → Tx
initialize_buffers count t = record t {
  completion = record { slots = zeros count; completed = 0 };
  in_flight = [];
  block_index = 0;
}

-- `completeTx`; the buffer that was not reserved is only logged.
unfoldable pub complete_tx : ℕ → Tx → Tx
complete_tx index t =
    if ltb index (length t.completion.slots)
    then record t {
      completion = record {
        slots = set_slot index 0 t.completion.slots;
        completed = add64 t.completion.completed 1;
      };
    }
    else t

-- `tx_complete_callback`, which destroys the context.
abbrev pub called_back : ℕ → Option ℕ → Tx → Tx
called_back i none t = t
called_back i (some index) t = complete_tx index (record t { in_flight = remove_at i t.in_flight })

-- `tx_streaming_start`, when the SDK has returned or thrown.
unfoldable pub streaming_start : ℤ → Outcome ℤ → Tx → Tx
streaming_start start_error (ok status) t = record t {
  underruns = if eqb_ℤ status (pos 0) then 0 else t.underruns;
  start_status = status;
  start_finished = true;
}
streaming_start start_error (throw e) t = record t {
  start_status = start_error;
  start_finished = true;
}

-- What other threads do while a writer waits or is in the SDK.
pub data Event : Type 0 where
  calls_back : ℕ → Event
  starts_streaming : ℤ → Outcome ℤ → Event
  stops_writes : Event

unfoldable pub happens : Event → Tx → Tx
happens (calls_back i) t = called_back i (nth i t.in_flight) t
happens (starts_streaming start_error outcome) t = streaming_start start_error outcome t
happens stops_writes t = record t { writes_stopping = true }

unfoldable pub happen : List Event → Tx → Tx
happen [] t = t
happen (e ∷ es) t = happen es (happens e t)

-- A wait with a predicate returns at once where that holds.
abbrev pub wait : (Tx → Bool) → List Event → Tx → Tx
wait ready events t = if ready t then t else happen events t
