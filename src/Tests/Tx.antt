-- ===== src/Tests/Tx.antt =====
-- A ring of two buffers of two samples: the first block is taken at once, the second needs another try.
use soapy_sidekiq.Base.{
  ℕ, zero, suc, ◌+◌, ◌≡◌, refl, true, false, List, [], ◌∷◌, arith, Option, some,
}
use soapy_sidekiq.Base.Int.{pos}
use soapy_sidekiq.Tx.{Tx, calls_back, slot_at}
use soapy_sidekiq.Tx.Slots.{occurs, IsOwned}
use soapy_sidekiq.Tx.Status.{Poll, read_stream_status}
use soapy_sidekiq.Tx.Status.Ends.{is_answer, read_stream_status_ends}
use soapy_sidekiq.Tx.Write.{Round, accepted, queue_full, StreamHandle, write_stream}
use soapy_sidekiq.Tx.Write.Ends.{IsDone, write_stream_ends}
use soapy_sidekiq.Tx.Write.Ownership.{HasOwned, write_stream_ownership}
use soapy_sidekiq.Tx.Write.Prefix.{Reported, write_stream_prefix}

abbrev idle : Tx
idle = record {
  completion = record { slots = 0 ∷ 0 ∷ []; completed = 0 };
  in_flight = [];
  block_index = 0;
  block_size = 2;
  writes_stopping = false;
  active_writers = 0;
  first_transmit = false;
  start_finished = false;
  start_status = pos 0;
  underruns = 0;
}

abbrev handle : Option StreamHandle
handle = some (record { is_tx = true; is_active = true })

abbrev taken : Round
taken = record {
  waiting = [];
  submission = accepted;
  transmitting = [];
  expired = false;
  retrying = [];
}

abbrev refused : Round
refused = record {
  waiting = [];
  submission = queue_full;
  transmitting = [];
  expired = false;
  retrying = calls_back 0 ∷ [];
}

abbrev rounds : List Round
rounds = taken ∷ refused ∷ taken ∷ []

abbrev same : List ℕ → List ℕ
same xs = xs

abbrev buffer : Option (List ℕ)
buffer = some (1 ∷ 2 ∷ 3 ∷ 4 ∷ [])

idle-IsOwned : IsOwned 0 [] idle
unfolding slot_at occurs
idle-IsOwned = record {
  same_index = refl;
  owned = empty;
  once = λ k. omega (arith, empty k);
  index_valid = omega arith;
}
  where
    empty : (k : ℕ) → slot_at k (0 ∷ 0 ∷ []) ≡ 0 + 0
    empty zero = refl
    empty (suc zero) = refl
    empty (suc (suc k)) = refl

write_stream_prefix_example :
    Reported same buffer 4 (write_stream handle [] rounds same buffer 4 (pos 0) (pos 1000) idle)
write_stream_prefix_example =
    write_stream_prefix same refl (λ xs ys. refl) handle [] rounds buffer 4 (pos 0) (pos 1000) idle

write_stream_ownership_example :
    HasOwned (write_stream handle [] rounds same buffer 4 (pos 0) (pos 1000) idle)
write_stream_ownership_example =
    write_stream_ownership handle [] rounds same buffer 4 (pos 0) (pos 1000) idle idle-IsOwned

write_stream_ends_example :
    IsDone (write_stream handle [] rounds same buffer 4 (pos 0) (pos 1000) idle)
write_stream_ends_example =
    write_stream_ends handle [] rounds same buffer 4 (pos 0) (pos 1000) idle refl

-- Two polls of an idle stream, the second one past the deadline.
abbrev early : Poll
early = record {
  locks = true;
  locking = [];
  sdk_status = pos 0;
  errors = 0;
  expired = false;
  pausing = [];
}

abbrev polls : List Poll
polls = early ∷ record early { expired = true } ∷ []

-- The hardware has counted two underruns.
abbrev counted : Poll
counted = record early { errors = 2; expired = true }

read_stream_status_ends_example : is_answer (read_stream_status handle polls (pos 1000) idle) ≡ true
read_stream_status_ends_example = read_stream_status_ends handle polls (pos 1000) idle refl
