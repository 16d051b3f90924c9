-- ===== src/Tx/Write.antt =====
-- `writeStream`. One thread writes at a time, as SoapySDR asks of a stream's user.
pub mod Accepted
pub mod Reserved
pub mod Prefix
pub mod Ownership
pub mod Turns
pub mod Ends
use soapy_sidekiq.Base.{
  ℕ, zero, suc, ◌+◌, ◌-◌, ◌*◌, ◌/◌, ◌%◌, ◌==◌, Bool, true, false, not, ◌&&◌, ◌||◌, List, [], ◌∷◌,
  ◌++◌, length, take, drop, ltb, if◌then◌else◌, Option, none, some,
}
use soapy_sidekiq.Base.Int.{ℤ, pos, eqb_ℤ, ltb_ℤ}
use soapy_sidekiq.Base.Words.{int_max}
use soapy_sidekiq.Tx.{
  Tx, Written, wrote, timeout, stream_error, not_supported, Event, happen, wait, slot_at, set_slot,
}

-- What becomes of a packet: `skiq_transmit` returns 0, SKIQ_TX_ASYNC_SEND_QUEUE_FULL or another status,
-- or something throws on the way there.
pub data Submission : Type 0 where
  accepted queue_full failed thrown : Submission

-- What happens in one turn of the loop: while the writer waits for the buffer, while it is in the SDK,
-- and while it waits for any completion, and whether the deadline has passed by then.
pub record Round : Type 0 where
  pub waiting : List Event
  pub submission : Submission
  pub transmitting : List Event
  pub expired : Bool
  pub retrying : List Event

-- The sample data that the hardware has accepted from this call, with the count of its blocks.
pub record Writing : Type 0 where
  pub curr_block : ℕ
  pub sent : List ℕ
  pub tx : Tx

pub data Turn : Type 0 where
  returns : Written → Writing → Turn
  repeats : Writing → Turn

-- The number of samples of the accepted blocks, or the error where there are none.
abbrev pub partial : Written → Writing → Turn
partial e w = returns (if w.curr_block == 0 then e else wrote (w.curr_block * w.tx.block_size)) w

-- The block of the caller's buffer, whose items are complex samples.
abbrev pub block_of : List ℕ → Writing → List ℕ
block_of input w = take w.tx.block_size (drop (w.curr_block * w.tx.block_size) input)

abbrev pub mark : ℕ → Tx → Tx
mark v t = record t {
  completion = record t.completion { slots = set_slot t.block_index v t.completion.slots };
}

-- The SDK owns the context, whose callback may run before `skiq_transmit` returns.
unfoldable pub hand_over : Round → (List ℕ → List ℕ) → List ℕ → Writing → Turn
hand_over r encode input w =
    let t = happen r.transmitting (record w.tx { in_flight = w.tx.block_index ∷ w.tx.in_flight }) in
    repeats (record {
      curr_block = w.curr_block + 1;
      sent = w.sent ++ encode (block_of input w);
      tx = record t { block_index = (t.block_index + 1) % length t.completion.slots };
    })

-- The packet was not accepted: the reservation is undone.
unfoldable pub take_back : Round → Writing → Writing
take_back r w = record w { tx = mark 0 (happen r.transmitting w.tx) }

abbrev pub has_progress : ℕ → Tx → Bool
has_progress observed t = t.writes_stopping || not (t.completion.completed == observed)

unfoldable pub retry : Round → ℕ → Writing → Turn
retry r observed w =
    let waited =
      if w.tx.writes_stopping || r.expired
      then w.tx
      else wait (has_progress observed) r.retrying w.tx in
    let w' = record w { tx = waited } in
    if waited.writes_stopping
    then partial stream_error w'
    else if r.expired || not (has_progress observed waited)
    then partial timeout w'
    else repeats w'

unfoldable pub submit : Round → (List ℕ → List ℕ) → List ℕ → ℕ → Submission → Writing → Turn
submit r encode input observed accepted w = hand_over r encode input w
submit r encode input observed queue_full w = retry r observed (take_back r w)
submit r encode input observed failed w = partial stream_error (take_back r w)
submit r encode input observed thrown w = partial stream_error (take_back r w)

abbrev pub may_write : Tx → Bool
may_write t = t.writes_stopping || slot_at t.block_index t.completion.slots == 0

-- One turn of the loop.
unfoldable pub turn : Round → (List ℕ → List ℕ) → List ℕ → Writing → Turn
turn r encode input w =
    let t = wait may_write r.waiting w.tx in
    let w' = record w { tx = t } in
    if not (may_write t)
    then partial timeout w'
    else if t.writes_stopping
    then partial stream_error w'
    else submit r encode input t.completion.completed r.submission (record w { tx = mark 1 t })

abbrev pub after : (Writing → Option (Written × Writing)) → Turn → Option (Written × Writing)
after loop (returns result w) = some (result, w)
after loop (repeats w) = loop w

-- The loop, for the turns of a list; `none` says that the list ends before the loop does.
unfoldable pub write_blocks :
    List Round → (List ℕ → List ℕ) → List ℕ → ℕ → Writing → Option (Written × Writing)
write_blocks [] encode input num_blocks w =
    if ltb w.curr_block num_blocks then none else some (wrote (num_blocks * w.tx.block_size), w)
write_blocks (r ∷ rs) encode input num_blocks w =
    let rest = after (λ w'. write_blocks rs encode input num_blocks w') (turn r encode input w) in
    if ltb w.curr_block num_blocks then rest else some (wrote (num_blocks * w.tx.block_size), w)

-- The call returns before it has written anything.
abbrev pub nothing : Written → Tx → Option (Written × Writing)
nothing result t = some (result, record { curr_block = 0; sent = []; tx = t })

-- The gate of a start on a PPS edge.
unfoldable pub may_start : Tx → Bool
may_start t = t.start_finished || t.writes_stopping

-- The stream that the handle names.
pub record StreamHandle : Type 0 where
  pub is_tx : Bool
  pub is_active : Bool

-- The part of `writeStream` that counts as a writer.
unfoldable pub write_open :
    List Event
    → List Round
    → (List ℕ → List ℕ)
    → Option (List ℕ)
    → ℕ
    → Tx
    → Option (Written × Writing)
write_open pps rounds encode buffer num_elems t =
    let t' = if t.first_transmit then wait may_start pps t else t in
    if t.block_size == 0 || ltb int_max num_elems || not (num_elems % t.block_size == 0)
    then nothing stream_error t
    else if num_elems == 0
    then nothing (wrote 0) t
    else elim buffer [
      | none ↦ nothing stream_error t
      | some input ↦
          if t.first_transmit && not (may_start t')
          then nothing timeout t'
          else if t.first_transmit && (t'.writes_stopping || not (eqb_ℤ t'.start_status (pos 0)))
          then nothing stream_error t'
          else write_blocks rounds encode input (num_elems / t.block_size)
              (record { curr_block = 0; sent = []; tx = record t' { first_transmit = false } })
    ]

-- The guard object takes the writer off the count again.
abbrev pub closed : Option (Written × Writing) → Option (Written × Writing)
closed none = none
closed (some (result, w)) =
    some (result, record w { tx = record w.tx { active_writers = w.tx.active_writers - 1 } })

-- `writeStream`.
unfoldable pub write_stream :
    Option StreamHandle
    → List Event
    → List Round
    → (List ℕ → List ℕ)
    → Option (List ℕ)
    → ℕ
    → ℤ
    → ℤ
    → Tx
    → Option (Written × Writing)
write_stream none pps rounds encode buffer num_elems flags timeout_us t = nothing stream_error t
write_stream (some handle) pps rounds encode buffer num_elems flags timeout_us t =
    if not handle.is_tx
    then nothing not_supported t
    else if not handle.is_active
    then nothing stream_error t
    else if not (eqb_ℤ flags (pos 0))
    then nothing not_supported t
    else if ltb_ℤ timeout_us (pos 0)
    then nothing stream_error t
    else if t.writes_stopping
    then nothing stream_error t
    else closed (
        write_open pps rounds encode buffer num_elems
          (record t { active_writers = t.active_writers + 1 }))
