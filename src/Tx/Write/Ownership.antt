-- ===== src/Tx/Write/Ownership.antt =====
-- A write never hands over a buffer that the hardware still has.
use soapy_sidekiq.Base.{
  ℕ, ◌/◌, refl, inl, inr, Bool, true, false, not, ◌&&◌, ◌||◌, Bool-cases, List, [], ◌∷◌, ltb,
  if◌then◌else◌, Option, none, some,
}
use soapy_sidekiq.Base.Int.{ℤ, pos, eqb_ℤ, ltb_ℤ}
use soapy_sidekiq.Tx.{Tx, Written, wrote, timeout, stream_error, not_supported, Event, wait}
use soapy_sidekiq.Tx.Slots.{IsOwned, wait-IsOwned}
use soapy_sidekiq.Tx.Write.{
  Round, Writing, Turn, returns, repeats, turn, write_blocks, may_start, after, nothing, closed,
  write_open, write_stream, StreamHandle,
}
use soapy_sidekiq.Tx.Write.Reserved.{IsSettled, settled, turn-IsSettled}

-- Of a call that has returned.
unfoldable pub HasOwned : Option (Written × Writing) → Type 0
HasOwned none = Unit
HasOwned (some (result, w)) = IsOwned w.tx.block_index [] w.tx

after-HasOwned :
    (loop : Writing → Option (Written × Writing)) (turn : Turn)
    → ((w : Writing) → IsOwned w.tx.block_index [] w.tx → HasOwned (loop w))
    → IsSettled turn
    → HasOwned (after loop turn)
unfolding HasOwned
after-HasOwned loop (returns result w) k v = v
after-HasOwned loop (repeats w) k v = k w v

write_blocks-HasOwned :
    (rounds : List Round) (encode : List ℕ → List ℕ) (input : List ℕ) (num : ℕ) (w : Writing)
    → IsOwned w.tx.block_index [] w.tx
    → HasOwned (write_blocks rounds encode input num w)
unfolding write_blocks HasOwned
write_blocks-HasOwned [] encode input num w v = elim (Bool-cases (ltb w.curr_block num)) [
  | inl h ↦ rw h tt
  | inr h ↦ rw h v
]
write_blocks-HasOwned (r ∷ rs) encode input num w v = elim (Bool-cases (ltb w.curr_block num)) [
  | inl h ↦ rw h (
      unfold HasOwned in
      after-HasOwned _ (turn r encode input w) (write_blocks-HasOwned rs encode input num)
        (turn-IsSettled r encode input w v))
  | inr h ↦ rw h v
]

nothing-HasOwned :
    (result : Written) (t : Tx) → IsOwned t.block_index [] t → HasOwned (nothing result t)
unfolding HasOwned
nothing-HasOwned result t v = v

closed-HasOwned : (o : Option (Written × Writing)) → HasOwned o → HasOwned (closed o)
unfolding HasOwned
closed-HasOwned none v = tt
closed-HasOwned (some (result, w)) v = record {
  same_index = refl;
  owned = v.owned;
  once = v.once;
  index_valid = v.index_valid;
}

if-HasOwned :
    (x y : Option (Written × Writing)) (b : Bool)
    → HasOwned x
    → HasOwned y
    → HasOwned (if b then x else y)
if-HasOwned x y true v w = v
if-HasOwned x y false v w = w

write_open-HasOwned :
    (pps : List Event) (rounds : List Round) (encode : List ℕ → List ℕ) (buffer : Option (List ℕ))
    (num_elems : ℕ) (t : Tx)
    → IsOwned t.block_index [] t
    → HasOwned (write_open pps rounds encode buffer num_elems t)
unfolding write_open
write_open-HasOwned pps rounds encode buffer num_elems t v = opened _ _ buffer
  where
    gated : (first : Bool) → IsOwned t.block_index [] (if first then wait may_start pps t else t)
    gated true = wait-IsOwned t.block_index [] may_start pps t v
    gated false = v

    ready : Tx
    ready = if t.first_transmit then wait may_start pps t else t

    ready-IsOwned : IsOwned ready.block_index [] ready
    ready-IsOwned = settled t.block_index ready (gated t.first_transmit)

    sending :
        (c d : Bool) (input : List ℕ)
        → HasOwned (
            if c
            then nothing timeout ready
            else if d
            then nothing stream_error ready
            else write_blocks rounds encode input (num_elems / t.block_size) (record {
              curr_block = 0;
              sent = [];
              tx = record ready { first_transmit = false };
            }))
    sending c d input = if-HasOwned _ _ c (nothing-HasOwned timeout ready ready-IsOwned) (
        if-HasOwned _ _ d (nothing-HasOwned stream_error ready ready-IsOwned) (
          write_blocks-HasOwned rounds encode input (num_elems / t.block_size) _ (record {
            same_index = refl;
            owned = ready-IsOwned.owned;
            once = ready-IsOwned.once;
            index_valid = ready-IsOwned.index_valid;
          })))

    opened :
        (a b : Bool) (o : Option (List ℕ))
        → HasOwned (
            if a then nothing stream_error t else if b then nothing (wrote 0) t else elim o [
              | none ↦ nothing stream_error t
              | some input ↦
                  if t.first_transmit && not (may_start ready)
                  then nothing timeout ready
                  else if t.first_transmit
                      && (ready.writes_stopping || not (eqb_ℤ ready.start_status (pos 0)))
                  then nothing stream_error ready
                  else write_blocks rounds encode input (num_elems / t.block_size) (record {
                    curr_block = 0;
                    sent = [];
                    tx = record ready { first_transmit = false };
                  })
            ])
    opened a b none =
        if-HasOwned _ _ a (nothing-HasOwned stream_error t v)
          (if-HasOwned _ _ b (nothing-HasOwned (wrote 0) t v) (nothing-HasOwned stream_error t v))
    opened a b (some input) =
        if-HasOwned _ _ a (nothing-HasOwned stream_error t v)
          (if-HasOwned _ _ b (nothing-HasOwned (wrote 0) t v) (sending _ _ input))

-- Before and after any call of `writeStream`, on every path, with completions, stops and starts at any
-- point in it: the marked buffers are those whose contexts the SDK owns, each of them once. So no buffer is
-- overwritten or handed over while the hardware has it, and no reservation is left behind.
pub write_stream_ownership :
    (handle : Option StreamHandle) (pps : List Event) (rounds : List Round)
    (encode : List ℕ → List ℕ) (buffer : Option (List ℕ)) (num_elems : ℕ) (flags timeout_us : ℤ)
    (t : Tx)
    → IsOwned t.block_index [] t
    → HasOwned (write_stream handle pps rounds encode buffer num_elems flags timeout_us t)
unfolding write_stream
write_stream_ownership none pps rounds encode buffer num_elems flags timeout_us t v =
    nothing-HasOwned stream_error t v
write_stream_ownership (some h) pps rounds encode buffer num_elems flags timeout_us t v =
    if-HasOwned _ _ (not h.is_tx) (nothing-HasOwned not_supported t v) (
      if-HasOwned _ _ (not h.is_active) (nothing-HasOwned stream_error t v) (
        if-HasOwned _ _ (not (eqb_ℤ flags (pos 0))) (nothing-HasOwned not_supported t v) (
          if-HasOwned _ _ (ltb_ℤ timeout_us (pos 0)) (nothing-HasOwned stream_error t v) (
            if-HasOwned _ _ t.writes_stopping (nothing-HasOwned stream_error t v) (
              closed-HasOwned _ (
                write_open-HasOwned pps rounds encode buffer num_elems _ (record {
                  same_index = refl;
                  owned = v.owned;
                  once = v.once;
                  index_valid = v.index_valid;
                })))))))
