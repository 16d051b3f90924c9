-- ===== src/Tx/Write/Ends.antt =====
-- A write ends.
use soapy_sidekiq.Base.{
  ℕ, ◌+◌, ◌/◌, ◌≡◌, zero, suc, inl, inr, Bool, true, false, not, ◌||◌, Bool-cases, arith, List, [],
  ◌∷◌, ltb, if◌then◌else◌, Option, none, some,
}
use soapy_sidekiq.Base.Int.{ℤ, pos, eqb_ℤ, ltb_ℤ}
use soapy_sidekiq.Tx.{Tx, Written, wrote, timeout, stream_error, not_supported, Event, wait}
use soapy_sidekiq.Tx.Write.{
  Submission, accepted, queue_full, failed, thrown, Round, Writing, Turn, returns, repeats, turn,
  write_blocks, may_start, after, nothing, closed, write_open, write_stream, StreamHandle,
}
use soapy_sidekiq.Tx.Write.Turns.{is_stalled, by_answer, are_enough, Repeats, Turns, turn-Turns}

-- The call has returned.
unfoldable pub IsDone : Option (Written × Writing) → Type 0
IsDone none = ⊥
IsDone (some x) = Unit

after-IsDone :
    (loop : Writing → Option (Written × Writing)) (stalled : Bool) (o : Submission) (curr : ℕ)
    (turn : Turn)
    → ((w : Writing) → Repeats stalled o curr w → IsDone (loop w))
    → Turns stalled o curr turn
    → IsDone (after loop turn)
unfolding IsDone
after-IsDone loop stalled o curr (returns result w) k h = tt
after-IsDone loop stalled o curr (repeats w) k h = k w h

-- What is enough before a turn is enough after it.
are_enough_after :
    (stalled : Bool) (o : Submission) (n num curr : ℕ) (rs : List Round) (w : Writing)
    → num ≡ curr + suc n
    → by_answer o (are_enough n rs) (stalled || are_enough (suc n) rs) ≡ true
    → Repeats stalled o curr w
    → (m : ℕ) × (num ≡ w.curr_block + m) × (are_enough m rs ≡ true)
are_enough_after stalled accepted n num curr rs w e h r = (n, omega (arith, e, r), h)
are_enough_after false queue_full n num curr rs w e h r = (suc n, omega (arith, e, r.0), h)
are_enough_after true queue_full n num curr rs w e h r = cc r.1
are_enough_after stalled failed n num curr rs w e h r = absurd r
are_enough_after stalled thrown n num curr rs w e h r = absurd r

not_less : (k n : ℕ) → n ≡ k + 0 → ltb k n ≡ false
not_less k n e = ground (arith, e)

write_blocks-IsDone :
    (rounds : List Round) (encode : List ℕ → List ℕ) (input : List ℕ) (num left : ℕ) (w : Writing)
    → num ≡ w.curr_block + left
    → are_enough left rounds ≡ true
    → IsDone (write_blocks rounds encode input num w)
unfolding write_blocks IsDone
write_blocks-IsDone [] encode input num zero w e h = rw (not_less w.curr_block num e) tt
write_blocks-IsDone [] encode input num (suc n) w e h = cc h
write_blocks-IsDone (r ∷ rs) encode input num zero w e h = rw (not_less w.curr_block num e) tt
write_blocks-IsDone (r ∷ rs) encode input num (suc n) w e h =
    elim (Bool-cases (ltb w.curr_block num)) [
      | inr all ↦ rw all tt
      | inl more ↦ rw more (
          unfold IsDone in
          after-IsDone _ (is_stalled r) r.submission w.curr_block (turn r encode input w)
            (λ w' k.
              continued w'
                (are_enough_after (is_stalled r) r.submission n num w.curr_block rs w' e h k)
                (λ m. write_blocks-IsDone rs encode input num m w'))
            (turn-Turns r encode input w))
    ]
  where
    continued :
        (w' : Writing)
        → (m : ℕ) × (num ≡ w'.curr_block + m) × (are_enough m rs ≡ true)
        → ((m : ℕ)
            → num ≡ w'.curr_block + m
            → are_enough m rs ≡ true
            → IsDone (write_blocks rs encode input num w'))
        → IsDone (write_blocks rs encode input num w')
    continued w' (m, p, q) k = k m p q

if-IsDone :
    (b : Bool) (x y : Option (Written × Writing))
    → IsDone x
    → IsDone y
    → IsDone (if b then x else y)
if-IsDone true x y h k = h
if-IsDone false x y h k = k

closed-IsDone : (o : Option (Written × Writing)) → IsDone o → IsDone (closed o)
unfolding IsDone
closed-IsDone none h = h
closed-IsDone (some x) h = tt

nothing-IsDone : (result : Written) (t : Tx) → IsDone (nothing result t)
unfolding IsDone
nothing-IsDone result t = tt

write_open-IsDone :
    (pps : List Event) (rounds : List Round) (encode : List ℕ → List ℕ) (buffer : Option (List ℕ))
    (num_elems : ℕ) (t : Tx)
    → are_enough (num_elems / t.block_size) rounds ≡ true
    → IsDone (write_open pps rounds encode buffer num_elems t)
unfolding write_open
write_open-IsDone pps rounds encode none num_elems t h = opened _ _
  where
    opened :
        (a b : Bool)
        → IsDone (
            if a
            then nothing stream_error t
            else if b
            then nothing (wrote 0) t
            else nothing stream_error t)
    opened a b =
        if-IsDone a _ _ (nothing-IsDone stream_error t)
          (if-IsDone b _ _ (nothing-IsDone (wrote 0) t) (nothing-IsDone stream_error t))
write_open-IsDone pps rounds encode (some input) num_elems t h = opened _ _ _ _
  where
    ready : Tx
    ready = if t.first_transmit then wait may_start pps t else t

    first : Writing
    first = record { curr_block = 0; sent = []; tx = record ready { first_transmit = false } }

    opened :
        (a b c d : Bool)
        → IsDone (
            if a
            then nothing stream_error t
            else if b
            then nothing (wrote 0) t
            else if c
            then nothing timeout ready
            else if d
            then nothing stream_error ready
            else write_blocks rounds encode input (num_elems / t.block_size) first)
    opened a b c d = if-IsDone a _ _ (nothing-IsDone stream_error t) (
        if-IsDone b _ _ (nothing-IsDone (wrote 0) t) (
          if-IsDone c _ _ (nothing-IsDone timeout ready) (
            if-IsDone d _ _ (nothing-IsDone stream_error ready) (
              write_blocks-IsDone rounds encode input (num_elems / t.block_size)
                (num_elems / t.block_size) first (omega arith) h))))

-- `writeStream` returns: at the latest when the SDK has accepted each block of the request, or a packet
-- fails, or its queue is full and the deadline has passed or no other thread does anything meanwhile. So with a
-- full queue the call goes on only while other threads act, and not beyond the deadline.
pub write_stream_ends :
    (handle : Option StreamHandle) (pps : List Event) (rounds : List Round)
    (encode : List ℕ → List ℕ) (buffer : Option (List ℕ)) (num_elems : ℕ) (flags timeout_us : ℤ)
    (t : Tx)
    → are_enough (num_elems / t.block_size) rounds ≡ true
    → IsDone (write_stream handle pps rounds encode buffer num_elems flags timeout_us t)
unfolding write_stream
write_stream_ends none pps rounds encode buffer num_elems flags timeout_us t h =
    nothing-IsDone stream_error t
write_stream_ends (some s) pps rounds encode buffer num_elems flags timeout_us t h =
    if-IsDone (not s.is_tx) _ _ (nothing-IsDone not_supported t) (
      if-IsDone (not s.is_active) _ _ (nothing-IsDone stream_error t) (
        if-IsDone (not (eqb_ℤ flags (pos 0))) _ _ (nothing-IsDone not_supported t) (
          if-IsDone (ltb_ℤ timeout_us (pos 0)) _ _ (nothing-IsDone stream_error t) (
            if-IsDone t.writes_stopping _ _ (nothing-IsDone stream_error t)
              (closed-IsDone _ (write_open-IsDone pps rounds encode buffer num_elems _ h))))))
