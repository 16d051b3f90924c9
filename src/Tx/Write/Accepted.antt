-- ===== src/Tx/Write/Accepted.antt =====
-- The blocks that the hardware accepts in the loop of a write.
use soapy_sidekiq.Base.{
  ℕ, ◌*◌, ◌≤◌, ◌<◌, ◌≡◌, refl, ap, ◌∙◌, ◌==◌, inl, inr, Bool, true, false, ◌||◌, Bool-cases, arith,
  List, [], ◌∷◌, ◌++◌, take, take-add, ltb, ltb→le, ltb→lt, ==_iff, if◌then◌else◌, Option, none,
  some, ok, throw,
}
use soapy_sidekiq.Tx.{
  Tx, Written, wrote, timeout, stream_error, not_supported, Event, calls_back, starts_streaming,
  stops_writes, happens, happen, wait, complete_tx, streaming_start, nth, called_back,
}
use soapy_sidekiq.Tx.Write.{
  Submission, accepted, queue_full, failed, thrown, Round, Writing, Turn, returns, repeats, partial,
  hand_over, take_back, retry, submit, turn, write_blocks, has_progress, may_write, after,
}

-- The number of samples that a result promises.
abbrev pub count_of : Written → ℕ
count_of (wrote n) = n
count_of timeout = 0
count_of stream_error = 0
count_of not_supported = 0

-- Nothing that happens changes the size of a block.
block_size-happens : (e : Event) (t : Tx) → (happens e t).block_size ≡ t.block_size
unfolding happens complete_tx streaming_start
block_size-happens (calls_back i) t = at (nth i t.in_flight)
  where
    at : (c : Option ℕ) → (called_back i c t).block_size ≡ t.block_size
    at none = refl
    at (some index) = ground arith
block_size-happens (starts_streaming e (ok status)) t = refl
block_size-happens (starts_streaming e (throw x)) t = refl
block_size-happens stops_writes t = refl

block_size-happen : (es : List Event) (t : Tx) → (happen es t).block_size ≡ t.block_size
unfolding happen
block_size-happen [] t = refl
block_size-happen (e ∷ es) t = block_size-happen es (happens e t) ∙ block_size-happens e t

pub block_size-wait :
    (ready : Tx → Bool) (es : List Event) (t : Tx) → (wait ready es t).block_size ≡ t.block_size
block_size-wait ready es t = elim (Bool-cases (ready t)) [
  | inl h ↦ rw h refl
  | inr h ↦ rw h (block_size-happen es t)
]

module _ (encode : List ℕ → List ℕ)
    (encode_append : (xs ys : List ℕ) → encode (xs ++ ys) ≡ encode xs ++ encode ys) (input : List ℕ)
    (size num : ℕ) where
  -- What the hardware has is the first `curr_block` blocks.
  pub record IsPrefix (w : Writing) : Type 0 where
    pub same_size : w.tx.block_size ≡ size
    pub in_range : w.curr_block ≤ num
    pub prefix : w.sent ≡ encode (take (w.curr_block * size) input)

  -- What a turn leaves, and promises if it ends the loop.
  abbrev pub IsFaithful : Turn → Type 0
  IsFaithful (returns result w) = IsPrefix w × (count_of result ≡ w.curr_block * size)
  IsFaithful (repeats w) = IsPrefix w

  moves-IsPrefix :
      (w : Writing) (t : Tx)
      → IsPrefix w
      → t.block_size ≡ w.tx.block_size
      → IsPrefix (record w { tx = t })
  moves-IsPrefix w t v e = record {
    same_size = e ∙ v.same_size;
    in_range = v.in_range;
    prefix = v.prefix;
  }

  partial-IsFaithful :
      (e : Written) (w : Writing) → count_of e ≡ 0 → IsPrefix w → IsFaithful (partial e w)
  partial-IsFaithful e w z v = elim (Bool-cases (w.curr_block == 0)) [
    | inl h ↦ rw h (v, z ∙ omega (arith, ap (λ (k : ℕ). k * size) ((==_iff w.curr_block 0).0 h)))
    | inr h ↦ rw h (v, ap (λ (k : ℕ). w.curr_block * k) v.same_size)
  ]

  hand_over-IsFaithful :
      (r : Round) (w : Writing)
      → w.curr_block < num
      → IsPrefix w
      → IsFaithful (hand_over r encode input w)
  unfolding hand_over
  hand_over-IsFaithful r w h v = record {
    same_size = block_size-happen r.transmitting _ ∙ v.same_size;
    in_range = omega arith;
    prefix =
        rw (v.prefix, v.same_size, ← encode_append, ← take-add (w.curr_block * size) size input)
          (ap (λ (k : ℕ). encode (take k input)) (omega arith));
  }

  take_back-IsPrefix : (r : Round) (w : Writing) → IsPrefix w → IsPrefix (take_back r w)
  unfolding take_back
  take_back-IsPrefix r w v = moves-IsPrefix w _ v (block_size-happen r.transmitting w.tx)

  retried-block_size :
      (r : Round) (observed : ℕ) (stop : Bool) (t : Tx)
      → (if stop then t else wait (has_progress observed) r.retrying t).block_size ≡ t.block_size
  retried-block_size r observed true t = refl
  retried-block_size r observed false t = block_size-wait (has_progress observed) r.retrying t

  decided-IsFaithful :
      (a b : Bool) (w : Writing)
      → IsPrefix w
      → IsFaithful
          (if a then partial stream_error w else if b then partial timeout w else repeats w)
  decided-IsFaithful true b w v = partial-IsFaithful stream_error w refl v
  decided-IsFaithful false true w v = partial-IsFaithful timeout w refl v
  decided-IsFaithful false false w v = v

  retry-IsFaithful :
      (r : Round) (observed : ℕ) (w : Writing) → IsPrefix w → IsFaithful (retry r observed w)
  unfolding retry
  retry-IsFaithful r observed w v = decided-IsFaithful _ _ _ (
      moves-IsPrefix w _ v (retried-block_size r observed (w.tx.writes_stopping || r.expired) w.tx))

  submit-IsFaithful :
      (r : Round) (observed : ℕ) (o : Submission) (w : Writing)
      → w.curr_block < num
      → IsPrefix w
      → IsFaithful (submit r encode input observed o w)
  unfolding submit
  submit-IsFaithful r observed accepted w h v = hand_over-IsFaithful r w h v
  submit-IsFaithful r observed queue_full w h v =
      retry-IsFaithful r observed _ (take_back-IsPrefix r w v)
  submit-IsFaithful r observed failed w h v =
      partial-IsFaithful stream_error _ refl (take_back-IsPrefix r w v)
  submit-IsFaithful r observed thrown w h v =
      partial-IsFaithful stream_error _ refl (take_back-IsPrefix r w v)

  turned-IsFaithful :
      (a b : Bool) (r : Round) (observed : ℕ) (w w' : Writing)
      → w.curr_block < num
      → IsPrefix w
      → w'.curr_block ≡ w.curr_block
      → IsPrefix w'
      → IsFaithful (
          if a
          then partial timeout w
          else if b
          then partial stream_error w
          else submit r encode input observed r.submission w')
  turned-IsFaithful true b r observed w w' h v e v' = partial-IsFaithful timeout w refl v
  turned-IsFaithful false true r observed w w' h v e v' = partial-IsFaithful stream_error w refl v
  turned-IsFaithful false false r observed w w' h v e v' =
      submit-IsFaithful r observed r.submission w' (omega (arith, e)) v'

  turn-IsFaithful :
      (r : Round) (w : Writing)
      → w.curr_block < num
      → IsPrefix w
      → IsFaithful (turn r encode input w)
  unfolding turn
  turn-IsFaithful r w h v =
      turned-IsFaithful _ _ r _ _ _ h (moves-IsPrefix w _ v same) refl (moves-IsPrefix w _ v same)
    where
      same : (wait may_write r.waiting w.tx).block_size ≡ w.tx.block_size
      same = block_size-wait may_write r.waiting w.tx

  -- Of a call that has returned.
  abbrev pub HasPrefix : Option (Written × Writing) → Type 0
  HasPrefix none = Unit
  HasPrefix (some (result, w)) = IsFaithful (returns result w)

  after-HasPrefix :
      (loop : Writing → Option (Written × Writing)) (turn : Turn)
      → ((w : Writing) → IsPrefix w → HasPrefix (loop w))
      → IsFaithful turn
      → HasPrefix (after loop turn)
  after-HasPrefix loop (returns result w) k v = v
  after-HasPrefix loop (repeats w) k v = k w v

  complete :
      (w : Writing)
      → IsPrefix w
      → ltb w.curr_block num ≡ false
      → IsFaithful (returns (wrote (num * w.tx.block_size)) w)
  complete w v h = (v, rw (v.same_size, all) refl)
    where
      all : w.curr_block ≡ num
      all = omega (arith, ltb→le w.curr_block num h, v.in_range)

  -- The loop, whatever happens in its turns.
  pub write_blocks-HasPrefix :
      (rounds : List Round) (w : Writing)
      → IsPrefix w
      → HasPrefix (write_blocks rounds encode input num w)
  unfolding write_blocks
  write_blocks-HasPrefix [] w v = elim (Bool-cases (ltb w.curr_block num)) [
    | inl h ↦ rw h tt
    | inr h ↦ rw h (complete w v h)
  ]
  write_blocks-HasPrefix (r ∷ rs) w v = elim (Bool-cases (ltb w.curr_block num)) [
    | inl h ↦ rw h (
        after-HasPrefix _ (turn r encode input w) (write_blocks-HasPrefix rs)
          (turn-IsFaithful r w (ltb→lt w.curr_block num h) v))
    | inr h ↦ rw h (complete w v h)
  ]
