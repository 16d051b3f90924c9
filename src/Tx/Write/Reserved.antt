-- ===== src/Tx/Write/Reserved.antt =====
-- The buffer that a turn of the write loop reserves.
use native.Mathlib.Nat.{mod-lt}
use soapy_sidekiq.Base.{
  ℕ, ◌+◌, ◌≤◌, ◌<◌, ◌≡◌, refl, ap, ◌∙◌, ◌==◌, inl, inr, Bool, true, false, not, ◌||◌, Bool-cases,
  arith, List, [], ◌∷◌, length, if◌then◌else◌, ==_iff,
}
use soapy_sidekiq.Tx.{Tx, timeout, stream_error, happen, wait, slot_at}
use soapy_sidekiq.Tx.Slots.{
  occurs, IsOwned, happen-IsOwned, wait-IsOwned, slot_at-set_slot, length-set_slot,
}
use soapy_sidekiq.Tx.Write.{
  Submission, accepted, queue_full, failed, thrown, Round, Writing, Turn, returns, repeats, partial,
  mark, hand_over, take_back, retry, submit, turn, has_progress, may_write,
}

-- The writer of a turn has no reservation left.
abbrev pub IsSettled : Turn → Type 0
IsSettled (returns result w) = IsOwned w.tx.block_index [] w.tx
IsSettled (repeats w) = IsOwned w.tx.block_index [] w.tx

module _ (index : ℕ) (t : Tx) where
  marked :
      (v k : ℕ)
      → t.block_index ≡ index
      → t.block_index < length t.completion.slots
      → slot_at k (mark v t).completion.slots
        ≡ (if index == k then v else slot_at k t.completion.slots)
  marked v k e h = rw (← e) (slot_at-set_slot k t.block_index v t.completion.slots h)

  reserve-IsOwned :
      slot_at t.block_index t.completion.slots ≡ 0
      → IsOwned index [] t
      → IsOwned index (index ∷ []) (mark 1 t)
  unfolding occurs
  reserve-IsOwned free v = record {
    same_index = v.same_index;
    owned = λ k. marked 1 k v.same_index v.index_valid ∙ reserved k;
    once = λ k. omega (arith, marked 1 k v.same_index v.index_valid, marked_once k);
    index_valid = omega (arith, v.index_valid, length-set_slot t.block_index 1 t.completion.slots);
  }
    where
      clear : slot_at index t.completion.slots ≡ 0
      clear = rw (← v.same_index) free

      reserved :
          (k : ℕ)
          → (if index == k then 1 else slot_at k t.completion.slots)
            ≡ occurs k (index ∷ []) + occurs k t.in_flight
      reserved k = elim (Bool-cases (index == k)) [
        | inl same ↦ rw same (
            omega (
              arith,
              v.owned index,
              clear,
              ap (λ (n : ℕ). occurs n t.in_flight) ((==_iff index k).0 same),
            ))
        | inr other ↦ rw other (omega (arith, v.owned k))
      ]

      marked_once : (k : ℕ) → (if index == k then 1 else slot_at k t.completion.slots) ≤ 1
      marked_once k = ground (arith, v.once k)

  unreserve-IsOwned : IsOwned index (index ∷ []) t → IsOwned index [] (mark 0 t)
  unfolding occurs
  unreserve-IsOwned v = record {
    same_index = v.same_index;
    owned = λ k. omega (arith, marked 0 k v.same_index v.index_valid, left k);
    once = λ k. omega (arith, marked 0 k v.same_index v.index_valid, left k, v.once k, v.owned k);
    index_valid = omega (arith, v.index_valid, length-set_slot t.block_index 0 t.completion.slots);
  }
    where
      owned_at :
          (k : ℕ) (b : Bool)
          → (index == k) ≡ b
          → slot_at k t.completion.slots ≡ (if b then 1 else 0) + 0 + occurs k t.in_flight
      owned_at k b e = rw (← e) (v.owned k)

      left :
          (k : ℕ) → (if index == k then 0 else slot_at k t.completion.slots) ≡ occurs k t.in_flight
      left k = elim (Bool-cases (index == k)) [
        | inl same ↦ rw same (omega (arith, owned_at k true same, v.once k))
        | inr other ↦ rw other (omega (arith, owned_at k false other))
      ]

  submitted-IsOwned :
      IsOwned index (index ∷ []) t
      → IsOwned index [] (record t { in_flight = t.block_index ∷ t.in_flight })
  unfolding occurs
  submitted-IsOwned v = record {
    same_index = v.same_index;
    owned = λ k. rw v.same_index (omega (arith, v.owned k));
    once = v.once;
    index_valid = v.index_valid;
  }

pub settled : (index : ℕ) (t : Tx) → IsOwned index [] t → IsOwned t.block_index [] t
settled index t v = record {
  same_index = refl;
  owned = v.owned;
  once = v.once;
  index_valid = v.index_valid;
}

take_back-IsOwned :
    (index : ℕ) (r : Round) (w : Writing)
    → IsOwned index (index ∷ []) w.tx
    → IsOwned index [] (take_back r w).tx
unfolding take_back
take_back-IsOwned index r w v =
    unreserve-IsOwned index _ (happen-IsOwned index _ r.transmitting w.tx v)

hand_over-IsSettled :
    (index : ℕ) (r : Round) (encode : List ℕ → List ℕ) (input : List ℕ) (w : Writing)
    → IsOwned index (index ∷ []) w.tx
    → IsSettled (hand_over r encode input w)
unfolding hand_over
hand_over-IsSettled index r encode input w v = record {
  same_index = refl;
  owned = later.owned;
  once = later.once;
  index_valid = mod-lt _ (omega (arith, later.index_valid));
}
  where
    later :
        IsOwned index []
          (happen r.transmitting (record w.tx { in_flight = w.tx.block_index ∷ w.tx.in_flight }))
    later = happen-IsOwned index [] r.transmitting _ (submitted-IsOwned index w.tx v)

retried-IsOwned :
    (index : ℕ) (r : Round) (observed : ℕ) (stop : Bool) (t : Tx)
    → IsOwned index [] t
    → IsOwned index [] (if stop then t else wait (has_progress observed) r.retrying t)
retried-IsOwned index r observed true t v = v
retried-IsOwned index r observed false t v =
    wait-IsOwned index [] (has_progress observed) r.retrying t v

decided-IsSettled :
    (index : ℕ) (a b : Bool) (w : Writing)
    → IsOwned index [] w.tx
    → IsSettled (if a then partial stream_error w else if b then partial timeout w else repeats w)
decided-IsSettled index true b w v = settled index w.tx v
decided-IsSettled index false true w v = settled index w.tx v
decided-IsSettled index false false w v = settled index w.tx v

retry-IsSettled :
    (index : ℕ) (r : Round) (observed : ℕ) (w : Writing)
    → IsOwned index [] w.tx
    → IsSettled (retry r observed w)
unfolding retry
retry-IsSettled index r observed w v =
    decided-IsSettled index waited.writes_stopping (r.expired || not (has_progress observed waited))
      (record w { tx = waited })
      (retried-IsOwned index r observed (w.tx.writes_stopping || r.expired) w.tx v)
  where
    waited : Tx
    waited =
        if w.tx.writes_stopping || r.expired
        then w.tx
        else wait (has_progress observed) r.retrying w.tx

submit-IsSettled :
    (index : ℕ) (r : Round) (encode : List ℕ → List ℕ) (input : List ℕ) (observed : ℕ)
    (o : Submission) (w : Writing)
    → IsOwned index (index ∷ []) w.tx
    → IsSettled (submit r encode input observed o w)
unfolding submit
submit-IsSettled index r encode input observed accepted w v =
    hand_over-IsSettled index r encode input w v
submit-IsSettled index r encode input observed queue_full w v =
    retry-IsSettled index r observed (take_back r w) (take_back-IsOwned index r w v)
submit-IsSettled index r encode input observed failed w v =
    settled index _ (take_back-IsOwned index r w v)
submit-IsSettled index r encode input observed thrown w v =
    settled index _ (take_back-IsOwned index r w v)

turned-IsSettled :
    (r : Round) (encode : List ℕ → List ℕ) (input : List ℕ) (w : Writing) (t : Tx)
    → IsOwned w.tx.block_index [] t
    → IsSettled (
        let w' = record w { tx = t } in
        if not (may_write t)
        then partial timeout w'
        else if t.writes_stopping
        then partial stream_error w'
        else submit r encode input t.completion.completed r.submission (record w { tx = mark 1 t }))
turned-IsSettled r encode input w t v =
    decided t.writes_stopping (slot_at t.block_index t.completion.slots == 0) refl
  where
    decided :
        (stops free : Bool)
        → (slot_at t.block_index t.completion.slots == 0) ≡ free
        → IsSettled (
            let w' = record w { tx = t } in
            if not (stops || free)
            then partial timeout w'
            else if stops
            then partial stream_error w'
            else submit r encode input t.completion.completed r.submission
                (record w { tx = mark 1 t }))
    decided true free e = settled _ t v
    decided false false e = settled _ t v
    decided false true e =
        submit-IsSettled w.tx.block_index r encode input t.completion.completed r.submission
          (record w { tx = mark 1 t })
          (reserve-IsOwned w.tx.block_index t
            ((==_iff (slot_at t.block_index t.completion.slots) 0).0 e) v)

pub turn-IsSettled :
    (r : Round) (encode : List ℕ → List ℕ) (input : List ℕ) (w : Writing)
    → IsOwned w.tx.block_index [] w.tx
    → IsSettled (turn r encode input w)
unfolding turn
turn-IsSettled r encode input w v =
    turned-IsSettled r encode input w _
      (wait-IsOwned w.tx.block_index [] may_write r.waiting w.tx v)
