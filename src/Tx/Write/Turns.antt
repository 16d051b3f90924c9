-- ===== src/Tx/Write/Turns.antt =====
-- How a turn of a write goes on.
use soapy_sidekiq.Base.{
  ℕ, ◌+◌, ◌≡◌, refl, zero, suc, ◌&&◌, inl, inr, Bool, true, false, not, ◌||◌, Bool-cases, arith,
  List, [], ◌∷◌, if◌then◌else◌,
}
use soapy_sidekiq.Tx.{Tx, timeout, stream_error, Event, happen, wait}
use soapy_sidekiq.Tx.Write.{
  Submission, accepted, queue_full, failed, thrown, Round, Writing, Turn, returns, repeats, partial,
  mark, hand_over, take_back, retry, submit, turn, has_progress, may_write,
}

abbrev pub is_nil : List Event → Bool
is_nil [] = true
is_nil (e ∷ es) = false

-- No other thread does anything while the writer waits, or the deadline has passed.
abbrev pub is_stalled : Round → Bool
is_stalled r = r.expired || (is_nil r.transmitting && is_nil r.retrying)

-- A turn with this answer of the SDK ends a block, is to be repeated, or ends the call.
abbrev pub by_answer : Submission → Bool → Bool → Bool
by_answer accepted next again = next
by_answer queue_full next again = again
by_answer failed next again = true
by_answer thrown next again = true

-- Turns that are enough for `n` blocks: one for each accepted block, up to a turn that fails or stalls.
abbrev pub are_enough : ℕ → List Round → Bool
are_enough zero rs = true
are_enough (suc n) [] = false
are_enough (suc n) (r ∷ rs) =
    by_answer r.submission (are_enough n rs) (is_stalled r || are_enough (suc n) rs)

-- What a turn that does not end the call has done.
abbrev pub Repeats : Bool → Submission → ℕ → Writing → Type 0
Repeats stalled accepted curr w = w.curr_block ≡ curr + 1
Repeats stalled queue_full curr w = (w.curr_block ≡ curr) × (stalled ≡ false)
Repeats stalled failed curr w = ⊥
Repeats stalled thrown curr w = ⊥

abbrev pub Turns : Bool → Submission → ℕ → Turn → Type 0
Turns stalled o curr (returns result w) = Unit
Turns stalled o curr (repeats w) = Repeats stalled o curr w

-- Without events a wait changes nothing.
completed_of :
    (b : Bool) (p : Tx → Bool) (xs ys : List Event) (t : Tx)
    → (is_nil xs && is_nil ys) ≡ true
    → (if b then mark 0 (happen xs t) else wait p ys (mark 0 (happen xs t))).completion.completed
      ≡ t.completion.completed
unfolding happen
completed_of true p [] [] t h = refl
completed_of false p [] [] t h = still (p (mark 0 t))
  where
    still :
        (c : Bool)
        → (if c then mark 0 t else happen [] (mark 0 t)).completion.completed
          ≡ t.completion.completed
    still true = refl
    still false = refl
completed_of b p [] (y ∷ ys) t h = cc h
completed_of b p (x ∷ xs) ys t h = cc h

retry-Turns :
    (r : Round) (w : Writing)
    → Turns
        (is_stalled r)
        queue_full
        w.curr_block
        (retry r w.tx.completion.completed (take_back r w))
unfolding retry take_back
retry-Turns r w =
    decided waited.writes_stopping (r.expired || not (has_progress observed waited)) refl refl
  where
    observed : ℕ
    observed = w.tx.completion.completed

    back : Tx
    back = mark 0 (happen r.transmitting w.tx)

    waited : Tx
    waited =
        if back.writes_stopping || r.expired
        then back
        else wait (has_progress observed) r.retrying back

    w' : Writing
    w' = record w { tx = waited }

    not_stalled :
        (r.expired || not (has_progress observed waited)) ≡ false
        → waited.writes_stopping ≡ false
        → is_stalled r ≡ false
    not_stalled h k = elim (Bool-cases (is_nil r.transmitting && is_nil r.retrying)) [
      | inr moves ↦ ground (arith, h, moves)
      | inl idle ↦ absurd (
          ground (
            arith,
            h,
            k,
            completed_of (back.writes_stopping || r.expired) (has_progress observed) r.transmitting
                r.retrying w.tx idle,
          ))
    ]

    decided :
        (a b : Bool)
        → waited.writes_stopping ≡ a
        → (r.expired || not (has_progress observed waited)) ≡ b
        → Turns
            (is_stalled r)
            queue_full
            w.curr_block
            (if a then partial stream_error w' else if b then partial timeout w' else repeats w')
    decided true b k h = tt
    decided false true k h = tt
    decided false false k h = (refl, not_stalled h k)

submit-Turns :
    (r : Round) (encode : List ℕ → List ℕ) (input : List ℕ) (o : Submission) (w : Writing)
    → Turns (is_stalled r) o w.curr_block (submit r encode input w.tx.completion.completed o w)
unfolding submit hand_over
submit-Turns r encode input accepted w = refl
submit-Turns r encode input queue_full w = retry-Turns r w
submit-Turns r encode input failed w = tt
submit-Turns r encode input thrown w = tt

pub turn-Turns :
    (r : Round) (encode : List ℕ → List ℕ) (input : List ℕ) (w : Writing)
    → Turns (is_stalled r) r.submission w.curr_block (turn r encode input w)
unfolding turn
turn-Turns r encode input w = decided (not (may_write t)) t.writes_stopping
  where
    t : Tx
    t = wait may_write r.waiting w.tx

    w' : Writing
    w' = record w { tx = t }

    decided :
        (a b : Bool)
        → Turns (is_stalled r) r.submission w.curr_block (
            if a
            then partial timeout w'
            else if b
            then partial stream_error w'
            else submit r encode input t.completion.completed r.submission
                (record w { tx = mark 1 t }))
    decided true b = tt
    decided false true = tt
    decided false false = submit-Turns r encode input r.submission (record w { tx = mark 1 t })
