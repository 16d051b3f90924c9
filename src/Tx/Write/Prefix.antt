-- ===== src/Tx/Write/Prefix.antt =====
-- The hardware accepts a prefix of the caller's buffer, and the caller is told how much.
use soapy_sidekiq.Base.{
  ℕ, ◌+◌, ◌*◌, ◌/◌, ◌≤◌, ◌≡◌, refl, ap, sym, ◌∙◌, Bool, true, false, not, arith, List, [], ◌++◌,
  take, if◌then◌else◌, Option, none, some,
}
use soapy_sidekiq.Base.Int.{ℤ, pos, eqb_ℤ, ltb_ℤ}
use soapy_sidekiq.Tx.{Tx, Written, wrote, timeout, stream_error, not_supported, Event, wait}
use soapy_sidekiq.Tx.Write.{
  Round, Writing, write_blocks, may_start, nothing, closed, write_open, write_stream, StreamHandle,
}
use soapy_sidekiq.Tx.Write.Accepted.{count_of, block_size-wait, HasPrefix, write_blocks-HasPrefix}

abbrev pub contents : Option (List ℕ) → List ℕ
contents none = []
contents (some input) = input

-- What a call has handed to the hardware.
pub record Reports (encode : List ℕ → List ℕ) (buffer : Option (List ℕ)) (num_elems : ℕ)
    (result : Written) (w : Writing) : Type 0 where
  pub sent_prefix : w.sent ≡ encode (take (count_of result) (contents buffer))
  pub within_request : count_of result ≤ num_elems

unfoldable pub Reported :
    (List ℕ → List ℕ) → Option (List ℕ) → ℕ → Option (Written × Writing) → Type 0
Reported encode buffer num_elems none = Unit
Reported encode buffer num_elems (some (result, w)) = Reports encode buffer num_elems result w

if-Reported :
    (encode : List ℕ → List ℕ) (buffer : Option (List ℕ)) (num_elems : ℕ)
    (x y : Option (Written × Writing)) (b : Bool)
    → Reported encode buffer num_elems x
    → Reported encode buffer num_elems y
    → Reported encode buffer num_elems (if b then x else y)
if-Reported encode buffer num_elems x y true v w = v
if-Reported encode buffer num_elems x y false v w = w

nothing-Reported :
    (encode : List ℕ → List ℕ)
    → encode [] ≡ []
    → (buffer : Option (List ℕ)) (num_elems : ℕ) (t : Tx) (result : Written) → count_of result ≡ 0
    → Reported encode buffer num_elems (nothing result t)
unfolding Reported
nothing-Reported encode empty buffer num_elems t result z = record {
  sent_prefix = rw z (sym empty);
  within_request = omega (arith, z);
}

closed-Reported :
    (encode : List ℕ → List ℕ) (buffer : Option (List ℕ)) (num_elems : ℕ)
    (o : Option (Written × Writing))
    → Reported encode buffer num_elems o
    → Reported encode buffer num_elems (closed o)
unfolding Reported
closed-Reported encode buffer num_elems none v = tt
closed-Reported encode buffer num_elems (some (result, w)) v = record {
  sent_prefix = v.sent_prefix;
  within_request = v.within_request;
}

share : {num_elems k : ℕ} (size : ℕ) → k ≤ num_elems / size → k * size ≤ num_elems
share {num_elems} {k} size h = grind arith

HasPrefix-Reported :
    (encode : List ℕ → List ℕ)
    (append : (xs ys : List ℕ) → encode (xs ++ ys) ≡ encode xs ++ encode ys) (input : List ℕ)
    (size num_elems : ℕ) (o : Option (Written × Writing))
    → HasPrefix encode append input size (num_elems / size) o
    → Reported encode (some input) num_elems o
unfolding Reported
HasPrefix-Reported encode append input size num_elems none v = tt
HasPrefix-Reported encode append input size num_elems (some (result, w)) (v, c) = record {
  sent_prefix = rw c v.prefix;
  within_request = omega (arith, c, share size v.in_range);
}

write_open-Reported :
    (encode : List ℕ → List ℕ)
    → encode [] ≡ []
    → ((xs ys : List ℕ) → encode (xs ++ ys) ≡ encode xs ++ encode ys)
    → (pps : List Event) (rounds : List Round) (buffer : Option (List ℕ)) (num_elems : ℕ) (t : Tx)
    → Reported encode buffer num_elems (write_open pps rounds encode buffer num_elems t)
unfolding write_open
write_open-Reported encode empty append pps rounds none num_elems t = refused _ _
  where
    refused :
        (a b : Bool)
        → Reported encode none num_elems (
            if a
            then nothing stream_error t
            else if b
            then nothing (wrote 0) t
            else nothing stream_error t)
    refused a b =
        if-Reported encode none num_elems _ _ a
          (nothing-Reported encode empty none num_elems t stream_error refl)
          (if-Reported encode none num_elems _ _ b
            (nothing-Reported encode empty none num_elems t (wrote 0) refl)
            (nothing-Reported encode empty none num_elems t stream_error refl))
write_open-Reported encode empty append pps rounds (some input) num_elems t =
    opened _ _ _ _ (if t.first_transmit then wait may_start pps t else t) (gated t.first_transmit)
  where
    none_sent :
        (u : Tx) (result : Written)
        → count_of result ≡ 0
        → Reported encode (some input) num_elems (nothing result u)
    none_sent u = nothing-Reported encode empty (some input) num_elems u

    gated : (first : Bool) → (if first then wait may_start pps t else t).block_size ≡ t.block_size
    gated true = block_size-wait may_start pps t
    gated false = refl

    first : Tx → Writing
    first u = record { curr_block = 0; sent = []; tx = record u { first_transmit = false } }

    opened :
        (a b c d : Bool) (u : Tx)
        → u.block_size ≡ t.block_size
        → Reported encode (some input) num_elems (
            if a
            then nothing stream_error t
            else if b
            then nothing (wrote 0) t
            else if c
            then nothing timeout u
            else if d
            then nothing stream_error u
            else write_blocks rounds encode input (num_elems / t.block_size) (first u))
    opened a b c d u e =
        if-Reported encode (some input) num_elems _ _ a (none_sent t stream_error refl) (
          if-Reported encode (some input) num_elems _ _ b (none_sent t (wrote 0) refl) (
            if-Reported encode (some input) num_elems _ _ c (none_sent u timeout refl) (
              if-Reported encode (some input) num_elems _ _ d (none_sent u stream_error refl) (
                HasPrefix-Reported encode append input t.block_size num_elems _ (
                  write_blocks-HasPrefix encode append input t.block_size (num_elems / t.block_size)
                    rounds (first u)
                    (record {
                      same_size = e;
                      in_range = omega arith;
                      prefix =
                          sym empty
                          ∙ ap (λ (k : ℕ). encode (take k input)) {x = 0} {y = 0 * t.block_size}
                              (omega arith);
                    }))))))

-- `writeStream` with any handle and arguments, whatever happens while it waits and in the SDK: when it
-- returns, the hardware has accepted exactly as many samples from the front of the buffer as the result
-- counts, none if it is an error, and no more than asked for. So a caller that retries the rest neither
-- loses nor repeats a sample. The conversion of the samples is any one that treats them one by one.
pub write_stream_prefix :
    (encode : List ℕ → List ℕ)
    → encode [] ≡ []
    → ((xs ys : List ℕ) → encode (xs ++ ys) ≡ encode xs ++ encode ys)
    → (handle : Option StreamHandle) (pps : List Event) (rounds : List Round)
      (buffer : Option (List ℕ)) (num_elems : ℕ) (flags timeout_us : ℤ) (t : Tx)
    → Reported encode buffer num_elems
        (write_stream handle pps rounds encode buffer num_elems flags timeout_us t)
unfolding write_stream
write_stream_prefix encode empty append handle pps rounds buffer num_elems flags timeout_us t =
    handled handle
  where
    open_call :
        (u : Tx)
        → Reported encode buffer num_elems
            (closed (write_open pps rounds encode buffer num_elems u))
    open_call u =
        closed-Reported encode buffer num_elems _
          (write_open-Reported encode empty append pps rounds buffer num_elems u)

    none_sent :
        (result : Written)
        → count_of result ≡ 0
        → Reported encode buffer num_elems (nothing result t)
    none_sent = nothing-Reported encode empty buffer num_elems t

    allowed :
        (a b c d e : Bool)
        → Reported encode buffer num_elems (
            if not a
            then nothing not_supported t
            else if not b
            then nothing stream_error t
            else if not c
            then nothing not_supported t
            else if d
            then nothing stream_error t
            else if e
            then nothing stream_error t
            else closed (
                write_open pps rounds encode buffer num_elems
                  (record t { active_writers = t.active_writers + 1 })))
    allowed a b c d e =
        if-Reported encode buffer num_elems _ _ (not a) (none_sent not_supported refl) (
          if-Reported encode buffer num_elems _ _ (not b) (none_sent stream_error refl) (
            if-Reported encode buffer num_elems _ _ (not c) (none_sent not_supported refl) (
              if-Reported encode buffer num_elems _ _ d (none_sent stream_error refl) (
                if-Reported encode buffer num_elems _ _ e (none_sent stream_error refl)
                  (open_call (record t { active_writers = t.active_writers + 1 }))))))

    handled :
        (h : Option StreamHandle)
        → Reported encode buffer num_elems
            (write_stream h pps rounds encode buffer num_elems flags timeout_us t)
    handled none = none_sent stream_error refl
    handled (some h) =
        allowed h.is_tx h.is_active (eqb_ℤ flags (pos 0)) (ltb_ℤ timeout_us (pos 0))
          t.writes_stopping
