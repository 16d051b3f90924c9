-- ===== src/Tx/Slots.antt =====
-- Which buffers are with the hardware.
use soapy_sidekiq.Base.{
  ℕ, zero, suc, ◌+◌, ◌≤◌, ◌<◌, ◌≡◌, refl, ap, ◌∙◌, ◌==◌, inl, inr, Bool, Bool-cases, arith, List,
  [], ◌∷◌, length, if◌then◌else◌, Option, none, some, ltb, ltb→lt, ltb→le, ok, throw,
}
use soapy_sidekiq.Tx.{
  Tx, slot_at, set_slot, nth, remove_at, complete_tx, called_back, Event, calls_back,
  starts_streaming, stops_writes, happens, happen, wait, streaming_start,
}

-- How often `k` is in a list of buffers.
unfoldable pub occurs : ℕ → List ℕ → ℕ
occurs k [] = 0
occurs k (v ∷ vs) = (if v == k then 1 else 0) + occurs k vs

pub length-set_slot : (i x : ℕ) (vs : List ℕ) → length (set_slot i x vs) ≡ length vs
unfolding set_slot
length-set_slot i x [] = refl
length-set_slot zero x (v ∷ vs) = refl
length-set_slot (suc i) x (v ∷ vs) = omega (arith, length-set_slot i x vs)

pub slot_at-set_slot :
    (k i x : ℕ) (vs : List ℕ)
    → i < length vs
    → slot_at k (set_slot i x vs) ≡ (if i == k then x else slot_at k vs)
unfolding slot_at set_slot
slot_at-set_slot k i x [] h = omega (arith, h)
slot_at-set_slot zero zero x (v ∷ vs) h = refl
slot_at-set_slot (suc k) zero x (v ∷ vs) h = ground arith
slot_at-set_slot zero (suc i) x (v ∷ vs) h = ground arith
slot_at-set_slot (suc k) (suc i) x (v ∷ vs) h =
    ground (arith, slot_at-set_slot k i x vs (omega (arith, h)))

pub slot_at_out : (k : ℕ) (vs : List ℕ) → length vs ≤ k → slot_at k vs ≡ 0
unfolding slot_at
slot_at_out k [] h = refl
slot_at_out zero (v ∷ vs) h = omega (arith, h)
slot_at_out (suc k) (v ∷ vs) h = slot_at_out k vs (omega (arith, h))

pub occurs-remove_at :
    (k i v : ℕ) (vs : List ℕ)
    → nth i vs ≡ some v
    → occurs k vs ≡ (if v == k then 1 else 0) + occurs k (remove_at i vs)
unfolding occurs nth remove_at
occurs-remove_at k i v [] e = cc e
occurs-remove_at k zero v (w ∷ vs) e = rw same refl
  where
    same : w ≡ v
    same = cc e
occurs-remove_at k (suc i) v (w ∷ vs) e = omega (arith, occurs-remove_at k i v vs e)

-- The buffers marked in `slots` are, each once, those with the hardware and the one that the writer has
-- reserved.
pub record IsOwned (index : ℕ) (reserved : List ℕ) (t : Tx) : Type 0 where
  pub same_index : t.block_index ≡ index
  pub owned : (k : ℕ) → slot_at k t.completion.slots ≡ occurs k reserved + occurs k t.in_flight
  pub once : (k : ℕ) → slot_at k t.completion.slots ≤ 1
  pub index_valid : t.block_index < length t.completion.slots

-- A completion of a buffer that the hardware has.
complete_tx-IsOwned :
    (own : ℕ) (reserved rest : List ℕ) (index : ℕ) (t : Tx)
    → t.block_index ≡ own
    → ((k : ℕ)
        → slot_at k t.completion.slots
          ≡ occurs k reserved + ((if index == k then 1 else 0) + occurs k rest))
    → ((k : ℕ) → slot_at k t.completion.slots ≤ 1)
    → t.block_index < length t.completion.slots
    → IsOwned own reserved (complete_tx index (record t { in_flight = rest }))
unfolding complete_tx
complete_tx-IsOwned own reserved rest index t i o n h =
    elim (Bool-cases (ltb index (length t.completion.slots))) [
      | inl fits ↦ rw fits (record {
        same_index = i;
        owned = freed (ltb→lt index _ fits);
        once = λ k. omega (arith, freed (ltb→lt index _ fits) k, o k, n k);
        index_valid = omega (arith, h, length-set_slot index 0 t.completion.slots);
      })
      | inr out ↦
          absurd (
            omega (arith, o index, slot_at_out index t.completion.slots (ltb→le index _ out), self))
    ]
  where
    self : ◌≡◌ {A = ℕ} (if index == index then 1 else 0) 1
    self = ground arith

    freed :
        index < length t.completion.slots
        → (k : ℕ)
        → slot_at k (set_slot index 0 t.completion.slots) ≡ occurs k reserved + occurs k rest
    freed fits k = slot_at-set_slot k index 0 t.completion.slots fits ∙ ground (arith, o k, n k)

-- Nothing that other threads do breaks the ownership.
happens-IsOwned :
    (own : ℕ) (reserved : List ℕ) (e : Event) (t : Tx)
    → IsOwned own reserved t
    → IsOwned own reserved (happens e t)
unfolding happens streaming_start
happens-IsOwned own reserved (calls_back i) t v = at (nth i t.in_flight) refl
  where
    at : (c : Option ℕ) → nth i t.in_flight ≡ c → IsOwned own reserved (called_back i c t)
    at none e = v
    at (some index) e =
        complete_tx-IsOwned own reserved (remove_at i t.in_flight) index t v.same_index
          (λ k.
            v.owned k
            ∙ ap (λ (n : ℕ). occurs k reserved + n) (occurs-remove_at k i index t.in_flight e))
          v.once v.index_valid
happens-IsOwned own reserved (starts_streaming e (ok status)) t v = record {
  same_index = v.same_index;
  owned = v.owned;
  once = v.once;
  index_valid = v.index_valid;
}
happens-IsOwned own reserved (starts_streaming e (throw x)) t v = record {
  same_index = v.same_index;
  owned = v.owned;
  once = v.once;
  index_valid = v.index_valid;
}
happens-IsOwned own reserved stops_writes t v = record {
  same_index = v.same_index;
  owned = v.owned;
  once = v.once;
  index_valid = v.index_valid;
}

pub happen-IsOwned :
    (own : ℕ) (reserved : List ℕ) (es : List Event) (t : Tx)
    → IsOwned own reserved t
    → IsOwned own reserved (happen es t)
unfolding happen
happen-IsOwned own reserved [] t v = v
happen-IsOwned own reserved (e ∷ es) t v =
    happen-IsOwned own reserved es (happens e t) (happens-IsOwned own reserved e t v)

pub wait-IsOwned :
    (own : ℕ) (reserved : List ℕ) (ready : Tx → Bool) (es : List Event) (t : Tx)
    → IsOwned own reserved t
    → IsOwned own reserved (wait ready es t)
wait-IsOwned own reserved ready es t v = elim (Bool-cases (ready t)) [
  | inl h ↦ rw h v
  | inr h ↦ rw h (happen-IsOwned own reserved es t v)
]
