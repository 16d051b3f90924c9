-- ===== src/RxQueue/Reading/Fifo.antt =====
-- A read takes exactly the oldest unread samples.
use Prim.Native.Nat.{min}
use soapy_sidekiq.Base.{
  ℕ, zero, suc, ◌+◌, ◌-◌, ◌*◌, ◌/◌, ◌≤◌, ◌<◌, ◌≡◌, List, [], ◌∷◌, ◌++◌, length, take, drop, arith,
  append_assoc, append-nil, refl, ap, sym, ◌∙◌, true, some, inl, inr, Bool-cases, ltb, ltb→lt,
  ltb→le, ◌⊎◌, take-nil, drop-nil, ◌==◌, ==_iff, length-drop, length-append, if◌then◌else◌,
  take-add, drop_all, take-append_le, drop-append_le, drop-drop,
}
use mathlib.Core.Path.{subst}
use soapy_sidekiq.Base.Words.{IsU64, add64_exact, sub64_exact, mul64_exact}
use soapy_sidekiq.RxQueue.{Block}
use soapy_sidekiq.RxQueue.Blocks.{IsBlock, AreBlocks, unread, pending}
use soapy_sidekiq.RxQueue.Reading.{Copy, copy_round, copy_loop, copy_blocks}

-- What a copy of `k` more pairs makes of `c`.
pub record Copied (k : ℕ) (c d : Copy) : Type 0 where
  pub output : d.output ≡ c.output ++ take (2 * k) (pending c.blocks)
  pub rest : pending d.blocks ≡ drop (2 * k) (pending c.blocks)
  pub count : d.samples ≡ c.samples + min k (length (pending c.blocks) / 2)
  pub valid : AreBlocks d.blocks
  pub shorter : length d.blocks ≤ length c.blocks

length-unread : (b : Block) → IsBlock b → length (unread b) ≡ 2 * (length b.samples / 2 - b.offset)
length-unread b v = omega (arith, length-drop (b.offset * 2) b.samples)

-- Copying `n` pairs and then `k - n` more is copying `k`.
Copied-trans :
    (n k : ℕ) (c d e : Copy)
    → n ≤ k
    → 2 * n ≤ length (pending c.blocks)
    → Copied n c d
    → Copied (k - n) d e
    → Copied k c e
Copied-trans n k c d e h fits v w = record {
  output =
      w.output
      ∙ rw (v.output, v.rest, append_assoc, ← take-add (2 * n) (2 * (k - n)) (pending c.blocks))
          (ap (λ (m : ℕ). c.output ++ take m (pending c.blocks)) (omega arith));
  rest =
      w.rest
      ∙ rw (v.rest, drop-drop (2 * (k - n)) (2 * n) (pending c.blocks))
          (ap (λ (m : ℕ). drop m (pending c.blocks)) (omega arith));
  count = omega (arith, v.count, w.count, ap length v.rest, length-drop (2 * n) (pending c.blocks));
  valid = w.valid;
  shorter = omega (arith, v.shorter, w.shorter);
}

-- A block with `n` more pairs consumed, if any are left.
advance_block : ℕ → Block → List Block → List Block
advance_block n b bs =
    if b.offset + n == length b.samples / 2 then bs else record b { offset = b.offset + n } ∷ bs

length-advance_block :
    (n : ℕ) (b : Block) (bs : List Block) → length (advance_block n b bs) ≤ length bs + 1
unfolding advance_block
length-advance_block n b bs = ground arith

pending-advance_block :
    (n : ℕ) (b : Block) (bs : List Block)
    → IsBlock b
    → n ≤ length b.samples / 2 - b.offset
    → pending (advance_block n b bs) ≡ drop (2 * n) (unread b ++ pending bs)
unfolding advance_block
pending-advance_block n b bs v h =
    rw
      (
        drop-append_le (2 * n) (unread b) (pending bs) (omega (arith, length-unread b v)),
        drop-drop (2 * n) (b.offset * 2) b.samples,
      )
      (elim (Bool-cases (b.offset + n == length b.samples / 2)) [
        | inl t ↦
            rw
              (
                t,
                drop_all (b.offset * 2 + 2 * n) b.samples
                    (omega (arith, v.pairs, (==_iff _ _).0 t)),
              )
              refl
        | inr f ↦ rw f (ap (λ (m : ℕ). drop m b.samples ++ pending bs) (omega arith))
      ])

advance_block-AreBlocks :
    (n : ℕ) (b : Block) (bs : List Block)
    → IsBlock b
    → AreBlocks bs
    → n ≤ length b.samples / 2 - b.offset
    → AreBlocks (advance_block n b bs)
unfolding advance_block
advance_block-AreBlocks n b bs v w h = elim (Bool-cases (b.offset + n == length b.samples / 2)) [
  | inl t ↦ rw t w
  | inr f ↦ rw f (record { pairs = v.pairs; unread_pair = ground arith; word = v.word }, w)
]

-- One round that consumes `n` pairs of the front block.
abbrev after_round : ℕ → List ℕ → ℕ → Block → List Block → Copy
after_round n out count b bs = record {
  output = out ++ take (n * 2) (unread b);
  samples = count + n;
  blocks = advance_block n b bs;
}

abbrev before_round : List ℕ → ℕ → Block → List Block → Copy
before_round out count b bs = record { output = out; samples = count; blocks = b ∷ bs }

after_round-Copied :
    (n : ℕ) (out : List ℕ) (count : ℕ) (b : Block) (bs : List Block)
    → IsBlock b
    → AreBlocks bs
    → n ≤ length b.samples / 2 - b.offset
    → Copied n (before_round out count b bs) (after_round n out count b bs)
after_round-Copied n out count b bs v w h = record {
  output =
      rw (take-append_le (2 * n) (unread b) (pending bs) (omega (arith, length-unread b v)))
        (ap (λ (m : ℕ). out ++ take m (unread b)) (omega arith));
  rest = pending-advance_block n b bs v h;
  count = omega (arith, length-append (unread b) (pending bs), length-unread b v);
  valid = advance_block-AreBlocks n b bs v w h;
  shorter = omega (arith, length-advance_block n b bs);
}

abbrev step : ℕ → Block → ℕ → ℕ
step requested b count = min (length b.samples / 2 - b.offset) (requested - count)

module _ (requested : ℕ) (b : Block) (bs : List Block) (out : List ℕ) (count : ℕ) where
  copy_round_exact :
      IsBlock b
      → IsU64 requested
      → count < requested
      → copy_round requested b bs (before_round out count b bs)
        ≡ after_round (step requested b count) out count b bs
  unfolding copy_round advance_block
  copy_round_exact v hr hc = rw (
    sub64_exact (length b.samples / 2) b.offset (omega arith) (omega arith),
    sub64_exact requested count (omega arith) hr,
    mul64_exact b.offset 2 (omega arith),
    mul64_exact (step requested b count) 2 (omega arith),
    add64_exact b.offset (step requested b count) (omega arith),
    add64_exact count (step requested b count) (omega arith),
  )

  after_round_shrinks :
      IsBlock b
      → count < requested
      → length (advance_block (step requested b count) b bs)
          + min (requested - (count + step requested b count)) 1
        < length bs + 2
  unfolding advance_block
  after_round_shrinks v hc = ground arith

-- A copy that stops at once: there is nothing to take, or nothing is asked for.
stopped-Copied :
    (k : ℕ) (c : Copy) → AreBlocks c.blocks → (k ≡ 0) ⊎ (pending c.blocks ≡ []) → Copied k c c
stopped-Copied zero c v h = record {
  output = sym (append-nil c.output);
  rest = refl;
  count = omega arith;
  valid = v;
  shorter = omega arith;
}
stopped-Copied (suc k) c v (inl e) = absurd (omega arith)
stopped-Copied (suc k) c v (inr e) = record {
  output = rw (e, take-nil ℕ _) (sym (append-nil c.output));
  rest = rw (e, drop-nil ℕ _);
  count = omega (arith, ap length e);
  valid = v;
  shorter = omega arith;
}

-- The loop ends, and has copied what was asked for or all there was.
copy_loop-Copied :
    (fuel requested : ℕ) (out : List ℕ) (count : ℕ) (bs : List Block)
    → AreBlocks bs
    → IsU64 requested
    → count ≤ requested
    → length bs + min (requested - count) 1 < fuel
    → let c : Copy = record { output = out; samples = count; blocks = bs } in
      (d : Copy) × (copy_loop fuel requested c ≡ some d) × Copied (requested - count) c d
unfolding copy_loop
copy_loop-Copied zero requested out count bs v hr hc hf = absurd (omega arith)
copy_loop-Copied (suc fuel) requested out count [] v hr hc hf = (
  record { output = out; samples = count; blocks = [] },
  ground arith,
  stopped-Copied (requested - count) _ tt (inr refl),
)
copy_loop-Copied (suc fuel) requested out count (b ∷ bs) v hr hc hf =
    elim (Bool-cases (ltb count requested)) [
      | inl t ↦ continue t (
          copy_loop-Copied fuel requested (out ++ take (n * 2) (unread b)) (count + n)
            (advance_block n b bs) (advance_block-AreBlocks n b bs v.0 v.1 (omega arith)) hr
            (omega (arith, ltb→lt _ _ t))
            (omega (
              arith,
              ltb→lt _ _ t,
              after_round_shrinks requested b bs out count v.0 (ltb→lt _ _ t),
            )))
      | inr f ↦ (
        before_round out count b bs,
        rw f,
        stopped-Copied (requested - count) _ v (inl (omega (arith, ltb→le _ _ f))),
      )
    ]
  where
    n : ℕ
    n = step requested b count

    continue :
        ltb count requested ≡ true
        → (d : Copy) × (copy_loop fuel requested (after_round n out count b bs) ≡ some d)
          × Copied (requested - (count + n)) (after_round n out count b bs) d
        → (d : Copy) × (copy_loop (suc fuel) requested (before_round out count b bs) ≡ some d)
          × Copied (requested - count) (before_round out count b bs) d
    continue t (d, e, c) = (
      d,
      rw (t, copy_round_exact requested b bs out count v.0 hr (ltb→lt _ _ t)) e,
      Copied-trans n (requested - count) _ _ d (omega arith)
          (omega (arith, length-append (unread b) (pending bs), length-unread b v.0))
          (after_round-Copied n out count b bs v.0 v.1 (omega arith))
          (subst (λ m. Copied m (after_round n out count b bs) d) (omega arith) c),
    )

-- The fuel of `copy_blocks` is enough.
pub copy_blocks-Copied :
    (requested : ℕ) (bs : List Block)
    → AreBlocks bs
    → IsU64 requested
    → (d : Copy) × (copy_blocks requested bs ≡ some d)
      × Copied requested (record { output = []; samples = 0; blocks = bs }) d
unfolding copy_blocks
copy_blocks-Copied requested bs v hr =
    subst
      (λ k. (d : Copy) × (copy_loop (length bs + 2) requested start ≡ some d) × Copied k start d)
      (omega arith)
      (copy_loop-Copied (length bs + 2) requested [] 0 bs v hr (omega arith) (omega arith))
  where
    start : Copy
    start = record { output = []; samples = 0; blocks = bs }
