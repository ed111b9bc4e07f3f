-- ===== src/Stock/Plan.antt =====
-- What a FIFO plan is, against the loop of `planFifoConsumption`.
use mrcoin.Base.{
  ◌≡◌, ◌↔◌, refl, ap, inl, inr, true, false, List, [], ◌∷◌, none, some, All, arith, Bool-cases,
}
use mrcoin.Base.Int.{
  ℤ, pos, ◌+ℤ◌, ◌-ℤ◌, ◌≤ℤ◌, ◌<ℤ◌, pos_part, neg_part, min_ℤ, leb_ℤ, +ℤ_parts, -ℤ_parts, eq_of_parts,
  int_laws,
}
use mrcoin.Db.{CoinBatch}
use mrcoin.Stock.{BatchConsumptionStep, plan_loop, plan_fifo_consumption, total_available}

abbrev pub planned : List BatchConsumptionStep → ℤ
planned [] = pos 0
planned (s ∷ r) = s.amount +ℤ planned r

-- Every candidate has coins left, as the query has it.
abbrev pub AllStocked : List CoinBatch → Type 0
AllStocked = All (λ b. pos 0 <ℤ b.remaining_coins)

-- A step takes something, and no more than the batch has.
abbrev pub IsWithin : BatchConsumptionStep → Type 0
IsWithin s = (pos 0 <ℤ s.amount) × (s.amount ≤ℤ s.batch.remaining_coins)

-- The plan takes the candidates in order, from the first on, and only its last step may leave coins
-- in a batch.
abbrev pub IsFifo : List BatchConsumptionStep → List CoinBatch → Type 0
IsFifo [] bs = Unit
IsFifo (s ∷ r) [] = ⊥
IsFifo (s ∷ []) (b ∷ bs) = s.batch ≡ b
IsFifo (s ∷ t ∷ r) (b ∷ bs) = (s.batch ≡ b) × (s.amount ≡ b.remaining_coins) × IsFifo (t ∷ r) bs

min_lower : (a b : ℤ) → pos 0 <ℤ a → pos 0 <ℤ b → pos 0 <ℤ min_ℤ a b
unfolding min_ℤ
min_lower a b h k = ground arith

min_left : (a b : ℤ) → min_ℤ a b ≤ℤ a
unfolding min_ℤ
min_left a b = ground arith

min_right : (a b : ℤ) → min_ℤ a b ≤ℤ b
unfolding min_ℤ
min_right a b = ground arith

min_of_le : (a b : ℤ) → leb_ℤ a b ≡ true → min_ℤ a b ≡ a
unfolding min_ℤ
min_of_le a b h = rw h

min_of_gt : (a b : ℤ) → leb_ℤ a b ≡ false → min_ℤ a b ≡ b
unfolding min_ℤ
min_of_gt a b h = rw h

module _ (b : CoinBatch) (bs : List CoinBatch) (n : ℤ) where
  abbrev after_first : ℤ
  after_first = n -ℤ min_ℤ b.remaining_coins n

  loop_done : leb_ℤ n (pos 0) ≡ true → plan_loop (b ∷ bs) n ≡ ([], n)
  unfolding plan_loop
  loop_done h = rw h

  loop_more :
      leb_ℤ n (pos 0) ≡ false
      → plan_loop (b ∷ bs) n ≡ (
        record { batch = b; amount = min_ℤ b.remaining_coins n } ∷ (plan_loop bs after_first).0,
        (plan_loop bs after_first).1,
      )
  unfolding plan_loop
  loop_more h = rw h

-- What the loop plans and what it leaves make up what was asked.
loop_sum : (bs : List CoinBatch) (n : ℤ) → planned (plan_loop bs n).0 +ℤ (plan_loop bs n).1 ≡ n
loop_sum [] n = unfold plan_loop in (omega int_laws)
loop_sum (b ∷ bs) n = elim (Bool-cases (leb_ℤ n (pos 0))) [
  | inl done ↦ rw (loop_done b bs n done) (omega int_laws)
  | inr more ↦
      let ih = loop_sum bs (after_first b bs n) in
      rw (loop_more b bs n more) (omega (int_laws, ap pos_part ih, ap neg_part ih))
]

loop-IsWithin : (bs : List CoinBatch) (n : ℤ) → AllStocked bs → All IsWithin (plan_loop bs n).0
loop-IsWithin [] n h = unfold plan_loop in tt
loop-IsWithin (b ∷ bs) n h = elim (Bool-cases (leb_ℤ n (pos 0))) [
  | inl done ↦ rw (loop_done b bs n done) tt
  | inr more ↦ rw (loop_more b bs n more) (
    (min_lower b.remaining_coins n h.0 (ground arith), min_left b.remaining_coins n),
    loop-IsWithin bs (after_first b bs n) h.1,
  )
]

-- The loop never takes more than is asked.
loop_left : (bs : List CoinBatch) (n : ℤ) → pos 0 ≤ℤ n → pos 0 ≤ℤ (plan_loop bs n).1
loop_left [] n h = unfold plan_loop in h
loop_left (b ∷ bs) n h = elim (Bool-cases (leb_ℤ n (pos 0))) [
  | inl done ↦ rw (loop_done b bs n done) h
  | inr more ↦
      rw (loop_more b bs n more)
        (loop_left bs (after_first b bs n) (omega (int_laws, min_right b.remaining_coins n)))
]

total_nonneg : (bs : List CoinBatch) → AllStocked bs → pos 0 ≤ℤ total_available bs
unfolding total_available
total_nonneg [] h = omega arith
total_nonneg (b ∷ bs) h = omega (int_laws, total_nonneg bs h.1, h.0)

-- What is left is what all the batches together lack.
loop_short :
    (bs : List CoinBatch) (n : ℤ)
    → AllStocked bs
    → pos 0 ≤ℤ n
    → (pos 0 <ℤ (plan_loop bs n).1) ↔ (total_available bs <ℤ n)
unfolding total_available
loop_short [] n h k = unfold plan_loop in (λ x. x, λ x. x)
loop_short (b ∷ bs) n h k = elim (Bool-cases (leb_ℤ n (pos 0))) [
  | inl done ↦
      rw (loop_done b bs n done)
        ((λ x. absurd (ground arith)), (λ x. absurd (ground (arith, total_nonneg (b ∷ bs) h))))
  | inr more ↦ rw (loop_more b bs n more) (elim (Bool-cases (leb_ℤ b.remaining_coins n)) [
    | inl drained ↦
        let m = min_of_le b.remaining_coins n drained in
        let ih =
          loop_short bs (after_first b bs n) h.1
            (omega (int_laws, min_right b.remaining_coins n)) in
        (
          (λ x. omega (int_laws, ih.0 x, ap pos_part m, ap neg_part m)),
          (λ x. ih.1 (omega (int_laws, ap pos_part m, ap neg_part m))),
        )
    | inr enough ↦
        let m = min_of_gt b.remaining_coins n enough in
        let ih =
          loop_short bs (after_first b bs n) h.1
            (omega (int_laws, min_right b.remaining_coins n)) in
        let rest = total_nonneg bs h.1 in
        (
          (λ x. absurd (omega (int_laws, ih.0 x, rest, ap pos_part m, ap neg_part m))),
          (λ x. absurd (ground (arith, +ℤ_parts b.remaining_coins (total_available bs), rest))),
        )
  ])
]

none_left_le :
    (bs : List CoinBatch) (n : ℤ)
    → leb_ℤ (plan_loop bs n).1 (pos 0) ≡ true
    → (plan_loop bs n).1 ≤ℤ pos 0
none_left_le bs n h = ground arith

IsFifo-cons :
    (b : CoinBatch) (bs : List CoinBatch) (n : ℤ) (r : List BatchConsumptionStep)
    → IsFifo r bs
    → ((s : BatchConsumptionStep) (r' : List BatchConsumptionStep)
        → r ≡ s ∷ r'
        → n ≡ b.remaining_coins)
    → IsFifo (record { batch = b; amount = n } ∷ r) (b ∷ bs)
IsFifo-cons b bs n [] f g = refl
IsFifo-cons b bs n (s ∷ r) f g = (refl, g s r refl, f)

-- A loop that plans anything was asked for something.
loop_asked :
    (bs : List CoinBatch) (n : ℤ) (s : BatchConsumptionStep) (r : List BatchConsumptionStep)
    → (plan_loop bs n).0 ≡ s ∷ r
    → leb_ℤ n (pos 0) ≡ false
loop_asked [] n s r h = unfold plan_loop in absurd (ground arith)
loop_asked (b ∷ bs) n s r h = elim (Bool-cases (leb_ℤ n (pos 0))) [
  | inl done ↦ absurd (ground (arith, loop_done b bs n done))
  | inr more ↦ more
]

-- If the loop goes on to the next batch, it has drained this one.
drained_first :
    (b : CoinBatch) (bs : List CoinBatch) (n : ℤ) (s : BatchConsumptionStep)
    (r : List BatchConsumptionStep)
    → (plan_loop bs (after_first b bs n)).0 ≡ s ∷ r
    → min_ℤ b.remaining_coins n ≡ b.remaining_coins
drained_first b bs n s r h = elim (Bool-cases (leb_ℤ b.remaining_coins n)) [
  | inl le ↦ min_of_le b.remaining_coins n le
  | inr gt ↦
      let asked = loop_asked bs (after_first b bs n) s r h in
      absurd (ground (arith, min_of_gt b.remaining_coins n gt, -ℤ_parts n n, asked))
]

-- The plan of a loop follows the candidates.
loop-IsFifo : (bs : List CoinBatch) (n : ℤ) → IsFifo (plan_loop bs n).0 bs
loop-IsFifo [] n = unfold plan_loop in tt
loop-IsFifo (b ∷ bs) n = elim (Bool-cases (leb_ℤ n (pos 0))) [
  | inl done ↦ rw (loop_done b bs n done) tt
  | inr more ↦ rw (loop_more b bs n more) (
      IsFifo-cons b bs (min_ℤ b.remaining_coins n) (plan_loop bs (after_first b bs n)).0
        (loop-IsFifo bs (after_first b bs n)) (drained_first b bs n))
]

-- A plan is found exactly when the candidates together cover the amount.
pub plan_fifo_consumption_iff :
    (bs : List CoinBatch) (n : ℤ)
    → AllStocked bs
    → pos 0 ≤ℤ n
    → (plan_fifo_consumption bs n ≡ none) ↔ (total_available bs <ℤ n)
unfolding plan_fifo_consumption
plan_fifo_consumption_iff bs n h k =
    let short = loop_short bs n h k in
    ((λ e. short.0 (ground arith)), (λ l. ground (arith, short.1 l)))

-- A plan that is found takes exactly the amount, from each of its batches something and no more than
-- is there, and in the candidates' order, draining each batch before it takes from the next.
pub plan_fifo_consumption_plan :
    (bs : List CoinBatch) (n : ℤ) (plan : List BatchConsumptionStep)
    → AllStocked bs
    → pos 0 ≤ℤ n
    → plan_fifo_consumption bs n ≡ some plan
    → (planned plan ≡ n) × All IsWithin plan × IsFifo plan bs
unfolding plan_fifo_consumption
plan_fifo_consumption_plan bs n plan h k e =
    let same : plan ≡ (plan_loop bs n).0 = ground arith in
    let none_left : leb_ℤ (plan_loop bs n).1 (pos 0) ≡ true = ground arith in
    let sum = loop_sum bs n in
    rw same (
      eq_of_parts (planned (plan_loop bs n).0) n (
          omega (
            int_laws,
            loop_left bs n k,
            ap pos_part sum,
            ap neg_part sum,
            none_left_le bs n none_left,
          )),
      loop-IsWithin bs n h,
      loop-IsFifo bs n,
    )
