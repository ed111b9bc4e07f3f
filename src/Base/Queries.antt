-- ===== src/Base/Queries.antt =====
-- What holds of the rows of a table, of those that a query returns.
use mrcoin.Base.{
  ℕ, zero, suc, ◌≡◌, refl, inl, inr, Bool, true, List, [], ◌∷◌, All, take, arith, Bool-cases,
}
use mrcoin.Base.Table.{filter_where, count_where, any_where, insert_row, order_by}

module _ {ℓ κ} {A : Type ℓ} (P : A → Type κ) where
  pub All-take : (n : ℕ) (xs : List A) → All P xs → All P (take n xs)
  All-take zero xs h = tt
  All-take (suc n) [] h = tt
  All-take (suc n) (x ∷ xs) h = (h.0, All-take n xs h.1)

  pub All-insert_row :
      (lt : A → A → Bool) (x : A) (ys : List A) → P x → All P ys → All P (insert_row lt x ys)
  unfolding insert_row
  All-insert_row lt x [] h k = (h, tt)
  All-insert_row lt x (y ∷ ys) h k = elim (Bool-cases (lt x y)) [
    | inl e ↦ rw e (h, k)
    | inr e ↦ rw e (k.0, All-insert_row lt x ys h k.1)
  ]

  pub All-order_by : (lt : A → A → Bool) (xs : List A) → All P xs → All P (order_by lt xs)
  unfolding order_by
  All-order_by lt [] h = tt
  All-order_by lt (x ∷ xs) h = All-insert_row lt x (order_by lt xs) h.0 (All-order_by lt xs h.1)

pub All-weaken {ℓ κ} :
    {A : Type ℓ} (P Q : A → Type κ) (xs : List A) → ((a : A) → P a → Q a) → All P xs → All Q xs
All-weaken P Q [] f h = tt
All-weaken P Q (x ∷ xs) f h = (f x h.0, All-weaken P Q xs f h.1)

-- The rows that a filter returns are in the table.
pub filter_in {ℓ} :
    {A : Type ℓ} (same : A → A → Bool) (q : A → Bool) (xs : List A)
    → ((a : A) → q a ≡ true → same a a ≡ true)
    → All (λ x. any_where (same x) xs ≡ true) (filter_where q xs)
unfolding filter_where any_where
filter_in same q [] r = tt
filter_in same q (x ∷ xs) r =
    let rest =
      All-weaken (λ y. any_where (same y) xs ≡ true) (λ y. any_where (same y) (x ∷ xs) ≡ true)
        (filter_where q xs) (λ y h. ground arith) (filter_in same q xs r) in
    elim (Bool-cases (q x)) [
      | inl e ↦ rw e ((let here = r x e in ground arith), rest)
      | inr e ↦ rw e rest
    ]

-- An empty answer means an empty table, or that no row meets the condition.
module _ {ℓ} {A : Type ℓ} where
  pub take_nil : (n : ℕ) (xs : List A) → take (suc n) xs ≡ [] → xs ≡ []
  take_nil n [] h = refl
  take_nil n (x ∷ xs) h = absurd (cc)

  insert_row_nonempty : (lt : A → A → Bool) (x : A) (ys : List A) → insert_row lt x ys ≡ [] → ⊥
  unfolding insert_row
  insert_row_nonempty lt x [] h = cc
  insert_row_nonempty lt x (y ∷ ys) h = ground arith

  pub order_by_nil : (lt : A → A → Bool) (xs : List A) → order_by lt xs ≡ [] → xs ≡ []
  unfolding order_by
  order_by_nil lt [] h = refl
  order_by_nil lt (x ∷ xs) h = absurd (insert_row_nonempty lt x (order_by lt xs) h)

  pub filter_nil : (q : A → Bool) (xs : List A) → filter_where q xs ≡ [] → count_where q xs ≡ 0
  unfolding filter_where count_where
  filter_nil q [] h = refl
  filter_nil q (x ∷ xs) h = ground (arith, filter_nil q xs)
