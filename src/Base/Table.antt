-- ===== src/Base/Table.antt =====
-- Tables of the database as lists of rows, with the queries that the services make.
use mathlib.Core.Option
use mathlib.Core.List.{reverse-cons, mem-cons_self, mem-cons_of_mem}
use mrcoin.Base.{
  Mem, ℕ, ◌+◌, ◌<◌, ◌≡◌, refl, subst, inl, inr, Bool, true, false, ◌||◌, List, [], ◌∷◌, ◌++◌,
  reverse, All, ap, Option, none, some, arith, if◌then◌else◌, Bool-cases,
}

module _ {ℓ} {A : Type ℓ} where
  -- `findUnique`: the row that meets the condition.
  unfoldable pub find_where : (A → Bool) → List A → Option A
  find_where p [] = none
  find_where p (x ∷ xs) = if p x then some x else find_where p xs

  -- `findMany`: all of them, in the table's order.
  unfoldable pub filter_where : (A → Bool) → List A → List A
  filter_where p [] = []
  filter_where p (x ∷ xs) = let rest = filter_where p xs in if p x then x ∷ rest else rest

  -- `updateMany`: the rows that meet the condition are changed,
  unfoldable pub update_where : (A → Bool) → (A → A) → List A → List A
  update_where p f [] = []
  update_where p f (x ∷ xs) = (if p x then f x else x) ∷ update_where p f xs

  -- and counted.
  unfoldable pub count_where : (A → Bool) → List A → ℕ
  count_where p [] = 0
  count_where p (x ∷ xs) = (if p x then 1 else 0) + count_where p xs

  -- A unique index: some row meets the condition.
  unfoldable pub any_where : (A → Bool) → List A → Bool
  any_where p [] = false
  any_where p (x ∷ xs) = p x || any_where p xs

  -- An update that leaves the looked-up key alone is seen by a lookup.
  pub find-update :
      (p q : A → Bool) (f : A → A) (xs : List A)
      → ((a : A) → p (f a) ≡ p a)
      → find_where p (update_where q f xs)
        ≡ Option.map (λ a. if q a then f a else a) (find_where p xs)
  unfolding find_where update_where
  find-update p q f [] stable = refl
  find-update p q f (x ∷ xs) stable = ground (arith, stable x, find-update p q f xs stable)

  -- What a test reads of a row, an update leaves alone.
  pub any-update :
      (p q : A → Bool) (f : A → A) (xs : List A)
      → ((a : A) → p (f a) ≡ p a)
      → any_where p (update_where q f xs) ≡ any_where p xs
  unfolding any_where update_where
  any-update p q f [] stable = refl
  any-update p q f (x ∷ xs) stable = ground (arith, stable x, any-update p q f xs stable)

  pub count-update :
      (p q : A → Bool) (f : A → A) (xs : List A)
      → ((a : A) → p (f a) ≡ p a)
      → count_where p (update_where q f xs) ≡ count_where p xs
  unfolding count_where update_where
  count-update p q f [] stable = refl
  count-update p q f (x ∷ xs) stable = ground (arith, stable x, count-update p q f xs stable)

  -- A row that is found and meets the update's condition is counted.
  pub count-find :
      (p q : A → Bool) (xs : List A) (a : A)
      → find_where p xs ≡ some a
      → q a ≡ true
      → 0 < count_where q xs
  unfolding find_where count_where
  count-find p q [] a h k = cc
  count-find p q (x ∷ xs) a h k = ground (arith, count-find p q xs a)

  pub any_of_find :
      (p q : A → Bool) (xs : List A) (a : A)
      → find_where p xs ≡ some a
      → q a ≡ true
      → any_where q xs ≡ true
  unfolding find_where any_where
  any_of_find p q [] a h k = cc
  any_of_find p q (x ∷ xs) a h k = ground (arith, any_of_find p q xs a)

  pub find_meets : (p : A → Bool) (xs : List A) (a : A) → find_where p xs ≡ some a → p a ≡ true
  unfolding find_where
  find_meets p [] a h = cc
  find_meets p (x ∷ xs) a h = ground (arith, find_meets p xs a)

  -- A row that is found is a row of the table.
  pub find-Mem : (p : A → Bool) (xs : List A) (a : A) → find_where p xs ≡ some a → Mem a xs
  unfolding find_where
  find-Mem p [] a h = absurd (ground arith)
  find-Mem p (x ∷ xs) a h = elim (Bool-cases (p x)) [
    | inl e ↦ let same : x ≡ a = ground arith in subst (λ b. Mem b (x ∷ xs)) same mem-cons_self
    | inr e ↦ mem-cons_of_mem x (find-Mem p xs a (ground arith))
  ]

  pub find-any : (p : A → Bool) (xs : List A) → find_where p xs ≡ none → any_where p xs ≡ false
  unfolding find_where any_where
  find-any p [] h = refl
  find-any p (x ∷ xs) h = ground (arith, find-any p xs)

  pub any-none : (p : A → Bool) (xs : List A) → any_where p xs ≡ false → find_where p xs ≡ none
  unfolding find_where any_where
  any-none p [] h = refl
  any-none p (x ∷ xs) h = ground (arith, any-none p xs)

  pub any-find :
      (p : A → Bool) (xs : List A) → any_where p xs ≡ true → (a : A) × (find_where p xs ≡ some a)
  unfolding find_where any_where
  any-find p [] h = absurd (ground arith)
  any-find p (x ∷ xs) h = elim (Bool-cases (p x)) [
    | inl e ↦ (x, rw e)
    | inr e ↦ let (a, k) = any-find p xs (ground arith) in (a, rw e k)
  ]

  pub find-All {κ} :
      (P : A → Type κ) (p : A → Bool) (xs : List A) (a : A)
      → All P xs
      → find_where p xs ≡ some a
      → P a
  unfolding find_where
  find-All P p [] a h k = absurd (ground arith)
  find-All P p (x ∷ xs) a h k = elim (Bool-cases (p x)) [
    | inl e ↦ let same : x ≡ a = ground arith in subst P same h.0
    | inr e ↦ find-All P p xs a h.1 (ground arith)
  ]

-- `orderBy`: insertion sort, `lt x y` meaning that x comes before y.
module _ {ℓ} {A : Type ℓ} (lt : A → A → Bool) where
  unfoldable pub insert_row : A → List A → List A
  insert_row x [] = x ∷ []
  insert_row x (y ∷ ys) = let rest = y ∷ insert_row x ys in if lt x y then x ∷ y ∷ ys else rest

  unfoldable pub order_by : List A → List A
  unfolding insert_row
  order_by [] = []
  order_by (x ∷ xs) = insert_row x (order_by xs)

  pub insert_row_first :
      (x : A) (ys : List A) → All (λ y. lt x y ≡ true) ys → insert_row x ys ≡ x ∷ ys
  unfolding insert_row
  insert_row_first x [] h = refl
  insert_row_first x (y ∷ ys) h = rw h.0

  pub insert_row_last :
      (x : A) (ys : List A) → All (λ y. lt x y ≡ false) ys → insert_row x ys ≡ ys ++ x ∷ []
  unfolding insert_row
  insert_row_last x [] h = refl
  insert_row_last x (y ∷ ys) h = rw h.0 (ap (◌∷◌ y) (insert_row_last x ys h.1))

  -- Each row comes before all that stand behind it.
  abbrev pub IsOrdered : List A → Type ℓ
  IsOrdered [] = Unit
  IsOrdered (x ∷ xs) = All (λ y. lt x y ≡ true) xs × IsOrdered xs

  -- Each row comes behind all that stand behind it.
  abbrev pub IsReversed : List A → Type ℓ
  IsReversed [] = Unit
  IsReversed (x ∷ xs) = All (λ y. lt x y ≡ false) xs × IsReversed xs

  pub order_by_ordered : (xs : List A) → IsOrdered xs → order_by xs ≡ xs
  unfolding order_by
  order_by_ordered [] h = refl
  order_by_ordered (x ∷ xs) h = rw (order_by_ordered xs h.1) (insert_row_first x xs h.0)

pub All-append {ℓ κ} :
    {A : Type ℓ} (P : A → Type κ) (xs ys : List A) → All P xs → All P ys → All P (xs ++ ys)
All-append P [] ys h k = k
All-append P (x ∷ xs) ys h k = (h.0, All-append P xs ys h.1 k)

pub All-reverse {ℓ κ} : {A : Type ℓ} (P : A → Type κ) (xs : List A) → All P xs → All P (reverse xs)
All-reverse P [] h = tt
All-reverse P (x ∷ xs) h =
    rw (reverse-cons x xs) (All-append P (reverse xs) (x ∷ []) (All-reverse P xs h.1) (h.0, tt))

pub order_by_reversed {ℓ} :
    {A : Type ℓ} (lt : A → A → Bool) (xs : List A) → IsReversed lt xs → order_by lt xs ≡ reverse xs
unfolding order_by
order_by_reversed lt [] h = refl
order_by_reversed lt (x ∷ xs) h =
    rw (order_by_reversed lt xs h.1, reverse-cons x xs)
      (insert_row_last lt x (reverse xs) (All-reverse (λ y. lt x y ≡ false) xs h.0))

pub All-filter {ℓ κ} :
    {A : Type ℓ} (P : A → Type κ) (q : A → Bool) (xs : List A)
    → All P xs
    → All P (filter_where q xs)
unfolding filter_where
All-filter P q [] h = tt
All-filter P q (x ∷ xs) h = elim (Bool-cases (q x)) [
  | inl e ↦ rw e (h.0, All-filter P q xs h.1)
  | inr e ↦ rw e (All-filter P q xs h.1)
]
