-- ===== src/Base/Unique.antt =====
-- Tables with a unique column: what a lookup by it finds.
use mrcoin.Base.{
  ◌≡◌, refl, sym, ap, ◌∙◌, inl, inr, Bool, true, false, ◌&&◌, List, [], ◌∷◌, some, All, arith,
  if◌then◌else◌, Bool-cases,
}
use mrcoin.Base.Text.{Text, text_eq, text_eq_refl, text_eq→eq}
use mrcoin.Base.Table.{find_where, update_where, count_where, any_where, any-update}

module _ {A : Type 0} (key : A → Text) where
  abbrev pub has_key : Text → A → Bool
  has_key k a = text_eq (key a) k

  -- No two rows agree in the column.
  abbrev pub IsUniqueBy : List A → Type 0
  IsUniqueBy [] = Unit
  IsUniqueBy (x ∷ xs) = (any_where (has_key (key x)) xs ≡ false) × IsUniqueBy xs

  pub IsUniqueBy-update :
      (q : A → Bool) (f : A → A) (xs : List A)
      → ((a : A) → key (f a) ≡ key a)
      → IsUniqueBy xs
      → IsUniqueBy (update_where q f xs)
  unfolding update_where
  IsUniqueBy-update q f [] stable u = tt
  IsUniqueBy-update q f (x ∷ xs) stable u =
      let rest = IsUniqueBy-update q f xs stable u.1 in
      let absent : any_where (has_key (key x)) (update_where q f xs) ≡ false =
        any-update (has_key (key x)) q f xs (λ a. ap (λ k. text_eq k (key x)) (stable a)) ∙ u.0 in
      elim (Bool-cases (q x)) [
        | inl e ↦ rw (e, stable x) (absent, rest)
        | inr e ↦ rw e (absent, rest)
      ]

  pub any_absent :
      (k : Text) (q : A → Bool) (xs : List A)
      → any_where (has_key k) xs ≡ false
      → count_where (λ a. has_key k a && q a) xs ≡ 0
  unfolding any_where count_where
  any_absent k q [] h = refl
  any_absent k q (x ∷ xs) h = ground (arith, any_absent k q xs)

  find_in :
      (p : A → Bool) (xs : List A) (t : A)
      → find_where p xs ≡ some t
      → any_where (has_key (key t)) xs ≡ true
  unfolding any_where find_where
  find_in p [] t h = cc
  find_in p (x ∷ xs) t h = ground (arith, text_eq_refl (key x), find_in p xs t)

  -- A row that is found by whatever test is the one that its key finds.
  pub find_key :
      (p : A → Bool) (xs : List A) (t : A)
      → IsUniqueBy xs
      → find_where p xs ≡ some t
      → find_where (has_key (key t)) xs ≡ some t
  unfolding find_where
  find_key p [] t u h = cc
  find_key p (x ∷ xs) t u h = elim (Bool-cases (p x)) [
    | inl e ↦ ground (arith, text_eq_refl (key x))
    | inr e ↦
        let later : find_where p xs ≡ some t = rw e at h in
        let same = text_eq→eq (key x) (key t) in
        let absent : any_where (has_key (key x)) xs ≡ false = u.0 in
        ground (arith, find_in p xs t later, find_key p xs t u.1 later, text_eq_refl (key t))
  ]

  -- Of the rows with a key there is one: an update's count says whether it meets the condition.
  pub count_key :
      (k : Text) (q : A → Bool) (xs : List A) (t : A)
      → IsUniqueBy xs
      → find_where (has_key k) xs ≡ some t
      → count_where (λ a. has_key k a && q a) xs ≡ (if q t then 1 else 0)
  unfolding find_where count_where
  count_key k q [] t u h = cc
  count_key k q (x ∷ xs) t u h = elim (Bool-cases (has_key k x)) [
    | inl e ↦
        let same : key x ≡ k = text_eq→eq (key x) k e in
        let absent : any_where (has_key k) xs ≡ false =
          ap (λ j. any_where (has_key j) xs) (sym same) ∙ u.0 in
        ground (arith, any_absent k q xs absent)
    | inr e ↦ ground (arith, count_key k q xs t u.1)
  ]

  All-absent :
      (k : Text) (t : A) (xs : List A)
      → any_where (has_key k) xs ≡ false
      → All (λ a. has_key k a ≡ true → a ≡ t) xs
  unfolding any_where
  All-absent k t [] h = tt
  All-absent k t (x ∷ xs) h = (λ is. absurd (ground arith), All-absent k t xs (ground arith))

  pub only_one :
      (k : Text) (xs : List A) (t : A)
      → IsUniqueBy xs
      → find_where (has_key k) xs ≡ some t
      → All (λ a. has_key k a ≡ true → a ≡ t) xs
  unfolding find_where
  only_one k [] t u h = tt
  only_one k (x ∷ xs) t u h = elim (Bool-cases (has_key k x)) [
    | inl e ↦
        let same : key x ≡ k = text_eq→eq (key x) k e in
        let absent : any_where (has_key k) xs ≡ false =
          ap (λ j. any_where (has_key j) xs) (sym same) ∙ u.0 in
        (λ _. ground arith, All-absent k t xs absent)
    | inr e ↦ (λ yes. absurd (cc), only_one k xs t u.1 (rw e at h))
  ]
