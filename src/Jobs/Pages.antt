-- ===== src/Jobs/Pages.antt =====
-- Reading a table page by page: `findMany` with `take`, `cursor` and `skip: 1`, and the loop
-- `for (;;)` around it, as both jobs have it.
use mrcoin.Base.{
  ℕ, zero, suc, ◌≤◌, ◌<◌, ◌≡◌, refl, sym, ap, ◌∙◌, inl, inr, false, List, [], ◌∷◌, ◌++◌, Option,
  none, some, length, take, drop, last?, All, take-append-drop, append_assoc, arith, Bool-cases,
  ltb, if◌then◌else◌,
}
use mrcoin.Base.Text.{Text, text_eq, text_eq_refl}

unfoldable pub fold_left {ℓ κ} : {A : Type ℓ} {S : Type κ} → (S → A → S) → S → List A → S
fold_left f s [] = s
fold_left f s (x ∷ xs) = fold_left f (f s x) xs

pub fold_left-append {ℓ κ} :
    {A : Type ℓ} {S : Type κ} (f : S → A → S) (s : S) (xs ys : List A)
    → fold_left f s (xs ++ ys) ≡ fold_left f (fold_left f s xs) ys
unfolding fold_left
fold_left-append f s [] ys = refl
fold_left-append f s (x ∷ xs) ys = fold_left-append f (f s x) xs ys

module _ {A : Type 0} (ident : A → Text) where
  -- The rows behind the one with the cursor's id.
  unfoldable pub after_cursor : Text → List A → List A
  after_cursor c [] = []
  after_cursor c (x ∷ xs) = if text_eq (ident x) c then xs else after_cursor c xs

  unfoldable pub page : ℕ → Option Text → List A → List A
  unfolding after_cursor
  page size none rows = take size rows
  page size (some c) rows = take size (after_cursor c rows)

  abbrev opt_id : Option A → Option Text
  opt_id none = none
  opt_id (some x) = some (ident x)

  abbrev last_id : List A → Option Text
  last_id xs = opt_id (last? xs)

  -- One round of the loop, `again` being the rounds that may follow.
  unfoldable pub one_round :
      {S : Type 0} → (S → A → S) → ℕ → (Option Text → S → Option S) → List A → S → Option S
  one_round step size again found s =
      let s' = fold_left step s found in
      let rest = again (last_id found) s' in
      elim found [ [] ↦ some s | x ∷ r ↦ if ltb (length (x ∷ r)) size then some s' else rest ]

  -- The loop, with the rows of the table as they are queried. `none`: the fuel ran out.
  unfoldable pub for_pages :
      {S : Type 0} → (S → A → S) → ℕ → List A → ℕ → Option Text → S → Option S
  unfolding page one_round fold_left
  for_pages step size rows zero cursor s = none
  for_pages step size rows (suc fuel) cursor s =
      one_round step size (for_pages step size rows fuel) (page size cursor rows) s

  length-drop-le : (k : ℕ) (l : List A) → length (drop k l) ≤ length l
  length-drop-le zero l = omega arith
  length-drop-le (suc k) [] = omega arith
  length-drop-le (suc k) (x ∷ l) = omega (arith, length-drop-le k l)

  -- No two rows share an id.
  abbrev pub HasPrimaryKey : List A → Type 0
  HasPrimaryKey [] = Unit
  HasPrimaryKey (x ∷ xs) = All (λ y. text_eq (ident x) (ident y) ≡ false) xs × HasPrimaryKey xs

  All-mem : (P : A → Type 0) (xs : List A) (x : A) (ys : List A) → All P (xs ++ x ∷ ys) → P x
  All-mem P [] x ys h = h.0
  All-mem P (y ∷ xs) x ys h = All-mem P xs x ys h.1

  after_cursor-append :
      (xs : List A) (x : A) (ys : List A)
      → HasPrimaryKey (xs ++ x ∷ ys)
      → after_cursor (ident x) (xs ++ x ∷ ys) ≡ ys
  unfolding after_cursor
  after_cursor-append [] x ys h = rw (text_eq_refl (ident x))
  after_cursor-append (y ∷ xs) x ys h =
      rw (All-mem (λ z. text_eq (ident y) (ident z) ≡ false) xs x ys h.0)
        (after_cursor-append xs x ys h.1)

  last-append :
      (x : A) (xs : List A)
      → (ys : List A) × (y : A) × (x ∷ xs ≡ ys ++ y ∷ []) × (last? (x ∷ xs) ≡ some y)
  last-append x [] = ([], x, refl, refl)
  last-append x (z ∷ xs) = let (ys, y, e, l) = last-append z xs in (x ∷ ys, y, ap (◌∷◌ x) e, l)

  module _ (rows : List A) (primary : HasPrimaryKey rows) where
    -- What is still to be read: behind the cursor stand just the rows `rest`.
    abbrev Reads : Option Text → List A → Type 0
    Reads cursor rest =
        (done : List A) × (rows ≡ done ++ rest)
        × ((size : ℕ) → page size cursor rows ≡ take size rest)

    -- After a page the cursor stands at its last row.
    Reads-next :
        (cursor : Option Text) (x : A) (xs rest : List A)
        → Reads cursor ((x ∷ xs) ++ rest)
        → Reads (last_id (x ∷ xs)) rest
    unfolding page
    Reads-next cursor x xs rest (done, e, _) =
        let (ys, y, split, last) = last-append x xs in
        let whole : rows ≡ (done ++ ys) ++ y ∷ rest =
          e
          ∙ ap (λ l. done ++ (l ++ rest)) split
          ∙ ap (◌++◌ done) (append_assoc ys (y ∷ []) rest)
          ∙ sym (append_assoc done ys (y ∷ rest)) in
        (
          done ++ (x ∷ xs),
          e ∙ sym (append_assoc done (x ∷ xs) rest),
          (λ size.
              rw (last, whole)
                (ap (take size) (after_cursor-append (done ++ ys) y rest (rw whole at primary)))),
        )

    module _ {S : Type 0} (step : S → A → S) (n : ℕ) where
      take_short : (k : ℕ) (l : List A) → length (take k l) < k → take k l ≡ l
      take_short zero l h = absurd (omega arith)
      take_short (suc k) [] h = refl
      take_short (suc k) (x ∷ l) h = ap (◌∷◌ x) (take_short k l (omega arith))

      for_pages_from :
          (fuel : ℕ) (cursor : Option Text) (rest : List A) (s : S)
          → length rest < fuel
          → Reads cursor rest
          → for_pages step (suc n) rows fuel cursor s ≡ some (fold_left step s rest)
      unfolding for_pages one_round
      for_pages_from zero cursor rest s h r = absurd (omega arith)
      for_pages_from (suc fuel) cursor [] s h (done, e, read) = rw (read (suc n)) refl
      for_pages_from (suc fuel) cursor (x ∷ xs) s h (done, e, read) =
          elim (Bool-cases (ltb (length (x ∷ take n xs)) (suc n))) [
            | inl short ↦ rw (read (suc n)) (
                rw short
                  (ap (λ l. some (fold_left step s (x ∷ l))) (take_short n xs (ground arith))))
            | inr full ↦ rw (read (suc n)) (
                rw full (
                  for_pages_from fuel (last_id (x ∷ take n xs)) (drop n xs)
                    (fold_left step s (x ∷ take n xs)) (omega (arith, length-drop-le n xs))
                    (Reads-next cursor x (take n xs) (drop n xs) (
                      done,
                      e ∙ ap (λ l. done ++ x ∷ l) (sym (take-append-drop n xs)),
                      λ size. read size ∙ ap (λ l. take size (x ∷ l)) (sym (take-append-drop n xs)),
                    ))
                  ∙ ap some (
                      sym (fold_left-append step s (x ∷ take n xs) (drop n xs))
                      ∙ ap (λ l. fold_left step s (x ∷ l)) (take-append-drop n xs))))
          ]

      -- Reading a table with a primary key page by page, of any size but zero, meets every row once
      -- and in order; one round more than there are rows is enough.
      pub for_pages_reads_all :
          (s : S)
          → for_pages step (suc n) rows (suc (length rows)) none s ≡ some (fold_left step s rows)
      unfolding page
      for_pages_reads_all s =
          for_pages_from (suc (length rows)) none rows s (omega arith) ([], refl, λ size. refl)
