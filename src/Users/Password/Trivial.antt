-- ===== src/Users/Password/Trivial.antt =====
-- What `includes` finds, and what the rules refuse.
use mathlib.Core.List.{◌++◌}
use mrcoin.Base.{
  ℕ, zero, suc, ◌≡◌, refl, ap, ◌∙◌, ◌↔◌, ◌⊎◌, inl, inr, Bool, true, false, ◌||◌, List, [], ◌∷◌,
  arith, Bool-cases,
}
use mrcoin.Base.Text.{Text, text_eq, text_eq→eq, text_eq_refl}
use mrcoin.Base.Table.{any_where}
use mrcoin.Users.Password.{
  starts_with, includes, all_equal, all_same_char, is_trivial_password, password_contains_cpf,
  common_passwords, ascending_run, descending_run,
}

starts_with→eq : (s t : Text) → starts_with s t ≡ true → (post : Text) × (t ≡ s ++ post)
unfolding starts_with
starts_with→eq [] t h = (t, refl)
starts_with→eq (c ∷ s) [] h = absurd (ground arith)
starts_with→eq (c ∷ s) (d ∷ t) h =
    let (post, e) = starts_with→eq s t (ground arith) in (post, ground (arith, e))

starts_with_append : (s post : Text) → starts_with s (s ++ post) ≡ true
unfolding starts_with
starts_with_append [] post = refl
starts_with_append (c ∷ s) post = ground (arith, starts_with_append s post)

-- `s` stands in `t` without a gap.
abbrev pub IsPart : Text → Text → Type 0
IsPart s t = (pre : Text) × (post : Text) × (t ≡ pre ++ s ++ post)

includes→IsPart : (t s : Text) → includes t s ≡ true → IsPart s t
unfolding includes
includes→IsPart [] s h = let (post, e) = starts_with→eq s [] h in ([], post, e)
includes→IsPart (c ∷ t) s h = elim (Bool-cases (starts_with s (c ∷ t))) [
  | inl first ↦ let (post, e) = starts_with→eq s (c ∷ t) first in ([], post, e)
  | inr later ↦
      let (pre, post, e) = includes→IsPart t s (ground arith) in (c ∷ pre, post, ap (◌∷◌ c) e)
]

includes_part : (pre s post : Text) → includes (pre ++ s ++ post) s ≡ true
unfolding includes
includes_part [] [] [] = refl
includes_part [] [] (c ∷ post) = refl
includes_part [] (c ∷ s) post = let h = starts_with_append (c ∷ s) post in rw h
includes_part (c ∷ pre) s post = ground (arith, includes_part pre s post)

IsPart→includes : (t s : Text) → IsPart s t → includes t s ≡ true
IsPart→includes t s (pre, post, e) = rw e (includes_part pre s post)

-- A password is taken to contain a CPF exactly when the CPF's digits stand in it without a gap.
pub password_contains_cpf_iff :
    (password cpf : Text) → (password_contains_cpf password cpf ≡ true) ↔ IsPart cpf password
unfolding password_contains_cpf
password_contains_cpf_iff password cpf =
    (includes→IsPart password cpf, IsPart→includes password cpf)

-- The same character, n times.
abbrev pub copies : ℕ → ℕ → Text
copies c zero = []
copies c (suc n) = c ∷ copies c n

abbrev pub IsRepeated : Text → Type 0
IsRepeated t = (c : ℕ) × (n : ℕ) × (t ≡ copies c n)

all_equal→copies : (c : ℕ) (t : Text) → all_equal c t ≡ true → (n : ℕ) × (t ≡ copies c n)
all_equal→copies c [] h = (0, refl)
all_equal→copies c (d ∷ t) h =
    let (n, e) = all_equal→copies c t (ground arith) in (suc n, ground (arith, e))

all_equal-copies : (c n : ℕ) → all_equal c (copies c n) ≡ true
all_equal-copies c zero = refl
all_equal-copies c (suc n) = ground (arith, all_equal-copies c n)

all_same_char-copies : (c n : ℕ) → all_same_char (copies c n) ≡ true
all_same_char-copies c zero = refl
all_same_char-copies c (suc n) = all_equal-copies c (suc n)

all_same_char→IsRepeated : (t : Text) → all_same_char t ≡ true → IsRepeated t
all_same_char→IsRepeated [] h = (0, 0, refl)
all_same_char→IsRepeated (c ∷ t) h = let (n, e) = all_equal→copies c (c ∷ t) h in (c, n, e)

-- A text is one of a list.
abbrev pub IsListed : Text → List Text → Type 0
IsListed t l = (pre : List Text) × (post : List Text) × (l ≡ pre ++ t ∷ post)

any→IsListed : (t : Text) (l : List Text) → any_where (λ c. text_eq c t) l ≡ true → IsListed t l
unfolding any_where
any→IsListed t [] h = absurd (ground arith)
any→IsListed t (c ∷ l) h = elim (Bool-cases (text_eq c t)) [
  | inl e ↦ let same : c ≡ t = text_eq→eq c t e in ([], l, ap (λ x. x ∷ l) same)
  | inr e ↦ let (pre, post, k) = any→IsListed t l (ground arith) in (c ∷ pre, post, ap (◌∷◌ c) k)
]

any-listed :
    (t : Text) (pre post : List Text) → any_where (λ c. text_eq c t) (pre ++ t ∷ post) ≡ true
unfolding any_where
any-listed t [] post = rw (text_eq_refl t)
any-listed t (c ∷ pre) post = ground (arith, any-listed t pre post)

IsListed→any : (t : Text) (l : List Text) → IsListed t l → any_where (λ c. text_eq c t) l ≡ true
IsListed→any t l (pre, post, e) = rw e (any-listed t pre post)

or_parts : (a b : Bool) → (a || b) ≡ true → (a ≡ true) ⊎ (b ≡ true)
or_parts true b h = inl refl
or_parts false b h = inr h

or_left : (a b : Bool) → a ≡ true → (a || b) ≡ true
or_left a b h = ground arith

or_right : (a b : Bool) → b ≡ true → (a || b) ≡ true
or_right a b h = ground arith

module _ (to_lower : Text → Text) (password : Text) where
  abbrev lower : Text
  lower = to_lower password

  -- A password is refused as trivial exactly when, in lower case, it is one of the common ones, or one
  -- character repeated, or a part of the ascending run of letters and digits or of its reverse.
  pub is_trivial_password_iff : (is_trivial_password to_lower password ≡ true) ↔ (
      IsListed lower common_passwords
      ⊎ (IsRepeated lower ⊎ (IsPart lower ascending_run ⊎ IsPart lower descending_run)))
  unfolding is_trivial_password
  is_trivial_password_iff = (refused, is_refused)
    where
      common : Bool
      common = any_where (λ c. text_eq c lower) common_passwords

      up : Bool
      up = includes ascending_run lower

      down : Bool
      down = includes descending_run lower

      run : (up || down) ≡ true → IsPart lower ascending_run ⊎ IsPart lower descending_run
      run h = elim (or_parts up down h) [
        | inl e ↦ inl (includes→IsPart ascending_run lower e)
        | inr e ↦ inr (includes→IsPart descending_run lower e)
      ]

      rest :
          (all_same_char lower || (up || down)) ≡ true
          → IsRepeated lower ⊎ (IsPart lower ascending_run ⊎ IsPart lower descending_run)
      rest h = elim (or_parts (all_same_char lower) (up || down) h) [
        | inl e ↦ inl (all_same_char→IsRepeated lower e)
        | inr e ↦ inr (run e)
      ]

      refused :
          is_trivial_password to_lower password ≡ true
          → IsListed lower common_passwords
            ⊎ (IsRepeated lower ⊎ (IsPart lower ascending_run ⊎ IsPart lower descending_run))
      refused h = elim (or_parts common (all_same_char lower || (up || down)) h) [
        | inl e ↦ inl (any→IsListed lower common_passwords e)
        | inr e ↦ inr (rest e)
      ]

      part : (t : Text) → IsPart lower t → includes t lower ≡ true
      part t (pre, post, e) = (IsPart→includes t lower (pre, post, e))

      is_refused :
          IsListed lower common_passwords
            ⊎ (IsRepeated lower ⊎ (IsPart lower ascending_run ⊎ IsPart lower descending_run))
          → is_trivial_password to_lower password ≡ true
      is_refused (inl (pre, post, e)) =
          or_left common (all_same_char lower || (up || down))
            (IsListed→any lower common_passwords (pre, post, e))
      is_refused (inr (inl (c, n, e))) = or_right common (all_same_char lower || (up || down)) (
          or_left (all_same_char lower) (up || down)
            (ap all_same_char e ∙ all_same_char-copies c n))
      is_refused (inr (inr (inl e))) =
          or_right common (all_same_char lower || (up || down))
            (or_right (all_same_char lower) (up || down) (or_left up down (part ascending_run e)))
      is_refused (inr (inr (inr e))) =
          or_right common (all_same_char lower || (up || down))
            (or_right (all_same_char lower) (up || down) (or_right up down (part descending_run e)))
