-- ===== src/Db/Transactions.antt =====
-- Results, and a database transaction: on a failure nothing of it remains, so a failed run carries
-- no state.
use mrcoin.Base.{◌≡◌, refl, ap, ◌⊎◌, inl, inr, Bool, true, false, Option, none, some}
use mrcoin.Db.Rows.{Db}
use mrcoin.Db.Exceptions.{Failure}

pub data Result {ℓ} (A : Type ℓ) : Type ℓ where
  ok : A → Result A
  err : Failure → Result A

abbrev pub Tx : Type 0 → Type 0
Tx A = Db → Result (A × Db)

module _ {A : Type 0} where
  abbrev pub pure : A → Tx A
  pure a db = ok (a, db)

  abbrev pub fail : Failure → Tx A
  fail e db = err e

  abbrev pub gets : (Db → A) → Tx A
  gets f db = ok (f db, db)

  -- `findUniqueOrThrow` and the like: an absent row is a failure.
  abbrev pub or_fail : Option A → Failure → Tx A
  or_fail none e = fail e
  or_fail (some a) _ = pure a

infixl 5 ◌>>=◌ ◌>>◌
abbrev pub ◌>>=◌ : {A B : Type 0} → Tx A → (A → Tx B) → Tx B
◌>>=◌ m f db = elim (m db) [ ok (a, db') ↦ f a db' | err e ↦ err e ]

abbrev pub ◌>>◌ : {B : Type 0} → Tx (Unit {0}) → Tx B → Tx B
m >> k = m >>= λ _. k

abbrev pub fail_if : Bool → Failure → Tx (Unit {0})
fail_if true e db = err e
fail_if false _ db = ok (tt, db)

-- A transaction that succeeds has run its parts.
pub bind_ok :
    {A B : Type 0} (m : Tx A) (f : A → Tx B) (db : Db) (b : B) (db' : Db)
    → (m >>= f) db ≡ ok (b, db')
    → (a : A) × (mid : Db) × (m db ≡ ok (a, mid)) × (f a mid ≡ ok (b, db'))
bind_ok {A} {B} m f db b db' h = go (m db) refl
  where
    go :
        (r : Result (A × Db))
        → m db ≡ r
        → (a : A) × (mid : Db) × (m db ≡ ok (a, mid)) × (f a mid ≡ ok (b, db'))
    go (ok (a, mid)) e = (a, mid, e, rw (e, ◌>>=◌) at h)
    go (err x) e = absurd (let bad = rw (e, ◌>>=◌) at h in cc)

pub bind_ran :
    {A B : Type 0} (m : Tx A) (f : A → Tx B) (db mid : Db) (a : A)
    → m db ≡ ok (a, mid)
    → (m >>= f) db ≡ f a mid
bind_ran m f db mid a h = rw (◌>>=◌, h)

-- A request that runs several transactions: what was committed stays, also when it fails later.
abbrev pub Action : Type 0 → Type 0
Action A = Db → Result A × Db

-- `prisma.$transaction(...)`: all or nothing.
abbrev pub atomically : {A : Type 0} → Tx A → Action A
atomically m db = elim (m db) [ ok (a, db') ↦ (ok a, db') | err e ↦ (err e, db) ]

-- An awaited call, and what follows it unless it throws.
abbrev pub and_then : {A B S : Type 0} → Result A × S → (A → S → Result B × S) → Result B × S
and_then (ok a, s) f = f a s
and_then (err e, s) f = (err e, s)

-- What the first call leaves true, and the rest keeps, holds in the end.
pub and_then_keeps :
    {A B S : Type 0} (Q : S → Type 0) (r : Result A × S) (f : A → S → Result B × S)
    → Q r.1
    → ((a : A) (s : S) → Q s → Q (f a s).1)
    → Q (and_then r f).1
and_then_keeps Q (ok a, s) f q keep = keep a s q
and_then_keeps Q (err e, s) f q keep = q

-- A request that succeeds has run its parts.
pub and_then_ok :
    {A B S : Type 0} (r : Result A × S) (f : A → S → Result B × S) (b : B) (s' : S)
    → and_then r f ≡ (ok b, s')
    → (a : A) × (s : S) × (r ≡ (ok a, s)) × (f a s ≡ (ok b, s'))
and_then_ok (ok a, s) f b s' h = (a, s, refl, h)
and_then_ok (err e, s) f b s' h = absurd (let bad = ap (λ x. x.0) h in cc)

pub Result-cases :
    {A : Type 0} (r : Result A) → ((a : A) × (r ≡ ok a)) ⊎ ((e : Failure) × (r ≡ err e))
Result-cases (ok a) = inl (a, refl)
Result-cases (err e) = inr (e, refl)

pub ok-injective : {A : Type 0} (a b : A) → ok a ≡ ok b → a ≡ b
ok-injective a b h = cc

-- The same for the answer of a request, and its state.
pub answer-injective :
    {A S : Type 0} (a b : A) (s s' : S)
    → Path (Result A × S) (ok a, s) (ok b, s')
    → (a ≡ b) × (s ≡ s')
answer-injective a b s s' h = (ok-injective a b (ap (λ x. x.0) h), ap (λ x. x.1) h)
