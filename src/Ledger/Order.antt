-- ===== src/Ledger/Order.antt =====
-- The order in which the entries are stored, and that of the queries.
use mrcoin.Base.{
  ℕ, ◌≤◌, ◌≡◌, refl, List, [], ◌∷◌, reverse, head?, Bool, true, false, All, arith, Bool-cases, inl,
  inr,
}
use mrcoin.Base.Text.{Text, text_lt}
use mrcoin.Base.Table.{
  filter_where, order_by, IsOrdered, IsReversed, order_by_ordered, order_by_reversed,
}
use mrcoin.Db.{Db, LedgerEntry, Platform, IsMonotonic, stamp_before}
use mrcoin.Ledger.Entry.{entries_of, newer, older, previous_hash, hash_or_genesis}
use mrcoin.Ledger.Invariant.{IsStamped, IsSound, last_hash}

pub text_lt_asymm : (a b : Text) → text_lt a b ≡ true → text_lt b a ≡ false
unfolding text_lt
text_lt_asymm [] [] h = refl
text_lt_asymm [] (y ∷ b) h = refl
text_lt_asymm (x ∷ a) [] h = absurd (ground arith)
text_lt_asymm (x ∷ a) (y ∷ b) h = ground (arith, text_lt_asymm a b)

stamp_asymm : (m n : ℕ) (a b : Text) → stamp_before m a n b ≡ true → stamp_before n b m a ≡ false
stamp_asymm m n a b h = ground (arith, text_lt_asymm a b)

All-asymm :
    (at : ℕ) (ident : Text) (l : List LedgerEntry)
    → All (λ e. stamp_before e.created_at e.id at ident ≡ true) l
    → All (λ e. stamp_before at ident e.created_at e.id ≡ false) l
All-asymm at ident [] h = tt
All-asymm at ident (e ∷ l) h =
    (stamp_asymm e.created_at at e.id ident h.0, All-asymm at ident l h.1)

IsOrdered-IsReversed : (l : List LedgerEntry) → IsOrdered newer l → IsReversed older l
IsOrdered-IsReversed [] h = tt
IsOrdered-IsReversed (e ∷ l) h = (All-asymm e.created_at e.id l h.0, IsOrdered-IsReversed l h.1)

IsStamped-mono :
    (p : Platform) (m n : ℕ) (l : List LedgerEntry) → m ≤ n → IsStamped p m l → IsStamped p n l
IsStamped-mono p m n [] h s = tt
IsStamped-mono p m n (e ∷ l) h (i, lt, at, ident, s) = (i, omega arith, at, ident, s)

IsStamped-filter :
    (p : Platform) (q : LedgerEntry → Bool) (n : ℕ) (l : List LedgerEntry)
    → IsStamped p n l
    → IsStamped p n (filter_where q l)
unfolding filter_where
IsStamped-filter p q n [] s = tt
IsStamped-filter p q n (e ∷ l) (i, lt, at, ident, s) = elim (Bool-cases (q e)) [
  | inl hit ↦ rw hit (i, lt, at, ident, IsStamped-filter p q i l s)
  | inr miss ↦
      rw miss (IsStamped-mono p i n (filter_where q l) (omega arith) (IsStamped-filter p q i l s))
]

head-last_hash : (l : List LedgerEntry) → hash_or_genesis (head? l) ≡ last_hash l
head-last_hash [] = refl
head-last_hash (e ∷ l) = refl

module _ (p : Platform) (mono : IsMonotonic p) where
  -- A later reading of the clock gives a later stamp.
  IsStamped-older :
      (n j : ℕ) (l : List LedgerEntry)
      → n ≤ j
      → IsStamped p n l
      → All (λ e. stamp_before e.created_at e.id (p.now j) (p.cuid j) ≡ true) l
  IsStamped-older n j [] h s = tt
  IsStamped-older n j (e ∷ l) h (i, lt, at, ident, s) =
      (rw (at, ident) (mono i j (omega arith)), IsStamped-older i j l (omega arith) s)

  IsStamped-IsOrdered : (n : ℕ) (l : List LedgerEntry) → IsStamped p n l → IsOrdered newer l
  IsStamped-IsOrdered n [] s = tt
  IsStamped-IsOrdered n (e ∷ l) (i, lt, at, ident, s) =
      (rw (at, ident) (IsStamped-older i i l (omega arith) s), IsStamped-IsOrdered i l s)

  -- The query in descending order gives the entries as stored,
  pub entries_desc :
      (k : Text) (db : Db)
      → IsSound p db
      → order_by newer (entries_of k db.entries) ≡ entries_of k db.entries
  unfolding entries_of
  entries_desc k db s = order_by_ordered newer (entries_of k db.entries) (
      IsStamped-IsOrdered db.ticks (entries_of k db.entries)
        (IsStamped-filter p _ db.ticks db.entries s.stamped))

  -- and the query in ascending order gives them from the first to the last.
  pub entries_asc :
      (k : Text) (db : Db)
      → IsSound p db
      → order_by older (entries_of k db.entries) ≡ reverse (entries_of k db.entries)
  unfolding entries_of
  entries_asc k db s = order_by_reversed older (entries_of k db.entries) (
      IsOrdered-IsReversed (entries_of k db.entries) (
        IsStamped-IsOrdered db.ticks (entries_of k db.entries)
          (IsStamped-filter p _ db.ticks db.entries s.stamped)))

  -- So the hash that `findFirst` gives is that of the wallet's last entry.
  pub previous_hash-last_hash :
      (k : Text) (db : Db) → IsSound p db → previous_hash k db ≡ last_hash (entries_of k db.entries)
  unfolding previous_hash
  previous_hash-last_hash k db s =
      rw (entries_desc k db s) (head-last_hash (entries_of k db.entries))
