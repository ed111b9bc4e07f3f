-- ===== src/Ledger/Keep.antt =====
-- What it means for an action or a transaction to keep the ledger, and how such parts compose.
use mrcoin.Base.{
  ◌≡◌, refl, sym, ◌∙◌, ap, inl, inr, [], ◌++◌, append_assoc, Option, none, some, arith, Bool-cases,
}
use mrcoin.Base.Int.{ℤ, pos, ◌+ℤ◌, ◌≤ℤ◌, ltb_ℤ}
use mrcoin.Db.{Db, Wallet, Platform, IsMonotonic, Result, ok, err, Tx, Action}
use mrcoin.Ledger.Entry.{EntryCoreInput, find_wallet, entries_of, read_wallet, execute_entry}
use mrcoin.Ledger.Invariant.{IsSound, IsConsistent, Extends}
use mrcoin.Ledger.Write.{IsView, write-IsSound, wallet_id_of}

pub Extends-refl : (db : Db) → Extends db db
Extends-refl db k = ([], refl)

pub Extends-trans : (a b c : Db) → Extends a b → Extends b c → Extends a c
Extends-trans a b c f g k =
    let (xs, h) = f k in
    let (ys, j) = g k in
    (ys ++ xs, j ∙ ap (◌++◌ ys) h ∙ sym (append_assoc ys xs (entries_of k a.entries)))

-- A transaction that succeeds keeps the ledger, and so does a request however it ends.
abbrev pub TxKeeps : {A : Type 0} → Platform → Tx A → Type 0
TxKeeps {A} p m =
    (db : Db) (a : A) (db' : Db)
    → IsSound p db
    → m db ≡ ok (a, db')
    → IsSound p db' × Extends db db'

abbrev pub Keeps : {A : Type 0} → Platform → Action A → Type 0
Keeps p m = (db : Db) → IsSound p db → IsSound p (m db).1 × Extends db (m db).1

pub read_ok :
    (i : EntryCoreInput) (db : Db) (w : Wallet) (b : ℤ)
    → read_wallet i db ≡ ok (w, b)
    → (find_wallet i.wallet_id db.wallets ≡ some w)
      × (b ≡ w.cached_balance +ℤ i.delta)
      × (pos 0 ≤ℤ b)
unfolding read_wallet
read_ok i db w b h = go (find_wallet i.wallet_id db.wallets) refl
  where
    go :
        (o : Option Wallet)
        → find_wallet i.wallet_id db.wallets ≡ o
        → (find_wallet i.wallet_id db.wallets ≡ some w)
          × (b ≡ w.cached_balance +ℤ i.delta)
          × (pos 0 ≤ℤ b)
    go none e = absurd (ground arith)
    go (some r) e = elim (Bool-cases (ltb_ℤ (r.cached_balance +ℤ i.delta) (pos 0))) [
      | inl short ↦ absurd (ground arith)
      | inr enough ↦ (ground arith, ground arith, ground arith)
    ]

-- A successful read gives a view of the wallet.
pub read-IsView :
    (p : Platform) (i : EntryCoreInput) (db : Db) (w : Wallet) (b : ℤ)
    → IsSound p db
    → read_wallet i db ≡ ok (w, b)
    → IsView i w b (entries_of i.wallet_id db.entries)
read-IsView p i db w b sound h =
    let (found, after, nonneg) = read_ok i db w b h in
    let s = sound.each i.wallet_id w found in
    record {
      id = wallet_id_of i.wallet_id w db.wallets found;
      after = after;
      nonneg = nonneg;
      balance = s.balance;
      version = s.version;
    }

module _ (p : Platform) (mono : IsMonotonic p) where
  pub execute_entry-TxKeeps : (i : EntryCoreInput) → IsConsistent i → TxKeeps p (execute_entry p i)
  unfolding execute_entry
  execute_entry-TxKeeps i c db e db' sound h = go (read_wallet i db) refl
    where
      go : (r : Result (Wallet × ℤ)) → read_wallet i db ≡ r → IsSound p db' × Extends db db'
      go (err x) k = absurd (ground arith)
      go (ok (w, b)) k =
          write-IsSound p mono i c w b (entries_of i.wallet_id db.entries)
            (read-IsView p i db w b sound k) db sound [] refl e db' (ground arith)
