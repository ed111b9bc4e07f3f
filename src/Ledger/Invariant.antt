-- ===== src/Ledger/Invariant.antt =====
-- When the ledger's tables are sound: what the service keeps true of every wallet and its entries,
-- which are listed latest first.
use mrcoin.Base.{ℕ, ◌<◌, ◌≡◌, ◌⊎◌, List, [], ◌∷◌, ◌++◌, none, some, length}
use mrcoin.Base.Int.{ℤ, pos, ◌+ℤ◌, ◌-ℤ◌, ◌≤ℤ◌}
use mrcoin.Base.Text.{Text}
use mrcoin.Db.{Db, Wallet, LedgerEntry, LedgerEntryType, credit, debit, expire, Platform}
use mrcoin.Ledger.Hash.{genesis_hash, compute_entry_hash, payload_of}
use mrcoin.Ledger.Entry.{EntryCoreInput, find_wallet, find_entry, entries_of}

-- The balance and the hash that the next entry of a wallet starts from.
abbrev pub last_balance : List LedgerEntry → ℤ
last_balance [] = pos 0
last_balance (e ∷ _) = e.balance_after

abbrev pub last_hash : List LedgerEntry → Text
last_hash [] = genesis_hash
last_hash (e ∷ _) = e.hash

-- What an entry of a type and an amount makes of a balance.
abbrev pub Effect : LedgerEntryType → ℤ → ℤ → ℤ → Type 0
Effect credit amount before after = after ≡ before +ℤ amount
Effect debit amount before after = after ≡ before -ℤ amount
Effect expire amount before after = after ≡ before -ℤ amount
Effect LedgerEntryType.reversal amount before after =
    (after ≡ before +ℤ amount) ⊎ (after ≡ before -ℤ amount)

-- Every entry moves the balance by its amount, in its type's direction, and never below zero.
abbrev pub IsTrail : List LedgerEntry → Type 0
IsTrail [] = Unit
IsTrail (e ∷ l) =
    Effect e.type e.amount (last_balance l) e.balance_after × (pos 0 ≤ℤ e.balance_after) × IsTrail l

-- The delta of an input is that of its type.
abbrev pub IsConsistent : EntryCoreInput → Type 0
IsConsistent i = (b : ℤ) → Effect i.type i.amount b (b +ℤ i.delta)

-- No two rows share an id, or a key.
abbrev pub HasUniqueIds : List Wallet → Type 0
HasUniqueIds [] = Unit
HasUniqueIds (w ∷ ws) = (find_wallet w.id ws ≡ none) × HasUniqueIds ws

abbrev pub HasUniqueKeys : List LedgerEntry → Type 0
HasUniqueKeys [] = Unit
HasUniqueKeys (e ∷ l) = (find_entry e.idempotency_key l ≡ none) × HasUniqueKeys l

module _ (p : Platform) where
  -- Every entry was stamped by an earlier reading of the clock, later entries by later readings.
  abbrev pub IsStamped : ℕ → List LedgerEntry → Type 0
  IsStamped n [] = Unit
  IsStamped n (e ∷ l) =
      (i : ℕ) × (i < n) × (e.created_at ≡ p.now i) × (e.id ≡ p.cuid i) × IsStamped i l

  -- Every entry is linked to the one before it, and its hash is that of its fields.
  abbrev pub IsChain : List LedgerEntry → Type 0
  IsChain [] = Unit
  IsChain (e ∷ l) =
      (e.prev_hash ≡ last_hash l)
      × (e.hash ≡ compute_entry_hash p e.prev_hash (payload_of e))
      × IsChain l

  pub record IsWalletSound (w : Wallet) (l : List LedgerEntry) : Type 0 where
    pub chain : IsChain l
    pub trail : IsTrail l
    pub balance : w.cached_balance ≡ last_balance l
    pub version : w.version ≡ length l

  pub record IsSound (db : Db) : Type 0 where
    pub stamped : IsStamped db.ticks db.entries
    pub unique_ids : HasUniqueIds db.wallets
    pub unique_keys : HasUniqueKeys db.entries
    pub each :
        (k : Text) (w : Wallet)
        → find_wallet k db.wallets ≡ some w
        → IsWalletSound w (entries_of k db.entries)

-- Nothing that was written is changed or removed: the entries of every wallet only grow.
abbrev pub Extends : Db → Db → Type 0
Extends db db' =
    (k : Text)
    → (new : List LedgerEntry) × (entries_of k db'.entries ≡ new ++ entries_of k db.entries)

-- What other transactions may do between two steps of this one.
abbrev pub IsGap : Platform → (Db → Db) → Type 0
IsGap p gap = (db : Db) → IsSound p db → IsSound p (gap db) × Extends db (gap db)
