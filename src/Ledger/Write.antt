-- ===== src/Ledger/Write.antt =====
-- One write of `executeEntry`, and the soundness of the ledger through it.
use mathlib.Core.Option
use mrcoin.Base.{
  ◌+◌, ◌≡◌, refl, sym, ap, ◌∙◌, inl, inr, true, false, List, [], ◌∷◌, ◌++◌, none, some, length,
  length-append, arith, Bool-cases, Option-cases, ◌==◌, if◌then◌else◌,
}
use mrcoin.Base.Int.{ℤ, pos, ◌+ℤ◌, ◌≤ℤ◌}
use mrcoin.Base.Text.{Text, text_eq, text_eq→eq, text_eq_refl, text_eq_iff}
use mrcoin.Base.Table.{
  find_where, filter_where, update_where, count_where, any_where, find-update, find_meets, any-none,
}
use mrcoin.Db.{Db, Wallet, LedgerEntry, Platform, IsMonotonic, ok}
use mrcoin.Ledger.Entry.{
  EntryCoreInput, find_wallet, find_entry, entries_of, write_entry, new_entry, is_at, set_balance,
}
use mrcoin.Ledger.Invariant.{
  IsSound, IsWalletSound, IsConsistent, Extends, HasUniqueIds, last_balance,
}
use mrcoin.Ledger.Order.{previous_hash-last_hash}

-- A guarded update that counts a row has hit the wallet that a lookup finds.
count_none :
    (w : Wallet) (ws : List Wallet) → find_wallet w.id ws ≡ none → count_where (is_at w) ws ≡ 0
unfolding find_wallet find_where count_where
count_none w [] h = refl
count_none w (x ∷ ws) h = ground (arith, count_none w ws)

pub guarded_hit :
    (w : Wallet) (ws : List Wallet)
    → HasUniqueIds ws
    → (count_where (is_at w) ws == 0) ≡ false
    → (r : Wallet) × (find_wallet w.id ws ≡ some r) × (r.version ≡ w.version)
unfolding find_wallet find_where count_where
guarded_hit w [] u h = absurd (ground arith)
guarded_hit w (x ∷ ws) u h = elim (Bool-cases (text_eq x.id w.id)) [
  | inl e ↦
      let none_left = count_none w ws (rw (text_eq→eq x.id w.id e) at u.0) in
      (x, rw e, ground arith)
  | inr e ↦ let (r, found, at) = guarded_hit w ws u.1 (ground arith) in (r, rw e found, at)
]

-- The state that a write leaves.
abbrev pub written : Platform → EntryCoreInput → Wallet → ℤ → Db → Db
written p i w b db = record db {
  wallets = update_where (is_at w) (set_balance b) db.wallets;
  entries = new_entry p i b db ∷ db.entries;
  ticks = db.ticks + 1;
}

pub write_ok :
    (p : Platform) (i : EntryCoreInput) (w : Wallet) (b : ℤ) (db : Db) (e : LedgerEntry) (db' : Db)
    → write_entry p i w b db ≡ ok (e, db')
    → ((count_where (is_at w) db.wallets == 0) ≡ false)
      × (find_entry i.idempotency_key db.entries ≡ none)
      × (e ≡ new_entry p i b db)
      × (db' ≡ written p i w b db)
unfolding write_entry find_entry
write_ok p i w b db e db' h = elim (Bool-cases (count_where (is_at w) db.wallets == 0)) [
  | inl zero_rows ↦ absurd (ground arith)
  | inr some_row ↦
      elim (Bool-cases (any_where (λ r. text_eq r.idempotency_key i.idempotency_key) db.entries)) [
        | inl taken ↦ absurd (ground arith)
        | inr free ↦ (some_row, any-none _ db.entries free, ground arith, ground arith)
      ]
]

-- What is known of a wallet that was read when its entries were `l`.
pub record IsView (i : EntryCoreInput) (w : Wallet) (b : ℤ) (l : List LedgerEntry) : Type 0 where
  pub id : w.id ≡ i.wallet_id
  pub after : b ≡ w.cached_balance +ℤ i.delta
  pub nonneg : pos 0 ≤ℤ b
  pub balance : w.cached_balance ≡ last_balance l
  pub version : w.version ≡ length l

-- Entries that only grow, and are as many as before, are as before.
same_entries : (l l0 new : List LedgerEntry) → l ≡ new ++ l0 → length l ≡ length l0 → l ≡ l0
same_entries l l0 [] h n = h
same_entries l l0 (x ∷ new) h n = absurd (omega (arith, ap length h, length-append new l0))

-- Ids are not changed by a guarded update.
pub find_wallet-update :
    (k : Text) (w : Wallet) (b : ℤ) (ws : List Wallet)
    → find_wallet k (update_where (is_at w) (set_balance b) ws)
      ≡ Option.map (λ r. if is_at w r then set_balance b r else r) (find_wallet k ws)
unfolding find_wallet
find_wallet-update k w b ws = find-update _ (is_at w) (set_balance b) ws (λ r. refl)

HasUniqueIds-update :
    (w : Wallet) (b : ℤ) (ws : List Wallet)
    → HasUniqueIds ws
    → HasUniqueIds (update_where (is_at w) (set_balance b) ws)
unfolding update_where
HasUniqueIds-update w b [] u = tt
HasUniqueIds-update w b (x ∷ ws) u =
    (ground (arith, find_wallet-update x.id w b ws), HasUniqueIds-update w b ws u.1)

pub wallet_id_of : (k : Text) (r : Wallet) (ws : List Wallet) → find_wallet k ws ≡ some r → r.id ≡ k
unfolding find_wallet
wallet_id_of k r ws h = text_eq→eq r.id k (find_meets _ ws r h)

is_at-true : (w r : Wallet) → r.id ≡ w.id → r.version ≡ w.version → is_at w r ≡ true
is_at-true w r h k = ground (arith, (text_eq_iff r.id w.id).1 h)

is_at_parts : (w r : Wallet) → is_at w r ≡ true → (r.id ≡ w.id) × (r.version ≡ w.version)
is_at_parts w r h = ground (arith, text_eq→eq r.id w.id)

entries_of-cons :
    (k : Text) (e : LedgerEntry) (l : List LedgerEntry)
    → entries_of k (e ∷ l) ≡ (if text_eq e.wallet_id k then e ∷ entries_of k l else entries_of k l)
unfolding entries_of filter_where
entries_of-cons k e l = refl

module _ (p : Platform) (mono : IsMonotonic p) (i : EntryCoreInput) (consistent : IsConsistent i)
    (w : Wallet) (b : ℤ) (l0 : List LedgerEntry) (view : IsView i w b l0) (db : Db)
    (sound : IsSound p db) (new : List LedgerEntry)
    (grown : entries_of i.wallet_id db.entries ≡ new ++ l0) where
  -- The wallet that the guard lets through has the entries that were there at the read.
  unchanged :
      (r : Wallet)
      → find_wallet i.wallet_id db.wallets ≡ some r
      → r.version ≡ w.version
      → entries_of i.wallet_id db.entries ≡ l0
  unchanged r found at =
      let s = sound.each i.wallet_id r found in
      same_entries (entries_of i.wallet_id db.entries) l0 new grown
        (sym s.version ∙ at ∙ view.version)

  new_IsWalletSound :
      (r : Wallet)
      → find_wallet i.wallet_id db.wallets ≡ some r
      → r.version ≡ w.version
      → IsWalletSound p (set_balance b r) (new_entry p i b db ∷ entries_of i.wallet_id db.entries)
  unfolding new_entry
  new_IsWalletSound r found at =
      let s = sound.each i.wallet_id r found in
      let same = unchanged r found at in
      record {
        chain = (previous_hash-last_hash p mono i.wallet_id db sound, refl, s.chain);
        trail = (
          rw (same, ← view.balance, view.after) (consistent w.cached_balance),
          view.nonneg,
          s.trail,
        );
        balance = refl;
        version = omega (arith, s.version);
      }

  -- A wallet that the guard does not let through keeps its entries.
  other_IsWalletSound :
      (k : Text) (r : Wallet)
      → ((count_where (is_at w) db.wallets == 0) ≡ false)
      → find_wallet k db.wallets ≡ some r
      → is_at w r ≡ false
      → IsWalletSound p r (entries_of k (new_entry p i b db ∷ db.entries))
  unfolding new_entry
  other_IsWalletSound k r hit found miss = elim (Bool-cases (text_eq i.wallet_id k)) [
    | inl e ↦
        let (r', found', at) = guarded_hit w db.wallets sound.unique_ids hit in
        let same_id : w.id ≡ k = view.id ∙ text_eq→eq i.wallet_id k e in
        let same_row : some r' ≡ some r = sym found' ∙ rw same_id found in
        let same_version : r.version ≡ w.version = ground arith in
        absurd (
          ground
            (arith, is_at-true w r (wallet_id_of k r db.wallets found ∙ sym same_id) same_version))
    | inr e ↦ rw (entries_of-cons k (new_entry p i b db) db.entries, e) (sound.each k r found)
  ]

  written-each :
      (k : Text) (x : Wallet)
      → ((count_where (is_at w) db.wallets == 0) ≡ false)
      → find_wallet k (written p i w b db).wallets ≡ some x
      → IsWalletSound p x (entries_of k (written p i w b db).entries)
  unfolding new_entry
  written-each k x hit found = elim (Option-cases (find_wallet k db.wallets)) [
    | inl gone ↦ absurd (ground (arith, find_wallet-update k w b db.wallets))
    | inr (r, here) ↦ elim (Bool-cases (is_at w r)) [
      | inl e ↦
          let (same_id, at) = is_at_parts w r e in
          let own : i.wallet_id ≡ k =
            sym view.id ∙ sym same_id ∙ wallet_id_of k r db.wallets here in
          let state : x ≡ set_balance b r = ground (arith, find_wallet-update k w b db.wallets) in
          rw
            (
              state,
              entries_of-cons k (new_entry p i b db) db.entries,
              ← own,
              text_eq_refl i.wallet_id,
            )
            (new_IsWalletSound r (rw own here) at)
      | inr e ↦
          let state : x ≡ r = ground (arith, find_wallet-update k w b db.wallets) in
          rw state (other_IsWalletSound k r hit here e)
    ]
  ]

  written-IsSound :
      ((count_where (is_at w) db.wallets == 0) ≡ false)
      → find_entry i.idempotency_key db.entries ≡ none
      → IsSound p (written p i w b db)
  unfolding new_entry
  written-IsSound hit free = record {
    stamped = (db.ticks, omega arith, refl, refl, sound.stamped);
    unique_ids = HasUniqueIds-update w b db.wallets sound.unique_ids;
    unique_keys = (free, sound.unique_keys);
    each = λ k x found. written-each k x hit found;
  }

  written-Extends : Extends db (written p i w b db)
  written-Extends k = elim (Bool-cases (text_eq (new_entry p i b db).wallet_id k)) [
    | inl e ↦ (new_entry p i b db ∷ [], rw (entries_of-cons k (new_entry p i b db) db.entries, e))
    | inr e ↦ ([], rw (entries_of-cons k (new_entry p i b db) db.entries, e))
  ]

  pub write-IsSound :
      (e : LedgerEntry) (db' : Db)
      → write_entry p i w b db ≡ ok (e, db')
      → IsSound p db' × Extends db db'
  write-IsSound e db' h =
      let (hit, free, _, state) = write_ok p i w b db e db' h in
      rw state (written-IsSound hit free, written-Extends)
