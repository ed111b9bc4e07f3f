-- ===== src/Ledger/Reversals.antt =====
-- What `reverse` does to the balances, and that it does it once along a chain of reversals.
use mrcoin.Base.{◌+◌, ◌≡◌, ◌≢◌, refl, sym, ◌∙◌, true, false, ◌∷◌, none, some, if◌then◌else◌}
use mrcoin.Base.Int.{ℤ, pos, neg, ◌+ℤ◌, ◌-ℤ◌, ◌≤ℤ◌, int_laws}
use mrcoin.Base.Text.{Text, text_eq, text_eq_refl}
use mrcoin.Base.Table.{find_where}
use mrcoin.Db.{
  Db, Wallet, LedgerEntry, LedgerEntryType, credit, debit, expire, type_eq, Platform, ok, err,
  invalid_reversal,
}
use mrcoin.Ledger.Entry.{EntryCoreInput, find_wallet, find_entry, new_entry}
use mrcoin.Ledger.Service.{
  ReverseLedgerEntryInput, reverse_schema_accepts, core_of_reverse, prepare_reverse, execute,
  reverse_entry,
}
use mrcoin.Ledger.Posts.{attempt_done}
use mrcoin.Ledger.Outcome.{quiet, execute_new, retry_done, find-written_self, find-written_ne}

-- What undoes an entry of a type and an amount: a credit is taken back, a debit or an expiry is paid
-- back, and a reversal is not undone.
abbrev pub Undoes : LedgerEntryType → ℤ → ℤ → ℤ → Type 0
Undoes credit amount before after = after ≡ before -ℤ amount
Undoes debit amount before after = after ≡ before +ℤ amount
Undoes expire amount before after = after ≡ before +ℤ amount
Undoes LedgerEntryType.reversal amount before after = ⊥

undo_delta :
    (t : LedgerEntryType) (n before after : ℤ)
    → Undoes t n before after
    → (before +ℤ (if type_eq t credit then neg n else n) ≡ after)
      × (type_eq t LedgerEntryType.reversal ≡ false)
unfolding type_eq
undo_delta credit n before after h = (rw h (omega int_laws), refl)
undo_delta debit n before after h = (sym h, refl)
undo_delta expire n before after h = (sym h, refl)
undo_delta LedgerEntryType.reversal n before after h = absurd h

module _ (p : Platform) where
  prepared :
      (i : ReverseLedgerEntryInput) (db : Db) (o : LedgerEntry)
      → reverse_schema_accepts i ≡ true
      → find_where (λ e. text_eq e.id i.entry_id) db.entries ≡ some o
      → type_eq o.type LedgerEntryType.reversal ≡ false
      → reverse_entry p quiet i db ≡ execute p quiet (core_of_reverse o i) db
  unfolding reverse_entry prepare_reverse
  prepared i db o accepted found fit =
      rw (reverse_entry, prepare_reverse, accepted, found, fit) refl

  refused :
      (i : ReverseLedgerEntryInput) (db : Db) (o : LedgerEntry)
      → reverse_schema_accepts i ≡ true
      → find_where (λ e. text_eq e.id i.entry_id) db.entries ≡ some o
      → type_eq o.type LedgerEntryType.reversal ≡ true
      → reverse_entry p quiet i db ≡ (err (invalid_reversal o.id), db)
  unfolding reverse_entry prepare_reverse
  refused i db o accepted found unfit =
      rw (reverse_entry, prepare_reverse, accepted, found, unfit) refl

  -- A reversal under a new key, of an entry that is no reversal, when nobody interferes and the wallet
  -- is left at zero or more: the entry's wallet gets the balance that undoes the entry (a credit is
  -- taken back, a debit or an expiry paid back), a wallet of another id does not change, and one entry
  -- is added, of type REVERSAL, that points to the first. To reverse that one is refused, and writes
  -- nothing.
  pub reverse_entry-Undoes :
      (i i' : ReverseLedgerEntryInput) (db : Db) (o : LedgerEntry) (w : Wallet) (k : Text) (b : ℤ)
      → reverse_schema_accepts i ≡ true
      → reverse_schema_accepts i' ≡ true
      → i'.entry_id ≡ p.cuid db.ticks
      → find_where (λ e. text_eq e.id i.entry_id) db.entries ≡ some o
      → find_entry i.idempotency_key db.entries ≡ none
      → find_wallet o.wallet_id db.wallets ≡ some w
      → Undoes o.type o.amount w.cached_balance b
      → pos 0 ≤ℤ b
      → k ≢ o.wallet_id
      → let (r, db') = reverse_entry p quiet i db in
        (find_wallet o.wallet_id db'.wallets
          ≡ some (record w { cached_balance = b; version = w.version + 1 }))
        × (find_wallet k db'.wallets ≡ find_wallet k db.wallets)
        × ((e : LedgerEntry) × (r ≡ ok e)
            × (db'.entries ≡ e ∷ db.entries)
            × (e.type ≡ LedgerEntryType.reversal)
            × (e.amount ≡ o.amount)
            × (e.reversal_of_id ≡ some o.id)
            × (reverse_entry p quiet i' db' ≡ (err (invalid_reversal e.id), db')))
  unfolding core_of_reverse new_entry find_where type_eq
  reverse_entry-Undoes i i' db o w k b accepted accepted' new_id found free wallet undone enough
        ne =
      let core : EntryCoreInput = core_of_reverse o i in
      let (after, fit) = undo_delta o.type o.amount w.cached_balance b undone in
      let done =
        prepared i db o accepted found fit
        ∙ execute_new p quiet core db free
        ∙ retry_done p quiet core 2 1 db _ _
            (attempt_done p (λ d. d) core db w wallet (rw after enough) wallet free) in
      rw done (
        find-written_self p core w (w.cached_balance +ℤ core.delta) o.wallet_id db wallet
            ∙ (rw after refl),
        find-written_ne p core w (w.cached_balance +ℤ core.delta) o.wallet_id k db wallet ne,
        (
          new_entry p core (w.cached_balance +ℤ core.delta) db,
          refl,
          refl,
          refl,
          refl,
          refl,
          refused i' _ (new_entry p core (w.cached_balance +ℤ core.delta) db) accepted'
              (rw (new_id, text_eq_refl (p.cuid db.ticks)) refl) refl,
        ),
      )
