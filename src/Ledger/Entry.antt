-- ===== src/Ledger/Entry.antt =====
-- LedgerService.executeEntry (src/modules/ledger/ledger.service.ts): one movement of one wallet.
-- It is split where another transaction may commit: at the read of the wallet, and from the
-- guarded update on, which holds the wallet's row until the commit.
use mrcoin.Base.{◌+◌, Bool, ◌&&◌, List, ◌∷◌, Option, none, some, head?, ◌==◌, if◌then◌else◌}
use mrcoin.Base.Int.{ℤ, pos, ◌+ℤ◌, neg, ltb_ℤ}
use mrcoin.Base.Text.{Text, text_eq}
use mrcoin.Base.Table.{find_where, filter_where, update_where, count_where, any_where, order_by}
use mrcoin.Db.{
  Db, Wallet, LedgerEntry, LedgerEntryType, LedgerReferenceType, Platform, stamp_before, Tx, Result,
  ok, err, record_not_found, unique_violation, version_conflict, insufficient_balance,
  idempotency_key,
}
use mrcoin.Ledger.Hash.{genesis_hash, compute_entry_hash}

pub record EntryCoreInput : Type 0 where
  pub wallet_id : Text
  pub type : LedgerEntryType
  pub delta : ℤ
  pub amount : ℤ
  pub reference_type : LedgerReferenceType
  pub reference_id : Text
  pub description : Text
  pub batch_id : Option Text
  pub distribution_item_id : Option Text
  pub idempotency_key : Text
  pub reversal_of_id : Option Text

unfoldable pub find_wallet : Text → List Wallet → Option Wallet
find_wallet k = find_where λ w. text_eq w.id k

unfoldable pub find_entry : Text → List LedgerEntry → Option LedgerEntry
find_entry k = find_where λ e. text_eq e.idempotency_key k

-- `where: { walletId }`
unfoldable pub entries_of : Text → List LedgerEntry → List LedgerEntry
entries_of k = filter_where λ e. text_eq e.wallet_id k

-- `orderBy: [{ createdAt: 'desc' }, { id: 'desc' }]` and the same with `'asc'`.
abbrev pub newer : LedgerEntry → LedgerEntry → Bool
newer a b = stamp_before b.created_at b.id a.created_at a.id

abbrev pub older : LedgerEntry → LedgerEntry → Bool
older a b = stamp_before a.created_at a.id b.created_at b.id

-- The wallet as read, and `balanceAfter`.
unfoldable pub read_wallet : EntryCoreInput → Db → Result (Wallet × ℤ)
unfolding find_wallet
read_wallet input db = elim (find_wallet input.wallet_id db.wallets) [
  | none ↦ err record_not_found
  | some w ↦
      let balance_after = w.cached_balance +ℤ input.delta in
      if ltb_ℤ balance_after (pos 0)
      then err (insufficient_balance input.wallet_id (neg input.delta) w.cached_balance)
      else ok (w, balance_after)
]

-- `where: { id: wallet.id, version: wallet.version }`
abbrev pub is_at : Wallet → Wallet → Bool
is_at w r = text_eq r.id w.id && r.version == w.version

abbrev pub set_balance : ℤ → Wallet → Wallet
set_balance b r = record r { cached_balance = b; version = r.version + 1 }

-- `previousEntry?.hash ?? GENESIS_HASH`
abbrev pub hash_or_genesis : Option LedgerEntry → Text
hash_or_genesis none = genesis_hash
hash_or_genesis (some e) = e.hash

-- The hash that `findFirst` for the wallet's latest entry gives.
unfoldable pub previous_hash : Text → Db → Text
unfolding order_by entries_of
previous_hash k db = hash_or_genesis (head? (order_by newer (entries_of k db.entries)))

module _ (p : Platform) where
  -- The row that `ledgerEntry.create` writes.
  unfoldable pub new_entry : EntryCoreInput → ℤ → Db → LedgerEntry
  unfolding previous_hash
  new_entry input balance_after db = record {
    id = p.cuid db.ticks;
    wallet_id = input.wallet_id;
    type = input.type;
    amount = input.amount;
    balance_after = balance_after;
    idempotency_key = input.idempotency_key;
    reference_type = input.reference_type;
    reference_id = input.reference_id;
    batch_id = input.batch_id;
    distribution_item_id = input.distribution_item_id;
    description = input.description;
    prev_hash = previous_hash input.wallet_id db;
    hash = compute_entry_hash p (previous_hash input.wallet_id db) (record {
      wallet_id = input.wallet_id;
      type = input.type;
      amount = input.amount;
      balance_after = balance_after;
      reference_type = input.reference_type;
      reference_id = input.reference_id;
      idempotency_key = input.idempotency_key;
      batch_id = input.batch_id;
      created_at = p.now db.ticks;
    });
    reversal_of_id = input.reversal_of_id;
    created_at = p.now db.ticks;
  }

  -- From `updateMany` to the end.
  unfoldable pub write_entry : EntryCoreInput → Wallet → ℤ → Tx LedgerEntry
  unfolding new_entry
  write_entry input w balance_after db =
      if count_where (is_at w) db.wallets == 0
      then err version_conflict
      else (if any_where (λ e. text_eq e.idempotency_key input.idempotency_key) db.entries
          then err (unique_violation idempotency_key)
          else ok (
            new_entry input balance_after db,
            record db {
              wallets = update_where (is_at w) (set_balance balance_after) db.wallets;
              entries = new_entry input balance_after db ∷ db.entries;
              ticks = db.ticks + 1;
            },
          ))

  -- Read and write with nothing between them: the wallet's row is this transaction's own.
  unfoldable pub execute_entry : EntryCoreInput → Tx LedgerEntry
  unfolding read_wallet write_entry
  execute_entry input db = elim (read_wallet input db) [
    | err e ↦ err e
    | ok (w, balance_after) ↦ write_entry input w balance_after db
  ]
