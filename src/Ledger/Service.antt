-- ===== src/Ledger/Service.antt =====
-- LedgerService (src/modules/ledger/ledger.service.ts): `post`, `reverse`, the retry on a version
-- conflict, and the transfer between two wallets. `post_in` and `reverse_in` are the calls with a
-- caller's transaction; `post` and `reverse` open their own. `gaps n` is what other transactions
-- commit between the read and the guarded update of attempt n.
mod Inputs
unfoldable pub use Inputs.*
use mrcoin.Base.{
  ℕ, zero, suc, ◌-◌, Bool, true, false, ◌&&◌, Option, none, some, length, leb, if◌then◌else◌,
}
use mrcoin.Base.Int.{ℤ, pos, neg, ltb_ℤ, eq_ℤ}
use mrcoin.Base.Text.{Text, text_eq}
use mrcoin.Base.Table.{find_where}
use mrcoin.Db.{
  Db, Wallet, LedgerEntry, LedgerEntryType, credit, debit, LedgerReferenceType, transfer, type_eq,
  reference_eq, Platform, Failure, Tx, Action, Result, ok, err, ◌>>=◌, pure, validation,
  record_not_found, unique_violation, version_conflict, idempotency_key, idempotency_conflict,
  invalid_reversal, ledger_concurrency,
}
use mrcoin.Ledger.Entry.{
  EntryCoreInput, find_wallet, find_entry, read_wallet, write_entry, execute_entry,
}

module _ (p : Platform) where
  -- `execute` with the caller's transaction.
  unfoldable pub execute_in : EntryCoreInput → Tx LedgerEntry
  execute_in input db = elim (find_entry input.idempotency_key db.entries) [
    | some e ↦ elim (replay_entry e input) [ ok r ↦ ok (r, db) | err x ↦ err x ]
    | none ↦ execute_entry p input db
  ]

  unfoldable pub post_in : PostLedgerEntryInput → Tx LedgerEntry
  post_in input db =
      if post_schema_accepts input then execute_in (core_of_post input) db else err validation

  -- One round of `executeWithRetry`: the state is what is committed after it.
  unfoldable pub attempt_entry : (Db → Db) → EntryCoreInput → Action LedgerEntry
  attempt_entry gap input = with_gap gap (read_wallet input) (λ (w, b). write_entry p input w b)

  unfoldable pub replay_stored : EntryCoreInput → Action LedgerEntry
  replay_stored input db = elim (find_entry input.idempotency_key db.entries) [
    | none ↦ (err record_not_found, db)
    | some e ↦ (replay_entry e input, db)
  ]

  -- `left` more attempts may follow this one: `attempt + left` is MAX_RETRIES.
  unfoldable pub execute_with_retry : (ℕ → Db → Db) → ℕ → ℕ → EntryCoreInput → Action LedgerEntry
  execute_with_retry gaps zero attempt input db =
      settle (λ db'. (err (ledger_concurrency input.wallet_id attempt), db')) (replay_stored input)
        (attempt_entry (gaps attempt) input db)
  execute_with_retry gaps (suc left) attempt input db =
      settle (execute_with_retry gaps left (suc attempt) input) (replay_stored input)
        (attempt_entry (gaps attempt) input db)

  -- `execute` with no transaction given.
  unfoldable pub execute : (ℕ → Db → Db) → EntryCoreInput → Action LedgerEntry
  execute gaps input db = elim (find_entry input.idempotency_key db.entries) [
    | some e ↦ (replay_entry e input, db)
    | none ↦ execute_with_retry gaps (max_retries - 1) 1 input db
  ]

  unfoldable pub post : (ℕ → Db → Db) → PostLedgerEntryInput → Action LedgerEntry
  post gaps input db =
      if post_schema_accepts input
      then execute gaps (core_of_post input) db
      else (err validation, db)

  unfoldable pub reverse_in : ReverseLedgerEntryInput → Tx LedgerEntry
  reverse_in i db = elim (prepare_reverse i db) [ err e ↦ err e | ok core ↦ execute_in core db ]

  unfoldable pub reverse_entry : (ℕ → Db → Db) → ReverseLedgerEntryInput → Action LedgerEntry
  reverse_entry gaps i db = elim (prepare_reverse i db) [
    | err e ↦ (err e, db)
    | ok core ↦ execute gaps core db
  ]

  -- The two stored entries of a transfer that was made before.
  unfoldable pub stored_transfer :
      TransferBetweenWalletsInput → Db → Option (LedgerEntry × LedgerEntry)
  stored_transfer i db = elim (find_entry i.debit_idempotency_key db.entries) [
    | none ↦ none
    | some d ↦ elim (find_entry i.credit_idempotency_key db.entries) [
      | none ↦ none
      | some c ↦ some (d, c)
    ]
  ]

  -- The transaction of `transferBetweenWallets` from the guarded update of the sender's wallet on.
  unfoldable pub finish_transfer :
      TransferBetweenWalletsInput → Wallet → ℤ → Tx (LedgerEntry × LedgerEntry)
  finish_transfer i w balance_after = do
    debit_entry ← write_entry p (transfer_debit i) w balance_after
    credit_entry ← execute_entry p (transfer_credit i)
    pure (debit_entry, credit_entry)

  -- One round of `transferBetweenWallets`, with `gap` committed by others between the read of the
  -- sender's wallet and its guarded update.
  unfoldable pub attempt_transfer :
      (Db → Db) → TransferBetweenWalletsInput → Action (LedgerEntry × LedgerEntry)
  attempt_transfer gap i =
      with_gap gap (read_wallet (transfer_debit i)) (λ (w, b). finish_transfer i w b)

  -- The recovery from a violated unique key: both entries are looked up again.
  unfoldable pub replay_transfer : TransferBetweenWalletsInput → Action (LedgerEntry × LedgerEntry)
  replay_transfer i db = elim (stored_transfer i db) [
    | none ↦ (err record_not_found, db)
    | some r ↦ (ok r, db)
  ]

  -- One call of `transferBetweenWallets`, `again` being its call of itself.
  unfoldable pub transfer_once :
      Action (LedgerEntry × LedgerEntry)
      → (Db → Db)
      → TransferBetweenWalletsInput
      → Action (LedgerEntry × LedgerEntry)
  transfer_once again gap i db = elim (stored_transfer i db) [
    | some r ↦ (ok r, db)
    | none ↦ settle again (replay_transfer i) (attempt_transfer gap i db)
  ]

  -- `left` more attempts may follow this one. Each begins with the lookup of both keys.
  unfoldable pub transfer_between_wallets :
      (ℕ → Db → Db) → ℕ → ℕ → TransferBetweenWalletsInput → Action (LedgerEntry × LedgerEntry)
  transfer_between_wallets gaps zero attempt i db =
      transfer_once (λ db'. (err (ledger_concurrency i.from_wallet_id attempt), db')) (gaps attempt)
        i db
  transfer_between_wallets gaps (suc left) attempt i db =
      transfer_once (transfer_between_wallets gaps left (suc attempt) i) (gaps attempt) i db

-- `transferBetweenWallets` as it is called, with `attempt = 1`.
unfoldable pub transfer_wallets :
    Platform → (ℕ → Db → Db) → TransferBetweenWalletsInput → Action (LedgerEntry × LedgerEntry)
transfer_wallets p gaps = transfer_between_wallets p gaps (max_retries - 1) 1

unfoldable pub get_balance : Text → Db → Result (Text × ℤ × ℕ)
unfolding find_wallet
get_balance k db = elim (find_wallet k db.wallets) [
  | none ↦ err record_not_found
  | some w ↦ ok (w.id, w.cached_balance, w.version)
]
