-- ===== src/Ledger/Service/Inputs.antt =====
-- The inputs of LedgerService with their schemas (src/modules/ledger/dto), the entries that they ask
-- for, and the catch clauses of its retry loops.
use mrcoin.Base.{ℕ, Bool, true, false, ◌&&◌, Option, none, some, length, leb, if◌then◌else◌}
use mrcoin.Base.Int.{ℤ, pos, neg, ltb_ℤ, eq_ℤ}
use mrcoin.Base.Text.{Text, text_eq}
use mrcoin.Base.Table.{find_where}
use mrcoin.Db.{
  Db, LedgerEntry, LedgerEntryType, credit, debit, LedgerReferenceType, transfer, type_eq,
  reference_eq, Failure, Tx, Action, Result, ok, err, validation, record_not_found,
  unique_violation, version_conflict, idempotency_key, idempotency_conflict, invalid_reversal,
}
use mrcoin.Ledger.Entry.{EntryCoreInput}

pub record PostLedgerEntryInput : Type 0 where
  pub wallet_id : Text
  pub type : LedgerEntryType
  pub amount : ℤ
  pub reference_type : LedgerReferenceType
  pub reference_id : Text
  pub description : Text
  pub batch_id : Option Text
  pub distribution_item_id : Option Text
  pub idempotency_key : Text

-- `z.string().min(n)`
abbrev pub has_min : ℕ → Text → Bool
has_min n t = leb n (length t)

abbrev pub opt_has_min : ℕ → Option Text → Bool
opt_has_min n none = true
opt_has_min n (some t) = has_min n t

abbrev pub is_postable : LedgerEntryType → Bool
is_postable LedgerEntryType.reversal = false
is_postable _ = true

unfoldable pub post_schema_accepts : PostLedgerEntryInput → Bool
post_schema_accepts i =
    has_min 1 i.wallet_id
    && is_postable i.type
    && ltb_ℤ (pos 0) i.amount
    && has_min 1 i.reference_id
    && has_min 1 i.description
    && opt_has_min 1 i.batch_id
    && opt_has_min 1 i.distribution_item_id
    && has_min 8 i.idempotency_key

-- `input.type === 'CREDIT' ? input.amount : -input.amount`
abbrev pub post_delta : LedgerEntryType → ℤ → ℤ
post_delta t amount = if type_eq t credit then amount else neg amount

unfoldable pub core_of_post : PostLedgerEntryInput → EntryCoreInput
core_of_post i = record {
  wallet_id = i.wallet_id;
  type = i.type;
  delta = post_delta i.type i.amount;
  amount = i.amount;
  reference_type = i.reference_type;
  reference_id = i.reference_id;
  description = i.description;
  batch_id = i.batch_id;
  distribution_item_id = i.distribution_item_id;
  idempotency_key = i.idempotency_key;
  reversal_of_id = none;
}

unfoldable pub replay_matches : LedgerEntry → EntryCoreInput → Bool
replay_matches e i =
    text_eq e.wallet_id i.wallet_id
    && type_eq e.type i.type
    && eq_ℤ e.amount i.amount
    && reference_eq e.reference_type i.reference_type
    && text_eq e.reference_id i.reference_id

-- `assertIdempotentReplayMatches`, and the entry that is then returned.
unfoldable pub replay_entry : LedgerEntry → EntryCoreInput → Result LedgerEntry
unfolding replay_matches
replay_entry e i = if replay_matches e i then ok e else err (idempotency_conflict i.idempotency_key)

-- How the catch clauses of the retry loops tell failures apart.
pub data Caught : Type 0 where
  versions key other : Caught

unfoldable pub caught : Failure → Caught
caught version_conflict = versions
caught (unique_violation idempotency_key) = key
caught _ = other

abbrev pub max_retries : ℕ
max_retries = 3

-- The catch clause, `again` being what follows a version conflict.
unfoldable pub settle : {A : Type 0} → Action A → Action A → Result A × Db → Result A × Db
settle again stored (ok e, db) = (ok e, db)
settle again stored (err x, db) = elim (caught x) [
  | versions ↦ again db
  | key ↦ stored db
  | other ↦ (err x, db)
]

pub record ReverseLedgerEntryInput : Type 0 where
  pub entry_id : Text
  pub reason : Text
  pub idempotency_key : Text

pub record TransferBetweenWalletsInput : Type 0 where
  pub from_wallet_id : Text
  pub to_wallet_id : Text
  pub amount : ℤ
  pub reference_id : Text
  pub debit_description : Text
  pub credit_description : Text
  pub debit_idempotency_key : Text
  pub credit_idempotency_key : Text

unfoldable pub reverse_schema_accepts : ReverseLedgerEntryInput → Bool
reverse_schema_accepts i = has_min 1 i.entry_id && has_min 1 i.reason && has_min 8 i.idempotency_key

-- `original.type === 'CREDIT' ? -original.amount : original.amount`
unfoldable pub core_of_reverse : LedgerEntry → ReverseLedgerEntryInput → EntryCoreInput
core_of_reverse o i = record {
  wallet_id = o.wallet_id;
  type = LedgerEntryType.reversal;
  delta = if type_eq o.type credit then neg o.amount else o.amount;
  amount = o.amount;
  reference_type = LedgerReferenceType.reversal;
  reference_id = o.id;
  description = i.reason;
  batch_id = o.batch_id;
  distribution_item_id = o.distribution_item_id;
  idempotency_key = i.idempotency_key;
  reversal_of_id = some o.id;
}

-- What `reverse` does before `execute`.
unfoldable pub prepare_reverse : ReverseLedgerEntryInput → Db → Result EntryCoreInput
unfolding reverse_schema_accepts core_of_reverse
prepare_reverse i db =
    if reverse_schema_accepts i
    then (elim (find_where (λ e. text_eq e.id i.entry_id) db.entries) [
      | none ↦ err record_not_found
      | some o ↦
          if type_eq o.type LedgerEntryType.reversal
          then err (invalid_reversal o.id)
          else ok (core_of_reverse o i)
    ])
    else err validation

unfoldable pub transfer_debit : TransferBetweenWalletsInput → EntryCoreInput
transfer_debit i = record {
  wallet_id = i.from_wallet_id;
  type = debit;
  delta = neg i.amount;
  amount = i.amount;
  reference_type = transfer;
  reference_id = i.reference_id;
  description = i.debit_description;
  batch_id = none;
  distribution_item_id = none;
  idempotency_key = i.debit_idempotency_key;
  reversal_of_id = none;
}

unfoldable pub transfer_credit : TransferBetweenWalletsInput → EntryCoreInput
transfer_credit i = record {
  wallet_id = i.to_wallet_id;
  type = credit;
  delta = i.amount;
  amount = i.amount;
  reference_type = transfer;
  reference_id = i.reference_id;
  description = i.credit_description;
  batch_id = none;
  distribution_item_id = none;
  idempotency_key = i.credit_idempotency_key;
  reversal_of_id = none;
}

-- A transaction that reads, and whose guarded writes come after what others commit meanwhile. The
-- state is what is committed after it: a failed transaction leaves only the others' work.
unfoldable pub with_gap : {X A : Type 0} → (Db → Db) → (Db → Result X) → (X → Tx A) → Action A
with_gap gap read finish db = elim (read db) [
  | err e ↦ (err e, db)
  | ok x ↦ elim (finish x (gap db)) [ ok (a, db') ↦ (ok a, db') | err e ↦ (err e, gap db) ]
]
