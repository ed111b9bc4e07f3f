-- ===== src/Ledger/Hash.antt =====
-- src/modules/ledger/hash.util.ts: the canonical text of an entry and its hash.
use mrcoin.Base.{ℕ, zero, suc, [], ◌∷◌, ◌++◌, Option, none, some}
use mrcoin.Base.Int.{ℤ}
use mrcoin.Base.Text.{Text, codes, decimal_ℤ, join_bar}
use mrcoin.Db.{
  Platform, LedgerEntry, LedgerEntryType, credit, debit, expire, LedgerReferenceType, distribution,
  redemption, expiration, campaign, manual_adjustment, transfer, spin, course_completion,
}

abbrev repeat_code : ℕ → ℕ → Text
repeat_code zero c = []
repeat_code (suc n) c = c ∷ repeat_code n c

-- `'0'.repeat(64)`
unfoldable pub genesis_hash : Text
genesis_hash = repeat_code 64 b'0'

pub record LedgerHashPayload : Type 0 where
  pub wallet_id : Text
  pub type : LedgerEntryType
  pub amount : ℤ
  pub balance_after : ℤ
  pub reference_type : LedgerReferenceType
  pub reference_id : Text
  pub idempotency_key : Text
  pub batch_id : Option Text
  pub created_at : ℕ

-- The values of the enums are their names.
abbrev pub type_text : LedgerEntryType → Text
type_text credit = codes "CREDIT"
type_text debit = codes "DEBIT"
type_text LedgerEntryType.reversal = codes "REVERSAL"
type_text expire = codes "EXPIRE"

abbrev pub reference_text : LedgerReferenceType → Text
reference_text distribution = codes "DISTRIBUTION"
reference_text redemption = codes "REDEMPTION"
reference_text expiration = codes "EXPIRATION"
reference_text campaign = codes "CAMPAIGN"
reference_text manual_adjustment = codes "MANUAL_ADJUSTMENT"
reference_text LedgerReferenceType.reversal = codes "REVERSAL"
reference_text transfer = codes "TRANSFER"
reference_text spin = codes "SPIN"
reference_text course_completion = codes "COURSE_COMPLETION"

-- `x ?? ''`
abbrev pub or_empty : Option Text → Text
or_empty none = []
or_empty (some t) = t

module _ (p : Platform) where
  unfoldable pub canonicalize_ledger_payload : LedgerHashPayload → Text
  unfolding join_bar
  canonicalize_ledger_payload h = join_bar (
      h.wallet_id
      ∷ type_text h.type
      ∷ decimal_ℤ h.amount
      ∷ decimal_ℤ h.balance_after
      ∷ reference_text h.reference_type
      ∷ h.reference_id
      ∷ h.idempotency_key
      ∷ or_empty h.batch_id
      ∷ p.to_iso_string h.created_at
      ∷ [])

  unfoldable pub compute_entry_hash : Text → LedgerHashPayload → Text
  compute_entry_hash prev_hash h = p.sha256 (prev_hash ++ canonicalize_ledger_payload h)

-- The hashed fields of a stored entry.
abbrev pub payload_of : LedgerEntry → LedgerHashPayload
payload_of e = record {
  wallet_id = e.wallet_id;
  type = e.type;
  amount = e.amount;
  balance_after = e.balance_after;
  reference_type = e.reference_type;
  reference_id = e.reference_id;
  idempotency_key = e.idempotency_key;
  batch_id = e.batch_id;
  created_at = e.created_at;
}
