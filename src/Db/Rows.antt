-- ===== src/Db/Rows.antt =====
-- The rows of the tables, and the database as a record of tables. Each table lists the latest row
-- first. `ticks` counts the stamps that rows were given.
use mrcoin.Base.{ℕ, List, Option, Bool, ◌==◌, ◌≡◌, arith, true}
use mrcoin.Base.Int.{ℤ}
use mrcoin.Base.Text.{Text}

pub data LedgerEntryType : Type 0 where
  credit debit reversal expire : LedgerEntryType

pub data LedgerReferenceType : Type 0 where
  distribution redemption expiration campaign manual_adjustment : LedgerReferenceType
  reversal transfer spin course_completion : LedgerReferenceType

pub data BatchStatus : Type 0 where
  pending paid rejected expired canceled : BatchStatus

pub data MembershipStatus : Type 0 where
  active inactive : MembershipStatus

pub data MembershipType : Type 0 where
  customer employee : MembershipType

pub data UserStatus : Type 0 where
  active pending_claim : UserStatus

pub data RedemptionStatus : Type 0 where
  pending confirmed expired delivered : RedemptionStatus

pub data DeliveredByType : Type 0 where
  partner platform_admin : DeliveredByType

pub data DistributionStatus : Type 0 where
  pending processing completed completed_with_errors : DistributionStatus

pub data SpinStatus : Type 0 where
  pending redeemed expired : SpinStatus

pub data DistributionItemStatus : Type 0 where
  pending done failed : DistributionItemStatus

pub record Wallet : Type 0 where
  pub id : Text
  pub membership_id : Text
  pub cached_balance : ℤ
  pub version : ℕ

pub record LedgerEntry : Type 0 where
  pub id : Text
  pub wallet_id : Text
  pub type : LedgerEntryType
  pub amount : ℤ
  pub balance_after : ℤ
  pub idempotency_key : Text
  pub reference_type : LedgerReferenceType
  pub reference_id : Text
  pub batch_id : Option Text
  pub distribution_item_id : Option Text
  pub description : Text
  pub prev_hash : Text
  pub hash : Text
  pub reversal_of_id : Option Text
  pub created_at : ℕ

pub record CoinBatch : Type 0 where
  pub id : Text
  pub organization_id : Text
  pub total_coins : ℤ
  pub remaining_coins : ℤ
  pub price_in_cents : ℕ
  pub status : BatchStatus
  pub expires_at : ℕ
  pub psp_charge_id : Option Text
  pub approved_by_platform_admin_id : Option Text
  pub rejected_by_platform_admin_id : Option Text
  pub rejection_reason : Option Text
  pub idempotency_key : Option Text
  pub created_at : ℕ

pub record User : Type 0 where
  pub id : Text
  pub cpf_encrypted : Text
  pub cpf_hash : Text
  pub name : Text
  pub status : UserStatus
  pub transaction_pin_hash : Option Text

pub record Membership : Type 0 where
  pub id : Text
  pub user_id : Text
  pub organization_id : Text
  pub type : MembershipType
  pub external_ref : Option Text
  pub status : MembershipStatus

pub record Transfer : Type 0 where
  pub id : Text
  pub from_membership_id : Text
  pub to_membership_id : Text
  pub amount : ℤ
  pub idempotency_key : Text
  pub debit_ledger_entry_id : Option Text
  pub credit_ledger_entry_id : Option Text
  pub created_at : ℕ

pub record Redemption : Type 0 where
  pub id : Text
  pub membership_id : Text
  pub wallet_id : Text
  pub partner_id : Text
  pub offer_id : Option Text
  pub amount : ℤ
  pub pickup_code : Text
  pub qr_payload : Text
  pub idempotency_key : Text
  pub status : RedemptionStatus
  pub confirmed_at : Option ℕ
  pub ledger_entry_id : Option Text
  pub delivered_at : Option ℕ
  pub delivered_by_type : Option DeliveredByType
  pub delivered_by_id : Option Text
  pub created_at : ℕ

-- The part of an organization that its purchases read.
pub record Organization : Type 0 where
  pub id : Text
  pub name : Text
  pub cnpj : Text
  pub asaas_customer_id : Option Text

pub record ConversionRate : Type 0 where
  pub organization_id : Text
  pub coins_per_real_scaled : ℕ

pub record Partner : Type 0 where
  pub id : Text
  pub name : Text
  pub active : Bool

pub record OfferCategory : Type 0 where
  pub name : Text
  pub slug : Text
  pub active : Bool

pub record Offer : Type 0 where
  pub id : Text
  pub partner_id : Text
  pub title : Text
  pub category : Text
  pub cost_in_coins : ℤ
  pub featured : Bool
  pub valid_from : Option ℕ
  pub valid_until : Option ℕ
  pub per_user_limit : Option ℕ
  pub active : Bool
  pub created_at : ℕ

-- The rows of the two audit logs that stand for decisions on batches, with their payloads.
pub data BatchAudit : Type 0 where
  -- the operator, the batch, its organization, price and coins, and the request's address
  batch_approved : Text → Text → Text → ℕ → ℤ → Option Text → BatchAudit
  -- the operator, the batch, its organization, the reason, and the request's address
  batch_rejected : Text → Text → Text → Option Text → Option Text → BatchAudit
  -- the organization and the charge
  batch_payment_confirmed : Text → Text → BatchAudit

pub record Db : Type 0 where
  pub wallets : List Wallet
  pub entries : List LedgerEntry
  pub batches : List CoinBatch
  pub users : List User
  pub memberships : List Membership
  pub transfers : List Transfer
  pub redemptions : List Redemption
  pub organizations : List Organization
  pub rates : List ConversionRate
  pub batch_audits : List BatchAudit
  pub partners : List Partner
  pub categories : List OfferCategory
  pub offers : List Offer
  pub ticks : ℕ

type_code : LedgerEntryType → ℕ
type_code credit = 0
type_code debit = 1
type_code LedgerEntryType.reversal = 2
type_code expire = 3

unfoldable pub type_eq : LedgerEntryType → LedgerEntryType → Bool
unfolding type_code
type_eq a b = type_code a == type_code b

reference_code : LedgerReferenceType → ℕ
reference_code distribution = 0
reference_code redemption = 1
reference_code expiration = 2
reference_code campaign = 3
reference_code manual_adjustment = 4
reference_code LedgerReferenceType.reversal = 5
reference_code transfer = 6
reference_code spin = 7
reference_code course_completion = 8

unfoldable pub reference_eq : LedgerReferenceType → LedgerReferenceType → Bool
unfolding reference_code
reference_eq a b = reference_code a == reference_code b

pub type_eq→eq : (a b : LedgerEntryType) → type_eq a b ≡ true → a ≡ b
unfolding type_eq
type_eq→eq a b h = ground arith

pub reference_eq→eq : (a b : LedgerReferenceType) → reference_eq a b ≡ true → a ≡ b
unfolding reference_eq
reference_eq→eq a b h = ground arith
