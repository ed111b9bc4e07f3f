-- ===== src/Db/Exceptions.antt =====
-- The exceptions that the services throw, one constructor for each class, with what they carry.
use mrcoin.Base.{ℕ}
use mrcoin.Base.Int.{ℤ}
use mrcoin.Base.Text.{Text}
use mrcoin.Db.Rows.{BatchStatus, DistributionStatus}

-- The columns with a unique index on which a violation can be reported.
pub data Column : Type 0 where
  idempotency_key id pickup_code qr_payload token_hash psp_charge_id : Column

pub data Failure : Type 0 where
  -- a zod schema refused the input
  validation : Failure
  -- `findUniqueOrThrow` found no row
  record_not_found : Failure
  -- Prisma's P2002
  unique_violation : Column → Failure
  -- LedgerVersionConflictError
  version_conflict : Failure
  -- LedgerConcurrencyException: the wallet and the attempts made
  ledger_concurrency : Text → ℕ → Failure
  -- InsufficientBalanceException: the wallet, what was asked, what was there
  insufficient_balance : Text → ℤ → ℤ → Failure
  -- InvalidReversalException: the entry
  invalid_reversal : Text → Failure
  -- IdempotencyConflictException: the key
  idempotency_conflict : Text → Failure
  -- InsufficientCoinStockException: the organization, what was asked, what was there
  insufficient_coin_stock : Text → ℤ → ℤ → Failure
  membership_not_found recipient_not_found self_transfer : Failure
  -- TransferDailyLimitExceededException: the limit, what was sent, what was asked
  transfer_daily_limit : ℤ → ℤ → ℤ → Failure
  pin_locked pin_not_set : Failure
  -- InvalidPinException: the attempts left
  invalid_pin : ℕ → Failure
  offer_not_found redemption_limit_reached redemption_not_found no_spin_available : Failure
  -- the InvalidRefreshTokenException of three modules, and that of the partners
  invalid_refresh_token invalid_partner_refresh_token : Failure
  -- the plain Error at the end of RedemptionsService.create
  no_unique_pickup_code : Failure
  -- BadRequestException of BatchesService.createPendingBatch: the price
  price_below_minimum : ℕ → Failure
  batch_not_found organization_not_found : Failure
  -- BatchDecisionConflictException: the status that the batch has
  batch_decision_conflict : BatchStatus → Failure
  recognition_value_not_found recognition_value_inactive distribution_not_found : Failure
  -- DistributionNotPendingException: the distribution and its status
  distribution_not_pending : Text → DistributionStatus → Failure
  -- the plain Error on a line without its data, and Prisma's P2028
  incomplete_line transaction_timeout : Failure
  -- what AsaasClient throws
  psp_failure : Failure
  -- InternalServerErrorException of ConversionRateService
  no_conversion_rate : Text → Failure
