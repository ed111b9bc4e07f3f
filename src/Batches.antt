-- ===== src/Batches.antt =====
-- Buying coins: BatchesService (src/modules/batches), with ConversionRateService (src/modules/settings)
-- and the charge of BillingService (src/modules/billing). Decisions has what then becomes of a batch.
-- The payment provider's client is a parameter; `gap` is what other requests commit before the batch
-- is written.
pub mod Billing
pub mod Decisions
pub mod Price
pub mod Final
pub mod Answers
mod Tests
use mrcoin.Base.{
  ℕ, ◌+◌, ◌*◌, ◌/◌, Bool, true, false, ◌&&◌, List, [], ◌∷◌, Option, none, some, if◌then◌else◌, ltb,
}
use mrcoin.Base.Int.{ℤ, pos, eq_ℤ}
use mrcoin.Base.Text.{Text, codes, text_eq, opt_text_eq}
use mrcoin.Base.Table.{find_where, any_where}
use mrcoin.Db.{
  Db, CoinBatch, BatchStatus, ConversionRate, Platform, Action, Result, ok, err, unique_violation,
  Column, idempotency_conflict, price_below_minimum, no_conversion_rate, and_then,
}
use mrcoin.Batches.Billing.{AsaasClient, PixChargeResult, QrCode, create_charge, refetch_qr_code}

abbrev pub min_batch_price_in_cents : ℕ
min_batch_price_in_cents = 500

-- `CreateBatchInput`, whose schema wants both numbers positive.
pub record CreateBatchInput : Type 0 where
  pub total_coins : ℕ
  pub validity_months : ℕ

pub data PixInfo : Type 0 where
  asaas : QrCode → PixInfo
  -- the key and the amount in cents
  manual : Text → ℕ → PixInfo

pub record CreateBatchResult : Type 0 where
  pub batch : CoinBatch
  pub pix : PixInfo

-- The settings that the code reads, and `addMonths`, which is `Date`'s calendar.
pub record BatchConfig : Type 0 where
  pub asaas_enabled : Bool
  pub mrcoin_pix_key : Text
  pub add_months : ℕ → ℕ → ℕ

-- The latest rate stands first.
abbrev pub get_current_rate_or_null : Text → Db → Option ConversionRate
get_current_rate_or_null organization_id db =
    find_where (λ r. text_eq r.organization_id organization_id) db.rates

unfoldable pub get_current_rate : Text → Db → Result ConversionRate
get_current_rate organization_id db = elim (get_current_rate_or_null organization_id db) [
  | none ↦ err (no_conversion_rate organization_id)
  | some rate ↦ ok rate
]

unfoldable pub set_rate : Text → ℕ → Db → Db
set_rate organization_id coins_per_real_scaled db = record db {
  rates =
      record { organization_id = organization_id; coins_per_real_scaled = coins_per_real_scaled }
      ∷ db.rates;
}

-- `Math.round(n / d)`, the half rounded up.
unfoldable pub round_div : ℕ → ℕ → ℕ
round_div n d = (2 * n + d) / (2 * d)

unfoldable pub price_in_cents : ℕ → ℕ → ℕ
unfolding round_div
price_in_cents total_coins coins_per_real_scaled =
    round_div (total_coins * 10000) coins_per_real_scaled

abbrev pub find_by_key : Text → Db → Option CoinBatch
find_by_key key db = find_where (λ b. opt_text_eq b.idempotency_key (some key)) db.batches

module _ (p : Platform) (client : AsaasClient) (config : BatchConfig) (gap : Db → Db) where
  abbrev pub manual_pix : ℕ → PixInfo
  manual_pix price = manual config.mrcoin_pix_key price

  abbrev pub show_charge : PixChargeResult → Action (Option Text × PixInfo)
  show_charge charge db = (ok (some charge.psp_charge_id, asaas charge.qr_code), db)

  -- The charge's id, and what the buyer is shown.
  unfoldable pub create_via_asaas : Text → ℕ → Text → Action (Option Text × PixInfo)
  create_via_asaas organization_id price key db =
      and_then
        (create_charge p client organization_id price (codes "Compra de lote de coins") key db)
        show_charge

  abbrev pub start_payment : Text → ℕ → Text → Action (Option Text × PixInfo)
  start_payment organization_id price key db =
      if config.asaas_enabled
      then create_via_asaas organization_id price key db
      else (ok (none, manual_pix price), db)

  abbrev pub new_batch : Text → CreateBatchInput → Text → ℕ → ℕ → Option Text → ℕ → CoinBatch
  new_batch organization_id input key expires_at price charge n = record {
    id = p.cuid n;
    organization_id = organization_id;
    total_coins = pos input.total_coins;
    remaining_coins = pos input.total_coins;
    price_in_cents = price;
    status = BatchStatus.pending;
    expires_at = expires_at;
    psp_charge_id = charge;
    approved_by_platform_admin_id = none;
    rejected_by_platform_admin_id = none;
    rejection_reason = none;
    idempotency_key = some key;
    created_at = p.now n;
  }

  -- The table refuses an id, a key or a charge that it has.
  abbrev pub refused : CoinBatch → List CoinBatch → Option Column
  refused b rows =
      if any_where (λ r. text_eq r.id b.id) rows
      then some Column.id
      else if any_where (λ r. is_same r.idempotency_key b.idempotency_key) rows
      then some Column.idempotency_key
      else if any_where (λ r. is_same r.psp_charge_id b.psp_charge_id) rows
      then some Column.psp_charge_id
      else none
    where
      is_same : Option Text → Option Text → Bool
      is_same (some a) (some b) = text_eq a b
      is_same _ _ = false

  unfoldable pub insert_batch : CoinBatch → PixInfo → Action CreateBatchResult
  insert_batch b pix db = elim (refused b db.batches) [
    | some column ↦ (err (unique_violation column), db)
    | none ↦ (
      ok (record { batch = b; pix = pix }),
      record db { batches = b ∷ db.batches; ticks = db.ticks + 1 },
    )
  ]

  -- The row that is written once the payment has been started.
  unfoldable pub write_batch :
      Text → CreateBatchInput → Text → ℕ → ℕ → Option Text × PixInfo → Action CreateBatchResult
  write_batch organization_id input key expires_at price paid db =
      let db' = gap db in
      insert_batch (new_batch organization_id input key expires_at price paid.0 db'.ticks) paid.1
        db'

  -- How the buyer pays is read off the batch, and not off the present setting.
  unfoldable pub pix_for : Option Text → ℕ → Result PixInfo
  pix_for none price = ok (manual_pix price)
  pix_for (some charge) price = elim (refetch_qr_code client charge) [
    | err e ↦ err e
    | ok qr ↦ ok (asaas qr)
  ]

  abbrev pub pix_of : CoinBatch → Result PixInfo
  pix_of existing = pix_for existing.psp_charge_id existing.price_in_cents

  unfoldable pub replay_existing :
      CoinBatch → Text → CreateBatchInput → Text → Result CreateBatchResult
  replay_existing existing organization_id input key =
      if text_eq existing.organization_id organization_id
        && eq_ℤ existing.total_coins (pos input.total_coins)
      then (elim (pix_of existing) [
        | err e ↦ err e
        | ok pix ↦ ok (record { batch = existing; pix = pix })
      ])
      else err (idempotency_conflict key)

  -- A batch for which no row was found.
  unfoldable pub create_new : Text → CreateBatchInput → Text → Action CreateBatchResult
  create_new organization_id input key db = elim (get_current_rate organization_id db) [
    | err e ↦ (err e, db)
    | ok rate ↦
        let price = price_in_cents input.total_coins rate.coins_per_real_scaled in
        let expires_at = config.add_months (p.now db.ticks) input.validity_months in
        if ltb price min_batch_price_in_cents
        then (err (price_below_minimum price), db)
        else and_then (start_payment organization_id price key db)
            (write_batch organization_id input key expires_at price)
  ]

  unfoldable pub create_pending_batch : Text → CreateBatchInput → Text → Action CreateBatchResult
  create_pending_batch organization_id input key db = elim (find_by_key key db) [
    | some existing ↦ (replay_existing existing organization_id input key, db)
    | none ↦ create_new organization_id input key db
  ]
