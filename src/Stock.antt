-- ===== src/Stock.antt =====
-- The organizations' stock of coins: FIFO consumption of the batches
-- (src/modules/distributions/fifo-batch-consumption.util.ts).
pub mod Plan
pub mod Fifo
mod Tests
use mrcoin.Base.{
  ℕ, ◌+◌, Bool, ◌&&◌, List, [], ◌∷◌, ◌++◌, Option, none, some, ◌==◌, if◌then◌else◌, ltb,
}
use mrcoin.Base.Int.{ℤ, pos, ◌+ℤ◌, ◌-ℤ◌, min_ℤ, ltb_ℤ, leb_ℤ}
use mrcoin.Base.Text.{Text, text_eq}
use mrcoin.Base.Table.{filter_where, update_where, count_where, order_by}
use mrcoin.Db.{
  Db, CoinBatch, BatchStatus, paid, LedgerEntry, LedgerReferenceType, credit, Platform, Tx, Result,
  ok, err, ◌>>=◌, ◌>>◌, pure, insufficient_coin_stock,
}
use mrcoin.Ledger.Service.{PostLedgerEntryInput, post_in}

pub record BatchConsumptionStep : Type 0 where
  pub batch : CoinBatch
  pub amount : ℤ

-- The loop over the candidates: the plan, and what then remains to be covered.
unfoldable pub plan_loop : List CoinBatch → ℤ → List BatchConsumptionStep × ℤ
plan_loop [] remaining = ([], remaining)
plan_loop (b ∷ bs) remaining =
    let step = min_ℤ b.remaining_coins remaining in
    let rest = plan_loop bs (remaining -ℤ step) in
    if leb_ℤ remaining (pos 0)
    then ([], remaining)
    else (record { batch = b; amount = step } ∷ rest.0, rest.1)

unfoldable pub plan_fifo_consumption : List CoinBatch → ℤ → Option (List BatchConsumptionStep)
unfolding plan_loop
plan_fifo_consumption candidates amount =
    if ltb_ℤ (pos 0) (plan_loop candidates amount).1
    then none
    else some (plan_loop candidates amount).0

abbrev pub is_paid : BatchStatus → Bool
is_paid paid = Bool.true
is_paid _ = Bool.false

-- The batches that may be drawn on at an instant, those that expire first in front.
unfoldable pub fifo_candidates : Text → ℕ → Db → List CoinBatch
unfolding filter_where order_by
fifo_candidates organization_id now db =
    order_by (λ a b. ltb a.expires_at b.expires_at)
      (filter_where
        (λ b.
          text_eq b.organization_id organization_id
          && is_paid b.status
          && ltb_ℤ (pos 0) b.remaining_coins
          && ltb now b.expires_at)
        db.batches)

unfoldable pub total_available : List CoinBatch → ℤ
total_available [] = pos 0
total_available (b ∷ bs) = b.remaining_coins +ℤ total_available bs

module _ (p : Platform) where
  unfoldable pub plan_fifo_or_throw : Text → ℤ → Tx (List BatchConsumptionStep)
  plan_fifo_or_throw organization_id amount db =
      let candidates = fifo_candidates organization_id (p.now db.ticks) db in
      elim (plan_fifo_consumption candidates amount) [
        | some plan ↦ ok (plan, db)
        | none ↦ err (insufficient_coin_stock organization_id amount (total_available candidates))
      ]

pub record ExecuteFifoPlanParams : Type 0 where
  pub wallet_id : Text
  pub reference_type : LedgerReferenceType
  pub reference_id : Text
  pub description : Text
  pub distribution_item_id : Option Text
  pub idempotency_key_prefix : Text

-- `where: { id, remainingCoins: { gte: amount } }`
abbrev pub covers : BatchConsumptionStep → CoinBatch → Bool
covers s b = text_eq b.id s.batch.id && leb_ℤ s.amount b.remaining_coins

abbrev pub decrement : ℤ → CoinBatch → CoinBatch
decrement n b = record b { remaining_coins = b.remaining_coins -ℤ n }

unfoldable pub decrement_batch : Text → BatchConsumptionStep → Tx (Unit {0})
decrement_batch organization_id s db =
    if count_where (covers s) db.batches == 0
    then err (insufficient_coin_stock organization_id s.amount s.batch.remaining_coins)
    else ok (tt, record db { batches = update_where (covers s) (decrement s.amount) db.batches })

unfoldable pub step_input : ExecuteFifoPlanParams → BatchConsumptionStep → PostLedgerEntryInput
step_input params s = record {
  wallet_id = params.wallet_id;
  type = credit;
  amount = s.amount;
  reference_type = params.reference_type;
  reference_id = params.reference_id;
  description = params.description;
  batch_id = some s.batch.id;
  distribution_item_id = params.distribution_item_id;
  idempotency_key = params.idempotency_key_prefix ++ (b':' ∷ s.batch.id);
}

unfoldable pub execute_fifo_plan :
    Platform → Text → ExecuteFifoPlanParams → List BatchConsumptionStep → Tx (List LedgerEntry)
execute_fifo_plan p organization_id params [] = pure []
execute_fifo_plan p organization_id params (s ∷ plan) = do
  decrement_batch organization_id s
  entry ← post_in p (step_input params s)
  entries ← execute_fifo_plan p organization_id params plan
  pure (entry ∷ entries)
