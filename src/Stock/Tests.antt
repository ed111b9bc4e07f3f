-- ===== src/Stock/Tests.antt =====
-- The theorems on the stock at concrete inputs.
use mrcoin.Base.{ℕ, ◌≡◌, refl, ◌↔◌, List, [], ◌∷◌, none, All, arith}
use mrcoin.Base.Int.{pos, ◌-ℤ◌, ◌<ℤ◌, min_ℤ}
use mrcoin.Base.Text.{Text, codes}
use mrcoin.Db.{Db, CoinBatch, paid, distribution, LedgerEntry, ok, err}
use mrcoin.Stock.{
  BatchConsumptionStep, ExecuteFifoPlanParams, plan_fifo_consumption, total_available,
  execute_fifo_plan,
}
use mrcoin.Stock.Plan.{
  planned, IsWithin, IsFifo, plan_fifo_consumption_iff, plan_fifo_consumption_plan,
}
use mrcoin.Samples.{counting, alice, new_db}

abbrev batch_of : Text → ℕ → CoinBatch
batch_of k n = record {
  id = k;
  organization_id = codes "org";
  total_coins = pos 50;
  remaining_coins = pos n;
  price_in_cents = 5000;
  status = paid;
  expires_at = 90;
  psp_charge_id = none;
  approved_by_platform_admin_id = none;
  rejected_by_platform_admin_id = none;
  rejection_reason = none;
  idempotency_key = none;
  created_at = 0;
}

abbrev small : CoinBatch
small = batch_of (codes "b1") 30

abbrev large : CoinBatch
large = batch_of (codes "b2") 50

abbrev step_of : CoinBatch → ℕ → BatchConsumptionStep
step_of b n = record { batch = b; amount = pos n }

abbrev stock_plan : List BatchConsumptionStep
stock_plan = step_of small 30 ∷ step_of large 10 ∷ []

abbrev stocked : Db
stocked = record new_db { batches = large ∷ small ∷ [] }

plan_fifo_consumption_iff_example :
    (plan_fifo_consumption (small ∷ large ∷ []) (pos 81) ≡ none)
    ↔ (total_available (small ∷ large ∷ []) <ℤ pos 81)
plan_fifo_consumption_iff_example =
    plan_fifo_consumption_iff (small ∷ large ∷ []) (pos 81) (omega arith, (omega arith, tt))
      (omega arith)

plan_fifo_consumption_plan_example :
    (planned stock_plan ≡ pos 40) × All IsWithin stock_plan × IsFifo stock_plan (small ∷ large ∷ [])
unfolding plan_fifo_consumption min_ℤ ◌-ℤ◌
plan_fifo_consumption_plan_example =
    plan_fifo_consumption_plan (small ∷ large ∷ []) (pos 40) stock_plan
      (omega arith, (omega arith, tt)) (omega arith) refl

abbrev params : ExecuteFifoPlanParams
params = record {
  wallet_id = alice;
  reference_type = distribution;
  reference_id = codes "d1";
  description = codes "bonus";
  distribution_item_id = none;
  idempotency_key_prefix = codes "dist:d1";
}

abbrev credited : List LedgerEntry × Db
credited = elim (execute_fifo_plan counting (codes "org") params stock_plan stocked) [
  | ok r ↦ r
  | err _ ↦ ([], stocked)
]
