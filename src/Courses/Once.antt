-- ===== src/Courses/Once.antt =====
-- A completion is credited once.
use mathlib.Core.Option
use mrcoin.Base.{List, Option, none, ◌≡◌, Bool, true, false, some, ◌==◌}
use mrcoin.Base.Text.{Text}
use mrcoin.Base.Table.{count_where}
use mrcoin.Db.{LedgerEntry, Db, Wallet, Platform}
use mrcoin.Base.Int.{pos, ◌+ℤ◌}
use mrcoin.Ledger.Entry.{find_wallet}
use mrcoin.Stock.{BatchConsumptionStep, plan_fifo_consumption, fifo_candidates, total_available}
use mrcoin.Stock.Fifo.{AllNew}
use mrcoin.Courses.{
  reward_params, CourseCreditStatus, CourseCompletion, Crediting, is_uncredited, find_completion,
}

-- The completion is there, and credited.
abbrev pub IsCredited : Text → Crediting → Type 0
IsCredited k s =
    (c : CourseCompletion) × (find_completion k s ≡ some c)
    × (is_uncredited c.credit_status ≡ false)

-- The plan of a reward at a state of the database.
abbrev pub reward_plan : Platform → CourseCompletion → Db → Option (List BatchConsumptionStep)
reward_plan p c db =
    plan_fifo_consumption (fifo_candidates c.organization_id (p.now db.ticks) db) (pos 50)

-- No key of the plan was used.
abbrev pub IsNewPlan :
    Platform
    → CourseCompletion
    → Wallet
    → Option (List BatchConsumptionStep)
    → List LedgerEntry
    → Type 0
IsNewPlan p c w none entries = Unit
IsNewPlan p c w (some steps) entries = AllNew p c.organization_id (reward_params c w) steps entries

-- The stock has lost 50 coins, and the wallet has got them.
abbrev pub HasMoved : Wallet → Wallet → Db → Db → Type 0
HasMoved w v db db' =
    (total_available db'.batches +ℤ pos 50 ≡ total_available db.batches)
    × ((v' : Wallet) × (find_wallet w.id db'.wallets ≡ some v')
        × (v'.cached_balance ≡ v.cached_balance +ℤ pos 50))

-- What a transaction does that meets the completion with this status: it pays, or nothing.
abbrev pub Pays : CourseCreditStatus → Wallet → Wallet → Crediting → Crediting → Type 0
Pays CourseCreditStatus.pending w v s s' = HasMoved w v s.db s'.db
Pays CourseCreditStatus.credited w v s s' = s' ≡ s

-- No row is to be claimed where the completion is credited.
abbrev NoRow : (CourseCompletion → Bool) → List CourseCompletion → CourseCreditStatus → Type 0
NoRow q cs CourseCreditStatus.pending = Unit
NoRow q cs CourseCreditStatus.credited = (count_where q cs == 0) ≡ true
