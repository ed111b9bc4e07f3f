-- ===== src/Courses.antt =====
-- CourseCreditService (src/modules/courses/course-credit.service.ts): the reward of a completed course,
-- from the stock of the organization. `gap` is what others commit between the read of the completion
-- and the transaction.
pub mod Once
mod Tests
use mrcoin.Base.{
  ◌+◌, Bool, true, false, ◌&&◌, List, ◌++◌, Option, none, some, if◌then◌else◌, ◌==◌, ℕ,
}
use mrcoin.Base.Int.{pos}
use mrcoin.Base.Text.{Text, codes, text_eq}
use mrcoin.Base.Table.{find_where, update_where, count_where}
use mrcoin.Db.{
  Db, Membership, Wallet, LedgerEntry, LedgerReferenceType, Failure, insufficient_coin_stock,
  record_not_found, Result, ok, err, Platform, Tx, ◌>>=◌,
}
use mrcoin.Stock.{plan_fifo_or_throw, execute_fifo_plan, ExecuteFifoPlanParams}
use mrcoin.Wallets.Sending.{wallet_of_membership}

pub data CourseCreditStatus : Type 0 where
  pending credited : CourseCreditStatus

pub record CourseCompletion : Type 0 where
  pub id : Text
  pub course_id : Text
  pub membership_id : Text
  pub organization_id : Text
  pub quiz_attempt_id : Text
  pub credit_status : CourseCreditStatus
  pub credited_at : Option ℕ
  pub created_at : ℕ

pub record Crediting : Type 0 where
  pub db : Db
  pub completions : List CourseCompletion

abbrev pub course_completion_reward_coins : ℕ
course_completion_reward_coins = 50

abbrev pub is_uncredited : CourseCreditStatus → Bool
is_uncredited CourseCreditStatus.pending = true
is_uncredited CourseCreditStatus.credited = false

abbrev pub completion_is : Text → CourseCompletion → Bool
completion_is k c = text_eq c.id k

-- `where: { id, creditStatus: 'PENDING' }`
abbrev pub claimable : Text → CourseCompletion → Bool
claimable k c = completion_is k c && is_uncredited c.credit_status

abbrev pub claim : CourseCompletion → CourseCompletion
claim c = record c { credit_status = credited }

abbrev pub stamp : ℕ → CourseCompletion → CourseCompletion
stamp now c = record c { credited_at = some now }

abbrev pub find_completion : Text → Crediting → Option CourseCompletion
find_completion k s = find_where (completion_is k) s.completions

abbrev pub reward_params : CourseCompletion → Wallet → ExecuteFifoPlanParams
reward_params c w = record {
  wallet_id = w.id;
  reference_type = LedgerReferenceType.course_completion;
  reference_id = c.id;
  description = codes "Conclusão de curso";
  distribution_item_id = none;
  idempotency_key_prefix = codes "course-completion:" ++ c.id;
}

-- `error instanceof InsufficientCoinStockException`
abbrev pub is_shortage : Failure → Bool
is_shortage (insufficient_coin_stock _ _ _) = true
is_shortage _ = false

-- An exception of the transaction: too little stock is no error.
abbrev pub not_now : Failure → Crediting → Result Bool × Crediting
not_now e s = if is_shortage e then (ok false, s) else (err e, s)

module _ (p : Platform) where
  unfoldable pub reward : CourseCompletion → Wallet → Tx (List LedgerEntry)
  reward c w = do
    plan ← plan_fifo_or_throw p c.organization_id (pos course_completion_reward_coins)
    execute_fifo_plan p c.organization_id (reward_params c w) plan

  abbrev pub credited_state : Text → Db → Crediting → Crediting
  credited_state k db s = record {
    db = db;
    completions =
        update_where (completion_is k) (stamp (p.now db.ticks))
          (update_where (claimable k) claim s.completions);
  }

  -- The transaction: the row is claimed before the ledger is touched.
  unfoldable pub credit_claimed : CourseCompletion → Wallet → Crediting → Result Bool × Crediting
  credit_claimed c w s =
      if count_where (claimable c.id) s.completions == 0
      then (ok true, s)
      else (elim (reward c w s.db) [
        | err e ↦ not_now e s
        | ok (entries, db) ↦ (ok true, credited_state c.id db s)
      ])

  unfoldable pub credit_pending :
      (Crediting → Crediting) → CourseCompletion → Crediting → Result Bool × Crediting
  credit_pending gap c s = elim (wallet_of_membership c.membership_id s.db) [
    | none ↦ (ok false, s)
    | some w ↦ credit_claimed c w (gap s)
  ]

  unfoldable pub try_credit : (Crediting → Crediting) → Text → Crediting → Result Bool × Crediting
  try_credit gap k s = elim (find_completion k s) [
    | none ↦ (err record_not_found, s)
    | some c ↦ if is_uncredited c.credit_status then credit_pending gap c s else (ok true, s)
  ]
