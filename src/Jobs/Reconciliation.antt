-- ===== src/Jobs/Reconciliation.antt =====
-- src/modules/jobs/reconciliation.service.ts: wallet by wallet, the sum of the deltas against the
-- cached balance.
pub mod Telescope
use mrcoin.Base.{
  ℕ, suc, Bool, true, false, not, ◌||◌, List, [], ◌∷◌, Option, none, some, length, if◌then◌else◌,
}
use mrcoin.Base.Int.{ℤ, pos, ◌+ℤ◌, ◌-ℤ◌, eq_ℤ}
use mrcoin.Base.Text.{Text}
use mrcoin.Base.Table.{order_by}
use mrcoin.Db.{Db, LedgerEntry}
use mrcoin.Ledger.Entry.{entries_of, older}
use mrcoin.Jobs.Pages.{for_pages}

pub record BalanceMismatchIssue : Type 0 where
  pub wallet_id : Text
  pub sum_of_deltas : ℤ
  pub last_balance_after : ℤ
  pub actual_cached_balance : ℤ

-- The variables of `reconcileWallet`.
pub record DeltaState : Type 0 where
  pub previous_balance_after : ℤ
  pub sum_of_deltas : ℤ
  pub last_balance_after : ℤ

unfoldable pub add_delta : DeltaState → LedgerEntry → DeltaState
add_delta s e = record {
  previous_balance_after = e.balance_after;
  sum_of_deltas = s.sum_of_deltas +ℤ (e.balance_after -ℤ s.previous_balance_after);
  last_balance_after = e.balance_after;
}

abbrev pub delta_start : DeltaState
delta_start = record {
  previous_balance_after = pos 0;
  sum_of_deltas = pos 0;
  last_balance_after = pos 0;
}

-- The outer option is the loop's fuel, the inner one the code's `null`.
unfoldable pub reconcile_wallet : Text → ℤ → Db → Option (Option BalanceMismatchIssue)
reconcile_wallet wallet_id cached_balance db =
    let rows = order_by older (entries_of wallet_id db.entries) in
    elim (for_pages (λ e. e.id) add_delta 200 rows (suc (length rows)) none delta_start) [
      | none ↦ none
      | some s ↦ some (
          if not (eq_ℤ s.sum_of_deltas cached_balance)
            || not (eq_ℤ s.last_balance_after cached_balance)
          then some (record {
            wallet_id = wallet_id;
            sum_of_deltas = s.sum_of_deltas;
            last_balance_after = s.last_balance_after;
            actual_cached_balance = cached_balance;
          })
          else none)
    ]
