-- ===== src/Distributions/Bulk/Tests.antt =====
-- The theorem on the worker at a concrete input: a file of two lines, one of which has no name.
use mrcoin.Base.{if◌then◌else◌, ◌≡◌, refl, ◌∷◌, [], none, some, arith}
use mrcoin.Base.Int.{pos}
use mrcoin.Base.Text.{Text, codes, text_eq}
use mrcoin.Base.Table.{find_where, count_where}
use mrcoin.Db.{Result, transaction_timeout, DistributionStatus, DistributionItemStatus, employee}
use mrcoin.Distributions.{Distribution, DistributionItem, Distributing}
use mrcoin.Distributions.Bulk.{Faults, process_bulk_distribution}
use mrcoin.Distributions.Bulk.Finish.{IsEnd, process_bulk_distribution_ends}
use mrcoin.Samples.{counting, new_db}

abbrev file : Text
file = codes "file"

abbrev uploaded : Distribution
uploaded = record {
  id = file;
  organization_id = codes "org";
  admin_user_id = codes "admin";
  reason = none;
  message = some (codes "thanks");
  organization_value_id = none;
  total_items = 2;
  success_items = 0;
  failed_items = 0;
  status = DistributionStatus.processing;
  idempotency_key = none;
}

abbrev line : DistributionItem
line = record {
  id = codes "line-1";
  distribution_id = file;
  membership_id = none;
  amount = pos 10;
  status = DistributionItemStatus.pending;
  error_reason = none;
  cpf_hash = some (codes "h");
  cpf_encrypted = some (codes "x");
  name = some (codes "Dora");
  membership_type = some employee;
  external_ref = none;
  created_at = 1;
}

abbrev with_file : Distributing
with_file = record {
  db = new_db;
  distributions = uploaded ∷ [];
  items = line ∷ record line { id = codes "line-2"; name = none } ∷ [];
  values = [];
  queue = file ∷ [];
}

-- The line without a name cannot be counted as failed at first.
abbrev faults : Faults
faults = record {
  in_transaction = λ k n. none;
  in_success = λ k n. none;
  in_marking = λ k. none;
  in_failure = λ k. if text_eq k (codes "line-2") then some transaction_timeout else none;
}

process_bulk_distribution_ends_example :
    (r : Result (Unit {0}) × Distributing) × (process_bulk_distribution counting
        (λ e. codes "failed")
        (λ n db. db)
        faults
        3
        file
        with_file
      ≡ some r)
    × IsEnd faults file r
unfolding find_where count_where text_eq
process_bulk_distribution_ends_example =
    process_bulk_distribution_ends counting (λ e. codes "failed") (λ n db. db) faults 3 file
      with_file uploaded refl (omega arith)
