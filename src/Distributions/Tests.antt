-- ===== src/Distributions/Tests.antt =====
-- The theorem on confirmations at a concrete input: an organization confirms its file.
use mrcoin.Base.{◌≡◌, refl, ◌∷◌, [], none, some}
use mrcoin.Base.Text.{Text, codes, text_eq}
use mrcoin.Base.Table.{find_where}
use mrcoin.Db.{DistributionStatus, err, distribution_not_pending}
use mrcoin.Distributions.{Distribution, Distributing, find_own, confirm_bulk_distribution}
use mrcoin.Distributions.Confirm.{confirm_bulk_distribution_once}
use mrcoin.Samples.{new_db}

abbrev org : Text
org = codes "org"

abbrev file : Text
file = codes "file"

abbrev uploaded : Distribution
uploaded = record {
  id = file;
  organization_id = org;
  admin_user_id = codes "admin";
  reason = none;
  message = none;
  organization_value_id = none;
  total_items = 2;
  success_items = 0;
  failed_items = 0;
  status = DistributionStatus.pending;
  idempotency_key = none;
}

abbrev with_file : Distributing
with_file = record {
  db = new_db;
  distributions = uploaded ∷ [];
  items = [];
  values = [];
  queue = [];
}

abbrev confirmed_file : Distributing
confirmed_file = (confirm_bulk_distribution org file with_file).1

confirm_bulk_distribution_once_example :
    (confirmed_file.queue ≡ file ∷ [])
    × (find_own org file confirmed_file
        ≡ some (record uploaded { status = DistributionStatus.processing }))
    × (confirm_bulk_distribution org file confirmed_file
        ≡ (err (distribution_not_pending file DistributionStatus.processing), confirmed_file))
unfolding find_where text_eq
confirm_bulk_distribution_once_example =
    confirm_bulk_distribution_once org file with_file uploaded refl refl
