-- ===== src/Enrolment/Tests.antt =====
-- The theorem on enrolment at a concrete input.
use mrcoin.Base.{◌≡◌, none}
use mrcoin.Base.Text.{codes}
use mrcoin.Db.{Db, ok, employee}
use mrcoin.Enrolment.{
  EnsureUserMembershipWalletInput, EnsuredUserMembershipWallet, ensure_user_membership_wallet,
}
use mrcoin.Enrolment.Once.{IsEnrolled, ensure_user_membership_wallet_once}
use mrcoin.Samples.{counting, new_db}

abbrev dora : EnsureUserMembershipWalletInput
dora = record {
  cpf_encrypted = codes "x";
  cpf_hash = codes "h";
  name = codes "Dora";
  organization_id = codes "org";
  membership_type = employee;
  external_ref = none;
}

ensure_user_membership_wallet_once_example :
    (r : EnsuredUserMembershipWallet) × (db' : Db) × (ensure_user_membership_wallet counting dora
        new_db
      ≡ ok (r, db'))
    × IsEnrolled counting dora r db'
    × (ensure_user_membership_wallet counting dora db' ≡ ok (r, db'))
    × (db'.entries ≡ new_db.entries)
ensure_user_membership_wallet_once_example = ensure_user_membership_wallet_once counting dora new_db
