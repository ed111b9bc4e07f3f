-- ===== src/Enrolment.antt =====
-- ensureUserMembershipWallet
-- (src/modules/distributions/ensure-user-membership-wallet.util.ts): the user, the membership and the
-- wallet of a CPF that coins are credited to, made where they are missing.
pub mod Once
mod Tests
use mrcoin.Base.{◌+◌, Bool, ◌&&◌, List, ◌∷◌, Option, none, some}
use mrcoin.Base.Int.{pos}
use mrcoin.Base.Text.{Text, text_eq}
use mrcoin.Base.Table.{find_where}
use mrcoin.Db.{
  Db, User, UserStatus, pending_claim, Membership, MembershipStatus, MembershipType, Wallet,
  Platform, Tx, Result, ok, err, ◌>>=◌, pure,
}
use mrcoin.Wallets.Sending.{wallet_of_membership}

pub record EnsureUserMembershipWalletInput : Type 0 where
  pub cpf_encrypted : Text
  pub cpf_hash : Text
  pub name : Text
  pub organization_id : Text
  pub membership_type : MembershipType
  pub external_ref : Option Text

pub record EnsuredUserMembershipWallet : Type 0 where
  pub user_id : Text
  pub membership_id : Text
  pub wallet_id : Text

abbrev pub user_of_cpf : Text → Db → Option User
user_of_cpf h db = find_where (λ u. text_eq u.cpf_hash h) db.users

abbrev pub membership_of : Text → Text → Db → Option Membership
membership_of user_id organization_id db =
    find_where (λ m. text_eq m.user_id user_id && text_eq m.organization_id organization_id)
      db.memberships

module _ (p : Platform) where
  -- The rows as they are created, with the defaults of the schema.
  abbrev pub new_user : EnsureUserMembershipWalletInput → Db → User
  new_user i db = record {
    id = p.cuid db.ticks;
    cpf_encrypted = i.cpf_encrypted;
    cpf_hash = i.cpf_hash;
    name = i.name;
    status = pending_claim;
    transaction_pin_hash = none;
  }

  abbrev pub new_membership : EnsureUserMembershipWalletInput → Text → Db → Membership
  new_membership i user_id db = record {
    id = p.cuid db.ticks;
    user_id = user_id;
    organization_id = i.organization_id;
    type = i.membership_type;
    external_ref = i.external_ref;
    status = MembershipStatus.active;
  }

  abbrev pub new_wallet : Text → Db → Wallet
  new_wallet membership_id db = record {
    id = p.cuid db.ticks;
    membership_id = membership_id;
    cached_balance = pos 0;
    version = 0;
  }

  unfoldable pub upsert_user : EnsureUserMembershipWalletInput → Tx User
  upsert_user i db = elim (user_of_cpf i.cpf_hash db) [
    | some u ↦ ok (u, db)
    | none ↦
        ok (new_user i db, record db { users = new_user i db ∷ db.users; ticks = db.ticks + 1 })
  ]

  unfoldable pub upsert_membership : EnsureUserMembershipWalletInput → Text → Tx Membership
  upsert_membership i user_id db = elim (membership_of user_id i.organization_id db) [
    | some m ↦ ok (m, db)
    | none ↦ ok (
      new_membership i user_id db,
      record db {
        memberships = new_membership i user_id db ∷ db.memberships;
        ticks = db.ticks + 1;
      },
    )
  ]

  unfoldable pub ensure_wallet : Text → Tx Wallet
  ensure_wallet membership_id db = elim (wallet_of_membership membership_id db) [
    | some w ↦ ok (w, db)
    | none ↦ ok (
      new_wallet membership_id db,
      record db { wallets = new_wallet membership_id db ∷ db.wallets; ticks = db.ticks + 1 },
    )
  ]

  unfoldable pub ensure_user_membership_wallet :
      EnsureUserMembershipWalletInput → Tx EnsuredUserMembershipWallet
  ensure_user_membership_wallet i = do
    user ← upsert_user i
    membership ← upsert_membership i user.id
    wallet ← ensure_wallet membership.id
    pure (record { user_id = user.id; membership_id = membership.id; wallet_id = wallet.id })
