-- ===== src/Samples.antt =====
-- A runtime, wallets and inputs at which the theorems are tried.
use mrcoin.Base.{ℕ, ◌≡◌, refl, [], ◌∷◌, none, some, arith, All}
use mrcoin.Base.Int.{pos, ◌+ℤ◌, neg}
use mrcoin.Base.Text.{Text, codes, text_eq, text_lt, join_bar}
use mrcoin.Base.Table.{
  find_where, filter_where, update_where, count_where, any_where, order_by, find-All,
}
use mrcoin.Db.{
  Db, Wallet, credit, Platform, IsMonotonic, manual_adjustment, type_eq, reference_eq, User,
  UserStatus, Membership, MembershipStatus, employee,
}
use mrcoin.Users.Pin.{Redis}
use mrcoin.Ledger.Hash.{compute_entry_hash}
use mrcoin.Ledger.Entry.{
  find_wallet, find_entry, entries_of, read_wallet, write_entry, execute_entry,
}
use mrcoin.Ledger.Service.{
  PostLedgerEntryInput, core_of_post, post_schema_accepts, with_gap, settle, caught, replay_matches,
  replay_entry, execute_in, post_in, attempt_entry, replay_stored, execute_with_retry, execute,
  post, transfer_debit, transfer_credit, finish_transfer, attempt_transfer, stored_transfer,
  replay_transfer, transfer_once, transfer_between_wallets, transfer_wallets,
}
use mrcoin.Ledger.Invariant.{IsSound, IsGap}
use mrcoin.Ledger.Outcome.{quiet}
use mrcoin.Ledger.Keep.{Extends-refl}
use mrcoin.Ledger.Safety.{post-IsSound}

-- A clock that counts, and ids that are its readings.
abbrev pub counting : Platform
counting = record { sha256 = λ t. t; to_iso_string = λ n. n ∷ []; now = λ n. n; cuid = λ n. n ∷ [] }

pub counting-IsMonotonic : IsMonotonic counting
counting-IsMonotonic i j h = ground arith

abbrev pub empty_wallet : Text → Wallet
empty_wallet k = record { id = k; membership_id = k; cached_balance = pos 0; version = 0 }

abbrev pub alice : Text
alice = codes "alice"

abbrev pub bob : Text
bob = codes "bob"

abbrev pub carol : Text
carol = codes "carol"

abbrev pub new_db : Db
new_db = record {
  wallets = empty_wallet alice ∷ empty_wallet bob ∷ empty_wallet carol ∷ [];
  entries = [];
  batches = [];
  users = [];
  memberships = [];
  transfers = [];
  redemptions = [];
  organizations = [];
  rates = [];
  batch_audits = [];
  partners = [];
  categories = [];
  offers = [];
  ticks = 0;
}

-- All that the ledger's code runs through.
unfoldable pub ledger_code : Unit {0}
unfolding find_where filter_where update_where count_where any_where order_by text_eq text_lt
    join_bar compute_entry_hash find_wallet find_entry entries_of read_wallet write_entry
    execute_entry core_of_post post_schema_accepts with_gap settle caught replay_matches
    replay_entry execute_in post_in attempt_entry replay_stored execute_with_retry execute post
    transfer_debit transfer_credit finish_transfer attempt_transfer stored_transfer replay_transfer
    transfer_once transfer_between_wallets transfer_wallets type_eq reference_eq ◌+ℤ◌ neg
ledger_code = tt

All-fresh : All (λ w. (w.cached_balance ≡ pos 0) × (w.version ≡ 0)) new_db.wallets
All-fresh = ((refl, refl), ((refl, refl), ((refl, refl), tt)))

pub new_db-IsSound : IsSound counting new_db
unfolding ledger_code
new_db-IsSound = record {
  stamped = tt;
  unique_ids = (refl, (refl, (refl, tt)));
  unique_keys = tt;
  each = λ k w found.
      let (b, v) =
        find-All (λ w. (w.cached_balance ≡ pos 0) × (w.version ≡ 0)) (λ r. text_eq r.id k)
          new_db.wallets w All-fresh found in
      record { chain = tt; trail = tt; balance = b; version = v };
}

-- Nobody interferes.
pub quiet-IsGap : (n : ℕ) → IsGap counting (quiet n)
quiet-IsGap n db s = (s, Extends-refl db)

-- Alice is credited 100 coins.
abbrev pub fund_input : PostLedgerEntryInput
fund_input = record {
  wallet_id = alice;
  type = credit;
  amount = pos 100;
  reference_type = manual_adjustment;
  reference_id = codes "adj-1";
  description = codes "welcome";
  batch_id = none;
  distribution_item_id = none;
  idempotency_key = codes "fund:alice";
}

abbrev pub funded : Db
funded = (post counting quiet fund_input new_db).1

pub funded-IsSound : IsSound counting funded
funded-IsSound =
    (post-IsSound counting counting-IsMonotonic quiet fund_input quiet-IsGap new_db
      new_db-IsSound).0

abbrev pub user_of : Text → User
user_of k = record {
  id = k;
  cpf_encrypted = [];
  cpf_hash = k;
  name = k;
  status = UserStatus.active;
  transaction_pin_hash = some (codes "4711");
}

abbrev pub member_of : Text → Membership
member_of k = record {
  id = k;
  user_id = k;
  organization_id = codes "org";
  type = employee;
  external_ref = none;
  status = MembershipStatus.active;
}

-- Alice has 100 coins, Bob none, and both are of one organization.
abbrev pub office : Db
office = record funded {
  users = user_of alice ∷ user_of bob ∷ [];
  memberships = member_of alice ∷ member_of bob ∷ [];
}

abbrev pub empty_redis : Redis
empty_redis _ = none
