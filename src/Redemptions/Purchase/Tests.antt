-- ===== src/Redemptions/Purchase/Tests.antt =====
-- The theorems on purchases at a concrete input: the first pickup code is taken, the second is free.
use mrcoin.Base.{ℕ, ◌≡◌, refl, Bool, true, [], ◌∷◌, none, some}
use mrcoin.Base.Int.{pos}
use mrcoin.Base.Text.{Text, codes, text_eq}
use mrcoin.Db.{Db, Offer, Redemption, RedemptionStatus, Result, ok}
use mrcoin.Ledger.Service.{get_balance}
use mrcoin.Ledger.Outcome.{quiet}
use mrcoin.Users.Pin.{Redis, verify_pin, judge_pin, get, lock_key}
use mrcoin.Wallets.Sending.{resolve_wallet_id}
use mrcoin.Redemptions.Offers.{find_available, offer_available}
use mrcoin.Redemptions.Purchase.{
  CreateRedemptionInput, CheckedPurchase, replay_redemption, check_offer, check_buyer,
  check_purchase, debit_input, refused_by, raced, write_redemption, buy, create,
}
use mrcoin.Redemptions.Purchase.Checked.{create_checked}
use mrcoin.Redemptions.Purchase.Permitted.{IsPermitted}
use mrcoin.Users.Pin.Accepted.{IsAccepted}
use mrcoin.Redemptions.Purchase.Once.{create_redemption_twice}
use mrcoin.Samples.{counting, alice, bob, office, empty_redis, ledger_code}

unfoldable purchase_code : Unit {0}
unfolding ledger_code get_balance resolve_wallet_id verify_pin judge_pin get lock_key find_available
    offer_available replay_redemption check_offer check_buyer check_purchase debit_input refused_by
    raced write_redemption buy create
purchase_code = tt

abbrev coffee : Offer
coffee = record {
  id = codes "coffee";
  partner_id = codes "cafe";
  title = codes "Coffee";
  category = codes "food";
  cost_in_coins = pos 30;
  featured = Bool.false;
  valid_from = none;
  valid_until = none;
  per_user_limit = some 1;
  active = true;
  created_at = 0;
}

abbrev earlier : Redemption
earlier = record {
  id = codes "r1";
  membership_id = bob;
  wallet_id = bob;
  partner_id = codes "cafe";
  offer_id = some (codes "coffee");
  amount = pos 30;
  pickup_code = 0 ∷ [];
  qr_payload = codes "qr";
  idempotency_key = codes "k";
  status = RedemptionStatus.confirmed;
  confirmed_at = some 0;
  ledger_entry_id = none;
  delivered_at = none;
  delivered_by_type = none;
  delivered_by_id = none;
  created_at = 0;
}

abbrev cafe : Db
cafe = record office {
  partners = record { id = codes "cafe"; name = codes "Cafe"; active = true } ∷ [];
  categories = record { name = codes "food"; slug = codes "food"; active = true } ∷ [];
  offers = coffee ∷ [];
  redemptions = earlier ∷ [];
}

abbrev dice : ℕ → Text × Text
dice n = (n ∷ [], n ∷ n ∷ [])

abbrev order : CreateRedemptionInput
order = record {
  offer_id = codes "coffee";
  organization_id = codes "org";
  transaction_pin = codes "4711";
}

abbrev outcome : Result Redemption × (Db × Redis)
outcome = create counting dice text_eq quiet quiet 0 alice order (codes "buy") (cafe, empty_redis)

abbrev mine : Redemption
mine = record earlier {
  id = codes "redemption:buy";
  membership_id = alice;
  wallet_id = alice;
  pickup_code = 1 ∷ [];
  qr_payload = 1 ∷ 1 ∷ [];
  idempotency_key = codes "buy";
  confirmed_at = some 2;
  ledger_entry_id = some (1 ∷ []);
  created_at = 2;
}

purchase_runs : outcome.0 ≡ ok mine
unfolding purchase_code
purchase_runs = refl

create_checked_example :
    (c : CheckedPurchase) × IsPermitted counting alice order cafe c
    × IsAccepted text_eq cafe empty_redis 0 alice (codes "4711")
unfolding purchase_code
create_checked_example =
    create_checked counting dice text_eq quiet quiet 0 alice (codes "buy") order cafe empty_redis
      mine outcome.1 refl refl

create_redemption_twice_example :
    create counting dice text_eq quiet quiet 9 alice order (codes "buy") outcome.1
    ≡ (ok mine, outcome.1)
unfolding purchase_code
create_redemption_twice_example =
    create_redemption_twice counting dice dice text_eq quiet quiet quiet quiet 0 9 alice
      (codes "buy") order cafe empty_redis mine outcome.1 refl
