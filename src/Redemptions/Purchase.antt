-- ===== src/Redemptions/Purchase.antt =====
-- RedemptionsService.create (src/modules/redemptions/redemptions.service.ts): the purchase of an offer.
-- The state is the database and Redis. `draw n` gives the pickup code and the QR payload of attempt n;
-- `gaps` is what others commit while the coins are moved, and `gap n` before attempt n.
pub mod Allowance
pub mod Permitted
pub mod Checked
pub mod Once
mod Tests
use mrcoin.Base.{
  ℕ, zero, suc, ◌+◌, Bool, true, false, ◌&&◌, ◌||◌, List, [], ◌∷◌, ◌++◌, Option, none, some,
  if◌then◌else◌, leb, ltb,
}
use mrcoin.Base.Int.{ℤ, ltb_ℤ}
use mrcoin.Base.Text.{Text, codes, text_eq, opt_text_eq}
use mrcoin.Base.Table.{find_where, count_where, any_where}
use mrcoin.Db.{
  Db, Wallet, Membership, Offer, Partner, Redemption, RedemptionStatus, LedgerEntry,
  LedgerEntryType, LedgerReferenceType, Platform, Result, ok, err, Action, Column, unique_violation,
  record_not_found, idempotency_conflict, offer_not_found, redemption_limit_reached,
  insufficient_balance, no_unique_pickup_code, and_then,
}
use mrcoin.Ledger.Service.{PostLedgerEntryInput, post, get_balance}
use mrcoin.Users.Pin.{Redis, verify_pin}
use mrcoin.Wallets.Sending.{resolve_wallet_id, beside}
use mrcoin.Redemptions.Delivery.{is_confirmed, is_delivered}
use mrcoin.Redemptions.Offers.{find_available}

abbrev pub redemption_code_generation_max_attempts : ℕ
redemption_code_generation_max_attempts = 5

pub record CreateRedemptionInput : Type 0 where
  pub offer_id : Text
  pub organization_id : Text
  pub transaction_pin : Text

abbrev pub find_by_key : Text → Db → Option Redemption
find_by_key key db = find_where (λ r. text_eq r.idempotency_key key) db.redemptions

-- `assertIdempotentReplayMatches`, and the row.
unfoldable pub replay_redemption : Redemption → CreateRedemptionInput → Text → Result Redemption
replay_redemption existing i key =
    if opt_text_eq existing.offer_id (some i.offer_id)
    then ok existing
    else err (idempotency_conflict key)

-- The purchases of an offer that count for its limit.
abbrev pub counts_for : Text → Text → Redemption → Bool
counts_for membership offer r =
    text_eq r.membership_id membership
    && opt_text_eq r.offer_id (some offer)
    && (is_confirmed r.status || is_delivered r.status)

abbrev pub limit_reached : Membership → Offer → Db → Bool
limit_reached m o db = elim o.per_user_limit [
  | none ↦ false
  | some n ↦ leb n (count_where (counts_for m.id o.id) db.redemptions)
]

pub record CheckedPurchase : Type 0 where
  pub buyer : Membership
  pub wallet : Wallet
  pub offer : Offer

module _ (p : Platform) where
  -- The limit of the offer, and the balance before the PIN.
  unfoldable pub check_offer : Membership → Wallet → Offer → Db → Result (Unit {0})
  check_offer m w o db =
      if limit_reached m o db then err redemption_limit_reached else (elim (get_balance w.id db) [
        | err e ↦ err e
        | ok (k, balance, version) ↦
            if ltb_ℤ balance o.cost_in_coins
            then err (insufficient_balance w.id o.cost_in_coins balance)
            else ok tt
      ])

  unfoldable pub check_buyer :
      CreateRedemptionInput → Membership → Wallet → Db → Result CheckedPurchase
  check_buyer i m w db = elim (find_available (p.now db.ticks) i.offer_id db) [
    | none ↦ err offer_not_found
    | some o ↦ elim (check_offer m w o db) [
      | err e ↦ err e
      | ok _ ↦ ok (record { buyer = m; wallet = w; offer = o })
    ]
  ]

  -- All that is checked before the PIN.
  unfoldable pub check_purchase : Text → CreateRedemptionInput → Db → Result CheckedPurchase
  check_purchase user_id i db = elim (resolve_wallet_id user_id i.organization_id db) [
    | err e ↦ err e
    | ok (m, w) ↦ check_buyer i m w db
  ]

  abbrev pub redemption_id : Text → Text
  redemption_id key = p.sha256 (codes "redemption:" ++ key)

  -- `offer.title` is never null, so the partner's name is read and not used.
  unfoldable pub debit_input : CheckedPurchase → Text → PostLedgerEntryInput
  debit_input c key = record {
    wallet_id = c.wallet.id;
    type = LedgerEntryType.debit;
    amount = c.offer.cost_in_coins;
    reference_type = LedgerReferenceType.redemption;
    reference_id = redemption_id key;
    description = codes "Resgate — " ++ c.offer.title;
    batch_id = none;
    distribution_item_id = none;
    idempotency_key = codes "redemption-create:" ++ key;
  }

  module _ (draw : ℕ → Text × Text) where
    abbrev pub new_redemption : CheckedPurchase → LedgerEntry → Text → ℕ → ℕ → ℕ → Redemption
    new_redemption c entry key now n ticks = record {
      id = redemption_id key;
      membership_id = c.buyer.id;
      wallet_id = c.wallet.id;
      partner_id = c.offer.partner_id;
      offer_id = some c.offer.id;
      amount = c.offer.cost_in_coins;
      pickup_code = (draw n).0;
      qr_payload = (draw n).1;
      idempotency_key = key;
      status = RedemptionStatus.confirmed;
      confirmed_at = some now;
      ledger_entry_id = some entry.id;
      delivered_at = none;
      delivered_by_type = none;
      delivered_by_id = none;
      created_at = p.now ticks;
    }

    -- The unique index that refuses a row: the first one that it violates.
    unfoldable pub refused_by : Redemption → List Redemption → Option Column
    refused_by r rows =
        if any_where (λ x. text_eq x.id r.id) rows
        then some Column.id
        else if any_where (λ x. text_eq x.idempotency_key r.idempotency_key) rows
        then some Column.idempotency_key
        else if any_where (λ x. text_eq x.pickup_code r.pickup_code) rows
        then some Column.pickup_code
        else if any_where (λ x. text_eq x.qr_payload r.qr_payload) rows
        then some Column.qr_payload
        else none

    -- Another request with the key has written its row first.
    unfoldable pub raced : CreateRedemptionInput → Text → Action Redemption
    raced i key db = elim (find_by_key key db) [
      | none ↦ (err record_not_found, db)
      | some r ↦ (replay_redemption r i key, db)
    ]

    -- What follows a refusal, `again` being the attempts that are left.
    abbrev pub on_refusal :
        CreateRedemptionInput → Text → Column → Result Redemption × Db → Action Redemption
    on_refusal i key Column.id again db = raced i key db
    on_refusal i key Column.idempotency_key again db = raced i key db
    on_refusal i key Column.pickup_code again db = again
    on_refusal i key Column.qr_payload again db = again
    on_refusal i key column again db = (err (unique_violation column), db)

    -- The loop: `left` attempts are left, and this is attempt n.
    unfoldable pub write_redemption :
        (ℕ → Db → Db)
        → CreateRedemptionInput
        → CheckedPurchase
        → LedgerEntry
        → Text
        → ℕ
        → ℕ
        → ℕ
        → Action Redemption
    write_redemption gap i c entry key now zero n db = (err no_unique_pickup_code, db)
    write_redemption gap i c entry key now (suc left) n db =
        let here = gap n db in
        let r = new_redemption c entry key now n here.ticks in
        let again = write_redemption gap i c entry key now left (n + 1) here in
        elim (refused_by r here.redemptions) [
          | none ↦
              (ok r, record here { redemptions = r ∷ here.redemptions; ticks = here.ticks + 1 })
          | some column ↦ on_refusal i key column again here
        ]

    abbrev pub find_partner : Text → Db → Option Partner
    find_partner k db = find_where (λ r. text_eq r.id k) db.partners

    -- The row of a purchase whose coins were debited.
    abbrev pub write_after :
        (ℕ → Db → Db)
        → CreateRedemptionInput
        → CheckedPurchase
        → Text
        → LedgerEntry
        → Action Redemption
    write_after gap i c key entry db =
        write_redemption gap i c entry key (p.now db.ticks) redemption_code_generation_max_attempts
          0 db

    -- What follows once the PIN was accepted.
    unfoldable pub buy :
        (ℕ → Db → Db)
        → (ℕ → Db → Db)
        → CreateRedemptionInput
        → CheckedPurchase
        → Text
        → Action Redemption
    buy gaps gap i c key db = elim (find_partner c.offer.partner_id db) [
      | none ↦ (err record_not_found, db)
      | some _ ↦ and_then (post p gaps (debit_input c key) db) (write_after gap i c key)
    ]

    module _ (verify_password : Text → Text → Bool) (gaps gap : ℕ → Db → Db) (redis_now : ℕ) where
      unfoldable pub create :
          Text → CreateRedemptionInput → Text → Db × Redis → Result Redemption × (Db × Redis)
      create user_id i key (db, redis) = elim (find_by_key key db) [
        | some r ↦ (replay_redemption r i key, (db, redis))
        | none ↦ elim (check_purchase user_id i db) [
          | err e ↦ (err e, (db, redis))
          | ok c ↦
              and_then
                (beside db
                  (verify_pin verify_password db redis redis_now user_id i.transaction_pin))
                λ _ (now, redis1). let (r, db1) = buy gaps gap i c key now in (r, (db1, redis1))
        ]
      ]
