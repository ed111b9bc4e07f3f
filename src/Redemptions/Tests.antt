-- ===== src/Redemptions/Tests.antt =====
-- The theorems on redemptions at concrete inputs.
use mrcoin.Base.{◌≡◌, refl, true, false, [], ◌∷◌, none, some}
use mrcoin.Base.Int.{pos}
use mrcoin.Base.Text.{codes, text_eq}
use mrcoin.Base.Table.{find_where}
use mrcoin.Db.{Db, Redemption, RedemptionStatus, partner, platform_admin, ok}
use mrcoin.Redemptions.Delivery.{
  Presented, find_redemption, hand_over, mark_delivered, transition_to_delivered,
}
use mrcoin.Redemptions.Delivery.Once.{alone, transition_to_delivered_once, delivered_stays}
use mrcoin.Samples.{counting, new_db, alice}

abbrev bought : Redemption
bought = record {
  id = codes "r1";
  membership_id = alice;
  wallet_id = alice;
  partner_id = codes "cafe";
  offer_id = none;
  amount = pos 10;
  pickup_code = codes "123456";
  qr_payload = codes "qr";
  idempotency_key = codes "k";
  status = RedemptionStatus.confirmed;
  confirmed_at = some 0;
  ledger_entry_id = none;
  delivered_at = none;
  delivered_by_type = none;
  delivered_by_id = none;
  created_at = 0;
}

abbrev handed_over : Redemption
handed_over = hand_over 0 partner (codes "cafe") bought

abbrev shop : Db
shop = record new_db { redemptions = bought ∷ [] }

transition_to_delivered_once_example :
    let db' = mark_delivered counting alone (codes "r1") partner (codes "cafe") shop in
    (transition_to_delivered counting alone (codes "r1") partner (codes "cafe") shop
      ≡ (ok (handed_over, false), db'))
    × (transition_to_delivered counting alone (codes "r1") platform_admin (codes "op") db'
        ≡ (ok (handed_over, true), db'))
unfolding find_redemption find_where text_eq
transition_to_delivered_once_example =
    transition_to_delivered_once counting (codes "r1") partner platform_admin (codes "cafe")
      (codes "op") shop bought refl refl

-- The platform's operator hands it over before the cafe's update.
abbrev overtaken : Db → Db
overtaken db = record db { redemptions = hand_over 7 platform_admin (codes "op") bought ∷ [] }

delivered_stays_example :
    find_redemption
      (codes "r1")
      (transition_to_delivered counting overtaken (codes "r1") partner (codes "cafe") shop).1
    ≡ some (hand_over 7 platform_admin (codes "op") bought)
unfolding find_redemption find_where text_eq
delivered_stays_example =
    delivered_stays counting overtaken (codes "r1") (codes "r1") partner (codes "cafe") shop bought
      (hand_over 7 platform_admin (codes "op") bought) refl refl refl

abbrev code_only : Presented
code_only = record { redemption_id = none; pickup_code = some (codes "123456"); qr_payload = none }
