-- ===== src/Redemptions/Delivery.antt =====
-- The delivery of a redemption (`deliver`, `deliverByPlatformAdmin`, `transitionToDelivered` of
-- src/modules/redemptions/redemptions.service.ts). `gap` is what other requests commit after the read
-- of the status, before the guarded update or the second read.
pub mod Once
use mrcoin.Base.{
  ℕ, ◌+◌, Bool, true, false, not, ◌&&◌, List, [], ◌∷◌, Option, none, some, if◌then◌else◌,
}
use mrcoin.Base.Text.{Text, text_eq}
use mrcoin.Base.Table.{find_where, update_where}
use mrcoin.Db.{
  Db, Redemption, RedemptionStatus, confirmed, delivered, DeliveredByType, partner, platform_admin,
  Platform, Action, Result, ok, err, record_not_found, redemption_not_found,
}

abbrev pub is_confirmed : RedemptionStatus → Bool
is_confirmed confirmed = true
is_confirmed _ = false

abbrev pub is_delivered : RedemptionStatus → Bool
is_delivered delivered = true
is_delivered _ = false

-- `confirmRedemptionSchema` and its counterpart for the platform's operators: what is presented.
-- A text that is empty counts as absent.
pub record Presented : Type 0 where
  pub redemption_id : Option Text
  pub pickup_code : Option Text
  pub qr_payload : Option Text

unfoldable pub find_redemption : Text → Db → Option Redemption
find_redemption k db = find_where (λ r. text_eq r.id k) db.redemptions

abbrev pub find_code : Text → Db → Option Redemption
find_code c db = find_where (λ r. text_eq r.pickup_code c) db.redemptions

abbrev pub find_qr : Text → Db → Option Redemption
find_qr q db = find_where (λ r. text_eq r.qr_payload q) db.redemptions

-- `where: { id: redemptionId, status: 'CONFIRMED' }`
abbrev pub awaits_delivery : Text → Redemption → Bool
awaits_delivery k r = text_eq r.id k && is_confirmed r.status

abbrev pub hand_over : ℕ → DeliveredByType → Text → Redemption → Redemption
hand_over now by by_id r = record r {
  status = delivered;
  delivered_at = some now;
  delivered_by_type = some by;
  delivered_by_id = some by_id;
}

module _ (p : Platform) (gap : Db → Db) where
  -- The guarded update.
  unfoldable pub mark_delivered : Text → DeliveredByType → Text → Db → Db
  mark_delivered k by by_id db = record db {
    redemptions =
        update_where (awaits_delivery k) (hand_over (p.now db.ticks) by by_id) db.redemptions;
    ticks = db.ticks + 1;
  }

  -- The row as it is read again, with `alreadyDelivered`.
  abbrev pub reread : Text → Bool → Action (Redemption × Bool)
  reread k already db = elim (find_redemption k db) [
    | none ↦ (err record_not_found, db)
    | some r ↦ (ok (r, already), db)
  ]

  unfoldable pub transition_to_delivered :
      Text → DeliveredByType → Text → Action (Redemption × Bool)
  transition_to_delivered k by by_id db = elim (find_redemption k db) [
    | none ↦ (err record_not_found, db)
    | some current ↦
        if is_delivered current.status
        then reread k true (gap db)
        else reread k false (mark_delivered k by by_id (gap db))
  ]

  -- The schema has refused an input with neither.
  abbrev pub presented_to_partner : Presented → Db → Option Redemption
  presented_to_partner i db = elim i.pickup_code [
    | some (c ∷ t) ↦ find_code (c ∷ t) db
    | _ ↦ elim i.qr_payload [ some q ↦ find_qr q db | none ↦ none ]
  ]

  unfoldable pub deliver : Text → Presented → Action (Redemption × Bool)
  deliver partner_id i db = elim (presented_to_partner i db) [
    | none ↦ (err redemption_not_found, db)
    | some r ↦
        if not (text_eq r.partner_id partner_id)
        then (err redemption_not_found, db)
        else transition_to_delivered r.id partner partner_id db
  ]

  abbrev pub presented_to_admin : Presented → Db → Option Redemption
  presented_to_admin i db = elim i.redemption_id [
    | some (c ∷ t) ↦ find_redemption (c ∷ t) db
    | _ ↦ presented_to_partner i db
  ]

  unfoldable pub deliver_by_platform_admin : Text → Presented → Action (Redemption × Bool)
  deliver_by_platform_admin admin_id i db = elim (presented_to_admin i db) [
    | none ↦ (err redemption_not_found, db)
    | some r ↦ transition_to_delivered r.id platform_admin admin_id db
  ]
