-- ===== src/Redemptions/Delivery/Once.antt =====
-- What a delivery changes.
use mathlib.Core.Option
use mrcoin.Base.{◌≡◌, refl, ◌∙◌, inl, inr, true, false, some, arith, Bool-cases, if◌then◌else◌}
use mrcoin.Base.Text.{Text, text_eq}
use mrcoin.Base.Table.{find-update, find_meets}
use mrcoin.Db.{Db, Redemption, confirmed, delivered, DeliveredByType, Platform, ok}
use mrcoin.Redemptions.Delivery.{
  Presented, find_redemption, awaits_delivery, hand_over, mark_delivered, transition_to_delivered,
  deliver, is_delivered, reread,
}

-- Nobody interferes.
abbrev pub alone : Db → Db
alone db = db

module _ (p : Platform) where
  find-mark :
      (gap : Db → Db) (k j : Text) (by : DeliveredByType) (by_id : Text) (db : Db)
      → find_redemption j (mark_delivered p gap k by by_id db)
        ≡ Option.map
            (λ r. if awaits_delivery k r then hand_over (p.now db.ticks) by by_id r else r)
            (find_redemption j db)
  unfolding find_redemption mark_delivered
  find-mark gap k j by by_id db =
      find-update (λ r. text_eq r.id j) (awaits_delivery k) (hand_over (p.now db.ticks) by by_id)
        db.redemptions (λ r. refl)

  mark_delivered_row :
      (k : Text) (by : DeliveredByType) (by_id : Text) (db : Db) (r : Redemption)
      → find_redemption k db ≡ some r
      → is_delivered r.status ≡ false
      → (gap : Db → Db)
      → transition_to_delivered p gap k by by_id db
        ≡ reread p gap k false (mark_delivered p gap k by by_id (gap db))
  unfolding transition_to_delivered
  mark_delivered_row k by by_id db r found awaits gap = ground arith

  was_delivered :
      (k : Text) (by : DeliveredByType) (by_id : Text) (db : Db) (r : Redemption)
      → find_redemption k db ≡ some r
      → is_delivered r.status ≡ true
      → transition_to_delivered p alone k by by_id db ≡ (ok (r, true), db)
  unfolding transition_to_delivered
  was_delivered k by by_id db r found done = ground arith

  -- A redemption that was bought and not handed over is delivered at the first call: the row has
  -- then who delivered it and when. Every further call, by whomever, gives that same row with
  -- `alreadyDelivered` and changes nothing.
  pub transition_to_delivered_once :
      (k : Text) (by by' : DeliveredByType) (by_id by_id' : Text) (db : Db) (r : Redemption)
      → find_redemption k db ≡ some r
      → r.status ≡ confirmed
      → let row = hand_over (p.now db.ticks) by by_id r in
        let db' = mark_delivered p alone k by by_id db in
        (transition_to_delivered p alone k by by_id db ≡ (ok (row, false), db'))
        × (transition_to_delivered p alone k by' by_id' db' ≡ (ok (row, true), db'))
  transition_to_delivered_once k by by' by_id by_id' db r found status =
      let same : text_eq r.id k ≡ true =
        unfold find_redemption in (find_meets _ db.redemptions r found) in
      let there : find_redemption k (mark_delivered p alone k by by_id db)
          ≡ some (hand_over (p.now db.ticks) by by_id r) =
        find-mark alone k k by by_id db ∙ (rw (found, same, status)) in
      (
        mark_delivered_row k by by_id db r found (rw status) alone ∙ (rw (reread, there)),
        was_delivered k by' by_id' (mark_delivered p alone k by by_id db) _ there refl,
      )

  -- Once a redemption is delivered, a call on it or on another, by whomever, does not touch its row,
  -- also when the row was still waiting at the read of the call and others delivered it before the
  -- call's update. The redemption of the call must exist.
  pub delivered_stays :
      (gap : Db → Db) (k j : Text) (by : DeliveredByType) (by_id : Text) (db : Db)
      (current r : Redemption)
      → find_redemption k db ≡ some current
      → find_redemption j (gap db) ≡ some r
      → r.status ≡ delivered
      → find_redemption j (transition_to_delivered p gap k by by_id db).1 ≡ some r
  unfolding transition_to_delivered
  delivered_stays gap k j by by_id db current r read found status =
      let kept : find_redemption j (mark_delivered p gap k by by_id (gap db)) ≡ some r =
        find-mark gap k j by by_id (gap db)
        ∙ (rw (found, status)
            (elim (Bool-cases (text_eq r.id k)) [ inl e ↦ rw e | inr e ↦ rw e ])) in
      ground arith

  -- A delivery moves no coins: with nobody interfering the wallets and the entries are what they
  -- were, however the call ends.
  pub deliver_moves_no_coins :
      (partner_id : Text) (i : Presented) (db : Db)
      → let db' = (deliver p alone partner_id i db).1 in
        (db'.wallets ≡ db.wallets) × (db'.entries ≡ db.entries)
  unfolding deliver transition_to_delivered mark_delivered
  deliver_moves_no_coins partner_id i db = ground arith
