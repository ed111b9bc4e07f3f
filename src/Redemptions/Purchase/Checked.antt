-- ===== src/Redemptions/Purchase/Checked.antt =====
-- What the checks of a purchase guarantee.
use mrcoin.Base.{
  ℕ, ◌≡◌, sym, subst, ap, inl, inr, Bool, false, ◌&&◌, none, arith, and_true, Bool-cases,
  Option-cases,
}
use mrcoin.Base.Int.{ℤ, ◌≤ℤ◌, ltb_ℤ}
use mrcoin.Base.Text.{Text, text_eq}
use mrcoin.Base.Table.{find_meets, find-Mem}
use mrcoin.Db.{
  Db, Wallet, Membership, Offer, Redemption, Platform, Result, ok, ok-injective, Result-cases,
  and_then_ok,
}
use mrcoin.Ledger.Service.{get_balance}
use mrcoin.Users.Pin.{Redis, verify_pin}
use mrcoin.Wallets.Sending.{resolve_wallet_id, beside}
use mrcoin.Redemptions.Offers.{offer_available, no_filters, find_available}
use mrcoin.Redemptions.Purchase.Permitted.{IsPermitted, Allowed-IsPermitted}
use mrcoin.Redemptions.Purchase.Allowance.{Allowed}
use mrcoin.Users.Pin.Accepted.{IsAccepted, verify_pin-IsAccepted}
use mrcoin.Redemptions.Purchase.{
  CreateRedemptionInput, CheckedPurchase, find_by_key, limit_reached, check_offer, check_buyer,
  check_purchase, buy, create,
}

module _ (p : Platform) (user_id : Text) (i : CreateRedemptionInput) (db : Db) where
  check_offer_ok :
      (m : Membership) (w : Wallet) (o : Offer)
      → check_offer p m w o db ≡ ok tt
      → (limit_reached m o db ≡ false)
        × ((b : ℤ) × (v : ℕ) × (k : Text) × (get_balance w.id db ≡ ok (k, b, v))
            × (o.cost_in_coins ≤ℤ b))
  unfolding check_offer
  check_offer_ok m w o h = elim (Bool-cases (limit_reached m o db)) [
    | inl e ↦ absurd (let bad = rw (check_offer, e) at h in cc)
    | inr e ↦ elim (Result-cases (get_balance w.id db)) [
      | inr (x, f) ↦ absurd (let bad = rw (check_offer, e, f) at h in cc)
      | inl ((k, b, v), f) ↦ elim (Bool-cases (ltb_ℤ b o.cost_in_coins)) [
        | inl g ↦ absurd (let bad = rw (check_offer, e, f, g) at h in cc)
        | inr g ↦ (e, (b, v, k, f, ground arith))
      ]
    ]
  ]

  check_buyer_ok :
      (m : Membership) (w : Wallet) (c : CheckedPurchase)
      → resolve_wallet_id user_id i.organization_id db ≡ ok (m, w)
      → check_buyer p i m w db ≡ ok c
      → Allowed p user_id i db c
  unfolding check_buyer find_available
  check_buyer_ok m w c resolved h =
      elim (Option-cases (find_available (p.now db.ticks) i.offer_id db)) [
        | inl e ↦ absurd (let bad = rw (check_buyer, e) at h in cc)
        | inr (o, e) ↦ elim (Result-cases (check_offer p m w o db)) [
          | inr (x, f) ↦ absurd (let bad = rw (check_buyer, e, f) at h in cc)
          | inl (tt, f) ↦
              let same : record { buyer = m; wallet = w; offer = o } ≡ c =
                ok-injective (record { buyer = m; wallet = w; offer = o }) c
                  (rw (check_buyer, e, f) at h) in
              let (limit, (b, v, k, read, covered)) = check_offer_ok m w o f in
              let found =
                find_meets
                  (λ x. text_eq x.id i.offer_id && offer_available (p.now db.ticks) no_filters db x)
                  db.offers o e in
              let (asked, available) = and_true (text_eq o.id i.offer_id) _ found in
              subst (Allowed p user_id i db) same (record {
                resolved = resolved;
                offer_row =
                    find-Mem
                      (λ x.
                        text_eq x.id i.offer_id && offer_available (p.now db.ticks) no_filters db x)
                      db.offers o e;
                asked = asked;
                available = available;
                within_limit = limit;
                ident = k;
                balance = b;
                version = v;
                read = read;
                covered = covered;
              })
        ]
      ]

  pub check_purchase_ok :
      (c : CheckedPurchase) → check_purchase p user_id i db ≡ ok c → Allowed p user_id i db c
  unfolding check_purchase
  check_purchase_ok c h = elim (Result-cases (resolve_wallet_id user_id i.organization_id db)) [
    | inr (x, e) ↦ absurd (let bad = rw (check_purchase, e) at h in cc)
    | inl ((m, w), e) ↦ check_buyer_ok m w c e (rw (check_purchase, e) at h)
  ]

module _ (p : Platform) (draw : ℕ → Text × Text) (verify_password : Text → Text → Bool)
    (gaps gap : ℕ → Db → Db) (redis_now : ℕ) (user_id key : Text) (i : CreateRedemptionInput)
    (db : Db) (redis : Redis) where
  -- What the PIN's check gives, and what is done with an accepted one.
  abbrev pub after_pin : CheckedPurchase → Unit {0} → Db × Redis → Result Redemption × (Db × Redis)
  after_pin c _ (now, redis1) = let (r, db1) = buy p draw gaps gap i c key now in (r, (db1, redis1))

  bought_after_pin :
      (r : Redemption) (end : Db × Redis) (c : CheckedPurchase) (u : Unit {0}) (s : Db × Redis)
      → beside db (verify_pin verify_password db redis redis_now user_id i.transaction_pin)
        ≡ (ok u, s)
      → after_pin c u s ≡ (ok r, end)
      → ((verify_pin verify_password db redis redis_now user_id i.transaction_pin).0 ≡ ok tt)
        × (buy p draw gaps gap i c key db ≡ (ok r, end.0))
  bought_after_pin r end c u s pin done =
      let bought : buy p draw gaps gap i c key s.0 ≡ (ok r, end.0) = ap (λ x. (x.0, x.1.0)) done in
      let same : s.0 ≡ db = ap (λ x. x.1.0) (sym pin) in
      (ap (λ x. x.0) pin, subst (λ d. buy p draw gaps gap i c key d ≡ (ok r, end.0)) same bought)

  -- The parts of a purchase under a new key that succeeds.
  pub create_ok :
      (r : Redemption) (end : Db × Redis)
      → find_by_key key db ≡ none
      → create p draw verify_password gaps gap redis_now user_id i key (db, redis) ≡ (ok r, end)
      → (c : CheckedPurchase) × Allowed p user_id i db c
        × ((verify_pin verify_password db redis redis_now user_id i.transaction_pin).0 ≡ ok tt)
        × (buy p draw gaps gap i c key db ≡ (ok r, end.0))
  unfolding create
  create_ok r end fresh h = elim (Result-cases (check_purchase p user_id i db)) [
    | inr (x, e) ↦ absurd (let bad = ap (λ y. y.0) (rw (create, fresh, e) at h) in cc)
    | inl (c, e) ↦
        let (u, s, pin, done) =
          and_then_ok
            (beside db (verify_pin verify_password db redis redis_now user_id i.transaction_pin))
            (after_pin c) r end (rw (create, fresh, e) at h) in
        let (accepted, bought) = bought_after_pin r end c u s pin done in
        (c, check_purchase_ok p user_id i db c e, accepted, bought)
  ]

  -- A purchase under a new key that is made has passed every check, whatever others commit while it is
  -- made: the buyer is an active member of the organization with a wallet, the offer that was asked for
  -- is active, of an active partner and an active category, and within its period, the buyer has fewer
  -- purchases of it than its limit, its cost is within the balance, and the PIN is the buyer's, who was
  -- not locked out.
  pub create_checked :
      (r : Redemption) (end : Db × Redis)
      → find_by_key key db ≡ none
      → create p draw verify_password gaps gap redis_now user_id i key (db, redis) ≡ (ok r, end)
      → (c : CheckedPurchase) × IsPermitted p user_id i db c
        × IsAccepted verify_password db redis redis_now user_id i.transaction_pin
  create_checked r end fresh h =
      let (c, allowed, pin, _) = create_ok r end fresh h in
      (
        c,
        Allowed-IsPermitted p user_id i db c allowed,
        verify_pin-IsAccepted verify_password db redis redis_now user_id i.transaction_pin pin,
      )
