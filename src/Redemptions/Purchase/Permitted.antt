-- ===== src/Redemptions/Purchase/Permitted.antt =====
-- When a purchase may be made, in terms of the rows.
use mrcoin.Base.{
  ℕ, ◌+◌, ◌≤◌, ◌<◌, ◌≡◌, refl, inl, inr, Bool, true, false, ◌&&◌, ◌||◌, Mem, List, [], ◌∷◌, Option,
  none, some, arith, and_true, Option-cases, leb, if◌then◌else◌, sym, ap,
}
use mrcoin.Base.Int.{ℤ, ◌≤ℤ◌}
use mrcoin.Base.Text.{Text, text_eq, opt_text_eq, text_eq→eq}
use mrcoin.Base.Table.{find_meets, find-Mem, any-find, count_where}
use mrcoin.Db.{
  Db, Wallet, Membership, Offer, Partner, OfferCategory, Redemption, RedemptionStatus, confirmed,
  delivered, Platform, ok, ok-injective,
}
use mrcoin.Ledger.Entry.{find_wallet}
use mrcoin.Ledger.Service.{get_balance}
use mrcoin.Wallets.Sending.Members.{IsActiveMember, resolve_wallet_id_ok}
use mrcoin.Redemptions.Delivery.{is_confirmed, is_delivered}
use mrcoin.Redemptions.Offers.{
  offer_available, partner_active, category_active, from_reached, until_ahead,
}
use mrcoin.Redemptions.Purchase.{CreateRedemptionInput, CheckedPurchase, counts_for, limit_reached}
use mrcoin.Redemptions.Purchase.Allowance.{Allowed}

-- The period of an offer.
abbrev pub HasBegun : ℕ → Option ℕ → Type 0
HasBegun now none = Unit
HasBegun now (some t) = t ≤ now

abbrev pub IsNotOver : ℕ → Option ℕ → Type 0
IsNotOver now none = Unit
IsNotOver now (some t) = now ≤ t

-- The purchases that a member has made of an offer, handed over or not.
unfoldable pub is_purchase : Text → Text → Redemption → Bool
is_purchase membership offer r = elim r.offer_id [
  | none ↦ false
  | some k ↦ elim r.status [
    | confirmed ↦ text_eq k offer && text_eq r.membership_id membership
    | delivered ↦ text_eq k offer && text_eq r.membership_id membership
    | _ ↦ false
  ]
]

unfoldable pub purchases : Text → Text → List Redemption → ℕ
purchases membership offer [] = 0
purchases membership offer (r ∷ rs) =
    (if is_purchase membership offer r then 1 else 0) + purchases membership offer rs

abbrev pub IsWithinLimit : Option ℕ → ℕ → Type 0
IsWithinLimit none n = Unit
IsWithinLimit (some limit) n = n < limit

pub record IsPermitted (p : Platform) (user_id : Text) (i : CreateRedemptionInput) (db : Db)
    (c : CheckedPurchase) : Type 0 where
  pub buyer : IsActiveMember db i.organization_id c.buyer c.wallet
  pub buyer_is : c.buyer.user_id ≡ user_id
  pub offer_row : Mem c.offer db.offers
  pub offer_is : c.offer.id ≡ i.offer_id
  pub offer_active : c.offer.active ≡ true
  pub partner : Partner
  pub partner_row : Mem partner db.partners
  pub partner_is : partner.id ≡ c.offer.partner_id
  pub partner_active : partner.active ≡ true
  pub category : OfferCategory
  pub category_row : Mem category db.categories
  pub category_is : category.name ≡ c.offer.category
  pub category_active : category.active ≡ true
  pub begun : HasBegun (p.now db.ticks) c.offer.valid_from
  pub not_over : IsNotOver (p.now db.ticks) c.offer.valid_until
  pub within_limit :
      IsWithinLimit c.offer.per_user_limit (purchases c.buyer.id c.offer.id db.redemptions)
  pub covering : Wallet
  pub covering_is : find_wallet c.wallet.id db.wallets ≡ some covering
  pub covered : c.offer.cost_in_coins ≤ℤ covering.cached_balance

counts_as :
    (membership offer : Text) (r : Redemption)
    → counts_for membership offer r ≡ is_purchase membership offer r
unfolding is_purchase
counts_as membership offer r = by_case r.offer_id r.status (text_eq r.membership_id membership)
  where
    by_case :
        (o : Option Text) (t : RedemptionStatus) (b : Bool)
        → (b && opt_text_eq o (some offer) && (is_confirmed t || is_delivered t)) ≡ elim o [
          | none ↦ false
          | some k ↦ elim t [
            | confirmed ↦ text_eq k offer && b
            | delivered ↦ text_eq k offer && b
            | _ ↦ false
          ]
        ]
    by_case none t b = ground arith
    by_case (some k) RedemptionStatus.confirmed b = ground arith
    by_case (some k) RedemptionStatus.delivered b = ground arith
    by_case (some k) RedemptionStatus.pending b = ground arith
    by_case (some k) RedemptionStatus.expired b = ground arith

purchases_counted :
    (membership offer : Text) (rs : List Redemption)
    → count_where (counts_for membership offer) rs ≡ purchases membership offer rs
unfolding count_where purchases
purchases_counted membership offer [] = refl
purchases_counted membership offer (r ∷ rs) =
    rw (counts_as membership offer r, purchases_counted membership offer rs) refl

within :
    (o : Option ℕ) (m : Membership) (offer : Offer) (db : Db)
    → offer.per_user_limit ≡ o
    → limit_reached m offer db ≡ false
    → IsWithinLimit o (purchases m.id offer.id db.redemptions)
within none m offer db e h = tt
within (some n) m offer db e h =
    let counted = purchases_counted m.id offer.id db.redemptions in
    let few : leb n (count_where (counts_for m.id offer.id) db.redemptions) ≡ false = rw e at h in
    ground arith

begun_of : (now : ℕ) (o : Option ℕ) → from_reached now o ≡ true → HasBegun now o
begun_of now none h = tt
begun_of now (some t) h = ground arith

IsNotOver-of : (now : ℕ) (o : Option ℕ) → until_ahead now o ≡ true → IsNotOver now o
IsNotOver-of now none h = tt
IsNotOver-of now (some t) h = ground arith

balance_of :
    (k : Text) (db : Db) (x : Text × ℤ × ℕ)
    → get_balance k db ≡ ok x
    → (w : Wallet) × (find_wallet k db.wallets ≡ some w) × (x.1 ≡ w.cached_balance)
unfolding get_balance
balance_of k db x h = elim (Option-cases (find_wallet k db.wallets)) [
  | inl e ↦ absurd (let bad = rw (get_balance, e) at h in cc)
  | inr (w, e) ↦
      let same = ok-injective _ x (rw (get_balance, e) at h) in (w, e, ap (λ y. y.1) (sym same))
]

all_five :
    (a b c d e : Bool)
    → (a && b && c && d && e && true && true) ≡ true
    → (a ≡ true) × (b ≡ true) × (c ≡ true) × (d ≡ true) × (e ≡ true)
all_five a b c d e h = ground arith

both : (a b : Bool) → (a && b && true) ≡ true → (a ≡ true) × (b ≡ true)
both a b h = ground arith

pub Allowed-IsPermitted :
    (p : Platform) (user_id : Text) (i : CreateRedemptionInput) (db : Db) (c : CheckedPurchase)
    → Allowed p user_id i db c
    → IsPermitted p user_id i db c
unfolding offer_available
Allowed-IsPermitted p user_id i db c a =
    let now = p.now db.ticks in
    let (mine, buyer) =
      resolve_wallet_id_ok user_id i.organization_id db c.buyer c.wallet a.resolved in
    let (on, by_partner, by_category, from, until) =
      all_five c.offer.active (partner_active c.offer.partner_id db)
        (category_active c.offer.category none db) (from_reached now c.offer.valid_from)
        (until_ahead now c.offer.valid_until) a.available in
    let (partner, partner_found) = any-find _ db.partners by_partner in
    let (partner_is, partner_on) =
      and_true (text_eq partner.id c.offer.partner_id) _
        (find_meets _ db.partners partner partner_found) in
    let (category, category_found) = any-find _ db.categories by_category in
    let (category_is, category_on) =
      both (text_eq category.name c.offer.category) category.active
        (find_meets _ db.categories category category_found) in
    let (covering, covering_is, balance) = balance_of c.wallet.id db _ a.read in
    record {
      buyer = buyer;
      buyer_is = mine;
      offer_row = a.offer_row;
      offer_is = text_eq→eq c.offer.id i.offer_id a.asked;
      offer_active = on;
      partner = partner;
      partner_row = find-Mem _ db.partners partner partner_found;
      partner_is = text_eq→eq partner.id c.offer.partner_id partner_is;
      partner_active = partner_on;
      category = category;
      category_row = find-Mem _ db.categories category category_found;
      category_is = text_eq→eq category.name c.offer.category category_is;
      category_active = category_on;
      begun = begun_of now c.offer.valid_from from;
      not_over = IsNotOver-of now c.offer.valid_until until;
      within_limit = within c.offer.per_user_limit c.buyer c.offer db refl a.within_limit;
      covering = covering;
      covering_is = covering_is;
      covered = rw (balance) at a.covered;
    }
