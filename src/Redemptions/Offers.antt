-- ===== src/Redemptions/Offers.antt =====
-- Which offers can be redeemed at an instant: `offerAvailabilityWhere`
-- (src/modules/offers/offer-availability.util.ts), the same for the catalog and for a purchase.
use mrcoin.Base.{ℕ, Bool, true, false, not, ◌&&◌, ◌||◌, Option, none, some, leb}
use mrcoin.Base.Text.{Text, text_eq}
use mrcoin.Base.Table.{any_where, find_where}
use mrcoin.Db.{Db, Offer}

-- `partner: { status: 'ACTIVE' }`
abbrev pub partner_active : Text → Db → Bool
partner_active k db = any_where (λ r. text_eq r.id k && r.active) db.partners

abbrev pub matches_filter : Option Text → Text → Text → Bool
matches_filter none slug name = true
matches_filter (some c) slug name = text_eq slug c || text_eq name c

-- `categoryData: { active: true, ... }`
abbrev pub category_active : Text → Option Text → Db → Bool
category_active name filter db =
    any_where (λ r. text_eq r.name name && r.active && matches_filter filter r.slug r.name)
      db.categories

abbrev pub from_reached : ℕ → Option ℕ → Bool
from_reached now none = true
from_reached now (some t) = leb t now

abbrev pub until_ahead : ℕ → Option ℕ → Bool
until_ahead now none = true
until_ahead now (some t) = leb now t

abbrev pub partner_is : Option Text → Offer → Bool
partner_is none o = true
partner_is (some k) o = text_eq o.partner_id k

-- `featured` is compared where it is asked for.
abbrev pub featured_is : Option Bool → Offer → Bool
featured_is none o = true
featured_is (some true) o = o.featured
featured_is (some false) o = not o.featured

-- The filters of the catalog: the partner, the category and whether it is featured.
pub record OfferFilters : Type 0 where
  pub partner_id : Option Text
  pub category : Option Text
  pub featured : Option Bool

abbrev pub no_filters : OfferFilters
no_filters = record { partner_id = none; category = none; featured = none }

unfoldable pub offer_available : ℕ → OfferFilters → Db → Offer → Bool
offer_available now f db o =
    o.active
    && partner_active o.partner_id db
    && category_active o.category f.category db
    && from_reached now o.valid_from
    && until_ahead now o.valid_until
    && partner_is f.partner_id o
    && featured_is f.featured o

-- `findFirst({ where: { id, ...offerAvailabilityWhere() } })`
unfoldable pub find_available : ℕ → Text → Db → Option Offer
find_available now k db =
    find_where (λ o. text_eq o.id k && offer_available now no_filters db o) db.offers
