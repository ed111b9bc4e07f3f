-- ===== src/Redemptions/Purchase/Allowance.antt =====
-- What the checks of a purchase have read.
use mrcoin.Base.{ℕ, ◌≡◌, true, false, Mem}
use mrcoin.Base.Int.{ℤ, ◌≤ℤ◌}
use mrcoin.Base.Text.{Text, text_eq}
use mrcoin.Db.{Db, Platform, ok}
use mrcoin.Ledger.Service.{get_balance}
use mrcoin.Wallets.Sending.{resolve_wallet_id}
use mrcoin.Redemptions.Offers.{offer_available, no_filters}
use mrcoin.Redemptions.Purchase.{CreateRedemptionInput, CheckedPurchase, limit_reached}

-- What a purchase that passed the checks meets.
pub record Allowed (p : Platform) (user_id : Text) (i : CreateRedemptionInput) (db : Db)
    (c : CheckedPurchase) : Type 0 where
  pub resolved : resolve_wallet_id user_id i.organization_id db ≡ ok (c.buyer, c.wallet)
  pub offer_row : Mem c.offer db.offers
  pub asked : text_eq c.offer.id i.offer_id ≡ true
  pub available : offer_available (p.now db.ticks) no_filters db c.offer ≡ true
  pub within_limit : limit_reached c.buyer c.offer db ≡ false
  pub ident : Text
  pub balance : ℤ
  pub version : ℕ
  pub read : get_balance c.wallet.id db ≡ ok (ident, balance, version)
  pub covered : c.offer.cost_in_coins ≤ℤ balance
