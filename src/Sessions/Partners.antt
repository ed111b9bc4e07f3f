-- ===== src/Sessions/Partners.antt =====
-- PartnerTokenService (src/modules/partners/partner-token.service.ts): the sessions of partners.
use mrcoin.Base.{ℕ, ◌*◌}
use mrcoin.Base.Text.{Text}
use mrcoin.Db.{Platform, invalid_partner_refresh_token}
use mrcoin.Sessions.{
  Sessions, RequestMeta, TokenPair, Randomness, TokenKind, SessionAction, issue_token_pair,
  rotate_refresh_token, revoke_refresh_token, revoke_where, owner_is,
}

abbrev access_token_ttl_seconds : ℕ
access_token_ttl_seconds = 15 * 60

abbrev refresh_token_ttl_days : ℕ
refresh_token_ttl_days = 30

-- `sign` is JwtService's signature of the claims; reuse is only logged.
module _ (p : Platform) (random : Randomness) (sign : Text → ℕ → Text) where
  abbrev pub partner_kind : TokenKind
  partner_kind = record {
    invalid_token = invalid_partner_refresh_token;
    refresh_token_ttl_days = refresh_token_ttl_days;
    access_ttl_seconds = access_token_ttl_seconds;
    issue_access_token = λ k. sign k access_token_ttl_seconds;
    report_reuse = λ _ _ reports. reports;
  }

  abbrev pub issue : Text → RequestMeta → SessionAction TokenPair
  issue partner_id meta = issue_token_pair p random partner_kind partner_id meta

  abbrev pub rotate : (ℕ → Sessions → Sessions) → Text → RequestMeta → SessionAction TokenPair
  rotate gap raw_token meta = rotate_refresh_token p random partner_kind gap raw_token meta

  abbrev pub revoke : Text → Sessions → Sessions
  revoke raw_token s = revoke_refresh_token p random partner_kind raw_token s

  unfoldable pub revoke_all_for_partner : Text → Sessions → Sessions
  revoke_all_for_partner partner_id s = revoke_where p random partner_kind (owner_is partner_id) s
