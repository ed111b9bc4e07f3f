-- ===== src/Sessions/Users.antt =====
-- UserTokenService (src/modules/users/user-token.service.ts): the sessions of the app's users.
use mrcoin.Base.{ℕ, ◌*◌}
use mrcoin.Base.Text.{Text}
use mrcoin.Db.{Platform, invalid_refresh_token}
use mrcoin.Sessions.{
  Sessions, RequestMeta, TokenPair, Randomness, TokenKind, SessionAction, issue_token_pair,
  rotate_refresh_token, revoke_refresh_token,
}

abbrev access_token_ttl_seconds : ℕ
access_token_ttl_seconds = 30 * 24 * 60 * 60

abbrev refresh_token_ttl_days : ℕ
refresh_token_ttl_days = 30

-- `sign` is JwtService's signature of the claims; reuse is only logged.
module _ (p : Platform) (random : Randomness) (sign : Text → ℕ → Text) where
  abbrev pub user_kind : TokenKind
  user_kind = record {
    invalid_token = invalid_refresh_token;
    refresh_token_ttl_days = refresh_token_ttl_days;
    access_ttl_seconds = access_token_ttl_seconds;
    issue_access_token = λ k. sign k access_token_ttl_seconds;
    report_reuse = λ _ _ reports. reports;
  }

  abbrev pub issue : Text → RequestMeta → SessionAction TokenPair
  issue user_id meta = issue_token_pair p random user_kind user_id meta

  abbrev pub rotate : (ℕ → Sessions → Sessions) → Text → RequestMeta → SessionAction TokenPair
  rotate gap raw_token meta = rotate_refresh_token p random user_kind gap raw_token meta

  abbrev pub revoke : Text → Sessions → Sessions
  revoke raw_token s = revoke_refresh_token p random user_kind raw_token s
