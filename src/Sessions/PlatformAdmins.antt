-- ===== src/Sessions/PlatformAdmins.antt =====
-- PlatformAdminTokenService (src/modules/platform-admin/platform-admin-token.service.ts): the sessions
-- of the platform's operators.
use mrcoin.Base.{ℕ, ◌*◌, List, ◌∷◌, none}
use mrcoin.Base.Text.{Text}
use mrcoin.Db.{Platform, invalid_refresh_token}
use mrcoin.Sessions.{
  RefreshToken, ReuseReport, Sessions, RequestMeta, TokenPair, Randomness, TokenKind, SessionAction,
  issue_token_pair, rotate_refresh_token, revoke_refresh_token,
}
use mrcoin.Sessions.Admins.{or_unknown}

abbrev access_token_ttl_seconds : ℕ
access_token_ttl_seconds = 15 * 60

abbrev refresh_token_ttl_days : ℕ
refresh_token_ttl_days = 30

-- `sign` is JwtService's signature of the claims.
module _ (p : Platform) (random : Randomness) (sign : Text → ℕ → Text) where
  -- What PlatformAdminAuditService writes: this log has no organization.
  abbrev report_reuse : RefreshToken → RequestMeta → List ReuseReport → List ReuseReport
  report_reuse t meta reports =
      record {
        organization_id = none;
        actor_id = t.owner_id;
        family = t.family;
        refresh_token_id = t.id;
        ip = or_unknown meta.ip;
      }
      ∷ reports

  abbrev pub platform_admin_kind : TokenKind
  platform_admin_kind = record {
    invalid_token = invalid_refresh_token;
    refresh_token_ttl_days = refresh_token_ttl_days;
    access_ttl_seconds = access_token_ttl_seconds;
    issue_access_token = λ k. sign k access_token_ttl_seconds;
    report_reuse = report_reuse;
  }

  abbrev pub issue : Text → RequestMeta → SessionAction TokenPair
  issue platform_admin_id meta =
      issue_token_pair p random platform_admin_kind platform_admin_id meta

  abbrev pub rotate : (ℕ → Sessions → Sessions) → Text → RequestMeta → SessionAction TokenPair
  rotate gap raw_token meta = rotate_refresh_token p random platform_admin_kind gap raw_token meta

  abbrev pub revoke : Text → Sessions → Sessions
  revoke raw_token s = revoke_refresh_token p random platform_admin_kind raw_token s
