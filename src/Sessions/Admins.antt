-- ===== src/Sessions/Admins.antt =====
-- TokenService (src/modules/auth/token.service.ts): the sessions of an organization's administrators.
use mrcoin.Base.{ℕ, ◌*◌, List, ◌∷◌, Option, none, some}
use mrcoin.Base.Text.{Text, codes}
use mrcoin.Db.{Platform, invalid_refresh_token}
use mrcoin.Sessions.{
  RefreshToken, ReuseReport, Sessions, RequestMeta, TokenPair, Randomness, TokenKind, SessionAction,
  issue_token_pair, rotate_refresh_token, revoke_refresh_token,
}

abbrev access_token_ttl_seconds : ℕ
access_token_ttl_seconds = 15 * 60

abbrev refresh_token_ttl_days : ℕ
refresh_token_ttl_days = 30

pub record AdminIdentity : Type 0 where
  pub id : Text
  pub organization_id : Text
  pub role : Text

-- `meta.ip ?? 'unknown'`
abbrev pub or_unknown : Option Text → Text
or_unknown none = codes "unknown"
or_unknown (some t) = t

-- The administrator whom a token's foreign key names, and JwtService's signature of the claims.
module _ (p : Platform) (random : Randomness) (admin_of : Text → AdminIdentity)
    (sign : AdminIdentity → ℕ → Text) where
  abbrev report_reuse : RefreshToken → RequestMeta → List ReuseReport → List ReuseReport
  report_reuse t meta reports =
      record {
        organization_id = some (admin_of t.owner_id).organization_id;
        actor_id = t.owner_id;
        family = t.family;
        refresh_token_id = t.id;
        ip = or_unknown meta.ip;
      }
      ∷ reports

  abbrev pub admin_kind : TokenKind
  admin_kind = record {
    invalid_token = invalid_refresh_token;
    refresh_token_ttl_days = refresh_token_ttl_days;
    access_ttl_seconds = access_token_ttl_seconds;
    issue_access_token = λ k. sign (admin_of k) access_token_ttl_seconds;
    report_reuse = report_reuse;
  }

  abbrev pub issue : AdminIdentity → RequestMeta → SessionAction TokenPair
  issue admin meta = issue_token_pair p random admin_kind admin.id meta

  abbrev pub rotate : (ℕ → Sessions → Sessions) → Text → RequestMeta → SessionAction TokenPair
  rotate gap raw_token meta = rotate_refresh_token p random admin_kind gap raw_token meta

  abbrev pub revoke : Text → Sessions → Sessions
  revoke raw_token s = revoke_refresh_token p random admin_kind raw_token s
