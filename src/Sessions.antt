-- ===== src/Sessions.antt =====
-- Sessions with rotating refresh tokens, the mechanism that TokenService (src/modules/auth),
-- UserTokenService (src/modules/users), PartnerTokenService (src/modules/partners) and
-- PlatformAdminTokenService (src/modules/platform-admin) implement four times over. `TokenKind` holds
-- what differs; Services names each service's operations. The statements of a rotation run outside a
-- transaction, so `gap n` is what other requests commit before its next statement.
pub mod Admins
pub mod Users
pub mod Partners
pub mod PlatformAdmins
pub mod Single
pub mod Rotation
pub mod Theft
pub mod Reset
pub mod View
pub mod Tests
use mrcoin.Base.{
  ℕ, ◌+◌, ◌*◌, Bool, true, false, ◌&&◌, ◌||◌, List, ◌∷◌, Option, none, some, if◌then◌else◌, ltb,
  ◌==◌,
}
use mrcoin.Base.Text.{Text, text_eq}
use mrcoin.Base.Table.{find_where, update_where, count_where, any_where}
use mrcoin.Base.Unique.{has_key}
use mrcoin.Db.{
  Platform, Failure, Result, ok, err, unique_violation, record_not_found, Column, and_then,
}

-- A row of the table of refresh tokens: the token itself is not stored, only its hash.
pub record RefreshToken : Type 0 where
  pub id : Text
  pub owner_id : Text
  pub token_hash : Text
  pub family : Text
  pub expires_at : ℕ
  pub ip : Option Text
  pub user_agent : Option Text
  pub revoked_at : Option ℕ
  pub replaced_by_id : Option Text

-- The row of the audit log on `REFRESH_TOKEN_REUSE_DETECTED`.
pub record ReuseReport : Type 0 where
  pub organization_id : Option Text
  pub actor_id : Text
  pub family : Text
  pub refresh_token_id : Text
  pub ip : Text

pub record Sessions : Type 0 where
  pub tokens : List RefreshToken
  pub reports : List ReuseReport
  pub ticks : ℕ

pub record RequestMeta : Type 0 where
  pub ip : Option Text
  pub user_agent : Option Text

-- `tokenType` is always 'Bearer'.
pub record TokenPair : Type 0 where
  pub access_token : Text
  pub refresh_token : Text
  pub expires_in : ℕ

-- `randomBytes(n).toString('hex')`, by the stamps given before.
pub record Randomness : Type 0 where
  pub hex16 : ℕ → Text
  pub hex32 : ℕ → Text

-- What differs between the services: the exception, the lifetimes, the access token of an owner, and
-- what is written when reuse is detected.
pub record TokenKind : Type 0 where
  pub invalid_token : Failure
  pub refresh_token_ttl_days : ℕ
  pub access_ttl_seconds : ℕ
  pub issue_access_token : Text → Text
  pub report_reuse : RefreshToken → RequestMeta → List ReuseReport → List ReuseReport

abbrev pub SessionAction : Type 0 → Type 0
SessionAction A = Sessions → Result A × Sessions

abbrev pub is_some {ℓ} : {A : Type ℓ} → Option A → Bool
is_some (some _) = true
is_some none = false

abbrev pub is_live : RefreshToken → Bool
is_live t = elim t.revoked_at [ none ↦ true | some _ ↦ false ]

abbrev pub revoke : ℕ → RefreshToken → RefreshToken
revoke now t = record t { revoked_at = some now }

abbrev pub id_is : Text → RefreshToken → Bool
id_is = has_key (λ t. t.id)

abbrev pub hash_is : Text → RefreshToken → Bool
hash_is = has_key (λ t. t.token_hash)

abbrev pub family_is : Text → RefreshToken → Bool
family_is = has_key (λ t. t.family)

abbrev pub owner_is : Text → RefreshToken → Bool
owner_is = has_key (λ t. t.owner_id)

abbrev pub millis_per_day : ℕ
millis_per_day = 24 * 60 * 60 * 1000

-- `findUnique({ where: { tokenHash } })`
abbrev pub find_token : Text → Sessions → Option RefreshToken
find_token hash s = find_where (hash_is hash) s.tokens

-- `update({ where: { id }, data: { replacedById } })`. No other row can hold the id of a row that
-- was just made, so the unique index on `replacedById` refuses nothing.
abbrev pub link_token : Text → Text → SessionAction (Unit {0})
link_token k new_id s =
    if any_where (id_is k) s.tokens
    then (
      ok tt,
      record s {
        tokens = update_where (id_is k) (λ t. record t { replaced_by_id = some new_id }) s.tokens;
      },
    )
    else (err record_not_found, s)

module _ (p : Platform) (random : Randomness) (kind : TokenKind) where
  -- `updateMany({ where: { ..., revokedAt: null }, data: { revokedAt: new Date() } })`
  unfoldable pub revoke_where : (RefreshToken → Bool) → Sessions → Sessions
  revoke_where which s = record s {
    tokens = update_where (λ t. which t && is_live t) (revoke (p.now s.ticks)) s.tokens;
    ticks = s.ticks + 1;
  }

  unfoldable pub revoke_family : Text → Sessions → Sessions
  revoke_family family s = revoke_where (family_is family) s

  abbrev pub hash_token : Text → Text
  hash_token raw_token = p.sha256 raw_token

  abbrev pub new_token : Text → Text → RequestMeta → ℕ → RefreshToken
  new_token owner_id family meta n = record {
    id = p.cuid n;
    owner_id = owner_id;
    token_hash = hash_token (random.hex32 n);
    family = family;
    expires_at = p.now n + kind.refresh_token_ttl_days * millis_per_day;
    ip = meta.ip;
    user_agent = meta.user_agent;
    revoked_at = none;
    replaced_by_id = none;
  }

  -- The raw token and the row's id. The table refuses an id or a hash that it has.
  unfoldable pub create_refresh_token_record :
      Text → Text → RequestMeta → SessionAction (Text × Text)
  create_refresh_token_record owner_id family meta s =
      let t = new_token owner_id family meta s.ticks in
      if any_where (id_is t.id) s.tokens
      then (err (unique_violation Column.id), s)
      else if any_where (hash_is t.token_hash) s.tokens
      then (err (unique_violation Column.token_hash), s)
      else (
        ok (random.hex32 s.ticks, t.id),
        record s { tokens = t ∷ s.tokens; ticks = s.ticks + 1 },
      )

  abbrev pub token_pair : Text → Text → TokenPair
  token_pair owner_id refresh_token = record {
    access_token = kind.issue_access_token owner_id;
    refresh_token = refresh_token;
    expires_in = kind.access_ttl_seconds;
  }

  unfoldable pub issue_token_pair : Text → RequestMeta → SessionAction TokenPair
  issue_token_pair owner_id meta s =
      and_then (create_refresh_token_record owner_id (random.hex16 s.ticks) meta s)
        λ made s'. (ok (token_pair owner_id made.0), s')

  unfoldable pub revoke_refresh_token : Text → Sessions → Sessions
  revoke_refresh_token raw_token s = revoke_where (hash_is (hash_token raw_token)) s

  module _ (gap : ℕ → Sessions → Sessions) where
    abbrev pub answer : RefreshToken → Text → Unit {0} → SessionAction TokenPair
    answer existing raw_token _ s = (ok (token_pair existing.owner_id raw_token), s)

    -- The revoked token is told its successor, of which `made` has the raw token and the id.
    unfoldable pub link_successor : RefreshToken → Text × Text → SessionAction TokenPair
    link_successor existing made s =
        and_then (link_token existing.id made.1 (gap 2 s)) (answer existing made.0)

    -- The successor of a token that this request has revoked.
    unfoldable pub replace_token : RefreshToken → RequestMeta → SessionAction TokenPair
    replace_token existing meta s =
        and_then (create_refresh_token_record existing.owner_id existing.family meta s)
          (link_successor existing)

    -- The compare-and-set: only the request that revokes the token goes on.
    unfoldable pub claim_token : RefreshToken → RequestMeta → SessionAction TokenPair
    claim_token existing meta s =
        if count_where (λ t. id_is existing.id t && is_live t) s.tokens == 0
        then (err kind.invalid_token, s)
        else replace_token existing meta (gap 1 (revoke_where (id_is existing.id) s))

    -- The token was revoked before: its whole family is revoked, and the reuse is reported.
    unfoldable pub reject_reuse : RefreshToken → RequestMeta → SessionAction TokenPair
    reject_reuse existing meta s =
        let s' = gap 1 (revoke_family existing.family s) in
        (err kind.invalid_token, record s' { reports = kind.report_reuse existing meta s'.reports })

    unfoldable pub rotate_refresh_token : Text → RequestMeta → SessionAction TokenPair
    rotate_refresh_token raw_token meta s = elim (find_token (hash_token raw_token) s) [
      | none ↦ (err kind.invalid_token, s)
      | some existing ↦
          if is_some existing.revoked_at
          then reject_reuse existing meta (gap 0 s)
          else if ltb existing.expires_at (p.now (gap 0 s).ticks)
          then (err kind.invalid_token, gap 0 s)
          else claim_token existing meta (gap 0 s)
    ]
