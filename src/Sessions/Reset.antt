-- ===== src/Sessions/Reset.antt =====
-- What `revokeAllForPartner` guarantees when a partner's password is reset.
use mrcoin.Base.{ℕ, ◌≡◌, ◌∙◌, true, some}
use mrcoin.Base.Text.{Text, text_eq→eq, text_eq_refl}
use mrcoin.Base.Table.{find_meets}
use mrcoin.Base.Unique.{find_key}
use mrcoin.Db.{Platform, err, invalid_partner_refresh_token}
use mrcoin.Sessions.{
  RefreshToken, Sessions, RequestMeta, Randomness, find_token, hash_is, owner_is, revoke_where,
}
use mrcoin.Sessions.Partners.{partner_kind, rotate, revoke_all_for_partner}
use mrcoin.Sessions.Single.{IsSingle, IsGap}
use mrcoin.Sessions.Rotation.{revoke_where-IsGap}
use mrcoin.Sessions.Theft.{quiet, Spent, Spent-Evolves, revoke-Spent, reuse}

-- After the reset no refresh token that the partner had before is accepted, whatever other requests do
-- in between.
pub reset_logs_out :
    (p : Platform) (random : Randomness) (sign : Text → ℕ → Text) (later : Sessions → Sessions)
    (partner_id raw_token : Text) (meta : RequestMeta) (pending : Text → ℕ) (s : Sessions)
    (t : RefreshToken)
    → IsGap later
    → IsSingle pending s.tokens
    → find_token (p.sha256 raw_token) s ≡ some t
    → t.owner_id ≡ partner_id
    → (rotate p random sign quiet raw_token meta
        (later (revoke_all_for_partner p random sign partner_id s))).0
      ≡ err invalid_partner_refresh_token
unfolding revoke_all_for_partner revoke_where
reset_logs_out p random sign later partner_id raw_token meta pending s t gap i found owner =
    let kind = partner_kind p random sign in
    let known = find_key (λ u. u.id) (hash_is (p.sha256 raw_token)) s.tokens t i.unique_ids found in
    let mine : owner_is partner_id t ≡ true = rw owner (text_eq_refl partner_id) in
    let hash =
      text_eq→eq t.token_hash (p.sha256 raw_token)
        (find_meets (hash_is (p.sha256 raw_token)) s.tokens t found) in
    let (u, seen, family, same, dead) =
      revoke-Spent (p.now s.ticks) (owner_is partner_id) t.id t s.tokens known mine in
    let (single, _) = revoke_where-IsGap p random kind (owner_is partner_id) pending s i in
    let s' : Sessions = revoke_where p random kind (owner_is partner_id) s in
    let (single', grown) = gap pending s' single in
    let spent : Spent t.id t.family (p.sha256 raw_token) s'.tokens =
      (u, seen, family, same ∙ hash, dead) in
    (reuse p random kind raw_token meta pending (later s') t.id t.family single'
      (Spent-Evolves t.id t.family (p.sha256 raw_token) s'.tokens (later s').tokens grown spent)).0
