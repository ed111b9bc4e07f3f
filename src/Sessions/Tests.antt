-- ===== src/Sessions/Tests.antt =====
-- The theorems on sessions at concrete inputs: one user, who logs in and renews the session.
use mrcoin.Base.{ℕ, ◌≡◌, refl, [], ◌∷◌, none, some, arith}
use mrcoin.Base.Text.{Text, codes, text_eq}
use mrcoin.Base.Table.{find_where, update_where, count_where, any_where}
use mrcoin.Db.{ok, err, invalid_refresh_token, invalid_partner_refresh_token}
use mrcoin.Sessions.{
  RefreshToken, Sessions, RequestMeta, Randomness, issue_token_pair, rotate_refresh_token,
  create_refresh_token_record, revoke_where, revoke_family, link_successor, replace_token,
  claim_token, reject_reuse,
}
use mrcoin.Sessions.Users
use mrcoin.Sessions.Partners
use mrcoin.Sessions.Single.{IsSingle, IsGap, Evolves, Evolves-refl, live_in}
use mrcoin.Sessions.Rotation.{rotate-IsSingle, issue-IsSingle}
use mrcoin.Sessions.Theft.{quiet, rotated_once}
use mrcoin.Sessions.Reset.{reset_logs_out}
use mrcoin.Sessions.View.{view, RefinesExchange, rotate-RefinesExchange}
use mrcoin.Samples.{counting, alice}

unfoldable session_code : Unit {0}
unfolding find_where update_where count_where any_where text_eq issue_token_pair
    rotate_refresh_token create_refresh_token_record revoke_where revoke_family link_successor
    replace_token claim_token reject_reuse
session_code = tt

abbrev dice : Randomness
dice = record { hex16 = λ n. n ∷ 16 ∷ []; hex32 = λ n. n ∷ 32 ∷ [] }

abbrev signed : Text → ℕ → Text
signed k _ = k

abbrev no_sessions : Sessions
no_sessions = record { tokens = []; reports = []; ticks = 0 }

abbrev from_phone : RequestMeta
from_phone = record { ip = none; user_agent = some (codes "phone") }

abbrev nobody : Text → ℕ
nobody _ = 0

no_sessions-IsSingle : IsSingle nobody no_sessions.tokens
unfolding count_where
no_sessions-IsSingle = record {
  unique_ids = tt;
  unique_hashes = tt;
  one_live = λ f. omega arith;
  pending_known = λ f h. absurd (omega arith);
}

quiet-IsGap : (n : ℕ) → IsGap (quiet n)
quiet-IsGap n pending s i = (i, Evolves-refl s.tokens)

abbrev logged_in : Sessions
logged_in = (Users.issue counting dice signed alice from_phone no_sessions).1

logged_in-IsSingle : IsSingle nobody logged_in.tokens
unfolding any_where
logged_in-IsSingle =
    (issue-IsSingle counting dice (Users.user_kind counting dice signed) alice from_phone nobody
      no_sessions refl no_sessions-IsSingle).0

abbrev renewed : Sessions
renewed = (Users.rotate counting dice signed quiet (0 ∷ 32 ∷ []) from_phone logged_in).1

rotate-IsSingle_example : IsSingle nobody renewed.tokens × Evolves logged_in.tokens renewed.tokens
rotate-IsSingle_example =
    rotate-IsSingle counting dice (Users.user_kind counting dice signed) quiet (0 ∷ 32 ∷ [])
      from_phone nobody logged_in quiet-IsGap logged_in-IsSingle

abbrev first_token : RefreshToken
first_token = record {
  id = 0 ∷ [];
  owner_id = alice;
  token_hash = 0 ∷ 32 ∷ [];
  family = 0 ∷ 16 ∷ [];
  expires_at = 2592000000;
  ip = none;
  user_agent = some (codes "phone");
  revoked_at = none;
  replaced_by_id = none;
}

renewed_pair :
    (Users.rotate counting dice signed quiet (0 ∷ 32 ∷ []) from_phone logged_in).0
    ≡ ok (record { access_token = alice; refresh_token = 2 ∷ 32 ∷ []; expires_in = 2592000 })
unfolding session_code
renewed_pair = refl

rotated_once_example :
    ((Users.rotate counting dice signed quiet (0 ∷ 32 ∷ []) from_phone renewed).0
      ≡ err invalid_refresh_token)
    × (live_in
          (0 ∷ 16 ∷ [])
          (Users.rotate counting dice signed quiet (0 ∷ 32 ∷ []) from_phone renewed).1.tokens
        ≡ 0)
unfolding session_code
rotated_once_example =
    rotated_once counting dice (Users.user_kind counting dice signed) quiet (λ s. s) (0 ∷ 32 ∷ [])
      from_phone from_phone nobody logged_in renewed first_token
      (record { access_token = alice; refresh_token = 2 ∷ 32 ∷ []; expires_in = 2592000 })
      quiet-IsGap (quiet-IsGap 0) logged_in-IsSingle refl refl

rotate-RefinesExchange_example :
    RefinesExchange
      (λ t. t)
      (0 ∷ 32 ∷ [])
      (view logged_in)
      (Users.rotate counting dice signed quiet (0 ∷ 32 ∷ []) from_phone logged_in).0
      (view renewed)
rotate-RefinesExchange_example =
    rotate-RefinesExchange counting dice (Users.user_kind counting dice signed) (0 ∷ 32 ∷ [])
      from_phone logged_in logged_in-IsSingle.unique_ids

reset_logs_out_example :
    (Partners.rotate counting dice signed quiet
      (0 ∷ 32 ∷ [])
      from_phone
      (Partners.revoke_all_for_partner counting dice signed alice logged_in)).0
    ≡ err invalid_partner_refresh_token
unfolding session_code
reset_logs_out_example =
    reset_logs_out counting dice signed (λ s. s) alice (0 ∷ 32 ∷ []) from_phone nobody logged_in
      first_token (quiet-IsGap 0) logged_in-IsSingle refl refl
