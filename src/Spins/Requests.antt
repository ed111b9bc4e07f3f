-- ===== src/Spins/Requests.antt =====
-- The requests on spins, of an organization and of its members.
use mrcoin.Base.{ℕ}
use mrcoin.Base.Text.{Text}
use mrcoin.Db.{Platform}
use mrcoin.Spins.{Spinning, redeem, get_available_count}
use mrcoin.Spins.Grants.{GrantSpinsInput, grant}

pub data Request : Type 0 where
  -- by an administrator of the organization, with the key
  granting : Text → Text → GrantSpinsInput → Text → Request
  -- by a user in an organization, with the key
  redeeming : Text → Text → Text → Request
  counting : Text → Text → Request

-- The state that a request leaves, or a redemption that has not ended has after so many rounds.
unfoldable pub serve :
    Platform
    → (Text → Text)
    → (Text → Text)
    → (ℕ → Spinning → Spinning)
    → (ℕ → ℕ)
    → ℕ
    → Request
    → Spinning
    → Spinning
serve p hash_cpf encrypt_cpf gaps random fuel (granting organization_id admin_user_id i key) s =
    (grant p hash_cpf encrypt_cpf (gaps 0) organization_id admin_user_id i key s).1
serve p hash_cpf encrypt_cpf gaps random fuel (redeeming user_id organization_id key) s =
    (redeem p gaps random fuel user_id organization_id key s).1
serve p hash_cpf encrypt_cpf gaps random fuel (counting user_id organization_id) s =
    (get_available_count p user_id organization_id s).1
