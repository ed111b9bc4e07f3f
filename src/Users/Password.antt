-- ===== src/Users/Password.antt =====
-- What a new password is held to (src/modules/users/password-rules.util.ts). `to_lower` is
-- JavaScript's `toLowerCase`, an argument.
pub mod Trivial
use mrcoin.Base.{ℕ, Bool, true, false, ◌&&◌, ◌||◌, List, [], ◌∷◌, reverse, ◌==◌}
use mrcoin.Base.Text.{Text, codes, text_eq}
use mrcoin.Base.Table.{any_where}

abbrev pub password_min_length : ℕ
password_min_length = 8

abbrev pub password_max_length : ℕ
password_max_length = 128

abbrev pub ascending_run : Text
ascending_run = codes "abcdefghijklmnopqrstuvwxyz0123456789"

abbrev pub descending_run : Text
descending_run = reverse ascending_run

abbrev pub common_passwords : List Text
common_passwords =
    codes "password"
    ∷ codes "password1"
    ∷ codes "password12"
    ∷ codes "password123"
    ∷ codes "12345678"
    ∷ codes "123456789"
    ∷ codes "1234567890"
    ∷ codes "87654321"
    ∷ codes "11111111"
    ∷ codes "00000000"
    ∷ codes "123123123"
    ∷ codes "qwertyui"
    ∷ codes "qwertyuiop"
    ∷ codes "qwerty123"
    ∷ codes "qwerty1234"
    ∷ codes "asdfghjk"
    ∷ codes "asdfghjkl"
    ∷ codes "zxcvbnm12"
    ∷ codes "1qaz2wsx"
    ∷ codes "1qaz2wsx3edc"
    ∷ codes "qazwsxedc"
    ∷ codes "letmein123"
    ∷ codes "iloveyou123"
    ∷ codes "welcome123"
    ∷ codes "welcome1234"
    ∷ codes "admin1234"
    ∷ codes "admin12345"
    ∷ codes "dragon123"
    ∷ codes "monkey123"
    ∷ codes "football123"
    ∷ codes "baseball123"
    ∷ codes "master1234"
    ∷ codes "superman123"
    ∷ codes "trustno123"
    ∷ codes "sunshine123"
    ∷ codes "princess123"
    ∷ codes "shadow1234"
    ∷ codes "freedom123"
    ∷ codes "whatever12"
    ∷ codes "starwars12"
    ∷ codes "summer2024"
    ∷ codes "summer2025"
    ∷ codes "summer2026"
    ∷ codes "senha1234"
    ∷ codes "senha12345"
    ∷ codes "senha123456"
    ∷ codes "minhasenha"
    ∷ codes "minhasenha1"
    ∷ codes "minhasenha123"
    ∷ codes "brasil1234"
    ∷ codes "brasil12345"
    ∷ codes "futebol123"
    ∷ codes "vitoria123"
    ∷ codes "palmeiras123"
    ∷ codes "flamengo123"
    ∷ codes "corinthians1"
    ∷ codes "gostosa123"
    ∷ codes "gostoso123"
    ∷ codes "amoreoso12"
    ∷ codes "mudar1234"
    ∷ codes "trocar1234"
    ∷ codes "acesso1234"
    ∷ codes "acesso12345"
    ∷ codes "cliente123"
    ∷ codes "cliente1234"
    ∷ codes "usuario123"
    ∷ codes "usuario1234"
    ∷ codes "contasenha"
    ∷ codes "novasenha1"
    ∷ codes "novasenha123"
    ∷ codes "primeira123"
    ∷ codes "segunda1234"
    ∷ codes "terceira123"
    ∷ codes "12345678910"
    ∷ codes "00000000000"
    ∷ codes "11111111111"
    ∷ []

-- `String.prototype.startsWith`
unfoldable pub starts_with : Text → Text → Bool
starts_with [] t = true
starts_with (c ∷ s) [] = false
starts_with (c ∷ s) (d ∷ t) = c == d && starts_with s t

-- `String.prototype.includes`
unfoldable pub includes : Text → Text → Bool
unfolding starts_with
includes [] s = starts_with s []
includes (c ∷ t) s = starts_with s (c ∷ t) || includes t s

abbrev pub all_equal : ℕ → Text → Bool
all_equal d [] = true
all_equal d (c ∷ t) = c == d && all_equal d t

abbrev pub all_same_char : Text → Bool
all_same_char [] = true
all_same_char (c ∷ t) = all_equal c (c ∷ t)

unfoldable pub is_trivial_password : (Text → Text) → Text → Bool
unfolding includes
is_trivial_password to_lower password =
    let lower = to_lower password in
    any_where (λ c. text_eq c lower) common_passwords
    || (all_same_char lower || (includes ascending_run lower || includes descending_run lower))

unfoldable pub password_contains_cpf : Text → Text → Bool
unfolding includes
password_contains_cpf password cpf = includes password cpf
