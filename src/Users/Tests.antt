-- ===== src/Users/Tests.antt =====
-- The theorems on the PIN at concrete inputs.
use mrcoin.Base.{◌↔◌, ◌⊎◌, true, ◌≡◌, refl, List, [], ◌∷◌, none, some, arith, All}
use mrcoin.Base.Text.{codes, text_eq}
use mrcoin.Base.Table.{find_where, update_where}
use mrcoin.Db.{Db, User, UserStatus, ok, err, pin_locked}
use mrcoin.Users.Pin.{Redis, get, set, lock_key, verify_pin, set_pin}
use mrcoin.Users.Pin.Lockout.{
  Attempt, IsWrongBefore, after, five_wrong_pins_lock, lockout_ends, set_pin-verify_pin,
}
use mrcoin.Users.Password.{is_trivial_password, common_passwords, ascending_run, descending_run}
use mrcoin.Users.Password.Trivial.{IsListed, IsRepeated, IsPart, is_trivial_password_iff}
use mrcoin.Samples.{new_db}

abbrev ann : User
ann = record {
  id = codes "ann";
  cpf_encrypted = [];
  cpf_hash = codes "h";
  name = codes "Ann";
  status = UserStatus.active;
  transaction_pin_hash = some (codes "4711");
}

abbrev with_ann : Db
with_ann = record new_db { users = ann ∷ [] }

abbrev empty_redis : Redis
empty_redis _ = none

abbrev four_wrong : List Attempt
four_wrong = (11, codes "1") ∷ (12, codes "2") ∷ (13, codes "3") ∷ (900, codes "4") ∷ []

All-wrong : All (IsWrongBefore text_eq (codes "4711") 910) four_wrong
unfolding text_eq
All-wrong =
    ((omega arith, refl), ((omega arith, refl), ((omega arith, refl), ((omega arith, refl), tt))))

abbrev after_five : Redis
after_five = after text_eq with_ann (codes "ann") ((10, codes "0") ∷ four_wrong) empty_redis

five_wrong_pins_lock_example :
    verify_pin text_eq with_ann after_five 909 (codes "ann") (codes "4711")
    ≡ (err pin_locked, after_five)
unfolding text_eq find_where get lock_key
five_wrong_pins_lock_example =
    five_wrong_pins_lock text_eq with_ann (codes "ann") (codes "4711") ann refl refl empty_redis 10
      (codes "0") four_wrong refl refl All-wrong refl 909 (codes "4711") (omega arith)

lockout_ends_example :
    verify_pin text_eq with_ann after_five 910 (codes "ann") (codes "4711")
    ≡ (ok tt, set after_five (lock_key (codes "ann")) none)
unfolding text_eq find_where get lock_key
lockout_ends_example =
    lockout_ends text_eq with_ann (codes "ann") (codes "4711") ann refl refl empty_redis 10
      (codes "0") four_wrong refl refl All-wrong (omega arith) 910 (codes "4711") (omega arith) refl

set_pin-verify_pin_example :
    verify_pin text_eq
      (record with_ann { users = record ann { transaction_pin_hash = some (codes "90") } ∷ [] })
      empty_redis
      5
      (codes "ann")
      (codes "90")
    ≡ (ok tt, set empty_redis (lock_key (codes "ann")) none)
unfolding text_eq find_where get lock_key set_pin update_where
set_pin-verify_pin_example =
    set_pin-verify_pin text_eq (λ t. t) with_ann
      (record with_ann { users = record ann { transaction_pin_hash = some (codes "90") } ∷ [] })
      (codes "ann") (codes "90") (codes "90") empty_redis 5 refl refl refl refl

is_trivial_password_iff_example : (is_trivial_password (λ t. t) (codes "wxyz0123") ≡ true) ↔ (
    IsListed (codes "wxyz0123") common_passwords
    ⊎ (IsRepeated (codes "wxyz0123")
        ⊎ (IsPart (codes "wxyz0123") ascending_run ⊎ IsPart (codes "wxyz0123") descending_run)))
is_trivial_password_iff_example = is_trivial_password_iff (λ t. t) (codes "wxyz0123")
