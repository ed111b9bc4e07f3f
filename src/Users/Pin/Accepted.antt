-- ===== src/Users/Pin/Accepted.antt =====
-- What an accepted PIN means.
use mrcoin.Base.{
  ℕ, ◌<◌, ◌≡◌, inl, inr, Bool, true, false, Mem, ◌∷◌, [], Option, none, some, arith, Bool-cases,
  Option-cases,
}
use mrcoin.Base.Text.{Text, text_eq, text_eq→eq}
use mrcoin.Base.Table.{find_meets, find-Mem}
use mrcoin.Db.{Db, User, ok}
use mrcoin.Users.Pin.{
  Counter, Redis, get, is_locked, lock_key, find_user, stored_pin, judge_pin, verify_pin,
}

-- Fewer than five failures are counted.
abbrev pub HasAttempts : Option Counter → Type 0
HasAttempts none = Unit
HasAttempts (some c) = c.value < 5

-- The user is in the table and has a PIN, the PIN entered is that one, and the user is not locked out.
pub record IsAccepted (verify_password : Text → Text → Bool) (db : Db) (redis : Redis) (now : ℕ)
    (user_id pin : Text) : Type 0 where
  pub user : User
  pub user_row : Mem user db.users
  pub ident : user.id ≡ user_id
  pub stored : Text
  pub has_pin : user.transaction_pin_hash ≡ some stored
  pub right : verify_password stored pin ≡ true
  pub open_still : HasAttempts (get redis now (lock_key user_id))

stored_is : (o : Option Text) (t : Text) → stored_pin o ≡ some t → o ≡ some t
stored_is none t h = absurd (let bad = h in cc)
stored_is (some []) t h = absurd (let bad = h in cc)
stored_is (some (c ∷ cs)) t h = h

attempts_of : (o : Option Counter) → is_locked o ≡ false → HasAttempts o
attempts_of none h = tt
attempts_of (some c) h = ground arith

pub verify_pin-IsAccepted :
    (verify_password : Text → Text → Bool) (db : Db) (redis : Redis) (now : ℕ) (user_id pin : Text)
    → (verify_pin verify_password db redis now user_id pin).0 ≡ ok tt
    → IsAccepted verify_password db redis now user_id pin
unfolding verify_pin judge_pin
verify_pin-IsAccepted verify_password db redis now user_id pin h =
    elim (Bool-cases (is_locked (get redis now (lock_key user_id)))) [
      | inl locked ↦ absurd (let bad = rw (verify_pin, locked) at h in cc)
      | inr open_still ↦ elim (Option-cases (find_user user_id db)) [
        | inl e ↦ absurd (let bad = rw (verify_pin, open_still, e) at h in cc)
        | inr (u, e) ↦ elim (Option-cases (stored_pin u.transaction_pin_hash)) [
          | inl f ↦ absurd (let bad = rw (verify_pin, open_still, e, f) at h in cc)
          | inr (stored, f) ↦ elim (Bool-cases (verify_password stored pin)) [
            | inr wrong ↦
                absurd (
                  let bad = rw (verify_pin, open_still, e, f, judge_pin, wrong) at h in
                  ground arith)
            | inl right ↦ record {
              user = u;
              user_row = find-Mem (λ v. text_eq v.id user_id) db.users u e;
              ident = text_eq→eq u.id user_id (find_meets (λ v. text_eq v.id user_id) db.users u e);
              stored = stored;
              has_pin = stored_is u.transaction_pin_hash stored f;
              right = right;
              open_still = attempts_of (get redis now (lock_key user_id)) open_still;
            }
          ]
        ]
      ]
    ]
