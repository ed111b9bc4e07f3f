-- ===== src/Users/Pin.antt =====
-- TransactionPinService (src/modules/users/transaction-pin.service.ts): the PIN that a user enters to
-- spend coins, with the counter of failures that Redis holds under `pin-fail:{userId}`. The hash
-- function (argon2, behind `hashPassword` and `verifyPassword`) is a parameter, and so is the time.
pub mod Lockout
pub mod Accepted
use mrcoin.Base.{
  ℕ, suc, ◌+◌, ◌-◌, Bool, true, false, List, [], ◌∷◌, ◌++◌, Option, none, some, if◌then◌else◌, leb,
  ltb, ◌==◌,
}
use mrcoin.Base.Text.{Text, codes, text_eq}
use mrcoin.Base.Table.{find_where, update_where}
use mrcoin.Db.{Db, User, Result, ok, err, record_not_found, pin_locked, pin_not_set, invalid_pin}

abbrev pub pin_max_attempts : ℕ
pin_max_attempts = 5

abbrev pub pin_lockout_window_seconds : ℕ
pin_lockout_window_seconds = 900

-- What Redis holds under a key: a number, and the second from which it is gone.
pub record Counter : Type 0 where
  pub value : ℕ
  pub expires_at : Option ℕ

abbrev pub Redis : Type 0
Redis = Text → Option Counter

abbrev pub is_live : ℕ → Option ℕ → Bool
is_live now none = true
is_live now (some t) = ltb now t

abbrev pub live : ℕ → Option Counter → Option Counter
live now none = none
live now (some c) = if is_live now c.expires_at then some c else none

-- What `GET` finds at an instant.
unfoldable pub get : Redis → ℕ → Text → Option Counter
get redis now k = live now (redis k)

unfoldable pub set : Redis → Text → Option Counter → Redis
set redis k c k' = if text_eq k' k then c else redis k'

-- `INCR`: a missing key counts from 0, a key that is there keeps its expiry.
abbrev pub increased : Option Counter → Counter
increased none = record { value = 1; expires_at = none }
increased (some c) = record c { value = suc c.value }

unfoldable pub lock_key : Text → Text
lock_key user_id = codes "pin-fail:" ++ user_id

-- `currentFailures !== null && Number(currentFailures) >= PIN_MAX_ATTEMPTS`
abbrev pub is_locked : Option Counter → Bool
is_locked none = false
is_locked (some c) = leb pin_max_attempts c.value

abbrev pub find_user : Text → Db → Option User
find_user k db = find_where (λ u. text_eq u.id k) db.users

-- The counter after a wrong PIN: the first failure starts the window.
unfoldable pub count_failure : ℕ → Option Counter → Counter
count_failure now before =
    let c = increased before in
    if c.value == 1 then record c { expires_at = some (now + pin_lockout_window_seconds) } else c

-- `transactionPinHash` is null, or an empty text, where no PIN is set.
abbrev pub stored_pin : Option Text → Option Text
stored_pin (some (c ∷ t)) = some (c ∷ t)
stored_pin _ = none

module _ (verify_password : Text → Text → Bool) where
  -- What follows once the user's hash is known.
  unfoldable pub judge_pin : Redis → ℕ → Text → Text → Text → Result (Unit {0}) × Redis
  unfolding count_failure
  judge_pin redis now key stored pin =
      let c = count_failure now (get redis now key) in
      if verify_password stored pin then (ok tt, set redis key none) else (
        if leb pin_max_attempts c.value
            then err pin_locked
            else err (invalid_pin (pin_max_attempts - c.value)),
        set redis key (some c),
      )

  unfoldable pub verify_pin : Db → Redis → ℕ → Text → Text → Result (Unit {0}) × Redis
  verify_pin db redis now user_id pin =
      let key = lock_key user_id in
      if is_locked (get redis now key)
      then (err pin_locked, redis)
      else (elim (find_user user_id db) [
        | none ↦ (err record_not_found, redis)
        | some u ↦ elim (stored_pin u.transaction_pin_hash) [
          | none ↦ (err pin_not_set, redis)
          | some stored ↦ judge_pin redis now key stored pin
        ]
      ])

-- `setPin`
unfoldable pub set_pin : (Text → Text) → Text → Text → Db → Result (Unit {0} × Db)
set_pin hash_password user_id pin db = elim (find_user user_id db) [
  | none ↦ err record_not_found
  | some _ ↦ ok (
    tt,
    record db {
      users =
          update_where (λ u. text_eq u.id user_id)
            (λ u. record u { transaction_pin_hash = some (hash_password pin) }) db.users;
    },
  )
]
