-- ===== src/Users/Pin/Lockout.antt =====
-- What the counter of failures guarantees.
use mrcoin.Base.{
  ℕ, suc, ◌+◌, ◌-◌, ◌≤◌, ◌<◌, ◌≡◌, refl, ap, ◌∙◌, inl, inr, Bool, true, false, List, [], ◌∷◌, none,
  some, length, All, arith, Bool-cases, Option-cases, ◌==◌, if◌then◌else◌,
}
use mrcoin.Base.Text.{Text, text_eq, text_eq_refl}
use mrcoin.Base.Table.{update_where, find-update, find_meets}
use mrcoin.Db.{Db, User, ok, err, pin_locked, invalid_pin}
use mrcoin.Users.Pin.{
  Counter, Redis, get, set, is_locked, lock_key, count_failure, find_user, stored_pin, judge_pin,
  verify_pin, set_pin, pin_lockout_window_seconds,
}

-- A counter with n failures, whose window ends at `t`.
abbrev pub counted : ℕ → ℕ → Counter
counted n t = record { value = n; expires_at = some t }

counted_again :
    (now n t : ℕ) → count_failure now (some (counted (suc n) t)) ≡ counted (suc (suc n)) t
unfolding count_failure
counted_again now n t = ground arith

-- An attempt at an instant.
abbrev pub Attempt : Type 0
Attempt = ℕ × Text

-- A wrong PIN before an instant.
abbrev pub IsWrongBefore : (Text → Text → Bool) → Text → ℕ → Attempt → Type 0
IsWrongBefore verify_password stored t a = (a.0 < t) × (verify_password stored a.1 ≡ false)

-- The attempts of a user one after the other: the counters that they leave.
abbrev pub after : (Text → Text → Bool) → Db → Text → List Attempt → Redis → Redis
after verify_password db user_id [] r = r
after verify_password db user_id (a ∷ rest) r =
    after verify_password db user_id rest (verify_pin verify_password db r a.0 user_id a.1).1

module _ (verify_password : Text → Text → Bool) (db : Db) (user_id stored : Text) (u : User)
    (found : find_user user_id db ≡ some u)
    (has_pin : stored_pin u.transaction_pin_hash ≡ some stored) where
  abbrev key : Text
  key = lock_key user_id

  verify_unlocked :
      (r : Redis) (now : ℕ) (pin : Text)
      → is_locked (get r now key) ≡ false
      → verify_pin verify_password db r now user_id pin
        ≡ judge_pin verify_password r now key stored pin
  unfolding verify_pin
  verify_unlocked r now pin h = rw (h, found, has_pin)

  -- A wrong PIN, where the counter does not lock.
  judge_wrong :
      (r : Redis) (now : ℕ) (pin : Text)
      → is_locked (get r now key) ≡ false
      → verify_password stored pin ≡ false
      → (verify_pin verify_password db r now user_id pin).1
        ≡ set r key (some (count_failure now (get r now key)))
  unfolding judge_pin
  judge_wrong r now pin h wrong = rw (verify_unlocked r now pin h, wrong)

  get-counted :
      (r : Redis) (now n t : ℕ)
      → now < t
      → r key ≡ some (counted n t)
      → get r now key ≡ some (counted n t)
  unfolding get
  get-counted r now n t h e = rw e (ground arith)

  after_wrong :
      (l : List Attempt) (r : Redis) (n t : ℕ)
      → r key ≡ some (counted (suc n) t)
      → suc n + length l ≤ 5
      → All (IsWrongBefore verify_password stored t) l
      → after verify_password db user_id l r key ≡ some (counted (suc n + length l) t)
  unfolding set
  after_wrong [] r n t h small wrong = h ∙ ap (λ m. some (counted m t)) (omega arith)
  after_wrong (a ∷ l) r n t h small wrong =
      let seen = get-counted r a.0 (suc n) t wrong.0.0 h in
      let unlocked : is_locked (get r a.0 key) ≡ false = rw seen (ground arith) in
      let step = judge_wrong r a.0 a.1 unlocked wrong.0.1 in
      let rest =
        after_wrong l (verify_pin verify_password db r a.0 user_id a.1).1 (suc n) t
          (rw (step, text_eq_refl key, seen, counted_again a.0 n t)) (omega arith) wrong.1 in
      rest ∙ ap (λ m. some (counted m t)) (omega arith)

  -- The first wrong PIN starts the window.
  first_wrong :
      (r : Redis) (now : ℕ) (pin : Text)
      → get r now key ≡ none
      → verify_password stored pin ≡ false
      → (verify_pin verify_password db r now user_id pin).1 key
        ≡ some (counted 1 (now + pin_lockout_window_seconds))
  unfolding count_failure set
  first_wrong r now pin h wrong =
      let unlocked : is_locked (get r now key) ≡ false = rw h refl in
      rw (judge_wrong r now pin unlocked wrong) (rw (text_eq_refl key, h) refl)

  verdict :
      (r : Redis) (now : ℕ) (pin : Text) (n t : ℕ)
      → get r now key ≡ some (counted (suc n) t)
      → suc n < 5
      → (judge_pin verify_password r now key stored pin).0 ≡ (
          if verify_password stored pin
          then ok tt
          else (if suc (suc n) == 5 then err pin_locked else err (invalid_pin (3 - n))))
  unfolding judge_pin
  verdict r now pin n t seen small = elim (Bool-cases (verify_password stored pin)) [
    | inl right ↦ rw right
    | inr bad ↦ rw (bad, seen) (ground arith)
  ]

  -- Wrong PINs in a row, the first of them at `now` with no counter running.
  module _ (r : Redis) (now : ℕ) (pin : Text) (l : List Attempt) (fresh : get r now key ≡ none)
      (wrong : verify_password stored pin ≡ false)
      (all_wrong : All
        (IsWrongBefore verify_password stored (now + pin_lockout_window_seconds))
        l) where
    abbrev pub left_behind : Redis
    left_behind = after verify_password db user_id ((now, pin) ∷ l) r

    counter_left :
        suc (length l) ≤ 5
        → left_behind key ≡ some (counted (suc (length l)) (now + pin_lockout_window_seconds))
    counter_left small =
        after_wrong l (verify_pin verify_password db r now user_id pin).1 0
          (now + pin_lockout_window_seconds) (first_wrong r now pin fresh wrong) (omega arith)
          all_wrong
        ∙ ap (λ m. some (counted m (now + pin_lockout_window_seconds))) (omega arith)

    -- Five wrong PINs within the window lock the user out: until 900 seconds after the first of them
    -- every PIN is refused, the right one too, and the counter is left as it is.
    pub five_wrong_pins_lock :
        length l ≡ 4
        → (later : ℕ) (next : Text) → later < now + pin_lockout_window_seconds
        → verify_pin verify_password db left_behind later user_id next
          ≡ (err pin_locked, left_behind)
    unfolding verify_pin
    five_wrong_pins_lock four later next soon =
        let seen =
          get-counted left_behind later (suc (length l)) (now + pin_lockout_window_seconds) soon
            (counter_left (omega arith)) in
        let locked : is_locked (get left_behind later key) ≡ true = rw (seen, four) refl in
        rw locked

    -- When the 900 seconds that began with the first wrong PIN are over, the right PIN is accepted
    -- again, after up to five wrong ones, and the counter is gone, however late in the window the last
    -- wrong one came.
    pub lockout_ends :
        suc (length l) ≤ 5
        → (later : ℕ) (next : Text) → now + pin_lockout_window_seconds ≤ later
        → verify_password stored next ≡ true
        → verify_pin verify_password db left_behind later user_id next
          ≡ (ok tt, set left_behind key none)
    unfolding get judge_pin
    lockout_ends small later next late right =
        let gone : get left_behind later key ≡ none = rw (counter_left small) (ground arith) in
        let unlocked : is_locked (get left_behind later key) ≡ false = rw gone refl in
        verify_unlocked left_behind later next unlocked ∙ (rw right)

    -- With fewer than five wrong PINs the user is not locked out within the window: the right one is
    -- accepted, and one more wrong one is answered with the attempts that are left, or locks.
    pub attempts_left :
        suc (length l) < 5
        → (later : ℕ) (next : Text) → later < now + pin_lockout_window_seconds
        → (verify_pin verify_password db left_behind later user_id next).0 ≡ (
            if verify_password stored next
            then ok tt
            else (if suc (suc (length l)) == 5
                then err pin_locked
                else err (invalid_pin (3 - length l))))
    attempts_left small later next soon =
        let seen =
          get-counted left_behind later (suc (length l)) (now + pin_lockout_window_seconds) soon
            (counter_left (omega arith)) in
        let unlocked : is_locked (get left_behind later key) ≡ false = rw seen (ground arith) in
        ap (λ x. x.0) (verify_unlocked left_behind later next unlocked)
        ∙ verdict left_behind later next (length l) (now + pin_lockout_window_seconds) seen small

-- A PIN that was set is the one that is then accepted: `verifyPin` passes, and the counter is cleared,
-- where the user is not locked out. The hash function gives a text that is not empty, and the check
-- accepts a PIN against its own hash.
pub set_pin-verify_pin :
    (verify_password : Text → Text → Bool) (hash_password : Text → Text) (db db' : Db)
    (user_id pin stored : Text) (r : Redis) (now : ℕ)
    → stored_pin (some (hash_password pin)) ≡ some stored
    → verify_password stored pin ≡ true
    → is_locked (get r now (lock_key user_id)) ≡ false
    → set_pin hash_password user_id pin db ≡ ok (tt, db')
    → verify_pin verify_password db' r now user_id pin ≡ (ok tt, set r (lock_key user_id) none)
unfolding set_pin judge_pin
set_pin-verify_pin verify_password hash_password db db' user_id pin stored r now hashed right free
      h =
    elim (Option-cases (find_user user_id db)) [
      | inl e ↦ absurd (ground arith)
      | inr (u, e) ↦
          let state : db'.users
              ≡ update_where (λ v. text_eq v.id user_id)
                  (λ v. record v { transaction_pin_hash = some (hash_password pin) }) db.users =
            ground arith in
          let same : text_eq u.id user_id ≡ true = find_meets _ db.users u e in
          let there : find_user user_id db'
              ≡ some (record u { transaction_pin_hash = some (hash_password pin) }) =
            rw state (
              find-update (λ v. text_eq v.id user_id) (λ v. text_eq v.id user_id)
                (λ v. record v { transaction_pin_hash = some (hash_password pin) }) db.users
                (λ v. refl)
              ∙ (rw (e, same))) in
          verify_unlocked verify_password db' user_id stored _ there hashed r now pin free
          ∙ (rw right)
    ]
