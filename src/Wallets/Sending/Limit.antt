-- ===== src/Wallets/Sending/Limit.antt =====
-- What a caller of `TransferService.create` can rely on.
use mrcoin.Base.{
  ℕ, ◌+◌, ◌≡◌, ◌≢◌, List, [], ◌∷◌, ◌∙◌, leb, if◌then◌else◌, ◌&&◌, refl, ap, inl, inr, Bool, false,
  none, some, arith, Bool-cases, Option-cases,
}
use mrcoin.Base.Int.{ℤ, pos, ◌+ℤ◌, ◌≤ℤ◌, ltb_ℤ, int_laws}
use mrcoin.Base.Text.{Text, text_eq, text_eq_refl}
use mrcoin.Base.Table.{find_where, filter_where, find-any}
use mrcoin.Db.{
  Db, Membership, Wallet, User, Transfer, Platform, LedgerEntry, Failure, Result, ok, err, and_then,
}
use mrcoin.Ledger.Service.{transfer_wallets}
use mrcoin.Ledger.Outcome.{quiet}
use mrcoin.Ledger.Transfers.{transfer_all_or_nothing}
use mrcoin.Users.Pin.{Redis, verify_pin, find_user}
use mrcoin.Wallets.Sending.{
  CreateTransferInput, TransferResult, Checked, check_transfer, check_recipient, check_amount,
  resolve_wallet_id, create_transfer, find_transfer, find_recipient, send, beside, sent_since,
  transfer_daily_limit_coins, transfer_id, upsert_transfer, ledger_input,
}
use mrcoin.Users.Pin.Accepted.{IsAccepted, verify_pin-IsAccepted}
use mrcoin.Wallets.Sending.Members.{IsActiveMember, resolve_wallet_id_ok, find_recipient_ok}
use mrcoin.Wallets.Sending.People.{transfer_wallets-SamePeople}

module _ (p : Platform) where
  check_amount_ok :
      (m : Membership) (w : Wallet) (n : ℤ) (db : Db)
      → check_amount p m w n db ≡ ok tt
      → (n ≤ℤ w.cached_balance)
        × (sent_since (p.now db.ticks) m.id db.transfers +ℤ n ≤ℤ transfer_daily_limit_coins)
  unfolding check_amount
  check_amount_ok m w n db h = elim (Bool-cases (ltb_ℤ w.cached_balance n)) [
    | inl e ↦ absurd (ground arith)
    | inr e ↦
        elim (Bool-cases
          (ltb_ℤ transfer_daily_limit_coins (sent_since (p.now db.ticks) m.id db.transfers +ℤ n))) [
            | inl f ↦ absurd (ground arith)
            | inr f ↦ (ground arith, ground arith)
          ]
  ]

  -- What a transfer that passed all the checks meets.
  pub record Allowed (i : CreateTransferInput) (db : Db) (c : Checked) : Type 0 where
    pub other : text_eq i.recipient_membership_id c.sender.id ≡ false
    pub recipient : find_recipient i db ≡ some (c.recipient, c.recipient_wallet)
    pub covered : i.amount ≤ℤ c.sender_wallet.cached_balance
    pub limit :
        sent_since (p.now db.ticks) c.sender.id db.transfers +ℤ i.amount
        ≤ℤ transfer_daily_limit_coins

  check_recipient_ok :
      (i : CreateTransferInput) (m : Membership) (w : Wallet) (db : Db) (c : Checked)
      → check_recipient p i m w db ≡ ok c
      → Allowed i db c × (c.sender ≡ m) × (c.sender_wallet ≡ w)
  unfolding check_recipient
  check_recipient_ok i m w db c h = elim (Bool-cases (text_eq i.recipient_membership_id m.id)) [
    | inl e ↦ absurd (ground arith)
    | inr other ↦ elim (Option-cases (find_recipient i db)) [
      | inl e ↦ absurd (ground arith)
      | inr (nv, e) ↦ elim (Option-cases (find_user nv.0.user_id db)) [
        | inl f ↦ absurd (ground arith)
        | inr (u, f) ↦ amount nv u other e f (check_amount p m w i.amount db) refl
      ]
    ]
  ]
    where
      amount :
          (nv : Membership × Wallet) (u : User)
          → text_eq i.recipient_membership_id m.id ≡ false
          → find_recipient i db ≡ some nv
          → find_user nv.0.user_id db ≡ some u
          → (r : Result (Unit {0})) → check_amount p m w i.amount db ≡ r
          → Allowed i db c × (c.sender ≡ m) × (c.sender_wallet ≡ w)
      amount nv u other e f (err x) k = absurd (ground arith)
      amount nv u other e f (ok tt) k =
          let same : c ≡ record {
            sender = m;
            sender_wallet = w;
            recipient = nv.0;
            recipient_wallet = nv.1;
            recipient_name = u.name;
          } =
            ground arith in
          let (covered, limit) = check_amount_ok m w i.amount db k in
          rw same
            (record { other = other; recipient = e; covered = covered; limit = limit }, refl, refl)

  check_transfer_ok :
      (user_id : Text) (i : CreateTransferInput) (db : Db) (c : Checked)
      → check_transfer p user_id i db ≡ ok c
      → Allowed i db c
        × (resolve_wallet_id user_id i.organization_id db ≡ ok (c.sender, c.sender_wallet))
  unfolding check_transfer
  check_transfer_ok user_id i db c h = go (resolve_wallet_id user_id i.organization_id db) refl
    where
      go :
          (r : Result (Membership × Wallet))
          → resolve_wallet_id user_id i.organization_id db ≡ r
          → Allowed i db c
            × (resolve_wallet_id user_id i.organization_id db ≡ ok (c.sender, c.sender_wallet))
      go (err x) k = absurd (ground arith)
      go (ok (m, w)) k =
          let (allowed, sender, wallet) = check_recipient_ok i m w db c (ground arith) in
          (allowed, rw (sender, wallet) k)

-- What a membership sent in the 24 hours before an instant, in milliseconds, added up.
unfoldable pub sent_in_day : ℕ → Text → List Transfer → ℤ
sent_in_day now sender [] = pos 0
sent_in_day now sender (t ∷ ts) =
    (if text_eq t.from_membership_id sender && leb now (t.created_at + 86400000)
      then t.amount
      else pos 0)
    +ℤ sent_in_day now sender ts

sent_since-sent_in_day :
    (now : ℕ) (sender : Text) (ts : List Transfer)
    → sent_since now sender ts ≡ sent_in_day now sender ts
unfolding sent_since sent_in_day filter_where
sent_since-sent_in_day now sender [] = refl
sent_since-sent_in_day now sender (t ∷ ts) =
    let ih = sent_since-sent_in_day now sender ts in
    elim (Bool-cases (text_eq t.from_membership_id sender && leb now (t.created_at + 86400000))) [
      | inl e ↦ rw (sent_since, filter_where, e) (ap (λ n. t.amount +ℤ n) ih)
      | inr e ↦ rw (sent_since, filter_where, e) (ih ∙ (omega int_laws))
    ]

-- A transfer that may be made.
pub record IsPermitted (p : Platform) (user_id : Text) (i : CreateTransferInput) (db : Db)
    (c : Checked) : Type 0 where
  pub sender : IsActiveMember db i.organization_id c.sender c.sender_wallet
  pub sender_is : c.sender.user_id ≡ user_id
  pub recipient : IsActiveMember db i.organization_id c.recipient c.recipient_wallet
  pub recipient_is : c.recipient.id ≡ i.recipient_membership_id
  pub two : c.recipient.id ≢ c.sender.id
  pub covered : i.amount ≤ℤ c.sender_wallet.cached_balance
  pub limit : sent_in_day (p.now db.ticks) c.sender.id db.transfers +ℤ i.amount ≤ℤ pos 1000

apart : (a b : Text) → text_eq a b ≡ false → a ≢ b
apart a b differs same = let bad = rw (same, text_eq_refl b) at differs in cc

check_transfer-IsPermitted :
    (p : Platform) (user_id : Text) (i : CreateTransferInput) (db : Db) (c : Checked)
    → check_transfer p user_id i db ≡ ok c
    → IsPermitted p user_id i db c
check_transfer-IsPermitted p user_id i db c h =
    let (allowed, resolved) = check_transfer_ok p user_id i db c h in
    let (mine, sender) =
      resolve_wallet_id_ok user_id i.organization_id db c.sender c.sender_wallet resolved in
    let (asked, recipient) =
      find_recipient_ok i db c.recipient c.recipient_wallet allowed.recipient in
    let sum = sent_since-sent_in_day (p.now db.ticks) c.sender.id db.transfers in
    record {
      sender = sender;
      sender_is = mine;
      recipient = recipient;
      recipient_is = asked;
      two = rw asked (apart i.recipient_membership_id c.sender.id allowed.other);
      covered = allowed.covered;
      limit = rw sum at allowed.limit;
    }

module _ (p : Platform) (verify_password : Text → Text → Bool) (redis_now : ℕ) (user_id : Text)
    (i : CreateTransferInput) (key : Text) (db : Db) (redis : Redis)
    (new_key : find_transfer key db ≡ none) where
  abbrev pin_check : Result (Unit {0}) × Redis
  pin_check = verify_pin verify_password db redis redis_now user_id i.transaction_pin

  create_refused :
      (gaps : ℕ → Db → Db) (e : Failure)
      → check_transfer p user_id i db ≡ err e
      → create_transfer p verify_password gaps redis_now user_id i key (db, redis)
        ≡ (err e, (db, redis))
  unfolding create_transfer
  create_refused gaps e h = ground arith

  create_checked :
      (gaps : ℕ → Db → Db) (c : Checked) (r : Result (Unit {0})) (redis1 : Redis)
      → check_transfer p user_id i db ≡ ok c
      → pin_check ≡ (r, redis1)
      → create_transfer p verify_password gaps redis_now user_id i key (db, redis)
        ≡ and_then (beside db (r, redis1)) λ _ (now, left).
          let (x, db1) = send p gaps user_id c i.amount key now in (x, (db1, left))
  unfolding create_transfer
  create_checked gaps c r redis1 h k = ground arith

  -- A transfer that is made under a new key has passed every check, whatever others commit while it
  -- is made: sender and recipient are two active members of the organization, each with a wallet, the
  -- amount is within the balance of the sender's, what the sender sent in the last 24 hours and the
  -- amount are together at most 1000 coins, and the PIN is the sender's, who was not locked out.
  pub create_transfer_checked :
      (gaps : ℕ → Db → Db) (r : TransferResult)
      → (create_transfer p verify_password gaps redis_now user_id i key (db, redis)).0 ≡ ok r
      → (c : Checked) × IsPermitted p user_id i db c
        × IsAccepted verify_password db redis redis_now user_id i.transaction_pin
  create_transfer_checked gaps r h = go (check_transfer p user_id i db) refl
    where
      Passed : Type 0
      Passed =
          (c : Checked) × IsPermitted p user_id i db c
          × IsAccepted verify_password db redis redis_now user_id i.transaction_pin

      pin :
          (c : Checked)
          → check_transfer p user_id i db ≡ ok c
          → (x : Result (Unit {0}) × Redis) → pin_check ≡ x
          → Passed
      pin c k (err e, redis1) q =
          let bad = rw (create_checked gaps c (err e) redis1 k q) at h in absurd (cc)
      pin c k (ok tt, redis1) q = (
        c,
        check_transfer-IsPermitted p user_id i db c k,
        verify_pin-IsAccepted verify_password db redis redis_now user_id i.transaction_pin
            (ap (λ x. x.0) q),
      )

      go : (x : Result Checked) → check_transfer p user_id i db ≡ x → Passed
      go (err e) k = let bad = rw (create_refused gaps e k) at h in absurd (cc)
      go (ok c) k = pin c k pin_check refl

  upserted :
      (c : Checked) (d f : LedgerEntry) (db1 db2 : Db) (x : Failure)
      → db1.transfers ≡ db.transfers
      → upsert_transfer p c i.amount key d f db1 ≡ (err x, db2)
      → ⊥
  unfolding upsert_transfer
  upserted c d f db1 db2 x same k =
      let free = find-any (λ t. text_eq t.idempotency_key key) db.transfers new_key in
      elim (Option-cases (find_where (λ t. text_eq t.id (transfer_id p key)) db1.transfers)) [
        | inl e ↦ ground arith
        | inr (t, e) ↦ ground arith
      ]

  -- What `send` does after the coins were moved.
  abbrev after_send : Checked → LedgerEntry → LedgerEntry → Db → Result TransferResult × Db
  after_send c d f db1 = and_then (upsert_transfer p c i.amount key d f db1) λ t db2. (
    ok (record {
      id = t.id;
      amount = t.amount;
      recipient_membership_id = c.recipient.id;
      recipient_name = c.recipient_name;
      created_at = t.created_at;
    }),
    db2,
  )

  failed_send :
      (c : Checked) (x : Failure) (end : Db)
      → send p quiet user_id c i.amount key db ≡ (err x, end)
      → end ≡ db
  unfolding send
  failed_send c x end k = elim (Option-cases (find_user user_id db)) [
    | inl e ↦ ground arith
    | inr (u, e) ↦
        moved u e (transfer_wallets p quiet (ledger_input p c u.name i.amount key) db) refl
  ]
    where
      stored :
          (d f : LedgerEntry) (db1 : Db)
          → db1.transfers ≡ db.transfers
          → after_send c d f db1 ≡ (err x, end)
          → (r : Result Transfer × Db) → upsert_transfer p c i.amount key d f db1 ≡ r
          → end ≡ db
      stored d f db1 same out (err y, db2) q = absurd (upserted c d f db1 db2 y same q)
      stored d f db1 same out (ok t, db2) q = let bad = rw q at out in absurd (ground arith)

      moved :
          (u : User)
          → find_user user_id db ≡ some u
          → (r : Result (LedgerEntry × LedgerEntry) × Db)
          → transfer_wallets p quiet (ledger_input p c u.name i.amount key) db ≡ r
          → end ≡ db
      moved u e (err y, db1) q =
          let same = transfer_all_or_nothing p (ledger_input p c u.name i.amount key) db y db1 q in
          let out = rw (e, send, q) at k in ground arith
      moved u e (ok (d, f), db1) q =
          let (_, _, same) =
            rw q at (transfer_wallets-SamePeople p (ledger_input p c u.name i.amount key) db) in
          let out = rw (e, send, q) at k in
          stored d f db1 same out (upsert_transfer p c i.amount key d f db1) refl

  -- A transfer under a new key that fails when nobody interferes, at whatever point, leaves the
  -- database as it was: no coins move and no row is written.
  pub failed_transfer_leaves_db :
      (e : Failure) (db' : Db) (redis' : Redis)
      → create_transfer p verify_password quiet redis_now user_id i key (db, redis)
        ≡ (err e, (db', redis'))
      → db' ≡ db
  failed_transfer_leaves_db e db' redis' h = go (check_transfer p user_id i db) refl
    where
      pin :
          (c : Checked)
          → check_transfer p user_id i db ≡ ok c
          → (x : Result (Unit {0}) × Redis) → pin_check ≡ x
          → db' ≡ db
      pin c k (err y, redis1) q =
          let out = rw (create_checked quiet c (err y) redis1 k q) at h in ground arith
      pin c k (ok tt, redis1) q =
          let out = rw (create_checked quiet c (ok tt) redis1 k q) at h in
          failed_send c e db' (ground arith)

      go : (x : Result Checked) → check_transfer p user_id i db ≡ x → db' ≡ db
      go (err y) k = let out = rw (create_refused quiet y k) at h in ground arith
      go (ok c) k = pin c k pin_check refl
