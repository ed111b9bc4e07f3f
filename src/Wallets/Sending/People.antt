-- ===== src/Wallets/Sending/People.antt =====
-- The tables that a transfer between wallets leaves alone.
use mrcoin.Base.{ℕ, zero, suc, ◌≡◌, refl, inl, inr, arith, Option-cases, ◌∙◌}
use mrcoin.Base.Int.{ℤ}
use mrcoin.Db.{Db, Wallet, LedgerEntry, Platform, Result, ok, err, Action, bind_ok}
use mrcoin.Ledger.Entry.{EntryCoreInput, write_entry, execute_entry, read_wallet}
use mrcoin.Ledger.Service.{
  TransferBetweenWalletsInput, transfer_debit, transfer_credit, finish_transfer, attempt_transfer,
  stored_transfer, replay_transfer, transfer_once, transfer_between_wallets, transfer_wallets,
  with_gap,
}
use mrcoin.Ledger.Outcome.{quiet, settle_cases}

-- The tables of people and of transfers are the same.
abbrev pub SamePeople : Db → Db → Type 0
SamePeople a b = (b.users ≡ a.users) × (b.memberships ≡ a.memberships) × (b.transfers ≡ a.transfers)

write_entry-SamePeople :
    (p : Platform) (i : EntryCoreInput) (w : Wallet) (x : ℤ) (db db' : Db) (e : LedgerEntry)
    → write_entry p i w x db ≡ ok (e, db')
    → SamePeople db db'
unfolding write_entry
write_entry-SamePeople p i w x db db' e h = ground arith

execute_entry-SamePeople :
    (p : Platform) (i : EntryCoreInput) (db db' : Db) (e : LedgerEntry)
    → execute_entry p i db ≡ ok (e, db')
    → SamePeople db db'
unfolding execute_entry
execute_entry-SamePeople p i db db' e h = go (read_wallet i db) refl
  where
    go : (r : Result (Wallet × ℤ)) → read_wallet i db ≡ r → SamePeople db db'
    go (err x) k = absurd (ground (arith, k, h))
    go (ok (w, b)) k = write_entry-SamePeople p i w b db db' e (ground (arith, k, h))

SamePeople-trans : (a b c : Db) → SamePeople a b → SamePeople b c → SamePeople a c
SamePeople-trans a b c (u, m, t) (u', m', t') = (u' ∙ u, m' ∙ m, t' ∙ t)

finish_transfer-SamePeople :
    (p : Platform) (i : TransferBetweenWalletsInput) (w : Wallet) (x : ℤ) (db db' : Db)
    (r : LedgerEntry × LedgerEntry)
    → finish_transfer p i w x db ≡ ok (r, db')
    → SamePeople db db'
unfolding finish_transfer
finish_transfer-SamePeople p i w x db db' r h =
    let (d, mid, wrote, rest) = bind_ok (write_entry p (transfer_debit i) w x) _ db r db' h in
    let (c, end, ran, done) = bind_ok (execute_entry p (transfer_credit i)) _ mid r db' rest in
    let same : db' ≡ end = ground arith in
    rw same (
      SamePeople-trans db mid end (write_entry-SamePeople p (transfer_debit i) w x db mid d wrote)
        (execute_entry-SamePeople p (transfer_credit i) mid end c ran))

module _ (p : Platform) (i : TransferBetweenWalletsInput) where
  attempt-SamePeople : (db : Db) → SamePeople db (attempt_transfer p (λ d. d) i db).1
  unfolding attempt_transfer with_gap
  attempt-SamePeople db = go (read_wallet (transfer_debit i) db) refl
    where
      writes :
          (x : Wallet × ℤ) (r : Result ((LedgerEntry × LedgerEntry) × Db))
          → read_wallet (transfer_debit i) db ≡ ok x
          → finish_transfer p i x.0 x.1 db ≡ r
          → SamePeople db (attempt_transfer p (λ d. d) i db).1
      writes x (ok (a, now)) k h =
          rw (k, with_gap, h, with_gap) (finish_transfer-SamePeople p i x.0 x.1 db now a h)
      writes x (err e) k h = rw (k, with_gap, h, with_gap) (refl, refl, refl)

      go :
          (r : Result (Wallet × ℤ))
          → read_wallet (transfer_debit i) db ≡ r
          → SamePeople db (attempt_transfer p (λ d. d) i db).1
      go (err e) k = rw (k, with_gap) (refl, refl, refl)
      go (ok x) k = writes x (finish_transfer p i x.0 x.1 db) k refl

  replay-SamePeople : (db : Db) → (replay_transfer p i db).1 ≡ db
  unfolding replay_transfer
  replay-SamePeople db = elim (Option-cases (stored_transfer p i db)) [
    | inl e ↦ rw (e, replay_transfer)
    | inr (r, e) ↦ rw (e, replay_transfer)
  ]

  once-SamePeople :
      (again : Action (LedgerEntry × LedgerEntry))
      → ((db : Db) → SamePeople db (again db).1)
      → (db : Db) → SamePeople db (transfer_once p again (λ d. d) i db).1
  unfolding transfer_once
  once-SamePeople again h db = elim (Option-cases (stored_transfer p i db)) [
    | inr (r, e) ↦ rw (e, transfer_once) (refl, refl, refl)
    | inl e ↦
        let attempt = attempt_transfer p (λ d. d) i db in
        let kept = attempt-SamePeople db in
        rw (e, transfer_once)
          (settle_cases (λ x. SamePeople db x.1) again (replay_transfer p i) attempt
            (λ a now q. rw q at kept) (λ x now q o. rw q at kept)
            (λ x now q o. SamePeople-trans db now (again now).1 (rw q at kept) (h now))
            (λ x now q o.
              let mid : SamePeople db now = rw q at kept in rw (replay-SamePeople now) mid))
  ]

  retried-SamePeople :
      (left attempt : ℕ) (db : Db)
      → SamePeople db (transfer_between_wallets p quiet left attempt i db).1
  unfolding transfer_between_wallets
  retried-SamePeople zero attempt db = once-SamePeople _ (λ d. (refl, refl, refl)) db
  retried-SamePeople (suc left) attempt db =
      once-SamePeople (transfer_between_wallets p quiet left (suc attempt) i)
        (retried-SamePeople left (suc attempt)) db

  pub transfer_wallets-SamePeople : (db : Db) → SamePeople db (transfer_wallets p quiet i db).1
  unfolding transfer_wallets
  transfer_wallets-SamePeople db = retried-SamePeople 2 1 db
