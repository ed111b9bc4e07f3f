-- ===== src/Ledger/Transfers.antt =====
-- What a caller of `LedgerService.transferBetweenWallets` can rely on.
use mrcoin.Base.{
  ℕ, zero, suc, ◌+◌, ◌≡◌, ◌≢◌, refl, sym, inl, inr, ◌∷◌, none, some, arith, Bool-cases,
  Option-cases, ◌∙◌,
}
use mrcoin.Base.Int.{ℤ, pos, neg, ◌+ℤ◌, ◌≤ℤ◌, int_laws}
use mrcoin.Base.Text.{Text, text_eq, text_eq→eq}
use mrcoin.Base.Table.{find_where}
use mrcoin.Db.{Db, Wallet, LedgerEntry, Platform, Result, Failure, ok, err, Action}
use mrcoin.Ledger.Entry.{
  EntryCoreInput, find_wallet, find_entry, read_wallet, write_entry, execute_entry, new_entry,
}
use mrcoin.Ledger.Service.{
  TransferBetweenWalletsInput, transfer_debit, transfer_credit, finish_transfer, attempt_transfer,
  stored_transfer, replay_transfer, transfer_once, transfer_between_wallets, transfer_wallets,
  with_gap,
}
use mrcoin.Ledger.Write.{written}
use mrcoin.Ledger.Outcome.{
  quiet, write_new, read_enough, find-written_self, find-written_ne, with_gap_done,
  execute_entry_new, settle_ok, settle_cases,
}

-- The entry that a write adds is not found under another key.
find_entry-new :
    (p : Platform) (i : EntryCoreInput) (b : ℤ) (k : Text) (db : Db)
    → i.idempotency_key ≢ k
    → find_entry k (new_entry p i b db ∷ db.entries) ≡ find_entry k db.entries
unfolding find_entry find_where new_entry
find_entry-new p i b k db ne = elim (Bool-cases (text_eq i.idempotency_key k)) [
  | inl e ↦ absurd (ne (text_eq→eq i.idempotency_key k e))
  | inr e ↦ rw e
]

finish_transfer_done :
    (p : Platform) (i : TransferBetweenWalletsInput) (w : Wallet) (x : ℤ) (now mid end : Db)
    (d c : LedgerEntry)
    → write_entry p (transfer_debit i) w x now ≡ ok (d, mid)
    → execute_entry p (transfer_credit i) mid ≡ ok (c, end)
    → finish_transfer p i w x now ≡ ok ((d, c), end)
unfolding finish_transfer
finish_transfer_done p i w x now mid end d c h k = ground arith

module _ (p : Platform) (i : TransferBetweenWalletsInput) (db : Db) (a b : Wallet)
    (distinct : i.from_wallet_id ≢ i.to_wallet_id)
    (keys : i.debit_idempotency_key ≢ i.credit_idempotency_key)
    (new_debit : find_entry i.debit_idempotency_key db.entries ≡ none)
    (new_credit : find_entry i.credit_idempotency_key db.entries ≡ none)
    (sender : find_wallet i.from_wallet_id db.wallets ≡ some a)
    (recipient : find_wallet i.to_wallet_id db.wallets ≡ some b)
    (enough : pos 0 ≤ℤ a.cached_balance +ℤ neg i.amount)
    (room : pos 0 ≤ℤ b.cached_balance +ℤ i.amount) where
  abbrev left_over : ℤ
  left_over = a.cached_balance +ℤ neg i.amount

  abbrev gained : ℤ
  gained = b.cached_balance +ℤ i.amount

  abbrev debited : Db
  debited = written p (transfer_debit i) a left_over db

  abbrev credited : Db
  credited = written p (transfer_credit i) b gained debited

  recipient_debited : find_wallet i.to_wallet_id debited.wallets ≡ some b
  recipient_debited =
      find-written_ne p (transfer_debit i) a left_over i.from_wallet_id i.to_wallet_id db sender
        (λ e. distinct (sym e))
      ∙ recipient

  attempt_transfer_done : attempt_transfer p (λ d. d) i db ≡ (
    ok (
      new_entry p (transfer_debit i) left_over db,
      new_entry p (transfer_credit i) gained debited,
    ),
    credited,
  )
  unfolding attempt_transfer finish_transfer transfer_debit transfer_credit
  attempt_transfer_done =
      with_gap_done (λ d. d) (read_wallet (transfer_debit i)) (λ (w, c). finish_transfer p i w c) db
        (a, left_over) _ _ (read_enough (transfer_debit i) a db sender enough)
        (finish_transfer_done p i a left_over db debited credited _ _
          (write_new p (transfer_debit i) a left_over db sender new_debit)
          (execute_entry_new p (transfer_credit i) b debited recipient_debited
            (find_entry-new p (transfer_debit i) left_over i.credit_idempotency_key db keys
              ∙ new_credit)
            room))

  nothing_stored : stored_transfer p i db ≡ none
  unfolding stored_transfer
  nothing_stored = rw (new_debit, stored_transfer)

  transfer_done : transfer_wallets p quiet i db ≡ (
    ok (
      new_entry p (transfer_debit i) left_over db,
      new_entry p (transfer_credit i) gained debited,
    ),
    credited,
  )
  unfolding transfer_wallets transfer_between_wallets transfer_once
  transfer_done =
      rw (nothing_stored, transfer_once, attempt_transfer_done)
        (settle_ok (transfer_between_wallets p quiet 1 2 i) (replay_transfer p i) credited _)

  -- A transfer between two wallets, under two new keys, of an amount that the sender has: when
  -- nobody interferes the sender's balance falls by the amount, the recipient's grows by it, no third
  -- wallet changes, and exactly the debit and the credit are added, in that order.
  pub transfer_moves_coins :
      (k : Text)
      → k ≢ i.from_wallet_id
      → k ≢ i.to_wallet_id
      → let (r, db') = transfer_wallets p quiet i db in
        (find_wallet i.from_wallet_id db'.wallets
          ≡ some (record a { cached_balance = left_over; version = a.version + 1 }))
        × (find_wallet i.to_wallet_id db'.wallets
            ≡ some (record b { cached_balance = gained; version = b.version + 1 }))
        × (find_wallet k db'.wallets ≡ find_wallet k db.wallets)
        × ((d : LedgerEntry) × (c : LedgerEntry) × (r ≡ ok (d, c))
            × (db'.entries ≡ c ∷ d ∷ db.entries)
            × (d.balance_after +ℤ c.balance_after ≡ a.cached_balance +ℤ b.cached_balance))
  unfolding new_entry
  transfer_moves_coins k ne ne' = rw transfer_done (
    find-written_ne p credit b gained i.to_wallet_id i.from_wallet_id debited there distinct
        ∙ find-written_self p debit a left_over i.from_wallet_id db sender,
    find-written_self p credit b gained i.to_wallet_id debited there,
    find-written_ne p credit b gained i.to_wallet_id k debited there ne'
        ∙ find-written_ne p debit a left_over i.from_wallet_id k db sender ne,
    (new_entry p debit left_over db, new_entry p credit gained debited, refl, refl, omega int_laws),
  )
    where
      debit : EntryCoreInput
      debit = transfer_debit i

      credit : EntryCoreInput
      credit = transfer_credit i

      there : find_wallet i.to_wallet_id debited.wallets ≡ some b
      there = recipient_debited

-- A request that failed has left the database as it found it.
abbrev pub UndoneIfFailed : {A : Type 0} → Db → Result A × Db → Type 0
UndoneIfFailed db (ok _, now) = Unit
UndoneIfFailed db (err _, now) = now ≡ db

module _ (p : Platform) (i : TransferBetweenWalletsInput) (db : Db) where
  attempt_transfer-Undone : UndoneIfFailed db (attempt_transfer p (λ d. d) i db)
  unfolding attempt_transfer with_gap
  attempt_transfer-Undone = go (read_wallet (transfer_debit i) db) refl
    where
      writes :
          (x : Wallet × ℤ) (r : Result ((LedgerEntry × LedgerEntry) × Db))
          → read_wallet (transfer_debit i) db ≡ ok x
          → finish_transfer p i x.0 x.1 db ≡ r
          → UndoneIfFailed db (attempt_transfer p (λ d. d) i db)
      writes x (ok (a, now)) k h = rw (k, with_gap, h, with_gap) tt
      writes x (err e) k h = rw (k, with_gap, h, with_gap) refl

      go :
          (r : Result (Wallet × ℤ))
          → read_wallet (transfer_debit i) db ≡ r
          → UndoneIfFailed db (attempt_transfer p (λ d. d) i db)
      go (err e) k = rw (k, with_gap) refl
      go (ok x) k = writes x (finish_transfer p i x.0 x.1 db) k refl

  replay_transfer-Undone : UndoneIfFailed db (replay_transfer p i db)
  unfolding replay_transfer
  replay_transfer-Undone = elim (Option-cases (stored_transfer p i db)) [
    | inl e ↦ rw (e, replay_transfer) refl
    | inr (r, e) ↦ rw (e, replay_transfer) tt
  ]

  transfer_once-Undone :
      (again : Action (LedgerEntry × LedgerEntry))
      → UndoneIfFailed db (again db)
      → UndoneIfFailed db (transfer_once p again (λ d. d) i db)
  unfolding transfer_once
  transfer_once-Undone again h = elim (Option-cases (stored_transfer p i db)) [
    | inr (r, e) ↦ rw (e, transfer_once) tt
    | inl e ↦
        let attempt = attempt_transfer p (λ d. d) i db in
        let undone = attempt_transfer-Undone in
        rw (e, transfer_once)
          (settle_cases (UndoneIfFailed db) again (replay_transfer p i) attempt (λ a now q. tt)
            (λ x now q o. rw q at undone)
            (λ x now q o. let same : now ≡ db = rw q at undone in rw same h)
            (λ x now q o. let same : now ≡ db = rw q at undone in rw same replay_transfer-Undone))
  ]

  retried-Undone :
      (left attempt : ℕ) → UndoneIfFailed db (transfer_between_wallets p quiet left attempt i db)
  unfolding transfer_between_wallets
  retried-Undone zero attempt = transfer_once-Undone _ refl
  retried-Undone (suc left) attempt =
      transfer_once-Undone (transfer_between_wallets p quiet left (suc attempt) i)
        (retried-Undone left (suc attempt))

  -- A transfer that fails when nobody interferes, on whatever branch, leaves the database as it was:
  -- the debit never stays without the credit.
  pub transfer_all_or_nothing :
      (e : Failure) (db' : Db) → transfer_wallets p quiet i db ≡ (err e, db') → db' ≡ db
  unfolding transfer_wallets
  transfer_all_or_nothing e db' h = rw h at (retried-Undone 2 1)
