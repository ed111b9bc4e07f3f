-- ===== src/Ledger/Tests.antt =====
-- The theorems on LedgerService at concrete inputs.
use mrcoin.Base.{ℕ, ◌≡◌, refl, ap, ◌++◌, [], ◌∷◌, some, arith}
use mrcoin.Base.Int.{pos, neg, ◌+ℤ◌, ◌-ℤ◌}
use mrcoin.Base.Text.{codes}
use mrcoin.Db.{
  Db, Wallet, LedgerEntry, LedgerEntryType, invalid_reversal, debit, ok, err, insufficient_balance,
  ledger_concurrency,
}
use mrcoin.Ledger.Entry.{find_wallet, new_entry}
use mrcoin.Ledger.Service.{
  PostLedgerEntryInput, ReverseLedgerEntryInput, TransferBetweenWalletsInput, core_of_post, post,
  reverse_entry, reverse_schema_accepts, transfer_wallets,
}
use mrcoin.Ledger.Invariant.{IsSound, Extends}
use mrcoin.Ledger.Outcome.{quiet}
use mrcoin.Ledger.Safety.{post-IsSound, transfer_wallets-IsSound}
use mrcoin.Ledger.Posts.{post_moves_coins, post_refuses_overdraft, post_twice, post_gives_up}
use mrcoin.Ledger.Reversals.{reverse_entry-Undoes}
use mrcoin.Ledger.Transfers.{transfer_moves_coins, transfer_all_or_nothing}
use mrcoin.Samples.{
  counting, counting-IsMonotonic, alice, bob, carol, new_db, empty_wallet, new_db-IsSound,
  ledger_code, fund_input, funded, funded-IsSound, quiet-IsGap,
}

post-IsSound_example : IsSound counting funded × Extends new_db funded
post-IsSound_example =
    post-IsSound counting counting-IsMonotonic quiet fund_input quiet-IsGap new_db new_db-IsSound

abbrev reverse_input : ReverseLedgerEntryInput
reverse_input = record {
  entry_id = counting.cuid 0;
  reason = codes "mistake";
  idempotency_key = codes "undo:alice";
}

abbrev undone : Db
undone = (reverse_entry counting quiet reverse_input funded).1

reverse_entry-Undoes_example :
    (find_wallet alice undone.wallets
      ≡ some (record (empty_wallet alice) { cached_balance = pos 0; version = 2 }))
    × (find_wallet bob undone.wallets ≡ find_wallet bob funded.wallets)
    × ((e : LedgerEntry) × ((reverse_entry counting quiet reverse_input funded).0 ≡ ok e)
        × (undone.entries ≡ e ∷ funded.entries)
        × (e.type ≡ LedgerEntryType.reversal)
        × (e.amount ≡ pos 100)
        × (e.reversal_of_id ≡ some (counting.cuid 0))
        × (reverse_entry counting quiet
              (record reverse_input {
                entry_id = counting.cuid 1;
                idempotency_key = codes "undo-undo";
              })
              undone
            ≡ (err (invalid_reversal e.id), undone)))
unfolding ledger_code reverse_schema_accepts ◌-ℤ◌
reverse_entry-Undoes_example =
    reverse_entry-Undoes counting reverse_input
      (record reverse_input { entry_id = counting.cuid 1; idempotency_key = codes "undo-undo" })
      funded (new_entry counting (core_of_post fund_input) (pos 100) new_db)
      (record (empty_wallet alice) { cached_balance = pos 100; version = 1 }) bob (pos 0) refl refl
      refl refl refl refl refl (omega arith) (ground arith)

abbrev send_input : TransferBetweenWalletsInput
send_input = record {
  from_wallet_id = alice;
  to_wallet_id = bob;
  amount = pos 30;
  reference_id = codes "t-1";
  debit_description = codes "to bob";
  credit_description = codes "from alice";
  debit_idempotency_key = codes "t-1:debit";
  credit_idempotency_key = codes "t-1:credit";
}

-- What Alice's wallet is once she has 100 coins, and how it moves when another transaction
-- credits her one more.
abbrev alice_funded : Wallet
alice_funded = record { id = alice; membership_id = alice; cached_balance = pos 100; version = 1 }

abbrev bob_new : Wallet
bob_new = record { id = bob; membership_id = bob; cached_balance = pos 0; version = 0 }

transfer_wallets-IsSound_example :
    IsSound counting (transfer_wallets counting quiet send_input funded).1
    × Extends funded (transfer_wallets counting quiet send_input funded).1
transfer_wallets-IsSound_example =
    transfer_wallets-IsSound counting counting-IsMonotonic quiet send_input quiet-IsGap funded
      funded-IsSound

abbrev sent : Db
sent = (transfer_wallets counting quiet send_input funded).1

bob_gains :
    find_wallet bob sent.wallets ≡ some (record bob_new { cached_balance = pos 30; version = 1 })
unfolding ledger_code
bob_gains = refl

found_funded : find_wallet alice funded.wallets ≡ some alice_funded
unfolding ledger_code
found_funded = refl

found_bob : find_wallet bob funded.wallets ≡ some bob_new
unfolding ledger_code
found_bob = refl

transfer_moves_coins_example :
    let db' = (transfer_wallets counting quiet send_input funded).1 in
    (find_wallet alice db'.wallets
      ≡ some (record alice_funded { cached_balance = pos 100 +ℤ neg (pos 30); version = 2 }))
    × (find_wallet bob db'.wallets
        ≡ some (record bob_new { cached_balance = pos 0 +ℤ pos 30; version = 1 }))
unfolding ledger_code
transfer_moves_coins_example =
    let moved =
      transfer_moves_coins counting send_input funded alice_funded bob_new (ground arith)
        (ground arith) refl refl refl refl (omega arith) (omega arith) carol (ground arith)
        (ground arith) in
    (moved.0, moved.1)

-- Bob has too little for Alice.
abbrev too_much : TransferBetweenWalletsInput
too_much = record send_input { amount = pos 101 }

transfer_all_or_nothing_example : (transfer_wallets counting quiet too_much funded).1 ≡ funded
unfolding ledger_code
transfer_all_or_nothing_example =
    transfer_all_or_nothing counting too_much funded
      (insufficient_balance alice (pos 101) (pos 100)) funded refl

abbrev spend_input : PostLedgerEntryInput
spend_input = record fund_input {
  type = debit;
  amount = pos 40;
  idempotency_key = codes "spend:alice";
}

post_moves_coins_example :
    let (r, db') = post counting quiet spend_input funded in
    (find_wallet alice db'.wallets
      ≡ some (record alice_funded { cached_balance = pos 60; version = 2 }))
    × (find_wallet bob db'.wallets ≡ some bob_new)
    × ((e : LedgerEntry) × (r ≡ ok e)
        × (db'.entries ≡ e ∷ funded.entries)
        × (e.balance_after ≡ pos 60)
        × (e.amount ≡ pos 40)
        × (e.wallet_id ≡ alice))
unfolding ledger_code
post_moves_coins_example =
    post_moves_coins counting spend_input refl funded alice_funded bob refl refl (omega arith)
      (ground arith)

post_refuses_overdraft_example :
    post counting quiet (record spend_input { amount = pos 101 }) funded
    ≡ (err (insufficient_balance alice (pos 101) (pos 100)), funded)
unfolding ledger_code
post_refuses_overdraft_example =
    post_refuses_overdraft counting (record spend_input { amount = pos 101 }) refl quiet funded
      alice_funded refl refl (omega arith)

abbrev fund_entry : LedgerEntry
fund_entry = new_entry counting (core_of_post fund_input) (pos 100) new_db

post_twice_example : post counting quiet fund_input funded ≡ (ok fund_entry, funded)
unfolding ledger_code
post_twice_example = post_twice counting fund_input refl quiet quiet new_db funded fund_entry refl

-- Another transaction credits Alice a coin between each read and its update, in the first attempts.
abbrev rival_input : ℕ → PostLedgerEntryInput
rival_input n = record fund_input {
  amount = pos 1;
  idempotency_key = codes "rival-" ++ (n ∷ n ∷ []);
}

abbrev rival : ℕ → Db → Db
rival n db = (post counting quiet (rival_input n) db).1

post_gives_up_example :
    (post counting rival spend_input funded).0 ≡ err (ledger_concurrency alice 3)
unfolding ledger_code
post_gives_up_example =
    ap (λ r. r.0)
      (post_gives_up counting spend_input refl rival funded refl
        (alice_funded, refl, omega arith, refl)
        (record alice_funded { cached_balance = pos 101; version = 2 }, refl, omega arith, refl)
        (record alice_funded { cached_balance = pos 102; version = 3 }, refl, omega arith, refl))
