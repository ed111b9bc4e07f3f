-- ===== src/Jobs/Tests.antt =====
-- The theorems on the jobs at concrete inputs.
use mrcoin.Base.{◌≡◌, ◌≢◌, refl, ◌↔◌, [], ◌∷◌, none, some, reverse}
use mrcoin.Base.Int.{pos}
use mrcoin.Base.Text.{text_eq_ne, decimal_ℤ}
use mrcoin.Db.{Db, Wallet, LedgerEntry}
use mrcoin.Ledger.Hash.{genesis_hash, canonicalize_ledger_payload, compute_entry_hash, payload_of}
use mrcoin.Ledger.Entry.{new_entry}
use mrcoin.Ledger.Service.{core_of_post}
use mrcoin.Ledger.Invariant.{IsChain}
use mrcoin.Jobs.Pages.{for_pages, fold_left, for_pages_reads_all}
use mrcoin.Jobs.HashChain.{queried, verify_wallet_chain, hash_mismatch}
use mrcoin.Jobs.HashChain.Detection.{
  verify_wallet_chain_iff, verify_sound_ledger, tampered_entry_located,
}
use mrcoin.Jobs.Reconciliation.{reconcile_wallet}
use mrcoin.Jobs.Reconciliation.Telescope.{reconcile_compares_last_balance, reconcile_sound_ledger}
use mrcoin.Samples.{
  counting, counting-IsMonotonic, alice, new_db, funded, funded-IsSound, fund_input, ledger_code,
}

abbrev fund_entry : LedgerEntry
fund_entry = new_entry counting (core_of_post fund_input) (pos 100) new_db

abbrev alice_funded : Wallet
alice_funded = record { id = alice; membership_id = alice; cached_balance = pos 100; version = 1 }

verify_wallet_chain_iff_example :
    (verify_wallet_chain counting alice funded ≡ some [])
    ↔ IsChain counting (reverse (queried counting alice funded))
unfolding ledger_code
verify_wallet_chain_iff_example = verify_wallet_chain_iff counting alice funded (tt, tt)

verify_sound_ledger_example : verify_wallet_chain counting alice funded ≡ some []
unfolding ledger_code
verify_sound_ledger_example =
    verify_sound_ledger counting alice funded alice_funded counting-IsMonotonic funded-IsSound
      (tt, tt) refl

-- Somebody makes the 100 coins a 1000 in the table.
abbrev tampered : LedgerEntry
tampered = record fund_entry { amount = pos 1000; balance_after = pos 1000 }

tampered_differs :
    compute_entry_hash counting tampered.prev_hash (payload_of tampered) ≢ tampered.hash
unfolding ledger_code genesis_hash canonicalize_ledger_payload decimal_ℤ
tampered_differs =
    text_eq_ne (compute_entry_hash counting tampered.prev_hash (payload_of tampered)) tampered.hash
      refl

abbrev tampered_db : Db
tampered_db = record funded { entries = tampered ∷ [] }

tampered_entry_located_example :
    verify_wallet_chain counting alice tampered_db
    ≡ some (
        record {
          type = hash_mismatch;
          wallet_id = alice;
          entry_id = tampered.id;
          expected = compute_entry_hash counting tampered.prev_hash (payload_of tampered);
          actual = tampered.hash;
        }
        ∷ [])
unfolding ledger_code
tampered_entry_located_example =
    tampered_entry_located counting alice tampered_db [] [] fund_entry tampered (tt, tt) refl
      (refl, refl, tt) refl refl tampered_differs

reconcile_compares_last_balance_example :
    reconcile_wallet alice (pos 7) funded
    ≡ some (
        some (record {
          wallet_id = alice;
          sum_of_deltas = pos 100;
          last_balance_after = pos 100;
          actual_cached_balance = pos 7;
        }))
unfolding ledger_code
reconcile_compares_last_balance_example =
    reconcile_compares_last_balance alice funded (pos 7) (tt, tt)

reconcile_sound_ledger_example : reconcile_wallet alice (pos 100) funded ≡ some none
unfolding ledger_code
reconcile_sound_ledger_example =
    reconcile_sound_ledger alice funded counting alice_funded counting-IsMonotonic funded-IsSound
      (tt, tt) refl

for_pages_reads_all_example :
    for_pages (λ n. n ∷ []) (λ s n. n ∷ s) 2 (1 ∷ 2 ∷ 3 ∷ 4 ∷ []) 5 none []
    ≡ some (4 ∷ 3 ∷ 2 ∷ 1 ∷ [])
unfolding ledger_code fold_left
for_pages_reads_all_example =
    for_pages_reads_all (λ n. n ∷ []) (1 ∷ 2 ∷ 3 ∷ 4 ∷ [])
      ((refl, (refl, (refl, tt))), ((refl, (refl, tt)), ((refl, tt), (tt, tt)))) (λ s n. n ∷ s) 1 []
