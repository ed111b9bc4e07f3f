-- ===== src/Spins/Tests.antt =====
-- The theorem on spins at a concrete input: Alice redeems a spin for which 1000 coins were set aside.
use mrcoin.Base.{◌≡◌, refl, ◌∷◌, [], none, some}
use mrcoin.Base.Int.{pos}
use mrcoin.Base.Text.{codes}
use mrcoin.Db.{Wallet, CoinBatch, BatchStatus, SpinStatus, ok}
use mrcoin.Spins.{
  Spin, Spinning, redeem, redeem_new, redeem_loop, round, candidate_of, draw_sector, sector_coins,
  claim_and_credit, pay_prize, return_rest, give_back, credit_prize,
}
use mrcoin.Wallets.Sending.{resolve_wallet_id}
use mrcoin.Spins.Payout.{IsAllOrNothing, claim_and_credit-IsAllOrNothing}
use mrcoin.Samples.{empty_wallet, counting, office, alice, ledger_code}

abbrev wheel_batch : CoinBatch
wheel_batch = record {
  id = codes "b1";
  organization_id = codes "org";
  total_coins = pos 5000;
  remaining_coins = pos 4000;
  price_in_cents = 500;
  status = BatchStatus.paid;
  expires_at = 100;
  psp_charge_id = none;
  approved_by_platform_admin_id = none;
  rejected_by_platform_admin_id = none;
  rejection_reason = none;
  idempotency_key = none;
  created_at = 0;
}

abbrev spin_of_alice : Spin
spin_of_alice = record {
  id = codes "s1";
  spin_grant_id = codes "g1";
  organization_id = codes "org";
  membership_id = alice;
  reserved_batch_id = codes "b1";
  status = SpinStatus.pending;
  sector_index = none;
  coins_awarded = none;
  ledger_entry_id = none;
  redeem_idempotency_key = none;
  expires_at = 100;
  redeemed_at = none;
}

abbrev wheel : Spinning
wheel = record {
  db = record office { batches = wheel_batch ∷ [] };
  spins = spin_of_alice ∷ [];
  grants = [];
}

-- Sector 6 wins 500 coins: they are on top of the 100 that Alice had, and 500 are back in the batch.
won :
    (redeem counting (λ n s. s) (λ n. 6) 2 alice (codes "org") (codes "k") wheel).0
    ≡ some (ok (record { sector_index = 6; coins_awarded = 500 }))
unfolding ledger_code redeem redeem_new redeem_loop round candidate_of draw_sector sector_coins
    claim_and_credit pay_prize return_rest give_back credit_prize resolve_wallet_id
won = refl

-- Her wallet with 100 coins.
abbrev funded_alice : Wallet
funded_alice = record (empty_wallet alice) { cached_balance = pos 100; version = 1 }

-- The claim of her spin: she gets 500 of the 1000 coins, and the batch the others.
claim_and_credit-IsAllOrNothing_example :
    IsAllOrNothing spin_of_alice alice 500 funded_alice wheel
      (claim_and_credit counting spin_of_alice alice (draw_sector 6) (codes "k") wheel)
unfolding ledger_code sector_coins
claim_and_credit-IsAllOrNothing_example =
    claim_and_credit-IsAllOrNothing counting alice (codes "k") spin_of_alice 6 wheel funded_alice
      ((refl, tt), (refl, tt)) refl refl
