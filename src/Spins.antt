-- ===== src/Spins.antt =====
-- SpinsService (src/modules/spins/spins.service.ts): a member redeems spins of a prize wheel, each of
-- which had the highest prize set aside from a batch when it was granted (Grants). The state is the
-- database with the tables of spins and grants.
pub mod Grants
pub mod Requests
pub mod Values
pub mod Sum
pub mod Conservation
pub mod Payout
mod Tests
use mrcoin.Base.{
  ℕ, zero, suc, ◌+◌, ◌-◌, Bool, true, false, ◌&&◌, List, [], ◌∷◌, ◌++◌, Option, none, some,
  if◌then◌else◌, ltb, ◌==◌,
}
use mrcoin.Base.Int.{ℤ, pos, ◌+ℤ◌}
use mrcoin.Base.Text.{Text, codes, text_eq, opt_text_eq}
use mrcoin.Base.Table.{find_where, filter_where, update_where, count_where, any_where, order_by}
use mrcoin.Db.{
  Db, CoinBatch, Membership, Wallet, SpinStatus, LedgerEntryType, LedgerReferenceType, Failure,
  Result, ok, err, Platform, no_spin_available, record_not_found, unique_violation, id,
  idempotency_key, idempotency_conflict, and_then,
}
use mrcoin.Ledger.Service.{PostLedgerEntryInput, post_in}
use mrcoin.Wallets.Sending.{resolve_wallet_id}

pub record Spin : Type 0 where
  pub id : Text
  pub spin_grant_id : Text
  pub organization_id : Text
  pub membership_id : Text
  pub reserved_batch_id : Text
  pub status : SpinStatus
  pub sector_index : Option ℕ
  pub coins_awarded : Option ℕ
  pub ledger_entry_id : Option Text
  pub redeem_idempotency_key : Option Text
  pub expires_at : ℕ
  pub redeemed_at : Option ℕ

pub record SpinGrant : Type 0 where
  pub id : Text
  pub organization_id : Text
  pub admin_user_id : Text
  pub membership_id : Text
  pub quantity : ℕ
  pub reason : Option Text
  pub idempotency_key : Text
  pub created_at : ℕ

pub record Spinning : Type 0 where
  pub db : Db
  pub spins : List Spin
  pub grants : List SpinGrant

abbrev pub spin_sectors : List ℕ
spin_sectors = 50 ∷ 50 ∷ 50 ∷ 150 ∷ 150 ∷ 150 ∷ 500 ∷ 1000 ∷ []

-- `Math.max(...SPIN_SECTORS)`
abbrev pub spin_reserved_amount : ℕ
spin_reserved_amount = 1000

-- `randomInt` draws an index of the list; beyond it there would be no coins.
unfoldable pub sector_coins : List ℕ → ℕ → ℕ
sector_coins [] i = 0
sector_coins (n ∷ ns) zero = n
sector_coins (n ∷ ns) (suc i) = sector_coins ns i

pub record RedeemSpinResult : Type 0 where
  pub sector_index : ℕ
  pub coins_awarded : ℕ

unfoldable pub draw_sector : ℕ → RedeemSpinResult
draw_sector random = record {
  sector_index = random;
  coins_awarded = sector_coins spin_sectors random;
}

abbrev pub is_pending : SpinStatus → Bool
is_pending SpinStatus.pending = true
is_pending _ = false

abbrev pub spin_is : Text → Spin → Bool
spin_is k spin = text_eq spin.id k

-- `where: { id, status: 'PENDING' }`
abbrev pub unspent : Text → Spin → Bool
unspent k spin = spin_is k spin && is_pending spin.status

abbrev pub batch_is : Text → CoinBatch → Bool
batch_is k b = text_eq b.id k

abbrev pub add_coins : ℕ → CoinBatch → CoinBatch
add_coins n b = record b { remaining_coins = b.remaining_coins +ℤ pos n }

abbrev pub change_spins : (Spin → Bool) → (Spin → Spin) → Spinning → Spinning
change_spins which change s = record s { spins = update_where which change s.spins }

-- `coinBatch.update`: an absent row is a failure.
unfoldable pub give_back : Text → ℕ → Spinning → Result Spinning
give_back k n s =
    if count_where (batch_is k) s.db.batches == 0
    then err record_not_found
    else ok (record s {
      db = record s.db { batches = update_where (batch_is k) (add_coins n) s.db.batches };
    })

abbrev pub expire : Spin → Spin
expire spin = record spin { status = SpinStatus.expired }

-- `$transaction`: on a failure nothing of it remains.
abbrev pub commit : {A : Type 0} → A → Spinning → Result Spinning → Result A × Spinning
commit a s (ok s') = (ok a, s')
commit a s (err e) = (err e, s)

unfoldable pub expire_one : Spin → Spinning → Result (Unit {0}) × Spinning
expire_one spin s =
    let s' = change_spins (unspent spin.id) expire s in
    if count_where (unspent spin.id) s.spins == 1
    then commit tt s (give_back spin.reserved_batch_id spin_reserved_amount s')
    else (ok tt, s')

unfoldable pub expire_all : List Spin → Spinning → Result (Unit {0}) × Spinning
expire_all [] s = (ok tt, s)
expire_all (spin ∷ spins) s = and_then (expire_one spin s) (λ _. expire_all spins)

abbrev pub redeem_as : RedeemSpinResult → Text → ℕ → Spin → Spin
redeem_as drawn key now spin = record spin {
  status = SpinStatus.redeemed;
  sector_index = some drawn.sector_index;
  coins_awarded = some drawn.coins_awarded;
  redeem_idempotency_key = some key;
  redeemed_at = some now;
}

abbrev pub set_entry : Text → Spin → Spin
set_entry k spin = record spin { ledger_entry_id = some k }

abbrev pub prize_input : Spin → Text → RedeemSpinResult → Text → PostLedgerEntryInput
prize_input candidate wallet_id drawn key = record {
  wallet_id = wallet_id;
  type = LedgerEntryType.credit;
  amount = pos drawn.coins_awarded;
  reference_type = LedgerReferenceType.spin;
  reference_id = candidate.id;
  description = codes "Prêmio da roleta";
  batch_id = some candidate.reserved_batch_id;
  distribution_item_id = none;
  idempotency_key = codes "spin-redeem:" ++ key;
}

-- What was set aside and not won goes back to the batch.
unfoldable pub return_rest : Spin → RedeemSpinResult → Spinning → Result Spinning
return_rest candidate drawn s =
    if ltb 0 (spin_reserved_amount - drawn.coins_awarded)
    then give_back candidate.reserved_batch_id (spin_reserved_amount - drawn.coins_awarded) s
    else ok s

abbrev pub awaits : Text → Spin → Bool
awaits membership_id spin = text_eq spin.membership_id membership_id && is_pending spin.status

-- The first pending spin of a member, by `orderBy: { expiresAt: 'asc' }`.
abbrev pub first_of : List Spin → Option Spin
first_of [] = none
first_of (spin ∷ _) = some spin

unfoldable pub candidate_of : Text → Spinning → Option Spin
candidate_of membership_id s =
    first_of (
      order_by (λ a b. ltb a.expires_at b.expires_at) (filter_where (awaits membership_id) s.spins))

pub data Round : Type 0 where
  answer : Result RedeemSpinResult → Spinning → Round
  again : Spinning → Round

abbrev pub after_expiry : Result (Unit {0}) × Spinning → Round
after_expiry (ok _, s) = again s
after_expiry (err e, s) = answer (err e) s

abbrev pub after_claim : RedeemSpinResult → Result Bool × Spinning → Round
after_claim drawn (ok true, s) = answer (ok drawn) s
after_claim drawn (ok false, s) = again s
after_claim drawn (err e, s) = answer (err e) s

abbrev pub is_replay : Text → Spin → Bool
is_replay key spin = opt_text_eq spin.redeem_idempotency_key (some key)

-- The answer to a key that was used: its spin, if it was the caller's.
unfoldable pub replay_redeem : Text → Text → Spin → Result RedeemSpinResult
replay_redeem membership_id key spin =
    if text_eq spin.membership_id membership_id
    then (elim spin.sector_index [
      | none ↦ err (idempotency_conflict key)
      | some i ↦ elim spin.coins_awarded [
        | none ↦ err (idempotency_conflict key)
        | some n ↦ ok (record { sector_index = i; coins_awarded = n })
      ]
    ])
    else err (idempotency_conflict key)

module _ (p : Platform) where
  -- The credit of the prize, and its entry's id on the spin, which is unique.
  unfoldable pub credit_prize : Spin → Text → RedeemSpinResult → Text → Spinning → Result Spinning
  credit_prize candidate wallet_id drawn key s =
      elim (post_in p (prize_input candidate wallet_id drawn key) s.db) [
        | err e ↦ err e
        | ok (entry, db) ↦
            if any_where (λ spin. opt_text_eq spin.ledger_entry_id (some entry.id)) s.spins
            then err (unique_violation id)
            else ok
                (change_spins (spin_is candidate.id) (set_entry entry.id) (record s { db = db }))
      ]

  unfoldable pub pay_prize : Spin → Text → RedeemSpinResult → Text → Spinning → Result Spinning
  pay_prize candidate wallet_id drawn key s =
      elim (return_rest candidate drawn
        (change_spins (unspent candidate.id) (redeem_as drawn key (p.now s.db.ticks)) s)) [
          | err e ↦ err e
          | ok s' ↦ credit_prize candidate wallet_id drawn key s'
        ]

  -- `false`: another request has taken the spin.
  unfoldable pub claim_and_credit :
      Spin → Text → RedeemSpinResult → Text → Spinning → Result Bool × Spinning
  claim_and_credit candidate wallet_id drawn key s =
      if count_where (unspent candidate.id) s.spins == 0
      then (ok false, s)
      else (if any_where (is_replay key) s.spins
          then (err (unique_violation idempotency_key), s)
          else commit true s (pay_prize candidate wallet_id drawn key s))

  module _ (gaps : ℕ → Spinning → Spinning) (random : ℕ → ℕ) where
    -- The n-th round of the loop. `gaps n` is what others commit after the candidate was read.
    unfoldable pub round : ℕ → Text → Text → Text → Spinning → Round
    round n membership_id wallet_id key s = elim (candidate_of membership_id s) [
      | none ↦ answer (err no_spin_available) s
      | some c ↦
          if ltb c.expires_at (p.now s.db.ticks)
          then after_expiry (expire_one c (gaps n s))
          else after_claim (draw_sector (random n))
              (claim_and_credit c wallet_id (draw_sector (random n)) key (gaps n s))
    ]

    -- `none`: the fuel ran out, with the state after those rounds.
    unfoldable pub redeem_loop :
        ℕ → ℕ → Text → Text → Text → Spinning → Option (Result RedeemSpinResult) × Spinning
    redeem_loop zero n membership_id wallet_id key s = (none, s)
    redeem_loop (suc fuel) n membership_id wallet_id key s =
        elim (round n membership_id wallet_id key s) [
          | answer r s' ↦ (some r, s')
          | again s' ↦ redeem_loop fuel (n + 1) membership_id wallet_id key s'
        ]

    unfoldable pub redeem_new :
        ℕ → Text → Membership → Wallet → Spinning → Option (Result RedeemSpinResult) × Spinning
    redeem_new fuel key m w s = elim (find_where (is_replay key) s.spins) [
      | some spin ↦ (some (replay_redeem m.id key spin), s)
      | none ↦ redeem_loop fuel 0 m.id w.id key s
    ]

    unfoldable pub redeem :
        ℕ → Text → Text → Text → Spinning → Option (Result RedeemSpinResult) × Spinning
    redeem fuel user_id organization_id key s =
        elim (resolve_wallet_id user_id organization_id s.db) [
          | err e ↦ (some (err e), s)
          | ok (m, w) ↦ redeem_new fuel key m w s
        ]

  abbrev pub available : Text → Spinning → ℕ
  available membership_id s =
      count_where (λ spin. awaits membership_id spin && ltb (p.now s.db.ticks) spin.expires_at)
        s.spins

  -- `getAvailableCount`, which first sets the caller's expired spins free.
  unfoldable pub get_available_count : Text → Text → Spinning → Result (ℕ × List ℕ) × Spinning
  get_available_count user_id organization_id s =
      elim (resolve_wallet_id user_id organization_id s.db) [
        | err e ↦ (err e, s)
        | ok (m, w) ↦
            and_then
              (expire_all
                (filter_where (λ spin. awaits m.id spin && ltb spin.expires_at (p.now s.db.ticks))
                  s.spins)
                s)
              (λ _ s'. (ok (available m.id s', spin_sectors), s'))
      ]
