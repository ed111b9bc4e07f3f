-- ===== src/Spins/Payout.antt =====
-- What a claim of a spin pays: the coins that were set aside are split between the wallet and the batch.
use mathlib.Core.Option
use mrcoin.Base.Unique.{count_key, any_absent}
use mrcoin.Base.{
  Option-cases, subst, ℕ, ◌+◌, ◌≡◌, ◌≢◌, refl, ap, inl, inr, Bool, true, false, ◌++◌, none, some,
  arith, Bool-cases, ◌==◌, ltb, sym, ◌∙◌, ◌-◌,
}
use mrcoin.Base.Int.{pos, pos_part, neg_part, ◌+ℤ◌, int_laws}
use mrcoin.Base.Text.{Text, codes, opt_text_eq}
use mrcoin.Base.Table.{find_where, find-any, find_meets, find-update, count_where, any_where}
use mrcoin.Db.{
  SpinStatus, type_eq, Db, Wallet, Platform, Result, ok, err, Result-cases, ok-injective,
}
use mrcoin.Ledger.Entry.{find_entry, find_wallet}
use mrcoin.Ledger.Service.{post_in}
use mrcoin.Ledger.Posts.{post_in_ok}
use mrcoin.Stock.{total_available}
use mrcoin.Spins.{
  Spin, Spinning, RedeemSpinResult, draw_sector, spin_is, unspent, batch_is, change_spins,
  give_back, redeem_as, set_entry, prize_input, return_rest, is_replay, credit_prize, pay_prize,
  claim_and_credit, sector_coins, spin_sectors, commit, is_pending,
}
use mrcoin.Spins.Values.{values, coins_of, values-update, values-kept, count_at_most_one}
use mrcoin.Spins.Sum.{HasUniqueIds}
use mrcoin.Spins.Sum.Redeeming.{pay_prize_ok}

-- The spin is redeemed, with these coins.
abbrev pub IsRedeemed : Text → ℕ → Spinning → Type 0
IsRedeemed k won s =
    (t : Spin) × (find_where (spin_is k) s.spins ≡ some t)
    × (t.status ≡ SpinStatus.redeemed)
    × (t.coins_awarded ≡ some won)

-- The spin is redeemed, the spins stand for 1000 coins less and for those that were won, the batches have got back what is
-- between, the wallet has got what was won, and other wallets have not changed.
abbrev pub IsPaid : Spin → Text → ℕ → Wallet → Spinning → Spinning → Type 0
IsPaid c wallet_id won w s s' =
    IsRedeemed c.id won s'
    × (values s'.spins + 1000 ≡ values s.spins + won)
    × (total_available s'.db.batches +ℤ pos won ≡ total_available s.db.batches +ℤ pos 1000)
    × ((v : Wallet) × (find_wallet wallet_id s'.db.wallets ≡ some v)
        × (v.cached_balance ≡ w.cached_balance +ℤ pos won))
    × ((k : Text) → k ≢ wallet_id → find_wallet k s'.db.wallets ≡ find_wallet k s.db.wallets)

-- A claim has paid, or it has changed nothing.
abbrev pub IsAllOrNothing : Spin → Text → ℕ → Wallet → Spinning → Result Bool × Spinning → Type 0
IsAllOrNothing c wallet_id won w s (ok true, s') = IsPaid c wallet_id won w s s'
IsAllOrNothing c wallet_id won w s (ok false, s') = s' ≡ s
IsAllOrNothing c wallet_id won w s (err e, s') = s' ≡ s

-- The return of the rest is to the batches alone.
abbrev SameElsewhere : Spinning → Spinning → Type 0
SameElsewhere s s' =
    (s'.spins ≡ s.spins) × (s'.db.wallets ≡ s.db.wallets) × (s'.db.entries ≡ s.db.entries)

give_back-SameElsewhere :
    (k : Text) (n : ℕ) (s s' : Spinning) → give_back k n s ≡ ok s' → SameElsewhere s s'
unfolding give_back
give_back-SameElsewhere k n s s' h =
    elim (Bool-cases (count_where (batch_is k) s.db.batches == 0)) [
      | inl e ↦ absurd (let bad = rw (give_back, e) at h in cc)
      | inr e ↦
          let same = ok-injective _ _ (rw (give_back, e) at h) in rw (sym same) (refl, refl, refl)
    ]

return_rest-SameElsewhere :
    (c : Spin) (drawn : RedeemSpinResult) (s s' : Spinning)
    → return_rest c drawn s ≡ ok s'
    → SameElsewhere s s'
unfolding return_rest
return_rest-SameElsewhere c drawn s s' h = elim (Bool-cases (ltb 0 (1000 - drawn.coins_awarded))) [
  | inl e ↦
      give_back-SameElsewhere c.reserved_batch_id (1000 - drawn.coins_awarded) s s'
        (rw (return_rest, e) at h)
  | inr e ↦
      let same : s ≡ s' = ok-injective _ _ (rw (return_rest, e) at h) in
      rw (sym same) (refl, refl, refl)
]

-- A spin that can be claimed is there.
claimed_row :
    (k : Text) (s : Spinning)
    → HasUniqueIds s
    → count_where (unspent k) s.spins ≡ 1
    → (t : Spin) × (find_where (spin_is k) s.spins ≡ some t) × (unspent k t ≡ true)
claimed_row k s u one = elim (Option-cases (find_where (spin_is k) s.spins)) [
  | inl e ↦
      let no_row =
        any_absent Spin.id k (λ t. is_pending t.status) s.spins (find-any (spin_is k) s.spins e) in
      absurd (omega (arith, no_row, one))
  | inr (t, e) ↦
      let row = count_key Spin.id k (λ t. is_pending t.status) s.spins t u.1 e in
      (t, e, ground (arith, one, row, find_meets (spin_is k) s.spins t e))
]

claim-IsRedeemed :
    (k key : Text) (drawn : RedeemSpinResult) (now : ℕ) (s : Spinning)
    → HasUniqueIds s
    → count_where (unspent k) s.spins ≡ 1
    → IsRedeemed k drawn.coins_awarded (change_spins (unspent k) (redeem_as drawn key now) s)
claim-IsRedeemed k key drawn now s u one =
    let (t, found, hit) = claimed_row k s u one in
    (
      redeem_as drawn key now t,
      find-update (spin_is k) (unspent k) (redeem_as drawn key now) s.spins (λ _. refl)
          ∙ (rw (found, Option.map, hit) refl),
      refl,
      refl,
    )

set_entry-IsRedeemed :
    (k j : Text) (won : ℕ) (s : Spinning) (db : Db)
    → IsRedeemed k won s
    → IsRedeemed k won (change_spins (spin_is k) (set_entry j) (record s { db = db }))
set_entry-IsRedeemed k j won s db (t, found, spent, coins) =
    let hit = find_meets (spin_is k) s.spins t found in
    (
      set_entry j t,
      find-update (spin_is k) (spin_is k) (set_entry j) s.spins (λ _. refl)
          ∙ (rw (found, Option.map, hit) refl),
      spent,
      coins,
    )

-- What the credit alone does.
abbrev IsCredited : Spin → Text → ℕ → Wallet → Spinning → Spinning → Type 0
IsCredited c wallet_id won w s s' =
    (IsRedeemed c.id won s → IsRedeemed c.id won s')
    × (values s'.spins ≡ values s.spins)
    × ((v : Wallet) × (find_wallet wallet_id s'.db.wallets ≡ some v)
        × (v.cached_balance ≡ w.cached_balance +ℤ pos won))
    × ((k : Text) → k ≢ wallet_id → find_wallet k s'.db.wallets ≡ find_wallet k s.db.wallets)

module _ (p : Platform) (wallet_id key : Text) where
  credit_prize-IsCredited :
      (c : Spin) (drawn : RedeemSpinResult) (s s' : Spinning) (w : Wallet)
      → find_entry (codes "spin-redeem:" ++ key) s.db.entries ≡ none
      → find_wallet wallet_id s.db.wallets ≡ some w
      → credit_prize p c wallet_id drawn key s ≡ ok s'
      → IsCredited c wallet_id drawn.coins_awarded w s s'
  unfolding credit_prize type_eq
  credit_prize-IsCredited c drawn s s' w free found h =
      elim (Result-cases (post_in p (prize_input c wallet_id drawn key) s.db)) [
        | inr (x, refused) ↦ absurd (let bad = rw (credit_prize, refused) at h in cc)
        | inl ((entry, db), posted) ↦
            let done =
              post_in_ok p (prize_input c wallet_id drawn key) s.db entry db w free found posted in
            elim (Bool-cases
              (any_where (λ spin. opt_text_eq spin.ledger_entry_id (some entry.id)) s.spins)) [
                | inl taken ↦ absurd (let bad = rw (credit_prize, posted, taken) at h in cc)
                | inr fresh ↦
                    let same = ok-injective _ _ (rw (credit_prize, posted, fresh) at h) in
                    rw (sym same) (
                      set_entry-IsRedeemed c.id entry.id drawn.coins_awarded s db,
                      values-kept (spin_is c.id) (set_entry entry.id) s.spins (λ _. refl),
                      (_, done.wallet, refl),
                      done.others,
                    )
              ]
      ]

  pay_prize-IsPaid :
      (c : Spin) (random : ℕ) (s s' : Spinning) (w : Wallet)
      → HasUniqueIds s
      → count_where (unspent c.id) s.spins ≡ 1
      → find_entry (codes "spin-redeem:" ++ key) s.db.entries ≡ none
      → find_wallet wallet_id s.db.wallets ≡ some w
      → pay_prize p c wallet_id (draw_sector random) key s ≡ ok s'
      → IsPaid c wallet_id (sector_coins spin_sectors random) w s s'
  unfolding pay_prize coins_of draw_sector
  pay_prize-IsPaid c random s s' w u one free found h =
      let drawn = draw_sector random in
      let f = redeem_as drawn key (p.now s.db.ticks) in
      let s1 : Spinning = change_spins (unspent c.id) f s in
      let won = values-update c.id f drawn.coins_awarded s.spins (λ _. refl) in
      let changed = rw one at won in
      let (_, sum) = pay_prize_ok p c wallet_id key random s s' u one h in
      elim (Result-cases (return_rest c drawn s1)) [
        | inr (x, refused) ↦ absurd (let bad = rw (pay_prize, refused) at h in cc)
        | inl (s2, returned) ↦
            let (spins, wallets, entries) = return_rest-SameElsewhere c drawn s1 s2 returned in
            let (still, kept, paid, others) =
              credit_prize-IsCredited c drawn s2 s' w (rw (entries, free)) (rw (wallets, found))
                (rw (pay_prize, returned) at h) in
            let fewer : values s'.spins ≡ values s1.spins = kept ∙ ap values spins in
            let row = claim-IsRedeemed c.id key drawn (p.now s.db.ticks) s u one in
            (
              still (
                  subst
                    (λ ts.
                      (t : Spin) × (find_where (spin_is c.id) ts ≡ some t)
                      × (t.status ≡ SpinStatus.redeemed)
                      × (t.coins_awarded ≡ some drawn.coins_awarded))
                    (sym spins) row),
              omega (arith, changed, fewer),
              omega (int_laws, changed, fewer, ap pos_part sum, ap neg_part sum),
              paid,
              λ k ne. others k ne ∙ ap (find_wallet k) wallets,
            )
      ]

  commit-IsAllOrNothing :
      (c : Spin) (n : ℕ) (w : Wallet) (s : Spinning) (r : Result Spinning)
      → ((s' : Spinning) → r ≡ ok s' → IsPaid c wallet_id n w s s')
      → IsAllOrNothing c wallet_id n w s (commit true s r)
  commit-IsAllOrNothing c n w s (ok s') good = good s' refl
  commit-IsAllOrNothing c n w s (err e) good = refl

  -- A claim of a spin by a key that was not used in the ledger, where ids are unique and the wallet is
  -- there: either the spin is redeemed with the coins that were drawn, the wallet has got these, the
  -- batches have got back the rest of the 1000 coins that were set aside for it, and no other wallet has
  -- changed; or, when the spin was taken or something failed, nothing has changed.
  pub claim_and_credit-IsAllOrNothing :
      (c : Spin) (random : ℕ) (s : Spinning) (w : Wallet)
      → HasUniqueIds s
      → find_entry (codes "spin-redeem:" ++ key) s.db.entries ≡ none
      → find_wallet wallet_id s.db.wallets ≡ some w
      → IsAllOrNothing c wallet_id
          (sector_coins spin_sectors random)
          w
          s
          (claim_and_credit p c wallet_id (draw_sector random) key s)
  unfolding claim_and_credit
  claim_and_credit-IsAllOrNothing c random s w u free found =
      let most = count_at_most_one Spin.id c.id (λ t. is_pending t.status) s.spins u.1 in
      elim (Bool-cases (count_where (unspent c.id) s.spins == 0)) [
        | inl lost ↦ rw (claim_and_credit, lost) refl
        | inr e ↦ elim (Bool-cases (any_where (is_replay key) s.spins)) [
          | inl taken ↦ rw (claim_and_credit, e, taken) refl
          | inr new ↦
              let one : count_where (unspent c.id) s.spins ≡ 1 = ground arith in
              rw (claim_and_credit, e, new)
                (commit-IsAllOrNothing c (sector_coins spin_sectors random) w s
                  (pay_prize p c wallet_id (draw_sector random) key s)
                  (λ s' h. pay_prize-IsPaid c random s s' w u one free found h))
        ]
      ]
