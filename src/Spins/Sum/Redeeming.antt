-- ===== src/Spins/Sum/Redeeming.antt =====
-- What the redemption of a spin does to the sum of the coins.
use mrcoin.Base.{
  ℕ, zero, suc, ◌+◌, ◌≡◌, refl, ap, inl, inr, Bool, true, false, some, arith, Bool-cases,
  Option-cases, ◌==◌, ltb, sym, ◌∙◌, ◌⊎◌,
}
use mrcoin.Base.Int.{ℤ, pos, ◌+ℤ◌, int_laws}
use mrcoin.Base.Text.{Text, opt_text_eq}
use mrcoin.Base.Table.{find_where, count_where, any_where}
use mrcoin.Base.Unique.{IsUniqueBy-update}
use mrcoin.Db.{Db, LedgerEntry, Platform, Result, ok, err, Result-cases, ok-injective}
use mrcoin.Ledger.Entry.{find_entry}
use mrcoin.Ledger.Service.{
  PostLedgerEntryInput, core_of_post, execute_in, post_in, post_schema_accepts, replay_entry,
}
use mrcoin.Ledger.Outcome.{execute_entry_parts}
use mrcoin.Ledger.Write.{write_ok}
use mrcoin.Wallets.Sending.{resolve_wallet_id}
use mrcoin.Stock.{total_available}
use mrcoin.Spins.{
  Spin, Spinning, RedeemSpinResult, Round, answer, again, draw_sector, spin_is, unspent,
  change_spins, expire_one, redeem_as, set_entry, prize_input, return_rest, candidate_of,
  after_expiry, after_claim, is_replay, credit_prize, pay_prize, claim_and_credit, round,
  redeem_loop, redeem_new, redeem, is_pending,
}
use mrcoin.Spins.Values.{coins_of, values-update, values-kept, count_at_most_one, draw_within}
use mrcoin.Spins.Sum.{
  total, HasUniqueIds, Holds, KeepsCoins, commit-Holds, unique-change, expire_one-Holds,
  return_rest_ok,
}

module _ (p : Platform) where
  pub post_in-batches :
      (i : PostLedgerEntryInput) (db db' : Db) (e : LedgerEntry)
      → post_in p i db ≡ ok (e, db')
      → db'.batches ≡ db.batches
  unfolding execute_in
  post_in-batches i db db' e h =
      let core = core_of_post i in
      let accepted : post_schema_accepts i ≡ true = unfold post_in in (ground arith) in
      let executed : execute_in p core db ≡ ok (e, db') =
        unfold post_in in (ground (arith, accepted)) in
      elim (Option-cases (find_entry core.idempotency_key db.entries)) [
        | inr (old, found) ↦ elim (Result-cases (replay_entry old core)) [
          | inl (r, given) ↦
              let same = ok-injective _ _ (rw (execute_in, found, given) at executed) in
              ap (λ x. x.1.batches) (sym same)
          | inr (x, refused) ↦ absurd (let bad = rw (execute_in, found, refused) at executed in cc)
        ]
        | inl free ↦
            let (x, _, written) =
              execute_entry_parts p core db e db' (rw (execute_in, free) at executed) in
            let (_, _, _, state) = write_ok p core x.0 x.1 db e db' written in
            ap (λ d. d.batches) state
      ]

  pub credit_prize_ok :
      (c : Spin) (wallet_id : Text) (drawn : RedeemSpinResult) (key : Text) (s s' : Spinning)
      → HasUniqueIds s
      → credit_prize p c wallet_id drawn key s ≡ ok s'
      → HasUniqueIds s' × (total s' ≡ total s)
  unfolding credit_prize
  credit_prize_ok c wallet_id drawn key s s' u h =
      elim (Result-cases (post_in p (prize_input c wallet_id drawn key) s.db)) [
        | inr (x, refused) ↦ absurd (let bad = rw (credit_prize, refused) at h in cc)
        | inl ((entry, db), posted) ↦
            let kept = post_in-batches (prize_input c wallet_id drawn key) s.db db entry posted in
            elim (Bool-cases
              (any_where (λ spin. opt_text_eq spin.ledger_entry_id (some entry.id)) s.spins)) [
                | inl taken ↦ absurd (let bad = rw (credit_prize, posted, taken) at h in cc)
                | inr free ↦
                    let same = ok-injective _ _ (rw (credit_prize, posted, free) at h) in
                    rw (sym same, kept)
                      (
                        (
                          u.0,
                          IsUniqueBy-update Spin.id (spin_is c.id) (set_entry entry.id) s.spins
                              (λ _. refl) u.1,
                        ),
                        ap (λ n. total_available s.db.batches +ℤ pos n)
                            (values-kept (spin_is c.id) (set_entry entry.id) s.spins (λ _. refl)),
                      )
              ]
      ]

  pub pay_prize_ok :
      (c : Spin) (wallet_id key : Text) (random : ℕ) (s s' : Spinning)
      → HasUniqueIds s
      → count_where (unspent c.id) s.spins ≡ 1
      → pay_prize p c wallet_id (draw_sector random) key s ≡ ok s'
      → HasUniqueIds s' × (total s' ≡ total s)
  unfolding pay_prize coins_of
  pay_prize_ok c wallet_id key random s s' u one h =
      let drawn = draw_sector random in
      let f = redeem_as drawn key (p.now s.db.ticks) in
      let s1 : Spinning = change_spins (unspent c.id) f s in
      let won = values-update c.id f drawn.coins_awarded s.spins (λ _. refl) in
      let changed = rw one at won in
      elim (Result-cases (return_rest c drawn s1)) [
        | inr (x, refused) ↦ absurd (let bad = rw (pay_prize, refused) at h in cc)
        | inl (s2, returned) ↦
            let (u2, back) =
              return_rest_ok c drawn s1 s2 (unique-change (unspent c.id) f s (λ _. refl) u)
                returned in
            let (u3, same) =
              credit_prize_ok c wallet_id drawn key s2 s' u2 (rw (pay_prize, returned) at h) in
            (u3, same ∙ back ∙ (omega (int_laws, changed, draw_within random)))
      ]

  pub claim-Holds :
      (n : ℤ) (c : Spin) (wallet_id key : Text) (random : ℕ) (s : Spinning)
      → Holds n s
      → Holds n (claim_and_credit p c wallet_id (draw_sector random) key s).1
  unfolding claim_and_credit
  claim-Holds n c wallet_id key random s (u, sum) =
      let most = count_at_most_one Spin.id c.id (λ t. is_pending t.status) s.spins u.1 in
      elim (Bool-cases (count_where (unspent c.id) s.spins == 0)) [
        | inl lost ↦ rw (claim_and_credit, lost) (u, sum)
        | inr e ↦ elim (Bool-cases (any_where (is_replay key) s.spins)) [
          | inl taken ↦ rw (claim_and_credit, e, taken) (u, sum)
          | inr free ↦
              let one : count_where (unspent c.id) s.spins ≡ 1 = ground arith in
              rw (claim_and_credit, e, free)
                (commit-Holds true n s (pay_prize p c wallet_id (draw_sector random) key s) (u, sum)
                  (λ s' h.
                    let (u', same) = pay_prize_ok c wallet_id key random s s' u one h in
                    (u', same ∙ sum)))
        ]
      ]

  -- The state in a round's end.
  abbrev state_of : Round → Spinning
  state_of (answer r s) = s
  state_of (again s) = s

  pub after_expiry-Holds :
      (n : ℤ) (r : Result (Unit {0}) × Spinning) → Holds n r.1 → Holds n (state_of (after_expiry r))
  after_expiry-Holds n (ok x, s) h = h
  after_expiry-Holds n (err e, s) h = h

  pub after_claim-Holds :
      (n : ℤ) (drawn : RedeemSpinResult) (r : Result Bool × Spinning)
      → Holds n r.1
      → Holds n (state_of (after_claim drawn r))
  after_claim-Holds n drawn (ok true, s) h = h
  after_claim-Holds n drawn (ok false, s) h = h
  after_claim-Holds n drawn (err e, s) h = h

  module _ (gaps : ℕ → Spinning → Spinning) (random : ℕ → ℕ)
      (others : (k : ℕ) → KeepsCoins (gaps k)) where
    pub round-Holds :
        (n : ℤ) (k : ℕ) (membership_id wallet_id key : Text) (s : Spinning)
        → Holds n s
        → Holds n (state_of (round p gaps random k membership_id wallet_id key s))
    unfolding round
    round-Holds n k membership_id wallet_id key s h =
        elim (Option-cases (candidate_of membership_id s)) [
          | inl e ↦ rw (round, e) h
          | inr (c, e) ↦ elim (Bool-cases (ltb c.expires_at (p.now s.db.ticks))) [
            | inl late ↦
                rw (round, e, late)
                  (after_expiry-Holds n (expire_one c (gaps k s))
                    (expire_one-Holds n c (gaps k s) (others k n s h)))
            | inr valid ↦
                rw (round, e, valid)
                  (after_claim-Holds n (draw_sector (random k))
                    (claim_and_credit p c wallet_id (draw_sector (random k)) key (gaps k s))
                    (claim-Holds n c wallet_id key (random k) (gaps k s) (others k n s h)))
          ]
        ]

    pub Round-cases :
        (r : Round)
        → ((x : Result RedeemSpinResult) × (s : Spinning) × (r ≡ answer x s))
          ⊎ ((s : Spinning) × (r ≡ again s))
    Round-cases (answer x s) = inl (x, s, refl)
    Round-cases (again s) = inr (s, refl)

    pub redeem_loop-Holds :
        (n : ℤ) (fuel k : ℕ) (membership_id wallet_id key : Text) (s : Spinning)
        → Holds n s
        → Holds n (redeem_loop p gaps random fuel k membership_id wallet_id key s).1
    unfolding redeem_loop
    redeem_loop-Holds n zero k membership_id wallet_id key s h = h
    redeem_loop-Holds n (suc fuel) k membership_id wallet_id key s h =
        let kept = round-Holds n k membership_id wallet_id key s h in
        elim (Round-cases (round p gaps random k membership_id wallet_id key s)) [
          | inl (x, s', e) ↦ rw (redeem_loop, e) (rw e at kept)
          | inr (s', e) ↦
              rw (redeem_loop, e)
                (redeem_loop-Holds n fuel (k + 1) membership_id wallet_id key s' (rw e at kept))
        ]

    pub redeem-Holds :
        (n : ℤ) (fuel : ℕ) (user_id organization_id key : Text) (s : Spinning)
        → Holds n s
        → Holds n (redeem p gaps random fuel user_id organization_id key s).1
    unfolding redeem redeem_new
    redeem-Holds n fuel user_id organization_id key s h =
        elim (Result-cases (resolve_wallet_id user_id organization_id s.db)) [
          | inr (x, e) ↦ rw (redeem, e) h
          | inl ((m, w), e) ↦ elim (Option-cases (find_where (is_replay key) s.spins)) [
            | inr (spin, seen) ↦ rw (redeem, e, redeem_new, seen) h
            | inl new ↦
                rw (redeem, e, redeem_new, new) (redeem_loop-Holds n fuel 0 m.id w.id key s h)
          ]
        ]
