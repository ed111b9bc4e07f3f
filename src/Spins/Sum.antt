-- ===== src/Spins/Sum.antt =====
-- The coins in the batches and in the spins: what an expiry and a return of coins do to their sum.
pub mod Redeeming
pub mod Granting
use mrcoin.Base.{
  ℕ, zero, suc, ◌+◌, ◌*◌, ◌-◌, ◌≤◌, ◌≡◌, refl, ap, inl, inr, Bool, true, false, ◌&&◌, List, [], ◌∷◌,
  Option, none, some, arith, Bool-cases, Option-cases, if◌then◌else◌, ◌==◌, ltb, sym, ◌∙◌, ◌⊎◌,
}
use mrcoin.Base.Int.{ℤ, pos, ◌+ℤ◌, ◌-ℤ◌, leb_ℤ, pos_part, neg_part, int_laws}
use mrcoin.Base.Text.{Text, text_eq, opt_text_eq}
use mrcoin.Base.Table.{find_where, filter_where, update_where, count_where, any_where}
use mrcoin.Base.Unique.{IsUniqueBy, has_key, IsUniqueBy-update}
use mrcoin.Db.{
  Db, CoinBatch, User, Membership, Wallet, SpinStatus, LedgerEntry, Platform, Failure, Result, ok,
  err, Result-cases, ok-injective, bind_ok, and_then, and_then_keeps,
}
use mrcoin.Ledger.Entry.{find_entry}
use mrcoin.Ledger.Service.{
  PostLedgerEntryInput, core_of_post, execute_in, post_in, post_schema_accepts, replay_entry,
}
use mrcoin.Ledger.Outcome.{execute_entry_parts}
use mrcoin.Ledger.Write.{write_ok}
use mrcoin.Wallets.Sending.{resolve_wallet_id}
use mrcoin.Stock.{total_available}
use mrcoin.Enrolment.{
  EnsureUserMembershipWalletInput, EnsuredUserMembershipWallet, upsert_user, upsert_membership,
  ensure_wallet, ensure_user_membership_wallet,
}
use mrcoin.Spins.{
  Spin, SpinGrant, Spinning, RedeemSpinResult, Round, answer, again, draw_sector, spin_is, unspent,
  batch_is, add_coins, change_spins, give_back, expire, commit, expire_one, expire_all, redeem_as,
  set_entry, prize_input, return_rest, candidate_of, after_expiry, after_claim, is_replay,
  credit_prize, pay_prize, claim_and_credit, round, redeem_loop, redeem_new, redeem,
  get_available_count, spin_reserved_amount, is_pending,
}
use mrcoin.Spins.Grants.{
  SpinReservationStep, GrantSpinsInput, has_block, take_block, new_spin, reserve,
  execute_spin_reservations, create_grant, reserve_all, grant_in, grant, enrolment,
  plan_spin_reservations_or_throw, new_grant,
}
use mrcoin.Spins.Values.{
  values, coins_of, values-update, values-kept, count_at_most_one, count_key_at_most_one,
  stock_grows, stock_shrinks, draw_within,
}
use mrcoin.Spins.Requests.{Request, granting, redeeming, counting, serve}

-- The coins in the batches and those that the spins stand for.
abbrev pub total : Spinning → ℤ
total s = total_available s.db.batches +ℤ pos (values s.spins)

-- Ids are unique, as the primary keys have it.
abbrev pub HasUniqueIds : Spinning → Type 0
HasUniqueIds s = IsUniqueBy CoinBatch.id s.db.batches × IsUniqueBy Spin.id s.spins

-- A state with unique ids and this sum.
abbrev pub Holds : ℤ → Spinning → Type 0
Holds n s = HasUniqueIds s × (total s ≡ n)

pub give_back_ok :
    (k : Text) (n : ℕ) (s s' : Spinning)
    → HasUniqueIds s
    → give_back k n s ≡ ok s'
    → HasUniqueIds s' × (total s' ≡ total s +ℤ pos n)
unfolding give_back
give_back_ok k n s s' u h = elim (Bool-cases (count_where (batch_is k) s.db.batches == 0)) [
  | inl e ↦ absurd (let bad = rw (give_back, e) at h in cc)
  | inr e ↦
      let most = count_key_at_most_one CoinBatch.id k s.db.batches u.0 in
      let one : count_where (batch_is k) s.db.batches ≡ 1 = ground arith in
      let grown = stock_grows k n s.db.batches in
      let same = ok-injective _ _ (rw (give_back, e) at h) in
      rw (sym same) (
        (
          IsUniqueBy-update CoinBatch.id (batch_is k) (add_coins n) s.db.batches (λ _. refl) u.0,
          u.1,
        ),
        rw (grown, one) (omega int_laws),
      )
]

pub commit-Holds :
    {A : Type 0} (a : A) (n : ℤ) (s : Spinning) (r : Result Spinning)
    → Holds n s
    → ((s' : Spinning) → r ≡ ok s' → Holds n s')
    → Holds n (commit a s r).1
commit-Holds a n s (ok s') h good = good s' refl
commit-Holds a n s (err e) h good = h

pub unique-change :
    (which : Spin → Bool) (f : Spin → Spin) (s : Spinning)
    → ((spin : Spin) → (f spin).id ≡ spin.id)
    → HasUniqueIds s
    → HasUniqueIds (change_spins which f s)
unique-change which f s stable u = (u.0, IsUniqueBy-update Spin.id which f s.spins stable u.1)

pub expire_one-Holds :
    (n : ℤ) (spin : Spin) (s : Spinning) → Holds n s → Holds n (expire_one spin s).1
unfolding expire_one coins_of
expire_one-Holds n spin s (u, sum) =
    let most = count_at_most_one Spin.id spin.id (λ t. is_pending t.status) s.spins u.1 in
    let changed = values-update spin.id expire 0 s.spins (λ _. refl) in
    let u' = unique-change (unspent spin.id) expire s (λ _. refl) u in
    elim (Bool-cases (count_where (unspent spin.id) s.spins == 1)) [
      | inl e ↦
          let one : count_where (unspent spin.id) s.spins ≡ 1 = ground arith in
          let less = rw one at changed in
          rw (expire_one, e)
            (commit-Holds tt n s
              (give_back spin.reserved_batch_id spin_reserved_amount
                (change_spins (unspent spin.id) expire s))
              (u, sum)
              (λ s' h.
                let (u2, back) =
                  give_back_ok spin.reserved_batch_id spin_reserved_amount
                    (change_spins (unspent spin.id) expire s) s' u' h in
                (u2, back ∙ (omega (int_laws, less, ap pos_part sum, ap neg_part sum)))))
      | inr e ↦
          let none_hit : count_where (unspent spin.id) s.spins ≡ 0 = ground arith in
          let same = rw none_hit at changed in
          rw (expire_one, e) (u', omega (int_laws, same, ap pos_part sum, ap neg_part sum))
    ]

pub expire_all-Holds :
    (n : ℤ) (spins : List Spin) (s : Spinning) → Holds n s → Holds n (expire_all spins s).1
unfolding expire_all
expire_all-Holds n [] s h = h
expire_all-Holds n (spin ∷ spins) s h =
    and_then_keeps (Holds n) (expire_one spin s) (λ _. expire_all spins)
      (expire_one-Holds n spin s h) (λ _ s' h'. expire_all-Holds n spins s' h')

pub return_rest_ok :
    (c : Spin) (drawn : RedeemSpinResult) (s s' : Spinning)
    → HasUniqueIds s
    → return_rest c drawn s ≡ ok s'
    → HasUniqueIds s' × (total s' ≡ total s +ℤ pos (spin_reserved_amount - drawn.coins_awarded))
unfolding return_rest
return_rest_ok c drawn s s' u h =
    elim (Bool-cases (ltb 0 (spin_reserved_amount - drawn.coins_awarded))) [
      | inl e ↦
          give_back_ok c.reserved_batch_id (spin_reserved_amount - drawn.coins_awarded) s s' u
            (rw (return_rest, e) at h)
      | inr e ↦
          let same : s ≡ s' = ok-injective _ _ (rw (return_rest, e) at h) in
          let nothing : spin_reserved_amount - drawn.coins_awarded ≡ 0 = ground arith in
          rw (sym same, nothing) (u, omega int_laws)
    ]

-- What others commit keeps the ids unique and the sum.
abbrev pub KeepsCoins : (Spinning → Spinning) → Type 0
KeepsCoins gap = (n : ℤ) (s : Spinning) → Holds n s → Holds n (gap s)
