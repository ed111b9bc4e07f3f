-- ===== src/Spins/Sum/Granting.antt =====
-- What a grant of spins does to the sum of the coins.
use mrcoin.Base.{
  ◌+◌, ◌≡◌, refl, ap, inl, inr, List, [], ◌∷◌, arith, Bool-cases, Option-cases, ◌==◌, sym, ◌∙◌,
}
use mrcoin.Base.Int.{ℤ, pos, leb_ℤ, pos_part, neg_part, int_laws}
use mrcoin.Base.Text.{Text, text_eq}
use mrcoin.Base.Table.{find_where, count_where, any_where}
use mrcoin.Base.Unique.{IsUniqueBy-update}
use mrcoin.Db.{
  Db, CoinBatch, User, Membership, Wallet, Platform, ok, Result-cases, ok-injective, bind_ok,
}
use mrcoin.Enrolment.{
  EnsureUserMembershipWalletInput, EnsuredUserMembershipWallet, upsert_user, upsert_membership,
  ensure_wallet, ensure_user_membership_wallet,
}
use mrcoin.Spins.{SpinGrant, Spinning, spin_is, spin_reserved_amount}
use mrcoin.Spins.Grants.{
  SpinReservationStep, GrantSpinsInput, has_block, take_block, reserve, execute_spin_reservations,
  create_grant, reserve_all, grant_in, grant, enrolment, plan_spin_reservations_or_throw, new_grant,
}
use mrcoin.Spins.Values.{values, coins_of, count_at_most_one, stock_shrinks}
use mrcoin.Spins.Sum.{total, HasUniqueIds, Holds, KeepsCoins}

module _ (p : Platform) where
  pub reserve_ok :
      (organization_id membership_id grant_id : Text) (step : SpinReservationStep) (s s' : Spinning)
      → HasUniqueIds s
      → reserve p organization_id membership_id grant_id step s ≡ ok s'
      → HasUniqueIds s' × (total s' ≡ total s)
  unfolding reserve values coins_of
  reserve_ok organization_id membership_id grant_id step s s' u h =
      let k = step.batch_id in
      let most =
        count_at_most_one CoinBatch.id k (λ b. leb_ℤ (pos spin_reserved_amount) b.remaining_coins)
          s.db.batches u.0 in
      let taken = stock_shrinks k s.db.batches in
      elim (Bool-cases (count_where (has_block k) s.db.batches == 0)) [
        | inl e ↦ absurd (let bad = rw (reserve, e) at h in cc)
        | inr e ↦ elim (Bool-cases (any_where (spin_is (p.cuid s.db.ticks)) s.spins)) [
          | inl old ↦ absurd (let bad = rw (reserve, e, old) at h in cc)
          | inr fresh ↦
              let one : count_where (has_block k) s.db.batches ≡ 1 = ground arith in
              let less = rw one at taken in
              let same = ok-injective _ _ (rw (reserve, e, fresh) at h) in
              rw (sym same) (
                (
                  IsUniqueBy-update CoinBatch.id (has_block k) take_block s.db.batches (λ _. refl)
                      u.0,
                  (fresh, u.1),
                ),
                omega (int_laws, ap pos_part less, ap neg_part less),
              )
        ]
      ]

  pub execute_ok :
      (organization_id membership_id grant_id : Text) (plan : List SpinReservationStep)
      (s s' : Spinning)
      → HasUniqueIds s
      → execute_spin_reservations p organization_id membership_id grant_id plan s ≡ ok s'
      → HasUniqueIds s' × (total s' ≡ total s)
  unfolding execute_spin_reservations
  execute_ok organization_id membership_id grant_id [] s s' u h =
      let same = ok-injective _ _ h in rw (sym same) (u, refl)
  execute_ok organization_id membership_id grant_id (step ∷ plan) s s' u h =
      elim (Result-cases (reserve p organization_id membership_id grant_id step s)) [
        | inr (x, e) ↦ absurd (let bad = rw (execute_spin_reservations, e) at h in cc)
        | inl (s1, e) ↦
            let (u1, same1) = reserve_ok organization_id membership_id grant_id step s s1 u e in
            let (u2, same2) =
              execute_ok organization_id membership_id grant_id plan s1 s' u1
                (rw (execute_spin_reservations, e) at h) in
            (u2, same2 ∙ same1)
      ]

  pub upsert_user-batches :
      (i : EnsureUserMembershipWalletInput) (db db' : Db) (u : User)
      → upsert_user p i db ≡ ok (u, db')
      → db'.batches ≡ db.batches
  unfolding upsert_user
  upsert_user-batches i db db' u h = ground arith

  pub upsert_membership-batches :
      (i : EnsureUserMembershipWalletInput) (k : Text) (db db' : Db) (m : Membership)
      → upsert_membership p i k db ≡ ok (m, db')
      → db'.batches ≡ db.batches
  unfolding upsert_membership
  upsert_membership-batches i k db db' m h = ground arith

  pub ensure_wallet-batches :
      (k : Text) (db db' : Db) (w : Wallet)
      → ensure_wallet p k db ≡ ok (w, db')
      → db'.batches ≡ db.batches
  unfolding ensure_wallet
  ensure_wallet-batches k db db' w h = ground arith

  pub ensure-batches :
      (i : EnsureUserMembershipWalletInput) (db db' : Db) (r : EnsuredUserMembershipWallet)
      → ensure_user_membership_wallet p i db ≡ ok (r, db')
      → db'.batches ≡ db.batches
  unfolding ensure_user_membership_wallet
  ensure-batches i db db' r h =
      let (u, db1, a, h1) = bind_ok (upsert_user p i) _ db r db' h in
      let (m, db2, b, h2) = bind_ok (upsert_membership p i u.id) _ db1 r db' h1 in
      let (w, db3, c, h3) = bind_ok (ensure_wallet p m.id) _ db2 r db' h2 in
      let same : db' ≡ db3 = ground arith in
      ap (λ d. d.batches) same
      ∙ ensure_wallet-batches m.id db2 db3 w c
      ∙ upsert_membership-batches i u.id db1 db2 m b
      ∙ upsert_user-batches i db db1 u a

  module _ (hash_cpf encrypt_cpf : Text → Text) where
    pub reserve_all_ok :
        (organization_id : Text) (g : SpinGrant) (plan : List SpinReservationStep) (s s' : Spinning)
        → HasUniqueIds s
        → reserve_all p hash_cpf encrypt_cpf organization_id g plan s ≡ ok s'
        → HasUniqueIds s' × (total s' ≡ total s)
    unfolding reserve_all create_grant
    reserve_all_ok organization_id g plan s s' u h =
        elim (Bool-cases (any_where (λ r. text_eq r.idempotency_key g.idempotency_key) s.grants)) [
          | inl taken ↦ absurd (let bad = rw (reserve_all, create_grant, taken) at h in cc)
          | inr free ↦
              execute_ok organization_id g.membership_id g.id plan
                (record s { grants = g ∷ s.grants; db = record s.db { ticks = s.db.ticks + 1 } }) s'
                u (rw (reserve_all, create_grant, free) at h)
        ]

    pub grant_in_ok :
        (organization_id admin_user_id key : Text) (i : GrantSpinsInput) (s s' : Spinning)
        (g : SpinGrant)
        → HasUniqueIds s
        → grant_in p hash_cpf encrypt_cpf organization_id admin_user_id i key s ≡ ok (g, s')
        → HasUniqueIds s' × (total s' ≡ total s)
    unfolding grant_in
    grant_in_ok organization_id admin_user_id key i s s' g u h =
        elim (Result-cases (
          ensure_user_membership_wallet p (enrolment p hash_cpf encrypt_cpf organization_id i)
            s.db)) [
              | inr (x, e) ↦ absurd (let bad = rw (grant_in, e) at h in cc)
              | inl ((r, db), e) ↦
                  let kept =
                    ensure-batches (enrolment p hash_cpf encrypt_cpf organization_id i) s.db db r
                      e in
                  elim (Result-cases
                    (plan_spin_reservations_or_throw p organization_id i.quantity db)) [
                      | inr (x, f) ↦ absurd (let bad = rw (grant_in, e, f) at h in cc)
                      | inl (plan, f) ↦
                          let made =
                            new_grant p organization_id admin_user_id r.membership_id i key db in
                          elim (Result-cases (
                            reserve_all p hash_cpf encrypt_cpf organization_id made plan
                              (record s { db = db }))) [
                                | inr (x, d) ↦ absurd (let bad = rw (grant_in, e, f, d) at h in cc)
                                | inl (s1, d) ↦
                                    let same = ok-injective _ _ (rw (grant_in, e, f, d) at h) in
                                    let (u1, same1) =
                                      reserve_all_ok organization_id made plan
                                        (record s { db = db }) s1 (rw kept (u.0, u.1)) d in
                                    rw (ap (λ x. x.1) (sym same)) (u1, same1 ∙ (rw kept refl))
                              ]
                    ]
            ]

    pub grant-Holds :
        (n : ℤ) (gap : Spinning → Spinning) (organization_id admin_user_id key : Text)
        (i : GrantSpinsInput) (s : Spinning)
        → KeepsCoins gap
        → Holds n s
        → Holds n (grant p hash_cpf encrypt_cpf gap organization_id admin_user_id i key s).1
    unfolding grant
    grant-Holds n gap organization_id admin_user_id key i s other h =
        elim (Option-cases (find_where (λ g. text_eq g.idempotency_key key) s.grants)) [
          | inr (g, e) ↦ rw (grant, e) h
          | inl e ↦
              let after = other n s h in
              elim (Result-cases
                (grant_in p hash_cpf encrypt_cpf organization_id admin_user_id i key (gap s))) [
                  | inr (x, f) ↦ rw (grant, e, f) after
                  | inl ((g, s'), f) ↦
                      let (u, same) =
                        grant_in_ok organization_id admin_user_id key i (gap s) s' g after.0 f in
                      rw (grant, e, f) (u, same ∙ after.1)
                ]
        ]
