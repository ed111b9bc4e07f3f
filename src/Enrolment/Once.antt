-- ===== src/Enrolment/Once.antt =====
-- What a second call finds.
use mrcoin.Base.{Mem, and_true, ◌≡◌, refl, inl, inr, some, arith, Option-cases, ◌∷◌, ◌+◌, ◌∙◌}
use mrcoin.Base.Text.{Text, text_eq, text_eq_refl, text_eq→eq}
use mrcoin.Base.Table.{find_where, find_meets, find-Mem}
use mrcoin.Db.{Db, User, Membership, Wallet, Platform, ok, bind_ran}
use mrcoin.Wallets.Sending.{wallet_of_membership}
use mrcoin.Enrolment.{
  EnsureUserMembershipWalletInput, EnsuredUserMembershipWallet, user_of_cpf, membership_of,
  new_user, new_membership, new_wallet, upsert_user, upsert_membership, ensure_wallet,
  ensure_user_membership_wallet,
}

module _ (p : Platform) (i : EnsureUserMembershipWalletInput) where
  -- Each step finds or makes its row, which is then found.
  upsert_user_ok :
      (db : Db)
      → (u : User) × (db' : Db) × (upsert_user p i db ≡ ok (u, db'))
        × (user_of_cpf i.cpf_hash db' ≡ some u)
        × (db'.entries ≡ db.entries)
  unfolding upsert_user find_where
  upsert_user_ok db = elim (Option-cases (user_of_cpf i.cpf_hash db)) [
    | inr (u, e) ↦ (u, db, ground arith, e, refl)
    | inl e ↦ (
      new_user p i db,
      record db { users = new_user p i db ∷ db.users; ticks = db.ticks + 1 },
      ground arith,
      rw (text_eq_refl i.cpf_hash),
      refl,
    )
  ]

  upsert_membership_ok :
      (user_id : Text) (db : Db)
      → (m : Membership) × (db' : Db) × (upsert_membership p i user_id db ≡ ok (m, db'))
        × (membership_of user_id i.organization_id db' ≡ some m)
        × (db'.users ≡ db.users)
        × (db'.entries ≡ db.entries)
  unfolding upsert_membership find_where
  upsert_membership_ok user_id db =
      elim (Option-cases (membership_of user_id i.organization_id db)) [
        | inr (m, e) ↦ (m, db, ground arith, e, refl, refl)
        | inl e ↦ (
          new_membership p i user_id db,
          record db {
            memberships = new_membership p i user_id db ∷ db.memberships;
            ticks = db.ticks + 1;
          },
          ground arith,
          rw (text_eq_refl user_id, text_eq_refl i.organization_id),
          refl,
          refl,
        )
      ]

  ensure_wallet_ok :
      (k : Text) (db : Db)
      → (w : Wallet) × (db' : Db) × (ensure_wallet p k db ≡ ok (w, db'))
        × (wallet_of_membership k db' ≡ some w)
        × (db'.users ≡ db.users)
        × (db'.memberships ≡ db.memberships)
        × (db'.entries ≡ db.entries)
  unfolding ensure_wallet find_where
  ensure_wallet_ok k db = elim (Option-cases (wallet_of_membership k db)) [
    | inr (w, e) ↦ (w, db, ground arith, e, refl, refl, refl)
    | inl e ↦ (
      new_wallet p k db,
      record db { wallets = new_wallet p k db ∷ db.wallets; ticks = db.ticks + 1 },
      ground arith,
      rw (text_eq_refl k),
      refl,
      refl,
      refl,
    )
  ]

  all_ran :
      (db db1 db2 db3 : Db) (u : User) (m : Membership) (w : Wallet)
      → upsert_user p i db ≡ ok (u, db1)
      → upsert_membership p i u.id db1 ≡ ok (m, db2)
      → ensure_wallet p m.id db2 ≡ ok (w, db3)
      → ensure_user_membership_wallet p i db
        ≡ ok (record { user_id = u.id; membership_id = m.id; wallet_id = w.id }, db3)
  unfolding ensure_user_membership_wallet
  all_ran db db1 db2 db3 u m w a b c =
      bind_ran (upsert_user p i) _ db db1 u a
      ∙ bind_ran (upsert_membership p i u.id) _ db1 db2 m b
      ∙ bind_ran (ensure_wallet p m.id) _ db2 db3 w c

  found_again :
      (db : Db) (u : User) (m : Membership) (w : Wallet)
      → user_of_cpf i.cpf_hash db ≡ some u
      → membership_of u.id i.organization_id db ≡ some m
      → wallet_of_membership m.id db ≡ some w
      → ensure_user_membership_wallet p i db
        ≡ ok (record { user_id = u.id; membership_id = m.id; wallet_id = w.id }, db)
  found_again db u m w a b c =
      all_ran db db db db u m w (unfold upsert_user in (ground arith))
        (unfold upsert_membership in (ground arith)) (unfold ensure_wallet in (ground arith))

  -- What the three ids stand for: rows of the database, of this CPF, this organization, and each other.
  pub record IsEnrolled (r : EnsuredUserMembershipWallet) (db : Db) : Type 0 where
    pub user : User
    pub membership : Membership
    pub wallet : Wallet
    pub user_row : Mem user db.users
    pub membership_row : Mem membership db.memberships
    pub wallet_row : Mem wallet db.wallets
    pub user_id : r.user_id ≡ user.id
    pub membership_id : r.membership_id ≡ membership.id
    pub wallet_id : r.wallet_id ≡ wallet.id
    pub of_cpf : user.cpf_hash ≡ i.cpf_hash
    pub of_user : membership.user_id ≡ user.id
    pub of_organization : membership.organization_id ≡ i.organization_id
    pub of_membership : wallet.membership_id ≡ membership.id

  enrolled :
      (db : Db) (u : User) (m : Membership) (w : Wallet)
      → user_of_cpf i.cpf_hash db ≡ some u
      → membership_of u.id i.organization_id db ≡ some m
      → wallet_of_membership m.id db ≡ some w
      → IsEnrolled (record { user_id = u.id; membership_id = m.id; wallet_id = w.id }) db
  enrolled db u m w a b c =
      let (of_user, of_org) =
        and_true (text_eq m.user_id u.id) _ (find_meets _ db.memberships m b) in
      record {
        user = u;
        membership = m;
        wallet = w;
        user_row = find-Mem _ db.users u a;
        membership_row = find-Mem _ db.memberships m b;
        wallet_row = find-Mem _ db.wallets w c;
        user_id = refl;
        membership_id = refl;
        wallet_id = refl;
        of_cpf = text_eq→eq u.cpf_hash i.cpf_hash (find_meets _ db.users u a);
        of_user = text_eq→eq m.user_id u.id of_user;
        of_organization = text_eq→eq m.organization_id i.organization_id of_org;
        of_membership = text_eq→eq w.membership_id m.id (find_meets _ db.wallets w c);
      }

  -- The user, the membership and the wallet of a CPF are always found or made: the user has the CPF,
  -- the membership is that user's in that organization, the wallet is the membership's. A second call
  -- gives the same three ids and changes nothing. No entry of the ledger is written.
  pub ensure_user_membership_wallet_once :
      (db : Db)
      → (r : EnsuredUserMembershipWallet) × (db' : Db) × (ensure_user_membership_wallet p i db
          ≡ ok (r, db'))
        × IsEnrolled r db'
        × (ensure_user_membership_wallet p i db' ≡ ok (r, db'))
        × (db'.entries ≡ db.entries)
  ensure_user_membership_wallet_once db =
      let (u, db1, made, user, kept) = upsert_user_ok db in
      let (m, db2, joined, membership, users, kept') = upsert_membership_ok u.id db1 in
      let (w, db3, opened, wallet, users', memberships, kept'') = ensure_wallet_ok m.id db2 in
      let a : user_of_cpf i.cpf_hash db3 ≡ some u = rw (users', users) user in
      let b : membership_of u.id i.organization_id db3 ≡ some m = rw memberships membership in
      (
        record { user_id = u.id; membership_id = m.id; wallet_id = w.id },
        db3,
        all_ran db db1 db2 db3 u m w made joined opened,
        enrolled db3 u m w a b wallet,
        found_again db3 u m w a b wallet,
        kept'' ∙ kept' ∙ kept,
      )
