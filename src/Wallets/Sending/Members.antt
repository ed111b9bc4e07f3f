-- ===== src/Wallets/Sending/Members.antt =====
-- What the lookup of a wallet finds: an active member's.
use mrcoin.Base.{
  ◌≡◌, refl, inl, inr, Bool, true, ◌&&◌, Mem, Option, none, some, arith, and_true, Bool-cases,
  Option-cases, sym, ap, ◌∙◌,
}
use mrcoin.Base.Text.{Text, text_eq, text_eq→eq}
use mrcoin.Base.Table.{find_where, find_meets, find-Mem}
use mrcoin.Db.{Db, Wallet, Membership, MembershipStatus, inactive, ok, ok-injective}
use mrcoin.Wallets.Sending.{
  CreateTransferInput, is_active, wallet_of_membership, usable_wallet, resolve_wallet_id,
  find_recipient,
}

-- An active membership of the organization, with its wallet, both in the tables.
pub record IsActiveMember (db : Db) (organization_id : Text) (m : Membership) (w : Wallet)
    : Type 0 where
  pub membership_row : Mem m db.memberships
  pub wallet_row : Mem w db.wallets
  pub is_active : m.status ≡ MembershipStatus.active
  pub of_organization : m.organization_id ≡ organization_id
  pub of_membership : w.membership_id ≡ m.id

active_is : (t : MembershipStatus) → is_active t ≡ true → t ≡ MembershipStatus.active
active_is MembershipStatus.active h = refl
active_is inactive h = absurd (cc)

usable_ok :
    (o : Option Membership) (db : Db) (m : Membership) (w : Wallet)
    → usable_wallet o db ≡ some (m, w)
    → (o ≡ some m) × (m.status ≡ MembershipStatus.active) × (wallet_of_membership m.id db ≡ some w)
usable_ok none db m w h = absurd (cc)
usable_ok (some n) db m w h = elim (Option-cases (wallet_of_membership n.id db)) [
  | inl e ↦ absurd (let bad = rw (usable_wallet, e) at h in cc)
  | inr (v, e) ↦ elim (Bool-cases (is_active n.status)) [
    | inr off ↦ absurd (let bad = rw (usable_wallet, e, off) at h in cc)
    | inl on ↦
        let pair : Path (Option (Membership × Wallet)) (some (n, v)) (some (m, w)) =
          rw (usable_wallet, e, on) at h in
        let same : n ≡ m = cc in
        let same' : v ≡ w = cc in
        (
          ap some same,
          ap (λ x. x.status) (sym same) ∙ active_is n.status on,
          ap (λ x. wallet_of_membership x.id db) (sym same) ∙ e ∙ ap some same',
        )
  ]
]

member_of_lookup :
    (q : Membership → Bool) (organization_id : Text) (db : Db) (m : Membership) (w : Wallet)
    → ((n : Membership) → q n ≡ true → n.organization_id ≡ organization_id)
    → usable_wallet (find_where q db.memberships) db ≡ some (m, w)
    → (q m ≡ true) × IsActiveMember db organization_id m w
member_of_lookup q organization_id db m w org h =
    let (found, on, there) = usable_ok (find_where q db.memberships) db m w h in
    let met = find_meets q db.memberships m found in
    (
      met,
      record {
        membership_row = find-Mem q db.memberships m found;
        wallet_row = find-Mem (λ v. text_eq v.membership_id m.id) db.wallets w there;
        is_active = on;
        of_organization = org m met;
        of_membership =
            text_eq→eq w.membership_id m.id
              (find_meets (λ v. text_eq v.membership_id m.id) db.wallets w there);
      },
    )

-- `resolveWalletId` gives the user's own membership.
pub resolve_wallet_id_ok :
    (user_id organization_id : Text) (db : Db) (m : Membership) (w : Wallet)
    → resolve_wallet_id user_id organization_id db ≡ ok (m, w)
    → (m.user_id ≡ user_id) × IsActiveMember db organization_id m w
unfolding resolve_wallet_id
resolve_wallet_id_ok user_id organization_id db m w h =
    let q : (Membership → Bool) =
      λ n. text_eq n.user_id user_id && text_eq n.organization_id organization_id in
    elim (Option-cases (usable_wallet (find_where q db.memberships) db)) [
      | inl e ↦ absurd (let bad = rw (resolve_wallet_id, e) at h in cc)
      | inr (r, e) ↦
          let same : r ≡ (m, w) = ok-injective r (m, w) (rw (resolve_wallet_id, e) at h) in
          let (met, member) =
            member_of_lookup q organization_id db m w
              (λ n both.
                text_eq→eq n.organization_id organization_id
                  (and_true (text_eq n.user_id user_id) _ both).1)
              (e ∙ ap some same) in
          (text_eq→eq m.user_id user_id (and_true (text_eq m.user_id user_id) _ met).0, member)
    ]

-- The recipient is the membership that was asked for.
pub find_recipient_ok :
    (i : CreateTransferInput) (db : Db) (m : Membership) (w : Wallet)
    → find_recipient i db ≡ some (m, w)
    → (m.id ≡ i.recipient_membership_id) × IsActiveMember db i.organization_id m w
find_recipient_ok i db m w h =
    let (met, member) =
      member_of_lookup
        (λ n.
          text_eq n.id i.recipient_membership_id
          && text_eq n.organization_id i.organization_id
          && is_active n.status)
        i.organization_id db m w
        (λ n all. text_eq→eq n.organization_id i.organization_id (ground arith)) h in
    (text_eq→eq m.id i.recipient_membership_id (ground arith), member)
