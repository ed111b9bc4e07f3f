-- ===== src/Spins/Grants.antt =====
-- SpinsAdminService (src/modules/spins/spins-admin.service.ts): the spins that an organization grants
-- to a CPF, each backed by coins of one batch.
use mrcoin.Base.{
  ℕ, zero, suc, ◌+◌, ◌*◌, ◌/◌, Bool, ◌&&◌, List, [], ◌∷◌, ◌++◌, Option, none, some, if◌then◌else◌,
  ltb, ◌==◌, reverse,
}
use mrcoin.Base.Int.{ℤ, pos, ◌-ℤ◌, leb_ℤ, pos_part}
use mrcoin.Base.Text.{Text, text_eq}
use mrcoin.Base.Table.{find_where, filter_where, update_where, count_where, any_where, order_by}
use mrcoin.Db.{
  Db, CoinBatch, MembershipType, SpinStatus, Platform, Result, ok, err, unique_violation, id,
  idempotency_key, idempotency_conflict, insufficient_coin_stock,
}
use mrcoin.Stock.{is_paid}
use mrcoin.Enrolment.{EnsureUserMembershipWalletInput, ensure_user_membership_wallet}
use mrcoin.Spins.{Spin, SpinGrant, Spinning, spin_is, spin_reserved_amount}

pub record GrantSpinsInput : Type 0 where
  pub cpf : Text
  pub name : Text
  pub quantity : ℕ
  pub membership_type : MembershipType
  pub external_ref : Option Text
  pub reason : Option Text

pub record GrantedSpinItem : Type 0 where
  pub id : Text
  pub expires_at : ℕ

pub record GrantSpinsResult : Type 0 where
  pub grant : SpinGrant
  pub spins : List GrantedSpinItem

pub record SpinReservationStep : Type 0 where
  pub batch_id : Text
  pub batch_expires_at : ℕ

unfoldable pub spin_candidates : Text → ℕ → List CoinBatch → List CoinBatch
spin_candidates organization_id now batches =
    order_by (λ a b. ltb a.expires_at b.expires_at)
      (filter_where
        (λ b.
          text_eq b.organization_id organization_id
          && is_paid b.status
          && leb_ℤ (pos spin_reserved_amount) b.remaining_coins
          && ltb now b.expires_at)
        batches)

-- The `while` loop: what one batch with so many coins can back, and how many spins are left to back.
unfoldable pub blocks_of : CoinBatch → ℕ → ℤ → List SpinReservationStep × ℕ
blocks_of b zero remaining = ([], zero)
blocks_of b (suc left) remaining =
    let more = blocks_of b left (remaining -ℤ pos spin_reserved_amount) in
    if leb_ℤ (pos spin_reserved_amount) remaining
    then (record { batch_id = b.id; batch_expires_at = b.expires_at } ∷ more.0, more.1)
    else ([], suc left)

unfoldable pub plan_blocks : ℕ → List CoinBatch → List SpinReservationStep × ℕ
plan_blocks left [] = ([], left)
plan_blocks left (b ∷ bs) =
    let taken = blocks_of b left b.remaining_coins in
    let rest = plan_blocks taken.1 bs in (taken.0 ++ rest.0, rest.1)

-- The batches are candidates: they have coins.
unfoldable pub total_available_for_spins : List CoinBatch → ℕ
total_available_for_spins [] = 0
total_available_for_spins (b ∷ bs) =
    pos_part b.remaining_coins / spin_reserved_amount * spin_reserved_amount
    + total_available_for_spins bs

-- `updateMany` with `remainingCoins: { gte: SPIN_RESERVED_AMOUNT }`
abbrev pub has_block : Text → CoinBatch → Bool
has_block k b = text_eq b.id k && leb_ℤ (pos spin_reserved_amount) b.remaining_coins

abbrev pub take_block : CoinBatch → CoinBatch
take_block b = record b { remaining_coins = b.remaining_coins -ℤ pos spin_reserved_amount }

abbrev pub item_of : Spin → GrantedSpinItem
item_of spin = record { id = spin.id; expires_at = spin.expires_at }

unfoldable pub items_of : List Spin → List GrantedSpinItem
items_of [] = []
items_of (spin ∷ spins) = item_of spin ∷ items_of spins

module _ (p : Platform) where
  unfoldable pub plan_spin_reservations_or_throw : Text → ℕ → Db → Result (List SpinReservationStep)
  plan_spin_reservations_or_throw organization_id quantity db =
      let candidates = spin_candidates organization_id (p.now db.ticks) db.batches in
      let plan = plan_blocks quantity candidates in
      if plan.1 == 0
      then ok plan.0
      else err (
          insufficient_coin_stock organization_id (pos (quantity * spin_reserved_amount))
            (pos (total_available_for_spins candidates)))

  abbrev pub new_spin : Text → Text → Text → SpinReservationStep → Db → Spin
  new_spin organization_id membership_id grant_id step db = record {
    id = p.cuid db.ticks;
    spin_grant_id = grant_id;
    organization_id = organization_id;
    membership_id = membership_id;
    reserved_batch_id = step.batch_id;
    status = SpinStatus.pending;
    sector_index = none;
    coins_awarded = none;
    ledger_entry_id = none;
    redeem_idempotency_key = none;
    expires_at = step.batch_expires_at;
    redeemed_at = none;
  }

  -- One round of `executeSpinReservations`: the coins are taken from the batch, and the spin is made.
  unfoldable pub reserve : Text → Text → Text → SpinReservationStep → Spinning → Result Spinning
  reserve organization_id membership_id grant_id step s =
      if count_where (has_block step.batch_id) s.db.batches == 0
      then err (insufficient_coin_stock organization_id (pos spin_reserved_amount) (pos 0))
      else (if any_where (spin_is (p.cuid s.db.ticks)) s.spins
          then err (unique_violation id)
          else ok (record s {
            spins = new_spin organization_id membership_id grant_id step s.db ∷ s.spins;
            db = record s.db {
              batches = update_where (has_block step.batch_id) take_block s.db.batches;
              ticks = s.db.ticks + 1;
            };
          }))

  unfoldable pub execute_spin_reservations :
      Text → Text → Text → List SpinReservationStep → Spinning → Result Spinning
  execute_spin_reservations organization_id membership_id grant_id [] s = ok s
  execute_spin_reservations organization_id membership_id grant_id (step ∷ plan) s =
      elim (reserve organization_id membership_id grant_id step s) [
        | err e ↦ err e
        | ok s' ↦ execute_spin_reservations organization_id membership_id grant_id plan s'
      ]

  abbrev pub of_grant : Text → Spin → Bool
  of_grant k spin = text_eq spin.spin_grant_id k

  abbrev pub new_grant : Text → Text → Text → GrantSpinsInput → Text → Db → SpinGrant
  new_grant organization_id admin_user_id membership_id i key db = record {
    id = p.cuid db.ticks;
    organization_id = organization_id;
    admin_user_id = admin_user_id;
    membership_id = membership_id;
    quantity = i.quantity;
    reason = i.reason;
    idempotency_key = key;
    created_at = p.now db.ticks;
  }

  -- `spinGrant.create`: the key is unique.
  unfoldable pub create_grant : SpinGrant → Spinning → Result Spinning
  create_grant g s =
      if any_where (λ h. text_eq h.idempotency_key g.idempotency_key) s.grants
      then err (unique_violation idempotency_key)
      else ok (record s { grants = g ∷ s.grants; db = record s.db { ticks = s.db.ticks + 1 } })

  -- `hash_cpf` and `encrypt_cpf` are those of src/common/crypto/cpf-crypto.util.ts, over `node:crypto`.
  module _ (hash_cpf encrypt_cpf : Text → Text) where
    abbrev pub enrolment : Text → GrantSpinsInput → EnsureUserMembershipWalletInput
    enrolment organization_id i = record {
      cpf_encrypted = encrypt_cpf i.cpf;
      cpf_hash = hash_cpf i.cpf;
      name = i.name;
      organization_id = organization_id;
      membership_type = i.membership_type;
      external_ref = i.external_ref;
    }

    unfoldable pub reserve_all :
        Text → SpinGrant → List SpinReservationStep → Spinning → Result Spinning
    reserve_all organization_id g plan s = elim (create_grant g s) [
      | err e ↦ err e
      | ok s' ↦ execute_spin_reservations organization_id g.membership_id g.id plan s'
    ]

    -- The transaction: the grant and the state after it.
    unfoldable pub grant_in :
        Text → Text → GrantSpinsInput → Text → Spinning → Result (SpinGrant × Spinning)
    grant_in organization_id admin_user_id i key s =
        elim (ensure_user_membership_wallet p (enrolment organization_id i) s.db) [
          | err e ↦ err e
          | ok (ensured, db) ↦
              elim (plan_spin_reservations_or_throw organization_id i.quantity db) [
                | err e ↦ err e
                | ok plan ↦
                    let g =
                      new_grant organization_id admin_user_id ensured.membership_id i key db in
                    elim (reserve_all organization_id g plan (record s { db = db })) [
                      | err e ↦ err e
                      | ok s' ↦ ok (g, s')
                    ]
              ]
        ]

    -- The CPF of a member, as `membership: { select: { user: { select: { cpfHash } } } }` reads it.
    unfoldable pub cpf_hash_of : Text → Db → Option Text
    cpf_hash_of membership_id db =
        elim (find_where (λ m. text_eq m.id membership_id) db.memberships) [
          | none ↦ none
          | some m ↦ elim (find_where (λ u. text_eq u.id m.user_id) db.users) [
            | none ↦ none
            | some u ↦ some u.cpf_hash
          ]
        ]

    abbrev pub hash_matches : Text → Option Text → Bool
    hash_matches h none = Bool.false
    hash_matches h (some k) = text_eq k h

    abbrev pub result_of : SpinGrant → Spinning → GrantSpinsResult
    result_of g s = record {
      grant = g;
      spins = items_of (reverse (filter_where (of_grant g.id) s.spins));
    }

    unfoldable pub replay_grant :
        SpinGrant → Text → GrantSpinsInput → Text → Spinning → Result GrantSpinsResult
    replay_grant g organization_id i key s =
        if text_eq g.organization_id organization_id
          && g.quantity == i.quantity
          && hash_matches (hash_cpf i.cpf) (cpf_hash_of g.membership_id s.db)
        then ok (result_of g s)
        else err (idempotency_conflict key)

    -- `gap`: what others commit between the lookup of the key and the transaction.
    unfoldable pub grant :
        (Spinning → Spinning)
        → Text
        → Text
        → GrantSpinsInput
        → Text
        → Spinning
        → Result GrantSpinsResult × Spinning
    grant gap organization_id admin_user_id i key s =
        elim (find_where (λ g. text_eq g.idempotency_key key) s.grants) [
          | some g ↦ (replay_grant g organization_id i key s, s)
          | none ↦ elim (grant_in organization_id admin_user_id i key (gap s)) [
            | err e ↦ (err e, gap s)
            | ok (g, s') ↦ (ok (result_of g s'), s')
          ]
        ]
