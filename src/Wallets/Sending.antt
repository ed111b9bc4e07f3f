-- ===== src/Wallets/Sending.antt =====
-- TransferService.create (src/modules/wallets/transfer.service.ts) and the lookup of a user's wallet
-- (`resolveWalletId` of src/modules/wallets/wallets.service.ts). The state is the database and Redis.
pub mod People
pub mod Members
pub mod Limit
use mrcoin.Base.{
  ℕ, ◌+◌, ◌*◌, Bool, true, false, not, ◌&&◌, ◌||◌, List, [], ◌∷◌, ◌++◌, Option, none, some,
  if◌then◌else◌, leb, ltb,
}
use mrcoin.Base.Int.{ℤ, pos, ◌+ℤ◌, ltb_ℤ, eq_ℤ}
use mrcoin.Base.Text.{Text, codes, text_eq}
use mrcoin.Base.Table.{find_where, filter_where, any_where}
use mrcoin.Db.{
  Db, Wallet, User, Membership, MembershipStatus, active, inactive, Transfer, LedgerEntry, Platform,
  Result, ok, err, record_not_found, membership_not_found, recipient_not_found, self_transfer,
  transfer_daily_limit, insufficient_balance, idempotency_conflict, unique_violation,
  idempotency_key, and_then,
}
use mrcoin.Ledger.Service.{TransferBetweenWalletsInput, transfer_wallets, get_balance}
use mrcoin.Users.Pin.{Redis, verify_pin, find_user}

abbrev pub transfer_daily_limit_coins : ℤ
transfer_daily_limit_coins = pos 1000

abbrev pub transfer_daily_limit_window_hours : ℕ
transfer_daily_limit_window_hours = 24

pub record CreateTransferInput : Type 0 where
  pub organization_id : Text
  pub recipient_membership_id : Text
  pub amount : ℤ
  pub transaction_pin : Text

pub record TransferResult : Type 0 where
  pub id : Text
  pub amount : ℤ
  pub recipient_membership_id : Text
  pub recipient_name : Text
  pub created_at : ℕ

abbrev pub is_active : MembershipStatus → Bool
is_active MembershipStatus.active = true
is_active inactive = false

abbrev pub wallet_of_membership : Text → Db → Option Wallet
wallet_of_membership k db = find_where (λ w. text_eq w.membership_id k) db.wallets

-- `if (!membership || membership.status !== 'ACTIVE' || !membership.wallet)`
abbrev pub usable_wallet : Option Membership → Db → Option (Membership × Wallet)
usable_wallet none db = none
usable_wallet (some m) db = elim (wallet_of_membership m.id db) [
  | none ↦ none
  | some w ↦ if is_active m.status then some (m, w) else none
]

unfoldable pub resolve_wallet_id : Text → Text → Db → Result (Membership × Wallet)
resolve_wallet_id user_id organization_id db =
    let m =
      find_where (λ m. text_eq m.user_id user_id && text_eq m.organization_id organization_id)
        db.memberships in
    elim (usable_wallet m db) [ none ↦ err membership_not_found | some r ↦ ok r ]

-- The recipient's membership, if it is active and of the organization.
abbrev pub find_recipient : CreateTransferInput → Db → Option (Membership × Wallet)
find_recipient i db =
    usable_wallet
      (find_where
        (λ m.
          text_eq m.id i.recipient_membership_id
          && text_eq m.organization_id i.organization_id
          && is_active m.status)
        db.memberships)
      db

abbrev pub sum_amounts : List Transfer → ℤ
sum_amounts [] = pos 0
sum_amounts (t ∷ ts) = t.amount +ℤ sum_amounts ts

-- `createdAt: { gte: windowStart }`, the window being that of the limit, in milliseconds.
abbrev pub in_window : ℕ → Transfer → Bool
in_window now t = leb now (t.created_at + transfer_daily_limit_window_hours * 3600000)

unfoldable pub sent_since : ℕ → Text → List Transfer → ℤ
unfolding filter_where
sent_since now sender ts =
    sum_amounts (filter_where (λ t. text_eq t.from_membership_id sender && in_window now t) ts)

-- What the checks before the PIN have found.
pub record Checked : Type 0 where
  pub sender : Membership
  pub sender_wallet : Wallet
  pub recipient : Membership
  pub recipient_wallet : Wallet
  pub recipient_name : Text

module _ (p : Platform) where
  -- The limit on what a membership sends in a day, and the balance before it.
  unfoldable pub check_amount : Membership → Wallet → ℤ → Db → Result (Unit {0})
  check_amount sender w amount db =
      let already_sent = sent_since (p.now db.ticks) sender.id db.transfers in
      if ltb_ℤ w.cached_balance amount
      then err (insufficient_balance w.id amount w.cached_balance)
      else (if ltb_ℤ transfer_daily_limit_coins (already_sent +ℤ amount)
          then err (transfer_daily_limit transfer_daily_limit_coins already_sent amount)
          else ok tt)

  -- From the lookup of the recipient on.
  unfoldable pub check_recipient : CreateTransferInput → Membership → Wallet → Db → Result Checked
  check_recipient i m w db =
      if text_eq i.recipient_membership_id m.id
      then err self_transfer
      else (elim (find_recipient i db) [
        | none ↦ err recipient_not_found
        | some (n, v) ↦ elim (find_user n.user_id db) [
          | none ↦ err recipient_not_found
          | some u ↦ elim (check_amount m w i.amount db) [
            | err e ↦ err e
            | ok _ ↦ ok (record {
              sender = m;
              sender_wallet = w;
              recipient = n;
              recipient_wallet = v;
              recipient_name = u.name;
            })
          ]
        ]
      ])

  -- All that is checked before the PIN.
  unfoldable pub check_transfer : Text → CreateTransferInput → Db → Result Checked
  check_transfer user_id i db = elim (resolve_wallet_id user_id i.organization_id db) [
    | err e ↦ err e
    | ok (m, w) ↦ check_recipient i m w db
  ]

  abbrev pub transfer_id : Text → Text
  transfer_id key = p.sha256 (codes "transfer:" ++ key)

  unfoldable pub ledger_input : Checked → Text → ℤ → Text → TransferBetweenWalletsInput
  ledger_input c sender_name amount key = record {
    from_wallet_id = c.sender_wallet.id;
    to_wallet_id = c.recipient_wallet.id;
    amount = amount;
    reference_id = transfer_id key;
    debit_description = codes "Transferência enviada para " ++ c.recipient_name;
    credit_description = codes "Transferência recebida de " ++ sender_name;
    debit_idempotency_key = codes "transfer-debit:" ++ key;
    credit_idempotency_key = codes "transfer-credit:" ++ key;
  }

  abbrev pub new_transfer : Checked → ℤ → Text → LedgerEntry → LedgerEntry → Db → Transfer
  new_transfer c amount key d e db = record {
    id = transfer_id key;
    from_membership_id = c.sender.id;
    to_membership_id = c.recipient.id;
    amount = amount;
    idempotency_key = key;
    debit_ledger_entry_id = some d.id;
    credit_ledger_entry_id = some e.id;
    created_at = p.now db.ticks;
  }

  -- `prisma.transfer.upsert`: a row that is there is left as it is.
  unfoldable pub upsert_transfer :
      Checked → ℤ → Text → LedgerEntry → LedgerEntry → Db → Result Transfer × Db
  upsert_transfer c amount key d e db =
      elim (find_where (λ t. text_eq t.id (transfer_id key)) db.transfers) [
        | some t ↦ (ok t, db)
        | none ↦
            let t = new_transfer c amount key d e db in
            if any_where (λ t'. text_eq t'.idempotency_key key) db.transfers
            then (err (unique_violation idempotency_key), db)
            else (ok t, record db { transfers = t ∷ db.transfers; ticks = db.ticks + 1 })
      ]

  -- What follows once the PIN was accepted.
  unfoldable pub send : (ℕ → Db → Db) → Text → Checked → ℤ → Text → Db → Result TransferResult × Db
  send gaps user_id c amount key db = elim (find_user user_id db) [
    | none ↦ (err record_not_found, db)
    | some u ↦
        and_then (transfer_wallets p gaps (ledger_input c u.name amount key) db) λ (d, e) db1.
          and_then (upsert_transfer c amount key d e db1) λ t db2. (
            ok (record {
              id = t.id;
              amount = t.amount;
              recipient_membership_id = c.recipient.id;
              recipient_name = c.recipient_name;
              created_at = t.created_at;
            }),
            db2,
          )
  ]

-- `toResult`
unfoldable pub to_result : Transfer → Db → Result TransferResult
to_result t db = elim (find_where (λ m. text_eq m.id t.to_membership_id) db.memberships) [
  | none ↦ err record_not_found
  | some m ↦ elim (find_user m.user_id db) [
    | none ↦ err record_not_found
    | some u ↦ ok (record {
      id = t.id;
      amount = t.amount;
      recipient_membership_id = t.to_membership_id;
      recipient_name = u.name;
      created_at = t.created_at;
    })
  ]
]

-- The answer to a key that was used before.
unfoldable pub replay_create : Transfer → CreateTransferInput → Text → Db → Result TransferResult
replay_create t i key db =
    if not (text_eq t.to_membership_id i.recipient_membership_id) || not (eq_ℤ t.amount i.amount)
    then err (idempotency_conflict key)
    else to_result t db

abbrev pub find_transfer : Text → Db → Option Transfer
find_transfer key db = find_where (λ t. text_eq t.idempotency_key key) db.transfers

-- A call that keeps the database, with it.
abbrev pub beside : {A : Type 0} → Db → Result A × Redis → Result A × (Db × Redis)
beside db (r, redis) = (r, (db, redis))

module _ (p : Platform) (verify_password : Text → Text → Bool) (gaps : ℕ → Db → Db)
    (redis_now : ℕ) where
  unfoldable pub create_transfer :
      Text → CreateTransferInput → Text → Db × Redis → Result TransferResult × (Db × Redis)
  create_transfer user_id i key (db, redis) = elim (find_transfer key db) [
    | some t ↦ (replay_create t i key db, (db, redis))
    | none ↦ elim (check_transfer p user_id i db) [
      | err e ↦ (err e, (db, redis))
      | ok c ↦
          and_then
            (beside db (verify_pin verify_password db redis redis_now user_id i.transaction_pin))
            λ _ (now, redis1).
              let (r, db1) = send p gaps user_id c i.amount key now in (r, (db1, redis1))
    ]
  ]
