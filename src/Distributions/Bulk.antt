-- ===== src/Distributions/Bulk.antt =====
-- `processBulkDistribution` and `processDistributionItem`: the worker of the queue. The lines of a chunk
-- run at once in the source, each in its own transaction; here one after the other, which is one order
-- in which the database may take them. `gap n` is what others commit to the database before the n-th
-- attempt of a line, and `faults` are the errors of the database itself.
pub mod Lines
pub mod Finish
mod Tests
use mrcoin.Base.{
  ℕ, zero, suc, ◌+◌, ◌*◌, ◌/◌, ◌≤◌, Bool, true, false, ◌&&◌, List, [], ◌∷◌, ◌++◌, Option, none,
  some, if◌then◌else◌, ltb, take,
}
use mrcoin.Base.Text.{Text, codes, text_eq}
use mrcoin.Base.Table.{find_where, filter_where, update_where, order_by}
use mrcoin.Db.{
  Db, DistributionStatus, DistributionItemStatus, MembershipType, LedgerReferenceType, Failure,
  Result, ok, err, insufficient_coin_stock, incomplete_line, transaction_timeout, record_not_found,
  Platform, Tx, ◌>>=◌, ◌>>◌, pure,
}
use mrcoin.Stock.{plan_fifo_or_throw, execute_fifo_plan, ExecuteFifoPlanParams}
use mrcoin.Enrolment.{
  EnsureUserMembershipWalletInput, EnsuredUserMembershipWallet, ensure_user_membership_wallet,
}
use mrcoin.Distributions.{
  Distribution, DistributionItem, Distributing, OrganizationValue, build_distribution_description,
  find_distribution, change_distribution,
}

abbrev pub distribution_item_batch_size : ℕ
distribution_item_batch_size = 20

abbrev pub is_pending : DistributionItemStatus → Bool
is_pending DistributionItemStatus.pending = true
is_pending _ = false

abbrev pub item_is : Text → DistributionItem → Bool
item_is k i = text_eq i.id k

abbrev pub awaits : Text → DistributionItem → Bool
awaits k i = text_eq i.distribution_id k && is_pending i.status

-- `!item.cpfHash || ...`: an empty text counts as missing.
abbrev pub line_data : DistributionItem → Text → Option EnsureUserMembershipWalletInput
line_data i organization_id = elim i.cpf_hash [
  | some (c ∷ hash) ↦ elim i.cpf_encrypted [
    | some (d ∷ encrypted) ↦ elim i.name [
      | some (e ∷ name) ↦ elim i.membership_type [
        | some type ↦ some (record {
          cpf_encrypted = d ∷ encrypted;
          cpf_hash = c ∷ hash;
          name = e ∷ name;
          organization_id = organization_id;
          membership_type = type;
          external_ref = i.external_ref;
        })
        | none ↦ none
      ]
      | _ ↦ none
    ]
    | _ ↦ none
  ]
  | _ ↦ none
]

abbrev pub is_retryable : Failure → Bool
is_retryable (insufficient_coin_stock _ _ _) = true
is_retryable transaction_timeout = true
is_retryable _ = false

abbrev pub mark_done : Text → DistributionItem → DistributionItem
mark_done membership_id i = record i {
  status = DistributionItemStatus.done;
  membership_id = some membership_id;
  cpf_hash = none;
  cpf_encrypted = none;
}

abbrev pub mark_failed : Text → DistributionItem → DistributionItem
mark_failed message i = record i {
  status = DistributionItemStatus.failed;
  error_reason = some message;
}

abbrev pub count_success : Distribution → Distribution
count_success d = record d { success_items = d.success_items + 1 }

abbrev pub count_failure : Distribution → Distribution
count_failure d = record d { failed_items = d.failed_items + 1 }

abbrev pub change_item : Text → (DistributionItem → DistributionItem) → Distributing → Distributing
change_item k change s = record s { items = update_where (item_is k) change s.items }

-- `orderBy: { createdAt: 'asc' }, take: DISTRIBUTION_ITEM_BATCH_SIZE`
unfoldable pub pending_items : Text → Distributing → List DistributionItem
pending_items k s =
    take distribution_item_batch_size
      (order_by (λ a b. ltb a.created_at b.created_at) (filter_where (awaits k) s.items))

abbrev pub final_status : ℕ → DistributionStatus
final_status failed_items =
    if ltb 0 failed_items
    then DistributionStatus.completed_with_errors
    else DistributionStatus.completed

-- The status in the end, by the counters as they are then.
unfoldable pub close_distribution : Text → Distributing → Result (Unit {0}) × Distributing
close_distribution k s = elim (find_distribution k s) [
  | none ↦ (err record_not_found, s)
  | some d ↦ (
    ok tt,
    change_distribution (λ d'. text_eq d'.id k)
        (λ d'. record d' { status = final_status d.failed_items }) s,
  )
]

abbrev pub value_name : Distribution → Distributing → Option Text
value_name d s = elim d.organization_value_id [
  | none ↦ none
  | some k ↦ elim (find_where (λ v. text_eq v.id k) s.values) [ none ↦ none | some v ↦ some v.name ]
]

abbrev pub has_message : Distribution → Bool
has_message d = elim d.message [ none ↦ false | some _ ↦ true ]

abbrev pub close_or_stall :
    Text → Option (Result (Unit {0}) × Distributing) → Option (Result (Unit {0}) × Distributing)
close_or_stall k none = none
close_or_stall k (some (err e, s)) = some (err e, s)
close_or_stall k (some (ok _, s)) = some (close_distribution k s)

-- The errors of the database itself, by the line: of its transaction and of the increment of
-- successItems in the n-th attempt, of the update to FAILED, and of the increment of failedItems.
pub record Faults : Type 0 where
  pub in_transaction : Text → ℕ → Option Failure
  pub in_success : Text → ℕ → Option Failure
  pub in_marking : Text → Option Failure
  pub in_failure : Text → Option Failure

-- `Promise.all` rejects with an error of one of the lines; the others run all the same.
abbrev pub first_error : Result (Unit {0}) → Result (Unit {0}) → Result (Unit {0})
first_error (err e) r = err e
first_error (ok _) r = r

-- `extract_message` is `extractErrorMessage`, which reads the text of an exception.
module _ (p : Platform) (extract_message : Failure → Text) (gap : ℕ → Db → Db)
    (faults : Faults) where
  -- The coins of a line, within its transaction: the membership that got them.
  unfoldable pub credit_line : Text → DistributionItem → Text → Tx Text
  credit_line organization_id i description db = elim (line_data i organization_id) [
    | none ↦ err incomplete_line
    | some line ↦
        (do
          plan ← plan_fifo_or_throw p organization_id i.amount
          ensured ← ensure_user_membership_wallet p line
          entries ←
              execute_fifo_plan p organization_id
                (record {
                  wallet_id = ensured.wallet_id;
                  reference_type = LedgerReferenceType.distribution;
                  reference_id = i.id;
                  description = description;
                  distribution_item_id = some i.id;
                  idempotency_key_prefix = codes "distribution-item:" ++ i.id;
                })
                plan
          pure ensured.membership_id)
          db
  ]

  -- The transaction of the n-th attempt, which the database itself may refuse.
  abbrev pub attempt_line : ℕ → Text → DistributionItem → Text → Db → Result (Text × Db)
  attempt_line n organization_id i description db = elim (faults.in_transaction i.id n) [
    | some e ↦ err e
    | none ↦ credit_line organization_id i description (gap n db)
  ]

  -- What follows the commit: the increment, whose error is caught like the transaction's.
  abbrev pub succeed :
      ℕ → DistributionItem → Text → Db → Distributing → Result (Unit {0}) × Distributing
  succeed n i membership_id db s =
      let s' : Distributing = change_item i.id (mark_done membership_id) (record s { db = db }) in
      elim (faults.in_success i.id n) [
        | some e ↦ (err e, s')
        | none ↦ (ok tt, change_distribution (λ d. text_eq d.id i.distribution_id) count_success s')
      ]

  -- The body of the `try`.
  unfoldable pub try_line :
      ℕ → Text → DistributionItem → Text → Distributing → Result (Unit {0}) × Distributing
  try_line n organization_id i description s =
      elim (attempt_line n organization_id i description s.db) [
        | ok (membership_id, db) ↦ succeed n i membership_id db s
        | err e ↦ (err e, record s { db = gap n s.db })
      ]

  -- What follows the loop, where an error is thrown on.
  unfoldable pub fail_line :
      DistributionItem → Failure → Distributing → Result (Unit {0}) × Distributing
  fail_line i e s =
      let s' : Distributing = change_item i.id (mark_failed (extract_message e)) s in
      elim (faults.in_marking i.id) [
        | some x ↦ (err x, s)
        | none ↦ elim (faults.in_failure i.id) [
          | some x ↦ (err x, s')
          | none ↦
              (ok tt, change_distribution (λ d. text_eq d.id i.distribution_id) count_failure s')
        ]
      ]

  -- The loop over the attempts, of which `left` may follow this one.
  unfoldable pub attempt_lines :
      ℕ → ℕ → Text → DistributionItem → Text → Distributing → Result (Unit {0}) × Distributing
  attempt_lines zero n organization_id i description s =
      let tried = try_line n organization_id i description s in
      elim tried.0 [ ok _ ↦ (ok tt, tried.1) | err e ↦ fail_line i e tried.1 ]
  attempt_lines (suc left) n organization_id i description s =
      let tried = try_line n organization_id i description s in
      let again = attempt_lines left (n + 1) organization_id i description tried.1 in
      elim tried.0 [
        | ok _ ↦ (ok tt, tried.1)
        | err e ↦ if is_retryable e then again else fail_line i e tried.1
      ]

  -- Three attempts.
  unfoldable pub process_distribution_item :
      Text → Text → DistributionItem → Distributing → Result (Unit {0}) × Distributing
  process_distribution_item organization_id description i s =
      attempt_lines 2 1 organization_id i description s

  unfoldable pub process_chunk :
      Text → Text → List DistributionItem → Distributing → Result (Unit {0}) × Distributing
  process_chunk organization_id description [] s = (ok tt, s)
  process_chunk organization_id description (i ∷ is) s =
      let first = process_distribution_item organization_id description i s in
      let rest = process_chunk organization_id description is first.1 in
      (first_error first.0 rest.0, rest.1)

  -- The loop over the chunks. `none`: the fuel ran out.
  unfoldable pub process_chunks :
      ℕ → Text → Text → Text → Distributing → Option (Result (Unit {0}) × Distributing)
  process_chunks zero k organization_id description s = none
  process_chunks (suc fuel) k organization_id description s =
      let chunk = process_chunk organization_id description (pending_items k s) s in
      let rest = process_chunks fuel k organization_id description chunk.1 in
      elim (pending_items k s) [
        | [] ↦ some (ok tt, s)
        | _ ∷ _ ↦ elim chunk.0 [ err e ↦ some (err e, chunk.1) | ok _ ↦ rest ]
      ]

  unfoldable pub process_bulk_distribution :
      ℕ → Text → Distributing → Option (Result (Unit {0}) × Distributing)
  process_bulk_distribution fuel k s = elim (find_distribution k s) [
    | none ↦ some (err record_not_found, s)
    | some d ↦ close_or_stall k (
        process_chunks fuel k d.organization_id
          (build_distribution_description (value_name d s) (has_message d) none) s)
  ]
