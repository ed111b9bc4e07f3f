-- ===== src/Batches/Decisions.antt =====
-- What becomes of a pending batch: PlatformBatchesService
-- (src/modules/platform-admin/batches/platform-batches.service.ts) and the provider's webhook
-- (src/modules/webhooks/webhooks.service.ts). `gap n` is what other requests commit between the
-- statements of a decision.
use mrcoin.Base.{ℕ, Bool, true, false, ◌&&◌, ◌∷◌, Option, none, some, if◌then◌else◌, ◌==◌}
use mrcoin.Base.Text.{Text, codes, text_eq, opt_text_eq}
use mrcoin.Base.Table.{find_where, update_where, count_where}
use mrcoin.Db.{
  Db, CoinBatch, BatchStatus, BatchAudit, batch_approved, batch_rejected, batch_payment_confirmed,
  Action, ok, err, batch_not_found, batch_decision_conflict,
}

abbrev pub is_pending : BatchStatus → Bool
is_pending BatchStatus.pending = true
is_pending _ = false

abbrev pub is_paid : BatchStatus → Bool
is_paid BatchStatus.paid = true
is_paid _ = false

abbrev pub is_rejected : BatchStatus → Bool
is_rejected BatchStatus.rejected = true
is_rejected _ = false

abbrev pub find_batch : Text → Db → Option CoinBatch
find_batch k db = find_where (λ b. text_eq b.id k) db.batches

-- `findOrThrow`
unfoldable pub find_or_throw : Text → Action CoinBatch
find_or_throw k db = elim (find_batch k db) [
  | none ↦ (err batch_not_found, db)
  | some b ↦ (ok b, db)
]

-- `where: { id: batchId, status: 'PENDING' }`
abbrev pub undecided : Text → CoinBatch → Bool
undecided k b = text_eq b.id k && is_pending b.status

abbrev pub mark_approved : Text → CoinBatch → CoinBatch
mark_approved admin b = record b {
  status = BatchStatus.paid;
  approved_by_platform_admin_id = some admin;
}

abbrev pub mark_rejected : Text → Option Text → CoinBatch → CoinBatch
mark_rejected admin reason b = record b {
  status = BatchStatus.rejected;
  rejected_by_platform_admin_id = some admin;
  rejection_reason = reason;
}

abbrev pub mark_paid : CoinBatch → CoinBatch
mark_paid b = record b { status = BatchStatus.paid }

abbrev pub log : BatchAudit → Db → Db
log entry db = record db { batch_audits = entry ∷ db.batch_audits }

abbrev pub pix_paid_event : Text
pix_paid_event = codes "PAYMENT_RECEIVED"

abbrev pub find_charge : Text → Db → Option CoinBatch
find_charge charge db = find_where (λ b. opt_text_eq b.psp_charge_id (some charge)) db.batches

-- The webhook's transaction.
unfoldable pub confirm_payment : CoinBatch → Text → Db → Db
confirm_payment b charge db =
    if count_where (undecided b.id) db.batches == 0
    then db
    else log (batch_payment_confirmed b.organization_id charge)
        (record db { batches = update_where (undecided b.id) mark_paid db.batches })

module _ (gap : ℕ → Db → Db) where
  -- The guarded update, its audit where it has changed a row, and the batch as it then is.
  unfoldable pub decide : Text → (CoinBatch → CoinBatch) → BatchAudit → Action CoinBatch
  decide k mark entry db =
      let changed = record db { batches = update_where (undecided k) mark db.batches } in
      if count_where (undecided k) db.batches == 1
      then find_or_throw k (gap 2 (log entry (gap 1 changed)))
      else find_or_throw k (gap 2 changed)

  unfoldable pub approve : Text → Text → Option Text → Action CoinBatch
  approve admin k ip db = elim (find_batch k db) [
    | none ↦ (err batch_not_found, db)
    | some b ↦
        if is_paid b.status
        then (ok b, db)
        else if is_pending b.status
        then decide k (mark_approved admin)
            (batch_approved admin k b.organization_id b.price_in_cents b.total_coins ip) (gap 0 db)
        else (err (batch_decision_conflict b.status), db)
  ]

  unfoldable pub reject : Text → Text → Option Text → Option Text → Action CoinBatch
  reject admin k reason ip db = elim (find_batch k db) [
    | none ↦ (err batch_not_found, db)
    | some b ↦
        if is_rejected b.status
        then (ok b, db)
        else if is_pending b.status
        then decide k (mark_rejected admin reason)
            (batch_rejected admin k b.organization_id reason ip) (gap 0 db)
        else (err (batch_decision_conflict b.status), db)
  ]

  -- The event and the charge that the provider reports.
  unfoldable pub handle_pix_payment_webhook : Text → Text → Db → Db
  handle_pix_payment_webhook event charge db =
      if text_eq event pix_paid_event
      then (elim (find_charge charge db) [
        | none ↦ db
        | some b ↦ confirm_payment b charge (gap 0 db)
      ])
      else db
