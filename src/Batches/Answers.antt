-- ===== src/Batches/Answers.antt =====
-- The answers on a batch that is decided.
use mrcoin.Base.{
  ℕ, ◌≡◌, refl, sym, subst, ap, ◌∙◌, inl, inr, true, false, Option, some, arith, if◌then◌else◌,
  Bool-cases, Option-cases, ◌==◌,
}
use mrcoin.Base.Text.{Text, text_eq}
use mrcoin.Base.Table.{update_where, count_where, find-update, find_meets}
use mrcoin.Db.{Db, CoinBatch, BatchStatus, BatchAudit, Result, ok, err, batch_decision_conflict}
use mrcoin.Batches.Decisions.{
  is_pending, is_paid, is_rejected, find_batch, find_or_throw, undecided, mark_approved, log,
  decide, approve, reject,
}
use mrcoin.Batches.Final.{Settles, IsSettling}

-- What an operator gets on a batch with a status that is decided.
abbrev pub approval_answer : BatchStatus → CoinBatch → Result CoinBatch
approval_answer status b = if is_paid status then ok b else err (batch_decision_conflict status)

abbrev pub rejection_answer : BatchStatus → CoinBatch → Result CoinBatch
rejection_answer status b =
    if is_rejected status then ok b else err (batch_decision_conflict status)

answer_decided :
    (gap : ℕ → Db → Db) (admin k : Text) (reason ip : Option Text) (db : Db) (b : CoinBatch)
    → find_batch k db ≡ some b
    → is_pending b.status ≡ false
    → (approve gap admin k ip db ≡ (approval_answer b.status b, db))
      × (reject gap admin k reason ip db ≡ (rejection_answer b.status b, db))
unfolding approve reject
answer_decided gap admin k reason ip db b found over = (
  elim (Bool-cases (is_paid b.status)) [
    | inl e ↦ rw (approve, found, e) refl
    | inr e ↦ rw (approve, found, e, over) refl
  ],
  elim (Bool-cases (is_rejected b.status)) [
    | inl e ↦ rw (reject, found, e) refl
    | inr e ↦ rw (reject, found, e, over) refl
  ],
)

paid_not_pending : (s : BatchStatus) → is_paid s ≡ true → is_pending s ≡ false
paid_not_pending s h = ground arith

-- The row that a decision reads back in the end is no longer pending.
module _ (gap : ℕ → Db → Db) (gaps : (n : ℕ) → IsSettling (gap n)) where
  update-decides :
      (k : Text) (mark : CoinBatch → CoinBatch) (db : Db) (b : CoinBatch)
      → ((b : CoinBatch) → (mark b).id ≡ b.id)
      → ((b : CoinBatch) → is_pending (mark b).status ≡ false)
      → find_batch k db ≡ some b
      → (b' : CoinBatch) × (find_batch k
            (record db { batches = update_where (undecided k) mark db.batches })
          ≡ some b')
        × (is_pending b'.status ≡ false)
  update-decides k mark db b same over found =
      let seen : find_batch k (record db { batches = update_where (undecided k) mark db.batches })
          ≡ some (if undecided k b then mark b else b) =
        find-update (λ x. text_eq x.id k) (undecided k) mark db.batches
          (λ x. ap (λ i. text_eq i k) (same x))
        ∙ (rw found refl) in
      let met : text_eq b.id k ≡ true = find_meets (λ x. text_eq x.id k) db.batches b found in
      elim (Bool-cases (is_pending b.status)) [
        | inl e ↦ (mark b, rw (met, e) at seen, over b)
        | inr e ↦ (b, rw (met, e) at seen, e)
      ]

  Settles-decided :
      (k : Text) (db db' : Db) (b : CoinBatch)
      → Settles db db'
      → find_batch k db ≡ some b
      → is_pending b.status ≡ false
      → (b' : CoinBatch) × (find_batch k db' ≡ some b') × (is_pending b'.status ≡ false)
  Settles-decided k db db' b settled found over =
      let (b', found', matured) = settled k b found in (b', found', rw (matured.6 over) over)

  read_back :
      (k : Text) (db db' : Db) (b b' : CoinBatch)
      → find_batch k db ≡ some b
      → is_pending b.status ≡ false
      → find_or_throw k db ≡ (ok b', db')
      → (find_batch k db' ≡ some b') × (is_pending b'.status ≡ false)
  unfolding find_or_throw
  read_back k db db' b b' found over h =
      let r = rw (find_or_throw, found) at h in
      let first = ap (λ x. x.0) r in
      let same : b ≡ b' = cc in
      let state : db ≡ db' = ap (λ x. x.1) r in
      (subst (λ d. find_batch k d ≡ some b') state (rw (sym same) found), rw (sym same) over)

  decide_decides :
      (k : Text) (mark : CoinBatch → CoinBatch) (entry : BatchAudit) (db db' : Db)
      (b b' : CoinBatch)
      → ((b : CoinBatch) → (mark b).id ≡ b.id)
      → ((b : CoinBatch) → is_pending (mark b).status ≡ false)
      → find_batch k db ≡ some b
      → decide gap k mark entry (gap 0 db) ≡ (ok b', db')
      → (find_batch k db' ≡ some b') × (is_pending b'.status ≡ false)
  unfolding decide
  decide_decides k mark entry db db' b b' same over found h =
      let now : Db = gap 0 db in
      let (b0, found0, _) = gaps 0 db k b found in
      let changed : Db = record now { batches = update_where (undecided k) mark now.batches } in
      let (b1, found1, over1) = update-decides k mark now b0 same over found0 in
      elim (Bool-cases (count_where (undecided k) now.batches == 1)) [
        | inl e ↦
            let logged : Db = log entry (gap 1 changed) in
            let (b2, found2, over2) =
              Settles-decided k changed (gap 1 changed) b1 (gaps 1 changed) found1 over1 in
            let (b3, found3, over3) =
              Settles-decided k logged (gap 2 logged) b2 (gaps 2 logged) found2 over2 in
            read_back k (gap 2 logged) db' b3 b' found3 over3 (rw (decide, e) at h)
        | inr e ↦
            let (b2, found2, over2) =
              Settles-decided k changed (gap 2 changed) b1 (gaps 2 changed) found1 over1 in
            read_back k (gap 2 changed) db' b2 b' found2 over2 (rw (decide, e) at h)
      ]

  approve_decides :
      (admin k : Text) (ip : Option Text) (db db' : Db) (b' : CoinBatch)
      → approve gap admin k ip db ≡ (ok b', db')
      → (find_batch k db' ≡ some b') × (is_pending b'.status ≡ false)
  unfolding approve
  approve_decides admin k ip db db' b' h = elim (Option-cases (find_batch k db)) [
    | inl e ↦ absurd (let bad = rw (approve, e) at h in let worse = ap (λ x. x.0) bad in cc)
    | inr (b, e) ↦ elim (Bool-cases (is_paid b.status)) [
      | inl e1 ↦
          let r = rw (approve, e, e1) at h in
          let same : b ≡ b' = let r0 = ap (λ x. x.0) r in cc in
          let over : is_pending b.status ≡ false = paid_not_pending b.status e1 in
          (
            subst (λ d. find_batch k d ≡ some b') (ap (λ x. x.1) r) (rw (sym same) e),
            rw (sym same) over,
          )
      | inr e1 ↦ elim (Bool-cases (is_pending b.status)) [
        | inl e2 ↦
            decide_decides k (mark_approved admin) _ db db' b b' (λ _. refl) (λ _. refl) e
              (rw (approve, e, e1, e2) at h)
        | inr e2 ↦
            absurd (let bad = rw (approve, e, e1, e2) at h in let worse = ap (λ x. x.0) bad in cc)
      ]
    ]
  ]

-- An approval that answers with a batch has found it decided, or decided it, for good: whatever others
-- do then, the batch keeps that status, and the next approval and the next rejection write nothing and
-- answer by the status: the batch, or a conflict.
pub approved_for_good :
    (gap quiet : ℕ → Db → Db) (later : Db → Db) (admin k next : Text)
    (ip reason next_ip : Option Text) (db db' : Db) (b : CoinBatch)
    → ((n : ℕ) → IsSettling (gap n))
    → IsSettling later
    → approve gap admin k ip db ≡ (ok b, db')
    → (b' : CoinBatch) × (find_batch k (later db') ≡ some b')
      × (b'.status ≡ b.status)
      × (approve quiet next k next_ip (later db') ≡ (approval_answer b.status b', later db'))
      × (reject quiet next k reason next_ip (later db') ≡ (rejection_answer b.status b', later db'))
approved_for_good gap quiet later admin k next ip reason next_ip db db' b gaps after h =
    let (found, over) = approve_decides gap gaps admin k ip db db' b h in
    let (b', found', matured) = after db' k b found in
    let same : b'.status ≡ b.status = matured.6 over in
    let (a, r) = answer_decided quiet next k reason next_ip (later db') b' found' (rw same over) in
    (
      b',
      found',
      same,
      subst (λ s. approve quiet next k next_ip (later db') ≡ (approval_answer s b', later db')) same
          a,
      subst
          (λ s. reject quiet next k reason next_ip (later db') ≡ (rejection_answer s b', later db'))
          same r,
    )
