-- ===== src/Batches/Final.antt =====
-- A decision on a batch is final, however requests interleave, and repeating it changes nothing.
use mrcoin.Base.{
  ℕ, ◌≡◌, refl, ap, ◌∙◌, inl, inr, true, false, Option, some, arith, if◌then◌else◌, Bool-cases,
  Option-cases, ◌==◌,
}
use mrcoin.Base.Text.{Text, text_eq}
use mrcoin.Base.Table.{find_where, update_where, count_where, find-update}
use mrcoin.Db.{Db, CoinBatch, BatchAudit}
use mrcoin.Batches.Decisions.{
  is_pending, is_paid, is_rejected, find_batch, find_or_throw, undecided, mark_approved,
  mark_rejected, mark_paid, log, decide, approve, reject, find_charge, confirm_payment,
  handle_pix_payment_webhook, pix_paid_event,
}

-- What may become of a batch: its terms stay, and so does its status once it is decided.
abbrev pub Matures : CoinBatch → CoinBatch → Type 0
Matures b b' =
    (b'.organization_id ≡ b.organization_id)
    × (b'.total_coins ≡ b.total_coins)
    × (b'.price_in_cents ≡ b.price_in_cents)
    × (b'.expires_at ≡ b.expires_at)
    × (b'.psp_charge_id ≡ b.psp_charge_id)
    × (b'.idempotency_key ≡ b.idempotency_key)
    × (is_pending b.status ≡ false → b'.status ≡ b.status)

abbrev pub Settles : Db → Db → Type 0
Settles db db' =
    (k : Text) (b : CoinBatch)
    → find_batch k db ≡ some b
    → (b' : CoinBatch) × (find_batch k db' ≡ some b') × Matures b b'

pub Matures-refl : (b : CoinBatch) → Matures b b
Matures-refl b = (refl, refl, refl, refl, refl, refl, λ _. refl)

pub Settles-refl : (db : Db) → Settles db db
Settles-refl db k b h = (b, h, Matures-refl b)

pub Settles-trans : (a b c : Db) → Settles a b → Settles b c → Settles a c
Settles-trans a b c f g k x h =
    let (y, hy, my) = f k x h in
    let (z, hz, mz) = g k y hy in
    (
      z,
      hz,
      (
        mz.0 ∙ my.0,
        mz.1 ∙ my.1,
        mz.2 ∙ my.2,
        mz.3 ∙ my.3,
        mz.4 ∙ my.4,
        mz.5 ∙ my.5,
        λ e. mz.6 (rw (my.6 e) e) ∙ my.6 e,
      ),
    )

-- What other requests may do at any time.
abbrev pub IsSettling : (Db → Db) → Type 0
IsSettling g = (db : Db) → Settles db (g db)

-- A guarded update that keeps the terms.
Settles-update :
    (k : Text) (mark : CoinBatch → CoinBatch) (db : Db)
    → ((b : CoinBatch) → (mark b).id ≡ b.id)
    → ((b : CoinBatch) → is_pending b.status ≡ true → Matures b (mark b))
    → Settles db (record db { batches = update_where (undecided k) mark db.batches })
Settles-update k mark db same matures j b found =
    let seen : find_where (λ x. text_eq x.id j) (update_where (undecided k) mark db.batches)
        ≡ some (if undecided k b then mark b else b) =
      find-update (λ x. text_eq x.id j) (undecided k) mark db.batches
        (λ x. ap (λ i. text_eq i j) (same x))
      ∙ (rw found refl) in
    elim (Bool-cases (undecided k b)) [
      | inl e ↦ (mark b, rw e at seen, matures b (ground arith))
      | inr e ↦ (b, rw e at seen, Matures-refl b)
    ]

-- The requests that decide.
pub data Decision : Type 0 where
  -- the operator, the batch, the address
  approval : Text → Text → Option Text → Decision
  -- the operator, the batch, the reason, the address
  rejection : Text → Text → Option Text → Option Text → Decision
  -- the event and the charge
  payment : Text → Text → Decision

abbrev pub serve : (ℕ → Db → Db) → Decision → Db → Db
serve gap (approval admin k ip) db = (approve gap admin k ip db).1
serve gap (rejection admin k reason ip) db = (reject gap admin k reason ip db).1
serve gap (payment event charge) db = handle_pix_payment_webhook gap event charge db

find_or_throw_state : (k : Text) (db : Db) → (find_or_throw k db).1 ≡ db
unfolding find_or_throw
find_or_throw_state k db = elim (Option-cases (find_batch k db)) [
  | inl e ↦ rw (find_or_throw, e) refl
  | inr (b, e) ↦ rw (find_or_throw, e) refl
]

approved-Matures :
    (admin : Text) (b : CoinBatch) → is_pending b.status ≡ true → Matures b (mark_approved admin b)
approved-Matures admin b h = (refl, refl, refl, refl, refl, refl, λ e. absurd (cc))

rejected-Matures :
    (admin : Text) (reason : Option Text) (b : CoinBatch)
    → is_pending b.status ≡ true
    → Matures b (mark_rejected admin reason b)
rejected-Matures admin reason b h = (refl, refl, refl, refl, refl, refl, λ e. absurd (cc))

paid-Matures : (b : CoinBatch) → is_pending b.status ≡ true → Matures b (mark_paid b)
paid-Matures b h = (refl, refl, refl, refl, refl, refl, λ e. absurd (cc))

module _ (gap : ℕ → Db → Db) (gaps : (n : ℕ) → IsSettling (gap n)) where
  decide-Settles :
      (k : Text) (mark : CoinBatch → CoinBatch) (entry : BatchAudit) (db : Db)
      → ((b : CoinBatch) → (mark b).id ≡ b.id)
      → ((b : CoinBatch) → is_pending b.status ≡ true → Matures b (mark b))
      → Settles db (decide gap k mark entry (gap 0 db)).1
  unfolding decide
  decide-Settles k mark entry db same matures =
      let now : Db = gap 0 db in
      let changed : Db = record now { batches = update_where (undecided k) mark now.batches } in
      let first =
        Settles-trans db now changed (gaps 0 db) (Settles-update k mark now same matures) in
      elim (Bool-cases (count_where (undecided k) now.batches == 1)) [
        | inl e ↦
            let logged = log entry (gap 1 changed) in
            rw (decide, e, find_or_throw_state)
              (Settles-trans db logged (gap 2 logged)
                (Settles-trans db changed (gap 1 changed) first (gaps 1 changed)) (gaps 2 logged))
        | inr e ↦
            rw (decide, e, find_or_throw_state)
              (Settles-trans db changed (gap 2 changed) first (gaps 2 changed))
      ]

  approve-Settles :
      (admin k : Text) (ip : Option Text) (db : Db) → Settles db (approve gap admin k ip db).1
  unfolding approve
  approve-Settles admin k ip db = elim (Option-cases (find_batch k db)) [
    | inl e ↦ rw (approve, e) (Settles-refl db)
    | inr (b, e) ↦ elim (Bool-cases (is_paid b.status)) [
      | inl e1 ↦ rw (approve, e, e1) (Settles-refl db)
      | inr e1 ↦ elim (Bool-cases (is_pending b.status)) [
        | inl e2 ↦
            rw (approve, e, e1, e2)
              (decide-Settles k (mark_approved admin) _ db (λ _. refl) (approved-Matures admin))
        | inr e2 ↦ rw (approve, e, e1, e2) (Settles-refl db)
      ]
    ]
  ]

  reject-Settles :
      (admin k : Text) (reason ip : Option Text) (db : Db)
      → Settles db (reject gap admin k reason ip db).1
  unfolding reject
  reject-Settles admin k reason ip db = elim (Option-cases (find_batch k db)) [
    | inl e ↦ rw (reject, e) (Settles-refl db)
    | inr (b, e) ↦ elim (Bool-cases (is_rejected b.status)) [
      | inl e1 ↦ rw (reject, e, e1) (Settles-refl db)
      | inr e1 ↦ elim (Bool-cases (is_pending b.status)) [
        | inl e2 ↦
            rw (reject, e, e1, e2)
              (decide-Settles k (mark_rejected admin reason) _ db (λ _. refl)
                (rejected-Matures admin reason))
        | inr e2 ↦ rw (reject, e, e1, e2) (Settles-refl db)
      ]
    ]
  ]

  webhook-Settles :
      (event charge : Text) (db : Db) → Settles db (handle_pix_payment_webhook gap event charge db)
  unfolding handle_pix_payment_webhook confirm_payment
  webhook-Settles event charge db = elim (Bool-cases (text_eq event pix_paid_event)) [
    | inr e ↦ rw (handle_pix_payment_webhook, e) (Settles-refl db)
    | inl e ↦ elim (Option-cases (find_charge charge db)) [
      | inl e1 ↦ rw (handle_pix_payment_webhook, e, e1) (Settles-refl db)
      | inr (b, e1) ↦
          let later : Settles (gap 0 db) (record (gap 0 db) {
            batches = update_where (undecided b.id) mark_paid (gap 0 db).batches;
          }) =
            Settles-update b.id mark_paid (gap 0 db) (λ _. refl) paid-Matures in
          elim (Bool-cases (count_where (undecided b.id) (gap 0 db).batches == 0)) [
            | inl e2 ↦ rw (handle_pix_payment_webhook, e, e1, confirm_payment, e2) (gaps 0 db)
            | inr e2 ↦
                rw (handle_pix_payment_webhook, e, e1, confirm_payment, e2)
                  (Settles-trans db (gap 0 db)
                    (record (gap 0 db) {
                      batches = update_where (undecided b.id) mark_paid (gap 0 db).batches;
                    })
                    (gaps 0 db) later)
          ]
    ]
  ]

-- Whatever others do between the statements of a decision, every batch keeps its terms, and its status
-- once it is no longer pending.
pub serve-Settles :
    (gap : ℕ → Db → Db) (d : Decision) (db : Db)
    → ((n : ℕ) → IsSettling (gap n))
    → Settles db (serve gap d db)
serve-Settles gap (approval admin k ip) db gaps = approve-Settles gap gaps admin k ip db
serve-Settles gap (rejection admin k reason ip) db gaps =
    reject-Settles gap gaps admin k reason ip db
serve-Settles gap (payment event charge) db gaps = webhook-Settles gap gaps event charge db
