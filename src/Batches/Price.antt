-- ===== src/Batches/Price.antt =====
-- What a new batch costs, and what a repeated request gets.
use native.Mathlib.Nat.{div-add-mod, mod-lt}
use mrcoin.Base.{
  ℕ, ◌+◌, ◌*◌, ◌≤◌, ◌<◌, ◌≡◌, refl, sym, subst, ap, ◌∙◌, inl, inr, true, false, ◌∷◌, Option, none,
  some, arith, Bool-cases, Option-cases, ltb,
}
use mrcoin.Base.Int.{pos, eq_ℤ}
use mrcoin.Base.Text.{Text, text_eq, text_eq_refl}
use mrcoin.Base.Table.{find_where}
use mrcoin.Db.{
  Db, CoinBatch, BatchStatus, ConversionRate, Platform, Result, ok, err, and_then_ok,
  answer-injective, Result-cases,
}
use mrcoin.Batches.Billing.{AsaasClient}
use mrcoin.Batches.{
  CreateBatchInput, CreateBatchResult, PixInfo, BatchConfig, min_batch_price_in_cents,
  get_current_rate, round_div, price_in_cents, find_by_key, start_payment, new_batch, refused,
  insert_batch, write_batch, asaas, manual, pix_for, replay_existing, create_new,
  create_pending_batch,
}

-- Rounding is off by half a divisor at most.
pub round_div_bounds :
    (n d : ℕ)
    → 0 < d
    → (2 * (round_div n d * d) ≤ 2 * n + d) × (2 * n < 2 * (round_div n d * d) + d)
unfolding round_div
round_div_bounds n d h =
    let whole = div-add-mod (2 * n + d) (2 * d) in
    let part = mod-lt (2 * n + d) {m = 2 * d} (omega arith) in (grind arith, grind arith)

module _ (p : Platform) (client : AsaasClient) (config : BatchConfig) (gap : Db → Db)
    (organization_id key : Text) (input : CreateBatchInput) where
  -- The row that is written, at a price.
  abbrev pub row : ℕ → ℕ → Option Text → Db → CoinBatch
  row expires_at price charge db =
      new_batch p client config gap organization_id input key expires_at price charge (gap db).ticks

  write_batch_ok :
      (expires_at price : ℕ) (paid : Option Text × PixInfo) (db db' : Db) (r : CreateBatchResult)
      → write_batch p client config gap organization_id input key expires_at price paid db
        ≡ (ok r, db')
      → (record { batch = row expires_at price paid.0 db; pix = paid.1 } ≡ r)
        × (record (gap db) {
          batches = row expires_at price paid.0 db ∷ (gap db).batches;
          ticks = (gap db).ticks + 1;
        }
            ≡ db')
  unfolding write_batch insert_batch
  write_batch_ok expires_at price paid db db' r h =
      let b : CoinBatch = row expires_at price paid.0 db in
      elim (Option-cases (refused p client config gap b (gap db).batches)) [
        | inl e ↦ answer-injective _ r _ db' (rw (write_batch, insert_batch, e) at h)
        | inr (column, e) ↦
            absurd (let bad = ap (λ x. x.0) (rw (write_batch, insert_batch, e) at h) in cc)
      ]

  -- The parts of a purchase that succeeds, for which no row was found.
  create_new_ok :
      (db db' : Db) (r : CreateBatchResult) (rate : ConversionRate)
      → find_by_key key db ≡ none
      → get_current_rate organization_id db ≡ ok rate
      → create_pending_batch p client config gap organization_id input key db ≡ (ok r, db')
      → (paid : Option Text × PixInfo) × (mid : Db) × (ltb
            (price_in_cents input.total_coins rate.coins_per_real_scaled)
            min_batch_price_in_cents
          ≡ false)
        × (start_payment p client config gap organization_id
              (price_in_cents input.total_coins rate.coins_per_real_scaled)
              key
              db
            ≡ (ok paid, mid))
        × (write_batch p client config gap organization_id input key
              (config.add_months (p.now db.ticks) input.validity_months)
              (price_in_cents input.total_coins rate.coins_per_real_scaled)
              paid
              mid
            ≡ (ok r, db'))
  unfolding create_pending_batch create_new
  create_new_ok db db' r rate fresh current h =
      let price : ℕ = price_in_cents input.total_coins rate.coins_per_real_scaled in
      let expires_at : ℕ = config.add_months (p.now db.ticks) input.validity_months in
      elim (Bool-cases (ltb price min_batch_price_in_cents)) [
        | inl e ↦ absurd (
            let bad =
              ap (λ x. x.0) (rw (create_pending_batch, create_new, fresh, current, e) at h) in
            cc)
        | inr e ↦
            let (paid, mid, started, written) =
              and_then_ok (start_payment p client config gap organization_id price key db)
                (write_batch p client config gap organization_id input key expires_at price) r db'
                (rw (create_pending_batch, create_new, fresh, current, e) at h) in
            (paid, mid, e, started, written)
      ]

-- A new batch is pending, holds all its coins, costs the coins at the current rate rounded to the
-- nearest cent, and at least the minimum.
pub create_pending_batch_priced :
    (p : Platform) (client : AsaasClient) (config : BatchConfig) (gap : Db → Db)
    (organization_id key : Text) (input : CreateBatchInput) (db db' : Db) (r : CreateBatchResult)
    (rate : ConversionRate)
    → find_by_key key db ≡ none
    → get_current_rate organization_id db ≡ ok rate
    → 0 < rate.coins_per_real_scaled
    → create_pending_batch p client config gap organization_id input key db ≡ (ok r, db')
    → (r.batch.status ≡ BatchStatus.pending)
      × (r.batch.total_coins ≡ pos input.total_coins)
      × (r.batch.remaining_coins ≡ pos input.total_coins)
      × (500 ≤ r.batch.price_in_cents)
      × (2 * (r.batch.price_in_cents * rate.coins_per_real_scaled)
          ≤ 2 * (input.total_coins * 10000) + rate.coins_per_real_scaled)
      × (2 * (input.total_coins * 10000)
          < 2 * (r.batch.price_in_cents * rate.coins_per_real_scaled) + rate.coins_per_real_scaled)
unfolding price_in_cents
create_pending_batch_priced p client config gap organization_id key input db db' r rate fresh
      current rated h =
    let (paid, mid, enough, _, written) =
      create_new_ok p client config gap organization_id key input db db' r rate fresh current h in
    let price : ℕ = price_in_cents input.total_coins rate.coins_per_real_scaled in
    let (same, _) =
      write_batch_ok p client config gap organization_id key input _ price paid mid db' r written in
    let (low, high) =
      round_div_bounds (input.total_coins * 10000) rate.coins_per_real_scaled rated in
    let costs : r.batch.price_in_cents ≡ price = sym (ap (λ x. x.batch.price_in_cents) same) in
    (
      sym (ap (λ x. x.batch.status) same),
      sym (ap (λ x. x.batch.total_coins) same),
      sym (ap (λ x. x.batch.remaining_coins) same),
      (let bound : 500 ≤ price = ground arith in rw costs bound),
      rw costs low,
      rw costs high,
    )

-- The batch of a key that was just written is the one that is found.
row_found :
    (b : CoinBatch) (key : Text) (db : Db) (n : ℕ)
    → b.idempotency_key ≡ some key
    → find_by_key key (record db { batches = b ∷ db.batches; ticks = n }) ≡ some b
unfolding find_where
row_found b key db n keyed = rw (keyed, text_eq_refl key) refl

-- The answer to a repeated request: the batch, and the way to pay that fits it. Where the batch has a
-- charge, the provider is asked for its QR code, and its failure is the answer.
unfoldable pub answer_by :
    AsaasClient → BatchConfig → CoinBatch → Option Text → Result CreateBatchResult
answer_by client config b none =
    ok (record { batch = b; pix = manual config.mrcoin_pix_key b.price_in_cents })
answer_by client config b (some charge) = elim (client.get_pix_qr_code charge) [
  | err e ↦ err e
  | ok qr ↦ ok (record { batch = b; pix = asaas qr })
]

abbrev pub answer_again : AsaasClient → BatchConfig → CoinBatch → Result CreateBatchResult
answer_again client config b = answer_by client config b b.psp_charge_id

module _ (p : Platform) (client : AsaasClient) (config : BatchConfig) (gap : Db → Db)
    (b : CoinBatch) where
  abbrev with_pix : Result PixInfo → Result CreateBatchResult
  with_pix (err e) = err e
  with_pix (ok pix) = ok (record { batch = b; pix = pix })

  shown :
      (o : Option Text)
      → with_pix (pix_for p client config gap o b.price_in_cents) ≡ answer_by client config b o
  unfolding pix_for answer_by
  shown none = refl
  shown (some charge) = elim (Result-cases (client.get_pix_qr_code charge)) [
    | inl (qr, f) ↦ rw (pix_for, answer_by, f) refl
    | inr (x, f) ↦ rw (pix_for, answer_by, f) refl
  ]

  replayed :
      (organization_id key : Text) (input : CreateBatchInput)
      → text_eq b.organization_id organization_id ≡ true
      → eq_ℤ b.total_coins (pos input.total_coins) ≡ true
      → replay_existing p client config gap b organization_id input key
        ≡ answer_again client config b
  unfolding replay_existing
  replayed organization_id key input org coins =
      elim (Result-cases (pix_for p client config gap b.psp_charge_id b.price_in_cents)) [
        | inl (pix, e) ↦
            rw (replay_existing, org, coins, e) (ap with_pix (sym e) ∙ shown b.psp_charge_id)
        | inr (x, e) ↦
            rw (replay_existing, org, coins, e) (ap with_pix (sym e) ∙ shown b.psp_charge_id)
      ]

-- A purchase that made a batch, repeated with its key, whatever others committed during the first
-- one, and whatever the setting and the provider have become: it makes no second batch and writes
-- nothing. It gives the same batch, with the present key to pay to by hand where it has no charge, and
-- else with what the provider now gives as the charge's QR code, or the provider's failure.
pub create_pending_batch_twice :
    (p : Platform) (client client' : AsaasClient) (config config' : BatchConfig)
    (gap gap' : Db → Db) (organization_id key : Text) (input : CreateBatchInput) (db db' : Db)
    (r : CreateBatchResult) (rate : ConversionRate)
    → find_by_key key db ≡ none
    → get_current_rate organization_id db ≡ ok rate
    → create_pending_batch p client config gap organization_id input key db ≡ (ok r, db')
    → create_pending_batch p client' config' gap' organization_id input key db'
      ≡ (answer_again client' config' r.batch, db')
unfolding create_pending_batch
create_pending_batch_twice p client client' config config' gap gap' organization_id key input db db'
      r rate fresh current h =
    let price : ℕ = price_in_cents input.total_coins rate.coins_per_real_scaled in
    let expires_at : ℕ = config.add_months (p.now db.ticks) input.validity_months in
    let (paid, mid, _, started, written) =
      create_new_ok p client config gap organization_id key input db db' r rate fresh current h in
    let b : CoinBatch =
      row p client config gap organization_id key input expires_at price paid.0 mid in
    let (result, state) =
      write_batch_ok p client config gap organization_id key input expires_at price paid mid db' r
        written in
    let found : find_by_key key db' ≡ some b =
      subst (λ d. find_by_key key d ≡ some b) state
        (row_found b key (gap mid) ((gap mid).ticks + 1) refl) in
    let same_coins : eq_ℤ (pos input.total_coins) (pos input.total_coins) ≡ true = ground arith in
    rw (create_pending_batch, found)
      (ap (λ x. (x, db'))
        (replayed p client' config' gap' b organization_id key input (text_eq_refl organization_id)
            same_coins
          ∙ ap (λ x. answer_again client' config' x.batch) result))
