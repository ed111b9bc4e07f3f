-- ===== src/Redemptions/Purchase/Once.antt =====
-- A purchase is made once for each key.
use mrcoin.Base.{
  ℕ, zero, suc, ◌+◌, ◌≡◌, refl, subst, ap, inl, inr, Bool, true, ◌∷◌, some, Option-cases,
  Bool-cases,
}
use mrcoin.Base.Text.{Text, text_eq, text_eq_refl, opt_text_eq}
use mrcoin.Base.Table.{find_where}
use mrcoin.Db.{
  Db, Redemption, LedgerEntry, Platform, Result, ok, Column, ok-injective, answer-injective,
  and_then_ok,
}
use mrcoin.Ledger.Service.{post}
use mrcoin.Users.Pin.{Redis}
use mrcoin.Redemptions.Purchase.{
  CreateRedemptionInput, CheckedPurchase, find_by_key, replay_redemption, new_redemption,
  refused_by, raced, on_refusal, write_redemption, find_partner, write_after, debit_input, buy,
  create,
}
use mrcoin.Redemptions.Purchase.Checked.{create_ok}

-- The row stands under its key, and is for the offer.
abbrev Stands : CreateRedemptionInput → Text → Redemption → Db → Type 0
Stands i key r db =
    (find_by_key key db ≡ some r) × (opt_text_eq r.offer_id (some i.offer_id) ≡ true)

replayed :
    (i : CreateRedemptionInput) (key : Text) (x r : Redemption)
    → replay_redemption x i key ≡ ok r
    → (x ≡ r) × (opt_text_eq x.offer_id (some i.offer_id) ≡ true)
unfolding replay_redemption
replayed i key x r h = elim (Bool-cases (opt_text_eq x.offer_id (some i.offer_id))) [
  | inl e ↦ (ok-injective x r (rw (replay_redemption, e) at h), e)
  | inr e ↦ absurd (let bad = rw (replay_redemption, e) at h in cc)
]

replayed-Stands :
    (i : CreateRedemptionInput) (key : Text) (x r : Redemption) (db : Db)
    → find_by_key key db ≡ some x
    → replay_redemption x i key ≡ ok r
    → Stands i key r db
replayed-Stands i key x r db found h =
    let (same, asked) = replayed i key x r h in subst (λ y. Stands i key y db) same (found, asked)

module _ (p : Platform) (draw : ℕ → Text × Text) where
  raced-Stands :
      (i : CreateRedemptionInput) (key : Text) (r : Redemption) (db db' : Db)
      → raced p draw i key db ≡ (ok r, db')
      → Stands i key r db'
  unfolding raced
  raced-Stands i key r db db' h = elim (Option-cases (find_by_key key db)) [
    | inl e ↦ absurd (let bad = ap (λ x. x.0) (rw (raced, e) at h) in cc)
    | inr (x, e) ↦
        let out = rw (raced, e) at h in
        let same : db ≡ db' = ap (λ y. y.1) out in
        subst (Stands i key r) same (replayed-Stands i key x r db e (ap (λ y. y.0) out))
  ]

  refusal-Stands :
      (i : CreateRedemptionInput) (key : Text) (r : Redemption) (db db' : Db) (column : Column)
      (again : Result Redemption × Db)
      → (again ≡ (ok r, db') → Stands i key r db')
      → on_refusal p draw i key column again db ≡ (ok r, db')
      → Stands i key r db'
  refusal-Stands i key r db db' Column.id again next h = raced-Stands i key r db db' h
  refusal-Stands i key r db db' Column.idempotency_key again next h = raced-Stands i key r db db' h
  refusal-Stands i key r db db' Column.pickup_code again next h = next h
  refusal-Stands i key r db db' Column.qr_payload again next h = next h
  refusal-Stands i key r db db' Column.token_hash again next h =
      absurd (let bad = ap (λ x. x.0) h in cc)
  refusal-Stands i key r db db' Column.psp_charge_id again next h =
      absurd (let bad = ap (λ x. x.0) h in cc)

  -- Whichever attempt writes the row, and whoever wrote it.
  write_redemption-Stands :
      (gap : ℕ → Db → Db) (i : CreateRedemptionInput) (c : CheckedPurchase) (entry : LedgerEntry)
      (key : Text) (now left n : ℕ) (r : Redemption) (db db' : Db)
      → text_eq c.offer.id i.offer_id ≡ true
      → write_redemption p draw gap i c entry key now left n db ≡ (ok r, db')
      → Stands i key r db'
  unfolding write_redemption find_where
  write_redemption-Stands gap i c entry key now zero n r db db' asked h =
      absurd (let bad = ap (λ x. x.0) h in cc)
  write_redemption-Stands gap i c entry key now (suc left) n r db db' asked h =
      let here : Db = gap n db in
      let row : Redemption = new_redemption p draw c entry key now n here.ticks in
      let after : Db = record here {
        redemptions = row ∷ here.redemptions;
        ticks = here.ticks + 1;
      } in
      elim (Option-cases (refused_by p draw row here.redemptions)) [
        | inl e ↦
            let (same, state) = answer-injective row r _ db' (rw (write_redemption, e) at h) in
            subst (λ d. Stands i key r d) state
              (subst (λ y. Stands i key y after) same (rw (text_eq_refl key) refl, asked))
        | inr (column, e) ↦
            refusal-Stands i key r here db' column
              (write_redemption p draw gap i c entry key now left (n + 1) here)
              (write_redemption-Stands gap i c entry key now left (n + 1) r here db' asked)
              (rw (write_redemption, e) at h)
      ]

  buy-Stands :
      (gaps gap : ℕ → Db → Db) (i : CreateRedemptionInput) (c : CheckedPurchase) (key : Text)
      (r : Redemption) (db db' : Db)
      → text_eq c.offer.id i.offer_id ≡ true
      → buy p draw gaps gap i c key db ≡ (ok r, db')
      → Stands i key r db'
  unfolding buy
  buy-Stands gaps gap i c key r db db' asked h =
      elim (Option-cases (find_partner p draw c.offer.partner_id db)) [
        | inl e ↦ absurd (let bad = ap (λ x. x.0) (rw (buy, e) at h) in cc)
        | inr (partner, e) ↦
            let (entry, mid, _, written) =
              and_then_ok (post p gaps (debit_input p c key) db) (write_after p draw gap i c key) r
                db' (rw (buy, e) at h) in
            write_redemption-Stands gap i c entry key (p.now mid.ticks) 5 0 r mid db' asked written
      ]

replay_answer :
    (p : Platform) (draw : ℕ → Text × Text) (verify_password : Text → Text → Bool)
    (gaps gap : ℕ → Db → Db) (now : ℕ) (user_id : Text) (i : CreateRedemptionInput) (key : Text)
    (r : Redemption) (s : Db × Redis)
    → Stands i key r s.0
    → create p draw verify_password gaps gap now user_id i key s ≡ (ok r, s)
unfolding create replay_redemption
replay_answer p draw verify_password gaps gap now user_id i key r s stands =
    rw (create, stands.0, replay_redemption, stands.1) refl

-- A purchase that succeeded, repeated with its key for the same offer, gives the same redemption and
-- writes nothing, whatever others committed during the first one.
pub create_redemption_twice :
    (p : Platform) (draw draw' : ℕ → Text × Text) (verify_password : Text → Text → Bool)
    (gaps gap gaps' gap' : ℕ → Db → Db) (redis_now later : ℕ) (user_id key : Text)
    (i : CreateRedemptionInput) (db : Db) (redis : Redis) (r : Redemption) (end : Db × Redis)
    → create p draw verify_password gaps gap redis_now user_id i key (db, redis) ≡ (ok r, end)
    → create p draw' verify_password gaps' gap' later user_id i key end ≡ (ok r, end)
unfolding create
create_redemption_twice p draw draw' verify_password gaps gap gaps' gap' redis_now later user_id key
      i db redis r end h =
    let again : Stands i key r end.0
        → create p draw' verify_password gaps' gap' later user_id i key end ≡ (ok r, end) =
      λ stands. replay_answer p draw' verify_password gaps' gap' later user_id i key r end stands in
    elim (Option-cases (find_by_key key db)) [
      | inl fresh ↦
          let (c, allowed, _, bought) =
            create_ok p draw verify_password gaps gap redis_now user_id key i db redis r end fresh
              h in
          again (buy-Stands p draw gaps gap i c key r db end.0 allowed.asked bought)
      | inr (x, e) ↦
          let out = rw (create, e) at h in
          let same : (db, redis) ≡ end = ap (λ y. y.1) out in
          again (
            subst (λ s. Stands i key r s.0) same
              (replayed-Stands i key x r db e (ap (λ y. y.0) out)))
    ]
