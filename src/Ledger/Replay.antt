-- ===== src/Ledger/Replay.antt =====
-- Idempotency of `post`: what a key that was used before gives.
use mrcoin.Base.{
  ℕ, suc, zero, ◌≡◌, refl, inl, inr, true, ◌∷◌, some, arith, Bool-cases, Option-cases,
}
use mrcoin.Base.Int.{ℤ, eq_ℤ_iff}
use mrcoin.Base.Text.{text_eq_refl}
use mrcoin.Base.Table.{find_where}
use mrcoin.Db.{
  Db, Wallet, LedgerEntry, LedgerEntryType, LedgerReferenceType, Platform, Result, ok, err, Tx,
  type_eq, reference_eq,
}
use mrcoin.Ledger.Entry.{EntryCoreInput, find_entry, read_wallet, write_entry, new_entry}
use mrcoin.Ledger.Service.{
  with_gap, replay_matches, replay_entry, replay_stored, attempt_entry, execute_with_retry, execute,
}
use mrcoin.Ledger.Write.{write_ok}
use mrcoin.Ledger.Outcome.{settle_cases, execute_new, execute_stored}

-- What a request that succeeded has left for its replay.
abbrev pub IsReplayable : EntryCoreInput → Result LedgerEntry × Db → Type 0
IsReplayable i (ok e, db) =
    (find_entry i.idempotency_key db.entries ≡ some e) × (replay_matches e i ≡ true)
IsReplayable i (err _, db) = Unit

type_eq_refl : (t : LedgerEntryType) → type_eq t t ≡ true
unfolding type_eq
type_eq_refl t = ground arith

reference_eq_refl : (t : LedgerReferenceType) → reference_eq t t ≡ true
unfolding reference_eq
reference_eq_refl t = ground arith

new_entry-matches :
    (p : Platform) (i : EntryCoreInput) (b : ℤ) (db : Db)
    → replay_matches (new_entry p i b db) i ≡ true
unfolding replay_matches new_entry
new_entry-matches p i b db =
    simp (text_eq_refl, type_eq_refl, reference_eq_refl, (eq_ℤ_iff i.amount i.amount).1 refl)

new_entry-found :
    (p : Platform) (i : EntryCoreInput) (b : ℤ) (db : Db)
    → find_entry i.idempotency_key (new_entry p i b db ∷ db.entries) ≡ some (new_entry p i b db)
unfolding find_entry find_where new_entry
new_entry-found p i b db = rw (text_eq_refl i.idempotency_key)

written-IsReplayable :
    (p : Platform) (i : EntryCoreInput) (w : Wallet) (b : ℤ) (db : Db) (e : LedgerEntry) (db' : Db)
    → write_entry p i w b db ≡ ok (e, db')
    → IsReplayable i (ok e, db')
written-IsReplayable p i w b db e db' h =
    let (_, _, entry, state) = write_ok p i w b db e db' h in
    rw (entry, state) (new_entry-found p i b db, new_entry-matches p i b db)

-- A gapped transaction that succeeds has made its writes.
with_gap_ok :
    {X A : Type 0} (gap : Db → Db) (read : Db → Result X) (finish : X → Tx A) (db : Db) (a : A)
    (db' : Db)
    → with_gap gap read finish db ≡ (ok a, db')
    → (x : X) × (read db ≡ ok x) × (finish x (gap db) ≡ ok (a, db'))
unfolding with_gap
with_gap_ok {X} {A} gap read finish db a db' h = go (read db) refl
  where
    writes :
        (x : X) (r : Result (A × Db))
        → read db ≡ ok x
        → finish x (gap db) ≡ r
        → (x' : X) × (read db ≡ ok x') × (finish x' (gap db) ≡ ok (a, db'))
    writes x (err e) k j = absurd (ground arith)
    writes x (ok (a', now)) k j = (x, k, ground arith)

    go :
        (r : Result X)
        → read db ≡ r
        → (x : X) × (read db ≡ ok x) × (finish x (gap db) ≡ ok (a, db'))
    go (err e) k = absurd (ground arith)
    go (ok x) k = writes x (finish x (gap db)) k refl

attempt_entry-IsReplayable :
    (p : Platform) (gap : Db → Db) (i : EntryCoreInput) (db : Db) (e : LedgerEntry) (now : Db)
    → attempt_entry p gap i db ≡ (ok e, now)
    → IsReplayable i (ok e, now)
attempt_entry-IsReplayable p gap i db e now h =
    let (x, _, done) =
      with_gap_ok gap (read_wallet i) (λ (w, b). write_entry p i w b) db e now
        (unfold attempt_entry in h) in
    written-IsReplayable p i x.0 x.1 (gap db) e now done

replay_stored-IsReplayable :
    (p : Platform) (i : EntryCoreInput) (db : Db) → IsReplayable i (replay_stored p i db)
unfolding replay_stored replay_entry
replay_stored-IsReplayable p i db = elim (Option-cases (find_entry i.idempotency_key db.entries)) [
  | inl e ↦ rw (e, replay_stored) tt
  | inr (r, e) ↦ elim (Bool-cases (replay_matches r i)) [
    | inl m ↦ rw (e, replay_stored, m) (e, m)
    | inr m ↦ rw (e, replay_stored, m) tt
  ]
]

module _ (p : Platform) (gaps : ℕ → Db → Db) (i : EntryCoreInput) where
  retry-IsReplayable :
      (left attempt : ℕ) (db : Db) → IsReplayable i (execute_with_retry p gaps left attempt i db)
  unfolding execute_with_retry
  retry-IsReplayable zero attempt db =
      settle_cases (IsReplayable i) _ (replay_stored p i) (attempt_entry p (gaps attempt) i db)
        (attempt_entry-IsReplayable p (gaps attempt) i db) (λ e now q o. tt) (λ e now q o. tt)
        (λ e now q o. replay_stored-IsReplayable p i now)
  retry-IsReplayable (suc left) attempt db =
      settle_cases (IsReplayable i) (execute_with_retry p gaps left (suc attempt) i)
        (replay_stored p i) (attempt_entry p (gaps attempt) i db)
        (attempt_entry-IsReplayable p (gaps attempt) i db) (λ e now q o. tt)
        (λ e now q o. retry-IsReplayable left (suc attempt) now)
        (λ e now q o. replay_stored-IsReplayable p i now)

  pub execute-IsReplayable : (db : Db) → IsReplayable i (execute p gaps i db)
  unfolding replay_entry
  execute-IsReplayable db = elim (Option-cases (find_entry i.idempotency_key db.entries)) [
    | inl e ↦ rw (execute_new p gaps i db e) (retry-IsReplayable 2 1 db)
    | inr (r, e) ↦ elim (Bool-cases (replay_matches r i)) [
      | inl m ↦ rw (execute_stored p gaps i db r e, m) (e, m)
      | inr m ↦ rw (execute_stored p gaps i db r e, m) tt
    ]
  ]
