-- ===== src/Ledger/Outcome.antt =====
-- What `post` returns and writes, case by case: a new key, a replayed key, too small a balance, and
-- a version conflict in every attempt.
use mrcoin.Base.{ℕ, suc, zero, ◌≡◌, ◌≢◌, refl, inl, inr, true, none, some, arith, Option-cases}
use mrcoin.Base.Int.{ℤ, pos, neg, ◌+ℤ◌, ◌≤ℤ◌, ◌<ℤ◌}
use mrcoin.Base.Text.{Text, text_eq_refl, text_eq→eq}
use mrcoin.Base.Table.{count_where, count-find, find-any}
use mrcoin.Db.{
  Db, Wallet, LedgerEntry, Platform, Failure, Result, ok, err, Tx, Action, version_conflict,
  insufficient_balance, ledger_concurrency,
}
use mrcoin.Ledger.Entry.{
  EntryCoreInput, find_wallet, find_entry, read_wallet, write_entry, execute_entry, new_entry,
  is_at, set_balance,
}
use mrcoin.Ledger.Service.{
  with_gap, settle, Caught, caught, versions, key, other, replay_entry, replay_stored,
  attempt_entry, execute_with_retry, execute,
}
use mrcoin.Ledger.Write.{written, wallet_id_of, find_wallet-update}

-- Nobody else commits anything.
abbrev pub quiet : ℕ → Db → Db
quiet _ db = db

is_at_self : (w : Wallet) → is_at w w ≡ true
is_at_self w = ground (arith, text_eq_refl w.id)

-- A write whose guard passes and whose key is new goes through.
pub write_new :
    (p : Platform) (i : EntryCoreInput) (w : Wallet) (b : ℤ) (db : Db)
    → find_wallet i.wallet_id db.wallets ≡ some w
    → find_entry i.idempotency_key db.entries ≡ none
    → write_entry p i w b db ≡ ok (new_entry p i b db, written p i w b db)
unfolding write_entry find_wallet find_entry
write_new p i w b db found free =
    ground
      (arith, count-find _ (is_at w) db.wallets w found (is_at_self w), find-any _ db.entries free)

-- A write whose guard hits no row is a version conflict.
pub write_conflict :
    (p : Platform) (i : EntryCoreInput) (w : Wallet) (b : ℤ) (db : Db)
    → count_where (is_at w) db.wallets ≡ 0
    → write_entry p i w b db ≡ err version_conflict
unfolding write_entry
write_conflict p i w b db h = ground arith

pub read_enough :
    (i : EntryCoreInput) (w : Wallet) (db : Db)
    → find_wallet i.wallet_id db.wallets ≡ some w
    → pos 0 ≤ℤ w.cached_balance +ℤ i.delta
    → read_wallet i db ≡ ok (w, w.cached_balance +ℤ i.delta)
unfolding read_wallet
read_enough i w db found h = rw (found, read_wallet) (ground arith)

pub read_short :
    (i : EntryCoreInput) (w : Wallet) (db : Db)
    → find_wallet i.wallet_id db.wallets ≡ some w
    → w.cached_balance +ℤ i.delta <ℤ pos 0
    → read_wallet i db ≡ err (insufficient_balance i.wallet_id (neg i.delta) w.cached_balance)
unfolding read_wallet
read_short i w db found h = rw (found, read_wallet) (ground arith)

-- Looking a wallet up in the state that a write leaves.
pub find-written_self :
    (p : Platform) (i : EntryCoreInput) (w : Wallet) (b : ℤ) (k : Text) (db : Db)
    → find_wallet k db.wallets ≡ some w
    → find_wallet k (written p i w b db).wallets ≡ some (set_balance b w)
find-written_self p i w b k db found =
    ground (arith, find_wallet-update k w b db.wallets, is_at_self w)

pub find-written_ne :
    (p : Platform) (i : EntryCoreInput) (w : Wallet) (b : ℤ) (k j : Text) (db : Db)
    → find_wallet k db.wallets ≡ some w
    → j ≢ k
    → find_wallet j (written p i w b db).wallets ≡ find_wallet j db.wallets
find-written_ne p i w b k j db found ne = elim (Option-cases (find_wallet j db.wallets)) [
  | inl e ↦ ground (arith, find_wallet-update j w b db.wallets)
  | inr (r, e) ↦ ground (
    arith,
    find_wallet-update j w b db.wallets,
    wallet_id_of j r db.wallets e,
    wallet_id_of k w db.wallets found,
    text_eq→eq r.id w.id,
    ne,
  )
]

module _ {X A : Type 0} (gap : Db → Db) (read : Db → Result X) (finish : X → Tx A) where
  pub with_gap_unread :
      (db : Db) (e : Failure) → read db ≡ err e → with_gap gap read finish db ≡ (err e, db)
  unfolding with_gap
  with_gap_unread db e h = rw (h, with_gap)

  pub with_gap_undone :
      (db : Db) (x : X) (e : Failure)
      → read db ≡ ok x
      → finish x (gap db) ≡ err e
      → with_gap gap read finish db ≡ (err e, gap db)
  unfolding with_gap
  with_gap_undone db x e h k = rw (h, with_gap, k, with_gap)

  pub with_gap_done :
      (db : Db) (x : X) (a : A) (db' : Db)
      → read db ≡ ok x
      → finish x (gap db) ≡ ok (a, db')
      → with_gap gap read finish db ≡ (ok a, db')
  unfolding with_gap
  with_gap_done db x a db' h k = rw (h, with_gap, k, with_gap)

module _ {A : Type 0} (again stored : Action A) (now : Db) where
  settle_conflict : settle again stored (err version_conflict, now) ≡ again now
  unfolding settle caught
  settle_conflict = refl

  pub settle_ok : (a : A) → settle again stored (ok a, now) ≡ (ok a, now)
  unfolding settle
  settle_ok a = refl

  -- Any other failure ends the request.
  pub settle_other :
      (e : Failure) → caught e ≡ other → settle again stored (err e, now) ≡ (err e, now)
  unfolding settle
  settle_other e h = rw (h, settle)

pub caught_overdraft :
    (k : Text) (asked there : ℤ) → caught (insufficient_balance k asked there) ≡ other
unfolding caught
caught_overdraft k asked there = refl

-- The cases of what follows an attempt.
pub settle_cases {ℓ} :
    {A : Type 0} (P : Result A × Db → Type ℓ) (again stored : Action A) (x : Result A × Db)
    → ((a : A) (now : Db) → x ≡ (ok a, now) → P (ok a, now))
    → ((e : Failure) (now : Db) → x ≡ (err e, now) → caught e ≡ other → P (err e, now))
    → ((e : Failure) (now : Db) → x ≡ (err e, now) → caught e ≡ versions → P (again now))
    → ((e : Failure) (now : Db) → x ≡ (err e, now) → caught e ≡ key → P (stored now))
    → P (settle again stored x)
unfolding settle
settle_cases P again stored (ok a, now) f g h k = f a now refl
settle_cases {A} P again stored (err e, now) f g h k = go (caught e) refl
  where
    go : (c : Caught) → caught e ≡ c → P (settle again stored (err e, now))
    go versions q = rw (q, settle) (h e now refl q)
    go key q = rw (q, settle) (k e now refl q)
    go other q = rw (q, settle) (g e now refl q)

module _ (p : Platform) (gaps : ℕ → Db → Db) (i : EntryCoreInput) where
  pub execute_new :
      (db : Db)
      → find_entry i.idempotency_key db.entries ≡ none
      → execute p gaps i db ≡ execute_with_retry p gaps 2 1 i db
  unfolding execute
  execute_new db h = rw (h, execute)

  pub execute_stored :
      (db : Db) (e : LedgerEntry)
      → find_entry i.idempotency_key db.entries ≡ some e
      → execute p gaps i db ≡ (replay_entry e i, db)
  unfolding execute
  execute_stored db e h = rw (h, execute)

  -- An attempt that goes through ends the request,
  pub retry_done :
      (left attempt : ℕ) (db now : Db) (e : LedgerEntry)
      → attempt_entry p (gaps attempt) i db ≡ (ok e, now)
      → execute_with_retry p gaps left attempt i db ≡ (ok e, now)
  unfolding execute_with_retry
  retry_done zero attempt db now e h = rw h (settle_ok _ (replay_stored p i) now e)
  retry_done (suc left) attempt db now e h =
      rw h (settle_ok (execute_with_retry p gaps left (suc attempt) i) (replay_stored p i) now e)

  -- and so does one that fails for good.
  pub retry_failed :
      (left attempt : ℕ) (db now : Db) (e : Failure)
      → caught e ≡ other
      → attempt_entry p (gaps attempt) i db ≡ (err e, now)
      → execute_with_retry p gaps left attempt i db ≡ (err e, now)
  unfolding execute_with_retry
  retry_failed zero attempt db now e c h = rw h (settle_other _ (replay_stored p i) now e c)
  retry_failed (suc left) attempt db now e c h =
      rw h
        (settle_other (execute_with_retry p gaps left (suc attempt) i) (replay_stored p i) now e c)

  -- One that meets a version conflict is repeated while attempts are left.
  pub retry_again :
      (left attempt : ℕ) (db now : Db)
      → attempt_entry p (gaps attempt) i db ≡ (err version_conflict, now)
      → execute_with_retry p gaps (suc left) attempt i db
        ≡ execute_with_retry p gaps left (suc attempt) i now
  unfolding execute_with_retry
  retry_again left attempt db now h =
      rw h
        (settle_conflict (execute_with_retry p gaps left (suc attempt) i) (replay_stored p i) now)

  pub retry_exhausted :
      (attempt : ℕ) (db now : Db)
      → attempt_entry p (gaps attempt) i db ≡ (err version_conflict, now)
      → execute_with_retry p gaps zero attempt i db
        ≡ (err (ledger_concurrency i.wallet_id attempt), now)
  unfolding execute_with_retry
  retry_exhausted attempt db now h = rw h (settle_conflict _ (replay_stored p i) now)

-- With the wallet's row its own, a transaction posts outright.
pub execute_entry_new :
    (p : Platform) (i : EntryCoreInput) (w : Wallet) (db : Db)
    → find_wallet i.wallet_id db.wallets ≡ some w
    → find_entry i.idempotency_key db.entries ≡ none
    → pos 0 ≤ℤ w.cached_balance +ℤ i.delta
    → let b = w.cached_balance +ℤ i.delta in
      execute_entry p i db ≡ ok (new_entry p i b db, written p i w b db)
unfolding execute_entry
execute_entry_new p i w db found free enough =
    rw (read_enough i w db found enough, execute_entry)
      (write_new p i w (w.cached_balance +ℤ i.delta) db found free)

-- A movement that succeeded was read and written.
pub execute_entry_parts :
    (p : Platform) (i : EntryCoreInput) (db : Db) (e : LedgerEntry) (db' : Db)
    → execute_entry p i db ≡ ok (e, db')
    → (x : Wallet × ℤ) × (read_wallet i db ≡ ok x) × (write_entry p i x.0 x.1 db ≡ ok (e, db'))
unfolding execute_entry
execute_entry_parts p i db e db' h = go (read_wallet i db) refl
  where
    go :
        (r : Result (Wallet × ℤ))
        → read_wallet i db ≡ r
        → (x : Wallet × ℤ) × (read_wallet i db ≡ ok x) × (write_entry p i x.0 x.1 db ≡ ok (e, db'))
    go (err x) k = absurd (ground arith)
    go (ok x) k = (x, k, rw (k, execute_entry) at h)
