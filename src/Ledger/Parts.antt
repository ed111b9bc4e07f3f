-- ===== src/Ledger/Parts.antt =====
-- What the operations of LedgerService are made of, and the soundness of the ledger through each part.
use mrcoin.Base.{◌≡◌, ◌≢◌, refl, inl, inr, true, false, List, Option, none, some, arith, Bool-cases}
use mrcoin.Base.Int.{ℤ, ◌+ℤ◌, int_laws}
use mrcoin.Base.Text.{Text, text_eq}
use mrcoin.Base.Table.{find_where}
use mrcoin.Db.{
  Db, LedgerEntry, LedgerEntryType, credit, debit, expire, Platform, Result, ok, err, Tx, Action,
  Failure, type_eq,
}
use mrcoin.Ledger.Entry.{EntryCoreInput, entries_of}
use mrcoin.Ledger.Service.{
  PostLedgerEntryInput, ReverseLedgerEntryInput, TransferBetweenWalletsInput, core_of_post,
  core_of_reverse, transfer_debit, transfer_credit, settle, Caught, caught, versions, key, other,
  replay_stored, post_schema_accepts, is_postable, post_delta, with_gap, prepare_reverse,
  replay_transfer,
}
use mrcoin.Ledger.Invariant.{IsSound, IsConsistent, Effect, Extends, IsGap}
use mrcoin.Ledger.Keep.{Keeps, Extends-refl, Extends-trans}

post_delta-Effect :
    (t : LedgerEntryType) (amount b : ℤ)
    → is_postable t ≡ true
    → Effect t amount b (b +ℤ post_delta t amount)
unfolding type_eq
post_delta-Effect credit amount b h = refl
post_delta-Effect debit amount b h = omega int_laws
post_delta-Effect LedgerEntryType.reversal amount b h = cc
post_delta-Effect expire amount b h = omega int_laws

pub accepted_is_postable :
    (i : PostLedgerEntryInput) → post_schema_accepts i ≡ true → is_postable i.type ≡ true
unfolding post_schema_accepts
accepted_is_postable i h = ground arith

pub core_of_post-IsConsistent :
    (i : PostLedgerEntryInput) → is_postable i.type ≡ true → IsConsistent (core_of_post i)
unfolding core_of_post
core_of_post-IsConsistent i h b = post_delta-Effect i.type i.amount b h

core_of_reverse-IsConsistent :
    (o : LedgerEntry) (i : ReverseLedgerEntryInput) → IsConsistent (core_of_reverse o i)
unfolding core_of_reverse
core_of_reverse-IsConsistent o i b = elim (Bool-cases (type_eq o.type credit)) [
  | inl e ↦ rw e (inr (omega int_laws))
  | inr e ↦ rw e (inl refl)
]

pub transfer_debit-IsConsistent :
    (i : TransferBetweenWalletsInput) → IsConsistent (transfer_debit i)
unfolding transfer_debit
transfer_debit-IsConsistent i b = omega int_laws

pub transfer_credit-IsConsistent :
    (i : TransferBetweenWalletsInput) → IsConsistent (transfer_credit i)
unfolding transfer_credit
transfer_credit-IsConsistent i b = refl

module _ {X A : Type 0} (p : Platform) where
  -- A gapped transaction keeps the ledger if its writes do after any growth since its reads.
  pub with_gap-Keeps :
      (gap : Db → Db) (read : Db → Result X) (finish : X → Tx A)
      → IsGap p gap
      → ((db : Db) (x : X)
          → IsSound p db
          → read db ≡ ok x
          → (now : Db) → IsSound p now
          → Extends db now
          → (a : A) (db' : Db) → finish x now ≡ ok (a, db')
          → IsSound p db' × Extends now db')
      → Keeps p (with_gap gap read finish)
  unfolding with_gap entries_of
  with_gap-Keeps gap read finish is_gap writes db sound = go (read db) refl
    where
      after :
          (x : X) (r : Result (A × Db))
          → read db ≡ ok x
          → finish x (gap db) ≡ r
          → IsSound p (with_gap gap read finish db).1 × Extends db (with_gap gap read finish db).1
      after x (err e) k h = rw (k, with_gap, h, with_gap) (is_gap db sound)
      after x (ok (a, db')) k h =
          let (mid, grown) = is_gap db sound in
          let (end, more) = writes db x sound k (gap db) mid grown a db' h in
          rw (k, with_gap, h, with_gap) (end, Extends-trans db (gap db) db' grown more)

      go :
          (r : Result X)
          → read db ≡ r
          → IsSound p (with_gap gap read finish db).1 × Extends db (with_gap gap read finish db).1
      go (err e) k = rw (k, with_gap) (sound, Extends-refl db)
      go (ok x) k = after x (finish x (gap db)) k refl

module _ {A : Type 0} (p : Platform) where
  -- Going on from where a request stopped.
  Keeps-after :
      (m n : Action A) (db : Db)
      → Keeps p n
      → IsSound p (m db).1 × Extends db (m db).1
      → IsSound p (n (m db).1).1 × Extends db (n (m db).1).1
  Keeps-after m n db k (sound, grown) =
      let (end, more) = k (m db).1 sound in
      (end, Extends-trans db (m db).1 (n (m db).1).1 grown more)

  -- The handling of an outcome keeps the ledger if what it goes on with does.
  pub settle-Keeps :
      (again stored m : Action A)
      → Keeps p again
      → Keeps p stored
      → Keeps p m
      → Keeps p (λ db. settle again stored (m db))
  unfolding settle entries_of
  settle-Keeps again stored m h k keep db sound = settled (m db).0 (m db).1 (keep db sound)
    where
      branch :
          (x : Failure) (now : Db) (c : Caught)
          → caught x ≡ c
          → IsSound p now × Extends db now
          → IsSound p (settle again stored (err x, now)).1
            × Extends db (settle again stored (err x, now)).1
      branch x now versions e s = rw (e, settle) (Keeps-after (λ _. (err x, now)) again db h s)
      branch x now key e s = rw (e, settle) (Keeps-after (λ _. (err x, now)) stored db k s)
      branch x now other e s = rw (e, settle) s

      settled :
          (r : Result A) (now : Db)
          → IsSound p now × Extends db now
          → IsSound p (settle again stored (r, now)).1 × Extends db (settle again stored (r, now)).1
      settled (ok a) now s = s
      settled (err x) now s = branch x now (caught x) refl s

not_reversal :
    (t : LedgerEntryType)
    → type_eq t LedgerEntryType.reversal ≡ false
    → t ≢ LedgerEntryType.reversal
unfolding type_eq
not_reversal t h e = ground arith

find_by_id : Text → List LedgerEntry → Option LedgerEntry
find_by_id k = find_where λ e. text_eq e.id k

-- A reversal that goes ahead has found an entry that is no reversal.
prepare_reverse_ok :
    (i : ReverseLedgerEntryInput) (db : Db) (core : EntryCoreInput)
    → prepare_reverse i db ≡ ok core
    → (o : LedgerEntry) × (find_by_id i.entry_id db.entries ≡ some o)
      × (o.type ≢ LedgerEntryType.reversal)
      × (core ≡ core_of_reverse o i)
unfolding prepare_reverse find_by_id
prepare_reverse_ok i db core h = go (find_by_id i.entry_id db.entries) refl
  where
    go :
        (r : Option LedgerEntry)
        → find_by_id i.entry_id db.entries ≡ r
        → (o : LedgerEntry) × (find_by_id i.entry_id db.entries ≡ some o)
          × (o.type ≢ LedgerEntryType.reversal)
          × (core ≡ core_of_reverse o i)
    go none e = absurd (ground arith)
    go (some o) e = elim (Bool-cases (type_eq o.type LedgerEntryType.reversal)) [
      | inl t ↦ absurd (ground arith)
      | inr t ↦ (o, e, not_reversal o.type t, ground arith)
    ]

pub prepare_reverse-IsConsistent :
    (i : ReverseLedgerEntryInput) (db : Db) (core : EntryCoreInput)
    → prepare_reverse i db ≡ ok core
    → IsConsistent core
prepare_reverse-IsConsistent i db core h =
    let (o, _, _, e) = prepare_reverse_ok i db core h in rw e (core_of_reverse-IsConsistent o i)

-- A request that ends in the state it began in.
pub same_Keeps :
    (p : Platform) (db now : Db) → now ≡ db → IsSound p db → IsSound p now × Extends db now
same_Keeps p db now e s = rw e (s, Extends-refl db)

pub replay_stored-Keeps : (p : Platform) (i : EntryCoreInput) → Keeps p (replay_stored p i)
replay_stored-Keeps p i db s = same_Keeps p db (replay_stored p i db).1 same s
  where
    same : (replay_stored p i db).1 ≡ db
    same = unfold replay_stored in (ground arith)

pub replay_transfer-Keeps :
    (p : Platform) (i : TransferBetweenWalletsInput) → Keeps p (replay_transfer p i)
replay_transfer-Keeps p i db s = same_Keeps p db (replay_transfer p i db).1 same s
  where
    same : (replay_transfer p i db).1 ≡ db
    same = unfold replay_transfer in (ground arith)
