-- ===== src/Ledger/Sound.antt =====
-- The soundness of the ledger through each operation of LedgerService.
use mrcoin.Base.{ℕ, suc, zero, ◌≡◌, refl, sym, ◌∙◌, inl, inr, Option, none, some, arith, Bool-cases}
use mrcoin.Base.Int.{ℤ}
use mrcoin.Db.{Db, Wallet, LedgerEntry, Platform, IsMonotonic, Result, ok, err, Action}
use mrcoin.Ledger.Entry.{
  EntryCoreInput, find_entry, entries_of, read_wallet, write_entry, execute_entry,
}
use mrcoin.Ledger.Service.{
  PostLedgerEntryInput, ReverseLedgerEntryInput, TransferBetweenWalletsInput, core_of_post,
  transfer_debit, transfer_credit, attempt_entry, settle, execute_with_retry, execute, execute_in,
  post, post_in, reverse_entry, replay_stored, replay_entry, post_schema_accepts, prepare_reverse,
  finish_transfer, attempt_transfer, transfer_once, transfer_between_wallets, stored_transfer,
  replay_transfer,
}
use mrcoin.Ledger.Invariant.{IsSound, IsConsistent, Extends, IsGap}
use mrcoin.Ledger.Write.{write-IsSound}
use mrcoin.Ledger.Keep.{
  TxKeeps, Keeps, Extends-refl, Extends-trans, read-IsView, execute_entry-TxKeeps,
}
use mrcoin.Ledger.Parts.{
  accepted_is_postable, core_of_post-IsConsistent, transfer_debit-IsConsistent,
  transfer_credit-IsConsistent, with_gap-Keeps, settle-Keeps, prepare_reverse-IsConsistent,
  same_Keeps, replay_stored-Keeps, replay_transfer-Keeps,
}

module _ (p : Platform) (mono : IsMonotonic p) where
  attempt_entry-Keeps :
      (gap : Db → Db) (i : EntryCoreInput)
      → IsGap p gap
      → IsConsistent i
      → Keeps p (attempt_entry p gap i)
  attempt_entry-Keeps gap i is_gap c =
      let writes =
        λ (db : Db) (x : Wallet × ℤ) (s : IsSound p db) (k : read_wallet i db ≡ ok x) (now : Db)
            (s' : IsSound p now) (grown : Extends db now) (e : LedgerEntry) (db' : Db)
            (h : write_entry p i x.0 x.1 now ≡ ok (e, db')).
          write-IsSound p mono i c x.0 x.1 (entries_of i.wallet_id db.entries)
            (read-IsView p i db x.0 x.1 s k) now s' (grown i.wallet_id).0 (grown i.wallet_id).1 e
            db' h in
      unfold attempt_entry in
      (with_gap-Keeps p gap (read_wallet i) (λ (w, b). write_entry p i w b) is_gap writes)

  execute_with_retry-Keeps :
      (gaps : ℕ → Db → Db) (left attempt : ℕ) (i : EntryCoreInput)
      → ((n : ℕ) → IsGap p (gaps n))
      → IsConsistent i
      → Keeps p (execute_with_retry p gaps left attempt i)
  unfolding execute_with_retry
  execute_with_retry-Keeps gaps zero attempt i is_gap c =
      settle-Keeps p _ (replay_stored p i) (attempt_entry p (gaps attempt) i)
        (λ db s. (s, Extends-refl db)) (replay_stored-Keeps p i)
        (attempt_entry-Keeps (gaps attempt) i (is_gap attempt) c)
  execute_with_retry-Keeps gaps (suc left) attempt i is_gap c =
      settle-Keeps p (execute_with_retry p gaps left (suc attempt) i) (replay_stored p i)
        (attempt_entry p (gaps attempt) i)
        (execute_with_retry-Keeps gaps left (suc attempt) i is_gap c) (replay_stored-Keeps p i)
        (attempt_entry-Keeps (gaps attempt) i (is_gap attempt) c)

  execute-Keeps :
      (gaps : ℕ → Db → Db) (i : EntryCoreInput)
      → ((n : ℕ) → IsGap p (gaps n))
      → IsConsistent i
      → Keeps p (execute p gaps i)
  execute-Keeps gaps i is_gap c db s = go (find_entry i.idempotency_key db.entries) refl
    where
      go :
          (o : Option LedgerEntry)
          → find_entry i.idempotency_key db.entries ≡ o
          → IsSound p (execute p gaps i db).1 × Extends db (execute p gaps i db).1
      go none e =
          let same : execute p gaps i db ≡ execute_with_retry p gaps 2 1 i db =
            unfold execute in (rw (e, execute)) in
          rw same (execute_with_retry-Keeps gaps 2 1 i is_gap c db s)
      go (some r) e =
          same_Keeps p db (execute p gaps i db).1 (unfold execute in (rw (e, execute))) s

  -- `post` keeps the ledger sound, whatever sound work others commit in its gaps, and changes no
  -- entry.
  pub post-Keeps :
      (gaps : ℕ → Db → Db) (i : PostLedgerEntryInput)
      → ((n : ℕ) → IsGap p (gaps n))
      → Keeps p (post p gaps i)
  post-Keeps gaps i is_gap db s = elim (Bool-cases (post_schema_accepts i)) [
    | inl e ↦
        let same : post p gaps i db ≡ execute p gaps (core_of_post i) db = unfold post in (rw e) in
        rw same (
          execute-Keeps gaps (core_of_post i) is_gap
            (core_of_post-IsConsistent i (accepted_is_postable i e)) db s)
    | inr e ↦ same_Keeps p db (post p gaps i db).1 (unfold post in (rw e)) s
  ]

  -- So does `reverse`.
  pub reverse_entry-Keeps :
      (gaps : ℕ → Db → Db) (i : ReverseLedgerEntryInput)
      → ((n : ℕ) → IsGap p (gaps n))
      → Keeps p (reverse_entry p gaps i)
  reverse_entry-Keeps gaps i is_gap db s = go (prepare_reverse i db) refl
    where
      go :
          (r : Result EntryCoreInput)
          → prepare_reverse i db ≡ r
          → IsSound p (reverse_entry p gaps i db).1 × Extends db (reverse_entry p gaps i db).1
      go (err x) e =
          same_Keeps p db (reverse_entry p gaps i db).1
            (unfold reverse_entry in (rw (e, reverse_entry))) s
      go (ok core) e =
          let same : reverse_entry p gaps i db ≡ execute p gaps core db =
            unfold reverse_entry in (rw (e, reverse_entry)) in
          rw same (execute-Keeps gaps core is_gap (prepare_reverse-IsConsistent i db core e) db s)

  finish_transfer-keeps :
      (i : TransferBetweenWalletsInput) (db : Db) (x : Wallet × ℤ)
      → IsSound p db
      → read_wallet (transfer_debit i) db ≡ ok x
      → (now : Db) → IsSound p now
      → Extends db now
      → (a : LedgerEntry × LedgerEntry) (db' : Db) → finish_transfer p i x.0 x.1 now ≡ ok (a, db')
      → IsSound p db' × Extends now db'
  unfolding finish_transfer
  finish_transfer-keeps i db x s k now s' grown a db' h =
      go (write_entry p (transfer_debit i) x.0 x.1 now) refl
    where
      credited :
          (d : LedgerEntry) (mid : Db)
          → IsSound p mid × Extends now mid
          → (r : Result (LedgerEntry × Db)) → execute_entry p (transfer_credit i) mid ≡ r
          → write_entry p (transfer_debit i) x.0 x.1 now ≡ ok (d, mid)
          → IsSound p db' × Extends now db'
      credited d mid m (err y) e w = absurd (ground arith)
      credited d mid m (ok (c, end)) e w =
          let same : end ≡ db' = ground arith in
          let (sound, more) =
            execute_entry-TxKeeps p mono (transfer_credit i) (transfer_credit-IsConsistent i) mid c
              end m.0 e in
          rw (← same) (sound, Extends-trans now mid end m.1 more)

      go :
          (r : Result (LedgerEntry × Db))
          → write_entry p (transfer_debit i) x.0 x.1 now ≡ r
          → IsSound p db' × Extends now db'
      go (err y) e = absurd (ground arith)
      go (ok (d, mid)) e =
          credited d mid
            (write-IsSound p mono (transfer_debit i) (transfer_debit-IsConsistent i) x.0 x.1
              (entries_of (transfer_debit i).wallet_id db.entries)
              (read-IsView p (transfer_debit i) db x.0 x.1 s k) now s'
              (grown (transfer_debit i).wallet_id).0 (grown (transfer_debit i).wallet_id).1 d mid e)
            (execute_entry p (transfer_credit i) mid) refl e

  attempt_transfer-Keeps :
      (gap : Db → Db) (i : TransferBetweenWalletsInput)
      → IsGap p gap
      → Keeps p (attempt_transfer p gap i)
  attempt_transfer-Keeps gap i is_gap =
      unfold attempt_transfer in
      (with_gap-Keeps p gap (read_wallet (transfer_debit i)) (λ (w, b). finish_transfer p i w b)
        is_gap (finish_transfer-keeps i))

  transfer_once-Keeps :
      (again : Action (LedgerEntry × LedgerEntry)) (gap : Db → Db) (i : TransferBetweenWalletsInput)
      → IsGap p gap
      → Keeps p again
      → Keeps p (transfer_once p again gap i)
  transfer_once-Keeps again gap i is_gap h db s = go (stored_transfer p i db) refl
    where
      go :
          (o : Option (LedgerEntry × LedgerEntry))
          → stored_transfer p i db ≡ o
          → IsSound p (transfer_once p again gap i db).1
            × Extends db (transfer_once p again gap i db).1
      go none e =
          let same : transfer_once p again gap i db
              ≡ settle again (replay_transfer p i) (attempt_transfer p gap i db) =
            unfold transfer_once in (rw (e, transfer_once)) in
          rw same (
            settle-Keeps p again (replay_transfer p i) (attempt_transfer p gap i) h
              (replay_transfer-Keeps p i) (attempt_transfer-Keeps gap i is_gap) db s)
      go (some r) e =
          same_Keeps p db (transfer_once p again gap i db).1
            (unfold transfer_once in (rw (e, transfer_once))) s

  -- So does the transfer between two wallets.
  pub transfer_between_wallets-Keeps :
      (gaps : ℕ → Db → Db) (left attempt : ℕ) (i : TransferBetweenWalletsInput)
      → ((n : ℕ) → IsGap p (gaps n))
      → Keeps p (transfer_between_wallets p gaps left attempt i)
  unfolding transfer_between_wallets
  transfer_between_wallets-Keeps gaps zero attempt i is_gap =
      transfer_once-Keeps _ (gaps attempt) i (is_gap attempt) (λ db s. (s, Extends-refl db))
  transfer_between_wallets-Keeps gaps (suc left) attempt i is_gap =
      transfer_once-Keeps (transfer_between_wallets p gaps left (suc attempt) i) (gaps attempt) i
        (is_gap attempt) (transfer_between_wallets-Keeps gaps left (suc attempt) i is_gap)

  execute_in-TxKeeps : (i : EntryCoreInput) → IsConsistent i → TxKeeps p (execute_in p i)
  execute_in-TxKeeps i c db e db' s h = go (find_entry i.idempotency_key db.entries) refl
    where
      go :
          (o : Option LedgerEntry)
          → find_entry i.idempotency_key db.entries ≡ o
          → IsSound p db' × Extends db db'
      go none k =
          let fresh : execute_in p i db ≡ execute_entry p i db =
            unfold execute_in in (rw (k, execute_in)) in
          execute_entry-TxKeeps p mono i c db e db' s (sym fresh ∙ h)
      go (some r) k =
          same_Keeps p db db' (unfold execute_in replay_entry in (ground (arith, h, k))) s

  -- So does `post` in a caller's transaction.
  pub post_in-TxKeeps : (i : PostLedgerEntryInput) → TxKeeps p (post_in p i)
  post_in-TxKeeps i db e db' s h = elim (Bool-cases (post_schema_accepts i)) [
    | inl ok_input ↦
        let same : post_in p i db ≡ execute_in p (core_of_post i) db =
          unfold post_in in (rw ok_input) in
        execute_in-TxKeeps (core_of_post i)
          (core_of_post-IsConsistent i (accepted_is_postable i ok_input)) db e db' s (sym same ∙ h)
    | inr bad ↦ absurd (unfold post_in in (ground arith))
  ]
