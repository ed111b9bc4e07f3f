-- ===== src/Ledger/Posts.antt =====
-- What a caller of `LedgerService.post` can rely on.
use mrcoin.Base.{ℕ, ◌+◌, ◌≡◌, ◌≢◌, refl, sym, true, false, ◌∷◌, none, some, arith, ◌∙◌}
use mrcoin.Base.Int.{pos, neg, ◌+ℤ◌, ◌≤ℤ◌, ◌<ℤ◌}
use mrcoin.Base.Text.{Text}
use mrcoin.Base.Table.{count_where}
use mrcoin.Db.{
  Db, Wallet, LedgerEntry, Platform, ok, err, insufficient_balance, idempotency_conflict,
  ledger_concurrency, version_conflict,
}
use mrcoin.Ledger.Entry.{
  EntryCoreInput, find_wallet, find_entry, read_wallet, write_entry, execute_entry, new_entry,
  is_at, set_balance,
}
use mrcoin.Ledger.Service.{
  PostLedgerEntryInput, core_of_post, post_delta, replay_matches, replay_entry, attempt_entry,
  execute, post, post_in, execute_in, post_schema_accepts,
}
use mrcoin.Ledger.Write.{written, write_ok}
use mrcoin.Ledger.Keep.{read_ok}
use mrcoin.Ledger.Outcome.{
  quiet, write_new, write_conflict, read_enough, read_short, find-written_self, find-written_ne,
  with_gap_unread, with_gap_undone, with_gap_done, execute_new, execute_stored, retry_done,
  caught_overdraft, execute_entry_parts, retry_failed, retry_again, retry_exhausted,
}
use mrcoin.Ledger.Replay.{execute-IsReplayable}

post_accepted :
    (p : Platform) (gaps : ℕ → Db → Db) (i : PostLedgerEntryInput) (db : Db)
    → post_schema_accepts i ≡ true
    → post p gaps i db ≡ execute p gaps (core_of_post i) db
unfolding post
post_accepted p gaps i db h = rw h

module _ (p : Platform) (gap : Db → Db) (i : EntryCoreInput) (db : Db) where
  pub attempt_done :
      (w : Wallet)
      → find_wallet i.wallet_id db.wallets ≡ some w
      → pos 0 ≤ℤ w.cached_balance +ℤ i.delta
      → find_wallet i.wallet_id (gap db).wallets ≡ some w
      → find_entry i.idempotency_key (gap db).entries ≡ none
      → let b = w.cached_balance +ℤ i.delta in
        attempt_entry p gap i db ≡ (ok (new_entry p i b (gap db)), written p i w b (gap db))
  unfolding attempt_entry
  attempt_done w found enough found' free =
      let b = w.cached_balance +ℤ i.delta in
      with_gap_done gap (read_wallet i) (λ (v, c). write_entry p i v c) db (w, b) _ _
        (read_enough i w db found enough) (write_new p i w b (gap db) found' free)

  attempt_short :
      (w : Wallet)
      → find_wallet i.wallet_id db.wallets ≡ some w
      → w.cached_balance +ℤ i.delta <ℤ pos 0
      → attempt_entry p gap i db
        ≡ (err (insufficient_balance i.wallet_id (neg i.delta) w.cached_balance), db)
  unfolding attempt_entry
  attempt_short w found short =
      with_gap_unread gap (read_wallet i) (λ (v, c). write_entry p i v c) db _
        (read_short i w db found short)

  -- The wallet is read with enough on it, and others move it before the update.
  abbrev pub Overtaken : Type 0
  Overtaken =
      (w : Wallet) × (find_wallet i.wallet_id db.wallets ≡ some w)
      × (pos 0 ≤ℤ w.cached_balance +ℤ i.delta)
      × (count_where (is_at w) (gap db).wallets ≡ 0)

  attempt_overtaken : Overtaken → attempt_entry p gap i db ≡ (err version_conflict, gap db)
  unfolding attempt_entry
  attempt_overtaken (w, found, enough, moved) =
      let b = w.cached_balance +ℤ i.delta in
      with_gap_undone gap (read_wallet i) (λ (v, c). write_entry p i v c) db (w, b) _
        (read_enough i w db found enough) (write_conflict p i w b (gap db) moved)

module _ (p : Platform) (i : PostLedgerEntryInput) (accepted : post_schema_accepts i ≡ true) where
  -- An accepted input with a new key, on a wallet that the movement leaves at zero or more, is
  -- posted when nobody interferes: that wallet's balance moves by the delta and its version by one,
  -- a wallet of another id does not change, and one entry is added, with the new balance.
  pub post_moves_coins :
      (db : Db) (w : Wallet) (k : Text)
      → find_entry i.idempotency_key db.entries ≡ none
      → find_wallet i.wallet_id db.wallets ≡ some w
      → pos 0 ≤ℤ w.cached_balance +ℤ post_delta i.type i.amount
      → k ≢ i.wallet_id
      → let b = w.cached_balance +ℤ post_delta i.type i.amount in
        let (r, db') = post p quiet i db in
        (find_wallet i.wallet_id db'.wallets
          ≡ some (record w { cached_balance = b; version = w.version + 1 }))
        × (find_wallet k db'.wallets ≡ find_wallet k db.wallets)
        × ((e : LedgerEntry) × (r ≡ ok e)
            × (db'.entries ≡ e ∷ db.entries)
            × (e.balance_after ≡ b)
            × (e.amount ≡ i.amount)
            × (e.wallet_id ≡ i.wallet_id))
  unfolding core_of_post new_entry
  post_moves_coins db w k free found enough ne =
      let core = core_of_post i in
      let b = w.cached_balance +ℤ post_delta i.type i.amount in
      let done =
        post_accepted p quiet i db accepted
        ∙ execute_new p quiet core db free
        ∙ retry_done p quiet core 2 1 db _ _
            (attempt_done p (λ d. d) core db w found enough found free) in
      rw done (
        find-written_self p core w b i.wallet_id db found,
        find-written_ne p core w b i.wallet_id k db found ne,
        (new_entry p core b db, refl, refl, refl, refl, refl),
      )

  -- An accepted input with a new key that would take the wallet below zero is refused with what was
  -- asked and what is there, and nothing is written, whatever others would commit meanwhile.
  pub post_refuses_overdraft :
      (gaps : ℕ → Db → Db) (db : Db) (w : Wallet)
      → find_entry i.idempotency_key db.entries ≡ none
      → find_wallet i.wallet_id db.wallets ≡ some w
      → w.cached_balance +ℤ post_delta i.type i.amount <ℤ pos 0
      → post p gaps i db ≡ (
        err (insufficient_balance i.wallet_id (neg (post_delta i.type i.amount)) w.cached_balance),
        db,
      )
  unfolding core_of_post
  post_refuses_overdraft gaps db w free found short =
      let core = core_of_post i in
      post_accepted p gaps i db accepted
      ∙ execute_new p gaps core db free
      ∙ retry_failed p gaps core 2 1 db db _ (caught_overdraft i.wallet_id _ _)
          (attempt_short p (gaps 1) core db w found short)

  -- A key that was used with other parameters is refused, and nothing is written.
  pub post_refuses_reused_key :
      (gaps : ℕ → Db → Db) (db : Db) (e : LedgerEntry)
      → find_entry i.idempotency_key db.entries ≡ some e
      → replay_matches e (core_of_post i) ≡ false
      → post p gaps i db ≡ (err (idempotency_conflict i.idempotency_key), db)
  unfolding core_of_post replay_entry
  post_refuses_reused_key gaps db e found differs =
      post_accepted p gaps i db accepted
      ∙ execute_stored p gaps (core_of_post i) db e found
      ∙ (rw differs)

  -- A post that succeeded, whatever others committed meanwhile, gives the same entry when it is
  -- repeated, and the repetition writes nothing.
  pub post_twice :
      (gaps gaps' : ℕ → Db → Db) (db db' : Db) (e : LedgerEntry)
      → post p gaps i db ≡ (ok e, db')
      → post p gaps' i db' ≡ (ok e, db')
  unfolding replay_entry
  post_twice gaps gaps' db db' e h =
      let core = core_of_post i in
      let first : execute p gaps core db ≡ (ok e, db') =
        sym (post_accepted p gaps i db accepted) ∙ h in
      let (found, matches) = rw first at (execute-IsReplayable p gaps core db) in
      post_accepted p gaps' i db' accepted ∙ execute_stored p gaps' core db' e found ∙ (rw matches)

  -- When others move the wallet between the read and the update in each of three attempts, `post`
  -- gives up with the number of attempts, and what is committed is the others' work alone.
  pub post_gives_up :
      (gaps : ℕ → Db → Db) (db : Db)
      → find_entry i.idempotency_key db.entries ≡ none
      → Overtaken p (gaps 1) (core_of_post i) db
      → Overtaken p (gaps 2) (core_of_post i) (gaps 1 db)
      → Overtaken p (gaps 3) (core_of_post i) (gaps 2 (gaps 1 db))
      → post p gaps i db ≡ (err (ledger_concurrency i.wallet_id 3), gaps 3 (gaps 2 (gaps 1 db)))
  unfolding core_of_post
  post_gives_up gaps db free first second third =
      let core = core_of_post i in
      let db1 = gaps 1 db in
      let db2 = gaps 2 db1 in
      post_accepted p gaps i db accepted
      ∙ execute_new p gaps core db free
      ∙ retry_again p gaps core 1 1 db db1 (attempt_overtaken p (gaps 1) core db first)
      ∙ retry_again p gaps core 0 2 db1 db2 (attempt_overtaken p (gaps 2) core db1 second)
      ∙ retry_exhausted p gaps core 3 db2 (gaps 3 db2) (attempt_overtaken p (gaps 3) core db2 third)

  -- Overtaken in two attempts and alone in the third, it is posted on top of the others' work.
  pub post_third_attempt :
      (gaps : ℕ → Db → Db) (db : Db) (w : Wallet)
      → find_entry i.idempotency_key db.entries ≡ none
      → Overtaken p (gaps 1) (core_of_post i) db
      → Overtaken p (gaps 2) (core_of_post i) (gaps 1 db)
      → gaps 3 (gaps 2 (gaps 1 db)) ≡ gaps 2 (gaps 1 db)
      → find_wallet i.wallet_id (gaps 2 (gaps 1 db)).wallets ≡ some w
      → find_entry i.idempotency_key (gaps 2 (gaps 1 db)).entries ≡ none
      → pos 0 ≤ℤ w.cached_balance +ℤ post_delta i.type i.amount
      → let b = w.cached_balance +ℤ post_delta i.type i.amount in
        let now = gaps 2 (gaps 1 db) in
        post p gaps i db
        ≡ (ok (new_entry p (core_of_post i) b now), written p (core_of_post i) w b now)
  unfolding core_of_post
  post_third_attempt gaps db w free first second alone found new_key enough =
      let core = core_of_post i in
      let db1 = gaps 1 db in
      let db2 = gaps 2 db1 in
      let done =
        attempt_done p (gaps 3) core db2 w found enough (rw alone found) (rw alone new_key) in
      post_accepted p gaps i db accepted
      ∙ execute_new p gaps core db free
      ∙ retry_again p gaps core 1 1 db db1 (attempt_overtaken p (gaps 1) core db first)
      ∙ retry_again p gaps core 0 2 db1 db2 (attempt_overtaken p (gaps 2) core db1 second)
      ∙ retry_done p gaps core 0 3 db2 _ _ done
      ∙ (rw alone)

-- What a `post` in a caller's transaction that succeeded under a new key has done.
pub record Posted (i : PostLedgerEntryInput) (w : Wallet) (e : LedgerEntry) (db db' : Db)
    : Type 0 where
  pub wallet :
      find_wallet i.wallet_id db'.wallets
      ≡ some (set_balance (w.cached_balance +ℤ post_delta i.type i.amount) w)
  pub others : (k : Text) → k ≢ i.wallet_id → find_wallet k db'.wallets ≡ find_wallet k db.wallets
  pub entries : db'.entries ≡ e ∷ db.entries
  pub key : e.idempotency_key ≡ i.idempotency_key
  pub batches : db'.batches ≡ db.batches

pub post_in_ok :
    (p : Platform) (i : PostLedgerEntryInput) (db : Db) (e : LedgerEntry) (db' : Db) (w : Wallet)
    → find_entry i.idempotency_key db.entries ≡ none
    → find_wallet i.wallet_id db.wallets ≡ some w
    → post_in p i db ≡ ok (e, db')
    → Posted i w e db db'
post_in_ok p i db e db' w free found h =
    let core = core_of_post i in
    let accepted : post_schema_accepts i ≡ true = unfold post_in in (ground arith) in
    let executed : execute_in p core db ≡ ok (e, db') =
      unfold post_in in (ground (arith, accepted)) in
    let moved : execute_entry p core db ≡ ok (e, db') =
      unfold execute_in core_of_post in (ground (arith, executed, free)) in
    let ((v, b), was_read, written_ok) = execute_entry_parts p core db e db' moved in
    let (found', after, _) = read_ok core db v b was_read in
    let (_, _, entry, state) = write_ok p core v b db e db' written_ok in
    let same : v ≡ w = unfold core_of_post in (ground (arith, found, found')) in
    let balance : b ≡ w.cached_balance +ℤ post_delta i.type i.amount =
      unfold core_of_post in (rw (after, same)) in
    record {
      wallet =
          rw (state, same, balance)
            (unfold core_of_post in
              (find-written_self p core w (w.cached_balance +ℤ post_delta i.type i.amount)
                i.wallet_id db found));
      others =
          rw (state, same, balance)
            (unfold core_of_post in
              (λ k ne.
                find-written_ne p core w (w.cached_balance +ℤ post_delta i.type i.amount)
                  i.wallet_id k db found ne));
      entries = rw (state, entry);
      key = rw entry (unfold new_entry core_of_post in refl);
      batches = rw state;
    }
