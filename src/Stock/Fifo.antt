-- ===== src/Stock/Fifo.antt =====
-- What `executeFifoPlan` does to the ledger, the stock and the wallet.
use mrcoin.Base.{◌≡◌, ◌≢◌, inl, inr, false, List, [], ◌∷◌, none, All, arith, Bool-cases, ◌==◌}
use mrcoin.Base.Text.{Text, text_eq}
use mrcoin.Base.Table.{update_where, count_where}
use mrcoin.Db.{Db, CoinBatch, LedgerEntry, Platform, IsMonotonic, ok, bind_ok}
use mrcoin.Ledger.Invariant.{IsSound, Extends}
use mrcoin.Ledger.Service.{post_in}
use mrcoin.Ledger.Entry.{find_entry}
use mrcoin.Ledger.Keep.{TxKeeps, Extends-refl, Extends-trans}
use mrcoin.Ledger.Sound.{post_in-TxKeeps}
use mrcoin.Stock.{
  BatchConsumptionStep, ExecuteFifoPlanParams, covers, decrement, decrement_batch, step_input,
  execute_fifo_plan,
}

-- No two batches share an id.
abbrev pub HasUniqueBatches : List CoinBatch → Type 0
HasUniqueBatches [] = Unit
HasUniqueBatches (b ∷ bs) = All (λ c. text_eq c.id b.id ≡ false) bs × HasUniqueBatches bs

-- The decrement of a batch touches the batches alone.
decrement_ok :
    (org : Text) (s : BatchConsumptionStep) (db : Db) (a : Unit {0}) (db' : Db)
    → decrement_batch org s db ≡ ok (a, db')
    → ((count_where (covers s) db.batches == 0) ≡ false)
      × (db' ≡ record db { batches = update_where (covers s) (decrement s.amount) db.batches })
unfolding decrement_batch
decrement_ok org s db a db' h = elim (Bool-cases (count_where (covers s) db.batches == 0)) [
  | inl e ↦ absurd (ground arith)
  | inr e ↦ (e, ground arith)
]

module _ (p : Platform) (mono : IsMonotonic p) (org : Text) (params : ExecuteFifoPlanParams) where
  -- Executing a plan keeps the ledger sound and changes no entry.
  pub execute_fifo_plan-TxKeeps :
      (plan : List BatchConsumptionStep) → TxKeeps p (execute_fifo_plan p org params plan)
  unfolding execute_fifo_plan
  execute_fifo_plan-TxKeeps [] db es db' s h =
      let same : db' ≡ db = ground arith in rw same (s, Extends-refl db)
  execute_fifo_plan-TxKeeps (t ∷ plan) db es db' s h =
      let (_, db1, took, h1) = bind_ok (decrement_batch org t) _ db es db' h in
      let (e, db2, posted, h2) = bind_ok (post_in p (step_input params t)) _ db1 es db' h1 in
      let (rest, db3, ran, done) = bind_ok (execute_fifo_plan p org params plan) _ db2 es db' h2 in
      let (_, state) = decrement_ok org t db _ db1 took in
      let start : IsSound p db1 = rw state (record {
        stamped = s.stamped;
        unique_ids = s.unique_ids;
        unique_keys = s.unique_keys;
        each = s.each;
      }) in
      let grown : Extends db db1 = rw state (Extends-refl db) in
      let (s2, g2) = post_in-TxKeeps p mono (step_input params t) db1 e db2 start posted in
      let (s3, g3) = execute_fifo_plan-TxKeeps plan db2 rest db3 s2 ran in
      let same : db' ≡ db3 = ground arith in
      rw same (s3, Extends-trans db db1 db3 grown (Extends-trans db1 db2 db3 g2 g3))

module _ (p : Platform) (org : Text) (params : ExecuteFifoPlanParams) where
  -- No step's key was used, and no two steps share one.
  abbrev pub AllNew : List BatchConsumptionStep → List LedgerEntry → Type 0
  AllNew [] entries = Unit
  AllNew (s ∷ r) entries =
      (find_entry (step_input params s).idempotency_key entries ≡ none)
      × All (λ t. (step_input params s).idempotency_key ≢ (step_input params t).idempotency_key) r
      × AllNew r entries
