-- ===== src/Ledger/Safety.antt =====
-- LedgerService under interference: what its operations leave in the tables.
use mrcoin.Base.{ℕ}
use mrcoin.Db.{Db, Platform, IsMonotonic}
use mrcoin.Ledger.Service.{
  PostLedgerEntryInput, ReverseLedgerEntryInput, TransferBetweenWalletsInput, post, reverse_entry,
  transfer_wallets,
}
use mrcoin.Ledger.Invariant.{IsSound, Extends, IsGap}
use mrcoin.Ledger.Sound.{post-Keeps, reverse_entry-Keeps, transfer_between_wallets-Keeps}

module _ (p : Platform) (mono : IsMonotonic p) (gaps : ℕ → Db → Db) where
  -- However `post` ends, and whatever sound work others commit between its reads and its writes, a
  -- sound ledger stays sound (no balance falls below zero, each cached balance is the last entry's,
  -- each version counts the entries, the hashes are linked, keys are unique), and the entries of
  -- every wallet only grow. The clock must not run backwards.
  pub post-IsSound :
      (i : PostLedgerEntryInput)
      → ((n : ℕ) → IsGap p (gaps n))
      → (db : Db) → IsSound p db
      → IsSound p (post p gaps i db).1 × Extends db (post p gaps i db).1
  post-IsSound i is_gap db s = post-Keeps p mono gaps i is_gap db s

  -- However `reverse` ends, and whatever sound work others commit meanwhile, a sound ledger stays
  -- sound and the entries of every wallet only grow. The clock must not run backwards.
  pub reverse_entry-IsSound :
      (i : ReverseLedgerEntryInput)
      → ((n : ℕ) → IsGap p (gaps n))
      → (db : Db) → IsSound p db
      → IsSound p (reverse_entry p gaps i db).1 × Extends db (reverse_entry p gaps i db).1
  reverse_entry-IsSound i is_gap db s = reverse_entry-Keeps p mono gaps i is_gap db s

  -- However the transfer between two wallets ends, and whatever sound work others commit meanwhile, a
  -- sound ledger stays sound and the entries of every wallet only grow. The clock must not run
  -- backwards.
  pub transfer_wallets-IsSound :
      (i : TransferBetweenWalletsInput)
      → ((n : ℕ) → IsGap p (gaps n))
      → (db : Db) → IsSound p db
      → IsSound p (transfer_wallets p gaps i db).1 × Extends db (transfer_wallets p gaps i db).1
  unfolding transfer_wallets
  transfer_wallets-IsSound i is_gap db s =
      transfer_between_wallets-Keeps p mono gaps 2 1 i is_gap db s
