-- ===== src/Jobs/HashChain.antt =====
-- src/modules/jobs/hash-chain-verification.service.ts: wallet by wallet, the chain of hashes.
pub mod Detection
use mrcoin.Base.{
  ℕ, suc, ◌+◌, Bool, true, false, not, ◌&&◌, List, [], ◌∷◌, ◌++◌, Option, none, some, length, take,
  arith, if◌then◌else◌,
}
use mrcoin.Base.Text.{Text, text_eq}
use mrcoin.Base.Table.{order_by}
use mrcoin.Db.{Db, Wallet, LedgerEntry, Platform}
use mrcoin.Ledger.Hash.{genesis_hash, compute_entry_hash, payload_of}
use mrcoin.Ledger.Entry.{entries_of, older}
use mrcoin.Jobs.Pages.{for_pages}

pub data HashChainIssueType : Type 0 where
  genesis_mismatch prev_hash_mismatch hash_mismatch : HashChainIssueType

pub record HashChainIssue : Type 0 where
  pub type : HashChainIssueType
  pub wallet_id : Text
  pub entry_id : Text
  pub expected : Text
  pub actual : Text

-- The variables of `verifyWalletChain`.
pub record ChainState : Type 0 where
  pub issues : List HashChainIssue
  pub expected_prev_hash : Text
  pub is_first_entry : Bool

-- `if (bad) issues.push(issue)`
abbrev pub issue_if : Bool → HashChainIssue → List HashChainIssue
issue_if true i = i ∷ []
issue_if false i = []

abbrev pub ledger_entry_page_size : ℕ
ledger_entry_page_size = 200

module _ (p : Platform) (wallet_id : Text) where
  -- What the body of the loop over entries finds at one entry.
  unfoldable pub entry_issues : Bool → Text → LedgerEntry → List HashChainIssue
  entry_issues is_first expected e =
      let recomputed = compute_entry_hash p e.prev_hash (payload_of e) in
      issue_if (is_first && not (text_eq e.prev_hash genesis_hash)) (record {
        type = genesis_mismatch;
        wallet_id = wallet_id;
        entry_id = e.id;
        expected = genesis_hash;
        actual = e.prev_hash;
      })
      ++ issue_if (not (text_eq e.prev_hash expected)) (record {
        type = prev_hash_mismatch;
        wallet_id = wallet_id;
        entry_id = e.id;
        expected = expected;
        actual = e.prev_hash;
      })
      ++ issue_if (not (text_eq recomputed e.hash)) (record {
        type = hash_mismatch;
        wallet_id = wallet_id;
        entry_id = e.id;
        expected = recomputed;
        actual = e.hash;
      })

  unfoldable pub check_entry : ChainState → LedgerEntry → ChainState
  check_entry s e = record {
    issues = s.issues ++ entry_issues s.is_first_entry s.expected_prev_hash e;
    expected_prev_hash = e.hash;
    is_first_entry = false;
  }

  abbrev pub chain_start : ChainState
  chain_start = record { issues = []; expected_prev_hash = genesis_hash; is_first_entry = true }

  -- The entries in the order of the query.
  abbrev pub queried : Db → List LedgerEntry
  queried db = order_by older (entries_of wallet_id db.entries)

  unfoldable pub verify_wallet_chain : Db → Option (List HashChainIssue)
  verify_wallet_chain db =
      let rows = queried db in
      elim (for_pages (λ e. e.id) check_entry ledger_entry_page_size rows (suc (length rows)) none
        chain_start) [ none ↦ none | some s ↦ some s.issues ]
