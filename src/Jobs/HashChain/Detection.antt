-- ===== src/Jobs/HashChain/Detection.antt =====
-- What `verifyWalletChain` finds.
use mathlib.Core.List.{reverse-cons, reverse-reverse}
use mrcoin.Base.{
  ◌≡◌, ◌≢◌, refl, sym, ap, ◌∙◌, ◌↔◌, inl, inr, Bool, true, false, List, [], ◌∷◌, ◌++◌, reverse,
  some, arith, Bool-cases,
}
use mrcoin.Base.Text.{Text, text_eq, text_eq→eq, text_eq_iff}
use mrcoin.Db.{Db, Wallet, LedgerEntry, Platform, IsMonotonic}
use mrcoin.Ledger.Hash.{genesis_hash, compute_entry_hash, payload_of}
use mrcoin.Ledger.Entry.{entries_of, find_wallet}
use mrcoin.Ledger.Invariant.{IsChain, IsSound, last_hash}
use mrcoin.Ledger.Order.{entries_asc}
use mrcoin.Jobs.Pages.{fold_left, fold_left-append, HasPrimaryKey, for_pages_reads_all}
use mrcoin.Jobs.HashChain.{
  HashChainIssue, hash_mismatch, entry_issues, check_entry, chain_start, queried,
  verify_wallet_chain,
}

text_eq_ne : (a b : Text) → a ≢ b → text_eq a b ≡ false
text_eq_ne a b h = elim (Bool-cases (text_eq a b)) [
  | inl e ↦ absurd (h (text_eq→eq a b e))
  | inr e ↦ e
]

abbrev is_empty : List LedgerEntry → Bool
is_empty [] = true
is_empty (_ ∷ _) = false

module _ (p : Platform) (k : Text) where
  -- The issues of a chain, listed latest entry first, in the order in which they are found.
  abbrev pub all_issues : List LedgerEntry → List HashChainIssue
  all_issues [] = []
  all_issues (e ∷ l) = all_issues l ++ entry_issues p k (is_empty l) (last_hash l) e

  fold-all_issues :
      (l : List LedgerEntry)
      → fold_left (check_entry p k) (chain_start p k) (reverse l) ≡ record {
        issues = all_issues l;
        expected_prev_hash = last_hash l;
        is_first_entry = is_empty l;
      }
  unfolding fold_left check_entry
  fold-all_issues [] = refl
  fold-all_issues (e ∷ l) =
      rw
        (
          reverse-cons e l,
          fold_left-append (check_entry p k) (chain_start p k) (reverse l) (e ∷ []),
        )
        (rw (fold-all_issues l))

  -- No issue: the entry is linked and hashed as it should be.
  no_entry_issue :
      (first : Bool) (expected : Text) (e : LedgerEntry)
      → entry_issues p k first expected e ≡ []
      → (e.prev_hash ≡ expected) × (e.hash ≡ compute_entry_hash p e.prev_hash (payload_of e))
  unfolding entry_issues
  no_entry_issue first expected e h =
      let recomputed = compute_entry_hash p e.prev_hash (payload_of e) in
      elim (Bool-cases (text_eq e.prev_hash expected)) [
        | inr t ↦ absurd (ground arith)
        | inl t ↦ elim (Bool-cases (text_eq recomputed e.hash)) [
          | inr u ↦ absurd (ground arith)
          | inl u ↦ (text_eq→eq e.prev_hash expected t, sym (text_eq→eq recomputed e.hash u))
        ]
      ]

  -- And the other way round, where the first entry is held to the genesis hash.
  entry_issues_none :
      (l : List LedgerEntry) (e : LedgerEntry)
      → e.prev_hash ≡ last_hash l
      → e.hash ≡ compute_entry_hash p e.prev_hash (payload_of e)
      → entry_issues p k (is_empty l) (last_hash l) e ≡ []
  unfolding entry_issues
  entry_issues_none [] e linked hashed = rw (
    (text_eq_iff e.prev_hash genesis_hash).1 linked,
    (text_eq_iff (compute_entry_hash p e.prev_hash (payload_of e)) e.hash).1 (sym hashed),
  )
  entry_issues_none (x ∷ l) e linked hashed = rw (
    (text_eq_iff e.prev_hash x.hash).1 linked,
    (text_eq_iff (compute_entry_hash p e.prev_hash (payload_of e)) e.hash).1 (sym hashed),
  )

  append_nil_parts : (xs ys : List HashChainIssue) → xs ++ ys ≡ [] → (xs ≡ []) × (ys ≡ [])
  append_nil_parts [] ys h = (refl, h)
  append_nil_parts (x ∷ xs) ys h = absurd (ground arith)

  IsChain-all_issues : (l : List LedgerEntry) → IsChain p l → all_issues l ≡ []
  IsChain-all_issues [] c = refl
  IsChain-all_issues (e ∷ l) (linked, hashed, c) =
      rw (IsChain-all_issues l c) (entry_issues_none l e linked hashed)

  all_issues-IsChain : (l : List LedgerEntry) → all_issues l ≡ [] → IsChain p l
  all_issues-IsChain [] h = tt
  all_issues-IsChain (e ∷ l) h =
      let (before, now) = append_nil_parts (all_issues l) _ h in
      let (linked, hashed) = no_entry_issue (is_empty l) (last_hash l) e now in
      (linked, hashed, all_issues-IsChain l before)

  -- The check reads every entry, whatever the number of pages.
  verify-all_issues :
      (db : Db)
      → HasPrimaryKey (λ e. e.id) (queried p k db)
      → verify_wallet_chain p k db ≡ some (all_issues (reverse (queried p k db)))
  unfolding verify_wallet_chain
  verify-all_issues db primary =
      let rows = queried p k db in
      let read =
        for_pages_reads_all (λ e. e.id) rows primary (check_entry p k) 199 (chain_start p k) in
      rw (read, verify_wallet_chain)
        (ap (λ s. some s.issues)
          (ap (fold_left (check_entry p k) (chain_start p k)) (sym (reverse-reverse rows))
            ∙ fold-all_issues (reverse rows)))

  -- The check of a wallet finds nothing exactly when its entries, in the order of the query, are a
  -- chain: each linked to the hash before it, the first to the genesis hash, and each hash that of
  -- the entry's own fields.
  pub verify_wallet_chain_iff :
      (db : Db)
      → HasPrimaryKey (λ e. e.id) (queried p k db)
      → (verify_wallet_chain p k db ≡ some []) ↔ IsChain p (reverse (queried p k db))
  verify_wallet_chain_iff db primary =
      let rows = reverse (queried p k db) in
      (
        (λ h. let same = sym (verify-all_issues db primary) ∙ h in all_issues-IsChain rows (cc)),
        (λ c. verify-all_issues db primary ∙ ap some (IsChain-all_issues rows c)),
      )

  -- No false alarm: in a sound ledger, under a clock that does not run backwards, the check of a
  -- wallet finds nothing.
  pub verify_sound_ledger :
      (db : Db) (w : Wallet)
      → IsMonotonic p
      → IsSound p db
      → HasPrimaryKey (λ e. e.id) (queried p k db)
      → find_wallet k db.wallets ≡ some w
      → verify_wallet_chain p k db ≡ some []
  verify_sound_ledger db w mono sound primary found =
      let own = (sound.each k w found).chain in
      let order =
        ap reverse (entries_asc p mono k db sound) ∙ reverse-reverse (entries_of k db.entries) in
      (verify_wallet_chain_iff db primary).1 (rw order own)

  -- An entry that is linked and not hashed as it should be gives one issue.
  hash_issue :
      (l : List LedgerEntry) (e : LedgerEntry)
      → e.prev_hash ≡ last_hash l
      → compute_entry_hash p e.prev_hash (payload_of e) ≢ e.hash
      → entry_issues p k (is_empty l) (last_hash l) e
        ≡ record {
          type = hash_mismatch;
          wallet_id = k;
          entry_id = e.id;
          expected = compute_entry_hash p e.prev_hash (payload_of e);
          actual = e.hash;
        }
          ∷ []
  unfolding entry_issues
  hash_issue [] e linked differs =
      rw ((text_eq_iff e.prev_hash genesis_hash).1 linked, text_eq_ne _ e.hash differs)
  hash_issue (x ∷ l) e linked differs =
      rw ((text_eq_iff e.prev_hash x.hash).1 linked, text_eq_ne _ e.hash differs)

  same_end :
      (later l : List LedgerEntry) (e e' : LedgerEntry)
      → e'.hash ≡ e.hash
      → (last_hash (later ++ e' ∷ l) ≡ last_hash (later ++ e ∷ l))
        × (is_empty (later ++ e' ∷ l) ≡ false)
  same_end [] l e e' h = (h, refl)
  same_end (x ∷ later) l e e' h = (refl, refl)

  tampered-all_issues :
      (later l : List LedgerEntry) (e e' : LedgerEntry)
      → IsChain p (later ++ e ∷ l)
      → e'.hash ≡ e.hash
      → e'.prev_hash ≡ e.prev_hash
      → compute_entry_hash p e'.prev_hash (payload_of e') ≢ e'.hash
      → all_issues (later ++ e' ∷ l)
        ≡ record {
          type = hash_mismatch;
          wallet_id = k;
          entry_id = e'.id;
          expected = compute_entry_hash p e'.prev_hash (payload_of e');
          actual = e'.hash;
        }
          ∷ []
  tampered-all_issues [] l e e' (linked, hashed, c) h q differs =
      rw (IsChain-all_issues l c) (hash_issue l e' (q ∙ linked) differs)
  tampered-all_issues (n ∷ later) l e e' (linked, hashed, c) h q differs =
      let (same, _) = same_end later l e e' h in
      let rest = tampered-all_issues later l e e' c h q differs in
      let fine = entry_issues_none (later ++ e' ∷ l) n (linked ∙ sym same) hashed in rw (rest, fine)

  -- When the fields of one entry of a chain were changed so that its recomputed hash differs from the
  -- stored one, and its stored hash and link were left alone, the check of the wallet gives exactly one
  -- issue, a hash mismatch at that entry, and none at the entries before or after it.
  pub tampered_entry_located :
      (db : Db) (later l : List LedgerEntry) (e e' : LedgerEntry)
      → HasPrimaryKey (λ x. x.id) (queried p k db)
      → reverse (queried p k db) ≡ later ++ e' ∷ l
      → IsChain p (later ++ e ∷ l)
      → e'.hash ≡ e.hash
      → e'.prev_hash ≡ e.prev_hash
      → compute_entry_hash p e'.prev_hash (payload_of e') ≢ e'.hash
      → verify_wallet_chain p k db
        ≡ some (
            record {
              type = hash_mismatch;
              wallet_id = k;
              entry_id = e'.id;
              expected = compute_entry_hash p e'.prev_hash (payload_of e');
              actual = e'.hash;
            }
            ∷ [])
  tampered_entry_located db later l e e' primary rows c h q differs =
      verify-all_issues db primary
      ∙ ap (λ r. some (all_issues r)) rows
      ∙ ap some (tampered-all_issues later l e e' c h q differs)
