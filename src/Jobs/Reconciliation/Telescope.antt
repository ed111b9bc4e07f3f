-- ===== src/Jobs/Reconciliation/Telescope.antt =====
-- What the reconciliation of a wallet compares.
use mathlib.Core.List.{reverse-cons, reverse-reverse}
use mrcoin.Base.{
  ◌≡◌, refl, sym, ap, ◌∙◌, inl, inr, List, [], ◌∷◌, reverse, Option, none, some, Bool-cases, not,
  ◌||◌, if◌then◌else◌,
}
use mrcoin.Base.Int.{ℤ, ◌+ℤ◌, ◌-ℤ◌, eq_ℤ, eq_ℤ_iff, int_laws}
use mrcoin.Base.Text.{Text}
use mrcoin.Base.Table.{order_by}
use mrcoin.Db.{Db, Wallet, LedgerEntry, Platform, IsMonotonic}
use mrcoin.Ledger.Entry.{entries_of, find_wallet, older}
use mrcoin.Ledger.Invariant.{IsSound, last_balance}
use mrcoin.Ledger.Order.{entries_asc}
use mrcoin.Jobs.Pages.{fold_left, fold_left-append, HasPrimaryKey, for_pages_reads_all}
use mrcoin.Jobs.Reconciliation.{BalanceMismatchIssue, add_delta, delta_start, reconcile_wallet}

-- The sum of the deltas telescopes: it is the last balance, whatever stands before.
fold-last_balance :
    (l : List LedgerEntry)
    → fold_left add_delta delta_start (reverse l) ≡ record {
      previous_balance_after = last_balance l;
      sum_of_deltas = last_balance l;
      last_balance_after = last_balance l;
    }
unfolding fold_left add_delta
fold-last_balance [] = refl
fold-last_balance (e ∷ l) =
    rw (reverse-cons e l, fold_left-append add_delta delta_start (reverse l) (e ∷ []))
      (rw (fold-last_balance l) (
        ap
          (λ x. record {
            previous_balance_after = e.balance_after;
            sum_of_deltas = x;
            last_balance_after = e.balance_after;
          })
          (regained (last_balance l) e.balance_after)))
  where
    regained : (a b : ℤ) → a +ℤ (b -ℤ a) ≡ b
    regained a b = omega int_laws

module _ (k : Text) (db : Db) where
  abbrev pub latest_first : List LedgerEntry
  latest_first = reverse (order_by older (entries_of k db.entries))

  -- The reconciliation of a wallet compares the cached balance with the balance after the last
  -- entry, and with nothing else: the sum of the deltas is that same balance, whatever the entries
  -- before it hold.
  pub reconcile_compares_last_balance :
      (cached : ℤ)
      → HasPrimaryKey (λ e. e.id) (order_by older (entries_of k db.entries))
      → reconcile_wallet k cached db
        ≡ some (
            if eq_ℤ (last_balance latest_first) cached
            then none
            else some (record {
              wallet_id = k;
              sum_of_deltas = last_balance latest_first;
              last_balance_after = last_balance latest_first;
              actual_cached_balance = cached;
            }))
  unfolding reconcile_wallet
  reconcile_compares_last_balance cached primary =
      let rows = order_by older (entries_of k db.entries) in
      let read = for_pages_reads_all (λ e. e.id) rows primary add_delta 199 delta_start in
      let total =
        ap (fold_left add_delta delta_start) (sym (reverse-reverse rows))
        ∙ fold-last_balance (reverse rows) in
      rw (read, reconcile_wallet) (rw total (either_side (last_balance latest_first)))
    where
      either_side :
          (b : ℤ)
          → ◌≡◌ {A = Option (Option BalanceMismatchIssue)}
              (some (
                if not (eq_ℤ b cached) || not (eq_ℤ b cached)
                then some (record {
                  wallet_id = k;
                  sum_of_deltas = b;
                  last_balance_after = b;
                  actual_cached_balance = cached;
                })
                else none))
              (some (
                if eq_ℤ b cached
                then none
                else some (record {
                  wallet_id = k;
                  sum_of_deltas = b;
                  last_balance_after = b;
                  actual_cached_balance = cached;
                })))
      either_side b = elim (Bool-cases (eq_ℤ b cached)) [ inl e ↦ rw e | inr e ↦ rw e ]

  -- No false alarm: in a sound ledger, under a clock that does not run backwards, a wallet's cached
  -- balance is reconciled with its entries.
  pub reconcile_sound_ledger :
      (p : Platform) (w : Wallet)
      → IsMonotonic p
      → IsSound p db
      → HasPrimaryKey (λ e. e.id) (order_by older (entries_of k db.entries))
      → find_wallet k db.wallets ≡ some w
      → reconcile_wallet k w.cached_balance db ≡ some none
  reconcile_sound_ledger p w mono sound primary found =
      let order =
        ap reverse (entries_asc p mono k db sound) ∙ reverse-reverse (entries_of k db.entries) in
      let balance = sym (sound.each k w found).balance in
      reconcile_compares_last_balance w.cached_balance primary
      ∙ (rw (
          (eq_ℤ_iff (last_balance latest_first) w.cached_balance).1
            (ap last_balance order ∙ balance)))
