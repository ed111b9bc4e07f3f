-- ===== src/Distributions/Confirm.antt =====
-- What `confirmBulkDistribution` guarantees: a distribution is given to the queue once.
use mrcoin.Base.{
  ◌≡◌, refl, ◌∙◌, inl, inr, Bool, true, false, ◌&&◌, List, [], ◌∷◌, some, arith, Option-cases, ◌==◌,
}
use mrcoin.Base.Text.{Text, text_eq}
use mrcoin.Base.Table.{find_where, update_where, count_where, find-update, find_meets, count-find}
use mrcoin.Db.{DistributionStatus, err, distribution_not_pending}
use mrcoin.Distributions.{
  Distribution, Distributing, find_distribution, find_own, unconfirmed, confirm_bulk_distribution,
}

abbrev start : Distribution → Distribution
start d = record d { status = DistributionStatus.processing }

none_unconfirmed :
    (organization_id k : Text) (ds : List Distribution)
    → count_where
        (unconfirmed organization_id k)
        (update_where (unconfirmed organization_id k) start ds)
      ≡ 0
unfolding count_where update_where
none_unconfirmed organization_id k [] = refl
none_unconfirmed organization_id k (d ∷ ds) = ground (arith, none_unconfirmed organization_id k ds)

-- The state after a confirmation.
abbrev confirmed : Text → Text → Distributing → Distributing
confirmed organization_id k s = record s {
  distributions = update_where (unconfirmed organization_id k) start s.distributions;
  queue = k ∷ s.queue;
}

confirm_state :
    (organization_id k : Text) (s : Distributing)
    → (count_where (unconfirmed organization_id k) s.distributions == 0) ≡ false
    → (confirm_bulk_distribution organization_id k s).1 ≡ confirmed organization_id k s
unfolding confirm_bulk_distribution
confirm_state organization_id k s hit =
    elim (Option-cases (find_distribution k (confirmed organization_id k s))) [
      | inl e ↦ rw (confirm_bulk_distribution, hit, e) refl
      | inr (d, e) ↦ rw (confirm_bulk_distribution, hit, e) refl
    ]

refused_again :
    (organization_id k : Text) (s : Distributing) (d : Distribution)
    → (count_where (unconfirmed organization_id k) s.distributions == 0) ≡ true
    → find_own organization_id k s ≡ some d
    → confirm_bulk_distribution organization_id k s ≡ (err (distribution_not_pending k d.status), s)
unfolding confirm_bulk_distribution
refused_again organization_id k s d over found = rw (confirm_bulk_distribution, over, found) refl

-- A pending distribution of the organization is confirmed: it is processing, and the queue has it once
-- more. Confirmed again it is refused with that status, and the queue does not get it twice.
pub confirm_bulk_distribution_once :
    (organization_id k : Text) (s : Distributing) (d : Distribution)
    → find_own organization_id k s ≡ some d
    → d.status ≡ DistributionStatus.pending
    → let s' : Distributing = (confirm_bulk_distribution organization_id k s).1 in
      (s'.queue ≡ k ∷ s.queue)
      × (find_own organization_id k s' ≡ some (record d { status = DistributionStatus.processing }))
      × (confirm_bulk_distribution organization_id k s'
          ≡ (err (distribution_not_pending k DistributionStatus.processing), s'))
confirm_bulk_distribution_once organization_id k s d found waiting =
    let own : (Distribution → Bool) =
      λ e. text_eq e.id k && text_eq e.organization_id organization_id in
    let met : own d ≡ true = find_meets own s.distributions d found in
    let hit : unconfirmed organization_id k d ≡ true = ground arith in
    let counted = count-find own (unconfirmed organization_id k) s.distributions d found hit in
    let some_hit : (count_where (unconfirmed organization_id k) s.distributions == 0) ≡ false =
      ground arith in
    let after : find_where own (update_where (unconfirmed organization_id k) start s.distributions)
        ≡ some (record d { status = DistributionStatus.processing }) =
      find-update own (unconfirmed organization_id k) start s.distributions (λ _. refl)
      ∙ (rw (found, hit) refl) in
    let state = confirm_state organization_id k s some_hit in
    let over : (count_where (unconfirmed organization_id k)
            (confirmed organization_id k s).distributions
          == 0)
        ≡ true =
      rw (none_unconfirmed organization_id k s.distributions) refl in
    rw state (
      refl,
      after,
      refused_again organization_id k (confirmed organization_id k s)
          (record d { status = DistributionStatus.processing }) over after,
    )
