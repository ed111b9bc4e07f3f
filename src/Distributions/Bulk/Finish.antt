-- ===== src/Distributions/Bulk/Finish.antt =====
-- The worker ends, and every line is then decided.
use mrcoin.Base.{
  Bool-cases, ltb, ℕ, zero, suc, ◌<◌, ◌≡◌, refl, subst, ap, ◌∙◌, ◌⊎◌, inl, inr, true, ◌&&◌, List,
  [], ◌∷◌, Option, none, some, All, arith,
}
use mrcoin.Base.Text.{Text, text_eq}
use mrcoin.Base.Table.{any_where, find-update, find_meets}
use mrcoin.Db.{DistributionStatus, Result, err, Db, Failure, ok, Platform}
use mrcoin.Distributions.{
  Distribution, DistributionItem, Distributing, build_distribution_description, find_distribution,
}
use mrcoin.Distributions.Bulk.{
  close_or_stall, Faults, item_is, awaits, process_chunk, pending_items, process_chunks,
  final_status, close_distribution, value_name, has_message, process_bulk_distribution,
}
use mrcoin.Distributions.Bulk.Lines.{
  left_over, ChunkShrinks, chunk_shrinks, pending_there, none_pending,
}

module _ (p : Platform) (extract_message : Failure → Text) (gap : ℕ → Db → Db) (faults : Faults)
    (k : Text) where
  List-cases :
      (is : List DistributionItem)
      → (is ≡ []) ⊎ ((i : DistributionItem) × (r : List DistributionItem) × (is ≡ i ∷ r))
  List-cases [] = inl refl
  List-cases (i ∷ r) = inr (i, r, refl)

  -- The loop ended with no line left, or an update after the attempts of a line has failed.
  abbrev LoopDone : Result (Unit {0}) × Distributing → Type 0
  LoopDone (ok _, s') =
      (left_over k s'.items ≡ 0) × ((d' : Distribution) × (find_distribution k s' ≡ some d'))
  LoopDone (err e, s') =
      (j : Text) × ((faults.in_marking j ≡ some e) ⊎ (faults.in_failure j ≡ some e))

  -- With more fuel than lines that are left, the loop ends.
  chunks_end :
      (fuel : ℕ) (organization_id description : Text) (s : Distributing) (d : Distribution)
      → left_over k s.items < fuel
      → find_distribution k s ≡ some d
      → (r : Result (Unit {0}) × Distributing) × (process_chunks p extract_message gap faults fuel k
            organization_id description s
          ≡ some r)
        × LoopDone r
  unfolding process_chunks
  chunks_end zero organization_id description s d enough found = absurd (omega arith)
  chunks_end (suc fuel) organization_id description s d enough found =
      elim (List-cases (pending_items k s)) [
        | inl e ↦ ((ok tt, s), rw (process_chunks, e) refl, (none_pending k s e, (d, found)))
        | inr (i, r, e) ↦
            let there = pending_there k s in
            let first : any_where (λ j. item_is i.id j && awaits k j) s.items ≡ true =
              (subst (All (λ i. any_where (λ j. item_is i.id j && awaits k j) s.items ≡ true)) e
                there).0 in
            go i r e
              (chunk_shrinks p extract_message gap faults organization_id description k i r s first)
              (λ s1 d1 enough' found1.
                chunks_end fuel organization_id description s1 d1 enough' found1)
      ]
    where
      step : List DistributionItem → Option (Result (Unit {0}) × Distributing)
      step is =
          let chunk = process_chunk p extract_message gap faults organization_id description is s in
          elim is [
            | [] ↦ some (ok tt, s)
            | _ ∷ _ ↦ elim chunk.0 [
              | err e ↦ some (err e, chunk.1)
              | ok _ ↦
                  process_chunks p extract_message gap faults fuel k organization_id description
                    chunk.1
            ]
          ]

      after :
          (t : Result (Unit {0}) × Distributing)
          → ChunkShrinks p extract_message gap faults organization_id description k s t
          → ((s1 : Distributing) (d1 : Distribution)
              → left_over k s1.items < fuel
              → find_distribution k s1 ≡ some d1
              → (r : Result (Unit {0}) × Distributing) × (process_chunks p extract_message gap
                    faults fuel k organization_id description s1
                  ≡ some r)
                × LoopDone r)
          → (r : Result (Unit {0}) × Distributing) × (elim t.0 [
            | err e ↦ some (err e, t.1)
            | ok _ ↦
                process_chunks p extract_message gap faults fuel k organization_id description t.1
          ]
              ≡ some r)
            × LoopDone r
      after (ok u, s1) (fewer, kept) next =
          let (d1, found1) = kept d found in next s1 d1 (omega (arith, enough, fewer)) found1
      after (err x, s1) fault next = ((err x, s1), refl, fault)

      go :
          (i : DistributionItem) (is : List DistributionItem)
          → pending_items k s ≡ i ∷ is
          → ChunkShrinks p extract_message gap faults organization_id description k s
              (process_chunk p extract_message gap faults organization_id description (i ∷ is) s)
          → ((s1 : Distributing) (d1 : Distribution)
              → left_over k s1.items < fuel
              → find_distribution k s1 ≡ some d1
              → (r : Result (Unit {0}) × Distributing) × (process_chunks p extract_message gap
                    faults fuel k organization_id description s1
                  ≡ some r)
                × LoopDone r)
          → (r : Result (Unit {0}) × Distributing) × (process_chunks p extract_message gap faults
                (suc fuel)
                k
                organization_id
                description
                s
              ≡ some r)
            × LoopDone r
      go i is e shrinks next =
          let (r, ended, done) =
            after
              (process_chunk p extract_message gap faults organization_id description (i ∷ is) s)
              shrinks next in
          (r, ap step e ∙ ended, done)

close_ok :
    (k : Text) (s : Distributing) (d : Distribution)
    → find_distribution k s ≡ some d
    → ((close_distribution k s).0 ≡ ok tt)
      × ((close_distribution k s).1.items ≡ s.items)
      × (find_distribution k (close_distribution k s).1
          ≡ some (record d { status = final_status d.failed_items }))
unfolding close_distribution
close_ok k s d found =
    let met : text_eq d.id k ≡ true = find_meets (λ e. text_eq e.id k) s.distributions d found in
    rw (close_distribution, found)
      (
        refl,
        refl,
        find-update (λ e. text_eq e.id k) (λ e. text_eq e.id k)
              (λ e. record e { status = final_status d.failed_items }) s.distributions (λ _. refl)
            ∙ (rw (found, met) refl),
      )

-- The status in the end: by whether a line was counted as failed.
abbrev pub IsClosed : Distribution → Type 0
IsClosed d =
    ((d.failed_items ≡ 0) × (d.status ≡ DistributionStatus.completed))
    ⊎ ((0 < d.failed_items) × (d.status ≡ DistributionStatus.completed_with_errors))

IsClosed-by : (d : Distribution) → IsClosed (record d { status = final_status d.failed_items })
IsClosed-by d = elim (Bool-cases (ltb 0 d.failed_items)) [
  | inl e ↦ inr (ground arith, rw e refl)
  | inr e ↦ inl (ground arith, rw e refl)
]

-- How the worker may end: without an error, when no line of the distribution is left and its status
-- is that it completed, or that it completed with errors if a line was counted as failed; or with the
-- error of an update that marks a line as failed, or counts it.
abbrev pub IsEnd : Faults → Text → Result (Unit {0}) × Distributing → Type 0
IsEnd faults k (ok _, s') =
    (left_over k s'.items ≡ 0)
    × ((d' : Distribution) × (find_distribution k s' ≡ some d') × IsClosed d')
IsEnd faults k (err e, s') =
    (j : Text) × ((faults.in_marking j ≡ some e) ⊎ (faults.in_failure j ≡ some e))

-- The worker, given more fuel than lines are left, ends. It ends without an error unless an update
-- that marks a line as failed, or counts it as failed, fails itself: whatever happens in a line's
-- transaction or when it is counted as credited. Ended without one, no line of the distribution is
-- left, and its status is that it completed, or that it completed with errors if the counter of failed
-- lines is not zero. The reads, and the update of the status in the end, are taken to work.
pub process_bulk_distribution_ends :
    (p : Platform) (extract_message : Failure → Text) (gap : ℕ → Db → Db) (faults : Faults)
    (fuel : ℕ) (k : Text) (s : Distributing) (d : Distribution)
    → find_distribution k s ≡ some d
    → left_over k s.items < fuel
    → (r : Result (Unit {0}) × Distributing) × (process_bulk_distribution p extract_message gap
          faults fuel k s
        ≡ some r)
      × IsEnd faults k r
unfolding process_bulk_distribution
process_bulk_distribution_ends p extract_message gap faults fuel k s d found enough =
    let description : Text = build_distribution_description (value_name d s) (has_message d) none in
    let (r, ran, done) =
      chunks_end p extract_message gap faults k fuel d.organization_id description s d enough
        found in
    go r (ap (close_or_stall k) ran) done
  where
    go :
        (t : Result (Unit {0}) × Distributing)
        → close_or_stall k (
            process_chunks p extract_message gap faults fuel k d.organization_id
              (build_distribution_description (value_name d s) (has_message d) none)
              s)
          ≡ close_or_stall k (some t)
        → LoopDone p extract_message gap faults k t
        → (r : Result (Unit {0}) × Distributing) × (process_bulk_distribution p extract_message gap
              faults fuel k s
            ≡ some r)
          × IsEnd faults k r
    go (err e, s1) ran fault = ((err e, s1), rw (process_bulk_distribution, found) ran, fault)
    go (ok u, s1) ran (none_left, (d1, found1)) =
        let (good, items, closed) = close_ok k s1 d1 found1 in
        let s2 : Distributing = (close_distribution k s1).1 in
        (
          (ok tt, s2),
          rw (process_bulk_distribution, found) (ran ∙ ap (λ x. some (x, s2)) good),
          (
            ap (left_over k) items ∙ none_left,
            (record d1 { status = final_status d1.failed_items }, closed, IsClosed-by d1),
          ),
        )
