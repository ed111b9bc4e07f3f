-- ===== src/Distributions/Bulk/Lines.antt =====
-- What the processing of a line does to the lines: it is decided, and no other is touched.
use mrcoin.Base.{
  ℕ, zero, suc, ◌+◌, ◌≤◌, ◌<◌, ◌≡◌, refl, ap, ◌∙◌, ◌⊎◌, inl, inr, Bool, true, false, ◌&&◌, List, [],
  ◌∷◌, some, Option-cases, All, arith, Bool-cases, if◌then◌else◌,
}
use mrcoin.Base.Text.{Text, text_eq, text_eq_refl}
use mrcoin.Base.Table.{find_where, filter_where, update_where, count_where, any_where, find-update}
use mrcoin.Base.Queries.{All-take, All-order_by, filter_in, take_nil, order_by_nil, filter_nil}
use mrcoin.Db.{Db, Failure, Result, ok, err, Result-cases, Platform}
use mrcoin.Distributions.{
  Distribution, DistributionItem, Distributing, find_distribution, change_distribution,
}
use mrcoin.Distributions.Bulk.{
  change_item, is_pending, item_is, awaits, mark_done, mark_failed, count_success, count_failure,
  is_retryable, Faults, succeed, try_line, fail_line, first_error, attempt_line, attempt_lines,
  process_distribution_item, process_chunk, pending_items,
}

-- The lines of a distribution that are left.
abbrev pub left_over : Text → List DistributionItem → ℕ
left_over k items = count_where (awaits k) items

abbrev Decides : (DistributionItem → DistributionItem) → Type 0
Decides mark = (i : DistributionItem) → is_pending (mark i).status ≡ false

update-left_over :
    (k j : Text) (mark : DistributionItem → DistributionItem) (items : List DistributionItem)
    → Decides mark
    → left_over k (update_where (item_is j) mark items)
        + count_where (λ i. item_is j i && awaits k i) items
      ≡ left_over k items
unfolding update_where count_where
update-left_over k j mark [] decides = refl
update-left_over k j mark (i ∷ items) decides =
    ground (arith, decides i, update-left_over k j mark items decides)

-- A distribution whose row changed is still found.
still_there :
    (k : Text) (q : Distribution → Bool) (f : Distribution → Distribution)
    (ds ds' : List Distribution) (d : Distribution)
    → ((e : Distribution) → text_eq (f e).id k ≡ text_eq e.id k)
    → ds' ≡ update_where q f ds
    → find_where (λ e. text_eq e.id k) ds ≡ some d
    → (d' : Distribution) × (find_where (λ e. text_eq e.id k) ds' ≡ some d')
still_there k q f ds ds' d same changed found =
    let seen : find_where (λ e. text_eq e.id k) (update_where q f ds)
        ≡ some (if q d then f d else d) =
      find-update (λ e. text_eq e.id k) q f ds same ∙ (rw found refl) in
    (if q d then f d else d, ap (find_where (λ e. text_eq e.id k)) changed ∙ seen)

counted_one :
    (q : DistributionItem → Bool) (items : List DistributionItem)
    → any_where q items ≡ true
    → 0 < count_where q items
unfolding any_where count_where
counted_one q [] h = absurd (cc)
counted_one q (i ∷ items) h = ground (arith, counted_one q items)

-- The lines with an id that are left.
abbrev same_left : Text → DistributionItem → Distributing → ℕ
same_left k i s = count_where (λ j. item_is i.id j && awaits k j) s.items

update-same_left :
    (k j : Text) (mark : DistributionItem → DistributionItem) (items : List DistributionItem)
    → Decides mark
    → count_where (λ i. item_is j i && awaits k i) (update_where (item_is j) mark items) ≡ 0
unfolding update_where count_where
update-same_left k j mark [] decides = refl
update-same_left k j mark (i ∷ items) decides =
    ground (arith, decides i, update-same_left k j mark items decides)

-- The line is decided, and no other was touched.
abbrev IsMarked : Text → DistributionItem → Distributing → Distributing → Type 0
IsMarked k i s s' =
    (left_over k s'.items + same_left k i s ≡ left_over k s.items) × (same_left k i s' ≡ 0)

-- The lines are as they were, or this one is decided.
abbrev IsTouched : Text → DistributionItem → Distributing → Distributing → Type 0
IsTouched k i s s' = (s'.items ≡ s.items) ⊎ IsMarked k i s s'

mark-IsMarked :
    (k : Text) (i : DistributionItem) (mark : DistributionItem → DistributionItem)
    (s s1 s2 : Distributing)
    → Decides mark
    → IsTouched k i s s1
    → s2.items ≡ update_where (item_is i.id) mark s1.items
    → IsMarked k i s s2
mark-IsMarked k i mark s s1 s2 decides (inl same) changed =
    rw (changed, same)
      (update-left_over k i.id mark s.items decides, update-same_left k i.id mark s.items decides)
mark-IsMarked k i mark s s1 s2 decides (inr (less, none_there)) changed =
    let again = update-left_over k i.id mark s1.items decides in
    rw changed
      (omega (arith, less, none_there, again), update-same_left k i.id mark s1.items decides)

-- A distribution that was there is there.
abbrev pub KeepsDistribution : Text → Distributing → Distributing → Type 0
KeepsDistribution k s s' =
    (d : Distribution)
    → find_distribution k s ≡ some d
    → (d' : Distribution) × (find_distribution k s' ≡ some d')

module _ (p : Platform) (extract_message : Failure → Text) (gap : ℕ → Db → Db) (faults : Faults)
    (organization_id description k : Text) where
  -- Whose update failed.
  abbrev pub IsFault : Failure → Type 0
  IsFault e = (j : Text) × ((faults.in_marking j ≡ some e) ⊎ (faults.in_failure j ≡ some e))

  -- A line that is processed is decided, or an update after its attempts has failed.
  abbrev LineDone : DistributionItem → Distributing → Result (Unit {0}) × Distributing → Type 0
  LineDone i s (ok _, s') = IsMarked k i s s' × KeepsDistribution k s s'
  LineDone i s (err e, s') = IsFault e

  abbrev LineTried : DistributionItem → Distributing → Result (Unit {0}) × Distributing → Type 0
  LineTried i s (ok _, s') = IsMarked k i s s' × KeepsDistribution k s s'
  LineTried i s (err _, s') = IsTouched k i s s' × KeepsDistribution k s s'

  -- The line with a new mark, and then counted.
  counted_line :
      (i : DistributionItem) (mark : DistributionItem → DistributionItem)
      (count : Distribution → Distribution) (s0 s : Distributing)
      → Decides mark
      → ((d : Distribution) → (count d).id ≡ d.id)
      → IsTouched k i s0 s
      → KeepsDistribution k s0 s
      → IsMarked k i s0 (change_item i.id mark s)
        × KeepsDistribution k s0 (
            change_distribution
              (λ d. text_eq d.id i.distribution_id)
              count
              (change_item i.id mark s))
  counted_line i mark count s0 s decides same touched kept = (
    mark-IsMarked k i mark s0 s (change_item i.id mark s) decides touched refl,
    λ d found.
        let (d1, found1) = kept d found in
        still_there k (λ d'. text_eq d'.id i.distribution_id) count s.distributions
          (update_where (λ d'. text_eq d'.id i.distribution_id) count s.distributions) d1
          (λ e. ap (λ t. text_eq t k) (same e)) refl found1,
  )

  succeed-LineTried :
      (n : ℕ) (i : DistributionItem) (m : Text) (db : Db) (s0 s : Distributing)
      → IsTouched k i s0 s
      → KeepsDistribution k s0 s
      → LineTried i s0 (succeed p extract_message gap faults n i m db s)
  succeed-LineTried n i m db s0 s touched kept =
      let (marked, counted) =
        counted_line i (mark_done m) count_success s0 (record s { db = db }) (λ _. refl) (λ _. refl)
          touched kept in
      elim (Option-cases (faults.in_success i.id n)) [
        | inr (x, f) ↦ rw (succeed, f) (inr marked, kept)
        | inl f ↦ rw (succeed, f) (marked, counted)
      ]

  try_line-LineTried :
      (n : ℕ) (i : DistributionItem) (s0 s : Distributing)
      → IsTouched k i s0 s
      → KeepsDistribution k s0 s
      → LineTried i s0 (try_line p extract_message gap faults n organization_id i description s)
  unfolding try_line
  try_line-LineTried n i s0 s touched kept =
      elim (Result-cases
        (attempt_line p extract_message gap faults n organization_id i description s.db)) [
          | inr (x, e) ↦ rw (try_line, e) (touched, kept)
          | inl ((m, db), e) ↦ rw (try_line, e) (succeed-LineTried n i m db s0 s touched kept)
        ]

  fail_line-LineDone :
      (i : DistributionItem) (x : Failure) (s0 s : Distributing)
      → IsTouched k i s0 s
      → KeepsDistribution k s0 s
      → LineDone i s0 (fail_line p extract_message gap faults i x s)
  unfolding fail_line
  fail_line-LineDone i x s0 s touched kept =
      let (marked, counted) =
        counted_line i (mark_failed (extract_message x)) count_failure s0 s (λ _. refl) (λ _. refl)
          touched kept in
      elim (Option-cases (faults.in_marking i.id)) [
        | inr (y, e) ↦ rw (fail_line, e) (i.id, inl e)
        | inl e ↦ elim (Option-cases (faults.in_failure i.id)) [
          | inr (y, f) ↦ rw (fail_line, e, f) (i.id, inr f)
          | inl f ↦ rw (fail_line, e, f) (marked, counted)
        ]
      ]

  attempt_lines-LineDone :
      (left n : ℕ) (i : DistributionItem) (s0 s : Distributing)
      → IsTouched k i s0 s
      → KeepsDistribution k s0 s
      → LineDone i s0
          (attempt_lines p extract_message gap faults left n organization_id i description s)
  unfolding attempt_lines
  attempt_lines-LineDone zero n i s0 s touched kept =
      go (try_line p extract_message gap faults n organization_id i description s)
        (try_line-LineTried n i s0 s touched kept)
    where
      go :
          (t : Result (Unit {0}) × Distributing)
          → LineTried i s0 t
          → LineDone i s0 (elim t.0 [
            | ok _ ↦ (ok tt, t.1)
            | err e ↦ fail_line p extract_message gap faults i e t.1
          ])
      go (ok u, s1) good = good
      go (err x, s1) (touched', kept') = fail_line-LineDone i x s0 s1 touched' kept'
  attempt_lines-LineDone (suc left) n i s0 s touched kept =
      go (try_line p extract_message gap faults n organization_id i description s)
        (try_line-LineTried n i s0 s touched kept)
        (λ s1 touched' kept'. attempt_lines-LineDone left (n + 1) i s0 s1 touched' kept')
    where
      go :
          (t : Result (Unit {0}) × Distributing)
          → LineTried i s0 t
          → ((s1 : Distributing)
              → IsTouched k i s0 s1
              → KeepsDistribution k s0 s1
              → LineDone i s0 (
                  attempt_lines p extract_message gap faults left
                    (n + 1)
                    organization_id
                    i
                    description
                    s1))
          → LineDone i s0 (elim t.0 [
            | ok _ ↦ (ok tt, t.1)
            | err e ↦
                if is_retryable e
                then attempt_lines p extract_message gap faults left
                    (n + 1)
                    organization_id
                    i
                    description
                    t.1
                else fail_line p extract_message gap faults i e t.1
          ])
      go (ok u, s1) good next = good
      go (err x, s1) (touched', kept') next = elim (Bool-cases (is_retryable x)) [
        | inl r ↦ rw r (next s1 touched' kept')
        | inr r ↦ rw r (fail_line-LineDone i x s0 s1 touched' kept')
      ]

  item-LineDone :
      (i : DistributionItem) (s : Distributing)
      → LineDone i s
          (process_distribution_item p extract_message gap faults organization_id description i s)
  unfolding process_distribution_item
  item-LineDone i s = attempt_lines-LineDone 2 1 i s s (inl refl) (λ d found. (d, found))

  -- A chunk that is processed leaves no more lines than there were, or an update has failed.
  abbrev pub ChunkDone : Distributing → Result (Unit {0}) × Distributing → Type 0
  ChunkDone s (ok _, s') = (left_over k s'.items ≤ left_over k s.items) × KeepsDistribution k s s'
  ChunkDone s (err e, s') = IsFault e

  chunk-ChunkDone :
      (is : List DistributionItem) (s : Distributing)
      → ChunkDone s (process_chunk p extract_message gap faults organization_id description is s)
  unfolding process_chunk
  chunk-ChunkDone [] s = (omega arith, λ d found. (d, found))
  chunk-ChunkDone (i ∷ is) s =
      go (process_distribution_item p extract_message gap faults organization_id description i s)
        (item-LineDone i s) (λ s1. chunk-ChunkDone is s1)
    where
      after :
          (s1 : Distributing) (c : Result (Unit {0}) × Distributing)
          → IsMarked k i s s1
          → KeepsDistribution k s s1
          → ChunkDone s1 c
          → ChunkDone s (first_error (ok tt) c.0, c.1)
      after s1 (ok u, s2) (less, _) kept (fewer, kept') =
          (omega (arith, less, fewer), λ d found. let (d1, f1) = kept d found in kept' d1 f1)
      after s1 (err e, s2) marked kept fault = fault

      go :
          (t : Result (Unit {0}) × Distributing)
          → LineDone i s t
          → ((s1 : Distributing)
              → ChunkDone s1
                  (process_chunk p extract_message gap faults organization_id description is s1))
          → ChunkDone s (
            first_error t.0
                (process_chunk p extract_message gap faults organization_id description is t.1).0,
            (process_chunk p extract_message gap faults organization_id description is t.1).1,
          )
      go (ok u, s1) (marked, kept) next =
          after s1 (process_chunk p extract_message gap faults organization_id description is s1)
            marked kept (next s1)
      go (err e, s1) fault next = fault

  -- A chunk that begins with a line of the distribution leaves fewer.
  abbrev pub ChunkShrinks : Distributing → Result (Unit {0}) × Distributing → Type 0
  ChunkShrinks s (ok _, s') =
      (left_over k s'.items < left_over k s.items) × KeepsDistribution k s s'
  ChunkShrinks s (err e, s') = IsFault e

  pub chunk_shrinks :
      (i : DistributionItem) (is : List DistributionItem) (s : Distributing)
      → any_where (λ j. item_is i.id j && awaits k j) s.items ≡ true
      → ChunkShrinks s
          (process_chunk p extract_message gap faults organization_id description (i ∷ is) s)
  unfolding process_chunk
  chunk_shrinks i is s there =
      go (process_distribution_item p extract_message gap faults organization_id description i s)
        (item-LineDone i s)
    where
      after :
          (s1 : Distributing) (c : Result (Unit {0}) × Distributing)
          → IsMarked k i s s1
          → KeepsDistribution k s s1
          → ChunkDone s1 c
          → ChunkShrinks s (first_error (ok tt) c.0, c.1)
      after s1 (ok u, s2) (less, _) kept (fewer, kept') = (
        omega (arith, less, fewer, counted_one (λ j. item_is i.id j && awaits k j) s.items there),
        λ d found. let (d1, f1) = kept d found in kept' d1 f1,
      )
      after s1 (err e, s2) marked kept fault = fault

      go :
          (t : Result (Unit {0}) × Distributing)
          → LineDone i s t
          → ChunkShrinks s (
            first_error t.0
                (process_chunk p extract_message gap faults organization_id description is t.1).0,
            (process_chunk p extract_message gap faults organization_id description is t.1).1,
          )
      go (ok u, s1) (marked, kept) =
          after s1 (process_chunk p extract_message gap faults organization_id description is s1)
            marked kept (chunk-ChunkDone is s1)
      go (err e, s1) fault = fault

-- The lines of a chunk are lines of the distribution that are left.
pub pending_there :
    (k : Text) (s : Distributing)
    → All (λ i. any_where (λ j. item_is i.id j && awaits k j) s.items ≡ true) (pending_items k s)
unfolding pending_items
pending_there k s =
    All-take (λ i. any_where (λ j. item_is i.id j && awaits k j) s.items ≡ true) 20 _
      (All-order_by (λ i. any_where (λ j. item_is i.id j && awaits k j) s.items ≡ true) _ _
        (filter_in (λ i j. item_is i.id j && awaits k j) (awaits k) s.items
          (λ i h. ground (arith, text_eq_refl i.id))))

pub none_pending : (k : Text) (s : Distributing) → pending_items k s ≡ [] → left_over k s.items ≡ 0
unfolding pending_items
none_pending k s h =
    filter_nil (awaits k) s.items
      (order_by_nil _ (filter_where (awaits k) s.items) (take_nil 19 _ h))
