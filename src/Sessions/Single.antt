-- ===== src/Sessions/Single.antt =====
-- One live token in each family, whatever requests run at once. `pending f` counts the requests that
-- have revoked a token of the family f and not yet made its successor.
use mrcoin.Base.{
  ℕ, suc, ◌+◌, ◌≤◌, ◌<◌, ◌≡◌, refl, sym, ap, ◌∙◌, inl, inr, Bool, true, false, ◌&&◌, List, [], ◌∷◌,
  some, arith, if◌then◌else◌, Bool-cases,
}
use mrcoin.Base.Text.{Text, text_eq, text_eq_refl, text_eq→eq}
use mrcoin.Base.Table.{
  find_where, update_where, count_where, any_where, find-update, any-update, count-update,
  find_meets, any_of_find,
}
use mrcoin.Base.Unique.{IsUniqueBy, IsUniqueBy-update, count_key}
use mrcoin.Sessions.{RefreshToken, Sessions, is_live, revoke, id_is, hash_is, family_is, link_token}

abbrev pub live_in : Text → List RefreshToken → ℕ
live_in f ts = count_where (λ t. family_is f t && is_live t) ts

abbrev pub knows : Text → List RefreshToken → Bool
knows f ts = any_where (family_is f) ts

pub record IsSingle (pending : Text → ℕ) (ts : List RefreshToken) : Type 0 where
  pub unique_ids : IsUniqueBy (λ t. t.id) ts
  pub unique_hashes : IsUniqueBy (λ t. t.token_hash) ts
  pub one_live : (f : Text) → live_in f ts + pending f ≤ 1
  pub pending_known : (f : Text) → 0 < pending f → knows f ts ≡ true

-- What a row may become: it keeps its family and its hash, and stays revoked.
abbrev pub Becomes : RefreshToken → RefreshToken → Type 0
Becomes t t' =
    (t'.family ≡ t.family)
    × (t'.token_hash ≡ t.token_hash)
    × (t'.owner_id ≡ t.owner_id)
    × (is_live t ≡ false → is_live t' ≡ false)

-- No row is deleted.
abbrev pub Evolves : List RefreshToken → List RefreshToken → Type 0
Evolves ts ts' =
    (k : Text) (t : RefreshToken)
    → find_where (id_is k) ts ≡ some t
    → (t' : RefreshToken) × (find_where (id_is k) ts' ≡ some t') × Becomes t t'

pub Evolves-refl : (ts : List RefreshToken) → Evolves ts ts
Evolves-refl ts k t h = (t, h, (refl, refl, refl, λ x. x))

pub Evolves-trans : (a b c : List RefreshToken) → Evolves a b → Evolves b c → Evolves a c
Evolves-trans a b c g h k t found =
    let (t', found', (f', h', o', l')) = g k t found in
    let (t'', found'', (f'', h'', o'', l'')) = h k t' found' in
    (t'', found'', (f'' ∙ f', h'' ∙ h', o'' ∙ o', λ x. l'' (l' x)))

-- What other requests may do at any time.
abbrev pub IsGap : (Sessions → Sessions) → Type 0
IsGap g =
    (pending : Text → ℕ) (s : Sessions)
    → IsSingle pending s.tokens
    → IsSingle pending (g s).tokens × Evolves s.tokens (g s).tokens

-- One more successor to be made in the family F.
abbrev pub bump : Text → (Text → ℕ) → Text → ℕ
bump F pending f = if text_eq F f then suc (pending f) else pending f

-- A revocation takes the rows that it meets out of the live ones.
pub revoke_count :
    (which : RefreshToken → Bool) (now : ℕ) (f : Text) (ts : List RefreshToken)
    → live_in f (update_where (λ t. which t && is_live t) (revoke now) ts)
        + count_where (λ t. which t && (family_is f t && is_live t)) ts
      ≡ live_in f ts
unfolding update_where count_where
revoke_count which now f [] = refl
revoke_count which now f (t ∷ ts) = ground (arith, revoke_count which now f ts)

-- An update that keeps the columns and revives nothing.
pub Evolves-update :
    (q : RefreshToken → Bool) (g : RefreshToken → RefreshToken) (ts : List RefreshToken)
    → ((t : RefreshToken) → (g t).id ≡ t.id)
    → ((t : RefreshToken) → Becomes t (g t))
    → Evolves ts (update_where q g ts)
Evolves-update q g ts same becomes k t found =
    let seen : find_where (id_is k) (update_where q g ts) ≡ some (if q t then g t else t) =
      find-update (id_is k) q g ts (λ a. ap (λ i. text_eq i k) (same a)) ∙ (rw found refl) in
    elim (Bool-cases (q t)) [
      | inl e ↦ (g t, rw e at seen, becomes t)
      | inr e ↦ (t, rw e at seen, (refl, refl, refl, λ x. x))
    ]

module _ (now : ℕ) (which : RefreshToken → Bool) (ts : List RefreshToken) where
  abbrev revoked : List RefreshToken
  revoked = update_where (λ t. which t && is_live t) (revoke now) ts

  pub Evolves-revoke : Evolves ts revoked
  Evolves-revoke =
      Evolves-update (λ t. which t && is_live t) (revoke now) ts (λ t. refl)
        (λ t. (refl, refl, refl, λ x. refl))

  pub revoke-IsSingle : (pending : Text → ℕ) → IsSingle pending ts → IsSingle pending revoked
  revoke-IsSingle pending s = record {
    unique_ids = IsUniqueBy-update (λ t. t.id) _ (revoke now) ts (λ t. refl) s.unique_ids;
    unique_hashes =
        IsUniqueBy-update (λ t. t.token_hash) _ (revoke now) ts (λ t. refl) s.unique_hashes;
    one_live = λ f. omega (arith, revoke_count which now f ts, s.one_live f);
    pending_known =
        λ f h. any-update (family_is f) _ (revoke now) ts (λ t. refl) ∙ s.pending_known f h;
  }

-- The compare-and-set on a live row lets its family have a successor.
pub claim-IsSingle :
    (now : ℕ) (pending : Text → ℕ) (ts : List RefreshToken) (k : Text) (t : RefreshToken)
    → IsSingle pending ts
    → find_where (id_is k) ts ≡ some t
    → is_live t ≡ true
    → IsSingle (bump t.family pending) (update_where (λ u. id_is k u && is_live u) (revoke now) ts)
claim-IsSingle now pending ts k t s found alive =
    let after = revoke-IsSingle now (id_is k) ts pending s in
    record {
      unique_ids = after.unique_ids;
      unique_hashes = after.unique_hashes;
      one_live = λ f.
          let counted =
            count_key (λ u. u.id) k (λ u. family_is f u && is_live u) ts t s.unique_ids found in
          ground (arith, revoke_count (id_is k) now f ts, s.one_live f, counted, alive);
      pending_known = λ f h. elim (Bool-cases (text_eq t.family f)) [
        | inl e ↦
            any-update (family_is f) _ (revoke now) ts (λ t. refl)
            ∙ any_of_find (id_is k) (family_is f) ts t found e
        | inr e ↦ after.pending_known f (rw e at h)
      ];
    }

pub IsSingle-unbump :
    (F : Text) (pending : Text → ℕ) (ts : List RefreshToken)
    → IsSingle (bump F pending) ts
    → IsSingle pending ts
IsSingle-unbump F pending ts s = record {
  unique_ids = s.unique_ids;
  unique_hashes = s.unique_hashes;
  one_live = λ f. ground (arith, s.one_live f);
  pending_known = λ f h. s.pending_known f (ground arith);
}

-- A token that is made, where the table does not refuse it.
pub Evolves-new :
    (t : RefreshToken) (ts : List RefreshToken)
    → any_where (id_is t.id) ts ≡ false
    → Evolves ts (t ∷ ts)
unfolding find_where
Evolves-new t ts absent k u found = elim (Bool-cases (id_is k t)) [
  | inl e ↦
      let same : t.id ≡ k = text_eq→eq t.id k e in
      let there = any_of_find (id_is k) (id_is k) ts u found (find_meets (id_is k) ts u found) in
      let gone : any_where (id_is k) ts ≡ false =
        ap (λ j. any_where (id_is j) ts) (sym same) ∙ absent in
      absurd (cc)
  | inr e ↦ (u, rw e found, (refl, refl, refl, λ x. x))
]

pub new-IsSingle :
    (pending : Text → ℕ) (t : RefreshToken) (ts : List RefreshToken)
    → IsSingle pending ts
    → live_in t.family ts + pending t.family ≡ 0
    → any_where (id_is t.id) ts ≡ false
    → any_where (hash_is t.token_hash) ts ≡ false
    → IsSingle pending (t ∷ ts)
unfolding count_where any_where
new-IsSingle pending t ts s none_live new_id new_hash = record {
  unique_ids = (new_id, s.unique_ids);
  unique_hashes = (new_hash, s.unique_hashes);
  one_live = λ f. elim (Bool-cases (family_is f t)) [
    | inl e ↦
        let same : t.family ≡ f = text_eq→eq t.family f e in
        let vacant : live_in f ts + pending f ≡ 0 =
          ap (λ g. live_in g ts + pending g) (sym same) ∙ none_live in
        ground arith
    | inr e ↦ ground (arith, s.one_live f)
  ];
  pending_known = λ f h. ground (arith, s.pending_known f);
}

-- A family that owes a successor has no live token.
pub vacant-bump :
    (F : Text) (pending : Text → ℕ) (ts : List RefreshToken)
    → IsSingle (bump F pending) ts
    → live_in F ts + pending F ≡ 0
vacant-bump F pending ts s = ground (arith, s.one_live F, text_eq_refl F)

no_family : (f : Text) (ts : List RefreshToken) → knows f ts ≡ false → live_in f ts ≡ 0
unfolding count_where any_where
no_family f [] h = refl
no_family f (t ∷ ts) h = ground (arith, no_family f ts)

-- Nor has one that is new.
pub vacant_new :
    (F : Text) (pending : Text → ℕ) (ts : List RefreshToken)
    → IsSingle pending ts
    → knows F ts ≡ false
    → live_in F ts + pending F ≡ 0
vacant_new F pending ts s h = ground (arith, no_family F ts h, s.pending_known F)

pub link-IsGap : (k new_id : Text) → IsGap (λ s. (link_token k new_id s).1)
link-IsGap k new_id pending s i =
    let g : RefreshToken → RefreshToken = λ t. record t { replaced_by_id = some new_id } in
    elim (Bool-cases (any_where (id_is k) s.tokens)) [
      | inl e ↦ rw e (
        record {
          unique_ids = IsUniqueBy-update (λ t. t.id) (id_is k) g s.tokens (λ t. refl) i.unique_ids;
          unique_hashes =
              IsUniqueBy-update (λ t. t.token_hash) (id_is k) g s.tokens (λ t. refl)
                i.unique_hashes;
          one_live = λ f.
              rw (count-update (λ t. family_is f t && is_live t) (id_is k) g s.tokens (λ t. refl))
                (i.one_live f);
          pending_known = λ f h.
              any-update (family_is f) (id_is k) g s.tokens (λ t. refl) ∙ i.pending_known f h;
        },
        Evolves-update (id_is k) g s.tokens (λ t. refl) (λ t. (refl, refl, refl, λ x. x)),
      )
      | inr e ↦ rw e (i, Evolves-refl s.tokens)
    ]
