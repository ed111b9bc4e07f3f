-- ===== src/Sessions/Rotation.antt =====
-- The requests of a session keep one live token in each family, whatever others commit between their
-- statements.
use mrcoin.Base.{
  ℕ, ◌+◌, ◌≡◌, subst, inl, inr, Bool, true, false, ◌&&◌, List, some, arith, Bool-cases,
  Option-cases, ltb, ◌==◌,
}
use mrcoin.Base.Text.{Text}
use mrcoin.Base.Table.{find_where, count_where, any_where}
use mrcoin.Base.Unique.{find_key, count_key}
use mrcoin.Db.{Platform, and_then_keeps, ok}
use mrcoin.Sessions.{
  RefreshToken, Sessions, RequestMeta, Randomness, TokenKind, is_live, id_is, hash_is, family_is,
  is_some, find_token, revoke_where, create_refresh_token_record, new_token, link_token,
  link_successor, answer, replace_token, claim_token, reject_reuse, rotate_refresh_token,
  revoke_family, issue_token_pair, token_pair, revoke_refresh_token,
}
use mrcoin.Sessions.Single.{
  IsSingle, IsGap, Evolves, Evolves-refl, Evolves-trans, bump, revoke-IsSingle, Evolves-revoke,
  claim-IsSingle, IsSingle-unbump, Evolves-new, new-IsSingle, link-IsGap, knows, live_in,
  vacant-bump, vacant_new,
}

-- What a request has reached, with the successors that it and the others have to make.
abbrev Reached : (Text → ℕ) → List RefreshToken → Sessions → Type 0
Reached pending ts s = IsSingle pending s.tokens × Evolves ts s.tokens

Reached-gap :
    (g : Sessions → Sessions) (pending : Text → ℕ) (ts : List RefreshToken) (s : Sessions)
    → IsGap g
    → Reached pending ts s
    → Reached pending ts (g s)
Reached-gap g pending ts s is (i, e) =
    let (i', e') = is pending s i in (i', Evolves-trans ts s.tokens (g s).tokens e e')

pub revoke_where-IsGap :
    (p : Platform) (random : Randomness) (kind : TokenKind) (which : RefreshToken → Bool)
    → IsGap (revoke_where p random kind which)
unfolding revoke_where
revoke_where-IsGap p random kind which pending s i = (
  revoke-IsSingle (p.now s.ticks) which s.tokens pending i,
  Evolves-revoke (p.now s.ticks) which s.tokens,
)

-- A token is made, or the table refuses it.
create-IsSingle :
    (p : Platform) (random : Randomness) (kind : TokenKind) (owner family : Text)
    (meta : RequestMeta) (pending : Text → ℕ) (s : Sessions)
    → IsSingle pending s.tokens
    → live_in family s.tokens + pending family ≡ 0
    → Reached pending s.tokens (create_refresh_token_record p random kind owner family meta s).1
unfolding create_refresh_token_record
create-IsSingle p random kind owner family meta pending s i vacant =
    let t = new_token p random kind owner family meta s.ticks in
    elim (Bool-cases (any_where (id_is t.id) s.tokens)) [
      | inl e ↦ rw e (i, Evolves-refl s.tokens)
      | inr e ↦ elim (Bool-cases (any_where (hash_is t.token_hash) s.tokens)) [
        | inl e' ↦ rw (e, e') (i, Evolves-refl s.tokens)
        | inr e' ↦
            rw (e, e') (new-IsSingle pending t s.tokens i vacant e e', Evolves-new t s.tokens e)
      ]
    ]

module _ (p : Platform) (random : Randomness) (kind : TokenKind) (gap : ℕ → Sessions → Sessions)
    (gaps : (n : ℕ) → IsGap (gap n)) where
  link_successor-IsGap :
      (t : RefreshToken) (made : Text × Text)
      → IsGap (λ s. (link_successor p random kind gap t made s).1)
  unfolding link_successor
  link_successor-IsGap t made pending s i =
      and_then_keeps (Reached pending s.tokens) (link_token t.id made.1 (gap 2 s))
        (answer p random kind gap t made.0)
        (Reached-gap (λ u. (link_token t.id made.1 u).1) pending s.tokens (gap 2 s)
          (link-IsGap t.id made.1) (gaps 2 pending s i))
        (λ _ _ r. r)

  -- The rest of a rotation whose compare-and-set has succeeded.
  pub replace-IsSingle :
      (t : RefreshToken) (meta : RequestMeta) (pending : Text → ℕ) (s : Sessions)
      → IsSingle (bump t.family pending) s.tokens
      → Reached pending s.tokens (replace_token p random kind gap t meta s).1
  unfolding replace_token
  replace-IsSingle t meta pending s i =
      and_then_keeps (Reached pending s.tokens)
        (create_refresh_token_record p random kind t.owner_id t.family meta s)
        (link_successor p random kind gap t)
        (create-IsSingle p random kind t.owner_id t.family meta pending s
          (IsSingle-unbump t.family pending s.tokens i) (vacant-bump t.family pending s.tokens i))
        λ made s' r.
          Reached-gap (λ u. (link_successor p random kind gap t made u).1) pending s.tokens s'
            (link_successor-IsGap t made) r

  -- `existing` as it was read, and the row as it is now.
  claim_token-IsSingle :
      (t : RefreshToken) (meta : RequestMeta) (pending : Text → ℕ) (s : Sessions) (u : RefreshToken)
      → IsSingle pending s.tokens
      → find_where (id_is t.id) s.tokens ≡ some u
      → u.family ≡ t.family
      → Reached pending s.tokens (claim_token p random kind gap t meta s).1
  unfolding claim_token revoke_where
  claim_token-IsSingle t meta pending s u i found same =
      let counted = count_key (λ v. v.id) t.id is_live s.tokens u i.unique_ids found in
      elim (Bool-cases (is_live u)) [
        | inl alive ↦
            let some_left : (count_where (λ v. id_is t.id v && is_live v) s.tokens == 0) ≡ false =
              ground arith in
            let claimed = claim-IsSingle (p.now s.ticks) pending s.tokens t.id u i found alive in
            let s' : Sessions = revoke_where p random kind (id_is t.id) s in
            let owed : IsSingle (bump t.family pending) s'.tokens =
              subst (λ f. IsSingle (bump f pending) s'.tokens) same claimed in
            let (later, grown) = gaps 1 (bump t.family pending) s' owed in
            let (done, made) = replace-IsSingle t meta pending (gap 1 s') later in
            let first = Evolves-revoke (p.now s.ticks) (id_is t.id) s.tokens in
            rw some_left (done, Evolves-trans _ _ _ (Evolves-trans _ _ _ first grown) made)
        | inr dead ↦
            let none_left : (count_where (λ v. id_is t.id v && is_live v) s.tokens == 0) ≡ true =
              ground arith in
            rw none_left (i, Evolves-refl s.tokens)
      ]

  rotate-IsGap :
      (raw_token : Text) (meta : RequestMeta)
      → IsGap (λ s. (rotate_refresh_token p random kind gap raw_token meta s).1)
  unfolding rotate_refresh_token reject_reuse revoke_family
  rotate-IsGap raw_token meta pending s i =
      elim (Option-cases (find_token (p.sha256 raw_token) s)) [
        | inl e ↦ rw (rotate_refresh_token, e) (i, Evolves-refl s.tokens)
        | inr (t, e) ↦
            let (i0, e0) = gaps 0 pending s i in
            let known =
              find_key (λ v. v.id) (hash_is (p.sha256 raw_token)) s.tokens t i.unique_ids e in
            let (u, found, become) = e0 t.id t known in
            elim (Bool-cases (is_some t.revoked_at)) [
              | inl spent ↦
                  rw (rotate_refresh_token, e, spent)
                    (Reached-gap (gap 1) pending s.tokens
                      (revoke_where p random kind (family_is t.family) (gap 0 s)) (gaps 1)
                      (Reached-gap (revoke_where p random kind (family_is t.family)) pending
                        s.tokens (gap 0 s) (revoke_where-IsGap p random kind (family_is t.family))
                        (i0, e0)))
              | inr unspent ↦ elim (Bool-cases (ltb t.expires_at (p.now (gap 0 s).ticks))) [
                | inl old ↦ rw (rotate_refresh_token, e, unspent, old) (i0, e0)
                | inr fresh ↦
                    let (i1, e1) =
                      claim_token-IsSingle t meta pending (gap 0 s) u i0 found become.0 in
                    rw (rotate_refresh_token, e, unspent, fresh) (i1, Evolves-trans _ _ _ e0 e1)
              ]
            ]
      ]

-- A rotation, however it ends and whatever the other requests do between its statements, leaves at
-- most one live token in each family, and every row its family, its hash and its revocation.
pub rotate-IsSingle :
    (p : Platform) (random : Randomness) (kind : TokenKind) (gap : ℕ → Sessions → Sessions)
    (raw_token : Text) (meta : RequestMeta) (pending : Text → ℕ) (s : Sessions)
    → ((n : ℕ) → IsGap (gap n))
    → IsSingle pending s.tokens
    → IsSingle pending (rotate_refresh_token p random kind gap raw_token meta s).1.tokens
      × Evolves s.tokens (rotate_refresh_token p random kind gap raw_token meta s).1.tokens
rotate-IsSingle p random kind gap raw_token meta pending s gaps i =
    rotate-IsGap p random kind gap gaps raw_token meta pending s i

-- So does a login, whose family is new, and so do the revocations.
pub issue-IsSingle :
    (p : Platform) (random : Randomness) (kind : TokenKind) (owner : Text) (meta : RequestMeta)
    (pending : Text → ℕ) (s : Sessions)
    → knows (random.hex16 s.ticks) s.tokens ≡ false
    → IsSingle pending s.tokens
    → IsSingle pending (issue_token_pair p random kind owner meta s).1.tokens
      × Evolves s.tokens (issue_token_pair p random kind owner meta s).1.tokens
unfolding issue_token_pair
issue-IsSingle p random kind owner meta pending s fresh i =
    and_then_keeps (Reached pending s.tokens)
      (create_refresh_token_record p random kind owner (random.hex16 s.ticks) meta s)
      (λ made s'. (ok (token_pair p random kind owner made.0), s'))
      (create-IsSingle p random kind owner (random.hex16 s.ticks) meta pending s i
        (vacant_new (random.hex16 s.ticks) pending s.tokens i fresh))
      (λ _ _ r. r)

pub revoke_refresh_token-IsGap :
    (p : Platform) (random : Randomness) (kind : TokenKind) (raw_token : Text)
    → IsGap (revoke_refresh_token p random kind raw_token)
unfolding revoke_refresh_token
revoke_refresh_token-IsGap p random kind raw_token =
    revoke_where-IsGap p random kind (hash_is (p.sha256 raw_token))
