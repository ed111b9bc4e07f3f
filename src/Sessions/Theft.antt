-- ===== src/Sessions/Theft.antt =====
-- A refresh token works once: used again, it fails and takes its family with it.
use mrcoin.Base.{
  ℕ, ◌≡◌, refl, sym, subst, ap, ◌∙◌, inl, inr, Bool, true, false, ◌&&◌, List, [], ◌∷◌, some, arith,
  if◌then◌else◌, Bool-cases, ltb, ◌==◌,
}
use mrcoin.Base.Text.{Text, text_eq→eq}
use mrcoin.Base.Table.{find_where, update_where, count_where, find-update, find_meets}
use mrcoin.Base.Unique.{find_key, count_key}
use mrcoin.Db.{Platform, ok, err}
use mrcoin.Sessions.{
  RefreshToken, Sessions, RequestMeta, TokenPair, Randomness, TokenKind, is_live, is_some, revoke,
  id_is, hash_is, family_is, find_token, revoke_where, revoke_family, claim_token, reject_reuse,
  rotate_refresh_token,
}
use mrcoin.Sessions.Single.{IsSingle, IsGap, Evolves, Evolves-trans, bump, claim-IsSingle, live_in}
use mrcoin.Sessions.Rotation.{replace-IsSingle, rotate-IsSingle}

-- Nobody interferes.
abbrev pub quiet : ℕ → Sessions → Sessions
quiet _ s = s

-- The row k, with its family and its hash, is revoked.
abbrev pub Spent : Text → Text → Text → List RefreshToken → Type 0
Spent k f h ts =
    (u : RefreshToken) × (find_where (id_is k) ts ≡ some u)
    × (u.family ≡ f)
    × (u.token_hash ≡ h)
    × (is_live u ≡ false)

pub Spent-Evolves :
    (k f h : Text) (ts ts' : List RefreshToken) → Evolves ts ts' → Spent k f h ts → Spent k f h ts'
Spent-Evolves k f h ts ts' grown (u, found, fam, hash, dead) =
    let (u', found', become) = grown k u found in
    (u', found', become.0 ∙ fam, become.1 ∙ hash, become.3 dead)

pub revoke-Spent :
    (now : ℕ) (which : RefreshToken → Bool) (k : Text) (u : RefreshToken) (ts : List RefreshToken)
    → find_where (id_is k) ts ≡ some u
    → which u ≡ true
    → Spent k u.family u.token_hash (update_where (λ t. which t && is_live t) (revoke now) ts)
revoke-Spent now which k u ts found met =
    let seen : find_where (id_is k) (update_where (λ t. which t && is_live t) (revoke now) ts)
        ≡ some (if is_live u then revoke now u else u) =
      find-update (id_is k) (λ t. which t && is_live t) (revoke now) ts (λ t. refl)
      ∙ (rw (found, met) refl) in
    elim (Bool-cases (is_live u)) [
      | inl e ↦ (revoke now u, rw e at seen, refl, refl, refl)
      | inr e ↦ (u, rw e at seen, refl, refl, e)
    ]

family_emptied :
    (now : ℕ) (f : Text) (ts : List RefreshToken)
    → live_in f (update_where (λ t. family_is f t && is_live t) (revoke now) ts) ≡ 0
unfolding update_where count_where
family_emptied now f [] = refl
family_emptied now f (t ∷ ts) = ground (arith, family_emptied now f ts)

module _ (p : Platform) (random : Randomness) (kind : TokenKind) where
  -- A revoked token presented again.
  pub reuse :
      (raw_token : Text) (meta : RequestMeta) (pending : Text → ℕ) (s : Sessions) (k f : Text)
      → IsSingle pending s.tokens
      → Spent k f (p.sha256 raw_token) s.tokens
      → ((rotate_refresh_token p random kind quiet raw_token meta s).0 ≡ err kind.invalid_token)
        × (live_in f (rotate_refresh_token p random kind quiet raw_token meta s).1.tokens ≡ 0)
  unfolding rotate_refresh_token reject_reuse revoke_family revoke_where
  reuse raw_token meta pending s k f i (u, found, fam, hash, dead) =
      let found_hash = find_key (λ v. v.token_hash) (id_is k) s.tokens u i.unique_hashes found in
      let seen : find_token (p.sha256 raw_token) s ≡ some u =
        ap (λ h. find_where (hash_is h) s.tokens) (sym hash) ∙ found_hash in
      let spent : is_some u.revoked_at ≡ true = ground arith in
      rw (rotate_refresh_token, seen, spent, fam) (refl, family_emptied (p.now s.ticks) f s.tokens)

  module _ (gap : ℕ → Sessions → Sessions) (gaps : (n : ℕ) → IsGap (gap n)) where
    -- A rotation that succeeds has revoked the token.
    claim-Spent :
        (t : RefreshToken) (meta : RequestMeta) (pending : Text → ℕ) (s : Sessions)
        (u : RefreshToken) (pair : TokenPair)
        → IsSingle pending s.tokens
        → find_where (id_is t.id) s.tokens ≡ some u
        → u.family ≡ t.family
        → (claim_token p random kind gap t meta s).0 ≡ ok pair
        → Spent t.id u.family u.token_hash (claim_token p random kind gap t meta s).1.tokens
    unfolding claim_token revoke_where
    claim-Spent t meta pending s u pair i found same success =
        let counted = count_key (λ v. v.id) t.id is_live s.tokens u i.unique_ids found in
        elim (Bool-cases (is_live u)) [
          | inl alive ↦
              let some_left : (count_where (λ v. id_is t.id v && is_live v) s.tokens == 0) ≡ false =
                ground arith in
              let s' : Sessions = revoke_where p random kind (id_is t.id) s in
              let met = find_meets (id_is t.id) s.tokens u found in
              let spent = revoke-Spent (p.now s.ticks) (id_is t.id) t.id u s.tokens found met in
              let claimed = claim-IsSingle (p.now s.ticks) pending s.tokens t.id u i found alive in
              let owed : IsSingle (bump t.family pending) s'.tokens =
                subst (λ f. IsSingle (bump f pending) s'.tokens) same claimed in
              let (later, grown) = gaps 1 (bump t.family pending) s' owed in
              let (_, made) =
                replace-IsSingle p random kind gap gaps t meta pending (gap 1 s') later in
              rw some_left (
                Spent-Evolves t.id u.family u.token_hash s'.tokens _
                  (Evolves-trans _ _ _ grown made) spent)
          | inr dead ↦
              let none_left : (count_where (λ v. id_is t.id v && is_live v) s.tokens == 0) ≡ true =
                ground arith in
              absurd (let bad = rw (claim_token, none_left) at success in cc)
        ]

    rotated-Spent :
        (raw_token : Text) (meta : RequestMeta) (pending : Text → ℕ) (s : Sessions)
        (t : RefreshToken) (pair : TokenPair)
        → IsSingle pending s.tokens
        → find_token (p.sha256 raw_token) s ≡ some t
        → (rotate_refresh_token p random kind gap raw_token meta s).0 ≡ ok pair
        → Spent t.id t.family
            (p.sha256 raw_token)
            (rotate_refresh_token p random kind gap raw_token meta s).1.tokens
    unfolding rotate_refresh_token reject_reuse
    rotated-Spent raw_token meta pending s t pair i e success =
        let (i0, e0) = gaps 0 pending s i in
        let known = find_key (λ v. v.id) (hash_is (p.sha256 raw_token)) s.tokens t i.unique_ids e in
        let (u, found, become) = e0 t.id t known in
        let hashed =
          text_eq→eq t.token_hash (p.sha256 raw_token)
            (find_meets (hash_is (p.sha256 raw_token)) s.tokens t e) in
        elim (Bool-cases (is_some t.revoked_at)) [
          | inl spent ↦ absurd (let bad = rw (rotate_refresh_token, e, spent) at success in cc)
          | inr unspent ↦ elim (Bool-cases (ltb t.expires_at (p.now (gap 0 s).ticks))) [
            | inl old ↦
                absurd (let bad = rw (rotate_refresh_token, e, unspent, old) at success in cc)
            | inr fresh ↦
                let done = rw (rotate_refresh_token, e, unspent, fresh) at success in
                let (v, there, fam, hash, dead) =
                  claim-Spent t meta pending (gap 0 s) u pair i0 found become.0 done in
                rw (rotate_refresh_token, e, unspent, fresh)
                  (v, there, fam ∙ become.0, hash ∙ (become.1 ∙ hashed), dead)
          ]
        ]

-- A token that a rotation has exchanged works no more, whatever else happened during the rotation and
-- since: presented again it is refused, and then its family has no live token left.
pub rotated_once :
    (p : Platform) (random : Randomness) (kind : TokenKind) (gap : ℕ → Sessions → Sessions)
    (later : Sessions → Sessions) (raw_token : Text) (meta again : RequestMeta) (pending : Text → ℕ)
    (s s' : Sessions) (t : RefreshToken) (pair : TokenPair)
    → ((n : ℕ) → IsGap (gap n))
    → IsGap later
    → IsSingle pending s.tokens
    → find_token (p.sha256 raw_token) s ≡ some t
    → rotate_refresh_token p random kind gap raw_token meta s ≡ (ok pair, s')
    → ((rotate_refresh_token p random kind quiet raw_token again (later s')).0
        ≡ err kind.invalid_token)
      × (live_in t.family
            (rotate_refresh_token p random kind quiet raw_token again (later s')).1.tokens
          ≡ 0)
rotated_once p random kind gap later raw_token meta again pending s s' t pair gaps after i found
      success =
    let spent =
      rotated-Spent p random kind gap gaps raw_token meta pending s t pair i found
        (ap (λ r. r.0) success) in
    let (single, _) = rotate-IsSingle p random kind gap raw_token meta pending s gaps i in
    let spent' = subst (λ r. Spent t.id t.family (p.sha256 raw_token) r.1.tokens) success spent in
    let single' = subst (λ r. IsSingle pending r.1.tokens) success single in
    let (single'', grown) = after pending s' single' in
    reuse p random kind raw_token again pending (later s') t.id t.family single''
      (Spent-Evolves t.id t.family (p.sha256 raw_token) s'.tokens (later s').tokens grown spent')
