-- ===== src/Sessions/View.antt =====
-- What a client sees of the sessions: who is logged in by which token. A rotation refines the exchange
-- of one token for another.
use mrcoin.Base.{
  ℕ, ◌≡◌, refl, sym, subst, ap, ◌∙◌, ◌⊎◌, inl, inr, Bool, true, false, ◌&&◌, List, ◌∷◌, Option,
  none, some, arith, if◌then◌else◌, Bool-cases, Option-cases, ltb, ◌==◌,
}
use mrcoin.Base.Text.{Text, text_eq, text_eq_refl, text_eq→eq}
use mrcoin.Base.Table.{
  find_where, update_where, count_where, any_where, find-update, find_meets, find-All, any-update,
  any_of_find,
}
use mrcoin.Base.Unique.{IsUniqueBy, find_key, count_key, only_one}
use mrcoin.Db.{Platform, Result, ok, err}
use mrcoin.Sessions.{
  RefreshToken, Sessions, RequestMeta, TokenPair, Randomness, TokenKind, is_live, is_some, revoke,
  id_is, hash_is, family_is, find_token, revoke_where, revoke_family, create_refresh_token_record,
  new_token, link_successor, replace_token, claim_token, reject_reuse, rotate_refresh_token,
}
use mrcoin.Sessions.Theft.{quiet}

abbrev held : RefreshToken → Option Text
held t = if is_live t then some t.owner_id else none

abbrev held_opt : Option RefreshToken → Option Text
held_opt none = none
held_opt (some t) = held t

-- The abstract state: the owner whom a token's hash logs in, its expiry aside.
abbrev pub View : Type 0
View = Text → Option Text

abbrev pub view : Sessions → View
view s h = held_opt (find_token h s)

-- The abstract operation: `new` takes the place of `old`.
abbrev pub exchange : Text → Text → View → View
exchange old new v h = if text_eq new h then v old else if text_eq old h then none else v h

-- What the specification allows a rotation of `raw_token`: it exchanges the token, or fails, when
-- nobody gains a session.
abbrev pub RefinesExchange : (Text → Text) → Text → View → Result TokenPair → View → Type 0
RefinesExchange hash raw_token v (ok pair) v' =
    (h : Text) → v' h ≡ exchange (hash raw_token) (hash pair.refresh_token) v h
RefinesExchange hash raw_token v (err _) v' = (h : Text) → (v' h ≡ v h) ⊎ (v' h ≡ none)

module _ (now : ℕ) (which : RefreshToken → Bool) (s : Sessions) where
  view_revoked :
      (h : Text)
      → held_opt
          (find_where (hash_is h) (update_where (λ t. which t && is_live t) (revoke now) s.tokens))
        ≡ (elim (find_token h s) [ none ↦ none | some t ↦ if which t then none else held t ])
  view_revoked h = elim (Option-cases (find_token h s)) [
    | inl e ↦
        rw
          (find-update (hash_is h) (λ t. which t && is_live t) (revoke now) s.tokens (λ t. refl), e)
          refl
    | inr (t, e) ↦
        rw
          (find-update (hash_is h) (λ t. which t && is_live t) (revoke now) s.tokens (λ t. refl), e)
          (ground arith)
  ]

  view_lost :
      (h : Text)
      → (held_opt (
            find_where (hash_is h) (update_where (λ t. which t && is_live t) (revoke now) s.tokens))
          ≡ view s h)
        ⊎ (held_opt (
              find_where
                (hash_is h)
                (update_where (λ t. which t && is_live t) (revoke now) s.tokens))
            ≡ none)
  view_lost h = elim (Option-cases (find_token h s)) [
    | inl e ↦ inr (view_revoked h ∙ (rw e refl))
    | inr (t, e) ↦ elim (Bool-cases (which t)) [
      | inl met ↦ inr (view_revoked h ∙ (rw (e, met) refl))
      | inr met ↦ inl (view_revoked h ∙ (rw (e, met) refl))
    ]
  ]

view_linked :
    (k new_id : Text) (ts : List RefreshToken) (h : Text)
    → held_opt (
        find_where
          (hash_is h)
          (update_where (id_is k) (λ t. record t { replaced_by_id = some new_id }) ts))
      ≡ held_opt (find_where (hash_is h) ts)
view_linked k new_id ts h =
    let seen =
      find-update (hash_is h) (id_is k) (λ t. record t { replaced_by_id = some new_id }) ts
        (λ t. refl) in
    elim (Option-cases (find_where (hash_is h) ts)) [
      | inl e ↦ rw (seen, e) refl
      | inr (t, e) ↦ rw (seen, e) (ground arith)
    ]

-- The compare-and-set takes one token's session away.
view_claimed :
    (now : ℕ) (s : Sessions) (hash : Text) (t : RefreshToken)
    → IsUniqueBy (λ u. u.id) s.tokens
    → find_token hash s ≡ some t
    → (h : Text)
    → held_opt (
        find_where
          (hash_is h)
          (update_where (λ u. id_is t.id u && is_live u) (revoke now) s.tokens))
      ≡ (if text_eq hash h then none else view s h)
view_claimed now s hash t unique found h =
    view_revoked now (id_is t.id) s h ∙ (elim (Option-cases (find_token h s)) [
      | inl e ↦ rw e (ground arith)
      | inr (v, e) ↦ elim (Bool-cases (id_is t.id v)) [
        | inl is ↦
            let only =
              only_one (λ u. u.id) t.id s.tokens t unique
                (find_key (λ u. u.id) (hash_is hash) s.tokens t unique found) in
            let same : v ≡ t =
              find-All (λ u. id_is t.id u ≡ true → u ≡ t) (hash_is h) s.tokens v only e is in
            let a = text_eq→eq t.token_hash hash (find_meets (hash_is hash) s.tokens t found) in
            let b = text_eq→eq v.token_hash h (find_meets (hash_is h) s.tokens v e) in
            let hs : hash ≡ h = sym a ∙ (ap (λ u. u.token_hash) (sym same) ∙ b) in
            let met : text_eq hash h ≡ true =
              subst (λ g. text_eq hash g ≡ true) hs (text_eq_refl hash) in
            rw (e, is, met) refl
        | inr other ↦ elim (Bool-cases (text_eq hash h)) [
          | inl eq ↦
              let hs : hash ≡ h = text_eq→eq hash h eq in
              let found' : find_token h s ≡ some t =
                subst (λ g. find_token g s ≡ some t) hs found in
              let same : v ≡ t = ground arith in
              absurd
                (let is = subst (λ u. id_is t.id u ≡ true) (sym same) (text_eq_refl t.id) in cc)
          | inr ne ↦ rw (e, other, ne) refl
        ]
      ]
    ])

any_grown :
    (t : RefreshToken) (ts : List RefreshToken) (k : Text)
    → any_where (id_is k) ts ≡ true
    → any_where (id_is k) (t ∷ ts) ≡ true
unfolding any_where
any_grown t ts k h = ground arith

view_new :
    (t : RefreshToken) (ts : List RefreshToken) (h : Text)
    → held_opt (find_where (hash_is h) (t ∷ ts))
      ≡ (if text_eq t.token_hash h then held t else held_opt (find_where (hash_is h) ts))
unfolding find_where
view_new t ts h = ground arith

module _ (p : Platform) (random : Randomness) (kind : TokenKind) where
  -- The token is revoked: its successor is made, or the table refuses it.
  refines_replace :
      (raw_token : Text) (meta : RequestMeta) (s s1 : Sessions) (t : RefreshToken)
      → ((h : Text) → view s1 h ≡ (if text_eq (p.sha256 raw_token) h then none else view s h))
      → view s (p.sha256 raw_token) ≡ some t.owner_id
      → any_where (id_is t.id) s1.tokens ≡ true
      → RefinesExchange p.sha256 raw_token
          (view s)
          (replace_token p random kind quiet t meta s1).0
          (view (replace_token p random kind quiet t meta s1).1)
  unfolding replace_token create_refresh_token_record link_successor
  refines_replace raw_token meta s s1 t claimed before there =
      let new = new_token p random kind t.owner_id t.family meta s1.ticks in
      let failed : (h : Text) → (view s1 h ≡ view s h) ⊎ (view s1 h ≡ none) = λ h.
        elim (Bool-cases (text_eq (p.sha256 raw_token) h)) [
          | inl e ↦ inr (claimed h ∙ (rw e refl))
          | inr e ↦ inl (claimed h ∙ (rw e refl))
        ] in
      elim (Bool-cases (any_where (id_is new.id) s1.tokens)) [
        | inl e ↦ rw (replace_token, create_refresh_token_record, e) failed
        | inr e ↦ elim (Bool-cases (any_where (hash_is new.token_hash) s1.tokens)) [
          | inl e' ↦ rw (replace_token, create_refresh_token_record, e, e') failed
          | inr e' ↦
              let grown : any_where (id_is t.id) (new ∷ s1.tokens) ≡ true =
                any_grown new s1.tokens t.id there in
              rw (replace_token, create_refresh_token_record, e, e', link_successor, grown)
                (λ h.
                  view_linked t.id new.id (new ∷ s1.tokens) h
                  ∙ (view_new new s1.tokens h ∙ (rw (before, claimed h) refl)))
        ]
      ]

  -- The token was live: it is revoked, and its successor made.
  refines_claim :
      (raw_token : Text) (meta : RequestMeta) (s : Sessions) (t : RefreshToken)
      → IsUniqueBy (λ u. u.id) s.tokens
      → find_token (p.sha256 raw_token) s ≡ some t
      → is_live t ≡ true
      → RefinesExchange p.sha256 raw_token
          (view s)
          (claim_token p random kind quiet t meta s).0
          (view (claim_token p random kind quiet t meta s).1)
  unfolding claim_token revoke_where
  refines_claim raw_token meta s t unique found alive =
      let known = find_key (λ u. u.id) (hash_is (p.sha256 raw_token)) s.tokens t unique found in
      let counted = count_key (λ u. u.id) t.id is_live s.tokens t unique known in
      let some_left : (count_where (λ u. id_is t.id u && is_live u) s.tokens == 0) ≡ false =
        ground arith in
      let there =
        any-update (id_is t.id) (λ u. id_is t.id u && is_live u) (revoke (p.now s.ticks)) s.tokens
          (λ u. refl)
        ∙ any_of_find (id_is t.id) (id_is t.id) s.tokens t known (text_eq_refl t.id) in
      rw (claim_token, some_left)
        (refines_replace raw_token meta s (revoke_where p random kind (id_is t.id) s) t
          (view_claimed (p.now s.ticks) s (p.sha256 raw_token) t unique found)
          (rw found (ground arith)) there)

-- A rotation with nobody interfering refines the exchange of the token for its successor.
pub rotate-RefinesExchange :
    (p : Platform) (random : Randomness) (kind : TokenKind) (raw_token : Text) (meta : RequestMeta)
    (s : Sessions)
    → IsUniqueBy (λ u. u.id) s.tokens
    → RefinesExchange p.sha256 raw_token
        (view s)
        (rotate_refresh_token p random kind quiet raw_token meta s).0
        (view (rotate_refresh_token p random kind quiet raw_token meta s).1)
unfolding rotate_refresh_token reject_reuse revoke_family revoke_where
rotate-RefinesExchange p random kind raw_token meta s unique =
    elim (Option-cases (find_token (p.sha256 raw_token) s)) [
      | inl e ↦ rw (rotate_refresh_token, e) (λ h. inl refl)
      | inr (t, e) ↦ elim (Bool-cases (is_some t.revoked_at)) [
        | inl spent ↦
            rw (rotate_refresh_token, e, spent) (view_lost (p.now s.ticks) (family_is t.family) s)
        | inr unspent ↦ elim (Bool-cases (ltb t.expires_at (p.now s.ticks))) [
          | inl old ↦ rw (rotate_refresh_token, e, unspent, old) (λ h. inl refl)
          | inr fresh ↦
              let alive : is_live t ≡ true = ground arith in
              rw (rotate_refresh_token, e, unspent, fresh)
                (refines_claim p random kind raw_token meta s t unique e alive)
        ]
      ]
    ]
