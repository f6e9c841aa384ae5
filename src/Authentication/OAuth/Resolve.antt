-- ===== src/Authentication/OAuth/Resolve.antt =====
-- Whose account a sign-in through a provider leads to.
use b4fast_api.Prelude.{
  ℕ, ◌≡◌, ◌⊎◌, refl, ◌∙◌, Bool, true, false, ◌&&◌, Option, none, some, List, [], ◌∷◌, ◌==◌,
  find_row, any_row, find_row_sound, Bool-cases, Option-cases, inl, inr, arith,
}
use b4fast_api.Cache.{Redis}
use b4fast_api.Cache.Keys.{Key, Value, key_eq}
use b4fast_api.Accounts.{
  User, AuthUser, same_identity, same_user, Tables, Accounts, Reply, replied, refused, Welcome,
  NewIds, user_role, user_rows, new_user, new_identity, add_account, get_auth_user_by_id,
  get_auth_user_by_identity, create_oauth_user,
}
use b4fast_api.Accounts.Signup.{
  IsGrown, IsAdded, insert-IsGrown, add_account-IsAdded, find_row-grown,
}
use b4fast_api.Accounts.Profile.{get_user_response_by_email, link_auth_identity}
use b4fast_api.Authentication.{
  AuthErrorCode, continue, Meets, Env, World, Request, welcome_mail, send_welcome_email,
}
use b4fast_api.Authentication.Refresh.Genuine.{require-Meets, require_or-Meets}
use b4fast_api.Authentication.Renewal.{user_of_identity}
use b4fast_api.Authentication.OAuth.{
  OauthIdentityProfile, OauthDraws, provider_value, oauth_created, created_user, linked_user,
  resolve_existing, resolve_identity, resolve_oauth_user,
}

module _ (D : Tables) where
  -- What linking an identity leaves: the identity names the user of its id, or nothing changed.
  pub link-by_identity :
      (id user provider identifier : ℕ) (s : Accounts D)
      → (link_auth_identity D id user provider identifier s).0 ≡ true
      → get_auth_user_by_identity D provider identifier
          (link_auth_identity D id user provider identifier s).1
        ≡ get_auth_user_by_id D user (link_auth_identity D id user provider identifier s).1
  unfolding link_auth_identity get_auth_user_by_identity
  link-by_identity id user provider identifier s linked =
      let grown =
        insert-IsGrown D.identities (new_identity id user provider identifier) s.identities in
      elim (Option-cases
        (D.identities.insert (new_identity id user provider identifier) s.identities)) [
          | inl e ↦ cc (rw e at linked)
          | inr (t, e) ↦
              let h : IsGrown D.identities (new_identity id user provider identifier) s.identities
                  t =
                rw e at grown in
              rw
                (
                  e,
                  h.grown,
                  find_row-grown (λ i. i.provider == provider && i.identifier == identifier)
                      (same_identity (new_identity id user provider identifier))
                      (new_identity id user provider identifier) (D.identities.rows s.identities)
                      (λ y f. ground (arith, f)) h.free (ground arith),
                )
                refl
        ]

  pub link-refused :
      (id user provider identifier : ℕ) (s : Accounts D)
      → (link_auth_identity D id user provider identifier s).0 ≡ false
      → (link_auth_identity D id user provider identifier s).1 ≡ s
  unfolding link_auth_identity
  link-refused id user provider identifier s e =
      elim (Option-cases
        (D.identities.insert (new_identity id user provider identifier) s.identities)) [
          | inl f ↦ rw f refl
          | inr (t, f) ↦ cc (rw f at e)
        ]

  pub link-by_id :
      (id user provider identifier other : ℕ) (s : Accounts D)
      → get_auth_user_by_id D other (link_auth_identity D id user provider identifier s).1
        ≡ get_auth_user_by_id D other s
  unfolding link_auth_identity get_auth_user_by_id
  link-by_id id user provider identifier other s =
      elim (Option-cases
        (D.identities.insert (new_identity id user provider identifier) s.identities)) [
          | inl f ↦ rw f refl
          | inr (t, f) ↦ rw f refl
        ]

  find-some :
      (p q : User → Bool) (us : List User) (v : User)
      → find_row p us ≡ some v
      → q v ≡ true
      → (u : User) × (find_row q us ≡ some u)
  find-some p q [] v e h = cc
  find-some p q (x ∷ us) v e h = elim (Bool-cases (q x)) [
    | inl t ↦ (x, rw t refl)
    | inr f ↦ elim (Bool-cases (p x)) [
      | inl here ↦ let same : x ≡ v = cc (rw here at e) in cc (rw same at f, h)
      | inr later ↦ rw f (find-some p q us v (rw later at e) h)
    ]
  ]

  -- A user that an e-mail finds is found by its id.
  by_email-found :
      (email : ℕ) (v : User) (s : Accounts D)
      → get_user_response_by_email D email s ≡ some v
      → (u : AuthUser) × (get_auth_user_by_id D v.id s ≡ some u)
  unfolding get_user_response_by_email get_auth_user_by_id
  by_email-found email v s e =
      let fits : (v.email == email && v.is_active) ≡ true =
        find_row_sound (λ u. u.email == email && u.is_active) (user_rows D s) e in
      let (u, there) =
        find-some (λ u. u.email == email && u.is_active) (λ u. u.id == v.id && u.is_active)
          (user_rows D s) v e (ground (arith, fits)) in
      rw there (_, refl)

  -- The account that a sign-up through a provider adds is found by its identity.
  added-by_identity :
      (ids : NewIds) (user : User) (provider identifier : ℕ) (s t : Accounts D)
      → user.is_active ≡ true
      → IsAdded D ids user none (new_identity ids.identity user.id provider identifier) s t
      → (u : AuthUser) × (get_auth_user_by_identity D provider identifier t ≡ some u)
        × (get_auth_user_by_id D user.id t ≡ some u)
  unfolding get_auth_user_by_identity get_auth_user_by_id
  added-by_identity ids user provider identifier s t active added =
      let i =
        find_row-grown (λ i. i.provider == provider && i.identifier == identifier)
          (same_identity (new_identity ids.identity user.id provider identifier))
          (new_identity ids.identity user.id provider identifier) (D.identities.rows s.identities)
          (λ y e. ground (arith, e)) added.identities.free (ground arith) in
      let u =
        find_row-grown (λ u. u.id == user.id && u.is_active) (same_user user) user
          (D.users.rows s.users) (λ y e. ground (arith, e)) added.users.free
          (ground (arith, active)) in
      rw (added.identities.grown, i, added.users.grown, u) (_, refl, refl)

  created-by_identity :
      (welcome : Welcome) (ids : NewIds) (now email name provider identifier : ℕ)
      (is_verified : Bool) (s : Accounts D)
      → (user : User) (t : Accounts D)
      → create_oauth_user D welcome ids now email name provider identifier is_verified user_role s
        ≡ replied user t
      → (u : AuthUser) × (get_auth_user_by_identity D provider identifier t ≡ some u)
        × (u.user.id ≡ ids.user)
  unfolding create_oauth_user
  created-by_identity welcome ids now email name provider identifier is_verified s user t e =
      let added =
        add_account-IsAdded D welcome ids now (new_user ids.user email name is_verified user_role)
          none provider identifier s in
      elim (Bool-cases (any_row (λ u. u.email == email) (user_rows D s))) [
        | inl taken ↦ cc (rw taken at e)
        | inr free ↦
            elim (Option-cases (
              add_account D welcome ids now (new_user ids.user email name is_verified user_role)
                none provider identifier s)) [
                  | inl f ↦ cc (rw (free, f) at e)
                  | inr (t', f) ↦
                      let same : t' ≡ t = cc (rw (free, f) at e) in
                      let (u, named, by_id) =
                        added-by_identity ids (new_user ids.user email name is_verified user_role)
                          provider identifier s t' refl (rw f at added) in
                      (u, rw⁻¹ same named, user_of_identity D ids.user u t' by_id)
                ]
      ]

module _ (E : Env) (R : Redis Key Value key_eq) (D : Tables) (welcome : Welcome) (req : Request)
    (draws : OauthDraws) (profile : OauthIdentityProfile) where
  abbrev pub by_identity : Accounts D → Option AuthUser
  by_identity s =
      get_auth_user_by_identity D (provider_value profile.provider) profile.provider_user_id s

  pub record IsResolved (w : World R D) (u : AuthUser) (w' : World R D) : Type 0 where
    pub verified : profile.email_verified ≡ true
    pub named : by_identity w'.db ≡ some u
    pub origin :
        (by_identity w.db ≡ some u)
        ⊎ ((v : User) × (by_identity w.db ≡ none)
            × (get_user_response_by_email D profile.email w.db ≡ some v)
            × (u.user.id ≡ v.id))
        ⊎ ((by_identity w.db ≡ none)
            × (get_user_response_by_email D profile.email w.db ≡ none)
            × (u.user.id ≡ draws.ids.user))

  abbrev pub Unchanged : World R D → AuthErrorCode → World R D → Type 0
  Unchanged w e w' = w' ≡ w

  linked-IsResolved :
      (v : User) (o : Option AuthUser) (w w1 : World R D)
      → profile.email_verified ≡ true
      → by_identity w.db ≡ none
      → get_user_response_by_email D profile.email w.db ≡ some v
      → (u : AuthUser) × (o ≡ some u)
      → by_identity w1.db ≡ o
      → get_auth_user_by_id D v.id w1.db ≡ o
      → Meets (IsResolved w) (Unchanged w) (linked_user E R D o w1)
  linked-IsResolved v none w w1 verified new e (u, there) named by_id = cc
  linked-IsResolved v (some u) w w1 verified new e there named by_id = record {
    verified = verified;
    named = named;
    origin = inr (inl (v, new, e, user_of_identity D v.id u w1.db by_id));
  }

  created-IsResolved :
      (reply : Reply User (Accounts D)) (w : World R D)
      → profile.email_verified ≡ true
      → by_identity w.db ≡ none
      → get_user_response_by_email D profile.email w.db ≡ none
      → ((user : User) (t : Accounts D)
          → reply ≡ replied user t
          → (u : AuthUser) × (by_identity t ≡ some u) × (u.user.id ≡ draws.ids.user))
      → Meets (IsResolved w) (Unchanged w) (
          continue
            (oauth_created E R D w reply)
            (λ _ w1. created_user E R D (by_identity w1.db) w1))
  unfolding send_welcome_email
  created-IsResolved (refused e) w verified new absent found = refl
  created-IsResolved (replied user t) w verified new absent found =
      let (u, named, own) = found user t refl in
      rw named (elim (Bool-cases (E.publish (welcome_mail u.user.id))) [
        | inl sent ↦
            rw sent
              (record { verified = verified; named = named; origin = inr (inr (new, absent, own)) })
        | inr lost ↦
            rw lost
              (record { verified = verified; named = named; origin = inr (inr (new, absent, own)) })
      ])

  existing-IsResolved :
      (o : Option User) (w : World R D)
      → profile.email_verified ≡ true
      → by_identity w.db ≡ none
      → get_user_response_by_email D profile.email w.db ≡ o
      → Meets (IsResolved w) (Unchanged w) (resolve_existing E R D welcome req draws profile o w)
  existing-IsResolved none w verified new e = created-IsResolved _ w verified new e (
      created-by_identity D welcome draws.ids req.now profile.email profile.name
        (provider_value profile.provider) profile.provider_user_id profile.email_verified w.db)
  existing-IsResolved (some v) w verified new e =
      let p = provider_value profile.provider in
      let (u, there) = by_email-found D profile.email v w.db e in
      require_or-Meets (link_auth_identity D draws.linked_id v.id p profile.provider_user_id w.db).0
        _ _ _ (IsResolved w) (Unchanged w)
        (λ refused.
          rw (link-refused D draws.linked_id v.id p profile.provider_user_id w.db refused) refl)
        (λ linked.
          linked-IsResolved v _ w _ verified new e
            (u, link-by_id D draws.linked_id v.id p profile.provider_user_id v.id w.db ∙ there)
            (link-by_identity D draws.linked_id v.id p profile.provider_user_id w.db linked) refl)

  identity-IsResolved :
      (o : Option AuthUser) (w : World R D)
      → profile.email_verified ≡ true
      → by_identity w.db ≡ o
      → Meets (IsResolved w) (Unchanged w) (resolve_identity E R D welcome req draws profile o w)
  identity-IsResolved none w verified e = existing-IsResolved _ w verified e refl
  identity-IsResolved (some u) w verified e = record {
    verified = verified;
    named = e;
    origin = inl e;
  }

  -- A provider's profile leads to a user that its identity names from then on, and its e-mail is
  -- verified: the user that the identity named already; else, where it named none, the active user
  -- with the e-mail; else, where neither was there, a new one. A profile that is refused changes
  -- nothing.
  pub resolve_oauth_user-IsResolved :
      (w : World R D)
      → Meets (IsResolved w) (Unchanged w) (resolve_oauth_user E R D welcome req draws profile w)
  unfolding resolve_oauth_user
  resolve_oauth_user-IsResolved w =
      require-Meets profile.email_verified _ _ w (IsResolved w) (Unchanged w) refl
        (λ verified. identity-IsResolved _ w verified refl)
