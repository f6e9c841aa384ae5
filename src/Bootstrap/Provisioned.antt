-- ===== src/Bootstrap/Provisioned.antt =====
-- What a provisioning changes, and that it can be repeated.
use b4fast_api.Prelude.{
  ℕ, ◌≡◌, ◌⊎◌, refl, sym, ap, subst, ◌∙◌, Bool, true, false, not, ◌&&◌, Option, none, some, [], ◌∷◌,
  ◌++◌, ◌==◌, if◌then◌else◌, any_row, Bool-cases, Option-cases, inl, inr,
}
use b4fast_api.Accounts.{
  User, AuthUser, admin_role, Tables, Accounts, Welcome, NewIds, user_rows, new_user, new_identity,
  add_account, create_oauth_user, get_auth_user_by_identity,
}
use b4fast_api.Accounts.Signup.{IsAdded, add_account-IsAdded}
use b4fast_api.Accounts.Profile.{get_user_response_by_email}
use b4fast_api.Bootstrap.{
  BootstrapSettings, after_creation, provision, is_own, checked, initialize_named, initialize,
}

if_true : {A : Type 0} (b : Bool) (x y : A) → b ≡ true → (if b then x else y) ≡ x
if_true true x y e = refl
if_true false x y e = cc

if_false : {A : Type 0} (b : Bool) (x y : A) → b ≡ false → (if b then x else y) ≡ y
if_false true x y e = cc
if_false false x y e = refl

module _ (E : BootstrapSettings) (D : Tables) (welcome : Welcome) (ids : NewIds) (now : ℕ) where
  -- No row of a user changes: there is one more at most, with an e-mail that no row had.
  abbrev pub KeepsUsers : Accounts D → Accounts D → Type 0
  KeepsUsers s t =
      (user_rows D t ≡ user_rows D s)
      ⊎ ((user : User) × (user_rows D t ≡ user_rows D s ++ user ∷ [])
          × (any_row (λ u. u.email == user.email) (user_rows D s) ≡ false))

  creation-KeepsUsers :
      (email name : ℕ) (s : Accounts D)
      → KeepsUsers s (
          after_creation E D s
            (create_oauth_user D welcome ids now email name E.provider email true admin_role s))
  unfolding create_oauth_user
  creation-KeepsUsers email name s =
      let user = new_user ids.user email name true admin_role in
      let added = add_account-IsAdded D welcome ids now user none E.provider email s in
      elim (Bool-cases (any_row (λ u. u.email == email) (user_rows D s))) [
        | inl taken ↦ rw taken (inl refl)
        | inr free ↦
            elim (Option-cases (add_account D welcome ids now user none E.provider email s)) [
              | inl f ↦ rw (free, f) (inl refl)
              | inr (t, f) ↦
                  let a : IsAdded D ids user none
                      (new_identity ids.identity user.id E.provider email) s t =
                    rw f at added in
                  rw (free, f) (inr (user, a.users.grown, free))
            ]
      ]

  provision-KeepsUsers :
      (email name : ℕ) (s : Accounts D) (o : Option User)
      → KeepsUsers s (provision E D welcome ids now email name s o)
  provision-KeepsUsers email name s none = creation-KeepsUsers email name s
  provision-KeepsUsers email name s (some user) = inl refl

  -- The user that a provisioning answers, with what it rests on, and the same answer again.
  pub record IsOwned (user : User) (t : Accounts D) : Type 0 where
    pub email : ℕ
    pub identity : AuthUser
    pub by_email : get_user_response_by_email D email t ≡ some user
    pub by_identity : get_auth_user_by_identity D E.provider email t ≡ some identity
    pub own : is_own E D user identity ≡ true
    pub again :
        (welcome' : Welcome) (ids' : NewIds) (now' : ℕ)
        → initialize E D welcome' ids' now' t ≡ (some user, t)

  abbrev pub Outcome : Accounts D → Option User → Type 0
  Outcome t none = Unit
  Outcome t (some user) = IsOwned user t

  -- What a provisioning leaves and answers.
  pub record IsProvisioned (s : Accounts D) (r : Option User × Accounts D) : Type 0 where
    pub kept : KeepsUsers s r.1
    pub answer : Outcome r.1 r.0

  checked_lem :
      (o : Option User) (i : Option AuthUser) (user : User)
      → checked E D o i ≡ some user
      → (o ≡ some user)
        × (identity : AuthUser) × (i ≡ some identity)
        × (is_own E D user identity ≡ true)
  checked_lem none i user e = cc
  checked_lem (some u) none user e = cc
  checked_lem (some u) (some i) user e = elim (Bool-cases (is_own E D u i)) [
    | inr f ↦ cc (rw f at e)
    | inl t ↦
        let same : u ≡ user = cc (rw t at e) in
        (ap some same, i, refl, subst (λ v. is_own E D v i ≡ true) same t)
  ]

  provision_found :
      (email name : ℕ) (t : Accounts D) (user : User) (welcome' : Welcome) (ids' : NewIds)
      (now' : ℕ)
      → get_user_response_by_email D email t ≡ some user
      → provision E D welcome' ids' now' email name t (get_user_response_by_email D email t) ≡ t
  provision_found email name t user welcome' ids' now' e = rw e refl

  checked-Outcome :
      (email : ℕ) (t : Accounts D) (o : Option User)
      → checked E D
          (get_user_response_by_email D email t)
          (get_auth_user_by_identity D E.provider email t)
        ≡ o
      → ((user : User)
          → get_user_response_by_email D email t ≡ some user
          → (welcome' : Welcome) (ids' : NewIds) (now' : ℕ)
          → initialize E D welcome' ids' now' t ≡ (
            checked E D
                (get_user_response_by_email D email t)
                (get_auth_user_by_identity D E.provider email t),
            t,
          ))
      → Outcome t o
  checked-Outcome email t none e same = tt
  checked-Outcome email t (some user) e same =
      let (there, identity, named, own) = checked_lem _ _ user e in
      record {
        email = email;
        identity = identity;
        by_email = there;
        by_identity = named;
        own = own;
        again = λ welcome' ids' now'. same user there welcome' ids' now' ∙ ap (λ o. (o, t)) e;
      }

  named-IsProvisioned :
      (email name : Option ℕ) (s : Accounts D)
      → ((t : Accounts D) (welcome' : Welcome) (ids' : NewIds) (now' : ℕ)
          → initialize E D welcome' ids' now' t
            ≡ initialize_named E D welcome' ids' now' email name t)
      → IsProvisioned s (initialize_named E D welcome ids now email name s)
  named-IsProvisioned none name s same = record { kept = inl refl; answer = tt }
  named-IsProvisioned (some email) none s same = record { kept = inl refl; answer = tt }
  named-IsProvisioned (some email) (some name) s same =
      let t = provision E D welcome ids now email name s (get_user_response_by_email D email s) in
      record {
        kept = provision-KeepsUsers email name s (get_user_response_by_email D email s);
        answer = checked-Outcome email t _ refl (λ user there welcome' ids' now'.
            same t welcome' ids' now'
            ∙ ap
                (λ v. (
                  checked E D (get_user_response_by_email D email v)
                      (get_auth_user_by_identity D E.provider email v),
                  v,
                ))
                (provision_found email name t user welcome' ids' now' there));
      }

  -- Provisioning the development account changes no row of a user and adds one at most, with an
  -- e-mail that no row had, whether it answers or not. A user that it answers is the one with its
  -- e-mail, and is named by the bootstrap identity of that e-mail as an administrator without a
  -- password; provisioning again, at any time, answers the same user and changes nothing.
  pub initialize-IsProvisioned :
      (s : Accounts D) → IsProvisioned s (initialize E D welcome ids now s)
  unfolding initialize
  initialize-IsProvisioned s = elim (Bool-cases (E.is_development && not E.login_enabled)) [
    | inl on ↦ subst (IsProvisioned s) (sym (if_true _ _ _ on)) (
        named-IsProvisioned E.bootstrap_user_email E.bootstrap_user_name s
          (λ t welcome' ids' now'. if_true _ _ _ on))
    | inr off ↦
        subst (IsProvisioned s) (sym (if_false _ _ _ off)) (record { kept = inl refl; answer = tt })
  ]
