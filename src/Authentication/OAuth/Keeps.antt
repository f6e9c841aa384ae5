-- ===== src/Authentication/OAuth/Keeps.antt =====
-- The actions of a sign-in through a provider that leave the cache as it is.
use b4fast_api.Prelude.{
  ℕ, ◌≡◌, refl, Bool, true, false, Option, none, some, Bool-cases, inl, inr, if◌then◌else◌,
}
use b4fast_api.Cache.{Redis}
use b4fast_api.Cache.Keys.{Key, Value, key_eq}
use b4fast_api.Accounts.{
  User, AuthUser, Tables, Accounts, Reply, replied, refused, Welcome, user_role,
  get_auth_user_by_id, get_auth_user_by_identity, create_oauth_user,
}
use b4fast_api.Accounts.Profile.{link_auth_identity}
use b4fast_api.Authentication.{
  AuthErrorCode, oauth_identity_conflict, Attempt, Action, continue, require, Meets, continue-Meets,
  Env, World, Request, send_welcome_email, welcome_mail,
}
use b4fast_api.Authentication.OAuth.{
  OauthProvider, OauthSettings, OauthDraws, OauthIdentityProfile, Payload, provider_value,
  get_oauth_provider_configs, get_oauth_provider_config, oauth_created, created_user, linked_user,
  resolve_existing, resolve_identity, resolve_oauth_user, exchange_oauth_code, profile_answered,
  profile_of, fetch_oauth_profile,
}

module _ (E : Env) (R : Redis Key Value key_eq) (D : Tables) where
  -- An action that leaves the cache as it is.
  abbrev pub Keeps : {A : Type 0} → World R D → Attempt A (World R D) → Type 0
  Keeps w r = Meets (λ _ w'. w'.cache ≡ w.cache) (λ _ w'. w'.cache ≡ w.cache) r

  continue-Keeps :
      {A B : Type 0} (w : World R D) (r : Attempt A (World R D)) (f : A → Action (World R D) B)
      → Keeps w r
      → ((a : A) (w1 : World R D) → w1.cache ≡ w.cache → Keeps w (f a w1))
      → Keeps w (continue r f)
  continue-Keeps w r f h k =
      continue-Meets (λ _ w'. w'.cache ≡ w.cache) (λ _ w'. w'.cache ≡ w.cache)
        (λ _ w'. w'.cache ≡ w.cache) r f h k

  require-Keeps :
      (b : Bool) (e : AuthErrorCode) (w w1 : World R D)
      → w1.cache ≡ w.cache
      → Keeps w (require b e w1)
  require-Keeps true e w w1 h = h
  require-Keeps false e w w1 h = h

  if-Keeps :
      {A : Type 0} (b : Bool) (x y : Action (World R D) A) (w w1 : World R D)
      → Keeps w (x w1)
      → Keeps w (y w1)
      → Keeps w ((if b then x else y) w1)
  if-Keeps true x y w w1 h k = h
  if-Keeps false x y w w1 h k = k

  pub config-Keeps :
      (settings : OauthSettings) (provider : OauthProvider) (w : World R D)
      → Keeps w (get_oauth_provider_config E R D settings provider w)
  unfolding get_oauth_provider_config get_oauth_provider_configs
  config-Keeps settings provider w =
      continue-Keeps w _ _
        (continue-Keeps w _ _ (require-Keeps E.login_enabled _ w w refl) (λ _ w1 e.
          if-Keeps settings.oauth_enabled _ _ w w1
            (continue-Keeps w _ _ (require-Keeps settings.is_valid _ w w1 e) (λ _ w2 f. f)) e))
        (λ configs w1 e. require-Keeps _ _ w w1 e)

  linked-Keeps :
      (o : Option AuthUser) (w w1 : World R D)
      → w1.cache ≡ w.cache
      → Keeps w (linked_user E R D o w1)
  linked-Keeps none w w1 e = e
  linked-Keeps (some u) w w1 e = e

  created_user-Keeps :
      (o : Option AuthUser) (w w1 : World R D)
      → w1.cache ≡ w.cache
      → Keeps w (created_user E R D o w1)
  unfolding send_welcome_email
  created_user-Keeps none w w1 e = e
  created_user-Keeps (some u) w w1 e = elim (Bool-cases (E.publish (welcome_mail u.user.id))) [
    | inl sent ↦ rw sent e
    | inr lost ↦ rw lost e
  ]

  created-Keeps :
      (r : Reply User (Accounts D)) (w w1 : World R D)
      → w1.cache ≡ w.cache
      → Keeps w (oauth_created E R D w1 r)
  created-Keeps (replied user t) w w1 e = e
  created-Keeps (refused x) w w1 e = e

  existing-Keeps :
      (welcome : Welcome) (req : Request) (draws : OauthDraws) (profile : OauthIdentityProfile)
      (o : Option User) (w w1 : World R D)
      → w1.cache ≡ w.cache
      → Keeps w (resolve_existing E R D welcome req draws profile o w1)
  existing-Keeps welcome req draws profile none w w1 e =
      let reply =
        create_oauth_user D welcome draws.ids req.now profile.email profile.name
          (provider_value profile.provider) profile.provider_user_id profile.email_verified
          user_role w1.db in
      continue-Keeps w (oauth_created E R D w1 reply)
        (λ _ w2.
          created_user E R D
            (get_auth_user_by_identity D (provider_value profile.provider) profile.provider_user_id
              w2.db)
            w2)
        (created-Keeps reply w w1 e)
        (λ _ w2 f.
          created_user-Keeps
            (get_auth_user_by_identity D (provider_value profile.provider) profile.provider_user_id
              w2.db)
            w w2 f)
  existing-Keeps welcome req draws profile (some v) w w1 e =
      let reply =
        link_auth_identity D draws.linked_id v.id (provider_value profile.provider)
          profile.provider_user_id w1.db in
      continue-Keeps w (require reply.0 oauth_identity_conflict (record w1 { db = reply.1 }))
        (λ _ w2. linked_user E R D (get_auth_user_by_id D v.id w2.db) w2)
        (require-Keeps reply.0 oauth_identity_conflict w (record w1 { db = reply.1 }) e)
        (λ _ w2 f. linked-Keeps (get_auth_user_by_id D v.id w2.db) w w2 f)

  identity-Keeps :
      (welcome : Welcome) (req : Request) (draws : OauthDraws) (profile : OauthIdentityProfile)
      (o : Option AuthUser) (w w1 : World R D)
      → w1.cache ≡ w.cache
      → Keeps w (resolve_identity E R D welcome req draws profile o w1)
  identity-Keeps welcome req draws profile none w w1 e =
      existing-Keeps welcome req draws profile _ w w1 e
  identity-Keeps welcome req draws profile (some u) w w1 e = e

  pub resolve-Keeps :
      (welcome : Welcome) (req : Request) (draws : OauthDraws) (profile : OauthIdentityProfile)
      (w w1 : World R D)
      → w1.cache ≡ w.cache
      → Keeps w (resolve_oauth_user E R D welcome req draws profile w1)
  unfolding resolve_oauth_user
  resolve-Keeps welcome req draws profile w w1 e =
      continue-Keeps w _ _ (require-Keeps profile.email_verified _ w w1 e)
        (λ _ w2 f. identity-Keeps welcome req draws profile _ w w2 f)

  pub exchange-Keeps :
      (o : Option (Option ℕ)) (w w1 : World R D)
      → w1.cache ≡ w.cache
      → Keeps w (exchange_oauth_code E R D o w1)
  exchange-Keeps none w w1 e = e
  exchange-Keeps (some none) w w1 e = e
  exchange-Keeps (some (some token)) w w1 e = e

  profile-Keeps :
      (o : Option OauthIdentityProfile) (w w1 : World R D)
      → w1.cache ≡ w.cache
      → Keeps w (profile_of E R D o w1)
  profile-Keeps none w w1 e = e
  profile-Keeps (some profile) w w1 e = e

  pub answered-Keeps :
      (clean : ℕ → Option ℕ) (provider : OauthProvider) (o : Option Payload) (w w1 : World R D)
      → w1.cache ≡ w.cache
      → Keeps w (profile_answered E R D clean provider o w1)
  answered-Keeps clean provider none w w1 e = e
  answered-Keeps clean provider (some payload) w w1 e =
      profile-Keeps (fetch_oauth_profile clean provider payload) w w1 e
