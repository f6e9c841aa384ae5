-- ===== src/Authentication/OAuth/State.antt =====
-- A state of a sign-in through a provider serves once.
use b4fast_api.Prelude.{
  ℕ, ◌≡◌, ◌⊎◌, refl, ap, Bool, true, false, Option, none, some, is_some, and_then, Bool-cases, inl,
  inr, arith, ==-refl,
}
use b4fast_api.Cache.{Redis}
use b4fast_api.Cache.Keys.{Key, Value, key_eq, text, oauth_state}
use b4fast_api.Sessions.{text_of, store_refresh_token, add_member}
use b4fast_api.Accounts.{Tables, Welcome}
use b4fast_api.Authentication.{
  AuthErrorCode, Attempt, succeeded, rejected, continue, Meets, continue-Meets, Env, World, Request,
  LoginResponse, issue_session_tokens,
}
use b4fast_api.Authentication.OAuth.Keeps.{
  Keeps, config-Keeps, exchange-Keeps, answered-Keeps, resolve-Keeps,
}
use b4fast_api.Authentication.Failures.{is_success}
use b4fast_api.Authentication.Refresh.Genuine.{require_or-Meets}
use b4fast_api.Authentication.OAuth.{
  OauthProvider, google, github, OauthSettings, OauthDraws, ProviderAnswers, provider_value,
  provider_of, same_provider, get_oauth_provider_config, consume_oauth_state, oauth_sign_in,
  callback_profile, callback_state, oauth_callback_login,
}

provider_of-same :
    (provider : OauthProvider) (n : ℕ)
    → same_provider provider (provider_of n) ≡ true
    → n ≡ provider_value provider
provider_of-same google n h = ground arith
provider_of-same github n h = ground arith

state_of-same :
    (provider : OauthProvider) (o : Option Value)
    → same_provider provider (and_then (text_of o) provider_of) ≡ true
    → o ≡ some (text (provider_value provider))
state_of-same provider (some (text n)) h = ap (λ m. some (text m)) (provider_of-same provider n h)
state_of-same google none h = cc
state_of-same github none h = cc
state_of-same google (some v) h = ground arith
state_of-same github (some v) h = ground arith

module _ (E : Env) (R : Redis Key Value key_eq) (D : Tables) (state : ℕ) where
  open R use {get, get_set, get_delete, get_expire, get_write}

  abbrev pub IsSpent : R.State → Type 0
  IsSpent s = (t : ℕ) → get s t (oauth_state state) ≡ none

  store-IsSpent :
      (now user id token : ℕ) (remember : Bool) (s : R.State)
      → IsSpent s
      → IsSpent (store_refresh_token R E.refresh_lifetime now user id token remember s)
  unfolding store_refresh_token add_member
  store-IsSpent now user id token remember s h t =
      rw (get_expire, get_write, get_expire, get_set) (h t)

  abbrev Spends : {A : Type 0} → Attempt A (World R D) → Type 0
  Spends r = Meets (λ _ w'. IsSpent w'.cache) (λ _ w'. IsSpent w'.cache) r

  kept-Spends :
      {A : Type 0} (w : World R D) (r : Attempt A (World R D))
      → IsSpent w.cache
      → Keeps E R D w r
      → Spends r
  kept-Spends w (succeeded a w1) h k = rw k h
  kept-Spends w (rejected e w1) h k = rw k h

  -- After the state was consumed.
  rest-Spends :
      (clean : ℕ → Option ℕ) (welcome : Welcome) (req : Request) (draws : OauthDraws)
      (answers : ProviderAnswers) (provider : OauthProvider) (w : World R D)
      → IsSpent w.cache
      → Spends (callback_profile E R D clean welcome req draws answers provider w)
  unfolding oauth_sign_in issue_session_tokens
  rest-Spends clean welcome req draws answers provider w h =
      continue-Meets (λ _ w'. IsSpent w'.cache) (λ _ w'. IsSpent w'.cache)
        (λ _ w'. IsSpent w'.cache) _ _
        (kept-Spends w _ h (exchange-Keeps E R D answers.access_token w w refl))
        (λ _ w1 h1.
          continue-Meets (λ _ w'. IsSpent w'.cache) (λ _ w'. IsSpent w'.cache)
            (λ _ w'. IsSpent w'.cache) _ _
            (kept-Spends w1 _ h1 (answered-Keeps E R D clean provider answers.payload w1 w1 refl))
            (λ profile w2 h2.
              continue-Meets (λ _ w'. IsSpent w'.cache) (λ _ w'. IsSpent w'.cache)
                (λ _ w'. IsSpent w'.cache) _ _
                (kept-Spends w2 _ h2 (resolve-Keeps E R D welcome req draws profile w2 w2 refl))
                (λ u w3 h3.
                  store-IsSpent req.now u.user.id req.session_id req.fresh_token true w3.cache h3)))

  not_same : (provider : OauthProvider) → same_provider provider none ≡ false
  not_same google = refl
  not_same github = refl

  after_config-refused :
      (clean : ℕ → Option ℕ) (welcome : Welcome) (req : Request) (draws : OauthDraws)
      (answers : ProviderAnswers) (provider : OauthProvider) (w : World R D)
      (r : Attempt (Unit {0}) (World R D))
      → IsSpent w.cache
      → Keeps E R D w r
      → is_success
          (continue r (λ _. callback_state E R D clean welcome req draws answers provider state))
        ≡ false
  unfolding consume_oauth_state
  after_config-refused clean welcome req draws answers provider w (rejected e w1) h k = refl
  after_config-refused clean welcome req draws answers provider w (succeeded a w1) h k =
      rw (k, h, not_same provider) refl

  -- A call whose state is spent never succeeds.
  spent-refused :
      (settings : OauthSettings) (clean : ℕ → Option ℕ) (welcome : Welcome) (req : Request)
      (draws : OauthDraws) (answers : ProviderAnswers) (provider : OauthProvider) (w : World R D)
      → IsSpent w.cache
      → is_success
          (oauth_callback_login E R D settings clean welcome req draws answers provider state w)
        ≡ false
  unfolding oauth_callback_login
  spent-refused settings clean welcome req draws answers provider w h =
      after_config-refused clean welcome req draws answers provider w
        (get_oauth_provider_config E R D settings provider w) h
        (config-Keeps E R D settings provider w)

  -- What a callback rests on and leaves.
  pub record IsServed (now : ℕ) (provider : OauthProvider) (w w' : World R D) : Type 0 where
    pub stored : get w.cache now (oauth_state state) ≡ some (text (provider_value provider))
    pub refuses :
        (settings : OauthSettings) (clean : ℕ → Option ℕ) (welcome : Welcome) (req : Request)
        (draws : OauthDraws) (answers : ProviderAnswers) (other : OauthProvider)
        → is_success
            (oauth_callback_login E R D settings clean welcome req draws answers other state w')
          ≡ false

  -- What a failed callback leaves: the cache as it was, or a spent state.
  abbrev pub IsRefused : World R D → AuthErrorCode → World R D → Type 0
  IsRefused w e w' = (w'.cache ≡ w.cache) ⊎ IsSpent w'.cache

  spent-Served :
      (now : ℕ) (provider : OauthProvider) (w : World R D) (r : Attempt LoginResponse (World R D))
      → get w.cache now (oauth_state state) ≡ some (text (provider_value provider))
      → Spends r
      → Meets (λ _. IsServed now provider w) (IsRefused w) r
  spent-Served now provider w (succeeded a w1) stored h = record {
    stored = stored;
    refuses = λ settings clean welcome req draws answers other.
        spent-refused settings clean welcome req draws answers other w1 h;
  }
  spent-Served now provider w (rejected e w1) stored h = inr h

  state-Served :
      (clean : ℕ → Option ℕ) (welcome : Welcome) (req : Request) (draws : OauthDraws)
      (answers : ProviderAnswers) (provider : OauthProvider) (w w1 : World R D)
      → w1.cache ≡ w.cache
      → Meets
          (λ _. IsServed req.now provider w)
          (IsRefused w)
          (callback_state E R D clean welcome req draws answers provider state w1)
  unfolding consume_oauth_state
  state-Served clean welcome req draws answers provider w w1 e =
      elim (Bool-cases (is_some (get w1.cache req.now (oauth_state state)))) [
        | inr absent ↦ rw (absent, not_same provider) (inl e)
        | inl there ↦
            let spent : IsSpent (R.delete w1.cache (oauth_state state)) =
              λ t. rw (get_delete, ==-refl state) refl in
            rw there (
              require_or-Meets
                (same_provider provider
                  (and_then (text_of (get w1.cache req.now (oauth_state state))) provider_of))
                _ _ _ (λ _. IsServed req.now provider w) (IsRefused w) (λ other. inr spent)
                (λ own.
                  spent-Served req.now provider w _
                    (rw⁻¹ e (state_of-same provider (get w1.cache req.now (oauth_state state)) own))
                    (rest-Spends clean welcome req draws answers provider _ spent)))
      ]

  after_config-Served :
      (clean : ℕ → Option ℕ) (welcome : Welcome) (req : Request) (draws : OauthDraws)
      (answers : ProviderAnswers) (provider : OauthProvider) (w : World R D)
      (r : Attempt (Unit {0}) (World R D))
      → Keeps E R D w r
      → Meets
          (λ _. IsServed req.now provider w)
          (IsRefused w)
          (continue r (λ _. callback_state E R D clean welcome req draws answers provider state))
  after_config-Served clean welcome req draws answers provider w (rejected e w1) k = inl k
  after_config-Served clean welcome req draws answers provider w (succeeded a w1) k =
      state-Served clean welcome req draws answers provider w w1 k

  -- A callback of a provider that succeeds was given a state that was stored for that provider, and
  -- leaves it spent: no later callback with that state succeeds, whatever its provider. One that
  -- fails leaves the cache as it was or the state spent.
  pub oauth_callback_login_once :
      (settings : OauthSettings) (clean : ℕ → Option ℕ) (welcome : Welcome) (req : Request)
      (draws : OauthDraws) (answers : ProviderAnswers) (provider : OauthProvider) (w : World R D)
      → Meets
          (λ _. IsServed req.now provider w)
          (IsRefused w)
          (oauth_callback_login E R D settings clean welcome req draws answers provider state w)
  unfolding oauth_callback_login
  oauth_callback_login_once settings clean welcome req draws answers provider w =
      after_config-Served clean welcome req draws answers provider w
        (get_oauth_provider_config E R D settings provider w)
        (config-Keeps E R D settings provider w)
