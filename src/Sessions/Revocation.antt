-- ===== src/Sessions/Revocation.antt =====
-- The index of a user's sessions is complete, so that ending them ends all.
use b4fast_api.Prelude.{
  ℕ, ◌+◌, ◌≤◌, ◌<◌, ◌≡◌, refl, ap₂, Bool, true, false, ◌&&◌, Option, none, some, List, [], ◌∷◌, ltb,
  ◌==◌, is_some, if◌then◌else◌, arith, Bool-cases, Option-cases, inl, inr, ==-refl, lt→ltb, ltb→lt,
}
use b4fast_api.Cache.{Redis}
use b4fast_api.Cache.Keys.{
  Key, Value, key_eq, session, members, refresh_session, refresh_user_sessions,
}
use b4fast_api.Sessions.{
  members_of, contains, is_session_of, add_member, store_refresh_token, verify_refresh_token,
  delete_sessions, delete_refresh_token,
}

session_found :
    (user token : ℕ) (o : Option Value)
    → is_session_of user token o ≡ true
    → (remember : Bool) × (o ≡ some (session user token remember))
session_found user token (some (session u t remember)) h =
    (remember, ap₂ (λ (x y : ℕ). some (session x y remember)) (ground arith) (ground arith))
session_found user token none h = cc
session_found user token (some _) h = cc

user_of :
    (user token u x : ℕ) (remember r : Bool)
    → ◌≡◌ {A = Option Value} (some (session user token remember)) (some (session u x r))
    → user ≡ u
user_of user token u x remember r h = ground arith

module _ (R : Redis Key Value key_eq) (lifetime : ℕ) where
  open R use {
    State, get, get_earlier, set, get_set, delete, get_delete, expire, get_expire, write, get_write,
  }

  -- From a clock reading on, every session that is there is listed in the index of its user, and
  -- none outlives a session that would be stored at that reading.
  pub record IsIndexed (from : ℕ) (s : State) : Type 0 where
    pub listed :
        (t id user token : ℕ) (remember : Bool)
        → from ≤ t
        → get s t (refresh_session id) ≡ some (session user token remember)
        → contains id (members_of (get s t (refresh_user_sessions user))) ≡ true
    pub ended : (t id : ℕ) → from + lifetime ≤ t → get s t (refresh_session id) ≡ none

  -- What a stored session is: there until its lifetime is over, with its user and token.
  pub get-store_session :
      (now user id token t j : ℕ) (remember : Bool) (s : State)
      → get (store_refresh_token R lifetime now user id token remember s) t (refresh_session j) ≡ (
          if id == j
          then (if ltb t (now + lifetime) then some (session user token remember) else none)
          else get s t (refresh_session j))
  unfolding store_refresh_token add_member
  get-store_session now user id token t j remember s =
      rw (get_expire, get_write, get_expire, get_set)

  read_written :
      (s : State) (t : ℕ) (k : Key) (v : Value)
      → key_eq k k ≡ true
      → get (write s t k v) t k ≡ some v
  read_written s t k v e = elim (Bool-cases (is_some (get s t k))) [
    | inl p ↦ rw (get_write, e, p)
    | inr p ↦ rw (get_write, e, p)
  ]

  abbrev listed_with : ℕ → List ℕ → List ℕ
  listed_with id old = if contains id old then old else id ∷ old

  get-store_index :
      (now user id token t : ℕ) (remember : Bool) (s : State)
      → get
          (store_refresh_token R lifetime now user id token remember s)
          t
          (refresh_user_sessions user)
        ≡ (if ltb t (now + lifetime)
            then some
                (members (listed_with id (members_of (get s now (refresh_user_sessions user)))))
            else none)
  unfolding store_refresh_token add_member
  get-store_index now user id token t remember s =
      rw
        (get_expire, ==-refl user, read_written _ now (refresh_user_sessions user) _ (==-refl user))
        (rw (get_expire, get_set))

  get-store_other :
      (now user id token t j : ℕ) (remember : Bool) (s : State)
      → (user == j) ≡ false
      → get
          (store_refresh_token R lifetime now user id token remember s)
          t
          (refresh_user_sessions j)
        ≡ get s t (refresh_user_sessions j)
  unfolding store_refresh_token add_member
  get-store_other now user id token t j remember s other =
      rw (get_expire, other, get_write, other, get_expire, get_set)

  contains_listed :
      (id x : ℕ) (old : List ℕ) → contains x old ≡ true → contains x (listed_with id old) ≡ true
  contains_listed id x old h = ground arith

  contains_self : (id : ℕ) (old : List ℕ) → contains id (listed_with id old) ≡ true
  contains_self id old = ground arith

  -- what an index lists at a clock reading it listed before
  listed_earlier :
      (s : State) (t t' user id : ℕ)
      → t ≤ t'
      → contains id (members_of (get s t' (refresh_user_sessions user))) ≡ true
      → contains id (members_of (get s t (refresh_user_sessions user))) ≡ true
  listed_earlier s t t' user id le h = elim (Option-cases (get s t' (refresh_user_sessions user))) [
    | inl e ↦ cc (rw e at h)
    | inr (v, e) ↦ rw (get_earlier s t t' (refresh_user_sessions user) v le e) (rw e at h)
  ]

  store-ended :
      (from now user id token t j : ℕ) (remember : Bool) (s : State)
      → from ≤ now
      → IsIndexed from s
      → now + lifetime ≤ t
      → get (store_refresh_token R lifetime now user id token remember s) t (refresh_session j)
        ≡ none
  store-ended from now user id token t j remember s le h over =
      rw (get-store_session now user id token t j remember s) (ground (arith, h.ended t j))

  store-listed_self :
      (from now user id token t j x : ℕ) (remember r : Bool) (s : State)
      → from ≤ now
      → IsIndexed from s
      → now ≤ t
      → t < now + lifetime
      → (if id == j
          then (if ltb t (now + lifetime) then some (session user token remember) else none)
          else get s t (refresh_session j))
        ≡ some (session user x r)
      → contains j (
          members_of (
            get
              (store_refresh_token R lifetime now user id token remember s)
              t
              (refresh_user_sessions user)))
        ≡ true
  store-listed_self from now user id token t j x remember r s le h after before found =
      rw (get-store_index now user id token t remember s, lt→ltb _ _ before)
        (elim (Bool-cases (id == j)) [
          | inl same ↦ let ids : j ≡ id = ground arith in rw ids (contains_self id _)
          | inr other ↦ contains_listed id j _ (
              listed_earlier s now t user j after
                (h.listed t j user x r (omega arith) (rw other at found)))
        ])

  -- Storing a session keeps the index of every user complete, where it was complete since an
  -- earlier time.
  pub store_refresh_token-IsIndexed :
      (from now user id token : ℕ) (remember : Bool) (s : State)
      → from ≤ now
      → IsIndexed from s
      → IsIndexed now (store_refresh_token R lifetime now user id token remember s)
  store_refresh_token-IsIndexed from now user id token remember s le h = record {
    listed = λ t j u x r after found. elim (Bool-cases (ltb t (now + lifetime))) [
      | inr over ↦ cc (found, store-ended from now user id token t j remember s le h (ground arith))
      | inl before ↦
          let seen = rw (get-store_session now user id token t j remember s) at found in
          elim (Bool-cases (user == u)) [
            | inl mine ↦
                let same : u ≡ user = ground arith in
                rw same (
                  store-listed_self from now user id token t j x remember r s le h after
                    (ltb→lt _ _ before) (rw same at seen))
            | inr theirs ↦ elim (Bool-cases (id == j)) [
              | inl reused ↦
                  let owner : user ≡ u =
                    user_of user token u x remember r (rw (reused, before) at seen) in
                  absurd (ground arith)
              | inr other ↦
                  rw (get-store_other now user id token t u remember s theirs)
                    (h.listed t j u x r (omega arith) (rw other at seen))
            ]
          ]
    ];
    ended = λ t j over. store-ended from now user id token t j remember s le h over;
  }

  -- Ending the sessions of a user.
  get-delete_sessions :
      (ids : List ℕ) (t j : ℕ) (s : State)
      → get (delete_sessions R ids s) t (refresh_session j)
        ≡ (if contains j ids then none else get s t (refresh_session j))
  unfolding delete_sessions
  get-delete_sessions [] t j s = refl
  get-delete_sessions (id ∷ ids) t j s =
      rw (get-delete_sessions ids t j, get_delete, get_delete) (ground arith)

  get-delete_refresh_token :
      (now user t j : ℕ) (s : State)
      → get (delete_refresh_token R now user s) t (refresh_session j) ≡ (
          if contains j (members_of (get s now (refresh_user_sessions user)))
          then none
          else get s t (refresh_session j))
  unfolding delete_refresh_token
  get-delete_refresh_token now user t j s = rw (get_delete, get-delete_sessions)

  -- Deleting the refresh tokens of a user ends all sessions: where the index of sessions is
  -- complete since an earlier time, no refresh token verifies for the user at that time or later,
  -- whatever the session id.
  pub delete_refresh_token_revokes :
      (from now user t id token : ℕ) (s : State)
      → from ≤ now
      → now ≤ t
      → IsIndexed from s
      → verify_refresh_token R t user id token (delete_refresh_token R now user s) ≡ false
  unfolding verify_refresh_token
  delete_refresh_token_revokes from now user t id token s le after h =
      rw get-delete_refresh_token
        (elim (Bool-cases (contains id (members_of (get s now (refresh_user_sessions user))))) [
          | inl listed ↦ rw listed
          | inr unlisted ↦
              elim (Bool-cases (is_session_of user token (get s t (refresh_session id)))) [
                | inr f ↦ rw (unlisted, f)
                | inl live ↦
                    let (r, e) = session_found user token (get s t (refresh_session id)) live in
                    cc (
                      unlisted,
                      listed_earlier s now t user id after
                          (h.listed t id user token r (omega arith) e),
                    )
              ]
        ])

  -- A stored session verifies under its id for its user and token until its lifetime is over, and
  -- for no other user or token.
  pub verify-store :
      (now user id token u x t : ℕ) (remember : Bool) (s : State)
      → verify_refresh_token R t u id x
          (store_refresh_token R lifetime now user id token remember s)
        ≡ (ltb t (now + lifetime) && (user == u && token == x))
  unfolding verify_refresh_token
  verify-store now user id token u x t remember s =
      rw (get-store_session, ==-refl id)
        (elim (Bool-cases (ltb t (now + lifetime))) [ inl e ↦ rw e | inr e ↦ rw e ])
