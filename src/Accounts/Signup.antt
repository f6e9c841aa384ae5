-- ===== src/Accounts/Signup.antt =====
-- The transactions of the signups: all rows or none, and what a sign-in then finds.
use b4fast_api.Prelude.{
  ℕ, ◌≡◌, ◌⊎◌, refl, subst, Bool, true, false, ◌&&◌, ◌||◌, Option, none, some, List, [], ◌∷◌, ◌++◌,
  ◌==◌, arith, inl, inr, find_row, any_row, Bool-cases, Option-cases, and_then, AllSome,
}
use b4fast_api.Database.{Table}
use b4fast_api.Inbox.{InboxNotification, same_notification, add_inbox_notification}
use b4fast_api.Accounts.{
  UserRole, User, Credential, same_credential, AuthIdentity, same_identity, same_user, Tables,
  Accounts, user_rows, email_already_exists, signup_failed, replied, refused, NewIds, Welcome,
  new_user, new_identity, email_provider, home, add_credential, add_account, create_signup_user,
  get_auth_user_by_id, get_auth_user_by_identity, get_auth_user_by_email,
}

module _ {Row : Type 0} {conflict : Row → Row → Bool} (T : Table Row conflict) where
  -- The rows after an insertion, which conflicted with none.
  pub record IsGrown (r : Row) (s t : T.State) : Type 0 where
    pub grown : T.rows t ≡ T.rows s ++ r ∷ []
    pub free : any_row (conflict r) (T.rows s) ≡ false

  pub insert-IsGrown : (r : Row) (s : T.State) → AllSome (IsGrown r s) (T.insert r s)
  insert-IsGrown r s = elim (Bool-cases (any_row (conflict r) (T.rows s))) [
    | inl t ↦ rw (T.insert_refused r s t) tt
    | inr f ↦
        let (s', done, grown) = T.insert_accepted r s f in
        rw done (record { grown = grown; free = f })
  ]

-- An insertion is refused exactly where the row conflicts with one that is there.
pub insert-decided :
    {Row : Type 0} {conflict : Row → Row → Bool} (T : Table Row conflict) (r : Row) (s : T.State)
    → ((any_row (conflict r) (T.rows s) ≡ true) × (T.insert r s ≡ none))
      ⊎ ((any_row (conflict r) (T.rows s) ≡ false) × ((t : T.State) × (T.insert r s ≡ some t)))
insert-decided T r s = elim (Bool-cases (any_row _ (T.rows s))) [
  | inl a ↦ inl (a, T.insert_refused r s a)
  | inr a ↦ let (t, e, _) = T.insert_accepted r s a in inr (a, (t, e))
]

pub all_then :
    {A B : Type 0} (P : A → Type 0) (Q : B → Type 0) (o : Option A) (f : A → Option B)
    → AllSome P o
    → ((a : A) → P a → AllSome Q (f a))
    → AllSome Q (and_then o f)
all_then P Q none f h k = tt
all_then P Q (some a) f h k = k a h

pub all_skip :
    {A B : Type 0} (Q : B → Type 0) (o : Option A) (f : A → Option B)
    → ((a : A) → AllSome Q (f a))
    → AllSome Q (and_then o f)
all_skip Q none f k = tt
all_skip Q (some a) f k = k a

pub find_row-grown :
    {A : Type 0} (p q : A → Bool) (x : A) (xs : List A)
    → ((y : A) → q y ≡ false → p y ≡ false)
    → any_row q xs ≡ false
    → p x ≡ true
    → find_row p (xs ++ x ∷ []) ≡ some x
find_row-grown p q x [] out h e = rw e refl
find_row-grown p q x (y ∷ ys) out h e = ground (arith, out y, find_row-grown p q x ys out)

module _ (D : Tables) where
  abbrev pub CredentialAdded : ℕ → ℕ → Option ℕ → D.credentials.State → D.credentials.State → Type 0
  CredentialAdded id user none s t = t ≡ s
  CredentialAdded id user (some hash) s t =
      IsGrown D.credentials (record { id = id; user_id = user; password_hash = hash }) s t

  -- The tables after a signup.
  pub record IsAdded (ids : NewIds) (user : User) (password_hash : Option ℕ)
      (identity : AuthIdentity) (s t : Accounts D) : Type 0 where
    pub users : IsGrown D.users user s.users t.users
    pub credentials :
        CredentialAdded ids.credential user.id password_hash s.credentials t.credentials
    pub identities : IsGrown D.identities identity s.identities t.identities

  abbrev HasUser : NewIds → User → Option ℕ → Accounts D → Accounts D → Type 0
  HasUser ids user password_hash s t =
      IsGrown D.users user s.users t.users
      × CredentialAdded ids.credential user.id password_hash s.credentials t.credentials
      × (t.identities ≡ s.identities)

  add_credential-HasUser :
      (ids : NewIds) (user : User) (password_hash : Option ℕ) (s : Accounts D) (us : D.users.State)
      → IsGrown D.users user s.users us
      → AllSome
          (HasUser ids user password_hash s)
          (add_credential D ids.credential user.id password_hash (record s { users = us }))
  add_credential-HasUser ids user none s us u = (u, refl, refl)
  add_credential-HasUser ids user (some hash) s us u =
      all_then (IsGrown D.credentials _ s.credentials) (HasUser ids user (some hash) s)
        (D.credentials.insert _ s.credentials) _
        (insert-IsGrown D.credentials
          (record { id = ids.credential; user_id = user.id; password_hash = hash }) s.credentials)
        (λ t c. (u, c, refl))

  pub add_account-IsAdded :
      (welcome : Welcome) (ids : NewIds) (now : ℕ) (user : User) (password_hash : Option ℕ)
      (provider identifier : ℕ) (s : Accounts D)
      → AllSome
          (IsAdded ids user password_hash (new_identity ids.identity user.id provider identifier) s)
          (add_account D welcome ids now user password_hash provider identifier s)
  add_account-IsAdded welcome ids now user password_hash provider identifier s =
      let identity = new_identity ids.identity user.id provider identifier in
      let Goal : Accounts D → Type 0 = IsAdded ids user password_hash identity s in
      all_then (IsGrown D.users user s.users) Goal (D.users.insert user s.users) _
        (insert-IsGrown D.users user s.users)
        (λ us u.
          all_then (HasUser ids user password_hash s) Goal _ _
            (add_credential-HasUser ids user password_hash s us u)
            (λ s1 h.
              all_then (IsGrown D.identities identity s1.identities) Goal _ _
                (insert-IsGrown D.identities identity s1.identities)
                (λ is i.
                  all_skip Goal
                    (add_inbox_notification ids.notification now user.id welcome.kind welcome.title
                      welcome.body (some home))
                    _
                    (λ n. all_skip Goal (D.inbox.insert n s1.inbox) _ (λ ns.
                      let all : Goal (record s1 { identities = is; inbox = ns }) = record {
                        users = h.0;
                        credentials = h.1;
                        identities = subst (λ z. IsGrown D.identities identity z is) h.2 i;
                      } in
                      all)))))

  signed_up-found :
      (ids : NewIds) (user : User) (hash : ℕ) (s t : Accounts D)
      → user.is_active ≡ true
      → IsAdded ids user
          (some hash)
          (new_identity ids.identity user.id email_provider user.email)
          s
          t
      → get_auth_user_by_email D user.email t
        ≡ some (record { user = user; password_hash = some hash })
  unfolding get_auth_user_by_email get_auth_user_by_identity get_auth_user_by_id
  signed_up-found ids user hash s t active added =
      rw
        (
          added.identities.grown,
          find_row-grown (λ i. i.provider == email_provider && i.identifier == user.email)
              (same_identity (new_identity ids.identity user.id email_provider user.email))
              (new_identity ids.identity user.id email_provider user.email)
              (D.identities.rows s.identities) (λ y e. ground (arith, e)) added.identities.free
              (ground arith),
          added.users.grown,
          find_row-grown (λ u. u.id == user.id && u.is_active) (same_user user) user
              (D.users.rows s.users) (λ y e. ground (arith, e)) added.users.free
              (ground (arith, active)),
          added.credentials.grown,
          find_row-grown (λ c. c.user_id == user.id)
              (same_credential
                (record { id = ids.credential; user_id = user.id; password_hash = hash }))
              (record { id = ids.credential; user_id = user.id; password_hash = hash })
              (D.credentials.rows s.credentials) (λ y e. ground (arith, e)) added.credentials.free
              (ground arith),
        )
        refl

  abbrev inbox_conflicts : Option InboxNotification → Accounts D → Bool
  inbox_conflicts none s = true
  inbox_conflicts (some n) s = any_row (same_notification n) (D.inbox.rows s.inbox)

  -- Whether one of the rows of a signup breaks a constraint of its table.
  abbrev pub breaks_constraint : Welcome → NewIds → ℕ → User → ℕ → Accounts D → Bool
  breaks_constraint welcome ids now user hash s =
      any_row (same_user user) (user_rows D s)
      || (any_row
            (same_credential
              (record { id = ids.credential; user_id = user.id; password_hash = hash }))
            (D.credentials.rows s.credentials)
          || (any_row (same_identity (new_identity ids.identity user.id email_provider user.email))
                (D.identities.rows s.identities)
              || inbox_conflicts
                  (add_inbox_notification ids.notification now user.id welcome.kind welcome.title
                    welcome.body (some home))
                  s))

  add_account-decided :
      (welcome : Welcome) (ids : NewIds) (now : ℕ) (user : User) (hash : ℕ) (s : Accounts D)
      → let added = add_account D welcome ids now user (some hash) email_provider user.email s in
        ((breaks_constraint welcome ids now user hash s ≡ true) × (added ≡ none))
        ⊎ ((breaks_constraint welcome ids now user hash s ≡ false)
            × ((t : Accounts D) × (added ≡ some t)))
  add_account-decided welcome ids now user hash s =
      let credential : Credential = record {
        id = ids.credential;
        user_id = user.id;
        password_hash = hash;
      } in
      let identity = new_identity ids.identity user.id email_provider user.email in
      let notice =
        add_inbox_notification ids.notification now user.id welcome.kind welcome.title welcome.body
          (some home) in
      elim (insert-decided D.users user s.users) [
        | inl (a, e) ↦ inl (rw a refl, rw e refl)
        | inr (a, (us, users)) ↦ elim (insert-decided D.credentials credential s.credentials) [
          | inl (b, e) ↦ inl (rw (a, b) refl, rw (users, e) refl)
          | inr (b, (cs, credentials)) ↦ elim (insert-decided D.identities identity s.identities) [
            | inl (c, e) ↦ inl (rw (a, b, c) refl, rw (users, credentials, e) refl)
            | inr (c, (is, identities)) ↦ elim (Option-cases notice) [
              | inl e ↦ inl (rw (a, b, c, e) refl, rw (users, credentials, identities, e) refl)
              | inr (n, e) ↦ elim (insert-decided D.inbox n s.inbox) [
                | inl (d, f) ↦
                    inl (rw (a, b, c, e, d) refl, rw (users, credentials, identities, e, f) refl)
                | inr (d, (ns, f)) ↦ inr (
                  rw (a, b, c, e, d) refl,
                  (
                    record s { users = us; credentials = cs; identities = is; inbox = ns },
                    rw (users, credentials, identities, e, f) refl,
                  ),
                )
              ]
            ]
          ]
        ]
      ]

  -- A signup with an e-mail that a user has is refused as such. One with a free e-mail fails
  -- exactly where one of its rows breaks a constraint of its table; otherwise it adds an account
  -- that a sign-in with its e-mail finds, with the given password hash. An error carries no new
  -- state of the database.
  pub create_signup_user_lem :
      (welcome : Welcome) (ids : NewIds) (now email name hash : ℕ) (is_verified : Bool)
      (role : UserRole) (s : Accounts D)
      → let user = new_user ids.user email name is_verified role in
        let reply = create_signup_user D welcome ids now email name hash is_verified role s in
        let taken = any_row (λ u. u.email == email) (user_rows D s) in
        let broken = breaks_constraint welcome ids now user hash s in
        ((taken ≡ true) × (reply ≡ refused email_already_exists))
        ⊎ ((taken ≡ false) × (broken ≡ true) × (reply ≡ refused signup_failed))
        ⊎ ((taken ≡ false)
            × (broken ≡ false)
            × ((t : Accounts D) × (reply ≡ replied user t)
                × (get_auth_user_by_email D email t
                    ≡ some (record { user = user; password_hash = some hash }))))
  unfolding create_signup_user
  create_signup_user_lem welcome ids now email name hash is_verified role s =
      let user = new_user ids.user email name is_verified role in
      let added = add_account-IsAdded welcome ids now user (some hash) email_provider email s in
      elim (Bool-cases (any_row (λ u. u.email == email) (user_rows D s))) [
        | inl taken ↦ inl (taken, rw taken refl)
        | inr free ↦ elim (add_account-decided welcome ids now user hash s) [
          | inl (broken, e) ↦ inr (inl (free, broken, rw (free, e) refl))
          | inr (kept, (t, e)) ↦ inr (
              inr (
                free,
                kept,
                (t, rw (free, e) refl, signed_up-found ids user hash s t refl (rw e at added)),
              ))
        ]
      ]
