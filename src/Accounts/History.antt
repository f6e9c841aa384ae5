-- ===== src/Accounts/History.antt =====
-- Any sequence of calls that change users.
use b4fast_api.Prelude.{
  ℕ, ◌≡◌, refl, Bool, true, false, ◌&&◌, Option, none, some, List, [], ◌∷◌, ◌++◌, ◌==◌, arith, inl,
  inr, Distinct-update, Distinct-append, find_row, any_row, count_rows, count_rows-append,
  update_rows, Bool-cases, Option-cases, AllSome,
}
use b4fast_api.Outbox.{Notification}
use b4fast_api.Accounts.{
  UserRole, User, same_user, is_active_admin, Tables, Accounts, user_rows, Welcome, NewIds,
  new_user, signed_up, email_provider, create_signup_user, create_oauth_user, mark_email_verified,
  signup_failed, oauth_signup_failed, AuthIdentity, AccountError,
}
use b4fast_api.Accounts.Roles.{Dialect, set_operator_role, delete_account}
use b4fast_api.Accounts.Profile.{ProfileChange, change_profile, update_user_profile}
use b4fast_api.Accounts.Signup.{IsAdded, add_account-IsAdded}
use b4fast_api.Accounts.Admins.{
  after, IsAdministered, set_operator_role-IsAdministered, delete_account-IsAdministered,
}

-- The calls with their arguments.
pub data AccountCall : Type 0 where
  sign_up : Welcome → NewIds → ℕ → ℕ → ℕ → ℕ → Bool → UserRole → AccountCall
  sign_up_oauth : Welcome → NewIds → ℕ → ℕ → ℕ → ℕ → ℕ → Bool → UserRole → AccountCall
  verify_email : ℕ → AccountCall
  change_profile_of : ProfileChange → ℕ → AccountCall
  change_role : Dialect → ℕ → ℕ → UserRole → ℕ → AccountCall
  remove_account : List ℕ → ℕ → ℕ → Option Notification → AccountCall

grown-IsAdministered :
    (u : User) (xs : List User)
    → IsAdministered xs
    → any_row (same_user u) xs ≡ false
    → IsAdministered (xs ++ u ∷ [])
grown-IsAdministered u xs ok free = record {
  distinct = Distinct-append (λ v. v.id) u xs (no_conflict u xs free) ok.distinct;
  administered = ground (arith, count_rows-append is_active_admin xs (u ∷ []), ok.administered);
}
  where
    no_conflict :
        (u : User) (xs : List User)
        → any_row (same_user u) xs ≡ false
        → any_row (λ v. u.id == v.id) xs ≡ false
    no_conflict u [] e = refl
    no_conflict u (x ∷ xs) e = ground (arith, no_conflict u xs)

updated-IsAdministered :
    (p : User → Bool) (f : User → User) (xs : List User)
    → ((u : User) → (f u).id ≡ u.id)
    → ((u : User) → is_active_admin (f u) ≡ is_active_admin u)
    → IsAdministered xs
    → IsAdministered (update_rows p f xs)
updated-IsAdministered p f xs id admin ok = record {
  distinct = Distinct-update (λ v. v.id) p f id xs ok.distinct;
  administered = rw (count_kept xs) ok.administered;
}
  where
    count_kept :
        (ys : List User)
        → count_rows is_active_admin (update_rows p f ys) ≡ count_rows is_active_admin ys
    count_kept [] = refl
    count_kept (y ∷ ys) = ground (arith, admin y, count_kept ys)

module _ (D : Tables) (casefold strip : ℕ → ℕ) where
  abbrev pub run_call : AccountCall → Accounts D → Accounts D
  run_call (sign_up welcome ids now email name hash is_verified role) s =
      after s (create_signup_user D welcome ids now email name hash is_verified role s)
  run_call (sign_up_oauth welcome ids now email name provider identifier is_verified role) s =
      after s
        (create_oauth_user D welcome ids now email name provider identifier is_verified role s)
  run_call (verify_email user) s = (mark_email_verified D user s).1
  run_call (change_profile_of c user) s = (update_user_profile D c user s).1
  run_call (change_role dialect id email role operator) s =
      after s (set_operator_role D dialect id email role operator s)
  run_call (remove_account checkouts user email n) s =
      after s (delete_account D casefold strip checkouts user email n s)

  abbrev pub run_calls : List AccountCall → Accounts D → Accounts D
  run_calls [] s = s
  run_calls (c ∷ cs) s = run_calls cs (run_call c s)

  signed_up-IsAdministered :
      (e : AccountError) (ids : NewIds) (u : User) (hash : Option ℕ) (i : AuthIdentity)
      (s : Accounts D) (o : Option (Accounts D))
      → AllSome (IsAdded D ids u hash i s) o
      → IsAdministered (user_rows D s)
      → IsAdministered (user_rows D (after s (signed_up D e u o)))
  signed_up-IsAdministered e ids u hash i s none g ok = ok
  signed_up-IsAdministered e ids u hash i s (some t) g ok =
      rw g.users.grown (grown-IsAdministered u (user_rows D s) ok g.users.free)

  run_call-IsAdministered :
      (c : AccountCall) (s : Accounts D)
      → IsAdministered (user_rows D s)
      → IsAdministered (user_rows D (run_call c s))
  unfolding create_signup_user create_oauth_user mark_email_verified update_user_profile
      change_profile
  run_call-IsAdministered (sign_up welcome ids now email name hash is_verified role) s ok =
      let u = new_user ids.user email name is_verified role in
      elim (Bool-cases (any_row (λ v. v.email == email) (user_rows D s))) [
        | inl e ↦ rw e ok
        | inr e ↦ rw e (
            signed_up-IsAdministered signup_failed ids u (some hash) _ s _
              (add_account-IsAdded D welcome ids now u (some hash) email_provider email s) ok)
      ]
  run_call-IsAdministered
        (sign_up_oauth welcome ids now email name provider identifier is_verified role) s ok =
      let u = new_user ids.user email name is_verified role in
      elim (Bool-cases (any_row (λ v. v.email == email) (user_rows D s))) [
        | inl e ↦ rw e ok
        | inr e ↦ rw e (
            signed_up-IsAdministered oauth_signup_failed ids u none _ s _
              (add_account-IsAdded D welcome ids now u none provider identifier s) ok)
      ]
  run_call-IsAdministered (verify_email user) s ok = rw D.users.update_law (
      updated-IsAdministered _ (λ u. record u { is_verified = true }) (user_rows D s) (λ u. refl)
        (λ u. refl) ok)
  run_call-IsAdministered (change_profile_of c user) s ok =
      elim (Option-cases (find_row (λ u. u.id == user && u.is_active) (user_rows D s))) [
        | inl e ↦ rw e ok
        | inr (u, e) ↦
            rw (e, D.users.update_law)
              (updated-IsAdministered _ (change_profile c) (user_rows D s) (λ v. refl) (λ v. refl)
                ok)
      ]
  run_call-IsAdministered (change_role dialect id email role operator) s ok =
      set_operator_role-IsAdministered D dialect id email role operator s ok
  run_call-IsAdministered (remove_account checkouts user email n) s ok =
      delete_account-IsAdministered D casefold strip checkouts user email n s ok

  -- Whatever signups, verifications, profile updates, role changes and account removals run, in any
  -- order, an active administrator remains and the ids stay distinct, where both held.
  pub run_calls-IsAdministered :
      (cs : List AccountCall) (s : Accounts D)
      → IsAdministered (user_rows D s)
      → IsAdministered (user_rows D (run_calls cs s))
  run_calls-IsAdministered [] s ok = ok
  run_calls-IsAdministered (c ∷ cs) s ok =
      run_calls-IsAdministered cs (run_call c s) (run_call-IsAdministered c s ok)
