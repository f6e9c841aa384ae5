-- ===== src/Accounts/Admins.antt =====
-- There is always an active administrator.
use b4fast_api.Prelude.{
  ℕ, ◌≡◌, ◌≤◌, refl, Bool, false, ◌&&◌, not, Option, none, some, List, leb, ◌==◌, arith, inl, inr,
  Elem, Distinct, Distinct-where, Distinct-update, count-delete, count-update_one, find_row,
  find_row_found, any_row, count_rows, update_rows, where_rows, Bool-cases, Option-cases, and_then,
  AllSome,
}
use b4fast_api.Outbox.{Notification}
use b4fast_api.Accounts.{
  UserRole, is_admin, same_role, is_active_admin, User, Tables, Accounts, user_rows, Reply, replied,
  refused,
}
use b4fast_api.Accounts.Roles.{
  Dialect, is_supported, set_role, admins, set_operator_role, delete_account, add_audit,
  add_notification, assigned, assign_role, removed, remove_found,
}

abbrev pub after : {D : Tables} {A : Type 0} → Accounts D → Reply A (Accounts D) → Accounts D
after s (replied a s') = s'
after s (refused e) = s

-- What the table of users keeps: distinct ids, and an active administrator.
pub record IsAdministered (xs : List User) : Type 0 where
  pub distinct : Distinct (λ u. u.id) xs
  pub administered : 1 ≤ count_rows is_active_admin xs

assign-IsAdministered :
    (role : UserRole) (u : User) (xs : List User)
    → IsAdministered xs
    → Elem u xs
    → (is_admin u.role && (not (is_admin role) && leb (count_rows is_active_admin xs) 1)) ≡ false
    → IsAdministered (update_rows (λ v. v.id == u.id) (set_role role) xs)
assign-IsAdministered role u xs ok m guard = record {
  distinct =
      Distinct-update (λ v. v.id) (λ v. v.id == u.id) (set_role role) (λ v. refl) xs ok.distinct;
  administered = ground (
    arith,
    count-update_one (λ v. v.id) is_active_admin (set_role role) u xs ok.distinct m,
    ok.administered,
  );
}

remove-IsAdministered :
    (u : User) (xs : List User)
    → IsAdministered xs
    → Elem u xs
    → (is_admin u.role && leb (count_rows is_active_admin xs) 1) ≡ false
    → IsAdministered (where_rows (λ v. not (v.id == u.id)) xs)
remove-IsAdministered u xs ok m guard = record {
  distinct = Distinct-where (λ v. v.id) (λ v. not (v.id == u.id)) xs ok.distinct;
  administered =
      ground (arith, count-delete (λ v. v.id) is_active_admin u xs ok.distinct m, ok.administered);
}

module _ (D : Tables) where
  users-audits :
      (s : Accounts D) (o : Option D.audits.State)
      → AllSome (λ t. t.users ≡ s.users) (and_then o (λ t. some (record s { audits = t })))
  users-audits s none = tt
  users-audits s (some t) = refl

  users-add_audit :
      (id : ℕ) (u : User) (role : UserRole) (operator : ℕ) (s : Accounts D)
      → AllSome (λ t. t.users ≡ s.users) (add_audit D id u role operator s)
  users-add_audit id u role operator s = elim (Bool-cases (same_role u.role role)) [
    | inl e ↦ rw e refl
    | inr e ↦ rw e (users-audits s _)
  ]

  assigned-IsAdministered :
      (s : Accounts D) (u : User) (role : UserRole) (o : Option (Accounts D))
      → AllSome (λ t. t.users ≡ s.users) o
      → IsAdministered (user_rows D s)
      → IsAdministered (update_rows (λ v. v.id == u.id) (set_role role) (user_rows D s))
      → IsAdministered (user_rows D (after s (assigned D u role o)))
  assigned-IsAdministered s u role none same ok new = ok
  assigned-IsAdministered s u role (some t) same ok new = rw (D.users.update_law, same) new

  assign_role-IsAdministered :
      (id : ℕ) (role : UserRole) (operator : ℕ) (s : Accounts D) (o : Option User)
      → AllSome (λ u. Elem u (user_rows D s)) o
      → IsAdministered (user_rows D s)
      → IsAdministered (user_rows D (after s (assign_role D id role operator s o)))
  assign_role-IsAdministered id role operator s none m ok = ok
  assign_role-IsAdministered id role operator s (some u) m ok = elim (Bool-cases u.is_active) [
    | inr off ↦ rw off ok
    | inl active ↦
        elim (Bool-cases (is_admin u.role && (not (is_admin role) && leb (admins D s) 1))) [
          | inl last ↦ rw (active, last) ok
          | inr free ↦
              rw (active, free)
                (assigned-IsAdministered s u role (add_audit D id u role operator s)
                  (users-add_audit id u role operator s) ok
                  (assign-IsAdministered role u (user_rows D s) ok m free))
        ]
  ]

  found :
      (p : User → Bool) (s : Accounts D)
      → AllSome (λ u. Elem u (user_rows D s)) (find_row p (user_rows D s))
  found p s = elim (Option-cases (find_row p (user_rows D s))) [
    | inl e ↦ rw e tt
    | inr (u, e) ↦ rw e (find_row_found p (user_rows D s) e)
  ]

  pub set_operator_role-IsAdministered :
      (dialect : Dialect) (id email : ℕ) (role : UserRole) (operator : ℕ) (s : Accounts D)
      → IsAdministered (user_rows D s)
      → IsAdministered
          (user_rows D (after s (set_operator_role D dialect id email role operator s)))
  unfolding set_operator_role
  set_operator_role-IsAdministered dialect id email role operator s ok =
      elim (Bool-cases (is_supported dialect)) [
        | inl e ↦
            rw e
              (assign_role-IsAdministered id role operator s _ (found (λ u. u.email == email) s) ok)
        | inr e ↦ rw e ok
      ]

  users-add_notification :
      (n : Option Notification) (s : Accounts D)
      → AllSome (λ t. t.users ≡ s.users) (add_notification D n s)
  users-add_notification none s = refl
  users-add_notification (some n) s = elim (Option-cases (D.outbox.insert n s.outbox)) [
    | inl e ↦ rw e tt
    | inr (t, e) ↦ rw e refl
  ]

  removed-IsAdministered :
      (s : Accounts D) (u : User) (o : Option (Accounts D))
      → AllSome (λ t. t.users ≡ s.users) o
      → IsAdministered (user_rows D s)
      → IsAdministered (where_rows (λ v. not (v.id == u.id)) (user_rows D s))
      → IsAdministered (user_rows D (after s (removed D u o)))
  removed-IsAdministered s u none same ok new = ok
  removed-IsAdministered s u (some t) same ok new = rw (D.users.delete_law, same) new

  remove_found-IsAdministered :
      (casefold strip : ℕ → ℕ) (checkouts : List ℕ) (email : ℕ) (n : Option Notification)
      (s : Accounts D) (o : Option User)
      → AllSome (λ u. Elem u (user_rows D s)) o
      → IsAdministered (user_rows D s)
      → IsAdministered (user_rows D (after s (remove_found D casefold strip checkouts email n s o)))
  remove_found-IsAdministered casefold strip checkouts email n s none m ok = ok
  remove_found-IsAdministered casefold strip checkouts email n s (some u) m ok =
      elim (Bool-cases u.is_active) [
        | inr off ↦ rw off ok
        | inl a ↦ elim (Bool-cases (casefold u.email == casefold (strip email))) [
          | inr wrong ↦ rw (a, wrong) ok
          | inl b ↦ elim (Bool-cases (is_admin u.role && leb (admins D s) 1)) [
            | inl last ↦ rw (a, b, last) ok
            | inr c ↦ elim (Bool-cases (any_row (λ x. x == u.id) checkouts)) [
              | inl billed ↦ rw (a, b, c, billed) ok
              | inr d ↦
                  rw (a, b, c, d)
                    (removed-IsAdministered s u (add_notification D n s)
                      (users-add_notification n s) ok
                      (remove-IsAdministered u (user_rows D s) ok m c))
            ]
          ]
        ]
      ]

  pub delete_account-IsAdministered :
      (casefold strip : ℕ → ℕ) (checkouts : List ℕ) (user email : ℕ) (n : Option Notification)
      (s : Accounts D)
      → IsAdministered (user_rows D s)
      → IsAdministered
          (user_rows D (after s (delete_account D casefold strip checkouts user email n s)))
  unfolding delete_account
  delete_account-IsAdministered casefold strip checkouts user email n s ok =
      remove_found-IsAdministered casefold strip checkouts email n s _ (found (λ u. u.id == user) s)
        ok
