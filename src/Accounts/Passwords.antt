-- ===== src/Accounts/Passwords.antt =====
-- `change_password_hash` is a compare-and-set on the stored hash.
use b4fast_api.Prelude.{
  ℕ, ◌≡◌, refl, Bool, false, ◌&&◌, List, [], ◌∷◌, ◌==◌, arith, any_row, count_rows, update_rows,
}
use b4fast_api.Accounts.{Credential, User, Tables, Accounts, user_rows, change_password_hash}

abbrev pub fits : ℕ → ℕ → List User → Credential → Bool
fits user hash us c =
    c.user_id == user
    && (c.password_hash == hash && any_row (λ u. u.id == c.user_id && u.is_active) us)

none_left :
    (user old new : ℕ) (us : List User) (xs : List Credential)
    → (new == old) ≡ false
    → count_rows
        (fits user old us)
        (update_rows (fits user old us) (λ c. record c { password_hash = new }) xs)
      ≡ 0
none_left user old new us [] h = refl
none_left user old new us (x ∷ xs) h = ground (arith, none_left user old new us xs h)

module _ (D : Tables) where
  -- Of two password changes that were confirmed against the same old hash, the second one fails,
  -- where the first one stored another hash.
  pub change_password_once :
      (user old new new' : ℕ) (s : Accounts D)
      → (new == old) ≡ false
      → (change_password_hash D user old new' (change_password_hash D user old new s).1).0 ≡ false
  unfolding change_password_hash
  change_password_once user old new new' s h =
      rw
        (
          D.credentials.update_law,
          none_left user old new (user_rows D s) (D.credentials.rows s.credentials) h,
        )
        refl
