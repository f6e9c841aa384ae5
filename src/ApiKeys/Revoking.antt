-- ===== src/ApiKeys/Revoking.antt =====
-- A key that its owner disabled or deleted, or that has ended, is refused.
use b4fast_api.Prelude.{
  ap, ℕ, ◌≡◌, refl, Bool, false, not, none, some, List, [], ◌∷◌, ◌==◌, arith, inl, inr, Elem,
  Distinct, any_row, any_row-key, find_row, find_row_found, update_rows, where_rows,
}
use b4fast_api.Database.{Table}
use b4fast_api.ApiKeys.{
  ApiKey, response, same_api_key, is_usable, set_enabled, owned, record_valid_key_use,
  delete_api_key, update_api_key_status, answer,
}

-- What holds of the rows once the key with this digest is out of use.
abbrev pub IsRefused : ℕ → List ApiKey → Type 0
IsRefused key_hash xs = (now : ℕ) → find_row (is_usable key_hash now) xs ≡ none

no_hash-refused :
    (h now : ℕ) (p : ApiKey → Bool) (f : ApiKey → ApiKey) (xs : List ApiKey)
    → ((r : ApiKey) → (f r).key_hash ≡ r.key_hash)
    → any_row (λ y. h == y.key_hash) xs ≡ false
    → find_row (is_usable h now) (update_rows p f xs) ≡ none
unfolding is_usable
no_hash-refused h now p f [] keep e = refl
no_hash-refused h now p f (x ∷ xs) keep e =
    ground (arith, keep x, no_hash-refused h now p f xs keep)

disabled-refused :
    (k : ApiKey) (at_time now : ℕ) (xs : List ApiKey)
    → Distinct (λ r. r.key_hash) xs
    → Elem k xs
    → find_row
        (is_usable k.key_hash now)
        (update_rows (λ r. r.id == k.id) (set_enabled at_time false) xs)
      ≡ none
unfolding is_usable set_enabled
disabled-refused k at_time now [] d m = absurd m
disabled-refused k at_time now (x ∷ xs) d (inl e) = ground (
  arith,
  e,
  ap (λ r. r.id) e,
  ap (λ r. r.key_hash) e,
  no_hash-refused x.key_hash now (λ r. r.id == k.id) (set_enabled at_time false) xs
      (λ r. ground arith) d.0,
)
disabled-refused k at_time now (x ∷ xs) d (inr m) =
    ground (arith, disabled-refused k at_time now xs d.1 m, any_row-key (λ r. r.key_hash) x k xs)

no_hash-deleted :
    (h now : ℕ) (p : ApiKey → Bool) (xs : List ApiKey)
    → any_row (λ y. h == y.key_hash) xs ≡ false
    → find_row (is_usable h now) (where_rows p xs) ≡ none
unfolding is_usable
no_hash-deleted h now p [] e = refl
no_hash-deleted h now p (x ∷ xs) e = ground (arith, no_hash-deleted h now p xs)

deleted-refused :
    (k : ApiKey) (now : ℕ) (xs : List ApiKey)
    → Distinct (λ r. r.key_hash) xs
    → Elem k xs
    → find_row (is_usable k.key_hash now) (where_rows (λ r. not (r.id == k.id)) xs) ≡ none
unfolding is_usable
deleted-refused k now [] d m = absurd m
deleted-refused k now (x ∷ xs) d (inl e) = ground (
  arith,
  e,
  ap (λ r. r.id) e,
  ap (λ r. r.key_hash) e,
  no_hash-deleted x.key_hash now (λ r. not (r.id == k.id)) xs d.0,
)
deleted-refused k now (x ∷ xs) d (inr m) =
    ground (arith, deleted-refused k now xs d.1 m, any_row-key (λ r. r.key_hash) x k xs)

module _ (T : Table ApiKey same_api_key) where
  open T use {State, rows, update, update_law, delete, delete_law}

  -- Once its owner disabled it, an API key is refused at every time and the attempt records
  -- nothing. The digests of the rows are distinct, as the unique constraint makes them.
  pub disabled_key_refused :
      (user id at_time now : ℕ) (s : State) (k : ApiKey)
      → Distinct (λ r. r.key_hash) (rows s)
      → owned T user id s ≡ some k
      → (s' : State) × (update_api_key_status T at_time user id false s
          ≡ answer (response (set_enabled at_time false k)) s')
        × (record_valid_key_use T k.key_hash now s' ≡ (none, s'))
  unfolding update_api_key_status record_valid_key_use owned
  disabled_key_refused user id at_time now s k d e = (
    update (λ r. r.id == k.id) (set_enabled at_time false) s,
    rw e refl,
    rw (update_law, disabled-refused k at_time now (rows s) d (find_row_found _ (rows s) e)) refl,
  )

  -- Once its owner deleted it, an API key is refused at every time and the attempt records nothing.
  -- The digests of the rows are distinct.
  pub deleted_key_refused :
      (user id now : ℕ) (s : State) (k : ApiKey)
      → Distinct (λ r. r.key_hash) (rows s)
      → owned T user id s ≡ some k
      → (s' : State) × (delete_api_key T user id s ≡ answer (response k) s')
        × (record_valid_key_use T k.key_hash now s' ≡ (none, s'))
  unfolding delete_api_key record_valid_key_use owned
  deleted_key_refused user id now s k d e = (
    delete (λ r. r.id == k.id) s,
    rw e refl,
    rw (delete_law, deleted-refused k now (rows s) d (find_row_found _ (rows s) e)) refl,
  )
