-- ===== src/ApiKeys/Usage.antt =====
-- Usage is recorded exactly where a key is accepted.
use b4fast_api.Prelude.{
  ap, ℕ, ◌≡◌, ◌+◌, ◌⊎◌, refl, Bool, true, false, none, some, List, [], ◌∷◌, ◌==◌, arith, inl, inr,
  Elem, Distinct, any_row, any_row-key, find_row, find_row_found, find_row_sound, update_rows,
  Bool-cases, Option-cases,
}
use b4fast_api.Database.{Table}
use b4fast_api.ApiKeys.{ApiKey, same_api_key, is_usable, record_use, record_valid_key_use}

-- The uses that all keys recorded.
abbrev pub total_uses : List ApiKey → ℕ
total_uses [] = 0
total_uses (x ∷ xs) = x.request_count + total_uses xs

no_id-uses :
    (k now : ℕ) (xs : List ApiKey)
    → any_row (λ y. k == y.id) xs ≡ false
    → total_uses (update_rows (λ r. r.id == k) (record_use now) xs) ≡ total_uses xs
unfolding record_use
no_id-uses k now [] e = refl
no_id-uses k now (x ∷ xs) e = ground (arith, no_id-uses k now xs)

one_more_use :
    (p : ApiKey → Bool) (now : ℕ) (xs : List ApiKey) (k : ApiKey)
    → Distinct (λ r. r.id) xs
    → find_row p xs ≡ some k
    → total_uses (update_rows (λ r. r.id == k.id) (record_use now) xs) ≡ total_uses xs + 1
unfolding record_use
one_more_use p now [] k d e = cc
one_more_use p now (x ∷ xs) k d e = elim (Bool-cases (p x)) [
  | inl t ↦
      let same : x ≡ k = cc (rw t at e) in
      ground (arith, same, ap (λ r. r.id) same, no_id-uses x.id now xs d.0)
  | inr t ↦ ground (
    arith,
    one_more_use p now xs k d.1 (rw t at e),
    any_row-key (λ r. r.id) x k xs,
    find_row_found p xs (rw t at e),
  )
]

module _ (T : Table ApiKey same_api_key) where
  open T use {State, rows, update_law}

  -- A use is recorded exactly where a key is accepted. With distinct ids, either no row is usable,
  -- nothing is answered and nothing changes, or the answer comes from a row with this digest that
  -- is not disabled and has not ended, and the uses of all keys grow by one.
  pub record_valid_key_use_lem :
      (key_hash now : ℕ) (s : State)
      → Distinct (λ r. r.id) (rows s)
      → let (used, s') = record_valid_key_use T key_hash now s in
        ((used ≡ none) × (find_row (is_usable key_hash now) (rows s) ≡ none) × (s' ≡ s))
        ⊎ ((k : ApiKey) × Elem k (rows s)
            × (is_usable key_hash now k ≡ true)
            × (used ≡ some (record_use now k))
            × (total_uses (rows s') ≡ total_uses (rows s) + 1))
  unfolding record_valid_key_use
  record_valid_key_use_lem key_hash now s d =
      elim (Option-cases (find_row (is_usable key_hash now) (rows s))) [
        | inl e ↦ inl (rw e refl, e, rw e refl)
        | inr (k, e) ↦ inr (
          k,
          find_row_found _ (rows s) e,
          find_row_sound _ (rows s) e,
          rw e refl,
          rw (e, update_law) (one_more_use (is_usable key_hash now) now (rows s) k d e),
        )
      ]
