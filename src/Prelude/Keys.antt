-- ===== src/Prelude/Keys.antt =====
-- Rows that a number identifies: lookups by it, and rows with distinct ids.
use Prim.Native.Nat.{ℕ, ◌+◌}
use mathlib.Core.Path.{◌≡◌, refl, ap}
use mathlib.Core.Logic.{inl, inr}
use mathlib.Core.Bool.{Bool, true, false, not}
use mathlib.Core.Option
use mathlib.Core.Option.{Option, none, some}
use mathlib.Core.List.{List, [], ◌∷◌, ◌++◌}
use native.Mathlib.Omega.{arith}
use b4fast_api.Prelude.Tests.{if◌then◌else◌, ◌==◌, Bool-cases}
use b4fast_api.Prelude.Lists.{
  any_row-append, find_row, any_row, update_rows, Elem, where_rows, count_rows,
}

module _ {A : Type 0} (id : A → ℕ) where
  abbrev pub Distinct : List A → Type 0
  Distinct [] = Unit
  Distinct (x ∷ xs) = (any_row (λ y. id x == id y) xs ≡ false) × Distinct xs

  pub any_row-key :
      (x r : A) (xs : List A) → id x ≡ id r → Elem r xs → any_row (λ y. id x == id y) xs ≡ true
  any_row-key x r [] e m = absurd m
  any_row-key x r (y ∷ xs) e (inl same) = ground (arith, ap id same)
  any_row-key x r (y ∷ xs) e (inr m) = ground (arith, any_row-key x r xs e m)

  -- With distinct ids a row is found by its own.
  pub find_row-Elem :
      (r : A) (xs : List A) → Distinct xs → Elem r xs → find_row (λ x. id x == id r) xs ≡ some r
  find_row-Elem r [] d m = absurd m
  find_row-Elem r (x ∷ xs) d (inl same) = ground (arith, same, ap id same)
  find_row-Elem r (x ∷ xs) d (inr m) =
      ground (arith, find_row-Elem r xs d.1 m, any_row-key x r xs _ m)

  module _ (p : A → Bool) (f : A → A) (keeps : (x : A) → id (f x) ≡ id x) where
    pub id-update : (x : A) → id (if p x then f x else x) ≡ id x
    id-update x = ground (arith, keeps x)

    -- An update that keeps ids is seen through a lookup by id.
    pub find_row-update :
        (k : ℕ) (xs : List A)
        → find_row (λ x. id x == k) (update_rows p f xs)
          ≡ Option.map (λ x. if p x then f x else x) (find_row (λ x. id x == k) xs)
    find_row-update k [] = refl
    find_row-update k (x ∷ xs) = elim (Bool-cases (id x == k)) [
      | inl e ↦ rw (id-update x, e)
      | inr e ↦ rw (id-update x, e) (find_row-update k xs)
    ]

    any_row-update :
        (k : ℕ) (xs : List A)
        → any_row (λ y. k == id y) (update_rows p f xs) ≡ any_row (λ y. k == id y) xs
    any_row-update k [] = refl
    any_row-update k (x ∷ xs) = rw (id-update x, any_row-update k xs)

    pub Distinct-update : (xs : List A) → Distinct xs → Distinct (update_rows p f xs)
    Distinct-update [] d = tt
    Distinct-update (x ∷ xs) d =
        (rw (id-update x, any_row-update (id x) xs) d.0, Distinct-update xs d.1)

  pub Distinct-append :
      (r : A) (xs : List A)
      → any_row (λ y. id r == id y) xs ≡ false
      → Distinct xs
      → Distinct (xs ++ r ∷ [])
  Distinct-append r [] f d = (refl, tt)
  Distinct-append r (x ∷ xs) f d = (
    ground (arith, any_row-append (λ y. id x == id y) xs (r ∷ [])),
    Distinct-append r xs (ground arith) d.1,
  )

  module _ (p : A → Bool) where
    no_key-where :
        (k : ℕ) (xs : List A)
        → any_row (λ y. k == id y) xs ≡ false
        → count_rows p (where_rows (λ y. not (id y == k)) xs) ≡ count_rows p xs
    no_key-where k [] e = refl
    no_key-where k (x ∷ xs) e = ground (arith, no_key-where k xs)

    no_key-update :
        (f : A → A) (k : ℕ) (xs : List A)
        → any_row (λ y. k == id y) xs ≡ false
        → count_rows p (update_rows (λ y. id y == k) f xs) ≡ count_rows p xs
    no_key-update f k [] e = refl
    no_key-update f k (x ∷ xs) e = ground (arith, no_key-update f k xs)

    -- Deleting a row by its key takes one row at most out of a count, and none that does not count.
    pub count-delete :
        (r : A) (xs : List A)
        → Distinct xs
        → Elem r xs
        → count_rows p xs
          ≡ count_rows p (where_rows (λ y. not (id y == id r)) xs) + (if p r then 1 else 0)
    count-delete r [] d m = absurd m
    count-delete r (x ∷ xs) d (inl e) = ground (arith, ap id e, ap p e, no_key-where (id x) xs d.0)
    count-delete r (x ∷ xs) d (inr m) = ground (arith, count-delete r xs d.1 m, any_row-key x r xs)

    pub count-update_one :
        (f : A → A) (r : A) (xs : List A)
        → Distinct xs
        → Elem r xs
        → count_rows p xs + (if p (f r) then 1 else 0)
          ≡ count_rows p (update_rows (λ y. id y == id r) f xs) + (if p r then 1 else 0)
    count-update_one f r [] d m = absurd m
    count-update_one f r (x ∷ xs) d (inl e) =
        ground (arith, ap id e, ap p e, ap (λ y. p (f y)) e, no_key-update f (id x) xs d.0)
    count-update_one f r (x ∷ xs) d (inr m) =
        ground (arith, count-update_one f r xs d.1 m, any_row-key x r xs)

  no_key-left :
      (p : A → Bool) (k : ℕ) (xs : List A)
      → any_row (λ y. k == id y) xs ≡ false
      → any_row (λ y. k == id y) (where_rows p xs) ≡ false
  no_key-left p k [] e = refl
  no_key-left p k (x ∷ xs) e = ground (arith, no_key-left p k xs)

  pub Distinct-where : (p : A → Bool) (xs : List A) → Distinct xs → Distinct (where_rows p xs)
  Distinct-where p [] d = tt
  Distinct-where p (x ∷ xs) d = elim (Bool-cases (p x)) [
    | inl e ↦ rw e (no_key-left p (id x) xs d.0, Distinct-where p xs d.1)
    | inr e ↦ rw e (Distinct-where p xs d.1)
  ]
