-- ===== src/Prelude/Lists.antt =====
-- List functions over the native numbers, with Boolean tests: what `WHERE`, `UPDATE` and `DELETE`
-- do to the rows of a table.
use Prim.Native.Nat.{◌-◌, ◌*◌, ℕ, zero, ◌≤◌, suc, ◌+◌, ◌<◌}
use mathlib.Core.Path.{◌≡◌, refl, sym, ap, subst}
use mathlib.Core.Logic.{◌⊎◌, inl, inr}
use mathlib.Core.Bool.{Bool, true, false, ◌||◌}
use mathlib.Core.Option.{Option, none, some}
use mathlib.Core.List.{List, [], ◌∷◌, ◌++◌}
use native.Mathlib.Omega.{arith}
use b4fast_api.Prelude.Tests.{if◌then◌else◌, Bool-cases}

module _ {ℓ} {A : Type ℓ} where
  abbrev pub length : List A → ℕ
  length [] = 0
  length (x ∷ xs) = suc (length xs)

  -- the rows that a `WHERE` clause keeps
  abbrev pub where_rows : (A → Bool) → List A → List A
  where_rows p [] = []
  where_rows p (x ∷ xs) = let rest = where_rows p xs in if p x then x ∷ rest else rest

  -- `UPDATE ... SET f WHERE p`
  abbrev pub update_rows : (A → Bool) → (A → A) → List A → List A
  update_rows p f [] = []
  update_rows p f (x ∷ xs) = (if p x then f x else x) ∷ update_rows p f xs

  -- `SELECT ... WHERE p` read by `scalar_one_or_none` on a table where one row at most fits
  abbrev pub find_row : (A → Bool) → List A → Option A
  find_row p [] = none
  find_row p (x ∷ xs) = let rest = find_row p xs in if p x then some x else rest

  abbrev pub any_row : (A → Bool) → List A → Bool
  any_row p [] = false
  any_row p (x ∷ xs) = p x || any_row p xs

  abbrev pub count_rows : (A → Bool) → List A → ℕ
  count_rows p [] = 0
  count_rows p (x ∷ xs) = let rest = count_rows p xs in if p x then suc rest else rest

-- A property of every row.
abbrev pub All {ℓ κ} : {A : Type ℓ} → (A → Type κ) → List A → Type κ
All P [] = Unit
All P (x ∷ xs) = P x × All P xs

abbrev pub Elem : {A : Type 0} → A → List A → Type 0
Elem a [] = ⊥
Elem a (x ∷ xs) = (a ≡ x) ⊎ Elem a xs

module _ {ℓ} {A : Type ℓ} where
  pub length-append : (xs ys : List A) → length (xs ++ ys) ≡ length xs + length ys
  length-append [] ys = omega arith
  length-append (x ∷ xs) ys = omega (arith, length-append xs ys)

  pub find_row_sound : (p : A → Bool) (xs : List A) {x : A} → find_row p xs ≡ some x → p x ≡ true
  find_row_sound p [] h = cc
  find_row_sound p (x ∷ xs) h = elim (Bool-cases (p x)) [
    | inl e ↦ ground (arith, e)
    | inr e ↦ find_row_sound p xs (rw e at h)
  ]

  pub any_row-append :
      (p : A → Bool) (xs ys : List A) → any_row p (xs ++ ys) ≡ (any_row p xs || any_row p ys)
  any_row-append p [] ys = refl
  any_row-append p (x ∷ xs) ys = ground (arith, any_row-append p xs ys)

  pub count_rows-append :
      (p : A → Bool) (xs ys : List A) → count_rows p (xs ++ ys) ≡ count_rows p xs + count_rows p ys
  count_rows-append p [] ys = omega arith
  count_rows-append p (x ∷ xs) ys = ground (arith, count_rows-append p xs ys)

  pub count_rows-pos : (p : A → Bool) (xs : List A) → any_row p xs ≡ true → 0 < count_rows p xs
  count_rows-pos p [] h = cc
  count_rows-pos p (x ∷ xs) h = ground (arith, count_rows-pos p xs)

module _ {ℓ κ} {A : Type ℓ} (P : A → Type κ) where
  pub All-append : (xs ys : List A) → All P xs → All P ys → All P (xs ++ ys)
  All-append [] ys hx hy = hy
  All-append (x ∷ xs) ys hx hy = (hx.0, All-append xs ys hx.1 hy)

  -- An update keeps a property of the rows when it keeps that of each row it writes.
  pub All-update :
      (p : A → Bool) (f : A → A) (xs : List A)
      → ((x : A) → p x ≡ true → P x → P (f x))
      → All P xs
      → All P (update_rows p f xs)
  All-update p f [] keep h = tt
  All-update p f (x ∷ xs) keep (hx, hs) = elim (Bool-cases (p x)) [
    | inl e ↦ rw e (keep x e hx, All-update p f xs keep hs)
    | inr e ↦ rw e (hx, All-update p f xs keep hs)
  ]

  -- A deletion keeps every property of the rows.
  pub All-where : (p : A → Bool) (xs : List A) → All P xs → All P (where_rows p xs)
  All-where p [] h = tt
  All-where p (x ∷ xs) (hx, hs) = elim (Bool-cases (p x)) [
    | inl e ↦ rw e (hx, All-where p xs hs)
    | inr e ↦ rw e (All-where p xs hs)
  ]

  pub All-find : (p : A → Bool) (xs : List A) {x : A} → All P xs → find_row p xs ≡ some x → P x
  All-find p [] h e = cc
  All-find p (x ∷ xs) {x = y} (hx, hs) e = elim (Bool-cases (p x)) [
    | inl t ↦ let same : x ≡ y = cc (rw t at e) in subst P same hx
    | inr t ↦ All-find p xs hs (rw t at e)
  ]

-- An update leaves no row that it would write again, when what it writes it leaves alone.
pub update-settles {ℓ} :
    {A : Type ℓ} (p : A → Bool) (f : A → A) (xs : List A)
    → ((x : A) → p x ≡ true → p (f x) ≡ false)
    → All (λ x. p x ≡ false) (update_rows p f xs)
update-settles p f [] h = tt
update-settles p f (x ∷ xs) h = elim (Bool-cases (p x)) [
  | inl e ↦ rw e (h x e, update-settles p f xs h)
  | inr e ↦ rw e (e, update-settles p f xs h)
]

pub find_row_found :
    {A : Type 0} (p : A → Bool) (xs : List A) {k : A} → find_row p xs ≡ some k → Elem k xs
find_row_found p [] e = cc
find_row_found p (x ∷ xs) e = elim (Bool-cases (p x)) [
  | inl t ↦ inl (cc (rw t at e))
  | inr t ↦ inr (find_row_found p xs (rw t at e))
]

pub count_rows-Elem :
    {A : Type 0} (p : A → Bool) (a : A) (xs : List A) → Elem a xs → p a ≡ true → 0 < count_rows p xs
count_rows-Elem p a [] m e = absurd m
count_rows-Elem p a (x ∷ xs) (inl same) e = ground (arith, ap p same)
count_rows-Elem p a (x ∷ xs) (inr m) e = ground (arith, count_rows-Elem p a xs m e)

pub All-Elem {κ} : {A : Type 0} (P : A → Type κ) (a : A) (xs : List A) → All P xs → Elem a xs → P a
All-Elem P a [] h e = absurd e
All-Elem P a (x ∷ xs) h (inl e) = subst P (sym e) h.0
All-Elem P a (x ∷ xs) h (inr e) = All-Elem P a xs h.1 e

pub All-map {ℓ κ μ} :
    {A : Type ℓ} {P : A → Type κ} {Q : A → Type μ} (xs : List A)
    → ((x : A) → P x → Q x)
    → All P xs
    → All Q xs
All-map [] f h = tt
All-map (x ∷ xs) f h = (f x h.0, All-map xs f h.1)

module _ {ℓ} {A : Type ℓ} where
  -- An update of rows that a selection leaves out, before and after it, is not seen by it.
  pub where-update :
      (q p : A → Bool) (f : A → A) (xs : List A)
      → ((x : A) → p x ≡ true → q x ≡ false)
      → ((x : A) → p x ≡ true → q (f x) ≡ false)
      → where_rows q (update_rows p f xs) ≡ where_rows q xs
  where-update q p f [] out stays = refl
  where-update q p f (x ∷ xs) out stays = elim (Bool-cases (p x)) [
    | inl e ↦ rw (e, out x e, stays x e) (where-update q p f xs out stays)
    | inr e ↦ rw (e, where-update q p f xs out stays)
  ]

  abbrev pub take : ℕ → List A → List A
  take zero xs = []
  take (suc n) [] = []
  take (suc n) (x ∷ xs) = x ∷ take n xs

  pub length-take-le : (n : ℕ) (xs : List A) → length (take n xs) ≤ n
  length-take-le (suc n) (x ∷ xs) = omega (arith, length-take-le n xs)
  length-take-le _ _ = omega arith

  abbrev pub drop : ℕ → List A → List A
  drop zero xs = xs
  drop (suc n) [] = []
  drop (suc n) (x ∷ xs) = drop n xs

  -- `ORDER BY`, where the test says which row comes first
  abbrev pub place_by : (A → A → Bool) → A → List A → List A
  place_by before r [] = r ∷ []
  place_by before r (x ∷ xs) =
      let rest = place_by before r xs in if before r x then r ∷ x ∷ xs else x ∷ rest

  abbrev pub sort_by : (A → A → Bool) → List A → List A
  sort_by before [] = []
  sort_by before (x ∷ xs) = place_by before x (sort_by before xs)

  -- `OFFSET (page - 1) * size LIMIT size`
  abbrev pub page_rows : ℕ → ℕ → List A → List A
  page_rows page size xs = take size (drop ((page - 1) * size) xs)
