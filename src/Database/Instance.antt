-- ===== src/Database/Instance.antt =====
-- A table as the list of its rows: a value of `Table`, which shows that its laws can be met. The
-- runs at concrete inputs use it.
use b4fast_api.Prelude.{
  ℕ, ◌≤◌, ◌≡◌, refl, Bool, true, false, Option, none, some, List, [], ◌∷◌, ◌++◌, leb, arith, inl,
  inr, if◌then◌else◌, any_row, where_rows, update_rows, All, Elem, not, Bool-cases, subst, All-map,
}
use b4fast_api.Database.{Table}

module _ {Row : Type 0} where
  abbrev pub better : (Row → ℕ) → Row → Option Row → Row
  better key x none = x
  better key x (some y) = if leb (key x) (key y) then x else y

  abbrev pub first_row : (Row → Bool) → (Row → ℕ) → List Row → Option Row
  first_row p key [] = none
  first_row p key (x ∷ xs) =
      let rest = first_row p key xs in if p x then some (better key x rest) else rest

  abbrev pub insert_row : (Row → Row → Bool) → Row → List Row → Option (List Row)
  insert_row conflict r s = if any_row (conflict r) s then none else some (s ++ r ∷ [])

  pub first_row-none :
      (p : Row → Bool) (key : Row → ℕ) (s : List Row)
      → first_row p key s ≡ none
      → All (λ r. p r ≡ false) s
  first_row-none p key [] h = tt
  first_row-none p key (x ∷ xs) h = ground (arith, first_row-none p key xs)

  abbrev pub IsFirst : (Row → Bool) → (Row → ℕ) → Row → List Row → Type 0
  IsFirst p key r s = Elem r s × (p r ≡ true) × All (λ q. p q ≡ true → key r ≤ key q) s

  -- the row that fits comes before the first one of the rest
  taken :
      (p : Row → Bool) (key : Row → ℕ) (x : Row) (xs : List Row) (r : Row) (rest : Option Row)
      → p x ≡ true
      → some (better key x rest) ≡ some r
      → first_row p key xs ≡ rest
      → ((y : Row) → rest ≡ some y → IsFirst p key y xs)
      → IsFirst p key r (x ∷ xs)
  taken p key x xs r none t h e ih =
      let same : x ≡ r = cc in
      subst (λ z. IsFirst p key z (x ∷ xs)) same
        (
          inl refl,
          t,
          (λ _. omega arith, All-map xs (λ q f u. cc (f, u)) (first_row-none p key xs e)),
        )
  taken p key x xs r (some y) t h e ih = elim (Bool-cases (leb (key x) (key y))) [
    | inl c ↦
        let same : x ≡ r = cc (rw c at h) in
        let (_, _, least) = ih y refl in
        subst (λ z. IsFirst p key z (x ∷ xs)) same
          (inl refl, t, (λ _. omega arith, All-map xs (λ q k u. smaller x y q c (k u)) least))
    | inr c ↦
        let same : y ≡ r = cc (rw c at h) in
        let (el, py, least) = ih y refl in
        subst (λ z. IsFirst p key z (x ∷ xs)) same (inr el, py, (λ _. ground arith, least))
  ]
    where
      smaller : (a b q : Row) → leb (key a) (key b) ≡ true → key b ≤ key q → key a ≤ key q
      smaller a b q u v = ground arith

  pub first_row-some :
      (p : Row → Bool) (key : Row → ℕ) (s : List Row) (r : Row)
      → first_row p key s ≡ some r
      → IsFirst p key r s
  first_row-some p key [] r h = cc
  first_row-some p key (x ∷ xs) r h = elim (Bool-cases (p x)) [
    | inl t ↦ taken p key x xs r (first_row p key xs) t (rw t at h) refl (first_row-some p key xs)
    | inr f ↦
        let (e, pr, least) = first_row-some p key xs r (rw f at h) in
        (inr e, pr, (λ t. cc (f, t), least))
  ]

  pub insert_row-accepted :
      (conflict : Row → Row → Bool) (r : Row) (s : List Row)
      → any_row (conflict r) s ≡ false
      → (s' : List Row) × (insert_row conflict r s ≡ some s') × (s' ≡ s ++ r ∷ [])
  insert_row-accepted conflict r s h = (s ++ r ∷ [], rw h, refl)

  abbrev pub list_table : (conflict : Row → Row → Bool) → Table Row conflict
  list_table conflict = record {
    State = List Row;
    rows = λ s. s;
    update = update_rows;
    update_law = λ p f s. refl;
    delete = λ p s. where_rows (λ r. not (p r)) s;
    delete_law = λ p s. refl;
    insert = insert_row conflict;
    insert_refused = λ r s h. rw h;
    insert_accepted = insert_row-accepted conflict;
    first = first_row;
    first_none = first_row-none;
    first_some = first_row-some;
  }
