-- ===== src/Outbox/Races.antt =====
-- How the guarded UPDATE of a claim ends, and what a claim that returns nothing met, where other
-- transactions commit between its statements.
use b4fast_api.Prelude.{
  ℕ, ◌≡◌, ◌⊎◌, refl, subst, Bool, true, false, ◌&&◌, none, some, List, [], ◌∷◌, ◌==◌, arith, All,
  Elem, count_rows, update_rows, Bool-cases, Option-cases, inl, inr,
}
use b4fast_api.Database.{Table}
use b4fast_api.Outbox.{
  Notification, same_id, eligible, take_lease, claim_key, Others, selected, claim_during,
}
use b4fast_api.Outbox.Leases.{HasDistinctIds, claim_key_lem}

-- A row that is chosen, or none is.
pub any_row-decided :
    {A : Type 0} (p : A → Bool) (xs : List A)
    → ((x : A) × Elem x xs × (p x ≡ true)) ⊎ All (λ x. p x ≡ false) xs
any_row-decided p [] = inr tt
any_row-decided p (x ∷ xs) = elim (Bool-cases (p x)) [
  | inl t ↦ inl (x, inl refl, t)
  | inr f ↦ elim (any_row-decided p xs) [
    | inl (y, m, t) ↦ inl (y, inr m, t)
    | inr none_of ↦ inr (f, none_of)
  ]
]

pub count_rows-none :
    {A : Type 0} (p : A → Bool) (xs : List A) → All (λ x. p x ≡ false) xs → count_rows p xs ≡ 0
count_rows-none p [] h = refl
count_rows-none p (x ∷ xs) h = rw (h.0, count_rows-none p xs h.1) refl

pub update_rows-none :
    {A : Type 0} (p : A → Bool) (f : A → A) (xs : List A)
    → All (λ x. p x ≡ false) xs
    → update_rows p f xs ≡ xs
update_rows-none p f [] h = refl
update_rows-none p f (x ∷ xs) h = rw (h.0, update_rows-none p f xs h.1) refl

module _ (T : Table Notification same_id) where
  open T use {State, rows, update, update_law, first, first_none, first_some}

  pub record Takes (lease now key : ℕ) (s : State) : Type 0 where
    pub row : Notification
    pub there : Elem row (rows s)
    pub key_kept : row.id ≡ key
    pub fits : eligible now row ≡ true
    pub answer : (claim_key T lease now key s).0 ≡ some (take_lease lease now row)

  pub record TakesNone (lease now key : ℕ) (s : State) : Type 0 where
    pub out : All (λ r. (r.id == key && eligible now r) ≡ false) (rows s)
    pub answer : (claim_key T lease now key s).0 ≡ none
    pub kept : rows (claim_key T lease now key s).1 ≡ rows s

  pub claim_key-decided :
      (lease now key : ℕ) (s : State)
      → HasDistinctIds (rows s)
      → Takes lease now key s ⊎ TakesNone lease now key s
  unfolding claim_key
  claim_key-decided lease now key s d =
      elim (any_row-decided (λ r. r.id == key && eligible now r) (rows s)) [
        | inl (r, m, t) ↦
            let fits : eligible now r ≡ true = ground (arith, t) in
            let same : r.id ≡ key = ground (arith, t) in
            inl (record {
              row = r;
              there = m;
              key_kept = same;
              fits = fits;
              answer =
                  subst (λ k. (claim_key T lease now k s).0 ≡ some (take_lease lease now r)) same
                    (claim_key_lem T lease now r s d m fits);
            })
        | inr out ↦ inr (record {
          out = out;
          answer = rw (count_rows-none _ (rows s) out) refl;
          kept = rw update_law (update_rows-none _ (take_lease lease now) (rows s) out);
        })
      ]

  -- A claim that lost the row that its SELECT had chosen.
  pub record LostRace (o : Others T) (lease now : ℕ) (s : State) : Type 0 where
    pub row : Notification
    pub there : Elem row (rows (selected T o now s))
    pub fits : eligible now row ≡ true
    pub lost :
        All
          (λ r. (r.id == row.id && eligible now r) ≡ false)
          (rows (o.after_select (selected T o now s)))
    pub kept : rows (claim_during T o lease now s).1 ≡ rows (o.after_select (selected T o now s))

  -- Whatever other transactions commit between its statements, where the ids are distinct at its
  -- update, a claim that returns nothing found no row that is open, due and within its budget at
  -- its select and changed nothing more, or lost a race: a row was to be had at the select, none
  -- with the id of the row that it chose was left at the update, and the update changed nothing.
  pub claim_during-none :
      (o : Others T) (lease now : ℕ) (s : State)
      → HasDistinctIds (rows (o.after_select (selected T o now s)))
      → (claim_during T o lease now s).0 ≡ none
      → (((claim_during T o lease now s).1 ≡ selected T o now s)
          × All (λ r. eligible now r ≡ false) (rows (selected T o now s)))
        ⊎ LostRace o lease now s
  unfolding claim_during
  claim_during-none o lease now s d h =
      let u = selected T o now s in
      elim (Option-cases (first (eligible now) (λ r. r.available_at) u)) [
        | inl e ↦ inl (rw e, first_none (eligible now) (λ r. r.available_at) u e)
        | inr (r, e) ↦
            let (m, fits, _) = first_some (eligible now) (λ r. r.available_at) u r e in
            elim (claim_key-decided lease now r.id (o.after_select u) d) [
              | inl t ↦ cc (rw e at h, t.answer)
              | inr t ↦
                  inr (record { row = r; there = m; fits = fits; lost = t.out; kept = rw e t.kept })
            ]
      ]
