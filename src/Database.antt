-- ===== src/Database.antt =====
-- The relational database behind src/backend/app/core/db/session.py (`get_db`), which the code drives
-- through SQLAlchemy: a parameter of the model. A `Table` has states of its own; its laws say what
-- the documentation of SQL says of one statement, over the rows that a state holds.
pub mod Instance
use b4fast_api.Prelude.{
  ℕ, ◌≤◌, ◌≡◌, Bool, true, false, Option, none, some, List, [], ◌∷◌, ◌++◌, any_row, where_rows,
  update_rows, All, Elem, not,
}

-- `conflict` is the relation that the unique constraints of the table forbid between two rows.
pub record Table (Row : Type 0) (conflict : Row → Row → Bool) : Type 1 where
  pub State : Type 0
  pub rows : State → List Row
  -- `UPDATE table SET f WHERE p`
  pub update : (Row → Bool) → (Row → Row) → State → State
  pub update_law :
      (p : Row → Bool) (f : Row → Row) (s : State) → rows (update p f s) ≡ update_rows p f (rows s)
  -- `DELETE FROM table WHERE p`
  pub delete : (Row → Bool) → State → State
  pub delete_law :
      (p : Row → Bool) (s : State) → rows (delete p s) ≡ where_rows (λ r. not (p r)) (rows s)
  -- `INSERT`, at a flush or a commit; `none` is an `IntegrityError`
  pub insert : Row → State → Option State
  pub insert_refused :
      (r : Row) (s : State) → any_row (conflict r) (rows s) ≡ true → insert r s ≡ none
  pub insert_accepted :
      (r : Row) (s : State)
      → any_row (conflict r) (rows s) ≡ false
      → (s' : State) × (insert r s ≡ some s') × (rows s' ≡ rows s ++ r ∷ [])
  -- `SELECT ... WHERE p ORDER BY key LIMIT 1`; which of equal keys comes first is not said
  pub first : (Row → Bool) → (Row → ℕ) → State → Option Row
  pub first_none :
      (p : Row → Bool) (key : Row → ℕ) (s : State)
      → first p key s ≡ none
      → All (λ r. p r ≡ false) (rows s)
  pub first_some :
      (p : Row → Bool) (key : Row → ℕ) (s : State) (r : Row)
      → first p key s ≡ some r
      → Elem r (rows s) × (p r ≡ true) × All (λ q. p q ≡ true → key r ≤ key q) (rows s)
