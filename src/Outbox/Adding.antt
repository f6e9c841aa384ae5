-- ===== src/Outbox/Adding.antt =====
-- `Notifications.add`: the unique key makes it idempotent.
use b4fast_api.Prelude.{
  ◌≡◌, true, some, List, [], ◌∷◌, ◌++◌, is_some, arith, inl, inr, Bool-cases, any_row, find_row,
  ◌==◌, if◌then◌else◌,
}
use b4fast_api.Database.{Table}
use b4fast_api.Outbox.{Notification, same_id, get, add}
use b4fast_api.Outbox.Trace.{or_same}

pub found_of_conflict :
    (r : Notification) (xs : List Notification)
    → any_row (same_id r) xs ≡ true
    → is_some (find_row (λ x. x.id == r.id) xs) ≡ true
found_of_conflict r [] h = cc
found_of_conflict r (x ∷ xs) h = ground (arith, found_of_conflict r xs)

module _ (T : Table Notification same_id) where
  open T use {State, rows, insert, insert_refused, insert_accepted}

  -- Adding never raises. A row whose id is there changes nothing; another one goes to the end.
  pub add_lem :
      (r : Notification) (s : State)
      → (s' : State) × (add T r s ≡ some s')
        × (rows s' ≡ (if any_row (same_id r) (rows s) then rows s else rows s ++ r ∷ []))
  unfolding add get
  add_lem r s = elim (Bool-cases (any_row (same_id r) (rows s))) [
    | inl t ↦ (s, rw (insert_refused r s t, found_of_conflict r (rows s) t), rw t)
    | inr f ↦ let (s', done, grown) = insert_accepted r s f in (s', rw done, rw f grown)
  ]

  pub rows-add :
      (r : Notification) (s : State)
      → rows (or_same T s (add T r s))
        ≡ (if any_row (same_id r) (rows s) then rows s else rows s ++ r ∷ [])
  rows-add r s = let (s', done, grown) = add_lem r s in rw done grown
