-- ===== src/Photos/Backed.antt =====
-- The photo that a user shows stays in the storage, however an upload ends.
use b4fast_api.Prelude.{
  ℕ, ◌≤◌, ◌<◌, ◌≡◌, refl, Bool, true, false, not, ◌&&◌, ◌==◌, Option, none, some, List, [], ◌∷◌,
  if◌then◌else◌, find_row, any_row, where_rows, count_rows, update_rows, and_then, Bool-cases,
  Option-cases, inl, inr, arith,
}
use b4fast_api.Accounts.{Tables, Accounts, user_rows}
use b4fast_api.Photos.{
  is_active_user, get_photo, set_photo, shows, replace, StorageEnv, PhotoWorld, cleanup,
}

-- What is found after an update that keeps what is looked for.
find_row-updated :
    {A : Type 0} (p q : A → Bool) (f : A → A) (xs : List A)
    → ((x : A) → p (f x) ≡ p x)
    → find_row p (update_rows q f xs)
      ≡ and_then (find_row p xs) (λ r. some (if q r then f r else r))
find_row-updated p q f [] keeps = refl
find_row-updated p q f (x ∷ xs) keeps = elim (Bool-cases (p x)) [
  | inl here ↦ elim (Bool-cases (q x)) [
    | inl t ↦ rw (t, here, keeps x, here, t) refl
    | inr f' ↦ rw (f', here, f') refl
  ]
  | inr later ↦ elim (Bool-cases (q x)) [
    | inl t ↦ rw (t, later, keeps x, later) (find_row-updated p q f xs keeps)
    | inr f' ↦ rw (f', later) (find_row-updated p q f xs keeps)
  ]
]

-- A row that is found is counted.
find-count :
    {A : Type 0} (p q : A → Bool) (xs : List A) (r : A)
    → find_row p xs ≡ some r
    → q r ≡ true
    → 0 < count_rows q xs
find-count p q [] r e h = cc
find-count p q (x ∷ xs) r e h = elim (Bool-cases (p x)) [
  | inl here ↦
      let same : x ≡ r = cc (rw here at e) in
      let fits : q x ≡ true = rw same h in rw fits (omega arith)
  | inr later ↦
      let rest = find-count p q xs r (rw later at e) h in
      elim (Bool-cases (q x)) [ inl t ↦ rw t (omega arith) | inr f ↦ rw f rest ]
]

count-le :
    {A : Type 0} (p q : A → Bool) (xs : List A)
    → ((x : A) → q x ≡ true → p x ≡ true)
    → count_rows q xs ≤ count_rows p xs
count-le p q [] h = omega arith
count-le p q (x ∷ xs) h =
    let rest = count-le p q xs h in
    elim (Bool-cases (q x)) [
      | inl t ↦ rw (t, h x t) (omega (arith, rest))
      | inr f ↦ elim (Bool-cases (p x)) [
        | inl t ↦ rw (f, t) (omega (arith, rest))
        | inr f' ↦ rw (f, f') rest
      ]
    ]

find-none : {A : Type 0} (p : A → Bool) (xs : List A) → find_row p xs ≡ none → count_rows p xs ≡ 0
find-none p [] e = refl
find-none p (x ∷ xs) e = elim (Bool-cases (p x)) [
  | inl here ↦ cc (rw here at e)
  | inr later ↦ rw later (find-none p xs (rw later at e))
]

-- Where one row is looked for and does not fit, none fits.
find-alone :
    {A : Type 0} (p q : A → Bool) (xs : List A) (r : A)
    → ((x : A) → q x ≡ true → p x ≡ true)
    → count_rows p xs ≤ 1
    → find_row p xs ≡ some r
    → q r ≡ false
    → count_rows q xs ≡ 0
find-alone p q [] r h one e out = refl
find-alone p q (x ∷ xs) r h one e out = elim (Bool-cases (p x)) [
  | inl here ↦
      let same : x ≡ r = cc (rw here at e) in
      let left : q x ≡ false = rw same out in
      let rest = count-le p q xs h in
      let alone = rw here at one in rw left (omega (arith, rest, alone))
  | inr later ↦ elim (Bool-cases (q x)) [
    | inl t ↦ cc (later, h x t)
    | inr f ↦ rw f (find-alone p q xs r h (rw later at one) (rw later at e) out)
  ]
]

count_rows-updated :
    {A : Type 0} (p q : A → Bool) (f : A → A) (xs : List A)
    → ((x : A) → p (f x) ≡ p x)
    → count_rows p (update_rows q f xs) ≡ count_rows p xs
count_rows-updated p q f [] keeps = refl
count_rows-updated p q f (x ∷ xs) keeps =
    let rest = count_rows-updated p q f xs keeps in
    elim (Bool-cases (q x)) [ inl t ↦ rw (t, keeps x, rest) refl | inr f' ↦ rw (f', rest) refl ]

module _ (G : StorageEnv) (D : Tables) (user : ℕ) where
  abbrev pub has_key : ℕ → List ℕ → Bool
  has_key k objects = any_row (λ j. j == k) objects

  -- A reference in this storage has its object there.
  abbrev pub InStorage : List ℕ → Option ℕ → Type 0
  InStorage objects none = Unit
  InStorage objects (some reference) =
      (G.storage_of reference == G.identity && not (has_key (G.key_of reference) objects)) ≡ false

  abbrev pub shown : Accounts D → Option ℕ
  shown s = and_then (get_photo D user s) (λ p. p.reference)

  -- The photo that the user shows is in the storage, and no other row has the id of the user.
  pub record IsBacked (w : PhotoWorld G D) : Type 0 where
    pub in_storage : InStorage w.objects (shown w.db)
    pub one_row : count_rows (λ u. u.id == user) (user_rows D w.db) ≤ 1

  deleted-has_key :
      (k j : ℕ) (objects : List ℕ)
      → (j == k) ≡ false
      → has_key j (where_rows (λ i. not (i == k)) objects) ≡ has_key j objects
  deleted-has_key k j [] h = refl
  deleted-has_key k j (i ∷ objects) h = ground (arith, h, deleted-has_key k j objects h)

  -- A clean-up of another object keeps the photo.
  abbrev pub Apart : ℕ → Option ℕ → Type 0
  Apart key none = Unit
  Apart key (some reference) = (G.key_of reference == key) ≡ false

  cleanup-InStorage :
      (key : ℕ) (o : Option ℕ) (objects : List ℕ)
      → Apart key o
      → InStorage objects o
      → InStorage (where_rows (λ k. not (k == key)) objects) o
  cleanup-InStorage key none objects apart h = tt
  cleanup-InStorage key (some reference) objects apart h =
      rw (deleted-has_key key (G.key_of reference) objects apart) h

  pub cleanup-IsBacked :
      (deletes : Bool) (reference : ℕ) (w : PhotoWorld G D)
      → Apart (G.key_of reference) (shown w.db)
      → IsBacked w
      → IsBacked (cleanup G D deletes (some reference) w)
  cleanup-IsBacked deletes reference w apart h =
      elim (Bool-cases (G.storage_of reference == G.identity && deletes)) [
        | inr f ↦ rw f h
        | inl t ↦ rw t (record {
          in_storage =
              cleanup-InStorage (G.key_of reference) (shown w.db) w.objects apart h.in_storage;
          one_row = h.one_row;
        })
      ]

  pub with_object-InStorage :
      (key : ℕ) (o : Option ℕ) (objects : List ℕ)
      → InStorage objects o
      → InStorage (key ∷ objects) o
  with_object-InStorage key none objects h = tt
  with_object-InStorage key (some reference) objects h = ground (arith, h)

  active_alone :
      (s : Accounts D)
      → count_rows (λ u. u.id == user) (user_rows D s) ≤ 1
      → count_rows (is_active_user D user) (user_rows D s) ≤ 1
  active_alone s one =
      let less =
        count-le (λ u. u.id == user) (is_active_user D user) (user_rows D s)
          (λ u h. ground (arith, h)) in
      omega (arith, one, less)

  -- How a replacement ends: with the new photo, or with the one before.
  pub data Replaced (new : Option ℕ) (s : Accounts D) (r : Bool × Accounts D) : Type 0 where
    changed : r.0 ≡ true → shown r.1 ≡ new → Replaced new s r
    unchanged : r.0 ≡ false → shown r.1 ≡ shown s → Replaced new s r

  pub replace-Replaced :
      (expected url new : Option ℕ) (s : Accounts D)
      → count_rows (λ u. u.id == user) (user_rows D s) ≤ 1
      → Replaced new s (replace D user expected url new s)
  unfolding replace get_photo
  replace-Replaced expected url new s one =
      let p = is_active_user D user in
      let q = shows D user expected in
      let found = find_row-updated p q (set_photo D url new) (user_rows D s) (λ x. refl) in
      let alone = active_alone s one in
      elim (Option-cases (find_row p (user_rows D s))) [
        | inl absent ↦
            let zero = find-none p (user_rows D s) absent in
            let less = count-le p q (user_rows D s) (λ u h. ground (arith, h)) in
            unchanged (ground (arith, zero, less)) (rw (D.users.update_law, found, absent) refl)
        | inr (r, there) ↦ elim (Bool-cases (q r)) [
          | inl fits ↦
              let some_row = find-count p q (user_rows D s) r there fits in
              let less = count-le p q (user_rows D s) (λ u h. ground (arith, h)) in
              changed (ground (arith, some_row, less, alone))
                (rw (D.users.update_law, found, there, fits) refl)
          | inr out ↦
              let zero =
                find-alone p q (user_rows D s) r (λ u h. ground (arith, h)) alone there out in
              unchanged (ground (arith, zero)) (rw (D.users.update_law, found, there, out) refl)
        ]
      ]

  pub replace-one_row :
      (expected url reference : Option ℕ) (s : Accounts D)
      → count_rows (λ u. u.id == user) (user_rows D s) ≤ 1
      → count_rows (λ u. u.id == user) (user_rows D (replace D user expected url reference s).1) ≤ 1
  unfolding replace
  replace-one_row expected url reference s one =
      rw
        (
          D.users.update_law,
          count_rows-updated (λ u. u.id == user) (shows D user expected) (set_photo D url reference)
              (user_rows D s) (λ x. refl),
        )
        one
