-- ===== src/Cache/Instance.antt =====
-- Redis as a function from keys to values with their expiry: a value of `Redis`, which shows that
-- its laws can be met. The runs at concrete inputs use it.
use b4fast_api.Prelude.{
  ℕ, ◌+◌, ◌-◌, ◌≤◌, ◌≡◌, refl, ap, Bool, true, not, ◌&&◌, Option, none, some, ltb, is_some, arith,
  if◌then◌else◌, Bool-cases, inl, inr,
}
use b4fast_api.Cache.{Redis}

module _ {Value : Type 0} where
  -- the value, and the clock reading at which it is gone
  abbrev pub live : Option (Value × Option ℕ) → ℕ → Option Value
  live none t = none
  live (some (v, none)) t = some v
  live (some (v, some e)) t = if ltb t e then some v else none

  abbrev pub left : Option (Value × Option ℕ) → ℕ → ℕ
  left none t = 0
  left (some (v, none)) t = 0
  left (some (v, some e)) t = e - t

  -- the entry of a key that was there at the write, or a new one
  abbrev pub rewritten : Option (Value × Option ℕ) → ℕ → Value → Option (Value × Option ℕ)
  rewritten none t v = some (v, none)
  rewritten (some (w, none)) t v = some (v, none)
  rewritten (some (w, some e)) t v = if ltb t e then some (v, some e) else some (v, none)

  abbrev pub prolonged : Option (Value × Option ℕ) → ℕ → ℕ → Option (Value × Option ℕ)
  prolonged none t d = none
  prolonged (some (w, none)) t d = some (w, some (t + d))
  prolonged (some (w, some e)) t d = if ltb t e then some (w, some (t + d)) else some (w, some e)

  pub live_earlier :
      (o : Option (Value × Option ℕ)) (t t' : ℕ) (v : Value)
      → t ≤ t'
      → live o t' ≡ some v
      → live o t ≡ some v
  live_earlier none t t' v h e = e
  live_earlier (some (w, none)) t t' v h e = e
  live_earlier (some (w, some end)) t t' v h e = elim (Bool-cases (ltb t' end)) [
    | inl l ↦ let l' : ltb t end ≡ true = ground arith in rw l' (rw l at e)
    | inr l ↦ cc (rw l at e)
  ]

  pub live-prolonged :
      (o : Option (Value × Option ℕ)) (t d t' : ℕ)
      → live (prolonged o t d) t'
        ≡ (if is_some (live o t) then (if ltb t' (t + d) then live o t else none) else live o t')
  live-prolonged none t d t' = refl
  live-prolonged (some (w, none)) t d t' = refl
  live-prolonged (some (w, some e)) t d t' = elim (Bool-cases (ltb t e)) [
    | inl h ↦ rw h
    | inr h ↦ rw h
  ]

  pub left-prolonged :
      (o : Option (Value × Option ℕ)) (t d t' : ℕ)
      → left (prolonged o t d) t' ≡ (if is_some (live o t) then t + d - t' else left o t')
  left-prolonged none t d t' = refl
  left-prolonged (some (w, none)) t d t' = refl
  left-prolonged (some (w, some e)) t d t' = elim (Bool-cases (ltb t e)) [
    | inl h ↦ rw h
    | inr h ↦ rw h
  ]

  pub live-rewritten :
      (o : Option (Value × Option ℕ)) (t t' : ℕ) (v : Value)
      → live (rewritten o t v) t'
        ≡ (if is_some (live o t) && not (is_some (live o t')) then none else some v)
  live-rewritten none t t' v = refl
  live-rewritten (some (w, none)) t t' v = refl
  live-rewritten (some (w, some e)) t t' v = elim (Bool-cases (ltb t e)) [
    | inl h ↦ elim (Bool-cases (ltb t' e)) [ inl g ↦ rw (h, g) | inr g ↦ rw (h, g) ]
    | inr h ↦ rw h
  ]

  pub left-rewritten :
      (o : Option (Value × Option ℕ)) (t t' : ℕ) (v : Value)
      → left (rewritten o t v) t' ≡ (if not (is_some (live o t)) then 0 else left o t')
  left-rewritten none t t' v = refl
  left-rewritten (some (w, none)) t t' v = refl
  left-rewritten (some (w, some e)) t t' v = elim (Bool-cases (ltb t e)) [
    | inl h ↦ rw h
    | inr h ↦ rw h
  ]

abbrev pub Store : Type 0 → Type 0 → Type 0
Store Key Value = Key → Option (Value × Option ℕ)

module _ {Key Value : Type 0} (key_eq : Key → Key → Bool)
    (sound : (k j : Key) → key_eq k j ≡ true → k ≡ j) where
  abbrev pub set_key : Store Key Value → ℕ → Key → Value → ℕ → Store Key Value
  set_key s t k v d j = if key_eq k j then some (v, some (t + d)) else s j

  abbrev pub delete_key : Store Key Value → Key → Store Key Value
  delete_key s k j = if key_eq k j then none else s j

  abbrev pub expire_key : Store Key Value → ℕ → Key → ℕ → Store Key Value
  expire_key s t k d j = if key_eq k j then prolonged (s j) t d else s j

  abbrev pub write_key : Store Key Value → ℕ → Key → Value → Store Key Value
  write_key s t k v j = if key_eq k j then rewritten (s j) t v else s j

  pub live-expire_key :
      (s : Store Key Value) (t : ℕ) (k : Key) (d t' : ℕ) (j : Key)
      → live (expire_key s t k d j) t' ≡ (
          if key_eq k j && is_some (live (s k) t)
          then (if ltb t' (t + d) then live (s k) t else none)
          else live (s j) t')
  live-expire_key s t k d t' j = elim (Bool-cases (key_eq k j)) [
    | inl e ↦ rw (e, ap s (sound k j e)) (live-prolonged (s j) t d t')
    | inr e ↦ rw e
  ]

  pub left-expire_key :
      (s : Store Key Value) (t : ℕ) (k : Key) (d t' : ℕ) (j : Key)
      → left (expire_key s t k d j) t'
        ≡ (if key_eq k j && is_some (live (s k) t) then t + d - t' else left (s j) t')
  left-expire_key s t k d t' j = elim (Bool-cases (key_eq k j)) [
    | inl e ↦ rw (e, ap s (sound k j e)) (left-prolonged (s j) t d t')
    | inr e ↦ rw e
  ]

  pub live-write_key :
      (s : Store Key Value) (t : ℕ) (k : Key) (v : Value) (t' : ℕ) (j : Key)
      → live (write_key s t k v j) t' ≡ (
          if key_eq k j
          then (if is_some (live (s k) t) && not (is_some (live (s k) t')) then none else some v)
          else live (s j) t')
  live-write_key s t k v t' j = elim (Bool-cases (key_eq k j)) [
    | inl e ↦ rw (e, ap s (sound k j e)) (live-rewritten (s j) t t' v)
    | inr e ↦ rw e
  ]

  pub left-write_key :
      (s : Store Key Value) (t : ℕ) (k : Key) (v : Value) (t' : ℕ) (j : Key)
      → left (write_key s t k v j) t'
        ≡ (if key_eq k j && not (is_some (live (s k) t)) then 0 else left (s j) t')
  left-write_key s t k v t' j = elim (Bool-cases (key_eq k j)) [
    | inl e ↦ rw (e, ap s (sound k j e)) (left-rewritten (s j) t t' v)
    | inr e ↦ rw e
  ]

  pub live-set_key :
      (s : Store Key Value) (t : ℕ) (k : Key) (v : Value) (d t' : ℕ) (j : Key)
      → live (set_key s t k v d j) t'
        ≡ (if key_eq k j then (if ltb t' (t + d) then some v else none) else live (s j) t')
  live-set_key s t k v d t' j = elim (Bool-cases (key_eq k j)) [ inl e ↦ rw e | inr e ↦ rw e ]

  pub left-set_key :
      (s : Store Key Value) (t : ℕ) (k : Key) (v : Value) (d t' : ℕ) (j : Key)
      → left (set_key s t k v d j) t' ≡ (if key_eq k j then t + d - t' else left (s j) t')
  left-set_key s t k v d t' j = elim (Bool-cases (key_eq k j)) [ inl e ↦ rw e | inr e ↦ rw e ]

  pub live-delete_key :
      (s : Store Key Value) (k : Key) (t' : ℕ) (j : Key)
      → live (delete_key s k j) t' ≡ (if key_eq k j then none else live (s j) t')
  live-delete_key s k t' j = elim (Bool-cases (key_eq k j)) [ inl e ↦ rw e | inr e ↦ rw e ]

  pub left-delete_key :
      (s : Store Key Value) (k : Key) (t' : ℕ) (j : Key)
      → left (delete_key s k j) t' ≡ (if key_eq k j then 0 else left (s j) t')
  left-delete_key s k t' j = elim (Bool-cases (key_eq k j)) [ inl e ↦ rw e | inr e ↦ rw e ]

  abbrev pub function_redis : Redis Key Value key_eq
  function_redis = record {
    State = Store Key Value;
    get = λ s t k. live (s k) t;
    get_earlier = λ s t t' k v h e. live_earlier (s k) t t' v h e;
    ttl = λ s t k. left (s k) t;
    set = set_key;
    get_set = live-set_key;
    ttl_set = left-set_key;
    delete = delete_key;
    get_delete = live-delete_key;
    ttl_delete = left-delete_key;
    expire = expire_key;
    get_expire = live-expire_key;
    ttl_expire = left-expire_key;
    write = write_key;
    get_write = live-write_key;
    ttl_write = left-write_key;
  }
