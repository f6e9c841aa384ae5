-- ===== src/Inbox/Delivery.antt =====
-- Delivering a keyed notification: once, whatever the users do with it.
use b4fast_api.Prelude.{
  ℕ, ◌≡◌, ◌⊎◌, refl, Bool, true, List, [], ◌∷◌, some, arith, any_row, any_row-append, Bool-cases,
  inl, inr,
}
use b4fast_api.Database.{Table}
use b4fast_api.Inbox.{
  InboxNotification, same_notification, is_key, deliver, keyed_row, Delivered, delivered, repeated,
  raised,
}
use b4fast_api.Inbox.Isolation.{Call, run_call, key-run_call}

abbrev pub has_key : ℕ → List InboxNotification → Bool
has_key d xs = any_row (λ r. is_key d r.delivery_key) xs

key_conflicts :
    (d : ℕ) (r : InboxNotification) (xs : List InboxNotification)
    → r.delivery_key ≡ some d
    → has_key d xs ≡ true
    → any_row (same_notification r) xs ≡ true
key_conflicts d r [] e h = cc
key_conflicts d r (x ∷ xs) e h = ground (arith, key_conflicts d r xs e)

module _ (T : Table InboxNotification same_notification) where
  open T use {State, rows, insert, insert_refused, insert_accepted}

  -- The users' calls: time, user, call.
  abbrev pub run_calls : List (ℕ × ℕ × Call) → State → State
  run_calls [] s = s
  run_calls ((now, user, c) ∷ cs) s = run_calls cs (run_call T now user c s)

  abbrev pub after : State → Delivered State → State
  after s (delivered s') = s'
  after s repeated = s
  after s raised = s

  has_key-run_calls :
      (d : ℕ) (cs : List (ℕ × ℕ × Call)) (s : State)
      → has_key d (rows s) ≡ true
      → has_key d (rows (run_calls cs s)) ≡ true
  has_key-run_calls d [] s h = h
  has_key-run_calls d ((now, user, c) ∷ cs) s h =
      has_key-run_calls d cs (run_call T now user c s) (rw (key-run_call T d now user c s) h)

  has_key-deliver :
      (sha256 : ℕ → ℕ → ℕ) (id now key user kind : ℕ) (title body path : List ℕ) (s : State)
      → (deliver T sha256 id now key user kind title body path s ≡ raised)
        ⊎ (has_key
              (sha256 user key)
              (rows (after s (deliver T sha256 id now key user kind title body path s)))
            ≡ true)
  unfolding deliver
  has_key-deliver sha256 id now key user kind title body path s =
      elim (Bool-cases (
        any_row (same_notification (keyed_row id now (sha256 user key) user kind title body path))
          (rows s))) [
            | inl t ↦ elim (Bool-cases (has_key (sha256 user key) (rows s))) [
              | inl held ↦ inr (
                  rw
                    (
                      insert_refused (keyed_row id now (sha256 user key) user kind title body path)
                          s t,
                      held,
                    )
                    held)
              | inr free ↦ inl (
                  rw
                    (
                      insert_refused (keyed_row id now (sha256 user key) user kind title body path)
                          s t,
                      free,
                    )
                    refl)
            ]
            | inr f ↦
                let (s', done, grown) =
                  insert_accepted (keyed_row id now (sha256 user key) user kind title body path) s
                    f in
                inr (
                  rw (done, grown)
                    (rw (any_row-append (λ r. is_key (sha256 user key) r.delivery_key) (rows s) _)
                      (ground arith)))
          ]

  refused :
      (sha256 : ℕ → ℕ → ℕ) (id now key user kind : ℕ) (title body path : List ℕ) (s : State)
      → has_key (sha256 user key) (rows s) ≡ true
      → deliver T sha256 id now key user kind title body path s ≡ repeated
  unfolding deliver
  refused sha256 id now key user kind title body path s h =
      rw
        (
          insert_refused (keyed_row id now (sha256 user key) user kind title body path) s (
              key_conflicts (sha256 user key)
                (keyed_row id now (sha256 user key) user kind title body path) (rows s) refl h),
          h,
        )
        refl

  -- A key is delivered to a user once: a delivery raises, or every further delivery with the same
  -- user and key is refused as a repeat, whatever it carries, and whatever the users read, select
  -- or remove in between.
  pub deliver_once :
      (sha256 : ℕ → ℕ → ℕ) (key user : ℕ) (s : State) (id now kind : ℕ) (title body path : List ℕ)
      (cs : List (ℕ × ℕ × Call)) (id' now' kind' : ℕ) (title' body' path' : List ℕ)
      → (deliver T sha256 id now key user kind title body path s ≡ raised)
        ⊎ (deliver T sha256 id' now' key user kind' title' body' path'
              (run_calls cs (after s (deliver T sha256 id now key user kind title body path s)))
            ≡ repeated)
  deliver_once sha256 key user s id now kind title body path cs id' now' kind' title' body' path' =
      elim (has_key-deliver sha256 id now key user kind title body path s) [
        | inl e ↦ inl e
        | inr h ↦ inr (
            refused sha256 id' now' key user kind' title' body' path' _
              (has_key-run_calls (sha256 user key) cs _ h))
      ]
