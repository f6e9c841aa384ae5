-- ===== src/Codes/Atomic.antt =====
-- Consuming a code behaves as one atomic step on the database at its EXEC.
use b4fast_api.Prelude.{
  ℕ, ◌≡◌, refl, Bool, true, false, List, [], ◌∷◌, leb, All, Bool-cases, inl, inr, ◌⊎◌, Elem, map,
}
use b4fast_api.Cache.{Redis}
use b4fast_api.Cache.Keys.{Key, Value, Purpose, key_eq, challenge, failures}
use b4fast_api.Codes.{contention, Digest, count, Round, settle_guess, consume_email_code}

module _ (R : Redis Key Value key_eq) where
  open R use {State, get, ttl, set, delete}

  -- The two databases agree at a clock reading on the keys of one user and purpose, which is what
  -- a transaction watches.
  pub record SameCodes (purpose : Purpose) (user now : ℕ) (s u : State) : Type 0 where
    pub challenges : get s now (challenge purpose user) ≡ get u now (challenge purpose user)
    pub failed : get s now (failures purpose user) ≡ get u now (failures purpose user)
    pub failed_ttl : ttl s now (failures purpose user) ≡ ttl u now (failures purpose user)

  -- What WATCH promises of the rounds of a call: EXEC goes through only where the watched keys are
  -- as they were read. Each round after a failed one reads the database that failed it.
  abbrev pub Honest : Purpose → ℕ → ℕ → State → List (Round R) → Type 0
  Honest purpose user now s [] = Unit
  Honest purpose user now s (r ∷ rounds) =
      (r.dirty ≡ false → SameCodes purpose user now s r.after)
      × Honest purpose user now r.after rounds

  abbrev pub undisturbed : State → List (Round R)
  undisturbed u = record { dirty = false; after = u } ∷ []

  -- The databases that stood at the reads of a call's rounds.
  abbrev pub databases : State → List (Round R) → List State
  databases s rounds = s ∷ map (λ r. r.after) rounds

  -- Where a transaction goes through only on keys that are as they were read, consuming a code
  -- either fails by contention, after rounds that were all disturbed, or has the result and the
  -- effect of a call that nobody disturbed, run whole on one of the databases that stood during the
  -- call.
  pub consume_email_code-atomic :
      (digest : Digest) (attempt_limit window : ℕ) (consume : Bool) (purpose : Purpose)
      (user code now : ℕ) (rounds : List (Round R)) (s : State)
      → Honest purpose user now s rounds
      → (All (λ r. r.dirty ≡ true) rounds
          × ((consume_email_code R digest attempt_limit window consume purpose user code now rounds
                s).0
              ≡ contention))
        ⊎ ((u : State) × Elem u (databases s rounds)
            × (consume_email_code R digest attempt_limit window consume purpose user code now rounds
                  s
                ≡ consume_email_code R digest attempt_limit window consume purpose user code now
                    (undisturbed u)
                    u))
  unfolding consume_email_code settle_guess
  consume_email_code-atomic digest attempt_limit window consume purpose user code now [] s honest =
      inl (tt, refl)
  consume_email_code-atomic digest attempt_limit window consume purpose user code now (r ∷ rounds) s
        honest =
      elim (Bool-cases (leb attempt_limit (count (get s now (failures purpose user))))) [
        | inl locked ↦ inr (s, inl refl, rw locked)
        | inr free ↦ elim (Bool-cases r.dirty) [
          | inl failed ↦
              elim (consume_email_code-atomic digest attempt_limit window consume purpose user code
                now rounds r.after honest.1) [
                  | inl (all, c) ↦ inl ((failed, all), rw (free, failed) c)
                  | inr (u, m, e) ↦ inr (u, inr m, rw (free, failed) e)
                ]
          | inr clean ↦
              let c = honest.0 clean in
              let free' : leb attempt_limit (count (get r.after now (failures purpose user)))
                  ≡ false =
                rw (← c.failed) free in
              inr (r.after, inr (inl refl), rw (clean, c.challenges, c.failed, c.failed_ttl, free'))
        ]
      ]
