-- ===== src/Codes/Issue.antt =====
-- How the issuing of a code ends. An issue is one atomic step on the database at its EXEC; a refusal
-- reaches no EXEC and rests on single reads.
use b4fast_api.Prelude.{
  ℕ, ◌≡◌, refl, Bool, true, false, Option, none, some, List, [], ◌∷◌, leb, ltb, if◌then◌else◌, All,
  Bool-cases, Option-cases, inl, inr, Elem, map,
}
use b4fast_api.Cache.{Redis}
use b4fast_api.Cache.Keys.{Key, Value, Purpose, key_eq, cooldown, budget, failures}
use b4fast_api.Codes.{
  Outcome, returns, contention, Limits, Digest, count, max_one, Reads, IssueRound, refusal,
  write_code, issue_email_code,
}

module _ (R : Redis Key Value key_eq) where
  open R use {State, get, ttl}

  -- A round whose reads all see one database.
  abbrev pub still : State → Reads R
  still s = record { failures_ttl_at = s; cooldown_at = s; budget_at = s; budget_ttl_at = s }

  abbrev pub undisturbed_issue : ℕ → ℕ → State → List (IssueRound R)
  undisturbed_issue code nonce u =
      record { reads = still u; dirty = false; after = u; code = code; nonce = nonce } ∷ []

  -- What a round read is what the watched keys have in the database at its EXEC.
  pub record SameReads (purpose : Purpose) (user now : ℕ) (s : State) (m : Reads R) (u : State)
      : Type 0 where
    pub failed : get s now (failures purpose user) ≡ get u now (failures purpose user)
    pub cooldowns :
        ttl m.cooldown_at now (cooldown purpose user) ≡ ttl u now (cooldown purpose user)
    pub budgets : get m.budget_at now (budget purpose user) ≡ get u now (budget purpose user)
    pub budget_ttl : ttl m.budget_ttl_at now (budget purpose user) ≡ ttl u now (budget purpose user)

  -- What WATCH promises of the rounds of a call.
  abbrev pub HonestIssue : Purpose → ℕ → ℕ → State → List (IssueRound R) → Type 0
  HonestIssue purpose user now s [] = Unit
  HonestIssue purpose user now s (r ∷ rounds) =
      (r.dirty ≡ false → SameReads purpose user now s r.reads r.after)
      × HonestIssue purpose user now r.after rounds

  -- The databases at the first reads of a call's rounds.
  abbrev pub starts : State → List (IssueRound R) → List State
  starts s rounds = s ∷ map (λ r. r.after) rounds

  module _ (digest : Digest) (limits : Limits) (purpose : Purpose) (user now : ℕ) where
    pub data IssueEnds (rounds : List (IssueRound R)) (s : State)
        (result : Outcome (Option ℕ × ℕ) × State) : Type 0 where
      contended :
          All (λ r. r.dirty ≡ true) rounds → result.0 ≡ contention → IssueEnds rounds s result
      issued :
          (r : IssueRound R)
          → Elem r rounds
          → result.0 ≡ returns (some r.code, limits.cooldown_time)
          → result
            ≡ issue_email_code R digest limits purpose user now
                (undisturbed_issue r.code r.nonce r.after)
                r.after
          → IssueEnds rounds s result
      locked :
          (r : IssueRound R) (a : State)
          → Elem r rounds
          → Elem a (starts s rounds)
          → leb limits.attempt_limit (count (get a now (failures purpose user))) ≡ true
          → result ≡ (
            returns (none, max_one (ttl r.reads.failures_ttl_at now (failures purpose user))),
            r.reads.failures_ttl_at,
          )
          → IssueEnds rounds s result
      cooling :
          (r : IssueRound R)
          → Elem r rounds
          → ltb 0 (ttl r.reads.cooldown_at now (cooldown purpose user)) ≡ true
          → result ≡ (
            returns (none, ttl r.reads.cooldown_at now (cooldown purpose user)),
            r.reads.cooldown_at,
          )
          → IssueEnds rounds s result
      used_up :
          (r : IssueRound R)
          → Elem r rounds
          → leb limits.request_limit (count (get r.reads.budget_at now (budget purpose user)))
            ≡ true
          → result ≡ (
            returns (none, max_one (ttl r.reads.budget_ttl_at now (budget purpose user))),
            r.reads.budget_ttl_at,
          )
          → IssueEnds rounds s result

    -- An ending of the later rounds is one of the call.
    later-IssueEnds :
        (r : IssueRound R) (rounds : List (IssueRound R)) (s : State)
        (result : Outcome (Option ℕ × ℕ) × State)
        → r.dirty ≡ true
        → IssueEnds rounds r.after result
        → IssueEnds (r ∷ rounds) s result
    later-IssueEnds r rounds s result dirty (contended all e) = contended (dirty, all) e
    later-IssueEnds r rounds s result dirty (issued q m e f) = issued q (inr m) e f
    later-IssueEnds r rounds s result dirty (locked q a m n e f) = locked q a (inr m) (inr n) e f
    later-IssueEnds r rounds s result dirty (cooling q m e f) = cooling q (inr m) e f
    later-IssueEnds r rounds s result dirty (used_up q m e f) = used_up q (inr m) e f

    -- A round that refuses nothing refuses nothing on the database at its EXEC.
    write_code-same :
        (code nonce : ℕ) (s : State) (m : Reads R) (u : State)
        → SameReads purpose user now s m u
        → refusal R limits purpose user now m s ≡ none
        → (refusal R limits purpose user now (still u) u ≡ none)
          × (write_code R digest limits purpose user now code nonce m u
              ≡ write_code R digest limits purpose user now code nonce (still u) u)
    unfolding refusal write_code
    write_code-same code nonce s m u c free =
        elim (Bool-cases (leb limits.attempt_limit (count (get s now (failures purpose user))))) [
          | inl t ↦ cc (rw t at free)
          | inr t ↦ elim (Bool-cases (ltb 0 (ttl m.cooldown_at now (cooldown purpose user)))) [
            | inl f ↦ cc (rw (t, f) at free)
            | inr f ↦
                elim (Bool-cases
                  (leb limits.request_limit (count (get m.budget_at now (budget purpose user))))) [
                    | inl g ↦ cc (rw (t, f, g) at free)
                    | inr g ↦
                        let t' = rw c.failed at t in
                        let f' = rw c.cooldowns at f in
                        let g' = rw c.budgets at g in
                        (rw (t', f', g') refl, rw (c.budgets, c.budget_ttl, write_code))
                  ]
          ]
        ]

    refused-IssueEnds :
        (r : IssueRound R) (rounds : List (IssueRound R)) (s : State) (wait : ℕ) (end : State)
        → refusal R limits purpose user now r.reads s ≡ some (wait, end)
        → IssueEnds (r ∷ rounds) s (returns (none, wait), end)
    unfolding refusal
    refused-IssueEnds r rounds s wait end e =
        elim (Bool-cases (leb limits.attempt_limit (count (get s now (failures purpose user))))) [
          | inl t ↦ locked r s (inl refl) (inl refl) t (cc (rw t at e))
          | inr t ↦
              elim (Bool-cases (ltb 0 (ttl r.reads.cooldown_at now (cooldown purpose user)))) [
                | inl f ↦ cooling r (inl refl) f (cc (rw (t, f) at e))
                | inr f ↦
                    elim (Bool-cases (
                      leb limits.request_limit
                        (count (get r.reads.budget_at now (budget purpose user))))) [
                          | inl g ↦ used_up r (inl refl) g (cc (rw (t, f, g) at e))
                          | inr g ↦ cc (rw (t, f, g) at e)
                        ]
              ]
        ]

    tried-IssueEnds :
        (b : Bool) (rounds : List (IssueRound R)) (s : State) (x y : Outcome (Option ℕ × ℕ) × State)
        → (b ≡ true → IssueEnds rounds s x)
        → (b ≡ false → IssueEnds rounds s y)
        → IssueEnds rounds s (if b then x else y)
    tried-IssueEnds true rounds s x y h k = h refl
    tried-IssueEnds false rounds s x y h k = k refl

    -- Where a transaction goes through only on keys that are as they were read, issuing a code
    -- fails by contention, after rounds that were all disturbed; or it issues the code of one of
    -- its rounds, with the result and the effect of a call run whole on the database at the EXEC of
    -- that round; or it refuses after one of its reads, and changes nothing: the failures were at
    -- their limit at the first read of a round, or a cooldown ran, or the budget was used up, at
    -- the read of the round that looks at it.
    pub issue_email_code-IssueEnds :
        (rounds : List (IssueRound R)) (s : State)
        → HonestIssue purpose user now s rounds
        → IssueEnds rounds s (issue_email_code R digest limits purpose user now rounds s)
    unfolding issue_email_code
    issue_email_code-IssueEnds [] s honest = contended tt refl
    issue_email_code-IssueEnds (r ∷ rounds) s honest =
        elim (Option-cases (refusal R limits purpose user now r.reads s)) [
          | inr ((wait, end), refused) ↦
              rw (refused, issue_email_code) (refused-IssueEnds r rounds s wait end refused)
          | inl free ↦
              rw (free, issue_email_code)
                (tried-IssueEnds r.dirty (r ∷ rounds) s _ _
                  (λ failed.
                    later-IssueEnds r rounds s _ failed
                      (issue_email_code-IssueEnds rounds r.after honest.1))
                  (λ clean.
                    let (free', same) =
                      write_code-same r.code r.nonce s r.reads r.after (honest.0 clean) free in
                    issued r (inl refl) refl (rw (same, free', issue_email_code) refl)))
        ]
