-- ===== src/Codes.antt =====
-- src/backend/app/utils/account_verification.py: one-time email codes in Redis, issued and consumed
-- under WATCH/MULTI/EXEC with eight rounds.
pub mod Atomic
pub mod Issue
pub mod Guesses
mod Tests
use b4fast_api.Prelude.{
  ℕ, ◌+◌, ◌≡◌, Bool, true, false, ◌&&◌, Option, none, some, List, [], ◌∷◌, ltb, leb, ◌==◌,
  if◌then◌else◌,
}
use b4fast_api.Cache.{Redis}
use b4fast_api.Cache.Keys.{
  Key, Value, Purpose, key_eq, num, stored_code, challenge, cooldown, budget, failures,
}

pub data Outcome (A : Type 0) : Type 0 where
  returns : A → Outcome A
  -- `RuntimeError`: other clients changed a watched key in every round
  contention : Outcome A

pub record Limits : Type 0 where
  pub ttl : ℕ
  pub cooldown_time : ℕ
  pub request_limit : ℕ
  pub request_window : ℕ
  pub attempt_limit : ℕ

-- `int(await pipe.get(key) or 0)`; the backend stores nothing but numbers at these keys
abbrev pub count : Option Value → ℕ
count (some (num n)) = n
count _ = 0

abbrev pub max_one : ℕ → ℕ
max_one n = if leb 1 n then n else 1

abbrev pub or_window : ℕ → ℕ → ℕ
or_window left window = if ltb 0 left then left else window

-- `digest` is `_digest`, the keyed hash: user, nonce, code and purpose to a text.
abbrev pub Digest : Type 0
Digest = ℕ → ℕ → ℕ → Purpose → ℕ

abbrev pub matches_code : Digest → ℕ → ℕ → Purpose → Option Value → Bool
matches_code digest user code purpose (some (stored_code nonce d)) =
    d == digest user nonce code purpose
matches_code digest user code purpose _ = false

module _ (R : Redis Key Value key_eq) where
  open R use {State, get, ttl, set, delete}

  -- One round of `consume_email_code`: whether another client wrote a watched key between its reads
  -- and its EXEC (`WatchError`), and the database at EXEC.
  pub record Round : Type 0 where
    pub dirty : Bool
    pub after : State

  -- The databases at the reads of a round of `issue_email_code` that follow its first one.
  pub record Reads : Type 0 where
    pub failures_ttl_at : State
    pub cooldown_at : State
    pub budget_at : State
    pub budget_ttl_at : State

  -- One round of `issue_email_code`, with the code and the nonce that it drew.
  pub record IssueRound : Type 0 where
    pub reads : Reads
    pub dirty : Bool
    pub after : State
    pub code : ℕ
    pub nonce : ℕ

  -- The early returns of `issue_email_code`, which reach no EXEC: the seconds, and the database at
  -- the last read.
  unfoldable pub refusal : Limits → Purpose → ℕ → ℕ → Reads → State → Option (ℕ × State)
  refusal limits purpose user now m s =
      if leb limits.attempt_limit (count (get s now (failures purpose user)))
      then some (max_one (ttl m.failures_ttl_at now (failures purpose user)), m.failures_ttl_at)
      else if ltb 0 (ttl m.cooldown_at now (cooldown purpose user))
      then some (ttl m.cooldown_at now (cooldown purpose user), m.cooldown_at)
      else if leb limits.request_limit (count (get m.budget_at now (budget purpose user)))
      then some (max_one (ttl m.budget_ttl_at now (budget purpose user)), m.budget_ttl_at)
      else none

  -- The three queued SETs, from what was read, on the database at EXEC.
  unfoldable pub write_code : Digest → Limits → Purpose → ℕ → ℕ → ℕ → ℕ → Reads → State → State
  write_code digest limits purpose user now code nonce m u =
      let requests = count (get m.budget_at now (budget purpose user)) in
      let left = ttl m.budget_ttl_at now (budget purpose user) in
      let u1 =
        set u now (challenge purpose user) (stored_code nonce (digest user nonce code purpose))
          limits.ttl in
      let u2 = set u1 now (cooldown purpose user) (num 1) limits.cooldown_time in
      set u2 now (budget purpose user) (num (requests + 1)) (or_window left limits.request_window)

  -- The result is the code, or `None`, and the seconds to wait.
  unfoldable pub issue_email_code :
      Digest → Limits → Purpose → ℕ → ℕ → List IssueRound → State → Outcome (Option ℕ × ℕ) × State
  issue_email_code digest limits purpose user now [] s = (contention, s)
  issue_email_code digest limits purpose user now (r ∷ rounds) s =
      let retry = issue_email_code digest limits purpose user now rounds r.after in
      elim (refusal limits purpose user now r.reads s) [
        | some (wait, end) ↦ (returns (none, wait), end)
        | none ↦ if r.dirty then retry else (
          returns (some r.code, limits.cooldown_time),
          write_code digest limits purpose user now r.code r.nonce r.reads r.after,
        )
      ]

  -- What EXEC does in `consume_email_code`: to the challenge where the code is right, to the
  -- failures where it is wrong.
  unfoldable pub settle_guess : ℕ → ℕ → Bool → Purpose → ℕ → ℕ → Bool → State → State → State
  settle_guess attempt_limit window consume purpose user now valid s u =
      let attempts = count (get s now (failures purpose user)) in
      let left = ttl s now (failures purpose user) in
      let failed = set u now (failures purpose user) (num (attempts + 1)) (or_window left window) in
      if valid
      then (if consume then delete u (challenge purpose user) else u)
      else if leb attempt_limit (attempts + 1)
      then delete failed (challenge purpose user)
      else failed

  unfoldable pub consume_email_code :
      Digest → ℕ → ℕ → Bool → Purpose → ℕ → ℕ → ℕ → List Round → State → Outcome Bool × State
  consume_email_code digest attempt_limit window consume purpose user code now [] s =
      (contention, s)
  consume_email_code digest attempt_limit window consume purpose user code now (r ∷ rounds) s =
      let retry =
        consume_email_code digest attempt_limit window consume purpose user code now rounds
          r.after in
      let valid = matches_code digest user code purpose (get s now (challenge purpose user)) in
      if leb attempt_limit (count (get s now (failures purpose user)))
      then (returns false, s)
      else if r.dirty
      then retry
      else (
        returns valid,
        settle_guess attempt_limit window consume purpose user now valid s r.after,
      )
