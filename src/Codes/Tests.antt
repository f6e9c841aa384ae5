-- ===== src/Codes/Tests.antt =====
-- Runs of the e-mail codes at concrete inputs.
use b4fast_api.Prelude.{
  ◌+◌, ◌*◌, ◌≡◌, ◌⊎◌, refl, true, false, none, some, List, [], ◌∷◌, arith, All, Elem,
}
use b4fast_api.Cache.{Redis}
use b4fast_api.Cache.Instance.{function_redis, Store}
use b4fast_api.Cache.Keys.{
  Key, Value, key_eq, key_eq_sound, num, account_delete, stored_code, challenge, failures, budget,
}
use b4fast_api.Codes.{
  returns, contention, Limits, Digest, Round, IssueRound, refusal, issue_email_code,
  consume_email_code,
}
use b4fast_api.Codes.Atomic.{undisturbed, databases, SameCodes, consume_email_code-atomic}
use b4fast_api.Codes.Issue.{still, undisturbed_issue, IssueEnds, issue_email_code-IssueEnds}
use b4fast_api.Codes.Guesses.{
  Guess, guess, guess_all, wrong_guesses, HasFailures, guess_budget, issued_code_accepted,
}

abbrev redis : Redis Key Value key_eq
redis = function_redis key_eq key_eq_sound

abbrev empty : Store Key Value
empty k = none

abbrev limits : Limits
limits = record {
  ttl = 600;
  cooldown_time = 30;
  request_limit = 5;
  request_window = 3600;
  attempt_limit = 5;
}

abbrev digest : Digest
digest user nonce code purpose = user + nonce * 7 + code * 1000

-- Four failures stand until 900, and a code is there.
abbrev failed : Store Key Value
failed =
    redis.set
      (redis.set empty 0 (challenge account_delete 1) (stored_code 3 (digest 1 3 42 account_delete))
        600)
      300 (failures account_delete 1) (num 4) 600

abbrev wrong : Guess
wrong = record { code = 41; time = 310; consume = true }

abbrev right : Guess
right = record { code = 42; time = 320; consume = true }

failed-HasFailures : HasFailures redis digest 5 600 account_delete 1 4 900 failed
failed-HasFailures = record { counted = λ t. refl; left = λ t. refl }

one_wrong : wrong_guesses redis digest 5 600 account_delete 1 (wrong ∷ []) failed ≡ 1
unfolding wrong_guesses consume_email_code
one_wrong = refl

guess_budget_example :
    guess redis digest 5 600 account_delete 1 right
      (guess_all redis digest 5 600 account_delete 1 (wrong ∷ []) failed)
    ≡ (returns false, guess_all redis digest 5 600 account_delete 1 (wrong ∷ []) failed)
guess_budget_example =
    guess_budget redis digest 5 600 account_delete 1 (wrong ∷ []) right 4 900 failed
      failed-HasFailures (omega arith) (omega arith) (omega (arith, one_wrong))

may_ask : refusal redis limits account_delete 1 0 (still redis empty) empty ≡ none
unfolding refusal
may_ask = refl

-- A later guess that does not consume the code.
abbrev late : Guess
late = record { code = 42; time = 15; consume = false }

issued_code_accepted_example :
    let (reply, s1) =
      issue_email_code redis digest limits account_delete 1 0
        (undisturbed_issue redis 42 3 empty)
        empty in
    let (first, s2) =
      guess redis digest 5 600 account_delete 1
        (record { code = 42; time = 10; consume = true })
        s1 in
    (reply ≡ returns (some 42, 30))
    × (guess redis digest 5 600 account_delete 1
          (record { code = 42; time = 10; consume = false })
          s1
        ≡ (returns true, s1))
    × (first ≡ returns true)
    × ((guess redis digest 5 600 account_delete 1 late s2).0 ≡ returns false)
issued_code_accepted_example =
    issued_code_accepted redis digest 5 600 account_delete 1 limits 0 42 3 10 late empty may_ask
      (omega arith) (omega arith)

-- Another client adds a failure during the first round, so the second round reads the new database.
abbrev rounds : List (Round redis)
rounds = record { dirty = true; after = failed } ∷ record { dirty = false; after = failed } ∷ []

same : SameCodes redis account_delete 1 310 failed failed
same = record { challenges = refl; failed = refl; failed_ttl = refl }

consume_email_code-atomic_example :
    (All (λ (r : Round redis). r.dirty ≡ true) rounds
      × ((consume_email_code redis digest 5 600 true account_delete 1 42 310 rounds empty).0
          ≡ contention))
    ⊎ ((u : Store Key Value) × Elem u (databases redis empty rounds)
        × (consume_email_code redis digest 5 600 true account_delete 1 42 310 rounds empty
            ≡ consume_email_code redis digest 5 600 true account_delete 1 42 310
                (undisturbed redis u)
                u))
consume_email_code-atomic_example =
    consume_email_code-atomic redis digest 5 600 true account_delete 1 42 310 rounds empty
      ((λ e. cc), ((λ e. same), tt))

-- The first round of an issue is disturbed by the failure, and the second goes through.
abbrev issue_rounds : List (IssueRound redis)
issue_rounds =
    record { reads = still redis empty; dirty = true; after = failed; code = 41; nonce = 2 }
    ∷ undisturbed_issue redis 42 3 failed

second_round_issues :
    (issue_email_code redis digest limits account_delete 1 310 issue_rounds empty).0
    ≡ returns (some 42, 30)
unfolding issue_email_code refusal
second_round_issues = refl

-- Another client issues the fifth code between two reads of a round: the round reads that no
-- cooldown runs, then that the budget is used up.
abbrev fifth : Store Key Value
fifth = redis.set empty 310 (budget account_delete 1) (num 5) 3600

abbrev torn_rounds : List (IssueRound redis)
torn_rounds =
    record {
      reads = record {
        failures_ttl_at = empty;
        cooldown_at = empty;
        budget_at = fifth;
        budget_ttl_at = fifth;
      };
      dirty = true;
      after = fifth;
      code = 41;
      nonce = 2;
    }
    ∷ []

torn_round_refuses :
    (issue_email_code redis digest limits account_delete 1 310 torn_rounds empty).0
    ≡ returns (none, 3600)
unfolding issue_email_code refusal
torn_round_refuses = refl

issue_email_code-IssueEnds_example :
    IssueEnds redis digest limits account_delete 1 310 issue_rounds empty
      (issue_email_code redis digest limits account_delete 1 310 issue_rounds empty)
issue_email_code-IssueEnds_example =
    issue_email_code-IssueEnds redis digest limits account_delete 1 310 issue_rounds empty (
      (λ e. cc),
      ((λ e. record { failed = refl; cooldowns = refl; budgets = refl; budget_ttl = refl }), tt),
    )
