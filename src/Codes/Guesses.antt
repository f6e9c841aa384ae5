-- ===== src/Codes/Guesses.antt =====
-- How often a code can be guessed, and that an issued code is accepted once.
use b4fast_api.Prelude.{
  ℕ, ◌+◌, ◌-◌, ◌≤◌, ◌<◌, ◌≡◌, refl, Bool, true, false, none, some, List, [], ◌∷◌, ltb, leb,
  if◌then◌else◌, All, arith, Bool-cases, inl, inr, ◌⊎◌, lt→ltb, ==-refl,
}
use b4fast_api.Cache.{Redis}
use b4fast_api.Cache.Keys.{
  Key, Value, Purpose, key_eq, purpose_eq, num, stored_code, challenge, failures,
}
use b4fast_api.Codes.{
  Outcome, returns, Limits, Digest, matches_code, count, or_window, refusal, write_code,
  issue_email_code, settle_guess, consume_email_code,
}
use b4fast_api.Codes.Atomic.{undisturbed}
use b4fast_api.Codes.Issue.{still, undisturbed_issue}

pub record Guess : Type 0 where
  pub code : ℕ
  pub time : ℕ
  pub consume : Bool

purpose_eq_refl : (p : Purpose) → purpose_eq p p ≡ true
purpose_eq_refl p = ground arith

abbrev is_wrong : Outcome Bool → ℕ
is_wrong (returns false) = 1
is_wrong _ = 0

-- the clock reading is before the end of the failures
window_kept : (now end window : ℕ) → now < end → now + or_window (end - now) window ≡ end
window_kept now end window h = ground arith

module _ (R : Redis Key Value key_eq) (digest : Digest) (limit window : ℕ) (purpose : Purpose)
    (user : ℕ) where
  open R use {State, get, ttl, set, get_set, ttl_set, delete, get_delete, ttl_delete}

  -- A call that nobody disturbed.
  abbrev pub guess : Guess → State → Outcome Bool × State
  guess g s =
      consume_email_code R digest limit window g.consume purpose user g.code g.time
        (undisturbed R s) s

  -- The database after a list of guesses, and how many of them were refused.
  unfoldable pub guess_all : List Guess → State → State
  guess_all [] s = s
  guess_all (g ∷ gs) s = guess_all gs (guess g s).1

  unfoldable pub wrong_guesses : List Guess → State → ℕ
  wrong_guesses [] s = 0
  wrong_guesses (g ∷ gs) s = is_wrong (guess g s).0 + wrong_guesses gs (guess g s).1

  -- The failures of the user stand at `n` until `end`.
  pub record HasFailures (n end : ℕ) (s : State) : Type 0 where
    pub counted :
        (t : ℕ) → get s t (failures purpose user) ≡ (if ltb t end then some (num n) else none)
    pub left : (t : ℕ) → ttl s t (failures purpose user) ≡ end - t

  count_at :
      (n end t : ℕ) (s : State)
      → HasFailures n end s
      → t < end
      → count (get s t (failures purpose user)) ≡ n
  count_at n end t s f h = rw (f.counted t, lt→ltb t end h)

  -- A locked user's guess is refused and changes nothing.
  guess-locked :
      (g : Guess) (n end : ℕ) (s : State)
      → HasFailures n end s
      → g.time < end
      → limit ≤ n
      → guess g s ≡ (returns false, s)
  unfolding consume_email_code
  guess-locked g n end s f h l =
      let locked : leb limit n ≡ true = ground arith in rw (count_at n end g.time s f h, locked)

  delete-HasFailures :
      (n end : ℕ) (s : State)
      → HasFailures n end s
      → HasFailures n end (delete s (challenge purpose user))
  delete-HasFailures n end s f = record {
    counted =
        λ t. rw (get_delete s (challenge purpose user) t (failures purpose user)) (f.counted t);
    left = λ t. rw (ttl_delete s (challenge purpose user) t (failures purpose user)) (f.left t);
  }

  -- a wrong guess keeps the end of the window
  set-HasFailures :
      (n end now : ℕ) (s : State)
      → now < end
      → HasFailures n end (set s now (failures purpose user) (num n) (or_window (end - now) window))
  set-HasFailures n end now s h = record {
    counted = λ t. rw (
      get_set s now (failures purpose user) (num n) (or_window (end - now) window) t
          (failures purpose user),
      purpose_eq_refl purpose,
      ==-refl user,
      window_kept now end window h,
    );
    left = λ t. rw (
      ttl_set s now (failures purpose user) (num n) (or_window (end - now) window) t
          (failures purpose user),
      purpose_eq_refl purpose,
      ==-refl user,
      window_kept now end window h,
    );
  }

  guess-open :
      (g : Guess) (n end : ℕ) (s : State)
      → HasFailures n end s
      → g.time < end
      → n < limit
      → (((guess g s).0 ≡ returns true) × HasFailures n end (guess g s).1)
        ⊎ (((guess g s).0 ≡ returns false) × HasFailures (n + 1) end (guess g s).1)
  unfolding consume_email_code settle_guess
  guess-open g n end s f h l =
      let free : leb limit n ≡ false = ground arith in
      let counted = count_at n end g.time s f h in
      elim (Bool-cases
        (matches_code digest user g.code purpose (get s g.time (challenge purpose user)))) [
          | inl right ↦ elim (Bool-cases g.consume) [
            | inl once ↦ inl (
              rw (counted, free, right),
              rw (counted, free, right, once) (delete-HasFailures n end s f),
            )
            | inr again ↦ inl (rw (counted, free, right), rw (counted, free, right, again) f)
          ]
          | inr mistaken ↦
              let failed = set-HasFailures (n + 1) end g.time s h in
              elim (Bool-cases (leb limit (n + 1))) [
                | inl last ↦ inr (
                  rw (counted, free, mistaken),
                  rw (counted, free, mistaken, f.left g.time, last)
                      (delete-HasFailures (n + 1) end _ failed),
                )
                | inr more ↦ inr (
                  rw (counted, free, mistaken),
                  rw (counted, free, mistaken, f.left g.time, more) failed,
                )
              ]
        ]

  guess_all-locks :
      (gs : List Guess) (n end : ℕ) (s : State)
      → HasFailures n end s
      → All (λ g. g.time < end) gs
      → limit ≤ n + wrong_guesses gs s
      → (m : ℕ) × HasFailures m end (guess_all gs s) × (limit ≤ m)
  unfolding guess_all wrong_guesses
  guess_all-locks [] n end s f h l = (n, f, omega arith)
  guess_all-locks (g ∷ gs) n end s f h l = elim (Bool-cases (leb limit n)) [
    | inl locked ↦
        let same = guess-locked g n end s f h.0 (ground arith) in
        rw same (guess_all-locks gs n end s f h.1 (ground arith))
    | inr free ↦ elim (guess-open g n end s f h.0 (ground arith)) [
      | inl (right, f') ↦
          guess_all-locks gs n end (guess g s).1 f' h.1 (omega (arith, rw right at l))
      | inr (mistaken, f') ↦
          guess_all-locks gs (n + 1) end (guess g s).1 f' h.1 (omega (arith, rw mistaken at l))
    ]
  ]

  -- Within the window of a user's failures, once the failures that stood and the wrong guesses of
  -- any list of guesses reach the limit, every further guess is refused, the right code included,
  -- and changes nothing.
  pub guess_budget :
      (gs : List Guess) (g : Guess) (n end : ℕ) (s : State)
      → HasFailures n end s
      → All (λ x. x.time < end) gs
      → g.time < end
      → limit ≤ n + wrong_guesses gs s
      → guess g (guess_all gs s) ≡ (returns false, guess_all gs s)
  guess_budget gs g n end s f h t l =
      let (m, f', reached) = guess_all-locks gs n end s f h l in
      guess-locked g m end (guess_all gs s) f' t reached

  guess-right :
      (code time : ℕ) (s : State)
      → count (get s time (failures purpose user)) < limit
      → matches_code digest user code purpose (get s time (challenge purpose user)) ≡ true
      → guess (record { code = code; time = time; consume = true }) s
        ≡ (returns true, delete s (challenge purpose user))
  unfolding consume_email_code settle_guess
  guess-right code time s free right =
      let open_user : leb limit (count (get s time (failures purpose user))) ≡ false =
        ground arith in
      rw (open_user, right)

  -- A guess without consuming the code changes nothing.
  guess-peek :
      (code time : ℕ) (s : State)
      → count (get s time (failures purpose user)) < limit
      → matches_code digest user code purpose (get s time (challenge purpose user)) ≡ true
      → guess (record { code = code; time = time; consume = false }) s ≡ (returns true, s)
  unfolding consume_email_code settle_guess
  guess-peek code time s free right =
      let open_user : leb limit (count (get s time (failures purpose user))) ≡ false =
        ground arith in
      rw (open_user, right)

  -- Where no code stands, every guess is wrong, of a locked user too.
  guess-missing :
      (g : Guess) (s : State)
      → get s g.time (challenge purpose user) ≡ none
      → (guess g s).0 ≡ returns false
  unfolding consume_email_code
  guess-missing g s gone =
      elim (Bool-cases (leb limit (count (get s g.time (failures purpose user))))) [
        | inl t ↦ rw t refl
        | inr f ↦ rw (f, gone) refl
      ]

  issue-open :
      (limits : Limits) (now code nonce : ℕ) (s : State)
      → refusal R limits purpose user now (still R s) s ≡ none
      → issue_email_code R digest limits purpose user now (undisturbed_issue R code nonce s) s ≡ (
        returns (some code, limits.cooldown_time),
        write_code R digest limits purpose user now code nonce (still R s) s,
      )
  unfolding issue_email_code
  issue-open limits now code nonce s e = rw (e, issue_email_code)

  get-write_code :
      (limits : Limits) (now code nonce later : ℕ) (s : State)
      → later < now + limits.ttl
      → let u = write_code R digest limits purpose user now code nonce (still R s) s in
        (get u later (challenge purpose user)
          ≡ some (stored_code nonce (digest user nonce code purpose)))
        × (get u later (failures purpose user) ≡ get s later (failures purpose user))
  unfolding write_code
  get-write_code limits now code nonce later s early = (
    rw (get_set, get_set, get_set, purpose_eq_refl purpose, ==-refl user, lt→ltb _ _ early),
    rw (get_set, get_set, get_set),
  )

  -- A code that is issued on a database where the user may ask for one is right when it is guessed
  -- before it ends by a user who has failures left: a guess that does not consume it changes
  -- nothing, and after one that consumes it the next guess is wrong, of any code, at any time,
  -- whether it would consume the code or not.
  pub issued_code_accepted :
      (limits : Limits) (now code nonce later : ℕ) (g : Guess) (s : State)
      → refusal R limits purpose user now (still R s) s ≡ none
      → later < now + limits.ttl
      → count (get s later (failures purpose user)) < limit
      → let (reply, s1) =
          issue_email_code R digest limits purpose user now (undisturbed_issue R code nonce s) s in
        let (first, s2) = guess (record { code = code; time = later; consume = true }) s1 in
        (reply ≡ returns (some code, limits.cooldown_time))
        × (guess (record { code = code; time = later; consume = false }) s1 ≡ (returns true, s1))
        × (first ≡ returns true)
        × ((guess g s2).0 ≡ returns false)
  issued_code_accepted limits now code nonce later g s open_user early free =
      let u = write_code R digest limits purpose user now code nonce (still R s) s in
      let (stored, kept) = get-write_code limits now code nonce later s early in
      let free' : count (get u later (failures purpose user)) < limit = rw kept free in
      let fits : matches_code digest user code purpose (get u later (challenge purpose user))
          ≡ true =
        rw stored (==-refl (digest user nonce code purpose)) in
      rw (issue-open limits now code nonce s open_user, guess-right code later u free' fits)
        (
          refl,
          guess-peek code later u free' fits,
          refl,
          guess-missing g (delete u (challenge purpose user))
              (rw (get_delete, purpose_eq_refl purpose, ==-refl user)),
        )
