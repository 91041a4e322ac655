-- ===== src/Runner/Execute.antt =====
-- Which jobs are run, and what is left in the task.
use eirctl.Prelude.{
  ◌≡◌, refl, arith, ℕ, Bool, true, false, List, [], ◌∷◌, ◌++◌, append_assoc, append-nil, none, Text,
  Result, ok, err, All, ◌⊎◌, inl, inr,
}
use eirctl.Variables.{Variables}
use eirctl.Task.{Task, with_exit_code}
use eirctl.Runner.{Job, Outcome, passed, exit_status, failed, execute}

Result-cases : {E A : Type 0} (r : Result E A) → ((e : E) × (r ≡ err e)) ⊎ ((a : A) × (r ≡ ok a))
Result-cases (err e) = inl (e, refl)
Result-cases (ok a) = inr (a, refl)

Outcome-cases :
    (o : Outcome)
    → (o ≡ passed)
      ⊎ (((n : ℕ) × (e : Text) × (o ≡ exit_status n e)) ⊎ ((e : Text) × (o ≡ failed e)))
Outcome-cases passed = inl refl
Outcome-cases (exit_status n e) = inr (inl (n, e, refl))
Outcome-cases (failed e) = inr (inr (e, refl))

module _ (parse_template : Text → Variables → Variables → Result Text Text)
    (execute_job : Text → Job → Outcome) where
  abbrev pub rendered : Job → Result Text Text
  rendered job = parse_template job.command job.vars job.env

  -- A job after which the loop goes on.
  abbrev pub goes_on : Bool → Job → Bool
  goes_on allow job = elim (rendered job) [
    | err e ↦ false
    | ok cmd ↦ elim (execute_job cmd job) [
      | passed ↦ true
      | exit_status status e ↦ allow
      | failed e ↦ false
    ]
  ]

  abbrev pub command_of : Job → List Text
  command_of job = elim (rendered job) [ err e ↦ [] | ok cmd ↦ cmd ∷ [] ]

  abbrev pub commands : List Job → List Text
  commands [] = []
  commands (job ∷ jobs) = command_of job ++ commands jobs

  -- The last exit status, or the code from before.
  abbrev pub last_status : ℕ → List Job → ℕ
  last_status code [] = code
  last_status code (job ∷ jobs) = elim (rendered job) [
    | err e ↦ last_status code jobs
    | ok cmd ↦ elim (execute_job cmd job) [
      | exit_status status e ↦ last_status status jobs
      | _ ↦ last_status code jobs
    ]
  ]

  -- The loop ends without an error exactly if it goes on after every job. Then all were run in
  -- order, and of the task only the exit code is changed, to the last status if there was one.
  pub execute_lem :
      (t : Task) (jobs : List Job) (log : List Text)
      → (All (λ job. goes_on t.allow_failure job ≡ true) jobs
          → execute parse_template execute_job t jobs log
            ≡ ((with_exit_code t (last_status t.exit_code jobs), log ++ commands jobs), none))
        × ((execute parse_template execute_job t jobs log).1 ≡ none
            → All (λ job. goes_on t.allow_failure job ≡ true) jobs)
  unfolding execute with_exit_code
  execute_lem t [] log = (λ _. rw append-nil refl, λ _. tt)
  execute_lem t (job ∷ jobs) log = elim (Result-cases (rendered job)) [
    | inl (e, bad) ↦ ground arith
    | inr (cmd, fine) ↦
        let log' = log ++ cmd ∷ [] in
        let joined = append_assoc log (cmd ∷ []) (commands jobs) in
        elim (Outcome-cases (execute_job cmd job)) [
          | inl done ↦ ground (arith, execute_lem t jobs log', joined)
          | inr (inl (n, e, exited)) ↦
              ground (arith, execute_lem (with_exit_code t n) jobs log', joined)
          | inr (inr (e, broken)) ↦ ground arith
        ]
  ]
