-- ===== src/Context/Hooks.antt =====
-- The commands around the use of a context.
use eirctl.Prelude.{
  ◌≡◌, refl, sym, ◌∙◌, false, List, [], ◌∷◌, ◌++◌, append_assoc, append-nil, Option, some, Text,
  inl, inr, Option-cases,
}
use eirctl.Context.{ExecutionContext, run_all, run_up}

-- Every command is run, whatever fails.
run_all_log :
    (execute : Text → Option Text) (commands log : List Text) (last : Option Text)
    → (run_all execute commands log last).0 ≡ log ++ commands
unfolding run_all
run_all_log execute [] log last = sym (append-nil log)
run_all_log execute (c ∷ commands) log last = elim (Option-cases (execute c)) [
  | inl fine ↦
      rw (fine, run_all)
        (run_all_log execute commands (log ++ c ∷ []) last ∙ append_assoc log (c ∷ []) commands)
  | inr (e, bad) ↦
      rw (bad, run_all)
        (run_all_log execute commands (log ++ c ∷ []) (some e) ∙ append_assoc log (c ∷ []) commands)
]

-- A second `Up` runs nothing and gives the result of the first, which ran every command of `up`
-- if none had been run before.
pub run_up_once :
    (execute later : Text → Option Text) (c : ExecutionContext) (log : List Text)
    → c.once_up ≡ false
    → (((run_up execute c log).0).1 ≡ log ++ c.up)
      × (run_up later ((run_up execute c log).0).0 ((run_up execute c log).0).1
          ≡ run_up execute c log)
unfolding run_up
run_up_once execute later c log new = rw new (run_all_log execute c.up log c.startup_error, refl)
