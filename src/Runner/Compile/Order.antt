-- ===== src/Runner/Compile/Order.antt =====
-- The commands of a compiled task.
use eirctl.Prelude.{
  ◌≡◌, refl, sym, ap, ◌∙◌, subst, arith, List, [], ◌∷◌, ◌++◌, map, Option, some, Text, Map, Result,
  ok, >>=-eq-ok, Bool-cases, inl, inr, not, ◌&&◌,
}
use eirctl.Variables.{Any, Variables, from_map, merge, new_variables, to_map}
use eirctl.EnvLines.{convert_from_env}
use eirctl.Context.{ExecutionContext, process_envfile, is_none, envfile_env, builder}
use eirctl.Task.{Task}
use eirctl.Runner.{Job}
use eirctl.Runner.Compile.{
  command_line, check_inputs, job_dir, set_context_env, render_dir, compile_command,
  compile_commands, compile_variations,
}

-- The lines of the commands, once for each variation.
abbrev pub all_lines : (Text → Text) → List Text → List (Map Text) → List Text
all_lines line commands [] = []
all_lines line commands (v ∷ variations) = map line commands ++ all_lines line commands variations

abbrev pub lines_of : List Job → List Text
lines_of [] = []
lines_of (job ∷ jobs) = job.command ∷ lines_of jobs

lines_of-append : (xs ys : List Job) → lines_of (xs ++ ys) ≡ lines_of xs ++ lines_of ys
lines_of-append [] ys = refl
lines_of-append (x ∷ xs) ys = ap (λ l. x.command ∷ l) (lines_of-append xs ys)

module _ (show : Any → Text) (find : Text → Text → Option (Text × Text))
    (parse_template : Text → Variables → Variables → Result Text Text) where
  set_context_env-eq :
      (files : List (Map Text)) (env : Variables) (c c' : ExecutionContext)
      → set_context_env show find parse_template files env c ≡ ok c'
      → record c { env = c'.env } ≡ c'
  unfolding set_context_env process_envfile
  set_context_env-eq files env c c' e =
      elim (Bool-cases (not (is_none c.envfile.exclude) && not (is_none c.envfile.include))) [
        | inl both ↦ absurd (cc)
        | inr fine ↦
            let all = merge (some (envfile_env files new_variables)) env in
            let read = from_map (convert_from_env (builder show find c.envfile (to_map all))) in
            let same : record c { env = read } ≡ c' = ground arith in
            subst (λ d. record c { env = d.env } ≡ d) same refl
      ]

  -- Compiling keeps the lines that the context makes.
  abbrev IsKept : ExecutionContext → ExecutionContext → Type 0
  IsKept c c' = command_line c' ≡ command_line c

  set_context_env-IsKept :
      (files : List (Map Text)) (env : Variables) (c c' : ExecutionContext)
      → set_context_env show find parse_template files env c ≡ ok c'
      → IsKept c c'
  unfolding command_line
  set_context_env-IsKept files env c c' e =
      subst (λ d. command_line d ≡ command_line c) (set_context_env-eq files env c c' e) refl

  compile_command_line :
      (compiler : Variables) (files : List (Map Text)) (t : Task) (command : Text)
      → (env vars : Variables) (c c' : ExecutionContext) (job : Job)
      → compile_command show find parse_template compiler files t command env vars c ≡ ok (c', job)
      → IsKept c c' × (job.command ≡ command_line c command)
  unfolding compile_command
  compile_command_line compiler files t command env vars c c' job e =
      let (next, e1, rest) = >>=-eq-ok (set_context_env show find parse_template files env c) _ e in
      let (dir, e2, rest') =
        >>=-eq-ok
          (render_dir show find parse_template (job_dir t.dir next) (merge (some compiler) vars)
            next.env)
          _ rest in
      let (checked, e3, end) =
        >>=-eq-ok (check_inputs t (merge (some next.env) t.env) (merge (some compiler) vars)) _
          rest' in
      let kept = set_context_env-IsKept files env c next e1 in
      let line : command_line next command ≡ job.command = cc in
      let same : next ≡ c' = cc in
      let as_before = ap (λ f. f command) kept in
      (subst (λ d. command_line d ≡ command_line c) same kept, sym line ∙ as_before)

  compile_commands_lines :
      (compiler : Variables) (files : List (Map Text)) (t : Task) (todo : List Text)
      → (env vars : Variables) (c c' : ExecutionContext) (jobs : List Job)
      → compile_commands show find parse_template compiler files t todo env vars c ≡ ok (c', jobs)
      → IsKept c c' × (lines_of jobs ≡ map (command_line c) todo)
  unfolding compile_commands
  compile_commands_lines compiler files t [] env vars c c' jobs e =
      let same : c ≡ c' = cc in
      let none_made : [] ≡ jobs = cc in (ap command_line (sym same), ap lines_of (sym none_made))
  compile_commands_lines compiler files t (command ∷ todo) env vars c c' jobs e =
      let ((next, job), e1, rest) =
        >>=-eq-ok (compile_command show find parse_template compiler files t command env vars c) _
          e in
      let ((last, more), e2, end) =
        >>=-eq-ok (compile_commands show find parse_template compiler files t todo env vars next) _
          rest in
      let (kept, line) = compile_command_line compiler files t command env vars c next job e1 in
      let (kept', lines) =
        compile_commands_lines compiler files t todo env vars next last more e2 in
      let same : last ≡ c' = cc in
      let made : job ∷ more ≡ jobs = cc in
      (
        ap command_line (sym same) ∙ kept' ∙ kept,
        ap lines_of (sym made) ∙ rw (line, lines, kept) refl,
      )

  -- A task that compiles has a job for each command of each variation, in order, with the line
  -- that the context first made of it.
  pub compile_variations_lines :
      (compiler : Variables) (files : List (Map Text)) (t : Task) (todo : List (Map Text))
      → (env vars : Variables) (c c' : ExecutionContext) (jobs : List Job)
      → compile_variations show find parse_template compiler files t todo env vars c ≡ ok (c', jobs)
      → lines_of jobs ≡ all_lines (command_line c) t.commands todo
  unfolding compile_variations
  compile_variations_lines compiler files t [] env vars c c' jobs e =
      let none_made : [] ≡ jobs = cc in ap lines_of (sym none_made)
  compile_variations_lines compiler files t (variant ∷ todo) env vars c c' jobs e =
      let ((next, some_jobs), e1, rest) =
        >>=-eq-ok
          (compile_commands show find parse_template compiler files t t.commands
            (merge (some env) (from_map variant)) vars c)
          _ e in
      let ((last, more), e2, end) =
        >>=-eq-ok (compile_variations show find parse_template compiler files t todo env vars next)
          _ rest in
      let (kept, lines) =
        compile_commands_lines compiler files t t.commands (merge (some env) (from_map variant))
          vars c next some_jobs e1 in
      let again = compile_variations_lines compiler files t todo env vars next last more e2 in
      let made : some_jobs ++ more ≡ jobs = cc in
      ap lines_of (sym made) ∙ lines_of-append some_jobs more ∙ rw (lines, again, kept) refl
