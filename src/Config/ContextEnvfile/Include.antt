-- ===== src/Config/ContextEnvfile/Include.antt =====
-- What the default excludes of a container do to an include list.
use eirctl.Prelude.{
  ◌≡◌, ◌≢◌, refl, arith, true, false, List, [], ◌∷◌, ◌++◌, Option, some, Text, codes, Map, ok, err,
  Bool-cases, inl, inr, subst,
}
use eirctl.Variables.{Any, Variables}
use eirctl.Envfile.{Envfile}
use eirctl.Context.{ExecutionContext, mutually_exclusive, is_none, process_envfile}
use eirctl.Config.ContextEnvfile.{all_valid, validate, copy_envfile, new_env_file}

is_none-append : (xs : List Text) (y : Text) (ys : List Text) → is_none (xs ++ y ∷ ys) ≡ false
unfolding is_none
is_none-append [] y ys = refl
is_none-append (x ∷ xs) y ys = refl

is_none_ne : (xs : List Text) → xs ≢ [] → is_none xs ≡ false
unfolding is_none
is_none_ne [] h = absurd (h refl)
is_none_ne (x ∷ xs) h = refl

copy-excludes : (d : Envfile) → is_none (copy_envfile d true).exclude ≡ false
unfolding copy_envfile
copy-excludes d = is_none-append d.exclude (codes "PATH") (codes "HOME" ∷ codes "TMPDIR" ∷ [])

copy-includes : (d : Envfile) → (d.include ≢ []) → is_none (copy_envfile d true).include ≡ false
unfolding copy_envfile
copy-includes d h = is_none_ne d.include h

-- The envfile of a container context that has an include list is never processed: the excludes
-- that every container gets make the two lists exclusive.
pub new_env_file_include :
    (show : Any → Text)
    → (find : Text → Text → Option (Text × Text))
    → (files : List (Map Text)) (env : Variables) (c : ExecutionContext) (d : Envfile)
    → (d.include ≢ [])
    → new_env_file (some d) true ≡ ok (some c.envfile)
    → process_envfile show find files env c ≡ err mutually_exclusive
unfolding new_env_file validate process_envfile
new_env_file_include show find files env c d some_include built =
    elim (Bool-cases (all_valid d.modify)) [
      | inr bad ↦ absurd (cc)
      | inl good ↦
          let copied : copy_envfile d true ≡ c.envfile = ground arith in
          let excludes = subst (λ e. is_none e.exclude ≡ false) copied (copy-excludes d) in
          let includes =
            subst (λ e. is_none e.include ≡ false) copied (copy-includes d some_include) in
          rw (excludes, includes) refl
    ]
