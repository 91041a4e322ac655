-- ===== src/Policy/Permitted.antt =====
-- The permissions that the policy expects of a workflow and of its jobs.
pub mod Exact
pub mod Table
use eirctl.Prelude.{
  ◌≡◌, refl, sym, ap, ◌∙◌, subst, ◌↔◌, ◌⊎◌, inl, inr, ⊎_elim, ℕ, Bool, true, false, not, ◌&&◌, List,
  [], ◌∷◌, Option, none, some, Text, codes, Map, lookup, lookup-eq-none_iff, keys, IsMap, In, All,
  text_eq, text_eq_iff, ◌==◌, ==_iff, length, if◌then◌else◌, arith, Bool-cases, Distinct,
}
use eirctl.Policy.{Workflow, Permissions, text_at}

unfoldable pub has_expected : (actual : Permissions) → Permissions → Bool
has_expected actual [] = true
has_expected actual ((name, value) ∷ expected) =
    text_eq (text_at name actual) value && has_expected actual expected

unfoldable pub same_permissions : (actual expected : Permissions) → Bool
same_permissions actual expected = length actual == length expected && has_expected actual expected

abbrev pub read_contents : Permissions
read_contents = (codes "contents", codes "read") ∷ []

unfoldable pub expected_workflow_permissions : Text → Permissions
expected_workflow_permissions path = read_contents

abbrev pub allowed : Map (Map Permissions)
allowed =
    (
      codes ".github/workflows/debug-build-request.yml",
      (codes "authorize", (codes "pull-requests", codes "read") ∷ [])
          ∷ (
            codes "build",
            (codes "contents", codes "read") ∷ (codes "pull-requests", codes "read") ∷ [],
          )
          ∷ (
            codes "finalize",
            (codes "actions", codes "read")
                ∷ (codes "contents", codes "read")
                ∷ (codes "pull-requests", codes "read")
                ∷ [],
          )
          ∷ [],
    )
    ∷ (
      codes ".github/workflows/debug-build.yml",
      (codes "build", (codes "contents", codes "read") ∷ (codes "pull-requests", codes "read") ∷ [])
          ∷ [],
    )
    ∷ (
      codes ".github/workflows/pr.yml",
      (codes "report", (codes "contents", codes "read") ∷ (codes "checks", codes "write") ∷ [])
          ∷ [],
    )
    ∷ (
      codes ".github/workflows/publish-debug-release.yml",
      (
        codes "validate-build",
        (codes "actions", codes "read")
            ∷ (codes "contents", codes "read")
            ∷ (codes "pull-requests", codes "read")
            ∷ [],
      )
          ∷ (
            codes "publish",
            (codes "actions", codes "read") ∷ (codes "contents", codes "write") ∷ [],
          )
          ∷ [],
    )
    ∷ (
      codes ".github/workflows/release.yml",
      (codes "release", (codes "contents", codes "write") ∷ []) ∷ [],
    )
    ∷ (
      codes ".github/workflows/release_container.yml",
      (
        codes "build-and-push",
        (codes "contents", codes "read") ∷ (codes "packages", codes "write") ∷ [],
      )
          ∷ [],
    )
    ∷ (
      codes ".github/workflows/scorecard.yml",
      (
        codes "analysis",
        (codes "contents", codes "read")
            ∷ (codes "security-events", codes "write")
            ∷ (codes "id-token", codes "write")
            ∷ [],
      )
          ∷ [],
    )
    ∷ []

unfoldable pub expected_job_permissions : Workflow → Text → Permissions
expected_job_permissions w job = elim (lookup w.path allowed) [
  | none ↦ read_contents
  | some jobs ↦ elim (lookup job jobs) [ none ↦ read_contents | some permissions ↦ permissions ]
]
