-- ===== src/Policy/Flow/Isolation.antt =====
-- What content of a pull request can reach once the checks have passed.
use eirctl.Prelude.{◌≡◌, none, Map, ◌↔◌, if◌then◌else◌, length, ◌==◌}
use eirctl.Policy.{Library, Workflow, Error, no_workflow_files, ◌then◌, first_error, fail_if}
use eirctl.Policy.Checks.{then-eq-none_iff}
use eirctl.Policy.Flow.{validate_workflow, validate_flows, validate_loaded}

-- The checks that `Validate` has passed.
pub validate_loaded-eq-none_iff :
    (lib : Library) (topology : Map Workflow → Error) (ws : Map Workflow)
    → (validate_loaded lib topology ws ≡ none) ↔ (
        (fail_if (length ws == 0) no_workflow_files ≡ none)
        × (first_error (λ (path, w). validate_workflow w) ws ≡ none)
        × (validate_flows lib ws ≡ none)
        × (topology ws ≡ none))
unfolding validate_loaded
validate_loaded-eq-none_iff lib topology ws =
    let some_file = fail_if (length ws == 0) no_workflow_files in
    let each = first_error (λ (path, w). validate_workflow w) ws in
    let (a, a') = then-eq-none_iff some_file (each then validate_flows lib ws then topology ws) in
    let (b, b') = then-eq-none_iff each (validate_flows lib ws then topology ws) in
    let (c, c') = then-eq-none_iff (validate_flows lib ws) (topology ws) in
    (
      λ e. let (p, r) = a e in let (q, r') = b r in let (x, y) = c r' in (p, q, x, y),
      λ (p, q, x, y). a' (p, b' (q, c' (x, y))),
    )
