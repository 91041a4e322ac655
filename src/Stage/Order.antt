-- ===== src/Stage/Order.antt =====
-- The order that `sort` is given for a list of stages.
use eirctl.Prelude.{◌≡◌, true, false, In, elem_iff, text_lt_asymm, arith}
use eirctl.Stage.{Stage, less}

-- `Less` is asymmetric on two stages, unless each depends on the other.
pub less_asymm :
    (i j : Stage)
    → ¬ (In i.name j.depends_on × In j.name i.depends_on)
    → less i j ≡ true
    → less j i ≡ false
unfolding less
less_asymm i j apart h =
    ground (
      arith,
      elem_iff i.name j.depends_on,
      elem_iff j.name i.depends_on,
      text_lt_asymm i.name j.name,
    )
