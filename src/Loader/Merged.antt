-- ===== src/Loader/Merged.antt =====
-- What a merge gives, and when it is refused.
use eirctl.Prelude.{
  not_both, ◌≡◌, refl, sym, ap, ◌∙◌, subst, false, List, [], ◌∷◌, none, some, Text, codes, Map,
  IsMap, keys, lookup, has, has_iff, insert, lookup-insert, In-keys-insert, lookup-eq-none_iff, In,
  Result, ok, err, >>=-eq-ok, Bool-cases, ◌↔◌, ⊎_elim, inl, inr, arith, text_eq_iff, false_of_iff,
}
use eirctl.Config.Pipeline.{PipelineDefinition}
use eirctl.Config.Definitions.{ConfigDefinition, TaskDefinition, ContextDefinition}
use eirctl.Loader.{LoadFault, clash}
use eirctl.Loader.Merge.{
  merge_kind, task_from, pipeline_from, context_from, merge_existing_with_imported,
}

module _ {V : Type 0} where
  -- No name is in both.
  abbrev pub IsApart : Map V → Map V → Type 0
  IsApart imported base = (name : Text) → In name (keys imported) → ¬ In name (keys base)

  -- A lookup finds the imported value, enriched, or else what was there.
  abbrev pub IsJoined : (V → V) → (imported base out : Map V) → Type 0
  IsJoined enrich imported base out =
      (name : Text)
      → lookup name out
        ≡ elim (lookup name imported) [ none ↦ lookup name base | some v ↦ some (enrich v) ]

  module _ (kind path : Text) (enrich : V → V) where
    merge_kind-IsJoined :
        (imported base : Map V)
        → IsMap imported
        → IsApart imported base
        → (out : Map V) × (merge_kind kind path enrich imported base ≡ ok out)
          × IsJoined enrich imported base out
    unfolding merge_kind lookup
    merge_kind-IsJoined [] base m apart = (base, refl, λ name. refl)
    merge_kind-IsJoined ((n, v) ∷ imported) base m apart =
        let new : has n base ≡ false =
          false_of_iff (has n base) (has_iff n base) (apart n (inl refl)) in
        let apart' : IsApart imported (insert n (enrich v) base) = λ name i j.
          ⊎_elim (λ same. m.0 (subst (λ t. In t (keys imported)) same i)) (apart name (inr i))
            ((In-keys-insert n name (enrich v) base).0 j) in
        let (out, same, joined) =
          merge_kind-IsJoined imported (insert n (enrich v) base) m.1 apart' in
        (
          out,
          rw (new, merge_kind) same,
          λ name. ground (
            arith,
            joined name,
            lookup-insert n name (enrich v) base,
            text_eq_iff n name,
            lookup-eq-none_iff n imported,
          ),
        )

    merge_kind-IsApart :
        (imported base out : Map V)
        → IsMap imported
        → merge_kind kind path enrich imported base ≡ ok out
        → IsApart imported base
    unfolding merge_kind
    merge_kind-IsApart [] base out m e name i j = absurd i
    merge_kind-IsApart ((n, v) ∷ imported) base out m e name i j = elim (Bool-cases (has n base)) [
      | inl old ↦ refused (rw (old, merge_kind) at e)
      | inr new ↦
          let rest =
            merge_kind-IsApart imported (insert n (enrich v) base) out m.1
              (rw (new, merge_kind) at e) in
          ⊎_elim
            (λ same.
              not_both (has n base) ((has_iff n base).1 (subst (λ t. In t (keys base)) same j)) new)
            (λ later. rest name later ((In-keys-insert n name (enrich v) base).1 (inr j))) i
    ]
      where
        refused : ◌≡◌ {A = Result LoadFault (Map V)} (err (clash kind path n)) (ok out) → ⊥
        refused q = cc

    ok-IsJoined :
        (imported base out : Map V)
        → IsMap imported
        → merge_kind kind path enrich imported base ≡ ok out
        → IsJoined enrich imported base out
    ok-IsJoined imported base out m e =
        let (out', same, joined) =
          merge_kind-IsJoined imported base m (merge_kind-IsApart imported base out m e) in
        subst (λ o. IsJoined enrich imported base o) (same_of_ok (sym same ∙ e)) joined
      where
        same_of_ok : {a b : Map V} → ◌≡◌ {A = Result LoadFault (Map V)} (ok a) (ok b) → a ≡ b
        same_of_ok q = cc

-- An import is merged exactly when it has no task, pipeline or context of a name that is there;
-- then every lookup finds what was imported, with the path of the import, or else what was there,
-- and all else of the configuration stays. The imported definitions are maps.
pub merge_existing_with_imported_lem :
    (base imported : ConfigDefinition) (path : Text)
    → IsMap imported.tasks
    → IsMap imported.pipelines
    → IsMap imported.contexts
    → (((out : ConfigDefinition) × (merge_existing_with_imported base imported path ≡ ok out)) ↔ (
        IsApart imported.tasks base.tasks
        × IsApart imported.pipelines base.pipelines
        × IsApart imported.contexts base.contexts))
      × ((out : ConfigDefinition)
          → merge_existing_with_imported base imported path ≡ ok out
          → IsJoined (task_from path) imported.tasks base.tasks out.tasks
            × IsJoined (pipeline_from path) imported.pipelines base.pipelines out.pipelines
            × IsJoined (context_from path) imported.contexts base.contexts out.contexts
            × (out ≡ record base {
              tasks = out.tasks;
              pipelines = out.pipelines;
              contexts = out.contexts;
            }))
unfolding merge_existing_with_imported
merge_existing_with_imported_lem base imported path mt mp mc = (
  (
    λ (out, e).
        let (t, p, c, et, ep, ec, _) = parts out e in
        (
          merge_kind-IsApart (codes "task") path (task_from path) imported.tasks base.tasks t mt et,
          merge_kind-IsApart (codes "pipeline") path (pipeline_from path) imported.pipelines
              base.pipelines p mp ep,
          merge_kind-IsApart (codes "context") path (context_from path) imported.contexts
              base.contexts c mc ec,
        ),
    λ (at, ap, ac).
        let (t, et, _) =
          merge_kind-IsJoined (codes "task") path (task_from path) imported.tasks base.tasks mt
            at in
        let (p, ep, _) =
          merge_kind-IsJoined (codes "pipeline") path (pipeline_from path) imported.pipelines
            base.pipelines mp ap in
        let (c, ec, _) =
          merge_kind-IsJoined (codes "context") path (context_from path) imported.contexts
            base.contexts mc ac in
        (
          record base { tasks = t; pipelines = p; contexts = c },
          rw (et, ep, ec, merge_existing_with_imported) refl,
        ),
  ),
  λ out e.
      let (t, p, c, et, ep, ec, same) = parts out e in
      rw same (
        ok-IsJoined (codes "task") path (task_from path) imported.tasks base.tasks t mt et,
        ok-IsJoined (codes "pipeline") path (pipeline_from path) imported.pipelines base.pipelines p
            mp ep,
        ok-IsJoined (codes "context") path (context_from path) imported.contexts base.contexts c mc
            ec,
        refl,
      ),
)
  where
    same_of_ok :
        {a b : ConfigDefinition} → ◌≡◌ {A = Result LoadFault ConfigDefinition} (ok a) (ok b) → a ≡ b
    same_of_ok q = cc

    parts :
        (out : ConfigDefinition)
        → merge_existing_with_imported base imported path ≡ ok out
        → (t : Map TaskDefinition) × (p : Map (List PipelineDefinition)) × (c : Map
            ContextDefinition)
          × (merge_kind (codes "task") path (task_from path) imported.tasks base.tasks ≡ ok t)
          × (merge_kind
                (codes "pipeline")
                path
                (pipeline_from path)
                imported.pipelines
                base.pipelines
              ≡ ok p)
          × (merge_kind (codes "context") path (context_from path) imported.contexts base.contexts
              ≡ ok c)
          × (out ≡ record base { tasks = t; pipelines = p; contexts = c })
    parts out e =
        let (t, et, e1) =
          >>=-eq-ok (merge_kind (codes "task") path (task_from path) imported.tasks base.tasks) _
            e in
        let (p, ep, e2) =
          >>=-eq-ok
            (merge_kind (codes "pipeline") path (pipeline_from path) imported.pipelines
              base.pipelines)
            _ e1 in
        let (c, ec, e3) =
          >>=-eq-ok
            (merge_kind (codes "context") path (context_from path) imported.contexts base.contexts)
            _ e2 in
        (t, p, c, et, ep, ec, sym (same_of_ok e3))
