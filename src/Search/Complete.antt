-- ===== src/Search/Complete.antt =====
-- A search that ends without a back edge leaves a finished set that is closed under edges and
-- has no cycle.
use eirctl.Prelude.{
  ◌≡◌, refl, true, false, List, [], ◌∷◌, Text, In, All, All-of_In, text_eq_iff, text_eq_refl,
  Bool-cases, ℕ, zero, suc, inl, inr, arith, ◌⊎◌, ◌↔◌, subst, ⊎_elim,
}
use eirctl.Search.{Marks, Found, ok, explore, dfs, visit_child, unmarked, >>=-eq-ok, enter, leave}
use eirctl.Search.Walks.{Walk, Cycle, Walk-closed, Finished}

module _ (next : Text → List Text) where
  pub record IsSearching (s : Marks) : Type 0 where
    pub closed : (v w : Text) → Finished s v → In w (next v) → Finished s w
    pub acyclic : (v : Text) → Finished s v → ¬ Cycle next v
    pub stacked : (v : Text) → s.in_stack v ≡ true → s.visited v ≡ true

  -- A call leaves the stack as it was, and forgets no visit.
  pub record Extends (s s' : Marks) : Type 0 where
    pub stack : (v : Text) → s'.in_stack v ≡ s.in_stack v
    pub seen : (v : Text) → s.visited v ≡ true → s'.visited v ≡ true

  Extends-refl : (s : Marks) → Extends s s
  Extends-refl s = record { stack = λ v. refl; seen = λ v h. h }

  Extends-trans : (s t u : Marks) → Extends s t → Extends t u → Extends s u
  Extends-trans s t u h k = record {
    stack = λ v. ground (arith, h.stack v, k.stack v);
    seen = λ v e. k.seen v (h.seen v e);
  }

  Extends-Finished : (s s' : Marks) (v : Text) → Extends s s' → Finished s v → Finished s' v
  Extends-Finished s s' v h f = ground (arith, h.stack v, h.seen v)

  -- What a call of the search on an unvisited node promises.
  abbrev pub Keeps : (Text → Marks → Found Marks) → Type 0
  Keeps visit =
      (n : Text) (s s' : Marks)
      → IsSearching s
      → s.visited n ≡ false
      → visit n s ≡ ok s'
      → IsSearching s' × Extends s s' × Finished s' n

  pub visit_child_lem :
      (visit : Text → Marks → Found Marks) (c : Text) (s t : Marks)
      → Keeps visit
      → IsSearching s
      → visit_child visit c s ≡ ok t
      → t.in_stack c ≡ false
      → IsSearching t × Extends s t × Finished t c
  visit_child_lem visit c s t keeps h e off = elim (Bool-cases (s.visited c)) [
    | inl old ↦
        let same : s ≡ t = ground arith in
        subst (λ u. IsSearching u × Extends s u × Finished u c) same
          (h, Extends-refl s, (old, ground arith))
    | inr new ↦ keeps c s t h new (ground arith)
  ]

  pub explore-eq-ok :
      (visit : Text → Marks → Found Marks) (node c : Text) (cs : List Text) (s s' : Marks)
      → explore visit node (c ∷ cs) s ≡ ok s'
      → (t : Marks) × (visit_child visit c s ≡ ok t)
        × (t.in_stack c ≡ false)
        × (explore visit node cs t ≡ ok s')
  unfolding explore
  explore-eq-ok visit node c cs s s' e =
      let (t, e1, e2) = >>=-eq-ok (visit_child visit c s) _ e in (t, e1, ground arith, ground arith)

  explore_lem :
      (visit : Text → Marks → Found Marks) (node : Text) (cs : List Text) (s s' : Marks)
      → Keeps visit
      → IsSearching s
      → explore visit node cs s ≡ ok s'
      → IsSearching s' × Extends s s' × All (Finished s') cs
  explore_lem visit node [] s s' keeps h e =
      let same : s ≡ s' = unfold explore in cc in
      subst (λ u. IsSearching u × Extends s u × All (Finished u) []) same (h, Extends-refl s, tt)
  explore_lem visit node (c ∷ cs) s s' keeps h e =
      let (t, e1, off, e2) = explore-eq-ok visit node c cs s s' e in
      let (ht, st, ft) = visit_child_lem visit c s t keeps h e1 off in
      let (hs, ts, all) = explore_lem visit node cs t s' keeps ht e2 in
      (hs, Extends-trans s t s' st ts, (Extends-Finished t s' c ts ft, all))

  -- The node is on the stack while its children are searched; it was not visited before, so
  -- what is finished does not change.
  enter-Finished :
      (n v : Text) (s : Marks) → s.visited n ≡ false → Finished (enter n s) v ↔ Finished s v
  enter-Finished n v s new = ground (arith, text_eq_iff n v)

  pub enter-IsSearching :
      (n : Text) (s : Marks) → s.visited n ≡ false → IsSearching s → IsSearching (enter n s)
  enter-IsSearching n s new h = record {
    closed =
        λ v w f e. (enter-Finished n w s new).1 (h.closed v w ((enter-Finished n v s new).0 f) e);
    acyclic = λ v f. h.acyclic v ((enter-Finished n v s new).0 f);
    stacked = λ v e. ground (arith, text_eq_iff n v, h.stacked v);
  }

  leave-Finished :
      (n v : Text) (s : Marks)
      → s.visited n ≡ true
      → Finished (leave n s) v ↔ ((v ≡ n) ⊎ Finished s v)
  leave-Finished n v s seen = ground (arith, text_eq_iff n v)

  -- A node all of whose successors are finished joins the finished set: a cycle through it
  -- would have to come back to it from there.
  leave-IsSearching :
      (n : Text) (s : Marks)
      → s.visited n ≡ true
      → s.in_stack n ≡ true
      → All (Finished s) (next n)
      → IsSearching s
      → IsSearching (leave n s)
  leave-IsSearching n s seen on all h = record {
    closed = λ v w f e. (leave-Finished n w s seen).1 (
        inr (
          ⊎_elim (λ same. All-of_In (Finished s) w (next n) all (rw same at e))
            (λ old. h.closed v w old e) ((leave-Finished n v s seen).0 f)));
    acyclic = λ v f (w, e, walk).
        ⊎_elim
          (λ same.
            let back : Finished s v =
              Walk-closed next (Finished s) h.closed w v walk
                (All-of_In (Finished s) w (next n) all (rw same at e)) in
            ground arith)
          (λ old. h.acyclic v old (w, e, walk)) ((leave-Finished n v s seen).0 f);
    stacked = λ v e. ground (arith, text_eq_iff n v, h.stacked v);
  }

  pub dfs-Keeps : (fuel : ℕ) → Keeps (dfs next fuel)
  unfolding dfs
  dfs-Keeps zero n s s' h new e = cc
  dfs-Keeps (suc fuel) n s s' h new e =
      let (t, e1, e2) =
        >>=-eq-ok (explore (dfs next fuel) n (next n) (enter n s)) (λ t. ok (leave n t)) e in
      let (ht, st, all) =
        explore_lem (dfs next fuel) n (next n) (enter n s) t (dfs-Keeps fuel)
          (enter-IsSearching n s new h) e1 in
      let seen : t.visited n ≡ true = st.seen n (ground (arith, text_eq_refl n)) in
      let on : t.in_stack n ≡ true = ground (arith, st.stack n, text_eq_refl n) in
      let same : leave n t ≡ s' = cc in
      subst (λ u. IsSearching u × Extends s u × Finished u n) same
        (
          leave-IsSearching n t seen on all ht,
          record {
            stack = λ v. ground (arith, st.stack v, text_eq_iff n v, h.stacked v);
            seen = λ v old. st.seen v (ground arith);
          },
          (seen, ground (arith, text_eq_refl n)),
        )

-- No cycle can be reached from a node whose search ends without a back edge.
pub dfs-ok :
    (next : Text → List Text) (fuel : ℕ) (n v : Text) (s : Marks)
    → dfs next fuel n unmarked ≡ ok s
    → Walk next n v
    → ¬ Cycle next v
dfs-ok next fuel n v s e walk =
    let start : IsSearching next unmarked = record {
      closed = λ _ _ f _. cc;
      acyclic = λ _ f. cc;
      stacked = λ _ f. cc;
    } in
    let (h, _, f) = dfs-Keeps next fuel n unmarked s start refl e in
    h.acyclic v (Walk-closed next (Finished s) h.closed n v walk f)
