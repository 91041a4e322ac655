-- ===== src/Search/Sound.antt =====
-- A back edge that the search reports closes a cycle.
use eirctl.Prelude.{
  ◌≡◌, refl, true, false, List, [], ◌∷◌, Text, In, text_eq, text_eq_iff, Bool-cases, ℕ, zero, suc,
  inl, inr, arith, ◌⊎◌,
}
use eirctl.Search.{
  Marks, Found, ok, cycle, out_of_fuel, visit_child, unmarked, explore, dfs, enter, leave, ◌>>=◌,
}
use eirctl.Search.Walks.{Walk, here, step, Walk-cons}
use eirctl.Search.Complete.{IsSearching, Keeps, dfs-Keeps, visit_child_lem, enter-IsSearching}

module _ (next : Text → List Text) where
  -- Every node on the stack leads to the node that is being searched.
  abbrev IsTrail : Marks → Text → Type 0
  IsTrail s n = (v : Text) → s.in_stack v ≡ true → Walk next v n

  -- A call that reports `child → node` has found a cycle there.
  abbrev Reports : (Text → Marks → Found Marks) → Type 0
  Reports visit =
      (n : Text) (s : Marks) (a b : Text)
      → IsSearching next s
      → s.visited n ≡ false
      → IsTrail s n
      → visit n s ≡ cycle a b
      → In a (next b) × Walk next a b × Walk next n b

  -- How one round of the loop comes to report: the child's own search does, or the child is on
  -- the stack, or a later round does.
  explore-eq-cycle :
      (visit : Text → Marks → Found Marks) (node c : Text) (cs : List Text) (s : Marks) (a b : Text)
      → explore visit node (c ∷ cs) s ≡ cycle a b
      → ((s.visited c ≡ false) × (visit c s ≡ cycle a b))
        ⊎ ((t : Marks) × (visit_child visit c s ≡ ok t)
            × (t.in_stack c ≡ true)
            × (a ≡ c)
            × (b ≡ node))
        ⊎ ((t : Marks) × (visit_child visit c s ≡ ok t)
            × (t.in_stack c ≡ false)
            × (explore visit node cs t ≡ cycle a b))
  unfolding explore
  explore-eq-cycle visit node c cs s a b e = go (visit_child visit c s) refl
    where
      go :
          (r : Found Marks)
          → visit_child visit c s ≡ r
          → ((s.visited c ≡ false) × (visit c s ≡ cycle a b))
            ⊎ ((t : Marks) × (visit_child visit c s ≡ ok t)
                × (t.in_stack c ≡ true)
                × (a ≡ c)
                × (b ≡ node))
            ⊎ ((t : Marks) × (visit_child visit c s ≡ ok t)
                × (t.in_stack c ≡ false)
                × (explore visit node cs t ≡ cycle a b))
      go (ok t) er = elim (Bool-cases (t.in_stack c)) [
        | inl on ↦ inr (inl (t, er, on, ground arith, ground arith))
        | inr off ↦ inr (inr (t, er, off, ground arith))
      ]
      go (cycle p q) er = inl (ground arith, ground arith)
      go out_of_fuel er = ground arith

  -- A child that is on the stack after its turn was there before, and was not searched.
  visit_child-on :
      (visit : Text → Marks → Found Marks) (c : Text) (s t : Marks)
      → Keeps next visit
      → IsSearching next s
      → visit_child visit c s ≡ ok t
      → t.in_stack c ≡ true
      → s.in_stack c ≡ true
  visit_child-on visit c s t keeps h e on = elim (Bool-cases (s.visited c)) [
    | inl old ↦ let same : s ≡ t = ground arith in rw same on
    | inr new ↦ let (_, _, f) = keeps c s t h new (ground arith) in ground arith
  ]

  explore-Reports :
      (visit : Text → Marks → Found Marks) (node : Text) (cs : List Text) (s : Marks) (a b : Text)
      → Keeps next visit
      → Reports visit
      → IsSearching next s
      → IsTrail s node
      → ((c : Text) → In c cs → In c (next node))
      → explore visit node cs s ≡ cycle a b
      → In a (next b) × Walk next a b × Walk next node b
  explore-Reports visit node [] s a b keeps reports h trail sub e = unfold explore in cc
  explore-Reports visit node (c ∷ cs) s a b keeps reports h trail sub e =
      elim (explore-eq-cycle visit node c cs s a b e) [
        | inl (new, e1) ↦
            let edge = sub c (inl refl) in
            let (f, w, to) = reports c s a b h new (λ v on. step (trail v on) edge) e1 in
            (f, w, Walk-cons next node c b edge to)
        | inr (inl (t, e1, on, ea, eb)) ↦
            rw (ea, eb) (sub c (inl refl), trail c (visit_child-on visit c s t keeps h e1 on), here)
        | inr (inr (t, e1, off, e2)) ↦
            let (ht, st, _) = visit_child_lem next visit c s t keeps h e1 off in
            explore-Reports visit node cs t a b keeps reports ht
              (λ v on. trail v (ground (arith, st.stack v))) (λ d m. sub d (inr m)) e2
      ]

  >>=-leave-eq-cycle :
      (n : Text) (r : Found Marks) (a b : Text)
      → (r >>= λ t. ok (leave n t)) ≡ cycle a b
      → r ≡ cycle a b
  >>=-leave-eq-cycle n (ok t) a b e = cc
  >>=-leave-eq-cycle n (cycle c d) a b e = e
  >>=-leave-eq-cycle n out_of_fuel a b e = cc

  dfs-Reports : (fuel : ℕ) → Reports (dfs next fuel)
  unfolding dfs
  dfs-Reports zero n s a b h new trail e = cc
  dfs-Reports (suc fuel) n s a b h new trail e =
      explore-Reports (dfs next fuel) n (next n) (enter n s) a b (dfs-Keeps next fuel)
        (dfs-Reports fuel) (enter-IsSearching next n s new h)
        (λ v on. elim (Bool-cases (text_eq n v)) [
          | inl same ↦ rw ((text_eq_iff n v).0 same) here
          | inr other ↦ trail v (ground arith)
        ])
        (λ c m. m) (>>=-leave-eq-cycle n (explore (dfs next fuel) n (next n) (enter n s)) a b e)

-- The search from an unmarked start reports an edge that closes a cycle within its reach.
pub dfs-eq-cycle :
    (next : Text → List Text) (fuel : ℕ) (n a b : Text)
    → dfs next fuel n unmarked ≡ cycle a b
    → In a (next b) × Walk next a b × Walk next n b
dfs-eq-cycle next fuel n a b e =
    dfs-Reports next fuel n unmarked a b
      (record { closed = λ _ _ f _. cc; acyclic = λ _ f. cc; stacked = λ _ f. cc }) refl
      (λ v on. cc) e
