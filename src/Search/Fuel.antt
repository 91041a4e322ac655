-- ===== src/Search/Fuel.antt =====
-- The search never runs out of fuel if that is the number of nodes: each call is made on an
-- unvisited node, and visits it.
use eirctl.Prelude.{
  ◌≡◌, refl, ◌≢◌, Bool, true, false, List, [], ◌∷◌, Text, In, text_eq_iff, ℕ, zero, suc, ◌≤◌, ◌<◌,
  inl, inr, arith, ◌⊎◌, if◌then◌else◌, length,
}
use eirctl.Search.{
  Marks, Found, ok, cycle, out_of_fuel, visit_child, unmarked, explore, dfs, mark, enter, leave,
  ◌>>=◌,
}
use eirctl.Search.Complete.{IsSearching, Keeps, dfs-Keeps, visit_child_lem, enter-IsSearching}

-- How many of the nodes are not visited.
pub unseen : List Text → (Text → Bool) → ℕ
unseen [] m = 0
unseen (v ∷ vs) m = let rest = unseen vs m in if m v then rest else suc rest

pub unseen-unmarked : (vs : List Text) → unseen vs (λ _. false) ≡ length vs
unfolding unseen
unseen-unmarked [] = refl
unseen-unmarked (v ∷ vs) = omega (arith, unseen-unmarked vs)

pub unseen-le :
    (vs : List Text) (m m' : Text → Bool)
    → ((v : Text) → m v ≡ true → m' v ≡ true)
    → unseen vs m' ≤ unseen vs m
unfolding unseen
unseen-le [] m m' h = omega arith
unseen-le (v ∷ vs) m m' h = ground (arith, h v, unseen-le vs m m' h)

pub unseen-mark :
    (n : Text) (vs : List Text) (m : Text → Bool)
    → In n vs
    → m n ≡ false
    → unseen vs (mark n true m) < unseen vs m
unfolding unseen
unseen-mark n [] m i e = absurd i
unseen-mark n (v ∷ vs) m (inl same) e =
    ground (arith, text_eq_iff n v, unseen-le vs m (mark n true m) (λ w old. ground arith))
unseen-mark n (v ∷ vs) m (inr later) e = ground (arith, text_eq_iff n v, unseen-mark n vs m later e)

module _ (next : Text → List Text) (nodes : List Text)
    (closed : (v w : Text) → In v nodes → In w (next v) → In w nodes) where
  abbrev Ends : ℕ → (Text → Marks → Found Marks) → Type 0
  Ends fuel visit =
      (n : Text) (s : Marks)
      → IsSearching next s
      → In n nodes
      → s.visited n ≡ false
      → unseen nodes s.visited ≤ fuel
      → visit n s ≢ out_of_fuel

  -- How one round of the loop runs out of fuel: the child's own search does, or a later round.
  explore-eq-out_of_fuel :
      (visit : Text → Marks → Found Marks) (node c : Text) (cs : List Text) (s : Marks)
      → explore visit node (c ∷ cs) s ≡ out_of_fuel
      → ((s.visited c ≡ false) × (visit c s ≡ out_of_fuel))
        ⊎ ((t : Marks) × (visit_child visit c s ≡ ok t)
            × (t.in_stack c ≡ false)
            × (explore visit node cs t ≡ out_of_fuel))
  unfolding explore
  explore-eq-out_of_fuel visit node c cs s e = go (visit_child visit c s) refl
    where
      go :
          (r : Found Marks)
          → visit_child visit c s ≡ r
          → ((s.visited c ≡ false) × (visit c s ≡ out_of_fuel))
            ⊎ ((t : Marks) × (visit_child visit c s ≡ ok t)
                × (t.in_stack c ≡ false)
                × (explore visit node cs t ≡ out_of_fuel))
      go (ok t) er = inr (t, er, ground arith, ground arith)
      go (cycle p q) er = ground arith
      go out_of_fuel er = inl (ground arith, ground arith)

  explore-Ends :
      (visit : Text → Marks → Found Marks) (fuel : ℕ) (node : Text) (cs : List Text) (s : Marks)
      → Keeps next visit
      → Ends fuel visit
      → IsSearching next s
      → ((c : Text) → In c cs → In c nodes)
      → unseen nodes s.visited ≤ fuel
      → explore visit node cs s ≢ out_of_fuel
  explore-Ends visit fuel node [] s keeps ends h sub le e = unfold explore in cc
  explore-Ends visit fuel node (c ∷ cs) s keeps ends h sub le e =
      elim (explore-eq-out_of_fuel visit node c cs s e) [
        | inl (new, e1) ↦ ends c s h (sub c (inl refl)) new le e1
        | inr (t, e1, off, e2) ↦
            let (ht, st, _) = visit_child_lem next visit c s t keeps h e1 off in
            explore-Ends visit fuel node cs t keeps ends ht (λ d m. sub d (inr m))
              (omega (arith, unseen-le nodes s.visited t.visited st.seen)) e2
      ]

  >>=-leave-eq-out_of_fuel :
      (n : Text) (r : Found Marks) → (r >>= λ t. ok (leave n t)) ≡ out_of_fuel → r ≡ out_of_fuel
  >>=-leave-eq-out_of_fuel n (ok t) e = cc
  >>=-leave-eq-out_of_fuel n (cycle c d) e = cc
  >>=-leave-eq-out_of_fuel n out_of_fuel e = e

  dfs-Ends : (fuel : ℕ) → Ends fuel (dfs next fuel)
  unfolding dfs
  dfs-Ends zero n s h i new le e = omega (arith, unseen-mark n nodes s.visited i new)
  dfs-Ends (suc fuel) n s h i new le e =
      explore-Ends (dfs next fuel) fuel n (next n) (enter n s) (dfs-Keeps next fuel) (dfs-Ends fuel)
        (enter-IsSearching next n s new h) (λ c m. closed n c i m)
        (omega (arith, unseen-mark n nodes s.visited i new))
        (>>=-leave-eq-out_of_fuel n (explore (dfs next fuel) n (next n) (enter n s)) e)

-- The number of nodes is fuel enough, for a list of nodes that holds the targets of its edges.
pub dfs-ne-out_of_fuel :
    (next : Text → List Text) (nodes : List Text)
    → ((v w : Text) → In v nodes → In w (next v) → In w nodes)
    → (n : Text) → In n nodes
    → dfs next (length nodes) n unmarked ≢ out_of_fuel
dfs-ne-out_of_fuel next nodes closed n i =
    dfs-Ends next nodes closed (length nodes) n unmarked
      (record { closed = λ _ _ f _. cc; acyclic = λ _ f. cc; stacked = λ _ f. cc }) i refl
      (omega (arith, unseen-unmarked nodes))
