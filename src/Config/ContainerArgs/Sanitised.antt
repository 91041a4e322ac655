-- ===== src/Config/ContainerArgs/Sanitised.antt =====
-- What is left of the arguments: of each that is forbidden, the first occurrence is dropped.
use eirctl.Prelude.{
  ◌≡◌, refl, ◌∙◌, ℕ, suc, ◌+◌, ◌<◌, ◌==◌, arith, Bool, true, false, not, List, [], ◌∷◌, ◌++◌,
  append_assoc, append-nil, Option, none, some, Text, codes, contains, text_eq, text_eq_iff,
  text_eq_refl, if◌then◌else◌, ◌||◌, ◌&&◌, In, In-append, inl, inr, elem, elem_iff, filter_by,
  Distinct, Bool-cases, length, length-append,
}
use eirctl.Config.ContainerArgs.{
  index_of, some_index, pair_idxs, pairs_idxs, switch_idxs, elem_idx, unlisted, verboten_arg_idx,
  check_forbidden_container_args,
}

abbrev pub is_forbidden : Text → Bool
is_forbidden s = contains s (codes "docker.sock:") || text_eq (codes "--privileged") s

-- The arguments without the first occurrence of each that is forbidden; `seen` came before them.
abbrev pub without_first : List Text → List Text → List Text
without_first seen [] = []
without_first seen (x ∷ xs) =
    let rest = without_first (seen ++ x ∷ []) xs in
    if is_forbidden x && not (elem x seen) then rest else x ∷ rest

-- Whether the index is this one.
is_at : ℕ → Option ℕ → Bool
is_at i none = false
is_at i (some j) = j == i

elem_idx-some_index :
    (i : ℕ) (o : Option ℕ) (idxs : List ℕ)
    → elem_idx i (some_index o idxs) ≡ (is_at i o || elem_idx i idxs)
unfolding elem_idx some_index is_at
elem_idx-some_index i none idxs = refl
elem_idx-some_index i (some j) idxs = refl

elem_idx-append :
    (i : ℕ) (xs ys : List ℕ) → elem_idx i (xs ++ ys) ≡ (elem_idx i xs || elem_idx i ys)
unfolding elem_idx
elem_idx-append i [] ys = refl
elem_idx-append i (x ∷ xs) ys = ground (arith, elem_idx-append i xs ys)

-- No place comes before the first one counted.
is_at-index_of : (k i : ℕ) (s : Text) (xs : List Text) → i < k → is_at i (index_of k s xs) ≡ false
unfolding index_of is_at
is_at-index_of k i s [] before = refl
is_at-index_of k i s (x ∷ xs) before = ground (arith, is_at-index_of (suc k) i s xs)

-- A text has its first place behind `pre` exactly if it stands there and not in `pre`.
index_of-append :
    (k : ℕ) (s x : Text) (pre xs : List Text)
    → is_at (k + length pre) (index_of k s (pre ++ x ∷ xs)) ≡ (text_eq x s && not (elem s pre))
unfolding index_of is_at elem
index_of-append k s x [] xs = ground (arith, is_at-index_of (suc k) k s xs)
index_of-append k s x (p ∷ pre) xs =
    let again = index_of-append (suc k) s x pre xs in
    let moved : k + suc (length pre) ≡ suc k + length pre = omega arith in
    elim (Bool-cases (text_eq p s)) [
      | inl same ↦ rw same (ground arith)
      | inr other ↦ rw (other, moved) again
    ]

module _ (x : Text) (pre xs : List Text) where
  abbrev here : List Text
  here = pre ++ x ∷ xs

  elem_idx-pair_idxs :
      (pair : Text) (todo : List Text)
      → elem_idx (length pre) (pair_idxs pair here todo)
        ≡ (elem x todo && (contains x pair && not (elem x pre)))
  unfolding pair_idxs elem elem_idx
  elem_idx-pair_idxs pair [] = refl
  elem_idx-pair_idxs pair (s ∷ todo) =
      let place = index_of-append 0 s x pre xs in
      let again = elem_idx-pair_idxs pair todo in
      let joined =
        elem_idx-some_index (length pre) (index_of 0 s here) (pair_idxs pair here todo) in
      elim (Bool-cases (text_eq x s)) [
        | inl same ↦
            let e : x ≡ s = ground (arith, text_eq_iff x s) in ground (arith, text_eq_refl s)
        | inr other ↦ ground (arith, text_eq_iff x s, text_eq_iff s x)
      ]

  elem-here : elem x here ≡ true
  elem-here = (elem_iff x here).1 ((In-append x pre (x ∷ xs)).1 (inr (inl refl)))

  elem_idx-both :
      (pair switch : Text)
      → elem_idx (length pre) (pair_idxs pair here here ++ some_index (index_of 0 switch here) [])
        ≡ ((contains x pair || text_eq switch x) && not (elem x pre))
  unfolding elem_idx
  elem_idx-both pair switch =
      let pairs = elem_idx-pair_idxs pair here in
      let place = index_of-append 0 switch x pre xs in
      let joined = elem_idx-some_index (length pre) (index_of 0 switch here) [] in
      let both =
        elem_idx-append (length pre) (pair_idxs pair here here)
          (some_index (index_of 0 switch here) []) in
      let placed : is_at (length pre) (index_of 0 switch here)
          ≡ (text_eq switch x && not (elem x pre)) =
        ground (arith, text_eq_iff x switch, text_eq_iff switch x) in
      rw (both, joined, pairs, placed, elem-here) (ground arith)

  -- A place is listed if its argument is forbidden and did not stand before.
  elem_idx-verboten_arg_idx :
      elem_idx (length pre) (verboten_arg_idx here) ≡ (is_forbidden x && not (elem x pre))
  unfolding verboten_arg_idx pairs_idxs switch_idxs
  elem_idx-verboten_arg_idx =
      rw append-nil (elem_idx-both (codes "docker.sock:") (codes "--privileged"))

unlisted-without_first :
    (pre xs : List Text)
    → unlisted (verboten_arg_idx (pre ++ xs)) (length pre) xs ≡ without_first pre xs
unfolding unlisted
unlisted-without_first pre [] = refl
unlisted-without_first pre (x ∷ xs) =
    let again = unlisted-without_first (pre ++ x ∷ []) xs in
    let listed = elem_idx-verboten_arg_idx x pre xs in
    let longer : length (pre ++ x ∷ []) ≡ suc (length pre) =
      omega (arith, length-append pre (x ∷ [])) in
    rw (listed, ← again, append_assoc pre (x ∷ []) xs, longer) refl

-- Of the arguments, what is left is all but the first occurrence of each that is forbidden.
pub check_forbidden_container_args_lem :
    (cargs : List Text) → check_forbidden_container_args cargs ≡ without_first [] cargs
unfolding check_forbidden_container_args
check_forbidden_container_args_lem [] = refl
check_forbidden_container_args_lem (c ∷ cs) = unlisted-without_first [] (c ∷ cs)

without_first-filter_by :
    (seen xs : List Text)
    → Distinct xs
    → ((y : Text) → In y xs → ¬ In y seen)
    → without_first seen xs ≡ filter_by (λ s. not (is_forbidden s)) xs
without_first-filter_by seen [] once new = refl
without_first-filter_by seen (x ∷ xs) once new =
    let fresh : elem x seen ≡ false = ground (arith, elem_iff x seen, new x (inl refl)) in
    let later : (y : Text) → In y xs → ¬ In y (seen ++ x ∷ []) =
      λ y m. ground (arith, In-append y seen (x ∷ []), new y (inr m), once.0) in
    let again = without_first-filter_by (seen ++ x ∷ []) xs once.1 later in
    rw (fresh, again) (ground arith)

-- If no argument stands twice, the forbidden ones are dropped and the others kept, in order.
pub check_forbidden_container_args-Distinct :
    (cargs : List Text)
    → Distinct cargs
    → check_forbidden_container_args cargs ≡ filter_by (λ s. not (is_forbidden s)) cargs
check_forbidden_container_args-Distinct cargs once =
    check_forbidden_container_args_lem cargs
    ∙ without_first-filter_by [] cargs once (λ y m in_none. in_none)
