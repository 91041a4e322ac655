-- ===== src/Materialize/Bounds.antt =====
-- The bounds that a validated tree keeps.
use eirctl.Prelude.{
  ◌≡◌, refl, sym, ◌∙◌, subst, ℕ, ◌≤◌, ◌<◌, Bool, true, false, ◌||◌, List, [], ◌∷◌, ◌++◌, Text, In,
  In-append, ◌==◌, ltb, length, if◌then◌else◌, Result, ok, err, ◌⊎◌, inl, inr, ⊎_elim, arith, All,
  Distinct,
}
use eirctl.Materialize.{
  TreeEntry, TreeResponse, TreeFault, truncated_tree, tree_size, no_go_source, Library,
  max_go_files, max_total_bytes, max_tree_entries, classify_tree_entry, account_go_entry,
  select_entries, validate_tree,
}
use eirctl.Materialize.Selected.{sum_of, IsEligible, paths, IsWithin, select-IsWithin}

select_entries-IsWithin :
    (lib : Library) (entries : List TreeEntry) (seen : List Text) (selected : List TreeEntry)
    (total : ℕ) (out : List TreeEntry) (sum : ℕ)
    → IsWithin lib seen selected total
    → select_entries lib seen selected total entries ≡ ok (out, sum)
    → ((seen' : List Text) × IsWithin lib seen' out sum)
      × ((entry : TreeEntry) → In entry out → In entry selected ⊎ In entry entries)
unfolding select_entries
select_entries-IsWithin lib [] seen selected total out sum h e =
    let same : (selected, total) ≡ (out, sum) = same_of_ok e in
    (
      (seen, subst (λ q. IsWithin lib seen q.0 q.1) same h),
      λ entry i. inl (subst (λ q. In entry q.0) (sym same) i),
    )
  where
    same_of_ok :
        {a b : List TreeEntry × ℕ}
        → ◌≡◌ {A = Result TreeFault (List TreeEntry × ℕ)} (ok a) (ok b)
        → a ≡ b
    same_of_ok q = cc
select_entries-IsWithin lib (entry ∷ entries) seen selected total out sum h e =
    by_class
      (λ seen' selected' total' h' e'.
        select_entries-IsWithin lib entries seen' selected' total' out sum h' e')
      (classify_tree_entry lib seen entry) refl
  where
    refused :
        {f : TreeFault}
        → ◌≡◌ {A = Result TreeFault (List TreeEntry × ℕ)} (err f) (ok (out, sum))
        → ⊥
    refused q = cc

    Goal : Type 0
    Goal =
        ((seen' : List Text) × IsWithin lib seen' out sum)
        × ((x : TreeEntry) → In x out → In x selected ⊎ In x (entry ∷ entries))

    Again : Type 0
    Again =
        (seen' : List Text) (selected' : List TreeEntry) (total' : ℕ)
        → IsWithin lib seen' selected' total'
        → select_entries lib seen' selected' total' entries ≡ ok (out, sum)
        → ((seen'' : List Text) × IsWithin lib seen'' out sum)
          × ((x : TreeEntry) → In x out → In x selected' ⊎ In x entries)

    by_account :
        Again
        → (r : Result TreeFault ℕ) → classify_tree_entry lib seen entry ≡ ok true
        → account_go_entry entry total (length selected) ≡ r
        → Goal
    by_account again (err f) c a = absurd (refused (rw (c, a, select_entries) at e))
    by_account again (ok next) c a =
        let (kept, from) =
          again (entry.path ∷ seen) (selected ++ entry ∷ []) next
            (select-IsWithin lib entry seen selected total next h c a)
            (rw (c, a, select_entries) at e) in
        (
          kept,
          λ x i.
              ⊎_elim
                (λ old.
                  ⊎_elim inl
                    (λ last. ⊎_elim (λ q. inr (inl q)) (λ none_left. absurd none_left) last)
                    ((In-append x selected (entry ∷ [])).0 old))
                (λ later. inr (inr later)) (from x i),
        )

    by_class : Again → (r : Result TreeFault Bool) → classify_tree_entry lib seen entry ≡ r → Goal
    by_class again (err f) c = absurd (refused (rw (c, select_entries) at e))
    by_class again (ok true) c =
        by_account again (account_go_entry entry total (length selected)) c refl
    by_class again (ok false) c =
        let (all, size, le, few, once, within) = h in
        let (kept, from) =
          again (entry.path ∷ seen) selected total
            (all, size, le, few, once, λ p i. inr (within p i)) (rw (c, select_entries) at e) in
        (kept, λ x i. ⊎_elim inl (λ later. inr (inr later)) (from x i))

-- If a tree is accepted, what is given is the sorting of at least one and at most 160 files of the
-- tree, each of them eligible and of at most 131072 bytes, at different paths; and the total is the
-- sum of their sizes, which is at most 1048576.
pub validate_tree-bounds :
    (lib : Library) (tree : TreeResponse) (out : List TreeEntry) (sum : ℕ)
    → validate_tree lib tree ≡ ok (out, sum)
    → (selected : List TreeEntry) × (out ≡ lib.sort selected)
      × (0 < length selected)
      × (length selected ≤ max_go_files)
      × (sum ≡ sum_of selected)
      × (sum ≤ max_total_bytes)
      × Distinct (paths selected)
      × All (IsEligible lib) selected
      × ((entry : TreeEntry) → In entry selected → In entry tree.tree)
unfolding validate_tree sum_of
validate_tree-bounds lib tree out sum e = by_loop (select_entries lib [] [] 0 tree.tree) refl
  where
    Selection : Type 0
    Selection = Result TreeFault (List TreeEntry × ℕ)

    rest :
        (cut small : Bool) (loop : Selection)
        → ◌≡◌ {A = Selection}
            (if cut then err truncated_tree else if small then err tree_size else loop)
            (ok (out, sum))
        → loop ≡ ok (out, sum)
    rest cut small loop q = ground arith

    last :
        (few : Bool) (sorted : List TreeEntry) (total : ℕ)
        → ◌≡◌ {A = Selection} (if few then err no_go_source else ok (sorted, total)) (ok (out, sum))
        → (few ≡ false) × (out ≡ sorted) × (sum ≡ total)
    last true sorted total q = cc
    last false sorted total q = (refl, sym (first_of q), sym (second_of q))
      where
        first_of :
            {a b : List TreeEntry} {m n : ℕ} → ◌≡◌ {A = Selection} (ok (a, m)) (ok (b, n)) → a ≡ b
        first_of r = cc

        second_of :
            {a b : List TreeEntry} {m n : ℕ} → ◌≡◌ {A = Selection} (ok (a, m)) (ok (b, n)) → m ≡ n
        second_of r = cc

    positive : (n : ℕ) → (n == 0) ≡ false → 0 < n
    positive n q = ground arith

    refused : {f : TreeFault} → ◌≡◌ {A = Selection} (err f) (ok (out, sum)) → ⊥
    refused q = cc

    Goal : Type 0
    Goal =
        (selected : List TreeEntry) × (out ≡ lib.sort selected)
        × (0 < length selected)
        × (length selected ≤ max_go_files)
        × (sum ≡ sum_of selected)
        × (sum ≤ max_total_bytes)
        × Distinct (paths selected)
        × All (IsEligible lib) selected
        × ((entry : TreeEntry) → In entry selected → In entry tree.tree)

    by_loop : (r : Selection) → select_entries lib [] [] 0 tree.tree ≡ r → Goal
    by_loop (err f) s = absurd (
        refused (
          rest tree.truncated (length tree.tree == 0 || ltb max_tree_entries (length tree.tree))
            (err f) (rw (s, validate_tree) at e)))
    by_loop (ok (selected, total)) s =
        let ((seen, (all, size, le, few, once, within)), from) =
          select_entries-IsWithin lib tree.tree [] [] 0 selected total
            (tt, refl, omega arith, omega arith, tt, λ p i. i) s in
        let (some_file, sorted, same) = last (length selected == 0) (lib.sort selected) total (
          rest tree.truncated (length tree.tree == 0 || ltb max_tree_entries (length tree.tree))
            (if length selected == 0 then err no_go_source else ok (lib.sort selected, total))
            (rw (s, validate_tree) at e)) in
        (
          selected,
          sorted,
          positive (length selected) some_file,
          few,
          same ∙ sym size,
          omega arith,
          once,
          all,
          λ entry i. ⊎_elim (λ none_left. absurd none_left) (λ m. m) (from entry i),
        )
