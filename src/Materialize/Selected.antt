-- ===== src/Materialize/Selected.antt =====
-- What holds of the files that are selected, and stays so when one more is.
use eirctl.Prelude.{
  not_both, ◌≡◌, refl, sym, ap, subst, ℕ, ◌+◌, ◌≤◌, Bool, true, false, List, [], ◌∷◌, ◌++◌, Option,
  none, some, Text, codes, In, In-append, elem, elem_iff, text_eq, text_eq_iff, ltb, length,
  length-append, if◌then◌else◌, Result, ok, err, inl, inr, ⊎_elim, arith, All, All-append, Distinct,
  Distinct-concat,
}
use eirctl.Strings.{has_suffix}
use eirctl.Materialize.{
  ℤ, pos, negsuc, TreeEntry, TreeFault, invalid_size, total_size, file_count, Library, max_go_files,
  max_file_bytes, max_total_bytes, validate_tree_path, classify_tree_entry, account_go_entry,
}

unfoldable pub size_of : TreeEntry → ℕ
size_of entry = elim entry.size [ none ↦ 0 | some (negsuc n) ↦ 0 | some (pos n) ↦ n ]

unfoldable pub sum_of : List TreeEntry → ℕ
sum_of [] = 0
sum_of (entry ∷ entries) = size_of entry + sum_of entries

-- A file that may be materialized.
abbrev pub IsEligible : Library → TreeEntry → Type 0
IsEligible lib entry =
    (validate_tree_path lib entry.path ≡ true)
    × (lib.full_sha entry.sha ≡ true)
    × (entry.type ≡ codes "blob")
    × (entry.mode ≡ codes "100644")
    × (has_suffix entry.path (codes ".go") ≡ true)
    × (size_of entry ≤ max_file_bytes)

sum_of-append : (xs ys : List TreeEntry) → sum_of (xs ++ ys) ≡ sum_of xs + sum_of ys
unfolding sum_of
sum_of-append [] ys = omega arith
sum_of-append (x ∷ xs) ys = omega (arith, sum_of-append xs ys)

-- What an eligible entry is.
classified :
    (lib : Library) (seen : List Text) (entry : TreeEntry) (b : Bool)
    → classify_tree_entry lib seen entry ≡ ok b
    → (elem entry.path seen ≡ false)
      × (b ≡ true
          → (validate_tree_path lib entry.path ≡ true)
            × (lib.full_sha entry.sha ≡ true)
            × (text_eq entry.type (codes "blob") ≡ true)
            × (text_eq entry.mode (codes "100644") ≡ true)
            × (has_suffix entry.path (codes ".go") ≡ true))
unfolding classify_tree_entry
classified lib seen entry b e = ground arith

accounted :
    (entry : TreeEntry) (total count sum : ℕ)
    → account_go_entry entry total count ≡ ok sum
    → (sum ≡ total + size_of entry)
      × (size_of entry ≤ max_file_bytes)
      × (sum ≤ max_total_bytes)
      × (count + 1 ≤ max_go_files)
unfolding account_go_entry size_of
accounted entry total count sum e = by_size entry.size refl
  where
    refused : {f : TreeFault} → ◌≡◌ {A = Result TreeFault ℕ} (err f) (ok sum) → ⊥
    refused q = cc

    within :
        (n : ℕ)
        → ◌≡◌ {A = Result TreeFault ℕ}
            (if ltb max_file_bytes n
              then err (invalid_size entry.path)
              else if ltb max_total_bytes (total + n)
              then err total_size
              else if ltb max_go_files (count + 1)
              then err file_count
              else ok (total + n))
            (ok sum)
        → (sum ≡ total + n)
          × (n ≤ max_file_bytes)
          × (sum ≤ max_total_bytes)
          × (count + 1 ≤ max_go_files)
    within n q = ground arith

    by_size :
        (s : Option ℤ)
        → entry.size ≡ s
        → (sum ≡ total + size_of entry)
          × (size_of entry ≤ max_file_bytes)
          × (sum ≤ max_total_bytes)
          × (count + 1 ≤ max_go_files)
    by_size none q = absurd (refused (rw (q, account_go_entry) at e))
    by_size (some (negsuc n)) q = absurd (refused (rw (q, account_go_entry) at e))
    by_size (some (pos n)) q = rw (q, size_of) (within n (rw (q, account_go_entry) at e))

abbrev pub paths : List TreeEntry → List Text
paths [] = []
paths (entry ∷ entries) = entry.path ∷ paths entries

paths-append : (xs ys : List TreeEntry) → paths (xs ++ ys) ≡ paths xs ++ paths ys
paths-append [] ys = refl
paths-append (x ∷ xs) ys = ap (λ l. x.path ∷ l) (paths-append xs ys)

-- What holds of the loop's variables.
abbrev pub IsWithin : Library → List Text → List TreeEntry → ℕ → Type 0
IsWithin lib seen selected total =
    All (IsEligible lib) selected
    × (sum_of selected ≡ total)
    × (total ≤ max_total_bytes)
    × (length selected ≤ max_go_files)
    × Distinct (paths selected)
    × ((path : Text) → In path (paths selected) → In path seen)

-- One more entry is selected.
pub select-IsWithin :
    (lib : Library) (entry : TreeEntry) (seen : List Text) (selected : List TreeEntry)
    (total sum : ℕ)
    → IsWithin lib seen selected total
    → classify_tree_entry lib seen entry ≡ ok true
    → account_go_entry entry total (length selected) ≡ ok sum
    → IsWithin lib (entry.path ∷ seen) (selected ++ entry ∷ []) sum
unfolding sum_of
select-IsWithin lib entry seen selected total sum (all, size, le, few, once, within) c a =
    let (new, eligible) = classified lib seen entry true c in
    let (path, sha, blob, mode, go) = eligible refl in
    let (added, small, le', few') = accounted entry total (length selected) sum a in
    let fits : IsEligible lib entry = (
      path,
      sha,
      (text_eq_iff entry.type (codes "blob")).0 blob,
      (text_eq_iff entry.mode (codes "100644")).0 mode,
      go,
      small,
    ) in
    let sums = sum_of-append selected (entry ∷ []) in
    let counts = length-append selected (entry ∷ []) in
    let absent : ¬ In entry.path (paths selected) = λ i.
      not_both (elem entry.path seen) ((elem_iff entry.path seen).1 (within entry.path i)) new in
    let joined = paths-append selected (entry ∷ []) in
    (
      All-append (IsEligible lib) selected (entry ∷ []) all (fits, tt),
      omega arith,
      le',
      omega arith,
      subst Distinct (sym joined) (Distinct-concat (paths selected) entry.path once absent),
      λ p i.
          ⊎_elim (λ old. inr (within p old))
            (λ last. ⊎_elim (λ e. inl e) (λ none_left. absurd none_left) last)
            ((In-append p (paths selected) (entry.path ∷ [])).0 (subst (λ l. In p l) joined i)),
    )
