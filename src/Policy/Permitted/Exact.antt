-- ===== src/Policy/Permitted/Exact.antt =====
-- The comparison of permissions decides whether two maps are the same.
use eirctl.Prelude.{
  length-le-of_In, ◌≡◌, refl, sym, ap, ◌∙◌, subst, ◌≢◌, ◌↔◌, inl, inr, ⊎_elim, Bool, true, ◌&&◌, [],
  ◌∷◌, Option, none, some, Text, lookup, lookup-eq-none_iff, keys, IsMap, In, elem, elem_iff,
  text_eq, text_eq_iff, ◌==◌, length, arith, Bool-cases, Option-cases, All,
}
use eirctl.Policy.{Permissions, text_at}
use eirctl.Policy.Permitted.{has_expected, same_permissions}

length-keys : (m : Permissions) → length (keys m) ≡ length m
length-keys [] = refl
length-keys ((k, v) ∷ m) = omega (arith, length-keys m)

-- Expected permissions name a value.
abbrev pub IsGranting : Permissions → Type 0
IsGranting m = All (λ (k, v). v ≢ []) m

text_at-granted :
    (k v : Text) (m : Permissions)
    → v ≢ []
    → (text_eq (text_at k m) v ≡ true) ↔ (lookup k m ≡ some v)
unfolding text_at
text_at-granted k v m g = elim (Option-cases (lookup k m)) [
  | inl lost ↦ (
    λ e. absurd (g (sym ((text_eq_iff [] v).0 (rw (lost, text_at) at e)))),
    λ e. absurd (clash (lookup k m) lost e),
  )
  | inr (u, found) ↦ (
    λ e. found ∙ ap some ((text_eq_iff u v).0 (rw (found, text_at) at e)),
    λ e. rw (e, text_at) ((text_eq_iff v v).1 refl),
  )
]
  where
    clash : (o : Option Text) → o ≡ none → o ≡ some v → ⊥
    clash o a b = cc

has_expected_iff :
    (actual expected : Permissions)
    → IsMap expected
    → IsGranting expected
    → (has_expected actual expected ≡ true)
      ↔ ((k : Text) → In k (keys expected) → lookup k actual ≡ lookup k expected)
unfolding has_expected lookup
has_expected_iff actual [] d g = (λ e k i. absurd i, λ h. refl)
has_expected_iff actual ((k, v) ∷ expected) d g =
    let (go, back) = has_expected_iff actual expected d.1 g.1 in
    let (at, at') = text_at-granted k v actual g.0 in
    let (apart, join) = both (text_eq (text_at k actual) v) (has_expected actual expected) in
    (
      λ e j i.
          let (this, rest) = apart e in
          ⊎_elim
            (λ same.
              subst (λ t. lookup t actual ≡ lookup t ((k, v) ∷ expected)) (sym same)
                (at this ∙ sym (head k)))
            (λ later.
              go rest j later
              ∙ sym (next j (λ e'. d.0 (subst (λ t. In t (keys expected)) (sym e') later))))
            i,
      λ h. join (
        at' (h k (inl refl) ∙ head k),
        back (λ j i.
            h j (inr i) ∙ next j (λ e'. d.0 (subst (λ t. In t (keys expected)) (sym e') i))),
      ),
    )
  where
    both : (a b : Bool) → ((a && b) ≡ true) ↔ ((a ≡ true) × (b ≡ true))
    both a b = ground arith

    head : (j : Text) → lookup j ((j, v) ∷ expected) ≡ some v
    head j = ground (arith, text_eq_iff j j)

    next : (j : Text) → k ≢ j → lookup j ((k, v) ∷ expected) ≡ lookup j expected
    next j n = ground (arith, text_eq_iff k j)

-- The comparison succeeds exactly when the two maps give the same for every name. Each of them
-- holds a name once, and the expected one has no empty value.
pub same_permissions_iff :
    (actual expected : Permissions)
    → IsMap actual
    → IsMap expected
    → IsGranting expected
    → (same_permissions actual expected ≡ true) ↔ ((k : Text) → lookup k actual ≡ lookup k expected)
unfolding same_permissions
same_permissions_iff actual expected a d g =
    let (go, back) = has_expected_iff actual expected d g in
    let size = length-keys actual in
    let size' = length-keys expected in
    (
      λ e k.
          let (same, all) = apart e in
          let into : (z : Text) → In z (keys expected) → In z (keys actual) =
            λ z i. there actual expected z i (go all z i) in
          elim (Bool-cases (elem k (keys expected))) [
            | inl known ↦ go all k ((elem_iff k (keys expected)).0 known)
            | inr new ↦
                let absent : ¬ In k (keys expected) = ground (arith, elem_iff k (keys expected)) in
                let absent' : ¬ In k (keys actual) = λ i.
                  let more =
                    length-le-of_In (k ∷ keys expected) (keys actual) (absent, d)
                      (λ z m. ⊎_elim (λ q. subst (λ t. In t (keys actual)) (sym q) i) (into z) m) in
                  absurd (omega arith) in
                (lookup-eq-none_iff k actual).1 absent'
                ∙ sym ((lookup-eq-none_iff k expected).1 absent)
          ],
      λ h.
          let le =
            length-le-of_In (keys actual) (keys expected) a
              (λ z i. there expected actual z i (sym (h z))) in
          let ge =
            length-le-of_In (keys expected) (keys actual) d
              (λ z i. there actual expected z i (h z)) in
          let same : length actual ≡ length expected = omega arith in
          let all = back (λ k i. h k) in join same all,
    )
  where
    apart :
        (length actual == length expected && has_expected actual expected) ≡ true
        → (length actual ≡ length expected) × (has_expected actual expected ≡ true)
    apart e = ground arith

    join :
        length actual ≡ length expected
        → has_expected actual expected ≡ true
        → (length actual == length expected && has_expected actual expected) ≡ true
    join e h = ground arith

    there : (m n : Permissions) (z : Text) → In z (keys n) → lookup z m ≡ lookup z n → In z (keys m)
    there m n z i e = elim (Bool-cases (elem z (keys m))) [
      | inl known ↦ (elem_iff z (keys m)).0 known
      | inr new ↦
          let lost =
            (lookup-eq-none_iff z m).1 (λ k. absurd (ground (arith, elem_iff z (keys m)))) in
          absurd ((lookup-eq-none_iff z n).0 (sym e ∙ lost) i)
    ]
