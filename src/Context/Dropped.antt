-- ===== src/Context/Dropped.antt =====
-- Which variables `ProcessEnvfile` leaves out (runner/context.go).
use eirctl.Prelude.{
  ◌≡◌, refl, subst, arith, Bool, not, ◌||◌, List, [], ◌∷◌, ◌↔◌, ◌≢◌, ◌⊎◌, ⊎_elim, true, false,
  codes, has_prefix, true_of_rest, or_of_left, or_of_right, elem_iff, Text, In, elem, inl, inr,
  Bool-cases,
}
use eirctl.Envfile.{Envfile}
use eirctl.Strings.{to_lower}
use eirctl.Context.{invalid_env_var_keys, include_exclude_skip, has_some_prefix}

-- A variable that does not reach the commands.
abbrev pub is_dropped : Envfile → Text → Bool
is_dropped e k = elem k invalid_env_var_keys || include_exclude_skip e k

-- A name that cannot be passed on, one that begins with an excluded text, or with none of the
-- included ones, if there are any, in lower case.
abbrev pub IsDropped : Envfile → Text → Type 0
IsDropped e k =
    In k ([] ∷ codes "!::" ∷ codes "=::" ∷ codes "::=::" ∷ codes "::=::\\" ∷ [])
    ⊎ ((x : Text) × In x e.exclude × (has_prefix (to_lower k) (to_lower x) ≡ true))
    ⊎ ((e.include ≢ [])
        × ((x : Text) → In x e.include → has_prefix (to_lower k) (to_lower x) ≡ false))

has_some_prefix_iff :
    (s : Text) (prefixes : List Text)
    → (has_some_prefix s prefixes ≡ true)
      ↔ ((x : Text) × In x prefixes × (has_prefix s (to_lower x) ≡ true))
unfolding has_some_prefix
has_some_prefix_iff s [] = (λ e. absurd (cc), λ (x, i, _). absurd i)
has_some_prefix_iff s (p ∷ prefixes) =
    let (go, back) = has_some_prefix_iff s prefixes in
    let here = has_prefix s (to_lower p) in
    (
      λ e. elim (Bool-cases here) [
        | inl found ↦ (p, inl refl, found)
        | inr other ↦
            let (x, i, q) = go (true_of_rest here (has_some_prefix s prefixes) e other) in
            (x, inr i, q)
      ],
      λ (x, i, q).
          ⊎_elim
            (λ same.
              or_of_left here (has_some_prefix s prefixes)
                (subst (λ y. has_prefix s (to_lower y) ≡ true) same q))
            (λ later. or_of_right here (has_some_prefix s prefixes) (back (x, later, q))) i,
    )

has_some_prefix-eq-false_iff :
    (s : Text) (prefixes : List Text)
    → (has_some_prefix s prefixes ≡ false)
      ↔ ((x : Text) → In x prefixes → has_prefix s (to_lower x) ≡ false)
has_some_prefix-eq-false_iff s prefixes =
    let (go, back) = has_some_prefix_iff s prefixes in
    (
      λ e x i. no (has_prefix s (to_lower x)) (λ q. clash e (back (x, i, q))),
      λ none_of.
          no (has_some_prefix s prefixes) (λ e. let (x, i, q) = go e in clash (none_of x i) q),
    )
  where
    clash : {b : Bool} → b ≡ false → b ≡ true → ⊥
    clash p q = cc (p, q)

    no : (b : Bool) → ¬ (b ≡ true) → b ≡ false
    no b h = ground arith

include_exclude_skip_iff :
    (name : Text) (exclude include : List Text)
    → ((has_some_prefix name exclude
          || not (elim include [ [] ↦ true | v ∷ vs ↦ has_some_prefix name (v ∷ vs) ]))
        ≡ true)
      ↔ (((x : Text) × In x exclude × (has_prefix name (to_lower x) ≡ true))
          ⊎ ((include ≢ []) × ((x : Text) → In x include → has_prefix name (to_lower x) ≡ false)))
include_exclude_skip_iff name exclude [] =
    let (go, back) = has_some_prefix_iff name exclude in
    (
      λ e. inl (go (or_false (has_some_prefix name exclude) e)),
      λ q.
          ⊎_elim (λ x. or_of_left (has_some_prefix name exclude) (not true) (back x))
            (λ r. absurd (r.0 refl)) q,
    )
  where
    or_false : (b : Bool) → (b || not true) ≡ true → b ≡ true
    or_false b e = ground arith
include_exclude_skip_iff name exclude (v ∷ vs) =
    let (go, back) = has_some_prefix_iff name exclude in
    let (none_of, all_of) = has_some_prefix-eq-false_iff name (v ∷ vs) in
    let here = has_some_prefix name exclude in
    let included = has_some_prefix name (v ∷ vs) in
    (
      λ e. elim (Bool-cases here) [
        | inl found ↦ inl (go found)
        | inr other ↦
            inr (λ q. cc, none_of (shut included (true_of_rest here (not included) e other)))
      ],
      λ q.
          ⊎_elim (λ x. or_of_left here (not included) (back x))
            (λ r. or_of_right here (not included) (open_of included (all_of r.1))) q,
    )
  where
    shut : (b : Bool) → not b ≡ true → b ≡ false
    shut b e = ground arith

    open_of : (b : Bool) → b ≡ false → not b ≡ true
    open_of b e = ground arith

pub is_dropped_iff : (e : Envfile) (k : Text) → (is_dropped e k ≡ true) ↔ IsDropped e k
unfolding include_exclude_skip
is_dropped_iff e k =
    let (go, back) = include_exclude_skip_iff (to_lower k) e.exclude e.include in
    let (member, elem_of) = elem_iff k invalid_env_var_keys in
    let invalid = elem k invalid_env_var_keys in
    let skipped = include_exclude_skip e k in
    (
      λ h. elim (Bool-cases invalid) [
        | inl found ↦ inl (member found)
        | inr other ↦ inr (go (true_of_rest invalid skipped h other))
      ],
      λ q.
          ⊎_elim (λ m. or_of_left invalid skipped (elem_of m))
            (λ r. or_of_right invalid skipped (back r)) q,
    )
