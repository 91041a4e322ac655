-- ===== src/Policy/Events/Grow.antt =====
-- One propagation of events, and how far the events can grow.
use eirctl.Prelude.{
  ⊎_elim, ◌≡◌, refl, sym, ap, subst, ℕ, suc, ◌≤◌, ◌<◌, arith, true, false, List, [], ◌∷◌, Text, In,
  ◌↔◌, inl, inr, text_eq, text_eq_iff, if◌then◌else◌, Bool-cases, length,
}
use eirctl.Policy.Events.{EffectiveRootEvent, same_event, Entry, has_entry, propagate_root_events}

same_event_iff : (a b : EffectiveRootEvent) → (same_event a b ≡ true) ↔ (a ≡ b)
unfolding same_event
same_event_iff a b =
    ground (arith, text_eq_iff a.name b.name, text_eq_iff a.source_path b.source_path)

pub has_entry_iff : (e : Entry) (es : List Entry) → (has_entry e es ≡ true) ↔ In e es
unfolding has_entry
has_entry_iff e [] = ground arith
has_entry_iff (path, ev) ((p, ev') ∷ es) =
    ground (arith, text_eq_iff p path, same_event_iff ev' ev, has_entry_iff (path, ev) es)

-- How many entries of the universe are not there yet.
pub missing : List Entry → List Entry → ℕ
missing [] es = 0
missing (u ∷ us) es = let rest = missing us es in if has_entry u es then rest else suc rest

pub missing-le-length : (us es : List Entry) → missing us es ≤ length us
unfolding missing
missing-le-length [] es = omega arith
missing-le-length (u ∷ us) es = ground (arith, missing-le-length us es)

missing-cons : (us : List Entry) (x : Entry) (es : List Entry) → missing us (x ∷ es) ≤ missing us es
unfolding missing
missing-cons [] x es = omega arith
missing-cons (u ∷ us) x es =
    ground (arith, missing-cons us x es, has_entry_iff u es, has_entry_iff u (x ∷ es))

missing-cons-lt :
    (us : List Entry) (x : Entry) (es : List Entry)
    → In x us
    → has_entry x es ≡ false
    → missing us (x ∷ es) < missing us es
unfolding missing
missing-cons-lt [] x es i new = absurd i
missing-cons-lt (u ∷ us) x es (inl same) new =
    ground (
      arith,
      missing-cons us x es,
      has_entry_iff u es,
      has_entry_iff u (x ∷ es),
      has_entry_iff x es,
    )
missing-cons-lt (u ∷ us) x es (inr later) new =
    ground (arith, missing-cons-lt us x es later new, has_entry_iff u es, has_entry_iff u (x ∷ es))

module _ (caller called : Text) where
  -- What one propagation keeps, adds, and leaves if it reports no change.
  pub propagate_mono :
      (x : Entry) (source es : List Entry)
      → In x es
      → In x (propagate_root_events caller called source es).0
  unfolding propagate_root_events
  propagate_mono x [] es i = i
  propagate_mono x ((p, ev) ∷ source) es i =
      ground
        (arith, propagate_mono x source es i, propagate_mono x source ((called, ev) ∷ es) (inr i))

  pub propagate_unchanged :
      (source es : List Entry)
      → (propagate_root_events caller called source es).1 ≡ false
      → ((propagate_root_events caller called source es).0 ≡ es)
        × ((ev : EffectiveRootEvent) → In (caller, ev) source → In (called, ev) es)
  unfolding propagate_root_events
  propagate_unchanged [] es e = (refl, λ ev i. absurd i)
  propagate_unchanged ((p, ev) ∷ source) es e = elim (Bool-cases (text_eq p caller)) [
    | inr other ↦
        let (same, closed) = propagate_unchanged source es (rw other at e) in
        (rw other same, λ ev' i. ground (arith, text_eq_iff p caller, closed ev'))
    | inl here ↦ elim (Bool-cases (has_entry (called, ev) es)) [
      | inl old ↦
          let (same, closed) = propagate_unchanged source es (rw (here, old) at e) in
          (rw (here, old) same, λ ev' i. ground (arith, has_entry_iff (called, ev) es, closed ev'))
      | inr new ↦ cc
    ]
  ]

  -- A property of entries that goes from the caller to the called workflow is kept.
  pub propagate_keeps :
      (P : Entry → Type 0)
      → ((ev : EffectiveRootEvent) → P (caller, ev) → P (called, ev))
      → (source es : List Entry) → ((x : Entry) → In x source → P x)
      → ((x : Entry) → In x es → P x)
      → (x : Entry) → In x (propagate_root_events caller called source es).0
      → P x
  unfolding propagate_root_events
  propagate_keeps P go [] es hs he x i = he x i
  propagate_keeps P go ((p, ev) ∷ source) es hs he x i = elim (Bool-cases (text_eq p caller)) [
    | inr other ↦ propagate_keeps P go source es (λ y m. hs y (inr m)) he x (rw other at i)
    | inl here ↦ elim (Bool-cases (has_entry (called, ev) es)) [
      | inl old ↦ propagate_keeps P go source es (λ y m. hs y (inr m)) he x (rw (here, old) at i)
      | inr new ↦
          let same : p ≡ caller = ground (arith, text_eq_iff p caller) in
          let given : P (called, ev) =
            go ev (subst (λ q. P (q, ev)) same (hs (p, ev) (inl refl))) in
          propagate_keeps P go source ((called, ev) ∷ es) (λ y m. hs y (inr m))
            (λ y m. ⊎_elim (λ e. subst P (sym e) given) (he y) m) x (rw (here, new) at i)
    ]
  ]

  -- A propagation that reports a change makes the rest of the universe smaller.
  pub propagate_missing :
      (us source es : List Entry)
      → ((ev : EffectiveRootEvent) → In (caller, ev) source → In (called, ev) us)
      → (missing us (propagate_root_events caller called source es).0 ≤ missing us es)
        × ((propagate_root_events caller called source es).1 ≡ true
            → missing us (propagate_root_events caller called source es).0 < missing us es)
  unfolding propagate_root_events
  propagate_missing us [] es known = (omega arith, λ e. absurd (cc))
  propagate_missing us ((p, ev) ∷ source) es known =
      let known' : (ev' : EffectiveRootEvent) → In (caller, ev') source → In (called, ev') us =
        λ ev' m. known ev' (inr m) in
      elim (Bool-cases (text_eq p caller)) [
        | inr other ↦ rw other (propagate_missing us source es known')
        | inl here ↦ elim (Bool-cases (has_entry (called, ev) es)) [
          | inl old ↦ rw (here, old) (propagate_missing us source es known')
          | inr new ↦
              let same : caller ≡ p = ground (arith, text_eq_iff p caller) in
              let there = known ev (inl (ap (λ q. (q, ev)) same)) in
              let less = missing-cons-lt us (called, ev) es there new in
              let (grown, _) = propagate_missing us source ((called, ev) ∷ es) known' in
              rw (here, new) (omega arith, λ _. omega arith)
        ]
      ]
