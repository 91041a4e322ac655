-- ===== src/Policy/Events/Rounds.antt =====
-- The rounds over all calls: they end, and what they end with is closed under the calls.
use eirctl.Prelude.{
  ⊎_elim, ◌≡◌, refl, sym, ap, ◌∙◌, subst, ℕ, zero, suc, ◌*◌, ◌≤◌, ◌<◌, arith, Bool, true, false,
  List, [], ◌∷◌, ◌++◌, some, Text, In, In-append, inl, inr, Bool-cases, length, length-append, ◌||◌,
}
use eirctl.Policy.Events.{
  EffectiveRootEvent, Entry, propagate_root_events, propagate_reusable_events, settle,
}
use eirctl.Policy.Events.Grow.{
  missing, missing-le-length, propagate_mono, propagate_unchanged, propagate_keeps,
  propagate_missing,
}

abbrev pub IsClosed : List (Text × Text) → List Entry → Type 0
IsClosed edges es =
    (caller called : Text) (ev : EffectiveRootEvent)
    → In (caller, called) edges
    → In (caller, ev) es
    → In (called, ev) es

round_mono :
    (x : Entry) (edges : List (Text × Text)) (es : List Entry)
    → In x es
    → In x (propagate_reusable_events edges es).0
unfolding propagate_reusable_events
round_mono x [] es i = i
round_mono x ((c, d) ∷ edges) es i =
    round_mono x edges (propagate_root_events c d es es).0 (propagate_mono c d x es es i)

round_unchanged :
    (edges : List (Text × Text)) (es : List Entry)
    → (propagate_reusable_events edges es).1 ≡ false
    → ((propagate_reusable_events edges es).0 ≡ es) × IsClosed edges es
unfolding propagate_reusable_events
round_unchanged [] es e = (refl, λ c d ev i j. absurd i)
round_unchanged ((c, d) ∷ edges) es e =
    let (this, rest) =
      or_false (propagate_reusable_events edges (propagate_root_events c d es es).0).1
        (propagate_root_events c d es es).1 e in
    let (same, closed) = propagate_unchanged c d es es this in
    let (same', closed') = round_unchanged edges es (rw same at rest) in
    (
      rw same same',
      λ c' d' ev i j.
          ⊎_elim
            (λ at_head.
              subst (λ q. In (q.1, ev) es) (sym at_head)
                (closed ev (subst (λ q. In (q.0, ev) es) at_head j)))
            (λ later. closed' c' d' ev later j) i,
    )
  where
    or_false : (a b : Bool) → (a || b) ≡ false → (b ≡ false) × (a ≡ false)
    or_false a b h = ground arith

round_keeps :
    (P : Entry → Type 0) (edges : List (Text × Text)) (es : List Entry)
    → ((c d : Text) (ev : EffectiveRootEvent) → In (c, d) edges → P (c, ev) → P (d, ev))
    → ((x : Entry) → In x es → P x)
    → (x : Entry) → In x (propagate_reusable_events edges es).0
    → P x
unfolding propagate_reusable_events
round_keeps P [] es go he x i = he x i
round_keeps P ((c, d) ∷ edges) es go he x i =
    round_keeps P edges (propagate_root_events c d es es).0 (λ c' d' ev m. go c' d' ev (inr m))
      (propagate_keeps c d P (λ ev. go c d ev (inl refl)) es es he he) x i

-- The entries that calls can make, from the events that are there.
row : Text → List Entry → List Entry
row d [] = []
row d ((p, ev) ∷ es) = (d, ev) ∷ row d es

pub grid : List (Text × Text) → List Entry → List Entry
grid [] es = []
grid ((c, d) ∷ edges) es = row d es ++ grid edges es

length-row : (d : Text) (es : List Entry) → length (row d es) ≡ length es
unfolding row
length-row d [] = refl
length-row d ((p, ev) ∷ es) = omega (arith, length-row d es)

pub length-grid :
    (edges : List (Text × Text)) (es : List Entry)
    → length (grid edges es) ≡ length edges * length es
unfolding grid
length-grid [] es = grind arith
length-grid ((c, d) ∷ edges) es =
    let here = length-row d es in
    let later = length-grid edges es in
    let joined = length-append (row d es) (grid edges es) in grind arith

In-row :
    (p d : Text) (ev : EffectiveRootEvent) (es : List Entry) → In (p, ev) es → In (d, ev) (row d es)
unfolding row
In-row p d ev [] i = absurd i
In-row p d ev ((q, ev') ∷ es) i =
    ⊎_elim (λ e. inl (ap (λ x. (d, x.1)) e)) (λ later. inr (In-row p d ev es later)) i

In-grid :
    (p c d : Text) (ev : EffectiveRootEvent) (edges : List (Text × Text)) (es : List Entry)
    → In (c, d) edges
    → In (p, ev) es
    → In (d, ev) (grid edges es)
unfolding grid
In-grid p c d ev [] es i j = absurd i
In-grid p c d ev ((c', d') ∷ edges) es i j = (In-append (d, ev) (row d' es) (grid edges es)).1 (
    ⊎_elim (λ e. inl (subst (λ q. In (d, ev) (row q.1 es)) e (In-row p d ev es j)))
      (λ later. inr (In-grid p c d ev edges es later j)) i)

-- An entry whose event was there from the start.
IsKnown : List Entry → Entry → Type 0
IsKnown start x = (p : Text) × In (p, x.1) start

module _ (all : List (Text × Text)) (start : List Entry) where
  round_missing :
      (edges : List (Text × Text)) (es : List Entry)
      → ((e : Text × Text) → In e edges → In e all)
      → ((x : Entry) → In x es → IsKnown start x)
      → (missing (grid all start) (propagate_reusable_events edges es).0
          ≤ missing (grid all start) es)
        × ((propagate_reusable_events edges es).1 ≡ true
            → missing (grid all start) (propagate_reusable_events edges es).0
              < missing (grid all start) es)
  unfolding propagate_reusable_events IsKnown
  round_missing [] es part known = (omega arith, λ e. absurd (cc))
  round_missing ((c, d) ∷ edges) es part known =
      let known' : (ev : EffectiveRootEvent) → In (c, ev) es → In (d, ev) (grid all start) = λ ev i.
        let (p, there) = known (c, ev) i in
        In-grid p c d ev all start (part (c, d) (inl refl)) there in
      let (le, lt) = propagate_missing c d (grid all start) es es known' in
      let next = propagate_keeps c d (IsKnown start) (λ ev k. k) es es known known in
      let (le', lt') =
        round_missing edges (propagate_root_events c d es es).0 (λ e m. part e (inr m)) next in
      (omega arith, λ e. ground arith)

  -- With fuel for what is missing the rounds end.
  settle_total :
      (fuel : ℕ) (es : List Entry)
      → missing (grid all start) es < fuel
      → ((x : Entry) → In x es → IsKnown start x)
      → (final : List Entry) × (settle fuel all es ≡ some final)
  unfolding settle IsKnown
  settle_total zero es h known = absurd (omega arith)
  settle_total (suc fuel) es h known = elim (Bool-cases (propagate_reusable_events all es).1) [
    | inr done ↦ ((propagate_reusable_events all es).0, rw (done, settle) refl)
    | inl more ↦
        let (le, lt) = round_missing all es (λ e m. m) known in
        let less = lt more in
        let kept = round_keeps (IsKnown start) all es (λ c d ev m k. k) known in
        let (final, e) =
          settle_total fuel (propagate_reusable_events all es).0 (omega arith) kept in
        (final, rw (more, settle) e)
  ]

same_of_some : {a b : List Entry} → some a ≡ some b → a ≡ b
same_of_some e = cc

-- The rounds keep what is there, end closed under the calls, and add only what the calls carry.
pub settle_lem :
    (P : Entry → Type 0) (edges : List (Text × Text)) (fuel : ℕ) (es final : List Entry)
    → ((c d : Text) (ev : EffectiveRootEvent) → In (c, d) edges → P (c, ev) → P (d, ev))
    → ((x : Entry) → In x es → P x)
    → settle fuel edges es ≡ some final
    → ((x : Entry) → In x es → In x final) × IsClosed edges final × ((x : Entry) → In x final → P x)
unfolding settle
settle_lem P edges zero es final go he e = absurd (cc)
settle_lem P edges (suc fuel) es final go he e =
    elim (Bool-cases (propagate_reusable_events edges es).1) [
      | inr done ↦
          let (same, closed) = round_unchanged edges es done in
          let end : (propagate_reusable_events edges es).0 ≡ final =
            same_of_some (rw (done, settle) at e) in
          let here : es ≡ final = sym same ∙ end in
          subst
            (λ f.
              ((x : Entry) → In x es → In x f) × IsClosed edges f × ((x : Entry) → In x f → P x))
            here (λ x i. i, closed, he)
      | inl more ↦
          let (old, closed, kept) =
            settle_lem P edges fuel (propagate_reusable_events edges es).0 final go
              (round_keeps P edges es go he) (rw (more, settle) at e) in
          (λ x i. old x (round_mono x edges es i), closed, kept)
    ]

-- With as many rounds as the calls can add entries, and one, the rounds end.
pub settle_ends :
    (edges : List (Text × Text)) (start : List Entry)
    → (final : List Entry) × (settle (suc (length edges * length start)) edges start ≡ some final)
settle_ends edges start =
    let bound = missing-le-length (grid edges start) start in
    let size = length-grid edges start in
    settle_total edges start (suc (length edges * length start)) start (omega arith)
      (unfold IsKnown in λ (p, ev) i. (p, i))
