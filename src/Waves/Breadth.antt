-- ===== src/Waves/Breadth.antt =====
-- The breadth-first order: after the start come the children of each node, in the order of the
-- nodes, and of each name the first occurrence counts.
use eirctl.Prelude.{
  ◌≡◌, refl, sym, ap, ◌∙◌, ℕ, zero, suc, Bool, true, false, List, [], ◌∷◌, ◌++◌, some, Text, elem,
  elem_iff, inl, inr, arith, Bool-cases, append_assoc, append-nil, if◌then◌else◌,
}
use mathlib.Core.Option.{some-injective}
use eirctl.Waves.{Wave, offer, bfs}
use eirctl.Waves.Order.{IsWave, IsRun, IsRun-round, round, grown, grown-IsWave}

-- The names of the second list that are not in the first, each once, behind the first.
abbrev pub collect : List Text → List Text → List Text
collect out [] = out
collect out (c ∷ cs) = if elem c out then collect out cs else collect (out ++ c ∷ []) cs

abbrev pub all_children : (Text → List Text) → List Text → List Text
all_children next [] = []
all_children next (n ∷ ns) = next n ++ all_children next ns

collect-append : (out cs ds : List Text) → collect out (cs ++ ds) ≡ collect (collect out cs) ds
collect-append out [] ds = refl
collect-append out (c ∷ cs) ds = elim (Bool-cases (elem c out)) [
  | inl old ↦ rw old (collect-append out cs ds)
  | inr new ↦ rw new (collect-append (out ++ c ∷ []) cs ds)
]

all_children-concat :
    (next : Text → List Text) (ns : List Text) (n : Text)
    → all_children next (ns ++ n ∷ []) ≡ all_children next ns ++ next n
all_children-concat next [] n = append-nil (next n)
all_children-concat next (m ∷ ns) n =
    ap (λ l. next m ++ l) (all_children-concat next ns n)
    ∙ sym (append_assoc (next m) (all_children next ns) (next n))

-- What is queued are the children that are not there yet.
offer-collect :
    (out cs : List Text) (s : Wave)
    → IsWave out s
    → out ++ (offer cs s).queue ≡ collect (out ++ s.queue) cs
unfolding offer
offer-collect out [] s h = refl
offer-collect out (c ∷ cs) s h = elim (Bool-cases (s.visited c)) [
  | inl old ↦
      let there : elem c (out ++ s.queue) ≡ true =
        ground (arith, h.marked c, elem_iff c (out ++ s.queue)) in
      rw (old, there, offer) (offer-collect out cs s h)
  | inr new ↦
      let absent : elem c (out ++ s.queue) ≡ false =
        ground (arith, h.marked c, elem_iff c (out ++ s.queue)) in
      let again = offer-collect out cs (grown c s) (grown-IsWave out c s new h) in
      rw (new, absent, offer)
        (again ∙ ap (λ l. collect l cs) (sym (append_assoc out s.queue (c ∷ []))))
]

module _ (next : Text → List Text) (start : Text) where
  -- The list is the start and then the children of its own nodes, each name once.
  abbrev pub IsBreadthFirst : List Text → Type 0
  IsBreadthFirst order = order ≡ collect (start ∷ []) (all_children next order)

  pub bfs-IsBreadthFirst :
      (fuel : ℕ) (queue : List Text) (visited : Text → Bool) (out res : List Text)
      → IsRun next start out (record { queue = queue; visited = visited })
      → out ++ queue ≡ collect (start ∷ []) (all_children next out)
      → bfs next (λ n. n ∷ []) fuel queue visited out ≡ some res
      → IsBreadthFirst res
  unfolding bfs
  bfs-IsBreadthFirst zero [] visited out res h seq e = ended out res seq (some-injective _ _ e)
    where
      ended :
          (out res : List Text)
          → out ++ [] ≡ collect (start ∷ []) (all_children next out)
          → out ≡ res
          → IsBreadthFirst res
      ended out res seq same = rw (← same) (sym (append-nil out) ∙ seq)
  bfs-IsBreadthFirst zero (c ∷ queue) visited out res h seq e = absurd (cc)
  bfs-IsBreadthFirst (suc fuel) [] visited out res h seq e =
      rw (← some-injective _ _ e) (sym (append-nil out) ∙ seq)
  bfs-IsBreadthFirst (suc fuel) (c ∷ queue) visited out res h seq e =
      let s : Wave = record { queue = queue; visited = visited } in
      let shifted : IsWave (out ++ c ∷ []) s = record {
        marked = λ w. rw append_assoc (h.wave.marked w);
        distinct = rw append_assoc h.wave.distinct;
      } in
      let s' = round next start c queue visited in
      bfs-IsBreadthFirst fuel s'.queue s'.visited (out ++ c ∷ []) res
        (IsRun-round next start out c queue visited h)
        (offer-collect (out ++ c ∷ []) (next c) s shifted
          ∙ ap (λ l. collect l (next c)) (append_assoc out (c ∷ []) queue ∙ seq)
          ∙ sym (collect-append (start ∷ []) (all_children next out) (next c))
          ∙ ap (collect (start ∷ [])) (sym (all_children-concat next out c)))
        e
