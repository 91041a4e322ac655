-- ===== src/Waves/Order.antt =====
-- The search meets exactly the nodes that can be reached, each once.
use eirctl.Prelude.{
  ◌≡◌, refl, ℕ, zero, suc, ◌+◌, ◌≤◌, Bool, true, false, List, [], ◌∷◌, ◌++◌, some, Text,
  text_eq_iff, length, length-append, In, In-append, Distinct, Distinct-concat, ◌⊎◌, inl, inr, ◌↔◌,
  arith, Bool-cases, list_laws, ⊎_elim, append_assoc, append-nil,
}
use mathlib.Core.Option.{some-injective}
use eirctl.Search.{mark}
use eirctl.Search.Walks.{Walk, step, Walk-closed}
use eirctl.Search.Fuel.{unseen, unseen-mark}
use mathlib.Core.Option
use eirctl.Waves.{Wave, offer, bfs}

-- What is visited is what was emitted and what is queued, each node once.
pub record IsWave (out : List Text) (s : Wave) : Type 0 where
  pub marked : (v : Text) → (s.visited v ≡ true) ↔ In v (out ++ s.queue)
  pub distinct : Distinct (out ++ s.queue)

abbrev pub grown : Text → Wave → Wave
grown c s = record { queue = s.queue ++ c ∷ []; visited = mark c true s.visited }

In-grown :
    (out : List Text) (c v : Text) (s : Wave)
    → In v (out ++ (grown c s).queue) ↔ (In v (out ++ s.queue) ⊎ (v ≡ c))
In-grown out c v s = ground (
  arith,
  In-append v out (s.queue ++ c ∷ []),
  In-append v s.queue (c ∷ []),
  In-append v out s.queue,
)

pub grown-IsWave :
    (out : List Text) (c : Text) (s : Wave)
    → s.visited c ≡ false
    → IsWave out s
    → IsWave out (grown c s)
grown-IsWave out c s new h = record {
  marked = λ v. ground (arith, In-grown out c v s, h.marked v, text_eq_iff c v);
  distinct =
      rw (← append_assoc)
        (Distinct-concat (out ++ s.queue) c h.distinct (λ m. ground (arith, h.marked c)));
}

offer-IsWave : (out cs : List Text) (s : Wave) → IsWave out s → IsWave out (offer cs s)
unfolding offer
offer-IsWave out [] s h = h
offer-IsWave out (c ∷ cs) s h = elim (Bool-cases (s.visited c)) [
  | inl old ↦ rw (old, offer) (offer-IsWave out cs s h)
  | inr new ↦ rw (new, offer) (offer-IsWave out cs (grown c s) (grown-IsWave out c s new h))
]

-- The loop visits the children, and nothing else.
offer-visited :
    (cs : List Text) (s : Wave) (v : Text)
    → ((offer cs s).visited v ≡ true) ↔ ((s.visited v ≡ true) ⊎ In v cs)
unfolding offer
offer-visited [] s v = ground arith
offer-visited (c ∷ cs) s v =
    ground (arith, offer-visited cs s v, offer-visited cs (grown c s) v, text_eq_iff c v)

module _ (next : Text → List Text) (start : Text) where
  -- What holds before each round.
  pub record IsRun (out : List Text) (s : Wave) : Type 0 where
    pub wave : IsWave out s
    pub started : In start (out ++ s.queue)
    pub reached : (v : Text) → In v (out ++ s.queue) → Walk next start v
    pub closed : (v w : Text) → In v out → In w (next v) → s.visited w ≡ true

  abbrev pub round : Text → List Text → (Text → Bool) → Wave
  round c queue visited = offer (next c) (record { queue = queue; visited = visited })

  -- What is in view after a round: what was, and the children of the node that was taken.
  In-round :
      (out : List Text) (c v : Text) (queue : List Text) (visited : Text → Bool)
      → IsWave out (record { queue = c ∷ queue; visited = visited })
      → IsWave (out ++ c ∷ []) (round c queue visited)
        × (In v ((out ++ c ∷ []) ++ (round c queue visited).queue)
            ↔ (In v (out ++ c ∷ queue) ⊎ In v (next c)))
  In-round out c v queue visited h =
      let s : Wave = record { queue = queue; visited = visited } in
      let shifted : IsWave (out ++ c ∷ []) s = record {
        marked = λ w. rw append_assoc (h.marked w);
        distinct = rw append_assoc h.distinct;
      } in
      let after = offer-IsWave (out ++ c ∷ []) (next c) s shifted in
      (after, ground (arith, after.marked v, offer-visited (next c) s v, h.marked v))

  pub IsRun-round :
      (out : List Text) (c : Text) (queue : List Text) (visited : Text → Bool)
      → IsRun out (record { queue = c ∷ queue; visited = visited })
      → IsRun (out ++ c ∷ []) (round c queue visited)
  IsRun-round out c queue visited h =
      let s : Wave = record { queue = queue; visited = visited } in
      let view = λ (v : Text). In-round out c v queue visited h.wave in
      record {
        wave = (view start).0;
        started = (view start).1.1 (inl h.started);
        reached = λ v m.
            ⊎_elim (h.reached v)
              (λ child. step (h.reached c ((In-append c out (c ∷ queue)).1 (inr (inl refl)))) child)
              ((view v).1.0 m);
        closed = λ v w m e. (offer-visited (next c) s w).1 (elim ((In-append v out (c ∷ [])).0 m) [
          | inl old ↦ inl (h.closed v w old e)
          | inr (inl same) ↦ inr (rw same at e)
          | inr (inr empty) ↦ absurd empty
        ]);
      }

  -- With an empty queue what was emitted is closed under edges.
  finish :
      (visited : Text → Bool) (out res : List Text)
      → IsRun out (record { queue = []; visited = visited })
      → out ≡ res
      → Distinct res × ((v : Text) → In v res ↔ Walk next start v)
  finish visited out res h e =
      let whole : out ++ [] ≡ out = append-nil out in
      let marked = λ (v : Text). rw whole at (h.wave.marked v) in
      rw (← e) (
        rw whole at h.wave.distinct,
        λ v. (
          λ m. h.reached v (rw whole m),
          λ walk.
              Walk-closed next (λ w. In w out) (λ x w m edge. (marked w).0 (h.closed x w m edge))
                start v walk (rw whole at h.started),
        ),
      )

  pub bfs_run :
      (fuel : ℕ) (queue : List Text) (visited : Text → Bool) (out res : List Text)
      → IsRun out (record { queue = queue; visited = visited })
      → bfs next (λ n. n ∷ []) fuel queue visited out ≡ some res
      → Distinct res × ((v : Text) → In v res ↔ Walk next start v)
  unfolding bfs
  bfs_run zero [] visited out res h e = finish visited out res h (some-injective _ _ e)
  bfs_run zero (c ∷ queue) visited out res h e = cc
  bfs_run (suc fuel) [] visited out res h e = finish visited out res h (some-injective _ _ e)
  bfs_run (suc fuel) (c ∷ queue) visited out res h e =
      let s = round c queue visited in
      bfs_run fuel s.queue s.visited (out ++ c ∷ []) res (IsRun-round out c queue visited h) e

-- What is emitted for each node of a list.
abbrev pub emit_all : {A : Type 0} → (Text → List A) → List Text → List A
emit_all emit [] = []
emit_all emit (n ∷ ns) = emit n ++ emit_all emit ns

emit_all-concat :
    {A : Type 0} (emit : Text → List A) (ns : List Text) (n : Text)
    → emit_all emit (ns ++ n ∷ []) ≡ emit_all emit ns ++ emit n
emit_all-concat emit [] n = simp list_laws
emit_all-concat emit (m ∷ ns) n = simp (emit_all-concat emit ns n, list_laws)

-- The order of the nodes does not depend on what is emitted for them.
pub bfs-emit :
    {A : Type 0} (next : Text → List Text) (emit : Text → List A) (fuel : ℕ) (queue : List Text)
    (visited : Text → Bool) (out : List Text)
    → bfs next emit fuel queue visited (emit_all emit out)
      ≡ Option.map (emit_all emit) (bfs next (λ n. n ∷ []) fuel queue visited out)
unfolding bfs
bfs-emit next emit zero [] visited out = refl
bfs-emit next emit zero (c ∷ queue) visited out = refl
bfs-emit next emit (suc fuel) [] visited out = refl
bfs-emit next emit (suc fuel) (c ∷ queue) visited out =
    let s = offer (next c) (record { queue = queue; visited = visited }) in
    rw (← emit_all-concat emit out c) (bfs-emit next emit fuel s.queue s.visited (out ++ c ∷ []))

module _ (next : Text → List Text) (nodes : List Text)
    (closed : (v w : Text) → In v nodes → In w (next v) → In w nodes) where
  abbrev work : Wave → ℕ
  work s = unseen nodes s.visited + length s.queue

  work-offer :
      (cs : List Text) (s : Wave) → ((c : Text) → In c cs → In c nodes) → work (offer cs s) ≤ work s
  unfolding offer
  work-offer [] s sub = omega arith
  work-offer (c ∷ cs) s sub = elim (Bool-cases (s.visited c)) [
    | inl old ↦ rw (old, offer) (work-offer cs s (λ d m. sub d (inr m)))
    | inr new ↦
        rw (new, offer)
          (omega (
            arith,
            work-offer cs (grown c s) (λ d m. sub d (inr m)),
            unseen-mark c nodes s.visited (sub c (inl refl)) new,
            length-append s.queue (c ∷ []),
          ))
  ]

  offer-queue :
      (cs : List Text) (s : Wave)
      → ((c : Text) → In c cs → In c nodes)
      → ((c : Text) → In c s.queue → In c nodes)
      → (c : Text) → In c (offer cs s).queue
      → In c nodes
  unfolding offer
  offer-queue [] s sub old c m = old c m
  offer-queue (d ∷ cs) s sub old c m = elim (Bool-cases (s.visited d)) [
    | inl seen ↦ offer-queue cs s (λ e n. sub e (inr n)) old c (rw (seen, offer) at m)
    | inr new ↦
        offer-queue cs (grown d s) (λ e n. sub e (inr n))
          (λ e n.
            ⊎_elim (old e) (λ last. ⊎_elim (λ same. rw same (sub d (inl refl))) absurd last)
              ((In-append e s.queue (d ∷ [])).0 n))
          c (rw (new, offer) at m)
  ]

  pub bfs_ends :
      (fuel : ℕ) (queue : List Text) (visited : Text → Bool) (out : List Text)
      → ((c : Text) → In c queue → In c nodes)
      → unseen nodes visited + length queue ≤ fuel
      → (res : List Text) × (bfs next (λ n. n ∷ []) fuel queue visited out ≡ some res)
  unfolding bfs
  bfs_ends zero [] visited out sub le = (out, refl)
  bfs_ends zero (c ∷ queue) visited out sub le = absurd (omega arith)
  bfs_ends (suc fuel) [] visited out sub le = (out, refl)
  bfs_ends (suc fuel) (c ∷ queue) visited out sub le =
      let s : Wave = record { queue = queue; visited = visited } in
      let kids = λ (d : Text) (m : In d (next c)). closed c d (sub c (inl refl)) m in
      let s' = offer (next c) s in
      bfs_ends fuel s'.queue s'.visited (out ++ c ∷ [])
        (offer-queue (next c) s kids (λ d m. sub d (inr m)))
        (omega (arith, work-offer (next c) s kids))
