-- ===== src/Graph/Edges.antt =====
-- The edges of a graph, and what linking two names does to them.
use eirctl.Prelude.{
  ◌≡◌, ◌≢◌, List, [], ◌∷◌, ◌++◌, Text, Map, lookup, In, In-append, ◌⊎◌, inl, inr, ◌↔◌, text_eq,
  text_eq_iff, lookup-insert, if◌then◌else◌, arith, ⊎_elim,
}
use eirctl.Graph.{ExecutionGraph, list_at, append_at, children_of, parents_of, mentioned, link}
use eirctl.Search.Walks.{Walk, here, step}

list_at-append_at :
    (k j v : Text) (m : Map (List Text))
    → list_at j (append_at k v m) ≡ (if text_eq k j then list_at j m ++ v ∷ [] else list_at j m)
unfolding list_at append_at
list_at-append_at k j v m =
    ground (arith, text_eq_iff k j, lookup-insert k j (list_at k m ++ v ∷ []) m)

-- A name that some entry lists is mentioned.
pub In-mentioned : (v w : Text) (m : Map (List Text)) → In w (list_at v m) → In w (mentioned m)
unfolding list_at mentioned lookup
In-mentioned v w [] i = absurd i
In-mentioned v w ((k, l) ∷ m) i = ground (arith, In-append w l (mentioned m), In-mentioned v w m)

module _ (parent child : Text) (g : ExecutionGraph) where
  pub children_of-link :
      (v : Text)
      → children_of (link parent child g) v
        ≡ (if text_eq parent v then children_of g v ++ child ∷ [] else children_of g v)
  unfolding link
  children_of-link v = list_at-append_at parent v child g.children

  pub In-children_of-link :
      (v w : Text)
      → In w (children_of (link parent child g) v)
        ↔ (In w (children_of g v) ⊎ (v ≡ parent) × (w ≡ child))
  In-children_of-link v w =
      ground (
        arith,
        children_of-link v,
        text_eq_iff parent v,
        In-append w (children_of g v) (child ∷ []),
      )

  pub parents_of-link_ne :
      (w : Text) → (child ≢ w) → parents_of (link parent child g) w ≡ parents_of g w
  unfolding link
  parents_of-link_ne w other =
      ground (arith, list_at-append_at child w parent g.parent, text_eq_iff child w)

  pub In-parents_of-link :
      (v w : Text)
      → In v (parents_of (link parent child g) w)
        ↔ (In v (parents_of g w) ⊎ (v ≡ parent) × (w ≡ child))
  unfolding link
  In-parents_of-link v w = ground (
    arith,
    list_at-append_at child w parent g.parent,
    text_eq_iff child w,
    In-append v (parents_of g w) (parent ∷ []),
  )

  -- A walk of the linked graph either is one of the old graph, or reaches the new edge by one
  -- and leaves it by another.
  pub Walk-link :
      (a b : Text)
      → Walk (children_of (link parent child g)) a b
      → Walk (children_of g) a b ⊎ Walk (children_of g) a parent × Walk (children_of g) child b
  Walk-link a b here = inl here
  Walk-link a b (step {b = m} w e) = elim ((In-children_of-link m b).0 e) [
    | inl old ↦ ⊎_elim (λ v. inl (step v old)) (λ (v, u). inr (v, step u old)) (Walk-link a m w)
    | inr (at, to) ↦
        rw to (⊎_elim (λ v. inr (rw at at v, here)) (λ (v, u). inr (v, here)) (Walk-link a m w))
  ]
