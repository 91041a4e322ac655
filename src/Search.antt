-- ===== src/Search.antt =====
-- The depth-first search of `cycleDfs` (scheduler/graph.go), over any successor function.
-- The maps `visited` and `inStack` are functions; a name that they lack reads as false.
pub mod Walks
pub mod Complete
pub mod Sound
pub mod Fuel
use eirctl.Prelude.{
  ℕ, zero, suc, Bool, true, false, List, [], ◌∷◌, Text, ◌≡◌, refl, text_eq, if◌then◌else◌,
}

pub record Marks : Type 0 where
  pub visited : Text → Bool
  pub in_stack : Text → Bool

-- A result, or the back edge `child → node` of the message, or the end of the fuel, which is
-- the model's own.
pub data Found {ℓ} (A : Type ℓ) : Type ℓ where
  ok : A → Found A
  cycle : (child node : Text) → Found A
  out_of_fuel : Found A

infixl 5 ◌>>=◌
abbrev pub ◌>>=◌ {ℓ κ} : {A : Type ℓ} {B : Type κ} → Found A → (A → Found B) → Found B
out_of_fuel >>= next = out_of_fuel
cycle child node >>= next = cycle child node
ok value >>= next = next value

-- What a chain that ends well went through.
pub >>=-eq-ok {ℓ κ} :
    {A : Type ℓ} {B : Type κ} (first : Found A) (next : A → Found B) {out : B}
    → (first >>= next) ≡ ok out
    → (value : A) × (first ≡ ok value) × (next value ≡ ok out)
>>=-eq-ok out_of_fuel next h = cc
>>=-eq-ok (cycle child node) next h = cc
>>=-eq-ok (ok value) next h = (value, refl, h)

-- `m[n] = b`
abbrev pub mark : Text → Bool → (Text → Bool) → Text → Bool
mark n b m v = if text_eq n v then b else m v

abbrev pub unmarked : Marks
unmarked = record { visited = λ _. false; in_stack = λ _. false }

abbrev pub enter : Text → Marks → Marks
enter n s = record { visited = mark n true s.visited; in_stack = mark n true s.in_stack }

abbrev pub leave : Text → Marks → Marks
leave n s = record s { in_stack = mark n false s.in_stack }

-- `if !visited[c] { visit c }`
abbrev pub visit_child : (Text → Marks → Found Marks) → Text → Marks → Found Marks
visit_child visit c s = elim (s.visited c) [ true ↦ ok s | false ↦ visit c s ]

-- The loop over the children; `visit` is the recursive call.
unfoldable pub explore : (Text → Marks → Found Marks) → Text → List Text → Marks → Found Marks
explore visit node [] s = ok s
explore visit node (c ∷ cs) s = do
  s' ← visit_child visit c s
  elim (s'.in_stack c) [ true ↦ cycle c node | false ↦ explore visit node cs s' ]

unfoldable pub dfs : (Text → List Text) → ℕ → Text → Marks → Found Marks
unfolding explore
dfs next zero node s = out_of_fuel
dfs next (suc fuel) node s = do
  s' ← explore (dfs next fuel) node (next node) (enter node s)
  ok (leave node s')
