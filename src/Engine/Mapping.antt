-- ===== src/Engine/Mapping.antt =====
-- internal/engine/mapping.go: the 1:1 mapping between the nodes of two trees.
-- A node is known by its identity (a pointer in the source), a number here; a nil pointer is
-- `none`. Go's two maps are functions into `Option`, and `Pairs` keeps the order of insertion.
pub mod Laws
mod Examples
use diffmantic.Base.{
  ℕ, Bool, true, false, not, ◌&&◌, Option, none, some, List, [], ◌∷◌, ◌++◌, ◌==◌, if◌then◌else◌,
}

abbrev pub Node : Type 0
Node = ℕ

abbrev pub NodeMap : Type 0
NodeMap = Node → Option Node

pub record MappingPair : Type 0 where
  pub from : Node
  pub to : Node

pub record Mapping : Type 0 where
  pub src : NodeMap
  pub dst : NodeMap
  pub pairs : List MappingPair

-- `m[k] = v` and `delete(m, k)` on a Go map.
abbrev pub put : NodeMap → Node → Node → NodeMap
put m k v j = if j == k then some v else m j

abbrev pub delete : NodeMap → Node → NodeMap
delete m k j = if j == k then none else m j

unfoldable pub new_mapping : Mapping
new_mapping = record { src = λ _. none; dst = λ _. none; pairs = [] }

-- `slices.DeleteFunc(m.Pairs, …)` with a test on the source node.
unfoldable pub delete_pairs : (Node → Bool) → List MappingPair → List MappingPair
delete_pairs drop? [] = []
delete_pairs drop? (p ∷ ps) =
    let rest = delete_pairs drop? ps in if drop? p.from then rest else p ∷ rest

-- The loop that overwrites the destination of the first pair of `t1`; `none` if there is no pair.
unfoldable pub replace_dst : Node → Node → List MappingPair → Option (List MappingPair)
replace_dst t1 t2 [] = none
replace_dst t1 t2 (p ∷ ps) =
    let rest = replace_dst t1 t2 ps in
    if p.from == t1
    then some (record p { to = t2 } ∷ ps)
    else elim rest [ none ↦ none | some qs ↦ some (p ∷ qs) ]

-- `curT2, ok := m.src[t1]; ok && curT2 == t2`
unfoldable pub is_mapped_to : Mapping → Node → Node → Bool
is_mapped_to m t1 t2 = elim (m.src t1) [ none ↦ false | some cur_t2 ↦ cur_t2 == t2 ]

-- Drops the source that claims `t2`, unless it is `t1`.
unfoldable pub evict : Mapping → Node → Node → Mapping
unfolding delete_pairs
evict m t1 t2 = elim (m.dst t2) [
  | none ↦ m
  | some old_t1 ↦
      if old_t1 == t1
      then m
      else record m { src = delete m.src old_t1; pairs = delete_pairs (λ n. n == old_t1) m.pairs }
]

append_pair : Mapping → Node → Node → Mapping
append_pair m t1 t2 = record {
  src = put m.src t1 t2;
  dst = put m.dst t2 t1;
  pairs = m.pairs ++ record { from = t1; to = t2 } ∷ [];
}

-- From `if oldT2, ok := m.src[t1]` to the end of `Add`.
attach : Mapping → Node → Node → Mapping
unfolding append_pair replace_dst
attach m t1 t2 = elim (m.src t1) [
  | none ↦ append_pair m t1 t2
  | some old_t2 ↦
      let freed : Mapping = record m { dst = delete m.dst old_t2 } in
      elim (replace_dst t1 t2 m.pairs) [
        | none ↦ append_pair freed t1 t2
        | some ps ↦ record { src = put m.src t1 t2; dst = put freed.dst t2 t1; pairs = ps }
      ]
]

pub add_nodes : Mapping → Node → Node → Mapping
unfolding is_mapped_to evict attach
add_nodes m t1 t2 = if is_mapped_to m t1 t2 then m else attach (evict m t1 t2) t1 t2

unfoldable pub add : Mapping → Option Node → Option Node → Mapping
unfolding add_nodes
add m (some t1) (some t2) = add_nodes m t1 t2
add m _ _ = m

unfoldable pub has : Mapping → Node → Bool
has m t1 = elim (m.src t1) [ none ↦ false | some _ ↦ true ]

unfoldable pub has_dst : Mapping → Node → Bool
has_dst m t2 = elim (m.dst t2) [ none ↦ false | some _ ↦ true ]

-- A nil mapping is `none`.
unfoldable pub get : Option Mapping → Option Node → Option Node
get (some m) (some t1) = m.src t1
get _ _ = none

unfoldable pub remove_node : Mapping → Node → Mapping
unfolding delete_pairs
remove_node m t1 = record {
  src = delete m.src t1;
  dst = elim (m.src t1) [ none ↦ m.dst | some t2 ↦ delete m.dst t2 ];
  pairs = delete_pairs (λ n. n == t1) m.pairs;
}

unfoldable pub remove : Option Mapping → Option Node → Option Mapping
unfolding remove_node
remove (some m) (some t1) = some (remove_node m t1)
remove m _ = m

-- The loop of `RemoveSet` over the set's nodes, in the order in which they come.
unfoldable pub remove_links : List Node → Mapping → Mapping
remove_links [] m = m
remove_links (n ∷ ns) m = remove_links ns (record m {
  src = delete m.src n;
  dst = elim (m.src n) [ none ↦ m.dst | some t2 ↦ delete m.dst t2 ];
})

unfoldable pub contains : List Node → Node → Bool
contains [] n = false
contains (x ∷ xs) n = let rest = contains xs n in if n == x then true else rest

unfoldable pub remove_set : Mapping → List Node → Mapping
unfolding remove_links contains delete_pairs
remove_set m [] = m
remove_set m (n ∷ ns) =
    let m' = remove_links (n ∷ ns) m in
    record m' { pairs = delete_pairs (contains (n ∷ ns)) m'.pairs }
