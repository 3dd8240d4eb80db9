-- ===== src/Engine/Mapping/Laws/Removing.antt =====
-- `Remove` and `RemoveSet`.
use diffmantic.Base.{
  Bool, true, false, ◌≡◌, refl, none, some, List, [], ◌∷◌, arith, ◌==◌, if◌then◌else◌, inl, inr,
  Option-cases, ap, ap₂, sym, ◌∙◌,
}
use diffmantic.Engine.Mapping.{
  Node, Mapping, MappingPair, delete, delete_pairs, get, remove_node, remove, remove_links,
  contains, remove_set,
}
use diffmantic.Engine.Mapping.Laws.Pairs.{
  sources, discard, find_pair-delete_pairs, Distinct-delete_pairs, sources-delete_pairs,
}
use diffmantic.Engine.Mapping.Laws.Bijection.{IsBijection}

remove_node-IsBijection : (m : Mapping) (t1 : Node) → IsBijection m → IsBijection (remove_node m t1)
unfolding remove_node
remove_node-IsBijection m t1 v = elim (Option-cases (m.src t1)) [
  | inl unmapped ↦ record {
    forward = λ a b h. ground (arith, v.forward a b);
    backward = λ a b h. ground (arith, v.backward a b);
    listed = λ a. ground (arith, v.listed a, find_pair-delete_pairs (λ n. n == t1) m.pairs a);
    distinct = Distinct-delete_pairs (λ n. n == t1) m.pairs v.distinct;
  }
  | inr (t2, mapped) ↦ record {
    forward = λ a b h. ground (arith, v.forward a b, v.forward t1 t2, v.backward a t2);
    backward = λ a b h. ground (arith, v.backward a b, v.forward t1 t2);
    listed = λ a. ground (arith, v.listed a, find_pair-delete_pairs (λ n. n == t1) m.pairs a);
    distinct = Distinct-delete_pairs (λ n. n == t1) m.pairs v.distinct;
  }
]

-- After `Remove(t1)` node `t1` has no partner and every other node keeps its own; the listed
-- sources are those from before without `t1`, in the same order; the mapping stays one to one.
pub remove_lem :
    (m : Mapping) (t1 : Node)
    → IsBijection m
    → (m' : Mapping) × (remove (some m) (some t1) ≡ some m')
      × IsBijection m'
      × ((a : Node) → get (some m') (some a) ≡ (if a == t1 then none else get (some m) (some a)))
      × (sources m'.pairs ≡ discard (λ n. n == t1) (sources m.pairs))
unfolding remove get
remove_lem m t1 v = (
  remove_node m t1,
  refl,
  remove_node-IsBijection m t1 v,
  λ a. unfold remove_node in refl,
  unfold remove_node in sources-delete_pairs (λ n. n == t1) m.pairs,
)

-- Removing the nodes one by one.
pub remove_each : List Node → Mapping → Mapping
remove_each [] m = m
remove_each (n ∷ ns) m = remove_each ns (remove_node m n)

delete_pairs_twice :
    (f g : Node → Bool) (ps : List MappingPair)
    → delete_pairs f (delete_pairs g ps) ≡ delete_pairs (λ n. if g n then true else f n) ps
unfolding delete_pairs
delete_pairs_twice f g [] = refl
delete_pairs_twice f g (p ∷ ps) = ground (arith, delete_pairs_twice f g ps)

delete_pairs_nobody : (ps : List MappingPair) → delete_pairs (λ _. false) ps ≡ ps
unfolding delete_pairs
delete_pairs_nobody [] = refl
delete_pairs_nobody (p ∷ ps) = ap (◌∷◌ p) (delete_pairs_nobody ps)

-- The links do not depend on `Pairs`, which the one-by-one removal shrinks on the way.
with_pairs : Mapping → List MappingPair → Mapping
with_pairs m ps = record m { pairs = ps }

remove_links-with_pairs :
    (ns : List Node) (m : Mapping) (ps : List MappingPair)
    → remove_links ns (with_pairs m ps) ≡ with_pairs (remove_links ns m) ps
unfolding with_pairs remove_links
remove_links-with_pairs [] m ps = refl
remove_links-with_pairs (n ∷ ns) m ps = remove_links-with_pairs ns _ ps

remove_each-eq-links :
    (ns : List Node) (m : Mapping)
    → remove_each ns m ≡ with_pairs (remove_links ns m) (delete_pairs (contains ns) m.pairs)
unfolding remove_each remove_links contains remove_node with_pairs
remove_each-eq-links [] m = ap (with_pairs m) (sym (delete_pairs_nobody m.pairs))
remove_each-eq-links (n ∷ ns) m =
    remove_each-eq-links ns (remove_node m n)
    ∙ ap₂ with_pairs
        (remove_links-with_pairs ns
          (record m {
            src = delete m.src n;
            dst = elim (m.src n) [ none ↦ m.dst | some t2 ↦ delete m.dst t2 ];
          })
          (delete_pairs (λ a. a == n) m.pairs))
        (delete_pairs_twice (contains ns) (λ a. a == n) m.pairs)

remove_links-pairs : (ns : List Node) (m : Mapping) → (remove_links ns m).pairs ≡ m.pairs
unfolding remove_links
remove_links-pairs [] m = refl
remove_links-pairs (n ∷ ns) m = remove_links-pairs ns _

-- `RemoveSet` is `Remove` of every node of the set, in whatever order Go's `range` yields them.
pub remove_set-eq-remove_each : (m : Mapping) (ns : List Node) → remove_set m ns ≡ remove_each ns m
unfolding remove_set with_pairs
remove_set-eq-remove_each m [] = unfold remove_each in refl
remove_set-eq-remove_each m (n ∷ ns) =
    ap (λ ps. with_pairs (remove_links (n ∷ ns) m) (delete_pairs (contains (n ∷ ns)) ps))
      (remove_links-pairs (n ∷ ns) m)
    ∙ sym (remove_each-eq-links (n ∷ ns) m)

remove_each-IsBijection :
    (ns : List Node) (m : Mapping) → IsBijection m → IsBijection (remove_each ns m)
unfolding remove_each
remove_each-IsBijection [] m v = v
remove_each-IsBijection (n ∷ ns) m v =
    remove_each-IsBijection ns (remove_node m n) (remove_node-IsBijection m n v)

remove_each-src :
    (ns : List Node) (m : Mapping) (a : Node)
    → (remove_each ns m).src a ≡ (if contains ns a then none else m.src a)
unfolding remove_each contains remove_node
remove_each-src [] m a = refl
remove_each-src (n ∷ ns) m a = ground (arith, remove_each-src ns (remove_node m n) a)

-- `RemoveSet` keeps the mapping one to one.
pub remove_set-IsBijection :
    (m : Mapping) (ns : List Node) → IsBijection m → IsBijection (remove_set m ns)
remove_set-IsBijection m ns v = rw (remove_set-eq-remove_each m ns) (remove_each-IsBijection ns m v)

-- After `RemoveSet` the nodes of the set have no partner and all others keep theirs.
pub get-remove_set :
    (m : Mapping) (ns : List Node) (a : Node)
    → get (some (remove_set m ns)) (some a)
      ≡ (if contains ns a then none else get (some m) (some a))
unfolding get
get-remove_set m ns a = ap (λ x. x.src a) (remove_set-eq-remove_each m ns) ∙ remove_each-src ns m a
