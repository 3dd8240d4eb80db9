-- ===== src/Engine/Mapping/Examples.antt =====
-- A mapping in which `Add` evicts and overwrites, and the mapping's theorems at it.
use diffmantic.Base.{◌≡◌, refl, none, some, [], ◌∷◌, ◌++◌, ◌==◌, if◌then◌else◌}
use diffmantic.Engine.Mapping.{
  Node, Mapping, new_mapping, add, get, has, remove, remove_set, contains,
}
use diffmantic.Engine.Mapping.Laws.Pairs.{sources, discard}
use diffmantic.Engine.Mapping.Laws.Bijection.{IsBijection, new_mapping-IsBijection}
use diffmantic.Engine.Mapping.Laws.Adding.{add-IsBijection, get-add, sources-add, loses_claim}
use diffmantic.Engine.Mapping.Laws.Removing.{
  remove_lem, remove_set-eq-remove_each, remove_each, remove_set-IsBijection, get-remove_set,
}

-- 1 ↦ 11, 2 ↦ 12, 3 ↦ 13
abbrev three : Mapping
three = add (add (add new_mapping (some 1) (some 11)) (some 2) (some 12)) (some 3) (some 13)

three-IsBijection : IsBijection three
three-IsBijection =
    add-IsBijection (add (add new_mapping (some 1) (some 11)) (some 2) (some 12)) (some 3) (some 13)
      (add-IsBijection (add new_mapping (some 1) (some 11)) (some 2) (some 12)
        (add-IsBijection new_mapping (some 1) (some 11) new_mapping-IsBijection))

-- `Add(2, 13)` evicts node 3 and overwrites the destination of node 2 in place.
evicts : sources (add three (some 2) (some 13)).pairs ≡ 1 ∷ 2 ∷ []
unfolding add new_mapping
evicts = refl

add-IsBijection_example : IsBijection (add three (some 2) (some 13))
add-IsBijection_example = add-IsBijection three (some 2) (some 13) three-IsBijection

get-add_example : get (some (add three (some 2) (some 13))) (some 3) ≡ (
    if 3 == 2 then some 13 else elim (get (some three) (some 3)) [
      | none ↦ none
      | some b ↦ if b == 13 then none else some b
    ])
get-add_example = get-add three 2 13 3 three-IsBijection

sources-add_example :
    (let kept = discard (loses_claim three 2 13) (sources three.pairs) in
      sources (add three (some 2) (some 13)).pairs ≡ (if has three 2 then kept else kept ++ 2 ∷ []))
sources-add_example = sources-add three 2 13 three-IsBijection

remove_lem_example :
    (m' : Mapping) × (remove (some three) (some 2) ≡ some m')
    × IsBijection m'
    × ((a : Node) → get (some m') (some a) ≡ (if a == 2 then none else get (some three) (some a)))
    × (sources m'.pairs ≡ discard (λ n. n == 2) (sources three.pairs))
remove_lem_example = remove_lem three 2 three-IsBijection

remove_set-eq-remove_each_example : remove_set three (3 ∷ 1 ∷ []) ≡ remove_each (3 ∷ 1 ∷ []) three
remove_set-eq-remove_each_example = remove_set-eq-remove_each three (3 ∷ 1 ∷ [])

remove_set-IsBijection_example : IsBijection (remove_set three (3 ∷ 1 ∷ []))
remove_set-IsBijection_example = remove_set-IsBijection three (3 ∷ 1 ∷ []) three-IsBijection

get-remove_set_example :
    get (some (remove_set three (3 ∷ 1 ∷ []))) (some 2)
    ≡ (if contains (3 ∷ 1 ∷ []) 2 then none else get (some three) (some 2))
get-remove_set_example = get-remove_set three (3 ∷ 1 ∷ []) 2
