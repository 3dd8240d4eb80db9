-- ===== src/Engine/Mapping/Laws/Adding.antt =====
-- `Add` as a client sees it.
use diffmantic.Base.{
  Bool, true, false, not, ◌&&◌, ◌≡◌, Option, none, some, [], ◌∷◌, ◌++◌, arith, ◌==◌, if◌then◌else◌,
  inl, inr, Bool-cases, Option-cases, ◌∙◌,
}
use diffmantic.Engine.Mapping.{
  Node, Mapping, is_mapped_to, evict, append_pair, attach, add_nodes, add, get, has,
}
use diffmantic.Engine.Mapping.Laws.Pairs.{
  sources, sources-replace_dst, sources-append, sources-delete_pairs, replace_dst_total, discard,
  find_pair, discard_none, discard_congr,
}
use diffmantic.Engine.Mapping.Laws.Bijection.{
  IsBijection, add_nodes-IsBijection, add_nodes-src, evict-src, evict-IsReady,
}

-- `Add` keeps the mapping one to one, whichever of its arguments are nil.
pub add-IsBijection :
    (m : Mapping) (t1 t2 : Option Node) → IsBijection m → IsBijection (add m t1 t2)
unfolding add
add-IsBijection m (some t1) (some t2) v = add_nodes-IsBijection m t1 t2 v
add-IsBijection m (some t1) none v = v
add-IsBijection m none t2 v = v

-- After `Add(t1, t2)` node `t1` is mapped to `t2`, whoever else was mapped to `t2` is mapped to
-- nothing, and every other node keeps its partner.
pub get-add :
    (m : Mapping) (t1 t2 a : Node)
    → IsBijection m
    → get (some (add m (some t1) (some t2))) (some a) ≡ (
        if a == t1 then some t2 else elim (get (some m) (some a)) [
          | none ↦ none
          | some b ↦ if b == t2 then none else some b
        ])
unfolding add get
get-add m t1 t2 a v = add_nodes-src m t1 t2 a v

-- `n` is mapped to `t2` and is not `t1`: the node that `Add(t1, t2)` evicts.
pub loses_claim : Mapping → Node → Node → Node → Bool
unfolding is_mapped_to
loses_claim m t1 t2 n = not (n == t1) && is_mapped_to m n t2

module _ (m : Mapping) (t1 t2 : Node) (v : IsBijection m) where
  nobody_claims : m.dst t2 ≡ none → (n : Node) → loses_claim m t1 t2 n ≡ false
  unfolding loses_claim
  nobody_claims e n = elim (Option-cases (m.src n)) [
    | inl unmapped ↦ ground arith
    | inr (b, mapped) ↦ ground (arith, v.forward n b)
  ]

  owner_claims :
      (old n : Node) → m.dst t2 ≡ some old → loses_claim m t1 t2 n ≡ (not (n == t1) && n == old)
  unfolding loses_claim
  owner_claims old n e = elim (Option-cases (m.src n)) [
    | inl unmapped ↦ ground (arith, v.backward old t2)
    | inr (b, mapped) ↦ ground (arith, v.forward n b, v.backward old t2)
  ]

  sources-evict : sources (evict m t1 t2).pairs ≡ discard (loses_claim m t1 t2) (sources m.pairs)
  unfolding evict
  sources-evict = elim (Option-cases (m.dst t2)) [
    | inl e ↦ ground (arith, discard_none (loses_claim m t1 t2) (sources m.pairs) (nobody_claims e))
    | inr (old, e) ↦ elim (Bool-cases (old == t1)) [
      | inl same ↦ ground (
        arith,
        discard_none (loses_claim m t1 t2) (sources m.pairs)
            (λ n. ground (arith, owner_claims old n e)),
      )
      | inr other ↦ ground (
        arith,
        sources-delete_pairs (λ n. n == old) m.pairs,
        discard_congr (λ n. n == old) (loses_claim m t1 t2) (sources m.pairs)
            (λ n. ground (arith, owner_claims old n e)),
      )
    ]
  ]

-- A one-to-one mapping lists `t1` exactly when it has `t1`, so an appended pair is a new one.
sources-attach :
    (m : Mapping) (t1 t2 : Node)
    → ((a : Node) → find_pair m.pairs a ≡ m.src a)
    → sources (attach m t1 t2).pairs
      ≡ (if has m t1 then sources m.pairs else sources m.pairs ++ t1 ∷ [])
unfolding attach append_pair has
sources-attach m t1 t2 listed = elim (Option-cases (m.src t1)) [
  | inl e ↦ ground (arith, sources-append m.pairs (record { from = t1; to = t2 }))
  | inr (old, e) ↦
      let (qs, found) = replace_dst_total t1 t2 old m.pairs (listed t1 ∙ e) in
      ground (arith, sources-replace_dst t1 t2 m.pairs qs found)
]

has_of_mapped : (m : Mapping) (t1 t2 : Node) → is_mapped_to m t1 t2 ≡ true → has m t1 ≡ true
unfolding is_mapped_to has
has_of_mapped m t1 t2 h = ground arith

claims_of_mapped :
    (m : Mapping) (t1 t2 : Node) → IsBijection m → is_mapped_to m t1 t2 ≡ true → m.dst t2 ≡ some t1
unfolding is_mapped_to
claims_of_mapped m t1 t2 v h = elim (Option-cases (m.src t1)) [
  | inl unmapped ↦ ground arith
  | inr (b, mapped) ↦ ground (arith, v.forward t1 b mapped)
]

has-evict :
    (m : Mapping) (t1 t2 : Node)
    → IsBijection m
    → is_mapped_to m t1 t2 ≡ false
    → has (evict m t1 t2) t1 ≡ has m t1
unfolding is_mapped_to has
has-evict m t1 t2 v h = elim (Option-cases (m.src t1)) [
  | inl unmapped ↦ ground (arith, evict-src m t1 t2 t1 v h)
  | inr (b, mapped) ↦ ground (arith, evict-src m t1 t2 t1 v h)
]

-- `Add(t1, t2)` keeps the order of the pairs: the listed source nodes are those from before less
-- the one that loses its claim to `t2`, with `t1` in its old place if it was mapped and at the end
-- if it was not.
pub sources-add :
    (m : Mapping) (t1 t2 : Node)
    → IsBijection m
    → (let kept = discard (loses_claim m t1 t2) (sources m.pairs) in
        sources (add m (some t1) (some t2)).pairs ≡ (if has m t1 then kept else kept ++ t1 ∷ []))
unfolding add add_nodes
sources-add m t1 t2 v = elim (Bool-cases (is_mapped_to m t1 t2)) [
  | inl same ↦ ground (
    arith,
    has_of_mapped m t1 t2 same,
    discard_none (loses_claim m t1 t2) (sources m.pairs)
        (λ n. ground (arith, owner_claims m t1 t2 v t1 n (claims_of_mapped m t1 t2 v same))),
  )
  | inr new ↦ ground (
    arith,
    sources-attach (evict m t1 t2) t1 t2 (evict-IsReady m t1 t2 v new).listed,
    sources-evict m t1 t2 v,
    has-evict m t1 t2 v new,
  )
]
