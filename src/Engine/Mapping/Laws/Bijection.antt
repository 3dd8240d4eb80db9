-- ===== src/Engine/Mapping/Laws/Bijection.antt =====
-- The two maps of a mapping are inverse to one another and `Pairs` lists exactly their content.
use diffmantic.Base.{
  false, ◌≡◌, ◌≢◌, refl, none, some, List, arith, ◌==◌, if◌then◌else◌, inl, inr, Bool-cases,
  Option-cases, ◌∙◌,
}
use diffmantic.Engine.Mapping.{
  Node, Mapping, MappingPair, put, delete, new_mapping, replace_dst, is_mapped_to, evict,
  append_pair, attach, add_nodes,
}
use diffmantic.Engine.Mapping.Laws.Pairs.{
  find_pair, Distinct, find_pair-delete_pairs, Distinct-delete_pairs, find_pair-append,
  Distinct-append, replace_dst_total, find_pair-replace_dst, Distinct-replace_dst,
}

pub record IsBijection (m : Mapping) : Type 0 where
  pub forward : (a b : Node) → m.src a ≡ some b → m.dst b ≡ some a
  pub backward : (a b : Node) → m.dst b ≡ some a → m.src a ≡ some b
  pub listed : (a : Node) → find_pair m.pairs a ≡ m.src a
  pub distinct : Distinct m.pairs

-- What `evict` leaves behind for `attach`: nobody claims `t2` any more, though `dst` may still
-- hold the stale entry that `attach` overwrites.
pub record IsReady (m : Mapping) (t2 : Node) : Type 0 where
  pub forward : (a b : Node) → m.src a ≡ some b → m.dst b ≡ some a
  pub backward : (a b : Node) → b ≢ t2 → m.dst b ≡ some a → m.src a ≡ some b
  pub free : (a : Node) → m.src a ≢ some t2
  pub listed : (a : Node) → find_pair m.pairs a ≡ m.src a
  pub distinct : Distinct m.pairs

pub evict-IsReady :
    (m : Mapping) (t1 t2 : Node)
    → IsBijection m
    → is_mapped_to m t1 t2 ≡ false
    → IsReady (evict m t1 t2) t2
unfolding evict is_mapped_to
evict-IsReady m t1 t2 v h = elim (Option-cases (m.dst t2)) [
  | inl unclaimed ↦ record {
    forward = λ a b e. ground (arith, v.forward a b);
    backward = λ a b ne e. ground (arith, v.backward a b);
    free = λ a e. ground (arith, v.forward a t2);
    listed = λ a. ground (arith, v.listed a);
    distinct = ground (arith, v.distinct);
  }
  | inr (old, claimed) ↦ record {
    forward = λ a b e. ground (arith, v.forward a b);
    backward = λ a b ne e. ground (arith, v.backward a b, v.backward old t2);
    free = λ a e. ground (arith, v.forward a t2, v.backward old t2);
    listed = λ a. ground (arith, v.listed a, find_pair-delete_pairs (λ n. n == old) m.pairs a);
    distinct = ground (arith, v.distinct, Distinct-delete_pairs (λ n. n == old) m.pairs);
  }
]

module _ (m : Mapping) (t1 t2 : Node) (r : IsReady m t2) where
  -- With no destination for `t1` the pair is appended.
  attach_new : m.src t1 ≡ none → attach m t1 t2 ≡ append_pair m t1 t2
  unfolding attach
  attach_new e = ground arith

  attach_new-IsBijection : m.src t1 ≡ none → IsBijection (append_pair m t1 t2)
  unfolding append_pair
  attach_new-IsBijection e = record {
    forward = λ a b h. ground (arith, r.forward a b, r.free a);
    backward = λ a b h. ground (arith, r.backward a b);
    listed =
        λ a. ground (arith, r.listed a, find_pair-append m.pairs (record { from = t1; to = t2 }) a);
    distinct =
        Distinct-append m.pairs (record { from = t1; to = t2 }) r.distinct
          (ground (arith, r.listed t1));
  }

  -- The mapping that `attach` returns where it overwrites `old` by `t2` in place.
  replaced : Node → List MappingPair → Mapping
  replaced old qs = record { src = put m.src t1 t2; dst = put (delete m.dst old) t2 t1; pairs = qs }

  attach_old :
      (old : Node) (qs : List MappingPair)
      → m.src t1 ≡ some old
      → replace_dst t1 t2 m.pairs ≡ some qs
      → attach m t1 t2 ≡ replaced old qs
  unfolding attach replaced
  attach_old old qs e found = ground arith

  attach_old-IsBijection :
      (old : Node) (qs : List MappingPair)
      → m.src t1 ≡ some old
      → replace_dst t1 t2 m.pairs ≡ some qs
      → IsBijection (replaced old qs)
  unfolding replaced
  attach_old-IsBijection old qs e found = record {
    forward = λ a b h. ground (arith, r.forward a b, r.forward t1 old, r.free a);
    backward = λ a b h. ground (arith, r.backward a b, r.forward t1 old);
    listed = λ a. ground (arith, r.listed a, find_pair-replace_dst t1 t2 m.pairs qs a found);
    distinct = Distinct-replace_dst t1 t2 m.pairs qs found r.distinct;
  }

  attach-IsBijection : IsBijection (attach m t1 t2)
  attach-IsBijection = elim (Option-cases (m.src t1)) [
    | inl e ↦ rw (attach_new e) (attach_new-IsBijection e)
    | inr (old, e) ↦
        let (qs, found) = replace_dst_total t1 t2 old m.pairs (r.listed t1 ∙ e) in
        rw (attach_old old qs e found) (attach_old-IsBijection old qs e found)
  ]

  attach-src : (a : Node) → (attach m t1 t2).src a ≡ put m.src t1 t2 a
  unfolding append_pair replaced
  attach-src a = elim (Option-cases (m.src t1)) [
    | inl e ↦ rw (attach_new e) refl
    | inr (old, e) ↦
        let (qs, found) = replace_dst_total t1 t2 old m.pairs (r.listed t1 ∙ e) in
        rw (attach_old old qs e found) refl
  ]

pub add_nodes-IsBijection :
    (m : Mapping) (t1 t2 : Node) → IsBijection m → IsBijection (add_nodes m t1 t2)
unfolding add_nodes
add_nodes-IsBijection m t1 t2 v = elim (Bool-cases (is_mapped_to m t1 t2)) [
  | inl same ↦ rw same v
  | inr new ↦ rw new (attach-IsBijection (evict m t1 t2) t1 t2 (evict-IsReady m t1 t2 v new))
]

pub evict-src :
    (m : Mapping) (t1 t2 a : Node)
    → IsBijection m
    → is_mapped_to m t1 t2 ≡ false
    → (evict m t1 t2).src a
      ≡ elim (m.src a) [ none ↦ none | some b ↦ if b == t2 then none else some b ]
unfolding evict is_mapped_to
evict-src m t1 t2 a v h = elim (Option-cases (m.dst t2)) [
  | inl free ↦ ground (arith, v.forward a t2)
  | inr (old, taken) ↦ ground (arith, v.backward old t2, v.forward a t2)
]

pub add_nodes-src :
    (m : Mapping) (t1 t2 a : Node)
    → IsBijection m
    → (add_nodes m t1 t2).src a ≡ (
        if a == t1
        then some t2
        else elim (m.src a) [ none ↦ none | some b ↦ if b == t2 then none else some b ])
unfolding add_nodes
add_nodes-src m t1 t2 a v = elim (Bool-cases (is_mapped_to m t1 t2)) [
  | inl same ↦ rw same (unfold is_mapped_to in ground (arith, v.forward t1 t2, v.forward a t2))
  | inr new ↦ rw new (
      ground (
        arith,
        attach-src (evict m t1 t2) t1 t2 (evict-IsReady m t1 t2 v new) a,
        evict-src m t1 t2 a v new,
      ))
]

pub new_mapping-IsBijection : IsBijection new_mapping
unfolding new_mapping find_pair
new_mapping-IsBijection = record {
  forward = λ a b h. cc;
  backward = λ a b h. cc;
  listed = λ a. refl;
  distinct = tt;
}
