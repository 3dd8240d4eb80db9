-- ===== src/Engine/Mapping/Laws/Pairs.antt =====
-- How deleting, overwriting and appending change what `Pairs` lists.
use diffmantic.Base.{
  Bool, false, ◌≡◌, refl, Option, none, some, List, [], ◌∷◌, ◌++◌, arith, ◌==◌, if◌then◌else◌, map,
  ap, inl, inr, Bool-cases, Option-cases,
}
use diffmantic.Engine.Mapping.{Node, MappingPair, delete_pairs, replace_dst}

-- The destination that the first pair of `a` lists.
unfoldable pub find_pair : List MappingPair → Node → Option Node
find_pair [] a = none
find_pair (p ∷ ps) a = let rest = find_pair ps a in if p.from == a then some p.to else rest

-- No source node is listed twice.
abbrev pub Distinct : List MappingPair → Type 0
Distinct [] = Unit {0}
Distinct (p ∷ ps) = (find_pair ps p.from ≡ none) × Distinct ps

abbrev pub sources : List MappingPair → List Node
sources = map (λ p. p.from)

pub find_pair-delete_pairs :
    (drop? : Node → Bool) (ps : List MappingPair) (a : Node)
    → find_pair (delete_pairs drop? ps) a ≡ (if drop? a then none else find_pair ps a)
unfolding find_pair delete_pairs
find_pair-delete_pairs drop? [] a = ground arith
find_pair-delete_pairs drop? (p ∷ ps) a = ground (arith, find_pair-delete_pairs drop? ps a)

pub Distinct-delete_pairs :
    (drop? : Node → Bool) (ps : List MappingPair) → Distinct ps → Distinct (delete_pairs drop? ps)
unfolding delete_pairs
Distinct-delete_pairs drop? [] d = tt
Distinct-delete_pairs drop? (p ∷ ps) d =
    ground (arith, find_pair-delete_pairs drop? ps p.from, Distinct-delete_pairs drop? ps d.1)

pub find_pair-append :
    (ps : List MappingPair) (q : MappingPair) (a : Node)
    → find_pair (ps ++ q ∷ []) a
      ≡ elim (find_pair ps a) [ none ↦ if q.from == a then some q.to else none | some b ↦ some b ]
unfolding find_pair
find_pair-append [] q a = refl
find_pair-append (p ∷ ps) q a = ground (arith, find_pair-append ps q a)

pub Distinct-append :
    (ps : List MappingPair) (q : MappingPair)
    → Distinct ps
    → find_pair ps q.from ≡ none
    → Distinct (ps ++ q ∷ [])
unfolding find_pair
Distinct-append [] q d h = (refl, tt)
Distinct-append (p ∷ ps) q d h =
    ground (arith, find_pair-append ps q p.from, Distinct-append ps q d.1)

-- The overwriting loop finds a pair exactly when one is listed.
pub replace_dst_total :
    (t1 t2 b : Node) (ps : List MappingPair)
    → find_pair ps t1 ≡ some b
    → (qs : List MappingPair) × (replace_dst t1 t2 ps ≡ some qs)
unfolding find_pair replace_dst
replace_dst_total t1 t2 b [] h = absurd (cc)
replace_dst_total t1 t2 b (p ∷ ps) h = elim (Bool-cases (p.from == t1)) [
  | inl here ↦ (record p { to = t2 } ∷ ps, ground arith)
  | inr later ↦
      let (qs, found) = replace_dst_total t1 t2 b ps (ground arith) in (p ∷ qs, ground arith)
]

pub find_pair-replace_dst :
    (t1 t2 : Node) (ps qs : List MappingPair) (a : Node)
    → replace_dst t1 t2 ps ≡ some qs
    → find_pair qs a ≡ (if t1 == a then some t2 else find_pair ps a)
unfolding find_pair replace_dst
find_pair-replace_dst t1 t2 [] qs a h = absurd (cc)
find_pair-replace_dst t1 t2 (p ∷ ps) qs a h = elim (Option-cases (replace_dst t1 t2 ps)) [
  | inl missing ↦ ground arith
  | inr (rs, found) ↦ ground (arith, find_pair-replace_dst t1 t2 ps rs a found)
]

pub sources-replace_dst :
    (t1 t2 : Node) (ps qs : List MappingPair)
    → replace_dst t1 t2 ps ≡ some qs
    → sources qs ≡ sources ps
unfolding replace_dst
sources-replace_dst t1 t2 [] qs h = absurd (cc)
sources-replace_dst t1 t2 (p ∷ ps) qs h = elim (Option-cases (replace_dst t1 t2 ps)) [
  | inl missing ↦ ground arith
  | inr (rs, found) ↦ ground (arith, sources-replace_dst t1 t2 ps rs found)
]

pub Distinct-replace_dst :
    (t1 t2 : Node) (ps qs : List MappingPair)
    → replace_dst t1 t2 ps ≡ some qs
    → Distinct ps
    → Distinct qs
unfolding find_pair replace_dst
Distinct-replace_dst t1 t2 [] qs h d = absurd (cc)
Distinct-replace_dst t1 t2 (p ∷ ps) qs h d = elim (Option-cases (replace_dst t1 t2 ps)) [
  | inl missing ↦ ground arith
  | inr (rs, found) ↦ ground (
    arith,
    find_pair-replace_dst t1 t2 ps rs p.from found,
    Distinct-replace_dst t1 t2 ps rs found d.1,
  )
]

-- The list without the nodes that pass a test.
unfoldable pub discard : (Node → Bool) → List Node → List Node
discard drop? [] = []
discard drop? (n ∷ ns) = let rest = discard drop? ns in if drop? n then rest else n ∷ rest

pub sources-delete_pairs :
    (drop? : Node → Bool) (ps : List MappingPair)
    → sources (delete_pairs drop? ps) ≡ discard drop? (sources ps)
unfolding delete_pairs discard
sources-delete_pairs drop? [] = refl
sources-delete_pairs drop? (p ∷ ps) = ground (arith, sources-delete_pairs drop? ps)

pub sources-append :
    (ps : List MappingPair) (q : MappingPair) → sources (ps ++ q ∷ []) ≡ sources ps ++ q.from ∷ []
sources-append [] q = refl
sources-append (p ∷ ps) q = ap (◌∷◌ p.from) (sources-append ps q)

pub discard_none :
    (f : Node → Bool) (ns : List Node) → ((a : Node) → f a ≡ false) → discard f ns ≡ ns
unfolding discard
discard_none f [] h = refl
discard_none f (n ∷ ns) h = ground (arith, h n, discard_none f ns h)

pub discard_congr :
    (f g : Node → Bool) (ns : List Node) → ((a : Node) → f a ≡ g a) → discard f ns ≡ discard g ns
unfolding discard
discard_congr f g [] h = refl
discard_congr f g (n ∷ ns) h = ground (arith, h n, discard_congr f g ns h)
