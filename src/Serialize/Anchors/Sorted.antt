-- ===== src/Serialize/Anchors/Sorted.antt =====
-- The sorted candidates: where the target lines rise, so do the source lines.
use diffmantic.Base.{
  ℕ, zero, suc, ◌≤◌, ◌<◌, ◌≡◌, arith, true, false, ◌&&◌, List, [], ◌∷◌, ◌==◌, length, get_or, ◌⊎◌,
  inl, inr, Bool-cases,
}
use diffmantic.Engine.LineDiff.Patience.{no_pair}
use diffmantic.Engine.LineDiff.Patience.Sequence.{RisesWith}
use diffmantic.Serialize.Grid.{Anchor}
use diffmantic.Serialize.Anchors.{precedes, insert_anchor, sort_anchors, compact}

abbrev pub Precedes : Anchor → Anchor → Type 0
Precedes a b = (a.i < b.i) ⊎ ((a.i ≡ b.i) × (b.j ≤ a.j))

abbrev pub AllAfter : Anchor → List Anchor → Type 0
AllAfter a [] = Unit {0}
AllAfter a (b ∷ bs) = Precedes a b × AllAfter a bs

abbrev pub IsSorted : List Anchor → Type 0
IsSorted [] = Unit {0}
IsSorted (a ∷ rest) = AllAfter a rest × IsSorted rest

-- Within `m` source and `n` target lines.
abbrev pub IsWithin : ℕ → ℕ → List Anchor → Type 0
IsWithin m n [] = Unit {0}
IsWithin m n (a ∷ rest) = (a.i < m) × (a.j < n) × IsWithin m n rest

precedes_yes : (a b : Anchor) → precedes a b ≡ true → Precedes a b
precedes_yes a b h = ground arith

precedes_no : (a b : Anchor) → precedes a b ≡ false → Precedes b a
precedes_no a b h = ground arith

Precedes-trans : (a b c : Anchor) → Precedes a b → Precedes b c → Precedes a c
Precedes-trans a b c h k = ground arith

AllAfter-trans : (a b : Anchor) (bs : List Anchor) → Precedes a b → AllAfter b bs → AllAfter a bs
AllAfter-trans a b [] h r = tt
AllAfter-trans a b (c ∷ bs) h (k, r) = (Precedes-trans a b c h k, AllAfter-trans a b bs h r)

AllAfter-insert_anchor :
    (c a : Anchor) (bs : List Anchor)
    → Precedes c a
    → AllAfter c bs
    → AllAfter c (insert_anchor a bs)
unfolding insert_anchor
AllAfter-insert_anchor c a [] h r = (h, tt)
AllAfter-insert_anchor c a (b ∷ bs) h (k, r) = elim (Bool-cases (precedes a b)) [
  | inl first ↦ rw first (h, (k, r))
  | inr later ↦ rw later (k, AllAfter-insert_anchor c a bs h r)
]

insert_anchor-IsSorted :
    (a : Anchor) (bs : List Anchor) → IsSorted bs → IsSorted (insert_anchor a bs)
unfolding insert_anchor
insert_anchor-IsSorted a [] s = (tt, tt)
insert_anchor-IsSorted a (b ∷ bs) (r, s) = elim (Bool-cases (precedes a b)) [
  | inl first ↦
      let before = precedes_yes a b first in
      rw first ((before, AllAfter-trans a b bs before r), (r, s))
  | inr later ↦
      rw later
        (AllAfter-insert_anchor b a bs (precedes_no a b later) r, insert_anchor-IsSorted a bs s)
]

insert_anchor-IsWithin :
    (m n : ℕ) (a : Anchor) (bs : List Anchor)
    → a.i < m
    → a.j < n
    → IsWithin m n bs
    → IsWithin m n (insert_anchor a bs)
unfolding insert_anchor
insert_anchor-IsWithin m n a [] h k w = (h, k, tt)
insert_anchor-IsWithin m n a (b ∷ bs) h k (p, q, w) = elim (Bool-cases (precedes a b)) [
  | inl first ↦ rw first (h, k, (p, q, w))
  | inr later ↦ rw later (p, q, insert_anchor-IsWithin m n a bs h k w)
]

pub sort_anchors-IsSorted : (xs : List Anchor) → IsSorted (sort_anchors xs)
unfolding sort_anchors
sort_anchors-IsSorted [] = tt
sort_anchors-IsSorted (a ∷ xs) =
    insert_anchor-IsSorted a (sort_anchors xs) (sort_anchors-IsSorted xs)

pub sort_anchors-IsWithin :
    (m n : ℕ) (xs : List Anchor) → IsWithin m n xs → IsWithin m n (sort_anchors xs)
unfolding sort_anchors
sort_anchors-IsWithin m n [] w = tt
sort_anchors-IsWithin m n (a ∷ xs) (p, q, w) =
    insert_anchor-IsWithin m n a (sort_anchors xs) p q (sort_anchors-IsWithin m n xs w)

AllAfter-compact : (c : Anchor) (xs : List Anchor) → AllAfter c xs → AllAfter c (compact xs)
unfolding compact
AllAfter-compact c [] r = tt
AllAfter-compact c (a ∷ []) r = r
AllAfter-compact c (a ∷ (b ∷ xs)) (h, r) = elim (Bool-cases (a.i == b.i && a.j == b.j)) [
  | inl same ↦ rw same (AllAfter-compact c (b ∷ xs) r)
  | inr other ↦ rw other (h, AllAfter-compact c (b ∷ xs) r)
]

pub compact-IsSorted : (xs : List Anchor) → IsSorted xs → IsSorted (compact xs)
unfolding compact
compact-IsSorted [] s = tt
compact-IsSorted (a ∷ []) s = s
compact-IsSorted (a ∷ (b ∷ xs)) (r, s) = elim (Bool-cases (a.i == b.i && a.j == b.j)) [
  | inl same ↦ rw same (compact-IsSorted (b ∷ xs) s)
  | inr other ↦ rw other (AllAfter-compact a (b ∷ xs) r, compact-IsSorted (b ∷ xs) s)
]

pub compact-IsWithin : (m n : ℕ) (xs : List Anchor) → IsWithin m n xs → IsWithin m n (compact xs)
unfolding compact
compact-IsWithin m n [] w = tt
compact-IsWithin m n (a ∷ []) w = w
compact-IsWithin m n (a ∷ (b ∷ xs)) (p, q, w) = elim (Bool-cases (a.i == b.i && a.j == b.j)) [
  | inl same ↦ rw same (compact-IsWithin m n (b ∷ xs) w)
  | inr other ↦ rw other (p, q, compact-IsWithin m n (b ∷ xs) w)
]

AllAfter-at :
    (a : Anchor) (xs : List Anchor) (k : ℕ)
    → AllAfter a xs
    → k < length xs
    → Precedes a (get_or xs k no_pair)
AllAfter-at a [] k r h = absurd (omega arith)
AllAfter-at a (b ∷ xs) zero (p, r) h = p
AllAfter-at a (b ∷ xs) (suc k) (p, r) h = AllAfter-at a xs k r (omega arith)

pub IsSorted-RisesWith : (xs : List Anchor) → IsSorted xs → RisesWith xs
IsSorted-RisesWith [] s k k' h inside less = absurd (omega arith)
IsSorted-RisesWith (a ∷ xs) (r, s) k zero h inside less = absurd (omega arith)
IsSorted-RisesWith (a ∷ xs) (r, s) zero (suc k') h inside less =
    let p = AllAfter-at a xs k' r (omega arith) in ground arith
IsSorted-RisesWith (a ∷ xs) (r, s) (suc k) (suc k') h inside less =
    IsSorted-RisesWith xs s k k' (omega arith) (omega arith) less
