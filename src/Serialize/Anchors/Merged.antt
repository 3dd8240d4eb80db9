-- ===== src/Serialize/Anchors/Merged.antt =====
-- The merge of two tiers of anchors rises and keeps the first tier.
use diffmantic.Base.{
  ℕ, ◌+◌, ◌≤◌, ◌≡◌, refl, arith, true, ◌&&◌, List, [], ◌∷◌, ◌++◌, ltb, leb, ◌==◌, length, ◌⊎◌, inl,
  inr, Bool-cases, ==→eq,
}
use diffmantic.Serialize.Grid.{Anchor}
use diffmantic.Serialize.Grid.Listed.{RisingAnchors, RisingAnchors-end}
use diffmantic.Serialize.Anchors.{merge_before, merge_after, merge_loop, merge_anchors}
use diffmantic.Serialize.Anchors.Sorted.{IsWithin}

-- The anchors `xs` stand in `ys`, in the same order.
abbrev pub IsKept : List Anchor → List Anchor → Type 0
IsKept [] ys = Unit {0}
IsKept (x ∷ xs) [] = ⊥
IsKept (x ∷ xs) (y ∷ ys) = ((x ≡ y) × IsKept xs ys) ⊎ IsKept (x ∷ xs) ys

IsKept-append : (xs ys zs : List Anchor) → IsKept xs zs → IsKept xs (ys ++ zs)
IsKept-append [] ys zs k = tt
IsKept-append (x ∷ xs) [] zs k = k
IsKept-append (x ∷ xs) (y ∷ ys) zs k = inr (IsKept-append (x ∷ xs) ys zs k)

empty-IsKept : (xs ys : List Anchor) → length xs ≡ 0 → IsKept xs ys
empty-IsKept [] ys h = tt
empty-IsKept (x ∷ xs) ys h = absurd (omega arith)

IsKept-self : (xs : List Anchor) → IsKept xs xs
IsKept-self [] = tt
IsKept-self (x ∷ xs) = inl (refl, IsKept-self xs)

pub RisingAnchors-IsWithin :
    (s m d n : ℕ) (xs : List Anchor) → RisingAnchors s m d n xs → IsWithin m n xs
RisingAnchors-IsWithin s m d n [] r = tt
RisingAnchors-IsWithin s m d n (a ∷ xs) (h, k, r) =
    let (p, q) = RisingAnchors-end (a.i + 1) m (a.j + 1) n xs r in
    (omega arith, omega arith, RisingAnchors-IsWithin (a.i + 1) m (a.j + 1) n xs r)

module _ (m n : ℕ) where
  merge_after-RisingAnchors :
      (secondary : List Anchor) (next_src next_dst : ℕ)
      → next_src ≤ m
      → next_dst ≤ n
      → IsWithin m n secondary
      → RisingAnchors next_src m next_dst n (merge_after secondary next_src next_dst)
  unfolding merge_after
  merge_after-RisingAnchors [] next_src next_dst h k w = (h, k)
  merge_after-RisingAnchors (s ∷ secondary) next_src next_dst h k (p, q, w) =
      elim (Bool-cases (leb next_src s.i && leb next_dst s.j)) [
        | inl fits ↦ rw fits (
          ground arith,
          ground arith,
          merge_after-RisingAnchors secondary (s.i + 1) (s.j + 1) (omega arith) (omega arith) w,
        )
        | inr behind ↦ rw behind (merge_after-RisingAnchors secondary next_src next_dst h k w)
      ]

  -- What stands before `p` fits before it, and before whatever fits behind the new lines.
  IsBefore : Anchor → ℕ → ℕ → List Anchor × List Anchor × ℕ × ℕ → Type 0
  IsBefore p next_src next_dst (taken, left, src, dst) =
      (src ≤ p.i)
      × (dst ≤ p.j)
      × IsWithin m n left
      × ((rest : List Anchor)
          → RisingAnchors src m dst n rest
          → RisingAnchors next_src m next_dst n (taken ++ rest))

  merge_before-IsBefore :
      (p : Anchor) (secondary : List Anchor) (next_src next_dst : ℕ)
      → next_src ≤ p.i
      → next_dst ≤ p.j
      → IsWithin m n secondary
      → IsBefore p next_src next_dst (merge_before p secondary next_src next_dst)
  unfolding merge_before IsBefore
  merge_before-IsBefore p [] next_src next_dst h k w = (h, k, tt, λ rest r. r)
  merge_before-IsBefore p (s ∷ secondary) next_src next_dst h k (a, b, w) =
      elim (Bool-cases (ltb s.i p.i)) [
        | inr behind ↦ rw behind (h, k, (a, b, w), λ rest r. r)
        | inl before ↦ elim (Bool-cases (leb next_src s.i && leb next_dst s.j && ltb s.j p.j)) [
          | inr unfit ↦
              rw (before, unfit) (merge_before-IsBefore p secondary next_src next_dst h k w)
          | inl fits ↦
              let (x, y, z, f) =
                merge_before-IsBefore p secondary (s.i + 1) (s.j + 1) (ground arith) (ground arith)
                  w in
              rw (before, fits) (x, y, z, λ rest r. (ground arith, ground arith, f rest r))
        ]
      ]

  merge_loop-RisingAnchors :
      (primary secondary : List Anchor) (next_src next_dst : ℕ)
      → RisingAnchors next_src m next_dst n primary
      → IsWithin m n secondary
      → RisingAnchors next_src m next_dst n (merge_loop primary secondary next_src next_dst)
        × IsKept primary (merge_loop primary secondary next_src next_dst)
  unfolding merge_loop IsBefore
  merge_loop-RisingAnchors [] secondary next_src next_dst (h, k) w =
      (merge_after-RisingAnchors secondary next_src next_dst h k w, tt)
  merge_loop-RisingAnchors (p ∷ primary) secondary next_src next_dst (h, k, r) w =
      let (before, left, src, dst) = merge_before p secondary next_src next_dst in
      let (x, y, z, f) = merge_before-IsBefore p secondary next_src next_dst h k w in
      let fits : leb src p.i && leb dst p.j ≡ true = ground arith in
      let (rising, kept) = merge_loop-RisingAnchors primary left (p.i + 1) (p.j + 1) r z in
      rw fits (
        f (p ∷ merge_loop primary left (p.i + 1) (p.j + 1)) (x, y, rising),
        IsKept-append (p ∷ primary) before _ (inl (refl, kept)),
      )

-- For two tiers of anchors that rise on both sides within `m` source and `n` target lines:
-- `mergeAnchors` returns anchors that rise within them, and every anchor of the first tier is one.
pub merge_anchors-RisingAnchors :
    (m n : ℕ) (primary secondary : List Anchor)
    → RisingAnchors 0 m 0 n primary
    → RisingAnchors 0 m 0 n secondary
    → RisingAnchors 0 m 0 n (merge_anchors primary secondary)
      × IsKept primary (merge_anchors primary secondary)
unfolding merge_anchors
merge_anchors-RisingAnchors m n primary secondary p s = elim (Bool-cases (length primary == 0)) [
  | inl no_primary ↦ rw no_primary (s, empty-IsKept primary secondary (==→eq _ 0 no_primary))
  | inr some_primary ↦ rw some_primary (elim (Bool-cases (length secondary == 0)) [
    | inl no_secondary ↦ rw no_secondary (p, IsKept-self primary)
    | inr both ↦ rw both (
        merge_loop-RisingAnchors m n primary secondary 0 0 p
          (RisingAnchors-IsWithin 0 m 0 n secondary s))
  ])
]
