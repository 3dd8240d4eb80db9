-- ===== src/Engine/SeqDiff/Alignment.antt =====
-- What `AlignWeighted` and `AlignUniform` promise their callers.
use diffmantic.Base.{
  ℕ, zero, suc, ◌+◌, ◌*◌, ◌≤◌, ◌≡◌, refl, Bool, true, false, ◌||◌, List, [], ◌∷◌, arith, leb,
  if◌then◌else◌, length, reverse, Bool-cases, inl, inr, ap,
}
use diffmantic.Engine.SeqDiff.{
  SeqScratch, ensure_dp, fill_rows, backtrack, align_weighted, align_uniform,
}
use diffmantic.Engine.SeqDiff.Optimum.{
  optimum, total, IsAlignment, total-le-optimum, total-reverse, reverse-IsAlignment,
}
use diffmantic.Engine.SeqDiff.Table.{table_lem}
use diffmantic.Engine.SeqDiff.Backtrack.{backtrack_lem, backtrack_same}

optimum_empty :
    (weight : ℕ → ℕ → ℕ) (n m : ℕ) → (leb n 0 || leb m 0) ≡ true → 0 ≡ optimum weight n m
unfolding optimum
optimum_empty weight zero m h = refl
optimum_empty weight (suc n) zero h = refl
optimum_empty weight (suc n) (suc m) h = absurd (ground arith)

module _ (s : SeqScratch) (n m : ℕ) (weight : ℕ → ℕ → ℕ) (tie : Bool) where
  abbrev filled : List ℕ
  filled = fill_rows m weight n 1 (ensure_dp s ((n + 1) * (m + 1))).dp

  align_nonempty :
      (leb n 0 || leb m 0) ≡ false
      → (align_weighted s n m weight tie).matches
        ≡ reverse (backtrack m weight filled tie (n + m) n m)
  unfolding align_weighted
  align_nonempty h = ground arith

  align_empty : (leb n 0 || leb m 0) ≡ true → (align_weighted s n m weight tie).matches ≡ []
  unfolding align_weighted
  align_empty h = ground arith

  matches_lem :
      IsAlignment weight 0 0 n m (align_weighted s n m weight tie).matches
      × (total weight (align_weighted s n m weight tie).matches ≡ optimum weight n m)
  matches_lem = elim (Bool-cases (leb n 0 || leb m 0)) [
    | inl empty ↦ rw (align_empty empty) (tt, optimum_empty weight n m empty)
    | inr nonempty ↦
        let (down, sum) =
          backtrack_lem n m weight filled (table_lem n m weight s) tie (n + m) n m (omega arith)
            (omega arith) (omega arith) in
        rw (align_nonempty nonempty)
          (reverse-IsAlignment weight n m _ down, rw (total-reverse weight) sum)
  ]

  -- `AlignWeighted` returns pairs of positive weight, within both sequences, whose indices rise
  -- strictly on both sides, and no such list of pairs has a larger total weight. This holds
  -- whatever the scratch memory held before, and with the tie-break or without.
  pub align_weighted_optimal :
      IsAlignment weight 0 0 n m (align_weighted s n m weight tie).matches
      × ((ps : List (ℕ × ℕ))
          → IsAlignment weight 0 0 n m ps
          → total weight ps ≤ total weight (align_weighted s n m weight tie).matches)
  align_weighted_optimal =
      let (rising, sum) = matches_lem in
      (
        rising,
        λ ps p. omega (arith, total-le-optimum weight 0 0 n m ps (omega arith) (omega arith) p),
      )

-- The matches do not depend on what the scratch memory held: an alignment with a used scratch
-- returns what one with a fresh scratch returns.
pub align_weighted_same :
    (s s' : SeqScratch) (n m : ℕ) (weight : ℕ → ℕ → ℕ) (tie : Bool)
    → (align_weighted s n m weight tie).matches ≡ (align_weighted s' n m weight tie).matches
align_weighted_same s s' n m weight tie = elim (Bool-cases (leb n 0 || leb m 0)) [
  | inl empty ↦ rw (align_empty s n m weight tie empty, align_empty s' n m weight tie empty)
  | inr nonempty ↦
      rw (align_nonempty s n m weight tie nonempty, align_nonempty s' n m weight tie nonempty)
        (ap reverse (
          backtrack_same n m weight _ _ (table_lem n m weight s) (table_lem n m weight s') tie
            (n + m) n m (omega arith) (omega arith)))
]

-- An alignment by an equality test.
abbrev pub equal_weight : (ℕ → ℕ → Bool) → ℕ → ℕ → ℕ
equal_weight eq i j = if eq i j then 1 else 0

total-equal_weight :
    (eq : ℕ → ℕ → Bool) (lo_a lo_b n m : ℕ) (ps : List (ℕ × ℕ))
    → IsAlignment (equal_weight eq) lo_a lo_b n m ps
    → total (equal_weight eq) ps ≡ length ps
total-equal_weight eq lo_a lo_b n m [] p = refl
total-equal_weight eq lo_a lo_b n m ((a, b) ∷ ps) (pa, pb, an, bm, w, rest) =
    ground (arith, total-equal_weight eq (suc a) (suc b) n m ps rest)

-- `AlignUniform` returns a longest common subsequence: its pairs are equal items at strictly rising
-- indices, and no such list of pairs is longer.
pub align_uniform_longest :
    (s : SeqScratch) (n m : ℕ) (eq : ℕ → ℕ → Bool)
    → IsAlignment (equal_weight eq) 0 0 n m (align_uniform s n m eq).matches
      × ((ps : List (ℕ × ℕ))
          → IsAlignment (equal_weight eq) 0 0 n m ps
          → length ps ≤ length (align_uniform s n m eq).matches)
unfolding align_uniform
align_uniform_longest s n m eq =
    let (rising, best) = align_weighted_optimal s n m (equal_weight eq) false in
    (
      rising,
      λ ps p. omega (
        arith,
        best ps p,
        total-equal_weight eq 0 0 n m ps p,
        total-equal_weight eq 0 0 n m (align_weighted s n m (equal_weight eq) false).matches rising,
      ),
    )
