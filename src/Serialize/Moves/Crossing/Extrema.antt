-- ===== src/Serialize/Moves/Crossing/Extrema.antt =====
-- The prefix maxima and the suffix minima of the index, by position.
use diffmantic.Base.{
  ℕ, zero, suc, ◌≤◌, ◌<◌, ◌⊎◌, inl, inr, arith, max, List, [], ◌∷◌, length, get_or, dec_lt,
}
use diffmantic.Engine.LineDiff.Patience.{LinePair, no_pair}
use diffmantic.Serialize.Moves.Crossing.{prefix_max, suffix_min}
use diffmantic.Serialize.Moves.Crossing.Exact.{Crosses, AnyCrosses, IsRisingSrc}

abbrev pub at : List LinePair → ℕ → LinePair
at xs k = get_or xs k no_pair

rising_at :
    (lo : ℕ) (xs : List LinePair) (k : ℕ) → IsRisingSrc lo xs → k < length xs → lo ≤ (at xs k).i
rising_at lo [] k r h = absurd (omega arith)
rising_at lo (a ∷ xs) zero (p, r) h = p
rising_at lo (a ∷ xs) (suc k) (p, r) h = omega (arith, rising_at (suc a.i) xs k r (omega arith))

pub rising_between :
    (lo : ℕ) (xs : List LinePair) (k k' : ℕ)
    → IsRisingSrc lo xs
    → k < k'
    → k' < length xs
    → (at xs k).i < (at xs k').i
rising_between lo [] k k' r h inside = absurd (omega arith)
rising_between lo (a ∷ xs) k zero (p, r) h inside = absurd (omega arith)
rising_between lo (a ∷ xs) zero (suc k') (p, r) h inside =
    omega (arith, rising_at (suc a.i) xs k' r (omega arith))
rising_between lo (a ∷ xs) (suc k) (suc k') (p, r) h inside =
    rising_between (suc a.i) xs k k' r (omega arith) (omega arith)

prefix_max-base :
    (m : ℕ) (xs : List LinePair) (k : ℕ) → k < length xs → m ≤ get_or (prefix_max m xs) k 0
unfolding prefix_max
prefix_max-base m [] k h = absurd (omega arith)
prefix_max-base m (a ∷ xs) zero h = omega arith
prefix_max-base m (a ∷ xs) (suc k) h = omega (arith, prefix_max-base (max m a.j) xs k (omega arith))

pub prefix_max-ge :
    (m : ℕ) (xs : List LinePair) (k k' : ℕ)
    → k' ≤ k
    → k < length xs
    → (at xs k').j ≤ get_or (prefix_max m xs) k 0
unfolding prefix_max
prefix_max-ge m [] k k' h inside = absurd (omega arith)
prefix_max-ge m (a ∷ xs) zero zero h inside = omega arith
prefix_max-ge m (a ∷ xs) zero (suc k') h inside = absurd (omega arith)
prefix_max-ge m (a ∷ xs) (suc k) zero h inside =
    omega (arith, prefix_max-base (max m a.j) xs k (omega arith))
prefix_max-ge m (a ∷ xs) (suc k) (suc k') h inside =
    prefix_max-ge (max m a.j) xs k k' (omega arith) (omega arith)

pub prefix_max-reached :
    (d m : ℕ) (xs : List LinePair) (k : ℕ)
    → k < length xs
    → d < get_or (prefix_max m xs) k 0
    → (d < m) ⊎ ((k' : ℕ) × ((k' ≤ k) × (d < (at xs k').j)))
unfolding prefix_max
prefix_max-reached d m [] k h less = absurd (omega arith)
prefix_max-reached d m (a ∷ xs) zero h less = elim (dec_lt d m) [
  | yes lt ↦ inl lt
  | no ge ↦ inr (0, (omega arith, omega arith))
]
prefix_max-reached d m (a ∷ xs) (suc k) h less =
    elim (prefix_max-reached d (max m a.j) xs k (omega arith) less) [
      | inl lt ↦ elim (dec_lt d m) [
        | yes lt_m ↦ inl lt_m
        | no ge ↦ inr (0, (omega arith, omega arith))
      ]
      | inr (k', (le, lt)) ↦ inr (suc k', (omega arith, lt))
    ]

pub suffix_min-le :
    (m : ℕ) (xs : List LinePair) (k k' : ℕ)
    → k ≤ k'
    → k' < length xs
    → get_or (suffix_min m xs) k 0 ≤ (at xs k').j
unfolding suffix_min
suffix_min-le m [] k k' h inside = absurd (omega arith)
suffix_min-le m (a ∷ []) zero zero h inside = omega arith
suffix_min-le m (a ∷ []) (suc k) zero h inside = absurd (omega arith)
suffix_min-le m (a ∷ []) k (suc k') h inside = absurd (omega arith)
suffix_min-le m (a ∷ (b ∷ xs)) zero zero h inside = omega arith
suffix_min-le m (a ∷ (b ∷ xs)) zero (suc k') h inside =
    omega (arith, suffix_min-le m (b ∷ xs) 0 k' (omega arith) (omega arith))
suffix_min-le m (a ∷ (b ∷ xs)) (suc k) zero h inside = absurd (omega arith)
suffix_min-le m (a ∷ (b ∷ xs)) (suc k) (suc k') h inside =
    suffix_min-le m (b ∷ xs) k k' (omega arith) (omega arith)

pub suffix_min-reached :
    (d m : ℕ) (xs : List LinePair) (k : ℕ)
    → k < length xs
    → get_or (suffix_min m xs) k 0 < d
    → (m < d) ⊎ ((k' : ℕ) × ((k ≤ k') × (k' < length xs) × ((at xs k').j < d)))
unfolding suffix_min
suffix_min-reached d m [] k h less = absurd (omega arith)
suffix_min-reached d m (a ∷ []) zero h less = elim (dec_lt m d) [
  | yes lt ↦ inl lt
  | no ge ↦ inr (0, (omega arith, omega arith, omega arith))
]
suffix_min-reached d m (a ∷ []) (suc k) h less = absurd (omega arith)
suffix_min-reached d m (a ∷ (b ∷ xs)) zero h less = elim (dec_lt a.j d) [
  | yes lt ↦ inr (0, (omega arith, omega arith, lt))
  | no ge ↦ elim (suffix_min-reached d m (b ∷ xs) 0 (omega arith) (omega arith)) [
    | inl lt ↦ inl lt
    | inr (k', (le, inside, lt)) ↦ inr (suc k', (omega arith, omega arith, lt))
  ]
]
suffix_min-reached d m (a ∷ (b ∷ xs)) (suc k) h less =
    elim (suffix_min-reached d m (b ∷ xs) k (omega arith) less) [
      | inl lt ↦ inl lt
      | inr (k', (le, inside, lt)) ↦ inr (suc k', (omega arith, omega arith, lt))
    ]

module _ (s d : ℕ) where
  -- The same by position.
  pub AnyCrosses-at :
      (xs : List LinePair) (k : ℕ)
      → k < length xs
      → Crosses s d (get_or xs k no_pair)
      → AnyCrosses s d xs
  AnyCrosses-at [] k h c = absurd (omega arith)
  AnyCrosses-at (a ∷ xs) zero h c = inl c
  AnyCrosses-at (a ∷ xs) (suc k) h c = inr (AnyCrosses-at xs k (omega arith) c)

  pub at-AnyCrosses :
      (xs : List LinePair)
      → AnyCrosses s d xs
      → (k : ℕ) × ((k < length xs) × Crosses s d (get_or xs k no_pair))
  at-AnyCrosses [] c = absurd c
  at-AnyCrosses (a ∷ xs) (inl c) = (0, (omega arith, c))
  at-AnyCrosses (a ∷ xs) (inr c) = let (k, (h, e)) = at-AnyCrosses xs c in (suc k, (omega arith, e))
