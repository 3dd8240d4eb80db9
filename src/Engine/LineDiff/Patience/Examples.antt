-- ===== src/Engine/LineDiff/Patience/Examples.antt =====
-- Four candidates of which two cross: three remain.
use diffmantic.Base.{ℕ, ◌≡◌, ◌≤◌, refl, List, [], ◌∷◌, arith, length}
use diffmantic.Engine.LineDiff.Patience.{LinePair, compute_lis, unique_pairs}
use diffmantic.Engine.LineDiff.Patience.Sequence.{
  IsRisingPairs, AreCandidates, IsPick, LeftRising, compute_lis-longest,
}

abbrev pair : ℕ → ℕ → LinePair
pair i j = record { i = i; j = j }

abbrev crossing : List LinePair
crossing = pair 0 4 ∷ pair 1 2 ∷ pair 3 3 ∷ pair 5 6 ∷ []

longest : compute_lis crossing ≡ (pair 1 2 ∷ pair 3 3 ∷ pair 5 6 ∷ [])
unfolding compute_lis
longest = refl

-- A line that occurs twice on one side is no anchor.
anchors :
    unique_pairs
      ((1 ∷ []) ∷ (2 ∷ []) ∷ (1 ∷ []) ∷ (3 ∷ []) ∷ [])
      ((3 ∷ []) ∷ (2 ∷ []) ∷ (1 ∷ []) ∷ [])
      0
      ((1 ∷ []) ∷ (2 ∷ []) ∷ (1 ∷ []) ∷ (3 ∷ []) ∷ [])
    ≡ (pair 1 1 ∷ pair 3 0 ∷ [])
unfolding unique_pairs
anchors = refl

crossing-LeftRising : LeftRising crossing
crossing-LeftRising k k' h h' = ground arith

compute_lis-longest_example :
    IsRisingPairs 0 0 (compute_lis crossing)
    × AreCandidates crossing (compute_lis crossing)
    × ((ks : List ℕ) → IsPick crossing 0 0 ks → length ks ≤ length (compute_lis crossing))
compute_lis-longest_example = compute_lis-longest crossing crossing-LeftRising
