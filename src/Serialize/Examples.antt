-- ===== src/Serialize/Examples.antt =====
-- Small texts through the alignment of lines.
use native.Mathlib.Nat.{div-zero, div-mul-le_self, le-div_iff_mul-le}
use diffmantic.Base.{
  ◌↔◌, ℕ, zero, suc, ◌+◌, ◌-◌, ◌*◌, ◌/◌, ◌≤◌, ◌≡◌, refl, min, arith, Bool, false, true, none, some,
  List, [], ◌∷◌, if◌then◌else◌, ◌==◌,
}
use diffmantic.Base.Int.{ℤ, pos, negsuc, ◌≤ℤ◌}
use diffmantic.Render.Hunks.{LineAlignmentPair}
use diffmantic.Engine.SeqDiff.{SeqScratch}
use diffmantic.Engine.WordDiff.Tokens.{Bytes}
use diffmantic.Serialize.Listing.{IsListing}
use diffmantic.Serialize.Gotoh.{Table, align_gap_dense, gotoh_table, first_state, walk}
use diffmantic.Serialize.Gotoh.Walk.{align_gap_dense-IsListing}
use diffmantic.Serialize.Gotoh.Banded.{Center, j_min, hugs, align_gap_banded}
use diffmantic.Serialize.Gotoh.Banded.Listed.{align_gap_banded-IsListing}
use diffmantic.Serialize.Grid.{Anchor, Pairs, emit_grid}
use diffmantic.Serialize.Grid.Listed.{RisingAnchors}
use diffmantic.Serialize.Grid.Whole.{emit_grid-IsListing}
use diffmantic.Serialize.Anchors.{filter_monotonic, merge_anchors}
use diffmantic.Serialize.Anchors.Sorted.{IsWithin}
use diffmantic.Serialize.Anchors.Monotonic.{filter_monotonic-RisingAnchors}
use diffmantic.Serialize.Anchors.Merged.{IsKept, merge_anchors-RisingAnchors}
use diffmantic.Engine.LineDiff.Patience.{LinePair}
use diffmantic.Serialize.Moves.Crossing.{new_stationary_index, crosses}
use diffmantic.Serialize.Moves.Crossing.Exact.{AnyCrosses}
use diffmantic.Serialize.Moves.Crossing.Answer.{crosses_lem}
use diffmantic.Serialize.Similarity.{AlignScratch, calculate_similarity}
use diffmantic.Serialize.Similarity.Rollback.{IsClear, calculate_similarity-IsClear}
use diffmantic.Serialize.Tiers.{TreeMatches, split_lines, align_lines}
use diffmantic.Serialize.Tiers.Aligned.{align_lines-IsListing}

-- 1 on the diagonal, else -1.
abbrev diagonal_score : ℕ → ℕ → ℤ
diagonal_score i j = if i == j then pos 1 else negsuc 0

abbrev used_table : Table
used_table i j = record { m = pos 7; ix = pos 8; iy = pos 9 }

abbrev crossing_anchors : List Anchor
crossing_anchors =
    record { i = 2; j = 1 }
    ∷ record { i = 0; j = 2 }
    ∷ record { i = 0; j = 0 }
    ∷ record { i = 2; j = 1 }
    ∷ []

crossing_anchors-IsWithin : IsWithin 3 3 crossing_anchors
crossing_anchors-IsWithin = ground arith

align_gap_dense_test :
    align_gap_dense diagonal_score used_table 4 5 4 6
    ≡ some (
        record { left_line = some 4; right_line = some 4 }
        ∷ record { left_line = none; right_line = some 5 }
        ∷ [])
unfolding align_gap_dense gotoh_table first_state walk
align_gap_dense_test = refl

-- The slope of the band as an exact fraction.
abbrev exact_floor : Center
exact_floor m n i = i * n / m

abbrev exact_ceil : Center
exact_ceil m n i = (i * n + (m - 1)) / m

exact_floor_rises : (m n i : ℕ) → exact_floor m n i ≤ exact_floor m n (suc i)
exact_floor_rises zero n i = rw (div-zero (i * n)) (omega arith)
exact_floor_rises (suc m) n i =
    let whole = div-mul-le_self (i * n) (suc m) in
    let more : i * n ≤ suc i * n = omega arith in
    (le-div_iff_mul-le (omega arith)).1 (omega (arith, whole, more))

-- A gap of 200 lines on either side: row 150 begins at column 86.
band_start : j_min exact_floor exact_ceil 200 200 150 ≡ 86
unfolding j_min
band_start = refl

band_boundary : hugs exact_floor exact_ceil 200 200 150 86 ≡ true
unfolding hugs
band_boundary = refl

align_gap_banded_test :
    align_gap_banded exact_floor exact_ceil diagonal_score used_table 4 5 4 6
    ≡ some (
        record { left_line = some 4; right_line = some 4 }
        ∷ record { left_line = none; right_line = some 5 }
        ∷ [])
unfolding align_gap_banded gotoh_table first_state walk
align_gap_banded_test = refl

diagonal_score_le : (i j : ℕ) → diagonal_score i j ≤ℤ pos 65
diagonal_score_le i j = ground arith

align_gap_banded-IsListing_example :
    (ps : List LineAlignmentPair) × ((align_gap_banded exact_floor exact_ceil diagonal_score
          used_table 10 210 20 170
        ≡ some ps)
      × IsListing 10 200 20 150 ps)
align_gap_banded-IsListing_example =
    align_gap_banded-IsListing exact_floor exact_ceil diagonal_score used_table 10 210 20 170
      (exact_floor_rises 200 150) diagonal_score_le (omega arith) (omega arith) (omega arith)

abbrev no_scratch : SeqScratch
no_scratch = record { dp = []; matches = [] }

abbrev no_punctuation : Bytes → Bool
no_punctuation s = false

abbrev any_words : Bytes → Bytes → Bool
any_words s t = true

-- 20 times the quotient, not over 40.
abbrev rounded_down : ℕ → ℕ → ℕ
rounded_down x y = min 40 (20 * x / y)

-- The line `c`, as often as it says, before a text.
abbrev lines_before : ℕ → ℕ → Bytes → Bytes
lines_before c zero s = s
lines_before c (suc k) s = c ∷ 10 ∷ lines_before c k s

-- Both have more than 60 lines, few of which are alike.
abbrev old_text : Bytes
old_text = b'a' ∷ 10 ∷ b'b' ∷ 10 ∷ b'c' ∷ 10 ∷ lines_before b'p' 60 (b'z' ∷ [])

abbrev new_text : Bytes
new_text = b'a' ∷ 10 ∷ b'x' ∷ 10 ∷ b'b' ∷ 10 ∷ b'd' ∷ 10 ∷ lines_before b'q' 61 (b'z' ∷ [])

-- The second line stays, and the last is changed in place.
abbrev tree_matches : TreeMatches
tree_matches = record {
  declared_punctuation = no_punctuation;
  declarations = [];
  comments = [];
  stationary = (1, 2) ∷ (2, 3) ∷ [];
  in_place = [];
  intra_move = [];
  moves = [];
}

align_lines-IsListing_example :
    (grid : Pairs) × ((align_lines no_punctuation any_words rounded_down no_scratch
          (λ s d. used_table)
          exact_floor
          exact_ceil
          old_text
          new_text
          tree_matches
        ≡ some grid)
      × IsListing 0 64 0 66 grid)
unfolding split_lines
align_lines-IsListing_example =
    align_lines-IsListing no_punctuation any_words rounded_down no_scratch (λ s d. used_table)
      exact_floor exact_ceil old_text new_text tree_matches (omega arith) (omega arith)
      exact_floor_rises (λ a b. omega arith)

abbrev first_tier : List Anchor
first_tier = record { i = 0; j = 1 } ∷ []

abbrev second_tier : List Anchor
second_tier = record { i = 0; j = 0 } ∷ record { i = 2; j = 2 } ∷ []

filters_crossing :
    filter_monotonic crossing_anchors ≡ (record { i = 0; j = 0 } ∷ record { i = 2; j = 1 } ∷ [])
unfolding filter_monotonic
filters_crossing = refl

merges_later :
    merge_anchors first_tier second_tier ≡ (record { i = 0; j = 1 } ∷ record { i = 2; j = 2 } ∷ [])
unfolding merge_anchors
merges_later = refl

filter_monotonic-RisingAnchors_example : RisingAnchors 0 3 0 3 (filter_monotonic crossing_anchors)
filter_monotonic-RisingAnchors_example =
    filter_monotonic-RisingAnchors 3 3 crossing_anchors crossing_anchors-IsWithin

merge_anchors-RisingAnchors_example :
    RisingAnchors 0 3 0 3 (merge_anchors first_tier second_tier)
    × IsKept first_tier (merge_anchors first_tier second_tier)
merge_anchors-RisingAnchors_example =
    merge_anchors-RisingAnchors 3 3 first_tier second_tier (ground arith) (ground arith)

align_gap_dense-IsListing_example :
    (ps : List LineAlignmentPair) × ((align_gap_dense diagonal_score used_table 4 6 3 6 ≡ some ps)
      × IsListing 4 2 3 3 ps)
align_gap_dense-IsListing_example =
    align_gap_dense-IsListing diagonal_score used_table 4 6 3 6 (omega arith) (omega arith)
      (omega arith) (omega arith)

emit_grid-IsListing_example :
    (grid : Pairs) × ((emit_grid no_punctuation no_scratch diagonal_score
          (λ s d. used_table)
          exact_floor
          exact_ceil
          (split_lines old_text)
          (split_lines new_text)
          first_tier
        ≡ some grid)
      × IsListing 0 64 0 66 grid)
unfolding split_lines
emit_grid-IsListing_example =
    emit_grid-IsListing no_punctuation no_scratch diagonal_score (λ s d. used_table) exact_floor
      exact_ceil (split_lines old_text) (split_lines new_text) first_tier (omega arith)
      (omega arith) exact_floor_rises diagonal_score_le (ground arith)

-- Kept out of order, as a map gives them.
abbrev two_statements : List LinePair
two_statements = record { i = 3; j = 1 } ∷ record { i = 0; j = 3 } ∷ []

crosses_found : crosses (new_stationary_index two_statements) 1 2 ≡ true
unfolding crosses new_stationary_index
crosses_found = refl

crosses_moved : crosses (new_stationary_index two_statements) 3 2 ≡ true
unfolding crosses new_stationary_index
crosses_moved = refl

crosses_lem_example :
    crosses (new_stationary_index two_statements) 1 2 ≡ true ↔ AnyCrosses 1 2 two_statements
crosses_lem_example = crosses_lem two_statements 1 2 ((ground arith, tt), (tt, tt))

abbrev clear_scratch : AlignScratch
clear_scratch = record { bigrams = λ k. 0; touched = 7 ∷ [] }

-- Two of the three bigrams are shared.
shares_two :
    (calculate_similarity
      (b'a' ∷ b'b' ∷ b'a' ∷ b'b' ∷ [])
      (b'b' ∷ b'a' ∷ b'b' ∷ b'c' ∷ [])
      clear_scratch).1
    ≡ 4
unfolding calculate_similarity
shares_two = refl

calculate_similarity-IsClear_example :
    IsClear
      (calculate_similarity (b'a' ∷ b'b' ∷ b'a' ∷ []) (b'b' ∷ b'a' ∷ b'b' ∷ []) clear_scratch).0
calculate_similarity-IsClear_example =
    calculate_similarity-IsClear (b'a' ∷ b'b' ∷ b'a' ∷ []) (b'b' ∷ b'a' ∷ b'b' ∷ []) clear_scratch
      (λ k. refl)
