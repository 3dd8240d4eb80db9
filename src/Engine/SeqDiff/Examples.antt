-- ===== src/Engine/SeqDiff/Examples.antt =====
-- Alignments of small sequences, in scratch memory that an earlier alignment used.
use diffmantic.Base.{
  ℕ, ◌≤◌, ◌≡◌, refl, Bool, true, false, List, [], ◌∷◌, arith, ◌==◌, get_or, length,
}
use diffmantic.Engine.SeqDiff.{
  SeqScratch, align_weighted, align_uniform, trim_bounds, combine_matches, fill_cell,
}
use diffmantic.Engine.SeqDiff.Optimum.{total, IsAlignment}
use diffmantic.Engine.SeqDiff.Alignment.{
  align_weighted_optimal, align_weighted_same, align_uniform_longest, equal_weight,
}
use diffmantic.Engine.SeqDiff.Trim.{IsTrimmed, trim_bounds-IsTrimmed, combine_matches-IsAlignment}

-- Left over from an earlier alignment: too small for the table below, and not cleared.
abbrev used : SeqScratch
used = record { dp = 7 ∷ 7 ∷ 7 ∷ []; matches = (0, 4) ∷ [] }

-- Large enough, and not cleared.
abbrev stale : SeqScratch
stale = record {
  dp = 9 ∷ 9 ∷ 9 ∷ 9 ∷ 9 ∷ 9 ∷ 9 ∷ 9 ∷ 9 ∷ 9 ∷ 9 ∷ 9 ∷ 9 ∷ 9 ∷ 9 ∷ 9 ∷ 9 ∷ [];
  matches = [];
}

abbrev left_items : List ℕ
left_items = 1 ∷ 2 ∷ 3 ∷ []

abbrev right_items : List ℕ
right_items = 2 ∷ 3 ∷ 2 ∷ []

abbrev same_item : ℕ → ℕ → Bool
same_item i j = get_or left_items i 0 == get_or right_items j 0

abbrev item_weight : ℕ → ℕ → ℕ
item_weight = equal_weight same_item

finds : (align_weighted stale 3 3 item_weight false).matches ≡ (1, 0) ∷ (2, 1) ∷ []
unfolding align_weighted fill_cell
finds = refl

-- With the tie-break the last item of the row is matched on the diagonal.
prefers_diagonal : (align_weighted stale 1 3 (λ _ _. 1) true).matches ≡ (0, 0) ∷ []
unfolding align_weighted fill_cell
prefers_diagonal = refl

align_weighted_optimal_example :
    IsAlignment item_weight 0 0 3 3 (align_weighted stale 3 3 item_weight false).matches
    × ((ps : List (ℕ × ℕ))
        → IsAlignment item_weight 0 0 3 3 ps
        → total item_weight ps
          ≤ total item_weight (align_weighted stale 3 3 item_weight false).matches)
align_weighted_optimal_example = align_weighted_optimal stale 3 3 item_weight false

align_weighted_same_example :
    (align_weighted stale 3 3 item_weight true).matches
    ≡ (align_weighted used 3 3 item_weight true).matches
align_weighted_same_example = align_weighted_same stale used 3 3 item_weight true

align_uniform_longest_example :
    IsAlignment (equal_weight same_item) 0 0 3 3 (align_uniform stale 3 3 same_item).matches
    × ((ps : List (ℕ × ℕ))
        → IsAlignment (equal_weight same_item) 0 0 3 3 ps
        → length ps ≤ length (align_uniform stale 3 3 same_item).matches)
align_uniform_longest_example = align_uniform_longest stale 3 3 same_item

-- 1 2 9 3 and 1 5 3: one equal item in front, one behind.
abbrev trimmed_item : ℕ → ℕ → Bool
trimmed_item i j = get_or (1 ∷ 2 ∷ 9 ∷ 3 ∷ []) i 0 == get_or (1 ∷ 5 ∷ 3 ∷ []) j 0

trims : trim_bounds 4 3 trimmed_item ≡ (1, 3, 2)
unfolding trim_bounds
trims = refl

trim_bounds-IsTrimmed_example :
    (let (prefix, stop_a, stop_b) = trim_bounds 4 3 trimmed_item in
      IsTrimmed trimmed_item 4 3 prefix stop_a stop_b)
trim_bounds-IsTrimmed_example = trim_bounds-IsTrimmed trimmed_item 4 3

combine_matches-IsAlignment_example :
    IsAlignment (equal_weight trimmed_item) 0 0 4 3 (combine_matches [] 1 [] 3 2 4)
combine_matches-IsAlignment_example =
    combine_matches-IsAlignment trimmed_item 4 3 1 3 2 []
      (record {
        ordered = omega arith;
        tails = omega arith;
        head_run = (refl, tt);
        tail_run = (refl, tt);
        head_end = λ h. refl;
        tail_end = λ h k. refl;
      })
      tt
