-- ===== src/Render/Hunks.antt =====
-- internal/renderutil/hunks.go: changed pairs of lines as intervals, and the hunks around them.
-- An interval's ends are indices of aligned pairs, both inclusive. A line number of -1 is `none`.
-- `totalPairs - 1` is exact, since there is a pair where there is an interval.
pub mod Intervals
pub mod Merging
pub mod Ranges
pub mod Visible
mod Examples
use diffmantic.Base.{
  ℕ, zero, suc, ◌+◌, ◌-◌, min, max, Bool, true, false, ◌&&◌, Option, none, some, List, [], ◌∷◌, ltb,
  leb, if◌then◌else◌, length, get_elem?, drop, take,
}

pub record Interval : Type 0 where
  pub start : ℕ
  pub end : ℕ

-- `open` is `startIdx` while `inChange` is true; `i` is the index of the next flag. The loop emits
-- an interval where a run of changes ends, and once more at the end of the flags.
unfoldable pub intervals_from : ℕ → Option ℕ → List Bool → List Interval
intervals_from i none [] = []
intervals_from i (some start) [] = record { start = start; end = i - 1 } ∷ []
intervals_from i none (true ∷ flags) = intervals_from (suc i) (some i) flags
intervals_from i (some start) (true ∷ flags) = intervals_from (suc i) (some start) flags
intervals_from i none (false ∷ flags) = intervals_from (suc i) none flags
intervals_from i (some start) (false ∷ flags) =
    record { start = start; end = i - 1 } ∷ intervals_from (suc i) none flags

unfoldable pub build_change_intervals : List Bool → List Interval
unfolding intervals_from
build_change_intervals flags = intervals_from 0 none flags

module _ (total_pairs context_lines : ℕ) where
  unfoldable pub expand : Interval → Interval
  expand ci = record {
    start = ci.start - context_lines;
    end = min (total_pairs - 1) (ci.end + context_lines);
  }

  -- The loop with the last hunk so far taken off the end of `hunks`: it is still open for merging.
  unfoldable pub merge_from : Interval → List Interval → List Interval
  unfolding expand
  merge_from last [] = last ∷ []
  merge_from last (ci ∷ cis) =
      let h = expand ci in
      let joined = merge_from (record last { end = h.end }) cis in
      let apart = last ∷ merge_from h cis in if leb h.start (last.end + 1) then joined else apart

  unfoldable pub merge_hunks : List Interval → List Interval
  unfolding merge_from
  merge_hunks [] = []
  merge_hunks (ci ∷ cis) = merge_from (expand ci) cis

-- internal/serialize/json.go
pub record LineAlignmentPair : Type 0 where
  pub left_line : Option ℕ
  pub right_line : Option ℕ

abbrev pub left : LineAlignmentPair → Option ℕ
left p = p.left_line

abbrev pub right : LineAlignmentPair → Option ℕ
right p = p.right_line

-- One side of `ComputeHunkRange`; `side` reads that side's line of a pair.
module _ (side : LineAlignmentPair → Option ℕ) where
  -- The first loop: the first line number from 1 on, and how many pairs have a line.
  unfoldable pub scan_hunk : Option ℕ → ℕ → List LineAlignmentPair → Option ℕ × ℕ
  scan_hunk start count [] = (start, count)
  scan_hunk start count (p ∷ ps) =
      scan_hunk
        (elim start [
          | some s ↦ some s
          | none ↦ elim (side p) [ none ↦ none | some line ↦ some (line + 1) ]
        ])
        (elim (side p) [ none ↦ count | some line ↦ count + 1 ]) ps

  -- The second loop: the nearest line before the hunk, for `k` pairs down to the first.
  unfoldable pub search_back : List LineAlignmentPair → ℕ → Option ℕ
  search_back pairs zero = none
  search_back pairs (suc k) =
      let earlier = search_back pairs k in
      elim (get_elem? pairs k) [
        | none ↦ none
        | some p ↦ elim (side p) [ none ↦ earlier | some line ↦ some (line + 1) ]
      ]

  unfoldable pub fallback_start : List LineAlignmentPair → ℕ → Bool → ℕ
  unfolding search_back
  fallback_start pairs first has_side = elim (search_back pairs first) [
    | some s ↦ s
    | none ↦ if has_side then 1 else 0
  ]

  unfoldable pub side_range : Interval → List LineAlignmentPair → Bool → ℕ × ℕ
  unfolding scan_hunk fallback_start
  side_range h pairs has_side =
      let (found, count) = scan_hunk none 0 (take (h.end + 1 - h.start) (drop h.start pairs)) in
      (elim found [ some s ↦ s | none ↦ fallback_start pairs h.start has_side ], count)

-- srcStart, srcCount, dstStart, dstCount
unfoldable pub compute_hunk_range : Interval → List LineAlignmentPair → Bool → Bool → ℕ × ℕ × ℕ × ℕ
unfolding side_range
compute_hunk_range h pairs has_src has_dst =
    let (src_start, src_count) = side_range left h pairs has_src in
    let (dst_start, dst_count) = side_range right h pairs has_dst in
    (src_start, src_count, dst_start, dst_count)

-- A line number from 1 on; -1 + 1 is 0.
abbrev pub one_based : Option ℕ → ℕ
one_based none = 0
one_based (some line) = line + 1

unfoldable pub max_line : ℕ → List LineAlignmentPair → ℕ
max_line highest [] = highest
max_line highest (p ∷ ps) =
    max_line (max (max highest (one_based p.left_line)) (one_based p.right_line)) ps

unfoldable pub max_visible_from : ℕ → List Interval → List LineAlignmentPair → ℕ
unfolding max_line
max_visible_from highest [] pairs = highest
max_visible_from highest (h ∷ hs) pairs =
    max_visible_from (max_line highest (take (h.end + 1 - h.start) (drop h.start pairs))) hs pairs

unfoldable pub max_visible_line : List Interval → List LineAlignmentPair → ℕ
unfolding max_visible_from
max_visible_line hunks pairs = max_visible_from 0 hunks pairs
