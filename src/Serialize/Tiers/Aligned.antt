-- ===== src/Serialize/Tiers/Aligned.antt =====
-- AlignLines lists every line, and the headers of hunks count the lines of its grid.
use diffmantic.Base.{
  ℕ, suc, ◌*◌, ◌<◌, ◌≤◌, ◌≡◌, refl, Bool, some, List, length, if◌then◌else◌, inl, inr, Bool-cases,
}
use diffmantic.Engine.SeqDiff.{SeqScratch}
use diffmantic.Engine.WordDiff.Tokens.{Bytes}
use diffmantic.Engine.LineDiff.Whole.{line_diff}
use diffmantic.Serialize.Listing.{IsListing}
use diffmantic.Serialize.Gotoh.{Table}
use diffmantic.Serialize.Gotoh.Banded.{Center}
use diffmantic.Serialize.Grid.{Pairs, left_run, right_run}
use diffmantic.Serialize.Grid.Listed.{left_run-IsListing, right_run-IsListing}
use diffmantic.Serialize.Grid.Whole.{emit_grid-IsListing}
use diffmantic.Serialize.Tiers.{
  TreeMatches, split_lines, is_empty_text, line_match_score, all_anchors, align_lines,
}
use diffmantic.Serialize.Tiers.Scores.{line_match_score-IsBounded}
use diffmantic.Serialize.Tiers.Within.{all_anchors-IsRising}

-- How many lines of either side the grid has: the only line of an empty text is left out.
abbrev pub left_total : List Bytes → List Bytes → ℕ
left_total src_lines dst_lines = if is_empty_text src_lines then 0 else length src_lines

abbrev pub right_total : List Bytes → List Bytes → ℕ
right_total src_lines dst_lines =
    if is_empty_text src_lines
    then length dst_lines
    else if is_empty_text dst_lines
    then 0
    else length dst_lines

-- For texts of fewer than 499,985 lines each, whatever the trees give, if the rounding
-- gives at most 40 for a quotient of at most 2 and the product of a row's number with the slope of a band, rounded down, does not fall
-- from row to row: `AlignLines` does not panic, and its grid lists the lines of both texts, each once
-- and in order, but for the only line of an empty text.
pub align_lines-IsListing :
    (is_punctuation : Bytes → Bool) (share_words : Bytes → Bytes → Bool) (rounded : ℕ → ℕ → ℕ)
    (line_scratch : SeqScratch) (stale : ℕ → ℕ → Table) (floor_center ceil_center : Center)
    (src_bytes dst_bytes : Bytes) (t : TreeMatches)
    → 2 * length (split_lines src_bytes) < 999970
    → 2 * length (split_lines dst_bytes) < 999970
    → ((m n i : ℕ) → floor_center m n i ≤ floor_center m n (suc i))
    → ((x y : ℕ) → 0 < y → x ≤ 2 * y → rounded x y ≤ 40)
    → (grid : Pairs) × ((align_lines is_punctuation share_words rounded line_scratch stale
            floor_center ceil_center src_bytes dst_bytes t
          ≡ some grid)
        × IsListing 0
            (left_total (split_lines src_bytes) (split_lines dst_bytes))
            0
            (right_total (split_lines src_bytes) (split_lines dst_bytes))
            grid)
unfolding align_lines
align_lines-IsListing is_punctuation share_words rounded line_scratch stale floor_center ceil_center
      src_bytes dst_bytes t small_src small_dst mono similar =
    let src_lines = split_lines src_bytes in
    let dst_lines = split_lines dst_bytes in
    let matched = line_diff is_punctuation line_scratch src_lines dst_lines in
    elim (Bool-cases (is_empty_text src_lines)) [
      | inl no_src ↦
          rw no_src
            (right_run 0 (length dst_lines), (refl, right_run-IsListing 0 0 (length dst_lines)))
      | inr some_src ↦ rw some_src (elim (Bool-cases (is_empty_text dst_lines)) [
        | inl no_dst ↦
            rw no_dst
              (left_run 0 (length src_lines), (refl, left_run-IsListing 0 (length src_lines) 0))
        | inr some_dst ↦ rw some_dst (
            emit_grid-IsListing is_punctuation line_scratch
              (line_match_score is_punctuation rounded src_lines dst_lines t) stale floor_center
              ceil_center src_lines dst_lines
              (all_anchors is_punctuation share_words src_lines dst_lines t matched) small_src
              small_dst mono
              (line_match_score-IsBounded is_punctuation rounded src_lines dst_lines t similar)
              (all_anchors-IsRising src_lines dst_lines is_punctuation share_words t matched))
      ])
    ]
