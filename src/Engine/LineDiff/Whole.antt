-- ===== src/Engine/LineDiff/Whole.antt =====
-- internal/engine/linediff.go: LineDiff, from the trimmed ends over the alignment of the middle to
-- the compaction. The matching is the list of the entries of `matchedA`, in the order of writing.
pub mod Middle
pub mod Compacted
pub mod Result
mod Examples
use native.Mathlib.Nat.{zero-add}
use diffmantic.Base.{
  ℕ, zero, suc, ◌+◌, ◌-◌, ◌*◌, ◌≤◌, ◌<◌, ◌≡◌, refl, sym, ap, ap₂, subst, ◌∙◌, min, Bool, true,
  false, ◌&&◌, ◌||◌, List, [], ◌∷◌, ◌++◌, arith, length, get_or, take, drop, map, if◌then◌else◌,
  ltb, leb, ◌==◌, Bool-cases, inl, inr, length-drop, append_assoc, append-nil,
}
use diffmantic.Engine.SeqDiff.{SeqScratch, trim_bounds, diagonal}
use diffmantic.Engine.SeqDiff.Optimum.{IsAlignment}
use diffmantic.Engine.SeqDiff.Alignment.{equal_weight}
use diffmantic.Engine.SeqDiff.Trim.{
  IsTrimmed, IsEqualRun, trim_bounds-IsTrimmed, IsAlignment-concat, diagonal-IsAlignment,
}
use diffmantic.Engine.WordDiff.Tokens.{Bytes}
use diffmantic.Engine.WordDiff.Diff.{equal_bytes}
use diffmantic.Engine.WordDiff.Slots.{equal_bytes→eq}
use diffmantic.Engine.LineDiff.{trim_space, compact_line_diff}
use diffmantic.Engine.LineDiff.Aligning.{align_line_window, max_window_cells}
use diffmantic.Engine.LineDiff.Patience.{line_diff_patience}
use diffmantic.Engine.LineDiff.Patience.Anchors.{line_diff_patience-IsAlignment}
use diffmantic.Engine.LineDiff.Marking.{mem}
use diffmantic.Engine.LineDiff.Pairing.{texts}
use diffmantic.Engine.LineDiff.Rematch.{
  any_pair, IsInside, IsAlignment-IsInside, SameLines, firsts, seconds, compact_line_diff-sorted,
  compact_line_diff-rising,
}
use diffmantic.Engine.LineDiff.Views.{
  same_text, equal_bytes_self, IsView, drop-IsView, take-IsView, whole-IsView, length-take,
  length-take-le, IsAlignment-raise, align_line_window-IsAlignment,
}

module _ (is_punctuation : Bytes → Bool) (scratch : SeqScratch) (lines_a lines_b : List Bytes) where
  -- The entries of the trimmed ends.
  unfoldable pub trimmed_matches : ℕ → ℕ → ℕ → List (ℕ × ℕ)
  trimmed_matches start stop_a stop_b =
      diagonal start 0 0
      ++ diagonal (min (length lines_a - stop_a) (length lines_b - stop_b)) stop_a stop_b

  -- The middle, aligned as one window or, if that is too large, between anchors.
  unfoldable pub middle_matches : ℕ → ℕ → ℕ → List (ℕ × ℕ) → List (ℕ × ℕ)
  middle_matches start stop_a stop_b matched =
      let sub_a = take (stop_a - start) (drop start lines_a) in
      let sub_b = take (stop_b - start) (drop start lines_b) in
      if ltb max_window_cells (length sub_a * length sub_b)
      then line_diff_patience is_punctuation scratch sub_a sub_b start start matched
      else align_line_window is_punctuation scratch sub_a sub_b start start matched

  unfoldable pub line_diff : List (ℕ × ℕ)
  unfolding trimmed_matches middle_matches
  line_diff =
      let eq = λ (i j : ℕ). equal_bytes (get_or lines_a i []) (get_or lines_b j []) in
      let (start, stop_a, stop_b) = trim_bounds (length lines_a) (length lines_b) eq in
      let matched = trimmed_matches start stop_a stop_b in
      if leb stop_a start || leb stop_b start
      then compact_line_diff lines_a lines_b matched
      else compact_line_diff lines_a lines_b (middle_matches start stop_a stop_b matched)
