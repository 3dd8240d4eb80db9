-- ===== src/Engine/LineDiff/Whole/Examples.antt =====
-- A line is moved out of a block and indented: the small window, and the trimmed ends.
use diffmantic.Base.{◌≡◌, refl, Bool, List, [], ◌∷◌, replicate}
use diffmantic.Engine.SeqDiff.{SeqScratch, fill_cell, trim_bounds, diagonal}
use diffmantic.Engine.SeqDiff.Optimum.{IsAlignment}
use diffmantic.Engine.SeqDiff.Alignment.{equal_weight}
use diffmantic.Engine.WordDiff.Tokens.{Bytes}
use diffmantic.Engine.WordDiff.Diff.{equal_bytes}
use diffmantic.Engine.LineDiff.{compact_line_diff}
use diffmantic.Engine.LineDiff.Aligning.{align_line_window}
use diffmantic.Engine.LineDiff.Views.{same_text}
use diffmantic.Engine.LineDiff.Whole.{line_diff}
use diffmantic.Engine.LineDiff.Whole.Result.{line_diff-IsAlignment}

abbrev brace : Bytes
brace = b'}' ∷ []

abbrev braces : Bytes → Bool
braces s = equal_bytes s brace

abbrev stale : SeqScratch
stale = record { dp = replicate 20 9; matches = [] }

abbrev before_lines : List Bytes
before_lines = (b'f' ∷ []) ∷ (b'a' ∷ []) ∷ (b'b' ∷ []) ∷ brace ∷ []

abbrev after_lines : List Bytes
after_lines = (b'f' ∷ []) ∷ (b'x' ∷ []) ∷ (b' ' ∷ b'b' ∷ []) ∷ brace ∷ []

matches_indented : line_diff braces stale before_lines after_lines ≡ ((0, 0) ∷ (2, 2) ∷ (3, 3) ∷ [])
unfolding line_diff fill_cell trim_bounds equal_bytes compact_line_diff align_line_window diagonal
matches_indented = refl

line_diff-IsAlignment_example :
    IsAlignment
      (equal_weight (same_text before_lines after_lines))
      0
      0
      4
      4
      (line_diff braces stale before_lines after_lines)
line_diff-IsAlignment_example = line_diff-IsAlignment braces stale before_lines after_lines
