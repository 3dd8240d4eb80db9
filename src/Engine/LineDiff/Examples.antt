-- ===== src/Engine/LineDiff/Examples.antt =====
-- A block with its closing brace is inserted behind another block: the brace that counts as inserted
-- is the one of the new block.
use diffmantic.Base.{
  ℕ, ◌≡◌, refl, Bool, true, false, List, [], ◌∷◌, arith, map, length, replicate, ◌≤◌, ◌++◌,
}
use diffmantic.Engine.WordDiff.Tokens.{Bytes}
use diffmantic.Engine.LineDiff.{compact_changes, compact_line_diff}
use diffmantic.Engine.LineDiff.Windows.{kept}
use diffmantic.Engine.LineDiff.Sliding.{flag}
use diffmantic.Engine.LineDiff.Compaction.{compact_changes-kept}
use diffmantic.Engine.SeqDiff.{SeqScratch, fill_cell}
use diffmantic.Engine.SeqDiff.Optimum.{IsAlignment, total}
use diffmantic.Engine.WordDiff.Diff.{equal_bytes}
use diffmantic.Engine.LineDiff.Aligning.{
  align_line_window, match_weight, offset_match, IsReindented, align_line_window_lem,
}
use diffmantic.Engine.LineDiff.Pairing.{texts}
use diffmantic.Engine.LineDiff.Rematch.{compact_line_diff-same}

abbrev brace : Bytes
brace = b'}' ∷ []

abbrev after_lines : List Bytes
after_lines = (b'a' ∷ []) ∷ brace ∷ (b'b' ∷ []) ∷ brace ∷ (b'c' ∷ []) ∷ []

abbrev before_lines : List Bytes
before_lines = (b'a' ∷ []) ∷ brace ∷ (b'c' ∷ []) ∷ []

abbrev changed : List Bool
changed = false ∷ true ∷ true ∷ false ∷ false ∷ []

abbrev matched : List (ℕ × ℕ)
matched = (0, 0) ∷ (3, 1) ∷ (4, 2) ∷ []

slides : compact_changes after_lines changed ≡ (false ∷ false ∷ true ∷ true ∷ false ∷ [])
unfolding compact_changes
slides = refl

rematches : compact_line_diff after_lines before_lines matched ≡ ((0, 0) ∷ (1, 1) ∷ (4, 2) ∷ [])
unfolding compact_line_diff
rematches = refl

compact_changes-kept_example :
    (length (compact_changes after_lines changed) ≡ length after_lines)
    × (kept after_lines (flag (compact_changes after_lines changed))
        ≡ kept after_lines (flag changed))
compact_changes-kept_example = compact_changes-kept after_lines changed refl

compact_line_diff-same_example :
    map (texts after_lines before_lines) (compact_line_diff after_lines before_lines matched)
    ≡ map (texts after_lines before_lines) matched
compact_line_diff-same_example = compact_line_diff-same after_lines before_lines matched (
  omega arith,
  omega arith,
  omega arith,
  omega arith,
  omega arith,
  (
    omega arith,
    omega arith,
    omega arith,
    omega arith,
    omega arith,
    (omega arith, omega arith, omega arith, omega arith, omega arith, tt),
  ),
)

abbrev used : SeqScratch
used = record { dp = replicate 20 9; matches = (4, 4) ∷ [] }

-- No line is punctuation but the brace.
abbrev braces : Bytes → Bool
braces s = equal_bytes s brace

abbrev indented_lines : List Bytes
indented_lines = (b'a' ∷ []) ∷ (b' ' ∷ b'c' ∷ []) ∷ brace ∷ []

indented : align_line_window braces used before_lines indented_lines 5 7 [] ≡ ((5, 7) ∷ (7, 8) ∷ [])
unfolding align_line_window fill_cell
indented = refl

align_line_window_lem_example :
    (ps : List (ℕ × ℕ)) × (align_line_window braces used before_lines indented_lines 5 7 []
      ≡ [] ++ map (offset_match 5 7) ps)
    × IsReindented before_lines indented_lines ps
    × IsAlignment (match_weight braces before_lines indented_lines) 0 0 3 3 ps
    × ((qs : List (ℕ × ℕ))
        → IsAlignment (match_weight braces before_lines indented_lines) 0 0 3 3 qs
        → total (match_weight braces before_lines indented_lines) qs
          ≤ total (match_weight braces before_lines indented_lines) ps)
align_line_window_lem_example =
    align_line_window_lem braces before_lines indented_lines used 5 7 [] (omega arith) (omega arith)
      (omega arith)
