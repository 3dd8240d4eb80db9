-- ===== src/Engine/LineDiff/Aligning.antt =====
-- internal/engine/linediff.go: the alignment of a window of lines by weight. `is_punctuation` is
-- rules.IsPunctuation of internal/treesitter/rules, with the tables of the languages.
use diffmantic.Base.{
  ℕ, suc, ◌+◌, ◌*◌, ◌≤◌, ◌<◌, ◌≡◌, refl, ap, Bool, true, false, ◌&&◌, ◌||◌, List, [], ◌∷◌, ◌++◌,
  arith, get_or, if◌then◌else◌, length, map, ltb, leb, ◌==◌, Bool-cases, inl, inr, &&-split,
}
use diffmantic.Engine.SeqDiff.{SeqScratch, align_weighted}
use diffmantic.Engine.SeqDiff.Optimum.{IsAlignment, total}
use diffmantic.Engine.SeqDiff.Alignment.{align_weighted_optimal}
use diffmantic.Engine.WordDiff.Tokens.{Bytes}
use diffmantic.Engine.WordDiff.Diff.{equal_bytes}
use diffmantic.Engine.WordDiff.Slots.{equal_bytes→eq}
use diffmantic.Engine.LineDiff.{trim_space}

abbrev exact_substantive_weight : ℕ
exact_substantive_weight = 10

abbrev reindented_substantive_weight : ℕ
reindented_substantive_weight = 8

abbrev trivial_line_weight : ℕ
trivial_line_weight = 1

-- A product of line counts above this leaves the window without matches.
abbrev pub max_window_cells : ℕ
max_window_cells = 1000000

module _ (is_punctuation : Bytes → Bool) where
  unfoldable pub line_weight : Bytes → ℕ
  unfolding trim_space
  line_weight s =
      let trimmed = trim_space s in
      if length trimmed == 0
      then trivial_line_weight
      else if leb (length trimmed) 5 && is_punctuation trimmed
      then trivial_line_weight
      else exact_substantive_weight

  -- `matchWeight`, the weights and trimmed lines computed where they are used.
  unfoldable pub match_weight : List Bytes → List Bytes → ℕ → ℕ → ℕ
  unfolding line_weight equal_bytes
  match_weight win_a win_b i j =
      let a = get_or win_a i [] in
      let b = get_or win_b j [] in
      if equal_bytes a b
      then line_weight a
      else if ltb trivial_line_weight (line_weight a) && equal_bytes (trim_space a) (trim_space b)
      then reindented_substantive_weight
      else 0

-- A match of the window as an entry of `matchedA`.
unfoldable pub offset_match : ℕ → ℕ → ℕ × ℕ → ℕ × ℕ
offset_match start_a start_b (i, j) = (start_a + i, start_b + j)

-- `matchedA` is the list of its entries, a new one at the end.
unfoldable pub align_line_window :
    (Bytes → Bool) → SeqScratch → List Bytes → List Bytes → ℕ → ℕ → List (ℕ × ℕ) → List (ℕ × ℕ)
unfolding offset_match match_weight align_weighted
align_line_window is_punctuation s win_a win_b start_a start_b matched =
    let n = length win_a in
    let m = length win_b in
    let matches = (align_weighted s n m (match_weight is_punctuation win_a win_b) true).matches in
    if n == 0 || m == 0 || ltb max_window_cells (n * m)
    then matched
    else matched ++ map (offset_match start_a start_b) matches

-- Every pair of the list has the same text but for blanks around it.
abbrev pub IsReindented : List Bytes → List Bytes → List (ℕ × ℕ) → Type 0
IsReindented win_a win_b [] = Unit {0}
IsReindented win_a win_b ((i, j) ∷ ps) =
    (trim_space (get_or win_a i []) ≡ trim_space (get_or win_b j [])) × IsReindented win_a win_b ps

module _ (is_punctuation : Bytes → Bool) (win_a win_b : List Bytes) where
  pub match_weight_lem :
      (i j : ℕ)
      → 0 < match_weight is_punctuation win_a win_b i j
      → trim_space (get_or win_a i []) ≡ trim_space (get_or win_b j [])
  unfolding match_weight
  match_weight_lem i j h =
      let a = get_or win_a i [] in
      let b = get_or win_b j [] in
      elim (Bool-cases (equal_bytes a b)) [
        | inl t ↦ ap trim_space (equal_bytes→eq a b t)
        | inr f ↦
            elim (Bool-cases (
              ltb trivial_line_weight (line_weight is_punctuation a)
              && equal_bytes (trim_space a) (trim_space b))) [
                | inl t ↦
                    equal_bytes→eq _ _ (&&-split _ (equal_bytes (trim_space a) (trim_space b)) t).1
                | inr f' ↦
                    let none_left : match_weight is_punctuation win_a win_b i j ≡ 0 =
                      rw (f, f') refl in
                    absurd (omega arith)
              ]
      ]

  IsReindented_lem :
      (lo_a lo_b n m : ℕ) (ps : List (ℕ × ℕ))
      → IsAlignment (match_weight is_punctuation win_a win_b) lo_a lo_b n m ps
      → IsReindented win_a win_b ps
  IsReindented_lem lo_a lo_b n m [] p = tt
  IsReindented_lem lo_a lo_b n m ((i, j) ∷ ps) (_, _, _, _, w, rest) =
      (match_weight_lem i j w, IsReindented_lem (suc i) (suc j) n m ps rest)

  -- For a window with lines on both sides and at most 1000000 pairs of them: `alignLineWindow` adds,
  -- moved to where the window starts, matches that rise on both sides and pair lines that are equal
  -- but for the blanks around them, and no such choice of lines has a larger total weight.
  pub align_line_window_lem :
      (s : SeqScratch) (start_a start_b : ℕ) (matched : List (ℕ × ℕ))
      → 0 < length win_a
      → 0 < length win_b
      → length win_a * length win_b ≤ max_window_cells
      → (ps : List (ℕ × ℕ)) × (align_line_window is_punctuation s win_a win_b start_a start_b
            matched
          ≡ matched ++ map (offset_match start_a start_b) ps)
        × IsReindented win_a win_b ps
        × IsAlignment (match_weight is_punctuation win_a win_b) 0 0 (length win_a) (length win_b) ps
        × ((qs : List (ℕ × ℕ))
            → IsAlignment
                (match_weight is_punctuation win_a win_b)
                0
                0
                (length win_a)
                (length win_b)
                qs
            → total (match_weight is_punctuation win_a win_b) qs
              ≤ total (match_weight is_punctuation win_a win_b) ps)
  unfolding align_line_window
  align_line_window_lem s start_a start_b matched p q r =
      let n = length win_a in
      let m = length win_b in
      let weight = match_weight is_punctuation win_a win_b in
      let (rising, best) = align_weighted_optimal s n m weight true in
      let some_a : (n == 0) ≡ false = ground arith in
      let some_b : (m == 0) ≡ false = ground arith in
      let small : ltb max_window_cells (n * m) ≡ false = ground arith in
      (
        (align_weighted s n m weight true).matches,
        rw (some_a, some_b, small) refl,
        IsReindented_lem 0 0 n m _ rising,
        rising,
        best,
      )
