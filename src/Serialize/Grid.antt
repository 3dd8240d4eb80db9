-- ===== src/Serialize/Grid.antt =====
-- internal/serialize/align.go: the grid between anchors, and the gaps too large for a table, which
-- are divided at the lines that the line diff matches. `floor_center` and `ceil_center` are the
-- floating point numbers of the banded table; `score` is `lineMatchScore` of two lines, and `stale`
-- what the pooled buffer holds when the dense table of the gap at two lines is begun.
pub mod Listed
pub mod Whole
use diffmantic.Base.{
  ℕ, zero, suc, ◌+◌, ◌-◌, ◌*◌, Bool, ◌||◌, Option, none, some, List, [], ◌∷◌, ◌++◌, ltb, leb, ◌==◌,
  if◌then◌else◌, length, take, drop,
}
use diffmantic.Base.Int.{ℤ}
use diffmantic.Render.Hunks.{LineAlignmentPair}
use diffmantic.Engine.SeqDiff.{SeqScratch}
use diffmantic.Engine.WordDiff.Tokens.{Bytes}
use diffmantic.Engine.LineDiff.Patience.{LinePair}
use diffmantic.Engine.LineDiff.Whole.{line_diff}
use diffmantic.Serialize.Gotoh.{Table, align_gap_dense, max_gotoh_matrix_cells}
use diffmantic.Serialize.Gotoh.Banded.{Center, align_gap_banded}

-- `anchor`: a line of either side, as in a `linePair`.
abbrev pub Anchor : Type 0
Anchor = LinePair

abbrev pub Pairs : Type 0
Pairs = List LineAlignmentPair

-- An aligner of the gap between two lines of either side; `none` for a panic.
abbrev pub Aligner : Type 0
Aligner = ℕ → ℕ → ℕ → ℕ → Option Pairs

infixl 5 ◌>>=◌
abbrev pub ◌>>=◌ {ℓ κ} : {A : Type ℓ} {B : Type κ} → Option A → (A → Option B) → Option B
none >>= f = none
some a >>= f = f a

-- The loops that append lines of one side only.
unfoldable pub left_run : ℕ → ℕ → Pairs
left_run s zero = []
left_run s (suc k) = record { left_line = some s; right_line = none } ∷ left_run (suc s) k

unfoldable pub right_run : ℕ → ℕ → Pairs
right_run d zero = []
right_run d (suc k) = record { left_line = none; right_line = some d } ∷ right_run (suc d) k

-- The loop over the anchors, each behind the gap before it, with the last gap. It stands both in
-- `emitGrid` and in the division of a large gap.
unfoldable pub emit : Aligner → List Anchor → ℕ → ℕ → ℕ → ℕ → Option Pairs
emit gap [] s s_end d d_end = gap s s_end d d_end
emit gap (a ∷ anchors) s s_end d d_end = do
  before ← gap s a.i d a.j
  rest ← emit gap anchors (a.i + 1) s_end (a.j + 1) d_end
  some (before ++ record { left_line = some a.i; right_line = some a.j } ∷ rest)

-- `matched[i]`: the entry written last.
unfoldable pub matched_line : List (ℕ × ℕ) → ℕ → Option ℕ
matched_line [] i = none
matched_line ((a, b) ∷ ms) i = elim (matched_line ms i) [
  | some j ↦ some j
  | none ↦ if a == i then some b else none
]

-- The loop over the lines `i` of the gap; `next` is `lastDst + 1`.
unfoldable pub sub_anchors : List (ℕ × ℕ) → ℕ → ℕ → ℕ → ℕ → ℕ → List Anchor
unfolding matched_line
sub_anchors matched s_start d_start zero i next = []
sub_anchors matched s_start d_start (suc rounds) i next =
    let skipped = sub_anchors matched s_start d_start rounds (suc i) next in
    elim (matched_line matched i) [
      | none ↦ skipped
      | some j ↦
          let taken = sub_anchors matched s_start d_start rounds (suc i) (suc j) in
          if leb next j then record { i = s_start + i; j = d_start + j } ∷ taken else skipped
    ]

module _ (is_punctuation : Bytes → Bool) (line_scratch : SeqScratch)
    (src_lines dst_lines : List Bytes) where
  unfoldable pub gap_anchors : ℕ → ℕ → ℕ → ℕ → List Anchor
  unfolding line_diff sub_anchors
  gap_anchors s_start s_end d_start d_end =
      let sub_src = take (s_end - s_start) (drop s_start src_lines) in
      let sub_dst = take (d_end - d_start) (drop d_start dst_lines) in
      sub_anchors (line_diff is_punctuation line_scratch sub_src sub_dst) s_start d_start
        (length sub_src) 0 0

module _ (is_punctuation : Bytes → Bool) (line_scratch : SeqScratch) (score : ℕ → ℕ → ℤ)
    (stale : ℕ → ℕ → Table) (floor_center ceil_center : Center)
    (src_lines dst_lines : List Bytes) where
  -- What the call appends to the grid. A gap between anchors has fewer lines on the left than the
  -- gap that they divide, so one round more than there are lines is enough.
  unfoldable pub align_gap : ℕ → Aligner
  unfolding left_run right_run emit gap_anchors align_gap_dense align_gap_banded
  align_gap zero s_start s_end d_start d_end = none
  align_gap (suc fuel) s_start s_end d_start d_end =
      let src_count = s_end - s_start in
      let dst_count = d_end - d_start in
      let anchors =
        gap_anchors is_punctuation line_scratch src_lines dst_lines s_start s_end d_start d_end in
      let divided = emit (align_gap fuel) anchors s_start s_end d_start d_end in
      if src_count == 0
      then some (right_run d_start dst_count)
      else if dst_count == 0
      then some (left_run s_start src_count)
      else if ltb max_gotoh_matrix_cells (src_count * dst_count)
      then (if length anchors == 0
          then some (left_run s_start src_count ++ right_run d_start dst_count)
          else divided)
      else if leb src_count 40 || leb dst_count 40 || leb (src_count * dst_count) 3600
      then align_gap_dense score (stale s_start d_start) s_start s_end d_start d_end
      else align_gap_banded floor_center ceil_center score (stale s_start d_start) s_start s_end
          d_start d_end

  unfoldable pub emit_grid : List Anchor → Option Pairs
  unfolding emit align_gap
  emit_grid anchors =
      emit (align_gap (suc (length src_lines))) anchors 0 (length src_lines) 0 (length dst_lines)
