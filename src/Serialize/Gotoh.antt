-- ===== src/Serialize/Gotoh.antt =====
-- internal/serialize/align.go: alignGapGotohDense, the alignment of a gap between two anchors with
-- affine gap costs. The three layers of the flat array are the fields of a cell; what the pooled
-- buffer holds before is an argument. `score` is `lineMatchScore` of two lines.
pub mod Filled
pub mod Walk
pub mod Banded
use diffmantic.Base.{
  ℕ, zero, suc, ◌+◌, ◌-◌, ◌*◌, Bool, true, false, not, ◌&&◌, ◌||◌, Option, none, some, List, [],
  ◌∷◌, ◌++◌, ltb, ◌==◌, if◌then◌else◌,
}
use diffmantic.Base.Int.{ℤ, pos, negsuc, ◌+ℤ◌, eq_ℤ, max_ℤ}
use diffmantic.Render.Hunks.{LineAlignmentPair}

abbrev pub max_gotoh_matrix_cells : ℕ
max_gotoh_matrix_cells = 1000000

abbrev pub gap_open : ℤ
gap_open = negsuc 14

abbrev pub gap_extend : ℤ
gap_extend = negsuc 1

abbrev pub neg_inf : ℤ
neg_inf = negsuc 999999

-- `gapOpen + k*gapExtend`
abbrev pub gap_cost : ℕ → ℤ
gap_cost k = negsuc (14 + 2 * k)

-- The best value of an alignment that ends in a pair, a line on the left, a line on the right.
pub record Cell : Type 0 where
  pub m : ℤ
  pub ix : ℤ
  pub iy : ℤ

abbrev pub Table : Type 0
Table = ℕ → ℕ → Cell

unfoldable pub put_cell : Table → ℕ → ℕ → Cell → Table
put_cell t i j c a b = if a == i && b == j then c else t a b

unfoldable pub max3 : ℤ → ℤ → ℤ → ℤ
unfolding max_ℤ
max3 a b c = max_ℤ (max_ℤ a b) c

-- The first column from row `i` on and the first row from column `j` on.
unfoldable pub border_column : ℕ → ℕ → Table → Table
unfolding put_cell
border_column zero i t = t
border_column (suc rounds) i t =
    border_column rounds (suc i)
      (put_cell t i 0 (record { m = neg_inf; ix = gap_cost (i - 1); iy = neg_inf }))

unfoldable pub border_row : ℕ → ℕ → Table → Table
unfolding put_cell
border_row zero j t = t
border_row (suc rounds) j t =
    border_row rounds (suc j)
      (put_cell t 0 j (record { m = neg_inf; ix = neg_inf; iy = gap_cost (j - 1) }))

-- A cell from those diagonally before it, above it and left of it.
unfoldable pub next_cell : Cell → Cell → Cell → ℤ → Cell
unfolding max3 ◌+ℤ◌
next_cell d u l s = record {
  m = max3 d.m d.ix d.iy +ℤ s;
  ix = max3 (u.m +ℤ gap_open) (u.ix +ℤ gap_extend) (u.iy +ℤ gap_open);
  iy = max3 (l.m +ℤ gap_open) (l.ix +ℤ gap_open) (l.iy +ℤ gap_extend);
}

module _ (score : ℕ → ℕ → ℤ) (s_start d_start : ℕ) where
  unfoldable pub gotoh_cell : Table → ℕ → ℕ → Table
  unfolding put_cell next_cell
  gotoh_cell t i j = put_cell t i j (
      next_cell (t (i - 1) (j - 1)) (t (i - 1) j) (t i (j - 1))
        (score (s_start + i - 1) (d_start + j - 1)))

  unfoldable pub gotoh_row : ℕ → ℕ → ℕ → Table → Table
  unfolding gotoh_cell
  gotoh_row zero i j t = t
  gotoh_row (suc rounds) i j t = gotoh_row rounds i (suc j) (gotoh_cell t i j)

  unfoldable pub gotoh_rows : ℕ → ℕ → ℕ → Table → Table
  unfolding gotoh_row
  gotoh_rows n zero i t = t
  gotoh_rows n (suc rounds) i t = gotoh_rows n rounds (suc i) (gotoh_row n i 1 t)

  unfoldable pub gotoh_table : ℕ → ℕ → Table → Table
  unfolding put_cell border_column border_row gotoh_rows
  gotoh_table m n stale = gotoh_rows n m 1 (
      border_row n 1
        (border_column m 1 (put_cell stale 0 0 (record { m = pos 0; ix = neg_inf; iy = neg_inf }))))

-- The states 0, 1 and 2 of the backtracking.
pub data GapState : Type 0 where
  both left_only right_only : GapState

unfoldable pub select_state : Cell → ℕ → ℕ → GapState
unfolding max3
select_state c i j =
    let best = max3 c.m c.ix c.iy in
    if i == j
    then (if eq_ℤ c.m best && ltb 0 i && ltb 0 j
        then both
        else if eq_ℤ c.iy best && ltb 0 j
        then right_only
        else if eq_ℤ c.ix best && ltb 0 i
        then left_only
        else both)
    else if ltb j i
    then (if eq_ℤ c.ix best && not (eq_ℤ c.iy best) && ltb 0 i
        then left_only
        else if eq_ℤ c.iy best && ltb 0 j
        then right_only
        else if eq_ℤ c.m best && ltb 0 i && ltb 0 j
        then both
        else left_only)
    else if eq_ℤ c.iy best && ltb 0 j
    then right_only
    else if eq_ℤ c.m best && ltb 0 i && ltb 0 j
    then both
    else if eq_ℤ c.ix best && ltb 0 i
    then left_only
    else right_only

unfoldable pub first_state : Cell → ℕ → ℕ → GapState
unfolding max3 select_state
first_state c m n =
    let best = max3 c.m c.ix c.iy in
    if eq_ℤ c.iy best && ltb 0 n
    then right_only
    else if eq_ℤ c.ix best && ltb 0 m
    then left_only
    else if eq_ℤ c.m best && ltb 0 m && ltb 0 n
    then both
    else select_state c m n

-- The state behind a step up to `u`, and behind a step left to `l`.
unfoldable pub above_state : Cell → Cell → GapState
unfolding ◌+ℤ◌
above_state c u =
    if eq_ℤ c.ix (u.ix +ℤ gap_extend)
    then left_only
    else if eq_ℤ c.ix (u.m +ℤ gap_open)
    then both
    else right_only

unfoldable pub before_state : Cell → Cell → GapState
unfolding ◌+ℤ◌
before_state c l =
    if eq_ℤ c.iy (l.iy +ℤ gap_extend)
    then right_only
    else if eq_ℤ c.iy (l.ix +ℤ gap_open)
    then left_only
    else both

module _ (t : Table) (s_start d_start : ℕ) where
  -- The loop from cell `(i, j)` back to the first, which lowers `i` or `j` in each round, so `i + j`
  -- rounds are enough. `temp` is built from its end. `none`: the state asks for a line or a cell
  -- before the first.
  unfoldable pub walk :
      ℕ → GapState → ℕ → ℕ → List LineAlignmentPair → Option (List LineAlignmentPair)
  unfolding select_state above_state before_state
  walk fuel state zero zero temp = some temp
  walk zero state i j temp = none
  walk (suc fuel) both (suc i) (suc j) temp =
      walk fuel (select_state (t i j) i j) i j
        (record { left_line = some (s_start + i); right_line = some (d_start + j) } ∷ temp)
  walk (suc fuel) both i j temp = none
  walk (suc fuel) left_only (suc i) zero temp =
      walk fuel left_only i zero
        (record { left_line = some (s_start + i); right_line = none } ∷ temp)
  walk (suc fuel) left_only (suc i) (suc j) temp =
      walk fuel (above_state (t (suc i) (suc j)) (t i (suc j))) i (suc j)
        (record { left_line = some (s_start + i); right_line = none } ∷ temp)
  walk (suc fuel) left_only zero j temp = none
  walk (suc fuel) right_only zero (suc j) temp =
      walk fuel right_only zero j
        (record { left_line = none; right_line = some (d_start + j) } ∷ temp)
  walk (suc fuel) right_only (suc i) (suc j) temp =
      walk fuel (before_state (t (suc i) (suc j)) (t (suc i) j)) (suc i) j
        (record { left_line = none; right_line = some (d_start + j) } ∷ temp)
  walk (suc fuel) right_only i zero temp = none

-- What the call appends to the grid.
unfoldable pub align_gap_dense :
    (ℕ → ℕ → ℤ) → Table → ℕ → ℕ → ℕ → ℕ → Option (List LineAlignmentPair)
unfolding gotoh_table first_state walk
align_gap_dense score stale s_start s_end d_start d_end =
    let m = s_end - s_start in
    let n = d_end - d_start in
    let t = gotoh_table score s_start d_start m n stale in
    walk t s_start d_start (m + n) (first_state (t m n) m n) m n []
