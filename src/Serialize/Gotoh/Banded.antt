-- ===== src/Serialize/Gotoh/Banded.antt =====
-- internal/serialize/align.go: alignGapGotohBanded, which fills only the cells of a band around the
-- diagonal of the table, and bandBounds. What they compute with floating point numbers are the
-- arguments `floor_center` and `ceil_center`: for `m`, `n` and `i`, `int(math.Floor(center))` and
-- `int(math.Ceil(center))`, where `center` is `float64(i) * (float64(n) / float64(m))`. A
-- difference that is negative in the source is 0 here: the lower bound counts from 2 on only, and the
-- upper one is a maximum with `i`.
pub mod Filled
pub mod Band
pub mod Walk
pub mod Listed
use diffmantic.Base.{
  ℕ, zero, suc, ◌+◌, ◌-◌, ◌/◌, min, max, Bool, ◌&&◌, ◌||◌, Option, none, some, List, [], ◌∷◌, ltb,
  leb, ◌==◌, if◌then◌else◌,
}
use diffmantic.Base.Int.{ℤ, pos}
use diffmantic.Render.Hunks.{LineAlignmentPair}
use diffmantic.Serialize.Gotoh.{
  Cell, Table, GapState, both, left_only, right_only, neg_inf, put_cell, border_column, border_row,
  gotoh_row, select_state, first_state, above_state, before_state, align_gap_dense,
}

abbrev pub low_cell : Cell
low_cell = record { m = neg_inf; ix = neg_inf; iy = neg_inf }

abbrev pub Center : Type 0
Center = ℕ → ℕ → ℕ → ℕ

module _ (floor_center ceil_center : Center) (m n : ℕ) where
  unfoldable pub half_width : ℕ
  half_width = max 64 ((m - n + (n - m)) / 2 + 32)

  unfoldable pub raw_min : ℕ → ℕ
  unfolding half_width
  raw_min i = min (min (floor_center m n i) i) (i + n - m) - half_width

  unfoldable pub raw_max : ℕ → ℕ
  unfolding half_width
  raw_max i = max (max (ceil_center m n i) i) (i + n - m) + half_width

  -- The two results of `bandBounds`.
  unfoldable pub j_min : ℕ → ℕ
  unfolding raw_min
  j_min i = if leb i 1 then 1 else max 1 (raw_min i)

  unfoldable pub j_max : ℕ → ℕ
  unfolding raw_max half_width
  j_max i =
      if leb i 1 then min n (max (ceil_center m n 1) (n - m) + half_width) else min n (raw_max i)

  module _ (score : ℕ → ℕ → ℤ) (s_start d_start : ℕ) where
    unfoldable pub banded_rows : ℕ → ℕ → Table → Table
    unfolding j_min j_max gotoh_row
    banded_rows zero i t = t
    banded_rows (suc rounds) i t =
        banded_rows rounds (suc i)
          (gotoh_row score s_start d_start (j_max i + 1 - j_min i) i (j_min i) t)

    -- The buffer is cleared, all of it, before the borders are set.
    unfoldable pub banded_table : Table
    unfolding put_cell border_column border_row banded_rows
    banded_table = banded_rows m 1 (
        border_row n 1 (
          border_column m 1
            (put_cell (λ i j. low_cell) 0 0 (record { m = pos 0; ix = neg_inf; iy = neg_inf }))))

  -- The path is at the boundary of the band, on an inner cell.
  unfoldable pub hugs : ℕ → ℕ → Bool
  unfolding raw_min raw_max
  hugs i j =
      ltb 0 i
      && ltb i m
      && ltb 0 j
      && ltb j n
      && ((ltb 1 (raw_min i) && j == raw_min i) || (ltb (raw_max i) n && j == raw_max i))

  module _ (t : Table) (s_start d_start : ℕ) (dense : Option (List LineAlignmentPair)) where
    -- The backtracking. `dense` is what the call of `alignGapGotohDense` returns.
    unfoldable pub walk_banded :
        ℕ → GapState → ℕ → ℕ → List LineAlignmentPair → Option (List LineAlignmentPair)
    unfolding select_state above_state before_state hugs
    walk_banded fuel state zero zero temp = some temp
    walk_banded zero state i j temp = none
    walk_banded (suc fuel) both (suc i) (suc j) temp =
        let rest =
          walk_banded fuel (select_state (t i j) i j) i j
            (record { left_line = some (s_start + i); right_line = some (d_start + j) } ∷ temp) in
        if hugs (suc i) (suc j) then dense else rest
    walk_banded (suc fuel) both i j temp = none
    walk_banded (suc fuel) left_only (suc i) zero temp =
        walk_banded fuel left_only i zero
          (record { left_line = some (s_start + i); right_line = none } ∷ temp)
    walk_banded (suc fuel) left_only (suc i) (suc j) temp =
        let rest =
          walk_banded fuel (above_state (t (suc i) (suc j)) (t i (suc j))) i (suc j)
            (record { left_line = some (s_start + i); right_line = none } ∷ temp) in
        if hugs (suc i) (suc j) then dense else rest
    walk_banded (suc fuel) left_only zero j temp = none
    walk_banded (suc fuel) right_only zero (suc j) temp =
        walk_banded fuel right_only zero j
          (record { left_line = none; right_line = some (d_start + j) } ∷ temp)
    walk_banded (suc fuel) right_only (suc i) (suc j) temp =
        let rest =
          walk_banded fuel (before_state (t (suc i) (suc j)) (t (suc i) j)) (suc i) j
            (record { left_line = none; right_line = some (d_start + j) } ∷ temp) in
        if hugs (suc i) (suc j) then dense else rest
    walk_banded (suc fuel) right_only i zero temp = none

-- What the call appends to the grid. `stale` is what the pooled buffer holds before.
unfoldable pub align_gap_banded :
    Center → Center → (ℕ → ℕ → ℤ) → Table → ℕ → ℕ → ℕ → ℕ → Option (List LineAlignmentPair)
unfolding banded_table first_state walk_banded align_gap_dense
align_gap_banded floor_center ceil_center score stale s_start s_end d_start d_end =
    let m = s_end - s_start in
    let n = d_end - d_start in
    let t = banded_table floor_center ceil_center m n score s_start d_start in
    let dense = align_gap_dense score stale s_start s_end d_start d_end in
    walk_banded floor_center ceil_center m n t s_start d_start dense (m + n)
      (first_state (t m n) m n) m n []
