-- ===== src/Serialize/Gotoh/Banded/Walk.antt =====
-- The backtracking of alignGapGotohBanded stays right of the left boundary of the band, so it lists
-- the lines of the gap in order.
use diffmantic.Base.{
  ℕ, zero, suc, ◌+◌, ◌*◌, ◌≤◌, ◌<◌, ◌≡◌, inl, inr, arith, subst, sym, ◌∙◌, false, dec_lt, ap,
}
use diffmantic.Base.Int.{ℤ, pos, negsuc, ◌≤ℤ◌}
use diffmantic.Serialize.Gotoh.{
  Table, GapState, both, right_only, next_cell, above_state, before_state,
}
use diffmantic.Serialize.Gotoh.Walk.{IsReady, above_state-top, before_state-left, IsReady-inside}
use diffmantic.Serialize.Gotoh.Banded.{Center, banded_table, hugs}
use diffmantic.Serialize.Gotoh.Banded.Filled.{
  j_max_ge, banded_column, banded_top, banded_inside, banded_outside,
}
use diffmantic.Serialize.Gotoh.Banded.Band.{
  state_value, before_state-value, low_pair, low_step, above_state-low, lo, hi, j_min_rises,
  j_min_le, j_max_last, hugs_boundary,
}

module _ (floor_center ceil_center : Center) (m n : ℕ)
    (mono : (i : ℕ) → floor_center m n i ≤ floor_center m n (suc i)) (score : ℕ → ℕ → ℤ) (s d : ℕ)
    (wide_m : 40 < m) (wide_n : 40 < n) (small_m : 2 * m < 999970) (small_n : 2 * n < 999970)
    (small : 15 * (m + n) < 999900) (scores : (a b : ℕ) → score a b ≤ℤ pos 65) where
  abbrev pub t : Table
  t = banded_table floor_center ceil_center m n score s d

  abbrev pub first_column : ℕ → ℕ
  first_column = lo floor_center ceil_center m n mono

  abbrev pub last_column : ℕ → ℕ
  last_column = hi floor_center ceil_center m n mono

  pub above_state-IsReady_banded :
      (i j : ℕ)
      → i < m
      → j < n
      → first_column (suc i) ≤ suc j
      → IsReady (above_state (t (suc i) (suc j)) (t i (suc j))) i (suc j)
  above_state-IsReady_banded zero j hi hj in_band =
      rw (banded_top floor_center ceil_center m n score s d j hj)
        (elim (dec_lt (last_column 1) (suc j)) [
          | yes out ↦ rw (banded_outside floor_center ceil_center m n score s d 0 j (inr out)) (
              subst (λ x. IsReady x 0 (suc j)) (sym (above_state-low j (omega arith)))
                (omega arith))
          | no within ↦
              rw
                (
                  banded_inside floor_center ceil_center m n score s d 0 j hi in_band (omega arith),
                  banded_top floor_center ceil_center m n score s d j hj,
                )
                (subst (λ x. IsReady x 0 (suc j))
                  (sym (above_state-top (t 0 j) (t 1 j) j (score (s + 0) (d + j)) (omega arith)))
                  (omega arith))
        ])
  above_state-IsReady_banded (suc i) j hi hj in_band = IsReady-inside _ i j

  pub before_state-IsReady_banded :
      (i j : ℕ)
      → i < m
      → j < n
      → first_column (suc i) ≤ suc j
      → IsReady (before_state (t (suc i) (suc j)) (t (suc i) j)) (suc i) j
  before_state-IsReady_banded i zero hi hj in_band =
      rw
        (
          banded_inside floor_center ceil_center m n score s d i 0 hi in_band
              (j_max_ge floor_center ceil_center m n (suc i) (omega arith)),
          banded_column floor_center ceil_center m n score s d i hi,
        )
        (subst (λ x. IsReady x (suc i) 0)
          (sym (before_state-left (t i 0) (t i 1) i (score (s + i) (d + 0)) (omega arith)))
          (omega arith))
  before_state-IsReady_banded i (suc j) hi hj in_band = IsReady-inside _ i j

  -- In the last row the state's value is at least that of the gaps.
  abbrev pub IsGood : GapState → ℕ → ℕ → Type 0
  IsGood state i j =
      (0 < i → 0 < j → first_column i ≤ j)
      × (i ≡ m → 0 < j → negsuc (15 * (m + n)) ≤ℤ state_value state (t i j))

  -- The last row's cells right of its boundary are in the band.
  last_step :
      (i j : ℕ)
      → suc i ≡ m
      → j < n
      → first_column (suc i) ≤ suc j
      → t (suc i) (suc j) ≡ next_cell (t i j) (t i (suc j)) (t (suc i) j) (score (s + i) (d + j))
  last_step i j e hj in_band =
      let all : last_column (suc i) ≡ n =
        ap last_column e ∙ j_max_last floor_center ceil_center m n mono (omega arith) in
      banded_inside floor_center ceil_center m n score s d i j (omega arith) in_band
        (omega (arith, all))

  -- A cell that is not at the boundary, or lies in the last row or column.
  boundary_left :
      (i j : ℕ)
      → i < m
      → j < n
      → hugs floor_center ceil_center m n (suc i) (suc j) ≡ false
      → 0 < j
      → first_column (suc i) ≡ suc j
      → suc i ≡ m
  boundary_left i j hi hj free h e = elim (dec_lt (suc i) m) [
    | no last ↦ omega arith
    | yes inner ↦
        let before_last = j_min_le floor_center ceil_center m n mono (suc i) hi wide_n in
        let hug =
          hugs_boundary floor_center ceil_center m n mono (suc i) (suc j) (omega arith) inner
            (omega arith) (omega (arith, before_last)) e in
        absurd (ground (arith, hug, free))
  ]

  -- A step that pairs lines, and one that lists a line on the right, stay right of the boundary.
  pub stays_pair :
      (i j : ℕ)
      → i < m
      → j < n
      → hugs floor_center ceil_center m n (suc i) (suc j) ≡ false
      → IsGood both (suc i) (suc j)
      → 0 < i
      → 0 < j
      → first_column i ≤ j
  stays_pair zero j hi hj free good h k = absurd (omega arith)
  stays_pair (suc i) zero hi hj free good h k = absurd (omega arith)
  stays_pair (suc i) (suc j) hi hj free (right, value) h k =
      elim (dec_lt (suc j) (first_column (suc i))) [
        | no ge ↦ omega arith
        | yes out ↦
            let rises = j_min_rises floor_center ceil_center m n mono (suc i) in
            let in_band = right (omega arith) (omega arith) in
            let last = boundary_left (suc i) (suc j) hi hj free k (omega (arith, rises, in_band)) in
            let gone = banded_outside floor_center ceil_center m n score s d i j (inl out) in
            absurd (
              low_pair (t (suc i) (suc (suc j))) (t (suc (suc i)) (suc j))
                (score (s + suc i) (d + suc j)) (15 * (m + n)) (scores _ _) small
                (subst
                  (λ c.
                    negsuc (15 * (m + n))
                    ≤ℤ (next_cell c (t (suc i) (suc (suc j))) (t (suc (suc i)) (suc j))
                        (score (s + suc i) (d + suc j))).m)
                  gone
                  (subst (λ c. negsuc (15 * (m + n)) ≤ℤ c.m)
                    (last_step (suc i) (suc j) last hj in_band) (value last (omega arith)))))
      ]

  pub stays_right :
      (i j : ℕ)
      → i < m
      → j < n
      → hugs floor_center ceil_center m n (suc i) (suc j) ≡ false
      → IsGood right_only (suc i) (suc j)
      → 0 < j
      → first_column (suc i) ≤ j
  stays_right i zero hi hj free good k = absurd (omega arith)
  stays_right i (suc j) hi hj free (right, value) k = elim (dec_lt (suc j) (first_column (suc i))) [
    | no ge ↦ omega arith
    | yes out ↦
        let in_band = right (omega arith) (omega arith) in
        let last = boundary_left i (suc j) hi hj free k (omega (arith, in_band)) in
        let gone = banded_outside floor_center ceil_center m n score s d i j (inl out) in
        absurd (
          low_step (t i (suc j)) (t i (suc (suc j))) (score (s + i) (d + suc j)) (15 * (m + n))
            small
            (subst
              (λ c.
                negsuc (15 * (m + n))
                ≤ℤ (next_cell (t i (suc j)) (t i (suc (suc j))) c (score (s + i) (d + suc j))).iy)
              gone
              (subst (λ c. negsuc (15 * (m + n)) ≤ℤ c.iy) (last_step i (suc j) last hj in_band)
                (value last (omega arith)))))
  ]

  pub last_value :
      (i j : ℕ)
      → j < n
      → IsGood right_only (suc i) (suc j)
      → suc i ≡ m
      → negsuc (15 * (m + n))
        ≤ℤ state_value (before_state (t (suc i) (suc j)) (t (suc i) j)) (t (suc i) j)
  last_value i j hj (right, value) last =
      let in_band = right (omega arith) (omega arith) in
      let step = last_step i j last hj in_band in
      rw step (
        before_state-value (t i j) (t i (suc j)) (t (suc i) j) (score (s + i) (d + j))
          (15 * (m + n))
          (subst (λ c. negsuc (15 * (m + n)) ≤ℤ c.iy) step (value last (omega arith))))
