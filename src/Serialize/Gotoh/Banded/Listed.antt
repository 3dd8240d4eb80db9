-- ===== src/Serialize/Gotoh/Banded/Listed.antt =====
-- What alignGapGotohBanded appends lists the lines of the gap in order, whether it falls back to the
-- dense table or not.
use diffmantic.Base.{
  ℕ, zero, suc, ◌+◌, ◌*◌, ◌-◌, ◌≤◌, ◌<◌, ◌≡◌, ◌⊎◌, inl, inr, refl, arith, subst, ◌∙◌, some, List,
  [], Bool, true, false, Option, if◌then◌else◌, ap,
}
use diffmantic.Base.Int.{ℤ, pos, ◌≤ℤ◌}
use diffmantic.Render.Hunks.{LineAlignmentPair}
use diffmantic.Serialize.Listing.{
  IsListing, IsListing-same, IsListing-nil, IsListing-pair, IsListing-left, IsListing-right,
}
use diffmantic.Serialize.Gotoh.{
  Table, GapState, both, left_only, right_only, first_state, max_gotoh_matrix_cells,
}
use diffmantic.Serialize.Gotoh.Walk.{
  IsReady, first_state-IsReady, selected, align_gap_dense-IsListing,
}
use diffmantic.Serialize.Gotoh.Banded.{Center, banded_table, hugs, walk_banded, align_gap_banded}
use diffmantic.Serialize.Gotoh.Banded.Band.{
  AtLeast, first_state-value, hi, j_min_rises, j_min_le, j_max_last, banded_table-AtLeast,
}
use diffmantic.Serialize.Gotoh.Banded.Walk.{
  IsGood, above_state-IsReady_banded, before_state-IsReady_banded, stays_pair, stays_right,
  last_value,
}

-- A gap of so few cells, with more than 40 lines on either side, has few lines.
product_ge : (a n : ℕ) → 41 ≤ n → 41 * n + 41 * a ≤ (41 + a) * n
product_ge zero n h = omega arith
product_ge (suc a) n h = omega (arith, product_ge a n h)

few_lines : (m n : ℕ) → 40 < m → 40 < n → m * n ≤ max_gotoh_matrix_cells → 15 * (m + n) < 999900
few_lines m n h k cells =
    let more : 41 + (m - 41) ≡ m = omega arith in
    let product : 41 * n + 41 * (m - 41) ≤ m * n =
      subst (λ x. 41 * n + 41 * (m - 41) ≤ x * n) more (product_ge (m - 41) n k) in
    omega (arith, product)

module _ (floor_center ceil_center : Center) (m n : ℕ)
    (mono : (i : ℕ) → floor_center m n i ≤ floor_center m n (suc i)) (score : ℕ → ℕ → ℤ) (s d : ℕ)
    (wide_m : 40 < m) (wide_n : 40 < n) (small_m : 2 * m < 999970) (small_n : 2 * n < 999970)
    (small : 15 * (m + n) < 999900) (scores : (a b : ℕ) → score a b ≤ℤ pos 65)
    (dense : Option (List LineAlignmentPair)) where
  abbrev t : Table
  t = banded_table floor_center ceil_center m n score s d

  abbrev Good : GapState → ℕ → ℕ → Type 0
  Good =
      IsGood floor_center ceil_center m n mono score s d wide_m wide_n small_m small_n small scores

  abbrev Listed : Option (List LineAlignmentPair) → Type 0
  Listed o = (ps : List LineAlignmentPair) × ((o ≡ some ps) × IsListing s m d n ps)

  -- At the boundary the dense table answers.
  or_dense :
      (hug : Bool) (rest : Option (List LineAlignmentPair))
      → Listed dense
      → (hug ≡ false → Listed rest)
      → Listed (if hug then dense else rest)
  or_dense true rest h f = h
  or_dense false rest h f = f refl

  walk_banded-IsListing :
      (fuel : ℕ) (state : GapState) (i j k l : ℕ) (temp : List LineAlignmentPair)
      → Listed dense
      → i + j ≤ fuel
      → (i + j ≡ 0) ⊎ IsReady state i j
      → Good state i j
      → i + k ≡ m
      → j + l ≡ n
      → IsListing (s + i) k (d + j) l temp
      → Listed (walk_banded floor_center ceil_center m n t s d dense fuel state i j temp)
  unfolding walk_banded
  walk_banded-IsListing fuel state zero zero k l temp dl h ready good e g lines =
      (temp, (refl, IsListing-same (omega arith) (omega arith) (omega arith) (omega arith) lines))
  walk_banded-IsListing zero state (suc i) zero k l temp dl h ready good e g lines =
      absurd (omega arith)
  walk_banded-IsListing zero state zero (suc j) k l temp dl h ready good e g lines =
      absurd (omega arith)
  walk_banded-IsListing zero state (suc i) (suc j) k l temp dl h ready good e g lines =
      absurd (omega arith)
  walk_banded-IsListing (suc fuel) both (suc i) (suc j) k l temp dl h ready good e g lines =
      or_dense (hugs floor_center ceil_center m n (suc i) (suc j)) _ dl (λ free.
        walk_banded-IsListing fuel _ i j (suc k) (suc l) _ dl (omega arith) (selected (t i j) i j)
          (
            stays_pair floor_center ceil_center m n mono score s d wide_m wide_n small_m small_n
                small scores i j (omega arith) (omega arith) free good,
            λ last. absurd (omega arith),
          )
          (omega arith) (omega arith) (IsListing-pair (omega arith) (omega arith) lines))
  walk_banded-IsListing (suc fuel) both (suc i) zero k l temp dl h ready good e g lines =
      absurd (ground arith)
  walk_banded-IsListing (suc fuel) both zero (suc j) k l temp dl h ready good e g lines =
      absurd (ground arith)
  walk_banded-IsListing (suc fuel) left_only (suc i) zero k l temp dl h ready good e g lines =
      walk_banded-IsListing fuel left_only i zero (suc k) l _ dl (omega arith) (ground arith)
        (λ a b. absurd (omega arith), λ a b. absurd (omega arith)) (omega arith) g
        (IsListing-left (omega arith) lines)
  walk_banded-IsListing (suc fuel) left_only (suc i) (suc j) k l temp dl h ready good e g lines =
      let in_band = good.0 (omega arith) (omega arith) in
      or_dense (hugs floor_center ceil_center m n (suc i) (suc j)) _ dl (λ free.
        walk_banded-IsListing fuel _ i (suc j) (suc k) l _ dl (omega arith)
          (inr (
            above_state-IsReady_banded floor_center ceil_center m n mono score s d wide_m wide_n
              small_m small_n small scores i j (omega arith) (omega arith) in_band))
          (
            λ a b. omega (arith, in_band, j_min_rises floor_center ceil_center m n mono i),
            λ last. absurd (omega arith),
          )
          (omega arith) g (IsListing-left (omega arith) lines))
  walk_banded-IsListing (suc fuel) left_only zero (suc j) k l temp dl h ready good e g lines =
      absurd (ground arith)
  walk_banded-IsListing (suc fuel) right_only zero (suc j) k l temp dl h ready good e g lines =
      walk_banded-IsListing fuel right_only zero j k (suc l) _ dl (omega arith) (ground arith)
        (λ a b. absurd (omega arith), λ a b. absurd (omega arith)) e (omega arith)
        (IsListing-right (omega arith) lines)
  walk_banded-IsListing (suc fuel) right_only (suc i) (suc j) k l temp dl h ready good e g lines =
      let in_band = good.0 (omega arith) (omega arith) in
      or_dense (hugs floor_center ceil_center m n (suc i) (suc j)) _ dl (λ free.
        walk_banded-IsListing fuel _ (suc i) j k (suc l) _ dl (omega arith)
          (inr (
            before_state-IsReady_banded floor_center ceil_center m n mono score s d wide_m wide_n
              small_m small_n small scores i j (omega arith) (omega arith) in_band))
          (
            λ a b.
                stays_right floor_center ceil_center m n mono score s d wide_m wide_n small_m
                  small_n small scores i j (omega arith) (omega arith) free good b,
            λ last b.
                last_value floor_center ceil_center m n mono score s d wide_m wide_n small_m small_n
                  small scores i j (omega arith) good last,
          )
          e (omega arith) (IsListing-right (omega arith) lines))
  walk_banded-IsListing (suc fuel) right_only (suc i) zero k l temp dl h ready good e g lines =
      absurd (ground arith)

  -- The last cell has at least the value of a path of gaps.
  last_cell-AtLeast : (i j : ℕ) → suc i ≡ m → suc j ≡ n → AtLeast (15 * (m + n)) (t (suc i) (suc j))
  last_cell-AtLeast i j e f =
      let before = j_min_le floor_center ceil_center m n mono (suc i) (omega arith) wide_n in
      let all : hi floor_center ceil_center m n mono (suc i) ≡ n =
        ap (hi floor_center ceil_center m n mono) e
        ∙ j_max_last floor_center ceil_center m n mono (omega arith) in
      banded_table-AtLeast floor_center ceil_center m n mono score s d wide_n (suc (i + j)) i j
        (15 * (m + n)) (omega arith) (omega arith)
        (omega arith, omega (arith, before), omega (arith, all))

  first_state-Good : Good (first_state (t m n) m n) m n
  first_state-Good =
      let e : suc (m - 1) ≡ m = omega arith in
      let f : suc (n - 1) ≡ n = omega arith in
      let value : AtLeast (15 * (m + n)) (t m n) =
        subst (λ x. AtLeast (15 * (m + n)) (t x n)) e
          (subst (λ y. AtLeast (15 * (m + n)) (t (suc (m - 1)) y)) f
            (last_cell-AtLeast (m - 1) (n - 1) e f)) in
      (
        λ a b. omega (arith, j_min_le floor_center ceil_center m n mono m (omega arith) wide_n),
        λ last b. first_state-value (t m n) m n (15 * (m + n)) (omega arith) (omega arith) value,
      )

  pub from_last :
      Listed dense
      → Listed (
          walk_banded floor_center ceil_center m n t s d dense
            (m + n)
            (first_state (t m n) m n)
            m
            n
            [])
  from_last dl =
      walk_banded-IsListing (m + n) (first_state (t m n) m n) m n 0 0 [] dl (omega arith)
        (inr (first_state-IsReady (t m n) m n (inl (omega arith)))) first_state-Good (omega arith)
        (omega arith) (IsListing-nil (s + m) (d + n))

-- For a gap of more than 40 lines on either side and of at most `maxGotohMatrixCells` cells, if no
-- score is over 65 and the product of a row's number with the slope of the band, rounded down, does
-- not fall from row to row: the backtracking of the banded table ends without a step before the first
-- line, and what the call appends lists the lines of the gap, each once and in order, whether it
-- falls back to the dense table or not.
pub align_gap_banded-IsListing :
    (floor_center ceil_center : Center) (score : ℕ → ℕ → ℤ) (stale : Table)
    (s_start s_end d_start d_end : ℕ)
    → ((i : ℕ)
        → floor_center (s_end - s_start) (d_end - d_start) i
          ≤ floor_center (s_end - s_start) (d_end - d_start) (suc i))
    → ((a b : ℕ) → score a b ≤ℤ pos 65)
    → 40 < s_end - s_start
    → 40 < d_end - d_start
    → (s_end - s_start) * (d_end - d_start) ≤ max_gotoh_matrix_cells
    → (ps : List LineAlignmentPair) × ((align_gap_banded floor_center ceil_center score stale
            s_start s_end d_start d_end
          ≡ some ps)
        × IsListing s_start (s_end - s_start) d_start (d_end - d_start) ps)
unfolding align_gap_banded
align_gap_banded-IsListing floor_center ceil_center score stale s s' d d' mono scores h k cells =
    let m = s' - s in
    let n = d' - d in
    let few = few_lines m n h k cells in
    from_last floor_center ceil_center m n mono score s d h k (omega (arith, few))
      (omega (arith, few)) few scores _
      (align_gap_dense-IsListing score stale s s' d d' (omega arith) (omega arith)
        (omega (arith, few)) (omega (arith, few)))
