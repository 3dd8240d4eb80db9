-- ===== src/Serialize/Gotoh/Banded/Band.antt =====
-- The values of the banded table's cells, and the course of the band's boundaries.
use diffmantic.Base.{
  ℕ, zero, suc, ◌+◌, ◌*◌, ◌-◌, ◌≤◌, ◌<◌, ◌≡◌, ◌⊎◌, inl, inr, refl, arith, subst, Bool-cases, true,
  ltb, dec_lt,
}
use diffmantic.Base.Int.{ℤ, pos, negsuc, ◌+ℤ◌, ◌≤ℤ◌, max_ℤ, eq_ℤ, eq_ℤ→ge}
use diffmantic.Serialize.Gotoh.{
  Cell, Table, GapState, both, left_only, right_only, max3, next_cell, first_state, above_state,
  before_state,
}
use diffmantic.Serialize.Gotoh.Filled.{left_cell, top_cell}
use diffmantic.Serialize.Gotoh.Banded.{
  Center, low_cell, half_width, raw_min, raw_max, j_min, j_max, banded_table, hugs,
}
use diffmantic.Serialize.Gotoh.Banded.Filled.{banded_column, banded_inside}

-- The value of a cell in a state, and a lower bound of the best.
abbrev pub state_value : GapState → Cell → ℤ
state_value both c = c.m
state_value left_only c = c.ix
state_value right_only c = c.iy

abbrev pub AtLeast : ℕ → Cell → Type 0
AtLeast k c = (negsuc k ≤ℤ c.m) ⊎ ((negsuc k ≤ℤ c.ix) ⊎ (negsuc k ≤ℤ c.iy))

pub next_cell-AtLeast_left :
    (d u l : Cell) (s : ℤ) (k : ℕ) → AtLeast k l → negsuc (k + 15) ≤ℤ (next_cell d u l s).iy
unfolding next_cell max3 max_ℤ ◌+ℤ◌
next_cell-AtLeast_left d u l s k h = ground arith

pub next_cell-AtLeast_up :
    (d u l : Cell) (s : ℤ) (k : ℕ) → AtLeast k u → negsuc (k + 15) ≤ℤ (next_cell d u l s).ix
unfolding next_cell max3 max_ℤ ◌+ℤ◌
next_cell-AtLeast_up d u l s k h = ground arith

max3-ge : (c : Cell) (k : ℕ) → AtLeast k c → negsuc k ≤ℤ max3 c.m c.ix c.iy
unfolding max3 max_ℤ
max3-ge c k h = ground arith

max3-attained :
    (a b c : ℤ)
    → (eq_ℤ a (max3 a b c) ≡ true) ⊎ ((eq_ℤ b (max3 a b c) ≡ true) ⊎ (eq_ℤ c (max3 a b c) ≡ true))
unfolding max3 max_ℤ
max3-attained a b c = ground arith

-- The first state of the backtracking has the best value.
pub first_state-value :
    (c : Cell) (m n k : ℕ)
    → 0 < m
    → 0 < n
    → AtLeast k c
    → negsuc k ≤ℤ state_value (first_state c m n) c
unfolding first_state
first_state-value c m n k hm hn h =
    let best = max3-ge c k h in
    let some_left : ltb 0 m ≡ true = ground arith in
    let some_right : ltb 0 n ≡ true = ground arith in
    elim (Bool-cases (eq_ℤ c.iy (max3 c.m c.ix c.iy))) [
      | inl e ↦ rw (e, some_right) (omega (arith, best, eq_ℤ→ge c.iy (max3 c.m c.ix c.iy) e))
      | inr f ↦
          rw (f, some_left, some_right)
            (elim (Bool-cases (eq_ℤ c.ix (max3 c.m c.ix c.iy))) [
              | inl e ↦ rw e (omega (arith, best, eq_ℤ→ge c.ix (max3 c.m c.ix c.iy) e))
              | inr g ↦ rw g (elim (max3-attained c.m c.ix c.iy) [
                | inl e ↦ rw e (omega (arith, best, eq_ℤ→ge c.m (max3 c.m c.ix c.iy) e))
                | inr other ↦ absurd (ground (arith, f, g))
              ])
            ])
    ]

-- The state behind a step to the left loses nothing.
pub before_state-value :
    (d u l : Cell) (s : ℤ) (k : ℕ)
    → negsuc k ≤ℤ (next_cell d u l s).iy
    → negsuc k ≤ℤ state_value (before_state (next_cell d u l s) l) l
unfolding before_state next_cell max3 max_ℤ ◌+ℤ◌
before_state-value d u l s k h = ground arith

-- A cell whose neighbour is not computed has no such value.
pub low_pair :
    (u l : Cell) (s : ℤ) (k : ℕ)
    → s ≤ℤ pos 65
    → k < 999900
    → negsuc k ≤ℤ (next_cell low_cell u l s).m
    → ⊥
unfolding next_cell max3 max_ℤ ◌+ℤ◌
low_pair u l s k h small v = ground arith

pub low_step :
    (d u : Cell) (s : ℤ) (k : ℕ) → k < 999900 → negsuc k ≤ℤ (next_cell d u low_cell s).iy → ⊥
unfolding next_cell max3 max_ℤ ◌+ℤ◌
low_step d u s k small v = ground arith

pub above_state-low : (j : ℕ) → 2 * j < 999970 → above_state low_cell (top_cell j) ≡ right_only
unfolding above_state top_cell ◌+ℤ◌
above_state-low j h = ground arith

-- The band of a gap of more than 40 lines on either side.
module _ (floor_center ceil_center : Center) (m n : ℕ)
    (mono : (i : ℕ) → floor_center m n i ≤ floor_center m n (suc i)) where
  abbrev pub lo : ℕ → ℕ
  lo = j_min floor_center ceil_center m n

  abbrev pub hi : ℕ → ℕ
  hi = j_max floor_center ceil_center m n

  pub j_min_rises : (i : ℕ) → lo i ≤ lo (suc i)
  unfolding j_min raw_min half_width
  j_min_rises i = ground (arith, mono i)

  pub j_min_le : (i : ℕ) → i ≤ m → 40 < n → lo i < n
  unfolding j_min raw_min half_width
  j_min_le i h k = ground arith

  -- The boundary of a row is in the band of the row before it.
  pub j_min_meets : (i : ℕ) → suc i ≤ m → 40 < n → lo (suc i) ≤ hi i
  unfolding j_min j_max raw_min raw_max half_width
  j_min_meets i h k = ground arith

  pub j_max_last : 1 < m → hi m ≡ n
  unfolding j_max raw_max half_width
  j_max_last h = ground arith

  -- On an inner cell the boundary is noticed.
  pub hugs_boundary :
      (i j : ℕ)
      → 0 < i
      → i < m
      → 1 < j
      → j < n
      → lo i ≡ j
      → hugs floor_center ceil_center m n i j ≡ true
  unfolding j_min hugs raw_min raw_max half_width
  hugs_boundary i j a b c d e = ground (arith, e)

  -- The value that a path of gaps through the band gives.
  module _ (score : ℕ → ℕ → ℤ) (s d : ℕ) (wide : 40 < n) where
    abbrev table : Table
    table = banded_table floor_center ceil_center m n score s d

    abbrev InBand : ℕ → ℕ → Type 0
    InBand i j = (i < m) × (lo (suc i) ≤ suc j) × (suc j ≤ hi (suc i))

    from_left :
        (i j k : ℕ)
        → InBand i j
        → AtLeast k (table (suc i) j)
        → AtLeast (k + 15) (table (suc i) (suc j))
    from_left i j k (a, b, c) h =
        rw (banded_inside floor_center ceil_center m n score s d i j a b c) (
          inr (
            inr (
              next_cell-AtLeast_left (table i j) (table i (suc j)) (table (suc i) j)
                (score (s + i) (d + j)) k h)))

    from_above :
        (i j k : ℕ)
        → InBand i j
        → AtLeast k (table i (suc j))
        → AtLeast (k + 15) (table (suc i) (suc j))
    from_above i j k (a, b, c) h =
        rw (banded_inside floor_center ceil_center m n score s d i j a b c) (
          inr (
            inl (
              next_cell-AtLeast_up (table i j) (table i (suc j)) (table (suc i) j)
                (score (s + i) (d + j)) k h)))

    first_low : lo 1 ≡ 1
    unfolding j_min
    first_low = refl

    left_cell-AtLeast : (i k : ℕ) → 15 + 2 * i ≤ k → AtLeast k (left_cell i)
    unfolding left_cell
    left_cell-AtLeast i k h = inr (inl (omega arith))

    boundary_above :
        (i j : ℕ)
        → i < m
        → lo (suc i) ≡ suc (suc j)
        → (p : (h : ℕ) × (suc h ≡ i)) × InBand p.0 (suc j)
    boundary_above zero j a e = absurd (omega (arith, first_low))
    boundary_above (suc i) j a e = (
      (i, refl),
      (
        omega arith,
        omega (arith, j_min_rises (suc i)),
        omega (arith, j_min_meets (suc i) (omega arith) wide),
      ),
    )

    pub banded_table-AtLeast :
        (size i j k : ℕ)
        → i + j < size
        → 15 * (i + j + 2) ≤ k
        → InBand i j
        → AtLeast k (table (suc i) (suc j))
    banded_table-AtLeast zero i j k h e b = absurd (omega arith)
    banded_table-AtLeast (suc size) i zero k h e (a, b, c) =
        let more : k - 15 + 15 ≡ k = omega arith in
        subst (λ x. AtLeast x (table (suc i) 1)) more
          (from_left i 0 (k - 15) (a, b, c)
            (rw (banded_column floor_center ceil_center m n score s d i a)
              (left_cell-AtLeast i (k - 15) (omega arith))))
    banded_table-AtLeast (suc size) i (suc j) k h e (a, b, c) =
        let more : k - 15 + 15 ≡ k = omega arith in
        subst (λ x. AtLeast x (table (suc i) (suc (suc j)))) more
          (elim (dec_lt (lo (suc i)) (suc (suc j))) [
            | yes lt ↦
                from_left i (suc j) (k - 15) (a, b, c)
                  (banded_table-AtLeast size i j (k - 15) (omega arith) (omega arith)
                    (a, omega arith, omega arith))
            | no ge ↦
                let edge : lo (suc i) ≡ suc (suc j) = omega arith in
                let (p, q) = boundary_above i j a edge in
                from_above i (suc j) (k - 15) (a, b, c)
                  (subst (λ x. AtLeast (k - 15) (table x (suc (suc j)))) p.1
                    (banded_table-AtLeast size p.0 (suc j) (k - 15) (omega arith) (omega arith) q))
          ])
