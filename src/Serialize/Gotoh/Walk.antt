-- ===== src/Serialize/Gotoh/Walk.antt =====
-- The backtracking of alignGapGotohDense stays within the gap and lists its lines in order.
use diffmantic.Base.{
  ℕ, zero, suc, ◌+◌, ◌*◌, ◌-◌, ◌≤◌, ◌<◌, ◌≡◌, ◌⊎◌, inl, inr, refl, arith, subst, sym, some, List,
  [], ℕ_discrete,
}
use diffmantic.Base.Int.{ℤ, ◌+ℤ◌, max_ℤ}
use diffmantic.Render.Hunks.{LineAlignmentPair}
use diffmantic.Serialize.Listing.{
  IsListing, IsListing-same, IsListing-nil, IsListing-pair, IsListing-left, IsListing-right,
}
use diffmantic.Serialize.Gotoh.{
  Cell, Table, GapState, both, left_only, right_only, max3, next_cell, select_state, first_state,
  above_state, before_state, walk, align_gap_dense, gotoh_table,
}
use diffmantic.Serialize.Gotoh.Filled.{left_cell, top_cell, IsFilled, gotoh_table-IsFilled}

-- The lines that a state is about to list are there.
abbrev pub IsReady : GapState → ℕ → ℕ → Type 0
IsReady both i j = (0 < i) × (0 < j)
IsReady left_only i j = 0 < i
IsReady right_only i j = 0 < j

select_state-IsReady : (c : Cell) (i j : ℕ) → (0 < i) ⊎ (0 < j) → IsReady (select_state c i j) i j
unfolding select_state
select_state-IsReady c i j h = ground arith

pub first_state-IsReady : (c : Cell) (i j : ℕ) → (0 < i) ⊎ (0 < j) → IsReady (first_state c i j) i j
unfolding first_state
first_state-IsReady c i j h = ground (arith, select_state-IsReady c i j h)

-- From the first row the gap cannot have been opened on the left.
pub above_state-top :
    (c l : Cell) (j : ℕ) (s : ℤ)
    → 2 * j < 999970
    → above_state (next_cell c (top_cell j) l s) (top_cell j) ≡ right_only
unfolding above_state next_cell top_cell max3 max_ℤ ◌+ℤ◌
above_state-top c l j s h = ground arith

pub before_state-left :
    (c u : Cell) (i : ℕ) (s : ℤ)
    → 2 * i < 999970
    → before_state (next_cell c u (left_cell i) s) (left_cell i) ≡ left_only
unfolding before_state next_cell left_cell max3 max_ℤ ◌+ℤ◌
before_state-left c u i s h = ground arith

pub IsReady-inside : (state : GapState) (i j : ℕ) → IsReady state (suc i) (suc j)
IsReady-inside both i j = (omega arith, omega arith)
IsReady-inside left_only i j = omega arith
IsReady-inside right_only i j = omega arith

pub selected : (c : Cell) (i j : ℕ) → (i + j ≡ 0) ⊎ IsReady (select_state c i j) i j
selected c i j = elim (ℕ_discrete (i + j) 0) [
  | yes e ↦ inl e
  | no ne ↦ inr (select_state-IsReady c i j (ground arith))
]

module _ (score : ℕ → ℕ → ℤ) (s d m n : ℕ) (t : Table) (f : IsFilled score s d m n t) where
  above_state-IsReady :
      (i j : ℕ)
      → i < m
      → j < n
      → 2 * j < 999970
      → IsReady (above_state (t (suc i) (suc j)) (t i (suc j))) i (suc j)
  above_state-IsReady zero j hi hj small =
      rw (f.inner 0 j hi hj, f.row j hj)
        (subst (λ x. IsReady x 0 (suc j))
          (sym (above_state-top (t 0 j) (t 1 j) j (score (s + 0) (d + j)) small)) (omega arith))
  above_state-IsReady (suc i) j hi hj small = IsReady-inside _ i j

  before_state-IsReady :
      (i j : ℕ)
      → i < m
      → j < n
      → 2 * i < 999970
      → IsReady (before_state (t (suc i) (suc j)) (t (suc i) j)) (suc i) j
  before_state-IsReady i zero hi hj small =
      rw (f.inner i 0 hi hj, f.column i hi)
        (subst (λ x. IsReady x (suc i) 0)
          (sym (before_state-left (t i 0) (t i 1) i (score (s + i) (d + 0)) small)) (omega arith))
  before_state-IsReady i (suc j) hi hj small = IsReady-inside _ i j

  module _ (small_m : 2 * m < 999970) (small_n : 2 * n < 999970) where
    walk-IsListing :
        (fuel : ℕ) (state : GapState) (i j k l : ℕ) (temp : List LineAlignmentPair)
        → i + j ≤ fuel
        → (i + j ≡ 0) ⊎ IsReady state i j
        → i + k ≡ m
        → j + l ≡ n
        → IsListing (s + i) k (d + j) l temp
        → (ps : List LineAlignmentPair) × ((walk t s d fuel state i j temp ≡ some ps)
            × IsListing s m d n ps)
    unfolding walk
    walk-IsListing fuel state zero zero k l temp h ready e g lines =
        (temp, (refl, IsListing-same (omega arith) (omega arith) (omega arith) (omega arith) lines))
    walk-IsListing zero state (suc i) zero k l temp h ready e g lines = absurd (omega arith)
    walk-IsListing zero state zero (suc j) k l temp h ready e g lines = absurd (omega arith)
    walk-IsListing zero state (suc i) (suc j) k l temp h ready e g lines = absurd (omega arith)
    walk-IsListing (suc fuel) both (suc i) (suc j) k l temp h ready e g lines =
        walk-IsListing fuel _ i j (suc k) (suc l) _ (omega arith) (selected (t i j) i j)
          (omega arith) (omega arith) (IsListing-pair (omega arith) (omega arith) lines)
    walk-IsListing (suc fuel) both (suc i) zero k l temp h ready e g lines = absurd (ground arith)
    walk-IsListing (suc fuel) both zero (suc j) k l temp h ready e g lines = absurd (ground arith)
    walk-IsListing (suc fuel) left_only (suc i) zero k l temp h ready e g lines =
        walk-IsListing fuel left_only i zero (suc k) l _ (omega arith) (ground arith) (omega arith)
          g (IsListing-left (omega arith) lines)
    walk-IsListing (suc fuel) left_only (suc i) (suc j) k l temp h ready e g lines =
        walk-IsListing fuel _ i (suc j) (suc k) l _ (omega arith)
          (inr (above_state-IsReady i j (omega arith) (omega arith) (omega arith))) (omega arith) g
          (IsListing-left (omega arith) lines)
    walk-IsListing (suc fuel) left_only zero (suc j) k l temp h ready e g lines =
        absurd (ground arith)
    walk-IsListing (suc fuel) right_only zero (suc j) k l temp h ready e g lines =
        walk-IsListing fuel right_only zero j k (suc l) _ (omega arith) (ground arith) e
          (omega arith) (IsListing-right (omega arith) lines)
    walk-IsListing (suc fuel) right_only (suc i) (suc j) k l temp h ready e g lines =
        walk-IsListing fuel _ (suc i) j k (suc l) _ (omega arith)
          (inr (before_state-IsReady i j (omega arith) (omega arith) (omega arith))) e (omega arith)
          (IsListing-right (omega arith) lines)
    walk-IsListing (suc fuel) right_only (suc i) zero k l temp h ready e g lines =
        absurd (ground arith)

-- For a gap whose lines leave room above `negInf`, the backtracking ends without a step before the
-- first line, and what it appends lists the lines of the gap, each once and in order, whatever the
-- scores and the pooled buffer.
pub align_gap_dense-IsListing :
    (score : ℕ → ℕ → ℤ) (stale : Table) (s_start s_end d_start d_end : ℕ)
    → s_start < s_end
    → d_start < d_end
    → 2 * (s_end - s_start) < 999970
    → 2 * (d_end - d_start) < 999970
    → (ps : List LineAlignmentPair) × ((align_gap_dense score stale s_start s_end d_start d_end
          ≡ some ps)
        × IsListing s_start (s_end - s_start) d_start (d_end - d_start) ps)
unfolding align_gap_dense
align_gap_dense-IsListing score stale s s' d d' h k small_m small_n =
    let m = s' - s in
    let n = d' - d in
    walk-IsListing score s d m n _ (gotoh_table-IsFilled score s d n m stale) small_m small_n
      (m + n) _ m n 0 0 [] (omega arith)
      (inr (first_state-IsReady (gotoh_table score s d m n stale m n) m n (inl (omega arith))))
      (omega arith) (omega arith) (IsListing-nil (s + m) (d + n))
