-- ===== src/Engine/SeqDiff/Table.antt =====
-- The table that `AlignWeighted` fills holds the optimum at every cell.
use native.Mathlib.Numerals.{sub-one}
use diffmantic.Base.{
  ℕ, zero, suc, ◌+◌, ◌*◌, ◌≤◌, ◌<◌, max, ◌≡◌, ◌≢◌, ◌⊎◌, inl, inr, refl, List, arith, ltb, length,
  get_or, set, drop, replicate, length-set, length-append, length-replicate, get_or-set_self,
  get_or-set_ne, get_or-replicate, get_or-append_left, Bool-cases, subst, ◌∙◌, ap, dec_lt,
  ℕ_discrete,
}
use diffmantic.Engine.SeqDiff.{
  SeqScratch, default_seq_dp_capacity, ensure_dp, cell, fill_cell, fill_row, fill_rows,
}
use diffmantic.Engine.SeqDiff.Optimum.{optimum}

-- Every cell of an `n` by `m` table lies within it.
pub cell_in_range : (n m i j : ℕ) → i ≤ n → j ≤ m → cell m i j < (n + 1) * (m + 1)
cell_in_range n m i j h k = grind arith

-- Different cells have different places.
cell_lt : (s a b i j : ℕ) → b < s → a < i → a * s + b < i * s + j
cell_lt s a b i j h k = grind arith

cell_ne :
    (m a b i j : ℕ) → b < m + 1 → j < m + 1 → (a ≢ i) ⊎ (b ≢ j) → a * (m + 1) + b ≢ i * (m + 1) + j
cell_ne m a b i j hb hj ne e = elim (ℕ_discrete a i) [
  | yes same ↦ elim ne [
    | inl q ↦ q same
    | inr q ↦ q (omega (arith, ap (λ (t : ℕ). t * (m + 1)) same))
  ]
  | no other ↦ elim (dec_lt a i) [
    | yes lt ↦ omega (arith, cell_lt (m + 1) a b i j hb lt)
    | no ge ↦ omega (arith, cell_lt (m + 1) i j a b hj (omega arith))
  ]
]

-- The memory that `ensureDP` hands out is large enough and cleared.
pub ensure_dp-size : (s : SeqScratch) (cells : ℕ) → cells ≤ length (ensure_dp s cells).dp
unfolding ensure_dp
ensure_dp-size s cells = ground (
  arith,
  length-replicate {A = ℕ} (max cells default_seq_dp_capacity) 0,
  length-append {A = ℕ} (replicate cells 0) (drop cells s.dp),
  length-replicate {A = ℕ} cells 0,
)

pub ensure_dp-zero :
    (s : SeqScratch) (cells i : ℕ) → i < cells → get_or (ensure_dp s cells).dp i 0 ≡ 0
unfolding ensure_dp
ensure_dp-zero s cells i h = elim (Bool-cases (ltb (length s.dp) cells)) [
  | inl grown ↦ rw grown (get_or-replicate (max cells default_seq_dp_capacity) i 0)
  | inr kept ↦ rw kept (
      get_or-append_left (replicate cells 0) (drop cells s.dp) i 0
        (omega (arith, length-replicate {A = ℕ} cells 0))
      ∙ get_or-replicate cells i 0)
]

pair-cases : (a i b j : ℕ) → ((a ≡ i) × (b ≡ j)) ⊎ ((a ≢ i) ⊎ (b ≢ j))
pair-cases a i b j = ground arith

-- The cells that are final before cell `(i, j)` is filled: earlier rows, earlier columns of the
-- same row, and the first column, which stays 0.
abbrev IsFinal : ℕ → ℕ → ℕ → ℕ → Type 0
IsFinal i j a b = (a < i) ⊎ (((a ≡ i) × (b < j)) ⊎ (b ≡ 0))

earlier : (a b i j : ℕ) → IsFinal i (suc j) a b → (a ≢ i) ⊎ (b ≢ j) → IsFinal i j a b
earlier a b i j final other = ground arith

row_done : (a b i : ℕ) {m : ℕ} → IsFinal (suc i) 1 a b → b ≤ m → IsFinal i (suc m) a b
row_done a b i final h = ground arith

module _ (n m : ℕ) (weight : ℕ → ℕ → ℕ) where
  record IsFilled (i j : ℕ) (dp : List ℕ) : Type 0 where
    size : (n + 1) * (m + 1) ≤ length dp
    cells :
        (a b : ℕ)
        → a ≤ n
        → b ≤ m
        → IsFinal i j a b
        → get_or dp (a * (m + 1) + b) 0 ≡ optimum weight a b

  module _ (i j : ℕ) (dp : List ℕ) (hi : i < n) (hj : j < m) (f : IsFilled (suc i) (suc j) dp) where
    fill_cell_value :
        fill_cell m weight dp (suc i) (suc j)
        ≡ set dp (suc i * (m + 1) + suc j) (optimum weight (suc i) (suc j))
    unfolding fill_cell optimum
    fill_cell_value = simp (
      sub-one,
      f.cells i (suc j) (omega arith) (omega arith) (inl (omega arith)),
      f.cells (suc i) j (omega arith) (omega arith) (inr (inl (refl, omega arith))),
      f.cells i j (omega arith) (omega arith) (inl (omega arith)),
    )

    fill_cell-cells :
        (a b : ℕ)
        → a ≤ n
        → b ≤ m
        → IsFinal (suc i) (suc (suc j)) a b
        → get_or (fill_cell m weight dp (suc i) (suc j)) (a * (m + 1) + b) 0 ≡ optimum weight a b
    fill_cell-cells a b ha hb final = rw fill_cell_value (elim (pair-cases a (suc i) b (suc j)) [
      | inl (same_a, same_b) ↦
          rw (same_a, same_b)
            (get_or-set_self dp (suc i * (m + 1) + suc j) _ 0
              (omega (arith, f.size, cell_in_range n m (suc i) (suc j) hi hj)))
      | inr other ↦
          get_or-set_ne dp (suc i * (m + 1) + suc j) (a * (m + 1) + b) _ 0
            (cell_ne m a b (suc i) (suc j) (omega arith) (omega arith) other)
          ∙ f.cells a b ha hb (earlier a b (suc i) (suc j) final other)
    ])

    fill_cell-IsFilled : IsFilled (suc i) (suc (suc j)) (fill_cell m weight dp (suc i) (suc j))
    fill_cell-IsFilled = record {
      size = rw fill_cell_value (rw length-set f.size);
      cells = fill_cell-cells;
    }

  fill_row-IsFilled :
      (rounds i j : ℕ) (dp : List ℕ)
      → i < n
      → rounds + j ≡ m
      → IsFilled (suc i) (suc j) dp
      → IsFilled (suc i) (suc m) (fill_row m weight rounds (suc i) (suc j) dp)
  unfolding fill_row
  fill_row-IsFilled zero i j dp hi e f = subst (λ k. IsFilled (suc i) (suc k) dp) (omega arith) f
  fill_row-IsFilled (suc rounds) i j dp hi e f =
      fill_row-IsFilled rounds i (suc j) _ hi (omega arith)
        (fill_cell-IsFilled i j dp hi (omega arith) f)

  -- A full row is the start of the next.
  next_row : (i : ℕ) (dp : List ℕ) → IsFilled i (suc m) dp → IsFilled (suc i) 1 dp
  next_row i dp f = record {
    size = f.size;
    cells = λ a b ha hb final. f.cells a b ha hb (row_done a b i final hb);
  }

  fill_rows-IsFilled :
      (rounds i : ℕ) (dp : List ℕ)
      → rounds + i ≡ n
      → IsFilled (suc i) 1 dp
      → IsFilled (suc n) 1 (fill_rows m weight rounds (suc i) dp)
  unfolding fill_rows
  fill_rows-IsFilled zero i dp e f = subst (λ k. IsFilled (suc k) 1 dp) (omega arith) f
  fill_rows-IsFilled (suc rounds) i dp e f =
      fill_rows-IsFilled rounds (suc i) _ (omega arith)
        (next_row (suc i) _ (fill_row-IsFilled m i 0 dp (omega arith) (omega arith) f))

  optimum_border : (a b : ℕ) → (a ≡ 0) ⊎ (b ≡ 0) → 0 ≡ optimum weight a b
  unfolding optimum
  optimum_border zero b h = refl
  optimum_border (suc a) zero h = refl
  optimum_border (suc a) (suc b) h = absurd (omega arith)

  ensure_dp-IsFilled : (s : SeqScratch) → IsFilled 1 1 (ensure_dp s ((n + 1) * (m + 1))).dp
  ensure_dp-IsFilled s = record {
    size = ensure_dp-size s ((n + 1) * (m + 1));
    cells = λ a b ha hb final.
        ensure_dp-zero s ((n + 1) * (m + 1)) (a * (m + 1) + b) (cell_in_range n m a b ha hb)
        ∙ optimum_border a b (ground arith);
  }

  -- Whatever an earlier alignment left in the scratch memory, the filled table holds the optimum at
  -- every cell.
  pub table_lem :
      (s : SeqScratch) (a b : ℕ)
      → a ≤ n
      → b ≤ m
      → get_or (fill_rows m weight n 1 (ensure_dp s ((n + 1) * (m + 1))).dp) (a * (m + 1) + b) 0
        ≡ optimum weight a b
  table_lem s a b ha hb =
      (fill_rows-IsFilled n 0 _ (omega arith) (ensure_dp-IsFilled s)).cells a b ha hb
        (inl (omega arith))
