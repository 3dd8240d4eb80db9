-- ===== src/Serialize/Gotoh/Filled.antt =====
-- The table that alignGapGotohDense fills: its borders, and the step from cell to cell, whatever the
-- pooled buffer held.
use diffmantic.Base.{
  ℕ, zero, suc, ◌+◌, ◌-◌, ◌≤◌, ◌<◌, ◌≡◌, ◌≢◌, ◌⊎◌, inl, inr, refl, arith, ◌∙◌, ap, sym, subst,
  dec_lt, ℕ_discrete, pred-suc,
}
use diffmantic.Base.Int.{ℤ}
use diffmantic.Serialize.Gotoh.{
  Cell, Table, put_cell, neg_inf, gap_cost, border_column, border_row, next_cell, gotoh_cell,
  gotoh_row, gotoh_rows, gotoh_table,
}

pub put_self : (t : Table) (i j : ℕ) (c : Cell) → put_cell t i j c i j ≡ c
unfolding put_cell
put_self t i j c = ground arith

pub put_ne : (t : Table) (i j a b : ℕ) (c : Cell) → (a ≢ i) ⊎ (b ≢ j) → put_cell t i j c a b ≡ t a b
unfolding put_cell
put_ne t i j a b c h = ground arith

-- A cell of the first column, and one of the first row.
unfoldable pub left_cell : ℕ → Cell
left_cell i = record { m = neg_inf; ix = gap_cost i; iy = neg_inf }

unfoldable pub top_cell : ℕ → Cell
top_cell j = record { m = neg_inf; ix = neg_inf; iy = gap_cost j }

pub border_column-outside :
    (rounds i : ℕ) (t : Table) (a b : ℕ) → (a < i) ⊎ (0 < b) → border_column rounds i t a b ≡ t a b
unfolding border_column
border_column-outside zero i t a b h = refl
border_column-outside (suc rounds) i t a b h =
    border_column-outside rounds (suc i) _ a b (ground arith) ∙ put_ne t i 0 a b _ (ground arith)

pub border_column-inside :
    (rounds i : ℕ) (t : Table) (a : ℕ)
    → i ≤ suc a
    → suc a < i + rounds
    → border_column rounds i t (suc a) 0 ≡ left_cell a
unfolding border_column left_cell
border_column-inside zero i t a h k = absurd (omega arith)
border_column-inside (suc rounds) i t a h k = elim (ℕ_discrete i (suc a)) [
  | yes e ↦
      subst (λ x. border_column (suc rounds) x t (suc a) 0 ≡ left_cell a) (sym e)
        (border_column-outside rounds (suc (suc a)) _ (suc a) 0 (inl (omega arith))
          ∙ put_self t (suc a) 0 _
          ∙ ap left_cell (pred-suc a))
  | no ne ↦ border_column-inside rounds (suc i) _ a (omega arith) (omega arith)
]

pub border_row-outside :
    (rounds j : ℕ) (t : Table) (a b : ℕ) → (b < j) ⊎ (0 < a) → border_row rounds j t a b ≡ t a b
unfolding border_row
border_row-outside zero j t a b h = refl
border_row-outside (suc rounds) j t a b h =
    border_row-outside rounds (suc j) _ a b (ground arith) ∙ put_ne t 0 j a b _ (ground arith)

pub border_row-inside :
    (rounds j : ℕ) (t : Table) (b : ℕ)
    → j ≤ suc b
    → suc b < j + rounds
    → border_row rounds j t 0 (suc b) ≡ top_cell b
unfolding border_row top_cell
border_row-inside zero j t b h k = absurd (omega arith)
border_row-inside (suc rounds) j t b h k = elim (ℕ_discrete j (suc b)) [
  | yes e ↦
      subst (λ x. border_row (suc rounds) x t 0 (suc b) ≡ top_cell b) (sym e)
        (border_row-outside rounds (suc (suc b)) _ 0 (suc b) (inl (omega arith))
          ∙ put_self t 0 (suc b) _
          ∙ ap top_cell (pred-suc b))
  | no ne ↦ border_row-inside rounds (suc j) _ b (omega arith) (omega arith)
]

-- What the backtracking reads.
pub record IsFilled (score : ℕ → ℕ → ℤ) (s d m n : ℕ) (t : Table) : Type 0 where
  pub column : (i : ℕ) → i < m → t (suc i) 0 ≡ left_cell i
  pub row : (j : ℕ) → j < n → t 0 (suc j) ≡ top_cell j
  pub inner :
      (i j : ℕ)
      → i < m
      → j < n
      → t (suc i) (suc j) ≡ next_cell (t i j) (t i (suc j)) (t (suc i) j) (score (s + i) (d + j))

pub step_back : (s a : ℕ) → s + suc a - 1 ≡ s + a
step_back s a = omega arith

module _ (score : ℕ → ℕ → ℤ) (s d n : ℕ) where
  -- Cell `(i + 1, j + 1)` stands as computed from the cells before it.
  abbrev IsStep : Table → ℕ → ℕ → Type 0
  IsStep t i j =
      t (suc i) (suc j) ≡ next_cell (t i j) (t i (suc j)) (t (suc i) j) (score (s + i) (d + j))

  -- The cells filled before row `a + 1`, column `b + 1`.
  abbrev IsEarlier : ℕ → ℕ → ℕ → ℕ → Type 0
  IsEarlier a b i j = (i < a) ⊎ ((i ≡ a) × (j < b))

  abbrev IsFilledUpTo : ℕ → ℕ → Table → Type 0
  IsFilledUpTo a b t = (i j : ℕ) → j < n → IsEarlier a b i j → IsStep t i j

  abbrev following : Table → ℕ → ℕ → Cell
  following t a b = next_cell (t a b) (t a (suc b)) (t (suc a) b) (score (s + a) (d + b))

  fill_cell_value :
      (t : Table) (a b : ℕ)
      → gotoh_cell score s d t (suc a) (suc b) ≡ put_cell t (suc a) (suc b) (following t a b)
  unfolding gotoh_cell
  fill_cell_value t a b = rw (step_back s a, step_back d b, pred-suc a, pred-suc b) refl

  IsStep-put_cell :
      (t : Table) (a b i j : ℕ) (c : Cell)
      → IsEarlier a b i j
      → IsStep t i j
      → IsStep (put_cell t (suc a) (suc b) c) i j
  IsStep-put_cell t a b i j c e h =
      rw
        (
          put_ne t (suc a) (suc b) (suc i) (suc j) c (ground arith),
          put_ne t (suc a) (suc b) i j c (ground arith),
          put_ne t (suc a) (suc b) i (suc j) c (ground arith),
          put_ne t (suc a) (suc b) (suc i) j c (ground arith),
        )
        h

  IsStep-new : (t : Table) (a b : ℕ) → IsStep (put_cell t (suc a) (suc b) (following t a b)) a b
  IsStep-new t a b =
      let c = following t a b in
      rw
        (
          put_self t (suc a) (suc b) c,
          put_ne t (suc a) (suc b) a b c (inl (omega arith)),
          put_ne t (suc a) (suc b) a (suc b) c (inl (omega arith)),
          put_ne t (suc a) (suc b) (suc a) b c (inr (omega arith)),
        )
        refl

  gotoh_cell-IsFilledUpTo :
      (t : Table) (a b : ℕ)
      → IsFilledUpTo a b t
      → IsFilledUpTo a (suc b) (gotoh_cell score s d t (suc a) (suc b))
  gotoh_cell-IsFilledUpTo t a b f i j hj e = rw (fill_cell_value t a b) (elim (dec_lt i a) [
    | yes lt ↦ IsStep-put_cell t a b i j _ (inl lt) (f i j hj (inl lt))
    | no ge ↦ elim (dec_lt j b) [
      | yes lt ↦
          IsStep-put_cell t a b i j _ (inr (ground arith, lt)) (f i j hj (inr (ground arith, lt)))
      | no old ↦
          let same_i : a ≡ i = ground arith in
          let same_j : b ≡ j = ground arith in
          let after = put_cell t (suc a) (suc b) (following t a b) in
          subst (λ x. IsStep after x j) same_i (subst (IsStep after a) same_j (IsStep-new t a b))
    ]
  ])

  gotoh_row-IsFilledUpTo :
      (rounds a b : ℕ) (t : Table)
      → IsFilledUpTo a b t
      → IsFilledUpTo a (b + rounds) (gotoh_row score s d rounds (suc a) (suc b) t)
  unfolding gotoh_row
  gotoh_row-IsFilledUpTo zero a b t f i j hj e = f i j hj (ground arith)
  gotoh_row-IsFilledUpTo (suc rounds) a b t f i j hj e =
      gotoh_row-IsFilledUpTo rounds a (suc b) _ (gotoh_cell-IsFilledUpTo t a b f) i j hj
        (ground arith)

  gotoh_rows-IsFilledUpTo :
      (rounds a : ℕ) (t : Table)
      → IsFilledUpTo a 0 t
      → IsFilledUpTo (a + rounds) 0 (gotoh_rows score s d n rounds (suc a) t)
  unfolding gotoh_rows
  gotoh_rows-IsFilledUpTo zero a t f i j hj e = f i j hj (ground arith)
  gotoh_rows-IsFilledUpTo (suc rounds) a t f i j hj e =
      gotoh_rows-IsFilledUpTo rounds (suc a) _
        (λ x y hy ey. gotoh_row-IsFilledUpTo n a 0 t f x y hy (ground arith)) i j hj (ground arith)

  -- The borders stay.
  gotoh_row-border :
      (rounds i j : ℕ) (t : Table) (a b : ℕ)
      → (a ≡ 0) ⊎ (b ≡ 0)
      → gotoh_row score s d rounds (suc i) (suc j) t a b ≡ t a b
  unfolding gotoh_row gotoh_cell
  gotoh_row-border zero i j t a b h = refl
  gotoh_row-border (suc rounds) i j t a b h =
      gotoh_row-border rounds i (suc j) _ a b h ∙ put_ne t (suc i) (suc j) a b _ (ground arith)

  gotoh_rows-border :
      (rounds i : ℕ) (t : Table) (a b : ℕ)
      → (a ≡ 0) ⊎ (b ≡ 0)
      → gotoh_rows score s d n rounds (suc i) t a b ≡ t a b
  unfolding gotoh_rows
  gotoh_rows-border zero i t a b h = refl
  gotoh_rows-border (suc rounds) i t a b h =
      gotoh_rows-border rounds (suc i) _ a b h ∙ gotoh_row-border n i 0 t a b h

  pub gotoh_table-IsFilled :
      (m : ℕ) (stale : Table) → IsFilled score s d m n (gotoh_table score s d m n stale)
  unfolding gotoh_table
  gotoh_table-IsFilled m stale = record {
    column = λ i h.
        gotoh_rows-border m 0 _ (suc i) 0 (inr refl)
        ∙ border_row-outside n 1 _ (suc i) 0 (inr (omega arith))
        ∙ border_column-inside m 1 _ i (omega arith) (omega arith);
    row = λ j h.
        gotoh_rows-border m 0 _ 0 (suc j) (inl refl)
        ∙ border_row-inside n 1 _ j (omega arith) (omega arith);
    inner = λ i j hi hj.
        gotoh_rows-IsFilledUpTo m 0 _ (λ x y hy e. absurd (ground arith)) i j hj
          (inl (omega arith));
  }
