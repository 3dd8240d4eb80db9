-- ===== src/Serialize/Gotoh/Banded/Filled.antt =====
-- The table that alignGapGotohBanded fills: its borders, the step from cell to cell within the band,
-- and the cleared cells outside.
use diffmantic.Base.{
  ℕ, zero, suc, ◌+◌, ◌-◌, ◌≤◌, ◌<◌, ◌≡◌, ◌≢◌, ◌⊎◌, inl, inr, refl, ap, arith, ◌∙◌, sym, subst,
  dec_lt, ℕ_discrete, pred-suc,
}
use diffmantic.Base.Int.{ℤ}
use diffmantic.Serialize.Gotoh.{Table, next_cell, gotoh_cell, gotoh_row}
use diffmantic.Serialize.Gotoh.Filled.{
  put_self, put_ne, left_cell, top_cell, border_column-outside, border_column-inside,
  border_row-outside, border_row-inside, step_back,
}
use diffmantic.Serialize.Gotoh.Banded.{
  Center, low_cell, half_width, raw_max, j_min, j_max, banded_rows, banded_table,
}

-- Cell `(i + 1, j + 1)` stands as computed from the cells before it.
abbrev pub IsStep : (ℕ → ℕ → ℤ) → ℕ → ℕ → Table → ℕ → ℕ → Type 0
IsStep score s d t i j =
    t (suc i) (suc j) ≡ next_cell (t i j) (t i (suc j)) (t (suc i) j) (score (s + i) (d + j))

IsStep-same :
    (score : ℕ → ℕ → ℤ) (s d : ℕ) (t t' : Table) (i j : ℕ)
    → t' (suc i) (suc j) ≡ t (suc i) (suc j)
    → t' i j ≡ t i j
    → t' i (suc j) ≡ t i (suc j)
    → t' (suc i) j ≡ t (suc i) j
    → IsStep score s d t i j
    → IsStep score s d t' i j
IsStep-same score s d t t' i j a b c e h = rw (a, b, c, e) h

module _ (score : ℕ → ℕ → ℤ) (s d : ℕ) where
  gotoh_row-outside :
      (rounds i j : ℕ) (t : Table) (a b : ℕ)
      → (a ≢ i) ⊎ ((b < j) ⊎ (j + rounds ≤ b))
      → gotoh_row score s d rounds i j t a b ≡ t a b
  unfolding gotoh_row gotoh_cell
  gotoh_row-outside zero i j t a b h = refl
  gotoh_row-outside (suc rounds) i j t a b h =
      gotoh_row-outside rounds i (suc j) _ a b (ground arith) ∙ put_ne t i j a b _ (ground arith)

  gotoh_cell-IsStep :
      (t : Table) (a b : ℕ) → IsStep score s d (gotoh_cell score s d t (suc a) (suc b)) a b
  unfolding gotoh_cell
  gotoh_cell-IsStep t a b =
      let c = next_cell (t a b) (t a (suc b)) (t (suc a) b) (score (s + a) (d + b)) in
      rw
        (
          step_back s a,
          step_back d b,
          pred-suc a,
          pred-suc b,
          put_self t (suc a) (suc b) c,
          put_ne t (suc a) (suc b) a b c (inl (omega arith)),
          put_ne t (suc a) (suc b) a (suc b) c (inl (omega arith)),
          put_ne t (suc a) (suc b) (suc a) b c (inr (omega arith)),
        )
        refl

  gotoh_row-inside :
      (rounds a b : ℕ) (t : Table) (j : ℕ)
      → b ≤ j
      → j < b + rounds
      → IsStep score s d (gotoh_row score s d rounds (suc a) (suc b) t) a j
  unfolding gotoh_row
  gotoh_row-inside zero a b t j h k = absurd (omega arith)
  gotoh_row-inside (suc rounds) a b t j h k = elim (ℕ_discrete b j) [
    | yes e ↦
        let u = gotoh_cell score s d t (suc a) (suc b) in
        let stays : (x y : ℕ)
            → (x ≢ suc a) ⊎ (y < suc (suc b))
            → gotoh_row score s d rounds (suc a) (suc (suc b)) u x y ≡ u x y =
          λ x y o. gotoh_row-outside rounds (suc a) (suc (suc b)) u x y (ground arith) in
        subst (λ y. IsStep score s d (gotoh_row score s d rounds (suc a) (suc (suc b)) u) a y) e
          (IsStep-same score s d u (gotoh_row score s d rounds (suc a) (suc (suc b)) u) a b
            (stays _ _ (inr (omega arith))) (stays _ _ (inr (omega arith)))
            (stays _ _ (inr (omega arith))) (stays _ _ (inr (omega arith)))
            (gotoh_cell-IsStep t a b))
    | no ne ↦ gotoh_row-inside rounds a (suc b) _ j (omega arith) (omega arith)
  ]

  gotoh_row-from :
      (rounds a j0 : ℕ) (t : Table) (j : ℕ)
      → 1 ≤ j0
      → j0 ≤ suc j
      → suc j < j0 + rounds
      → IsStep score s d (gotoh_row score s d rounds (suc a) j0 t) a j
  gotoh_row-from rounds a zero t j low h k = absurd (omega arith)
  gotoh_row-from rounds a (suc b) t j low h k =
      gotoh_row-inside rounds a b t j (omega arith) (omega arith)

module _ (floor_center ceil_center : Center) (m n : ℕ) where
  abbrev lo : ℕ → ℕ
  lo = j_min floor_center ceil_center m n

  abbrev hi : ℕ → ℕ
  hi = j_max floor_center ceil_center m n

  pub j_min_ge : (i : ℕ) → 1 ≤ lo i
  unfolding j_min
  j_min_ge i = ground arith

  pub j_max_ge : (i : ℕ) → 1 ≤ n → 1 ≤ hi i
  unfolding j_max raw_max half_width
  j_max_ge i h = ground arith

  module _ (score : ℕ → ℕ → ℤ) (s d : ℕ) where
    abbrev Rows : ℕ → ℕ → Table → Table
    Rows = banded_rows floor_center ceil_center m n score s d

    banded_rows-outside :
        (rounds i : ℕ) (t : Table) (a b : ℕ)
        → (a < i) ⊎ ((b < lo a) ⊎ (hi a < b))
        → Rows rounds i t a b ≡ t a b
    unfolding banded_rows
    banded_rows-outside zero i t a b h = refl
    banded_rows-outside (suc rounds) i t a b h =
        banded_rows-outside rounds (suc i) _ a b (ground arith)
        ∙ gotoh_row-outside score s d (hi i + 1 - lo i) i (lo i) t a b (elim (ℕ_discrete a i) [
          | no ne ↦ inl ne
          | yes e ↦
              let e_lo : lo a ≡ lo i = ap lo e in
              let e_hi : hi a ≡ hi i = ap hi e in
              elim (dec_lt b (lo i)) [
                | yes lt ↦ inr (inl lt)
                | no ge ↦ inr (inr (ground (arith, e_lo, e_hi)))
              ]
        ])

    banded_rows-first :
        (rounds : ℕ) (t : Table) (a b : ℕ)
        → lo (suc a) ≤ suc b
        → suc b ≤ hi (suc a)
        → IsStep score s d (Rows (suc rounds) (suc a) t) a b
    unfolding banded_rows
    banded_rows-first rounds t a b p q =
        let u = gotoh_row score s d (hi (suc a) + 1 - lo (suc a)) (suc a) (lo (suc a)) t in
        let stays : (x y : ℕ) → x < suc (suc a) → Rows rounds (suc (suc a)) u x y ≡ u x y =
          λ x y h. banded_rows-outside rounds (suc (suc a)) u x y (inl h) in
        IsStep-same score s d u (Rows rounds (suc (suc a)) u) a b (stays _ _ (omega arith))
          (stays _ _ (omega arith)) (stays _ _ (omega arith)) (stays _ _ (omega arith))
          (gotoh_row-from score s d (hi (suc a) + 1 - lo (suc a)) a (lo (suc a)) t b
            (j_min_ge (suc a)) p (omega arith))

    banded_rows-inside :
        (rounds i : ℕ) (t : Table) (a b : ℕ)
        → i ≤ suc a
        → suc a < i + rounds
        → lo (suc a) ≤ suc b
        → suc b ≤ hi (suc a)
        → IsStep score s d (Rows rounds i t) a b
    unfolding banded_rows
    banded_rows-inside zero i t a b h k p q = absurd (omega arith)
    banded_rows-inside (suc rounds) i t a b h k p q = elim (ℕ_discrete i (suc a)) [
      | no ne ↦ banded_rows-inside rounds (suc i) _ a b (omega arith) (omega arith) p q
      | yes e ↦
          subst (λ x. IsStep score s d (Rows (suc rounds) x t) a b) (sym e)
            (banded_rows-first rounds t a b p q)
    ]

    abbrev table : Table
    table = banded_table floor_center ceil_center m n score s d

    pub banded_column : (i : ℕ) → i < m → table (suc i) 0 ≡ left_cell i
    unfolding banded_table
    banded_column i h =
        let low = j_min_ge (suc i) in
        banded_rows-outside m 1 _ (suc i) 0 (inr (inl low))
        ∙ border_row-outside n 1 _ (suc i) 0 (inr (omega arith))
        ∙ border_column-inside m 1 _ i (omega arith) (omega arith)

    pub banded_top : (j : ℕ) → j < n → table 0 (suc j) ≡ top_cell j
    unfolding banded_table
    banded_top j h =
        banded_rows-outside m 1 _ 0 (suc j) (inl (omega arith))
        ∙ border_row-inside n 1 _ j (omega arith) (omega arith)

    pub banded_inside :
        (i j : ℕ) → i < m → lo (suc i) ≤ suc j → suc j ≤ hi (suc i) → IsStep score s d table i j
    unfolding banded_table
    banded_inside i j h p q = banded_rows-inside m 1 _ i j (omega arith) (omega arith) p q

    pub banded_outside :
        (i j : ℕ) → (suc j < lo (suc i)) ⊎ (hi (suc i) < suc j) → table (suc i) (suc j) ≡ low_cell
    unfolding banded_table
    banded_outside i j h =
        banded_rows-outside m 1 _ (suc i) (suc j) (inr h)
        ∙ border_row-outside n 1 _ (suc i) (suc j) (inr (omega arith))
        ∙ border_column-outside m 1 _ (suc i) (suc j) (inr (omega arith))
        ∙ put_ne (λ a b. low_cell) 0 0 (suc i) (suc j) _ (inl (omega arith))
