-- ===== src/Engine/SeqDiff/Optimum.antt =====
-- What an alignment of two sequences is and how much the best one weighs: the specification that
-- the table and the backtracking of `AlignWeighted` are held to.
use native.Mathlib.Nat.{zero-add, suc-add, sub-add_cancel}
use diffmantic.Base.{
  ℕ, zero, suc, ◌+◌, ◌-◌, ◌≤◌, ◌<◌, max, ◌≡◌, refl, List, [], ◌∷◌, ◌++◌, reverse, arith, ltb,
  if◌then◌else◌, reverse-append, subst,
}

module _ (weight : ℕ → ℕ → ℕ) where
  -- The largest total weight of an alignment of the first `i` and the first `j` items.
  unfoldable pub optimum : ℕ → ℕ → ℕ
  optimum zero j = 0
  optimum (suc i) zero = 0
  optimum (suc i) (suc j) =
      let best = max (optimum i (suc j)) (optimum (suc i) j) in
      let w = weight i j in if ltb 0 w then max best (optimum i j + w) else best

  abbrev pub total : List (ℕ × ℕ) → ℕ
  total [] = 0
  total ((a, b) ∷ ps) = weight a b + total ps

  -- An alignment from `(lo_a, lo_b)` on, below `(n, m)`: both indices rise from pair to pair, and
  -- every pair has a weight.
  abbrev pub IsAlignment : ℕ → ℕ → ℕ → ℕ → List (ℕ × ℕ) → Type 0
  IsAlignment lo_a lo_b n m [] = Unit {0}
  IsAlignment lo_a lo_b n m ((a, b) ∷ ps) =
      (lo_a ≤ a)
      × (lo_b ≤ b)
      × (a < n)
      × (b < m)
      × (0 < weight a b)
      × IsAlignment (suc a) (suc b) n m ps

  -- The same read from the end, as the backtracking finds it.
  abbrev pub IsDescending : ℕ → ℕ → List (ℕ × ℕ) → Type 0
  IsDescending n m [] = Unit {0}
  IsDescending n m ((a, b) ∷ ps) = (a < n) × (b < m) × (0 < weight a b) × IsDescending a b ps

  pub optimum_mono_right : (i j : ℕ) → optimum i j ≤ optimum i (suc j)
  unfolding optimum
  optimum_mono_right zero j = omega arith
  optimum_mono_right (suc i) zero = omega arith
  optimum_mono_right (suc i) (suc j) = ground arith

  pub optimum_mono_left : (i j : ℕ) → optimum i j ≤ optimum (suc i) j
  unfolding optimum
  optimum_mono_left zero j = omega arith
  optimum_mono_left (suc i) zero = omega arith
  optimum_mono_left (suc i) (suc j) = ground arith

  optimum_mono_lefts : (d i j : ℕ) → optimum i j ≤ optimum (d + i) j
  optimum_mono_lefts zero i j = rw zero-add (omega arith)
  optimum_mono_lefts (suc d) i j =
      rw suc-add (omega (arith, optimum_mono_lefts d i j, optimum_mono_left (d + i) j))

  optimum_mono_rights : (d i j : ℕ) → optimum i j ≤ optimum i (d + j)
  optimum_mono_rights zero i j = rw zero-add (omega arith)
  optimum_mono_rights (suc d) i j =
      rw suc-add (omega (arith, optimum_mono_rights d i j, optimum_mono_right i (d + j)))

  pub optimum_mono : (a b i j : ℕ) → a ≤ i → b ≤ j → optimum a b ≤ optimum i j
  optimum_mono a b i j h k =
      let row : optimum a b ≤ optimum i b =
        subst (λ x. optimum a b ≤ optimum x b) (sub-add_cancel h)
          (optimum_mono_lefts (i - a) a b) in
      let column : optimum i b ≤ optimum i j =
        subst (λ x. optimum i b ≤ optimum i x) (sub-add_cancel k)
          (optimum_mono_rights (j - b) i b) in
      omega arith

  pub optimum_step : (a b : ℕ) → 0 < weight a b → optimum a b + weight a b ≤ optimum (suc a) (suc b)
  unfolding optimum
  optimum_step a b h = ground arith

  -- No alignment weighs more than the optimum.
  pub total-le-optimum :
      (lo_a lo_b n m : ℕ) (ps : List (ℕ × ℕ))
      → lo_a ≤ n
      → lo_b ≤ m
      → IsAlignment lo_a lo_b n m ps
      → optimum lo_a lo_b + total ps ≤ optimum n m
  total-le-optimum lo_a lo_b n m [] h k p = omega (arith, optimum_mono lo_a lo_b n m h k)
  total-le-optimum lo_a lo_b n m ((a, b) ∷ ps) h k (pa, pb, an, bm, w, rest) = omega (
    arith,
    optimum_mono lo_a lo_b a b pa pb,
    optimum_step a b w,
    total-le-optimum (suc a) (suc b) n m ps an bm rest,
  )

  IsAlignment-append :
      (lo_a lo_b a b n m : ℕ) (ps : List (ℕ × ℕ))
      → IsAlignment lo_a lo_b a b ps
      → (lo_a ≤ a) × (lo_b ≤ b) × (a < n) × (b < m) × (0 < weight a b)
      → IsAlignment lo_a lo_b n m (ps ++ (a, b) ∷ [])
  IsAlignment-append lo_a lo_b a b n m [] p (ha, hb, an, bm, w) = (ha, hb, an, bm, w, tt)
  IsAlignment-append lo_a lo_b a b n m ((c, d) ∷ ps) (pa, pb, ca, db, v, rest) (ha, hb, an, bm, w) =
      (
        pa,
        pb,
        omega arith,
        omega arith,
        v,
        IsAlignment-append (suc c) (suc d) a b n m ps rest (ca, db, an, bm, w),
      )

  total-append : (ps qs : List (ℕ × ℕ)) → total (ps ++ qs) ≡ total ps + total qs
  total-append [] qs = omega arith
  total-append ((a, b) ∷ ps) qs = omega (arith, total-append ps qs)

  pub total-reverse : (ps : List (ℕ × ℕ)) → total (reverse ps) ≡ total ps
  total-reverse [] = refl
  total-reverse ((a, b) ∷ ps) =
      rw (reverse-append ((a, b) ∷ []) ps)
        (omega (arith, total-append (reverse ps) ((a, b) ∷ []), total-reverse ps))

  -- Reversed, what the backtracking finds is an alignment.
  pub reverse-IsAlignment :
      (n m : ℕ) (ps : List (ℕ × ℕ)) → IsDescending n m ps → IsAlignment 0 0 n m (reverse ps)
  reverse-IsAlignment n m [] p = tt
  reverse-IsAlignment n m ((a, b) ∷ ps) (an, bm, w, rest) = rw (reverse-append ((a, b) ∷ []) ps) (
      IsAlignment-append 0 0 a b n m (reverse ps) (reverse-IsAlignment a b ps rest)
        (omega arith, omega arith, an, bm, w))
