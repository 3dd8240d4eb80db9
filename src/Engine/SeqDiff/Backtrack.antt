-- ===== src/Engine/SeqDiff/Backtrack.antt =====
-- The backtracking of `AlignWeighted` finds an alignment that weighs the optimum.
use native.Mathlib.Numerals.{sub-one}
use diffmantic.Base.{
  ℕ, zero, suc, ◌+◌, ◌-◌, ◌*◌, ◌≤◌, ◌<◌, max, ◌≡◌, inl, inr, refl, Bool, true, false, ◌&&◌, List,
  [], ◌∷◌, arith, ltb, leb, ◌==◌, if◌then◌else◌, get_or, Bool-cases, leb→le, leb→gt, ltb-zero-suc,
}
use diffmantic.Engine.SeqDiff.{nearest, best_column, is_nearer, backtrack, distance}
use diffmantic.Engine.SeqDiff.Optimum.{optimum, total, IsDescending}

module _ (n m : ℕ) (weight : ℕ → ℕ → ℕ) (dp : List ℕ)
    (table : (a b : ℕ) → a ≤ n → b ≤ m → get_or dp (a * (m + 1) + b) 0 ≡ optimum weight a b) where
  -- A best path to row `suc i`, column `j` may end with the pair of `i` and `k - 1`.
  record IsBest (i j k : ℕ) : Type 0 where
    column : ℕ
    is : k ≡ suc column
    inside : column < j
    positive : 0 < weight i column
    same : optimum weight i column + weight i column ≡ optimum weight (suc i) j

  is_nearer_lem :
      (i j k best_dist : ℕ)
      → i < n
      → j ≤ m
      → suc k ≤ j
      → is_nearer m weight dp (suc i) j (suc k) best_dist ≡ (
          ltb 0 (weight i k)
          && (optimum weight i k + weight i k == optimum weight (suc i) j)
          && ltb (distance (suc i) (suc k)) best_dist)
  unfolding is_nearer
  is_nearer_lem i j k best_dist hi hj hk =
      simp (sub-one, table i k (omega arith) (omega arith), table (suc i) j hi hj)

  is_nearer-IsBest :
      (i j k best_dist : ℕ)
      → i < n
      → j ≤ m
      → suc k ≤ j
      → is_nearer m weight dp (suc i) j (suc k) best_dist ≡ true
      → IsBest i j (suc k)
  is_nearer-IsBest i j k best_dist hi hj hk t =
      let facts = is_nearer_lem i j k best_dist hi hj hk in
      record { column = k; is = refl; inside = hk; positive = ground arith; same = ground arith }

  nearest-IsBest :
      (i j k best_dist best_j : ℕ)
      → i < n
      → j ≤ m
      → k ≤ j
      → IsBest i j best_j
      → IsBest i j (nearest m weight dp (suc i) j k best_dist best_j)
  unfolding nearest
  nearest-IsBest i j zero best_dist best_j hi hj hk b = b
  nearest-IsBest i j (suc k) best_dist best_j hi hj hk b =
      elim (Bool-cases (is_nearer m weight dp (suc i) j (suc k) best_dist)) [
        | inl t ↦ rw t (
            nearest-IsBest i j k (distance (suc i) (suc k)) (suc k) hi hj (omega arith)
              (is_nearer-IsBest i j k best_dist hi hj hk t))
        | inr f ↦ rw f (nearest-IsBest i j k best_dist best_j hi hj (omega arith) b)
      ]

  best_column-IsBest :
      (tie : Bool) (i j : ℕ)
      → i < n
      → j ≤ m
      → IsBest i j j
      → IsBest i j (best_column m weight dp tie (suc i) j)
  unfolding best_column
  best_column-IsBest true i j hi hj b =
      nearest-IsBest i j (j - 1) (distance (suc i) j) j hi hj (omega arith) b
  best_column-IsBest false i j hi hj b = b

  backtrack-step :
      (tie : Bool) (fuel i j : ℕ)
      → i < n
      → j < m
      → backtrack m weight dp tie (suc fuel) (suc i) (suc j) ≡ (
          let w = weight i j in
          let best_j = best_column m weight dp tie (suc i) (suc j) in
          if ltb 0 w && (optimum weight (suc i) (suc j) == optimum weight i j + w)
          then (i, best_j - 1) ∷ backtrack m weight dp tie fuel i (best_j - 1)
          else if leb (optimum weight (suc i) j) (optimum weight i (suc j))
          then backtrack m weight dp tie fuel i (suc j)
          else backtrack m weight dp tie fuel (suc i) j)
  unfolding backtrack
  backtrack-step tie fuel i j hi hj = simp (
    ltb-zero-suc,
    sub-one,
    table i j (omega arith) (omega arith),
    table (suc i) (suc j) hi hj,
    table (suc i) j hi (omega arith),
    table i (suc j) (omega arith) hj,
  )

  -- The path from `(i, j)` is an alignment read from the end, and weighs the optimum.
  abbrev pub IsBestPath : ℕ → ℕ → List (ℕ × ℕ) → Type 0
  IsBestPath i j ps = IsDescending weight i j ps × (total weight ps ≡ optimum weight i j)

  -- A pair before a best path of its own corner.
  match-IsBestPath :
      (i j k : ℕ) (ps : List (ℕ × ℕ))
      → IsBest i j k
      → IsBestPath i (k - 1) ps
      → IsBestPath (suc i) j ((i, k - 1) ∷ ps)
  match-IsBestPath i j k ps b p =
      let e : k - 1 ≡ b.column = omega (arith, b.is) in
      let (down, sum) = p in
      ((omega arith, omega (arith, b.inside), rw e b.positive, down), ground (arith, b.same))

  weaken-row :
      (i j : ℕ) (ps : List (ℕ × ℕ)) → IsDescending weight i j ps → IsDescending weight (suc i) j ps
  weaken-row i j [] p = tt
  weaken-row i j (q ∷ ps) p = ground arith

  weaken-column :
      (i j : ℕ) (ps : List (ℕ × ℕ)) → IsDescending weight i j ps → IsDescending weight i (suc j) ps
  weaken-column i j [] p = tt
  weaken-column i j (q ∷ ps) p = ground arith

  end-IsBest :
      (i j : ℕ)
      → (ltb 0 (weight i j) && (optimum weight (suc i) (suc j) == optimum weight i j + weight i j))
        ≡ true
      → IsBest i (suc j) (suc j)
  end-IsBest i j t = record {
    column = j;
    is = refl;
    inside = omega arith;
    positive = ground arith;
    same = ground arith;
  }

  backtrack_at_column_zero :
      (tie : Bool) (fuel i : ℕ) → backtrack m weight dp tie (suc fuel) (suc i) 0 ≡ []
  unfolding backtrack
  backtrack_at_column_zero tie fuel i = ground arith

  -- Where no pair of `i` and `j` ends a best path, the larger neighbour is as good.
  optimum_skip :
      (i j : ℕ)
      → (ltb 0 (weight i j) && (optimum weight (suc i) (suc j) == optimum weight i j + weight i j))
        ≡ false
      → optimum weight (suc i) (suc j) ≡ max (optimum weight i (suc j)) (optimum weight (suc i) j)
  unfolding optimum
  optimum_skip i j f = ground arith

  pub backtrack_lem :
      (tie : Bool) (fuel i j : ℕ)
      → i ≤ n
      → j ≤ m
      → i + j ≤ fuel
      → IsBestPath i j (backtrack m weight dp tie fuel i j)
  backtrack_lem tie zero zero j hi hj h = unfold backtrack optimum in (tt, refl)
  backtrack_lem tie zero (suc i) j hi hj h = absurd (omega arith)
  backtrack_lem tie (suc fuel) zero j hi hj h = unfold backtrack optimum in (tt, refl)
  backtrack_lem tie (suc fuel) (suc i) zero hi hj h =
      rw (backtrack_at_column_zero tie fuel i) (tt, unfold optimum in refl)
  backtrack_lem tie (suc fuel) (suc i) (suc j) hi hj h =
      rw (backtrack-step tie fuel i j hi hj)
        (elim (Bool-cases (
          ltb 0 (weight i j)
          && (optimum weight (suc i) (suc j) == optimum weight i j + weight i j))) [
            | inl t ↦
                let best = best_column-IsBest tie i (suc j) hi hj (end-IsBest i j t) in
                rw t (
                  match-IsBestPath i (suc j) _ _ best (
                    backtrack_lem tie fuel i (best_column m weight dp tie (suc i) (suc j) - 1)
                      (omega arith) (omega (arith, best.is, best.inside))
                      (omega (arith, best.is, best.inside))))
            | inr f ↦
                rw f
                  (elim (Bool-cases (leb (optimum weight (suc i) j) (optimum weight i (suc j)))) [
                    | inl up ↦
                        let (down, sum) =
                          backtrack_lem tie fuel i (suc j) (omega arith) hj (omega arith) in
                        rw up (
                          weaken-row i (suc j) _ down,
                          omega (arith, sum, optimum_skip i j f, leb→le _ _ up),
                        )
                    | inr left ↦
                        let (down, sum) =
                          backtrack_lem tie fuel (suc i) j hi (omega arith) (omega arith) in
                        rw left (
                          weaken-column (suc i) j _ down,
                          omega (arith, sum, optimum_skip i j f, leb→gt _ _ left),
                        )
                  ])
          ])

nearest-le :
    (m : ℕ) (weight : ℕ → ℕ → ℕ) (dp : List ℕ) (i j k best_dist best_j : ℕ)
    → k ≤ j
    → best_j ≤ j
    → nearest m weight dp i j k best_dist best_j ≤ j
unfolding nearest
nearest-le m weight dp i j zero best_dist best_j hk hb = hb
nearest-le m weight dp i j (suc k) best_dist best_j hk hb =
    nearest-le m weight dp i j k _ _ (omega arith) (ground arith)

-- Two tables that agree with the optimum lead to the same path.
module _ (n m : ℕ) (weight : ℕ → ℕ → ℕ) (dp dp' : List ℕ)
    (table : (a b : ℕ) → a ≤ n → b ≤ m → get_or dp (a * (m + 1) + b) 0 ≡ optimum weight a b)
    (table' : (a b : ℕ) → a ≤ n → b ≤ m → get_or dp' (a * (m + 1) + b) 0 ≡ optimum weight a b) where
  nearest_same :
      (i j k best_dist best_j : ℕ)
      → i < n
      → j ≤ m
      → k ≤ j
      → nearest m weight dp (suc i) j k best_dist best_j
        ≡ nearest m weight dp' (suc i) j k best_dist best_j
  unfolding nearest
  nearest_same i j zero best_dist best_j hi hj hk = refl
  nearest_same i j (suc k) best_dist best_j hi hj hk =
      rw
        (
          is_nearer_lem n m weight dp table i j k best_dist hi hj hk,
          is_nearer_lem n m weight dp' table' i j k best_dist hi hj hk,
        )
        (nearest_same i j k _ _ hi hj (omega arith))

  best_column_same :
      (tie : Bool) (i j : ℕ)
      → i < n
      → j ≤ m
      → best_column m weight dp tie (suc i) j ≡ best_column m weight dp' tie (suc i) j
  unfolding best_column
  best_column_same true i j hi hj =
      nearest_same i j (j - 1) (distance (suc i) j) j hi hj (omega arith)
  best_column_same false i j hi hj = refl

  best_column_in_range :
      (tie : Bool) (i j : ℕ) → i < n → j ≤ m → best_column m weight dp tie (suc i) j ≤ j
  unfolding best_column
  best_column_in_range false i j hi hj = omega arith
  best_column_in_range true i j hi hj =
      nearest-le m weight dp (suc i) j (j - 1) (distance (suc i) j) j (omega arith) (omega arith)

  pub backtrack_same :
      (tie : Bool) (fuel i j : ℕ)
      → i ≤ n
      → j ≤ m
      → backtrack m weight dp tie fuel i j ≡ backtrack m weight dp' tie fuel i j
  backtrack_same tie zero i j hi hj = unfold backtrack in refl
  backtrack_same tie (suc fuel) zero j hi hj = unfold backtrack in refl
  backtrack_same tie (suc fuel) (suc i) zero hi hj = unfold backtrack in ground arith
  backtrack_same tie (suc fuel) (suc i) (suc j) hi hj =
      rw
        (
          backtrack-step n m weight dp table tie fuel i j hi hj,
          backtrack-step n m weight dp' table' tie fuel i j hi hj,
          best_column_same tie i (suc j) hi hj,
        )
        (rw (
          backtrack_same tie fuel i (suc j) (omega arith) hj,
          backtrack_same tie fuel (suc i) j hi (omega arith),
          backtrack_same tie fuel i (best_column m weight dp' tie (suc i) (suc j) - 1) (omega arith)
              (omega (
                arith,
                best_column_in_range tie i (suc j) hi hj,
                best_column_same tie i (suc j) hi hj,
              )),
        ))
