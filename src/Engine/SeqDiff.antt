-- ===== src/Engine/SeqDiff.antt =====
-- internal/engine/seqdiff.go: trimming of equal ends and weighted alignment by dynamic programming.
-- Lengths and indices are never negative where the source uses them; an inclusive end that may be
-- -1 (`endA`, `endB`) is kept as the exclusive end, one more, and is named `stop_a`, `stop_b`.
-- A weight that is not positive is skipped by the source, so weights are numbers with 0 for "skip".
pub mod Optimum
mod Table
mod Backtrack
pub mod Alignment
pub mod Trim
mod Examples
use diffmantic.Base.{
  ℕ, zero, suc, ◌+◌, ◌-◌, ◌*◌, min, max, Bool, true, false, not, ◌&&◌, ◌||◌, List, [], ◌∷◌, ◌++◌,
  reverse, length, get_or, set, drop, replicate, ltb, leb, ◌==◌, if◌then◌else◌, map,
}

abbrev pub default_seq_dp_capacity : ℕ
default_seq_dp_capacity = 16384

abbrev pub max_pooled_seq_dp_capacity : ℕ
max_pooled_seq_dp_capacity = 262144

-- `dp` is the whole backing array, so its length is the capacity.
pub record SeqScratch : Type 0 where
  pub dp : List ℕ
  pub matches : List (ℕ × ℕ)

unfoldable pub new_seq_scratch : ℕ → SeqScratch
new_seq_scratch initial_dp_cap =
    let cap =
      if ltb initial_dp_cap default_seq_dp_capacity
      then default_seq_dp_capacity
      else initial_dp_cap in
    record { dp = replicate cap 0; matches = [] }

unfoldable pub reset : SeqScratch → SeqScratch
reset s = record s { matches = [] }

-- What `ReleaseSeqScratch` puts back into the pool.
unfoldable pub release_seq_scratch : SeqScratch → SeqScratch
unfolding reset
release_seq_scratch s =
    let r = reset s in
    if ltb max_pooled_seq_dp_capacity (length r.dp) then record r { dp = [] } else r

-- The slice that `ensureDP` returns is the first `cells` entries of `dp`; the entries behind them
-- keep what an earlier alignment left there.
unfoldable pub ensure_dp : SeqScratch → ℕ → SeqScratch
ensure_dp s cells =
    if ltb (length s.dp) cells
    then record s { dp = replicate (max cells default_seq_dp_capacity) 0 }
    else record s { dp = replicate cells 0 ++ drop cells s.dp }

-- The loop of `TrimPrefix`, `left` rounds before `limit`.
trim_prefix_from : (ℕ → ℕ → Bool) → ℕ → ℕ → ℕ
trim_prefix_from eq zero p = p
trim_prefix_from eq (suc left) p =
    let next = trim_prefix_from eq left (suc p) in if eq p p then next else p

unfoldable pub trim_prefix : ℕ → ℕ → (ℕ → ℕ → Bool) → ℕ
unfolding trim_prefix_from
trim_prefix n m eq = trim_prefix_from eq (min n m) 0

-- The loop of `TrimSuffix`: both stops are above `prefix` or it ends.
trim_suffix_from : (ℕ → ℕ → Bool) → ℕ → ℕ → ℕ → ℕ × ℕ
trim_suffix_from eq prefix zero stop_b = (zero, stop_b)
trim_suffix_from eq prefix (suc a) zero = (suc a, zero)
trim_suffix_from eq prefix (suc a) (suc b) =
    let next = trim_suffix_from eq prefix a b in
    if leb prefix a && leb prefix b && eq a b then next else (suc a, suc b)

unfoldable pub trim_suffix : ℕ → ℕ → ℕ → (ℕ → ℕ → Bool) → ℕ × ℕ
unfolding trim_suffix_from
trim_suffix n m prefix eq = trim_suffix_from eq prefix n m

unfoldable pub trim_bounds : ℕ → ℕ → (ℕ → ℕ → Bool) → ℕ × ℕ × ℕ
unfolding trim_prefix trim_suffix
trim_bounds n m eq =
    let prefix = trim_prefix n m eq in
    let (stop_a, stop_b) = trim_suffix n m prefix eq in (prefix, stop_a, stop_b)

-- `count` pairs that step along the diagonal from `(a, b)`.
unfoldable pub diagonal : ℕ → ℕ → ℕ → List (ℕ × ℕ)
diagonal zero a b = []
diagonal (suc count) a b = (a, b) ∷ diagonal count (suc a) (suc b)

unfoldable pub shift : ℕ → List (ℕ × ℕ) → List (ℕ × ℕ)
shift prefix [] = []
shift prefix ((i, j) ∷ ps) = (prefix + i, prefix + j) ∷ shift prefix ps

unfoldable pub combine_matches : List (ℕ × ℕ) → ℕ → List (ℕ × ℕ) → ℕ → ℕ → ℕ → List (ℕ × ℕ)
unfolding diagonal shift
combine_matches dst prefix middle stop_a stop_b len_a =
    dst ++ (diagonal prefix 0 0 ++ (shift prefix middle ++ diagonal (len_a - stop_a) stop_a stop_b))

-- Where the flat table of `m` columns keeps row `i`, column `j`.
abbrev pub cell : ℕ → ℕ → ℕ → ℕ
cell m i j = i * (m + 1) + j

-- `max(i-j, j-i)` over signed integers.
abbrev pub distance : ℕ → ℕ → ℕ
distance i j = (i - j) + (j - i)

-- `AlignWeighted` for `m` columns.
module _ (m : ℕ) (weight : ℕ → ℕ → ℕ) where
  -- The body of the inner loop; `i` and `j` are at least 1 there.
  unfoldable pub fill_cell : List ℕ → ℕ → ℕ → List ℕ
  fill_cell dp i j =
      let best = max (get_or dp (cell m (i - 1) j) 0) (get_or dp (cell m i (j - 1)) 0) in
      let w = weight (i - 1) (j - 1) in
      set dp (cell m i j)
        (if ltb 0 w then max best (get_or dp (cell m (i - 1) (j - 1)) 0 + w) else best)

  unfoldable pub fill_row : ℕ → ℕ → ℕ → List ℕ → List ℕ
  fill_row zero i j dp = dp
  fill_row (suc rounds) i j dp = fill_row rounds i (suc j) (fill_cell dp i j)

  unfoldable pub fill_rows : ℕ → ℕ → List ℕ → List ℕ
  unfolding fill_row
  fill_rows zero i dp = dp
  fill_rows (suc rounds) i dp = fill_rows rounds (suc i) (fill_row m i 1 dp)

  -- Whether the tie-break moves to column `k`: it reaches the same optimum, nearer the diagonal.
  unfoldable pub is_nearer : List ℕ → ℕ → ℕ → ℕ → ℕ → Bool
  is_nearer dp i j k best_dist =
      let kw = weight (i - 1) (k - 1) in
      ltb 0 kw
      && (get_or dp (cell m (i - 1) (k - 1)) 0 + kw == get_or dp (cell m i j) 0)
      && ltb (distance i k) best_dist

  -- The tie-break loop, for `k` down to 1.
  unfoldable pub nearest : List ℕ → ℕ → ℕ → ℕ → ℕ → ℕ → ℕ
  unfolding is_nearer
  nearest dp i j zero best_dist best_j = best_j
  nearest dp i j (suc k) best_dist best_j =
      let better = is_nearer dp i j (suc k) best_dist in
      nearest dp i j k (if better then distance i (suc k) else best_dist)
        (if better then suc k else best_j)

  unfoldable pub best_column : List ℕ → Bool → ℕ → ℕ → ℕ
  unfolding nearest
  best_column dp tie_break_diagonal i j =
      if tie_break_diagonal then nearest dp i j (j - 1) (distance i j) j else j

  -- The backtracking loop: the pairs in the order in which they are appended. Each round lowers `i`
  -- or `j`, so `n + m` rounds are enough.
  unfoldable pub backtrack : List ℕ → Bool → ℕ → ℕ → ℕ → List (ℕ × ℕ)
  unfolding best_column
  backtrack dp tie zero i j = []
  backtrack dp tie (suc fuel) i j =
      let w = weight (i - 1) (j - 1) in
      let best_j = best_column dp tie i j in
      let matched = (i - 1, best_j - 1) ∷ backtrack dp tie fuel (i - 1) (best_j - 1) in
      let up = backtrack dp tie fuel (i - 1) j in
      let left = backtrack dp tie fuel i (j - 1) in
      if not (ltb 0 i && ltb 0 j)
      then []
      else if ltb 0 w && (get_or dp (cell m i j) 0 == get_or dp (cell m (i - 1) (j - 1)) 0 + w)
      then matched
      else if leb (get_or dp (cell m i (j - 1)) 0) (get_or dp (cell m (i - 1) j) 0)
      then up
      else left

-- The result is the new `matches`; `dp` is left as the table.
unfoldable pub align_weighted : SeqScratch → ℕ → ℕ → (ℕ → ℕ → ℕ) → Bool → SeqScratch
unfolding ensure_dp fill_rows backtrack
align_weighted s n m weight tie_break_diagonal =
    if leb n 0 || leb m 0
    then record s { matches = [] }
    else (let dp = fill_rows m weight n 1 (ensure_dp s ((n + 1) * (m + 1))).dp in
        record {
          dp = dp;
          matches = reverse (backtrack m weight dp tie_break_diagonal (n + m) n m);
        })

unfoldable pub align_uniform : SeqScratch → ℕ → ℕ → (ℕ → ℕ → Bool) → SeqScratch
unfolding align_weighted
align_uniform s n m eq = align_weighted s n m (λ i j. if eq i j then 1 else 0) false
