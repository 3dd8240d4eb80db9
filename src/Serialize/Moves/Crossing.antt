-- ===== src/Serialize/Moves/Crossing.antt =====
-- internal/serialize/align.go: `stationaryIndex`, with the binary search of Go's library.
pub mod Exact
pub mod Extrema
pub mod Answer
use diffmantic.Base.{
  ℕ, zero, suc, ◌+◌, ◌-◌, ◌/◌, min, max, Bool, false, ◌&&◌, ◌||◌, List, [], ◌∷◌, ltb, leb, ◌==◌,
  if◌then◌else◌, length, get_or,
}
use diffmantic.Engine.LineDiff.Patience.{LinePair, no_pair}

pub record StationaryIndex : Type 0 where
  pub stmts : List LinePair
  pub prefix_max_d : List ℕ
  pub suffix_min_d : List ℕ

-- The statements by source line; a map has no two of one line.
unfoldable pub insert_stmt : LinePair → List LinePair → List LinePair
insert_stmt a [] = a ∷ []
insert_stmt a (b ∷ bs) =
    let later = insert_stmt a bs in if leb a.i b.i then a ∷ b ∷ bs else b ∷ later

unfoldable pub sort_stmts : List LinePair → List LinePair
unfolding insert_stmt
sort_stmts [] = []
sort_stmts (a ∷ rest) = insert_stmt a (sort_stmts rest)

unfoldable pub prefix_max : ℕ → List LinePair → List ℕ
prefix_max max_d [] = []
prefix_max max_d (a ∷ rest) = max max_d a.j ∷ prefix_max (max max_d a.j) rest

-- The loop from the end; `min_d` starts as the target line of the last statement.
unfoldable pub suffix_min : ℕ → List LinePair → List ℕ
suffix_min min_d [] = []
suffix_min min_d (a ∷ rest) =
    let later = suffix_min min_d rest in min (get_or later 0 min_d) a.j ∷ later

unfoldable pub new_stationary_index : List LinePair → StationaryIndex
unfolding sort_stmts prefix_max suffix_min
new_stationary_index statements =
    let stmts = sort_stmts statements in
    record {
      stmts = stmts;
      prefix_max_d = prefix_max (get_or stmts 0 no_pair).j stmts;
      suffix_min_d = suffix_min (get_or stmts (length stmts - 1) no_pair).j stmts;
    }

-- `slices.BinarySearchFunc`: the first statement that is not before line `s`.
unfoldable pub search_stmts : List LinePair → ℕ → ℕ → ℕ → ℕ → ℕ
search_stmts stmts s zero low high = low
search_stmts stmts s (suc fuel) low high =
    let mid = (low + high) / 2 in
    let right = search_stmts stmts s fuel (mid + 1) high in
    let left = search_stmts stmts s fuel low mid in
    if ltb low high then (if ltb (get_or stmts mid no_pair).i s then right else left) else low

unfoldable pub crosses : StationaryIndex → ℕ → ℕ → Bool
unfolding search_stmts
crosses idx s d =
    let n = length idx.stmts in
    let pos = search_stmts idx.stmts s n 0 n in
    let next = if ltb pos n && (get_or idx.stmts pos no_pair).i == s then pos + 1 else pos in
    if n == 0
    then false
    else (ltb 0 pos && ltb d (get_or idx.prefix_max_d (pos - 1) 0))
      || (ltb next n && ltb (get_or idx.suffix_min_d next 0) d)
