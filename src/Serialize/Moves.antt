-- ===== src/Serialize/Moves.antt =====
-- internal/serialize/align.go: lines within moved ranges. `mod Crossing` is the index that says
-- whether a match crosses a statement that stays.
pub mod Crossing
use diffmantic.Base.{
  ℕ, ◌-◌, Bool, true, false, not, ◌&&◌, ◌||◌, Option, none, some, List, [], ◌∷◌, ltb, leb, ◌==◌,
  if◌then◌else◌,
}

-- `moveRange`, its ends inclusive.
pub record MoveRange : Type 0 where
  pub s_start : ℕ
  pub s_end : ℕ
  pub d_start : ℕ
  pub d_end : ℕ
  pub has_dst : Bool

abbrev pub covers_src : MoveRange → ℕ → Bool
covers_src m s = leb m.s_start s && leb s m.s_end

abbrev pub covers_dst : MoveRange → ℕ → Bool
covers_dst m d = m.has_dst && leb m.d_start d && leb d m.d_end

unfoldable pub is_inside_move : ℕ → ℕ → List MoveRange → Bool
is_inside_move s d [] = false
is_inside_move s d (m ∷ moves) = covers_src m s || covers_dst m d || is_inside_move s d moves

-- `*sMove == *dMove`
unfoldable pub same_move : MoveRange → MoveRange → Bool
same_move a b =
    a.s_start == b.s_start
    && a.s_end == b.s_end
    && a.d_start == b.d_start
    && a.d_end == b.d_end
    && (if a.has_dst then b.has_dst else not b.has_dst)

-- The narrowest range so far, `none` for a nil pointer; its length stands for `sLen` and `dLen`.
unfoldable pub narrower_src : Option MoveRange → MoveRange → Option MoveRange
narrower_src none m = some m
narrower_src (some b) m = if ltb (m.s_end - m.s_start) (b.s_end - b.s_start) then some m else some b

unfoldable pub narrower_dst : Option MoveRange → MoveRange → Option MoveRange
narrower_dst none m = some m
narrower_dst (some b) m = if ltb (m.d_end - m.d_start) (b.d_end - b.d_start) then some m else some b

unfoldable pub narrowest_src : ℕ → Option MoveRange → List MoveRange → Option MoveRange
unfolding narrower_src
narrowest_src s best [] = best
narrowest_src s best (m ∷ moves) =
    narrowest_src s (if covers_src m s then narrower_src best m else best) moves

unfoldable pub narrowest_dst : ℕ → Option MoveRange → List MoveRange → Option MoveRange
unfolding narrower_dst
narrowest_dst d best [] = best
narrowest_dst d best (m ∷ moves) =
    narrowest_dst d (if covers_dst m d then narrower_dst best m else best) moves

unfoldable pub is_cross_move_mismatch : ℕ → ℕ → List MoveRange → Bool
unfolding same_move narrowest_src narrowest_dst
is_cross_move_mismatch s d moves = elim (narrowest_src s none moves) [
  | none ↦ elim (narrowest_dst d none moves) [ none ↦ false | some b ↦ true ]
  | some a ↦ elim (narrowest_dst d none moves) [ none ↦ true | some b ↦ not (same_move a b) ]
]

unfoldable pub is_intra_move : ℕ → ℕ → List MoveRange → Bool
unfolding is_inside_move is_cross_move_mismatch
is_intra_move s d moves = is_inside_move s d moves && not (is_cross_move_mismatch s d moves)
