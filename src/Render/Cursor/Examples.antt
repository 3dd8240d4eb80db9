-- ===== src/Render/Cursor/Examples.antt =====
-- A line with a deletion and a move.
use diffmantic.Base.{◌≡◌, refl, List, [], ◌∷◌, ℕ, map, arith}
use diffmantic.Base.Int.{pos, negsuc}
use diffmantic.Render.Cursor.{
  HighlightSpan, action_none, action_delete, action_move1, new_span_cursor, lower_delete,
  upper_move,
}
use diffmantic.Render.Cursor.Stateless.{actions_at, covering_action, actions_at-covering_action}

abbrev two_spans : List HighlightSpan
two_spans =
    record { start_col = 2; end_col = 4; action = lower_delete; color_index = negsuc 0 }
    ∷ record { start_col = 4; end_col = 7; action = upper_move; color_index = pos 1 }
    ∷ []

abbrev columns : List ℕ
columns = 0 ∷ 3 ∷ 3 ∷ 4 ∷ 9 ∷ []

moves_on :
    actions_at (new_span_cursor two_spans) columns
    ≡ action_none ∷ action_delete ∷ action_delete ∷ action_move1 ∷ action_none ∷ []
unfolding actions_at new_span_cursor
moves_on = refl

actions_at-covering_action_example :
    actions_at (new_span_cursor two_spans) columns ≡ map (covering_action two_spans) columns
actions_at-covering_action_example =
    actions_at-covering_action two_spans columns (ground arith) (ground arith)
