-- ===== src/Render/Cursor.antt =====
-- internal/renderutil/cursor.go: the cursor over the highlight spans of a line, which only moves on.
pub mod Stateless
mod Examples
use diffmantic.Base.{
  ℕ, zero, suc, ◌%◌, Bool, true, false, ◌||◌, List, [], ◌∷◌, leb, ◌==◌, if◌then◌else◌, drop,
}
use diffmantic.Base.Int.{ℤ, pos_part}
use diffmantic.Engine.WordDiff.Tokens.{Bytes}
use diffmantic.Engine.WordDiff.Diff.{equal_bytes}

pub record HighlightSpan : Type 0 where
  pub start_col : ℕ
  pub end_col : ℕ
  pub action : Bytes
  pub color_index : ℤ

pub data ActionKind : Type 0 where
  action_none action_insert action_delete action_update action_move action_move1
        action_move_update :
      ActionKind

abbrev pub lower_delete : Bytes
lower_delete = b'd' ∷ b'e' ∷ b'l' ∷ b'e' ∷ b't' ∷ b'e' ∷ []

abbrev pub upper_delete : Bytes
upper_delete = b'D' ∷ b'E' ∷ b'L' ∷ b'E' ∷ b'T' ∷ b'E' ∷ []

abbrev pub lower_insert : Bytes
lower_insert = b'i' ∷ b'n' ∷ b's' ∷ b'e' ∷ b'r' ∷ b't' ∷ []

abbrev pub upper_insert : Bytes
upper_insert = b'I' ∷ b'N' ∷ b'S' ∷ b'E' ∷ b'R' ∷ b'T' ∷ []

abbrev pub lower_update : Bytes
lower_update = b'u' ∷ b'p' ∷ b'd' ∷ b'a' ∷ b't' ∷ b'e' ∷ []

abbrev pub upper_update : Bytes
upper_update = b'U' ∷ b'P' ∷ b'D' ∷ b'A' ∷ b'T' ∷ b'E' ∷ []

abbrev pub lower_move : Bytes
lower_move = b'm' ∷ b'o' ∷ b'v' ∷ b'e' ∷ []

abbrev pub upper_move : Bytes
upper_move = b'M' ∷ b'O' ∷ b'V' ∷ b'E' ∷ []

abbrev pub lower_move_update : Bytes
lower_move_update = b'm' ∷ b'o' ∷ b'v' ∷ b'e' ∷ b'_' ∷ lower_update

abbrev pub upper_move_update : Bytes
upper_move_update = b'M' ∷ b'O' ∷ b'V' ∷ b'E' ∷ b'_' ∷ upper_update

-- `MoveActionKindForSlot` of internal/color/color.go.
unfoldable pub move_action_kind_for_slot : ℤ → Bool → ActionKind
move_action_kind_for_slot slot true = action_move_update
move_action_kind_for_slot slot false = if pos_part slot % 2 == 1 then action_move1 else action_move

unfoldable pub parse_action_kind : Bytes → ℤ → ActionKind
unfolding equal_bytes move_action_kind_for_slot
parse_action_kind action color_index =
    if equal_bytes action lower_delete || equal_bytes action upper_delete
    then action_delete
    else if equal_bytes action lower_insert || equal_bytes action upper_insert
    then action_insert
    else if equal_bytes action lower_update || equal_bytes action upper_update
    then action_update
    else if equal_bytes action lower_move || equal_bytes action upper_move
    then move_action_kind_for_slot color_index false
    else if equal_bytes action lower_move_update || equal_bytes action upper_move_update
    then move_action_kind_for_slot color_index true
    else action_none

pub record SpanCursor : Type 0 where
  pub spans : List HighlightSpan
  pub idx : ℕ

unfoldable pub new_span_cursor : List HighlightSpan → SpanCursor
new_span_cursor spans = record { spans = spans; idx = 0 }

-- The loop over the spans from `idx` on.
unfoldable pub advance : List HighlightSpan → ℕ → ℕ → ℕ
advance [] col idx = idx
advance (sp ∷ rest) col idx =
    let later = advance rest col (suc idx) in if leb sp.end_col col then later else idx

unfoldable pub has_spans : SpanCursor → Bool
has_spans c = elim c.spans [ [] ↦ false | sp ∷ rest ↦ true ]

unfoldable pub kind_at : List HighlightSpan → ℕ → ActionKind
unfolding parse_action_kind
kind_at [] col = action_none
kind_at (sp ∷ rest) col =
    if leb sp.start_col col then parse_action_kind sp.action sp.color_index else action_none

-- The moved cursor and the action.
unfoldable pub action_at : SpanCursor → ℕ → SpanCursor × ActionKind
unfolding advance kind_at
action_at c col =
    let idx = advance (drop c.idx c.spans) col c.idx in
    (record { spans = c.spans; idx = idx }, kind_at (drop idx c.spans) col)
