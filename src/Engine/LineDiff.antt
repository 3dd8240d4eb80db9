-- ===== src/Engine/LineDiff.antt =====
-- internal/engine/linediff.go: compaction, which slides a group of changed lines to the place where
-- its ends look best. A line is a list of bytes, the flags `changed` are a list as long as the lines.
pub mod Windows
pub mod Sliding
pub mod Compaction
pub mod Marking
pub mod Pairing
pub mod Rematch
pub mod Aligning
pub mod Patience
pub mod Views
pub mod Whole
mod Examples
use diffmantic.Base.{
  ℕ, zero, suc, ◌+◌, ◌-◌, ◌*◌, min, max, Bool, true, false, not, ◌&&◌, ◌||◌, Option, none, some,
  List, [], ◌∷◌, ◌++◌, ltb, leb, ◌==◌, if◌then◌else◌, length, get_or, set, take, drop, replicate,
}
use diffmantic.Engine.WordDiff.Tokens.{Bytes, decode_rune}
use diffmantic.Engine.WordDiff.Diff.{equal_bytes}

-- `unicode.IsSpace`
is_space : ℕ → Bool
is_space r =
    leb 9 r && leb r 13
    || r == b' '
    || r == 0x85
    || r == 0xA0
    || r == 0x1680
    || leb 0x2000 r && leb r 0x200A
    || r == 0x2028
    || r == 0x2029
    || r == 0x202F
    || r == 0x205F
    || r == 0x3000

-- `strings.TrimSpace` from the left and from the right; a round for each byte is enough.
trim_left : ℕ → Bytes → Bytes
unfolding decode_rune is_space
trim_left zero s = s
trim_left (suc fuel) s =
    let (r, size) = decode_rune s in
    let rest = trim_left fuel (drop size s) in if is_space r then rest else s

trim_right : ℕ → Bytes → Bytes
unfolding trim_left
trim_right zero s = s
trim_right (suc fuel) s =
    let (r, size) = decode_rune s in
    let rest = trim_right fuel (drop size s) in
    if length (trim_left (length s) s) == 0 then [] else take size s ++ rest

unfoldable pub trim_space : Bytes → Bytes
unfolding trim_left trim_right
trim_space s = let t = trim_left (length s) s in trim_right (length t) t

-- The runes that count are single bytes, so the loop over runes is one over bytes; -1 is `none`.
line_indent_from : ℕ → Bytes → Option ℕ
line_indent_from indent [] = none
line_indent_from indent (c ∷ s) =
    let blank = line_indent_from (indent + 1) s in
    let tab = line_indent_from (indent + 4) s in
    if c == b' ' then blank else if c == 9 then tab else some indent

unfoldable pub line_indent : Bytes → Option ℕ
unfolding line_indent_from
line_indent s = line_indent_from 0 s

unfoldable pub indent_score : Option ℕ → Option ℕ → ℕ
indent_score (some p) (some c) =
    (40 - min p c * 2) + (if ltb c p then 30 else if ltb p c then 20 else 0)
indent_score _ _ = 0

unfoldable pub closes_before : Bytes → Bool
unfolding equal_bytes
closes_before t =
    equal_bytes t (b'}' ∷ [])
    || equal_bytes t (b'}' ∷ b';' ∷ [])
    || equal_bytes t (b'e' ∷ b'n' ∷ b'd' ∷ [])
    || equal_bytes t (b')' ∷ b';' ∷ [])
    || equal_bytes t (b'}' ∷ b')' ∷ [])

unfoldable pub closes_after : Bytes → Bool
unfolding equal_bytes
closes_after t = equal_bytes t (b'}' ∷ []) || equal_bytes t (b'}' ∷ b';' ∷ [])

-- Every score is kept 30 higher than in the code, where it can be as low as -30.
unfoldable pub score_boundary : List Bytes → ℕ → ℕ
unfolding trim_space line_indent indent_score closes_before closes_after
score_boundary lines pos =
    let prev = get_or lines (pos - 1) [] in
    let curr = get_or lines pos [] in
    let trimmed_prev = trim_space prev in
    let trimmed_curr = trim_space curr in
    let prev_blank = length trimmed_prev == 0 in
    let curr_blank = length trimmed_curr == 0 in
    if pos == 0 || pos == length lines
    then 80
    else (if prev_blank && curr_blank
        then 80
        else if prev_blank || curr_blank
        then 100
        else indent_score (line_indent prev) (line_indent curr))
      + (if closes_before trimmed_prev then 40 else 0)
      + (if closes_after trimmed_curr then 0 else 30)

unfoldable pub score_change_group : List Bytes → ℕ → ℕ → ℕ
unfolding score_boundary
score_change_group lines start end = score_boundary lines start + score_boundary lines end

unfoldable pub group_end : List Bool → ℕ → ℕ → ℕ → ℕ
group_end changed n zero i = i
group_end changed n (suc fuel) i =
    let next = group_end changed n fuel (suc i) in
    if ltb i n && get_or changed i false then next else i

module _ (lines : List Bytes) (changed : List Bool) (group_len : ℕ) where
  -- The loop of `earliest`, down from the start of the group.
  unfoldable pub slide_back : ℕ → ℕ
  unfolding equal_bytes
  slide_back zero = zero
  slide_back (suc e) =
      let next = slide_back e in
      if equal_bytes (get_or lines e []) (get_or lines (e + group_len) [])
        && not (get_or changed e false)
      then next
      else suc e

  -- The loop of `latest`; as many rounds as there are lines are enough.
  unfoldable pub slide_forward : ℕ → ℕ → ℕ
  unfolding equal_bytes
  slide_forward zero latest = latest
  slide_forward (suc fuel) latest =
      let next = slide_forward fuel (suc latest) in
      if ltb (latest + group_len) (length lines)
        && equal_bytes (get_or lines latest []) (get_or lines (latest + group_len) [])
        && not (get_or changed (latest + group_len) false)
      then next
      else latest

  -- The loop over `count` positions from `pos` on.
  unfoldable pub best_from : ℕ → ℕ → ℕ → ℕ → ℕ
  unfolding score_change_group
  best_from zero pos best_pos best_score = best_pos
  best_from (suc count) pos best_pos best_score =
      let s = score_change_group lines pos (pos + group_len) in
      best_from count (suc pos) (if ltb best_score s then pos else best_pos)
        (if ltb best_score s then s else best_score)

  -- Where the group that starts at `start` goes.
  unfoldable pub best_position : ℕ → ℕ
  unfolding slide_back slide_forward best_from
  best_position start =
      let earliest = slide_back start in
      let latest = slide_forward (length lines) start in
      if earliest == latest
      then start
      else best_from (suc latest - earliest) earliest start
          (score_change_group lines start (start + group_len))

-- `changed[k] = v` for `count` places from `start` on.
unfoldable pub set_range : List Bool → ℕ → ℕ → Bool → List Bool
set_range changed start zero v = changed
set_range changed start (suc count) v = set_range (set changed start v) (suc start) count v

unfoldable pub move_group : List Bool → ℕ → ℕ → ℕ → List Bool
unfolding set_range
move_group changed start group_len pos =
    if pos == start
    then changed
    else set_range (set_range changed start group_len false) pos group_len true

-- Every round moves `i` on, so as many rounds as there are lines are enough.
unfoldable pub compact_from : List Bytes → ℕ → ℕ → List Bool → List Bool
unfolding group_end best_position move_group
compact_from lines zero i changed = changed
compact_from lines (suc fuel) i changed =
    let end = group_end changed (length lines) (length lines) i in
    let group_len = end - i in
    let pos = best_position lines changed group_len i in
    let skipped = compact_from lines fuel (suc i) changed in
    let moved =
      compact_from lines fuel (if ltb i pos then pos + group_len else end)
        (move_group changed i group_len pos) in
    if ltb i (length lines) then (if get_or changed i false then moved else skipped) else changed

unfoldable pub compact_changes : List Bytes → List Bool → List Bool
unfolding compact_from
compact_changes lines changed = compact_from lines (length lines) 0 changed

-- `matchedA` and the result are maps, here lists of their entries.
unfoldable pub mark_matched : ℕ → ℕ → List (ℕ × ℕ) → List Bool × List Bool → List Bool × List Bool
mark_matched m n [] changed = changed
mark_matched m n ((i, j) ∷ matched) (changed_a, changed_b) = mark_matched m n matched (
    if ltb i m && ltb j n
    then (set changed_a i false, set changed_b j false)
    else (changed_a, changed_b))

-- The indices from `i` on whose flag is not set.
unfoldable pub matched_lines : ℕ → List Bool → List ℕ
matched_lines i [] = []
matched_lines i (c ∷ changed) =
    let rest = matched_lines (suc i) changed in if c then rest else i ∷ rest

unfoldable pub zip {ℓ} : {A : Type ℓ} → List A → List A → List (A × A)
zip [] ys = []
zip (x ∷ xs) [] = []
zip (x ∷ xs) (y ∷ ys) = (x, y) ∷ zip xs ys

-- The flags before and behind `compactChanges`, and the lines paired in order.
unfoldable pub initial_flags : List Bytes → List Bytes → List (ℕ × ℕ) → List Bool × List Bool
unfolding mark_matched
initial_flags lines_a lines_b matched =
    mark_matched (length lines_a) (length lines_b) matched
      (replicate (length lines_a) true, replicate (length lines_b) true)

unfoldable pub compact_line_diff : List Bytes → List Bytes → List (ℕ × ℕ) → List (ℕ × ℕ)
unfolding initial_flags compact_changes matched_lines zip
compact_line_diff lines_a lines_b matched =
    let (changed_a, changed_b) = initial_flags lines_a lines_b matched in
    if length lines_a == 0 || length lines_b == 0 || length matched == 0
    then matched
    else zip (matched_lines 0 (compact_changes lines_a changed_a))
        (matched_lines 0 (compact_changes lines_b changed_b))
