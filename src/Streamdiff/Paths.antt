-- ===== src/Streamdiff/Paths.antt =====
-- internal/streamdiff/stream.go: the paths of a patch's header lines. `unquote` is
-- `strconv.Unquote` of Go's library, none for an error.
pub mod Symmetric
mod Examples
use diffmantic.Base.{
  ℕ, zero, suc, ◌+◌, ◌-◌, ◌/◌, ◌%◌, Bool, true, false, not, ◌&&◌, ◌||◌, Option, none, some, List,
  [], ◌∷◌, ◌++◌, ltb, ◌==◌, if◌then◌else◌, length, get_or, take, drop, reverse,
}
use diffmantic.Engine.WordDiff.Tokens.{Bytes}
use diffmantic.Engine.WordDiff.Diff.{equal_bytes}
use diffmantic.Engine.LineDiff.{trim_space}

-- `strings.CutPrefix(s, prefix)`
unfoldable pub cut_prefix : Bytes → Bytes → Option Bytes
cut_prefix [] s = some s
cut_prefix (c ∷ prefix) [] = none
cut_prefix (c ∷ prefix) (d ∷ s) = let rest = cut_prefix prefix s in if c == d then rest else none

-- `strings.Cut(s, sep)` for a separator of one byte: what is before and behind the first, if any.
unfoldable pub cut : ℕ → Bytes → Bytes × Bytes × Bool
cut sep [] = ([], [], false)
cut sep (c ∷ s) =
    let (before, after, found) = cut sep s in
    if c == sep then ([], s, true) else (c ∷ before, after, found)

abbrev pub prefix_a : Bytes
prefix_a = b'a' ∷ b'/' ∷ []

abbrev pub diff_git : Bytes
diff_git = b'd' ∷ b'i' ∷ b'f' ∷ b'f' ∷ b' ' ∷ b'-' ∷ b'-' ∷ b'g' ∷ b'i' ∷ b't' ∷ b' ' ∷ []

abbrev pub prefix_b : Bytes
prefix_b = b'b' ∷ b'/' ∷ []

unfoldable pub clean_git_path_prefix : Bytes → Bytes
unfolding cut_prefix
clean_git_path_prefix p = elim (cut_prefix prefix_a p) [
  | some after ↦ after
  | none ↦ elim (cut_prefix prefix_b p) [ some after ↦ after | none ↦ p ]
]

-- The loop that looks for the closing quote from index `i` on; none if there is none.
unfoldable pub closing_quote : ℕ → Bytes → Option ℕ
closing_quote i [] = none
closing_quote i (c ∷ []) = if c == b'"' then some i else none
closing_quote i (c ∷ (d ∷ s)) =
    let skipped = closing_quote (i + 2) s in
    let next = closing_quote (i + 1) (d ∷ s) in
    if c == b'\\' then skipped else if c == b'"' then some i else next

-- `strings.Trim(s, "\"")`
unfoldable pub trim_quotes_left : Bytes → Bytes
trim_quotes_left [] = []
trim_quotes_left (c ∷ s) = let rest = trim_quotes_left s in if c == b'"' then rest else c ∷ s

unfoldable pub trim_quotes : Bytes → Bytes
unfolding trim_quotes_left
trim_quotes s = reverse (trim_quotes_left (reverse (trim_quotes_left s)))

module _ (unquote : Bytes → Option Bytes) where
  unfoldable pub parse_git_path_token : Bytes → Bytes × Bytes
  unfolding trim_space closing_quote clean_git_path_prefix trim_quotes cut
  parse_git_path_token line =
      let s = trim_space line in
      let (before, after, found) = cut b' ' s in
      if length s == 0
      then ([], [])
      else if get_or s 0 0 == b'"'
      then elim (closing_quote 1 (drop 1 s)) [
        | none ↦ (clean_git_path_prefix (trim_quotes s), [])
        | some i ↦
            let unquoted : Bytes = elim (unquote (take (i + 1) s)) [
              | some u ↦ u
              | none ↦ take (i - 1) (drop 1 s)
            ] in
            (clean_git_path_prefix unquoted, trim_space (drop (i + 1) s))
      ]
      else if found
      then (clean_git_path_prefix before, trim_space after)
      else (clean_git_path_prefix s, [])

  -- The two tokens, if both are there.
  unfoldable pub token_paths : Bytes → Bytes × Bytes
  unfolding parse_git_path_token
  token_paths rest =
      let (p_a, behind) = parse_git_path_token rest in
      let (p_b, left) = parse_git_path_token behind in
      if not (length p_a == 0) && not (length p_b == 0) then (p_a, p_b) else ([], [])

  unfoldable pub rest_paths : Bytes → Bytes × Bytes
  unfolding token_paths
  rest_paths rest =
      let tokens = token_paths rest in
      elim (cut_prefix prefix_a rest) [
        | some behind ↦
            let rem = length rest - 5 in
            let x_len = rem / 2 in
            let first = take x_len (drop 2 rest) in
            let sep = take 3 (drop (2 + x_len) rest) in
            let second = drop (2 + x_len + 3) rest in
            if ltb 0 rem
              && rem % 2 == 0
              && equal_bytes sep (b' ' ∷ prefix_b)
              && equal_bytes first second
            then (first, second)
            else tokens
        | none ↦
            let rem = length rest - 1 in
            let x_len = rem / 2 in
            if ltb 0 rem
              && rem % 2 == 0
              && get_or rest x_len 0 == b' '
              && equal_bytes (take x_len rest) (drop (x_len + 1) rest)
            then (take x_len rest, drop (x_len + 1) rest)
            else tokens
      ]

  unfoldable pub parse_diff_git_paths : Bytes → Bytes × Bytes
  unfolding cut_prefix rest_paths trim_space
  parse_diff_git_paths line = elim (cut_prefix diff_git line) [
    | none ↦ ([], [])
    | some rest ↦ rest_paths (trim_space rest)
  ]
