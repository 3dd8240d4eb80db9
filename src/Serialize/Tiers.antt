-- ===== src/Serialize/Tiers.antt =====
-- internal/serialize/align.go: AlignLines. The statements, declarations, comments and moves that it
-- takes from the trees are arguments, maps as the lists of their entries. `is_punctuation` stands for
-- `rules.IsPunctuation`, `share_words` for `hasSharedWordTokens`, and `rounded`
-- for `int(math.Round(20.0*sim))` of the quotient `sim` of two numbers; `floor_center` and `ceil_center` are those of the banded table.
pub mod Within
pub mod Scores
pub mod Aligned
use diffmantic.Base.{
  ℕ, zero, suc, ◌+◌, ◌-◌, ◌*◌, Bool, true, false, not, ◌&&◌, ◌||◌, Option, none, some, List, [],
  ◌∷◌, ◌++◌, ltb, leb, ◌==◌, if◌then◌else◌, length, get_or,
}
use diffmantic.Base.Int.{ℤ, pos, negsuc, ◌+ℤ◌, leb_ℤ}
use diffmantic.Engine.SeqDiff.{SeqScratch}
use diffmantic.Engine.WordDiff.Tokens.{Bytes}
use diffmantic.Engine.WordDiff.Diff.{equal_bytes}
use diffmantic.Engine.LineDiff.{trim_space}
use diffmantic.Engine.LineDiff.Marking.{mem}
use diffmantic.Engine.LineDiff.Whole.{line_diff}
use diffmantic.Serialize.Gotoh.{Table}
use diffmantic.Serialize.Gotoh.Banded.{Center}
use diffmantic.Serialize.Grid.{Anchor, Pairs, matched_line, left_run, right_run, emit_grid}
use diffmantic.Serialize.Anchors.{filter_monotonic, merge_anchors}
use diffmantic.Serialize.Similarity.{AlignScratch, calculate_similarity}
use diffmantic.Serialize.Moves.{MoveRange, is_inside_move, is_cross_move_mismatch}
use diffmantic.Serialize.Moves.Crossing.{new_stationary_index, crosses}

-- `strings.Split(text, "\n")`
unfoldable pub add_byte : ℕ → List Bytes → List Bytes
add_byte c [] = (c ∷ []) ∷ []
add_byte c (l ∷ ls) = (c ∷ l) ∷ ls

unfoldable pub split_lines : Bytes → List Bytes
unfolding add_byte
split_lines [] = [] ∷ []
split_lines (c ∷ s) = let rest = split_lines s in if c == 10 then [] ∷ rest else add_byte c rest

abbrev pub is_blank : Bytes → Bool
is_blank s = length s == 0

abbrev pub is_empty_text : List Bytes → Bool
is_empty_text lines = length lines == 1 && is_blank (get_or lines 0 [])

-- No bigram is counted.
abbrev pub fresh_scratch : AlignScratch
fresh_scratch = record { bigrams = λ k. 0; touched = [] }

-- Whether a map has the key.
unfoldable pub has_entry : List (ℕ × ℕ) → ℕ → Bool
unfolding matched_line
has_entry ms s = elim (matched_line ms s) [ none ↦ false | some d ↦ true ]

unfoldable pub as_pairs : List (ℕ × ℕ) → List Anchor
as_pairs [] = []
as_pairs ((s, d) ∷ ms) = record { i = s; j = d } ∷ as_pairs ms

module _ (src_lines dst_lines : List Bytes) where
  -- The two lines, trimmed.
  abbrev pub src_trim : ℕ → Bytes
  src_trim s = trim_space (get_or src_lines s [])

  abbrev pub dst_trim : ℕ → Bytes
  dst_trim d = trim_space (get_or dst_lines d [])

  abbrev pub in_range : ℕ → ℕ → Bool
  in_range s d = ltb s (length src_lines) && ltb d (length dst_lines)

  abbrev pub same_text_at : ℕ → ℕ → Bool
  same_text_at s d =
      not (is_blank (src_trim s))
      && not (is_blank (dst_trim d))
      && equal_bytes (src_trim s) (dst_trim d)

  -- The statements whose lines have the same text.
  unfoldable pub equal_candidates : List (ℕ × ℕ) → List Anchor
  equal_candidates [] = []
  equal_candidates ((s, d) ∷ statements) =
      let rest = equal_candidates statements in
      if in_range s d && same_text_at s d then record { i = s; j = d } ∷ rest else rest

  -- Those whose lines differ but share a word.
  unfoldable pub shared_candidates :
      (Bytes → Bool) → (Bytes → Bytes → Bool) → List (ℕ × ℕ) → List Anchor
  shared_candidates is_punctuation share_words [] = []
  shared_candidates is_punctuation share_words ((s, d) ∷ statements) =
      let rest = shared_candidates is_punctuation share_words statements in
      let unusable =
        is_blank (src_trim s)
        || is_blank (dst_trim d)
        || is_punctuation (src_trim s)
        || is_punctuation (dst_trim d) in
      if in_range s d
        && (not unusable
            && not (equal_bytes (src_trim s) (dst_trim d))
            && share_words (src_trim s) (dst_trim d))
      then record { i = s; j = d } ∷ rest
      else rest

  -- The tests that a match of the line diff passes.
  abbrev pub usable : (Bytes → Bool) → List MoveRange → List (ℕ × ℕ) → ℕ → ℕ → Bool
  usable is_punctuation moves statements s d =
      ltb d (length dst_lines)
      && not (has_entry statements s)
      && same_text_at s d
      && not (is_punctuation (src_trim s))
      && not (is_inside_move s d moves)
      && not (crosses (new_stationary_index (as_pairs statements)) s d)

  -- The loop over the source lines with their matches of the line diff.
  unfoldable pub matched_candidates :
      (Bytes → Bool) → List MoveRange → List (ℕ × ℕ) → List (ℕ × ℕ) → ℕ → ℕ → List Anchor
  unfolding matched_line
  matched_candidates is_punctuation moves statements matched zero s = []
  matched_candidates is_punctuation moves statements matched (suc rounds) s =
      let rest = matched_candidates is_punctuation moves statements matched rounds (suc s) in
      elim (matched_line matched s) [
        | none ↦ rest
        | some d ↦
            if usable is_punctuation moves statements s d
            then record { i = s; j = d } ∷ rest
            else rest
      ]

  -- The loop over the declarations that stay, each with its rows, and the one over the comments;
  -- `seen_src` and `seen_dst` hold the lines that have an anchor.
  unfoldable pub declared_candidates :
      (Bytes → Bool) → List (ℕ × ℕ) → List ℕ → List ℕ → List Anchor × List ℕ × List ℕ
  declared_candidates is_punctuation [] seen_src seen_dst = ([], seen_src, seen_dst)
  declared_candidates is_punctuation ((s, d) ∷ rows) seen_src seen_dst =
      let skipped = declared_candidates is_punctuation rows seen_src seen_dst in
      let (rest, src, dst) =
        declared_candidates is_punctuation rows (s ∷ seen_src) (d ∷ seen_dst) in
      let unusable =
        is_blank (src_trim s)
        || is_blank (dst_trim d)
        || is_punctuation (src_trim s)
        || is_punctuation (dst_trim d) in
      if in_range s d && (not (mem s seen_src) && not (mem d seen_dst) && not unusable)
      then (record { i = s; j = d } ∷ rest, src, dst)
      else skipped

  unfoldable pub comment_candidates : List MoveRange → List (ℕ × ℕ) → List ℕ → List ℕ → List Anchor
  unfolding is_inside_move
  comment_candidates moves [] seen_src seen_dst = []
  comment_candidates moves ((s, d) ∷ comments) seen_src seen_dst =
      let skipped = comment_candidates moves comments seen_src seen_dst in
      let rest = comment_candidates moves comments (s ∷ seen_src) (d ∷ seen_dst) in
      if in_range s d
        && (not (mem s seen_src) && not (mem d seen_dst) && not (is_inside_move s d moves))
      then record { i = s; j = d } ∷ rest
      else skipped

-- What the trees and their language give: the test of punctuation, which is `rules.IsPunctuation` if
-- the language has no rules, the rows of declarations that stay, the lines of matched comments, and the
-- statements that stay, that move within their block, and that lie in one moved block.
pub record TreeMatches : Type 0 where
  pub declared_punctuation : Bytes → Bool
  pub declarations : List (ℕ × ℕ)
  pub comments : List (ℕ × ℕ)
  pub stationary : List (ℕ × ℕ)
  pub in_place : List (ℕ × ℕ)
  pub intra_move : List (ℕ × ℕ)
  pub moves : List MoveRange

module _ (is_punctuation : Bytes → Bool) (share_words : Bytes → Bytes → Bool)
    (src_lines dst_lines : List Bytes) (t : TreeMatches) where
  unfoldable pub collect_declaration_and_comment_anchors : List Anchor
  unfolding declared_candidates comment_candidates filter_monotonic
  collect_declaration_and_comment_anchors =
      let (declared, seen_src, seen_dst) =
        declared_candidates src_lines dst_lines t.declared_punctuation t.declarations [] [] in
      filter_monotonic
        (declared ++ comment_candidates src_lines dst_lines t.moves t.comments seen_src seen_dst)

  unfoldable pub collect_unchanged_anchors : List (ℕ × ℕ) → List Anchor
  unfolding collect_declaration_and_comment_anchors equal_candidates matched_candidates
      filter_monotonic
  collect_unchanged_anchors matched = filter_monotonic (
      collect_declaration_and_comment_anchors
      ++ equal_candidates src_lines dst_lines t.stationary
      ++ matched_candidates src_lines dst_lines is_punctuation t.moves t.stationary matched
          (length src_lines) 0)

  -- Both functions leave the earlier tiers alone if they have no candidate.
  unfoldable pub add_tier : List Anchor → List Anchor → List Anchor
  unfolding merge_anchors filter_monotonic
  add_tier earlier cands =
      if length cands == 0 then earlier else merge_anchors earlier (filter_monotonic cands)

  unfoldable pub collect_stationary_statement_anchors : List Anchor → List Anchor
  unfolding add_tier shared_candidates
  collect_stationary_statement_anchors tier1 =
      if length t.stationary == 0
      then tier1
      else add_tier tier1
          (shared_candidates src_lines dst_lines is_punctuation share_words t.stationary)

  unfoldable pub collect_stationary_move_anchors : List Anchor → List Anchor
  unfolding add_tier equal_candidates
  collect_stationary_move_anchors tier2 =
      if length t.in_place == 0
      then tier2
      else add_tier tier2 (equal_candidates src_lines dst_lines t.in_place)

  unfoldable pub all_anchors : List (ℕ × ℕ) → List Anchor
  unfolding collect_unchanged_anchors collect_stationary_statement_anchors
      collect_stationary_move_anchors
  all_anchors matched =
      collect_stationary_move_anchors
        (collect_stationary_statement_anchors (collect_unchanged_anchors matched))

module _ (is_punctuation : Bytes → Bool) (rounded : ℕ → ℕ → ℕ) (src_lines dst_lines : List Bytes)
    (t : TreeMatches) where
  -- `int(math.Round(20.0*sim))`; the counters of the shared scratch are 0 at each call.
  unfoldable pub similarity_score : Bytes → Bytes → ℤ
  unfolding calculate_similarity
  similarity_score a b =
      let terms = calculate_similarity a b fresh_scratch in pos (rounded terms.1 terms.2)

  -- `gotohMappedStatements[s]`: the statements that stay before the others.
  unfoldable pub mapped_bonus : ℕ → ℕ → ℤ
  unfolding matched_line
  mapped_bonus s d = elim (matched_line (t.intra_move ++ t.in_place ++ t.stationary) s) [
    | none ↦ pos 0
    | some target ↦ if target == d then pos 35 else negsuc 19
  ]

  unfoldable pub line_match_score : ℕ → ℕ → ℤ
  unfolding mapped_bonus similarity_score is_cross_move_mismatch ◌+ℤ◌
  line_match_score s d =
      let bonus = mapped_bonus s d in
      let s_line = get_or src_lines s [] in
      let d_line = get_or dst_lines d [] in
      let s_trim = trim_space s_line in
      let d_trim = trim_space d_line in
      let punctuation = leb (length s_trim) 5 && is_punctuation s_trim in
      if not (leb_ℤ (pos 1) bonus) && is_cross_move_mismatch s d t.moves
      then negsuc 999
      else if is_blank s_trim && is_blank d_trim
      then pos 10
      else if is_blank s_trim || is_blank d_trim
      then negsuc 19
      else if equal_bytes s_line d_line
      then (if punctuation then pos 2 else pos 30) +ℤ bonus
      else if equal_bytes s_trim d_trim
      then (if punctuation then pos 2 else pos 25) +ℤ bonus
      else if leb_ℤ (pos 1) bonus
      then bonus
      else similarity_score s_trim d_trim +ℤ negsuc 9 +ℤ bonus

module _ (is_punctuation : Bytes → Bool) (share_words : Bytes → Bytes → Bool) (rounded : ℕ → ℕ → ℕ)
    (line_scratch : SeqScratch) (stale : ℕ → ℕ → Table) (floor_center ceil_center : Center) where
  unfoldable pub align_lines : Bytes → Bytes → TreeMatches → Option Pairs
  unfolding split_lines left_run right_run line_diff line_match_score all_anchors emit_grid
  align_lines src_bytes dst_bytes t =
      let src_lines = split_lines src_bytes in
      let dst_lines = split_lines dst_bytes in
      let matched = line_diff is_punctuation line_scratch src_lines dst_lines in
      let anchors = all_anchors is_punctuation share_words src_lines dst_lines t matched in
      let score = line_match_score is_punctuation rounded src_lines dst_lines t in
      if is_empty_text src_lines
      then some (right_run 0 (length dst_lines))
      else if is_empty_text dst_lines
      then some (left_run 0 (length src_lines))
      else emit_grid is_punctuation line_scratch score stale floor_center ceil_center src_lines
          dst_lines anchors
