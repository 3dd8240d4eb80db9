-- ===== src/Engine/LineDiff/Patience.antt =====
-- internal/engine/linediff.go: the anchors of a large window, lines that occur once on either side,
-- thinned out to a rising sequence, and the windows between them.
pub mod Chains
pub mod Longest
pub mod Sequence
pub mod Anchors
mod Examples
use diffmantic.Base.{
  ℕ, zero, suc, ◌+◌, ◌-◌, ◌/◌, Bool, true, false, Option, none, some, List, [], ◌∷◌, ◌++◌, ltb,
  ◌==◌, ◌||◌, if◌then◌else◌, length, get_or, set, take, drop, replicate,
}
use diffmantic.Engine.SeqDiff.{SeqScratch}
use diffmantic.Engine.WordDiff.Tokens.{Bytes}
use diffmantic.Engine.WordDiff.Diff.{equal_bytes}
use diffmantic.Engine.LineDiff.Aligning.{align_line_window}

-- `linePair`: the index of a line on either side.
pub record LinePair : Type 0 where
  pub i : ℕ
  pub j : ℕ

abbrev pub no_pair : LinePair
no_pair = record { i = 0; j = 0 }

-- The arrays of `computeLIS`: indices of candidates, and -1 as `none`.
pub record LisState : Type 0 where
  pub tails : List ℕ
  pub parent : List (Option ℕ)

module _ (candidates : List LinePair) where
  -- The binary search in `tails`; half of the range goes in each round, so its length is enough.
  unfoldable pub search_tails : List ℕ → ℕ → ℕ → ℕ → ℕ → ℕ
  search_tails tails x zero low high = low
  search_tails tails x (suc fuel) low high =
      let mid = (low + high) / 2 in
      let right = search_tails tails x fuel (mid + 1) high in
      let left = search_tails tails x fuel low mid in
      if ltb low high
      then (if ltb (get_or candidates (get_or tails mid 0) no_pair).j x then right else left)
      else low

  -- One round of the loop over the candidates.
  unfoldable pub lis_step : ℕ → LinePair → LisState → LisState
  unfolding search_tails
  lis_step idx p s =
      let low = search_tails s.tails p.j (length s.tails) 0 (length s.tails) in
      record {
        tails = if low == length s.tails then s.tails ++ idx ∷ [] else set s.tails low idx;
        parent =
            if ltb 0 low then set s.parent idx (some (get_or s.tails (low - 1) 0)) else s.parent;
      }

  unfoldable pub lis_loop : ℕ → List LinePair → LisState → LisState
  unfolding lis_step
  lis_loop idx [] s = s
  lis_loop idx (p ∷ ps) s = lis_loop (suc idx) ps (lis_step idx p s)

  -- The last loop, from the end of the sequence to its start.
  unfoldable pub lis_chain : List (Option ℕ) → ℕ → Option ℕ → List LinePair → List LinePair
  lis_chain parent zero curr lis = lis
  lis_chain parent (suc k) none lis = lis
  lis_chain parent (suc k) (some curr) lis =
      lis_chain parent k (get_or parent curr none) (get_or candidates curr no_pair ∷ lis)

unfoldable pub compute_lis : List LinePair → List LinePair
unfolding lis_loop lis_chain
compute_lis [] = []
compute_lis (p ∷ ps) =
    let candidates = p ∷ ps in
    let s =
      lis_loop candidates 0 candidates
        (record { tails = []; parent = replicate (length candidates) none }) in
    lis_chain candidates s.parent (length s.tails) (some (get_or s.tails (length s.tails - 1) 0)) []

-- `freqA[s]`
unfoldable pub frequency : Bytes → List Bytes → ℕ
unfolding equal_bytes
frequency s [] = 0
frequency s (t ∷ ts) = let rest = frequency s ts in if equal_bytes s t then suc rest else rest

-- Where the text stands, from index `j` on.
unfoldable pub position : Bytes → ℕ → List Bytes → Option ℕ
unfolding equal_bytes
position s j [] = none
position s j (t ∷ ts) = let rest = position s (suc j) ts in if equal_bytes s t then some j else rest

-- `posB[s]`: only of a text that occurs once.
unfoldable pub unique_position : Bytes → List Bytes → Option ℕ
unfolding frequency position
unique_position s sub_b = if frequency s sub_b == 1 then position s 0 sub_b else none

unfoldable pub unique_pairs : List Bytes → List Bytes → ℕ → List Bytes → List LinePair
unfolding frequency unique_position
unique_pairs sub_a sub_b i [] = []
unique_pairs sub_a sub_b i (s ∷ rest) =
    let others = unique_pairs sub_a sub_b (suc i) rest in
    if frequency s sub_a == 1
    then elim (unique_position s sub_b) [
      | none ↦ others
      | some j ↦ record { i = i; j = j } ∷ others
    ]
    else others

module _ (is_punctuation : Bytes → Bool) (scratch : SeqScratch) (sub_a sub_b : List Bytes)
    (start_a start_b : ℕ) where
  -- The loop over the anchors with the window behind the last one; `matched` grows at its end.
  unfoldable pub anchor_loop : ℕ → ℕ → List LinePair → List (ℕ × ℕ) → List (ℕ × ℕ)
  unfolding align_line_window
  anchor_loop last_i last_j [] matched =
      align_line_window is_punctuation scratch (drop last_i sub_a) (drop last_j sub_b)
        (start_a + last_i) (start_b + last_j) matched
  anchor_loop last_i last_j (anchor ∷ lis) matched =
      let win_a = take (anchor.i - last_i) (drop last_i sub_a) in
      let win_b = take (anchor.j - last_j) (drop last_j sub_b) in
      let aligned =
        align_line_window is_punctuation scratch win_a win_b (start_a + last_i) (start_b + last_j)
          matched in
      anchor_loop (anchor.i + 1) (anchor.j + 1) lis
        (aligned ++ (start_a + anchor.i, start_b + anchor.j) ∷ [])

  unfoldable pub line_diff_patience : List (ℕ × ℕ) → List (ℕ × ℕ)
  unfolding anchor_loop compute_lis unique_pairs
  line_diff_patience matched =
      if length sub_a == 0 || length sub_b == 0
      then matched
      else anchor_loop 0 0 (compute_lis (unique_pairs sub_a sub_b 0 sub_a)) matched
