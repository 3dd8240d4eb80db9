-- ===== src/Serialize/Anchors.antt =====
-- internal/serialize/align.go: the choice of anchors. The candidates of a tier are thinned out to a
-- rising sequence, and the tiers are merged, the earlier before the later.
pub mod Sorted
pub mod Monotonic
pub mod Merged
use diffmantic.Base.{
  ℕ, zero, suc, ◌+◌, ◌-◌, Bool, ◌&&◌, ◌||◌, Option, none, some, List, [], ◌∷◌, ◌++◌, ltb, leb, ◌==◌,
  if◌then◌else◌, length, get_or, replicate,
}
use diffmantic.Engine.LineDiff.Patience.{
  LinePair, no_pair, LisState, search_tails, lis_step, lis_chain,
}
use diffmantic.Serialize.Grid.{Anchor}

-- The order of the sort: the source line, and of equal ones the larger target line first.
abbrev pub precedes : Anchor → Anchor → Bool
precedes a b = ltb a.i b.i || (a.i == b.i && leb b.j a.j)

unfoldable pub insert_anchor : Anchor → List Anchor → List Anchor
insert_anchor a [] = a ∷ []
insert_anchor a (b ∷ bs) =
    let later = insert_anchor a bs in if precedes a b then a ∷ b ∷ bs else b ∷ later

unfoldable pub sort_anchors : List Anchor → List Anchor
unfolding insert_anchor
sort_anchors [] = []
sort_anchors (a ∷ rest) = insert_anchor a (sort_anchors rest)

-- `slices.Compact`
unfoldable pub compact : List Anchor → List Anchor
compact [] = []
compact (a ∷ []) = a ∷ []
compact (a ∷ (b ∷ bs)) =
    let rest = compact (b ∷ bs) in if a.i == b.i && a.j == b.j then rest else a ∷ rest

module _ (cands : List Anchor) where
  -- One round of the loop over the candidates. A target line that ends a sequence already keeps its
  -- earlier anchor.
  unfoldable pub filter_step : ℕ → Anchor → LisState → LisState
  unfolding search_tails lis_step
  filter_step idx c s =
      let low = search_tails cands s.tails c.j (length s.tails) 0 (length s.tails) in
      if ltb low (length s.tails) && (get_or cands (get_or s.tails low 0) no_pair).j == c.j
      then s
      else lis_step cands idx c s

  unfoldable pub filter_loop : ℕ → List Anchor → LisState → LisState
  unfolding filter_step
  filter_loop idx [] s = s
  filter_loop idx (c ∷ cs) s = filter_loop (suc idx) cs (filter_step idx c s)

  unfoldable pub longest_chain : List Anchor
  unfolding filter_loop lis_chain
  longest_chain =
      let s = filter_loop 0 cands (record { tails = []; parent = replicate (length cands) none }) in
      lis_chain cands s.parent (length s.tails) (some (get_or s.tails (length s.tails - 1) 0)) []

unfoldable pub filter_monotonic : List Anchor → List Anchor
unfolding sort_anchors compact longest_chain
filter_monotonic cands =
    let sorted = compact (sort_anchors cands) in
    if leb (length sorted) 1 then sorted else longest_chain sorted

-- The inner loop of the merge, for the primary anchor `p`: the secondary anchors before its line that
-- fit. `next_src` and `next_dst` are `lastSrc + 1` and `lastDst + 1`. The result is what is appended,
-- the secondary anchors left, and the two lines.
unfoldable pub merge_before : Anchor → List Anchor → ℕ → ℕ → List Anchor × List Anchor × ℕ × ℕ
merge_before p [] next_src next_dst = ([], [], next_src, next_dst)
merge_before p (s ∷ secondary) next_src next_dst =
    let (taken, left, src, dst) = merge_before p secondary (s.i + 1) (s.j + 1) in
    let skipped = merge_before p secondary next_src next_dst in
    if ltb s.i p.i
    then (if leb next_src s.i && leb next_dst s.j && ltb s.j p.j
        then (s ∷ taken, left, src, dst)
        else skipped)
    else ([], s ∷ secondary, next_src, next_dst)

-- The last loop, over the secondary anchors left.
unfoldable pub merge_after : List Anchor → ℕ → ℕ → List Anchor
merge_after [] next_src next_dst = []
merge_after (s ∷ secondary) next_src next_dst =
    let taken = merge_after secondary (s.i + 1) (s.j + 1) in
    let skipped = merge_after secondary next_src next_dst in
    if leb next_src s.i && leb next_dst s.j then s ∷ taken else skipped

unfoldable pub merge_loop : List Anchor → List Anchor → ℕ → ℕ → List Anchor
unfolding merge_before merge_after
merge_loop [] secondary next_src next_dst = merge_after secondary next_src next_dst
merge_loop (p ∷ primary) secondary next_src next_dst =
    let (before, left, src, dst) = merge_before p secondary next_src next_dst in
    let taken = merge_loop primary left (p.i + 1) (p.j + 1) in
    let skipped = merge_loop primary left src dst in
    before ++ (if leb src p.i && leb dst p.j then p ∷ taken else skipped)

unfoldable pub merge_anchors : List Anchor → List Anchor → List Anchor
unfolding merge_loop
merge_anchors primary secondary =
    if length primary == 0
    then secondary
    else if length secondary == 0
    then primary
    else merge_loop primary secondary 0 0
