-- ===== src/Serialize/Tiers/Within.antt =====
-- The candidates lie within the texts, so the anchors of all tiers rise within them.
use diffmantic.Base.{
  ℕ, zero, suc, ◌+◌, ◌≡◌, arith, Bool, not, ◌&&◌, ◌||◌, List, [], ◌∷◌, ◌++◌, ltb, ◌==◌,
  if◌then◌else◌, length, inl, inr, Bool-cases, Option-cases,
}
use diffmantic.Engine.WordDiff.Tokens.{Bytes}
use diffmantic.Engine.LineDiff.Marking.{mem}
use diffmantic.Serialize.Grid.{Anchor, matched_line}
use diffmantic.Serialize.Grid.Listed.{RisingAnchors}
use diffmantic.Serialize.Anchors.{filter_monotonic}
use diffmantic.Serialize.Anchors.Sorted.{IsWithin}
use diffmantic.Serialize.Anchors.Monotonic.{filter_monotonic-RisingAnchors}
use diffmantic.Serialize.Anchors.Merged.{RisingAnchors-IsWithin, merge_anchors-RisingAnchors}
use diffmantic.Serialize.Moves.{MoveRange, is_inside_move}
use diffmantic.Serialize.Tiers.{
  TreeMatches, in_range, is_blank, src_trim, dst_trim, usable, equal_candidates, shared_candidates,
  matched_candidates, declared_candidates, comment_candidates,
  collect_declaration_and_comment_anchors, collect_unchanged_anchors, add_tier,
  collect_stationary_statement_anchors, collect_stationary_move_anchors, all_anchors,
}

IsWithin-append :
    (m n : ℕ) (xs ys : List Anchor) → IsWithin m n xs → IsWithin m n ys → IsWithin m n (xs ++ ys)
IsWithin-append m n [] ys p q = q
IsWithin-append m n (x ∷ xs) ys (a, b, p) q = (a, b, IsWithin-append m n xs ys p q)

-- An anchor that is added under a test which has a range test as its first part.
IsWithin-guarded :
    (m n s d : ℕ) (rest : List Anchor) (b : Bool)
    → IsWithin m n rest
    → IsWithin m n (if (ltb s m && ltb d n) && b then record { i = s; j = d } ∷ rest else rest)
IsWithin-guarded m n s d rest b w = elim (Bool-cases ((ltb s m && ltb d n) && b)) [
  | inl taken ↦ rw taken (ground arith, ground arith, w)
  | inr skipped ↦ rw skipped w
]

module _ (src_lines dst_lines : List Bytes) where
  abbrev IsInTexts : List Anchor → Type 0
  IsInTexts = IsWithin (length src_lines) (length dst_lines)

  equal_candidates-IsInTexts :
      (ms : List (ℕ × ℕ)) → IsInTexts (equal_candidates src_lines dst_lines ms)
  unfolding equal_candidates
  equal_candidates-IsInTexts [] = tt
  equal_candidates-IsInTexts ((s, d) ∷ ms) =
      IsWithin-guarded _ _ s d _ _ (equal_candidates-IsInTexts ms)

  shared_candidates-IsInTexts :
      (is_punctuation : Bytes → Bool) (share_words : Bytes → Bytes → Bool) (ms : List (ℕ × ℕ))
      → IsInTexts (shared_candidates src_lines dst_lines is_punctuation share_words ms)
  unfolding shared_candidates
  shared_candidates-IsInTexts is_punctuation share_words [] = tt
  shared_candidates-IsInTexts is_punctuation share_words ((s, d) ∷ ms) =
      IsWithin-guarded _ _ s d _ _ (shared_candidates-IsInTexts is_punctuation share_words ms)

  matched_candidates-IsInTexts :
      (is_punctuation : Bytes → Bool) (moves : List MoveRange) (statements matched : List (ℕ × ℕ))
      (rounds s : ℕ)
      → s + rounds ≡ length src_lines
      → IsInTexts
          (matched_candidates src_lines dst_lines is_punctuation moves statements matched rounds s)
  unfolding matched_candidates
  matched_candidates-IsInTexts is_punctuation moves statements matched zero s e = tt
  matched_candidates-IsInTexts is_punctuation moves statements matched (suc rounds) s e =
      let later =
        matched_candidates-IsInTexts is_punctuation moves statements matched rounds (suc s)
          (omega arith) in
      elim (Option-cases (matched_line matched s)) [
        | inl f ↦ rw (f, matched_candidates) later
        | inr (d, f) ↦
            rw (f, matched_candidates)
              (elim (Bool-cases (usable src_lines dst_lines is_punctuation moves statements s d)) [
                | inl taken ↦ rw taken (omega arith, ground arith, later)
                | inr skipped ↦ rw skipped later
              ])
      ]

  declared_candidates-IsInTexts :
      (is_punctuation : Bytes → Bool) (rows : List (ℕ × ℕ)) (seen_src seen_dst : List ℕ)
      → IsInTexts (declared_candidates src_lines dst_lines is_punctuation rows seen_src seen_dst).0
  unfolding declared_candidates
  declared_candidates-IsInTexts is_punctuation [] seen_src seen_dst = tt
  declared_candidates-IsInTexts is_punctuation ((s, d) ∷ rows) seen_src seen_dst =
      let unusable =
        is_blank (src_trim src_lines dst_lines s)
        || is_blank (dst_trim src_lines dst_lines d)
        || is_punctuation (src_trim src_lines dst_lines s)
        || is_punctuation (dst_trim src_lines dst_lines d) in
      elim (Bool-cases (
        in_range src_lines dst_lines s d
        && (not (mem s seen_src) && not (mem d seen_dst) && not unusable))) [
          | inl taken ↦ rw taken (
            ground arith,
            ground arith,
            declared_candidates-IsInTexts is_punctuation rows (s ∷ seen_src) (d ∷ seen_dst),
          )
          | inr skipped ↦
              rw skipped (declared_candidates-IsInTexts is_punctuation rows seen_src seen_dst)
        ]

  comment_candidates-IsInTexts :
      (moves : List MoveRange) (comments : List (ℕ × ℕ)) (seen_src seen_dst : List ℕ)
      → IsInTexts (comment_candidates src_lines dst_lines moves comments seen_src seen_dst)
  unfolding comment_candidates
  comment_candidates-IsInTexts moves [] seen_src seen_dst = tt
  comment_candidates-IsInTexts moves ((s, d) ∷ comments) seen_src seen_dst =
      elim (Bool-cases (
        in_range src_lines dst_lines s d
        && (not (mem s seen_src) && not (mem d seen_dst) && not (is_inside_move s d moves)))) [
          | inl taken ↦ rw taken (
            ground arith,
            ground arith,
            comment_candidates-IsInTexts moves comments (s ∷ seen_src) (d ∷ seen_dst),
          )
          | inr skipped ↦ rw skipped (comment_candidates-IsInTexts moves comments seen_src seen_dst)
        ]

  abbrev IsRising : List Anchor → Type 0
  IsRising = RisingAnchors 0 (length src_lines) 0 (length dst_lines)

  IsRising-IsInTexts : (xs : List Anchor) → IsRising xs → IsInTexts xs
  IsRising-IsInTexts xs r = RisingAnchors-IsWithin 0 _ 0 _ xs r

  filter_monotonic-IsRising : (xs : List Anchor) → IsInTexts xs → IsRising (filter_monotonic xs)
  filter_monotonic-IsRising xs w = filter_monotonic-RisingAnchors _ _ xs w

  module _ (is_punctuation : Bytes → Bool) (share_words : Bytes → Bytes → Bool)
      (t : TreeMatches) where
    declaration_and_comment-IsRising :
        IsRising
          (collect_declaration_and_comment_anchors is_punctuation share_words src_lines dst_lines t)
    unfolding collect_declaration_and_comment_anchors
    declaration_and_comment-IsRising = filter_monotonic-IsRising _ (
        IsWithin-append _ _ _ _
          (declared_candidates-IsInTexts t.declared_punctuation t.declarations [] [])
          (comment_candidates-IsInTexts t.moves t.comments _ _))

    unchanged-IsRising :
        (matched : List (ℕ × ℕ))
        → IsRising
            (collect_unchanged_anchors is_punctuation share_words src_lines dst_lines t matched)
    unfolding collect_unchanged_anchors
    unchanged-IsRising matched = filter_monotonic-IsRising _ (
        IsWithin-append _ _ _ _
          (IsWithin-append _ _ _ _ (IsRising-IsInTexts _ declaration_and_comment-IsRising)
            (equal_candidates-IsInTexts t.stationary))
          (matched_candidates-IsInTexts is_punctuation t.moves t.stationary matched _ 0
            (omega arith)))

    add_tier-IsRising :
        (earlier cands : List Anchor)
        → IsRising earlier
        → IsInTexts cands
        → IsRising (add_tier is_punctuation share_words src_lines dst_lines t earlier cands)
    unfolding add_tier
    add_tier-IsRising earlier cands r w = elim (Bool-cases (length cands == 0)) [
      | inl nothing ↦ rw nothing r
      | inr something ↦
          rw something
            (merge_anchors-RisingAnchors _ _ earlier (filter_monotonic cands) r
              (filter_monotonic-IsRising cands w)).0
    ]

    statement_tier-IsRising :
        (tier1 : List Anchor)
        → IsRising tier1
        → IsRising (
            collect_stationary_statement_anchors is_punctuation share_words src_lines dst_lines t
              tier1)
    unfolding collect_stationary_statement_anchors
    statement_tier-IsRising tier1 r = elim (Bool-cases (length t.stationary == 0)) [
      | inl nothing ↦ rw nothing r
      | inr something ↦ rw something (
          add_tier-IsRising tier1 _ r
            (shared_candidates-IsInTexts is_punctuation share_words t.stationary))
    ]

    move_tier-IsRising :
        (tier2 : List Anchor)
        → IsRising tier2
        → IsRising
            (collect_stationary_move_anchors is_punctuation share_words src_lines dst_lines t tier2)
    unfolding collect_stationary_move_anchors
    move_tier-IsRising tier2 r = elim (Bool-cases (length t.in_place == 0)) [
      | inl nothing ↦ rw nothing r
      | inr something ↦
          rw something (add_tier-IsRising tier2 _ r (equal_candidates-IsInTexts t.in_place))
    ]

    -- The anchors of all tiers together.
    pub all_anchors-IsRising :
        (matched : List (ℕ × ℕ))
        → IsRising (all_anchors is_punctuation share_words src_lines dst_lines t matched)
    unfolding all_anchors
    all_anchors-IsRising matched =
        move_tier-IsRising _ (statement_tier-IsRising _ (unchanged-IsRising matched))
