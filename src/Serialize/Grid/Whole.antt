-- ===== src/Serialize/Grid/Whole.antt =====
-- alignGapGotoh and emitGrid list every line of both texts, the parts of a divided gap included.
use diffmantic.Base.{
  ℕ, zero, suc, ◌+◌, ◌-◌, ◌*◌, ◌≤◌, ◌<◌, ◌≡◌, refl, sym, subst, inl, inr, arith, Bool, false, ◌||◌,
  some, List, [], ◌∷◌, ◌++◌, ltb, leb, ◌==◌, if◌then◌else◌, length, take, drop, Bool-cases,
  length-drop, ==→eq,
}
use diffmantic.Base.Int.{ℤ, pos, ◌≤ℤ◌}
use diffmantic.Engine.SeqDiff.{SeqScratch}
use diffmantic.Engine.SeqDiff.Optimum.{IsAlignment}
use diffmantic.Engine.WordDiff.Tokens.{Bytes}
use diffmantic.Engine.LineDiff.Views.{length-take}
use diffmantic.Engine.LineDiff.Whole.{line_diff}
use diffmantic.Engine.LineDiff.Whole.Result.{line_diff-IsAlignment}
use diffmantic.Serialize.Listing.{IsListing, IsListing-same, IsListing-append}
use diffmantic.Serialize.Gotoh.{Table, align_gap_dense, max_gotoh_matrix_cells}
use diffmantic.Serialize.Gotoh.Banded.{Center, align_gap_banded}
use diffmantic.Serialize.Gotoh.Banded.Listed.{align_gap_banded-IsListing}
use diffmantic.Serialize.Gotoh.Walk.{align_gap_dense-IsListing}
use diffmantic.Serialize.Grid.{
  Anchor, Pairs, Aligner, left_run, right_run, emit, gap_anchors, align_gap, emit_grid,
}
use diffmantic.Serialize.Grid.Listed.{
  Lists, IsAligner, RisingAnchors, IsBelow, left_run-IsListing, right_run-IsListing, emit-Lists,
  emit_divided-Lists, sub_anchors-RisingAnchors,
}

IsAlignment-IsBelow :
    (weight : ℕ → ℕ → ℕ) (a b m n : ℕ) (ms : List (ℕ × ℕ))
    → IsAlignment weight a b m n ms
    → IsBelow n ms
IsAlignment-IsBelow weight a b m n [] r = tt
IsAlignment-IsBelow weight a b m n ((i, j) ∷ ms) (h1, h2, h3, below, w, r) =
    (below, IsAlignment-IsBelow weight (suc i) (suc j) m n ms r)

length-part :
    (s s_end : ℕ) (lines : List Bytes)
    → s_end ≤ length lines
    → length (take (s_end - s) (drop s lines)) ≡ s_end - s
length-part s s_end lines h =
    length-take (s_end - s) (drop s lines) (omega (arith, length-drop s lines))

RisingAnchors-same :
    {s s_end d d_end s' s_end' d' d_end' : ℕ} (anchors : List Anchor)
    → s ≡ s'
    → s_end ≡ s_end'
    → d ≡ d'
    → d_end ≡ d_end'
    → RisingAnchors s s_end d d_end anchors
    → RisingAnchors s' s_end' d' d_end' anchors
RisingAnchors-same anchors e f g h r =
    subst (λ x. x) (λ i. RisingAnchors (e i) (f i) (g i) (h i) anchors) r

gap_anchors-RisingAnchors :
    (is_punctuation : Bytes → Bool) (line_scratch : SeqScratch) (src_lines dst_lines : List Bytes)
    (s s_end d d_end : ℕ)
    → s ≤ s_end
    → d ≤ d_end
    → s_end ≤ length src_lines
    → d_end ≤ length dst_lines
    → RisingAnchors s s_end d d_end
        (gap_anchors is_punctuation line_scratch src_lines dst_lines s s_end d d_end)
unfolding gap_anchors
gap_anchors-RisingAnchors is_punctuation line_scratch src_lines dst_lines s s_end d d_end h k p q =
    let sub_src = take (s_end - s) (drop s src_lines) in
    let sub_dst = take (d_end - d) (drop d dst_lines) in
    let m = length sub_src in
    let n = length sub_dst in
    let matched = line_diff is_punctuation line_scratch sub_src sub_dst in
    let below =
      IsAlignment-IsBelow _ 0 0 m n matched
        (line_diff-IsAlignment is_punctuation line_scratch sub_src sub_dst) in
    RisingAnchors-same _ (omega arith) (omega (arith, length-part s s_end src_lines p))
      (omega arith) (omega (arith, length-part d d_end dst_lines q))
      (sub_anchors-RisingAnchors matched m n s d m 0 0 below (omega arith) (omega arith))

suc-==-zero : (n : ℕ) → (suc n == 0) ≡ false
suc-==-zero n = ground arith

-- A gap too large for a table, once its anchors are found.
divided-Lists :
    (S D F : ℕ) (gap : Aligner) (anchors : List Anchor) (s s_end d d_end : ℕ)
    → IsAligner S D F gap
    → s_end ≤ S
    → d_end ≤ D
    → s_end - s ≤ suc F
    → RisingAnchors s s_end d d_end anchors
    → Lists
        (λ s s_end d d_end.
          if length anchors == 0
          then some (left_run s (s_end - s) ++ right_run d (d_end - d))
          else emit gap anchors s s_end d d_end)
        s
        s_end
        d
        d_end
divided-Lists S D F gap [] s s_end d d_end aligner p q small (h, k) = (
  left_run s (s_end - s) ++ right_run d (d_end - d),
  (
    refl,
    IsListing-same refl (omega arith) refl (omega arith) (
        IsListing-append (left_run s (s_end - s)) (right_run d (d_end - d)) refl refl
          (left_run-IsListing s (s_end - s) d)
          (IsListing-same refl refl (omega arith) refl
            (right_run-IsListing (s + (s_end - s)) d (d_end - d)))),
  ),
)
divided-Lists S D F gap (a ∷ anchors) s s_end d d_end aligner p q small r =
    rw (suc-==-zero (length anchors))
      (emit_divided-Lists S D F gap aligner s_end d_end p q a anchors s d small r)

module _ (is_punctuation : Bytes → Bool) (line_scratch : SeqScratch) (score : ℕ → ℕ → ℤ)
    (stale : ℕ → ℕ → Table) (floor_center ceil_center : Center) (src_lines dst_lines : List Bytes)
    (small_src : 2 * length src_lines < 999970) (small_dst : 2 * length dst_lines < 999970)
    (mono : (m n i : ℕ) → floor_center m n i ≤ floor_center m n (suc i))
    (scores : (a b : ℕ) → score a b ≤ℤ pos 65) where
  -- A gap that a table is large enough for.
  tabled-Lists :
      (s s_end d d_end : ℕ)
      → s < s_end
      → d < d_end
      → s_end ≤ length src_lines
      → d_end ≤ length dst_lines
      → (s_end - s) * (d_end - d) ≤ max_gotoh_matrix_cells
      → Lists
          (λ s s_end d d_end.
            if leb (s_end - s) 40 || leb (d_end - d) 40 || leb ((s_end - s) * (d_end - d)) 3600
            then align_gap_dense score (stale s d) s s_end d d_end
            else align_gap_banded floor_center ceil_center score (stale s d) s s_end d d_end)
          s
          s_end
          d
          d_end
  tabled-Lists s s_end d d_end h k p q cells =
      elim (Bool-cases
        (leb (s_end - s) 40 || leb (d_end - d) 40 || leb ((s_end - s) * (d_end - d)) 3600)) [
          | inl dense ↦ rw dense (
              align_gap_dense-IsListing score (stale s d) s s_end d d_end h k (omega arith)
                (omega arith))
          | inr wide ↦ rw wide (
              align_gap_banded-IsListing floor_center ceil_center score (stale s d) s s_end d d_end
                (mono (s_end - s) (d_end - d)) scores (ground (arith, wide)) (ground (arith, wide))
                cells)
        ]

  IsLargeAligner : ℕ → Aligner → Type 0
  IsLargeAligner fuel gap =
      (s s_end d d_end : ℕ)
      → s ≤ s_end
      → d ≤ d_end
      → s_end ≤ length src_lines
      → d_end ≤ length dst_lines
      → s_end - s ≤ fuel
      → s < s_end
      → Lists
          (λ s s_end d d_end.
            let anchors =
              gap_anchors is_punctuation line_scratch src_lines dst_lines s s_end d d_end in
            if length anchors == 0
            then some (left_run s (s_end - s) ++ right_run d (d_end - d))
            else emit gap anchors s s_end d d_end)
          s s_end d d_end

  aligning_round :
      (fuel : ℕ)
      → IsLargeAligner fuel (
          align_gap is_punctuation line_scratch score stale floor_center ceil_center src_lines
            dst_lines fuel)
      → IsAligner (length src_lines) (length dst_lines) fuel (
          align_gap is_punctuation line_scratch score stale floor_center ceil_center src_lines
            dst_lines
            (suc fuel))
  unfolding align_gap IsLargeAligner
  aligning_round fuel large s s_end d d_end h k p q small = elim (Bool-cases (s_end - s == 0)) [
    | inl none_left ↦ rw none_left (
      right_run d (d_end - d),
      (
        refl,
        IsListing-same refl (sym (==→eq _ _ none_left)) refl refl
            (right_run-IsListing s d (d_end - d)),
      ),
    )
    | inr some_left ↦ rw some_left (elim (Bool-cases (d_end - d == 0)) [
      | inl none_right ↦ rw none_right (
        left_run s (s_end - s),
        (
          refl,
          IsListing-same refl refl refl (sym (==→eq _ _ none_right))
              (left_run-IsListing s (s_end - s) d),
        ),
      )
      | inr some_right ↦ rw some_right (
          let nonempty_left : s < s_end = ground arith in
          let nonempty_right : d < d_end = ground arith in
          elim (Bool-cases (ltb max_gotoh_matrix_cells ((s_end - s) * (d_end - d)))) [
            | inl massive ↦ rw massive (large s s_end d d_end h k p q small nonempty_left)
            | inr fits ↦ rw fits (
                tabled-Lists s s_end d d_end nonempty_left nonempty_right p q
                  (ground (arith, fits)))
          ])
    ])
  ]

  -- One round more than the gap has lines on the left is enough.
  pub align_gap-IsAligner :
      (fuel : ℕ)
      → IsAligner (length src_lines) (length dst_lines) fuel (
          align_gap is_punctuation line_scratch score stale floor_center ceil_center src_lines
            dst_lines
            (suc fuel))
  unfolding IsLargeAligner
  align_gap-IsAligner zero =
      aligning_round zero (λ s s_end d d_end h k p q small nonempty. absurd (omega arith))
  align_gap-IsAligner (suc fuel) =
      aligning_round (suc fuel) (λ s s_end d d_end h k p q small nonempty.
        divided-Lists (length src_lines) (length dst_lines) fuel _ _ s s_end d d_end
          (align_gap-IsAligner fuel) p q small
          (gap_anchors-RisingAnchors is_punctuation line_scratch src_lines dst_lines s s_end d d_end
            h k p q))

-- For texts of fewer than 499,985 lines each and anchors that rise on both sides within them, if no
-- score is over 65 and the product of a row's number with the slope of a band, rounded down, does
-- not fall from row to row: `emitGrid` does not panic, and the grid that it returns lists the lines
-- of both texts, each once and in order.
pub emit_grid-IsListing :
    (is_punctuation : Bytes → Bool) (line_scratch : SeqScratch) (score : ℕ → ℕ → ℤ)
    (stale : ℕ → ℕ → Table) (floor_center ceil_center : Center) (src_lines dst_lines : List Bytes)
    (anchors : List Anchor)
    → 2 * length src_lines < 999970
    → 2 * length dst_lines < 999970
    → ((m n i : ℕ) → floor_center m n i ≤ floor_center m n (suc i))
    → ((a b : ℕ) → score a b ≤ℤ pos 65)
    → RisingAnchors 0 (length src_lines) 0 (length dst_lines) anchors
    → (grid : Pairs) × ((emit_grid is_punctuation line_scratch score stale floor_center ceil_center
            src_lines dst_lines anchors
          ≡ some grid)
        × IsListing 0 (length src_lines) 0 (length dst_lines) grid)
unfolding emit_grid
emit_grid-IsListing is_punctuation line_scratch score stale floor_center ceil_center src_lines
      dst_lines anchors small_src small_dst mono scores rising =
    let m = length src_lines in
    let n = length dst_lines in
    let aligner =
      align_gap-IsAligner is_punctuation line_scratch score stale floor_center ceil_center src_lines
        dst_lines small_src small_dst mono scores m in
    let (grid, (e, lines)) =
      emit-Lists m n m _ aligner m n (omega arith) (omega arith) anchors 0 0 (omega arith) rising in
    (grid, (e, IsListing-same refl (omega arith) refl (omega arith) lines))
