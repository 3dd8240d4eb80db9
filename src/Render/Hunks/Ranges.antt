-- ===== src/Render/Hunks/Ranges.antt =====
-- The line ranges of a hunk's header.
use native.Mathlib.Nat.{zero-add}
use diffmantic.Base.{
  ℕ, zero, suc, ◌+◌, ◌-◌, ◌≤◌, ◌<◌, ◌≡◌, refl, ◌∙◌, ap, Bool, Option, none, some, List, [], ◌∷◌,
  arith, subst, Option-cases, inl, inr, if◌then◌else◌, length, get_elem?, drop, take,
}
use diffmantic.Render.Hunks.{
  compute_hunk_range, left, right, Interval, LineAlignmentPair, scan_hunk, search_back,
  fallback_start, side_range,
}

module _ (side : LineAlignmentPair → Option ℕ) where
  -- How many pairs have a line on this side.
  unfoldable pub present : List LineAlignmentPair → ℕ
  present [] = 0
  present (p ∷ ps) = elim (side p) [ none ↦ present ps | some line ↦ suc (present ps) ]

  -- The lines on this side are `i`, `i + 1` and so on.
  abbrev pub Numbered : ℕ → List LineAlignmentPair → Type 0
  Numbered i [] = Unit {0}
  Numbered i (p ∷ ps) = elim (side p) [
    | none ↦ Numbered i ps
    | some line ↦ (line ≡ i) × Numbered (suc i) ps
  ]

  first_from : ℕ → ℕ → Option ℕ
  first_from i zero = none
  first_from i (suc n) = some (i + 1)

  scan_hunk-count :
      (ps : List LineAlignmentPair) (start : Option ℕ) (count : ℕ)
      → (scan_hunk side start count ps).1 ≡ count + present ps
  unfolding scan_hunk present
  scan_hunk-count [] start count = omega arith
  scan_hunk-count (p ∷ ps) start count = elim (Option-cases (side p)) [
    | inl e ↦ rw (e, scan_hunk, present) (scan_hunk-count ps _ _)
    | inr (line, e) ↦ rw (e, scan_hunk, present) (scan_hunk-count ps _ _ ∙ omega arith)
  ]

  scan_hunk-found :
      (ps : List LineAlignmentPair) (s count : ℕ) → (scan_hunk side (some s) count ps).0 ≡ some s
  unfolding scan_hunk
  scan_hunk-found [] s count = refl
  scan_hunk-found (p ∷ ps) s count = scan_hunk-found ps s _

  scan_hunk-first :
      (ps : List LineAlignmentPair) (count i : ℕ)
      → Numbered i ps
      → (scan_hunk side none count ps).0 ≡ first_from i (present ps)
  unfolding scan_hunk present first_from
  scan_hunk-first [] count i n = refl
  scan_hunk-first (p ∷ ps) count i n = elim (Option-cases (side p)) [
    | inl e ↦ rw (e, scan_hunk, present) (scan_hunk-first ps count i (rw (e, Numbered) at n))
    | inr (line, e) ↦
        let (q, rest) = rw (e, Numbered) at n in
        rw (e, scan_hunk, present) (scan_hunk-found ps _ _ ∙ ap (λ x. some (x + 1)) q)
  ]

  Numbered-take : (ps : List LineAlignmentPair) (k i : ℕ) → Numbered i ps → Numbered i (take k ps)
  Numbered-take ps zero i n = tt
  Numbered-take [] (suc k) i n = tt
  Numbered-take (p ∷ ps) (suc k) i n = elim (Option-cases (side p)) [
    | inl e ↦ rw (e, Numbered) (Numbered-take ps k i (rw (e, Numbered) at n))
    | inr (line, e) ↦
        let (q, rest) = rw (e, Numbered) at n in
        rw (e, Numbered) (q, Numbered-take ps k (suc i) rest)
  ]

  Numbered-drop :
      (ps : List LineAlignmentPair) (k i : ℕ)
      → Numbered i ps
      → Numbered (i + present (take k ps)) (drop k ps)
  unfolding present
  Numbered-drop ps zero i n = subst (λ x. Numbered x ps) (omega arith) n
  Numbered-drop [] (suc k) i n = tt
  Numbered-drop (p ∷ ps) (suc k) i n = elim (Option-cases (side p)) [
    | inl e ↦ rw (e, present) (Numbered-drop ps k i (rw (e, Numbered) at n))
    | inr (line, e) ↦
        let (q, rest) = rw (e, Numbered) at n in
        rw (e, present)
          (subst (λ x. Numbered x (drop k ps)) (omega arith) (Numbered-drop ps k (suc i) rest))
  ]

  -- The counts of lines before a pair and behind it.
  abbrev Step : ℕ → ℕ → ℕ → Option ℕ → Type 0
  Step i before behind none = behind ≡ before
  Step i before behind (some line) = (line ≡ i + before) × (behind ≡ suc before)

  Step-shift : (o : Option ℕ) (i a b : ℕ) → Step (suc i) a b o → Step i (suc a) (suc b) o
  Step-shift none i a b h = omega arith
  Step-shift (some line) i a b (h, k) = (omega arith, omega arith)

  present-take-suc :
      (ps : List LineAlignmentPair) (k i : ℕ)
      → Numbered i ps
      → k < length ps
      → (q : LineAlignmentPair) × (get_elem? ps k ≡ some q)
        × Step i (present (take k ps)) (present (take (suc k) ps)) (side q)
  unfolding present
  present-take-suc [] k i n h = absurd (omega arith)
  present-take-suc (p ∷ ps) zero i n h = (
    p,
    refl,
    elim (Option-cases (side p)) [
      | inl e ↦ rw (e, present) refl
      | inr (line, e) ↦ let (q, rest) = rw (e, Numbered) at n in rw (e, present) (omega arith, refl)
    ],
  )
  present-take-suc (p ∷ ps) (suc k) i n h = elim (Option-cases (side p)) [
    | inl e ↦
        let (q, at, step) = present-take-suc ps k i (rw (e, Numbered) at n) (omega arith) in
        (q, at, rw (e, present) step)
    | inr (line, e) ↦
        let (l, rest) = rw (e, Numbered) at n in
        let (q, at, step) = present-take-suc ps k (suc i) rest (omega arith) in
        (q, at, rw (e, present) (Step-shift (side q) i _ _ step))
  ]

  -- The number of the last line before a pair, from 1 on.
  last_line : ℕ → Option ℕ
  last_line zero = none
  last_line (suc n) = some (suc n)

  search_back_lem :
      (ps : List LineAlignmentPair) (k : ℕ)
      → Numbered 0 ps
      → k ≤ length ps
      → search_back side ps k ≡ last_line (present (take k ps))
  unfolding search_back present last_line
  search_back_lem ps zero n h = refl
  search_back_lem ps (suc k) n h =
      let (q, at, step) = present-take-suc ps k 0 n (omega arith) in
      let earlier = search_back_lem ps k n (omega arith) in
      elim (Option-cases (side q)) [
        | inl e ↦ let same = rw (e, Step) at step in rw (search_back, at, e, same) earlier
        | inr (line, e) ↦
            let (l, more) = rw (e, Step) at step in
            rw (search_back, at, e, more, l) (ap some (omega arith))
      ]

  -- The pairs of a hunk.
  abbrev pub shown : Interval → List LineAlignmentPair → List LineAlignmentPair
  shown h pairs = take (h.end + 1 - h.start) (drop h.start pairs)

  Numbered-shown :
      (h : Interval) (pairs : List LineAlignmentPair)
      → Numbered 0 pairs
      → Numbered (present (take h.start pairs)) (shown h pairs)
  Numbered-shown h pairs n =
      Numbered-take (drop h.start pairs) (h.end + 1 - h.start) (present (take h.start pairs)) (
        subst (λ x. Numbered x (drop h.start pairs)) (omega arith)
          (Numbered-drop pairs h.start 0 n))

  -- The header for `count` lines behind `before` others: the number of the first of them, or with no
  -- line to show that of the line before.
  unfoldable pub header_range : ℕ → ℕ → Bool → ℕ × ℕ
  header_range before (suc count) has_side = (before + 1, suc count)
  header_range (suc before) zero has_side = (suc before, 0)
  header_range zero zero has_side = (if has_side then 1 else 0, 0)

  header_of : ℕ → Bool → Option ℕ → Option ℕ → ℕ × ℕ
  header_of count has_side first earlier = (
    elim first [
      | some s ↦ s
      | none ↦ elim earlier [ some s ↦ s | none ↦ if has_side then 1 else 0 ]
    ],
    count,
  )

  header_of_lem :
      (before count : ℕ) (has_side : Bool)
      → header_of count has_side (first_from before count) (last_line before)
        ≡ header_range before count has_side
  unfolding header_of header_range first_from last_line
  header_of_lem before (suc count) has_side = refl
  header_of_lem (suc before) zero has_side = refl
  header_of_lem zero zero has_side = refl

  side_range_lem :
      (h : Interval) (pairs : List LineAlignmentPair) (has_side : Bool)
      → Numbered 0 pairs
      → h.start ≤ length pairs
      → side_range side h pairs has_side
        ≡ header_range (present (take h.start pairs)) (present (shown h pairs)) has_side
  unfolding side_range fallback_start header_of
  side_range_lem h pairs has_side n b =
      let first =
        scan_hunk-first (shown h pairs) 0 (present (take h.start pairs))
          (Numbered-shown h pairs n) in
      let count = scan_hunk-count (shown h pairs) none 0 ∙ zero-add _ in
      let earlier = search_back_lem pairs h.start n b in
      (λ i. header_of (count i) has_side (first i) (earlier i))
      ∙ header_of_lem (present (take h.start pairs)) (present (shown h pairs)) has_side

-- For pairs that list the lines of both sides in order, and a hunk that starts within them: the
-- lines in the hunk are on each side consecutive from the number of lines before it on, and the
-- header has their count and the number of the first of them; with no line in the hunk, that of the
-- line before it, and with no line before either, 1 if the side exists and 0 if not.
pub compute_hunk_range_lem :
    (h : Interval) (pairs : List LineAlignmentPair) (has_src has_dst : Bool)
    → Numbered left 0 pairs
    → Numbered right 0 pairs
    → h.start ≤ length pairs
    → Numbered left (present left (take h.start pairs)) (shown left h pairs)
      × Numbered right (present right (take h.start pairs)) (shown right h pairs)
      × (compute_hunk_range h pairs has_src has_dst ≡ (
          let (src_start, src_count) =
            header_range left
              (present left (take h.start pairs))
              (present left (shown left h pairs))
              has_src in
          let (dst_start, dst_count) =
            header_range right
              (present right (take h.start pairs))
              (present right (shown right h pairs))
              has_dst in
          (src_start, src_count, dst_start, dst_count)))
unfolding compute_hunk_range
compute_hunk_range_lem h pairs has_src has_dst l r b = (
  Numbered-shown left h pairs l,
  Numbered-shown right h pairs r,
  λ i.
      let src = side_range_lem left h pairs has_src l b i in
      let dst = side_range_lem right h pairs has_dst r b i in (src.0, src.1, dst.0, dst.1),
)
