-- ===== src/Engine/LineDiff/Patience/Anchors.antt =====
-- The anchors of `lineDiffPatience`: equal lines, rising on both sides.
use native.Mathlib.Nat.{add-zero}
use diffmantic.Base.{
  ℕ, zero, suc, ◌+◌, ◌-◌, ◌≤◌, ◌<◌, ◌≡◌, sym, ap, subst, ◌∙◌, Bool, some, List, [], ◌∷◌, ◌++◌,
  arith, length, get_or, take, drop, ◌==◌, Bool-cases, Option-cases, inl, inr, append_assoc,
  append-nil, ◌||◌, length-drop,
}
use diffmantic.Engine.SeqDiff.{SeqScratch}
use diffmantic.Engine.SeqDiff.Optimum.{IsAlignment}
use diffmantic.Engine.SeqDiff.Alignment.{equal_weight}
use diffmantic.Engine.SeqDiff.Trim.{IsAlignment-concat}
use diffmantic.Engine.WordDiff.Tokens.{Bytes}
use diffmantic.Engine.WordDiff.Diff.{equal_bytes}
use diffmantic.Engine.WordDiff.Slots.{equal_bytes→eq}
use diffmantic.Engine.LineDiff.{trim_space}
use diffmantic.Engine.LineDiff.Aligning.{align_line_window}
use diffmantic.Engine.LineDiff.Views.{
  same_text, IsView, drop-IsView, take-IsView, length-take-le, IsAlignment-raise,
  same_text-equal_weight, align_line_window-IsAlignment,
}
use diffmantic.Engine.LineDiff.Patience.{
  LinePair, no_pair, frequency, position, unique_position, unique_pairs, compute_lis, anchor_loop,
  line_diff_patience,
}
use diffmantic.Engine.LineDiff.Patience.Sequence.{
  IsRisingPairs, AreCandidates, LeftRising, compute_lis-longest,
}

position_lem :
    (s : Bytes) (ts : List Bytes) (j r : ℕ)
    → position s j ts ≡ some r
    → (k : ℕ) × (k < length ts) × (r ≡ j + k) × (s ≡ get_or ts k [])
unfolding position
position_lem s [] j r e = absurd (cc)
position_lem s (t ∷ ts) j r e = elim (Bool-cases (equal_bytes s t)) [
  | inl same ↦
      let here : j ≡ r = ground (arith, same) in
      (0, omega arith, omega arith, equal_bytes→eq s t same)
  | inr other ↦
      let later : position s (suc j) ts ≡ some r = ground (arith, other) in
      let (k, lt, at, text) = position_lem s ts (suc j) r later in
      (suc k, omega arith, omega arith, text)
]

unique_position_lem :
    (s : Bytes) (ts : List Bytes) (r : ℕ)
    → unique_position s ts ≡ some r
    → (r < length ts) × (s ≡ get_or ts r [])
unfolding unique_position
unique_position_lem s ts r e =
    let found : position s 0 ts ≡ some r = ground arith in
    let (k, lt, at, text) = position_lem s ts 0 r found in
    let same : k ≡ r = omega arith in (omega arith, subst (λ n. s ≡ get_or ts n []) same text)

module _ (sub_a sub_b : List Bytes) where
  -- A pair of lines within the window that are equal.
  abbrev IsEqualPair : LinePair → Type 0
  IsEqualPair p =
      (p.i < length sub_a) × (p.j < length sub_b) × (get_or sub_a p.i [] ≡ get_or sub_b p.j [])

  abbrev AllEqual : List LinePair → Type 0
  AllEqual [] = Unit {0}
  AllEqual (p ∷ ps) = IsEqualPair p × AllEqual ps

  abbrev LeftsFrom : ℕ → List LinePair → Type 0
  LeftsFrom lo [] = Unit {0}
  LeftsFrom lo (p ∷ ps) = (lo ≤ p.i) × LeftsFrom (suc p.i) ps

  LeftsFrom-lower :
      (lo lo' : ℕ) (ps : List LinePair) → lo' ≤ lo → LeftsFrom lo ps → LeftsFrom lo' ps
  LeftsFrom-lower lo lo' [] h l = tt
  LeftsFrom-lower lo lo' (p ∷ ps) h (a, l) = (omega arith, l)

  unique_pairs_lem :
      (rest : List Bytes) (i : ℕ)
      → ((k : ℕ) → k < length rest → get_or sub_a (i + k) [] ≡ get_or rest k [])
      → i + length rest ≡ length sub_a
      → LeftsFrom i (unique_pairs sub_a sub_b i rest) × AllEqual (unique_pairs sub_a sub_b i rest)
  unfolding unique_pairs
  unique_pairs_lem [] i h e = (tt, tt)
  unique_pairs_lem (s ∷ rest) i h e =
      let (lefts, equal) =
        unique_pairs_lem rest (suc i)
          (λ k lt.
            let next : suc i + k ≡ i + suc k = omega arith in
            ap (λ n. get_or sub_a n []) next ∙ h (suc k) (omega arith))
          (omega arith) in
      let skipped : LeftsFrom i (unique_pairs sub_a sub_b (suc i) rest) =
        LeftsFrom-lower (suc i) i _ (omega arith) lefts in
      elim (Bool-cases (frequency s sub_a == 1)) [
        | inr f ↦ rw f (skipped, equal)
        | inl t ↦ elim (Option-cases (unique_position s sub_b)) [
          | inl none_there ↦ rw (t, none_there) (skipped, equal)
          | inr (j, found) ↦
              let (below, text) = unique_position_lem s sub_b j found in
              let here : i ≡ i + 0 = omega arith in
              rw (t, found)
                (
                  (omega arith, lefts),
                  (
                    (
                      omega arith,
                      below,
                      ap (λ n. get_or sub_a n []) here ∙ h 0 (omega arith) ∙ text,
                    ),
                    equal,
                  ),
                )
        ]
      ]

  -- The lines of the left side rise along such a list.
  LeftsFrom-get :
      (ps : List LinePair) (lo k : ℕ)
      → LeftsFrom lo ps
      → k < length ps
      → lo ≤ (get_or ps k no_pair).i
  LeftsFrom-get [] lo k l h = absurd (omega arith)
  LeftsFrom-get (p ∷ ps) lo zero (a, l) h = a
  LeftsFrom-get (p ∷ ps) lo (suc k) (a, l) h =
      omega (arith, LeftsFrom-get ps (suc p.i) k l (omega arith))

  LeftsFrom-LeftRising : (ps : List LinePair) (lo : ℕ) → LeftsFrom lo ps → LeftRising ps
  LeftsFrom-LeftRising [] lo l k k' h h' = absurd (omega arith)
  LeftsFrom-LeftRising (p ∷ ps) lo (a, l) k zero h h' = absurd (omega arith)
  LeftsFrom-LeftRising (p ∷ ps) lo (a, l) zero (suc k') h h' =
      LeftsFrom-get ps (suc p.i) k' l (omega arith)
  LeftsFrom-LeftRising (p ∷ ps) lo (a, l) (suc k) (suc k') h h' =
      LeftsFrom-LeftRising ps (suc p.i) l k k' (omega arith) (omega arith)

  AllEqual-get :
      (ps : List LinePair) (k : ℕ) → AllEqual ps → k < length ps → IsEqualPair (get_or ps k no_pair)
  AllEqual-get [] k q h = absurd (omega arith)
  AllEqual-get (p ∷ ps) zero (e, q) h = e
  AllEqual-get (p ∷ ps) (suc k) (e, q) h = AllEqual-get ps k q (omega arith)

  AreCandidates-AllEqual :
      (candidates ps : List LinePair)
      → AllEqual candidates
      → AreCandidates candidates ps
      → AllEqual ps
  AreCandidates-AllEqual candidates [] q m = tt
  AreCandidates-AllEqual candidates (p ∷ ps) q ((k, lt, e), m) = (
    subst IsEqualPair e (AllEqual-get candidates k q lt),
    AreCandidates-AllEqual candidates ps q m,
  )

  -- The anchors of the window: equal lines, rising on both sides.
  pub anchors_lem :
      (let anchors = compute_lis (unique_pairs sub_a sub_b 0 sub_a) in
        IsRisingPairs 0 0 anchors × AllEqual anchors)
  anchors_lem =
      let candidates = unique_pairs sub_a sub_b 0 sub_a in
      let (lefts, equal) =
        unique_pairs_lem sub_a 0
          (λ k h. let same : 0 + k ≡ k = omega arith in ap (λ n. get_or sub_a n []) same)
          (omega arith) in
      let (rising, members, _) =
        compute_lis-longest candidates (LeftsFrom-LeftRising candidates 0 lefts) in
      (rising, AreCandidates-AllEqual candidates (compute_lis candidates) equal members)

next_line : (a i : ℕ) → a + (i + 1) ≡ suc (a + i)
next_line a i = omega arith

add-one : (n : ℕ) → n + 1 ≡ suc n
add-one n = omega arith

module _ (is_punctuation : Bytes → Bool) (scratch : SeqScratch)
    (lines_a lines_b sub_a sub_b : List Bytes) (start_a start_b : ℕ)
    (view_a : IsView sub_a start_a lines_a) (view_b : IsView sub_b start_b lines_b) where
  abbrev weight : ℕ → ℕ → ℕ
  weight = equal_weight (same_text lines_a lines_b)

  -- What is added to the matching: an alignment of lines equal but for blanks, from the lines
  -- `last_i` and `last_j` of the window to its end.
  abbrev Adds : ℕ → ℕ → List (ℕ × ℕ) → List (ℕ × ℕ) → Type 0
  Adds last_i last_j matched result =
      (ps : List (ℕ × ℕ)) × (result ≡ matched ++ ps)
      × IsAlignment weight (start_a + last_i) (start_b + last_j) (start_a + length sub_a)
          (start_b + length sub_b) ps

  anchor_loop-Adds :
      (lis : List LinePair) (last_i last_j : ℕ) (matched : List (ℕ × ℕ))
      → last_i ≤ length sub_a
      → last_j ≤ length sub_b
      → IsRisingPairs last_i last_j lis
      → AllEqual sub_a sub_b lis
      → Adds last_i last_j matched
          (anchor_loop is_punctuation scratch sub_a sub_b start_a start_b last_i last_j lis matched)
  unfolding anchor_loop
  anchor_loop-Adds [] last_i last_j matched ha hb r q =
      let (ps, e, aligned) =
        align_line_window-IsAlignment lines_a lines_b is_punctuation scratch (drop last_i sub_a)
          (drop last_j sub_b) (start_a + last_i) (start_b + last_j) matched
          (drop-IsView last_i start_a sub_a lines_a view_a)
          (drop-IsView last_j start_b sub_b lines_b view_b) in
      (
        ps,
        e,
        IsAlignment-raise lines_a lines_b _ _ _ _ _ _ ps (omega (arith, length-drop last_i sub_a))
            (omega (arith, length-drop last_j sub_b)) aligned,
      )
  anchor_loop-Adds (p ∷ lis) last_i last_j matched ha hb (ri, rj, r) ((ia, jb, text), q) =
      let win_a = take (p.i - last_i) (drop last_i sub_a) in
      let win_b = take (p.j - last_j) (drop last_j sub_b) in
      let (ps, e, aligned) =
        align_line_window-IsAlignment lines_a lines_b is_punctuation scratch win_a win_b
          (start_a + last_i) (start_b + last_j) matched
          (take-IsView (p.i - last_i) (start_a + last_i) (drop last_i sub_a) lines_a
            (drop-IsView last_i start_a sub_a lines_a view_a))
          (take-IsView (p.j - last_j) (start_b + last_j) (drop last_j sub_b) lines_b
            (drop-IsView last_j start_b sub_b lines_b view_b)) in
      let before =
        IsAlignment-raise lines_a lines_b _ _ _ _ (start_a + p.i) (start_b + p.j) ps
          (omega (arith, length-take-le (p.i - last_i) (drop last_i sub_a)))
          (omega (arith, length-take-le (p.j - last_j) (drop last_j sub_b))) aligned in
      let (qs, e', later) =
        anchor_loop-Adds lis (p.i + 1) (p.j + 1)
          (align_line_window is_punctuation scratch win_a win_b (start_a + last_i)
              (start_b + last_j) matched
            ++ (start_a + p.i, start_b + p.j) ∷ [])
          (omega arith) (omega arith) (rw (add-one p.i, add-one p.j) r) q in
      (
        ps ++ (start_a + p.i, start_b + p.j) ∷ qs,
        e'
            ∙ append_assoc
                (align_line_window is_punctuation scratch win_a win_b (start_a + last_i)
                  (start_b + last_j) matched)
                ((start_a + p.i, start_b + p.j) ∷ []) qs
            ∙ ap (λ l. l ++ (start_a + p.i, start_b + p.j) ∷ qs) e
            ∙ append_assoc matched ps ((start_a + p.i, start_b + p.j) ∷ qs),
        IsAlignment-concat (same_text lines_a lines_b) _ _ (start_a + p.i) (start_b + p.j) _ _ ps
            ((start_a + p.i, start_b + p.j) ∷ qs)
            (omega arith, omega arith, omega arith, omega arith) before
            (
              omega arith,
              omega arith,
              omega arith,
              omega arith,
              same_text-equal_weight lines_a lines_b (start_a + p.i) (start_b + p.j)
                  (ap trim_space (sym (view_a p.i ia) ∙ text ∙ view_b p.j jb)),
              rw (next_line start_a p.i, next_line start_b p.j) at later,
            ),
      )

  -- Whatever the window: `lineDiffPatience` adds an alignment of lines that are equal but for blanks,
  -- within the window.
  pub line_diff_patience-IsAlignment :
      (matched : List (ℕ × ℕ))
      → (ps : List (ℕ × ℕ)) × (line_diff_patience is_punctuation scratch sub_a sub_b start_a start_b
            matched
          ≡ matched ++ ps)
        × IsAlignment weight start_a start_b (start_a + length sub_a) (start_b + length sub_b) ps
  unfolding line_diff_patience
  line_diff_patience-IsAlignment matched =
      elim (Bool-cases (length sub_a == 0 || length sub_b == 0)) [
        | inl t ↦ ([], rw t (sym (append-nil matched)), tt)
        | inr f ↦
            let (rising, equal) = anchors_lem sub_a sub_b in
            let (ps, e, aligned) =
              anchor_loop-Adds (compute_lis (unique_pairs sub_a sub_b 0 sub_a)) 0 0 matched
                (omega arith) (omega arith) rising equal in
            (ps, rw f e, rw (add-zero start_a, add-zero start_b) at aligned)
      ]
