-- ===== src/Engine/LineDiff/Pairing.antt =====
-- Compaction of a matching of lines pairs the same texts.
use native.Mathlib.Nat.{zero-add}
use diffmantic.Base.{
  ℕ, suc, ◌+◌, ◌<◌, ◌≡◌, refl, sym, ap, ap₂, ◌∙◌, Bool, true, false, ◌&&◌, List, [], ◌∷◌, arith,
  get_or, if◌then◌else◌, length, map, set, ltb, ◌==◌, length-set, length-replicate, replicate,
}
use diffmantic.Engine.WordDiff.Tokens.{Bytes}
use diffmantic.Engine.LineDiff.{
  mark_matched, matched_lines, zip, initial_flags, compact_line_diff, compact_changes,
}
use diffmantic.Engine.LineDiff.Windows.{kept}
use diffmantic.Engine.LineDiff.Sliding.{flag}
use diffmantic.Engine.LineDiff.Compaction.{compact_changes-kept}

-- The texts of a pair of lines.
unfoldable pub texts : List Bytes → List Bytes → ℕ × ℕ → Bytes × Bytes
texts lines_a lines_b (i, j) = (get_or lines_a i [], get_or lines_b j [])

get_or-suc : (all : List Bytes) (i k : ℕ) → get_or all (suc i + k) [] ≡ get_or all (i + suc k) []
get_or-suc all i k = let e : suc i + k ≡ i + suc k = omega arith in ap (λ n. get_or all n []) e

get_or-here : (all : List Bytes) (i : ℕ) → get_or all i [] ≡ get_or all (i + 0) []
get_or-here all i = let e : i ≡ i + 0 = omega arith in ap (λ n. get_or all n []) e

-- `lines` from index `i` on.
kept_matched :
    (all lines : List Bytes) (changed : List Bool) (i : ℕ)
    → ((k : ℕ) → get_or all (i + k) [] ≡ get_or lines k [])
    → length changed ≡ length lines
    → map (λ k. get_or all k []) (matched_lines i changed) ≡ kept lines (flag changed)
unfolding matched_lines kept
kept_matched all [] [] i h e = refl
kept_matched all [] (c ∷ changed) i h e = absurd (omega arith)
kept_matched all (x ∷ lines) [] i h e = absurd (omega arith)
kept_matched all (x ∷ lines) (true ∷ changed) i h e =
    kept_matched all lines changed (suc i) (λ k. get_or-suc all i k ∙ h (suc k)) (omega arith)
kept_matched all (x ∷ lines) (false ∷ changed) i h e =
    ap₂ (λ y ys. y ∷ ys) (get_or-here all i ∙ h 0)
      (kept_matched all lines changed (suc i) (λ k. get_or-suc all i k ∙ h (suc k)) (omega arith))

map-zip :
    (lines_a lines_b : List Bytes) (is js : List ℕ)
    → map (texts lines_a lines_b) (zip is js)
      ≡ zip (map (λ k. get_or lines_a k []) is) (map (λ k. get_or lines_b k []) js)
unfolding texts zip
map-zip lines_a lines_b [] js = refl
map-zip lines_a lines_b (i ∷ is) [] = refl
map-zip lines_a lines_b (i ∷ is) (j ∷ js) =
    ap (λ r. texts lines_a lines_b (i, j) ∷ r) (map-zip lines_a lines_b is js)

mark_one :
    (marks : Bool) (i j : ℕ) (changed_a changed_b : List Bool)
    → (let next : List Bool × List Bool =
          (if marks
            then (set changed_a i false, set changed_b j false)
            else (changed_a, changed_b)) in
        (length next.0 ≡ length changed_a) × (length next.1 ≡ length changed_b))
mark_one true i j changed_a changed_b = (length-set changed_a i false, length-set changed_b j false)
mark_one false i j changed_a changed_b = (refl, refl)

pub mark_matched-length :
    (m n : ℕ) (matched : List (ℕ × ℕ)) (changed : List Bool × List Bool)
    → (length (mark_matched m n matched changed).0 ≡ length changed.0)
      × (length (mark_matched m n matched changed).1 ≡ length changed.1)
unfolding mark_matched
mark_matched-length m n [] changed = (refl, refl)
mark_matched-length m n ((i, j) ∷ matched) (changed_a, changed_b) =
    let (x, y) = mark_one (ltb i m && ltb j n) i j changed_a changed_b in
    let (a, b) = mark_matched-length m n matched (
      if ltb i m && ltb j n
      then (set changed_a i false, set changed_b j false)
      else (changed_a, changed_b)) in
    (a ∙ x, b ∙ y)

matched_texts :
    (lines : List Bytes) (changed : List Bool)
    → length changed ≡ length lines
    → map (λ k. get_or lines k []) (matched_lines 0 (compact_changes lines changed))
      ≡ kept lines (flag changed)
matched_texts lines changed e =
    let (size, same) = compact_changes-kept lines changed e in
    kept_matched lines lines (compact_changes lines changed) 0
      (λ k. sym (ap (λ n. get_or lines n []) (sym (zero-add k)))) size
    ∙ same

-- For a matching with an entry, of lines of which neither side is empty: the pairs that
-- `compactLineDiff` returns have, in order, the texts of the lines that were matched before, the
-- k-th matched line of one side against the k-th of the other.
pub compact_line_diff-texts :
    (lines_a lines_b : List Bytes) (matched : List (ℕ × ℕ))
    → 0 < length lines_a
    → 0 < length lines_b
    → 0 < length matched
    → map (texts lines_a lines_b) (compact_line_diff lines_a lines_b matched) ≡ (
        let (changed_a, changed_b) = initial_flags lines_a lines_b matched in
        zip (kept lines_a (flag changed_a)) (kept lines_b (flag changed_b)))
unfolding compact_line_diff initial_flags
compact_line_diff-texts lines_a lines_b matched p q r =
    let (changed_a, changed_b) = initial_flags lines_a lines_b matched in
    let (size_a, size_b) =
      mark_matched-length (length lines_a) (length lines_b) matched
        (replicate (length lines_a) true, replicate (length lines_b) true) in
    let some_a : (length lines_a == 0) ≡ false = ground arith in
    let some_b : (length lines_b == 0) ≡ false = ground arith in
    let some_match : (length matched == 0) ≡ false = ground arith in
    rw (some_a, some_b, some_match)
      (map-zip lines_a lines_b (matched_lines 0 (compact_changes lines_a changed_a))
          (matched_lines 0 (compact_changes lines_b changed_b))
        ∙ ap₂ zip
            (matched_texts lines_a changed_a (size_a ∙ length-replicate (length lines_a) true))
            (matched_texts lines_b changed_b (size_b ∙ length-replicate (length lines_b) true)))
