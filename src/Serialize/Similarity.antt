-- ===== src/Serialize/Similarity.antt =====
-- internal/serialize/align.go: the count of shared bigrams behind calculateSimilarity. The array of
-- counters is a function; the quotient, a floating point number, is left as its two terms.
pub mod Rollback
use diffmantic.Base.{
  ℕ, zero, suc, ◌+◌, ◌-◌, ◌*◌, Bool, ◌||◌, List, [], ◌∷◌, ◌++◌, ltb, ◌==◌, if◌then◌else◌, length,
}
use diffmantic.Engine.WordDiff.Tokens.{Bytes}
use diffmantic.Engine.WordDiff.Diff.{equal_bytes}

-- `bigrams` and `touched` of `alignScratch`.
pub record AlignScratch : Type 0 where
  pub bigrams : ℕ → ℕ
  pub touched : List ℕ

unfoldable pub set_count : (ℕ → ℕ) → ℕ → ℕ → ℕ → ℕ
set_count counts bg n k = if k == bg then n else counts k

-- `uint16(a[i])<<8 | uint16(a[i+1])`
abbrev pub bigram : ℕ → ℕ → ℕ
bigram c d = c * 256 + d

unfoldable pub accumulate : Bytes → AlignScratch → AlignScratch
unfolding set_count
accumulate [] s = s
accumulate (c ∷ []) s = s
accumulate (c ∷ (d ∷ a)) s =
    let bg = bigram c d in
    let counts =
      if ltb (s.bigrams bg) 255 then set_count s.bigrams bg (s.bigrams bg + 1) else s.bigrams in
    accumulate (d ∷ a) (record { bigrams = counts; touched = s.touched ++ bg ∷ [] })

unfoldable pub intersect : Bytes → (ℕ → ℕ) → ℕ → (ℕ → ℕ) × ℕ
unfolding set_count
intersect [] counts shared = (counts, shared)
intersect (c ∷ []) counts shared = (counts, shared)
intersect (c ∷ (d ∷ b)) counts shared =
    let bg = bigram c d in
    let found = intersect (d ∷ b) (set_count counts bg (counts bg - 1)) (shared + 1) in
    let missed = intersect (d ∷ b) counts shared in if ltb 0 (counts bg) then found else missed

unfoldable pub roll_back : List ℕ → (ℕ → ℕ) → ℕ → ℕ
unfolding set_count
roll_back [] counts = counts
roll_back (bg ∷ touched) counts = roll_back touched (set_count counts bg 0)

-- The scratch afterwards, and the terms of the quotient: 1 of 1 for equal texts, 0 of 1 where the
-- bigrams are not counted.
unfoldable pub calculate_similarity : Bytes → Bytes → AlignScratch → AlignScratch × ℕ × ℕ
unfolding accumulate intersect roll_back equal_bytes
calculate_similarity a b scratch =
    let la = length a in
    let lb = length b in
    let s = accumulate a (record { bigrams = scratch.bigrams; touched = [] }) in
    let (counts, shared) = intersect b s.bigrams 0 in
    if equal_bytes a b
    then (scratch, 1, 1)
    else if ltb la 2 || ltb lb 2
    then (scratch, 0, 1)
    else if ltb (3 * lb) la || ltb (3 * la) lb
    then (scratch, 0, 1)
    else (
      record { bigrams = roll_back s.touched counts; touched = s.touched },
      2 * shared,
      la - 1 + (lb - 1),
    )
