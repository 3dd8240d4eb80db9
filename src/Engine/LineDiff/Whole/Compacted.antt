-- ===== src/Engine/LineDiff/Whole/Compacted.antt =====
-- Compaction of entries that are an alignment but for their order.
use diffmantic.Base.{
  ℕ, suc, ◌<◌, ◌≡◌, refl, sym, subst, ◌||◌, List, [], ◌∷◌, ◌++◌, arith, length, get_or, map,
  Bool-cases, inl, inr,
}
use diffmantic.Engine.SeqDiff.Optimum.{IsAlignment}
use diffmantic.Engine.SeqDiff.Alignment.{equal_weight}
use diffmantic.Engine.WordDiff.Tokens.{Bytes}
use diffmantic.Engine.WordDiff.Slots.{equal_bytes→eq}
use diffmantic.Engine.LineDiff.{trim_space, compact_line_diff}
use diffmantic.Engine.LineDiff.Marking.{mem}
use diffmantic.Engine.LineDiff.Pairing.{texts}
use diffmantic.Engine.LineDiff.Rematch.{
  any_pair, IsInside, SameLines, firsts, seconds, compact_line_diff-sorted,
  compact_line_diff-rising,
}
use diffmantic.Engine.LineDiff.Views.{same_text, equal_bytes_self}

-- The two texts of each pair are equal but for blanks around them.
abbrev SameTexts : List (Bytes × Bytes) → Type 0
SameTexts [] = Unit {0}
SameTexts ((s, t) ∷ r) = (trim_space s ≡ trim_space t) × SameTexts r

module _ (lines_a lines_b : List Bytes) where
  abbrev pub w : ℕ → ℕ → ℕ
  w = equal_weight (same_text lines_a lines_b)

  weight-positive :
      (i j : ℕ) → 0 < w i j → trim_space (get_or lines_a i []) ≡ trim_space (get_or lines_b j [])
  weight-positive i j h = elim (Bool-cases (same_text lines_a lines_b i j)) [
    | inl t ↦ equal_bytes→eq _ _ t
    | inr f ↦ let none_left : w i j ≡ 0 = rw f refl in absurd (omega arith)
  ]

  IsAlignment-SameTexts :
      (lo_a lo_b n m : ℕ) (ps : List (ℕ × ℕ))
      → IsAlignment w lo_a lo_b n m ps
      → SameTexts (map (texts lines_a lines_b) ps)
  unfolding texts
  IsAlignment-SameTexts lo_a lo_b n m [] r = tt
  IsAlignment-SameTexts lo_a lo_b n m ((i, j) ∷ ps) (_, _, _, _, h, r) =
      (weight-positive i j h, IsAlignment-SameTexts (suc i) (suc j) n m ps r)

  SameTexts-IsAlignment :
      (lo_a lo_b n m : ℕ) (ps : List (ℕ × ℕ))
      → IsAlignment any_pair lo_a lo_b n m ps
      → SameTexts (map (texts lines_a lines_b) ps)
      → IsAlignment w lo_a lo_b n m ps
  unfolding texts
  SameTexts-IsAlignment lo_a lo_b n m [] r s = tt
  SameTexts-IsAlignment lo_a lo_b n m ((i, j) ∷ ps) (a, b, c, d, _, r) (e, s) = (
    a,
    b,
    c,
    d,
    rw (equal_bytes_self _ _ e) (omega arith),
    SameTexts-IsAlignment (suc i) (suc j) n m ps r s,
  )

  IsAlignment-any_pair :
      (lo_a lo_b n m : ℕ) (ps : List (ℕ × ℕ))
      → IsAlignment w lo_a lo_b n m ps
      → IsAlignment any_pair lo_a lo_b n m ps
  IsAlignment-any_pair lo_a lo_b n m [] r = tt
  IsAlignment-any_pair lo_a lo_b n m ((i, j) ∷ ps) (a, b, c, d, _, r) =
      (a, b, c, d, omega arith, IsAlignment-any_pair (suc i) (suc j) n m ps r)

  -- Compaction of entries whose sorted list is an alignment gives an alignment.
  pub compacted-IsAlignment :
      (matched sorted : List (ℕ × ℕ))
      → IsInside (length lines_a) (length lines_b) matched
      → IsAlignment w 0 0 (length lines_a) (length lines_b) sorted
      → SameLines matched sorted
      → IsAlignment w 0 0
          (length lines_a)
          (length lines_b)
          (compact_line_diff lines_a lines_b matched)
  compacted-IsAlignment matched sorted inside r same =
      SameTexts-IsAlignment 0 0 _ _ (compact_line_diff lines_a lines_b matched)
        (compact_line_diff-rising lines_a lines_b matched inside)
        (subst SameTexts
          (sym (
            compact_line_diff-sorted lines_a lines_b matched sorted inside
              (IsAlignment-any_pair 0 0 _ _ sorted r) same))
          (IsAlignment-SameTexts 0 0 _ _ sorted r))

pub IsInside-append :
    (m n : ℕ) (ps qs : List (ℕ × ℕ)) → IsInside m n ps → IsInside m n qs → IsInside m n (ps ++ qs)
IsInside-append m n [] qs p q = q
IsInside-append m n ((i, j) ∷ ps) qs (a, b, p) q = (a, b, IsInside-append m n ps qs p q)

mem-firsts-append :
    (k : ℕ) (ps qs : List (ℕ × ℕ))
    → mem k (firsts (ps ++ qs)) ≡ (mem k (firsts ps) || mem k (firsts qs))
mem-firsts-append k [] qs = refl
mem-firsts-append k ((i, j) ∷ ps) qs = ground (arith, mem-firsts-append k ps qs)

mem-seconds-append :
    (k : ℕ) (ps qs : List (ℕ × ℕ))
    → mem k (seconds (ps ++ qs)) ≡ (mem k (seconds ps) || mem k (seconds qs))
mem-seconds-append k [] qs = refl
mem-seconds-append k ((i, j) ∷ ps) qs = ground (arith, mem-seconds-append k ps qs)

-- The entries of the middle are written behind those of both ends.
pub reordered-SameLines : (p s m : List (ℕ × ℕ)) → SameLines ((p ++ s) ++ m) (p ++ (m ++ s))
reordered-SameLines p s m = (
  λ k. ground (
    arith,
    mem-firsts-append k (p ++ s) m,
    mem-firsts-append k p s,
    mem-firsts-append k p (m ++ s),
    mem-firsts-append k m s,
  ),
  λ k. ground (
    arith,
    mem-seconds-append k (p ++ s) m,
    mem-seconds-append k p s,
    mem-seconds-append k p (m ++ s),
    mem-seconds-append k m s,
  ),
)
