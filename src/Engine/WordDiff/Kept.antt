-- ===== src/Engine/WordDiff/Kept.antt =====
-- What `Diff` leaves unmarked is the same in both lines.
use diffmantic.Base.{
  ℕ, ◌<◌, ◌≡◌, refl, Bool, true, false, not, ◌||◌, List, [], ◌∷◌, arith, ◌==◌, length, Bool-cases,
  ◌⊎◌, inl, inr,
}
use diffmantic.Engine.SeqDiff.{SeqScratch}
use diffmantic.Engine.WordDiff.Tokens.{Bytes, WordToken, tokenize}
use diffmantic.Engine.WordDiff.Diff.{
  diff_tokens, whole_line_ops, trim_newlines, diff_trimmed, diff_words,
}
use diffmantic.Engine.WordDiff.Middle.{whole-IsKept, diff_tokens-IsKept}
use diffmantic.Engine.WordDiff.Tiling.{IsTiling, tokenize-IsTiling}
use diffmantic.Engine.WordDiff.Offset.{span}
use diffmantic.Engine.WordDiff.Slots.{src_ranges, dst_ranges, IsKept}

whole_line_ops-IsKept : (src dst : Bytes) → IsKept src dst 0 0 (whole_line_ops src dst)
whole_line_ops-IsKept src dst =
    whole-IsKept src dst (whole_line_ops src dst)
      (unfold whole_line_ops src_ranges span in ground arith)
      (unfold whole_line_ops dst_ranges span in ground arith)

-- Tokens are there exactly where bytes are.
tokens_of_bytes :
    (n : ℕ) (ts : List WordToken)
    → IsTiling n 0 ts
    → ((length ts ≡ 0) × (n ≡ 0)) ⊎ ((0 < length ts) × (0 < n))
tokens_of_bytes n [] tiles = inl (refl, omega arith)
tokens_of_bytes n (t ∷ ts) (e, wide, fits, tiles) = inr (omega arith, omega arith)

module _ (letter_or_digit : ℕ → Bool) (seq : SeqScratch) (src dst : Bytes) where
  abbrev tokens_src : List WordToken
  tokens_src = (tokenize letter_or_digit src).0

  abbrev tokens_dst : List WordToken
  tokens_dst = (tokenize letter_or_digit dst).0

  one_sided-IsKept :
      IsTiling (length src) 0 tokens_src
      → IsTiling (length dst) 0 tokens_dst
      → (length tokens_src ≡ 0) ⊎ (length tokens_dst ≡ 0)
      → (tokenize letter_or_digit src).1 ≡ true
      → (tokenize letter_or_digit dst).1 ≡ true
      → IsKept src dst 0 0 (diff_trimmed letter_or_digit seq src dst)
  one_sided-IsKept tiles tiles' h ok ok' =
      let sizes = tokens_of_bytes (length src) tokens_src tiles in
      let sizes' = tokens_of_bytes (length dst) tokens_dst tiles' in
      whole-IsKept src dst (diff_trimmed letter_or_digit seq src dst)
        (unfold diff_trimmed src_ranges span in ground arith)
        (unfold diff_trimmed dst_ranges span in ground arith)

  diff_tripped :
      (not (tokenize letter_or_digit src).1 || not (tokenize letter_or_digit dst).1) ≡ true
      → whole_line_ops src dst ≡ diff_trimmed letter_or_digit seq src dst
  unfolding diff_trimmed
  diff_tripped h = ground arith

  diff_both :
      (not (tokenize letter_or_digit src).1 || not (tokenize letter_or_digit dst).1) ≡ false
      → (length tokens_src == 0 || length tokens_dst == 0) ≡ false
      → diff_tokens tokens_src tokens_dst seq src dst ≡ diff_trimmed letter_or_digit seq src dst
  unfolding diff_trimmed
  diff_both h k = ground arith

  diff_trimmed-IsKept : IsKept src dst 0 0 (diff_trimmed letter_or_digit seq src dst)
  diff_trimmed-IsKept =
      elim (Bool-cases
        (not (tokenize letter_or_digit src).1 || not (tokenize letter_or_digit dst).1)) [
          | inl tripped ↦ rw (← diff_tripped tripped) (whole_line_ops-IsKept src dst)
          | inr fits ↦
              let ok : (tokenize letter_or_digit src).1 ≡ true = ground arith in
              let ok' : (tokenize letter_or_digit dst).1 ≡ true = ground arith in
              let tiles = tokenize-IsTiling letter_or_digit src ok in
              let tiles' = tokenize-IsTiling letter_or_digit dst ok' in
              elim (Bool-cases (length tokens_src == 0 || length tokens_dst == 0)) [
                | inl empty ↦ one_sided-IsKept tiles tiles' (ground arith) ok ok'
                | inr both ↦ rw (← diff_both fits both) (
                    diff_tokens-IsKept src dst tokens_src tokens_dst tiles tiles' seq (ground arith)
                      (ground arith))
              ]
        ]

module _ (letter_or_digit : ℕ → Bool) where
  -- Whatever two lines are given, the ranges that `Diff` marks in either rise without overlapping
  -- and lie within the line (less its line end), and what is left unmarked of the two lines is the
  -- same text.
  pub diff_words-IsKept :
      (seq : SeqScratch) (src dst : Bytes)
      → IsKept (trim_newlines src) (trim_newlines dst) 0 0 (diff_words letter_or_digit seq src dst)
  unfolding diff_words
  diff_words-IsKept seq src dst = diff_trimmed-IsKept letter_or_digit seq _ _
