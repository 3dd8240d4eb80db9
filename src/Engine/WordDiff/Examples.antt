-- ===== src/Engine/WordDiff/Examples.antt =====
-- Two versions of a line.
use diffmantic.Base.{ℕ, Bool, false, ◌≡◌, refl, [], ◌∷◌}
use diffmantic.Engine.SeqDiff.{SeqScratch, fill_cell, trim_bounds, align_uniform, combine_matches}
use diffmantic.Engine.WordDiff.Tokens.{Bytes, decode_rune, fnv_hash, tokenize}
use diffmantic.Engine.WordDiff.Diff.{
  update, trim_newlines, diff_words, diff_tokens, tokens_equal, slot_ops, whole_line_ops,
}
use diffmantic.Engine.WordDiff.Slots.{IsKept}
use diffmantic.Engine.WordDiff.Kept.{diff_words-IsKept}

abbrev no_letters : ℕ → Bool
no_letters r = false

abbrev scratch : SeqScratch
scratch = record { dp = 5 ∷ 5 ∷ []; matches = [] }

-- "a = b;" and "a = cd;" with a line end
abbrev old_line : Bytes
old_line = b'a' ∷ b' ' ∷ b'=' ∷ b' ' ∷ b'b' ∷ b';' ∷ 10 ∷ []

abbrev new_line : Bytes
new_line = b'a' ∷ b' ' ∷ b'=' ∷ b' ' ∷ b'c' ∷ b'd' ∷ b';' ∷ []

marks_the_word :
    diff_words no_letters scratch old_line new_line
    ≡ record { action = update; src_start = 4; src_end = 5; dst_start = 4; dst_end = 6 } ∷ []
unfolding diff_words tokenize decode_rune fnv_hash diff_tokens tokens_equal slot_ops trim_bounds
    align_uniform fill_cell combine_matches whole_line_ops
marks_the_word = refl

diff_words-IsKept_example :
    IsKept
      (trim_newlines old_line)
      (trim_newlines new_line)
      0
      0
      (diff_words no_letters scratch old_line new_line)
diff_words-IsKept_example = diff_words-IsKept no_letters scratch old_line new_line
