-- ===== src/Engine/WordDiff/Tokens.antt =====
-- internal/engine/worddiff.go: a line as words, runs of blanks and single runes, each with its
-- byte range and a hash. A text is the list of its bytes.
use Prim.Native.Nat.{bit_xor}
use diffmantic.Base.{
  ℕ, zero, suc, ◌+◌, ◌-◌, ◌*◌, ◌%◌, ◌^◌, Bool, true, false, ◌&&◌, ◌||◌, List, [], ◌∷◌, length, take,
  drop, ltb, leb, ◌==◌, if◌then◌else◌,
}

abbrev pub Bytes : Type 0
Bytes = List ℕ

abbrev pub max_tokens_per_line : ℕ
max_tokens_per_line = 120

abbrev pub fnv_offset64 : ℕ
fnv_offset64 = 14695981039346656037

abbrev pub fnv_prime64 : ℕ
fnv_prime64 = 1099511628211

-- `end` is the byte behind the token.
pub record WordToken : Type 0 where
  pub hash : ℕ
  pub start : ℕ
  pub end : ℕ

-- `s[a:b]`
unfoldable pub slice : Bytes → ℕ → ℕ → Bytes
slice s a b = take (b - a) (drop a s)

-- `unicode/utf8`: the first rune of a text and its size in bytes; 0xFFFD and one byte where the
-- bytes are no UTF-8.
unfoldable pub is_trail : ℕ → ℕ → ℕ → Bool
is_trail lo hi b = leb lo b && leb b hi

abbrev rune_error : ℕ × ℕ
rune_error = (0xFFFD, 1)

unfoldable pub decode2 : ℕ → Bytes → ℕ × ℕ
unfolding is_trail
decode2 b0 (b1 ∷ _) =
    if is_trail 0x80 0xBF b1 then ((b0 - 0xC0) * 64 + (b1 - 0x80), 2) else rune_error
decode2 b0 _ = rune_error

unfoldable pub decode3 : ℕ → ℕ → ℕ → Bytes → ℕ × ℕ
unfolding is_trail
decode3 lo hi b0 (b1 ∷ b2 ∷ _) =
    if is_trail lo hi b1 && is_trail 0x80 0xBF b2
    then ((b0 - 0xE0) * 4096 + (b1 - 0x80) * 64 + (b2 - 0x80), 3)
    else rune_error
decode3 lo hi b0 _ = rune_error

unfoldable pub decode4 : ℕ → ℕ → ℕ → Bytes → ℕ × ℕ
unfolding is_trail
decode4 lo hi b0 (b1 ∷ b2 ∷ b3 ∷ _) =
    if is_trail lo hi b1 && is_trail 0x80 0xBF b2 && is_trail 0x80 0xBF b3
    then ((b0 - 0xF0) * 262144 + (b1 - 0x80) * 4096 + (b2 - 0x80) * 64 + (b3 - 0x80), 4)
    else rune_error
decode4 lo hi b0 _ = rune_error

unfoldable pub decode_rune : Bytes → ℕ × ℕ
unfolding decode2 decode3 decode4
decode_rune [] = (0xFFFD, 0)
decode_rune (b0 ∷ s) =
    if ltb b0 0x80
    then (b0, 1)
    else if ltb b0 0xC2
    then rune_error
    else if ltb b0 0xE0
    then decode2 b0 s
    else if ltb b0 0xF0
    then decode3 (if b0 == 0xE0 then 0xA0 else 0x80) (if b0 == 0xED then 0x9F else 0xBF) b0 s
    else if ltb b0 0xF5
    then decode4 (if b0 == 0xF0 then 0x90 else 0x80) (if b0 == 0xF4 then 0x8F else 0xBF) b0 s
    else rune_error

-- The loop of `fnvHash` over the bytes of the token.
unfoldable pub fnv_from : ℕ → Bytes → ℕ
fnv_from h [] = h
fnv_from h (b ∷ s) = fnv_from (bit_xor h b * fnv_prime64 % 2 ^ 64) s

unfoldable pub fnv_hash : Bytes → ℕ → ℕ → ℕ
unfolding fnv_from slice
fnv_hash s start end = fnv_from fnv_offset64 (slice s start end)

unfoldable pub is_whitespace_rune : ℕ → Bool
is_whitespace_rune r = r == b' ' || r == 9

-- `letter_or_digit` is `unicode.IsLetter(r) || unicode.IsDigit(r)`, a table of Go's library.
module _ (letter_or_digit : ℕ → Bool) where
  unfoldable pub is_word_rune : ℕ → Bool
  is_word_rune r =
      leb b'a' r && leb r b'z'
      || leb b'A' r && leb r b'Z'
      || leb b'0' r && leb r b'9'
      || r == b'_'
      || leb 0x80 r && letter_or_digit r

-- The inner loops of `tokenize`: from byte `i` over the runes that pass the test. Every round moves
-- on by a byte or more, so as many rounds as there are bytes are enough.
unfoldable pub run_end : (ℕ → Bool) → Bytes → ℕ → ℕ → ℕ
run_end test s zero i = i
run_end test s (suc fuel) i =
    let (r, size) = decode_rune (drop i s) in
    let next = run_end test s fuel (i + size) in if ltb i (length s) && test r then next else i

unfoldable pub token_of : Bytes → ℕ → ℕ → WordToken
token_of s start end = record { hash = fnv_hash s start end; start = start; end = end }

module _ (letter_or_digit : ℕ → Bool) where
  -- Where the token that starts at byte `i` ends.
  unfoldable pub token_end : Bytes → ℕ → ℕ
  unfolding run_end is_word_rune is_whitespace_rune
  token_end s i =
      let (r, size) = decode_rune (drop i s) in
      if is_word_rune letter_or_digit r
      then run_end (is_word_rune letter_or_digit) s (length s) (i + size)
      else if is_whitespace_rune r
      then run_end is_whitespace_rune s (length s) (i + size)
      else i + size

  -- The outer loop, with the tokens so far counted; `false` is the tripped circuit breaker.
  unfoldable pub tokenize_from : Bytes → ℕ → ℕ → ℕ → List WordToken × Bool
  unfolding token_end token_of
  tokenize_from s zero i count = ([], true)
  tokenize_from s (suc fuel) i count =
      let stop = token_end s i in
      let (rest, fits) = tokenize_from s fuel stop (suc count) in
      if ltb i (length s)
      then (if leb max_tokens_per_line count then ([], false) else (token_of s i stop ∷ rest, fits))
      else ([], true)

  unfoldable pub tokenize : Bytes → List WordToken × Bool
  unfolding tokenize_from
  tokenize s = tokenize_from s (length s) 0 0
