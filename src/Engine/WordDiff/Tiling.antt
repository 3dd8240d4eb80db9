-- ===== src/Engine/WordDiff/Tiling.antt =====
-- The tokens of a line lie end to end and cover it.
use diffmantic.Base.{
  ℕ, zero, suc, ◌+◌, ◌≤◌, ◌<◌, ◌≡◌, refl, Bool, true, List, [], ◌∷◌, arith, ltb, leb, ◌==◌, ◌&&◌,
  &&-split, if◌then◌else◌, length, drop, length-drop, Bool-cases, inl, inr, ltb→lt, ltb→ge,
}
use diffmantic.Engine.WordDiff.Tokens.{
  Bytes, WordToken, decode2, decode3, decode4, decode_rune, run_end, token_end, tokenize_from,
  tokenize, max_tokens_per_line, is_word_rune, is_whitespace_rune,
}

decode2-size : (b : ℕ) (s : Bytes) → (0 < (decode2 b s).1) × ((decode2 b s).1 ≤ suc (length s))
unfolding decode2
decode2-size b [] = omega arith
decode2-size b (c ∷ s) = ground arith

decode3-size :
    (lo hi b : ℕ) (s : Bytes)
    → (0 < (decode3 lo hi b s).1) × ((decode3 lo hi b s).1 ≤ suc (length s))
unfolding decode3
decode3-size lo hi b [] = omega arith
decode3-size lo hi b (c ∷ []) = omega arith
decode3-size lo hi b (c ∷ d ∷ s) = ground arith

decode4-size :
    (lo hi b : ℕ) (s : Bytes)
    → (0 < (decode4 lo hi b s).1) × ((decode4 lo hi b s).1 ≤ suc (length s))
unfolding decode4
decode4-size lo hi b [] = omega arith
decode4-size lo hi b (c ∷ []) = omega arith
decode4-size lo hi b (c ∷ d ∷ []) = omega arith
decode4-size lo hi b (c ∷ d ∷ e ∷ s) = ground arith

-- A rune takes at least one byte and no more than there are.
decode_rune-size :
    (s : Bytes) → 0 < length s → (0 < (decode_rune s).1) × ((decode_rune s).1 ≤ length s)
unfolding decode_rune
decode_rune-size [] h = absurd (omega arith)
decode_rune-size (b ∷ s) h = ground (
  arith,
  decode2-size b s,
  decode3-size (if b == 0xE0 then 0xA0 else 0x80) (if b == 0xED then 0x9F else 0xBF) b s,
  decode4-size (if b == 0xF0 then 0x90 else 0x80) (if b == 0xF4 then 0x8F else 0xBF) b s,
)

-- The rune at byte `i` moves on, and not past the end.
step_in_range :
    (s : Bytes) (i : ℕ)
    → i < length s
    → (i < i + (decode_rune (drop i s)).1) × (i + (decode_rune (drop i s)).1 ≤ length s)
step_in_range s i h =
    let len = length-drop i s in
    let (pos, fits) = decode_rune-size (drop i s) (omega (arith, len)) in omega (arith, len)

run_end_in_range :
    (test : ℕ → Bool) (s : Bytes) (fuel i : ℕ)
    → i ≤ length s
    → (i ≤ run_end test s fuel i) × (run_end test s fuel i ≤ length s)
unfolding run_end
run_end_in_range test s zero i h = omega arith
run_end_in_range test s (suc fuel) i h =
    elim (Bool-cases (ltb i (length s) && test (decode_rune (drop i s)).0)) [
      | inl more ↦
          let (inside, _) = &&-split _ _ more in
          let (moves, fits) = step_in_range s i (ltb→lt _ _ inside) in
          rw more (
            let (low, high) = run_end_in_range test s fuel (i + (decode_rune (drop i s)).1) fits in
            omega arith)
      | inr done ↦ rw done (omega arith)
    ]

-- The tokens lie end to end from byte `lo` to byte `n`, and none is empty.
abbrev pub IsTiling : ℕ → ℕ → List WordToken → Type 0
IsTiling n lo [] = lo ≡ n
IsTiling n lo (t ∷ ts) = (t.start ≡ lo) × (lo < t.end) × (t.end ≤ n) × IsTiling n t.end ts

module _ (letter_or_digit : ℕ → Bool) where
  token_end_in_range :
      (s : Bytes) (i : ℕ)
      → i < length s
      → (i < token_end letter_or_digit s i) × (token_end letter_or_digit s i ≤ length s)
  unfolding token_end
  token_end_in_range s i h =
      let (moves, fits) = step_in_range s i h in
      let next = i + (decode_rune (drop i s)).1 in
      ground (
        arith,
        run_end_in_range (is_word_rune letter_or_digit) s (length s) next fits,
        run_end_in_range is_whitespace_rune s (length s) next fits,
      )

  tokenize_from-IsTiling :
      (s : Bytes) (fuel i count : ℕ)
      → i ≤ length s
      → length s ≤ i + fuel
      → (tokenize_from letter_or_digit s fuel i count).1 ≡ true
      → IsTiling (length s) i (tokenize_from letter_or_digit s fuel i count).0
  unfolding tokenize_from
  tokenize_from-IsTiling s zero i count h k ok = omega arith
  tokenize_from-IsTiling s (suc fuel) i count h k ok = elim (Bool-cases (ltb i (length s))) [
    | inl more ↦
        let (moves, fits) = token_end_in_range s i (ltb→lt _ _ more) in
        elim (Bool-cases (leb max_tokens_per_line count)) [
          | inl tripped ↦ absurd (ground arith)
          | inr room ↦
              rw (more, room)
                (
                  refl,
                  moves,
                  fits,
                  tokenize_from-IsTiling s fuel (token_end letter_or_digit s i) (suc count) fits
                      (omega arith) (rw (more, room) at ok),
                )
        ]
    | inr done ↦ rw done (omega (arith, ltb→ge _ _ done))
  ]

  -- Unless the circuit breaker trips, the tokens of a line cover it without a gap.
  pub tokenize-IsTiling :
      (s : Bytes)
      → (tokenize letter_or_digit s).1 ≡ true
      → IsTiling (length s) 0 (tokenize letter_or_digit s).0
  unfolding tokenize
  tokenize-IsTiling s ok = tokenize_from-IsTiling s (length s) 0 0 (omega arith) (omega arith) ok
