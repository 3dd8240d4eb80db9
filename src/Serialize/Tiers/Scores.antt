-- ===== src/Serialize/Tiers/Scores.antt =====
-- The score of two lines is bounded: calculateSimilarity counts no more than the texts have.
use diffmantic.Base.{
  ℕ, ◌+◌, ◌-◌, ◌∷◌, ltb, ◌||◌, arith, true, false, get_or, [], leb, ◌&&◌, ◌*◌, ◌<◌, ◌≤◌, Bool, List,
  length, if◌then◌else◌, inl, inr, Bool-cases,
}
use diffmantic.Base.Int.{ℤ, pos, negsuc, ◌≤ℤ◌, ◌+ℤ◌, sum_parts, leb_ℤ}
use diffmantic.Engine.WordDiff.Tokens.{Bytes}
use diffmantic.Engine.WordDiff.Diff.{equal_bytes}
use diffmantic.Serialize.Similarity.{
  AlignScratch, set_count, bigram, accumulate, intersect, calculate_similarity,
}
use diffmantic.Serialize.Tiers.{
  TreeMatches, line_match_score, mapped_bonus, similarity_score, fresh_scratch, src_trim, dst_trim,
}

-- The second text has at least as many bigrams as are shared.
intersect-shared_le :
    (b : Bytes) (counts : ℕ → ℕ) (shared : ℕ)
    → (intersect b counts shared).1 ≤ shared + (length b - 1)
unfolding intersect
intersect-shared_le [] counts shared = omega arith
intersect-shared_le (c ∷ []) counts shared = omega arith
intersect-shared_le (c ∷ (d ∷ b)) counts shared =
    let bg = bigram c d in
    let found = intersect-shared_le (d ∷ b) (set_count counts bg (counts bg - 1)) (shared + 1) in
    let missed = intersect-shared_le (d ∷ b) counts shared in
    elim (Bool-cases (ltb 0 (counts bg))) [
      | inl some_left ↦ rw some_left (omega (arith, found))
      | inr none_left ↦ rw none_left (omega (arith, missed))
    ]

-- The terms of the quotient that the similarity is.
similarity-terms :
    (a b : Bytes) (scratch : AlignScratch)
    → (0 < (calculate_similarity a b scratch).2)
      × ((calculate_similarity a b scratch).1 ≤ 2 * (calculate_similarity a b scratch).2)
unfolding calculate_similarity
similarity-terms a b scratch =
    let counts = (accumulate a (record { bigrams = scratch.bigrams; touched = [] })).bigrams in
    elim (Bool-cases (equal_bytes a b)) [
      | inl same ↦ rw same (omega arith, omega arith)
      | inr differ ↦ rw differ (elim (Bool-cases (ltb (length a) 2 || ltb (length b) 2)) [
        | inl short ↦ rw short (omega arith, omega arith)
        | inr long ↦
            rw long
              (elim (Bool-cases (ltb (3 * length b) (length a) || ltb (3 * length a) (length b))) [
                | inl unlike ↦ rw unlike (omega arith, omega arith)
                | inr like ↦
                    let few = intersect-shared_le b counts 0 in
                    rw like (ground (arith, long), omega (arith, few))
              ])
      ])
    ]

-- The sum of a bonus and the value of a line.
sum_le : (a b : ℤ) (x y : ℕ) → a ≤ℤ pos x → b ≤ℤ pos y → (a +ℤ b) ≤ℤ pos (x + y)
sum_le a b x y h k = omega (arith, sum_parts a b)

sum_le_65 : (a b : ℤ) → a ≤ℤ pos 30 → b ≤ℤ pos 35 → (a +ℤ b) ≤ℤ pos 65
sum_le_65 a b h k = sum_le a b 30 35 h k

-- Whatever the tests of the two lines give.
cases_le :
    (mismatch no_text blank equal same short mapped : Bool) (similar bonus : ℤ)
    → similar ≤ℤ pos 40
    → bonus ≤ℤ pos 35
    → (if mismatch
        then negsuc 999
        else if no_text
        then pos 10
        else if blank
        then negsuc 19
        else if equal
        then (if short then pos 2 else pos 30) +ℤ bonus
        else if same
        then (if short then pos 2 else pos 25) +ℤ bonus
        else if mapped
        then bonus
        else similar +ℤ negsuc 9 +ℤ bonus)
      ≤ℤ pos 65
cases_le true no_text blank equal same short mapped similar bonus h k = omega arith
cases_le false true blank equal same short mapped similar bonus h k = omega arith
cases_le false false true equal same short mapped similar bonus h k = omega arith
cases_le false false false true same true mapped similar bonus h k =
    sum_le_65 (pos 2) bonus (omega arith) k
cases_le false false false true same false mapped similar bonus h k =
    sum_le_65 (pos 30) bonus (omega arith) k
cases_le false false false false true true mapped similar bonus h k =
    sum_le_65 (pos 2) bonus (omega arith) k
cases_le false false false false true false mapped similar bonus h k =
    sum_le_65 (pos 25) bonus (omega arith) k
cases_le false false false false false short true similar bonus h k = omega (arith, k)
cases_le false false false false false short false similar bonus h k =
    sum_le_65 (similar +ℤ negsuc 9) bonus (omega (arith, h, sum_parts similar (negsuc 9))) k

module _ (is_punctuation : Bytes → Bool) (rounded : ℕ → ℕ → ℕ) (src_lines dst_lines : List Bytes)
    (t : TreeMatches) where
  similarity_score_le :
      ((x y : ℕ) → 0 < y → x ≤ 2 * y → rounded x y ≤ 40)
      → (a b : Bytes) → similarity_score is_punctuation rounded src_lines dst_lines t a b ≤ℤ pos 40
  unfolding similarity_score
  similarity_score_le bounded a b =
      let (some_terms, few) = similarity-terms a b fresh_scratch in
      omega (arith, bounded _ _ some_terms few)

  mapped_bonus_le :
      (s d : ℕ) → mapped_bonus is_punctuation rounded src_lines dst_lines t s d ≤ℤ pos 35
  unfolding mapped_bonus
  mapped_bonus_le s d = ground arith

  -- No score is over that of two equal lines that are mapped to each other.
  pub line_match_score-IsBounded :
      ((x y : ℕ) → 0 < y → x ≤ 2 * y → rounded x y ≤ 40)
      → (s d : ℕ) → line_match_score is_punctuation rounded src_lines dst_lines t s d ≤ℤ pos 65
  unfolding line_match_score
  line_match_score-IsBounded similar s d =
      let s_text = src_trim src_lines dst_lines s in
      cases_le _ _ _ (equal_bytes (get_or src_lines s []) (get_or dst_lines d []))
        (equal_bytes s_text (dst_trim src_lines dst_lines d))
        (leb (length s_text) 5 && is_punctuation s_text)
        (leb_ℤ (pos 1) (mapped_bonus is_punctuation rounded src_lines dst_lines t s d))
        (similarity_score is_punctuation rounded src_lines dst_lines t s_text
          (dst_trim src_lines dst_lines d))
        _ (similarity_score_le similar s_text (dst_trim src_lines dst_lines d))
        (mapped_bonus_le s d)
