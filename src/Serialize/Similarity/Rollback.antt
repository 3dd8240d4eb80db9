-- ===== src/Serialize/Similarity/Rollback.antt =====
-- The counters are cleared after each call.
use diffmantic.Base.{
  ℕ, ◌+◌, ◌-◌, ◌≡◌, ◌⊎◌, inl, inr, arith, true, ◌||◌, List, [], ◌∷◌, ◌++◌, ltb, ◌==◌, length,
  Bool-cases, ◌*◌, ap, ==→eq,
}
use diffmantic.Engine.WordDiff.Tokens.{Bytes}
use diffmantic.Engine.WordDiff.Diff.{equal_bytes}
use diffmantic.Engine.LineDiff.Marking.{mem}
use diffmantic.Serialize.Similarity.{
  AlignScratch, set_count, bigram, accumulate, intersect, roll_back, calculate_similarity,
}

abbrev pub IsClear : AlignScratch → Type 0
IsClear s = (k : ℕ) → s.bigrams k ≡ 0

-- A counter that is not 0 is on the list.
abbrev AreTouched : List ℕ → (ℕ → ℕ) → Type 0
AreTouched touched counts = (k : ℕ) → (counts k ≡ 0) ⊎ (mem k touched ≡ true)

mem-last : (k bg : ℕ) (xs : List ℕ) → mem k (xs ++ bg ∷ []) ≡ (mem k xs || k == bg)
mem-last k bg [] = ground arith
mem-last k bg (x ∷ xs) = ground (arith, mem-last k bg xs)

AreTouched-more :
    (touched : List ℕ) (counts : ℕ → ℕ) (bg n : ℕ)
    → AreTouched touched counts
    → AreTouched (touched ++ bg ∷ []) (set_count counts bg n)
unfolding set_count
AreTouched-more touched counts bg n t k = ground (arith, t k, mem-last k bg touched)

AreTouched-kept :
    (touched : List ℕ) (counts : ℕ → ℕ) (bg : ℕ)
    → AreTouched touched counts
    → AreTouched (touched ++ bg ∷ []) counts
AreTouched-kept touched counts bg t k = ground (arith, t k, mem-last k bg touched)

accumulate-AreTouched :
    (a : Bytes) (s : AlignScratch)
    → AreTouched s.touched s.bigrams
    → AreTouched (accumulate a s).touched (accumulate a s).bigrams
unfolding accumulate
accumulate-AreTouched [] s t = t
accumulate-AreTouched (c ∷ []) s t = t
accumulate-AreTouched (c ∷ (d ∷ a)) s t = elim (Bool-cases (ltb (s.bigrams (bigram c d)) 255)) [
  | inl below ↦
      rw (accumulate, below)
        (accumulate-AreTouched (d ∷ a) _ (AreTouched-more s.touched s.bigrams (bigram c d) _ t))
  | inr full ↦
      rw (accumulate, full)
        (accumulate-AreTouched (d ∷ a) _ (AreTouched-kept s.touched s.bigrams (bigram c d) t))
]

AreTouched-lower :
    (touched : List ℕ) (counts : ℕ → ℕ) (bg : ℕ)
    → AreTouched touched counts
    → AreTouched touched (set_count counts bg (counts bg - 1))
unfolding set_count
AreTouched-lower touched counts bg t k = elim (Bool-cases (k == bg)) [
  | inl here ↦
      let value : counts k ≡ counts bg = ap counts (==→eq k bg here) in
      rw here (ground (arith, t k))
  | inr other ↦ rw other (t k)
]

intersect-AreTouched :
    (b : Bytes) (touched : List ℕ) (counts : ℕ → ℕ) (shared : ℕ)
    → AreTouched touched counts
    → AreTouched touched (intersect b counts shared).0
unfolding intersect
intersect-AreTouched [] touched counts shared t = t
intersect-AreTouched (c ∷ []) touched counts shared t = t
intersect-AreTouched (c ∷ (d ∷ b)) touched counts shared t =
    elim (Bool-cases (ltb 0 (counts (bigram c d)))) [
      | inl found ↦
          rw (intersect, found)
            (intersect-AreTouched (d ∷ b) touched _ (shared + 1)
              (AreTouched-lower touched counts (bigram c d) t))
      | inr missed ↦ rw (intersect, missed) (intersect-AreTouched (d ∷ b) touched counts shared t)
    ]

roll_back-clear :
    (touched : List ℕ) (counts : ℕ → ℕ)
    → AreTouched touched counts
    → (k : ℕ) → roll_back touched counts k ≡ 0
unfolding roll_back set_count
roll_back-clear [] counts t k = ground (arith, t k)
roll_back-clear (bg ∷ touched) counts t k =
    roll_back-clear touched (set_count counts bg 0) (λ j. ground (arith, t j)) k

-- Whatever the two texts: with all counters 0 before, `calculateSimilarity` leaves all counters 0,
-- on each of its returns.
pub calculate_similarity-IsClear :
    (a b : Bytes) (scratch : AlignScratch)
    → IsClear scratch
    → IsClear (calculate_similarity a b scratch).0
unfolding calculate_similarity
calculate_similarity-IsClear a b scratch clear =
    let la = length a in
    let lb = length b in
    let s = accumulate a (record { bigrams = scratch.bigrams; touched = [] }) in
    let counted =
      intersect-AreTouched b s.touched s.bigrams 0
        (accumulate-AreTouched a _ (λ k. inl (clear k))) in
    elim (Bool-cases (equal_bytes a b)) [
      | inl same ↦ rw same clear
      | inr differ ↦ rw differ (elim (Bool-cases (ltb la 2 || ltb lb 2)) [
        | inl short ↦ rw short clear
        | inr long ↦ rw long (elim (Bool-cases (ltb (3 * lb) la || ltb (3 * la) lb)) [
          | inl far ↦ rw far clear
          | inr near ↦ rw near (roll_back-clear s.touched (intersect b s.bigrams 0).0 counted)
        ])
      ])
    ]
