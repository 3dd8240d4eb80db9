-- ===== src/Serialize/Moves/Crossing/Answer.antt =====
-- What the index answers.
use diffmantic.Base.{
  ℕ, zero, suc, ◌+◌, ◌-◌, ◌/◌, ◌≤◌, ◌<◌, ◌≡◌, ◌↔◌, inl, inr, ap, arith, Bool, true, ◌&&◌, ◌||◌,
  List, ltb, ◌==◌, if◌then◌else◌, length, get_or, Bool-cases, dec_lt, ℕ_discrete, ltb→lt, ltb→ge,
}
use diffmantic.Engine.LineDiff.Patience.{LinePair}
use diffmantic.Serialize.Moves.Crossing.{
  sort_stmts, prefix_max, suffix_min, new_stationary_index, search_stmts, crosses,
}
use diffmantic.Serialize.Moves.Crossing.Exact.{
  AnyCrosses, IsMap, IsRisingSrc, sort_stmts-IsRisingSrc, AnyCrosses-sort_stmts,
}
use diffmantic.Serialize.Moves.Crossing.Extrema.{
  at, rising_between, prefix_max-ge, prefix_max-reached, suffix_min-le, suffix_min-reached,
  AnyCrosses-at, at-AnyCrosses,
}

module _ (xs : List LinePair) (r : IsRisingSrc 0 xs) (s : ℕ) where
  -- The statements below are before line `s`, and the others are not.
  abbrev Splits : ℕ → Type 0
  Splits low =
      (low ≤ length xs)
      × ((k : ℕ) → k < low → (at xs k).i < s)
      × ((k : ℕ) → low ≤ k → k < length xs → s ≤ (at xs k).i)

  src_le : (k k' : ℕ) → k ≤ k' → k' < length xs → (at xs k).i ≤ (at xs k').i
  src_le k k' h inside = elim (dec_lt k k') [
    | yes lt ↦ omega (arith, rising_between 0 xs k k' r lt inside)
    | no ge ↦
        let same : k ≡ k' = omega arith in
        let value : (at xs k).i ≡ (at xs k').i = ap (λ n. (at xs n).i) same in omega arith
  ]

  search_stmts-Splits :
      (fuel low high : ℕ)
      → high ≤ low + fuel
      → low ≤ high
      → high ≤ length xs
      → ((k : ℕ) → k < low → (at xs k).i < s)
      → ((k : ℕ) → high ≤ k → k < length xs → s ≤ (at xs k).i)
      → Splits (search_stmts xs s fuel low high)
  unfolding search_stmts
  search_stmts-Splits zero low high f o b below above =
      (omega arith, below, λ k h h'. above k (omega arith) h')
  search_stmts-Splits (suc fuel) low high f o b below above =
      let mid = (low + high) / 2 in
      elim (Bool-cases (ltb low high)) [
        | inr ended ↦
            let ge = ltb→ge low high ended in
            rw ended (omega arith, below, λ k h h'. above k (omega arith) h')
        | inl open_range ↦
            let lt = ltb→lt low high open_range in
            elim (Bool-cases (ltb (at xs mid).i s)) [
              | inl less ↦
                  let smaller = ltb→lt _ _ less in
                  rw (open_range, less)
                    (search_stmts-Splits fuel (mid + 1) high (omega arith) (omega arith) b
                      (λ k h. omega (arith, src_le k mid (omega arith) (omega arith))) above)
              | inr not_less ↦
                  let larger = ltb→ge _ _ not_less in
                  rw (open_range, not_less)
                    (search_stmts-Splits fuel low mid (omega arith) (omega arith) (omega arith)
                      below (λ k h h'. omega (arith, src_le mid k h h')))
            ]
      ]

  module _ (d pos : ℕ) (split : Splits pos) where
    -- An earlier statement that lands behind `d`.
    earlier_crosses :
        0 < pos → d < get_or (prefix_max (at xs 0).j xs) (pos - 1) 0 → AnyCrosses s d xs
    earlier_crosses h less =
        let (size, before, behind) = split in
        elim (prefix_max-reached d (at xs 0).j xs (pos - 1) (omega arith) less) [
          | inl lt ↦ AnyCrosses-at s d xs 0 (omega arith) (inl (before 0 h, lt))
          | inr (k, (le, lt)) ↦
              AnyCrosses-at s d xs k (omega arith) (inl (before k (omega arith), lt))
        ]

    -- A later statement that lands before `d`.
    later_crosses :
        (next : ℕ)
        → ((k : ℕ) → next ≤ k → k < length xs → s < (at xs k).i)
        → next < length xs
        → get_or (suffix_min (at xs (length xs - 1)).j xs) next 0 < d
        → AnyCrosses s d xs
    later_crosses next beyond h less =
        elim (suffix_min-reached d (at xs (length xs - 1)).j xs next h less) [
          | inl lt ↦
              AnyCrosses-at s d xs (length xs - 1) (omega arith)
                (inr (beyond (length xs - 1) (omega arith) (omega arith), lt))
          | inr (k, (le, inside, lt)) ↦ AnyCrosses-at s d xs k inside (inr (beyond k le inside, lt))
        ]

    abbrev next : ℕ
    next = if ltb pos (length xs) && (at xs pos).i == s then pos + 1 else pos

    -- From `next` on the statements are behind line `s`, and no other is.
    next_beyond :
        ((k : ℕ) → next ≤ k → k < length xs → s < (at xs k).i)
        × ((k : ℕ) → k < length xs → s < (at xs k).i → next ≤ k)
    next_beyond =
        let (size, before, behind) = split in
        elim (Bool-cases (ltb pos (length xs) && (at xs pos).i == s)) [
          | inl same_line ↦
              let here : (at xs pos).i ≡ s = ground arith in
              rw same_line (
                λ k le inside. omega (arith, rising_between 0 xs pos k r (omega arith) inside),
                λ k inside lt. elim (dec_lt k (pos + 1)) [
                  | no ge ↦ omega arith
                  | yes low ↦ elim (dec_lt k pos) [
                    | yes lower ↦ absurd (omega (arith, before k lower))
                    | no ge ↦ absurd (omega (arith, src_le k pos (omega arith) (ground arith)))
                  ]
                ],
              )
          | inr other_line ↦ rw other_line (
            λ k le inside. elim (ℕ_discrete k pos) [
              | yes e ↦
                  let value : (at xs k).i ≡ (at xs pos).i = ap (λ n. (at xs n).i) e in
                  let ge = behind k (omega arith) inside in ground arith
              | no ne ↦
                  let ge = behind pos (omega arith) (omega arith) in
                  omega (arith, rising_between 0 xs pos k r (omega arith) inside)
            ],
            λ k inside lt. elim (dec_lt k pos) [
              | yes lower ↦ absurd (omega (arith, before k lower))
              | no ge ↦ omega arith
            ],
          )
        ]

    abbrev answer : Bool
    answer =
        (ltb 0 pos && ltb d (get_or (prefix_max (at xs 0).j xs) (pos - 1) 0))
        || (ltb next (length xs) && ltb (get_or (suffix_min (at xs (length xs - 1)).j xs) next 0) d)

    answer_sound : answer ≡ true → AnyCrosses s d xs
    answer_sound e =
        elim (Bool-cases (ltb 0 pos && ltb d (get_or (prefix_max (at xs 0).j xs) (pos - 1) 0))) [
          | inl earlier ↦ earlier_crosses (ground arith) (ground arith)
          | inr no_earlier ↦ later_crosses next next_beyond.0 (ground arith) (ground arith)
        ]

    answer_complete : AnyCrosses s d xs → answer ≡ true
    answer_complete c =
        let (k, (inside, crossing)) = at-AnyCrosses s d xs c in
        let (size, before, behind) = split in
        elim crossing [
          | inl (src, dst) ↦ elim (dec_lt k pos) [
            | no ge ↦ absurd (omega (arith, behind k (omega arith) inside))
            | yes lt ↦
                let ge = prefix_max-ge (at xs 0).j xs (pos - 1) k (omega arith) (omega arith) in
                ground arith
          ]
          | inr (src, dst) ↦
              let le = next_beyond.1 k inside src in
              let bound = suffix_min-le (at xs (length xs - 1)).j xs next k le inside in
              ground arith
        ]

sorted_answer :
    (xs : List LinePair) (r : IsRisingSrc 0 xs) (s d : ℕ)
    → crosses
          (record {
            stmts = xs;
            prefix_max_d = prefix_max (at xs 0).j xs;
            suffix_min_d = suffix_min (at xs (length xs - 1)).j xs;
          })
          s
          d
        ≡ true
      ↔ AnyCrosses s d xs
unfolding crosses
sorted_answer xs r s d =
    let pos = search_stmts xs s (length xs) 0 (length xs) in
    let split =
      search_stmts-Splits xs r s (length xs) 0 (length xs) (omega arith) (omega arith) (omega arith)
        (λ k h. absurd (omega arith)) (λ k h h'. absurd (omega arith)) in
    elim (Bool-cases (length xs == 0)) [
      | inl empty ↦ rw empty (
        λ e. absurd (ground arith),
        λ c. let (k, (inside, crossing)) = at-AnyCrosses s d xs c in absurd (ground arith),
      )
      | inr full ↦ rw full (answer_sound xs r s d pos split, answer_complete xs r s d pos split)
    ]

-- For statements of different source lines: `crosses` of their index, with its binary search, prefix
-- maxima and suffix minima, says of a match of two lines whether one of the statements crosses it.
pub crosses_lem :
    (statements : List LinePair) (s d : ℕ)
    → IsMap statements
    → crosses (new_stationary_index statements) s d ≡ true ↔ AnyCrosses s d statements
unfolding new_stationary_index
crosses_lem statements s d m =
    let (to, from) =
      sorted_answer (sort_stmts statements) (sort_stmts-IsRisingSrc statements m) s d in
    let (down, up) = AnyCrosses-sort_stmts s d statements in (λ e. down (to e), λ c. from (up c))
