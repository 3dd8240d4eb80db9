-- ===== src/Serialize/Anchors/Monotonic.antt =====
-- filterMonotonic returns a rising sequence of its candidates.
use diffmantic.Base.{
  ℕ, zero, suc, ◌+◌, ◌≤◌, ◌<◌, ◌≡◌, sym, ap, ◌∙◌, subst, arith, ◌&&◌, none, List, [], ◌∷◌, ltb, leb,
  ◌==◌, length, get_or, replicate, inl, inr, Bool-cases, dec_lt, leb→le, leb→gt,
}
use diffmantic.Engine.LineDiff.Patience.{no_pair, LisState, search_tails}
use diffmantic.Engine.LineDiff.Patience.Chains.{right_of, RisingTo, tail, IsLisState}
use diffmantic.Engine.LineDiff.Patience.Longest.{lis_step-IsLisState, start-IsLisState}
use diffmantic.Engine.LineDiff.Patience.Sequence.{
  IsRisingPairs, AreCandidates, RisesWith, read_off, some_tail,
}
use diffmantic.Serialize.Grid.{Anchor}
use diffmantic.Serialize.Grid.Listed.{RisingAnchors, RisingAnchors-raise}
use diffmantic.Serialize.Anchors.{
  sort_anchors, compact, filter_step, filter_loop, longest_chain, filter_monotonic,
}
use diffmantic.Serialize.Anchors.Sorted.{
  IsWithin, sort_anchors-IsSorted, sort_anchors-IsWithin, compact-IsSorted, compact-IsWithin,
  IsSorted-RisesWith,
}

module _ (cands : List Anchor) where
  reach-le-found :
      (s : LisState) (idx low l : ℕ)
      → IsLisState cands idx s
      → low < length s.tails
      → right_of cands (tail cands s low) ≡ right_of cands idx
      → RisingTo cands l idx
      → l ≤ low
  unfolding RisingTo
  reach-le-found s idx low zero v inside same r = omega arith
  reach-le-found s idx low (suc l) v inside same (p, lt, less, r) =
      let (reached, le) = v.best l p lt r in
      elim (dec_lt l low) [
        | yes h ↦ h
        | no h ↦ absurd (elim (dec_lt low l) [
          | yes above ↦ omega (arith, v.sorted low l above reached)
          | no at_low ↦
              let here : low ≡ l = omega arith in
              let value : right_of cands (tail cands s low) ≡ right_of cands (tail cands s l) =
                ap (λ k. right_of cands (tail cands s k)) here in
              omega arith
        ])
      ]

  found-le :
      (s : LisState) (idx low l : ℕ)
      → IsLisState cands idx s
      → low < length s.tails
      → l ≤ low
      → right_of cands (tail cands s l) ≤ right_of cands (tail cands s low)
  found-le s idx low l v inside h = elim (dec_lt l low) [
    | yes lt ↦ omega (arith, v.sorted l low lt inside)
    | no ge ↦
        let here : low ≡ l = omega arith in
        let value : right_of cands (tail cands s low) ≡ right_of cands (tail cands s l) =
          ap (λ k. right_of cands (tail cands s k)) here in
        omega arith
  ]

  -- A candidate whose target line ends a sequence already gives no better one.
  found-IsLisState :
      (s : LisState) (idx low : ℕ)
      → IsLisState cands idx s
      → low < length s.tails
      → right_of cands (tail cands s low) ≡ right_of cands idx
      → IsLisState cands (suc idx) s
  unfolding RisingTo
  found-IsLisState s idx low v inside same = record {
    parents = v.parents;
    done = λ k h. omega (arith, v.done k h);
    chains = v.chains;
    sorted = v.sorted;
    best = λ l q h r. elim (dec_lt q idx) [
      | yes lt ↦ v.best l q lt r
      | no ge ↦
          let here : q ≡ idx = omega arith in
          let reach = reach-le-found s idx low l v inside same (subst (RisingTo cands l) here r) in
          let value : right_of cands q ≡ right_of cands idx = ap (right_of cands) here in
          (omega arith, omega (arith, found-le s idx low l v inside reach))
    ];
  }

  filter_step-IsLisState :
      (s : LisState) (idx : ℕ)
      → IsLisState cands idx s
      → idx < length cands
      → IsLisState cands (suc idx) (filter_step cands idx (get_or cands idx no_pair) s)
  unfolding filter_step
  filter_step-IsLisState s idx v inside =
      let low =
        search_tails cands s.tails (right_of cands idx) (length s.tails) 0 (length s.tails) in
      elim (Bool-cases (
        ltb low (length s.tails)
        && (get_or cands (get_or s.tails low 0) no_pair).j == right_of cands idx)) [
          | inl found ↦ rw found (found-IsLisState s idx low v (ground arith) (ground arith))
          | inr other ↦ rw other (lis_step-IsLisState cands s idx v inside)
        ]

  filter_loop-IsLisState :
      (ps : List Anchor) (s : LisState) (idx : ℕ)
      → ((k : ℕ) → get_or ps k no_pair ≡ get_or cands (idx + k) no_pair)
      → idx + length ps ≡ length cands
      → IsLisState cands idx s
      → IsLisState cands (length cands) (filter_loop cands idx ps s)
  unfolding filter_loop
  filter_loop-IsLisState [] s idx h e v =
      let same : idx ≡ length cands = omega arith in subst (λ n. IsLisState cands n s) same v
  filter_loop-IsLisState (p ∷ ps) s idx h e v =
      let here : idx + 0 ≡ idx = omega arith in
      let this : get_or cands idx no_pair ≡ p = sym (h 0 ∙ ap (λ k. get_or cands k no_pair) here) in
      filter_loop-IsLisState ps (filter_step cands idx p s) (suc idx)
        (λ k.
          let next : idx + suc k ≡ suc idx + k = omega arith in
          h (suc k) ∙ ap (λ n. get_or cands n no_pair) next)
        (omega arith)
        (subst (λ q. IsLisState cands (suc idx) (filter_step cands idx q s)) this
          (filter_step-IsLisState s idx v (omega arith)))

  longest_chain-rising :
      0 < length cands
      → RisesWith cands
      → IsRisingPairs 0 0 (longest_chain cands) × AreCandidates cands (longest_chain cands)
  unfolding longest_chain
  longest_chain-rising inside rises =
      let start : LisState = record { tails = []; parent = replicate (length cands) none } in
      let v =
        filter_loop-IsLisState cands start 0
          (λ k. let e : k ≡ 0 + k = omega arith in ap (λ n. get_or cands n no_pair) e) (omega arith)
          (start-IsLisState cands) in
      let s = filter_loop cands 0 cands start in
      let (n, e) = some_tail cands s v inside in
      let (rising, members, size) = read_off cands s v inside rises n e in (rising, members)

IsWithin-at :
    (m n : ℕ) (xs : List Anchor) (k : ℕ)
    → IsWithin m n xs
    → k < length xs
    → ((get_or xs k no_pair).i < m) × ((get_or xs k no_pair).j < n)
IsWithin-at m n [] k w h = absurd (omega arith)
IsWithin-at m n (a ∷ xs) zero (p, q, w) h = (p, q)
IsWithin-at m n (a ∷ xs) (suc k) (p, q, w) h = IsWithin-at m n xs k w (omega arith)

rising_within :
    (m n : ℕ) (cands ps : List Anchor) (lo_i lo_j : ℕ)
    → lo_i ≤ m
    → lo_j ≤ n
    → IsWithin m n cands
    → AreCandidates cands ps
    → IsRisingPairs lo_i lo_j ps
    → RisingAnchors lo_i m lo_j n ps
rising_within m n cands [] lo_i lo_j h k w members rising = (h, k)
rising_within m n cands (p ∷ ps) lo_i lo_j h k w ((at, inside, e), members) (a, b, rising) =
    let (below_i, below_j) = IsWithin-at m n cands at w inside in
    let bound_i : p.i < m = subst (λ x. x.i < m) e below_i in
    let bound_j : p.j < n = subst (λ x. x.j < n) e below_j in
    (
      a,
      b,
      RisingAnchors-raise (p.i + 1) (p.j + 1) (suc p.i) m (suc p.j) n ps (omega arith) (omega arith)
          (rising_within m n cands ps (suc p.i) (suc p.j) bound_i bound_j w members rising),
    )

short-RisingAnchors :
    (m n : ℕ) (xs : List Anchor) → length xs ≤ 1 → IsWithin m n xs → RisingAnchors 0 m 0 n xs
short-RisingAnchors m n [] h w = (omega arith, omega arith)
short-RisingAnchors m n (a ∷ []) h (p, q, w) =
    (omega arith, omega arith, (omega arith, omega arith))
short-RisingAnchors m n (a ∷ (b ∷ xs)) h w = absurd (omega arith)

-- For candidates within `m` source and `n` target lines, in whatever order and however often:
-- `filterMonotonic` returns candidates whose lines rise strictly on both sides.
pub filter_monotonic-RisingAnchors :
    (m n : ℕ) (cands : List Anchor)
    → IsWithin m n cands
    → RisingAnchors 0 m 0 n (filter_monotonic cands)
unfolding filter_monotonic
filter_monotonic-RisingAnchors m n cands w =
    let sorted = compact (sort_anchors cands) in
    let within : IsWithin m n sorted =
      compact-IsWithin m n (sort_anchors cands) (sort_anchors-IsWithin m n cands w) in
    elim (Bool-cases (leb (length sorted) 1)) [
      | inl short ↦ rw short (short-RisingAnchors m n sorted (leb→le _ 1 short) within)
      | inr long ↦
          let size = leb→gt _ 1 long in
          let (rising, members) = longest_chain-rising sorted (omega arith) (
            IsSorted-RisesWith sorted
              (compact-IsSorted (sort_anchors cands) (sort_anchors-IsSorted cands))) in
          rw long (
            rising_within m n sorted (longest_chain sorted) 0 0 (omega arith) (omega arith) within
              members rising)
    ]
