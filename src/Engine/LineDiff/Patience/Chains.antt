-- ===== src/Engine/LineDiff/Patience/Chains.antt =====
-- The state of `computeLIS`: every tail ends a rising chain of its length, and no rising chain of
-- that length ends lower.
use diffmantic.Base.{
  ℕ, zero, suc, ◌+◌, ◌/◌, ◌≤◌, ◌<◌, ◌≡◌, ◌≢◌, refl, ap, subst, ◌∙◌, Option, none, some, List, [],
  ◌∷◌, ◌++◌, arith, ltb, ◌==◌, if◌then◌else◌, length, get_or, set, length-set, length-append,
  get_or-set_self, get_or-set_ne, Bool-cases, inl, inr, ltb→lt, ltb→ge, ==→eq, dec_lt,
  get_or-append_left,
}
use diffmantic.Engine.LineDiff.Patience.{LinePair, no_pair, LisState, search_tails}

get_or-append_here : (xs : List ℕ) (y d : ℕ) → get_or (xs ++ y ∷ []) (length xs) d ≡ y
get_or-append_here [] y d = refl
get_or-append_here (x ∷ xs) y d = get_or-append_here xs y d

module _ (candidates : List LinePair) where
  -- The line of the right side of a candidate.
  abbrev pub right_of : ℕ → ℕ
  right_of k = (get_or candidates k no_pair).j

  -- The parents lead from a candidate over `l` others, each earlier and lower than the last.
  unfoldable pub Chain : List (Option ℕ) → ℕ → ℕ → Type 0
  Chain parent zero q = Unit {0}
  Chain parent (suc l) q =
      (p : ℕ) × (get_or parent q none ≡ some p)
      × (p < q)
      × (right_of p < right_of q)
      × Chain parent l p

  -- There is such a chain, whatever the parents are.
  unfoldable pub RisingTo : ℕ → ℕ → Type 0
  RisingTo zero q = Unit {0}
  RisingTo (suc l) q = (p : ℕ) × (p < q) × (right_of p < right_of q) × RisingTo l p

  abbrev pub tail : LisState → ℕ → ℕ
  tail s k = get_or s.tails k 0

  pub record IsLisState (idx : ℕ) (s : LisState) : Type 0 where
    pub parents : length s.parent ≡ length candidates
    pub done : (k : ℕ) → k < length s.tails → tail s k < idx
    pub chains : (k : ℕ) → k < length s.tails → Chain s.parent k (tail s k)
    pub sorted :
        (k k' : ℕ) → k < k' → k' < length s.tails → right_of (tail s k) < right_of (tail s k')
    pub best :
        (l q : ℕ)
        → q < idx
        → RisingTo l q
        → (l < length s.tails) × (right_of (tail s l) ≤ right_of q)

  -- What the binary search finds: the tails below are lower, and the others are not.
  abbrev pub Splits : List ℕ → ℕ → ℕ → Type 0
  Splits tails x low =
      (low ≤ length tails)
      × ((k : ℕ) → k < low → right_of (get_or tails k 0) < x)
      × ((k : ℕ) → low ≤ k → k < length tails → x ≤ right_of (get_or tails k 0))

  pub search_tails-Splits :
      (tails : List ℕ) (x fuel low high : ℕ)
      → ((k k' : ℕ)
          → k < k'
          → k' < length tails
          → right_of (get_or tails k 0) < right_of (get_or tails k' 0))
      → high ≤ low + fuel
      → low ≤ high
      → high ≤ length tails
      → ((k : ℕ) → k < low → right_of (get_or tails k 0) < x)
      → ((k : ℕ) → high ≤ k → k < length tails → x ≤ right_of (get_or tails k 0))
      → Splits tails x (search_tails candidates tails x fuel low high)
  unfolding search_tails
  search_tails-Splits tails x zero low high sorted f o b below above =
      (omega arith, below, λ k h h'. above k (omega arith) h')
  search_tails-Splits tails x (suc fuel) low high sorted f o b below above =
      let mid = (low + high) / 2 in
      elim (Bool-cases (ltb low high)) [
        | inr ended ↦
            let ge = ltb→ge low high ended in
            rw ended (omega arith, below, λ k h h'. above k (omega arith) h')
        | inl open_range ↦
            let lt = ltb→lt low high open_range in
            elim (Bool-cases (ltb (right_of (get_or tails mid 0)) x)) [
              | inl less ↦
                  let smaller = ltb→lt _ _ less in
                  rw (open_range, less)
                    (search_tails-Splits tails x fuel (mid + 1) high sorted (omega arith)
                      (omega arith) b
                      (λ k h. elim (dec_lt k mid) [
                        | yes k_lt ↦ omega (arith, sorted k mid k_lt (omega arith))
                        | no k_ge ↦
                            let same : mid ≡ k = omega arith in
                            subst (λ m. right_of (get_or tails m 0) < x) same smaller
                      ])
                      above)
              | inr not_less ↦
                  let larger = ltb→ge _ _ not_less in
                  rw (open_range, not_less)
                    (search_tails-Splits tails x fuel low mid sorted (omega arith) (omega arith)
                      (omega arith) below
                      (λ k h h'. elim (dec_lt mid k) [
                        | yes k_gt ↦ omega (arith, sorted mid k k_gt h')
                        | no k_le ↦
                            let same : mid ≡ k = omega arith in
                            subst (λ m. x ≤ right_of (get_or tails m 0)) same larger
                      ]))
            ]
      ]

  -- A parent that is set behind a chain does not change it.
  pub Chain-set :
      (parent : List (Option ℕ)) (v : Option ℕ) (idx l q : ℕ)
      → q < idx
      → Chain parent l q
      → Chain (set parent idx v) l q
  unfolding Chain
  Chain-set parent v idx zero q h c = tt
  Chain-set parent v idx (suc l) q h (p, e, lt, less, c) = (
    p,
    get_or-set_ne parent idx q v none (omega arith) ∙ e,
    lt,
    less,
    Chain-set parent v idx l p (omega arith) c,
  )

  -- The tails with `idx` put at `low`.
  abbrev pub put_tail : List ℕ → ℕ → ℕ → List ℕ
  put_tail tails low idx = if low == length tails then tails ++ idx ∷ [] else set tails low idx

  pub put_tail-length :
      (tails : List ℕ) (low idx : ℕ)
      → low ≤ length tails
      → (low < length (put_tail tails low idx))
        × (length tails ≤ length (put_tail tails low idx))
        × (length (put_tail tails low idx) ≤ length tails + 1)
        × (low < length tails → length (put_tail tails low idx) ≡ length tails)
  put_tail-length tails low idx h = elim (Bool-cases (low == length tails)) [
    | inl t ↦
        let same = ==→eq low (length tails) t in
        let size = length-append tails (idx ∷ []) in
        rw t (
          omega (arith, size),
          omega (arith, size),
          omega (arith, size),
          λ lt. absurd (omega arith),
        )
    | inr f ↦
        let size = length-set tails low idx in
        let less : low < length tails = ground arith in
        rw f (omega (arith, size), omega (arith, size), omega (arith, size), λ lt. size)
  ]

  pub put_tail_here :
      (tails : List ℕ) (low idx : ℕ)
      → low ≤ length tails
      → get_or (put_tail tails low idx) low 0 ≡ idx
  put_tail_here tails low idx h = elim (Bool-cases (low == length tails)) [
    | inl t ↦ rw t (
        ap (λ k. get_or (tails ++ idx ∷ []) k 0) (==→eq low (length tails) t)
        ∙ get_or-append_here tails idx 0)
    | inr f ↦ rw f (get_or-set_self tails low idx 0 (ground arith))
  ]

  pub put_tail_other :
      (tails : List ℕ) (low idx k : ℕ)
      → k ≢ low
      → low ≤ length tails
      → k < length (put_tail tails low idx)
      → get_or (put_tail tails low idx) k 0 ≡ get_or tails k 0
  put_tail_other tails low idx k ne h lt = elim (Bool-cases (low == length tails)) [
    | inl t ↦
        let same = ==→eq low (length tails) t in
        let size = length-append tails (idx ∷ []) in
        let below = (put_tail-length tails low idx h).2 in
        rw t (get_or-append_left tails (idx ∷ []) k 0 (omega arith))
    | inr f ↦ rw f (get_or-set_ne tails low k idx 0 ne)
  ]
