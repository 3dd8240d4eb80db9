-- ===== src/Engine/LineDiff/Patience/Longest.antt =====
-- `computeLIS` returns a longest rising sequence of the candidates.
use diffmantic.Base.{
  ℕ, zero, suc, ◌+◌, ◌-◌, ◌≤◌, ◌<◌, ◌≡◌, ◌≢◌, refl, sym, ap, subst, ◌∙◌, Option, none, some, List,
  [], ◌∷◌, arith, ltb, if◌then◌else◌, length, get_or, set, length-set, get_or-set_self, Bool-cases,
  inl, inr, ℕ_discrete, dec_lt, ltb-zero-suc, replicate, length-replicate,
}
use diffmantic.Engine.LineDiff.Patience.{
  LinePair, no_pair, LisState, search_tails, lis_step, lis_loop,
}
use diffmantic.Engine.LineDiff.Patience.Chains.{
  right_of, Chain, RisingTo, tail, IsLisState, Splits, search_tails-Splits, Chain-set, put_tail,
  put_tail-length, put_tail_here, put_tail_other,
}

pub add_none : (n : ℕ) → n ≡ n + 0
add_none n = omega arith

add_next : (n k : ℕ) → n + suc k ≡ suc n + k
add_next n k = omega arith

module _ (candidates : List LinePair) where
  abbrev R : ℕ → ℕ
  R = right_of candidates

  abbrev put_parent : LisState → ℕ → ℕ → List (Option ℕ)
  put_parent s idx low =
      if ltb 0 low then set s.parent idx (some (tail candidates s (low - 1))) else s.parent

  put_parent-length : (s : LisState) (idx low : ℕ) → length (put_parent s idx low) ≡ length s.parent
  put_parent-length s idx low = elim (Bool-cases (ltb 0 low)) [
    | inl t ↦ rw t (length-set s.parent idx _)
    | inr f ↦ rw f refl
  ]

  -- Chains that end before `idx` are kept.
  Chain-kept :
      (s : LisState) (idx low l q : ℕ)
      → q < idx
      → Chain candidates s.parent l q
      → Chain candidates (put_parent s idx low) l q
  Chain-kept s idx low l q h c = elim (Bool-cases (ltb 0 low)) [
    | inl t ↦ rw t (Chain-set candidates s.parent _ idx l q h c)
    | inr f ↦ rw f c
  ]

  Chain-new :
      (s : LisState) (idx low : ℕ)
      → IsLisState candidates idx s
      → idx < length candidates
      → Splits candidates s.tails (R idx) low
      → Chain candidates (put_parent s idx low) low idx
  unfolding Chain
  Chain-new s idx zero v inside split = tt
  Chain-new s idx (suc l) v inside (b, below, above) =
      let p = tail candidates s l in
      let same : suc l - 1 ≡ l = omega arith in
      rw (ltb-zero-suc l) (
        p,
        get_or-set_self s.parent idx _ none (omega (arith, v.parents))
            ∙ ap (λ k. some (tail candidates s k)) same,
        v.done l (omega arith),
        below l (omega arith),
        Chain-kept s idx (suc l) l p (v.done l (omega arith)) (v.chains l (omega arith)),
      )

  -- One round, with the binary search answered.
  module _ (s : LisState) (idx low : ℕ) (v : IsLisState candidates idx s)
      (inside : idx < length candidates) (split : Splits candidates s.tails (R idx) low) where
    abbrev tails' : List ℕ
    tails' = put_tail candidates s.tails low idx

    abbrev t' : ℕ → ℕ
    t' k = get_or tails' k 0

    here : t' low ≡ idx
    here = put_tail_here candidates s.tails low idx split.0

    other : (k : ℕ) → k ≢ low → k < length tails' → t' k ≡ tail candidates s k
    other k ne h = put_tail_other candidates s.tails low idx k ne split.0 h

    old : (k : ℕ) → k ≢ low → k < length tails' → k < length s.tails
    old k ne h =
        let (a, b, c, d) = put_tail-length candidates s.tails low idx split.0 in
        elim (dec_lt low (length s.tails)) [ yes lt ↦ omega (arith, d lt) | no ge ↦ omega arith ]

    chains' :
        (k : ℕ)
        → k < length tails'
        → (t' k < suc idx) × Chain candidates (put_parent s idx low) k (t' k)
    chains' k h = elim (ℕ_discrete k low) [
      | yes e ↦
          let same : t' k ≡ idx = ap t' e ∙ here in
          (
            omega arith,
            subst (λ m. Chain candidates (put_parent s idx low) k m) (sym same)
                (subst (λ m. Chain candidates (put_parent s idx low) m idx) (sym e)
                  (Chain-new s idx low v inside split)),
          )
      | no ne ↦
          let lt = v.done k (old k ne h) in
          (
            omega (arith, other k ne h),
            subst (λ m. Chain candidates (put_parent s idx low) k m) (sym (other k ne h))
                (Chain-kept s idx low k (tail candidates s k) lt (v.chains k (old k ne h))),
          )
    ]

    sorted' : (k k' : ℕ) → k < k' → k' < length tails' → R (t' k) < R (t' k')
    sorted' k k' h h' =
        let (_, below, above) = split in
        let size = (put_tail-length candidates s.tails low idx split.0).2 in
        elim (ℕ_discrete k low) [
          | yes e ↦
              let ne : k' ≢ low = omega arith in
              let now : R (t' k) ≡ R idx = ap (λ m. R (t' m)) e ∙ ap R here in
              let then_now : R (t' k') ≡ R (tail candidates s k') = ap R (other k' ne h') in
              let bound = above low (omega arith) (omega (arith, old k' ne h')) in
              let step = v.sorted low k' (omega arith) (old k' ne h') in omega arith
          | no ne ↦
              let then_k : R (t' k) ≡ R (tail candidates s k) = ap R (other k ne (omega arith)) in
              elim (ℕ_discrete k' low) [
                | yes e ↦
                    let now : R (t' k') ≡ R idx = ap (λ m. R (t' m)) e ∙ ap R here in
                    let bound = below k (omega arith) in omega arith
                | no ne' ↦
                    let then_now : R (t' k') ≡ R (tail candidates s k') = ap R (other k' ne' h') in
                    let step = v.sorted k k' h (old k' ne' h') in omega arith
              ]
        ]

    -- A bound of the old tails holds of the new ones.
    best_old :
        (l q : ℕ)
        → (l < length s.tails) × (R (tail candidates s l) ≤ R q)
        → (l < length tails') × (R (t' l) ≤ R q)
    best_old l q (lt, le) =
        let (_, _, above) = split in
        let (_, grown, _, _) = put_tail-length candidates s.tails low idx split.0 in
        elim (ℕ_discrete l low) [
          | yes e ↦
              let now : R (t' l) ≡ R idx = ap (λ m. R (t' m)) e ∙ ap R here in
              let bound = above l (omega arith) lt in (omega arith, omega arith)
          | no ne ↦
              let same : R (t' l) ≡ R (tail candidates s l) = ap R (other l ne (omega arith)) in
              (omega arith, omega arith)
        ]

    best_below : (l : ℕ) → l ≤ low → (l < length tails') × (R (t' l) ≤ R idx)
    best_below l h =
        let (_, below, _) = split in
        let size = put_tail-length candidates s.tails low idx split.0 in
        elim (ℕ_discrete l low) [
          | yes e ↦
              let now : R (t' l) ≡ R idx = ap (λ m. R (t' m)) e ∙ ap R here in
              (omega (arith, size.0), omega arith)
          | no ne ↦
              let lt : l < length tails' = omega (arith, size.0) in
              let same : R (t' l) ≡ R (tail candidates s l) = ap R (other l ne lt) in
              let bound = below l (omega arith) in (lt, omega arith)
        ]

    best_new : (l : ℕ) → RisingTo candidates l idx → (l < length tails') × (R (t' l) ≤ R idx)
    unfolding RisingTo
    best_new zero r = best_below zero (omega arith)
    best_new (suc l) (p, lt, less, r) =
        let (_, _, above) = split in
        let (inside_tails, le) = v.best l p lt r in
        elim (dec_lt l low) [
          | yes h ↦ best_below (suc l) (omega arith)
          | no h ↦ absurd (omega (arith, above l (omega arith) inside_tails))
        ]

    round-IsLisState :
        IsLisState candidates (suc idx) (record { tails = tails'; parent = put_parent s idx low })
    round-IsLisState = record {
      parents = put_parent-length s idx low ∙ v.parents;
      done = λ k h. (chains' k h).0;
      chains = λ k h. (chains' k h).1;
      sorted = sorted';
      best = λ l q h r. elim (dec_lt q idx) [
        | yes lt ↦ best_old l q (v.best l q lt r)
        | no ge ↦
            let same : idx ≡ q = omega arith in
            subst (λ m. (l < length tails') × (R (t' l) ≤ R m)) same
              (best_new l (subst (RisingTo candidates l) (sym same) r))
      ];
    }

  pub lis_step-IsLisState :
      (s : LisState) (idx : ℕ)
      → IsLisState candidates idx s
      → idx < length candidates
      → IsLisState candidates (suc idx) (lis_step candidates idx (get_or candidates idx no_pair) s)
  unfolding lis_step
  lis_step-IsLisState s idx v inside =
      round-IsLisState s idx
        (search_tails candidates s.tails (R idx) (length s.tails) 0 (length s.tails)) v inside
        (search_tails-Splits candidates s.tails (R idx) (length s.tails) 0 (length s.tails) v.sorted
          (omega arith) (omega arith) (omega arith) (λ k h. absurd (omega arith))
          (λ k h h'. absurd (omega arith)))

  pub lis_loop-IsLisState :
      (ps : List LinePair) (s : LisState) (idx : ℕ)
      → ((k : ℕ) → get_or ps k no_pair ≡ get_or candidates (idx + k) no_pair)
      → idx + length ps ≡ length candidates
      → IsLisState candidates idx s
      → IsLisState candidates (length candidates) (lis_loop candidates idx ps s)
  unfolding lis_loop
  lis_loop-IsLisState [] s idx h e v =
      let same : idx ≡ length candidates = omega arith in
      subst (λ n. IsLisState candidates n s) same v
  lis_loop-IsLisState (p ∷ ps) s idx h e v =
      let this : get_or candidates idx no_pair ≡ p =
        ap (λ k. get_or candidates k no_pair) (add_none idx) ∙ sym (h 0) in
      lis_loop-IsLisState ps (lis_step candidates idx p s) (suc idx)
        (λ k. h (suc k) ∙ ap (λ n. get_or candidates n no_pair) (add_next idx k)) (omega arith)
        (subst (λ q. IsLisState candidates (suc idx) (lis_step candidates idx q s)) this
          (lis_step-IsLisState s idx v (omega arith)))

  -- The state before the loop.
  pub start-IsLisState :
      IsLisState candidates 0 (record { tails = []; parent = replicate (length candidates) none })
  start-IsLisState = record {
    parents = length-replicate (length candidates) none;
    done = λ k h. absurd (omega arith);
    chains = λ k h. absurd (omega arith);
    sorted = λ k k' h h'. absurd (omega arith);
    best = λ l q h r. absurd (omega arith);
  }
