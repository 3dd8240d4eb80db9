-- ===== src/Engine/LineDiff/Patience/Sequence.antt =====
-- The sequence that `computeLIS` reads off its arrays.
use diffmantic.Base.{
  pred-suc, ℕ, zero, suc, ◌+◌, ◌-◌, ◌≤◌, ◌<◌, ◌≡◌, refl, ap, subst, Option, none, some, List, [],
  ◌∷◌, arith, length, get_or, replicate,
}
use diffmantic.Engine.LineDiff.Patience.{
  LinePair, no_pair, LisState, lis_loop, lis_chain, compute_lis,
}
use diffmantic.Engine.LineDiff.Patience.Chains.{right_of, Chain, RisingTo, tail, IsLisState}
use diffmantic.Engine.LineDiff.Patience.Longest.{lis_loop-IsLisState, start-IsLisState}

-- Pairs whose lines rise strictly on both sides, from `lo_i` and `lo_j` on.
abbrev pub IsRisingPairs : ℕ → ℕ → List LinePair → Type 0
IsRisingPairs lo_i lo_j [] = Unit {0}
IsRisingPairs lo_i lo_j (p ∷ ps) =
    (lo_i ≤ p.i) × (lo_j ≤ p.j) × IsRisingPairs (suc p.i) (suc p.j) ps

-- Every pair of the list is one of the candidates.
abbrev pub AreCandidates : List LinePair → List LinePair → Type 0
AreCandidates candidates [] = Unit {0}
AreCandidates candidates (p ∷ ps) =
    ((k : ℕ) × (k < length candidates) × (get_or candidates k no_pair ≡ p))
    × AreCandidates candidates ps

-- Indices of candidates that rise strictly, and with them the lines of the right side.
abbrev pub IsPick : List LinePair → ℕ → ℕ → List ℕ → Type 0
IsPick candidates lo lo_j [] = Unit {0}
IsPick candidates lo lo_j (k ∷ ks) =
    (lo ≤ k)
    × (k < length candidates)
    × (lo_j ≤ right_of candidates k)
    × IsPick candidates (suc k) (suc (right_of candidates k)) ks

module _ (candidates : List LinePair) where
  abbrev pub left_of : ℕ → ℕ
  left_of k = (get_or candidates k no_pair).i

  -- The lines of the left side rise along the candidates.
  abbrev pub LeftRising : Type 0
  LeftRising = (k k' : ℕ) → k < k' → k' < length candidates → left_of k < left_of k'

  -- Those of the left side rise where those of the right side do.
  abbrev pub RisesWith : Type 0
  RisesWith =
      (k k' : ℕ)
      → k < k'
      → k' < length candidates
      → right_of candidates k < right_of candidates k'
      → left_of k < left_of k'

  -- What the result is to be: rising, made of candidates, of the given length.
  abbrev pub IsSequence : ℕ → List LinePair → Type 0
  IsSequence n ps = IsRisingPairs 0 0 ps × AreCandidates candidates ps × (length ps ≡ n)

  IsRisingPairs-lower :
      (lo_i lo_j lo_i' lo_j' : ℕ) (ps : List LinePair)
      → lo_i' ≤ lo_i
      → lo_j' ≤ lo_j
      → IsRisingPairs lo_i lo_j ps
      → IsRisingPairs lo_i' lo_j' ps
  IsRisingPairs-lower lo_i lo_j lo_i' lo_j' [] a b r = tt
  IsRisingPairs-lower lo_i lo_j lo_i' lo_j' (p ∷ ps) a b (c, d, r) = (omega arith, omega arith, r)

  lis_chain-IsSequence :
      (parent : List (Option ℕ)) (l q : ℕ) (lis : List LinePair)
      → RisesWith
      → Chain candidates parent l q
      → q < length candidates
      → IsRisingPairs (suc (left_of q)) (suc (right_of candidates q)) lis
      → AreCandidates candidates lis
      → IsSequence (suc l + length lis) (lis_chain candidates parent (suc l) (some q) lis)
  unfolding lis_chain Chain
  lis_chain-IsSequence parent zero q lis left c inside r m =
      ((omega arith, omega arith, r), ((q, inside, refl), m), omega arith)
  lis_chain-IsSequence parent (suc l) q lis left (p, e, lt, less, c) inside r m =
      let before = left p q lt inside less in
      let size : suc l + suc (length lis) ≡ suc (suc l) + length lis = omega arith in
      rw (lis_chain, e)
        (subst
          (λ n.
            IsSequence n
              (lis_chain candidates parent (suc l) (some p) (get_or candidates q no_pair ∷ lis)))
          size
          (lis_chain-IsSequence parent l p (get_or candidates q no_pair ∷ lis) left c (omega arith)
            (omega arith, omega arith, r) ((q, inside, refl), m)))

  -- A pick behind a chain makes a longer chain.
  pick-RisingTo :
      (ks : List ℕ) (l q : ℕ)
      → q < length candidates
      → RisingTo candidates l q
      → IsPick candidates (suc q) (suc (right_of candidates q)) ks
      → (q' : ℕ) × (q' < length candidates) × RisingTo candidates (l + length ks) q'
  unfolding RisingTo
  pick-RisingTo [] l q inside r pick =
      let same : l ≡ l + 0 = omega arith in (q, inside, subst (λ n. RisingTo candidates n q) same r)
  pick-RisingTo (k ∷ ks) l q inside r (a, b, c, pick) =
      let (q', below, rising) =
        pick-RisingTo ks (suc l) k b (q, omega arith, omega arith, r) pick in
      let same : suc l + length ks ≡ l + suc (length ks) = omega arith in
      (q', below, subst (λ n. RisingTo candidates n q') same rising)

  module _ (s : LisState) (v : IsLisState candidates (length candidates) s)
      (inside : 0 < length candidates) where
    pub read_off :
        RisesWith
        → (n : ℕ) → length s.tails ≡ suc n
        → IsSequence (length s.tails) (
            lis_chain candidates s.parent
              (length s.tails)
              (some (tail candidates s (length s.tails - 1)))
              [])
    read_off left n e =
        let q = tail candidates s n in
        let lt = v.done n (omega arith) in
        let size : suc n + 0 ≡ suc n = omega arith in
        rw (e, pred-suc n)
          (subst (λ m. IsSequence m (lis_chain candidates s.parent (suc n) (some q) [])) size
            (lis_chain-IsSequence s.parent n q [] left (v.chains n (omega arith)) lt tt tt))

    pub some_tail : (n : ℕ) × (length s.tails ≡ suc n)
    unfolding RisingTo
    some_tail = let (h, _) = v.best 0 0 inside tt in (length s.tails - 1, omega arith)

    pick-le-tails : (ks : List ℕ) → IsPick candidates 0 0 ks → length ks ≤ length s.tails
    unfolding RisingTo
    pick-le-tails [] pick = omega arith
    pick-le-tails (k ∷ ks) (a, b, c, pick) =
        let (q, below, rising) = pick-RisingTo ks 0 k b tt pick in
        let (fits, _) = v.best (0 + length ks) q below rising in omega arith

-- For candidates whose left lines rise: `computeLIS` returns candidates whose lines rise strictly on
-- both sides, and no choice of candidates with rising right lines is longer.
pub compute_lis-longest :
    (candidates : List LinePair)
    → LeftRising candidates
    → IsRisingPairs 0 0 (compute_lis candidates)
      × AreCandidates candidates (compute_lis candidates)
      × ((ks : List ℕ) → IsPick candidates 0 0 ks → length ks ≤ length (compute_lis candidates))
unfolding compute_lis
compute_lis-longest [] left = (
  tt,
  tt,
  λ ks pick.
      elim ks as (λ l. IsPick [] 0 0 l → length l ≤ 0) [
        | [] ↦ λ h. omega arith
        | k ∷ rest ↦ λ h. absurd (omega arith)
      ]
        pick,
)
compute_lis-longest (p ∷ ps) left =
    let candidates : List LinePair = p ∷ ps in
    let start : LisState = record { tails = []; parent = replicate (length candidates) none } in
    let v =
      lis_loop-IsLisState candidates candidates start 0
        (λ k. let e : k ≡ 0 + k = omega arith in ap (λ n. get_or candidates n no_pair) e)
        (omega arith) (start-IsLisState candidates) in
    let s = lis_loop candidates 0 candidates start in
    let (n, e) = some_tail candidates s v (omega arith) in
    let (rising, members, size) =
      read_off candidates s v (omega arith) (λ k k' h h' r. left k k' h h') n e in
    (
      rising,
      members,
      λ ks pick. omega (arith, size, pick-le-tails candidates s v (omega arith) ks pick),
    )
