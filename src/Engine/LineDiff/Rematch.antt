-- ===== src/Engine/LineDiff/Rematch.antt =====
-- Compaction of a rising matching of lines pairs the same texts as before.
use native.Mathlib.Nat.{zero-add}
use diffmantic.Base.{
  Bool-cases, inl, inr, ◌≤◌, ℕ, zero, suc, ◌+◌, ◌<◌, ◌≡◌, refl, sym, ap, ap₂, subst, ◌∙◌, Bool,
  true, false, not, ◌&&◌, ◌||◌, List, [], ◌∷◌, arith, fun_ext, get_or, if◌then◌else◌, length, set,
  ltb, ◌==◌, map, length-set, get_or-set_self, get_or-set_ne, replicate, length-replicate,
  ℕ_discrete,
}
use diffmantic.Engine.WordDiff.Tokens.{Bytes}
use diffmantic.Engine.SeqDiff.Optimum.{IsAlignment}
use diffmantic.Engine.LineDiff.{
  mark_matched, matched_lines, compact_changes, zip, initial_flags, compact_line_diff,
}
use diffmantic.Engine.LineDiff.Sliding.{flag}
use diffmantic.Engine.LineDiff.Windows.{kept}
use diffmantic.Engine.LineDiff.Marking.{mem, Rising, kept-unmatched}
use diffmantic.Engine.LineDiff.Pairing.{texts, compact_line_diff-texts, mark_matched-length}
use diffmantic.Engine.LineDiff.Compaction.{compact_changes-kept}

-- Every pair of indices weighs the same, so that an alignment is a list of rising pairs.
abbrev pub any_pair : ℕ → ℕ → ℕ
any_pair i j = 1

abbrev pub firsts : List (ℕ × ℕ) → List ℕ
firsts = map (λ p. p.0)

abbrev pub seconds : List (ℕ × ℕ) → List ℕ
seconds = map (λ p. p.1)

firsts-Rising :
    (lo_a lo_b m n : ℕ) (ps : List (ℕ × ℕ))
    → IsAlignment any_pair lo_a lo_b m n ps
    → Rising lo_a m (firsts ps)
firsts-Rising lo_a lo_b m n [] r = tt
firsts-Rising lo_a lo_b m n ((i, j) ∷ ps) (a, b, c, d, w, rest) =
    (a, c, firsts-Rising (suc i) (suc j) m n ps rest)

seconds-Rising :
    (lo_a lo_b m n : ℕ) (ps : List (ℕ × ℕ))
    → IsAlignment any_pair lo_a lo_b m n ps
    → Rising lo_b n (seconds ps)
seconds-Rising lo_a lo_b m n [] r = tt
seconds-Rising lo_a lo_b m n ((i, j) ∷ ps) (a, b, c, d, w, rest) =
    (b, d, seconds-Rising (suc i) (suc j) m n ps rest)

flag-set :
    (c : List Bool) (i k : ℕ) → i < length c → flag (set c i false) k ≡ (flag c k && not (k == i))
flag-set c i k h = elim (ℕ_discrete k i) [
  | yes e ↦ ground (
    arith,
    subst (λ k. flag (set c i false) k ≡ false) (sym e) (get_or-set_self c i false false h),
  )
  | no ne ↦ ground (arith, get_or-set_ne c i k false false ne)
]

-- The pairs lie within the lines.
abbrev pub IsInside : ℕ → ℕ → List (ℕ × ℕ) → Type 0
IsInside m n [] = Unit {0}
IsInside m n ((i, j) ∷ ps) = (i < m) × (j < n) × IsInside m n ps

pub IsAlignment-IsInside :
    (w : ℕ → ℕ → ℕ) (lo_a lo_b m n : ℕ) (ps : List (ℕ × ℕ))
    → IsAlignment w lo_a lo_b m n ps
    → IsInside m n ps
IsAlignment-IsInside w lo_a lo_b m n [] r = tt
IsAlignment-IsInside w lo_a lo_b m n ((i, j) ∷ ps) (_, _, c, d, _, r) =
    (c, d, IsAlignment-IsInside w (suc i) (suc j) m n ps r)

pub mark_matched_lem :
    (m n : ℕ) (ps : List (ℕ × ℕ)) (a b : List Bool)
    → length a ≡ m
    → length b ≡ n
    → IsInside m n ps
    → ((k : ℕ) → flag (mark_matched m n ps (a, b)).0 k ≡ (flag a k && not (mem k (firsts ps))))
      × ((k : ℕ) → flag (mark_matched m n ps (a, b)).1 k ≡ (flag b k && not (mem k (seconds ps))))
unfolding mark_matched
mark_matched_lem m n [] a b ea eb r = (λ k. ground arith, λ k. ground arith)
mark_matched_lem m n ((i, j) ∷ ps) a b ea eb (below_a, below_b, rest) =
    let inside : (ltb i m && ltb j n) ≡ true = ground arith in
    let (x, y) =
      mark_matched_lem m n ps (set a i false) (set b j false) (length-set a i false ∙ ea)
        (length-set b j false ∙ eb) rest in
    let step : mark_matched m n ((i, j) ∷ ps) (a, b)
        ≡ mark_matched m n ps (set a i false, set b j false) =
      ap (λ t. mark_matched m n ps (if t then (set a i false, set b j false) else (a, b))) inside in
    (
      λ k. ap (λ c. flag c.0 k) step ∙ ground (arith, x k, flag-set a i k (omega arith)),
      λ k. ap (λ c. flag c.1 k) step ∙ ground (arith, y k, flag-set b j k (omega arith)),
    )

flag-replicate : (n k : ℕ) → flag (replicate n true) k ≡ ltb k n
flag-replicate zero k = ground arith
flag-replicate (suc n) zero = ground arith
flag-replicate (suc n) (suc k) = ground (arith, flag-replicate n k)

zip-texts :
    (lines_a lines_b : List Bytes) (ps : List (ℕ × ℕ))
    → zip (map (λ k. get_or lines_a k []) (firsts ps)) (map (λ k. get_or lines_b k []) (seconds ps))
      ≡ map (texts lines_a lines_b) ps
unfolding zip texts
zip-texts lines_a lines_b [] = refl
zip-texts lines_a lines_b ((i, j) ∷ ps) =
    ap (λ r. texts lines_a lines_b (i, j) ∷ r) (zip-texts lines_a lines_b ps)

kept_flags :
    (lines : List Bytes) (changed : List Bool) (js : List ℕ)
    → ((k : ℕ) → flag changed k ≡ (flag (replicate (length lines) true) k && not (mem k js)))
    → Rising 0 (length lines) js
    → kept lines (flag changed) ≡ map (λ k. get_or lines k []) js
kept_flags lines changed js h r =
    let zero_sum : (k : ℕ) → 0 + k ≡ k = λ k. omega arith in
    ap (kept lines) (
      fun_ext (λ k.
        h k
        ∙ ap₂ (λ x y. x && not (mem y js)) (flag-replicate (length lines) k) (sym (zero_sum k))))
    ∙ kept-unmatched lines lines 0 js (λ k. ap (λ n. get_or lines n []) (zero_sum k))
        (subst (λ n. Rising 0 n js) (sym (zero_sum (length lines))) r)

compact_empty : (lines_a lines_b : List Bytes) → compact_line_diff lines_a lines_b [] ≡ []
unfolding compact_line_diff
compact_empty lines_a lines_b =
    let guard : (length lines_a == 0 || length lines_b == 0 || 0 == 0) ≡ true = ground arith in
    rw guard refl

-- Two matchings have the same lines on either side.
abbrev pub SameLines : List (ℕ × ℕ) → List (ℕ × ℕ) → Type 0
SameLines ps qs =
    ((k : ℕ) → mem k (firsts ps) ≡ mem k (firsts qs))
    × ((k : ℕ) → mem k (seconds ps) ≡ mem k (seconds qs))

empty_sorted : (sorted : List (ℕ × ℕ)) → ((k : ℕ) → false ≡ mem k (firsts sorted)) → sorted ≡ []
empty_sorted [] h = refl
empty_sorted ((i, j) ∷ sorted) h = absurd (ground (arith, h i))

-- The entries of the matching come in any order; `sorted` has the same lines, in rising order.
pub compact_line_diff-sorted :
    (lines_a lines_b : List Bytes) (matched sorted : List (ℕ × ℕ))
    → IsInside (length lines_a) (length lines_b) matched
    → IsAlignment any_pair 0 0 (length lines_a) (length lines_b) sorted
    → SameLines matched sorted
    → map (texts lines_a lines_b) (compact_line_diff lines_a lines_b matched)
      ≡ map (texts lines_a lines_b) sorted
unfolding initial_flags mark_matched
compact_line_diff-sorted lines_a lines_b [] sorted inside r (same_a, same_b) =
    ap (map (texts lines_a lines_b))
      (compact_empty lines_a lines_b ∙ sym (empty_sorted sorted same_a))
compact_line_diff-sorted lines_a lines_b ((i, j) ∷ ps) sorted inside r (same_a, same_b) =
    let (below_a, below_b, _) = inside in
    let (x, y) =
      mark_matched_lem (length lines_a) (length lines_b) ((i, j) ∷ ps)
        (replicate (length lines_a) true) (replicate (length lines_b) true)
        (length-replicate (length lines_a) true) (length-replicate (length lines_b) true) inside in
    compact_line_diff-texts lines_a lines_b ((i, j) ∷ ps) (omega arith) (omega arith) (omega arith)
    ∙ ap₂ zip
        (kept_flags lines_a _ (firsts sorted)
          (λ k. x k ∙ ap (λ b. flag (replicate (length lines_a) true) k && not b) (same_a k))
          (firsts-Rising 0 0 _ _ sorted r))
        (kept_flags lines_b _ (seconds sorted)
          (λ k. y k ∙ ap (λ b. flag (replicate (length lines_b) true) k && not b) (same_b k))
          (seconds-Rising 0 0 _ _ sorted r))
    ∙ zip-texts lines_a lines_b sorted

-- For a matching whose pairs rise on both sides and lie within the lines: the pairs that
-- `compactLineDiff` returns have, in order, the same texts as the pairs that it was given.
pub compact_line_diff-same :
    (lines_a lines_b : List Bytes) (matched : List (ℕ × ℕ))
    → IsAlignment any_pair 0 0 (length lines_a) (length lines_b) matched
    → map (texts lines_a lines_b) (compact_line_diff lines_a lines_b matched)
      ≡ map (texts lines_a lines_b) matched
compact_line_diff-same lines_a lines_b matched r =
    compact_line_diff-sorted lines_a lines_b matched matched
      (IsAlignment-IsInside any_pair 0 0 _ _ matched r) r (λ k. refl, λ k. refl)

Rising-lower : (lo lo' hi : ℕ) (js : List ℕ) → lo' ≤ lo → Rising lo hi js → Rising lo' hi js
Rising-lower lo lo' hi [] h r = tt
Rising-lower lo lo' hi (j ∷ js) h (a, b, r) = (omega arith, b, r)

matched_lines-Rising :
    (i : ℕ) (changed : List Bool) → Rising i (i + length changed) (matched_lines i changed)
unfolding matched_lines
matched_lines-Rising i [] = tt
matched_lines-Rising i (true ∷ changed) =
    let e : suc i + length changed ≡ i + suc (length changed) = omega arith in
    Rising-lower (suc i) i _ (matched_lines (suc i) changed) (omega arith) (
      subst (λ h. Rising (suc i) h (matched_lines (suc i) changed)) e
        (matched_lines-Rising (suc i) changed))
matched_lines-Rising i (false ∷ changed) =
    let e : suc i + length changed ≡ i + suc (length changed) = omega arith in
    (
      omega arith,
      omega arith,
      subst (λ h. Rising (suc i) h (matched_lines (suc i) changed)) e
          (matched_lines-Rising (suc i) changed),
    )

zip-Rising :
    (lo_a lo_b m n : ℕ) (is js : List ℕ)
    → Rising lo_a m is
    → Rising lo_b n js
    → IsAlignment any_pair lo_a lo_b m n (zip is js)
unfolding zip
zip-Rising lo_a lo_b m n [] js r s = tt
zip-Rising lo_a lo_b m n (i ∷ is) [] r s = tt
zip-Rising lo_a lo_b m n (i ∷ is) (j ∷ js) (a, b, r) (c, d, s) =
    (a, c, b, d, omega arith, zip-Rising (suc i) (suc j) m n is js r s)

none_inside :
    (m n : ℕ) (ps : List (ℕ × ℕ))
    → (m == 0 || n == 0 || length ps == 0) ≡ true
    → IsInside m n ps
    → ps ≡ []
none_inside m n [] t inside = refl
none_inside m n ((i, j) ∷ ps) t (a, b, inside) = absurd (ground arith)

-- The pairs of the result rise on both sides and lie within the lines.
pub compact_line_diff-rising :
    (lines_a lines_b : List Bytes) (matched : List (ℕ × ℕ))
    → IsInside (length lines_a) (length lines_b) matched
    → IsAlignment any_pair 0 0
        (length lines_a)
        (length lines_b)
        (compact_line_diff lines_a lines_b matched)
unfolding compact_line_diff initial_flags
compact_line_diff-rising lines_a lines_b matched inside =
    let m = length lines_a in
    let n = length lines_b in
    let (changed_a, changed_b) = initial_flags lines_a lines_b matched in
    let (size_a, size_b) = mark_matched-length m n matched (replicate m true, replicate n true) in
    elim (Bool-cases (m == 0 || n == 0 || length matched == 0)) [
      | inl t ↦
          rw t (subst (IsAlignment any_pair 0 0 m n) (sym (none_inside m n matched t inside)) tt)
      | inr f ↦
          let (kept_a, _) =
            compact_changes-kept lines_a changed_a (size_a ∙ length-replicate m true) in
          let (kept_b, _) =
            compact_changes-kept lines_b changed_b (size_b ∙ length-replicate n true) in
          rw f (
            zip-Rising 0 0 m n (matched_lines 0 (compact_changes lines_a changed_a))
              (matched_lines 0 (compact_changes lines_b changed_b))
              (subst (λ h. Rising 0 h (matched_lines 0 (compact_changes lines_a changed_a)))
                (zero-add _ ∙ kept_a) (matched_lines-Rising 0 (compact_changes lines_a changed_a)))
              (subst (λ h. Rising 0 h (matched_lines 0 (compact_changes lines_b changed_b)))
                (zero-add _ ∙ kept_b) (matched_lines-Rising 0 (compact_changes lines_b changed_b))))
    ]
