-- ===== src/Engine/SeqDiff/Trim.antt =====
-- Trimming of equal ends, and the alignment that `CombineMatches` puts together again.
use native.Mathlib.Nat.{zero-add, add-zero, add-suc}
use diffmantic.Base.{
  pred-suc, ℕ, zero, suc, ◌+◌, ◌-◌, ◌≤◌, ◌<◌, min, ◌≡◌, Bool, true, false, ◌&&◌, List, [], ◌∷◌,
  ◌++◌, arith, leb, Bool-cases, inl, inr, subst,
}
use diffmantic.Engine.SeqDiff.{
  trim_prefix_from, trim_prefix, trim_suffix_from, trim_bounds, diagonal, shift, combine_matches,
}
use diffmantic.Engine.SeqDiff.Optimum.{IsAlignment}
use diffmantic.Engine.SeqDiff.Alignment.{equal_weight}

-- The items from `(a, b)` on are pairwise equal for `count` steps.
abbrev pub IsEqualRun : (ℕ → ℕ → Bool) → ℕ → ℕ → ℕ → Type 0
IsEqualRun eq zero a b = Unit {0}
IsEqualRun eq (suc count) a b = (eq a b ≡ true) × IsEqualRun eq count (suc a) (suc b)

back : (p s : ℕ) → p ≤ s → p + (s - p) ≡ s
back p s h = omega arith

add-suc_left : (n m : ℕ) → n + suc m ≡ suc n + m
add-suc_left n m = omega arith

module _ (eq : ℕ → ℕ → Bool) where
  -- From `p` the prefix loop runs over equal items and stops at the limit or at a difference.
  trim_prefix_from_lem :
      (left p : ℕ)
      → (count : ℕ) × (trim_prefix_from eq left p ≡ count + p)
        × (count ≤ left)
        × IsEqualRun eq count p p
        × (count < left → eq (count + p) (count + p) ≡ false)
  unfolding trim_prefix_from
  trim_prefix_from_lem zero p = (0, omega arith, omega arith, tt, λ h. absurd (omega arith))
  trim_prefix_from_lem (suc left) p = elim (Bool-cases (eq p p)) [
    | inl same ↦
        let (count, e, le, run, stop) = trim_prefix_from_lem left (suc p) in
        rw same (
          suc count,
          omega (arith, e),
          omega (arith, le),
          (same, run),
          λ h. rw (← add-suc_left count p) (stop (omega arith)),
        )
    | inr different ↦ rw different (0, omega arith, omega arith, tt, λ h. rw zero-add different)
  ]

  run-snoc :
      (count a b : ℕ)
      → IsEqualRun eq count a b
      → eq (count + a) (count + b) ≡ true
      → IsEqualRun eq (suc count) a b
  run-snoc zero a b run e = (rw (zero-add a, zero-add b) at e, tt)
  run-snoc (suc count) a b (e, run) last =
      (e, run-snoc count (suc a) (suc b) run (rw (add-suc_left count a, add-suc_left count b) last))

  -- The stops of the suffix loop: equal items behind them, and the prefix or a difference before.
  record IsSuffixStop (prefix n m stop_a stop_b : ℕ) : Type 0 where
    count : ℕ
    split_a : count + stop_a ≡ n
    split_b : count + stop_b ≡ m
    above : prefix ≤ n → prefix ≤ m → (prefix ≤ stop_a) × (prefix ≤ stop_b)
    run : IsEqualRun eq count stop_a stop_b
    stopped : prefix < stop_a → prefix < stop_b → eq (stop_a - 1) (stop_b - 1) ≡ false

  suffix_next :
      (prefix a b stop_a stop_b : ℕ)
      → IsSuffixStop prefix a b stop_a stop_b
      → (leb prefix a && leb prefix b && eq a b) ≡ true
      → IsSuffixStop prefix (suc a) (suc b) stop_a stop_b
  suffix_next prefix a b stop_a stop_b r t = record {
    count = suc r.count;
    split_a = omega (arith, r.split_a);
    split_b = omega (arith, r.split_b);
    above = λ h k. ground (arith, r.above);
    run = run-snoc r.count stop_a stop_b r.run (rw (r.split_a, r.split_b) (ground arith));
    stopped = r.stopped;
  }

  trim_suffix_from_lem :
      (prefix n m : ℕ)
      → (let stops = trim_suffix_from eq prefix n m in IsSuffixStop prefix n m stops.0 stops.1)
  unfolding trim_suffix_from
  trim_suffix_from_lem prefix zero m = record {
    count = 0;
    split_a = omega arith;
    split_b = omega arith;
    above = λ h k. omega arith;
    run = tt;
    stopped = λ h k. absurd (omega arith);
  }
  trim_suffix_from_lem prefix (suc a) zero = record {
    count = 0;
    split_a = omega arith;
    split_b = omega arith;
    above = λ h k. omega arith;
    run = tt;
    stopped = λ h k. absurd (omega arith);
  }
  trim_suffix_from_lem prefix (suc a) (suc b) =
      elim (Bool-cases (leb prefix a && leb prefix b && eq a b)) [
        | inl equal ↦ rw equal (suffix_next prefix a b _ _ (trim_suffix_from_lem prefix a b) equal)
        | inr ended ↦ rw ended (record {
          count = 0;
          split_a = omega arith;
          split_b = omega arith;
          above = λ h k. omega arith;
          run = tt;
          stopped = λ h k. ground (arith, pred-suc a, pred-suc b);
        })
      ]

  -- The three parts into which `TrimBounds` cuts two sequences of lengths `n` and `m`: equal items
  -- before `prefix` and from the stops on, and a middle with different items at both its ends.
  pub record IsTrimmed (n m prefix stop_a stop_b : ℕ) : Type 0 where
    pub ordered : (prefix ≤ stop_a) × (prefix ≤ stop_b) × (stop_a ≤ n) × (stop_b ≤ m)
    pub tails : n - stop_a ≡ m - stop_b
    pub head_run : IsEqualRun eq prefix 0 0
    pub tail_run : IsEqualRun eq (n - stop_a) stop_a stop_b
    pub head_end : prefix < min n m → eq prefix prefix ≡ false
    pub tail_end : prefix < stop_a → prefix < stop_b → eq (stop_a - 1) (stop_b - 1) ≡ false

  trim_prefix_lem :
      (n m : ℕ)
      → (let p = trim_prefix n m eq in
          IsEqualRun eq p 0 0 × (p ≤ min n m) × (p < min n m → eq p p ≡ false))
  unfolding trim_prefix
  trim_prefix_lem n m =
      let (count, e, le, run, stop) = trim_prefix_from_lem (min n m) 0 in
      let same : count ≡ trim_prefix_from eq (min n m) 0 = omega (arith, e) in
      subst (λ c. IsEqualRun eq c 0 0 × (c ≤ min n m) × (c < min n m → eq c c ≡ false)) same
        (run, le, λ h. rw (add-zero count) at (stop h))

  trim_middle :
      (n m prefix stop_a stop_b : ℕ)
      → IsEqualRun eq prefix 0 0
        × (prefix ≤ min n m)
        × (prefix < min n m → eq prefix prefix ≡ false)
      → IsSuffixStop prefix n m stop_a stop_b
      → IsTrimmed n m prefix stop_a stop_b
  trim_middle n m prefix stop_a stop_b (run, le, stop) r = record {
    ordered = omega (arith, r.split_a, r.split_b, r.above (omega arith) (omega arith));
    tails = omega (arith, r.split_a, r.split_b);
    head_run = run;
    tail_run =
        subst (λ k. IsEqualRun eq k stop_a stop_b)
          (let e : r.count ≡ n - stop_a = omega (arith, r.split_a) in e) r.run;
    head_end = stop;
    tail_end = r.stopped;
  }

  -- `TrimBounds` finds the longest equal prefix, and behind it the longest equal suffix.
  pub trim_bounds-IsTrimmed :
      (n m : ℕ)
      → (let (prefix, stop_a, stop_b) = trim_bounds n m eq in IsTrimmed n m prefix stop_a stop_b)
  unfolding trim_bounds
  trim_bounds-IsTrimmed n m =
      trim_middle n m _ _ _ (trim_prefix_lem n m) (trim_suffix_from_lem (trim_prefix n m eq) n m)

  pub IsAlignment-lower :
      (a b n m : ℕ) (qs : List (ℕ × ℕ)) (lo_a lo_b : ℕ)
      → (lo_a ≤ a) × (lo_b ≤ b) × (a ≤ n) × (b ≤ m)
      → IsAlignment (equal_weight eq) a b n m qs
      → IsAlignment (equal_weight eq) lo_a lo_b n m qs
  IsAlignment-lower a b n m [] lo_a lo_b h q = tt
  IsAlignment-lower a b n m ((c, d) ∷ qs) lo_a lo_b (ha, hb, hn, hm) (qa, qb, cn, dm, w, rest) =
      (omega arith, omega arith, cn, dm, w, rest)

  -- Alignments one behind the other make an alignment.
  pub IsAlignment-concat :
      (lo_a lo_b a b n m : ℕ) (ps qs : List (ℕ × ℕ))
      → (lo_a ≤ a) × (lo_b ≤ b) × (a ≤ n) × (b ≤ m)
      → IsAlignment (equal_weight eq) lo_a lo_b a b ps
      → IsAlignment (equal_weight eq) a b n m qs
      → IsAlignment (equal_weight eq) lo_a lo_b n m (ps ++ qs)
  IsAlignment-concat lo_a lo_b a b n m [] qs h p q = IsAlignment-lower a b n m qs lo_a lo_b h q
  IsAlignment-concat lo_a lo_b a b n m ((c, d) ∷ ps) qs (ha, hb, hn, hm) (pa, pb, ca, db, w, p) q =
      (
        pa,
        pb,
        omega arith,
        omega arith,
        w,
        IsAlignment-concat (suc c) (suc d) a b n m ps qs (ca, db, hn, hm) p q,
      )

  pub diagonal-IsAlignment :
      (count a b n m : ℕ)
      → IsEqualRun eq count a b
      → count + a ≤ n
      → count + b ≤ m
      → IsAlignment (equal_weight eq) a b n m (diagonal count a b)
  unfolding diagonal
  diagonal-IsAlignment zero a b n m run hn hm = tt
  diagonal-IsAlignment (suc count) a b n m (e, run) hn hm = (
    omega arith,
    omega arith,
    omega arith,
    omega arith,
    rw e (omega arith),
    diagonal-IsAlignment count (suc a) (suc b) n m run (omega arith) (omega arith),
  )

  shift-IsAlignment :
      (prefix lo_a lo_b n m : ℕ) (ps : List (ℕ × ℕ))
      → IsAlignment (λ i j. equal_weight eq (prefix + i) (prefix + j)) lo_a lo_b n m ps
      → IsAlignment
          (equal_weight eq)
          (prefix + lo_a)
          (prefix + lo_b)
          (prefix + n)
          (prefix + m)
          (shift prefix ps)
  unfolding shift
  shift-IsAlignment prefix lo_a lo_b n m [] p = tt
  shift-IsAlignment prefix lo_a lo_b n m ((a, b) ∷ ps) (pa, pb, an, bm, w, p) = (
    omega arith,
    omega arith,
    omega arith,
    omega arith,
    w,
    rw (add-suc prefix a, add-suc prefix b) at (shift-IsAlignment prefix (suc a) (suc b) n m ps p),
  )

  -- The pairs that `CombineMatches` puts together from the equal prefix, an alignment of the middle
  -- and the equal suffix are an alignment of the whole.
  pub combine_matches-IsAlignment :
      (n m prefix stop_a stop_b : ℕ) (middle : List (ℕ × ℕ))
      → IsTrimmed n m prefix stop_a stop_b
      → IsAlignment
          (λ i j. equal_weight eq (prefix + i) (prefix + j))
          0
          0
          (stop_a - prefix)
          (stop_b - prefix)
          middle
      → IsAlignment (equal_weight eq) 0 0 n m (combine_matches [] prefix middle stop_a stop_b n)
  unfolding combine_matches
  combine_matches-IsAlignment n m prefix stop_a stop_b middle t p =
      let (pa, pb, an, bm) = t.ordered in
      IsAlignment-concat 0 0 prefix prefix n m _ _
        (omega arith, omega arith, omega arith, omega arith)
        (diagonal-IsAlignment prefix 0 0 prefix prefix t.head_run (omega arith) (omega arith))
        (IsAlignment-concat prefix prefix stop_a stop_b n m _ _ (pa, pb, an, bm)
          (rw (add-zero prefix, back prefix stop_a pa, back prefix stop_b pb) at
            (shift-IsAlignment prefix 0 0 (stop_a - prefix) (stop_b - prefix) middle p))
          (diagonal-IsAlignment (n - stop_a) stop_a stop_b n m t.tail_run (omega arith)
            (omega (arith, t.tails))))
