-- ===== src/Render/Hunks/Merging.antt =====
-- The hunks are the change intervals with their context, joined where they meet.
use diffmantic.Base.{
  ℕ, ◌+◌, ◌-◌, ◌≤◌, ◌<◌, ◌≡◌, refl, min, Bool, true, false, ◌&&◌, ◌||◌, List, [], ◌∷◌, arith, leb,
  ltb, map, Bool-cases, inl, inr, leb→le, leb→gt, ap, ◌∙◌,
}
use diffmantic.Render.Hunks.{Interval, expand, merge_from, merge_hunks}
use diffmantic.Render.Hunks.Intervals.{covers, covered, IsSeparated}

module _ (total_pairs context_lines : ℕ) where
  abbrev Exp : Interval → Interval
  Exp = expand total_pairs context_lines

  -- The intervals to come start at `lo` or later, so their expansions end no earlier than `last` and
  -- start no earlier.
  abbrev Follows : Interval → ℕ → Type 0
  Follows last lo =
      (last.start ≤ lo - context_lines) × (last.end ≤ min (total_pairs - 1) (lo + context_lines))

  or_assoc : (a b c : Bool) → ((a || b) || c) ≡ (a || (b || c))
  or_assoc true b c = refl
  or_assoc false b c = refl

  merge_from-IsSeparated :
      (last : Interval) (cis : List Interval) (lo bottom : ℕ)
      → IsSeparated total_pairs lo cis
      → Follows last lo
      → (bottom ≤ last.start) × (last.start ≤ last.end) × (last.end < total_pairs)
      → IsSeparated total_pairs bottom (merge_from total_pairs context_lines last cis)
  unfolding merge_from expand
  merge_from-IsSeparated last [] lo bottom s f (a, b, c) = (a, b, c, tt)
  merge_from-IsSeparated last (ci ∷ cis) lo bottom (p, q, r, s) f (a, b, c) =
      elim (Bool-cases (leb (Exp ci).start (last.end + 1))) [
        | inl meets ↦ rw meets (
            merge_from-IsSeparated (record last { end = (Exp ci).end }) cis (ci.end + 2) bottom s
              (omega arith) (omega arith))
        | inr apart ↦ rw apart (
          a,
          b,
          c,
          merge_from-IsSeparated (Exp ci) cis (ci.end + 2) (last.end + 2) s (omega arith)
              (omega (arith, leb→gt _ _ apart)),
        )
      ]

  covers-join :
      (last h : Interval) (k : ℕ)
      → last.start ≤ h.start
      → h.start ≤ last.end + 1
      → last.end ≤ h.end
      → last.start ≤ last.end
      → covers (record last { end = h.end }) k ≡ (covers last k || covers h k)
  unfolding covers
  covers-join last h k a b c d = ground arith

  merge_from-covered :
      (last : Interval) (cis : List Interval) (lo k : ℕ)
      → IsSeparated total_pairs lo cis
      → Follows last lo
      → last.start ≤ last.end
      → covered (merge_from total_pairs context_lines last cis) k
        ≡ (covers last k || covered (map Exp cis) k)
  unfolding merge_from covered expand
  merge_from-covered last [] lo k s f a = refl
  merge_from-covered last (ci ∷ cis) lo k (p, q, r, s) f a =
      elim (Bool-cases (leb (Exp ci).start (last.end + 1))) [
        | inl meets ↦
            let whole = record last { end = (Exp ci).end } in
            let rest = covered (map Exp cis) k in
            rw meets (
              merge_from-covered whole cis (ci.end + 2) k s (omega arith) (omega arith)
              ∙ ap (λ b. b || rest)
                  (covers-join last (Exp ci) k (omega arith) (leb→le _ _ meets) (omega arith) a)
              ∙ or_assoc (covers last k) (covers (Exp ci) k) rest)
        | inr apart ↦ rw apart (
            ap (λ b. covers last k || b)
              (merge_from-covered (Exp ci) cis (ci.end + 2) k s (omega arith) (omega arith)))
      ]

  -- The pairs at most `context_lines` away from the interval.
  abbrev pub near : Interval → ℕ → Bool
  near ci k = leb ci.start (k + context_lines) && leb k (ci.end + context_lines)

  abbrev pub any_near : List Interval → ℕ → Bool
  any_near [] k = false
  any_near (ci ∷ cis) k = near ci k || any_near cis k

  covers-expand :
      (ci : Interval) (k : ℕ)
      → ci.end < total_pairs
      → covers (Exp ci) k ≡ (ltb k total_pairs && near ci k)
  unfolding covers expand
  covers-expand ci k h = ground arith

  covered-expand :
      (cis : List Interval) (lo k : ℕ)
      → IsSeparated total_pairs lo cis
      → covered (map Exp cis) k ≡ (ltb k total_pairs && any_near cis k)
  unfolding covered
  covered-expand [] lo k s = ground arith
  covered-expand (ci ∷ cis) lo k (p, q, r, s) =
      let first = covers-expand ci k r in
      let others = covered-expand cis (ci.end + 2) k s in rw (first, others) (ground arith)

  -- For change intervals that `build_change_intervals` can give: the hunks rise, do not touch, lie
  -- within the pairs, and cover exactly the pairs that are at most `contextLines` away from a change.
  pub merge_hunks_lem :
      (cis : List Interval)
      → IsSeparated total_pairs 0 cis
      → IsSeparated total_pairs 0 (merge_hunks total_pairs context_lines cis)
        × ((k : ℕ)
            → covered (merge_hunks total_pairs context_lines cis) k
              ≡ (ltb k total_pairs && any_near cis k))
  unfolding merge_hunks expand covered
  merge_hunks_lem [] s = (tt, λ k. covered-expand [] 0 k tt)
  merge_hunks_lem (ci ∷ cis) (p, q, r, s) = (
    merge_from-IsSeparated (Exp ci) cis (ci.end + 2) 0 s (omega arith, omega arith)
        (omega arith, omega arith, omega arith),
    λ k.
        merge_from-covered (Exp ci) cis (ci.end + 2) k s (omega arith, omega arith) (omega arith)
        ∙ covered-expand (ci ∷ cis) 0 k (p, q, r, s),
  )
