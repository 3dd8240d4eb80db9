-- ===== src/Render/Hunks/Examples.antt =====
-- Ten pairs of lines with three changed ones, shown with one and two lines of context.
use diffmantic.Base.{
  ltb, ◌⊎◌, ℕ, ◌≡◌, refl, Bool, true, false, ◌&&◌, none, some, List, [], ◌∷◌, arith, get_or, length,
  take,
}
use diffmantic.Render.Hunks.{
  Interval, LineAlignmentPair, build_change_intervals, merge_hunks, compute_hunk_range, left, right,
  max_visible_line,
}
use diffmantic.Render.Hunks.Intervals.{IsSeparated, covered, build_change_intervals_lem}
use diffmantic.Render.Hunks.Merging.{any_near, merge_hunks_lem}
use diffmantic.Render.Hunks.Visible.{IsBound, IsMember, visible, max_visible_line_lem}
use diffmantic.Render.Hunks.Ranges.{Numbered, present, shown, header_range, compute_hunk_range_lem}

abbrev flags : List Bool
flags = false ∷ false ∷ true ∷ true ∷ false ∷ false ∷ false ∷ false ∷ true ∷ false ∷ []

abbrev span : ℕ → ℕ → Interval
span a b = record { start = a; end = b }

abbrev changes : List Interval
changes = span 2 3 ∷ span 8 8 ∷ []

abbrev both : ℕ → ℕ → LineAlignmentPair
both l r = record { left_line = some l; right_line = some r }

-- Line 2 of the left side is deleted and line 2 of the right side inserted.
abbrev aligned : List LineAlignmentPair
aligned =
    both 0 0
    ∷ both 1 1
    ∷ record { left_line = some 2; right_line = none }
    ∷ record { left_line = none; right_line = some 2 }
    ∷ both 3 3
    ∷ []

changes_of_flags : build_change_intervals flags ≡ changes
unfolding build_change_intervals
changes_of_flags = refl

apart : merge_hunks 10 1 changes ≡ (span 1 4 ∷ span 7 9 ∷ [])
unfolding merge_hunks
apart = refl

joined : merge_hunks 10 2 changes ≡ (span 0 9 ∷ [])
unfolding merge_hunks
joined = refl

header : compute_hunk_range (span 1 3) aligned true true ≡ (2, 2, 2, 2)
unfolding compute_hunk_range
header = refl

highest : max_visible_line (span 1 3 ∷ []) aligned ≡ 3
unfolding max_visible_line
highest = refl

build_change_intervals_lem_example :
    IsSeparated (length flags) 0 (build_change_intervals flags)
    × ((k : ℕ) → covered (build_change_intervals flags) k ≡ get_or flags k false)
build_change_intervals_lem_example = build_change_intervals_lem flags

changes-IsSeparated : IsSeparated 10 0 changes
changes-IsSeparated =
    (omega arith, omega arith, omega arith, (omega arith, omega arith, omega arith, tt))

merge_hunks_lem_example :
    IsSeparated 10 0 (merge_hunks 10 2 changes)
    × ((k : ℕ) → covered (merge_hunks 10 2 changes) k ≡ (ltb k 10 && any_near 10 2 changes k))
merge_hunks_lem_example = merge_hunks_lem 10 2 changes changes-IsSeparated

compute_hunk_range_lem_example :
    Numbered left (present left (take (span 1 3).start aligned)) (shown left (span 1 3) aligned)
    × Numbered right
        (present right (take (span 1 3).start aligned))
        (shown right (span 1 3) aligned)
    × (compute_hunk_range (span 1 3) aligned true false ≡ (2, 2, 2, 2))
unfolding header_range present
compute_hunk_range_lem_example =
    compute_hunk_range_lem (span 1 3) aligned true false (refl, (refl, (refl, (refl, tt))))
      (refl, (refl, (refl, (refl, tt)))) (omega arith)

max_visible_line_lem_example :
    IsBound (max_visible_line (span 1 3 ∷ []) aligned) (visible (span 1 3 ∷ []) aligned)
    × ((max_visible_line (span 1 3 ∷ []) aligned ≡ 0)
        ⊎ IsMember (max_visible_line (span 1 3 ∷ []) aligned) (visible (span 1 3 ∷ []) aligned))
max_visible_line_lem_example = max_visible_line_lem (span 1 3 ∷ []) aligned
