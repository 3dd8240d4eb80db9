-- ===== src/Serialize/Grid/Listed.antt =====
-- The grid lists every line of both texts.
use diffmantic.Base.{
  ℕ, zero, suc, ◌+◌, ◌-◌, ◌≤◌, ◌<◌, ◌≡◌, refl, ◌∙◌, inl, inr, arith, some, List, [], ◌∷◌, ◌++◌, leb,
  Bool-cases, Option-cases, leb→le,
}
use diffmantic.Serialize.Listing.{
  IsListing, IsListing-same, IsListing-nil, IsListing-pair, IsListing-left, IsListing-right,
  IsListing-append,
}
use diffmantic.Serialize.Grid.{
  Anchor, Pairs, Aligner, left_run, right_run, emit, matched_line, sub_anchors,
}

pub left_run-IsListing : (s k d : ℕ) → IsListing s k d 0 (left_run s k)
unfolding left_run
left_run-IsListing s zero d = IsListing-nil s d
left_run-IsListing s (suc k) d = IsListing-left refl (left_run-IsListing (suc s) k d)

pub right_run-IsListing : (s d k : ℕ) → IsListing s 0 d k (right_run d k)
unfolding right_run
right_run-IsListing s d zero = IsListing-nil s d
right_run-IsListing s d (suc k) = IsListing-right refl (right_run-IsListing s (suc d) k)

-- The aligner returns a listing of the gap.
abbrev pub Lists : Aligner → ℕ → ℕ → ℕ → ℕ → Type 0
Lists gap s s_end d d_end =
    (ps : Pairs) × ((gap s s_end d d_end ≡ some ps) × IsListing s (s_end - s) d (d_end - d) ps)

-- It does so for every gap within `S` and `D` lines that has at most `F` lines on the left.
abbrev pub IsAligner : ℕ → ℕ → ℕ → Aligner → Type 0
IsAligner S D F gap =
    (s s_end d d_end : ℕ)
    → s ≤ s_end
    → d ≤ d_end
    → s_end ≤ S
    → d_end ≤ D
    → s_end - s ≤ F
    → Lists gap s s_end d d_end

-- Anchors that rise on both sides and lie within the gap.
abbrev pub RisingAnchors : ℕ → ℕ → ℕ → ℕ → List Anchor → Type 0
RisingAnchors s s_end d d_end [] = (s ≤ s_end) × (d ≤ d_end)
RisingAnchors s s_end d d_end (a ∷ anchors) =
    (s ≤ a.i) × (d ≤ a.j) × RisingAnchors (a.i + 1) s_end (a.j + 1) d_end anchors

pub RisingAnchors-end :
    (s s_end d d_end : ℕ) (anchors : List Anchor)
    → RisingAnchors s s_end d d_end anchors
    → (s ≤ s_end) × (d ≤ d_end)
RisingAnchors-end s s_end d d_end [] r = r
RisingAnchors-end s s_end d d_end (a ∷ anchors) (h, k, r) =
    let (p, q) = RisingAnchors-end (a.i + 1) s_end (a.j + 1) d_end anchors r in
    (omega arith, omega arith)

pub RisingAnchors-raise :
    (s d s' s_end d' d_end : ℕ) (anchors : List Anchor)
    → s ≤ s'
    → d ≤ d'
    → RisingAnchors s' s_end d' d_end anchors
    → RisingAnchors s s_end d d_end anchors
RisingAnchors-raise s d s' s_end d' d_end [] h k (p, q) = (omega arith, omega arith)
RisingAnchors-raise s d s' s_end d' d_end (a ∷ anchors) h k (p, q, r) =
    (omega arith, omega arith, r)

emit_step :
    (gap : Aligner) (a : Anchor) (anchors : List Anchor) (s s_end d d_end : ℕ)
    → s ≤ a.i
    → d ≤ a.j
    → a.i < s_end
    → a.j < d_end
    → Lists gap s a.i d a.j
    → Lists (emit gap anchors) (a.i + 1) s_end (a.j + 1) d_end
    → Lists (emit gap (a ∷ anchors)) s s_end d d_end
unfolding emit
emit_step gap a anchors s s_end d d_end h k h' k' (before, (e, l)) (rest, (f, r)) = (
  before ++ record { left_line = some a.i; right_line = some a.j } ∷ rest,
  (
    rw (e, f) refl,
    IsListing-same refl (omega arith) refl (omega arith) (
        IsListing-append before _ (omega arith) (omega arith) l
          (IsListing-pair (omega arith) (omega arith) r)),
  ),
)

module _ (S D F : ℕ) (gap : Aligner) (aligner : IsAligner S D F gap) (s_end d_end : ℕ)
    (inside_s : s_end ≤ S) (inside_d : d_end ≤ D) where
  pub emit-Lists :
      (anchors : List Anchor) (s d : ℕ)
      → s_end - s ≤ F
      → RisingAnchors s s_end d d_end anchors
      → Lists (emit gap anchors) s s_end d d_end
  unfolding emit
  emit-Lists [] s d small (h, k) = aligner s s_end d d_end h k inside_s inside_d small
  emit-Lists (a ∷ anchors) s d small (h, k, r) =
      let (p, q) = RisingAnchors-end (a.i + 1) s_end (a.j + 1) d_end anchors r in
      emit_step gap a anchors s s_end d d_end h k (omega arith) (omega arith)
        (aligner s a.i d a.j h k (omega arith) (omega arith) (omega arith))
        (emit-Lists anchors (a.i + 1) (a.j + 1) (omega arith) r)

  -- With an anchor, every gap has fewer lines on the left than the whole.
  pub emit_divided-Lists :
      (a : Anchor) (anchors : List Anchor) (s d : ℕ)
      → s_end - s ≤ suc F
      → RisingAnchors s s_end d d_end (a ∷ anchors)
      → Lists (emit gap (a ∷ anchors)) s s_end d d_end
  emit_divided-Lists a anchors s d small (h, k, r) =
      let (p, q) = RisingAnchors-end (a.i + 1) s_end (a.j + 1) d_end anchors r in
      emit_step gap a anchors s s_end d d_end h k (omega arith) (omega arith)
        (aligner s a.i d a.j h k (omega arith) (omega arith) (omega arith))
        (emit-Lists anchors (a.i + 1) (a.j + 1) (omega arith) r)

-- The lines on the right of a matching are below `n`.
abbrev pub IsBelow : ℕ → List (ℕ × ℕ) → Type 0
IsBelow n [] = Unit {0}
IsBelow n ((a, b) ∷ ms) = (b < n) × IsBelow n ms

matched_line-below :
    (n i j : ℕ) (ms : List (ℕ × ℕ)) → IsBelow n ms → matched_line ms i ≡ some j → j < n
unfolding matched_line
matched_line-below n i j [] below e = absurd (ground arith)
matched_line-below n i j ((a, b) ∷ ms) (h, below) e = elim (Option-cases (matched_line ms i)) [
  | inl f ↦ ground (arith, rw (f, matched_line) at e)
  | inr (k, f) ↦ matched_line-below n i j ms below (f ∙ rw (f, matched_line) at e)
]

pub sub_anchors-RisingAnchors :
    (matched : List (ℕ × ℕ)) (m n s_start d_start rounds i next : ℕ)
    → IsBelow n matched
    → i + rounds ≡ m
    → next ≤ n
    → RisingAnchors
        (s_start + i)
        (s_start + m)
        (d_start + next)
        (d_start + n)
        (sub_anchors matched s_start d_start rounds i next)
unfolding sub_anchors
sub_anchors-RisingAnchors matched m n s_start d_start zero i next below e h =
    (omega arith, omega arith)
sub_anchors-RisingAnchors matched m n s d (suc rounds) i next below e h =
    let skipped =
      RisingAnchors-raise (s + i) (d + next) (s + suc i) (s + m) (d + next) (d + n) _ (omega arith)
        (omega arith)
        (sub_anchors-RisingAnchors matched m n s d rounds (suc i) next below (omega arith) h) in
    elim (Option-cases (matched_line matched i)) [
      | inl f ↦ rw (f, sub_anchors) skipped
      | inr (j, f) ↦ elim (Bool-cases (leb next j)) [
        | inl fits ↦
            rw (f, sub_anchors, fits)
              (
                omega arith,
                omega (arith, leb→le next j fits),
                RisingAnchors-raise (s + i + 1) (d + j + 1) (s + suc i) (s + m) (d + suc j) (d + n)
                    _ (omega arith) (omega arith)
                    (sub_anchors-RisingAnchors matched m n s d rounds (suc i) (suc j) below
                      (omega arith) (matched_line-below n i j matched below f)),
              )
        | inr behind ↦ rw (f, sub_anchors, behind) skipped
      ]
    ]
