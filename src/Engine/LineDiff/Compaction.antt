-- ===== src/Engine/LineDiff/Compaction.antt =====
-- Compaction keeps the sequence of unchanged lines, so that the k-th unchanged line of one side still
-- stands against an equal k-th line of the other.
use diffmantic.Base.{
  ℕ, zero, suc, ◌+◌, ◌-◌, ◌≤◌, ◌<◌, ◌≡◌, ◌≢◌, refl, sym, ap, ℕ_discrete, ◌∙◌, Bool, true, false,
  ◌&&◌, List, [], arith, subst, fun_ext, get_or, dec_lt, leb→le, if◌then◌else◌, length, ltb, leb,
  ◌==◌, Bool-cases, inl, inr, &&-split, ltb→lt,
}
use diffmantic.Engine.WordDiff.Tokens.{Bytes}
use diffmantic.Engine.LineDiff.{
  group_end, slide_back, slide_forward, best_position, set_range, move_group, compact_from,
  compact_changes,
}
use diffmantic.Engine.LineDiff.Windows.{kept, window_step}
use diffmantic.Engine.LineDiff.Sliding.{
  flag, set_range-length, set_range_lem, group_end_lem, group_end_above, slide_back_lem,
  slide_forward_lem, best_position_lem,
}

module _ (lines : List Bytes) (changed : List Bool) (g : ℕ) where
  abbrev line : ℕ → Bytes
  line k = get_or lines k []

  -- The flags with the group moved to `pos`.
  placed : ℕ → ℕ → ℕ → Bool
  placed start pos k =
      if leb pos k && ltb k (pos + g)
      then true
      else if leb start k && ltb k (start + g)
      then false
      else flag changed k

  placed_step :
      (start pos : ℕ)
      → 0 < g
      → pos + g < length lines
      → line pos ≡ line (pos + g)
      → placed start pos (pos + g) ≡ false
      → placed start (suc pos) pos ≡ false
      → kept lines (placed start (suc pos)) ≡ kept lines (placed start pos)
  unfolding placed
  placed_step start pos p b e u u' =
      window_step lines pos (pos + g) (placed start pos) (placed start (suc pos)) [] (omega arith) b
        e (λ k h h'. ground arith) u u' (ground arith) (λ k h h'. ground arith)

  -- The group at `start` can be put anywhere between its first and its last position.
  module _ (start : ℕ) (p : 0 < g) (fits : start + g ≤ length lines) where
    abbrev earliest : ℕ
    earliest = slide_back lines changed g start

    abbrev latest : ℕ
    latest = slide_forward lines changed g (length lines) start

    slide_one :
        (pos : ℕ)
        → earliest ≤ pos
        → pos < latest
        → kept lines (placed start (suc pos)) ≡ kept lines (placed start pos)
    unfolding placed
    slide_one pos a b =
        let (low, back) = slide_back_lem lines changed g start in
        let (high, forth) = slide_forward_lem lines changed g (length lines) start in
        elim (dec_lt pos start) [
          | yes lt ↦
              let (same, free) = back pos a lt in
              placed_step start pos p (omega arith) same
                (elim (dec_lt (pos + g) start) [
                  | yes lt' ↦ ground (arith, (back (pos + g) (omega arith) lt').1)
                  | no ge' ↦ ground arith
                ])
                (ground (arith, free))
          | no ge ↦
              let (below, same, free) = forth pos (omega arith) b in
              placed_step start pos p below same (ground (arith, free))
                (elim (dec_lt pos (start + g)) [
                  | yes lt' ↦ ground arith
                  | no ge' ↦
                      let entered = (forth (pos - g) (omega arith) (omega arith)).2 in
                      let same : pos - g + g ≡ pos = omega arith in
                      ground (arith, subst (λ k. flag changed k ≡ false) same entered)
                ])
        ]

    slide_many :
        (d : ℕ)
        → earliest + d ≤ latest
        → kept lines (placed start (earliest + d)) ≡ kept lines (placed start earliest)
    slide_many zero h = ap (λ k. kept lines (placed start k)) (omega arith)
    slide_many (suc d) h =
        ap (λ k. kept lines (placed start k)) (omega arith)
        ∙ slide_one (earliest + d) (omega arith) (omega arith)
        ∙ slide_many d (omega arith)

    slide_any :
        (pos : ℕ)
        → earliest ≤ pos
        → pos ≤ latest
        → kept lines (placed start pos) ≡ kept lines (placed start earliest)
    slide_any pos a b =
        ap (λ k. kept lines (placed start k)) (omega arith)
        ∙ slide_many (pos - earliest) (omega arith)

    placed_same :
        ((k : ℕ) → start ≤ k → k < start + g → flag changed k ≡ true)
        → placed start start ≡ flag changed
    unfolding placed
    placed_same t = fun_ext (λ k. elim (Bool-cases (leb start k && ltb k (start + g))) [
      | inl i ↦
          let (above, below) = &&-split (leb start k) _ i in
          ground (arith, t k (leb→le start k above) (ltb→lt k (start + g) below))
      | inr o ↦ ground arith
    ])

    slide_lem :
        ((k : ℕ) → start ≤ k → k < start + g → flag changed k ≡ true)
        → kept lines (placed start (best_position lines changed g start))
          ≡ kept lines (flag changed)
    slide_lem t =
        let (low, _) = slide_back_lem lines changed g start in
        let (high, _) = slide_forward_lem lines changed g (length lines) start in
        let (a, b) = best_position_lem lines changed g start in
        slide_any (best_position lines changed g start) a b
        ∙ sym (slide_any start low high)
        ∙ ap (kept lines) (placed_same t)

    move_group_lem :
        (pos : ℕ)
        → length changed ≡ length lines
        → pos + g ≤ length lines
        → pos ≢ start
        → flag (move_group changed start g pos) ≡ placed start pos
    unfolding move_group placed
    move_group_lem pos e b ne =
        let cleared = set_range changed start g false in
        let size = set_range-length changed start g false in
        fun_ext (λ k. ground (
          arith,
          set_range_lem cleared pos g k true (omega (arith, size)),
          set_range_lem changed start g k false (omega arith),
        ))

  latest-fits :
      (start : ℕ)
      → start + g ≤ length lines
      → slide_forward lines changed g (length lines) start + g ≤ length lines
  latest-fits start h =
      let latest = slide_forward lines changed g (length lines) start in
      let (high, forth) = slide_forward_lem lines changed g (length lines) start in
      elim (dec_lt start latest) [
        | yes lt ↦ let (below, _, _) = forth (latest - 1) (omega arith) (omega arith) in omega arith
        | no ge ↦ omega arith
      ]

-- One group moved: the flags stay as many, and the sequence of unchanged lines is the same.
move_group-kept :
    (lines : List Bytes) (changed : List Bool) (start g : ℕ)
    → length changed ≡ length lines
    → 0 < g
    → start + g ≤ length lines
    → ((k : ℕ) → start ≤ k → k < start + g → flag changed k ≡ true)
    → kept lines (flag (move_group changed start g (best_position lines changed g start)))
      ≡ kept lines (flag changed)
unfolding move_group
move_group-kept lines changed start g e p fits t =
    let pos = best_position lines changed g start in
    let (_, b) = best_position_lem lines changed g start in
    let room = latest-fits lines changed g start fits in
    elim (ℕ_discrete pos start) [
      | yes same ↦ let q : (pos == start) ≡ true = ground (arith, same) in rw q refl
      | no ne ↦
          ap (kept lines) (move_group_lem lines changed g start p fits pos e (omega arith) ne)
          ∙ slide_lem lines changed g start p fits t
    ]

move_group-length :
    (changed : List Bool) (start g pos : ℕ)
    → length (move_group changed start g pos) ≡ length changed
unfolding move_group
move_group-length changed start g pos = elim (Bool-cases (pos == start)) [
  | inl t ↦ rw t refl
  | inr f ↦ rw f (
      set_range-length (set_range changed start g false) pos g true
      ∙ set_range-length changed start g false)
]

compact_from-kept :
    (lines : List Bytes) (fuel i : ℕ) (changed : List Bool)
    → length changed ≡ length lines
    → (length (compact_from lines fuel i changed) ≡ length lines)
      × (kept lines (flag (compact_from lines fuel i changed)) ≡ kept lines (flag changed))
unfolding compact_from
compact_from-kept lines zero i changed e = (e, refl)
compact_from-kept lines (suc fuel) i changed e =
    let n = length lines in
    let end = group_end changed n n i in
    let g = end - i in
    let pos = best_position lines changed g i in
    elim (Bool-cases (ltb i n)) [
      | inr out ↦ rw out (e, refl)
      | inl below ↦
          let less = ltb→lt i n below in
          elim (Bool-cases (flag changed i)) [
            | inr f ↦ rw (below, f) (compact_from-kept lines fuel (suc i) changed e)
            | inl t ↦
                let (_, high, all) = group_end_lem changed n n i in
                let above = group_end_above changed n n i less t (omega arith) in
                let one =
                  move_group-kept lines changed i g e (omega arith) (omega arith)
                    (λ k h h'. all k h (omega arith)) in
                let (size, same) =
                  compact_from-kept lines fuel (if ltb i pos then pos + g else end)
                    (move_group changed i g pos) (move_group-length changed i g pos ∙ e) in
                rw (below, t) (size, same ∙ one)
          ]
    ]

-- `compactChanges` keeps the sequence of unchanged lines, and the flags stay as many as the lines.
pub compact_changes-kept :
    (lines : List Bytes) (changed : List Bool)
    → length changed ≡ length lines
    → (length (compact_changes lines changed) ≡ length lines)
      × (kept lines (flag (compact_changes lines changed)) ≡ kept lines (flag changed))
unfolding compact_changes
compact_changes-kept lines changed e = compact_from-kept lines (length lines) 0 changed e
