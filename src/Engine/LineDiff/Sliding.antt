-- ===== src/Engine/LineDiff/Sliding.antt =====
-- The loops of compaction: the flags that are written, the group that is found, and the range of
-- positions that it can slide to.
use diffmantic.Base.{
  ℕ, zero, suc, ◌+◌, ◌-◌, ◌≤◌, ◌<◌, ◌≡◌, refl, sym, ℕ_discrete, max, ◌∙◌, Bool, true, false, not,
  ◌&&◌, List, [], arith, subst, get_or, if◌then◌else◌, length, set, ltb, leb, ◌==◌, Bool-cases, inl,
  inr, &&-split, ltb→lt, length-set, get_or-set_self, get_or-set_ne,
}
use diffmantic.Engine.WordDiff.Tokens.{Bytes}
use diffmantic.Engine.WordDiff.Diff.{equal_bytes}
use diffmantic.Engine.WordDiff.Slots.{equal_bytes→eq}
use diffmantic.Engine.LineDiff.{
  group_end, slide_back, slide_forward, best_from, score_change_group, best_position, set_range,
}

abbrev pub flag : List Bool → ℕ → Bool
flag changed k = get_or changed k false

pub set_range-length :
    (changed : List Bool) (start count : ℕ) (v : Bool)
    → length (set_range changed start count v) ≡ length changed
unfolding set_range
set_range-length changed start zero v = refl
set_range-length changed start (suc count) v =
    set_range-length (set changed start v) (suc start) count v ∙ length-set changed start v

pub set_range_lem :
    (changed : List Bool) (start count k : ℕ) (v : Bool)
    → start + count ≤ length changed
    → flag (set_range changed start count v) k
      ≡ (if leb start k && ltb k (start + count) then v else flag changed k)
unfolding set_range
set_range_lem changed start zero k v h = ground arith
set_range_lem changed start (suc count) k v h = ground (
  arith,
  set_range_lem (set changed start v) (suc start) count k v
      (omega (arith, length-set changed start v)),
  get_or-set_self changed start v false (omega arith),
  get_or-set_ne changed start k v false,
)

pub group_end_lem :
    (changed : List Bool) (n fuel i : ℕ)
    → (i ≤ group_end changed n fuel i)
      × (group_end changed n fuel i ≤ max i n)
      × ((k : ℕ) → i ≤ k → k < group_end changed n fuel i → flag changed k ≡ true)
unfolding group_end
group_end_lem changed n zero i = (omega arith, omega arith, λ k a b. absurd (omega arith))
group_end_lem changed n (suc fuel) i = elim (Bool-cases (ltb i n && flag changed i)) [
  | inl t ↦
      let (below, set) = &&-split (ltb i n) (flag changed i) t in
      let less = ltb→lt i n below in
      let (a, b, c) = group_end_lem changed n fuel (suc i) in
      rw t (
        omega arith,
        omega arith,
        λ k h h'. elim (ℕ_discrete k i) [
          | yes e ↦ subst (λ k. flag changed k ≡ true) (sym e) set
          | no ne ↦ c k (omega arith) h'
        ],
      )
  | inr f ↦ rw f (omega arith, omega arith, λ k a b. absurd (omega arith))
]

pub group_end_above :
    (changed : List Bool) (n fuel i : ℕ)
    → i < n
    → flag changed i ≡ true
    → 0 < fuel
    → i < group_end changed n fuel i
unfolding group_end
group_end_above changed n zero i h t p = absurd (omega arith)
group_end_above changed n (suc fuel) i h t p =
    let (a, _, _) = group_end_lem changed n fuel (suc i) in ground arith

not_lem : (b : Bool) → not b ≡ true → b ≡ false
not_lem b h = ground arith

module _ (lines : List Bytes) (changed : List Bool) (g : ℕ) where
  abbrev line : ℕ → Bytes
  line k = get_or lines k []

  pub slide_back_lem :
      (start : ℕ)
      → (slide_back lines changed g start ≤ start)
        × ((k : ℕ)
            → slide_back lines changed g start ≤ k
            → k < start
            → (line k ≡ line (k + g)) × (flag changed k ≡ false))
  unfolding slide_back
  slide_back_lem zero = (omega arith, λ k a b. absurd (omega arith))
  slide_back_lem (suc e) =
      elim (Bool-cases (equal_bytes (line e) (line (e + g)) && not (flag changed e))) [
        | inl t ↦
            let (same, free) = &&-split (equal_bytes (line e) (line (e + g))) _ t in
            let (a, b) = slide_back_lem e in
            rw t (
              omega arith,
              λ k h h'. elim (ℕ_discrete k e) [
                | yes q ↦
                    subst (λ k. (line k ≡ line (k + g)) × (flag changed k ≡ false)) (sym q)
                      (equal_bytes→eq (line e) (line (e + g)) same, not_lem _ free)
                | no ne ↦ b k h (omega arith)
              ],
            )
        | inr f ↦ rw f (omega arith, λ k a b. absurd (omega arith))
      ]

  pub slide_forward_lem :
      (fuel start : ℕ)
      → (start ≤ slide_forward lines changed g fuel start)
        × ((k : ℕ)
            → start ≤ k
            → k < slide_forward lines changed g fuel start
            → (k + g < length lines) × (line k ≡ line (k + g)) × (flag changed (k + g) ≡ false))
  unfolding slide_forward
  slide_forward_lem zero start = (omega arith, λ k a b. absurd (omega arith))
  slide_forward_lem (suc fuel) start =
      elim (Bool-cases (
        ltb (start + g) (length lines)
        && equal_bytes (line start) (line (start + g))
        && not (flag changed (start + g)))) [
          | inl t ↦
              let (left, free) = &&-split _ (not (flag changed (start + g))) t in
              let (below, same) = &&-split (ltb (start + g) (length lines)) _ left in
              let (a, b) = slide_forward_lem fuel (suc start) in
              rw t (
                omega arith,
                λ k h h'. elim (ℕ_discrete k start) [
                  | yes q ↦
                      subst
                        (λ k.
                          (k + g < length lines)
                          × (line k ≡ line (k + g))
                          × (flag changed (k + g) ≡ false))
                        (sym q) (ltb→lt _ _ below, equal_bytes→eq _ _ same, not_lem _ free)
                  | no ne ↦ b k (omega arith) h'
                ],
              )
          | inr f ↦ rw f (omega arith, λ k a b. absurd (omega arith))
        ]

  best_from_lem :
      (count pos best score lo : ℕ)
      → lo ≤ pos
      → lo ≤ best
      → best < pos + count
      → (lo ≤ best_from lines changed g count pos best score)
        × (best_from lines changed g count pos best score < pos + count)
  unfolding best_from
  best_from_lem zero pos best score lo a b c = (b, c)
  best_from_lem (suc count) pos best score lo a b c =
      let s = score_change_group lines pos (pos + g) in
      elim (Bool-cases (ltb score s)) [
        | inl t ↦
            let (x, y) = best_from_lem count (suc pos) pos s lo (omega arith) a (omega arith) in
            rw t (x, omega arith)
        | inr f ↦
            let (x, y) =
              best_from_lem count (suc pos) best score lo (omega arith) b (omega arith) in
            rw f (x, omega arith)
      ]

  pub best_position_lem :
      (start : ℕ)
      → (slide_back lines changed g start ≤ best_position lines changed g start)
        × (best_position lines changed g start ≤ slide_forward lines changed g (length lines) start)
  unfolding best_position
  best_position_lem start =
      let earliest = slide_back lines changed g start in
      let latest = slide_forward lines changed g (length lines) start in
      let (low, _) = slide_back_lem start in
      let (high, _) = slide_forward_lem (length lines) start in
      let (a, b) =
        best_from_lem (suc latest - earliest) earliest start
          (score_change_group lines start (start + g)) earliest (omega arith) low (omega arith) in
      elim (Bool-cases (earliest == latest)) [
        | inl t ↦ rw t (low, high)
        | inr f ↦ rw f (a, omega arith)
      ]
