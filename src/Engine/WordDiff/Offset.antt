-- ===== src/Engine/WordDiff/Offset.antt =====
-- Texts cut at byte positions: slices, and what is left of a text outside some ranges.
use native.Mathlib.Nat.{sub_self, zero-add, suc-add}
use diffmantic.Base.{
  ℕ, zero, suc, ◌+◌, ◌-◌, ◌≤◌, ◌<◌, ◌≡◌, refl, sym, ap, subst, ◌∙◌, List, [], ◌∷◌, ◌++◌, arith, ltb,
  if◌then◌else◌, length, take, drop, get_or, append_assoc, Bool-cases, inl, inr, ltb→lt, ltb→ge,
}
use diffmantic.Engine.WordDiff.Tokens.{Bytes, WordToken, slice}
use diffmantic.Engine.WordDiff.Diff.{no_token}
use diffmantic.Engine.WordDiff.Tiling.{IsTiling}

take-nil : (n : ℕ) → ◌≡◌ {A = Bytes} (take n []) []
take-nil zero = refl
take-nil (suc n) = refl

drop-nil : (n : ℕ) → ◌≡◌ {A = Bytes} (drop n []) []
drop-nil zero = refl
drop-nil (suc n) = refl

take-append-take : (x y : ℕ) (t : Bytes) → take x t ++ take y (drop x t) ≡ take (x + y) t
take-append-take zero y t = rw zero-add
take-append-take (suc x) y [] = take-nil y ∙ sym (take-nil (suc x + y))
take-append-take (suc x) y (c ∷ t) = rw suc-add (ap (◌∷◌ c) (take-append-take x y t))

drop-drop : (x y : ℕ) (t : Bytes) → drop y (drop x t) ≡ drop (x + y) t
drop-drop zero y t = rw zero-add
drop-drop (suc x) y [] = drop-nil y ∙ sym (drop-nil (suc x + y))
drop-drop (suc x) y (c ∷ t) = rw suc-add (drop-drop x y t)

pub slice-append :
    (s : Bytes) (a b c : ℕ) → a ≤ b → b ≤ c → slice s a b ++ slice s b c ≡ slice s a c
unfolding slice
slice-append s a b c h k =
    let whole : a + (b - a) ≡ b = omega arith in
    let width : b - a + (c - b) ≡ c - a = omega arith in
    ap (λ t. take (b - a) (drop a s) ++ take (c - b) t)
      (ap (λ i. drop i s) (sym whole) ∙ sym (drop-drop a (b - a) s))
    ∙ take-append-take (b - a) (c - b) (drop a s)
    ∙ ap (λ i. take i (drop a s)) width

pub slice_self : (s : Bytes) (a : ℕ) → slice s a a ≡ []
unfolding slice
slice_self s a = rw (sub_self a)

-- What is left of `s` from `pos` on outside the ranges.
unfoldable pub keep : Bytes → ℕ → List (ℕ × ℕ) → Bytes
keep s pos [] = slice s pos (length s)
keep s pos ((a, b) ∷ rs) = slice s pos a ++ keep s b rs

-- The ranges rise from `pos` on without touching backwards, none is empty, and all end by `n`.
abbrev pub IsRanges : ℕ → ℕ → List (ℕ × ℕ) → Type 0
IsRanges n pos [] = pos ≤ n
IsRanges n pos ((a, b) ∷ rs) = (pos ≤ a) × (a < b) × IsRanges n b rs

pub IsRanges-le : (n pos : ℕ) (rs : List (ℕ × ℕ)) → IsRanges n pos rs → pos ≤ n
IsRanges-le n pos [] r = r
IsRanges-le n pos ((a, b) ∷ rs) (h, k, r) = omega (arith, IsRanges-le n b rs r)

pub IsRanges-lower :
    (n pos q : ℕ) (rs : List (ℕ × ℕ)) → pos ≤ q → IsRanges n q rs → IsRanges n pos rs
IsRanges-lower n pos q [] h r = omega arith
IsRanges-lower n pos q ((a, b) ∷ rs) h (k, l, r) = (omega arith, l, r)

pub keep_split :
    (s : Bytes) (pos q : ℕ) (rs : List (ℕ × ℕ))
    → pos ≤ q
    → IsRanges (length s) q rs
    → keep s pos rs ≡ slice s pos q ++ keep s q rs
unfolding keep
keep_split s pos q [] h r = sym (slice-append s pos q (length s) h r)
keep_split s pos q ((a, b) ∷ rs) h (k, l, r) =
    rw (← append_assoc (slice s pos q) (slice s q a) (keep s b rs), slice-append s pos q a h k)

-- The range from `a` to `b`, unless it is empty.
unfoldable pub span : ℕ → ℕ → List (ℕ × ℕ)
span a b = if ltb a b then (a, b) ∷ [] else []

pub keep-span :
    (s : Bytes) (a b : ℕ) (rs : List (ℕ × ℕ)) → a ≤ b → keep s a (span a b ++ rs) ≡ keep s b rs
unfolding keep span
keep-span s a b rs h = elim (Bool-cases (ltb a b)) [
  | inl wide ↦ rw (wide, slice_self s a)
  | inr empty ↦
      let e : a ≡ b = omega (arith, ltb→ge a b empty) in rw empty (ap (λ i. keep s i rs) e)
]

pub IsRanges-span :
    (n a b : ℕ) (rs : List (ℕ × ℕ)) → a ≤ b → IsRanges n b rs → IsRanges n a (span a b ++ rs)
unfolding span
IsRanges-span n a b rs h r = elim (Bool-cases (ltb a b)) [
  | inl wide ↦ rw wide (omega arith, ltb→lt a b wide, r)
  | inr empty ↦ rw empty (IsRanges-lower n a b rs h r)
]

-- Where token `k` starts, if the first starts at `lo`; behind the last token, where that ends.
pub offset : ℕ → List WordToken → ℕ → ℕ
offset lo [] k = lo
offset lo (t ∷ ts) zero = lo
offset lo (t ∷ ts) (suc k) = offset t.end ts k

pub offset-zero : (lo : ℕ) (ts : List WordToken) → offset lo ts 0 ≡ lo
unfolding offset
offset-zero lo [] = refl
offset-zero lo (t ∷ ts) = refl

pub offset-length :
    (n lo : ℕ) (ts : List WordToken) → IsTiling n lo ts → offset lo ts (length ts) ≡ n
unfolding offset
offset-length n lo [] tiles = tiles
offset-length n lo (t ∷ ts) (e, wide, fits, tiles) = offset-length n t.end ts tiles

pub offset_step :
    (n lo : ℕ) (ts : List WordToken) (k : ℕ)
    → IsTiling n lo ts
    → k < length ts
    → offset lo ts k < offset lo ts (suc k)
unfolding offset
offset_step n lo [] k tiles h = absurd (omega arith)
offset_step n lo (t ∷ ts) zero (e, wide, fits, tiles) h = rw (offset-zero t.end ts) wide
offset_step n lo (t ∷ ts) (suc k) (e, wide, fits, tiles) h =
    offset_step n t.end ts k tiles (omega arith)

offset_rise :
    (n lo : ℕ) (ts : List WordToken) (d k : ℕ)
    → IsTiling n lo ts
    → d + k ≤ length ts
    → offset lo ts k + d ≤ offset lo ts (d + k)
offset_rise n lo ts zero k tiles h = rw zero-add (omega arith)
offset_rise n lo ts (suc d) k tiles h = rw suc-add (
    omega (
      arith,
      offset_rise n lo ts d k tiles (omega arith),
      offset_step n lo ts (d + k) tiles (omega arith),
    ))

-- Token offsets rise with the tokens, by a byte or more for each token.
pub offset_mono :
    (n lo : ℕ) (ts : List WordToken) (a b : ℕ)
    → IsTiling n lo ts
    → a ≤ b
    → b ≤ length ts
    → offset lo ts a + (b - a) ≤ offset lo ts b
offset_mono n lo ts a b tiles h k =
    let e : b - a + a ≡ b = omega arith in
    subst (λ i. offset lo ts a + (b - a) ≤ offset lo ts i) e
      (offset_rise n lo ts (b - a) a tiles (omega arith))

-- The byte ranges that the tokens carry, as offsets.
pub start-offset :
    (n lo : ℕ) (ts : List WordToken) (k : ℕ)
    → IsTiling n lo ts
    → k < length ts
    → (get_or ts k no_token).start ≡ offset lo ts k
unfolding offset
start-offset n lo [] k tiles h = absurd (omega arith)
start-offset n lo (t ∷ ts) zero (e, wide, fits, tiles) h = e
start-offset n lo (t ∷ ts) (suc k) (e, wide, fits, tiles) h =
    start-offset n t.end ts k tiles (omega arith)

pub end-offset :
    (n lo : ℕ) (ts : List WordToken) (k : ℕ)
    → IsTiling n lo ts
    → k < length ts
    → (get_or ts k no_token).end ≡ offset lo ts (suc k)
unfolding offset
end-offset n lo [] k tiles h = absurd (omega arith)
end-offset n lo (t ∷ ts) zero (e, wide, fits, tiles) h = sym (offset-zero t.end ts)
end-offset n lo (t ∷ ts) (suc k) (e, wide, fits, tiles) h =
    end-offset n t.end ts k tiles (omega arith)
