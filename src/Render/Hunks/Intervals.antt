-- ===== src/Render/Hunks/Intervals.antt =====
-- The change intervals are the maximal runs of changed pairs.
use native.Mathlib.Nat.{sub-zero}
use diffmantic.Base.{
  ℕ, suc, ◌+◌, ◌-◌, ◌≤◌, ◌<◌, ◌≡◌, ◌∙◌, Bool, true, false, ◌&&◌, ◌||◌, none, some, List, [], ◌∷◌,
  arith, leb, ltb, ◌==◌, if◌then◌else◌, length, get_or, dec_lt,
}
use diffmantic.Render.Hunks.{Interval, intervals_from, build_change_intervals}

unfoldable pub covers : Interval → ℕ → Bool
covers h k = leb h.start k && leb k h.end

unfoldable pub covered : List Interval → ℕ → Bool
covered [] k = false
covered (h ∷ hs) k = covers h k || covered hs k

-- The intervals rise from `lo` to below `n`, and a gap of at least one index lies between them.
abbrev pub IsSeparated : ℕ → ℕ → List Interval → Type 0
IsSeparated n lo [] = Unit {0}
IsSeparated n lo (h ∷ hs) =
    (lo ≤ h.start) × (h.start ≤ h.end) × (h.end < n) × IsSeparated n (h.end + 2) hs

IsSeparated-lower :
    (n lo lo' : ℕ) (hs : List Interval) → lo' ≤ lo → IsSeparated n lo hs → IsSeparated n lo' hs
IsSeparated-lower n lo lo' [] h s = tt
IsSeparated-lower n lo lo' (i ∷ hs) h (a, b, c, d) = (omega arith, b, c, d)

-- The flag of an index behind those that are passed.
flag : List Bool → ℕ → ℕ → Bool
flag flags i k = leb i k && get_or flags (k - i) false

mutual
  unfolding intervals_from

  closed-IsSeparated :
      (flags : List Bool) (i n : ℕ)
      → i + length flags ≡ n
      → IsSeparated n i (intervals_from i none flags)
  closed-IsSeparated [] i n e = tt
  closed-IsSeparated (true ∷ flags) i n e =
      open-IsSeparated flags (suc i) i n (omega arith) (omega arith)
  closed-IsSeparated (false ∷ flags) i n e =
      IsSeparated-lower n (suc i) i _ (omega arith)
        (closed-IsSeparated flags (suc i) n (omega arith))

  open-IsSeparated :
      (flags : List Bool) (i start n : ℕ)
      → start < i
      → i + length flags ≡ n
      → IsSeparated n start (intervals_from i (some start) flags)
  open-IsSeparated [] i start n h e = (omega arith, omega arith, omega arith, tt)
  open-IsSeparated (true ∷ flags) i start n h e =
      open-IsSeparated flags (suc i) start n (omega arith) (omega arith)
  open-IsSeparated (false ∷ flags) i start n h e = (
    omega arith,
    omega arith,
    omega arith,
    IsSeparated-lower n (suc i) (i - 1 + 2) _ (omega arith)
        (closed-IsSeparated flags (suc i) n (omega arith)),
  )

flag-cons :
    (b : Bool) (flags : List Bool) (i k : ℕ)
    → flag (b ∷ flags) i k ≡ (if k == i then b else flag flags (suc i) k)
unfolding flag
flag-cons b flags i k = elim (dec_lt i k) [
  | yes h ↦ let e : k - i ≡ suc (k - suc i) = omega arith in rw e (ground arith)
  | no h ↦ elim (dec_lt k i) [
    | yes below ↦ ground arith
    | no same ↦ let e : k - i ≡ 0 = omega arith in rw e (ground arith)
  ]
]

flag_below : (flags : List Bool) (i k : ℕ) → k < i → flag flags i k ≡ false
unfolding flag
flag_below flags i k h = ground arith

flag-zero : (flags : List Bool) (k : ℕ) → flag flags 0 k ≡ get_or flags k false
unfolding flag
flag-zero flags k = rw (sub-zero k) (ground arith)

flag-nil : (i k : ℕ) → flag [] i k ≡ false
unfolding flag
flag-nil i k = ground arith

mutual
  unfolding intervals_from covered covers

  covered-closed :
      (flags : List Bool) (i k : ℕ) → covered (intervals_from i none flags) k ≡ flag flags i k
  covered-closed [] i k = ground (arith, flag-nil i k)
  covered-closed (true ∷ flags) i k =
      ground (arith, covered-open flags (suc i) i k, flag-cons true flags i k)
  covered-closed (false ∷ flags) i k =
      ground (
        arith,
        covered-closed flags (suc i) k,
        flag-cons false flags i k,
        flag_below flags (suc i) k,
      )

  -- While a run is open its indices so far count as covered.
  covered-open :
      (flags : List Bool) (i start k : ℕ)
      → start < i
      → covered (intervals_from i (some start) flags) k
        ≡ ((leb start k && ltb k i) || flag flags i k)
  covered-open [] i start k h = ground (arith, flag-nil i k)
  covered-open (true ∷ flags) i start k h =
      ground (arith, covered-open flags (suc i) start k, flag-cons true flags i k)
  covered-open (false ∷ flags) i start k h =
      ground (
        arith,
        covered-closed flags (suc i) k,
        flag-cons false flags i k,
        flag_below flags (suc i) k,
      )

-- `BuildChangeIntervals` returns intervals in rising order, each within the pairs and with an
-- unchanged pair between any two, and a pair lies in one of them exactly when it is changed.
pub build_change_intervals_lem :
    (flags : List Bool)
    → IsSeparated (length flags) 0 (build_change_intervals flags)
      × ((k : ℕ) → covered (build_change_intervals flags) k ≡ get_or flags k false)
unfolding build_change_intervals
build_change_intervals_lem flags = (
  closed-IsSeparated flags 0 (length flags) (omega arith),
  λ k. covered-closed flags 0 k ∙ flag-zero flags k,
)
