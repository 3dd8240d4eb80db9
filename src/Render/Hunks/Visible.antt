-- ===== src/Render/Hunks/Visible.antt =====
-- The highest line number that the hunks show.
use diffmantic.Base.{
  ℕ, ◌+◌, ◌-◌, ◌≤◌, ◌≡◌, ◌⊎◌, inl, inr, refl, sym, ap, ◌∙◌, max, List, [], ◌∷◌, ◌++◌, arith, take,
  drop, dec_lt,
}
use diffmantic.Render.Hunks.{
  Interval, LineAlignmentPair, one_based, max_line, max_visible_from, max_visible_line,
}

-- The numbers of the lines of both sides, from 1 on; 0 where a pair has no line.
abbrev pub numbers : List LineAlignmentPair → List ℕ
numbers [] = []
numbers (p ∷ ps) = one_based p.left_line ∷ one_based p.right_line ∷ numbers ps

abbrev pub visible : List Interval → List LineAlignmentPair → List ℕ
visible [] pairs = []
visible (h ∷ hs) pairs =
    numbers (take (h.end + 1 - h.start) (drop h.start pairs)) ++ visible hs pairs

abbrev pub highest : ℕ → List ℕ → ℕ
highest n [] = n
highest n (x ∷ xs) = highest (max n x) xs

-- No number of the list is above `n`.
abbrev pub IsBound : ℕ → List ℕ → Type 0
IsBound n [] = Unit {0}
IsBound n (x ∷ xs) = (x ≤ n) × IsBound n xs

abbrev pub IsMember : ℕ → List ℕ → Type 0
IsMember n [] = ⊥
IsMember n (x ∷ xs) = (n ≡ x) ⊎ IsMember n xs

highest-ge : (xs : List ℕ) (n : ℕ) → n ≤ highest n xs
highest-ge [] n = omega arith
highest-ge (x ∷ xs) n = omega (arith, highest-ge xs (max n x))

highest-IsBound : (xs : List ℕ) (n : ℕ) → IsBound (highest n xs) xs
highest-IsBound [] n = tt
highest-IsBound (x ∷ xs) n = (omega (arith, highest-ge xs (max n x)), highest-IsBound xs (max n x))

max_cases : (a b : ℕ) → (max a b ≡ a) ⊎ (max a b ≡ b)
max_cases a b = elim (dec_lt a b) [ yes lt ↦ inr (omega arith) | no ge ↦ inl (omega arith) ]

highest-IsMember : (xs : List ℕ) (n : ℕ) → (highest n xs ≡ n) ⊎ IsMember (highest n xs) xs
highest-IsMember [] n = inl refl
highest-IsMember (x ∷ xs) n = elim (highest-IsMember xs (max n x)) [
  | inr member ↦ inr (inr member)
  | inl same ↦ elim (max_cases n x) [
    | inl left ↦ inl (same ∙ left)
    | inr right ↦ inr (inl (same ∙ right))
  ]
]

highest-append : (xs ys : List ℕ) (n : ℕ) → highest n (xs ++ ys) ≡ highest (highest n xs) ys
highest-append [] ys n = refl
highest-append (x ∷ xs) ys n = highest-append xs ys (max n x)

max_line_lem : (ps : List LineAlignmentPair) (n : ℕ) → max_line n ps ≡ highest n (numbers ps)
unfolding max_line
max_line_lem [] n = refl
max_line_lem (p ∷ ps) n =
    max_line_lem ps (max (max n (one_based p.left_line)) (one_based p.right_line))

max_visible_from_lem :
    (hs : List Interval) (pairs : List LineAlignmentPair) (n : ℕ)
    → max_visible_from n hs pairs ≡ highest n (visible hs pairs)
unfolding max_visible_from
max_visible_from_lem [] pairs n = refl
max_visible_from_lem (h ∷ hs) pairs n =
    let shown = take (h.end + 1 - h.start) (drop h.start pairs) in
    max_visible_from_lem hs pairs (max_line n shown)
    ∙ ap (λ m. highest m (visible hs pairs)) (max_line_lem shown n)
    ∙ sym (highest-append (numbers shown) (visible hs pairs) n)

-- `MaxVisibleLine` is at least every line number that the hunks show, and one of them unless it is 0.
pub max_visible_line_lem :
    (hunks : List Interval) (pairs : List LineAlignmentPair)
    → IsBound (max_visible_line hunks pairs) (visible hunks pairs)
      × ((max_visible_line hunks pairs ≡ 0)
          ⊎ IsMember (max_visible_line hunks pairs) (visible hunks pairs))
unfolding max_visible_line
max_visible_line_lem hunks pairs =
    rw (max_visible_from_lem hunks pairs 0)
      (highest-IsBound (visible hunks pairs) 0, highest-IsMember (visible hunks pairs) 0)
