-- ===== src/Serialize/Listing.antt =====
-- Pairs of the grid that list the lines of both sides, each once and in order.
use diffmantic.Base.{
  ℕ, suc, ◌+◌, ◌≡◌, refl, ap, ◌∙◌, subst, arith, Option-cases, inl, inr, Option, none, some, List,
  [], ◌∷◌, ◌++◌,
}
use diffmantic.Render.Hunks.{LineAlignmentPair, left, right}
use diffmantic.Render.Hunks.Ranges.{Numbered, present}

-- On the left the `m` lines from `s` on, on the right the `n` lines from `d` on.
pub record IsListing (s m d n : ℕ) (ps : List LineAlignmentPair) : Type 0 where
  pub left_lines : Numbered left s ps
  pub left_count : present left ps ≡ m
  pub right_lines : Numbered right d ps
  pub right_count : present right ps ≡ n

pub IsListing-nil : (s d : ℕ) → IsListing s 0 d 0 []
unfolding present
IsListing-nil s d = record {
  left_lines = tt;
  left_count = refl;
  right_lines = tt;
  right_count = refl;
}

pub IsListing-same :
    {s m d n s' m' d' n' : ℕ} {ps : List LineAlignmentPair}
    → s ≡ s'
    → m ≡ m'
    → d ≡ d'
    → n ≡ n'
    → IsListing s m d n ps
    → IsListing s' m' d' n' ps
IsListing-same {ps = ps} e f g q h = record {
  left_lines = subst (λ x. Numbered left x ps) e h.left_lines;
  left_count = h.left_count ∙ f;
  right_lines = subst (λ x. Numbered right x ps) g h.right_lines;
  right_count = h.right_count ∙ q;
}

module _ {s m d n : ℕ} {ps : List LineAlignmentPair} where
  pub IsListing-pair :
      {s' d' : ℕ}
      → s' ≡ suc s
      → d' ≡ suc d
      → IsListing s' m d' n ps
      → IsListing s (suc m) d (suc n) (record { left_line = some s; right_line = some d } ∷ ps)
  unfolding present
  IsListing-pair e f h = record {
    left_lines = (refl, subst (λ x. Numbered left x ps) e h.left_lines);
    left_count = ap suc h.left_count;
    right_lines = (refl, subst (λ x. Numbered right x ps) f h.right_lines);
    right_count = ap suc h.right_count;
  }

  pub IsListing-left :
      {s' : ℕ}
      → s' ≡ suc s
      → IsListing s' m d n ps
      → IsListing s (suc m) d n (record { left_line = some s; right_line = none } ∷ ps)
  unfolding present
  IsListing-left e h = record {
    left_lines = (refl, subst (λ x. Numbered left x ps) e h.left_lines);
    left_count = ap suc h.left_count;
    right_lines = h.right_lines;
    right_count = h.right_count;
  }

  pub IsListing-right :
      {d' : ℕ}
      → d' ≡ suc d
      → IsListing s m d' n ps
      → IsListing s m d (suc n) (record { left_line = none; right_line = some d } ∷ ps)
  unfolding present
  IsListing-right f h = record {
    left_lines = h.left_lines;
    left_count = h.left_count;
    right_lines = (refl, subst (λ x. Numbered right x ps) f h.right_lines);
    right_count = ap suc h.right_count;
  }

module _ (side : LineAlignmentPair → Option ℕ) where
  present-append :
      (xs ys : List LineAlignmentPair) → present side (xs ++ ys) ≡ present side xs + present side ys
  unfolding present
  present-append [] ys = omega arith
  present-append (p ∷ xs) ys = elim (Option-cases (side p)) [
    | inl e ↦ rw (e, present) (present-append xs ys)
    | inr (line, e) ↦ rw (e, present) (ap suc (present-append xs ys) ∙ omega arith)
  ]

  Numbered-append :
      (xs ys : List LineAlignmentPair) (s s' : ℕ)
      → s + present side xs ≡ s'
      → Numbered side s xs
      → Numbered side s' ys
      → Numbered side s (xs ++ ys)
  unfolding present
  Numbered-append [] ys s s' e h k = subst (λ x. Numbered side x ys) (omega arith) k
  Numbered-append (p ∷ xs) ys s s' e h k = elim (Option-cases (side p)) [
    | inl q ↦
        rw (q, Numbered)
          (Numbered-append xs ys s s' (rw (q, present) at e) (rw (q, Numbered) at h) k)
    | inr (line, q) ↦
        let count : s + suc (present side xs) ≡ s' = rw (q, present) at e in
        let (this, rest) = rw (q, Numbered) at h in
        rw (q, Numbered) (this, Numbered-append xs ys (suc s) s' (omega arith) rest k)
  ]

pub IsListing-append :
    {s m d n s' m' d' n' : ℕ} (xs ys : List LineAlignmentPair)
    → s + m ≡ s'
    → d + n ≡ d'
    → IsListing s m d n xs
    → IsListing s' m' d' n' ys
    → IsListing s (m + m') d (n + n') (xs ++ ys)
IsListing-append xs ys e f h k = record {
  left_lines =
      Numbered-append left xs ys _ _ (omega (arith, h.left_count)) h.left_lines k.left_lines;
  left_count = present-append left xs ys ∙ omega (arith, h.left_count, k.left_count);
  right_lines =
      Numbered-append right xs ys _ _ (omega (arith, h.right_count)) h.right_lines k.right_lines;
  right_count = present-append right xs ys ∙ omega (arith, h.right_count, k.right_count);
}
