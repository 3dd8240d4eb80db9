-- ===== src/Engine/LineDiff/Windows.antt =====
-- Sliding a window of changed lines by one keeps the sequence of unchanged lines, if the line that
-- leaves the window is equal to the one that enters it.
use diffmantic.Base.{
  ℕ, zero, suc, ◌≤◌, ◌<◌, ◌≡◌, ◌≢◌, refl, sym, ap, ◌∙◌, Bool, true, false, List, [], ◌∷◌, arith,
  fun_ext, get_or, if◌then◌else◌, length,
}

module _ {ℓ} {A : Type ℓ} where
  -- The lines whose flag is not set.
  unfoldable pub kept : List A → (ℕ → Bool) → List A
  kept [] f = []
  kept (x ∷ xs) f = let rest = kept xs (λ k. f (suc k)) in if f 0 then rest else x ∷ rest

  -- `f'` is `f` with the flag at `g` set.
  window_rest :
      (xs : List A) (g : ℕ) (f f' : ℕ → Bool) (d : A)
      → g < length xs
      → ((k : ℕ) → k < g → f k ≡ true)
      → f g ≡ false
      → f' g ≡ true
      → ((k : ℕ) → k ≢ g → f' k ≡ f k)
      → kept xs f ≡ get_or xs g d ∷ kept xs f'
  unfolding kept
  window_rest [] g f f' d b t u v w = absurd (omega arith)
  window_rest (x ∷ xs) zero f f' d b t u v w =
      rw (u, v) (ap (λ h. x ∷ kept xs h) (fun_ext (λ k. sym (w (suc k) (omega arith)))))
  window_rest (x ∷ xs) (suc g) f f' d b t u v w =
      rw (t 0 (omega arith), w 0 (omega arith), t 0 (omega arith))
        (window_rest xs g (λ k. f (suc k)) (λ k. f' (suc k)) d (omega arith)
          (λ k h. t (suc k) (omega arith)) u v (λ k h. w (suc k) (omega arith)))

  pub window_step :
      (xs : List A) (p q : ℕ) (f f' : ℕ → Bool) (d : A)
      → p < q
      → q < length xs
      → get_or xs p d ≡ get_or xs q d
      → ((k : ℕ) → p ≤ k → k < q → f k ≡ true)
      → f q ≡ false
      → f' p ≡ false
      → f' q ≡ true
      → ((k : ℕ) → k ≢ p → k ≢ q → f' k ≡ f k)
      → kept xs f' ≡ kept xs f
  unfolding kept
  window_step [] p q f f' d a b e t u u' v w = absurd (omega arith)
  window_step (x ∷ xs) p zero f f' d a b e t u u' v w = absurd (omega arith)
  window_step (x ∷ xs) zero (suc q) f f' d a b e t u u' v w =
      let tail : List A = kept xs (λ k. f' (suc k)) in
      rw (u', t 0 (omega arith) (omega arith))
        (ap (λ y. y ∷ tail) e
          ∙ sym (
              window_rest xs q (λ k. f (suc k)) (λ k. f' (suc k)) d (omega arith)
                (λ k h. t (suc k) (omega arith) (omega arith)) u v
                (λ k h. w (suc k) (omega arith) (omega arith))))
  window_step (x ∷ xs) (suc p) (suc q) f f' d a b e t u u' v w =
      rw
        (
          w 0 (omega arith) (omega arith),
          window_step xs p q (λ k. f (suc k)) (λ k. f' (suc k)) d (omega arith) (omega arith) e
              (λ k h h'. t (suc k) (omega arith) (omega arith)) u u' v
              (λ k h h'. w (suc k) (omega arith) (omega arith)),
        )
        refl
