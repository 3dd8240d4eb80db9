-- ===== src/Engine/LineDiff/Views.antt =====
-- Windows of lines as views of the whole text, and the matches in them at their place in the whole.
use native.Mathlib.Nat.{add-zero}
use diffmantic.Base.{
  ℕ, zero, suc, ◌+◌, ◌*◌, ◌≤◌, ◌<◌, ◌≡◌, refl, sym, ap, ◌∙◌, Bool, true, ◌||◌, List, [], ◌∷◌, ◌++◌,
  arith, length, get_or, take, drop, map, ltb, ◌==◌, Bool-cases, inl, inr, append-nil, length-drop,
}
use diffmantic.Engine.SeqDiff.{SeqScratch, align_weighted}
use diffmantic.Engine.SeqDiff.Optimum.{IsAlignment}
use diffmantic.Engine.SeqDiff.Alignment.{equal_weight, align_weighted_optimal}
use diffmantic.Engine.WordDiff.Tokens.{Bytes}
use diffmantic.Engine.WordDiff.Diff.{equal_bytes}
use diffmantic.Engine.LineDiff.{trim_space}
use diffmantic.Engine.LineDiff.Aligning.{
  align_line_window, match_weight, match_weight_lem, offset_match, max_window_cells,
}

-- Lines that are equal but for the blanks around them.
abbrev pub same_text : List Bytes → List Bytes → ℕ → ℕ → Bool
same_text lines_a lines_b i j =
    equal_bytes (trim_space (get_or lines_a i [])) (trim_space (get_or lines_b j []))

pub equal_bytes_self : (s t : Bytes) → s ≡ t → equal_bytes s t ≡ true
unfolding equal_bytes
equal_bytes_self [] [] e = refl
equal_bytes_self [] (b ∷ t) e = absurd (cc)
equal_bytes_self (a ∷ s) [] e = absurd (cc)
equal_bytes_self (a ∷ s) (b ∷ t) e = ground (arith, equal_bytes_self s t)

-- The lines of a window stand in the text from line `off` on.
abbrev pub IsView : List Bytes → ℕ → List Bytes → Type 0
IsView win off lines = (k : ℕ) → k < length win → get_or win k [] ≡ get_or lines (off + k) []

get_or-drop : (p k : ℕ) (xs : List Bytes) → get_or (drop p xs) k [] ≡ get_or xs (p + k) []
get_or-drop zero k xs = let e : k ≡ 0 + k = omega arith in ap (λ n. get_or xs n []) e
get_or-drop (suc p) k [] = refl
get_or-drop (suc p) k (x ∷ xs) =
    let e : suc (p + k) ≡ suc p + k = omega arith in
    get_or-drop p k xs ∙ ap (λ n. get_or (x ∷ xs) n []) e

pub length-take-le : (n : ℕ) (xs : List Bytes) → length (take n xs) ≤ n
length-take-le zero xs = omega arith
length-take-le (suc n) [] = omega arith
length-take-le (suc n) (x ∷ xs) = omega (arith, length-take-le n xs)

pub length-take : (n : ℕ) (xs : List Bytes) → n ≤ length xs → length (take n xs) ≡ n
length-take zero xs h = refl
length-take (suc n) [] h = absurd (omega arith)
length-take (suc n) (x ∷ xs) h = omega (arith, length-take n xs (omega arith))

get_or-take :
    (n k : ℕ) (xs : List Bytes) → k < length (take n xs) → get_or (take n xs) k [] ≡ get_or xs k []
get_or-take zero k xs h = absurd (omega arith)
get_or-take (suc n) k [] h = refl
get_or-take (suc n) zero (x ∷ xs) h = refl
get_or-take (suc n) (suc k) (x ∷ xs) h = get_or-take n k xs (omega arith)

-- A window's rest and a window of a window are views of the same text.
pub drop-IsView :
    (p off : ℕ) (win lines : List Bytes)
    → IsView win off lines
    → IsView (drop p win) (off + p) lines
drop-IsView p off win lines v k h =
    let e : off + (p + k) ≡ off + p + k = omega arith in
    get_or-drop p k win
    ∙ v (p + k) (omega (arith, length-drop p win))
    ∙ ap (λ n. get_or lines n []) e

pub take-IsView :
    (n off : ℕ) (win lines : List Bytes) → IsView win off lines → IsView (take n win) off lines
take-IsView n off win lines v k h = get_or-take n k win h ∙ v k (shorter n win k h)
  where
    shorter : (n : ℕ) (win : List Bytes) (k : ℕ) → k < length (take n win) → k < length win
    shorter zero win k h = absurd (omega arith)
    shorter (suc n) [] k h = h
    shorter (suc n) (x ∷ win) zero h = omega arith
    shorter (suc n) (x ∷ win) (suc k) h = omega (arith, shorter n win k (omega arith))

pub whole-IsView : (lines : List Bytes) → IsView lines 0 lines
whole-IsView lines k h = let e : k ≡ 0 + k = omega arith in ap (λ n. get_or lines n []) e

module _ (lines_a lines_b : List Bytes) where
  abbrev eq : ℕ → ℕ → Bool
  eq = same_text lines_a lines_b

  pub IsAlignment-raise :
      (lo_a lo_b n m n' m' : ℕ) (ps : List (ℕ × ℕ))
      → n ≤ n'
      → m ≤ m'
      → IsAlignment (equal_weight eq) lo_a lo_b n m ps
      → IsAlignment (equal_weight eq) lo_a lo_b n' m' ps
  IsAlignment-raise lo_a lo_b n m n' m' [] h k r = tt
  IsAlignment-raise lo_a lo_b n m n' m' ((i, j) ∷ ps) h k (a, b, c, d, w, r) =
      (a, b, omega arith, omega arith, w, IsAlignment-raise (suc i) (suc j) n m n' m' ps h k r)

  pub same_text-equal_weight :
      (i j : ℕ)
      → trim_space (get_or lines_a i []) ≡ trim_space (get_or lines_b j [])
      → 0 < equal_weight eq i j
  same_text-equal_weight i j e = rw (equal_bytes_self _ _ e) (omega arith)

  -- The matches of a window, moved to their place in the text.
  offset-IsAlignment :
      (is_punctuation : Bytes → Bool) (win_a win_b : List Bytes) (off_a off_b lo_a lo_b : ℕ)
      (ps : List (ℕ × ℕ))
      → IsView win_a off_a lines_a
      → IsView win_b off_b lines_b
      → IsAlignment
          (match_weight is_punctuation win_a win_b)
          lo_a
          lo_b
          (length win_a)
          (length win_b)
          ps
      → IsAlignment
          (equal_weight eq)
          (off_a + lo_a)
          (off_b + lo_b)
          (off_a + length win_a)
          (off_b + length win_b)
          (map (offset_match off_a off_b) ps)
  unfolding offset_match
  offset-IsAlignment is_punctuation win_a win_b off_a off_b lo_a lo_b [] va vb r = tt
  offset-IsAlignment is_punctuation win_a win_b off_a off_b lo_a lo_b ((i, j) ∷ ps) va vb
        (a, b, c, d, w, r) =
      let next_a : off_a + suc i ≡ suc (off_a + i) = omega arith in
      let next_b : off_b + suc j ≡ suc (off_b + j) = omega arith in
      let rest =
        offset-IsAlignment is_punctuation win_a win_b off_a off_b (suc i) (suc j) ps va vb r in
      (
        omega arith,
        omega arith,
        omega arith,
        omega arith,
        same_text-equal_weight (off_a + i) (off_b + j) (
            ap trim_space (sym (va i c))
            ∙ match_weight_lem is_punctuation win_a win_b i j w
            ∙ ap trim_space (vb j d)),
        rw (next_a, next_b) at rest,
      )

  -- Whatever the window, `alignLineWindow` adds an alignment of lines that are equal but for blanks,
  -- within the window.
  pub align_line_window-IsAlignment :
      (is_punctuation : Bytes → Bool) (s : SeqScratch) (win_a win_b : List Bytes) (off_a off_b : ℕ)
      (matched : List (ℕ × ℕ))
      → IsView win_a off_a lines_a
      → IsView win_b off_b lines_b
      → (ps : List (ℕ × ℕ)) × (align_line_window is_punctuation s win_a win_b off_a off_b matched
          ≡ matched ++ ps)
        × IsAlignment (equal_weight eq) off_a off_b (off_a + length win_a) (off_b + length win_b) ps
  unfolding align_line_window
  align_line_window-IsAlignment is_punctuation s win_a win_b off_a off_b matched va vb =
      let n = length win_a in
      let m = length win_b in
      elim (Bool-cases (n == 0 || m == 0 || ltb max_window_cells (n * m))) [
        | inl t ↦ ([], rw t (sym (append-nil matched)), tt)
        | inr f ↦
            let weight = match_weight is_punctuation win_a win_b in
            let found = (align_weighted s n m weight true).matches in
            let (rising, _) = align_weighted_optimal s n m weight true in
            let moved =
              offset-IsAlignment is_punctuation win_a win_b off_a off_b 0 0 found va vb rising in
            (
              map (offset_match off_a off_b) found,
              rw f refl,
              rw (add-zero off_a, add-zero off_b) at moved,
            )
      ]
