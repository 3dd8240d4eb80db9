-- ===== src/Engine/LineDiff/Marking.antt =====
-- The flags of a rising matching leave exactly the matched lines, in order.
use diffmantic.Base.{
  ℕ, suc, ◌+◌, ◌≤◌, ◌<◌, ◌≡◌, refl, sym, ap, subst, ◌∙◌, Bool, true, false, not, ◌&&◌, ◌||◌, List,
  [], ◌∷◌, arith, fun_ext, get_or, length, ltb, ◌==◌, map, ℕ_discrete,
}
use diffmantic.Engine.WordDiff.Tokens.{Bytes}
use diffmantic.Engine.LineDiff.Windows.{kept}

abbrev pub mem : ℕ → List ℕ → Bool
mem k [] = false
mem k (j ∷ js) = k == j || mem k js

abbrev pub Rising : ℕ → ℕ → List ℕ → Type 0
Rising lo hi [] = Unit {0}
Rising lo hi (j ∷ js) = (lo ≤ j) × (j < hi) × Rising (suc j) hi js

-- Below the first index there is none.
mem-below : (js : List ℕ) (lo hi k : ℕ) → Rising lo hi js → k < lo → mem k js ≡ false
mem-below [] lo hi k r h = refl
mem-below (j ∷ js) lo hi k (a, b, c) h = ground (arith, mem-below js (suc j) hi k c (omega arith))

-- The flags of the lines from `i` on that are not matched.
abbrev pub unmatched : ℕ → ℕ → List ℕ → ℕ → Bool
unmatched i n js k = ltb k n && not (mem (i + k) js)

unmatched-skip :
    (i n : ℕ) (js : List ℕ) (k : ℕ) → unmatched i (suc n) js (suc k) ≡ unmatched (suc i) n js k
unmatched-skip i n js k =
    let e : i + suc k ≡ suc i + k = omega arith in
    ap (λ x. ltb (suc k) (suc n) && not (mem x js)) e ∙ ground arith

kept-skip :
    (x : Bytes) (xs : List Bytes) (f g : ℕ → Bool)
    → f 0 ≡ true
    → ((k : ℕ) → f (suc k) ≡ g k)
    → kept (x ∷ xs) f ≡ kept xs g
unfolding kept
kept-skip x xs f g h e = rw h (ap (kept xs) (fun_ext e))

kept-keep :
    (x : Bytes) (xs : List Bytes) (f g : ℕ → Bool)
    → f 0 ≡ false
    → ((k : ℕ) → f (suc k) ≡ g k)
    → kept (x ∷ xs) f ≡ x ∷ kept xs g
unfolding kept
kept-keep x xs f g h e = rw h (ap (λ ys. x ∷ kept xs ys) (fun_ext e))

shift_all :
    (all lines : List Bytes) (x : Bytes) (i : ℕ)
    → ((k : ℕ) → get_or all (i + k) [] ≡ get_or (x ∷ lines) k [])
    → (k : ℕ) → get_or all (suc i + k) [] ≡ get_or lines k []
shift_all all lines x i h k =
    let e : suc i + k ≡ i + suc k = omega arith in ap (λ n. get_or all n []) e ∙ h (suc k)

Rising-size : (lo hi hi' : ℕ) (js : List ℕ) → hi ≡ hi' → Rising lo hi js → Rising lo hi' js
Rising-size lo hi hi' js e r = subst (λ h. Rising lo h js) e r

Rising-shift :
    (i j hi hi' : ℕ) (js : List ℕ) → i ≡ j → hi ≡ hi' → Rising (suc j) hi js → Rising (suc i) hi' js
Rising-shift i j hi hi' js e e' r =
    Rising-size (suc i) hi hi' js e' (subst (λ l. Rising (suc l) hi js) (sym e) r)

drop_head :
    (i j n : ℕ) (js : List ℕ) (k : ℕ)
    → i ≡ j
    → unmatched i (suc n) (j ∷ js) (suc k) ≡ unmatched (suc i) n js k
drop_head i j n js k e =
    let other : (i + suc k == j) ≡ false = ground arith in rw other (unmatched-skip i n js k)

pub kept-unmatched :
    (all lines : List Bytes) (i : ℕ) (js : List ℕ)
    → ((k : ℕ) → get_or all (i + k) [] ≡ get_or lines k [])
    → Rising i (i + length lines) js
    → kept lines (unmatched i (length lines) js) ≡ map (λ k. get_or all k []) js
unfolding kept
kept-unmatched all [] i [] h r = refl
kept-unmatched all [] i (j ∷ js) h (a, b, c) = absurd (omega arith)
kept-unmatched all (x ∷ lines) i [] h r =
    kept-skip x lines (unmatched i (suc (length lines)) []) (unmatched (suc i) (length lines) [])
      (ground arith) (unmatched-skip i (length lines) [])
    ∙ kept-unmatched all lines (suc i) [] (shift_all all lines x i h) tt
kept-unmatched all (x ∷ lines) i (j ∷ js) h (a, b, c) = elim (ℕ_discrete i j) [
  | yes e ↦
      let n = length lines in
      let j_here : j ≡ i + 0 = omega arith in
      let here : get_or all j [] ≡ x = ap (λ k. get_or all k []) j_here ∙ h 0 in
      kept-keep x lines (unmatched i (suc n) (j ∷ js)) (unmatched (suc i) n js) (ground arith)
        (λ k. drop_head i j n js k e)
      ∙ ap (λ ys. x ∷ ys)
          (kept-unmatched all lines (suc i) js (shift_all all lines x i h)
            (Rising-shift i j (i + suc n) (suc i + n) js e (omega arith) c))
      ∙ ap (λ y. y ∷ map (λ k. get_or all k []) js) (sym here)
  | no ne ↦
      let n = length lines in
      kept-skip x lines (unmatched i (suc n) (j ∷ js)) (unmatched (suc i) n (j ∷ js))
        (ground (arith, mem-below js (suc j) _ (i + 0) c (omega arith)))
        (unmatched-skip i n (j ∷ js))
      ∙ kept-unmatched all lines (suc i) (j ∷ js) (shift_all all lines x i h)
          (omega arith, omega arith, Rising-size (suc j) _ _ js (omega arith) c)
]
