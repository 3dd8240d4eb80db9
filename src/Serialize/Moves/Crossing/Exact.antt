-- ===== src/Serialize/Moves/Crossing/Exact.antt =====
-- The index answers what a look at every statement would.
use diffmantic.Base.{
  ℕ, suc, ◌≤◌, ◌<◌, ◌≢◌, ◌⊎◌, ◌↔◌, inl, inr, arith, List, [], ◌∷◌, leb, Bool-cases,
}
use diffmantic.Engine.LineDiff.Patience.{LinePair}
use diffmantic.Serialize.Moves.Crossing.{insert_stmt, sort_stmts}

-- The statement crosses a match of lines `s` and `d`: it comes before on one side only.
abbrev pub Crosses : ℕ → ℕ → LinePair → Type 0
Crosses s d a = ((a.i < s) × (d < a.j)) ⊎ ((s < a.i) × (a.j < d))

abbrev pub AnyCrosses : ℕ → ℕ → List LinePair → Type 0
AnyCrosses s d [] = ⊥
AnyCrosses s d (a ∷ rest) = Crosses s d a ⊎ AnyCrosses s d rest

-- No two statements start in one source line.
abbrev pub AllOther : ℕ → List LinePair → Type 0
AllOther s [] = Unit {0}
AllOther s (a ∷ rest) = (s ≢ a.i) × AllOther s rest

abbrev pub IsMap : List LinePair → Type 0
IsMap [] = Unit {0}
IsMap (a ∷ rest) = AllOther a.i rest × IsMap rest

abbrev pub IsRisingSrc : ℕ → List LinePair → Type 0
IsRisingSrc lo [] = Unit {0}
IsRisingSrc lo (a ∷ rest) = (lo ≤ a.i) × IsRisingSrc (suc a.i) rest

insert_stmt-IsRisingSrc :
    (a : LinePair) (lo : ℕ) (bs : List LinePair)
    → lo ≤ a.i
    → AllOther a.i bs
    → IsRisingSrc lo bs
    → IsRisingSrc lo (insert_stmt a bs)
unfolding insert_stmt
insert_stmt-IsRisingSrc a lo [] h other r = (h, tt)
insert_stmt-IsRisingSrc a lo (b ∷ bs) h (ne, other) (k, r) = elim (Bool-cases (leb a.i b.i)) [
  | inl first ↦ rw first (h, (ground arith, r))
  | inr later ↦ rw later (k, insert_stmt-IsRisingSrc a (suc b.i) bs (ground arith) other r)
]

AllOther-insert_stmt :
    (s : ℕ) (a : LinePair) (bs : List LinePair)
    → s ≢ a.i
    → AllOther s bs
    → AllOther s (insert_stmt a bs)
unfolding insert_stmt
AllOther-insert_stmt s a [] h r = (h, tt)
AllOther-insert_stmt s a (b ∷ bs) h (k, r) = elim (Bool-cases (leb a.i b.i)) [
  | inl first ↦ rw first (h, (k, r))
  | inr later ↦ rw later (k, AllOther-insert_stmt s a bs h r)
]

AllOther-sort_stmts : (s : ℕ) (xs : List LinePair) → AllOther s xs → AllOther s (sort_stmts xs)
unfolding sort_stmts
AllOther-sort_stmts s [] r = tt
AllOther-sort_stmts s (a ∷ xs) (h, r) =
    AllOther-insert_stmt s a (sort_stmts xs) h (AllOther-sort_stmts s xs r)

pub sort_stmts-IsRisingSrc : (xs : List LinePair) → IsMap xs → IsRisingSrc 0 (sort_stmts xs)
unfolding sort_stmts
sort_stmts-IsRisingSrc [] m = tt
sort_stmts-IsRisingSrc (a ∷ xs) (other, m) =
    insert_stmt-IsRisingSrc a 0 (sort_stmts xs) (omega arith) (AllOther-sort_stmts a.i xs other)
      (sort_stmts-IsRisingSrc xs m)

module _ (s d : ℕ) where
  AnyCrosses-insert_stmt :
      (a : LinePair) (bs : List LinePair)
      → AnyCrosses s d (insert_stmt a bs) ↔ (Crosses s d a ⊎ AnyCrosses s d bs)
  unfolding insert_stmt
  AnyCrosses-insert_stmt a [] = (λ x. x, λ x. x)
  AnyCrosses-insert_stmt a (b ∷ bs) = elim (Bool-cases (leb a.i b.i)) [
    | inl first ↦ rw first (λ x. x, λ x. x)
    | inr later ↦
        let (to, from) = AnyCrosses-insert_stmt a bs in
        rw later (
          λ x. elim x [
            | inl y ↦ inr (inl y)
            | inr y ↦ elim (to y) [ inl z ↦ inl z | inr z ↦ inr (inr z) ]
          ],
          λ x. elim x [
            | inl y ↦ inr (from (inl y))
            | inr y ↦ elim y [ inl z ↦ inl z | inr z ↦ inr (from (inr z)) ]
          ],
        )
  ]

  pub AnyCrosses-sort_stmts :
      (xs : List LinePair) → AnyCrosses s d (sort_stmts xs) ↔ AnyCrosses s d xs
  unfolding sort_stmts
  AnyCrosses-sort_stmts [] = (λ x. x, λ x. x)
  AnyCrosses-sort_stmts (a ∷ xs) =
      let (to, from) = AnyCrosses-insert_stmt a (sort_stmts xs) in
      let (down, up) = AnyCrosses-sort_stmts xs in
      (
        λ x. elim (to x) [ inl y ↦ inl y | inr y ↦ inr (down y) ],
        λ x. from (elim x [ inl y ↦ inl y | inr y ↦ inr (up y) ]),
      )
