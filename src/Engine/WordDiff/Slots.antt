-- ===== src/Engine/WordDiff/Slots.antt =====
-- The slots between matched tokens: outside the ranges of their operations both lines read alike.
use native.Mathlib.Nat.{le_refl}
use diffmantic.Base.{
  ℕ, suc, ◌-◌, ◌≤◌, ◌<◌, ◌≡◌, refl, sym, ap, ap₂, ◌∙◌, Bool, true, List, [], ◌∷◌, ◌++◌, arith,
  length, get_or, &&-split, dec_lt, append-nil, subst,
}
use diffmantic.Engine.SeqDiff.Optimum.{IsAlignment}
use diffmantic.Engine.SeqDiff.Alignment.{equal_weight}
use diffmantic.Engine.WordDiff.Tokens.{Bytes, WordToken, slice}
use diffmantic.Engine.WordDiff.Diff.{
  delete, insert, WordOp, no_token, equal_bytes, tokens_equal, slot_ops, slots,
}
use diffmantic.Engine.WordDiff.Tiling.{IsTiling}
use diffmantic.Engine.WordDiff.Offset.{
  keep, IsRanges, IsRanges-lower, keep_split, span, keep-span, IsRanges-span, offset, offset-length,
  offset_step, offset_mono, start-offset, end-offset, slice_self,
}

-- The ranges that the operations mark in the old line and in the new line.
unfoldable pub src_ranges : List WordOp → List (ℕ × ℕ)
src_ranges [] = []
src_ranges (op ∷ ops) =
    let rest = src_ranges ops in
    elim op.action [ insert ↦ rest | _ ↦ (op.src_start, op.src_end) ∷ rest ]

unfoldable pub dst_ranges : List WordOp → List (ℕ × ℕ)
dst_ranges [] = []
dst_ranges (op ∷ ops) =
    let rest = dst_ranges ops in
    elim op.action [ delete ↦ rest | _ ↦ (op.dst_start, op.dst_end) ∷ rest ]

src_ranges-append : (xs ys : List WordOp) → src_ranges (xs ++ ys) ≡ src_ranges xs ++ src_ranges ys
unfolding src_ranges
src_ranges-append [] ys = refl
src_ranges-append (x ∷ xs) ys = ground (arith, src_ranges-append xs ys)

dst_ranges-append : (xs ys : List WordOp) → dst_ranges (xs ++ ys) ≡ dst_ranges xs ++ dst_ranges ys
unfolding dst_ranges
dst_ranges-append [] ys = refl
dst_ranges-append (x ∷ xs) ys = ground (arith, dst_ranges-append xs ys)

pub equal_bytes→eq : (s t : Bytes) → equal_bytes s t ≡ true → s ≡ t
unfolding equal_bytes
equal_bytes→eq [] [] h = refl
equal_bytes→eq [] (b ∷ t) h = absurd (cc)
equal_bytes→eq (a ∷ s) [] h = absurd (cc)
equal_bytes→eq (a ∷ s) (b ∷ t) h = ground (arith, equal_bytes→eq s t)

-- Whatever the hash says, equal tokens have equal text.
tokens_equal→eq :
    (src dst : Bytes) (t1 t2 : WordToken)
    → tokens_equal src dst t1 t2 ≡ true
    → slice src t1.start t1.end ≡ slice dst t2.start t2.end
unfolding tokens_equal
tokens_equal→eq src dst t1 t2 h = equal_bytes→eq _ _ (&&-split _ _ h).1

pub last-offset :
    (n : ℕ) (ts : List WordToken) (a b : ℕ)
    → IsTiling n 0 ts
    → a < b
    → b ≤ length ts
    → (get_or ts (b - 1) no_token).end ≡ offset 0 ts b
last-offset n ts a b tiles h k =
    let e : suc (b - 1) ≡ b = omega arith in
    end-offset n 0 ts (b - 1) tiles (omega arith) ∙ ap (offset 0 ts) e

span-lt : (a b : ℕ) → a < b → span a b ≡ (a, b) ∷ []
unfolding span
span-lt a b h = ground arith

span_self : (a : ℕ) → span a a ≡ []
unfolding span
span_self a = ground arith

-- A slot over the tokens `[a, b)` and `[c, d)` of tiled lines marks exactly their bytes.
module _ (n m : ℕ) (ts us : List WordToken) (tiles : IsTiling n 0 ts) (tiles' : IsTiling m 0 us)
    (a b c d : ℕ) (ab : a ≤ b) (bn : b ≤ length ts) (cd : c ≤ d) (dm : d ≤ length us) where
  src_ranges-slot_ops : src_ranges (slot_ops ts us a b c d) ≡ span (offset 0 ts a) (offset 0 ts b)
  unfolding src_ranges slot_ops
  src_ranges-slot_ops = elim (dec_lt a b) [
    | yes h ↦
        let rise = offset_mono n 0 ts a b tiles ab bn in
        rw (span-lt (offset 0 ts a) (offset 0 ts b) (omega arith)) (
          ground
            (arith, start-offset n 0 ts a tiles (omega arith), last-offset n ts a b tiles h bn))
    | no h ↦ let e : a ≡ b = omega arith in rw (e, span_self) (ground arith)
  ]

  dst_ranges-slot_ops : dst_ranges (slot_ops ts us a b c d) ≡ span (offset 0 us c) (offset 0 us d)
  unfolding dst_ranges slot_ops
  dst_ranges-slot_ops = elim (dec_lt c d) [
    | yes h ↦
        let rise = offset_mono m 0 us c d tiles' cd dm in
        rw (span-lt (offset 0 us c) (offset 0 us d) (omega arith)) (
          ground
            (arith, start-offset m 0 us c tiles' (omega arith), last-offset m us c d tiles' h dm))
    | no h ↦ let e : c ≡ d = omega arith in rw (e, span_self) (ground arith)
  ]

-- What the operations leave unmarked, from the byte `pos` of the old line and `pos'` of the new.
pub record IsKept (src dst : Bytes) (pos pos' : ℕ) (ops : List WordOp) : Type 0 where
  pub src_rise : IsRanges (length src) pos (src_ranges ops)
  pub dst_rise : IsRanges (length dst) pos' (dst_ranges ops)
  pub same : keep src pos (src_ranges ops) ≡ keep dst pos' (dst_ranges ops)

module _ (src dst : Bytes) (ts us : List WordToken) (tiles : IsTiling (length src) 0 ts)
    (tiles' : IsTiling (length dst) 0 us) where
  abbrev pub equal_tokens : ℕ → ℕ → Bool
  equal_tokens i j = tokens_equal src dst (get_or ts i no_token) (get_or us j no_token)

  -- A slot before what is kept.
  slot-IsKept :
      (a b c d : ℕ) (ops : List WordOp)
      → (a ≤ b) × (b ≤ length ts) × (c ≤ d) × (d ≤ length us)
      → IsKept src dst (offset 0 ts b) (offset 0 us d) ops
      → IsKept src dst (offset 0 ts a) (offset 0 us c) (slot_ops ts us a b c d ++ ops)
  slot-IsKept a b c d ops (ab, bn, cd, dm) kept =
      let rise = offset_mono (length src) 0 ts a b tiles ab bn in
      let rise' = offset_mono (length dst) 0 us c d tiles' cd dm in
      let marks =
        src_ranges-append (slot_ops ts us a b c d) ops
        ∙ ap (λ r. r ++ src_ranges ops)
            (src_ranges-slot_ops (length src) (length dst) ts us tiles tiles' a b c d ab bn cd
              dm) in
      let marks' =
        dst_ranges-append (slot_ops ts us a b c d) ops
        ∙ ap (λ r. r ++ dst_ranges ops)
            (dst_ranges-slot_ops (length src) (length dst) ts us tiles tiles' a b c d ab bn cd
              dm) in
      record {
        src_rise = rw marks (IsRanges-span (length src) _ _ _ (omega arith) kept.src_rise);
        dst_rise = rw marks' (IsRanges-span (length dst) _ _ _ (omega arith) kept.dst_rise);
        same =
            rw (marks, marks')
              (keep-span src _ _ (src_ranges ops) (omega arith)
                ∙ kept.same
                ∙ sym (keep-span dst _ _ (dst_ranges ops) (omega arith)));
      }

  -- A matched pair of tokens before what is kept.
  match-IsKept :
      (i j : ℕ) (ops : List WordOp)
      → i < length ts
      → j < length us
      → equal_tokens i j ≡ true
      → IsKept src dst (offset 0 ts (suc i)) (offset 0 us (suc j)) ops
      → IsKept src dst (offset 0 ts i) (offset 0 us j) ops
  match-IsKept i j ops hi hj e kept =
      let rise = offset_step (length src) 0 ts i tiles hi in
      let rise' = offset_step (length dst) 0 us j tiles' hj in
      let text = tokens_equal→eq src dst _ _ e in
      let text' : slice src (offset 0 ts i) (offset 0 ts (suc i))
          ≡ slice dst (offset 0 us j) (offset 0 us (suc j)) =
        rw
          (
            start-offset (length src) 0 ts i tiles hi,
            end-offset (length src) 0 ts i tiles hi,
            start-offset (length dst) 0 us j tiles' hj,
            end-offset (length dst) 0 us j tiles' hj,
          )
          at text in
      record {
        src_rise = IsRanges-lower (length src) _ _ _ (omega arith) kept.src_rise;
        dst_rise = IsRanges-lower (length dst) _ _ _ (omega arith) kept.dst_rise;
        same =
            keep_split src _ _ _ (omega arith) kept.src_rise
            ∙ ap₂ ◌++◌ text' kept.same
            ∙ sym (keep_split dst _ _ _ (omega arith) kept.dst_rise);
      }

  end-IsKept : IsKept src dst (offset 0 ts (length ts)) (offset 0 us (length us)) []
  unfolding src_ranges dst_ranges keep
  end-IsKept =
      let e = offset-length (length src) 0 ts tiles in
      let e' = offset-length (length dst) 0 us tiles' in
      record {
        src_rise = omega (arith, e);
        dst_rise = omega (arith, e');
        same = rw (e, e') (slice_self src (length src) ∙ sym (slice_self dst (length dst)));
      }

  pub slots-IsKept :
      (a c : ℕ) (ms : List (ℕ × ℕ))
      → a ≤ length ts
      → c ≤ length us
      → IsAlignment (equal_weight equal_tokens) a c (length ts) (length us) ms
      → IsKept src dst (offset 0 ts a) (offset 0 us c) (slots ts us a c ms)
  unfolding slots
  slots-IsKept a c [] h k p =
      subst (λ ops. IsKept src dst (offset 0 ts a) (offset 0 us c) ops) (append-nil _)
        (slot-IsKept a (length ts) c (length us) [] (h, le_refl _, k, le_refl _) end-IsKept)
  slots-IsKept a c ((i, j) ∷ ms) h k (ai, cj, hi, hj, w, p) =
      slot-IsKept a i c j (slots ts us (suc i) (suc j) ms) (ai, omega arith, cj, omega arith)
        (match-IsKept i j _ hi hj (ground arith) (slots-IsKept (suc i) (suc j) ms hi hj p))
