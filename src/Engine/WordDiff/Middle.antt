-- ===== src/Engine/WordDiff/Middle.antt =====
-- Behind the tokenizing: the trimmed ends, the fast paths and the aligned middle of two lines.
use native.Mathlib.Nat.{zero-add, add-zero, add-suc, suc-add, le_refl}
use diffmantic.Base.{
  ℕ, zero, suc, ◌+◌, ◌-◌, ◌≤◌, ◌<◌, ◌≡◌, sym, ap, ap₂, ◌∙◌, Bool, ◌||◌, List, [], ◌∷◌, ◌++◌, arith,
  leb, length, get_or, Bool-cases, ◌⊎◌, inl, inr, subst, append-nil,
}
use diffmantic.Engine.SeqDiff.{SeqScratch, align_uniform, combine_matches, diagonal, shift}
use diffmantic.Engine.SeqDiff.Optimum.{IsAlignment}
use diffmantic.Engine.SeqDiff.Alignment.{equal_weight, align_uniform_longest}
use diffmantic.Engine.SeqDiff.Trim.{IsTrimmed, trim_bounds-IsTrimmed, combine_matches-IsAlignment}
use diffmantic.Engine.WordDiff.Tokens.{Bytes, WordToken}
use diffmantic.Engine.WordDiff.Diff.{
  WordOp, no_token, slot_ops, slots, matched_ops, trimmed_ops, diff_tokens,
}
use diffmantic.Engine.WordDiff.Tiling.{IsTiling}
use diffmantic.Engine.WordDiff.Offset.{
  offset-zero, offset-length, offset_mono, start-offset, keep, IsRanges, slice_self, span,
  keep-span, IsRanges-span,
}
use diffmantic.Engine.WordDiff.Slots.{
  src_ranges, dst_ranges, IsKept, equal_tokens, slots-IsKept, last-offset,
}

module _ (ts us : List WordToken) where
  slot_ops_empty : (a c : ℕ) → slot_ops ts us a a c c ≡ []
  unfolding slot_ops
  slot_ops_empty a c = ground arith

  slots-diagonal :
      (count a c : ℕ) (ms : List (ℕ × ℕ))
      → slots ts us a c (diagonal count a c ++ ms) ≡ slots ts us (count + a) (count + c) ms
  unfolding diagonal slots
  slots-diagonal zero a c ms = rw (zero-add a, zero-add c)
  slots-diagonal (suc count) a c ms = rw (
    slot_ops_empty a c,
    slots-diagonal count (suc a) (suc c) ms,
    add-suc count a,
    add-suc count c,
    suc-add count a,
    suc-add count c,
  )

  -- Equal items up to the end of both lines: one slot before them.
  slots_tail :
      (count p q a b : ℕ)
      → count + a ≡ length ts
      → count + b ≡ length us
      → slots ts us p q (diagonal count a b) ≡ slot_ops ts us p a q b
  unfolding diagonal slots
  slots_tail zero p q a b h k =
      let e : length ts ≡ a = omega arith in
      let e' : length us ≡ b = omega arith in ap₂ (λ x y. slot_ops ts us p x q y) e e'
  slots_tail (suc count) p q a b h k = rw (
    slots_tail count (suc a) (suc b) (suc a) (suc b) (omega arith) (omega arith),
    slot_ops_empty (suc a) (suc b),
    append-nil (slot_ops ts us p a q b),
  )

  -- Behind an equal prefix and before an equal suffix there is one slot.
  slots_trimmed :
      (eq : ℕ → ℕ → Bool) (prefix stop_a stop_b : ℕ)
      → IsTrimmed eq (length ts) (length us) prefix stop_a stop_b
      → slots ts us 0 0 (combine_matches [] prefix [] stop_a stop_b (length ts))
        ≡ slot_ops ts us prefix stop_a prefix stop_b
  unfolding combine_matches shift
  slots_trimmed eq prefix stop_a stop_b t =
      let (_, _, an, bm) = t.ordered in
      slots-diagonal prefix 0 0 (diagonal (length ts - stop_a) stop_a stop_b)
      ∙ rw (add-zero prefix) (
          slots_tail (length ts - stop_a) prefix prefix stop_a stop_b (omega arith)
            (omega (arith, t.tails)))

-- The first token of a tiled line starts it and the last ends it.
whole_line :
    (n : ℕ) (ts : List WordToken)
    → IsTiling n 0 ts
    → 0 < length ts
    → ((get_or ts 0 no_token).start ≡ 0) × ((get_or ts (length ts - 1) no_token).end ≡ n) × (0 < n)
whole_line n ts tiles h =
    let last = last-offset n ts 0 (length ts) tiles h (le_refl _) ∙ offset-length n 0 ts tiles in
    (
      start-offset n 0 ts 0 tiles h ∙ offset-zero 0 ts,
      last,
      omega (
        arith,
        offset-zero 0 ts,
        offset-length n 0 ts tiles,
        offset_mono n 0 ts 0 (length ts) tiles (omega arith) (le_refl _),
      ),
    )

-- The fast paths are the slot between the equal ends.
trimmed_fast :
    (seq : SeqScratch) (ts us : List WordToken) (eq : ℕ → ℕ → Bool) (prefix stop_src stop_dst : ℕ)
    → (prefix ≤ stop_src) × (prefix ≤ stop_dst)
    → (stop_src ≤ prefix) ⊎ (stop_dst ≤ prefix)
    → slot_ops ts us prefix stop_src prefix stop_dst
      ≡ trimmed_ops ts us seq eq prefix stop_src stop_dst
unfolding slot_ops trimmed_ops
trimmed_fast seq ts us eq prefix stop_src stop_dst ordered empty = ground arith

trimmed_full :
    (seq : SeqScratch) (ts us : List WordToken) (eq : ℕ → ℕ → Bool) (prefix stop_src stop_dst : ℕ)
    → prefix < stop_src
    → prefix < stop_dst
    → matched_ops ts us (
        combine_matches [] prefix
          (align_uniform seq
            (stop_src - prefix)
            (stop_dst - prefix)
            (λ i j. eq (prefix + i) (prefix + j))).matches
          stop_src
          stop_dst
          (length ts))
      ≡ trimmed_ops ts us seq eq prefix stop_src stop_dst
unfolding trimmed_ops
trimmed_full seq ts us eq prefix stop_src stop_dst h k = ground arith

nothing_left : (s : Bytes) (rs : List (ℕ × ℕ)) → rs ≡ span 0 (length s) → keep s 0 rs ≡ []
unfolding keep
nothing_left s rs e =
    ap (keep s 0) (e ∙ sym (append-nil _))
    ∙ keep-span s 0 (length s) [] (omega arith)
    ∙ slice_self s (length s)

-- Both lines marked as a whole: nothing is left of either.
pub whole-IsKept :
    (src dst : Bytes) (ops : List WordOp)
    → src_ranges ops ≡ span 0 (length src)
    → dst_ranges ops ≡ span 0 (length dst)
    → IsKept src dst 0 0 ops
unfolding keep
whole-IsKept src dst ops e e' = record {
  src_rise =
      subst (IsRanges (length src) 0) (append-nil _ ∙ sym e)
        (IsRanges-span (length src) 0 (length src) [] (omega arith) (le_refl _));
  dst_rise =
      subst (IsRanges (length dst) 0) (append-nil _ ∙ sym e')
        (IsRanges-span (length dst) 0 (length dst) [] (omega arith) (le_refl _));
  same = nothing_left src (src_ranges ops) e ∙ sym (nothing_left dst (dst_ranges ops) e');
}

module _ (src dst : Bytes) (ts us : List WordToken) (tiles : IsTiling (length src) 0 ts)
    (tiles' : IsTiling (length dst) 0 us) where
  abbrev eq : ℕ → ℕ → Bool
  eq = equal_tokens src dst ts us tiles tiles'

  slots_whole-IsKept :
      (ms : List (ℕ × ℕ))
      → IsAlignment (equal_weight eq) 0 0 (length ts) (length us) ms
      → IsKept src dst 0 0 (slots ts us 0 0 ms)
  slots_whole-IsKept ms p =
      rw (offset-zero 0 ts, offset-zero 0 us) at
        (slots-IsKept src dst ts us tiles tiles' 0 0 ms (omega arith) (omega arith) p)

  matched_ops-IsKept :
      (ms : List (ℕ × ℕ))
      → 0 < length ts
      → 0 < length us
      → IsAlignment (equal_weight eq) 0 0 (length ts) (length us) ms
      → IsKept src dst 0 0 (matched_ops ts us ms)
  matched_ops-IsKept [] h k p =
      let (from, to, wide) = whole_line (length src) ts tiles h in
      let (from', to', wide') = whole_line (length dst) us tiles' k in
      whole-IsKept src dst (matched_ops ts us [])
        (unfold matched_ops src_ranges span in ground arith)
        (unfold matched_ops dst_ranges span in ground arith)
  matched_ops-IsKept (q ∷ ms) h k p = unfold matched_ops in slots_whole-IsKept (q ∷ ms) p

  trimmed_ops-IsKept :
      (seq : SeqScratch) (prefix stop_src stop_dst : ℕ)
      → 0 < length ts
      → 0 < length us
      → IsTrimmed eq (length ts) (length us) prefix stop_src stop_dst
      → IsKept src dst 0 0 (trimmed_ops ts us seq eq prefix stop_src stop_dst)
  trimmed_ops-IsKept seq prefix stop_src stop_dst h k t =
      let (pa, pb, an, bm) = t.ordered in
      elim (Bool-cases (leb stop_src prefix || leb stop_dst prefix)) [
        | inl empty ↦
            rw
              (
                ← trimmed_fast seq ts us eq prefix stop_src stop_dst (pa, pb) (ground arith),
                ← slots_trimmed ts us eq prefix stop_src stop_dst t,
              )
              (slots_whole-IsKept _ (
                combine_matches-IsAlignment eq (length ts) (length us) prefix stop_src stop_dst [] t
                  tt))
        | inr both ↦
            rw (← trimmed_full seq ts us eq prefix stop_src stop_dst (ground arith) (ground arith))
              (matched_ops-IsKept _ h k (
                combine_matches-IsAlignment eq (length ts) (length us) prefix stop_src stop_dst _ t
                  (align_uniform_longest seq (stop_src - prefix) (stop_dst - prefix)
                    (λ i j. eq (prefix + i) (prefix + j))).0))
      ]

  pub diff_tokens-IsKept :
      (seq : SeqScratch)
      → 0 < length ts
      → 0 < length us
      → IsKept src dst 0 0 (diff_tokens ts us seq src dst)
  unfolding diff_tokens
  diff_tokens-IsKept seq h k =
      trimmed_ops-IsKept seq _ _ _ h k (trim_bounds-IsTrimmed eq (length ts) (length us))
