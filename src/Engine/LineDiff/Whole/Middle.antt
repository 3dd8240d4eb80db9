-- ===== src/Engine/LineDiff/Whole/Middle.antt =====
-- The middle between the trimmed ends, aligned as one window or between anchors.
use native.Mathlib.Nat.{zero-add}
use diffmantic.Base.{
  ℕ, zero, suc, ◌+◌, ◌-◌, ◌*◌, ◌≤◌, ◌≡◌, ap, subst, Bool, List, [], ◌++◌, arith, length, get_or,
  take, drop, ltb, Bool-cases, inl, inr,
}
use diffmantic.Engine.SeqDiff.{SeqScratch}
use diffmantic.Engine.SeqDiff.Optimum.{IsAlignment}
use diffmantic.Engine.SeqDiff.Alignment.{equal_weight}
use diffmantic.Engine.SeqDiff.Trim.{IsEqualRun}
use diffmantic.Engine.WordDiff.Tokens.{Bytes}
use diffmantic.Engine.WordDiff.Diff.{equal_bytes}
use diffmantic.Engine.WordDiff.Slots.{equal_bytes→eq}
use diffmantic.Engine.LineDiff.{trim_space}
use diffmantic.Engine.LineDiff.Aligning.{max_window_cells}
use diffmantic.Engine.LineDiff.Patience.Anchors.{line_diff_patience-IsAlignment}
use diffmantic.Engine.LineDiff.Views.{
  same_text, equal_bytes_self, IsView, drop-IsView, take-IsView, whole-IsView, length-take-le,
  IsAlignment-raise, align_line_window-IsAlignment,
}
use diffmantic.Engine.LineDiff.Whole.{middle_matches}

module _ (is_punctuation : Bytes → Bool) (scratch : SeqScratch) (lines_a lines_b : List Bytes) where
  abbrev weight : ℕ → ℕ → ℕ
  weight = equal_weight (same_text lines_a lines_b)

  abbrev pub equal_lines : ℕ → ℕ → Bool
  equal_lines i j = equal_bytes (get_or lines_a i []) (get_or lines_b j [])

  pub run-same_text :
      (count a b : ℕ)
      → IsEqualRun equal_lines count a b
      → IsEqualRun (same_text lines_a lines_b) count a b
  run-same_text zero a b r = tt
  run-same_text (suc count) a b (e, r) = (
    equal_bytes_self _ _ (ap trim_space (equal_bytes→eq _ _ e)),
    run-same_text count (suc a) (suc b) r,
  )

  pub middle_matches-IsAlignment :
      (start stop_a stop_b : ℕ) (matched : List (ℕ × ℕ))
      → (start ≤ stop_a) × (start ≤ stop_b) × (stop_a ≤ length lines_a) × (stop_b ≤ length lines_b)
      → (ps : List (ℕ × ℕ)) × (middle_matches is_punctuation scratch lines_a lines_b start stop_a
            stop_b matched
          ≡ matched ++ ps)
        × IsAlignment weight start start stop_a stop_b ps
  unfolding middle_matches
  middle_matches-IsAlignment start stop_a stop_b matched (h, h', k, k') =
      let sub_a = take (stop_a - start) (drop start lines_a) in
      let sub_b = take (stop_b - start) (drop start lines_b) in
      let view_a =
        subst (λ o. IsView sub_a o lines_a) (zero-add start)
          (take-IsView (stop_a - start) (0 + start) (drop start lines_a) lines_a
            (drop-IsView start 0 lines_a lines_a (whole-IsView lines_a))) in
      let view_b =
        subst (λ o. IsView sub_b o lines_b) (zero-add start)
          (take-IsView (stop_b - start) (0 + start) (drop start lines_b) lines_b
            (drop-IsView start 0 lines_b lines_b (whole-IsView lines_b))) in
      let below_a = length-take-le (stop_a - start) (drop start lines_a) in
      let below_b = length-take-le (stop_b - start) (drop start lines_b) in
      elim (Bool-cases (ltb max_window_cells (length sub_a * length sub_b))) [
        | inl t ↦
            let (ps, e, r) =
              line_diff_patience-IsAlignment is_punctuation scratch lines_a lines_b sub_a sub_b
                start start view_a view_b matched in
            (
              ps,
              rw t e,
              IsAlignment-raise lines_a lines_b _ _ _ _ stop_a stop_b ps (omega arith) (omega arith)
                  r,
            )
        | inr f ↦
            let (ps, e, r) =
              align_line_window-IsAlignment lines_a lines_b is_punctuation scratch sub_a sub_b start
                start matched view_a view_b in
            (
              ps,
              rw f e,
              IsAlignment-raise lines_a lines_b _ _ _ _ stop_a stop_b ps (omega arith) (omega arith)
                  r,
            )
      ]
