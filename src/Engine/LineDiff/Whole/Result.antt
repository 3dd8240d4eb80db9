-- ===== src/Engine/LineDiff/Whole/Result.antt =====
-- The pairs that `LineDiff` returns.
use diffmantic.Base.{
  ℕ, ◌-◌, ◌≡◌, sym, subst, min, Bool, ◌||◌, List, [], ◌++◌, arith, length, leb, Bool-cases, inl,
  inr, append-nil,
}
use diffmantic.Engine.SeqDiff.{SeqScratch, trim_bounds, diagonal}
use diffmantic.Engine.SeqDiff.Optimum.{IsAlignment}
use diffmantic.Engine.SeqDiff.Alignment.{equal_weight}
use diffmantic.Engine.SeqDiff.Trim.{
  IsTrimmed, trim_bounds-IsTrimmed, IsAlignment-concat, diagonal-IsAlignment,
}
use diffmantic.Engine.WordDiff.Tokens.{Bytes}
use diffmantic.Engine.LineDiff.{compact_line_diff}
use diffmantic.Engine.LineDiff.Rematch.{IsInside, IsAlignment-IsInside}
use diffmantic.Engine.LineDiff.Views.{same_text, IsAlignment-raise}
use diffmantic.Engine.LineDiff.Whole.{trimmed_matches, line_diff}
use diffmantic.Engine.LineDiff.Whole.Middle.{equal_lines, run-same_text, middle_matches-IsAlignment}
use diffmantic.Engine.LineDiff.Whole.Compacted.{
  w, compacted-IsAlignment, IsInside-append, reordered-SameLines,
}

module _ (is_punctuation : Bytes → Bool) (scratch : SeqScratch) (lines_a lines_b : List Bytes) where
  abbrev total_a : ℕ
  total_a = length lines_a

  abbrev total_b : ℕ
  total_b = length lines_b

  -- From any three parts: the ends equal, the middle an alignment.
  module _ (start stop_a stop_b : ℕ)
      (t : IsTrimmed
        (equal_lines is_punctuation scratch lines_a lines_b)
        total_a
        total_b
        start
        stop_a
        stop_b)
      (middle : List (ℕ × ℕ))
      (r : IsAlignment (w lines_a lines_b) start start stop_a stop_b middle) where
    abbrev head_part : List (ℕ × ℕ)
    head_part = diagonal start 0 0

    abbrev tail_part : List (ℕ × ℕ)
    tail_part = diagonal (min (total_a - stop_a) (total_b - stop_b)) stop_a stop_b

    head_part-IsAlignment : IsAlignment (w lines_a lines_b) 0 0 start start head_part
    head_part-IsAlignment =
        diagonal-IsAlignment (same_text lines_a lines_b) start 0 0 start start
          (run-same_text is_punctuation scratch lines_a lines_b start 0 0 t.head_run) (omega arith)
          (omega arith)

    tail_part-IsAlignment : IsAlignment (w lines_a lines_b) stop_a stop_b total_a total_b tail_part
    tail_part-IsAlignment =
        let (_, _, a, b) = t.ordered in
        let count : total_a - stop_a ≡ min (total_a - stop_a) (total_b - stop_b) =
          omega (arith, t.tails) in
        subst
          (λ c.
            IsAlignment (w lines_a lines_b) stop_a stop_b total_a total_b
              (diagonal c stop_a stop_b))
          count
          (diagonal-IsAlignment (same_text lines_a lines_b) (total_a - stop_a) stop_a stop_b total_a
            total_b
            (run-same_text is_punctuation scratch lines_a lines_b (total_a - stop_a) stop_a stop_b
              t.tail_run)
            (omega arith) (omega (arith, t.tails)))

    parts-IsAlignment :
        IsAlignment (w lines_a lines_b) 0 0 total_a total_b (head_part ++ (middle ++ tail_part))
    parts-IsAlignment =
        let (a, b, c, d) = t.ordered in
        IsAlignment-concat (same_text lines_a lines_b) 0 0 start start total_a total_b head_part
          (middle ++ tail_part) (omega arith, omega arith, omega arith, omega arith)
          head_part-IsAlignment
          (IsAlignment-concat (same_text lines_a lines_b) start start stop_a stop_b total_a total_b
            middle tail_part (a, b, c, d) r tail_part-IsAlignment)

    parts-IsInside : IsInside total_a total_b ((head_part ++ tail_part) ++ middle)
    parts-IsInside =
        let (a, b, c, d) = t.ordered in
        let raise = IsAlignment-raise lines_a lines_b in
        IsInside-append _ _ (head_part ++ tail_part) middle
          (IsInside-append _ _ head_part tail_part
            (IsAlignment-IsInside (w lines_a lines_b) 0 0 _ _ head_part (
              raise 0 0 _ _ total_a total_b head_part (omega arith) (omega arith)
                head_part-IsAlignment))
            (IsAlignment-IsInside (w lines_a lines_b) _ _ _ _ tail_part tail_part-IsAlignment))
          (IsAlignment-IsInside (w lines_a lines_b) _ _ _ _ middle
            (raise _ _ _ _ total_a total_b middle c d r))

    parts_compacted :
        IsAlignment
          (w lines_a lines_b)
          0
          0
          total_a
          total_b
          (compact_line_diff lines_a lines_b ((head_part ++ tail_part) ++ middle))
    parts_compacted =
        compacted-IsAlignment lines_a lines_b ((head_part ++ tail_part) ++ middle)
          (head_part ++ (middle ++ tail_part)) parts-IsInside parts-IsAlignment
          (reordered-SameLines head_part tail_part middle)

  -- Whatever the two texts and the scratch memory: the pairs that `LineDiff` returns rise strictly on
  -- both sides, lie within the texts, and pair lines that are equal but for the blanks around them.
  pub line_diff-IsAlignment :
      IsAlignment
        (equal_weight (same_text lines_a lines_b))
        0
        0
        (length lines_a)
        (length lines_b)
        (line_diff is_punctuation scratch lines_a lines_b)
  unfolding line_diff
  line_diff-IsAlignment =
      let eq = equal_lines is_punctuation scratch lines_a lines_b in
      let (start, stop_a, stop_b) = trim_bounds total_a total_b eq in
      let t : IsTrimmed eq total_a total_b start stop_a stop_b =
        trim_bounds-IsTrimmed eq total_a total_b in
      let ends = trimmed_matches is_punctuation scratch lines_a lines_b start stop_a stop_b in
      elim (Bool-cases (leb stop_a start || leb stop_b start)) [
        | inl no_middle ↦ rw no_middle (
            subst
              (λ l.
                IsAlignment (w lines_a lines_b) 0 0 total_a total_b
                  (compact_line_diff lines_a lines_b l))
              (append-nil ends) (parts_compacted start stop_a stop_b t [] tt))
        | inr some_middle ↦
            let (middle, e, r) =
              middle_matches-IsAlignment is_punctuation scratch lines_a lines_b start stop_a stop_b
                ends t.ordered in
            rw some_middle (
              subst
                (λ l.
                  IsAlignment (w lines_a lines_b) 0 0 total_a total_b
                    (compact_line_diff lines_a lines_b l))
                (sym e) (parts_compacted start stop_a stop_b t middle r))
      ]
