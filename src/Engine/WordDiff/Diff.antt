-- ===== src/Engine/WordDiff/Diff.antt =====
-- internal/engine/worddiff.go: the operations between two lines.
use diffmantic.Base.{
  ℕ, suc, ◌+◌, ◌-◌, Bool, true, false, not, ◌&&◌, ◌||◌, List, [], ◌∷◌, ◌++◌, length, get_or, ltb,
  leb, ◌==◌, if◌then◌else◌,
}
use diffmantic.Engine.SeqDiff.{SeqScratch, trim_bounds, align_uniform, combine_matches}
use diffmantic.Engine.WordDiff.Tokens.{Bytes, WordToken, slice, tokenize}

pub data WordAction : Type 0 where
  update delete insert : WordAction

-- A range that the source leaves out is its zero value.
pub record WordOp : Type 0 where
  pub action : WordAction
  pub src_start : ℕ
  pub src_end : ℕ
  pub dst_start : ℕ
  pub dst_end : ℕ

abbrev pub delete_op : ℕ → ℕ → WordOp
delete_op a b = record { action = delete; src_start = a; src_end = b; dst_start = 0; dst_end = 0 }

abbrev pub insert_op : ℕ → ℕ → WordOp
insert_op a b = record { action = insert; src_start = 0; src_end = 0; dst_start = a; dst_end = b }

-- `strings.TrimRight(s, "\r\n")`
unfoldable pub trim_newlines : Bytes → Bytes
trim_newlines [] = []
trim_newlines (c ∷ s) = elim (trim_newlines s) [
  | [] ↦ if c == 13 || c == 10 then [] else c ∷ []
  | d ∷ t ↦ c ∷ d ∷ t
]

unfoldable pub equal_bytes : Bytes → Bytes → Bool
equal_bytes [] [] = true
equal_bytes (a ∷ s) (b ∷ t) = let rest = equal_bytes s t in a == b && rest
equal_bytes _ _ = false

unfoldable pub tokens_equal : Bytes → Bytes → WordToken → WordToken → Bool
unfolding equal_bytes
tokens_equal src dst t1 t2 =
    t1.hash == t2.hash && equal_bytes (slice src t1.start t1.end) (slice dst t2.start t2.end)

abbrev pub no_token : WordToken
no_token = record { hash = 0; start = 0; end = 0 }

module _ (tokens_src tokens_dst : List WordToken) where
  -- The operation of one slot: the tokens `[src_from, src_to)` against `[dst_from, dst_to)`.
  unfoldable pub slot_ops : ℕ → ℕ → ℕ → ℕ → List WordOp
  slot_ops src_from src_to dst_from dst_to =
      let src_start = (get_or tokens_src src_from no_token).start in
      let src_end = (get_or tokens_src (src_to - 1) no_token).end in
      let dst_start = (get_or tokens_dst dst_from no_token).start in
      let dst_end = (get_or tokens_dst (dst_to - 1) no_token).end in
      let num_src = src_to - src_from in
      let num_dst = dst_to - dst_from in
      if ltb 0 num_src && ltb 0 num_dst
      then record {
        action = update;
        src_start = src_start;
        src_end = src_end;
        dst_start = dst_start;
        dst_end = dst_end;
      }
        ∷ []
      else if ltb 0 num_src && num_dst == 0
      then delete_op src_start src_end ∷ []
      else if num_src == 0 && ltb 0 num_dst
      then insert_op dst_start dst_end ∷ []
      else []

  -- The slots before, between and behind the matches, from the tokens `src_from` and `dst_from`.
  unfoldable pub slots : ℕ → ℕ → List (ℕ × ℕ) → List WordOp
  slots src_from dst_from [] = slot_ops src_from (length tokens_src) dst_from (length tokens_dst)
  slots src_from dst_from ((i, j) ∷ matches) =
      slot_ops src_from i dst_from j ++ slots (suc i) (suc j) matches

  -- Lines that share no token are deleted and inserted as a whole.
  unfoldable pub matched_ops : List (ℕ × ℕ) → List WordOp
  unfolding slots
  matched_ops [] =
      let n = length tokens_src in
      let m = length tokens_dst in
      (if ltb 0 n
        then delete_op (get_or tokens_src 0 no_token).start (get_or tokens_src (n - 1) no_token).end
          ∷ []
        else [])
      ++ (if ltb 0 m
          then insert_op (get_or tokens_dst 0 no_token).start
              (get_or tokens_dst (m - 1) no_token).end
            ∷ []
          else [])
  matched_ops (first ∷ rest) = slots 0 0 (first ∷ rest)

  -- Behind `TrimBounds`: the fast paths for an empty middle, and the alignment of the middle.
  unfoldable pub trimmed_ops : SeqScratch → (ℕ → ℕ → Bool) → ℕ → ℕ → ℕ → List WordOp
  unfolding matched_ops
  trimmed_ops seq eq prefix stop_src stop_dst =
      let matches =
        (align_uniform seq (stop_src - prefix) (stop_dst - prefix)
          (λ i j. eq (prefix + i) (prefix + j))).matches in
      let all_matches = combine_matches [] prefix matches stop_src stop_dst (length tokens_src) in
      if leb stop_src prefix && leb stop_dst prefix
      then []
      else if leb stop_src prefix && ltb prefix stop_dst
      then insert_op (get_or tokens_dst prefix no_token).start
          (get_or tokens_dst (stop_dst - 1) no_token).end
        ∷ []
      else if ltb prefix stop_src && leb stop_dst prefix
      then delete_op (get_or tokens_src prefix no_token).start
          (get_or tokens_src (stop_src - 1) no_token).end
        ∷ []
      else matched_ops all_matches

  -- From the trimming on, for lines that both have a token.
  unfoldable pub diff_tokens : SeqScratch → Bytes → Bytes → List WordOp
  unfolding trimmed_ops
  diff_tokens seq src dst =
      let eq = λ (i j : ℕ).
        tokens_equal src dst (get_or tokens_src i no_token) (get_or tokens_dst j no_token) in
      let (prefix, stop_src, stop_dst) = trim_bounds (length tokens_src) (length tokens_dst) eq in
      trimmed_ops seq eq prefix stop_src stop_dst

-- The whole of one line against the whole of the other: the circuit breaker.
unfoldable pub whole_line_ops : Bytes → Bytes → List WordOp
whole_line_ops src dst =
    (if ltb 0 (length src) then delete_op 0 (length src) ∷ [] else [])
    ++ (if ltb 0 (length dst) then insert_op 0 (length dst) ∷ [] else [])

module _ (letter_or_digit : ℕ → Bool) where
  -- `Diff` behind its two calls of `TrimRight`.
  unfoldable pub diff_trimmed : SeqScratch → Bytes → Bytes → List WordOp
  diff_trimmed seq src dst =
      let (tokens_src, ok_src) = tokenize letter_or_digit src in
      let (tokens_dst, ok_dst) = tokenize letter_or_digit dst in
      if not ok_src || not ok_dst
      then whole_line_ops src dst
      else if length tokens_src == 0 && length tokens_dst == 0
      then []
      else if length tokens_src == 0
      then insert_op 0 (length dst) ∷ []
      else if length tokens_dst == 0
      then delete_op 0 (length src) ∷ []
      else diff_tokens tokens_src tokens_dst seq src dst

  unfoldable pub diff_words : SeqScratch → Bytes → Bytes → List WordOp
  unfolding trim_newlines diff_trimmed
  diff_words seq src dst = diff_trimmed seq (trim_newlines src) (trim_newlines dst)
