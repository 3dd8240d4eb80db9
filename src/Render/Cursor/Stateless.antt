-- ===== src/Render/Cursor/Stateless.antt =====
-- Asked for columns that do not decrease, the cursor answers as a look at all spans would.
use diffmantic.Base.{
  ℕ, zero, suc, ◌≤◌, ◌<◌, ◌≡◌, refl, sym, subst, lt→ltb, ap, ◌∙◌, arith, false, ◌&&◌, List, [], ◌∷◌,
  leb, ltb, if◌then◌else◌, drop, map, inl, inr, Bool-cases, leb→le, leb→gt,
}
use diffmantic.Render.Cursor.{
  HighlightSpan, ActionKind, action_none, SpanCursor, new_span_cursor, advance, kind_at, action_at,
  parse_action_kind,
}

-- The action of the first span that holds the column.
unfoldable pub covering_action : List HighlightSpan → ℕ → ActionKind
unfolding parse_action_kind
covering_action [] col = action_none
covering_action (sp ∷ rest) col =
    let later = covering_action rest col in
    if leb sp.start_col col && ltb col sp.end_col
    then parse_action_kind sp.action sp.color_index
    else later

-- The answers to a list of columns, one after the other.
unfoldable pub actions_at : SpanCursor → List ℕ → List ActionKind
unfolding action_at
actions_at c [] = []
actions_at c (col ∷ cols) = let (moved, kind) = action_at c col in kind ∷ actions_at moved cols

-- Spans in order that do not overlap, from column `lo` on.
abbrev pub AreDisjoint : ℕ → List HighlightSpan → Type 0
AreDisjoint lo [] = Unit {0}
AreDisjoint lo (sp ∷ rest) =
    (lo ≤ sp.start_col) × (sp.start_col ≤ sp.end_col) × AreDisjoint sp.end_col rest

abbrev pub AreRising : ℕ → List ℕ → Type 0
AreRising lo [] = Unit {0}
AreRising lo (col ∷ cols) = (lo ≤ col) × AreRising col cols

-- The first `idx` spans end at column `lo` or before.
abbrev ArePassed : ℕ → ℕ → List HighlightSpan → Type 0
ArePassed lo zero spans = Unit {0}
ArePassed lo (suc idx) [] = ⊥
ArePassed lo (suc idx) (sp ∷ rest) = (sp.end_col ≤ lo) × ArePassed lo idx rest

-- The next span, if any, ends behind the column.
abbrev IsAhead : ℕ → List HighlightSpan → Type 0
IsAhead col [] = Unit {0}
IsAhead col (sp ∷ rest) = col < sp.end_col

ArePassed-later :
    (lo col idx : ℕ) (spans : List HighlightSpan)
    → lo ≤ col
    → ArePassed lo idx spans
    → ArePassed col idx spans
ArePassed-later lo col zero spans h p = tt
ArePassed-later lo col (suc idx) [] h p = absurd p
ArePassed-later lo col (suc idx) (sp ∷ rest) h (e, p) =
    (omega arith, ArePassed-later lo col idx rest h p)

ArePassed-next :
    (col idx : ℕ) (spans : List HighlightSpan) (sp : HighlightSpan) (rest : List HighlightSpan)
    → drop idx spans ≡ sp ∷ rest
    → sp.end_col ≤ col
    → ArePassed col idx spans
    → ArePassed col (suc idx) spans × (drop (suc idx) spans ≡ rest)
ArePassed-next col zero [] sp rest e h p = absurd (ground arith)
ArePassed-next col zero (a ∷ spans) sp rest e h p =
    let same : a ≡ sp = ground (arith, e) in
    let tail : spans ≡ rest = ground (arith, e) in
    let ends : a.end_col ≡ sp.end_col = ap (λ x. x.end_col) same in ((omega arith, tt), tail)
ArePassed-next col (suc idx) [] sp rest e h p = absurd p
ArePassed-next col (suc idx) (a ∷ spans) sp rest e h (q, p) =
    let (passed, tail) = ArePassed-next col idx spans sp rest e h p in ((q, passed), tail)

advance_lem :
    (col : ℕ) (spans rest : List HighlightSpan) (idx : ℕ)
    → drop idx spans ≡ rest
    → ArePassed col idx spans
    → ArePassed col (advance rest col idx) spans × IsAhead col (drop (advance rest col idx) spans)
unfolding advance
advance_lem col spans [] idx e p = (p, subst (IsAhead col) (sym e) tt)
advance_lem col spans (sp ∷ rest) idx e p = elim (Bool-cases (leb sp.end_col col)) [
  | inl over ↦
      let (passed, tail) = ArePassed-next col idx spans sp rest e (leb→le _ _ over) p in
      rw over (advance_lem col spans rest (suc idx) tail passed)
  | inr ahead ↦ rw ahead (p, subst (IsAhead col) (sym e) (leb→gt _ _ ahead))
]

covering_action-passed :
    (col idx : ℕ) (spans : List HighlightSpan)
    → ArePassed col idx spans
    → covering_action spans col ≡ covering_action (drop idx spans) col
unfolding covering_action
covering_action-passed col zero spans p = refl
covering_action-passed col (suc idx) [] p = absurd p
covering_action-passed col (suc idx) (sp ∷ rest) (e, p) =
    let outside : leb sp.start_col col && ltb col sp.end_col ≡ false = ground arith in
    rw outside (covering_action-passed col idx rest p)

covering_action-before :
    (col lo : ℕ) (spans : List HighlightSpan)
    → col < lo
    → AreDisjoint lo spans
    → covering_action spans col ≡ action_none
unfolding covering_action
covering_action-before col lo [] h r = refl
covering_action-before col lo (sp ∷ rest) h (a, b, r) =
    let outside : leb sp.start_col col && ltb col sp.end_col ≡ false = ground arith in
    rw outside (covering_action-before col sp.end_col rest (omega arith) r)

kind_at-covering_action :
    (col lo : ℕ) (spans : List HighlightSpan)
    → IsAhead col spans
    → AreDisjoint lo spans
    → kind_at spans col ≡ covering_action spans col
unfolding kind_at covering_action
kind_at-covering_action col lo [] h r = refl
kind_at-covering_action col lo (sp ∷ rest) h (a, b, r) = elim (Bool-cases (leb sp.start_col col)) [
  | inl started ↦ rw (started, lt→ltb col sp.end_col h) refl
  | inr later ↦
      let gt = leb→gt sp.start_col col later in
      rw later (sym (covering_action-before col sp.end_col rest (omega arith) r))
]

AreDisjoint-drop :
    (lo idx : ℕ) (spans : List HighlightSpan)
    → AreDisjoint lo spans
    → AreDisjoint 0 (drop idx spans)
AreDisjoint-drop lo zero [] r = tt
AreDisjoint-drop lo zero (sp ∷ rest) (a, b, r) = (omega arith, b, r)
AreDisjoint-drop lo (suc idx) [] r = tt
AreDisjoint-drop lo (suc idx) (sp ∷ rest) (a, b, r) = AreDisjoint-drop sp.end_col idx rest r

actions_at-moved :
    (spans : List HighlightSpan) (cols : List ℕ) (lo idx : ℕ)
    → AreDisjoint 0 spans
    → AreRising lo cols
    → ArePassed lo idx spans
    → actions_at (record { spans = spans; idx = idx }) cols ≡ map (covering_action spans) cols
unfolding actions_at
actions_at-moved spans [] lo idx r rising p = refl
actions_at-moved spans (col ∷ cols) lo idx r (h, rising) p =
    let next = advance (drop idx spans) col idx in
    let (passed, ahead) =
      advance_lem col spans (drop idx spans) idx refl (ArePassed-later lo col idx spans h p) in
    let kind : kind_at (drop next spans) col ≡ covering_action spans col =
      kind_at-covering_action col 0 (drop next spans) ahead (AreDisjoint-drop 0 next spans r)
      ∙ sym (covering_action-passed col next spans passed) in
    let later = actions_at-moved spans cols col next r rising passed in λ i. kind i ∷ later i

-- For spans in order that do not overlap, and columns that do not decrease: the answers of one
-- cursor, which never moves back, are those of a look at all spans for each column.
pub actions_at-covering_action :
    (spans : List HighlightSpan) (cols : List ℕ)
    → AreDisjoint 0 spans
    → AreRising 0 cols
    → actions_at (new_span_cursor spans) cols ≡ map (covering_action spans) cols
unfolding new_span_cursor
actions_at-covering_action spans cols r rising = actions_at-moved spans cols 0 0 r rising tt
