-- ===== src/Streamdiff/Paths/Symmetric.antt =====
-- The header line of a file that keeps its name, its paths written without quotes: with Git's
-- prefixes, and without them.
use diffmantic.Base.{
  ℕ, zero, suc, ◌+◌, ◌*◌, ◌-◌, ◌/◌, ◌%◌, ◌<◌, ◌≡◌, refl, sym, ap, ◌∙◌, arith, true, [], ◌∷◌, ◌++◌,
  ltb, ◌==◌, length, take, drop, get_or, length-append, Option, none,
}
use diffmantic.Engine.WordDiff.Tokens.{Bytes}
use diffmantic.Engine.WordDiff.Diff.{equal_bytes}
use diffmantic.Engine.LineDiff.{trim_space}
use diffmantic.Engine.LineDiff.Views.{equal_bytes_self}
use diffmantic.Streamdiff.Paths.{
  diff_git, prefix_a, prefix_b, cut_prefix, rest_paths, parse_diff_git_paths,
}

take-append_left : (p q : Bytes) → take (length p) (p ++ q) ≡ p
take-append_left [] q = refl
take-append_left (c ∷ p) q = ap (λ l. c ∷ l) (take-append_left p q)

drop-append_left : (p q : Bytes) → drop (length p) (p ++ q) ≡ q
drop-append_left [] q = refl
drop-append_left (c ∷ p) q = drop-append_left p q

drop-nil : (n : ℕ) → drop {A = ℕ} n [] ≡ []
drop-nil zero = refl
drop-nil (suc n) = refl

drop-plus : (a b : ℕ) (s : Bytes) → drop (a + b) s ≡ drop b (drop a s)
drop-plus zero b s = let e : zero + b ≡ b = omega arith in ap (λ n. drop n s) e
drop-plus (suc a) b [] = drop-nil (suc a + b) ∙ sym (drop-nil b)
drop-plus (suc a) b (c ∷ s) =
    let e : suc a + b ≡ suc (a + b) = omega arith in ap (λ n. drop n (c ∷ s)) e ∙ drop-plus a b s

-- The two paths as they stand in the line, when Git writes them without quotes.
abbrev pub prefixed_paths : Bytes → Bytes
prefixed_paths p = prefix_a ++ (p ++ ((b' ' ∷ prefix_b) ++ p))

length-prefixed_paths : (p : Bytes) → length (prefixed_paths p) ≡ 2 * length p + 5
length-prefixed_paths p = omega (arith, length-append p ((b' ' ∷ prefix_b) ++ p))

behind_first : (p : Bytes) → drop (2 + length p) (prefixed_paths p) ≡ (b' ' ∷ prefix_b) ++ p
behind_first p =
    drop-plus 2 (length p) (prefixed_paths p) ∙ drop-append_left p ((b' ' ∷ prefix_b) ++ p)

rest_paths-prefixed_paths :
    (unquote : Bytes → Option Bytes) (p : Bytes)
    → 0 < length p
    → rest_paths unquote (prefixed_paths p) ≡ (p, p)
unfolding rest_paths
rest_paths-prefixed_paths unquote p h =
    let n = length p in
    let size = length-prefixed_paths p in
    let half : (length (prefixed_paths p) - 5) / 2 ≡ n = omega (arith, size) in
    let first : take n (drop 2 (prefixed_paths p)) ≡ p = take-append_left p _ in
    let sep : take 3 (drop (2 + n) (prefixed_paths p)) ≡ b' ' ∷ prefix_b =
      ap (λ l. take 3 l) (behind_first p) in
    let second : drop (2 + n + 3) (prefixed_paths p) ≡ p =
      drop-plus (2 + n) 3 (prefixed_paths p) ∙ ap (λ l. drop 3 l) (behind_first p) in
    let some_bytes : ltb 0 (length (prefixed_paths p) - 5) ≡ true = ground (arith, size) in
    let even : (length (prefixed_paths p) - 5) % 2 == 0 ≡ true = ground (arith, size) in
    let alike : equal_bytes (b' ' ∷ prefix_b) (b' ' ∷ prefix_b) ≡ true =
      equal_bytes_self _ _ refl in
    rw (half, first, sep, second, some_bytes, even, alike, equal_bytes_self p p refl) refl

abbrev pub bare_paths : Bytes → Bytes
bare_paths p = p ++ b' ' ∷ p

get_or-append : (p q : Bytes) (c : ℕ) → get_or (p ++ c ∷ q) (length p) 0 ≡ c
get_or-append [] q c = refl
get_or-append (b ∷ p) q c = get_or-append p q c

rest_paths-bare_paths :
    (unquote : Bytes → Option Bytes) (p : Bytes)
    → 0 < length p
    → cut_prefix prefix_a (bare_paths p) ≡ none
    → rest_paths unquote (bare_paths p) ≡ (p, p)
unfolding rest_paths
rest_paths-bare_paths unquote p h bare =
    let size : length (bare_paths p) ≡ 2 * length p + 1 =
      omega (arith, length-append p (b' ' ∷ p)) in
    let half : (length (bare_paths p) - 1) / 2 ≡ length p = omega (arith, size) in
    let first : take (length p) (bare_paths p) ≡ p = take-append_left p _ in
    let second : drop (length p + 1) (bare_paths p) ≡ p =
      drop-plus (length p) 1 (bare_paths p) ∙ ap (λ l. drop 1 l) (drop-append_left p (b' ' ∷ p)) in
    let some_bytes : ltb 0 (length (bare_paths p) - 1) ≡ true = ground (arith, size) in
    let even : (length (bare_paths p) - 1) % 2 == 0 ≡ true = ground (arith, size) in
    rw
      (
        bare,
        rest_paths,
        half,
        get_or-append p p b' ',
        first,
        second,
        some_bytes,
        even,
        equal_bytes_self p p refl,
      )
      refl

-- For paths that are not empty, blanks included, that Git writes without quotes, and that trimming
-- leaves as they stand in the line: `parseDiffGitPaths` reads the header line of a file that keeps its
-- name, `diff --git a/<path> b/<path>`, as the path, twice; and so it reads the line without the
-- prefixes, `diff --git <path> <path>`, of a path that does not start with "a/".
pub parse_diff_git_paths-same_path :
    (unquote : Bytes → Option Bytes) (p q : Bytes)
    → 0 < length p
    → trim_space (prefixed_paths p) ≡ prefixed_paths p
    → 0 < length q
    → trim_space (bare_paths q) ≡ bare_paths q
    → cut_prefix prefix_a (bare_paths q) ≡ none
    → (parse_diff_git_paths unquote (diff_git ++ prefixed_paths p) ≡ (p, p))
      × (parse_diff_git_paths unquote (diff_git ++ bare_paths q) ≡ (q, q))
unfolding parse_diff_git_paths cut_prefix
parse_diff_git_paths-same_path unquote p q h trimmed k bare_trimmed bare = (
  ap (rest_paths unquote) trimmed ∙ rest_paths-prefixed_paths unquote p h,
  ap (rest_paths unquote) bare_trimmed ∙ rest_paths-bare_paths unquote q k bare,
)
