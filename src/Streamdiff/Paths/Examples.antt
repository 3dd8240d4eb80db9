-- ===== src/Streamdiff/Paths/Examples.antt =====
-- Header lines of a patch.
use diffmantic.Base.{◌≡◌, refl, arith, Option, none, [], ◌∷◌, ◌++◌}
use diffmantic.Engine.WordDiff.Tokens.{Bytes}
use diffmantic.Engine.WordDiff.Diff.{equal_bytes}
use diffmantic.Engine.LineDiff.{trim_space}
use diffmantic.Streamdiff.Paths.{diff_git, prefix_a, prefix_b, cut_prefix, parse_diff_git_paths}
use diffmantic.Streamdiff.Paths.Symmetric.{
  prefixed_paths, bare_paths, parse_diff_git_paths-same_path,
}

abbrev never : Bytes → Option Bytes
never s = none

-- A path with a blank in it.
abbrev spaced : Bytes
spaced = b'x' ∷ b' ' ∷ b'y' ∷ []

-- A path in a directory of that name.
abbrev slashed : Bytes
slashed = b'a' ∷ b'/' ∷ b' ' ∷ b'y' ∷ []

abbrev other : Bytes
other = b'z' ∷ []

renamed :
    parse_diff_git_paths never (diff_git ++ (prefix_a ++ (b'x' ∷ b' ' ∷ (prefix_b ++ other))))
    ≡ (b'x' ∷ [], other)
unfolding parse_diff_git_paths equal_bytes
renamed = refl

quoted :
    parse_diff_git_paths never (
      diff_git
      ++ (b'"' ∷ (prefix_a ++ (b'x' ∷ b'"' ∷ b' ' ∷ b'"' ∷ (prefix_b ++ (b'z' ∷ b'"' ∷ []))))))
    ≡ (b'x' ∷ [], other)
unfolding parse_diff_git_paths equal_bytes
quoted = refl

parse_diff_git_paths-same_path_example :
    (parse_diff_git_paths never (diff_git ++ prefixed_paths slashed) ≡ (slashed, slashed))
    × (parse_diff_git_paths never (diff_git ++ bare_paths spaced) ≡ (spaced, spaced))
unfolding trim_space cut_prefix
parse_diff_git_paths-same_path_example =
    parse_diff_git_paths-same_path never slashed spaced (omega arith) refl (omega arith) refl refl
