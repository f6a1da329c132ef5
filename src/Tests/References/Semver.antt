-- ===== src/Tests/References/Semver.antt =====
-- tasks/semver-compare/reference.hpp: versions compared.
use mathlib.Core.Option.{map}
use gemini_cpp.Base.{none, some, ◌≡◌, ◌↔◌, refl}
use gemini_cpp.Base.Text.{Bytes, codes}
use gemini_cpp.References.Semver.{Version, parse_version, compare_semver}
use gemini_cpp.References.Semver.Order.{less, same, more, flip}
use gemini_cpp.References.Semver.Precedence.{compare_semver-IsTotalOrder}

abbrev alpha : Bytes
alpha = codes "1.0.0-alpha"

abbrev alpha_1 : Bytes
alpha_1 = codes "1.0.0-alpha.1"

abbrev built : Bytes
built = codes "1.0.0-alpha.1+build.05"

abbrev beta : Bytes
beta = codes "1.0.0-beta-2"

alpha_below : compare_semver alpha alpha_1 ≡ some less
unfolding parse_version
alpha_below = refl

beta_above : compare_semver alpha_1 beta ≡ some less
unfolding parse_version
beta_above = refl

ten_above_nine : compare_semver (codes "1.10.0") (codes "1.9.0") ≡ some more
unfolding parse_version
ten_above_nine = refl

release_above : compare_semver (codes "1.0.0") beta ≡ some more
unfolding parse_version
release_above = refl

build_ignored : compare_semver alpha_1 built ≡ some same
unfolding parse_version
build_ignored = refl

leading_zero : compare_semver (codes "1.0.0-01") alpha ≡ none
unfolding parse_version
leading_zero = refl

two_numbers : parse_version (codes "1.0") ≡ none
unfolding parse_version
two_numbers = refl

compare_semver-IsTotalOrder_example :
    (compare_semver alpha_1 alpha ≡ map flip (compare_semver alpha alpha_1))
    × ((compare_semver alpha alpha_1 ≡ some same)
        ↔ ((v : Version) × (parse_version alpha ≡ some v) × (parse_version alpha_1 ≡ some v)))
    × (compare_semver alpha alpha_1 ≡ some less
        → compare_semver alpha_1 beta ≡ some less
        → compare_semver alpha beta ≡ some less)
compare_semver-IsTotalOrder_example = compare_semver-IsTotalOrder alpha alpha_1 beta
