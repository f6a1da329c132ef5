-- ===== src/Tests/References/Duration.antt =====
-- tasks/parse-duration/reference.hpp: durations at the ends of the range.
use gemini_cpp.Base.{◌^◌, ◌-◌, none, some, length, ◌≡◌, refl, arith}
use gemini_cpp.Base.Int.{pos, negsuc}
use gemini_cpp.Base.Text.{Bytes, codes, equal}
use gemini_cpp.References.Duration.{add_components, parse_with, parse_duration, unit_of}
use gemini_cpp.References.Duration.Wide.{u64, u128, unbounded}
use gemini_cpp.References.Duration.Range.{IsInt64, parse_duration-unbounded, parse_duration-IsInt64}
use gemini_cpp.References.Duration.Enough.{add_components-enough}

abbrev hour_and_more : Bytes
hour_and_more = codes "1h15m30.5s"

abbrev least : Bytes
least = codes "-9223372036854775808ns"

hour_and_more_lem : parse_duration hour_and_more ≡ some (pos 4530500000000)
unfolding equal unit_of
hour_and_more_lem = refl

least_lem : parse_duration least ≡ some (negsuc (2 ^ 63 - 1))
unfolding equal unit_of
least_lem = refl

above_greatest : parse_duration (codes "9223372036854775808ns") ≡ none
unfolding equal unit_of
above_greatest = refl

zero_lem : parse_duration (codes "+0") ≡ some (pos 0)
unfolding equal unit_of
zero_lem = refl

unit_missing : parse_duration (codes "1.5") ≡ none
unfolding equal unit_of
unit_missing = refl

parse_duration-unbounded_example : parse_duration least ≡ parse_with unbounded unbounded least
parse_duration-unbounded_example = parse_duration-unbounded least

parse_duration-IsInt64_example : IsInt64 (negsuc (2 ^ 63 - 1))
parse_duration-IsInt64_example = parse_duration-IsInt64 least (negsuc (2 ^ 63 - 1)) least_lem

add_components-enough_example :
    add_components u64 u128 64 0 hour_and_more
    ≡ add_components u64 u128 (length hour_and_more) 0 hour_and_more
add_components-enough_example = add_components-enough u64 u128 64 0 hour_and_more (omega arith)
