-- ===== src/Formatting/Tests.antt =====
-- Numbers, days and messages as texts, and the theorems at concrete inputs.
use Prim.Native.String.{String}
use vidsilo.Base.{
  ℕ, ◌+◌, ◌*◌, ◌^◌, ◌≤◌, ◌<◌, ◌≡◌, ◌⊎◌, suc, refl, some, List, [], ◌∷◌, arith, Dict, lookup,
}
use vidsilo.Base.Numerals.{digits, decimal}
use vidsilo.Formatting.{
  total_seconds, format_duration, floor_log, unit_index, rounded, tenths, unit_name, format_bytes,
  format_gb, format_day, by_day, padded, pad_series, Issue, add_issues, field_errors,
}
use vidsilo.Formatting.Clock.{clock_of, parts_of, AllSixtieths, clock_of-format_duration}
use vidsilo.Formatting.Sizes.{tenths_lem}
use vidsilo.Formatting.Series.{last_of, lookup-field_errors}

formatting : Unit {0}
unfolding digits decimal total_seconds format_duration floor_log unit_index rounded tenths unit_name
    format_bytes format_gb format_day by_day padded pad_series add_issues field_errors last_of
formatting = tt

an_hour : format_duration (some 3725499) ≡ "1:02:05"
unfolding formatting
an_hour = refl

nearly_a_minute : format_duration (some 59500) ≡ "1:00"
unfolding formatting
nearly_a_minute = refl

-- A size just below a unit reads as 1024 of the unit below.
nearly_a_megabyte : format_bytes (some 1048575) ≡ "1024.0 KB"
unfolding formatting
nearly_a_megabyte = refl

one_and_a_half : format_bytes (some 1536) ≡ "1.5 KB"
unfolding formatting
one_and_a_half = refl

five_gigabytes : format_gb 5422960804 ≡ "5.05"
unfolding formatting
five_gigabytes = refl

day_kept : format_day "2024-02-29" ≡ "2024-02-29"
unfolding formatting
day_kept = refl

no_day : format_day "today" ≡ "today-undefined-undefined"
unfolding formatting
no_day = refl

clock_of-format_duration_example :
    (clock_of (format_duration (some 3725499)) ≡ 3725)
    × AllSixtieths (parts_of (format_duration (some 3725499)))
clock_of-format_duration_example = clock_of-format_duration 3725499

tenths_lem_example :
    (1024 ^ unit_index 1048575 ≤ 1048575)
    × ((1048575 < 1024 ^ suc (unit_index 1048575)) ⊎ (unit_index 1048575 ≡ 4))
    × (2 * (tenths 1048575 * 1024 ^ unit_index 1048575)
        ≤ 2 * (10 * 1048575) + 1024 ^ unit_index 1048575)
    × (2 * (10 * 1048575)
        < 2 * (tenths 1048575 * 1024 ^ unit_index 1048575) + 1024 ^ unit_index 1048575)
tenths_lem_example = tenths_lem 1048575 (omega arith)

-- The number of days ago.
abbrev ago : ℕ → String
ago n = decimal n

abbrev visits : Dict ℕ
visits = ("1", 4) ∷ ("9", 8) ∷ ("1", 5) ∷ []

abbrev issues : List Issue
issues =
    record { path = some "email"; message = "Email is required" }
    ∷ record { path = some "email"; message = "Enter a valid email address" }
    ∷ []

lookup-field_errors_example : lookup "email" (field_errors (some issues)) ≡ some "Email is required"
unfolding formatting
lookup-field_errors_example = lookup-field_errors "email" issues
