-- ===== src/Formatting.antt =====
-- web/lib/format.ts, web/lib/charts.ts and `fieldErrors` of web/lib/validators.ts. Numbers are whole and from
-- 0, and a quotient is exact before it is rounded. How the day reads some days before today, and the verdict
-- of a schema, are arguments.
pub mod Clock
pub mod Sizes
pub mod Series
mod Tests
use Prim.Native.Nat.{zero, suc}
use Prim.Native.String
use Prim.Native.String.{String, ◌++◌}
use vidsilo.Base.{
  ℕ, ◌+◌, ◌*◌, ◌/◌, ◌%◌, ◌^◌, ◌-◌, min, Bool, true, false, Option, none, some, List, [], ◌∷◌,
  if◌then◌else◌, eqb, ltb, leb, or_else, is_some, split_at, Dict, lookup, insert,
}
use vidsilo.Base.Numerals.{decimal}

-- `s.padStart(2, "0")`
abbrev pub pad2 : String → String
pad2 String.[] = "00"
pad2 (String.◌∷◌ c String.[]) = String.◌∷◌ "0" (String.◌∷◌ c String.[])
pad2 (String.◌∷◌ c (String.◌∷◌ d s)) = String.◌∷◌ c (String.◌∷◌ d s)

-- `total`, in seconds.
unfoldable pub total_seconds : ℕ → ℕ
total_seconds ms = (ms + 500) / 1000

unfoldable pub format_duration : Option ℕ → String
unfolding total_seconds decimal
format_duration none = "–"
format_duration (some ms) =
    let total = total_seconds ms in
    let h = total / 3600 in
    let m = (total % 3600) / 60 in
    let s = total % 60 in
    if ltb 0 h
    then decimal h ++ (":" ++ (pad2 (decimal m) ++ (":" ++ pad2 (decimal s))))
    else decimal m ++ (":" ++ pad2 (decimal s))

-- `Math.floor(Math.log(n) / Math.log(1024))`, for fuel that is at least `n`.
unfoldable pub floor_log : ℕ → ℕ → ℕ
floor_log zero n = 0
floor_log (suc fuel) n = elim (ltb n 1024) [ true ↦ 0 | false ↦ suc (floor_log fuel (n / 1024)) ]

-- `i`
unfoldable pub unit_index : ℕ → ℕ
unfolding floor_log
unit_index n = min (floor_log n n) 4

-- The nearest whole number of a quotient, the larger one of two.
unfoldable pub rounded : ℕ → ℕ → ℕ
rounded n d = (2 * n + d) / (2 * d)

-- `n / 1024 ** i`, in tenths.
unfoldable pub tenths : ℕ → ℕ
unfolding unit_index rounded
tenths n = rounded (10 * n) (1024 ^ unit_index n)

unfoldable pub unit_name : ℕ → String
unit_name zero = "B"
unit_name (suc zero) = "KB"
unit_name (suc (suc zero)) = "MB"
unit_name (suc (suc (suc zero))) = "GB"
unit_name (suc (suc (suc (suc n)))) = "TB"

unfoldable pub format_bytes : Option ℕ → String
unfolding tenths unit_index unit_name decimal
format_bytes none = "–"
format_bytes (some n) =
    if eqb n 0
    then "0 B"
    else if eqb (unit_index n) 0
    then decimal n ++ (" " ++ unit_name 0)
    else decimal (tenths n / 10)
      ++ ("." ++ (decimal (tenths n % 10) ++ (" " ++ unit_name (unit_index n))))

unfoldable pub format_gb : ℕ → String
unfolding rounded decimal
format_gb bytes =
    let n = rounded (100 * bytes) (1024 ^ 3) in
    decimal (n / 100) ++ ("." ++ pad2 (decimal (n % 100)))

-- A part of a text that was split: a missing one reads "undefined".
abbrev nth_part : ℕ → List String → String
nth_part n [] = "undefined"
nth_part zero (w ∷ ws) = w
nth_part (suc n) (w ∷ ws) = nth_part n ws

unfoldable pub format_day : String → String
unfolding split_at
format_day day =
    let parts = split_at (λ c. eqb c 45) day in
    nth_part 0 parts ++ ("-" ++ (nth_part 1 parts ++ ("-" ++ nth_part 2 parts)))

-- `new Map(points.map((p) => [p.day, p.value]))`
unfoldable pub by_day : Dict ℕ → Dict ℕ → Dict ℕ
unfolding insert
by_day [] found = found
by_day ((day, value) ∷ points) found = by_day points (insert day value found)

-- The loop of `padSeries`, from `days - 1` days ago to today.
unfoldable pub padded : (ℕ → String) → Dict ℕ → ℕ → Dict ℕ
unfolding lookup
padded key found zero = []
padded key found (suc i) = (key i, or_else (lookup (key i) found) 0) ∷ padded key found i

-- `padSeries`
unfoldable pub pad_series : (ℕ → String) → Dict ℕ → ℕ → Dict ℕ
unfolding by_day padded
pad_series key points days = padded key (by_day points []) days

-- What a schema found: the path of the field, if there is one, and the message.
pub record Issue : Type 0 where
  pub path : Option String
  pub message : String

unfoldable pub add_issues : List Issue → Dict String → Dict String
unfolding lookup insert
add_issues [] out = out
add_issues (i ∷ is) out =
    let key = or_else i.path "form" in
    add_issues is (if is_some (lookup key out) then out else insert key i.message out)

-- `fieldErrors`, of the issues of `safeParse`, or of none where it succeeds.
unfoldable pub field_errors : Option (List Issue) → Dict String
unfolding add_issues
field_errors none = []
field_errors (some issues) = add_issues issues []
