-- ===== src/Analytics.antt =====
-- web/app/admin/analytics/page.tsx and web/components/analytics-range.tsx: the range of days, the loads of the
-- numbers, and the points of the charts. A day is a number, and its text an argument; a range whose day is
-- missing or no day has none.
pub mod Ranges
mod Tests
use Prim.Native.Nat.{zero, suc}
use vidsilo.Base.{
  ℕ, ◌+◌, ◌-◌, ◌*◌, ◌/◌, Bool, true, false, Option, none, some, List, [], ◌∷◌, ◌++◌, String,
  if◌then◌else◌, leb, or_else, is_blank, Dict, lookup, map, truthy,
}
use vidsilo.Formatting.{by_day, rounded}

pub record DayNumbers : Type 0 where
  pub day : String
  pub plays : ℕ
  pub watch_seconds : ℕ

pub record Summary : Type 0 where
  pub entries : ℕ
  pub plays : ℕ
  pub series : List DayNumbers

-- The `from` and `to` of the address.
pub record Range : Type 0 where
  pub from : String
  pub to : String

-- `q`
unfoldable pub summary_params : Range → List (String × String)
summary_params r =
    (if is_blank r.from then [] else ("from", r.from) ∷ [])
    ++ (if is_blank r.to then [] else ("to", r.to) ∷ [])

-- The page: the range of the address, the numbers, the requests in flight, oldest first, with their ranges.
pub record AnalyticsPage : Type 0 where
  pub range : Range
  pub summary : Option Summary
  pub loads : List Range

-- `load`
unfoldable pub load : AnalyticsPage → AnalyticsPage
load p = record p { loads = p.loads ++ p.range ∷ [] }

-- Another range in the address: the effect loads again.
unfoldable pub set_range : Range → AnalyticsPage → AnalyticsPage
unfolding load
set_range r p = load (record p { range = r })

-- The timer.
unfoldable pub on_timer : (is_visible : Bool) → AnalyticsPage → AnalyticsPage
unfolding load
on_timer is_visible p = if is_visible then load p else p

unfoldable pub without_nth : ℕ → List Range → List Range
without_nth n [] = []
without_nth zero (r ∷ rs) = rs
without_nth (suc n) (r ∷ rs) = r ∷ without_nth n rs

-- The answer to the request at a place of those in flight: `setData`, or nothing where it fails.
unfoldable pub on_summary : ℕ → Option Summary → AnalyticsPage → AnalyticsPage
unfolding without_nth
on_summary n none p = record p { loads = without_nth n p.loads }
on_summary n (some s) p = record p { loads = without_nth n p.loads; summary = some s }

-- The loop of `padRange`, from a day on, for the given number of days.
unfoldable pub range_from : (ℕ → String) → Dict ℕ → ℕ → ℕ → Dict ℕ
unfolding lookup
range_from key found day zero = []
range_from key found day (suc n) =
    (key day, or_else (lookup (key day) found) 0) ∷ range_from key found (suc day) n

-- `padRange`, of two days.
unfoldable pub pad_range : (ℕ → String) → Dict ℕ → Option ℕ → Option ℕ → Dict ℕ
unfolding by_day range_from
pad_range key points (some from) (some to) = range_from key (by_day points []) from (to + 1 - from)
pad_range key points _ _ = []

-- The points of the two charts.
unfoldable pub plays_points : (ℕ → String) → Summary → Option ℕ → Option ℕ → Dict ℕ
unfolding pad_range
plays_points key s from to = pad_range key (map (λ d. (d.day, d.plays)) s.series) from to

unfoldable pub watch_points : (ℕ → String) → Summary → Option ℕ → Option ℕ → Dict ℕ
unfolding pad_range rounded
watch_points key s from to =
    pad_range key (map (λ d. (d.day, rounded d.watch_seconds 60)) s.series) from to

-- `defaultRange`, of the day that is today.
unfoldable pub default_range : (ℕ → String) → ℕ → Range
default_range key today = record { from = key (today - 13); to = key today }

-- The effect of the range's pickers: the range that the address is given, where it has none.
unfoldable pub first_range : (ℕ → String) → ℕ → Range → Option Range
unfolding default_range
first_range key today r =
    if is_blank r.from
    then some (default_range key today)
    else if is_blank r.to
    then some (default_range key today)
    else none
