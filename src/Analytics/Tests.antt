-- ===== src/Analytics/Tests.antt =====
-- A range of three days, and the theorem at a concrete input.
use vidsilo.Base.{ℕ, ◌≡◌, refl, none, some, [], ◌∷◌, Dict}
use vidsilo.Base.Numerals.{digits, decimal}
use vidsilo.Formatting.{by_day, rounded}
use vidsilo.Formatting.Series.{last_of}
use vidsilo.Analytics.{
  Summary, Range, AnalyticsPage, summary_params, load, set_range, on_timer, without_nth, on_summary,
  range_from, pad_range, plays_points, watch_points, default_range, first_range,
}

analytics : Unit {0}
unfolding digits decimal by_day rounded last_of summary_params load set_range on_timer without_nth
    on_summary range_from pad_range plays_points watch_points default_range first_range
analytics = tt

abbrev days : Dict ℕ
days = ("7", 4) ∷ ("9", 1) ∷ []

abbrev march : Range
march = record { from = "1"; to = "31" }

abbrev april : Range
april = record { from = "32"; to = "61" }

abbrev empty_page : AnalyticsPage
empty_page = record { range = march; summary = none; loads = [] }

abbrev of_plays : ℕ → Summary
of_plays n = record { entries = 1; plays = n; series = [] }

-- The answer for March comes after the one for April, and stays.
late_answer :
    (on_summary 0
      (some (of_plays 3))
      (on_summary 1 (some (of_plays 4)) (set_range april (load empty_page)))).summary
    ≡ some (of_plays 3)
unfolding analytics
late_answer = refl

two_weeks :
    first_range decimal 20 (record { from = ""; to = "" }) ≡ some (record { from = "7"; to = "20" })
unfolding analytics
two_weeks = refl

half_a_minute :
    watch_points decimal
      (record (of_plays 1) { series = record { day = "7"; plays = 1; watch_seconds = 30 } ∷ [] })
      (some 7)
      (some 7)
    ≡ ("7", 1) ∷ []
unfolding analytics
half_a_minute = refl
