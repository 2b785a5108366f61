-- ===== src/Dashboard/Tests.antt =====
-- A dashboard over time, its cards, and the theorem at a concrete input.
use vidsilo.Base.{
  ℕ, ◌+◌, ◌*◌, ◌≤◌, ◌≡◌, refl, true, false, none, some, [], ◌∷◌, String, length, map, arith, Dict,
}
use vidsilo.Base.Numerals.{digits, decimal}
use vidsilo.Translations.{Value}
use vidsilo.Formatting.{
  rounded, floor_log, unit_index, tenths, unit_name, format_bytes, format_gb, by_day, padded,
  pad_series,
}
use vidsilo.Dashboard.{
  Dashboard, load, dashboard_page, on_timer, loaded, refused, on_dashboard, kpis, pad_bytes,
  spark_points, status_label, status_color, segment, share, status_row, status_rows,
}
use vidsilo.Dashboard.Shares.{percent_sum, percent_sum-status_rows}

dashboards : Unit {0}
unfolding digits decimal rounded floor_log unit_index tenths unit_name format_bytes format_gb by_day
    padded pad_series load dashboard_page on_timer on_dashboard kpis pad_bytes spark_points
    status_label status_color segment share status_row status_rows
dashboards = tt

abbrev by_key : String → Dict Value → String
by_key k vars = k

abbrev statuses : Dict ℕ
statuses = ("ready", 1) ∷ ("failed", 1) ∷ ("archived", 1) ∷ []

abbrev numbers : Dashboard
numbers = record {
  entries_by_status = statuses;
  total_entries = 3;
  storage_used = 2048;
  bandwidth_total_bytes = 0;
  bandwidth_today_bytes = 0;
  bandwidth_series = [];
  is_analytics_enabled = false;
  queue_depth = 0;
}

-- An error that comes after the numbers leaves them shown.
numbers_stay :
    on_dashboard (refused "offline") (on_timer true (on_dashboard (loaded numbers) dashboard_page))
    ≡ record { dashboard = some numbers; loads = 0; toasts = "offline" ∷ [] }
unfolding dashboards
numbers_stay = refl

no_sparks : map (spark_points (λ i. "day")) (kpis by_key numbers) ≡ (none ∷ none ∷ none ∷ none ∷ [])
unfolding dashboards
no_sparks = refl

-- Three thirds add up to 99.
thirds : percent_sum (status_rows by_key statuses) ≡ 99
unfolding dashboards
thirds = refl

unknown_status :
    (status_label by_key "archived" ≡ "archived") × (status_color "archived" ≡ "bg-primary")
unfolding dashboards
unknown_status = (refl, refl)

first_segment : segment 3 1 ≡ (100, 3)
unfolding dashboards
first_segment = refl

percent_sum-status_rows_example :
    (2 * percent_sum (status_rows by_key statuses) ≤ 200 + length statuses)
    × (200 ≤ 2 * percent_sum (status_rows by_key statuses) + length statuses)
percent_sum-status_rows_example = percent_sum-status_rows by_key statuses (omega arith)
