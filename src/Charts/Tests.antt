-- ===== src/Charts/Tests.antt =====
-- A chart of three days, and the theorem at a concrete input.
use vidsilo.Base.{◌≡◌, refl, none, some, List, [], ◌∷◌}
use vidsilo.Charts.{
  Point, chart_frame, sparkline_frame, inner_width, inner_height, top, x_of, y_of, nth_point,
  corners, line, drawn, svg_chart, entered, on_hover,
}

charts : Unit {0}
unfolding chart_frame sparkline_frame inner_width inner_height top x_of y_of nth_point corners line
    svg_chart on_hover
charts = tt

abbrev monday : Point
monday = record { label = "Monday"; value = 4 }

abbrev week : List Point
week = record { label = "Tuesday"; value = 8 } ∷ record { label = "Wednesday"; value = 0 } ∷ []

tooltip_shown :
    svg_chart (monday ∷ week) (on_hover (entered 1))
    ≡ some
        (drawn (line chart_frame (monday ∷ week)) (some (record { label = "Tuesday"; value = 8 })))
unfolding charts
tooltip_shown = refl

-- The points that are left after the pointer entered the third one.
throws : svg_chart (monday ∷ []) (on_hover (entered 2)) ≡ none
unfolding charts
throws = refl
