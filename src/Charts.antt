-- ===== src/Charts.antt =====
-- web/components/svg-chart.tsx: the line of a chart and the point under the pointer, and the sparkline of
-- web/app/admin/dashboard/page.tsx. A coordinate is a fraction; values are whole and from 0.
pub mod Drawn
mod Tests
use Prim.Native.Nat.{zero, suc}
use vidsilo.Base.{
  ℕ, ◌+◌, ◌-◌, ◌*◌, max, Bool, true, false, Option, none, some, List, [], ◌∷◌, String,
  if◌then◌else◌, eqb, length,
}

pub record Point : Type 0 where
  pub label : String
  pub value : ℕ

-- `part / whole`
pub record Fraction : Type 0 where
  pub part : ℕ
  pub whole : ℕ

-- The size of a drawing and its margin.
pub record Frame : Type 0 where
  pub width : ℕ
  pub height : ℕ
  pub pad : ℕ

unfoldable pub chart_frame : Frame
chart_frame = record { width = 640; height = 160; pad = 24 }

unfoldable pub sparkline_frame : Frame
sparkline_frame = record { width = 88; height = 30; pad = 2 }

unfoldable pub inner_width : Frame → ℕ
inner_width f = f.width - f.pad * 2

unfoldable pub inner_height : Frame → ℕ
inner_height f = f.height - f.pad * 2

-- `Math.max(...values, 1)`
unfoldable pub top : List Point → ℕ
top [] = 1
top (p ∷ ps) = max p.value (top ps)

-- `x(i)` of `n` points.
unfoldable pub x_of : Frame → ℕ → ℕ → Fraction
unfolding inner_width
x_of f n i =
    if eqb n 1
    then record { part = 2 * f.pad + inner_width f; whole = 2 }
    else record { part = f.pad * (n - 1) + i * inner_width f; whole = n - 1 }

-- `y(v)`
unfoldable pub y_of : Frame → ℕ → ℕ → Fraction
unfolding inner_height
y_of f most v = record { part = (f.pad + inner_height f) * most - v * inner_height f; whole = most }

-- `points[i]`
unfoldable pub nth_point : ℕ → List Point → Option Point
nth_point i [] = none
nth_point zero (p ∷ ps) = some p
nth_point (suc i) (p ∷ ps) = nth_point i ps

-- The corners of the line.
unfoldable pub corners : Frame → ℕ → ℕ → ℕ → List Point → List (Fraction × Fraction)
unfolding x_of y_of
corners f most n i [] = []
corners f most n i (p ∷ ps) = (x_of f n i, y_of f most p.value) ∷ corners f most n (suc i) ps

unfoldable pub line : Frame → List Point → List (Fraction × Fraction)
unfolding corners top
line f ps = corners f (top ps) (length ps) 0 ps

-- What the chart renders: the line, with the point that it shows a tooltip of.
pub data Chart : Type 0 where
  no_data : Chart
  drawn : List (Fraction × Fraction) → Option Point → Chart

-- `SvgChart` with the state `hover`; none where it throws, as `points[hover]` is not there.
unfoldable pub svg_chart : List Point → Option ℕ → Option Chart
unfolding line nth_point
svg_chart [] hover = some no_data
svg_chart (p ∷ ps) none = some (drawn (line chart_frame (p ∷ ps)) none)
svg_chart (p ∷ ps) (some i) = elim (nth_point i (p ∷ ps)) [
  | none ↦ none
  | some q ↦ some (drawn (line chart_frame (p ∷ ps)) (some q))
]

-- The pointer enters a circle or the circle gets the focus, or it is left.
pub data Hover : Type 0 where
  entered : ℕ → Hover
  left : Hover

unfoldable pub on_hover : Hover → Option ℕ
on_hover (entered i) = some i
on_hover left = none
