-- ===== src/Charts/Drawn.antt =====
-- web/components/svg-chart.tsx: where the line lies, and what the chart shows of the point under the pointer.
use Prim.Native.Nat.{zero, suc}
use native.Mathlib.Nat.{mul-le-mul_right}
use vidsilo.Base.{
  ℕ, ◌+◌, ◌-◌, ◌*◌, ◌≤◌, ◌<◌, ◌≡◌, refl, ◌∙◌, inl, inr, Option, none, some, List, [], ◌∷◌, arith,
  All, Bool-cases, eqb, ltb, length, is_some,
}
use vidsilo.Charts.{
  Point, Fraction, Frame, chart_frame, inner_width, inner_height, top, x_of, y_of, nth_point,
  corners, line, svg_chart, drawn,
}

-- A fraction of a whole of its own, from a first number to a last one.
abbrev IsBetween : ℕ → ℕ → Fraction → Type 0
IsBetween a b r = (a * r.whole ≤ r.part) × (r.part ≤ b * r.whole) × (0 < r.whole)

-- A corner inside the margins.
abbrev pub IsInside : Frame → Fraction × Fraction → Type 0
IsInside f (x, y) =
    IsBetween f.pad (f.pad + inner_width f) x × IsBetween f.pad (f.pad + inner_height f) y

y_of_lem :
    (f : Frame) (most v : ℕ)
    → v ≤ most
    → 0 < most
    → IsBetween f.pad (f.pad + inner_height f) (y_of f most v)
unfolding y_of
y_of_lem f most v h z =
    let below : v * inner_height f ≤ most * inner_height f = mul-le-mul_right (inner_height f) h in
    (omega (arith, below), omega arith, z)

x_of_lem : (f : Frame) (n i : ℕ) → i < n → IsBetween f.pad (f.pad + inner_width f) (x_of f n i)
unfolding x_of
x_of_lem f n i h = elim (Bool-cases (eqb n 1)) [
  | inl e ↦ rw (e, x_of) (omega arith, omega arith, omega arith)
  | inr e ↦
      let some_left : 1 < n = ground (arith, e, h) in
      let before : i * inner_width f ≤ (n - 1) * inner_width f =
        mul-le-mul_right (inner_width f) (omega (arith, h)) in
      rw (e, x_of) (omega arith, omega (arith, before), omega (arith, some_left))
]

top_lem : (ps : List Point) → 0 < top ps
unfolding top
top_lem [] = omega arith
top_lem (p ∷ ps) = omega (arith, top_lem ps)

corners-IsInside :
    (f : Frame) (most n i : ℕ) (ps : List Point)
    → top ps ≤ most
    → i + length ps ≤ n
    → All (IsInside f) (corners f most n i ps)
unfolding corners top
corners-IsInside f most n i [] h k = tt
corners-IsInside f most n i (p ∷ ps) h k = (
  (
    x_of_lem f n i (omega (arith, k)),
    y_of_lem f most p.value (omega (arith, h)) (omega (arith, h, top_lem ps)),
  ),
  corners-IsInside f most n (suc i) ps (omega (arith, h)) (omega (arith, k)),
)

nth_point-is_some : (i : ℕ) (ps : List Point) → is_some (nth_point i ps) ≡ ltb i (length ps)
unfolding nth_point
nth_point-is_some i [] = ground arith
nth_point-is_some zero (p ∷ ps) = ground arith
nth_point-is_some (suc i) (p ∷ ps) = ground (arith, nth_point-is_some i ps)

-- Every corner of the line of a chart lies inside the margins of its frame, whatever the values are. A
-- chart with points throws exactly where it holds a place under the pointer that its points do not
-- reach.
line-IsInside :
    (f : Frame) (p : Point) (ps : List Point) (i : ℕ)
    → All (IsInside f) (line f (p ∷ ps))
      × (is_some (svg_chart (p ∷ ps) (some i)) ≡ ltb i (length (p ∷ ps)))
unfolding line svg_chart
line-IsInside f p ps i = (
  corners-IsInside f (top (p ∷ ps)) (length (p ∷ ps)) 0 (p ∷ ps) (omega arith) (omega arith),
  found (nth_point i (p ∷ ps)) ∙ nth_point-is_some i (p ∷ ps),
)
  where
    found :
        (o : Option Point)
        → is_some
            (elim o [ none ↦ none | some q ↦ some (drawn (line chart_frame (p ∷ ps)) (some q)) ])
          ≡ is_some o
    found none = refl
    found (some q) = refl
