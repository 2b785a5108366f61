-- ===== src/Analytics/Ranges.antt =====
-- web/app/admin/analytics/page.tsx: the days of the charts, and answers out of order.
use Prim.Native.Nat.{zero, suc}
use vidsilo.Base.{
  ℕ, ◌+◌, ◌-◌, ◌≤◌, ◌<◌, ◌≡◌, refl, ap, ◌∙◌, Option, none, some, [], ◌∷◌, String, arith, length,
  Dict, or_else,
}
use vidsilo.Formatting.{by_day}
use vidsilo.Formatting.Series.{last_of, lookup-by_day_lem}
use vidsilo.Analytics.{range_from, pad_range}

-- The value of a chart at a day: of its last point, or 0.
abbrev pub value_at : Dict ℕ → String → ℕ
value_at points key = or_else (last_of key points) 0

abbrev pub nth_row : ℕ → Dict ℕ → Option (String × ℕ)
nth_row n [] = none
nth_row zero (r ∷ rs) = some r
nth_row (suc n) (r ∷ rs) = nth_row n rs

abbrev row : String → ℕ → Option (String × ℕ)
row key n = some (key, n)

length-range_from :
    (key : ℕ → String) (found : Dict ℕ) (day n : ℕ) → length (range_from key found day n) ≡ n
unfolding range_from
length-range_from key found day zero = refl
length-range_from key found day (suc n) = ap suc (length-range_from key found (suc day) n)

nth_row-range_from :
    (key : ℕ → String) (points : Dict ℕ) (day n i : ℕ)
    → i < n
    → nth_row i (range_from key (by_day points []) day n)
      ≡ some (key (day + i), value_at points (key (day + i)))
unfolding range_from
nth_row-range_from key points day zero i h = let bad : ⊥ = omega (arith, h) in absurd bad
nth_row-range_from key points day (suc n) zero h =
    let same : day ≡ day + 0 = omega arith in
    ap (λ v. row (key day) (or_else v 0)) (lookup-by_day_lem (key day) points)
    ∙ ap (λ d. row (key d) (value_at points (key d))) same
nth_row-range_from key points day (suc n) (suc i) h =
    let same : suc day + i ≡ day + suc i = omega arith in
    nth_row-range_from key points (suc day) n i (omega (arith, h))
    ∙ ap (λ d. row (key d) (value_at points (key d))) same

-- The points of a chart of a range are as many as the range has days, and the one at each place is that day
-- from its start, with the value of the last point of the day, or 0.
pad_range_lem :
    (key : ℕ → String) (points : Dict ℕ) (from to i : ℕ)
    → from + i ≤ to
    → (length (pad_range key points (some from) (some to)) ≡ to + 1 - from)
      × (nth_row i (pad_range key points (some from) (some to))
          ≡ some (key (from + i), value_at points (key (from + i))))
unfolding pad_range
pad_range_lem key points from to i h = (
  length-range_from key (by_day points []) from (to + 1 - from),
  nth_row-range_from key points from (to + 1 - from) i (omega (arith, h)),
)
