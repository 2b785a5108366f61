-- ===== src/Dashboard/Shares.antt =====
-- web/app/admin/dashboard/page.tsx: the percentages of the statuses, each of which is rounded.
use native.Mathlib.Nat.{le_of_mul-le-mul_right}
use vidsilo.Base.{
  ℕ, ◌+◌, ◌*◌, ◌≤◌, ◌<◌, ◌≡◌, true, List, [], ◌∷◌, String, arith, length, map, ltb, Dict,
}
use vidsilo.Translations.{Value}
use vidsilo.Formatting.Sizes.{rounded_lem}
use vidsilo.Dashboard.{total_status_count, share, StatusRow, status_row, status_rows}

-- The percentages of the rows, added up.
abbrev pub percent_sum : List StatusRow → ℕ
percent_sum [] = 0
percent_sum (r ∷ rs) = r.percent + percent_sum rs

share_lem :
    (total n : ℕ)
    → 0 < total
    → (2 * (share total n * total) ≤ 2 * (n * 100) + total)
      × (2 * (n * 100) ≤ 2 * (share total n * total) + total)
unfolding share
share_lem total n z =
    let e : ltb 0 total ≡ true = ground (arith, z) in
    let (below, above) = rounded_lem (n * 100) total z in
    rw (share, e) (below, omega (arith, above))

sum_lem :
    (t : String → Dict Value → String) (total : ℕ) (ss : Dict ℕ)
    → 0 < total
    → (2 * (percent_sum (map (status_row t total) ss) * total)
        ≤ 2 * (total_status_count ss * 100) + length ss * total)
      × (2 * (total_status_count ss * 100)
          ≤ 2 * (percent_sum (map (status_row t total) ss) * total) + length ss * total)
unfolding status_row
sum_lem t total [] z = (omega arith, omega arith)
sum_lem t total ((s, n) ∷ ss) z =
    let (below, above) = share_lem total n z in
    let (lo, hi) = sum_lem t total ss z in (omega (arith, below, lo), omega (arith, above, hi))

-- Where there is an entry at all, the percentages of the statuses on the dashboard, which are rounded one by
-- one, add up to a hundred up to half a percent for each status.
pub percent_sum-status_rows :
    (t : String → Dict Value → String) (ss : Dict ℕ)
    → 0 < total_status_count ss
    → (2 * percent_sum (status_rows t ss) ≤ 200 + length ss)
      × (200 ≤ 2 * percent_sum (status_rows t ss) + length ss)
unfolding status_rows
percent_sum-status_rows t ss z =
    let total = total_status_count ss in
    let shown = percent_sum (map (status_row t total) ss) in
    let (below, above) = sum_lem t total ss z in
    (
      le_of_mul-le-mul_right {m = 2 * shown} {n = 200 + length ss} {k = total}
          (omega (arith, below)) z,
      le_of_mul-le-mul_right {m = 200} {n = 2 * shown + length ss} {k = total}
          (omega (arith, above)) z,
    )
