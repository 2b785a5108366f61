-- ===== src/Sidebar/Progress.antt =====
-- web/components/app-sidebar.tsx: the percentage that the card of uploads shows.
use vidsilo.Base.{
  ℕ, ◌+◌, ◌*◌, ◌/◌, ◌≤◌, ◌<◌, max, ◌≡◌, refl, Bool, true, false, Option, none, some, List, [], ◌∷◌,
  arith, All, All-keep, if◌then◌else◌, length, keep, eqb, any,
}
use native.Mathlib.Nat.{div-lt_iff_lt-mul}
use vidsilo.UploadStore.Job.{UploadJob}
use vidsilo.UrlDownloads.Job.{UrlDownloadJob}
use vidsilo.Formatting.{rounded}
use vidsilo.Sidebar.{is_active_upload, is_active_url, progress_sum, ProgressCard, progress_card}

progress_sum_le :
    (js : List UploadJob) → All (λ j. j.progress ≤ 100) js → progress_sum js ≤ 100 * length js
progress_sum_le [] h = omega arith
progress_sum_le (j ∷ js) (h, hs) = omega (arith, h, progress_sum_le js hs)

-- A card shows at most a hundred percent.
abbrev pub IsPercent : Option ProgressCard → Type 0
IsPercent none = Unit
IsPercent (some c) = c.percent ≤ 100

-- A card shows none.
abbrev pub IsAtZero : Option ProgressCard → Type 0
IsAtZero none = Unit
IsAtZero (some c) = c.percent ≡ 0

rounded_le : (n d : ℕ) → 0 < d → n ≤ 100 * d → rounded n d ≤ 100
unfolding rounded
rounded_le n d z h =
    let below : (2 * n + d) / (2 * d) < 101 =
      (div-lt_iff_lt-mul {k = 2 * d} {x = 2 * n + d} {y = 101} (omega (arith, z))).1
        (omega (arith, h, z)) in
    omega (arith, below)

rounded_zero : (d : ℕ) → 0 < d → rounded 0 d ≡ 0
unfolding rounded
rounded_zero d z =
    let below : (2 * 0 + d) / (2 * d) < 1 =
      (div-lt_iff_lt-mul {k = 2 * d} {x = 2 * 0 + d} {y = 1} (omega (arith, z))).1
        (omega (arith, z)) in
    omega (arith, below)

none_kept : (js : List UploadJob) → any is_active_upload js ≡ false → keep is_active_upload js ≡ []
none_kept [] h = refl
none_kept (j ∷ js) h = ground (arith, h, none_kept js)

-- The card of the sidebar shows at most a hundred percent, where no upload is past that. Downloads do
-- not count in its sum: where no upload is active, whatever uploads are done or have failed, it shows
-- zero percent, whatever the downloads have reached.
pub progress_card-IsPercent :
    (uploads idle : List UploadJob) (urls : List UrlDownloadJob)
    → All (λ j. j.progress ≤ 100) uploads
    → any is_active_upload idle ≡ false
    → IsPercent (progress_card uploads urls) × IsAtZero (progress_card idle urls)
unfolding progress_card
progress_card-IsPercent uploads idle urls h none_active =
    let active = keep is_active_upload uploads in
    let total = length active + length (keep is_active_url urls) in
    let sum : progress_sum active ≤ 100 * length active =
      progress_sum_le active (All-keep (λ j. j.progress ≤ 100) is_active_upload uploads h) in
    (
      percent (eqb total 0) _
          (rounded_le (progress_sum active) (max 1 total) (omega arith) (omega (arith, sum))),
      rw (none_kept idle none_active) (
          zeroed (eqb (0 + length (keep is_active_url urls)) 0) _
            (rounded_zero (max 1 (0 + length (keep is_active_url urls))) (omega arith))),
    )
  where
    percent :
        (b : Bool) (c : ProgressCard) → c.percent ≤ 100 → IsPercent (if b then none else some c)
    percent true c h = tt
    percent false c h = h

    zeroed : (b : Bool) (c : ProgressCard) → c.percent ≡ 0 → IsAtZero (if b then none else some c)
    zeroed true c h = tt
    zeroed false c h = h
