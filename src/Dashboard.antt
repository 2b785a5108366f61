-- ===== src/Dashboard.antt =====
-- web/app/admin/dashboard/page.tsx: the loads, the cards, and the entries by status. `t` is an argument, of a
-- key and its values. Toasts stand newest first; which day lies how many days back is an argument too.
pub mod Shares
mod Tests
use Prim.Native.String.{◌++◌}
use vidsilo.Base.{
  ℕ, ◌+◌, ◌*◌, ◌-◌, max, Bool, true, false, Option, none, some, List, [], ◌∷◌, String,
  if◌then◌else◌, eqb, ltb, is_empty, or_else, Dict, lookup, map,
}
use vidsilo.Base.Numerals.{decimal}
use vidsilo.Translations.{Value, text, number}
use vidsilo.Formatting.{rounded, format_bytes, format_gb, pad_series}

pub record Dashboard : Type 0 where
  pub entries_by_status : Dict ℕ
  pub total_entries : ℕ
  pub storage_used : ℕ
  pub bandwidth_total_bytes : ℕ
  pub bandwidth_today_bytes : ℕ
  pub bandwidth_series : Dict ℕ
  pub is_analytics_enabled : Bool
  pub queue_depth : ℕ

-- The page: its data, how many requests are in flight, and its toasts.
pub record DashboardPage : Type 0 where
  pub dashboard : Option Dashboard
  pub loads : ℕ
  pub toasts : List String

-- `load`, which the mount and the focus call.
unfoldable pub load : DashboardPage → DashboardPage
load p = record p { loads = p.loads + 1 }

-- The first render with its effect.
unfoldable pub dashboard_page : DashboardPage
unfolding load
dashboard_page = load (record { dashboard = none; loads = 0; toasts = [] })

-- The timer.
unfoldable pub on_timer : (is_visible : Bool) → DashboardPage → DashboardPage
unfolding load
on_timer is_visible p = if is_visible then load p else p

pub data Answer : Type 0 where
  loaded : Dashboard → Answer
  refused : (message : String) → Answer

-- An answer to `load`.
unfoldable pub on_dashboard : Answer → DashboardPage → DashboardPage
on_dashboard (loaded d) p = record p { dashboard = some d; loads = p.loads - 1 }
on_dashboard (refused e) p = record p { loads = p.loads - 1; toasts = e ∷ p.toasts }

pub record Kpi : Type 0 where
  pub title : String
  pub value : String
  pub hint : String
  pub warning : Option String
  pub spark : Dict ℕ

-- `kpis`
unfoldable pub kpis : (String → Dict Value → String) → Dashboard → List Kpi
unfolding decimal format_bytes format_gb
kpis t d =
    record {
      title = t "dashEntries" [];
      value = decimal d.total_entries;
      hint = t "dashEntriesHint" [];
      warning = none;
      spark = [];
    }
    ∷ record {
      title = t "dashStorage" [];
      value = format_bytes (some d.storage_used);
      hint = t "dashStorageHint" [];
      warning = none;
      spark = [];
    }
    ∷ record {
      title = t "dashBandwidth" [];
      value = format_gb d.bandwidth_total_bytes ++ " GB";
      hint = t "dashBandwidthHint" (("today", text (format_gb d.bandwidth_today_bytes)) ∷ []);
      warning = if d.is_analytics_enabled then none else some (t "analyticsDisabled" []);
      spark = d.bandwidth_series;
    }
    ∷ record {
      title = t "dashQueue" [];
      value = decimal d.queue_depth;
      hint = t "dashQueueHint" [];
      warning = none;
      spark = [];
    }
    ∷ []

-- `padSeries` of the page: the last fourteen days.
unfoldable pub pad_bytes : (ℕ → String) → Dict ℕ → Dict ℕ
unfolding pad_series
pad_bytes key points = pad_series key points 14

-- The values of a sparkline, or none where the card has none.
unfoldable pub spark_points : (ℕ → String) → Kpi → Option (Dict ℕ)
unfolding pad_bytes
spark_points key k = if is_empty k.spark then none else some (pad_bytes key k.spark)

-- `totalStatusCount`
abbrev pub total_status_count : Dict ℕ → ℕ
total_status_count [] = 0
total_status_count ((status, n) ∷ ss) = n + total_status_count ss

abbrev status_colors : Dict String
status_colors =
    ("ready", "bg-emerald-500")
    ∷ ("transcoding", "bg-amber-500")
    ∷ ("probing", "bg-amber-400")
    ∷ ("uploading", "bg-blue-500")
    ∷ ("failed", "bg-red-500")
    ∷ []

abbrev status_keys : Dict String
status_keys =
    ("uploading", "statusUploading")
    ∷ ("probing", "statusProbing")
    ∷ ("transcoding", "statusTranscoding")
    ∷ ("ready", "statusReady")
    ∷ ("failed", "statusFailed")
    ∷ []

-- `statusKeys[status] ? t(statusKeys[status]) : status`
unfoldable pub status_label : (String → Dict Value → String) → String → String
unfolding lookup
status_label t status = elim (lookup status status_keys) [ none ↦ status | some k ↦ t k [] ]

unfoldable pub status_color : String → String
unfolding lookup
status_color status = or_else (lookup status status_colors) "bg-primary"

-- The width of a segment of the bar: a fraction of a percent, with its denominator.
unfoldable pub segment : ℕ → ℕ → ℕ × ℕ
segment total n = (n * 100, if eqb total 0 then 1 else total)

-- `pct` of a row.
unfoldable pub share : ℕ → ℕ → ℕ
unfolding rounded
share total n = if ltb 0 total then rounded (n * 100) total else 0

pub record StatusRow : Type 0 where
  pub label : String
  pub color : String
  pub note : String
  pub percent : ℕ

-- A row of the list of statuses.
unfoldable pub status_row : (String → Dict Value → String) → ℕ → String × ℕ → StatusRow
unfolding status_label status_color share
status_row t total (status, n) = record {
  label = status_label t status;
  color = status_color status;
  note = t "dashEntryCount" (("n", number n) ∷ []);
  percent = share total n;
}

-- The list of statuses.
unfoldable pub status_rows : (String → Dict Value → String) → Dict ℕ → List StatusRow
unfolding status_row
status_rows t ss = map (status_row t (total_status_count ss)) ss
