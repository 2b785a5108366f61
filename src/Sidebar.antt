-- ===== src/Sidebar.antt =====
-- web/components/app-sidebar.tsx: the cards of the sidebar, over the two queues of web/lib/upload-store.ts and
-- web/lib/url-download-store.ts. A quotient is exact before it is rounded.
pub mod Progress
mod Tests
use vidsilo.Base.{
  ℕ, ◌+◌, ◌*◌, max, Bool, true, false, not, ◌&&◌, ◌||◌, Option, none, some, List, [], ◌∷◌, ◌++◌,
  String, if◌then◌else◌, length, keep, any, eqb, ltb, is_empty, ◌==◌,
}
use vidsilo.UploadStore.Job.{UploadJob, UploadStatus}
use vidsilo.UrlDownloads.Job.{UrlDownloadJob, UrlDownloadStatus, at, indeterminate}
use vidsilo.Formatting.{rounded, format_bytes}

abbrev pub is_active_upload : UploadJob → Bool
is_active_upload j = elim j.status [
  | UploadStatus.queued ↦ true
  | UploadStatus.uploading ↦ true
  | UploadStatus.done ↦ false
  | UploadStatus.failed ↦ false
  | UploadStatus.interrupted ↦ true
]

abbrev pub is_active_url : UrlDownloadJob → Bool
is_active_url j = elim j.status [
  | UrlDownloadStatus.checking ↦ true
  | UrlDownloadStatus.queued ↦ true
  | UrlDownloadStatus.downloading ↦ true
  | UrlDownloadStatus.done ↦ false
  | UrlDownloadStatus.failed ↦ false
]

abbrev pub progress_sum : List UploadJob → ℕ
progress_sum [] = 0
progress_sum (j ∷ js) = j.progress + progress_sum js

abbrev is_unknown : UrlDownloadJob → Bool
is_unknown j = elim j.progress [ at n ↦ false | indeterminate ↦ true ]

-- What the line under the title says.
pub data Note : Type 0 where
  percent_note : ℕ → Note
  downloading_note : Note

-- What `UploadProgressCard` shows.
pub record ProgressCard : Type 0 where
  pub total : ℕ
  pub percent : ℕ
  pub is_spinning : Bool
  pub note : Note

-- `UploadProgressCard`, or none where nothing is active.
unfoldable pub progress_card : List UploadJob → List UrlDownloadJob → Option ProgressCard
unfolding rounded
progress_card uploads urls =
    let active_uploads = keep is_active_upload uploads in
    let active_urls = keep is_active_url urls in
    let total = length active_uploads + length active_urls in
    let percent = rounded (progress_sum active_uploads) (max 1 total) in
    if eqb total 0
    then none
    else some (record {
      total = total;
      percent = percent;
      is_spinning = any is_unknown active_urls;
      note = if is_empty active_uploads then downloading_note else percent_note percent;
    })

pub record StorageUsage : Type 0 where
  pub used_bytes : ℕ
  pub total_bytes : ℕ
  pub free_bytes : ℕ
  pub object_count : ℕ

pub data StorageCard : Type 0 where
  objects : (used : String) → (count : ℕ) → StorageCard
  usage : (used : String) → (percent : ℕ) → (total free : String) → StorageCard

-- `StorageUsageCard`, or none before the numbers are there.
unfoldable pub storage_card : Option StorageUsage → Option StorageCard
unfolding rounded format_bytes
storage_card none = none
storage_card (some u) =
    if eqb u.total_bytes 0
    then some (objects (format_bytes (some u.used_bytes)) u.object_count)
    else some (
        usage (format_bytes (some u.used_bytes)) (rounded (u.used_bytes * 100) u.total_bytes)
          (format_bytes (some u.total_bytes)) (format_bytes (some u.free_bytes)))

-- The addresses of the two groups of links, by the keys of their titles.
unfoldable pub nav_items : List (String × String)
nav_items =
    ("navDashboard", "/admin/dashboard")
    ∷ ("navEntries", "/admin/entries")
    ∷ ("navCategories", "/admin/categories")
    ∷ ("navUsers", "/admin/users")
    ∷ ("navViewers", "/admin/viewers")
    ∷ ("navJobs", "/admin/jobs")
    ∷ ("navAnalytics", "/admin/analytics")
    ∷ ("navFlavors", "/admin/flavors")
    ∷ ("navDomainAcls", "/admin/domain-acls")
    ∷ ("navPlayers", "/admin/players")
    ∷ ("navStorage", "/admin/storage")
    ∷ ("navSettings", "/admin/settings")
    ∷ []

-- `isActive` of a link.
unfoldable pub is_here : String → String × String → Bool
is_here pathname (title, url) = pathname == url
