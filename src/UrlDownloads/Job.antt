-- ===== src/UrlDownloads/Job.antt =====
-- web/lib/url-download-store.ts: download jobs, their statuses and patches.
-- A timestamp is the millisecond that its ISO text denotes.
use vidsilo.Base.{
  ℕ, Bool, true, false, not, ◌||◌, Option, none, some, List, [], map, String, or_else, ◌-◌, Item,
  absent, corrupt, stored, day_ms, finished_since, keep,
}

pub data UrlDownloadStatus : Type 0 where
  checking queued downloading done failed : UrlDownloadStatus

-- 0..100, or -1 for an indeterminate progress.
pub data Progress : Type 0 where
  at : ℕ → Progress
  indeterminate : Progress

pub record UrlDownloadJob : Type 0 where
  pub id : String
  pub url : String
  pub file_name : String
  pub title : Option String
  pub category : Option String
  pub status : UrlDownloadStatus
  pub progress : Progress
  pub error : Option String
  pub entry_id : Option String
  pub finished_at : Option ℕ

-- `Partial<UrlDownloadJob>`, of the fields that some caller sets; `error` and `entry_id` may be set
-- to undefined.
pub record UrlPatch : Type 0 where
  pub title : Option String
  pub category : Option String
  pub status : Option UrlDownloadStatus
  pub progress : Option Progress
  pub error : Option (Option String)
  pub entry_id : Option (Option String)
  pub finished_at : Option ℕ

abbrev pub no_url_patch : UrlPatch
no_url_patch = record {
  title = none;
  category = none;
  status = none;
  progress = none;
  error = none;
  entry_id = none;
  finished_at = none;
}

abbrev or_keep {ℓ} : {A : Type ℓ} → Option A → Option A → Option A
or_keep none old = old
or_keep (some a) old = some a

unfoldable pub apply_url_patch : UrlPatch → UrlDownloadJob → UrlDownloadJob
apply_url_patch p j = record j {
  title = or_keep p.title j.title;
  category = or_keep p.category j.category;
  status = or_else p.status j.status;
  progress = or_else p.progress j.progress;
  error = or_else p.error j.error;
  entry_id = or_else p.entry_id j.entry_id;
  finished_at = or_keep p.finished_at j.finished_at;
}

abbrev pub is_queued : UrlDownloadStatus → Bool
is_queued queued = true
is_queued _ = false

abbrev pub is_downloading : UrlDownloadStatus → Bool
is_downloading downloading = true
is_downloading _ = false

abbrev pub is_checking : UrlDownloadStatus → Bool
is_checking checking = true
is_checking _ = false

abbrev pub is_done : UrlDownloadStatus → Bool
is_done done = true
is_done _ = false

-- `j.status === "done" || j.status === "failed"`
abbrev pub is_over : UrlDownloadStatus → Bool
is_over done = true
is_over failed = true
is_over _ = false

-- A job that was waiting or running when the page went away.
unfoldable pub recheck : UrlDownloadJob → UrlDownloadJob
recheck j = elim j.status [
  | queued ↦ record j { status = checking; progress = indeterminate }
  | downloading ↦ record j { status = checking; progress = indeterminate }
  | _ ↦ j
]

unfoldable pub is_recent_download : ℕ → UrlDownloadJob → Bool
is_recent_download now j = not (is_over j.status) || finished_since (now - day_ms) j.finished_at

unfoldable pub load_downloads : ℕ → Item (List UrlDownloadJob) → List UrlDownloadJob
unfolding recheck is_recent_download
load_downloads now absent = []
load_downloads now corrupt = []
load_downloads now (stored js) = keep (is_recent_download now) (map recheck js)
