-- ===== src/UploadDialog.antt =====
-- web/components/upload-dialog.tsx: the dialog over the two queues. What it asks to confirm has the
-- jobs of the render in which it was asked, not those at the confirmation.
pub mod Events
mod Kept
mod Removal
mod Queues
pub mod Meanwhile
pub mod Closing
pub mod Cancelling
mod Tests
use vidsilo.Base.{
  ℕ, ◌≡◌, Bool, true, false, not, ◌&&◌, ◌||◌, Option, none, some, List, [], ◌∷◌, ◌++◌, map, String,
  if◌then◌else◌, ltb, eqb, any, keep, count, is_empty, is_blank, trim, lines_of, truthy, or_else,
}
use vidsilo.UploadStore.Job.{UploadJob, File, is_uploading, is_pending, is_done, is_active}
use vidsilo.UploadStore.State.{Store, has_uploads_completed, clear_uploads_completed}
use vidsilo.UploadStore.{
  AddFilesResult, add_files, remove_job, reset_idle, clear_all_uploads, active_count,
}
use vidsilo.UploadStore.Run.{start_all}
use vidsilo.UrlDownloads.Job.{UrlDownloadJob, is_queued, is_downloading, is_checking}
use vidsilo.UrlDownloads.{
  Downloads, CheckResult, CheckCount, check_urls, remove_url_download, reset_idle_downloads,
  clear_all_url_downloads, has_url_downloads_completed, clear_url_downloads_completed,
}
use vidsilo.UrlDownloads.Polling.{start_downloads}

-- What the dialog shows as an error.
pub data Toast : Type 0 where
  upload_duplicate upload_batch_limit upload_url_invalid : Toast
  thrown : Toast

-- What `confirm` was called for.
pub data Ask : Type 0 where
  stop_upload : (id : String) → Ask
  cancel_all : List UrlDownloadJob → Ask
  discard : List UploadJob → List UrlDownloadJob → Ask

-- The two stores with the state of the dialog; `requested` are the lines that a check in progress
-- was given, `deleted` the entries whose deletion was requested.
pub record UploadDialog : Type 0 where
  pub uploads : Store
  pub downloads : Downloads
  pub is_open : Bool
  pub url_text : String
  pub requested : Option (List String)
  pub starting : Bool
  pub asking : Option Ask
  pub toasts : List Toast
  pub deleted : List String

-- `useUploadDialog`: a batch that was completed keeps its cards.
unfoldable pub open_dialog : UploadDialog → UploadDialog
open_dialog d =
    let d' = record d { is_open = true; url_text = ""; requested = none; starting = false } in
    if has_uploads_completed d.uploads || has_url_downloads_completed d.downloads
    then d'
    else record d' { uploads = reset_idle d.uploads; downloads = reset_idle_downloads d.downloads }

unfoldable pub close : UploadDialog → UploadDialog
close d = record d {
  uploads = clear_uploads_completed d.uploads;
  downloads = clear_url_downloads_completed d.downloads;
  is_open = false;
}

-- `hasPending`, `allDone`, `urlActive`, `urlQueued`, `anyActive`, `allUrlDone`, `showTabs`
unfoldable pub has_pending : List UploadJob → Bool
has_pending js = any (λ j. not (is_done j.status)) js

unfoldable pub all_done : List UploadJob → Bool
unfolding has_pending
all_done js = not (is_empty js) && not (has_pending js)

unfoldable pub url_active : List UrlDownloadJob → Bool
url_active js = any (λ j. is_downloading j.status || is_checking j.status) js

unfoldable pub url_queued : List UrlDownloadJob → Bool
url_queued js = any (λ j. is_queued j.status) js

unfoldable pub any_active : UploadDialog → Bool
unfolding url_active
any_active d = any (λ j. is_uploading j.status) d.uploads.jobs || url_active d.downloads.jobs

unfoldable pub all_url_done : List UrlDownloadJob → Bool
unfolding url_active url_queued
all_url_done js = not (is_empty js) && not (url_active js) && not (url_queued js)

unfoldable pub show_tabs : UploadDialog → Bool
unfolding any_active all_done all_url_done
show_tabs d =
    not (any_active d) && not (all_done d.uploads.jobs) && not (all_url_done d.downloads.jobs)

-- `addSelected`: at most one of the two errors is shown.
abbrev pub add_error : AddFilesResult → List Toast
add_error r =
    if ltb 0 r.duplicates && eqb r.added 0
    then upload_duplicate ∷ []
    else if ltb 0 r.over_limit
    then upload_batch_limit ∷ []
    else []

unfoldable pub add_selected : (ℕ → String) → List File → UploadDialog → UploadDialog
add_selected uuid fs d =
    let (s, r) = add_files uuid fs d.uploads in
    record d { uploads = s; toasts = d.toasts ++ add_error r }

unfoldable pub ask_remove : UploadJob → UploadDialog → UploadDialog
ask_remove j d =
    if is_uploading j.status
    then record d { asking = some (stop_upload j.id) }
    else record d { uploads = remove_job j.id d.uploads }

-- `handleCheckUrls`, up to its `await` and from there.
unfoldable pub handle_check_urls : UploadDialog → UploadDialog
handle_check_urls d = record d { requested = some (lines_of d.url_text) }

unfoldable pub on_checked : (ℕ → String) → Option (List CheckResult) → UploadDialog → UploadDialog
on_checked uuid answer d = elim d.requested [
  | none ↦ d
  | some lines ↦
      let (s, result) = check_urls uuid lines answer d.downloads in
      let d' = record d { downloads = s; requested = none } in
      elim result [
        | none ↦ record d' { toasts = d.toasts ++ thrown ∷ [] }
        | some c ↦ record d' {
          url_text = if ltb 0 c.added then "" else d.url_text;
          toasts = d.toasts ++ (if ltb 0 c.failed then upload_url_invalid ∷ [] else []);
        }
      ]
]

unfoldable pub handle_start_urls : ℕ → UploadDialog → UploadDialog
handle_start_urls now d = record d {
  uploads = clear_all_uploads d.uploads;
  starting = true;
  downloads = start_downloads now d.downloads;
}

unfoldable pub handle_start_files : ℕ → UploadDialog → UploadDialog
handle_start_files now d = record d {
  downloads = clear_all_url_downloads d.downloads;
  uploads = start_all now d.uploads;
}

unfoldable pub ask_cancel_all : UploadDialog → UploadDialog
ask_cancel_all d = record d { asking = some (cancel_all d.downloads.jobs) }

-- The entries of the jobs that have one.
unfoldable pub entries_of : List UrlDownloadJob → List String
entries_of [] = []
entries_of (j ∷ js) =
    let rest = entries_of js in
    elim j.entry_id [ none ↦ rest | some e ↦ if truthy (some e) then e ∷ rest else rest ]

unfoldable pub cancel_queue : List UrlDownloadJob → UploadDialog → UploadDialog
unfolding entries_of
cancel_queue js d = record d {
  uploads = clear_all_uploads d.uploads;
  deleted = d.deleted ++ entries_of js;
  downloads = clear_all_url_downloads d.downloads;
}

-- The two loops of `discardPending`.
unfoldable pub remove_pending : List UploadJob → Store → Store
remove_pending [] s = s
remove_pending (j ∷ js) s = remove_pending js (if is_pending j.status then remove_job j.id s else s)

unfoldable pub remove_queued : List UrlDownloadJob → Downloads → Downloads
remove_queued [] s = s
remove_queued (j ∷ js) s =
    remove_queued js (if is_queued j.status then remove_url_download j.id s else s)

unfoldable pub discard_pending : List UploadJob → List UrlDownloadJob → UploadDialog → UploadDialog
unfolding remove_pending remove_queued
discard_pending js us d = record d {
  uploads = remove_pending js d.uploads;
  downloads = remove_queued us d.downloads;
  url_text = "";
}

-- `hasPending` of `handleCloseAttempt`.
unfoldable pub has_unstarted : UploadDialog → Bool
unfolding url_queued
has_unstarted d =
    any (λ j. is_pending j.status) d.uploads.jobs
    || url_queued d.downloads.jobs
    || not (is_blank (trim d.url_text))

unfoldable pub handle_close_attempt : UploadDialog → UploadDialog
unfolding has_unstarted any_active
handle_close_attempt d =
    if any_active d || not (has_unstarted d)
    then close d
    else record d { asking = some (discard d.uploads.jobs d.downloads.jobs) }

-- The user confirms what was asked.
unfoldable pub on_confirm : UploadDialog → UploadDialog
unfolding cancel_queue discard_pending close
on_confirm d =
    let d' = record d { asking = none } in
    elim d.asking [
      | none ↦ d
      | some (stop_upload id) ↦ record d' { uploads = remove_job id d.uploads }
      | some (cancel_all js) ↦ cancel_queue js d'
      | some (discard js us) ↦ close (discard_pending js us d')
    ]
