-- ===== src/UploadDialog/Tests.antt =====
-- Runs of the upload dialog, and the theorems at concrete inputs.
use vidsilo.Base.{
  ℕ, not, any, count, map, ◌+◌, ◌&&◌, ◌==◌, zero, suc, ◌≡◌, refl, ap, true, false, none, some, List,
  [], ◌∷◌, String, lookup, insert, delete, keep, trim, trim_start, trim_end,
}
use vidsilo.UploadStore.Job.{File, is_pending, default_title, apply_patch}
use vidsilo.UploadStore.State.{
  Store, absent, idle, persist, emit, idb_put, idb_get, idb_delete, has_uploads_completed,
  clear_uploads_completed,
}
use vidsilo.UploadStore.{
  add_file, add_files, remove_job, clear_all_uploads, reset_idle, start_job, update_job,
}
use vidsilo.UploadStore.Named.{NeverRepeats}
use vidsilo.UploadStore.Run.{handle, start_all, next_round, run_started, launch}
use vidsilo.UploadStore.Run as U
use vidsilo.UrlDownloads.Job.{UrlDownloadJob, done, at, is_queued}
use vidsilo.UrlDownloads.{
  Downloads, clear_all_url_downloads, reset_idle_downloads, persist_downloads, emit_downloads,
}
use vidsilo.UrlDownloads as D
use vidsilo.UrlDownloads.Events as E
use vidsilo.UploadDialog.{
  UploadDialog, upload_duplicate, open_dialog, close, any_active, url_active, url_queued,
  has_unstarted, add_selected, handle_close_attempt, remove_pending, remove_queued, discard_pending,
  on_confirm, cancel_queue, entries_of, ask_cancel_all,
}
use vidsilo.UploadDialog.Events.{
  UploadDialogEvent, in_downloads, in_uploads, handle_dialog_event, run_dialog_events,
}
use vidsilo.UploadDialog.Closing.{on_confirm-handle_close_attempt}
use vidsilo.UploadDialog.Meanwhile.{of_downloads, of_uploads}
use vidsilo.UploadDialog.Cancelling.{is_for, requests_for, on_confirm-ask_cancel_all}

-- What a run of the dialog computes with.
dialog_run : Unit {0}
unfolding add_files add_file remove_job persist emit idb_put idb_get idb_delete lookup insert delete
    default_title start_all next_round run_started launch clear_all_uploads reset_idle
    clear_uploads_completed has_uploads_completed clear_all_url_downloads reset_idle_downloads
    persist_downloads emit_downloads open_dialog close any_active url_active url_queued
    has_unstarted add_selected handle_close_attempt remove_pending remove_queued discard_pending
    on_confirm cancel_queue entries_of ask_cancel_all handle_dialog_event run_dialog_events trim
    trim_start trim_end
dialog_run = tt

-- The n-th id is n letters long.
abbrev tally : ℕ → String
tally zero = String.[]
tally (suc n) = String.◌∷◌ "d" (tally n)

tally-NeverRepeats : NeverRepeats tally
tally-NeverRepeats zero zero e = refl
tally-NeverRepeats zero (suc n) e = cc
tally-NeverRepeats (suc m) zero e = cc
tally-NeverRepeats (suc m) (suc n) e = ap suc (tally-NeverRepeats m n (cc))

abbrev empty_store : Store
empty_store = record {
  jobs = [];
  files = [];
  active_uploads = [];
  last_completed_at = none;
  batch = idle;
  saved = absent;
  saved_completed = none;
  writable = true;
  blobs = [];
  has_idb = true;
  shown = [];
  drawn = 0;
}

abbrev fetched : UrlDownloadJob
fetched = record {
  id = "x";
  url = "http://a/x.mp4";
  file_name = "x.mp4";
  title = none;
  category = none;
  status = done;
  progress = at 100;
  error = none;
  entry_id = some "e1";
  finished_at = some 9;
}

abbrev no_downloads : Downloads
no_downloads = record {
  jobs = [];
  last_completed_at = none;
  poller = D.idle;
  saved = absent;
  saved_completed = none;
  writable = true;
  shown = [];
  drawn = 0;
  renames = [];
}

abbrev fresh_dialog : UploadDialog
fresh_dialog = record {
  uploads = empty_store;
  downloads = no_downloads;
  is_open = true;
  url_text = "";
  requested = none;
  starting = false;
  asking = none;
  toasts = [];
  deleted = [];
}

abbrev film : File
film = record { name = "film.mp4"; size = 70 }

abbrev clip : File
clip = record { name = "clip.mkv"; size = 50 }

abbrev two_files : UploadDialog
two_files = add_selected tally (film ∷ clip ∷ []) fresh_dialog

told_of_twins : (add_selected tally (film ∷ []) two_files).toasts ≡ upload_duplicate ∷ []
unfolding dialog_run
told_of_twins = refl

abbrev starts : List UploadDialogEvent
starts = in_uploads (U.started 5) ∷ []

-- A file that starts while the dialog asks is discarded too.
started_and_gone :
    let r = run_dialog_events tally starts (handle_close_attempt two_files) in
    (map (λ j. is_pending j.status) r.uploads.jobs ≡ false ∷ true ∷ [])
    × ((on_confirm r).uploads.jobs ≡ [])
unfolding dialog_run handle start_job update_job apply_patch
started_and_gone = (refl, refl)

on_confirm-handle_close_attempt_example :
    let r = run_dialog_events tally starts (handle_close_attempt two_files) in
    let t = on_confirm r in
    (t.is_open ≡ false)
    × (t.asking ≡ none)
    × (t.url_text ≡ "")
    × (t.uploads.jobs
        ≡ keep
            (λ j. not (any (λ k. is_pending k.status && (k.id == j.id)) two_files.uploads.jobs))
            r.uploads.jobs)
    × (t.downloads.jobs
        ≡ keep
            (λ j. not (any (λ k. is_queued k.status && (k.id == j.id)) two_files.downloads.jobs))
            r.downloads.jobs)
    × (has_unstarted (on_confirm (handle_close_attempt two_files)) ≡ false)
unfolding dialog_run
on_confirm-handle_close_attempt_example =
    on_confirm-handle_close_attempt tally starts two_files refl refl (of_uploads (U.started 5), tt)

abbrev one_fetched : UploadDialog
one_fetched = record two_files { downloads = record no_downloads { jobs = fetched ∷ [] } }

on_confirm-ask_cancel_all_example :
    let t = on_confirm (
      run_dialog_events tally
        (in_uploads (U.started 5) ∷ in_downloads (E.ticked none) ∷ [])
        (ask_cancel_all one_fetched)) in
    ((e : String)
      → requests_for e t.deleted ≡ requests_for e [] + count (is_for e) one_fetched.downloads.jobs)
    × (t.uploads.jobs ≡ [])
    × (t.uploads.active_uploads ≡ [])
    × (t.downloads.jobs ≡ [])
unfolding add_selected
on_confirm-ask_cancel_all_example =
    on_confirm-ask_cancel_all tally (in_uploads (U.started 5) ∷ in_downloads (E.ticked none) ∷ [])
      one_fetched (of_uploads (U.started 5), (of_downloads (E.ticked none), tt))

deleted_once : (on_confirm (ask_cancel_all one_fetched)).deleted ≡ "e1" ∷ []
unfolding dialog_run
deleted_once = refl
