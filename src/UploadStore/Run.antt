-- ===== src/UploadStore/Run.antt =====
-- web/lib/upload-store.ts: `startAll`, `startJob` and the callbacks of tus, cut at each `await`.
-- The first part of an asynchronous function runs when it is called, and the rest as the event
-- that it awaits is handled.
pub mod Invariant
pub mod Preserved
pub mod Rounds
pub mod Ending
pub mod Additions
pub mod Reachable
pub mod Synced
pub mod Stalls
pub mod Counting
pub mod Draining
pub mod Completion
use vidsilo.Base.{
  ℕ, ◌+◌, ◌*◌, ◌/◌, ◌<◌, ◌≡◌, Bool, true, false, none, some, List, String, if◌then◌else◌, ◌==◌, any,
  find, insert, delete, lookup,
}
use vidsilo.UploadStore.Job.{
  uploading, done, failed, UploadJob, File, Patch, no_patch, is_done, is_pending,
}
use vidsilo.UploadStore.State.{
  Store, Upload, Batch, idle, fetching, transferring, spinning, idb_get, idb_delete,
  mark_uploads_completed, reload,
}
use vidsilo.UploadStore.{
  Started, returned, needs_blob, has_file, start_job, upload_of, update_job, add_files, remove_job,
  reset_idle, clear_uploads, clear_all_uploads,
}

-- The rest of `startJob`, once there is a file: the upload starts, and `startAll` awaits it.
unfoldable pub launch : UploadJob → File → Store → Store
launch j f s =
    let s1 = update_job j.id (record no_patch { status = some uploading; error = some none }) s in
    record s1 {
      active_uploads = insert j.id (upload_of j f) s1.active_uploads;
      batch = transferring j.id;
    }

-- `await startJob(next.id)`
unfoldable pub run_started : Started → Store → Store
run_started returned s = record s { batch = spinning }
run_started (needs_blob j) s = record s { batch = fetching j }
run_started (has_file j f) s = launch j f s

-- One round of the loop of `startAll`, up to its next `await`; `now` is `Date.now()`.
unfoldable pub next_round : ℕ → Store → Store
next_round now s = elim (find (λ j. is_pending j.status) s.jobs) [
  | some j ↦ run_started (start_job j.id s) s
  | none ↦
      let s' = if any (λ j. is_done j.status) s.jobs then mark_uploads_completed now s else s in
      record s' { batch = idle }
]

abbrev pub is_idle : Batch → Bool
is_idle idle = true
is_idle _ = false

unfoldable pub start_all : ℕ → Store → Store
start_all now s = if is_idle s.batch then next_round now s else s

-- `idbGet` answers the call of `startJob` that awaits it.
unfoldable pub blob_read : ℕ → Store → Store
blob_read now s = elim s.batch [
  | fetching j ↦ elim (idb_get j.id s) [
    | none ↦ next_round now s
    | some f ↦ launch j f (record s { files = insert j.id f s.files })
  ]
  | _ ↦ s
]

-- `Math.round((sent / total) * 100)`
unfoldable pub percent : ℕ → ℕ → ℕ
percent sent total = (200 * sent + total) / (2 * total)

unfoldable pub on_progress : String → ℕ → ℕ → Store → Store
on_progress id sent total s =
    update_job id (record no_patch { progress = some (percent sent total) }) s

-- `if (upload.url) updateJob(...)`
unfoldable pub on_upload_url_available : String → String → Store → Store
on_upload_url_available id url s =
    if url == "" then s else update_job id (record no_patch { upload_url = some url }) s

-- `startAll` goes on if it awaits this upload.
unfoldable pub resolve_finished : ℕ → String → Store → Store
resolve_finished now id s = elim s.batch [
  | transferring i ↦ if i == id then next_round now s else s
  | _ ↦ s
]

unfoldable pub on_success : ℕ → String → Store → Store
on_success now id s =
    let s1 = idb_delete id (record s { active_uploads = delete id s.active_uploads }) in
    let p = record no_patch { progress = some 100; status = some done; finished_at = some now } in
    resolve_finished now id (update_job id p s1)

unfoldable pub on_error : ℕ → String → String → Store → Store
on_error now id message s =
    let s1 = record s { active_uploads = delete id s.active_uploads } in
    let p = record no_patch {
      status = some failed;
      error = some (some message);
      finished_at = some now;
    } in
    resolve_finished now id (update_job id p s1)

-- What a user edits on the card of a job.
pub data Edit : Type 0 where
  title description category : String → Edit

unfoldable pub edit_patch : Edit → Patch
edit_patch (title v) = record no_patch { title = some v }
edit_patch (description v) = record no_patch { description = some v }
edit_patch (category v) = record no_patch { category = some v }

-- What can happen to the queue: calls from the user interface, the answer of IndexedDB, a
-- reload of the page, and the callbacks of tus.
pub data Event : Type 0 where
  files_added : List File → Event
  edited : String → Edit → Event
  removed : String → Event
  dialog_opened cleared all_cleared : Event
  started blob_answered reloaded : (now : ℕ) → Event
  progressed : (id : String) (sent total : ℕ) → Event
  url_given : (id url : String) → Event
  succeeded : (now : ℕ) (id : String) → Event
  stopped : (now : ℕ) (id message : String) → Event

-- tus calls back only for an upload in flight; a progress event has a positive total.
abbrev pub Enabled : Event → Store → Type 0
Enabled (progressed id sent total) s =
    (u : Upload) × (lookup id s.active_uploads ≡ some u) × (0 < total)
Enabled (url_given id url) s = (u : Upload) × (lookup id s.active_uploads ≡ some u)
Enabled (succeeded now id) s = (u : Upload) × (lookup id s.active_uploads ≡ some u)
Enabled (stopped now id message) s = (u : Upload) × (lookup id s.active_uploads ≡ some u)
Enabled _ s = Unit

module _ (uuid : ℕ → String) where
  unfoldable pub handle : Event → Store → Store
  handle (files_added fs) s = (add_files uuid fs s).0
  handle (edited id e) s = update_job id (edit_patch e) s
  handle (removed id) s = remove_job id s
  handle dialog_opened s = reset_idle s
  handle cleared s = clear_uploads s
  handle all_cleared s = clear_all_uploads s
  handle (started now) s = start_all now s
  handle (blob_answered now) s = blob_read now s
  handle (reloaded now) s = reload now s
  handle (progressed id sent total) s = on_progress id sent total s
  handle (url_given id url) s = on_upload_url_available id url s
  handle (succeeded now id) s = on_success now id s
  handle (stopped now id message) s = on_error now id message s

  -- Histories of the events that `allowed` admits.
  pub data Reach (allowed : Event → Type 0) (s : Store) : Store → Type 0 where
    here : Reach allowed s s
    next :
        {t : Store}
        → Reach allowed s t
        → (e : Event) → allowed e
        → Enabled e t
        → Reach allowed s (handle e t)

-- Every event but a reload of the page.
abbrev pub StaysOpen : Event → Type 0
StaysOpen (reloaded now) = ⊥
StaysOpen _ = Unit
