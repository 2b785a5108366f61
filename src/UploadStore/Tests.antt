-- ===== src/UploadStore/Tests.antt =====
-- Runs of the upload queue, and the theorems at concrete inputs.
use vidsilo.Base.{
  ℕ, zero, suc, arith, ◌≡◌, refl, ap, true, false, none, some, List, [], ◌∷◌, ◌++◌, String, ◌≤◌,
  lookup, insert, delete, All,
}
use vidsilo.UploadStore.Job.{
  UploadJob, File, queued, interrupted, is_over, default_title, apply_patch,
}
use vidsilo.UploadStore.State.{
  Store, absent, idle, transferring, persist, emit, idb_put, idb_get, idb_delete, load, reload,
  interrupt, is_recent, mark_uploads_completed,
}
use vidsilo.UploadStore.Title.{default_title-append}
use vidsilo.UploadStore.{
  add_file, add_files, active_count, remove_job, update_job, start_job, upload_of,
}
use vidsilo.UploadStore.Named.{NeverRepeats, IsNamed, nil-IsNamed, append_one-IsNamed}
use vidsilo.UploadStore.AddFiles.{total, total-add_files}
use vidsilo.UploadStore.AddFiles.Cap.{active_count-add_files-le}
use vidsilo.UploadStore.AddFiles.Twins.{HasNoTwins, add_files-HasNoTwins}
use vidsilo.UploadStore.Reload.{reload_job, resumable_form, job_at}
use vidsilo.UploadStore.Run.{
  files_added, started, removed, handle, here, next, start_all, blob_read, next_round, run_started,
  launch, on_success, on_error, resolve_finished,
}
use vidsilo.UploadStore.Run.Invariant.{Inv}
use vidsilo.UploadStore.Run.Additions.{add_files-Inv}
use vidsilo.UploadStore.Run.Reachable.{Reach-Inv, empty-Inv}
use vidsilo.UploadStore.Run.Stalls.{remove_job_stalls}
use vidsilo.UploadStore.Run.Completion.{
  uploaded, errored, end_each, end_current, start_all_completes,
}

-- What a run of the queue computes with.
queue : Unit {0}
unfolding add_files add_file update_job remove_job start_job upload_of persist emit idb_put idb_get
    idb_delete lookup insert delete default_title apply_patch start_all next_round run_started
    launch on_success on_error resolve_finished mark_uploads_completed end_each end_current
    blob_read load interrupt is_recent reload
queue = tt

-- The n-th id is n letters long.
abbrev tally : ℕ → String
tally zero = String.[]
tally (suc n) = String.◌∷◌ "i" (tally n)

tally-NeverRepeats : NeverRepeats tally
tally-NeverRepeats zero zero e = refl
tally-NeverRepeats zero (suc n) e = cc
tally-NeverRepeats (suc m) zero e = cc
tally-NeverRepeats (suc m) (suc n) e = ap suc (tally-NeverRepeats m n (cc))

abbrev empty_store : Store
empty_store = record {
  jobs = [];
  files = [];
  active_uploads = [];
  last_completed_at = none;
  batch = idle;
  saved = absent;
  saved_completed = none;
  writable = true;
  blobs = [];
  has_idb = true;
  shown = [];
  drawn = 0;
}

abbrev film : File
film = record { name = "film.mp4"; size = 70 }

abbrev clip : File
clip = record { name = "clip.v2.mkv"; size = 50 }

empty_store-Inv : Inv tally empty_store
empty_store-Inv = empty-Inv tally empty_store refl refl refl refl

abbrev two_queued : Store
two_queued = (add_files tally (film ∷ clip ∷ film ∷ []) empty_store).0

two_queued-Inv : Inv tally two_queued
two_queued-Inv =
    add_files-Inv tally tally-NeverRepeats (film ∷ clip ∷ film ∷ []) empty_store empty_store-Inv

added_twice :
    (add_files tally (film ∷ clip ∷ film ∷ []) empty_store).1
    ≡ record { added = 2; duplicates = 1; over_limit = 0 }
unfolding queue
added_twice = refl

Reach-Inv_example : Inv tally (
    handle tally
      (removed "")
      (handle tally (started 5) (handle tally (files_added (film ∷ [])) empty_store)))
Reach-Inv_example =
    Reach-Inv tally (λ e. Unit {0}) empty_store _ tally-NeverRepeats empty_store-Inv
      (next (next (next here (files_added (film ∷ [])) tt tt) (started 5) tt tt) (removed "") tt tt)

start_all_completes_example :
    let t = end_each 9 (uploaded ∷ errored "reset" ∷ []) (start_all 9 two_queued) in
    (t.batch ≡ idle) × All (λ j. is_over j.status ≡ true) t.jobs
unfolding queue
start_all_completes_example =
    start_all_completes tally 9 (uploaded ∷ errored "reset" ∷ []) two_queued two_queued-Inv refl
      (λ _. refl, (λ _. refl, tt)) refl

active_count-add_files-le_example : active_count two_queued.jobs ≤ 10
active_count-add_files-le_example =
    active_count-add_files-le tally tally-NeverRepeats (film ∷ clip ∷ film ∷ []) empty_store
      empty_store-Inv.named

add_files-HasNoTwins_example : HasNoTwins two_queued.jobs
add_files-HasNoTwins_example =
    add_files-HasNoTwins tally tally-NeverRepeats (film ∷ clip ∷ film ∷ []) empty_store
      empty_store-Inv.named tt

total-add_files_example : total (add_files tally (film ∷ clip ∷ film ∷ []) empty_store).1 ≡ 3
total-add_files_example = total-add_files tally (film ∷ clip ∷ film ∷ []) empty_store

-- The first upload of two is in flight, and its job is removed.
abbrev in_transfer : Store
in_transfer = start_all 5 two_queued

in_transfer-Inv : Inv tally in_transfer
unfolding handle
in_transfer-Inv =
    Reach-Inv tally (λ e. Unit {0}) two_queued _ tally-NeverRepeats two_queued-Inv
      (next here (started 5) tt tt)

remove_job_stalls_example :
    let t = handle tally (started 7) (remove_job "" in_transfer) in
    (t.batch ≡ transferring "") × (t.active_uploads ≡ []) × (start_all 8 t ≡ t)
unfolding queue
remove_job_stalls_example =
    remove_job_stalls tally "" in_transfer (handle tally (started 7) (remove_job "" in_transfer)) 8
      in_transfer-Inv refl (next here (started 7) tt tt)

-- After a reload without IndexedDB nothing has its file.
abbrev no_files : Store
no_files = record two_queued { files = []; has_idb = false }

abbrev first_queued : UploadJob
first_queued = record {
  id = "";
  file_name = "film.mp4";
  file_size = 70;
  title = "film";
  description = "";
  category = "";
  progress = 0;
  status = queued;
  error = none;
  upload_url = none;
  finished_at = none;
}

reload_job_example : job_at "" (reload 5 two_queued).jobs ≡ some (resumable_form first_queued)
unfolding queue
reload_job_example =
    reload_job 5 two_queued "" first_queued (record { shown = refl; saved = λ _. refl }) refl
      two_queued-Inv.named.distinct refl

-- Nine active jobs, of which the first can be resumed.
abbrev resumable_job : UploadJob
resumable_job = record first_queued { status = interrupted; upload_url = some "/upload/1" }

abbrev nth_job : ℕ → UploadJob
nth_job zero = resumable_job
nth_job (suc n) = record first_queued { id = tally (suc n); file_name = tally (suc n) }

abbrev first_jobs : ℕ → List UploadJob
first_jobs zero = []
first_jobs (suc n) = first_jobs n ++ nth_job n ∷ []

abbrev nine_active : Store
nine_active = record empty_store { jobs = first_jobs 9; drawn = 9 }

nth_job_id : (n : ℕ) → (nth_job n).id ≡ tally n
nth_job_id zero = refl
nth_job_id (suc n) = refl

first_jobs-IsNamed : (n : ℕ) → IsNamed tally n (first_jobs n)
first_jobs-IsNamed zero = nil-IsNamed tally 0
first_jobs-IsNamed (suc n) =
    append_one-IsNamed tally tally-NeverRepeats n (first_jobs n) (nth_job n) (nth_job_id n)
      (first_jobs-IsNamed n)

default_title-append_example : default_title "clip.v2.mkv" ≡ "clip.v2"
default_title-append_example = default_title-append "clip.v2" "mkv" (λ e. cc) (omega arith)
