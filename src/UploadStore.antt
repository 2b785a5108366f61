-- ===== src/UploadStore.antt =====
-- web/lib/upload-store.ts: the operations of the upload queue. `crypto.randomUUID` is the parameter
-- `uuid`, which gives the n-th identifier drawn.
pub mod Job
pub mod State
pub mod Run
pub mod Reload
pub mod Title
mod Tests
pub mod Ids
pub mod Named
pub mod AddFiles
use vidsilo.Base.{
  ℕ, suc, ◌+◌, ◌-◌, ◌*◌, ◌/◌, ◌≡◌, Bool, true, false, not, ◌&&◌, ◌||◌, Option, none, some, List, [],
  ◌∷◌, ◌++◌, map, String, if◌then◌else◌, ◌==◌, eqb, leb, truthy, is_empty, any, keep, count, find,
  Dict, lookup, insert, delete,
}
use Job.{
  UploadStatus, queued, uploading, done, failed, UploadJob, File, Patch, no_patch, apply_patch,
  is_done, is_uploading, is_interrupted, is_pending, is_active, default_title,
}
use State.{Store, Upload, persist, emit, idb_put, idb_get, idb_delete, mark_uploads_completed}

abbrev pub max_batch : ℕ
max_batch = 10

pub record AddFilesResult : Type 0 where
  pub added : ℕ
  pub duplicates : ℕ
  pub over_limit : ℕ

-- Same file name and size, interrupted, and with an upload URL.
abbrev pub is_resumable : File → UploadJob → Bool
is_resumable f j =
    j.file_name == f.name
    && eqb j.file_size f.size
    && is_interrupted j.status
    && truthy j.upload_url

abbrev pub is_duplicate : File → UploadJob → Bool
is_duplicate f j = j.file_name == f.name && eqb j.file_size f.size && is_active j.status

abbrev pub active_count : List UploadJob → ℕ
active_count js = count (λ j. is_active j.status) js

abbrev pub free_slots : List UploadJob → ℕ
free_slots js = max_batch - active_count js

-- `jobs.map((j) => (j.id === id ? f(j) : j))`
abbrev pub map_job : String → (UploadJob → UploadJob) → List UploadJob → List UploadJob
map_job id f js = map (λ j. if j.id == id then f j else j) js

unfoldable pub requeue : UploadJob → UploadJob
requeue j = record j { status = queued }

-- The resume branch of the loop of `addFiles`.
pub resume : UploadJob → File → Store × AddFilesResult → Store × AddFilesResult
unfolding requeue
resume j f (s, r) =
    let s1 = idb_put j.id f (record s { files = insert j.id f s.files }) in
    let s2 = record s1 { jobs = map_job j.id requeue s1.jobs } in
    (persist (emit s2), record r { added = r.added + 1 })

module _ (uuid : ℕ → String) where
  pub new_job : File → ℕ → UploadJob
  new_job f n = record {
    id = uuid n;
    file_name = f.name;
    file_size = f.size;
    title = default_title f.name;
    description = "";
    category = "";
    progress = 0;
    status = queued;
    error = none;
    upload_url = none;
    finished_at = none;
  }

  -- A new job at the end of the list.
  pub enqueue : File → Store × AddFilesResult → Store × AddFilesResult
  unfolding new_job
  enqueue f (s, r) =
      let j = new_job f s.drawn in
      let s1 = idb_put j.id f (record s { files = insert j.id f s.files; drawn = suc s.drawn }) in
      (record s1 { jobs = s1.jobs ++ j ∷ [] }, record r { added = r.added + 1 })

  -- One round of the loop of `addFiles`.
  unfoldable pub add_file : ℕ → File → Store × AddFilesResult → Store × AddFilesResult
  unfolding resume enqueue
  add_file slots f (s, r) = elim (find (is_resumable f) s.jobs) [
    | some j ↦ resume j f (s, r)
    | none ↦
        if any (is_duplicate f) s.jobs
        then (s, record r { duplicates = r.duplicates + 1 })
        else if leb slots r.added
        then (s, record r { over_limit = r.over_limit + 1 })
        else enqueue f (s, r)
  ]

  unfoldable pub add_each : ℕ → List File → Store × AddFilesResult → Store × AddFilesResult
  add_each slots [] sr = sr
  add_each slots (f ∷ fs) sr = add_each slots fs (add_file slots f sr)

  unfoldable pub add_files : List File → Store → Store × AddFilesResult
  unfolding add_each
  add_files fs s =
      let (s', r) =
        add_each (free_slots s.jobs) fs (s, record { added = 0; duplicates = 0; over_limit = 0 }) in
      (persist (emit s'), r)

unfoldable pub update_job : String → Patch → Store → Store
update_job id p s = persist (emit (record s { jobs = map_job id (apply_patch p) s.jobs }))

-- tus calls none of the callbacks of an upload that was aborted.
unfoldable pub remove_job : String → Store → Store
remove_job id s =
    let s1 = record s {
      active_uploads = delete id s.active_uploads;
      jobs = keep (λ j. not (j.id == id)) s.jobs;
      files = delete id s.files;
    } in
    persist (emit (idb_delete id s1))

unfoldable pub reset_idle : Store → Store
reset_idle s =
    if not (any (λ j. is_uploading j.status || is_pending j.status) s.jobs) && not (is_empty s.jobs)
    then persist (emit (record s { jobs = []; files = [] }))
    else s

-- `for (const [id] of activeUploads) idbDelete(id)`
idb_delete_all : Dict Upload → Store → Store
idb_delete_all [] s = s
idb_delete_all ((id, u) ∷ us) s = idb_delete_all us (idb_delete id s)

unfoldable pub clear_uploads : Store → Store
unfolding idb_delete_all
clear_uploads s = persist (
    emit
      (record (idb_delete_all s.active_uploads s) { active_uploads = []; files = []; jobs = [] }))

unfoldable pub clear_all_uploads : Store → Store
clear_all_uploads s = persist (emit (record s { active_uploads = []; jobs = []; files = [] }))

-- What a call of `startJob` does before its first `await`.
pub data Started : Type 0 where
  returned : Started
  needs_blob : UploadJob → Started
  has_file : UploadJob → File → Started

unfoldable pub start_job : String → Store → Started
start_job id s = elim (find (λ j. j.id == id) s.jobs) [
  | none ↦ returned
  | some j ↦
      if is_uploading j.status || is_done j.status
      then returned
      else elim (lookup id s.files) [ none ↦ needs_blob j | some f ↦ has_file j f ]
]

unfoldable pub upload_of : UploadJob → File → Upload
upload_of j f = record {
  file = f;
  upload_url = j.upload_url;
  title = j.title;
  description = j.description;
  category = j.category;
}

-- The test helper: local storage and the uploads in flight stay.
unfoldable pub reset_upload_store : Store → Store
reset_upload_store s = emit (record s { jobs = []; files = [] })
