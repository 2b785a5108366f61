-- ===== src/UploadStore/Run/Synced.antt =====
-- web/lib/upload-store.ts: what the listeners see and what local storage holds.
use vidsilo.Base.{
  ℕ, ◌≡◌, refl, inl, inr, true, none, some, [], String, arith, if◌then◌else◌, ◌==◌, Bool-cases,
  Option-cases, find, insert,
}
use vidsilo.UploadStore.Job.{UploadJob, File, Patch, is_pending}
use vidsilo.UploadStore.State.{
  Store, stored, Batch, idle, fetching, transferring, spinning, persist, emit, idb_get,
  mark_uploads_completed,
}
use vidsilo.UploadStore.{
  update_job, remove_job, reset_idle, clear_uploads, clear_all_uploads, add_files, Started,
  returned, needs_blob, has_file,
}
use vidsilo.UploadStore.Run.{
  Event, files_added, edited, removed, dialog_opened, cleared, all_cleared, started, blob_answered,
  reloaded, progressed, url_given, succeeded, stopped, handle, StaysOpen, launch, run_started,
  next_round, start_all, blob_read, on_progress, on_upload_url_available, resolve_finished,
  on_success, on_error,
}

-- Listeners were told of the present list, and local storage, if it can be written, holds it.
pub record IsSynced (s : Store) : Type 0 where
  pub shown : s.shown ≡ s.jobs
  pub saved : s.writable ≡ true → s.saved ≡ stored s.jobs

persist-emit-IsSynced : (s : Store) → IsSynced (persist (emit s))
unfolding persist emit
persist-emit-IsSynced s = elim (Bool-cases s.writable) [
  | inl w ↦ rw (w, persist) (record { shown = refl; saved = λ _. refl })
  | inr w ↦ rw (w, persist) (record { shown = refl; saved = λ e. cc })
]

update_job-IsSynced : (i : String) (p : Patch) (s : Store) → IsSynced (update_job i p s)
unfolding update_job
update_job-IsSynced i p s = persist-emit-IsSynced _

launch-IsSynced : (j : UploadJob) (f : File) (s : Store) → IsSynced (launch j f s)
unfolding launch
launch-IsSynced j f s =
    let h = update_job-IsSynced j.id _ s in record { shown = h.shown; saved = h.saved }

run_started-IsSynced : (r : Started) (s : Store) → IsSynced s → IsSynced (run_started r s)
unfolding run_started
run_started-IsSynced returned s h = record { shown = h.shown; saved = h.saved }
run_started-IsSynced (needs_blob j) s h = record { shown = h.shown; saved = h.saved }
run_started-IsSynced (has_file j f) s h = launch-IsSynced j f s

next_round-IsSynced : (now : ℕ) (s : Store) → IsSynced s → IsSynced (next_round now s)
unfolding next_round mark_uploads_completed
next_round-IsSynced now s h = elim (Option-cases (find (λ k. is_pending k.status) s.jobs)) [
  | inr (j, e) ↦ rw (e, next_round) (run_started-IsSynced _ s h)
  | inl e ↦
      rw (e, next_round)
        (record { shown = ground (arith, h.shown); saved = ground (arith, h.saved) })
]

start_all-IsSynced : (now : ℕ) (s : Store) → IsSynced s → IsSynced (start_all now s)
unfolding start_all
start_all-IsSynced now s h = ground (arith, h, next_round-IsSynced now s h)

blob_read-IsSynced : (now : ℕ) (s : Store) → IsSynced s → IsSynced (blob_read now s)
unfolding blob_read
blob_read-IsSynced now s h = go s.batch
  where
    go :
        (b : Batch)
        → IsSynced (elim b [
          | fetching j ↦ elim (idb_get j.id s) [
            | none ↦ next_round now s
            | some f ↦ launch j f (record s { files = insert j.id f s.files })
          ]
          | _ ↦ s
        ])
    go idle = h
    go (fetching j) = elim (Option-cases (idb_get j.id s)) [
      | inl m ↦ rw m (next_round-IsSynced now s h)
      | inr (f, m) ↦ rw m (launch-IsSynced j f _)
    ]
    go (transferring i) = h
    go spinning = h

resolve_finished-IsSynced :
    (now : ℕ) (i : String) (s : Store) → IsSynced s → IsSynced (resolve_finished now i s)
unfolding resolve_finished
resolve_finished-IsSynced now i s h = go s.batch
  where
    go :
        (b : Batch)
        → IsSynced (elim b [ transferring k ↦ if k == i then next_round now s else s | _ ↦ s ])
    go idle = h
    go (fetching j) = h
    go (transferring k) = elim (Bool-cases (k == i)) [
      | inl e ↦ rw e (next_round-IsSynced now s h)
      | inr e ↦ rw e h
    ]
    go spinning = h

-- Every event but a reload, on every branch, leaves the listeners with the present list of jobs
-- and, where local storage can be written, the same list there; the store was so before.
handle-IsSynced :
    (uuid : ℕ → String) (e : Event) (s : Store)
    → StaysOpen e
    → IsSynced s
    → IsSynced (handle uuid e s)
unfolding handle add_files remove_job clear_uploads clear_all_uploads reset_idle on_progress
    on_upload_url_available on_success on_error
handle-IsSynced uuid (files_added fs) s n h = persist-emit-IsSynced _
handle-IsSynced uuid (edited i e) s n h = update_job-IsSynced i _ s
handle-IsSynced uuid (removed i) s n h = persist-emit-IsSynced _
handle-IsSynced uuid dialog_opened s n h =
    ground (arith, h, persist-emit-IsSynced (record s { jobs = []; files = [] }))
handle-IsSynced uuid cleared s n h = persist-emit-IsSynced _
handle-IsSynced uuid all_cleared s n h = persist-emit-IsSynced _
handle-IsSynced uuid (started now) s n h = start_all-IsSynced now s h
handle-IsSynced uuid (blob_answered now) s n h = blob_read-IsSynced now s h
handle-IsSynced uuid (reloaded now) s n h = absurd n
handle-IsSynced uuid (progressed i sent total) s n h = update_job-IsSynced i _ s
handle-IsSynced uuid (url_given i url) s n h = elim (Bool-cases (url == "")) [
  | inl e ↦ rw e h
  | inr e ↦ rw e (update_job-IsSynced i _ s)
]
handle-IsSynced uuid (succeeded now i) s n h =
    resolve_finished-IsSynced now i _ (update_job-IsSynced i _ _)
handle-IsSynced uuid (stopped now i message) s n h =
    resolve_finished-IsSynced now i _ (update_job-IsSynced i _ _)
