-- ===== src/UploadStore/Run/Reachable.antt =====
-- web/lib/upload-store.ts: the invariant of the queue over histories of events.
use vidsilo.Base.{
  ℕ, ◌≡◌, refl, inl, inr, Bool, false, List, [], ◌∷◌, map, String, arith, ◌==◌, Bool-cases, keep,
  Dict, delete,
}
use vidsilo.UploadStore.Job.{UploadJob, is_uploading, apply_patch}
use vidsilo.UploadStore.State.{
  Store, Item, absent, corrupt, stored, Upload, Batch, idle, fetching, transferring, spinning,
  persist, emit, interrupt, is_recent, load, reload,
}
use vidsilo.UploadStore.{remove_job, reset_idle, clear_uploads, clear_all_uploads, idb_delete_all}
use vidsilo.UploadStore.Named.{NeverRepeats, keep-IsNamed, nil-IsNamed, load-IsNamed}
use vidsilo.UploadStore.Run.{
  Event, Edit, title, description, category, files_added, edited, removed, dialog_opened, cleared,
  all_cleared, started, blob_answered, reloaded, progressed, url_given, succeeded, stopped, handle,
  Enabled, Reach, here, next, on_progress, on_upload_url_available, edit_patch,
}
use vidsilo.UploadStore.Run.Invariant.{
  Serial, Awaited, Inv, NoneUploading, NoneUploading-Awaited, IsCalm,
}
use vidsilo.UploadStore.Run.Preserved.{persist-emit-Inv, idb_delete-Inv, update_job-Inv}
use vidsilo.UploadStore.Run.Additions.{add_files-Inv}
use vidsilo.UploadStore.Run.Rounds.{start_all-Inv, blob_read-Inv}
use vidsilo.UploadStore.Run.Ending.{on_success-Inv, on_error-Inv}

-- Without its upload, the queue is still serial.
delete-Serial : (b : Batch) (us : Dict Upload) (i : String) → Serial b us → Serial b (delete i us)
unfolding delete
delete-Serial (transferring k) us i (inl e) = inl (rw e)
delete-Serial (transferring k) us i (inr (u, e)) = elim (Bool-cases (k == i)) [
  | inl hit ↦ inl (rw e (rw hit))
  | inr miss ↦ inr (u, rw e (rw miss))
]
delete-Serial idle us i e = rw e
delete-Serial (fetching j) us i e = rw e
delete-Serial spinning us i e = rw e

nil-Serial : (b : Batch) → Serial b []
nil-Serial (transferring k) = inl refl
nil-Serial idle = refl
nil-Serial (fetching j) = refl
nil-Serial spinning = refl

keep-Awaited :
    (b : Batch) (p : UploadJob → Bool) (js : List UploadJob) → Awaited b js → Awaited b (keep p js)
keep-Awaited b p [] h = tt
keep-Awaited b p (j ∷ js) (h, hs) = ground (arith, h, keep-Awaited b p js hs)

-- No job that comes from local storage is uploading.
load-NoneUploading : (now : ℕ) (it : Item (List UploadJob)) → NoneUploading (load now it)
unfolding load
load-NoneUploading now absent = tt
load-NoneUploading now corrupt = tt
load-NoneUploading now (stored js) = go js
  where
    calm : (j : UploadJob) → is_uploading (interrupt j).status ≡ false
    calm j = unfold interrupt in ground arith

    go : (ks : List UploadJob) → NoneUploading (keep (is_recent now) (map interrupt ks))
    go [] = tt
    go (j ∷ ks) = elim (Bool-cases (is_recent now (interrupt j))) [
      | inl r ↦ rw r (calm j, go ks)
      | inr r ↦ rw r (go ks)
    ]

module _ (uuid : ℕ → String) where
  remove_job-Inv : (i : String) (s : Store) → Inv uuid s → Inv uuid (remove_job i s)
  unfolding remove_job
  remove_job-Inv i s h = persist-emit-Inv uuid _ (
      idb_delete-Inv uuid i _ (record {
        named = keep-IsNamed uuid s.drawn _ s.jobs h.named;
        saved_named = h.saved_named;
        serial = delete-Serial s.batch s.active_uploads i h.serial;
        awaited = keep-Awaited s.batch _ s.jobs h.awaited;
        not_spinning = h.not_spinning;
      }))

  -- All jobs are dropped.
  emptied-Inv :
      (s : Store) (us : Dict Upload)
      → Serial s.batch us
      → Inv uuid s
      → Inv uuid (persist (emit (record s { jobs = []; files = []; active_uploads = us })))
  emptied-Inv s us q h = persist-emit-Inv uuid _ (record {
    named = nil-IsNamed uuid s.drawn;
    saved_named = h.saved_named;
    serial = q;
    awaited = tt;
    not_spinning = h.not_spinning;
  })

  reset_idle-Inv : (s : Store) → Inv uuid s → Inv uuid (reset_idle s)
  unfolding reset_idle
  reset_idle-Inv s h = ground (arith, emptied-Inv s s.active_uploads h.serial h)

  idb_delete_all-Inv : (us : Dict Upload) (s : Store) → Inv uuid s → Inv uuid (idb_delete_all us s)
  unfolding idb_delete_all
  idb_delete_all-Inv [] s h = h
  idb_delete_all-Inv ((i, u) ∷ us) s h = idb_delete_all-Inv us _ (idb_delete-Inv uuid i s h)

  clear_uploads-Inv : (s : Store) → Inv uuid s → Inv uuid (clear_uploads s)
  unfolding clear_uploads
  clear_uploads-Inv s h = emptied-Inv _ [] (nil-Serial _) (idb_delete_all-Inv s.active_uploads s h)

  clear_all_uploads-Inv : (s : Store) → Inv uuid s → Inv uuid (clear_all_uploads s)
  unfolding clear_all_uploads
  clear_all_uploads-Inv s h = emptied-Inv s [] (nil-Serial s.batch) h

  reload-Inv : (now : ℕ) (s : Store) → Inv uuid s → Inv uuid (reload now s)
  unfolding reload
  reload-Inv now s h = record {
    named = load-IsNamed uuid s.drawn now s.saved h.saved_named;
    saved_named = h.saved_named;
    serial = refl;
    awaited = NoneUploading-Awaited idle _ (load-NoneUploading now s.saved);
    not_spinning = λ e. cc;
  }

  edit_patch-IsCalm : (e : Edit) → IsCalm (edit_patch e)
  unfolding edit_patch apply_patch
  edit_patch-IsCalm (title v) j h = h
  edit_patch-IsCalm (description v) j h = h
  edit_patch-IsCalm (category v) j h = h

  on_progress-Inv :
      (i : String) (sent total : ℕ) (s : Store) → Inv uuid s → Inv uuid (on_progress i sent total s)
  unfolding on_progress apply_patch
  on_progress-Inv i sent total s h = update_job-Inv uuid i _ s (λ j u. u) h

  on_upload_url_available-Inv :
      (i url : String) (s : Store) → Inv uuid s → Inv uuid (on_upload_url_available i url s)
  unfolding on_upload_url_available apply_patch
  on_upload_url_available-Inv i url s h = elim (Bool-cases (url == "")) [
    | inl e ↦ rw e h
    | inr e ↦ rw e (update_job-Inv uuid i _ s (λ j u. u) h)
  ]

  -- Every event keeps the invariant.
  handle-Inv :
      NeverRepeats uuid
      → (e : Event) (s : Store) → Enabled e s
      → Inv uuid s
      → Inv uuid (handle uuid e s)
  unfolding handle
  handle-Inv fresh (files_added fs) s n h = add_files-Inv uuid fresh fs s h
  handle-Inv fresh (edited i e) s n h = update_job-Inv uuid i _ s (edit_patch-IsCalm e) h
  handle-Inv fresh (removed i) s n h = remove_job-Inv i s h
  handle-Inv fresh dialog_opened s n h = reset_idle-Inv s h
  handle-Inv fresh cleared s n h = clear_uploads-Inv s h
  handle-Inv fresh all_cleared s n h = clear_all_uploads-Inv s h
  handle-Inv fresh (started now) s n h = start_all-Inv uuid now s h
  handle-Inv fresh (blob_answered now) s n h = blob_read-Inv uuid now s h
  handle-Inv fresh (reloaded now) s n h = reload-Inv now s h
  handle-Inv fresh (progressed i sent total) s n h = on_progress-Inv i sent total s h
  handle-Inv fresh (url_given i url) s n h = on_upload_url_available-Inv i url s h
  handle-Inv fresh (succeeded now i) s (u, m) h = on_success-Inv uuid now i u s m h
  handle-Inv fresh (stopped now i message) s (u, m) h = on_error-Inv uuid now i message u s m h

  -- After any history of calls, page reloads and callbacks of tus: ids are distinct, at most one
  -- upload is in flight and it is the one that `startAll` awaits, only its job is shown as
  -- uploading, and the loop of `startAll` never turns without waiting. The history starts in a
  -- store where this holds, and `crypto.randomUUID` never repeats.
  pub Reach-Inv :
      (allowed : Event → Type 0) (s t : Store)
      → NeverRepeats uuid
      → Inv uuid s
      → Reach uuid allowed s t
      → Inv uuid t
  Reach-Inv allowed s t fresh h here = h
  Reach-Inv allowed s t fresh h (next {t = r} reach e a n) =
      handle-Inv fresh e r n (Reach-Inv allowed s r fresh h reach)

  -- Where the history can begin: an empty queue.
  pub empty-Inv :
      (s : Store)
      → s.jobs ≡ []
      → s.saved ≡ absent
      → s.active_uploads ≡ []
      → s.batch ≡ idle
      → Inv uuid s
  empty-Inv s j a u b = record {
    named = rw j (nil-IsNamed uuid s.drawn);
    saved_named = rw a tt;
    serial = rw (b, u) refl;
    awaited = rw j tt;
    not_spinning = rw b (λ e. cc);
  }
