-- ===== src/UploadStore/Run/Stalls.antt =====
-- web/lib/upload-store.ts: `startAll` after the removal of the job that it awaits, and where a
-- file is missing.
use vidsilo.Base.{
  ℕ, ◌≡◌, refl, sym, ◌∙◌, subst, inl, inr, none, some, List, [], ◌∷◌, String, arith, eq_refl, find,
  Dict, lookup, delete,
}
use vidsilo.UploadStore.Job.{UploadJob, File, Patch, is_pending}
use vidsilo.UploadStore.State.{
  Store, Upload, idle, fetching, transferring, persist, emit, idb_put, idb_get, idb_delete,
}
use vidsilo.UploadStore.{
  AddFilesResult, resume, enqueue, add_each, add_file, update_job, remove_job, reset_idle,
  clear_uploads, clear_all_uploads, add_files, idb_delete_all,
}
use vidsilo.UploadStore.AddFiles.{add_file_cases}
use vidsilo.UploadStore.Named.{IsNamed}
use vidsilo.UploadStore.Run.{
  Event, files_added, edited, removed, dialog_opened, cleared, all_cleared, started, blob_answered,
  reloaded, progressed, url_given, succeeded, stopped, handle, StaysOpen, Enabled, Reach, here,
  next, run_started, next_round, start_all, blob_read,
}
use vidsilo.UploadStore.Run.Invariant.{Inv, Serial}
use vidsilo.UploadStore.Run.Preserved.{start_job_of_pending}

-- `startAll` awaits an upload that is no longer in flight.
pub record Stalled (i : String) (s : Store) : Type 0 where
  pub awaits : s.batch ≡ transferring i
  pub quiet : s.active_uploads ≡ []

start_all_busy : (now : ℕ) (i : String) (s : Store) → s.batch ≡ transferring i → start_all now s ≡ s
unfolding start_all
start_all_busy now i s h = ground arith

blob_read_busy : (now : ℕ) (i : String) (s : Store) → s.batch ≡ transferring i → blob_read now s ≡ s
unfolding blob_read
blob_read_busy now i s h = ground arith

module _ (i : String) where
  persist-emit-Stalled : (s : Store) → Stalled i s → Stalled i (persist (emit s))
  unfolding persist emit
  persist-emit-Stalled s h = record {
    awaits = ground (arith, h.awaits);
    quiet = ground (arith, h.quiet);
  }

  idb_delete-Stalled : (k : String) (s : Store) → Stalled i s → Stalled i (idb_delete k s)
  unfolding idb_delete
  idb_delete-Stalled k s h = record {
    awaits = ground (arith, h.awaits);
    quiet = ground (arith, h.quiet);
  }

  idb_delete_all-Stalled :
      (us : Dict Upload) (s : Store)
      → s.batch ≡ transferring i
      → (idb_delete_all us s).batch ≡ transferring i
  unfolding idb_delete_all idb_delete
  idb_delete_all-Stalled [] s h = h
  idb_delete_all-Stalled ((k, u) ∷ us) s h =
      idb_delete_all-Stalled us (idb_delete k s) (ground (arith, h))

  update_job-Stalled :
      (k : String) (p : Patch) (s : Store) → Stalled i s → Stalled i (update_job k p s)
  unfolding update_job
  update_job-Stalled k p s h =
      persist-emit-Stalled _ (record { awaits = h.awaits; quiet = h.quiet })

  add_each-Stalled :
      (uuid : ℕ → String) (slots : ℕ) (fs : List File) (s : Store) (r : AddFilesResult)
      → Stalled i s
      → Stalled i (add_each uuid slots fs (s, r)).0
  unfolding add_each resume enqueue idb_put persist emit
  add_each-Stalled uuid slots [] s r h = h
  add_each-Stalled uuid slots (f ∷ fs) s r h =
      let (t, q) = add_file uuid slots f (s, r) in add_each-Stalled uuid slots fs t q one
    where
      one : Stalled i (add_file uuid slots f (s, r)).0
      one =
          add_file_cases uuid (λ sr. Stalled i sr.0) slots f s r
            (λ j e. record { awaits = ground (arith, h.awaits); quiet = ground (arith, h.quiet) })
            (λ _. h) (λ _. h)
            (λ _ _. record { awaits = ground (arith, h.awaits); quiet = ground (arith, h.quiet) })

  emptied-Stalled :
      (s : Store)
      → s.batch ≡ transferring i
      → Stalled i (persist (emit (record s { active_uploads = []; jobs = []; files = [] })))
  emptied-Stalled s h = persist-emit-Stalled _ (record { awaits = h; quiet = refl })

  none_in_flight : (k : String) (us : Dict Upload) (u : Upload) → us ≡ [] → lookup k us ≡ some u → ⊥
  unfolding lookup
  none_in_flight k us u e m = ground (arith, m)

  handle-Stalled :
      (uuid : ℕ → String) (e : Event) (s : Store)
      → StaysOpen e
      → Enabled e s
      → Stalled i s
      → Stalled i (handle uuid e s)
  unfolding handle add_files remove_job clear_uploads clear_all_uploads reset_idle start_all
      blob_read delete
  handle-Stalled uuid (files_added fs) s a n h =
      persist-emit-Stalled _ (add_each-Stalled uuid _ fs s _ h)
  handle-Stalled uuid (edited k e) s a n h = update_job-Stalled k _ s h
  handle-Stalled uuid (removed k) s a n h =
      persist-emit-Stalled _
        (idb_delete-Stalled k _ (record { awaits = h.awaits; quiet = rw h.quiet }))
  handle-Stalled uuid dialog_opened s a n h = ground (
    arith,
    h,
    persist-emit-Stalled (record s { jobs = []; files = [] })
        (record { awaits = h.awaits; quiet = h.quiet }),
  )
  handle-Stalled uuid cleared s a n h =
      emptied-Stalled (idb_delete_all s.active_uploads s)
        (idb_delete_all-Stalled s.active_uploads s h.awaits)
  handle-Stalled uuid all_cleared s a n h = emptied-Stalled s h.awaits
  handle-Stalled uuid (started now) s a n h =
      subst (Stalled i) (sym (start_all_busy now i s h.awaits)) h
  handle-Stalled uuid (blob_answered now) s a n h =
      subst (Stalled i) (sym (blob_read_busy now i s h.awaits)) h
  handle-Stalled uuid (reloaded now) s a n h = absurd a
  handle-Stalled uuid (progressed k sent total) s a (u, m, lt) h =
      absurd (none_in_flight k _ u h.quiet m)
  handle-Stalled uuid (url_given k url) s a (u, m) h = absurd (none_in_flight k _ u h.quiet m)
  handle-Stalled uuid (succeeded now k) s a (u, m) h = absurd (none_in_flight k _ u h.quiet m)
  handle-Stalled uuid (stopped now k message) s a (u, m) h = absurd (none_in_flight k _ u h.quiet m)

Reach-Stalled :
    (uuid : ℕ → String) (i : String) (s t : Store)
    → Stalled i s
    → Reach uuid StaysOpen s t
    → Stalled i t
Reach-Stalled uuid i s t h here = h
Reach-Stalled uuid i s t h (next {t = r} reach e a n) =
    handle-Stalled i uuid e r a n (Reach-Stalled uuid i s r h reach)

delete_awaited : (i : String) (us : Dict Upload) → Serial (transferring i) us → delete i us ≡ []
unfolding delete
delete_awaited i us (inl e) = rw e
delete_awaited i us (inr (u, e)) = rw e (rw (eq_refl i))

-- Once the upload that `startAll` awaits is removed, `startAll` stays where it is until the page is
-- reloaded: whatever is called meanwhile, no upload is in flight and every further call of
-- `startAll` changes nothing. The queue was in a state that the invariant describes.
pub remove_job_stalls :
    (uuid : ℕ → String) (i : String) (s t : Store) (now : ℕ)
    → Inv uuid s
    → s.batch ≡ transferring i
    → Reach uuid StaysOpen (remove_job i s) t
    → (t.batch ≡ transferring i) × (t.active_uploads ≡ []) × (start_all now t ≡ t)
unfolding remove_job
remove_job_stalls uuid i s t now h b reach =
    let serial = subst (λ c. Serial c s.active_uploads) b h.serial in
    let first = persist-emit-Stalled i _ (
      idb_delete-Stalled i i _
        (record { awaits = b; quiet = delete_awaited i s.active_uploads serial })) in
    let last = Reach-Stalled uuid i _ t first reach in
    (last.awaits, last.quiet, start_all_busy now i t last.awaits)

next_round_missing :
    (uuid : ℕ → String) (s : Store) (j : UploadJob) (now : ℕ)
    → IsNamed uuid s.drawn s.jobs
    → find (λ k. is_pending k.status) s.jobs ≡ some j
    → lookup j.id s.files ≡ none
    → next_round now s ≡ record s { batch = fetching j }
unfolding next_round run_started
next_round_missing uuid s j now h e m =
    rw (e, next_round, start_job_of_pending uuid s j h e, m) refl

blob_read_missing :
    (uuid : ℕ → String) (s : Store) (j : UploadJob) (now : ℕ)
    → IsNamed uuid s.drawn s.jobs
    → s.batch ≡ fetching j
    → find (λ k. is_pending k.status) s.jobs ≡ some j
    → lookup j.id s.files ≡ none
    → idb_get j.id s ≡ none
    → blob_read now s ≡ next_round now s
unfolding blob_read
blob_read_missing uuid s j now h b e m g = ground (arith, g, b)

-- If the first job that is queued or interrupted has its file neither in memory nor in IndexedDB,
-- then `startAll` asks for that file for ever: it starts no upload, and each answer leaves the
-- store as it was. Ids are distinct and no batch runs.
missing_file_stalls :
    (uuid : ℕ → String) (s : Store) (j : UploadJob) (now later : ℕ)
    → IsNamed uuid s.drawn s.jobs
    → s.batch ≡ idle
    → find (λ k. is_pending k.status) s.jobs ≡ some j
    → lookup j.id s.files ≡ none
    → idb_get j.id s ≡ none
    → (start_all now s ≡ record s { batch = fetching j })
      × (blob_read later (start_all now s) ≡ start_all now s)
unfolding start_all idb_get
missing_file_stalls uuid s j now later h b e m g =
    let t = record s { batch = fetching j } in
    let first : start_all now s ≡ t = start_idle ∙ next_round_missing uuid s j now h e m in
    (
      first,
      rw first
          (blob_read_missing uuid t j later h refl e m g ∙ next_round_missing uuid t j later h e m),
    )
  where
    start_idle : start_all now s ≡ next_round now s
    start_idle = ground (arith, b)
