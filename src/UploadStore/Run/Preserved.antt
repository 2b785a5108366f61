-- ===== src/UploadStore/Run/Preserved.antt =====
-- web/lib/upload-store.ts: the invariant of the queue under the other calls.
use vidsilo.Base.{
  ℕ, ◌≡◌, inl, inr, none, some, [], String, arith, Bool-cases, find, lookup, insert, find_sound,
}
use vidsilo.UploadStore.Job.{uploading, UploadJob, File, Patch, no_patch, is_pending, apply_patch}
use vidsilo.UploadStore.State.{Store, persist, emit, idb_delete}
use vidsilo.UploadStore.{map_job, update_job, needs_blob, has_file, start_job, upload_of}
use vidsilo.UploadStore.Ids.{apply_patch-KeepsId, find_by_id}
use vidsilo.UploadStore.Named.{IsNamed, IsNamedItem, map_job-IsNamed}
use vidsilo.UploadStore.Run.{launch}
use vidsilo.UploadStore.Run.Invariant.{
  Inv, NoneUploading, IsCalm, patched-Awaited, launched-Awaited,
}

pub update_job_fields :
    (i : String) (p : Patch) (s : Store)
    → let t = update_job i p s in
      (t.jobs ≡ map_job i (apply_patch p) s.jobs)
      × (t.drawn ≡ s.drawn)
      × (t.batch ≡ s.batch)
      × (t.active_uploads ≡ s.active_uploads)
unfolding update_job persist emit
update_job_fields i p s = ground arith

module _ (uuid : ℕ → String) where
  pub persist-emit-Inv : (s : Store) → Inv uuid s → Inv uuid (persist (emit s))
  unfolding persist emit
  persist-emit-Inv s h = elim (Bool-cases s.writable) [
    | inl w ↦
        rw (w, persist)
          (record {
            named = h.named;
            saved_named = h.named;
            serial = h.serial;
            awaited = h.awaited;
            not_spinning = h.not_spinning;
          })
    | inr w ↦
        rw (w, persist)
          (record {
            named = h.named;
            saved_named = h.saved_named;
            serial = h.serial;
            awaited = h.awaited;
            not_spinning = h.not_spinning;
          })
  ]

  pub idb_delete-Inv : (i : String) (s : Store) → Inv uuid s → Inv uuid (idb_delete i s)
  unfolding idb_delete
  idb_delete-Inv i s h = record {
    named = ground (arith, h.named);
    saved_named = ground (arith, h.saved_named);
    serial = ground (arith, h.serial);
    awaited = ground (arith, h.awaited);
    not_spinning = ground (arith, h.not_spinning);
  }

  pub update_job-Inv :
      (i : String) (p : Patch) (s : Store) → IsCalm p → Inv uuid s → Inv uuid (update_job i p s)
  unfolding update_job
  update_job-Inv i p s c h = persist-emit-Inv _ (record {
    named = map_job-IsNamed uuid s.drawn i (apply_patch p) s.jobs (apply_patch-KeepsId p) h.named;
    saved_named = h.saved_named;
    serial = h.serial;
    awaited = patched-Awaited s.batch i p s.jobs c h.awaited;
    not_spinning = h.not_spinning;
  })

  -- Between two uploads.
  pub record Ready (s : Store) : Type 0 where
    pub named : IsNamed uuid s.drawn s.jobs
    pub saved_named : IsNamedItem uuid s.drawn s.saved
    pub quiet : s.active_uploads ≡ []
    pub calm : NoneUploading s.jobs

  pub launch-Inv : (j : UploadJob) (f : File) (s : Store) → Ready s → Inv uuid (launch j f s)
  unfolding launch update_job persist emit insert
  launch-Inv j f s h =
      let p = record no_patch { status = some uploading; error = some none } in
      let n =
        map_job-IsNamed uuid s.drawn j.id (apply_patch p) s.jobs (apply_patch-KeepsId p) h.named in
      elim (Bool-cases s.writable) [
        | inl w ↦
            rw (w, persist)
              (record {
                named = n;
                saved_named = n;
                serial = inr (upload_of j f, rw h.quiet);
                awaited = launched-Awaited j.id p s.jobs h.calm;
                not_spinning = λ e. cc;
              })
        | inr w ↦
            rw (w, persist)
              (record {
                named = n;
                saved_named = h.saved_named;
                serial = inr (upload_of j f, rw h.quiet);
                awaited = launched-Awaited j.id p s.jobs h.calm;
                not_spinning = λ e. cc;
              })
      ]

  -- The job that the loop of `startAll` picks is one that `startJob` does not turn away.
  pub start_job_of_pending :
      (s : Store) (j : UploadJob)
      → IsNamed uuid s.drawn s.jobs
      → find (λ k. is_pending k.status) s.jobs ≡ some j
      → start_job j.id s
        ≡ elim (lookup j.id s.files) [ none ↦ needs_blob j | some f ↦ has_file j f ]
  unfolding start_job
  start_job_of_pending s j h e =
      rw (find_by_id (λ k. is_pending k.status) s.jobs j h.distinct e, start_job)
        (ground (arith, find_sound (λ k. is_pending k.status) s.jobs j e))
