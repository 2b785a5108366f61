-- ===== src/UploadStore/Run/Additions.antt =====
-- web/lib/upload-store.ts: the invariant of the queue under `addFiles`.
use vidsilo.Base.{
  ℕ, ◌≡◌, refl, inl, inr, true, List, [], ◌∷◌, String, arith, Bool-cases, All-append, insert,
}
use vidsilo.UploadStore.Job.{UploadJob, File, is_uploading}
use vidsilo.UploadStore.State.{Store, Batch, transferring, idb_put}
use vidsilo.UploadStore.{
  AddFilesResult, requeue, resume, new_job, enqueue, add_file, add_each, map_job, add_files,
}
use vidsilo.UploadStore.Ids.{requeue-KeepsId}
use vidsilo.UploadStore.Named.{
  NeverRepeats, IsNamed, map_job-IsNamed, append_one-IsNamed, suc-IsNamedItem,
}
use vidsilo.UploadStore.AddFiles.{add_file_cases}
use vidsilo.UploadStore.Run.Invariant.{Awaited, Inv}
use vidsilo.UploadStore.Run.Preserved.{persist-emit-Inv}

requeue-Awaited :
    (b : Batch) (i : String) (js : List UploadJob) → Awaited b js → Awaited b (map_job i requeue js)
unfolding requeue
requeue-Awaited b i [] h = tt
requeue-Awaited b i (j ∷ js) (h, hs) = (ground (arith, h), requeue-Awaited b i js hs)

module _ (uuid : ℕ → String) where
  idb_put-Inv : (i : String) (f : File) (s : Store) → Inv uuid s → Inv uuid (idb_put i f s)
  unfolding idb_put
  idb_put-Inv i f s h = record {
    named = ground (arith, h.named);
    saved_named = ground (arith, h.saved_named);
    serial = ground (arith, h.serial);
    awaited = ground (arith, h.awaited);
    not_spinning = ground (arith, h.not_spinning);
  }

  -- A new list of jobs, in which nothing else is uploading.
  jobs-Inv :
      (s : Store) (js : List UploadJob)
      → IsNamed uuid s.drawn js
      → Awaited s.batch js
      → Inv uuid s
      → Inv uuid (record s { jobs = js })
  jobs-Inv s js n a h = record {
    named = n;
    saved_named = h.saved_named;
    serial = h.serial;
    awaited = a;
    not_spinning = h.not_spinning;
  }

  resume-Inv :
      (j : UploadJob) (f : File) (s : Store) (r : AddFilesResult)
      → Inv uuid s
      → Inv uuid (resume j f (s, r)).0
  unfolding resume
  resume-Inv j f s r h =
      let t = record s { files = insert j.id f s.files } in
      let t-Inv : Inv uuid t = record {
        named = h.named;
        saved_named = h.saved_named;
        serial = h.serial;
        awaited = h.awaited;
        not_spinning = h.not_spinning;
      } in
      let p = idb_put-Inv j.id f t t-Inv in
      persist-emit-Inv uuid _ (
        jobs-Inv (idb_put j.id f t) _
          (map_job-IsNamed uuid _ j.id requeue _ requeue-KeepsId p.named)
          (requeue-Awaited _ j.id _ p.awaited) p)

  enqueue-Inv :
      NeverRepeats uuid
      → (f : File) (s : Store) (r : AddFilesResult) → Inv uuid s
      → Inv uuid (enqueue uuid f (s, r)).0
  unfolding enqueue idb_put new_job
  enqueue-Inv fresh f s r h =
      let j = new_job uuid f s.drawn in
      let n = append_one-IsNamed uuid fresh s.drawn s.jobs j refl h.named in
      let m = suc-IsNamedItem uuid s.drawn s.saved h.saved_named in
      let a =
        All-append (λ k. is_uploading k.status ≡ true → s.batch ≡ transferring k.id) s.jobs (j ∷ [])
          h.awaited (λ u. cc, tt) in
      elim (Bool-cases s.has_idb) [
        | inl e ↦
            rw (e, idb_put)
              (record {
                named = n;
                saved_named = m;
                serial = h.serial;
                awaited = a;
                not_spinning = h.not_spinning;
              })
        | inr e ↦
            rw (e, idb_put)
              (record {
                named = n;
                saved_named = m;
                serial = h.serial;
                awaited = a;
                not_spinning = h.not_spinning;
              })
      ]

  add_each-Inv :
      NeverRepeats uuid
      → (slots : ℕ) (fs : List File) (s : Store) (r : AddFilesResult) → Inv uuid s
      → Inv uuid (add_each uuid slots fs (s, r)).0
  unfolding add_each
  add_each-Inv fresh slots [] s r h = h
  add_each-Inv fresh slots (f ∷ fs) s r h =
      let (t, q) = add_file uuid slots f (s, r) in add_each-Inv fresh slots fs t q one
    where
      one : Inv uuid (add_file uuid slots f (s, r)).0
      one =
          add_file_cases uuid (λ sr. Inv uuid sr.0) slots f s r (λ j e. resume-Inv j f s r h)
            (λ _. h) (λ _. h) (λ _ _. enqueue-Inv fresh f s r h)

  pub add_files-Inv :
      NeverRepeats uuid
      → (fs : List File) (s : Store) → Inv uuid s
      → Inv uuid (add_files uuid fs s).0
  unfolding add_files
  add_files-Inv fresh fs s h = persist-emit-Inv uuid _ (add_each-Inv fresh _ fs s _ h)
