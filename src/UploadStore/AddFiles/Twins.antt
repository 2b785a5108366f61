-- ===== src/UploadStore/AddFiles/Twins.antt =====
-- web/lib/upload-store.ts: files that `addFiles` is given more than once.
use vidsilo.Base.{
  ℕ, ◌≡◌, refl, true, false, List, [], ◌∷◌, ◌++◌, String, arith, eq_iff, any, find, some,
  any-append,
}
use vidsilo.UploadStore.Job.{UploadJob, File, is_active}
use vidsilo.UploadStore.State.{Store, persist, emit}
use vidsilo.UploadStore.{
  AddFilesResult, is_resumable, is_duplicate, free_slots, map_job, requeue, resume, new_job,
  enqueue, add_file, add_each, add_files,
}
use vidsilo.UploadStore.Ids.{requeue-KeepsId}
use vidsilo.UploadStore.Named.{NeverRepeats, IsNamed, map_job-IsNamed, append_one-IsNamed}
use vidsilo.UploadStore.AddFiles.{resume_fields, enqueue_fields, add_file_cases}
use vidsilo.UploadStore.AddFiles.Cap.{ActiveAt, any_duplicate-requeue, resumed-ActiveAt}

abbrev pub file_of : UploadJob → File
file_of j = record { name = j.file_name; size = j.file_size }

-- No two active jobs have the same file name and size.
abbrev pub HasNoTwins : List UploadJob → Type 0
HasNoTwins [] = Unit
HasNoTwins (j ∷ js) =
    (is_active j.status ≡ true → any (is_duplicate (file_of j)) js ≡ false) × HasNoTwins js

requeue-HasNoTwins :
    (i : String) (js : List UploadJob)
    → ActiveAt i js
    → HasNoTwins js
    → HasNoTwins (map_job i requeue js)
unfolding requeue
requeue-HasNoTwins i [] a h = tt
requeue-HasNoTwins i (k ∷ js) (a, as') (n, h) = (
  ground (arith, eq_iff k.id i, a, n, any_duplicate-requeue (file_of k) i js as'),
  requeue-HasNoTwins i js as' h,
)

append_one-HasNoTwins :
    (js : List UploadJob) (j : UploadJob)
    → any (is_duplicate (file_of j)) js ≡ false
    → HasNoTwins js
    → HasNoTwins (js ++ j ∷ [])
append_one-HasNoTwins [] j d h = ground arith
append_one-HasNoTwins (k ∷ js) j d (n, h) = (
  λ a.
      rw (any-append (is_duplicate (file_of k)) js (j ∷ []), n a)
        (ground (arith, a, eq_iff k.file_name j.file_name, eq_iff j.file_name k.file_name)),
  append_one-HasNoTwins js j (ground arith) h,
)

module _ (uuid : ℕ → String) (fresh : NeverRepeats uuid) where
  record Single (sr : Store × AddFilesResult) : Type 0 where
    named : IsNamed uuid sr.0.drawn sr.0.jobs
    single : HasNoTwins sr.0.jobs

  resume-Single :
      (j : UploadJob) (f : File) (s : Store) (r : AddFilesResult)
      → find (is_resumable f) s.jobs ≡ some j
      → Single (s, r)
      → Single (resume j f (s, r))
  resume-Single j f s r e h =
      let (jobs_eq, drawn_eq) = resume_fields j f s r in
      let a = resumed-ActiveAt uuid fresh f s.drawn s.jobs j h.named e in
      record {
        named =
            rw (jobs_eq, drawn_eq)
              (map_job-IsNamed uuid s.drawn j.id requeue s.jobs requeue-KeepsId h.named);
        single = rw jobs_eq (requeue-HasNoTwins j.id s.jobs a h.single);
      }

  enqueue-Single :
      (f : File) (s : Store) (r : AddFilesResult)
      → any (is_duplicate f) s.jobs ≡ false
      → Single (s, r)
      → Single (enqueue uuid f (s, r))
  unfolding new_job
  enqueue-Single f s r d h =
      let (jobs_eq, drawn_eq) = enqueue_fields uuid f s r in
      let j = new_job uuid f s.drawn in
      record {
        named =
            rw (jobs_eq, drawn_eq) (append_one-IsNamed uuid fresh s.drawn s.jobs j refl h.named);
        single = rw jobs_eq (append_one-HasNoTwins s.jobs j d h.single);
      }

  add_each-Single :
      (slots : ℕ) (fs : List File) (s : Store) (r : AddFilesResult)
      → Single (s, r)
      → Single (add_each uuid slots fs (s, r))
  unfolding add_each
  add_each-Single slots [] s r h = h
  add_each-Single slots (f ∷ fs) s r h = add_each-Single slots fs _ _ one
    where
      one : Single (add_file uuid slots f (s, r))
      one =
          add_file_cases uuid Single slots f s r (λ j e. resume-Single j f s r e h)
            (λ _. record { named = h.named; single = h.single })
            (λ _. record { named = h.named; single = h.single }) (λ d _. enqueue-Single f s r d h)

  -- If no two active jobs are for the same file name and size, then `addFiles` keeps it so, also
  -- where the new files repeat one another; ids are distinct and never repeat.
  pub add_files-HasNoTwins :
      (fs : List File) (s : Store)
      → IsNamed uuid s.drawn s.jobs
      → HasNoTwins s.jobs
      → HasNoTwins (add_files uuid fs s).0.jobs
  unfolding add_files persist emit
  add_files-HasNoTwins fs s h n =
      let zero_result : AddFilesResult = record { added = 0; duplicates = 0; over_limit = 0 } in
      let c =
        add_each-Single (free_slots s.jobs) fs s zero_result (record { named = h; single = n }) in
      ground (arith, c.single)
