-- ===== src/UploadStore/AddFiles/Cap.antt =====
-- web/lib/upload-store.ts: the number of files that `addFiles` accepts.
use vidsilo.Base.{
  ℕ, ◌+◌, ◌-◌, ◌≤◌, ◌<◌, ◌≡◌, refl, true, List, [], ◌∷◌, max, String, arith, eq_iff, All, any, find,
  some, count-append, find_sound,
}
use vidsilo.UploadStore.Job.{UploadJob, File, is_active}
use vidsilo.UploadStore.State.{Store, persist, emit}
use vidsilo.UploadStore.{
  AddFilesResult, max_batch, is_resumable, is_duplicate, active_count, map_job, requeue, resume,
  new_job, enqueue, add_file, add_each, add_files,
}
use vidsilo.UploadStore.Ids.{requeue-KeepsId, find-All_same_id}
use vidsilo.UploadStore.Named.{NeverRepeats, IsNamed, map_job-IsNamed, append_one-IsNamed}
use vidsilo.UploadStore.AddFiles.{resume_fields, enqueue_fields, add_file_cases}

-- The jobs with a given id are active.
abbrev pub ActiveAt : String → List UploadJob → Type 0
ActiveAt i js = All (λ k. k.id ≡ i → is_active k.status ≡ true) js

pub active_count-requeue :
    (i : String) (js : List UploadJob)
    → ActiveAt i js
    → active_count (map_job i requeue js) ≡ active_count js
unfolding requeue
active_count-requeue i [] h = refl
active_count-requeue i (k ∷ js) (h, hs) =
    ground (arith, active_count-requeue i js hs, eq_iff k.id i, h)

pub any_duplicate-requeue :
    (f : File) (i : String) (js : List UploadJob)
    → ActiveAt i js
    → any (is_duplicate f) (map_job i requeue js) ≡ any (is_duplicate f) js
unfolding requeue
any_duplicate-requeue f i [] h = refl
any_duplicate-requeue f i (k ∷ js) (h, hs) =
    ground (arith, any_duplicate-requeue f i js hs, eq_iff k.id i, h)

is_resumable_active :
    (f : File) (j : UploadJob) → is_resumable f j ≡ true → is_active j.status ≡ true
is_resumable_active f j h = ground arith

module _ (uuid : ℕ → String) (fresh : NeverRepeats uuid) where
  pub resumed-ActiveAt :
      (f : File) (n : ℕ) (js : List UploadJob) (j : UploadJob)
      → IsNamed uuid n js
      → find (is_resumable f) js ≡ some j
      → ActiveAt j.id js
  resumed-ActiveAt f n js j h e =
      find-All_same_id (λ k. is_active k.status ≡ true) (is_resumable f) js j h.distinct e
        (is_resumable_active f j (find_sound (is_resumable f) js j e))

  -- The invariant of the loop: `start` jobs were active before it.
  record Capped (start : ℕ) (sr : Store × AddFilesResult) : Type 0 where
    named : IsNamed uuid sr.0.drawn sr.0.jobs
    grown : active_count sr.0.jobs ≤ start + sr.1.added
    capped : active_count sr.0.jobs ≤ max max_batch start

  resume-Capped :
      (start : ℕ) (j : UploadJob) (f : File) (s : Store) (r : AddFilesResult)
      → find (is_resumable f) s.jobs ≡ some j
      → Capped start (s, r)
      → Capped start (resume j f (s, r))
  unfolding resume
  resume-Capped start j f s r e h =
      let (jobs_eq, drawn_eq) = resume_fields j f s r in
      let same = active_count-requeue j.id s.jobs (resumed-ActiveAt f _ s.jobs j h.named e) in
      record {
        named =
            rw (jobs_eq, drawn_eq)
              (map_job-IsNamed uuid s.drawn j.id requeue s.jobs requeue-KeepsId h.named);
        grown = rw (jobs_eq, same) (omega (arith, h.grown));
        capped = rw (jobs_eq, same) h.capped;
      }

  enqueue-Capped :
      (start : ℕ) (f : File) (s : Store) (r : AddFilesResult)
      → r.added < max_batch - start
      → Capped start (s, r)
      → Capped start (enqueue uuid f (s, r))
  unfolding enqueue new_job
  enqueue-Capped start f s r lt h =
      let (jobs_eq, drawn_eq) = enqueue_fields uuid f s r in
      let more = count-append (λ k. is_active k.status) s.jobs (new_job uuid f s.drawn ∷ []) in
      record {
        named =
            rw (jobs_eq, drawn_eq)
              (append_one-IsNamed uuid fresh s.drawn s.jobs (new_job uuid f s.drawn) refl h.named);
        grown = rw (jobs_eq, more) (omega (arith, h.grown));
        capped = rw (jobs_eq, more) (omega (arith, h.grown, lt));
      }

  add_each-Capped :
      (start : ℕ) (fs : List File) (s : Store) (r : AddFilesResult)
      → Capped start (s, r)
      → Capped start (add_each uuid (max_batch - start) fs (s, r))
  unfolding add_each
  add_each-Capped start [] s r h = h
  add_each-Capped start (f ∷ fs) s r h = add_each-Capped start fs _ _ one
    where
      one : Capped start (add_file uuid (max_batch - start) f (s, r))
      one =
          add_file_cases uuid (Capped start) (max_batch - start) f s r
            (λ j e. resume-Capped start j f s r e h)
            (λ _. record { named = h.named; grown = h.grown; capped = h.capped })
            (λ _. record { named = h.named; grown = h.grown; capped = h.capped })
            (λ _ lt. enqueue-Capped start f s r lt h)

  -- A batch of new files never takes the number of active jobs (neither done nor failed) past
  -- `MAX_BATCH`, or past what it was where that is more; ids are distinct and never repeat.
  pub active_count-add_files-le :
      (fs : List File) (s : Store)
      → IsNamed uuid s.drawn s.jobs
      → active_count (add_files uuid fs s).0.jobs ≤ max max_batch (active_count s.jobs)
  unfolding add_files persist emit
  active_count-add_files-le fs s h =
      let start = active_count s.jobs in
      let zero_result : AddFilesResult = record { added = 0; duplicates = 0; over_limit = 0 } in
      let c =
        add_each-Capped start fs s zero_result
          (record { named = h; grown = omega arith; capped = omega arith }) in
      ground (arith, c.capped)

  pub add_files-IsNamed :
      (fs : List File) (s : Store)
      → IsNamed uuid s.drawn s.jobs
      → IsNamed uuid (add_files uuid fs s).0.drawn (add_files uuid fs s).0.jobs
  unfolding add_files persist emit
  add_files-IsNamed fs s h =
      let start = active_count s.jobs in
      let zero_result : AddFilesResult = record { added = 0; duplicates = 0; over_limit = 0 } in
      let c =
        add_each-Capped start fs s zero_result
          (record { named = h; grown = omega arith; capped = omega arith }) in
      ground (arith, c.named)
