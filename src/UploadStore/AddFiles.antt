-- ===== src/UploadStore/AddFiles.antt =====
-- web/lib/upload-store.ts: what `addFiles` does to the list of jobs.
pub mod Cap
pub mod Twins
pub mod Order
use vidsilo.Base.{
  ℕ, suc, ◌+◌, ◌-◌, ◌≤◌, ◌<◌, ◌≡◌, refl, inl, inr, Bool, true, false, not, Option, none, some, List,
  [], ◌∷◌, ◌++◌, map, max, String, arith, eq_iff, if◌then◌else◌, ◌==◌, Bool-cases, Option-cases,
  length, All, any, count, find, leb, count-append, find_sound,
}
use vidsilo.UploadStore.Job.{UploadJob, File, is_active, is_interrupted}
use vidsilo.UploadStore.State.{Store, persist, emit, idb_put}
use vidsilo.UploadStore.{
  AddFilesResult, max_batch, is_resumable, is_duplicate, active_count, free_slots, map_job, requeue,
  resume, new_job, enqueue, add_file, add_each, add_files,
}
use vidsilo.UploadStore.Ids.{requeue-KeepsId, find-All_same_id}
use vidsilo.UploadStore.Named.{NeverRepeats, IsNamed, map_job-IsNamed, append_one-IsNamed}

abbrev pub total : AddFilesResult → ℕ
total r = r.added + r.duplicates + r.over_limit

-- `resume` and `enqueue` on the fields that the theorems speak of.
pub resume_fields :
    (j : UploadJob) (f : File) (s : Store) (r : AddFilesResult)
    → let s' = (resume j f (s, r)).0 in
      (s'.jobs ≡ map_job j.id requeue s.jobs) × (s'.drawn ≡ s.drawn)
unfolding resume persist emit idb_put
resume_fields j f s r = ground arith

module _ (uuid : ℕ → String) where
  pub enqueue_fields :
      (f : File) (s : Store) (r : AddFilesResult)
      → let s' = (enqueue uuid f (s, r)).0 in
        (s'.jobs ≡ s.jobs ++ new_job uuid f s.drawn ∷ []) × (s'.drawn ≡ suc s.drawn)
  unfolding enqueue idb_put
  enqueue_fields f s r = ground arith

  -- To prove a property of one round of the loop, prove it of each branch.
  pub add_file_cases {ℓ} :
      (P : Store × AddFilesResult → Type ℓ) (slots : ℕ) (f : File) (s : Store) (r : AddFilesResult)
      → ((j : UploadJob) → find (is_resumable f) s.jobs ≡ some j → P (resume j f (s, r)))
      → (any (is_duplicate f) s.jobs ≡ true → P (s, record r { duplicates = r.duplicates + 1 }))
      → (slots ≤ r.added → P (s, record r { over_limit = r.over_limit + 1 }))
      → (any (is_duplicate f) s.jobs ≡ false → r.added < slots → P (enqueue uuid f (s, r)))
      → P (add_file uuid slots f (s, r))
  unfolding add_file
  add_file_cases P slots f s r resumed doubled full fresh =
      elim (Option-cases (find (is_resumable f) s.jobs)) [
        | inr (j, e) ↦ rw (e, add_file) (resumed j e)
        | inl e ↦ elim (Bool-cases (any (is_duplicate f) s.jobs)) [
          | inl d ↦ rw (e, add_file, d) (doubled d)
          | inr d ↦ elim (Bool-cases (leb slots r.added)) [
            | inl l ↦ rw (e, add_file, d, l) (full (ground arith))
            | inr l ↦ rw (e, add_file, d, l) (fresh d (ground arith))
          ]
        ]
      ]

  total-add_file :
      (slots : ℕ) (f : File) (s : Store) (r : AddFilesResult)
      → total (add_file uuid slots f (s, r)).1 ≡ total r + 1
  unfolding resume enqueue
  total-add_file slots f s r =
      add_file_cases (λ sr. total sr.1 ≡ total r + 1) slots f s r (λ _ _. omega arith)
        (λ _. omega arith) (λ _. omega arith) (λ _ _. omega arith)

  total-add_each :
      (slots : ℕ) (fs : List File) (s : Store) (r : AddFilesResult)
      → total (add_each uuid slots fs (s, r)).1 ≡ total r + length fs
  unfolding add_each
  total-add_each slots [] s r = omega arith
  total-add_each slots (f ∷ fs) s r =
      let (s', r') = add_file uuid slots f (s, r) in
      omega (arith, total-add_each slots fs s' r', total-add_file slots f s r)

  -- `addFiles` reports every file exactly once: as added, as a duplicate, or as over the limit.
  pub total-add_files : (fs : List File) (s : Store) → total (add_files uuid fs s).1 ≡ length fs
  unfolding add_files
  total-add_files fs s =
      let none_yet : AddFilesResult = record { added = 0; duplicates = 0; over_limit = 0 } in
      omega (arith, total-add_each (free_slots s.jobs) fs s none_yet)
