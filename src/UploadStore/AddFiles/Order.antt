-- ===== src/UploadStore/AddFiles/Order.antt =====
-- web/lib/upload-store.ts: resumed files and the order of the files in `addFiles`.
use vidsilo.Base.{
  ℕ, suc, ◌+◌, ◌≤◌, ◌≡◌, refl, ap, ◌∙◌, Bool, false, none, some, List, [], ◌∷◌, ◌++◌, String, arith,
  any, find,
}
use vidsilo.UploadStore.Job.{UploadJob, File}
use vidsilo.UploadStore.State.{Store, persist, emit}
use vidsilo.UploadStore.{
  AddFilesResult, is_resumable, is_duplicate, active_count, free_slots, map_job, requeue, resume,
  new_job, enqueue, add_file, add_each, add_files,
}
use vidsilo.UploadStore.Named.{NeverRepeats, IsNamed}
use vidsilo.UploadStore.AddFiles.{resume_fields, enqueue_fields}
use vidsilo.UploadStore.AddFiles.Cap.{any_duplicate-requeue, active_count-requeue, resumed-ActiveAt}

find_resumable-requeue :
    (g : File) (i : String) (js : List UploadJob)
    → find (is_resumable g) js ≡ none
    → find (is_resumable g) (map_job i requeue js) ≡ none
unfolding requeue
find_resumable-requeue g i [] h = refl
find_resumable-requeue g i (k ∷ js) h = ground (arith, find_resumable-requeue g i js)

find-append_found {ℓ} :
    {A : Type ℓ} (p : A → Bool) (xs ys : List A) (x : A)
    → find p xs ≡ some x
    → find p (xs ++ ys) ≡ some x
find-append_found p [] ys x h = cc
find-append_found p (y ∷ xs) ys x h = ground (arith, find-append_found p xs ys x)

module _ (uuid : ℕ → String) where
  resuming :
      (slots : ℕ) (f : File) (s : Store) (r : AddFilesResult) (j : UploadJob)
      → find (is_resumable f) s.jobs ≡ some j
      → add_file uuid slots f (s, r) ≡ resume j f (s, r)
  unfolding add_file
  resuming slots f s r j e = rw (e, add_file) refl

  refusing :
      (slots : ℕ) (g : File) (s : Store) (r : AddFilesResult)
      → find (is_resumable g) s.jobs ≡ none
      → any (is_duplicate g) s.jobs ≡ false
      → slots ≤ r.added
      → add_file uuid slots g (s, r) ≡ (s, record r { over_limit = r.over_limit + 1 })
  unfolding add_file
  refusing slots g s r e d l = rw (e, add_file, d) (ground arith)

  accepting :
      (slots : ℕ) (g : File) (s : Store) (r : AddFilesResult)
      → find (is_resumable g) s.jobs ≡ none
      → any (is_duplicate g) s.jobs ≡ false
      → suc r.added ≤ slots
      → add_file uuid slots g (s, r) ≡ enqueue uuid g (s, r)
  unfolding add_file
  accepting slots g s r e d l = rw (e, add_file, d) (ground arith)

  abbrev zero_result : AddFilesResult
  zero_result = record { added = 0; duplicates = 0; over_limit = 0 }

  resume_first :
      NeverRepeats uuid
      → (f g : File) (s : Store) (j : UploadJob) → IsNamed uuid s.drawn s.jobs
      → find (is_resumable f) s.jobs ≡ some j
      → find (is_resumable g) s.jobs ≡ none
      → any (is_duplicate g) s.jobs ≡ false
      → add_each uuid 1 (f ∷ g ∷ []) (s, zero_result)
        ≡ ((resume j f (s, zero_result)).0, record { added = 1; duplicates = 0; over_limit = 1 })
  unfolding add_each resume
  resume_first fresh f g s j h e n d =
      let s1 = (resume j f (s, zero_result)).0 in
      let jobs1 = (resume_fields j f s zero_result).0 in
      let a = resumed-ActiveAt uuid fresh f s.drawn s.jobs j h e in
      let r1 : AddFilesResult = record { added = 1; duplicates = 0; over_limit = 0 } in
      ap (add_file uuid 1 g) (resuming 1 f s zero_result j e)
      ∙ refusing 1 g s1 r1 (rw jobs1 (find_resumable-requeue g j.id s.jobs n))
          (rw jobs1 (any_duplicate-requeue g j.id s.jobs a ∙ d)) (omega arith)

  resume_second :
      (f g : File) (s : Store) (j : UploadJob)
      → find (is_resumable f) s.jobs ≡ some j
      → find (is_resumable g) s.jobs ≡ none
      → any (is_duplicate g) s.jobs ≡ false
      → (add_each uuid 1 (g ∷ f ∷ []) (s, zero_result)).1
        ≡ record { added = 2; duplicates = 0; over_limit = 0 }
  unfolding add_each resume enqueue
  resume_second f g s j e n d =
      let s1 = (enqueue uuid g (s, zero_result)).0 in
      let jobs1 = (enqueue_fields uuid g s zero_result).0 in
      let r1 : AddFilesResult = record { added = 1; duplicates = 0; over_limit = 0 } in
      ap (λ sr. (add_file uuid 1 f sr).1) (accepting 1 g s zero_result n d (omega arith))
      ∙ ap (λ sr. sr.1)
          (resuming 1 f s1 r1 j (
            rw jobs1 (find-append_found (is_resumable f) s.jobs (new_job uuid g s.drawn ∷ []) j e)))

  -- With nine active jobs, one of them resumable by `f`, and a new file `g`: given in the order f, g
  -- the new file is refused as over the limit with nine jobs active; in the order g, f both are
  -- accepted. Ids are distinct.
  resume_takes_slot :
      NeverRepeats uuid
      → (f g : File) (s : Store) (j : UploadJob) → IsNamed uuid s.drawn s.jobs
      → find (is_resumable f) s.jobs ≡ some j
      → find (is_resumable g) s.jobs ≡ none
      → any (is_duplicate g) s.jobs ≡ false
      → active_count s.jobs ≡ 9
      → ((add_files uuid (f ∷ g ∷ []) s).1 ≡ record { added = 1; duplicates = 0; over_limit = 1 })
        × (active_count (add_files uuid (f ∷ g ∷ []) s).0.jobs ≡ 9)
        × ((add_files uuid (g ∷ f ∷ []) s).1 ≡ record { added = 2; duplicates = 0; over_limit = 0 })
  unfolding add_files persist emit
  resume_takes_slot fresh f g s j h e n d c =
      let one_slot : free_slots s.jobs ≡ 1 = omega arith in
      let a = resumed-ActiveAt uuid fresh f s.drawn s.jobs j h e in
      let jobs1 = (resume_fields j f s zero_result).0 in
      let first =
        ap (λ k. add_each uuid k (f ∷ g ∷ []) (s, zero_result)) one_slot
        ∙ resume_first fresh f g s j h e n d in
      (
        ap (λ sr. sr.1) first,
        ground (
          arith,
          ap (λ sr. active_count sr.0.jobs) first,
          ap active_count jobs1,
          active_count-requeue j.id s.jobs a,
        ),
        ap (λ k. (add_each uuid k (g ∷ f ∷ []) (s, zero_result)).1) one_slot
            ∙ resume_second f g s j e n d,
      )
