-- ===== src/UploadStore/Run/Draining.antt =====
-- web/lib/upload-store.ts: the number of waiting jobs over a round of `startAll`.
use vidsilo.Base.{
  ℕ, ◌+◌, ◌≡◌, refl, sym, ◌∙◌, subst, ◌⊎◌, inl, inr, true, none, some, String, arith, eq_refl,
  Option-cases, All-find, find, is_some, lookup, insert, find_sound, any-false-count,
  find-eq-none_iff_any,
}
use vidsilo.UploadStore.Job.{UploadJob, File, Patch, no_patch, uploading, is_pending, apply_patch}
use vidsilo.UploadStore.State.{
  Store, Upload, idle, transferring, persist, emit, mark_uploads_completed,
}
use vidsilo.UploadStore.{map_job, update_job, upload_of}
use vidsilo.UploadStore.Named.{IsNamed}
use vidsilo.UploadStore.Run.{launch, run_started, next_round, resolve_finished}
use vidsilo.UploadStore.Run.Counting.{
  pending_count, HasFiles, Unqueues, NotPendingAt, pending_count-unqueue, pending_count-settle,
  unqueue-NotPendingAt, unqueue-HasFiles,
}
use vidsilo.UploadStore.Run.Invariant.{Inv}
use vidsilo.UploadStore.Run.Preserved.{Ready, update_job_fields, start_job_of_pending}
use vidsilo.UploadStore.Run.Rounds.{next_round-Inv}
use vidsilo.UploadStore.Run.Ending.{Ending, Settles, settle-Ready}

abbrev launch_patch : Patch
launch_patch = record no_patch { status = some uploading; error = some none }

launch_patch-Unqueues : Unqueues launch_patch
unfolding apply_patch
launch_patch-Unqueues j = refl

launch_fields :
    (j : UploadJob) (f : File) (s : Store)
    → let t = launch j f s in
      (t.jobs ≡ map_job j.id (apply_patch launch_patch) s.jobs)
      × (t.files ≡ s.files)
      × (t.batch ≡ transferring j.id)
      × (t.active_uploads ≡ insert j.id (upload_of j f) s.active_uploads)
unfolding launch update_job persist emit
launch_fields j f s = ground arith

mark_uploads_completed_fields :
    (now : ℕ) (s : Store)
    → let t = mark_uploads_completed now s in (t.jobs ≡ s.jobs) × (t.files ≡ s.files)
unfolding mark_uploads_completed
mark_uploads_completed_fields now s = ground arith

update_job_files : (i : String) (p : Patch) (s : Store) → (update_job i p s).files ≡ s.files
unfolding update_job persist emit
update_job_files i p s = ground arith

next_round_over :
    (now : ℕ) (s : Store)
    → find (λ k. is_pending k.status) s.jobs ≡ none
    → let t = next_round now s in (t.batch ≡ idle) × (t.jobs ≡ s.jobs) × (t.files ≡ s.files)
unfolding next_round mark_uploads_completed
next_round_over now s e = ground (arith, e)

module _ (uuid : ℕ → String) where
  -- How many more uploads have to end before the batch does.
  abbrev pub Left : ℕ → Store → Type 0
  Left k s =
      ((s.batch ≡ idle) × (k ≡ 0) × (pending_count s.jobs ≡ 0))
      ⊎ ((i : String) × (u : Upload) × (s.batch ≡ transferring i)
          × (lookup i s.active_uploads ≡ some u)
          × (pending_count s.jobs + 1 ≡ k)
          × NotPendingAt i s.jobs)

  pub record Draining (k : ℕ) (s : Store) : Type 0 where
    pub inv : Inv uuid s
    pub files : HasFiles s.files s.jobs
    pub left : Left k s

  next_round-launch :
      (now : ℕ) (s : Store) (j : UploadJob) (f : File)
      → IsNamed uuid s.drawn s.jobs
      → find (λ k. is_pending k.status) s.jobs ≡ some j
      → lookup j.id s.files ≡ some f
      → next_round now s ≡ launch j f s
  unfolding next_round run_started
  next_round-launch now s j f h e m = rw (e, next_round, start_job_of_pending uuid s j h e, m) refl

  launch-Draining :
      (now : ℕ) (j : UploadJob) (f : File) (s : Store)
      → find (λ k. is_pending k.status) s.jobs ≡ some j
      → Ready uuid s
      → HasFiles s.files s.jobs
      → Inv uuid (launch j f s)
      → Draining (pending_count s.jobs) (launch j f s)
  unfolding lookup insert
  launch-Draining now j f s e h fs v =
      let (jobs_eq, files_eq, batch_eq, active_eq) = launch_fields j f s in
      record {
        inv = v;
        files =
            rw (jobs_eq, files_eq)
              (unqueue-HasFiles launch_patch j.id s.files s.jobs launch_patch-Unqueues fs);
        left = inr (
          j.id,
          upload_of j f,
          batch_eq,
          rw (active_eq, h.quiet) (rw (eq_refl j.id)),
          rw jobs_eq (
              pending_count-unqueue launch_patch s.jobs j launch_patch-Unqueues h.named.distinct e),
          rw jobs_eq (unqueue-NotPendingAt launch_patch j.id s.jobs launch_patch-Unqueues),
        );
      }

  pub next_round-Draining :
      (now : ℕ) (s : Store)
      → Ready uuid s
      → HasFiles s.files s.jobs
      → Draining (pending_count s.jobs) (next_round now s)
  unfolding next_round run_started
  next_round-Draining now s h fs = elim (Option-cases (find (λ k. is_pending k.status) s.jobs)) [
    | inl e ↦
        let (batch_eq, jobs_eq, files_eq) = next_round_over now s e in
        let zero_left =
          any-false-count (λ k. is_pending k.status) s.jobs
            (find-eq-none_iff_any (λ k. is_pending k.status) s.jobs e) in
        record {
          inv = next_round-Inv uuid now s h;
          files = rw (jobs_eq, files_eq) fs;
          left = inl (batch_eq, zero_left, rw jobs_eq zero_left);
        }
    | inr (j, e) ↦
        let pending = find_sound (λ k. is_pending k.status) s.jobs j e in
        let at_hand =
          All-find (λ k. is_pending k.status ≡ true → is_some (lookup k.id s.files) ≡ true)
            (λ k. is_pending k.status) s.jobs fs e pending in
        elim (Option-cases (lookup j.id s.files)) [
          | inl m ↦ absurd (ground (arith, m, at_hand))
          | inr (f, m) ↦
              let same = next_round-launch now s j f h.named e m in
              subst (Draining (pending_count s.jobs)) (sym same) (
                launch-Draining now j f s e h fs
                  (subst (Inv uuid) same (next_round-Inv uuid now s h)))
        ]
  ]

  -- The end of an upload, once it has left the map of those in flight.
  pub resolved-Draining :
      (now : ℕ) (i : String) (p : Patch) (s : Store)
      → Settles p
      → Unqueues p
      → NotPendingAt i s.jobs
      → HasFiles s.files s.jobs
      → Ending uuid i s
      → Draining (pending_count s.jobs) (resolve_finished now i (update_job i p s))
  unfolding resolve_finished
  resolved-Draining now i p s c u n fs h =
      let t = update_job i p s in
      let (jobs_eq, drawn_eq, batch_eq, active_eq) = update_job_fields i p s in
      let count_eq : pending_count t.jobs ≡ pending_count s.jobs =
        rw jobs_eq (pending_count-settle p i s.jobs u n) in
      let fs' : HasFiles t.files t.jobs =
        rw (jobs_eq, update_job_files i p s) (unqueue-HasFiles p i s.files s.jobs u fs) in
      rw (batch_eq ∙ h.awaits, resolve_finished, eq_refl i)
        (subst (λ k. Draining k (next_round now t)) count_eq
          (next_round-Draining now t (settle-Ready uuid i p s c h) fs'))
