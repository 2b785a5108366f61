-- ===== src/UploadStore/Run/Rounds.antt =====
-- web/lib/upload-store.ts: the invariant of the queue over rounds of `startAll`.
use vidsilo.Base.{
  ℕ, ◌≡◌, refl, ◌≢◌, inl, inr, none, some, [], String, arith, if◌then◌else◌, Bool-cases,
  Option-cases, any, find, lookup, insert,
}
use vidsilo.UploadStore.Job.{is_pending, is_done}
use vidsilo.UploadStore.State.{
  Store, Batch, idle, fetching, transferring, spinning, idb_get, mark_uploads_completed,
}
use vidsilo.UploadStore.Run.{launch, run_started, next_round, start_all, blob_read, is_idle}
use vidsilo.UploadStore.Run.Invariant.{Serial, Inv, NoneUploading-Awaited, Awaited-NoneUploading}
use vidsilo.UploadStore.Run.Preserved.{Ready, launch-Inv, start_job_of_pending}

module _ (uuid : ℕ → String) where
  Ready-Inv :
      (b : Batch) (s : Store)
      → b ≢ spinning
      → ((i : String) → b ≢ transferring i)
      → Ready uuid s
      → Inv uuid (record s { batch = b })
  Ready-Inv b s n m h = record {
    named = h.named;
    saved_named = h.saved_named;
    serial = quiet b m;
    awaited = NoneUploading-Awaited b s.jobs h.calm;
    not_spinning = n;
  }
    where
      quiet : (c : Batch) → ((i : String) → c ≢ transferring i) → Serial c s.active_uploads
      quiet (transferring i) m = absurd (m i refl)
      quiet idle m = h.quiet
      quiet (fetching j) m = h.quiet
      quiet spinning m = h.quiet

  mark_uploads_completed-Ready :
      (now : ℕ) (s : Store) → Ready uuid s → Ready uuid (mark_uploads_completed now s)
  unfolding mark_uploads_completed
  mark_uploads_completed-Ready now s h = record {
    named = ground (arith, h.named);
    saved_named = ground (arith, h.saved_named);
    quiet = ground (arith, h.quiet);
    calm = ground (arith, h.calm);
  }

  -- One round of the loop of `startAll`.
  pub next_round-Inv : (now : ℕ) (s : Store) → Ready uuid s → Inv uuid (next_round now s)
  unfolding next_round run_started
  next_round-Inv now s h = elim (Option-cases (find (λ k. is_pending k.status) s.jobs)) [
    | inr (j, e) ↦ elim (Option-cases (lookup j.id s.files)) [
      | inl m ↦
          rw (e, next_round, start_job_of_pending uuid s j h.named e, m)
            (Ready-Inv (fetching j) s (λ c. cc) (λ i c. cc) h)
      | inr (f, m) ↦
          rw (e, next_round, start_job_of_pending uuid s j h.named e, m) (launch-Inv uuid j f s h)
    ]
    | inl e ↦ elim (Bool-cases (any (λ k. is_done k.status) s.jobs)) [
      | inl d ↦
          rw (e, next_round, d)
            (Ready-Inv idle _ (λ c. cc) (λ i c. cc) (mark_uploads_completed-Ready now s h))
      | inr d ↦ rw (e, next_round, d) (Ready-Inv idle s (λ c. cc) (λ i c. cc) h)
    ]
  ]

  pub Inv-Ready :
      (s : Store) → ((i : String) → s.batch ≢ transferring i) → Inv uuid s → Ready uuid s
  Inv-Ready s n h = record {
    named = h.named;
    saved_named = h.saved_named;
    quiet = quiet s.batch n h.serial;
    calm = Awaited-NoneUploading s.batch s.jobs n h.awaited;
  }
    where
      quiet :
          (b : Batch)
          → ((i : String) → b ≢ transferring i)
          → Serial b s.active_uploads
          → s.active_uploads ≡ []
      quiet (transferring i) m e = absurd (m i refl)
      quiet idle m e = e
      quiet (fetching j) m e = e
      quiet spinning m e = e

  pub start_all-Inv : (now : ℕ) (s : Store) → Inv uuid s → Inv uuid (start_all now s)
  unfolding start_all
  start_all-Inv now s h = from s.batch refl
    where
      from : (b : Batch) → s.batch ≡ b → Inv uuid (if is_idle b then next_round now s else s)
      from idle e = next_round-Inv now s (Inv-Ready s (λ i c. cc) h)
      from (fetching j) e = h
      from (transferring i) e = h
      from spinning e = h

  pub blob_read-Inv : (now : ℕ) (s : Store) → Inv uuid s → Inv uuid (blob_read now s)
  unfolding blob_read
  blob_read-Inv now s h = from s.batch refl
    where
      from :
          (b : Batch)
          → s.batch ≡ b
          → Inv uuid (elim b [
            | fetching j ↦ elim (idb_get j.id s) [
              | none ↦ next_round now s
              | some f ↦ launch j f (record s { files = insert j.id f s.files })
            ]
            | _ ↦ s
          ])
      from idle e = h
      from (fetching j) e =
          let r = Inv-Ready s (λ i c. cc) h in
          elim (Option-cases (idb_get j.id s)) [
            | inl m ↦ rw m (next_round-Inv now s r)
            | inr (f, m) ↦ rw m (
                launch-Inv uuid j f _ (record {
                  named = r.named;
                  saved_named = r.saved_named;
                  quiet = r.quiet;
                  calm = r.calm;
                }))
          ]
      from (transferring i) e = h
      from spinning e = h
