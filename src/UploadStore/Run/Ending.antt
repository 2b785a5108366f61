-- ===== src/UploadStore/Run/Ending.antt =====
-- web/lib/upload-store.ts: the invariant of the queue at the end of an upload.
use vidsilo.Base.{
  ℕ, ◌≡◌, refl, ◌∙◌, subst, inl, inr, false, some, [], ◌∷◌, String, arith, eq_iff, eq_refl,
  Bool-cases, Dict, lookup, delete,
}
use vidsilo.UploadStore.Job.{UploadJob, Patch, is_uploading, apply_patch}
use vidsilo.UploadStore.State.{
  Store, Upload, Batch, idle, fetching, transferring, spinning, persist, emit, idb_delete,
}
use vidsilo.UploadStore.{update_job}
use vidsilo.UploadStore.Ids.{apply_patch-KeepsId}
use vidsilo.UploadStore.Named.{IsNamed, IsNamedItem, map_job-IsNamed}
use vidsilo.UploadStore.Run.{resolve_finished, on_success, on_error}
use vidsilo.UploadStore.Run.Invariant.{Serial, Awaited, Inv, settled-NoneUploading}
use vidsilo.UploadStore.Run.Preserved.{update_job_fields, Ready}
use vidsilo.UploadStore.Run.Rounds.{next_round-Inv}

-- A patch that sets a status other than "uploading".
abbrev pub Settles : Patch → Type 0
Settles p = (j : UploadJob) → is_uploading (apply_patch p j).status ≡ false

module _ (uuid : ℕ → String) where
  -- The upload that tus calls back for is the one that `startAll` awaits.
  pub in_flight :
      (b : Batch) (us : Dict Upload) (i : String) (u : Upload)
      → Serial b us
      → lookup i us ≡ some u
      → (b ≡ transferring i) × (us ≡ (i, u) ∷ [])
  unfolding lookup
  in_flight (transferring k) us i u (inl e) m = ground (arith, m)
  in_flight (transferring k) us i u (inr (v, e)) m = ground (arith, m, eq_iff k i)
  in_flight idle us i u e m = ground (arith, m)
  in_flight (fetching j) us i u e m = ground (arith, m)
  in_flight spinning us i u e m = ground (arith, m)

  -- An upload has left the map of those in flight, and `startAll` still awaits it.
  pub record Ending (i : String) (s : Store) : Type 0 where
    pub named : IsNamed uuid s.drawn s.jobs
    pub saved_named : IsNamedItem uuid s.drawn s.saved
    pub quiet : s.active_uploads ≡ []
    pub awaits : s.batch ≡ transferring i
    pub awaited : Awaited (transferring i) s.jobs

  pub delete-Ending :
      (i : String) (u : Upload) (s : Store)
      → lookup i s.active_uploads ≡ some u
      → Inv uuid s
      → Ending i (record s { active_uploads = delete i s.active_uploads })
  unfolding delete
  delete-Ending i u s m h =
      let (b, a) = in_flight s.batch s.active_uploads i u h.serial m in
      record {
        named = h.named;
        saved_named = h.saved_named;
        quiet = rw a (ground (arith, eq_refl i));
        awaits = b;
        awaited = subst (λ c. Awaited c s.jobs) b h.awaited;
      }

  pub idb_delete-Ending : (i : String) (s : Store) → Ending i s → Ending i (idb_delete i s)
  unfolding idb_delete
  idb_delete-Ending i s h = record {
    named = ground (arith, h.named);
    saved_named = ground (arith, h.saved_named);
    quiet = ground (arith, h.quiet);
    awaits = ground (arith, h.awaits);
    awaited = ground (arith, h.awaited);
  }

  pub settle-Ready :
      (i : String) (p : Patch) (s : Store) → Settles p → Ending i s → Ready uuid (update_job i p s)
  unfolding update_job persist emit
  settle-Ready i p s c h =
      let n =
        map_job-IsNamed uuid s.drawn i (apply_patch p) s.jobs (apply_patch-KeepsId p) h.named in
      let calm = settled-NoneUploading i p s.jobs c h.awaited in
      elim (Bool-cases s.writable) [
        | inl w ↦
            rw (w, persist) (record { named = n; saved_named = n; quiet = h.quiet; calm = calm })
        | inr w ↦
            rw (w, persist)
              (record { named = n; saved_named = h.saved_named; quiet = h.quiet; calm = calm })
      ]

  -- An upload ends: its job leaves "uploading" and the loop of `startAll` goes on.
  ended-Inv :
      (now : ℕ) (i : String) (p : Patch) (s : Store)
      → Settles p
      → Ending i s
      → Inv uuid (resolve_finished now i (update_job i p s))
  unfolding resolve_finished
  ended-Inv now i p s c h =
      rw ((update_job_fields i p s).2 ∙ h.awaits, resolve_finished, eq_refl i)
        (next_round-Inv uuid now _ (settle-Ready i p s c h))

  pub on_success-Inv :
      (now : ℕ) (i : String) (u : Upload) (s : Store)
      → lookup i s.active_uploads ≡ some u
      → Inv uuid s
      → Inv uuid (on_success now i s)
  unfolding on_success apply_patch
  on_success-Inv now i u s m h =
      ended-Inv now i _ _ (λ j. refl) (idb_delete-Ending i _ (delete-Ending i u s m h))

  pub on_error-Inv :
      (now : ℕ) (i message : String) (u : Upload) (s : Store)
      → lookup i s.active_uploads ≡ some u
      → Inv uuid s
      → Inv uuid (on_error now i message s)
  unfolding on_error apply_patch
  on_error-Inv now i message u s m h = ended-Inv now i _ _ (λ j. refl) (delete-Ending i u s m h)
