-- ===== src/UploadStore/Run/Completion.antt =====
-- web/lib/upload-store.ts: the end of a batch.
use vidsilo.Base.{
  ℕ, suc, ◌≡◌, refl, sym, ap, ◌∙◌, subst, inl, inr, true, some, List, [], ◌∷◌, String, arith, All,
  length, lookup, delete,
}
use vidsilo.UploadStore.Job.{UploadJob, is_over, apply_patch}
use vidsilo.UploadStore.State.{Store, Upload, idle, transferring, idb_delete}
use vidsilo.UploadStore.Run.{next_round, start_all, on_success, on_error}
use vidsilo.UploadStore.Run.Counting.{pending_count, HasFiles, NotPendingAt}
use vidsilo.UploadStore.Run.Invariant.{Inv, NoneUploading}
use vidsilo.UploadStore.Run.Rounds.{Inv-Ready}
use vidsilo.UploadStore.Run.Ending.{delete-Ending, idb_delete-Ending}
use vidsilo.UploadStore.Run.Draining.{Left, Draining, next_round-Draining, resolved-Draining}

idb_delete_fields :
    (i : String) (s : Store) → let t = idb_delete i s in (t.jobs ≡ s.jobs) × (t.files ≡ s.files)
unfolding idb_delete
idb_delete_fields i s = ground arith

-- How an upload ends.
pub data Outcome : Type 0 where
  uploaded : Outcome
  errored : String → Outcome

-- The upload that `startAll` awaits ends so.
unfoldable pub end_current : ℕ → Outcome → Store → Store
end_current now o s = elim s.batch [
  | transferring i ↦ elim o [
    | uploaded ↦ on_success now i s
    | errored message ↦ on_error now i message s
  ]
  | _ ↦ s
]

-- One upload after the other ends.
unfoldable pub end_each : ℕ → List Outcome → Store → Store
end_each now [] s = s
end_each now (o ∷ os) s = end_each now os (end_current now o s)

end_current_uploaded :
    (now : ℕ) (i : String) (s : Store)
    → s.batch ≡ transferring i
    → end_current now uploaded s ≡ on_success now i s
unfolding end_current
end_current_uploaded now i s b = ground (arith, b)

end_current_errored :
    (now : ℕ) (i message : String) (s : Store)
    → s.batch ≡ transferring i
    → end_current now (errored message) s ≡ on_error now i message s
unfolding end_current
end_current_errored now i message s b = ground (arith, b)

module _ (uuid : ℕ → String) where
  on_success-Draining :
      (now k : ℕ) (i : String) (u : Upload) (s : Store)
      → lookup i s.active_uploads ≡ some u
      → pending_count s.jobs ≡ k
      → NotPendingAt i s.jobs
      → HasFiles s.files s.jobs
      → Inv uuid s
      → Draining uuid k (on_success now i s)
  unfolding on_success apply_patch
  on_success-Draining now k i u s m c n fs v =
      let t = record s { active_uploads = delete i s.active_uploads } in
      let (jobs_eq, files_eq) = idb_delete_fields i t in
      subst (λ l. Draining uuid l (on_success now i s)) (ap pending_count jobs_eq ∙ c)
        (resolved-Draining uuid now i _ (idb_delete i t) (λ j. refl) (λ j. refl) (rw jobs_eq n)
          (rw (jobs_eq, files_eq) fs) (idb_delete-Ending uuid i t (delete-Ending uuid i u s m v)))

  on_error-Draining :
      (now k : ℕ) (i message : String) (u : Upload) (s : Store)
      → lookup i s.active_uploads ≡ some u
      → pending_count s.jobs ≡ k
      → NotPendingAt i s.jobs
      → HasFiles s.files s.jobs
      → Inv uuid s
      → Draining uuid k (on_error now i message s)
  unfolding on_error apply_patch
  on_error-Draining now k i message u s m c n fs v =
      subst (λ l. Draining uuid l (on_error now i message s)) c
        (resolved-Draining uuid now i _ _ (λ j. refl) (λ j. refl) n fs
          (delete-Ending uuid i u s m v))

  end_current_busy :
      (now : ℕ) (o : Outcome) (k : ℕ) (i : String) (s : Store)
      → s.batch ≡ transferring i
      → Draining uuid k (on_success now i s)
      → ((message : String) → Draining uuid k (on_error now i message s))
      → Draining uuid k (end_current now o s)
  end_current_busy now uploaded k i s b d e =
      subst (Draining uuid k) (sym (end_current_uploaded now i s b)) d
  end_current_busy now (errored message) k i s b d e =
      subst (Draining uuid k) (sym (end_current_errored now i message s b)) (e message)

  end_current-Draining :
      (now : ℕ) (o : Outcome) (k : ℕ) (s : Store)
      → Draining uuid (suc k) s
      → Draining uuid k (end_current now o s)
  end_current-Draining now o k s d = go d.left
    where
      go : Left uuid (suc k) s → Draining uuid k (end_current now o s)
      go (inl (b, e, c)) = absurd (omega arith)
      go (inr (i, u, b, m, c, n)) =
          let c' : pending_count s.jobs ≡ k = omega arith in
          end_current_busy now o k i s b (on_success-Draining now k i u s m c' n d.files d.inv)
            (λ message. on_error-Draining now k i message u s m c' n d.files d.inv)

  end_each-Draining :
      (now : ℕ) (os : List Outcome) (s : Store)
      → Draining uuid (length os) s
      → Draining uuid 0 (end_each now os s)
  unfolding end_each
  end_each-Draining now [] s d = d
  end_each-Draining now (o ∷ os) s d =
      end_each-Draining now os _ (end_current-Draining now o (length os) s d)

  settled_of_none_left :
      (js : List UploadJob)
      → NoneUploading js
      → pending_count js ≡ 0
      → All (λ j. is_over j.status ≡ true) js
  settled_of_none_left [] n c = tt
  settled_of_none_left (j ∷ js) (n, ns) c = ground (arith, n, c, settled_of_none_left js ns)

  -- A batch terminates: if `startAll` is called while none runs, and the file of every job that is
  -- queued or interrupted is in memory, then after as many ends of uploads as there are such jobs,
  -- successes and failures in any order, `startAll` is over and every job is done or failed.
  pub start_all_completes :
      (now : ℕ) (os : List Outcome) (s : Store)
      → Inv uuid s
      → s.batch ≡ idle
      → HasFiles s.files s.jobs
      → length os ≡ pending_count s.jobs
      → let t = end_each now os (start_all now s) in
        (t.batch ≡ idle) × All (λ j. is_over j.status ≡ true) t.jobs
  unfolding start_all
  start_all_completes now os s v b fs c =
      let r = Inv-Ready uuid s (λ i e. cc) v in
      let start : start_all now s ≡ next_round now s = ground (arith, b) in
      let d0 =
        subst (λ k. Draining uuid k (next_round now s)) (sym c)
          (next_round-Draining uuid now s r fs) in
      let t = end_each now os (start_all now s) in
      let d : Draining uuid 0 t =
        end_each-Draining now os _ (subst (Draining uuid (length os)) (sym start) d0) in
      finish t d.inv d.left
    where
      finish :
          (t : Store)
          → Inv uuid t
          → Left uuid 0 t
          → (t.batch ≡ idle) × All (λ j. is_over j.status ≡ true) t.jobs
      finish t w (inl (e, z, p)) =
          let q = Inv-Ready uuid t (λ i f. cc) w in (e, settled_of_none_left t.jobs q.calm p)
      finish t w (inr (i, u, e, m, p, n)) = absurd (omega arith)
