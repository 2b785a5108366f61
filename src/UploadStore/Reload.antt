-- ===== src/UploadStore/Reload.antt =====
-- web/lib/upload-store.ts: what a reload of the page makes of the list of jobs.
use vidsilo.Base.{
  inl, inr, ◌≢◌, subst, ℕ, ◌-◌, ◌≤◌, ◌≡◌, refl, Bool, true, false, ◌||◌, Option, none, some, List,
  [], ◌∷◌, map, String, arith, eq_iff, if◌then◌else◌, ◌==◌, Bool-cases, All, find, keep,
}
use vidsilo.UploadStore.Job.{UploadJob, interrupted, is_uploading, is_pending, is_active}
use vidsilo.UploadStore.State.{
  Store, Item, absent, corrupt, stored, interrupt, is_recent, finished_since, day_ms, load, reload,
}
use vidsilo.UploadStore.Ids.{ids, Distinct, interrupt-KeepsId}
use vidsilo.UploadStore.Run.Synced.{IsSynced}

-- The job with a given id.
abbrev pub job_at : String → List UploadJob → Option UploadJob
job_at i js = find (λ j. j.id == i) js

interrupt_idem : (j : UploadJob) → interrupt (interrupt j) ≡ interrupt j
unfolding interrupt
interrupt_idem j = ground arith

is_recent_earlier :
    (now later : ℕ) (j : UploadJob)
    → now ≤ later
    → is_recent later j ≡ true
    → is_recent now j ≡ true
unfolding is_recent
is_recent_earlier now later j h e = ground arith

load_again :
    (now later : ℕ) (js : List UploadJob)
    → now ≤ later
    → keep (is_recent later) (map interrupt (keep (is_recent now) (map interrupt js)))
      ≡ keep (is_recent later) (map interrupt js)
load_again now later [] h = refl
load_again now later (j ∷ js) h = elim (Bool-cases (is_recent now (interrupt j))) [
  | inl r ↦ rw (r, interrupt_idem j) (ground (arith, load_again now later js h))
  | inr r ↦
      rw r (ground (arith, load_again now later js h, is_recent_earlier now later (interrupt j) h))
]

-- The list that a page load makes can be saved and loaded again, then or later, with the same
-- result as loading the first list at that later time.
load_twice :
    (now later : ℕ) (it : Item (List UploadJob))
    → now ≤ later
    → load later (stored (load now it)) ≡ load later it
unfolding load
load_twice now later absent h = refl
load_twice now later corrupt h = refl
load_twice now later (stored js) h = load_again now later js h

find_in_keep_absent :
    (i : String) (now : ℕ) (js : List UploadJob)
    → All (λ k. k ≢ i) (ids js)
    → job_at i (keep (is_recent now) (map interrupt js)) ≡ none
find_in_keep_absent i now [] h = refl
find_in_keep_absent i now (j ∷ js) (n, h) =
    ground (arith, eq_iff (interrupt j).id i, interrupt-KeepsId j, find_in_keep_absent i now js h)

find_in_keep :
    (i : String) (now : ℕ) (js : List UploadJob) (j : UploadJob)
    → Distinct (ids js)
    → job_at i js ≡ some j
    → job_at i (keep (is_recent now) (map interrupt js))
      ≡ (if is_recent now (interrupt j) then some (interrupt j) else none)
find_in_keep i now [] j d e = cc
find_in_keep i now (k ∷ js) j (n, d) e = elim (Bool-cases (k.id == i)) [
  | inl hit ↦
      let same : k ≡ j = ground arith in
      let gone =
        find_in_keep_absent i now js
          (subst (λ l. All (λ m. m ≢ l) (ids js)) ((eq_iff k.id i).0 hit) n) in
      let still : ((interrupt k).id == i) ≡ true = rw (interrupt-KeepsId k) hit in
      subst
        (λ l.
          job_at i (keep (is_recent now) (map interrupt (k ∷ js)))
          ≡ (if is_recent now (interrupt l) then some (interrupt l) else none))
        same (ground (arith, gone, still))
  | inr miss ↦
      let other : ((interrupt k).id == i) ≡ false = rw (interrupt-KeepsId k) miss in
      let rest = find_in_keep i now js j d (ground arith) in ground (arith, rest, other)
]

-- `j.status === "uploading" || j.status === "queued"`
abbrev pub in_flight : UploadJob → Bool
in_flight j = is_uploading j.status || is_pending j.status

-- A job as it comes back after a reload.
abbrev pub resumable_form : UploadJob → UploadJob
resumable_form j = record j { status = if in_flight j then interrupted else j.status }

interrupt_lem : (j : UploadJob) → interrupt j ≡ resumable_form j
unfolding interrupt
interrupt_lem j = ground arith

is_recent-interrupt :
    (now : ℕ) (j : UploadJob)
    → is_recent now (interrupt j)
      ≡ (is_active j.status || finished_since (now - day_ms) j.finished_at)
unfolding is_recent interrupt
is_recent-interrupt now j = ground arith

-- A reload finds every job under its id again, with all its fields but the status: a job that was
-- queued or in flight is interrupted, and a job that is over has its status still. A job that is
-- done or failed is dropped if it has no finishing time in the last day. Local storage could be
-- written and held the list of jobs, and the ids are distinct.
pub reload_job :
    (now : ℕ) (s : Store) (i : String) (j : UploadJob)
    → IsSynced s
    → s.writable ≡ true
    → Distinct (ids s.jobs)
    → job_at i s.jobs ≡ some j
    → job_at i (reload now s).jobs ≡ (
        if is_active j.status || finished_since (now - day_ms) j.finished_at
        then some (resumable_form j)
        else none)
unfolding reload load
reload_job now s i j h w d e =
    rw (h.saved w, load)
      (rw (← interrupt_lem j) (rw (← is_recent-interrupt now j) (find_in_keep i now s.jobs j d e)))
