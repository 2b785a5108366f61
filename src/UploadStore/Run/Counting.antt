-- ===== src/UploadStore/Run/Counting.antt =====
-- web/lib/upload-store.ts: the number of jobs that wait for their upload.
use vidsilo.Base.{
  ℕ, ◌+◌, ◌≡◌, refl, sym, ap, subst, ◌≢◌, inl, inr, true, false, some, List, [], ◌∷◌, String, arith,
  eq_iff, Bool-cases, All, find, count, is_some, Dict, lookup, text_of_ne,
}
use vidsilo.UploadStore.Job.{UploadJob, File, Patch, is_pending, apply_patch}
use vidsilo.UploadStore.{map_job}
use vidsilo.UploadStore.Ids.{ids, Distinct, found_id-ne}

abbrev pub pending_count : List UploadJob → ℕ
pending_count js = count (λ j. is_pending j.status) js

-- The file of each pending job is in memory.
abbrev pub HasFiles : Dict File → List UploadJob → Type 0
HasFiles fs js = All (λ j. is_pending j.status ≡ true → is_some (lookup j.id fs) ≡ true) js

-- A patch after which a job is not pending.
abbrev pub Unqueues : Patch → Type 0
Unqueues p = (j : UploadJob) → is_pending (apply_patch p j).status ≡ false

-- No job with this id is pending.
abbrev pub NotPendingAt : String → List UploadJob → Type 0
NotPendingAt i js = All (λ j. j.id ≡ i → is_pending j.status ≡ false) js

map_job_absent :
    (i : String) (f : UploadJob → UploadJob) (js : List UploadJob)
    → All (λ k. k ≢ i) (ids js)
    → map_job i f js ≡ js
map_job_absent i f [] h = refl
map_job_absent i f (j ∷ js) (n, h) = rw (text_of_ne j.id i n) (ap (◌∷◌ j) (map_job_absent i f js h))

-- A job that leaves the pending ones leaves one less.
pub pending_count-unqueue :
    (p : Patch) (js : List UploadJob) (j : UploadJob)
    → Unqueues p
    → Distinct (ids js)
    → find (λ k. is_pending k.status) js ≡ some j
    → pending_count (map_job j.id (apply_patch p) js) + 1 ≡ pending_count js
pending_count-unqueue p [] j c d e = cc
pending_count-unqueue p (k ∷ js) j c (n, d) e = elim (Bool-cases (is_pending k.status)) [
  | inl hit ↦
      let same : k ≡ j = ground arith in
      let i_eq : k.id ≡ j.id = ap (λ l. l.id) same in
      let absent =
        map_job_absent j.id (apply_patch p) js (subst (λ i. All (λ l. l ≢ i) (ids js)) i_eq n) in
      rw absent (ground (arith, c k, eq_iff k.id j.id))
  | inr miss ↦
      let found : find (λ l. is_pending l.status) js ≡ some j = ground arith in
      let other =
        text_of_ne k.id j.id
          (λ s. found_id-ne (λ l. is_pending l.status) k.id js j found n (sym s)) in
      rw other (ground (arith, pending_count-unqueue p js j c d found))
]

pub pending_count-settle :
    (p : Patch) (i : String) (js : List UploadJob)
    → Unqueues p
    → NotPendingAt i js
    → pending_count (map_job i (apply_patch p) js) ≡ pending_count js
pending_count-settle p i [] c h = refl
pending_count-settle p i (k ∷ js) c (h, hs) =
    ground (arith, c k, h, eq_iff k.id i, pending_count-settle p i js c hs)

pub unqueue-NotPendingAt :
    (p : Patch) (i : String) (js : List UploadJob)
    → Unqueues p
    → NotPendingAt i (map_job i (apply_patch p) js)
unfolding apply_patch
unqueue-NotPendingAt p i [] c = tt
unqueue-NotPendingAt p i (k ∷ js) c =
    (ground (arith, c k, eq_iff k.id i), unqueue-NotPendingAt p i js c)

pub unqueue-HasFiles :
    (p : Patch) (i : String) (fs : Dict File) (js : List UploadJob)
    → Unqueues p
    → HasFiles fs js
    → HasFiles fs (map_job i (apply_patch p) js)
unfolding apply_patch
unqueue-HasFiles p i fs [] c h = tt
unqueue-HasFiles p i fs (k ∷ js) c (h, hs) =
    (ground (arith, c k, h), unqueue-HasFiles p i fs js c hs)
