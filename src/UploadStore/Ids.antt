-- ===== src/UploadStore/Ids.antt =====
-- web/lib/upload-store.ts: the ids of the jobs.
use vidsilo.Base.{
  ◌≡◌, refl, sym, ap, subst, ◌≢◌, inl, inr, Bool, some, List, [], ◌∷◌, ◌++◌, map, String, arith,
  eq_iff, ◌==◌, Bool-cases, All, keep, find, text_of_ne,
}
use vidsilo.UploadStore.Job.{UploadJob, Patch, apply_patch}
use vidsilo.UploadStore.State.{interrupt}
use vidsilo.UploadStore.{map_job, requeue}

abbrev pub ids : List UploadJob → List String
ids js = map (λ j. j.id) js

abbrev pub Distinct : List String → Type 0
Distinct [] = Unit
Distinct (i ∷ is) = All (λ k. k ≢ i) is × Distinct is

-- A change that leaves the id of a job alone.
abbrev pub KeepsId : (UploadJob → UploadJob) → Type 0
KeepsId f = (j : UploadJob) → (f j).id ≡ j.id

pub ids-map :
    (f : UploadJob → UploadJob) → KeepsId f → (js : List UploadJob) → ids (map f js) ≡ ids js
ids-map f k [] = refl
ids-map f k (j ∷ js) = cc (k j, ids-map f k js)

pub apply_patch-KeepsId : (p : Patch) → KeepsId (apply_patch p)
unfolding apply_patch
apply_patch-KeepsId p j = refl

pub requeue-KeepsId : KeepsId requeue
unfolding requeue
requeue-KeepsId j = refl

pub interrupt-KeepsId : KeepsId interrupt
unfolding interrupt
interrupt-KeepsId j = ground arith

pub ids-map_job :
    (i : String) (f : UploadJob → UploadJob)
    → KeepsId f
    → (js : List UploadJob) → ids (map_job i f js) ≡ ids js
ids-map_job i f k = ids-map _ λ j. ground (arith, k j)

pub All-ids-keep :
    (P : String → Type 0) (p : UploadJob → Bool) (js : List UploadJob)
    → All P (ids js)
    → All P (ids (keep p js))
All-ids-keep P p [] h = tt
All-ids-keep P p (j ∷ js) (q, h) = ground (arith, All-ids-keep P p js h)

pub Distinct-keep :
    (p : UploadJob → Bool) (js : List UploadJob) → Distinct (ids js) → Distinct (ids (keep p js))
Distinct-keep p [] d = tt
Distinct-keep p (j ∷ js) (h, d) =
    ground (arith, Distinct-keep p js d, All-ids-keep (λ k. k ≢ j.id) p js h)

pub All-ids-append_one :
    (P : String → Type 0) (js : List UploadJob) (j : UploadJob)
    → All P (ids js)
    → P j.id
    → All P (ids (js ++ j ∷ []))
All-ids-append_one P [] j h q = (q, tt)
All-ids-append_one P (k ∷ js) j (p, h) q = (p, All-ids-append_one P js j h q)

pub Distinct-append_one :
    (js : List UploadJob) (j : UploadJob)
    → Distinct (ids js)
    → All (λ k. k ≢ j.id) (ids js)
    → Distinct (ids (js ++ j ∷ []))
Distinct-append_one [] j d h = (tt, tt)
Distinct-append_one (k ∷ js) j (n, d) (h, hs) = (after k js n h, Distinct-append_one js j d hs)
  where
    after :
        (k : UploadJob) (js : List UploadJob)
        → All (λ i. i ≢ k.id) (ids js)
        → k.id ≢ j.id
        → All (λ i. i ≢ k.id) (ids (js ++ j ∷ []))
    after k [] n h = (λ e. h (sym e), tt)
    after k (l ∷ js) (m, n) h = (m, after k js n h)

-- A job found behind the head has another id than the head.
pub found_id-ne :
    (p : UploadJob → Bool) (i : String) (js : List UploadJob) (j : UploadJob)
    → find p js ≡ some j
    → All (λ k. k ≢ i) (ids js)
    → j.id ≢ i
found_id-ne p i [] j e h = cc
found_id-ne p i (k ∷ js) j e (h, hs) = elim (Bool-cases (p k)) [
  | inl hit ↦ let same : k ≡ j = ground arith in subst (λ l. l.id ≢ i) same h
  | inr miss ↦ found_id-ne p i js j (ground arith) hs
]

-- Under distinct ids, the jobs with the id of a job that `find` returns have what that job has.
pub find-All_same_id {ℓ} :
    (Q : UploadJob → Type ℓ) (p : UploadJob → Bool) (js : List UploadJob) (j : UploadJob)
    → Distinct (ids js)
    → find p js ≡ some j
    → Q j
    → All (λ k. k.id ≡ j.id → Q k) js
find-All_same_id Q p [] j d e q = tt
find-All_same_id Q p (k ∷ js) j (n, d) e q = elim (Bool-cases (p k)) [
  | inl hit ↦
      let same : k ≡ j = ground arith in
      (λ _. subst Q (sym same) q, others js (subst (λ m. All (λ i. i ≢ m.id) (ids js)) same n))
  | inr miss ↦
      let found : find p js ≡ some j = ground arith in
      (λ s. absurd (found_id-ne p k.id js j found n (sym s)), find-All_same_id Q p js j d found q)
]
  where
    others : (ks : List UploadJob) → All (λ i. i ≢ j.id) (ids ks) → All (λ k. k.id ≡ j.id → Q k) ks
    others [] h = tt
    others (l ∷ ks) (h, hs) = (λ s. absurd (h s), others ks hs)

-- Looking a job up by its id gives that job.
pub find_by_id :
    (p : UploadJob → Bool) (js : List UploadJob) (j : UploadJob)
    → Distinct (ids js)
    → find p js ≡ some j
    → find (λ k. k.id == j.id) js ≡ some j
find_by_id p [] j d e = cc
find_by_id p (k ∷ js) j (n, d) e = elim (Bool-cases (p k)) [
  | inl hit ↦
      let same : k ≡ j = ground arith in ground (arith, eq_iff k.id j.id, ap (λ l. l.id) same)
  | inr miss ↦
      let found : find p js ≡ some j = ground arith in
      rw (text_of_ne k.id j.id (λ s. found_id-ne p k.id js j found n (sym s)))
        (find_by_id p js j d found)
]
