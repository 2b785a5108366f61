-- ===== src/UploadStore/Run/Invariant.antt =====
-- web/lib/upload-store.ts: the invariant of the queue.
use vidsilo.Base.{ℕ, ◌≡◌, ◌≢◌, ◌⊎◌, true, false, List, [], ◌∷◌, String, arith, eq_iff, All, Dict}
use vidsilo.UploadStore.Job.{UploadJob, Patch, is_uploading, apply_patch}
use vidsilo.UploadStore.State.{Store, Upload, Batch, transferring, spinning}
use vidsilo.UploadStore.{map_job}
use vidsilo.UploadStore.Named.{IsNamed, IsNamedItem}

-- At most one upload is in flight, and it is the one that `startAll` awaits.
abbrev pub Serial : Batch → Dict Upload → Type 0
Serial (transferring i) us = (us ≡ []) ⊎ ((u : Upload) × (us ≡ (i, u) ∷ []))
Serial b us = us ≡ []

-- A job that is shown as uploading is the one that `startAll` awaits.
abbrev pub Awaited : Batch → List UploadJob → Type 0
Awaited b js = All (λ j. is_uploading j.status ≡ true → b ≡ transferring j.id) js

module _ (uuid : ℕ → String) where
  pub record Inv (s : Store) : Type 0 where
    pub named : IsNamed uuid s.drawn s.jobs
    pub saved_named : IsNamedItem uuid s.drawn s.saved
    pub serial : Serial s.batch s.active_uploads
    pub awaited : Awaited s.batch s.jobs
    pub not_spinning : s.batch ≢ spinning

-- What `startAll` relies on when it goes round its loop: no upload is in flight, and no job is
-- shown as uploading.
abbrev pub NoneUploading : List UploadJob → Type 0
NoneUploading js = All (λ j. is_uploading j.status ≡ false) js

pub NoneUploading-Awaited : (b : Batch) (js : List UploadJob) → NoneUploading js → Awaited b js
NoneUploading-Awaited b [] h = tt
NoneUploading-Awaited b (j ∷ js) (h, hs) = (λ u. cc, NoneUploading-Awaited b js hs)

pub Awaited-NoneUploading :
    (b : Batch) (js : List UploadJob)
    → ((i : String) → b ≢ transferring i)
    → Awaited b js
    → NoneUploading js
Awaited-NoneUploading b [] n h = tt
Awaited-NoneUploading b (j ∷ js) n (h, hs) =
    (ground (arith, h, n j.id), Awaited-NoneUploading b js n hs)

-- A patch that leaves the status alone, or sets another than "uploading".
abbrev pub IsCalm : Patch → Type 0
IsCalm p =
    (j : UploadJob) → is_uploading (apply_patch p j).status ≡ true → is_uploading j.status ≡ true

pub patched-Awaited :
    (b : Batch) (i : String) (p : Patch) (js : List UploadJob)
    → IsCalm p
    → Awaited b js
    → Awaited b (map_job i (apply_patch p) js)
unfolding apply_patch
patched-Awaited b i p [] c h = tt
patched-Awaited b i p (j ∷ js) c (h, hs) = (ground (arith, c j, h), patched-Awaited b i p js c hs)

-- A patch that sets a status other than "uploading", applied to the job that is awaited.
pub settled-NoneUploading :
    (i : String) (p : Patch) (js : List UploadJob)
    → ((j : UploadJob) → is_uploading (apply_patch p j).status ≡ false)
    → Awaited (transferring i) js
    → NoneUploading (map_job i (apply_patch p) js)
settled-NoneUploading i p [] c h = tt
settled-NoneUploading i p (j ∷ js) c (h, hs) =
    (ground (arith, c j, h, eq_iff j.id i), settled-NoneUploading i p js c hs)

-- A patch that may set "uploading", applied to the job that is awaited.
pub launched-Awaited :
    (i : String) (p : Patch) (js : List UploadJob)
    → NoneUploading js
    → Awaited (transferring i) (map_job i (apply_patch p) js)
unfolding apply_patch
launched-Awaited i p [] h = tt
launched-Awaited i p (j ∷ js) (h, hs) = (ground (arith, eq_iff j.id i), launched-Awaited i p js hs)
