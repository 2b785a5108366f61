-- ===== src/UploadStore/Job.antt =====
-- web/lib/upload-store.ts: upload jobs, their statuses and patches, and the title of a new job.
-- `patch` has the fields that some caller of `updateJob` sets; a field left out is `none`.
-- A timestamp is the millisecond that its ISO text denotes.
use Prim.Native.Char.{code}
use Prim.Native.String.{String, [], ◌∷◌}
use vidsilo.Base.{ℕ, Bool, true, false, not, ◌&&◌, Option, none, some, if◌then◌else◌, or_else, eqb}

pub data UploadStatus : Type 0 where
  queued uploading done failed interrupted : UploadStatus

pub record UploadJob : Type 0 where
  pub id : String
  pub file_name : String
  pub file_size : ℕ
  pub title : String
  pub description : String
  pub category : String
  pub progress : ℕ
  pub status : UploadStatus
  pub error : Option String
  pub upload_url : Option String
  pub finished_at : Option ℕ

pub record File : Type 0 where
  pub name : String
  pub size : ℕ

-- `Partial<UploadJob>`; `error` may be set to undefined.
pub record Patch : Type 0 where
  pub title : Option String
  pub description : Option String
  pub category : Option String
  pub progress : Option ℕ
  pub status : Option UploadStatus
  pub error : Option (Option String)
  pub upload_url : Option String
  pub finished_at : Option ℕ

abbrev pub no_patch : Patch
no_patch = record {
  title = none;
  description = none;
  category = none;
  progress = none;
  status = none;
  error = none;
  upload_url = none;
  finished_at = none;
}

abbrev or_keep {ℓ} : {A : Type ℓ} → Option A → Option A → Option A
or_keep none old = old
or_keep (some a) old = some a

-- `{ ...j, ...patch }`
unfoldable pub apply_patch : Patch → UploadJob → UploadJob
apply_patch p j = record j {
  title = or_else p.title j.title;
  description = or_else p.description j.description;
  category = or_else p.category j.category;
  progress = or_else p.progress j.progress;
  status = or_else p.status j.status;
  error = or_else p.error j.error;
  upload_url = or_keep p.upload_url j.upload_url;
  finished_at = or_keep p.finished_at j.finished_at;
}

abbrev pub is_done : UploadStatus → Bool
is_done done = true
is_done _ = false

abbrev pub is_uploading : UploadStatus → Bool
is_uploading uploading = true
is_uploading _ = false

abbrev pub is_interrupted : UploadStatus → Bool
is_interrupted interrupted = true
is_interrupted _ = false

-- `j.status === "queued" || j.status === "interrupted"`
abbrev pub is_pending : UploadStatus → Bool
is_pending queued = true
is_pending interrupted = true
is_pending _ = false

-- `j.status === "done" || j.status === "failed"`
abbrev pub is_over : UploadStatus → Bool
is_over done = true
is_over failed = true
is_over _ = false

-- `j.status !== "done" && j.status !== "failed"`
abbrev pub is_active : UploadStatus → Bool
is_active s = not (is_over s)

-- `[^.]+$`: the rest of the text holds at least one character and no dot.
unfoldable pub no_dot : String → Bool
no_dot [] = true
no_dot (c ∷ s) = not (eqb (code c) b'.') && no_dot s

unfoldable pub is_extension : String → Bool
unfolding no_dot
is_extension [] = false
is_extension (c ∷ s) = no_dot (c ∷ s)

-- `name.replace(/\.[^.]+$/, "")`
unfoldable pub default_title : String → String
unfolding is_extension
default_title [] = []
default_title (c ∷ s) = if eqb (code c) b'.' && is_extension s then [] else c ∷ default_title s
