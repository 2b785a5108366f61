-- ===== src/UploadStore/State.antt =====
-- web/lib/upload-store.ts and web/lib/idb.ts: the module's state, what `persist` and `emit` do to
-- it, and the reload of a page. `jobs`, `files`, `active_uploads`, `last_completed_at` and `batch`
-- are the module's variables, the other fields the browser's storage and what listeners have seen.
use vidsilo.Base.{
  ℕ, ◌-◌, Bool, ◌||◌, Option, none, some, List, [], map, String, if◌then◌else◌, is_some, keep, Dict,
  lookup, insert, delete,
}
pub use vidsilo.Base.{Item, absent, corrupt, stored, day_ms, finished_since}
use vidsilo.UploadStore.Job.{queued, uploading, interrupted, UploadJob, File, is_active}

-- The arguments of `new tus.Upload(file, ...)` that depend on the job.
pub record Upload : Type 0 where
  pub file : File
  pub upload_url : Option String
  pub title : String
  pub description : String
  pub category : String

-- Where `startAll` stands: not running; awaiting `idbGet` for a job; awaiting the `finished`
-- promise of an upload; or going round its loop over a job that `startJob` returns from at once.
pub data Batch : Type 0 where
  idle : Batch
  fetching : UploadJob → Batch
  transferring : String → Batch
  spinning : Batch

pub record Store : Type 0 where
  pub jobs : List UploadJob
  pub files : Dict File
  pub active_uploads : Dict Upload
  pub last_completed_at : Option ℕ
  pub batch : Batch
  -- localStorage, and whether a write to it succeeds
  pub saved : Item (List UploadJob)
  pub saved_completed : Option ℕ
  pub writable : Bool
  -- IndexedDB, and whether it can be opened
  pub blobs : Dict File
  pub has_idb : Bool
  -- the list that the listeners were last told of, and the UUIDs drawn so far
  pub shown : List UploadJob
  pub drawn : ℕ

unfoldable pub persist : Store → Store
persist s = if s.writable then record s { saved = stored s.jobs } else s

unfoldable pub emit : Store → Store
emit s = record s { shown = s.jobs }

-- idb.ts: each of the three gives up in silence where the database cannot be opened.
unfoldable pub idb_put : String → File → Store → Store
idb_put id f s = if s.has_idb then record s { blobs = insert id f s.blobs } else s

unfoldable pub idb_get : String → Store → Option File
idb_get id s = if s.has_idb then lookup id s.blobs else none

unfoldable pub idb_delete : String → Store → Store
idb_delete id s = if s.has_idb then record s { blobs = delete id s.blobs } else s

unfoldable pub mark_uploads_completed : ℕ → Store → Store
mark_uploads_completed now s =
    let s' = record s { last_completed_at = some now } in
    if s.writable then record s' { saved_completed = some now } else s'

unfoldable pub has_uploads_completed : Store → Bool
has_uploads_completed s = is_some s.last_completed_at

unfoldable pub clear_uploads_completed : Store → Store
clear_uploads_completed s = record s { last_completed_at = none; saved_completed = none }

-- A job that was in flight when the page went away can be resumed.
unfoldable pub interrupt : UploadJob → UploadJob
interrupt j = elim j.status [
  | uploading ↦ record j { status = interrupted }
  | queued ↦ record j { status = interrupted }
  | _ ↦ j
]

unfoldable pub is_recent : ℕ → UploadJob → Bool
is_recent now j = is_active j.status || finished_since (now - day_ms) j.finished_at

unfoldable pub load : ℕ → Item (List UploadJob) → List UploadJob
load now absent = []
load now corrupt = []
load now (stored js) = keep (is_recent now) (map interrupt js)

-- The module is evaluated anew over what the browser kept.
unfoldable pub reload : ℕ → Store → Store
reload now s = record s {
  jobs = load now s.saved;
  shown = load now s.saved;
  files = [];
  active_uploads = [];
  last_completed_at = s.saved_completed;
  batch = idle;
}
