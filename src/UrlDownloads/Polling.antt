-- ===== src/UrlDownloads/Polling.antt =====
-- web/lib/url-download-store.ts: `startDownloads`, `submitOne`, `waitForEntry` and `pollUntilIdle`,
-- cut at each `await`.
use vidsilo.Base.{
  ℕ, min, Bool, true, false, not, ◌&&◌, ◌||◌, Option, none, some, List, [], ◌∷◌, ◌++◌, String,
  if◌then◌else◌, ◌==◌, ltb, or_else, truthy, any, find,
}
use vidsilo.UploadStore.Run.{percent}
use vidsilo.UrlDownloads.Job.{
  downloading, done, failed, at, indeterminate, UrlDownloadJob, no_url_patch, is_queued,
  is_downloading, is_done,
}
use vidsilo.UrlDownloads.{
  Phase, submits, polls, Poller, idle, stuck, submitting, pausing, watching, resolving, Downloads,
  update, mark_url_downloads_completed,
}

pub record SubmitResult : Type 0 where
  pub is_ok : Bool
  pub reason : Option String
  pub entry_id : Option String

-- A row of /api/url-downloads.
pub record ActiveRow : Type 0 where
  pub public_id : String
  pub bytes : ℕ
  pub total_bytes : ℕ

pub record EntryState : Type 0 where
  pub status : String
  pub error : Option String

unfoldable pub set_poller : Poller → Downloads → Downloads
set_poller p s = record s { poller = p }

-- One round of the loop of `pollUntilIdle`, and the end of `startDownloads` where it is over.
unfoldable pub poll_round : ℕ → Downloads → Downloads
unfolding set_poller
poll_round now s = elim (find (λ j. is_downloading j.status && truthy j.entry_id) s.jobs) [
  | some j ↦ set_poller (pausing j) s
  | none ↦
      set_poller idle
        (if any (λ j. is_done j.status) s.jobs then mark_url_downloads_completed now s else s)
]

-- One round of the loop of `startDownloads`, up to the answer that `submitOne` awaits.
unfoldable pub submit_round : ℕ → Downloads → Downloads
unfolding set_poller
submit_round now s = elim (find (λ j. is_queued j.status) s.jobs) [
  | some j ↦ set_poller (submitting j) (
      update j.id
        (record no_url_patch {
          status = some downloading;
          progress = some indeterminate;
          error = some none;
        })
        s)
  | none ↦ poll_round now s
]

abbrev pub is_idle : Poller → Bool
is_idle idle = true
is_idle _ = false

unfoldable pub start_downloads : ℕ → Downloads → Downloads
start_downloads now s = if is_idle s.poller then submit_round now s else s

-- The PATCH request of `submitOne`, sent where there is an entry and something to set.
unfoldable pub send_rename : Option String → UrlDownloadJob → Downloads → Downloads
send_rename none j s = s
send_rename (some entry) j s =
    if not (entry == "") && (truthy j.title || truthy j.category)
    then record s {
      renames =
          s.renames
          ++ record {
            entry = entry;
            title = if truthy j.title then j.title else none;
            category = if truthy j.category then j.category else none;
          }
            ∷ [];
    }
    else s

-- The rest of `submitOne`: a thrown request ends `startDownloads`.
unfoldable pub submit_refused : ℕ → UrlDownloadJob → Option String → Downloads → Downloads
submit_refused now j reason s = submit_round now (
    update j.id
      (record no_url_patch {
        status = some failed;
        error = some (some (or_else reason "request failed"));
        finished_at = some now;
      })
      s)

unfoldable pub submit_accepted : UrlDownloadJob → Option String → Downloads → Downloads
unfolding set_poller send_rename
submit_accepted j entry s =
    set_poller (watching submits entry j)
      (send_rename entry j (update j.id (record no_url_patch { entry_id = some entry }) s))

unfoldable pub submit_answer :
    ℕ → Option (List SubmitResult) → UrlDownloadJob → Downloads → Downloads
unfolding submit_refused submit_accepted
submit_answer now none j s = set_poller idle s
submit_answer now (some []) j s = submit_refused now j none s
submit_answer now (some (r ∷ rs)) j s =
    if r.is_ok then submit_accepted j r.entry_id s else submit_refused now j r.reason s

-- `active.find((d) => d.publicId === publicId)`
unfoldable pub row_of : Option String → List ActiveRow → Option ActiveRow
row_of none rows = none
row_of (some entry) rows = find (λ d. d.public_id == entry) rows

unfoldable pub show_progress : UrlDownloadJob → ActiveRow → Downloads → Downloads
show_progress j row s =
    if ltb 0 row.total_bytes
    then update j.id
        (record no_url_patch { progress = some (at (min 99 (percent row.bytes row.total_bytes))) })
        s
    else s

-- A tick of the timer of `waitForEntry`, with the answer to its first request.
unfoldable pub tick_answer :
    Option (List ActiveRow) → Phase → Option String → UrlDownloadJob → Downloads → Downloads
unfolding show_progress row_of
tick_answer none ph entry j s = s
tick_answer (some rows) ph entry j s = elim (row_of entry rows) [
  | some row ↦ show_progress j row s
  | none ↦ set_poller (resolving ph entry j) s
]

unfoldable pub continue_phase : ℕ → Phase → Downloads → Downloads
continue_phase now submits s = submit_round now s
continue_phase now polls s = poll_round now s

-- The end of `waitForEntry`. The timer is cleared by now: after a request that throws nothing is
-- left that could resolve the promise, as each tick is answered before the next one here. (A tick
-- whose answer takes longer than the two seconds would overlap with others; none does.)
unfoldable pub entry_answer : ℕ → Option EntryState → Phase → UrlDownloadJob → Downloads → Downloads
unfolding continue_phase
entry_answer now none ph j s = set_poller stuck s
entry_answer now (some e) ph j s = continue_phase now ph (
    update j.id
      (if e.status == "failed"
        then record no_url_patch {
          status = some failed;
          error = some (some (or_else e.error "download failed"));
          progress = some indeterminate;
          finished_at = some now;
        }
        else record no_url_patch {
          status = some done;
          progress = some (at 100);
          finished_at = some now;
        })
      s)
