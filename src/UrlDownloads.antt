-- ===== src/UrlDownloads.antt =====
-- web/lib/url-download-store.ts: the operations of the queue of downloads by URL. The answers of the
-- server are arguments, `none` where the request throws. `startDownloads` is cut at its `await`s;
-- a tick of the polling timer is answered before the next one.
pub mod Job
pub mod Polling
pub mod Events
pub mod Stranded
pub mod Distinct
pub mod Honest
mod Tests
use vidsilo.Base.{
  ℕ, suc, ◌+◌, ◌*◌, ◌/◌, ◌≡◌, min, Bool, true, false, not, ◌&&◌, ◌||◌, Option, none, some, List, [],
  ◌∷◌, ◌++◌, map, String, if◌then◌else◌, ◌==◌, ltb, or_else, truthy, is_empty, is_some, is_blank,
  any, keep, find, Item, stored, trim,
}
use vidsilo.UploadStore.Job.{default_title}
use Job.{
  UrlDownloadStatus, checking, queued, downloading, done, failed, Progress, at, indeterminate,
  UrlDownloadJob, UrlPatch, no_url_patch, apply_url_patch, is_queued, is_downloading, is_checking,
  is_done, load_downloads,
}

-- Which loop of `startDownloads` awaits the entry: the one that submits, or `pollUntilIdle`.
pub data Phase : Type 0 where
  submits polls : Phase

-- Where `startDownloads` stands: not running; awaiting the answer to a submission; awaiting an
-- entry, the timer running; awaiting the status of an entry, the timer cleared; awaiting the
-- pause of `pollUntilIdle`; or awaiting an entry whose timer is cleared, with no request open.
pub data Poller : Type 0 where
  idle stuck : Poller
  submitting pausing : UrlDownloadJob → Poller
  watching resolving : Phase → Option String → UrlDownloadJob → Poller

-- The body of the PATCH request that names an entry.
pub record Rename : Type 0 where
  pub entry : String
  pub title : Option String
  pub category : Option String

pub record Downloads : Type 0 where
  pub jobs : List UrlDownloadJob
  pub last_completed_at : Option ℕ
  pub poller : Poller
  -- localStorage, and whether a write to it succeeds
  pub saved : Item (List UrlDownloadJob)
  pub saved_completed : Option ℕ
  pub writable : Bool
  -- the list that the listeners were last told of, the UUIDs drawn, and the PATCH requests sent
  pub shown : List UrlDownloadJob
  pub drawn : ℕ
  pub renames : List Rename

unfoldable pub persist_downloads : Downloads → Downloads
persist_downloads s = if s.writable then record s { saved = stored s.jobs } else s

unfoldable pub emit_downloads : Downloads → Downloads
emit_downloads s = record s { shown = s.jobs }

unfoldable pub mark_url_downloads_completed : ℕ → Downloads → Downloads
mark_url_downloads_completed now s =
    let s' = record s { last_completed_at = some now } in
    if s.writable then record s' { saved_completed = some now } else s'

unfoldable pub has_url_downloads_completed : Downloads → Bool
has_url_downloads_completed s = is_some s.last_completed_at

unfoldable pub clear_url_downloads_completed : Downloads → Downloads
clear_url_downloads_completed s = record s { last_completed_at = none; saved_completed = none }

unfoldable pub reload_downloads : ℕ → Downloads → Downloads
reload_downloads now s = record s {
  jobs = load_downloads now s.saved;
  shown = load_downloads now s.saved;
  last_completed_at = s.saved_completed;
  poller = idle;
}

unfoldable pub update : String → UrlPatch → Downloads → Downloads
unfolding persist_downloads emit_downloads
update id p s = persist_downloads (
    emit_downloads
      (record s { jobs = map (λ j. if j.id == id then apply_url_patch p j else j) s.jobs }))

unfoldable pub reset_idle_downloads : Downloads → Downloads
reset_idle_downloads s =
    if not (any (λ j. is_queued j.status || is_downloading j.status || is_checking j.status) s.jobs)
      && not (is_empty s.jobs)
    then persist_downloads (emit_downloads (record s { jobs = [] }))
    else s

pub record CheckResult : Type 0 where
  pub url : String
  pub is_ok : Bool
  pub reason : Option String
  pub file_name : Option String

pub record CheckCount : Type 0 where
  pub added : ℕ
  pub failed : ℕ

-- `lines.map((url) => url.trim()).filter(Boolean)`
unfoldable pub fresh_lines : List String → List String
fresh_lines lines = keep (λ l. not (is_blank l)) (map trim lines)

-- `existing.has(url)`
abbrev pub has_url : String → List String → Bool
has_url url urls = any (λ u. u == url) urls

module _ (uuid : ℕ → String) where
  unfoldable pub new_download : CheckResult → ℕ → UrlDownloadJob
  new_download r n =
      let name = or_else r.file_name r.url in
      record {
        id = uuid n;
        url = r.url;
        file_name = name;
        title = some (default_title name);
        category = some "";
        status = queued;
        progress = at 0;
        error = none;
        entry_id = none;
        finished_at = none;
      }

  unfoldable pub accept_download : CheckResult → Downloads → Downloads
  unfolding new_download
  accept_download r s = record s {
    jobs = s.jobs ++ new_download r s.drawn ∷ [];
    drawn = suc s.drawn;
  }

  -- The loop of `checkUrls`; `existing` is its set of URLs.
  unfoldable pub take_results :
      List CheckResult → List String → Downloads × CheckCount → Downloads × CheckCount
  take_results [] existing sc = sc
  take_results (r ∷ rs) existing (s, c) =
      let refused = take_results rs existing (s, record c { failed = c.failed + 1 }) in
      let known = take_results rs existing (s, c) in
      let accepted =
        take_results rs (r.url ∷ existing)
          (accept_download r s, record c { added = c.added + 1 }) in
      if not r.is_ok then refused else if has_url r.url existing then known else accepted

  -- `none` if the request throws.
  unfoldable pub check_urls :
      List String → Option (List CheckResult) → Downloads → Downloads × Option CheckCount
  unfolding take_results fresh_lines
  check_urls lines answer s =
      if is_empty (fresh_lines lines)
      then (s, some (record { added = 0; failed = 0 }))
      else elim answer [
        | none ↦ (s, none)
        | some results ↦
            let (s', c) =
              take_results results (map (λ j. j.url) s.jobs)
                (s, record { added = 0; failed = 0 }) in
            (persist_downloads (emit_downloads s'), some c)
      ]

unfoldable pub remove_url_download : String → Downloads → Downloads
remove_url_download id s =
    persist_downloads (emit_downloads (record s { jobs = keep (λ j. not (j.id == id)) s.jobs }))

unfoldable pub clear_url_downloads : Downloads → Downloads
clear_url_downloads s = persist_downloads (emit_downloads (record s { jobs = [] }))

unfoldable pub clear_all_url_downloads : Downloads → Downloads
clear_all_url_downloads s = persist_downloads (emit_downloads (record s { jobs = [] }))

unfoldable pub reset_url_download_store : Downloads → Downloads
reset_url_download_store s = emit_downloads (record s { jobs = [] })
