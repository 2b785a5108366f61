-- ===== src/UrlDownloads/Events.antt =====
-- web/lib/url-download-store.ts: what can happen to the queue of downloads.
use vidsilo.Base.{ℕ, Option, some, List, String}
use vidsilo.UrlDownloads.Job.{UrlPatch, no_url_patch}
use vidsilo.UrlDownloads.{
  polls, Poller, submitting, pausing, watching, resolving, Downloads, CheckResult, check_urls,
  update, remove_url_download, reset_idle_downloads, clear_url_downloads, clear_all_url_downloads,
  reload_downloads,
}
use vidsilo.UrlDownloads.Polling.{
  SubmitResult, ActiveRow, EntryState, set_poller, start_downloads, submit_answer, tick_answer,
  entry_answer,
}

-- What a user edits on the card of a download.
pub data UrlEdit : Type 0 where
  title category : String → UrlEdit

unfoldable pub url_edit_patch : UrlEdit → UrlPatch
url_edit_patch (title v) = record no_url_patch { title = some v }
url_edit_patch (category v) = record no_url_patch { category = some v }

-- Calls from the user interface, answers of the server, ticks of the timers, and a page reload.
pub data DownloadEvent : Type 0 where
  checked : List String → Option (List CheckResult) → DownloadEvent
  edited : String → UrlEdit → DownloadEvent
  removed : String → DownloadEvent
  dialog_opened cleared all_cleared pause_over : DownloadEvent
  started reloaded : (now : ℕ) → DownloadEvent
  submit_answered : (now : ℕ) → Option (List SubmitResult) → DownloadEvent
  ticked : Option (List ActiveRow) → DownloadEvent
  entry_answered : (now : ℕ) → Option EntryState → DownloadEvent

-- An answer is handled by the request that awaits it.
unfoldable pub on_submit_answer : ℕ → Option (List SubmitResult) → Poller → Downloads → Downloads
on_submit_answer now answer (submitting j) s = submit_answer now answer j s
on_submit_answer now answer _ s = s

unfoldable pub on_tick : Option (List ActiveRow) → Poller → Downloads → Downloads
on_tick rows (watching ph entry j) s = tick_answer rows ph entry j s
on_tick rows _ s = s

unfoldable pub on_entry_answer : ℕ → Option EntryState → Poller → Downloads → Downloads
on_entry_answer now answer (resolving ph entry j) s = entry_answer now answer ph j s
on_entry_answer now answer _ s = s

unfoldable pub on_pause_over : Poller → Downloads → Downloads
on_pause_over (pausing j) s = set_poller (watching polls j.entry_id j) s
on_pause_over _ s = s

module _ (uuid : ℕ → String) where
  unfoldable pub handle_download : DownloadEvent → Downloads → Downloads
  unfolding on_submit_answer on_tick on_entry_answer on_pause_over
  handle_download (checked lines answer) s = (check_urls uuid lines answer s).0
  handle_download (edited id e) s = update id (url_edit_patch e) s
  handle_download (removed id) s = remove_url_download id s
  handle_download dialog_opened s = reset_idle_downloads s
  handle_download cleared s = clear_url_downloads s
  handle_download all_cleared s = clear_all_url_downloads s
  handle_download pause_over s = on_pause_over s.poller s
  handle_download (started now) s = start_downloads now s
  handle_download (reloaded now) s = reload_downloads now s
  handle_download (submit_answered now answer) s = on_submit_answer now answer s.poller s
  handle_download (ticked rows) s = on_tick rows s.poller s
  handle_download (entry_answered now answer) s = on_entry_answer now answer s.poller s

  -- The store after a list of events.
  unfoldable pub run_downloads : List DownloadEvent → Downloads → Downloads
  run_downloads List.[] s = s
  run_downloads (List.◌∷◌ e es) s = run_downloads es (handle_download e s)

-- Every event but a reload of the page.
abbrev pub StaysOpen : DownloadEvent → Type 0
StaysOpen (reloaded now) = ⊥
StaysOpen _ = Unit
