-- ===== src/UrlDownloads/Tests.antt =====
-- Runs of the queue of downloads by URL, and the theorems at concrete inputs.
use vidsilo.Base.{
  ℕ, zero, suc, ◌≡◌, refl, true, none, some, List, [], ◌∷◌, String, absent, trim, trim_start,
  trim_end, is_space,
}
use vidsilo.UploadStore.Job.{default_title}
use vidsilo.UploadStore.Run.{percent}
use vidsilo.UrlDownloads.Job.{
  UrlDownloadJob, queued, done, at, apply_url_patch, recheck, is_recent_download, load_downloads,
}
use vidsilo.UrlDownloads.{
  Downloads, idle, CheckResult, check_urls, take_results, accept_download, new_download,
  fresh_lines, persist_downloads, emit_downloads, update, reload_downloads,
  mark_url_downloads_completed,
}
use vidsilo.UrlDownloads.Polling.{
  start_downloads, submit_round, poll_round, set_poller, send_rename, submit_accepted,
  submit_refused, submit_answer, row_of, show_progress, tick_answer, continue_phase, entry_answer,
}
use vidsilo.UrlDownloads.Events.{
  DownloadEvent, checked, started, submit_answered, ticked, entry_answered, handle_download,
  run_downloads, on_submit_answer, on_tick, on_entry_answer,
}
use vidsilo.UrlDownloads.Stranded.{start_downloads-reload}
use vidsilo.UrlDownloads.Distinct.{HasDistinctUrls, GrownBy, check_urls-HasDistinctUrls}
use vidsilo.UrlDownloads.Honest.{Honest}
use vidsilo.UrlDownloads.Honest.Reachable.{run_downloads-Honest}

-- What a run of the queue computes with.
polling : Unit {0}
unfolding default_title percent apply_url_patch recheck is_recent_download load_downloads check_urls
    take_results accept_download new_download fresh_lines persist_downloads emit_downloads update
    reload_downloads mark_url_downloads_completed start_downloads submit_round poll_round set_poller
    send_rename submit_accepted submit_refused submit_answer row_of show_progress tick_answer
    continue_phase entry_answer handle_download run_downloads on_submit_answer on_tick
    on_entry_answer trim trim_start trim_end is_space
polling = tt

-- The n-th id is n letters long.
abbrev tally : ℕ → String
tally zero = String.[]
tally (suc n) = String.◌∷◌ "j" (tally n)

abbrev nothing_yet : Downloads
nothing_yet = record {
  jobs = [];
  last_completed_at = none;
  poller = idle;
  saved = absent;
  saved_completed = none;
  writable = true;
  shown = [];
  drawn = 0;
  renames = [];
}

abbrev passed : String → CheckResult
passed url = record { url = url; is_ok = true; reason = none; file_name = none }

abbrev check_two : DownloadEvent
check_two =
    checked ("http://a/x.mp4" ∷ []) (some (passed "http://a/x.mp4" ∷ passed "http://a/x.mp4" ∷ []))

abbrev accepted : DownloadEvent
accepted =
    submit_answered 6 (some (record { is_ok = true; reason = none; entry_id = some "e1" } ∷ []))

-- One download, up to the answer with the status of its entry.
abbrev followed : List DownloadEvent
followed =
    check_two
    ∷ started 5
    ∷ accepted
    ∷ ticked (some (record { public_id = "e1"; bytes = 199; total_bytes = 200 } ∷ []))
    ∷ ticked none
    ∷ ticked (some [])
    ∷ []

abbrev at_end : Downloads
at_end = run_downloads tally followed nothing_yet

abbrev final_job : UrlDownloadJob
final_job = record {
  id = "";
  url = "http://a/x.mp4";
  file_name = "http://a/x.mp4";
  title = some "http://a/x";
  category = some "";
  status = done;
  progress = at 100;
  error = none;
  entry_id = some "e1";
  finished_at = some 9;
}

-- A run to the end, with its one rename.
ends_well :
    let t =
      handle_download tally
        (entry_answered 9 (some (record { status = "ready"; error = none })))
        at_end in
    (t.jobs ≡ final_job ∷ []) × (t.poller ≡ idle) × (t.last_completed_at ≡ some 9)
unfolding polling
ends_well = (refl, refl, refl)

run_downloads-Honest_example : Honest at_end
run_downloads-Honest_example =
    run_downloads-Honest tally followed nothing_yet (record { now = tt; later = tt; awaited = tt })

start_downloads-reload_example :
    let t = reload_downloads 20 (handle_download tally check_two nothing_yet) in
    ((start_downloads 30 t).jobs ≡ t.jobs) × ((start_downloads 30 t).poller ≡ idle)
start_downloads-reload_example =
    start_downloads-reload 20 30 (handle_download tally check_two nothing_yet)

abbrev awaited_job : UrlDownloadJob
awaited_job = record final_job {
  status = queued;
  progress = at 0;
  entry_id = none;
  finished_at = none;
}

check_urls-HasDistinctUrls_example :
    let (t, c) =
      check_urls tally
        ("http://a/x.mp4" ∷ [])
        (some (passed "http://a/x.mp4" ∷ passed "http://a/x.mp4" ∷ []))
        nothing_yet in
    HasDistinctUrls t.jobs × GrownBy 1 [] t.jobs
unfolding polling
check_urls-HasDistinctUrls_example =
    check_urls-HasDistinctUrls tally ("http://a/x.mp4" ∷ [])
      (some (passed "http://a/x.mp4" ∷ passed "http://a/x.mp4" ∷ [])) nothing_yet tt
