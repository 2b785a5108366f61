-- ===== src/Sidebar/Tests.antt =====
-- An upload and a download under way, and the theorem at a concrete input.
use vidsilo.Base.{◌≡◌, refl, false, none, some, [], ◌∷◌, arith}
use vidsilo.Base.Numerals.{digits, decimal}
use vidsilo.UploadStore.Job.{UploadJob, UploadStatus}
use vidsilo.UrlDownloads.Job.{UrlDownloadJob, UrlDownloadStatus, at}
use vidsilo.Formatting.{rounded, floor_log, unit_index, tenths, unit_name, format_bytes}
use vidsilo.Sidebar.{
  percent_note, downloading_note, progress_card, usage, storage_card, nav_items, is_here,
}
use vidsilo.Sidebar.Progress.{IsPercent, IsAtZero, progress_card-IsPercent}

sidebar : Unit {0}
unfolding digits decimal rounded floor_log unit_index tenths unit_name format_bytes progress_card
    storage_card nav_items is_here
sidebar = tt

abbrev half_sent : UploadJob
half_sent = record {
  id = "a";
  file_name = "a.mp4";
  file_size = 10;
  title = "a";
  description = "";
  category = "";
  progress = 50;
  status = UploadStatus.uploading;
  error = none;
  upload_url = none;
  finished_at = none;
}

abbrev nearly_there : UrlDownloadJob
nearly_there = record {
  id = "b";
  url = "https://example.org/b.mp4";
  file_name = "b.mp4";
  title = none;
  category = none;
  status = UrlDownloadStatus.downloading;
  progress = at 90;
  error = none;
  entry_id = none;
  finished_at = none;
}

-- The download, at ninety percent, counts as nothing.
mixed :
    progress_card (half_sent ∷ []) (nearly_there ∷ [])
    ≡ some (record { total = 2; percent = 25; is_spinning = false; note = percent_note 25 })
unfolding sidebar
mixed = refl

alone :
    progress_card [] (nearly_there ∷ [])
    ≡ some (record { total = 1; percent = 0; is_spinning = false; note = downloading_note })
unfolding sidebar
alone = refl

half_full :
    storage_card
      (some (record { used_bytes = 512; total_bytes = 1024; free_bytes = 512; object_count = 3 }))
    ≡ some (usage "512 B" 50 "1.0 KB" "512 B")
unfolding sidebar
half_full = refl

abbrev sent : UploadJob
sent = record half_sent { progress = 100; status = UploadStatus.done }

progress_card-IsPercent_example :
    IsPercent (progress_card (half_sent ∷ []) (nearly_there ∷ []))
    × IsAtZero (progress_card (sent ∷ []) (nearly_there ∷ []))
progress_card-IsPercent_example =
    progress_card-IsPercent (half_sent ∷ []) (sent ∷ []) (nearly_there ∷ []) (omega arith, tt) refl
