-- ===== src/Notifications/Tests.antt =====
-- Renders of the notifications.
use vidsilo.Base.{◌≡◌, refl, true, false, none, List, [], ◌∷◌, String}
use vidsilo.UploadStore.Job.{UploadJob, UploadStatus, done, failed, uploading}
use vidsilo.UrlDownloads.Job.{UrlDownloadJob}
use vidsilo.Notifications.{
  mounted, is_currently_active, on_activity, seed, announce, on_jobs, on_render, run_renders,
}

announcing : Unit {0}
unfolding is_currently_active on_activity seed announce on_jobs on_render run_renders
announcing = tt

abbrev upload : String → UploadStatus → UploadJob
upload id status = record {
  id = id;
  file_name = "film.mp4";
  file_size = 70;
  title = "film";
  description = "";
  category = "";
  progress = 0;
  status = status;
  error = none;
  upload_url = none;
  finished_at = none;
}

abbrev later_renders : List (List UploadJob × List UrlDownloadJob)
later_renders =
    (upload "a" done ∷ upload "b" uploading ∷ upload "c" uploading ∷ [], [])
    ∷ (upload "a" done ∷ upload "b" done ∷ upload "c" uploading ∷ [], [])
    ∷ (upload "a" done ∷ upload "b" done ∷ upload "c" failed ∷ [], [])
    ∷ (upload "a" done ∷ upload "b" done ∷ upload "c" failed ∷ [], [])
    ∷ []

-- One upload failed, and the toast says that all are complete.
told_complete : run_renders later_renders (on_render (upload "a" done ∷ []) [] mounted) ≡ record {
  done_ids = "b" ∷ "a" ∷ [];
  seeded = true;
  was_active = false;
  toasts = 1;
  refreshes = 2;
}
unfolding announcing
told_complete = refl
