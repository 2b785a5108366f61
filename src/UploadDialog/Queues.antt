-- ===== src/UploadDialog/Queues.antt =====
-- web/components/upload-dialog.tsx: the invariants of the two queues under the dialog.
use vidsilo.Base.{
  ℕ, inl, inr, ◌||◌, not, Option, none, some, List, [], ◌∷◌, String, Bool-cases, Option-cases,
}
use vidsilo.UploadStore.Job.{UploadJob, is_uploading}
use vidsilo.UploadStore.State.{has_uploads_completed}
use vidsilo.UploadStore.{remove_job}
use vidsilo.UploadStore.Named.{NeverRepeats}
use vidsilo.UploadStore.Run.Invariant.{Inv}
use vidsilo.UrlDownloads.Job.{UrlDownloadJob}
use vidsilo.UrlDownloads.{CheckResult, check_urls, has_url_downloads_completed}
use vidsilo.UrlDownloads.Honest.{Honest}
use vidsilo.UploadDialog.{
  UploadDialog, Ask, stop_upload, cancel_all, discard, open_dialog, close, add_selected, ask_remove,
  handle_check_urls, on_checked, handle_start_urls, handle_start_files, ask_cancel_all,
  cancel_queue, discard_pending, handle_close_attempt, on_confirm, any_active, has_unstarted,
}
use vidsilo.UploadDialog.Events.{
  UploadDialogEvent, opened, check_clicked, start_over, cancel_clicked, close_clicked, confirmed,
  declined, files_selected, remove_clicked, text_typed, checked, urls_started, files_started,
  in_uploads, in_downloads, handle_dialog_event, run_dialog_events, AllEnabled, DialogEnabled,
}
use vidsilo.UploadDialog.Kept.{
  handle_one-Inv, handle_one-Honest, remove_job-Inv, add_files_kept, reset_idle_kept,
  clear_all_uploads_kept, start_all_kept, clear_uploads_completed_kept, remove_pending-Inv,
  check_urls_kept, remove_queued-Honest, reset_idle_downloads_kept, clear_all_downloads_kept,
  start_downloads_kept, clear_downloads_completed_kept,
}

module _ (uuid : ℕ → String) (fresh : NeverRepeats uuid) where
  record BothSound (d : UploadDialog) : Type 0 where
    pub uploads : Inv uuid d.uploads
    pub downloads : Honest d.downloads

  close-BothSound : (d : UploadDialog) → BothSound d → BothSound (close d)
  unfolding close
  close-BothSound d h = record {
    uploads = clear_uploads_completed_kept uuid fresh d.uploads h.uploads;
    downloads = clear_downloads_completed_kept uuid fresh d.downloads h.downloads;
  }

  open_dialog-BothSound : (d : UploadDialog) → BothSound d → BothSound (open_dialog d)
  unfolding open_dialog
  open_dialog-BothSound d h =
      elim (Bool-cases
        (has_uploads_completed d.uploads || has_url_downloads_completed d.downloads)) [
          | inl e ↦ rw (e, open_dialog) (record { uploads = h.uploads; downloads = h.downloads })
          | inr e ↦
              rw (e, open_dialog)
                (record {
                  uploads = reset_idle_kept uuid fresh d.uploads h.uploads;
                  downloads = reset_idle_downloads_kept uuid fresh d.downloads h.downloads;
                })
        ]

  on_checked-BothSound :
      (answer : Option (List CheckResult)) (d : UploadDialog)
      → BothSound d
      → BothSound (on_checked uuid answer d)
  unfolding on_checked
  on_checked-BothSound answer d h = elim (Option-cases d.requested) [
    | inl e ↦ rw (e, on_checked) h
    | inr (lines, e) ↦
        let s = check_urls_kept uuid fresh lines answer d.downloads h.downloads in
        elim (Option-cases (check_urls uuid lines answer d.downloads).1) [
          | inl f ↦ rw (e, on_checked, f) (record { uploads = h.uploads; downloads = s })
          | inr (c, f) ↦ rw (e, on_checked, f) (record { uploads = h.uploads; downloads = s })
        ]
  ]

  discard_pending-BothSound :
      (js : List UploadJob) (us : List UrlDownloadJob) (d : UploadDialog)
      → BothSound d
      → BothSound (discard_pending js us d)
  unfolding discard_pending
  discard_pending-BothSound js us d h = record {
    uploads = remove_pending-Inv uuid fresh js d.uploads h.uploads;
    downloads = remove_queued-Honest uuid fresh us d.downloads h.downloads;
  }

  on_confirm-BothSound : (d : UploadDialog) → BothSound d → BothSound (on_confirm d)
  unfolding on_confirm cancel_queue
  on_confirm-BothSound d h = go d.asking
    where
      calm : UploadDialog
      calm = record d { asking = none }

      go :
          (a : Option Ask)
          → BothSound (elim a [
            | none ↦ d
            | some (stop_upload id) ↦ record calm { uploads = remove_job id d.uploads }
            | some (cancel_all js) ↦ cancel_queue js calm
            | some (discard js us) ↦ close (discard_pending js us calm)
          ])
      go none = h
      go (some (stop_upload id)) = record {
        uploads = remove_job-Inv uuid fresh id d.uploads h.uploads;
        downloads = h.downloads;
      }
      go (some (cancel_all js)) = record {
        uploads = clear_all_uploads_kept uuid fresh d.uploads h.uploads;
        downloads = clear_all_downloads_kept uuid fresh d.downloads h.downloads;
      }
      go (some (discard js us)) = close-BothSound _ (
          discard_pending-BothSound js us calm
            (record { uploads = h.uploads; downloads = h.downloads }))

  ask_remove-BothSound :
      (j : UploadJob) (d : UploadDialog) → BothSound d → BothSound (ask_remove j d)
  unfolding ask_remove
  ask_remove-BothSound j d h = elim (Bool-cases (is_uploading j.status)) [
    | inl e ↦ rw (e, ask_remove) (record { uploads = h.uploads; downloads = h.downloads })
    | inr e ↦
        rw (e, ask_remove)
          (record {
            uploads = remove_job-Inv uuid fresh j.id d.uploads h.uploads;
            downloads = h.downloads;
          })
  ]

  handle_close_attempt-BothSound :
      (d : UploadDialog) → BothSound d → BothSound (handle_close_attempt d)
  unfolding handle_close_attempt
  handle_close_attempt-BothSound d h = elim (Bool-cases (any_active d || not (has_unstarted d))) [
    | inl e ↦ rw (e, handle_close_attempt) (close-BothSound d h)
    | inr e ↦ rw (e, handle_close_attempt) (record { uploads = h.uploads; downloads = h.downloads })
  ]

  handle_dialog_event-BothSound :
      (e : UploadDialogEvent) (d : UploadDialog)
      → DialogEnabled e d
      → BothSound d
      → BothSound (handle_dialog_event uuid e d)
  unfolding handle_dialog_event handle_check_urls ask_cancel_all add_selected handle_start_urls
      handle_start_files
  handle_dialog_event-BothSound opened d n h = open_dialog-BothSound d h
  handle_dialog_event-BothSound check_clicked d n h = record {
    uploads = h.uploads;
    downloads = h.downloads;
  }
  handle_dialog_event-BothSound start_over d n h = record {
    uploads = h.uploads;
    downloads = h.downloads;
  }
  handle_dialog_event-BothSound cancel_clicked d n h = record {
    uploads = h.uploads;
    downloads = h.downloads;
  }
  handle_dialog_event-BothSound close_clicked d n h = handle_close_attempt-BothSound d h
  handle_dialog_event-BothSound confirmed d n h = on_confirm-BothSound d h
  handle_dialog_event-BothSound declined d n h = record {
    uploads = h.uploads;
    downloads = h.downloads;
  }
  handle_dialog_event-BothSound (files_selected fs) d n h = record {
    uploads = add_files_kept uuid fresh fs d.uploads h.uploads;
    downloads = h.downloads;
  }
  handle_dialog_event-BothSound (remove_clicked j) d n h = ask_remove-BothSound j d h
  handle_dialog_event-BothSound (text_typed s) d n h = record {
    uploads = h.uploads;
    downloads = h.downloads;
  }
  handle_dialog_event-BothSound (checked answer) d n h = on_checked-BothSound answer d h
  handle_dialog_event-BothSound (urls_started now) d n h = record {
    uploads = clear_all_uploads_kept uuid fresh d.uploads h.uploads;
    downloads = start_downloads_kept uuid fresh now d.downloads h.downloads;
  }
  handle_dialog_event-BothSound (files_started now) d n h = record {
    uploads = start_all_kept uuid fresh now d.uploads h.uploads;
    downloads = clear_all_downloads_kept uuid fresh d.downloads h.downloads;
  }
  handle_dialog_event-BothSound (in_uploads e) d n h = record {
    uploads = handle_one-Inv uuid fresh e d.uploads n h.uploads;
    downloads = h.downloads;
  }
  handle_dialog_event-BothSound (in_downloads e) d n h = record {
    uploads = h.uploads;
    downloads = handle_one-Honest uuid fresh e d.downloads h.downloads;
  }

  -- Whatever is done in the dialog, and whatever tus, the server and the timers do meanwhile, the
  -- upload queue and the queue of downloads each keep their invariant: the ids, the single upload in
  -- flight and the single batch of the one, and the honest progress bars of the other. Both held at
  -- the start, and UUIDs never repeat.
  run_dialog_events-BothSound :
      (es : List UploadDialogEvent) (d : UploadDialog)
      → AllEnabled uuid es d
      → BothSound d
      → BothSound (run_dialog_events uuid es d)
  unfolding run_dialog_events
  run_dialog_events-BothSound [] d n h = h
  run_dialog_events-BothSound (e ∷ es) d (n, ns) h =
      run_dialog_events-BothSound es _ ns (handle_dialog_event-BothSound e d n h)
