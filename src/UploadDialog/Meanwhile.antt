-- ===== src/UploadDialog/Meanwhile.antt =====
-- web/components/upload-dialog.tsx: what goes on below the dialog while it asks.
use vidsilo.Base.{ℕ, ◌≡◌, refl, List, [], ◌∷◌, String, All}
use vidsilo.UploadStore.Run.{Event}
use vidsilo.UrlDownloads.Events.{DownloadEvent}
use vidsilo.UploadDialog.{UploadDialog}
use vidsilo.UploadDialog.Events.{
  UploadDialogEvent, in_downloads, in_uploads, handle_dialog_event, run_dialog_events,
}

-- What tus, the server and the timers do to the queues.
pub data Background : UploadDialogEvent → Type 0 where
  of_uploads : (e : Event) → Background (in_uploads e)
  of_downloads : (e : DownloadEvent) → Background (in_downloads e)

module _ (uuid : ℕ → String) where
  pub run_dialog_events-Background :
      (es : List UploadDialogEvent) (d : UploadDialog)
      → All Background es
      → ((run_dialog_events uuid es d).asking ≡ d.asking)
        × ((run_dialog_events uuid es d).deleted ≡ d.deleted)
  unfolding run_dialog_events handle_dialog_event
  run_dialog_events-Background [] d n = (refl, refl)
  run_dialog_events-Background (_ ∷ es) d (of_uploads e, ns) =
      run_dialog_events-Background es (handle_dialog_event uuid (in_uploads e) d) ns
  run_dialog_events-Background (_ ∷ es) d (of_downloads e, ns) =
      run_dialog_events-Background es (handle_dialog_event uuid (in_downloads e) d) ns
