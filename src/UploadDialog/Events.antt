-- ===== src/UploadDialog/Events.antt =====
-- web/components/upload-dialog.tsx: what can happen to the dialog and to the queues under it.
use vidsilo.Base.{ℕ, false, Option, none, List, [], ◌∷◌, String}
use vidsilo.UploadStore.Job.{UploadJob, File}
use vidsilo.UploadStore.Run.{Event, Enabled, handle}
use vidsilo.UrlDownloads.{CheckResult}
use vidsilo.UrlDownloads.Events.{DownloadEvent, handle_download}
use vidsilo.UploadDialog.{
  UploadDialog, open_dialog, add_selected, ask_remove, handle_check_urls, on_checked,
  handle_start_urls, handle_start_files, ask_cancel_all, handle_close_attempt, on_confirm,
}

pub data UploadDialogEvent : Type 0 where
  opened check_clicked start_over cancel_clicked close_clicked confirmed declined :
      UploadDialogEvent
  files_selected : List File → UploadDialogEvent
  remove_clicked : UploadJob → UploadDialogEvent
  text_typed : String → UploadDialogEvent
  checked : Option (List CheckResult) → UploadDialogEvent
  urls_started files_started : (now : ℕ) → UploadDialogEvent
  -- an edit on a card, a callback of tus, an answer of the server, a timer, a reload of the page
  in_uploads : Event → UploadDialogEvent
  in_downloads : DownloadEvent → UploadDialogEvent

abbrev pub DialogEnabled : UploadDialogEvent → UploadDialog → Type 0
DialogEnabled (in_uploads e) d = Enabled e d.uploads
DialogEnabled _ d = Unit

module _ (uuid : ℕ → String) where
  unfoldable pub handle_dialog_event : UploadDialogEvent → UploadDialog → UploadDialog
  handle_dialog_event opened d = open_dialog d
  handle_dialog_event check_clicked d = handle_check_urls d
  handle_dialog_event start_over d = record d { starting = false }
  handle_dialog_event cancel_clicked d = ask_cancel_all d
  handle_dialog_event close_clicked d = handle_close_attempt d
  handle_dialog_event confirmed d = on_confirm d
  handle_dialog_event declined d = record d { asking = none }
  handle_dialog_event (files_selected fs) d = add_selected uuid fs d
  handle_dialog_event (remove_clicked j) d = ask_remove j d
  handle_dialog_event (text_typed s) d = record d { url_text = s }
  handle_dialog_event (checked answer) d = on_checked uuid answer d
  handle_dialog_event (urls_started now) d = handle_start_urls now d
  handle_dialog_event (files_started now) d = handle_start_files now d
  handle_dialog_event (in_uploads e) d = record d { uploads = handle uuid e d.uploads }
  handle_dialog_event (in_downloads e) d = record d {
    downloads = handle_download uuid e d.downloads;
  }

  unfoldable pub run_dialog_events : List UploadDialogEvent → UploadDialog → UploadDialog
  run_dialog_events [] d = d
  run_dialog_events (e ∷ es) d = run_dialog_events es (handle_dialog_event e d)

  -- Each event can happen where it does.
  abbrev pub AllEnabled : List UploadDialogEvent → UploadDialog → Type 0
  AllEnabled [] d = Unit
  AllEnabled (e ∷ es) d = DialogEnabled e d × AllEnabled es (handle_dialog_event e d)
