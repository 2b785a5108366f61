-- ===== src/Entries/Events.antt =====
-- web/app/admin/entries/page.tsx: what can happen to the list of entries.
use vidsilo.Base.{ℕ, Bool, Option, List, [], ◌∷◌, String}
use vidsilo.UploadStore.Job.{UploadJob}
use vidsilo.Entries.{
  EntriesPage, EntryList, on_uploads, set_q, set_status, set_category, set_limit, previous_page,
  next_page, toggle_select, select_all, bulk_delete, delete_one, bulk_reprocess,
}

-- A confirmed action has the selection of the render in which it was asked for.
pub data EntriesEvent : Type 0 where
  uploads_changed : List UploadJob → EntriesEvent
  typed : String → EntriesEvent
  status_chosen category_chosen : Option String → EntriesEvent
  limit_chosen : Option ℕ → EntriesEvent
  previous_clicked : EntriesEvent
  next_clicked : EntryList → EntriesEvent
  row_toggled : (id : String) → EntriesEvent
  all_toggled : Bool → Option EntryList → EntriesEvent
  delete_confirmed : List String → EntriesEvent
  reprocess_confirmed : List String → Option String → EntriesEvent
  row_deleted : (id : String) → Option String → EntriesEvent

unfoldable pub handle_entries : EntriesEvent → EntriesPage → EntriesPage
handle_entries (uploads_changed us) p = on_uploads us p
handle_entries (typed q) p = set_q q p
handle_entries (status_chosen v) p = set_status v p
handle_entries (category_chosen v) p = set_category v p
handle_entries (limit_chosen v) p = set_limit v p
handle_entries previous_clicked p = previous_page p
handle_entries (next_clicked list) p = next_page list p
handle_entries (row_toggled id) p = toggle_select id p
handle_entries (all_toggled checked list) p = select_all checked list p
handle_entries (delete_confirmed ids) p = bulk_delete ids p
handle_entries (reprocess_confirmed ids answer) p = bulk_reprocess ids answer p
handle_entries (row_deleted id answer) p = delete_one id answer p

unfoldable pub run_entries : List EntriesEvent → EntriesPage → EntriesPage
unfolding handle_entries
run_entries [] p = p
run_entries (e ∷ es) p = run_entries es (handle_entries e p)
