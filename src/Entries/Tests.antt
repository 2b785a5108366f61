-- ===== src/Entries/Tests.antt =====
-- Runs of the list of entries, and the theorems at concrete inputs.
use vidsilo.Base.{
  ◌≡◌, ◌≤◌, refl, true, none, some, List, [], ◌∷◌, String, arith, ◌+◌, if◌then◌else◌, count,
}
use vidsilo.UploadStore.Job.{UploadJob, UploadStatus, done, uploading}
use vidsilo.Entries.{
  EntriesPage, EntryList, failed, entries_reprocessed, has, set_of_ids, note_done, changed,
  on_uploads, set_q, set_status, set_category, set_limit, previous_page, next_page, page_count,
  toggle_select, select_all, all_selected, bulk_delete, delete_one, bulk_reprocess, query_of,
}
use vidsilo.Entries.Events.{
  EntriesEvent, next_clicked, row_toggled, all_toggled, handle_entries, run_entries,
}
use vidsilo.Entries.Selected.{deletes, bulk_delete-run_entries}

list_run : Unit {0}
unfolding set_of_ids note_done changed on_uploads set_q set_status set_category set_limit
    previous_page next_page page_count toggle_select select_all all_selected bulk_delete delete_one
    bulk_reprocess query_of handle_entries run_entries
list_run = tt

abbrev first_shown : EntriesPage
first_shown = record {
  q = "";
  status = "";
  category = "";
  page = 1;
  limit = 20;
  selected = [];
  done_ids = [];
  requests = [];
  toasts = [];
  refetches = 0;
}

abbrev three_of_fifty : EntryList
three_of_fifty = record { items = "a" ∷ "b" ∷ "c" ∷ []; total = 50; page = 1; limit = 20 }

abbrev clicks : List EntriesEvent
clicks =
    all_toggled true (some three_of_fifty)
    ∷ row_toggled "b"
    ∷ next_clicked three_of_fifty
    ∷ row_toggled "x"
    ∷ []

after_clicks : (run_entries clicks first_shown).selected ≡ "x" ∷ "a" ∷ "c" ∷ []
unfolding list_run
after_clicks = refl

three_pages : page_count three_of_fifty ≡ 3
unfolding list_run
three_pages = refl

-- The request failed, and the second toast says that it succeeded.
told_twice :
    (bulk_reprocess ("a" ∷ []) (some "500") first_shown).toasts
    ≡ failed "500" ∷ entries_reprocessed 1 ∷ []
unfolding list_run
told_twice = refl

bulk_delete-run_entries_example :
    let p = run_entries clicks first_shown in
    let d = bulk_delete p.selected p in
    (1 ≤ p.page)
    × (count (deletes "x") d.requests
        ≡ count (deletes "x") p.requests + (if has "x" p.selected then 1 else 0))
    × (d.selected ≡ [])
bulk_delete-run_entries_example =
    bulk_delete-run_entries clicks first_shown "x"
      (record { first_page = omega arith; unrepeated = tt })

abbrev own_upload : String → UploadStatus → UploadJob
own_upload id status = record {
  id = id;
  file_name = "film.mp4";
  file_size = 70;
  title = "film";
  description = "";
  category = "";
  progress = 0;
  status = status;
  error = none;
  upload_url = none;
  finished_at = none;
}

abbrev own_uploads : List UploadJob
own_uploads = own_upload "u" done ∷ own_upload "v" uploading ∷ own_upload "w" done ∷ []
