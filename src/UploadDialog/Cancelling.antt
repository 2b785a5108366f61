-- ===== src/UploadDialog/Cancelling.antt =====
-- web/components/upload-dialog.tsx: cancelling all.
use vidsilo.Base.{
  ℕ, ◌+◌, length, keep, ◌≡◌, refl, ap, ◌∙◌, All, Bool, true, false, not, ◌&&◌, Option, none, some,
  List, [], ◌∷◌, ◌++◌, String, arith, count, count-append, truthy, if◌then◌else◌, ◌==◌,
}
use vidsilo.UploadStore.State.{Store, persist, emit}
use vidsilo.UploadStore.{clear_all_uploads}
use vidsilo.UrlDownloads.Job.{UrlDownloadJob}
use vidsilo.UrlDownloads.{Downloads, clear_all_url_downloads, persist_downloads, emit_downloads}
use vidsilo.UploadDialog.{
  UploadDialog, ask_cancel_all, cancel_all, cancel_queue, entries_of, on_confirm,
}
use vidsilo.UploadDialog.Events.{UploadDialogEvent, run_dialog_events}
use vidsilo.UploadDialog.Meanwhile.{Background, run_dialog_events-Background}

cleared_uploads :
    (s : Store)
    → ((clear_all_uploads s).jobs ≡ [])
      × ((clear_all_uploads s).active_uploads ≡ [])
      × ((clear_all_uploads s).files ≡ [])
unfolding clear_all_uploads persist emit
cleared_uploads s = ground arith

cleared_downloads : (s : Downloads) → (clear_all_url_downloads s).jobs ≡ []
unfolding clear_all_url_downloads persist_downloads emit_downloads
cleared_downloads s = ground arith

entries_once :
    (js : List UrlDownloadJob) (d : UploadDialog)
    → let t = cancel_queue js d in
      (t.deleted ≡ d.deleted ++ entries_of js)
      × (t.uploads.jobs ≡ [])
      × (t.uploads.active_uploads ≡ [])
      × (t.downloads.jobs ≡ [])
unfolding cancel_queue
entries_once js d =
    let (u, v, _) = cleared_uploads d.uploads in (refl, u, v, cleared_downloads d.downloads)

cancelled :
    (js : List UrlDownloadJob) (d : UploadDialog)
    → d.asking ≡ some (cancel_all js)
    → let t = on_confirm d in
      (t.deleted ≡ d.deleted ++ entries_of js)
      × (t.uploads.jobs ≡ [])
      × (t.uploads.active_uploads ≡ [])
      × (t.downloads.jobs ≡ [])
unfolding on_confirm
cancelled js d e = rw (e, on_confirm) (entries_once js (record d { asking = none }))

-- The download has the entry.
abbrev pub is_for : String → UrlDownloadJob → Bool
is_for e j = elim j.entry_id [ none ↦ false | some i ↦ not (i == "") && (i == e) ]

-- How often the deletion of an entry was requested.
abbrev pub requests_for : String → List String → ℕ
requests_for e is = count (λ i. i == e) is

requests_for-entries_of :
    (e : String) (js : List UrlDownloadJob) → requests_for e (entries_of js) ≡ count (is_for e) js
unfolding entries_of
requests_for-entries_of e [] = refl
requests_for-entries_of e (j ∷ js) = go j.entry_id (requests_for-entries_of e js)
  where
    -- A test that comes out as `b` counts the job or does not.
    counted : Bool → ℕ
    counted b = length (if b then j ∷ keep (is_for e) js else keep (is_for e) js)

    one :
        (b c : Bool) (i : String)
        → (i == e) ≡ c
        → requests_for e (entries_of js) ≡ count (is_for e) js
        → requests_for e (if not b then i ∷ entries_of js else entries_of js) ≡ counted (not b && c)
    one true c i g h = h
    one false true i g h = rw g (omega (arith, h))
    one false false i g h = rw g h

    go :
        (o : Option String)
        → requests_for e (entries_of js) ≡ count (is_for e) js
        → requests_for e (elim o [
          | none ↦ entries_of js
          | some i ↦ if truthy (some i) then i ∷ entries_of js else entries_of js
        ])
          ≡ counted (elim o [ none ↦ false | some i ↦ not (i == "") && (i == e) ])
    go none h = h
    go (some i) h = one (i == "") (i == e) i refl h

module _ (uuid : ℕ → String) where
  -- Whatever the queues do between the question and its confirmation, cancelling all empties both
  -- queues with what is in flight, and requests the deletion of an entry as often as downloads had
  -- it when the user was asked: of no other entry, and not where the id is blank.
  pub on_confirm-ask_cancel_all :
      (es : List UploadDialogEvent) (d : UploadDialog)
      → All Background es
      → let t = on_confirm (run_dialog_events uuid es (ask_cancel_all d)) in
        ((e : String)
          → requests_for e t.deleted ≡ requests_for e d.deleted + count (is_for e) d.downloads.jobs)
        × (t.uploads.jobs ≡ [])
        × (t.uploads.active_uploads ≡ [])
        × (t.downloads.jobs ≡ [])
  unfolding ask_cancel_all
  on_confirm-ask_cancel_all es d n =
      let (a, k) = run_dialog_events-Background uuid es (ask_cancel_all d) n in
      let js = d.downloads.jobs in
      let (x, u, v, w) = cancelled js (run_dialog_events uuid es (ask_cancel_all d)) a in
      (
        λ e.
            ap (requests_for e) (x ∙ ap (λ l. l ++ entries_of js) k)
            ∙ count-append (λ i. i == e) d.deleted (entries_of js)
            ∙ ap (λ m. requests_for e d.deleted + m) (requests_for-entries_of e js),
        u,
        v,
        w,
      )
