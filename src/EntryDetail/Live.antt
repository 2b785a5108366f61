-- ===== src/EntryDetail/Live.antt =====
-- web/components/entry-detail-dialog.tsx: the dialog over time, with the entry that is fetched again. That
-- the query keeps the old entry where the new one is the same is documented of the query library; the
-- test is an argument.
use vidsilo.Base.{
  ℕ, Bool, true, false, ◌&&◌, Option, none, some, List, [], ◌∷◌, String, if◌then◌else◌, is_blank,
}
use vidsilo.EntryDetail.{EntryDetail, Form, fill, FormEdit, flavor, edit_form, SaveBody, save_body}

pub data EntryStatus : Type 0 where
  uploading probing transcoding ready failed : EntryStatus

pub record LiveEntry : Type 0 where
  pub detail : EntryDetail
  pub status : EntryStatus

-- `refetchInterval`, in milliseconds.
unfoldable pub refetch_interval : Option LiveEntry → Option ℕ
refetch_interval none = none
refetch_interval (some e) = elim e.status [
  | uploading ↦ some 5000
  | probing ↦ some 5000
  | transcoding ↦ some 5000
  | ready ↦ none
  | failed ↦ none
]

-- `entryEditable`
unfoldable pub is_editable : EntryStatus → Bool
is_editable ready = true
is_editable failed = true
is_editable _ = false

pub data Toast : Type 0 where
  saved reprocess_queued subtitle_uploaded deleted failed_with : Toast

-- `entry` is what the query holds, `form` the state that the effect fills. `stale_entry` and `stale_list` are
-- set where a query was invalidated.
pub record LiveDialog : Type 0 where
  pub entry : Option LiveEntry
  pub form : Option Form
  pub stale_entry : Bool
  pub stale_list : Bool
  pub toasts : List Toast

unfoldable pub live_dialog : LiveDialog
live_dialog = record {
  entry = none;
  form = none;
  stale_entry = false;
  stale_list = false;
  toasts = [];
}

module _ (same : LiveEntry → LiveEntry → Bool) where
  -- The query has an answer, and the effect runs where the entry is another.
  unfoldable pub on_entry : LiveEntry → LiveDialog → LiveDialog
  unfolding fill
  on_entry new d = elim d.entry [
    | none ↦ record d { entry = some new; form = some (fill new.detail); stale_entry = false }
    | some old ↦
        if same old new
        then record d { stale_entry = false }
        else record d { entry = some new; form = some (fill new.detail); stale_entry = false }
  ]

-- A switch of a flavor is off where the entry is in work.
unfoldable pub is_open_edit : EntryStatus → FormEdit → Bool
unfolding is_editable
is_open_edit s (flavor id v) = is_editable s
is_open_edit s _ = true

-- A control of the dialog.
unfoldable pub on_edit : FormEdit → LiveDialog → LiveDialog
unfolding is_open_edit edit_form
on_edit x d = elim d.entry [
  | none ↦ d
  | some e ↦ elim d.form [
    | none ↦ d
    | some f ↦
        if is_open_edit e.status x then record d { form = some (edit_form e.detail x f) } else d
  ]
]

-- `mutationFn` of `saveEntry`: the body, or none where the draft is not loaded.
unfoldable pub save_entry : LiveDialog → Option SaveBody
unfolding save_body
save_entry d = elim d.form [
  | none ↦ none
  | some f ↦ elim d.entry [ none ↦ none | some e ↦ some (save_body e.detail f) ]
]

-- The end of `saveEntry`.
unfoldable pub on_saved : Bool → LiveDialog → LiveDialog
on_saved true d = record d { stale_entry = true; stale_list = true; toasts = saved ∷ d.toasts }
on_saved false d = record d { toasts = failed_with ∷ d.toasts }

-- The reprocess button is there for an admin and an entry that is not in work.
unfoldable pub can_reprocess : Bool → LiveDialog → Bool
unfolding is_editable
can_reprocess is_admin d =
    is_admin && (elim d.entry [ none ↦ false | some e ↦ is_editable e.status ])

-- The end of `reprocess`.
unfoldable pub on_reprocess : Bool → LiveDialog → LiveDialog
on_reprocess true d = record d {
  stale_entry = true;
  stale_list = true;
  toasts = reprocess_queued ∷ d.toasts;
}
on_reprocess false d = record d { toasts = failed_with ∷ d.toasts }

-- The form for a subtitle track; a file is its name.
pub record SubtitleForm : Type 0 where
  pub lang : String
  pub label : String
  pub file : Option String
  pub is_submitting : Bool
  pub is_closed : Bool

unfoldable pub subtitle_form : SubtitleForm
subtitle_form = record {
  lang = "en";
  label = "";
  file = none;
  is_submitting = false;
  is_closed = false;
}

pub record SubtitleBody : Type 0 where
  pub file : String
  pub lang : String
  pub label : String

-- `s || d`
unfoldable pub or_text : String → String → String
or_text s d = if is_blank s then d else s

-- `handleSubmit`: the form, and what is sent.
unfoldable pub submit_subtitle : SubtitleForm → SubtitleForm × Option SubtitleBody
unfolding or_text
submit_subtitle s = elim s.file [
  | none ↦ (s, none)
  | some file ↦ (
    record s { is_submitting = true },
    some (record {
      file = file;
      lang = or_text s.lang "en";
      label = or_text s.label (or_text s.lang "en");
    }),
  )
]

-- The end of that request, in the form and in the dialog.
unfoldable pub on_subtitle : Bool → SubtitleForm → LiveDialog → SubtitleForm × LiveDialog
on_subtitle true s d = (
  record s { is_closed = true },
  record d { stale_entry = true; toasts = subtitle_uploaded ∷ d.toasts },
)
on_subtitle false s d =
    (record s { is_submitting = false }, record d { toasts = failed_with ∷ d.toasts })

-- A subtitle that was deleted.
unfoldable pub on_subtitle_deleted : LiveDialog → LiveDialog
on_subtitle_deleted d = record d { stale_entry = true; toasts = deleted ∷ d.toasts }
