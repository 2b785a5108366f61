-- ===== src/EntryDetail/Refetched.antt =====
-- web/components/entry-detail-dialog.tsx: what a new answer of the entry's query does to the form.
use vidsilo.Base.{◌≡◌, Bool, true, Option, none, some, List, [], ◌∷◌, if◌then◌else◌}
use vidsilo.EntryDetail.{Form, FormEdit, edit_form}
use vidsilo.EntryDetail.Live.{LiveEntry, LiveDialog, on_entry, on_edit, is_open_edit}

-- The dialog after a list of edits.
unfoldable pub edit_live : List FormEdit → LiveDialog → LiveDialog
unfolding on_edit
edit_live [] d = d
edit_live (x ∷ xs) d = edit_live xs (on_edit x d)

-- The form after an edit.
abbrev edited_form : FormEdit → Option LiveEntry → Option Form → Option Form
edited_form x none f = f
edited_form x (some e) none = none
edited_form x (some e) (some f) =
    if is_open_edit e.status x then some (edit_form e.detail x f) else some f

-- What happens to the form: the user edits it, or the entry that was asked for again comes.
pub data Move : Type 0 where
  edited : FormEdit → Move
  answered : LiveEntry → Move

abbrev pub edits_of : List Move → List FormEdit
edits_of [] = []
edits_of (edited x ∷ ms) = x ∷ edits_of ms
edits_of (answered e ∷ ms) = edits_of ms

module _ (same : LiveEntry → LiveEntry → Bool) where
  abbrev pub run_moves : List Move → LiveDialog → LiveDialog
  run_moves [] d = d
  run_moves (edited x ∷ ms) d = run_moves ms (on_edit x d)
  run_moves (answered e ∷ ms) d = run_moves ms (on_entry same e d)

  -- Answers have the entry that is held.
  abbrev pub IsSame : LiveEntry → Move → Type 0
  IsSame old (edited x) = Unit
  IsSame old (answered e) = same old e ≡ true
