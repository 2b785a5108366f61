-- ===== src/Dialogs.antt =====
-- web/hooks/use-dialog.tsx: the stack of dialogs, and the dialog that asks to confirm. What a dialog
-- shows is a parameter; the id `dlg-n` is the number n. `onConfirm` is cut at its `await`, and its
-- end is an event.
pub mod Order
pub mod Confirming
mod Tests
use vidsilo.Base.{
  ℕ, suc, ◌≡◌, Bool, true, false, not, Option, none, some, List, [], ◌∷◌, ◌++◌, map, String,
  if◌then◌else◌, eqb, or_else, keep, any,
}

pub data DialogSize : Type 0 where
  sm md lg xl xl2 xl3 xl4 xl5 full fullscreen : DialogSize

pub data Variant : Type 0 where
  default destructive : Variant

pub record ConfirmOptions : Type 0 where
  pub title : String
  pub description : Option String
  pub confirm_label : Option String
  pub cancel_label : Option String
  pub variant : Option Variant
  pub size : Option DialogSize

-- What the caller gave, or `ConfirmDialogContent` with its state `isPending`.
pub data Content (A : Type 0) : Type 0 where
  given : A → Content A
  confirmation : ConfirmOptions → (is_pending : Bool) → Content A

module _ (A : Type 0) where
  pub record DialogEntry : Type 0 where
    pub id : ℕ
    pub content : Content A
    pub dismissible : Bool
    pub size : DialogSize
    pub class_name : Option String
    pub show_close_button : Option Bool

  pub record OpenDialogOptions : Type 0 where
    pub content : A
    pub dismissible : Option Bool
    pub size : Option DialogSize
    pub class_name : Option String
    pub show_close_button : Option Bool

  -- `dialogs`, `nextId`, and the dialogs whose `onConfirm` and `onError` were called so far.
  pub record Dialogs : Type 0 where
    pub entries : List DialogEntry
    pub next_id : ℕ
    pub confirmed : List ℕ
    pub failures : List ℕ

module _ {A : Type 0} where
  -- `prev.slice(0, -1)`
  unfoldable pub drop_last : List (DialogEntry A) → List (DialogEntry A)
  drop_last [] = []
  drop_last (e ∷ []) = []
  drop_last (e ∷ f ∷ es) = e ∷ drop_last (f ∷ es)

  unfoldable pub close_dialog : Option ℕ → Dialogs A → Dialogs A
  unfolding drop_last
  close_dialog none s = record s { entries = drop_last s.entries }
  close_dialog (some id) s = record s { entries = keep (λ e. not (eqb e.id id)) s.entries }

  unfoldable pub close_all : Dialogs A → Dialogs A
  close_all s = record s { entries = [] }

  -- The id that it returns is the new `next_id`.
  unfoldable pub open_dialog : OpenDialogOptions A → Dialogs A → Dialogs A
  open_dialog o s = record s {
    next_id = suc s.next_id;
    entries =
        s.entries
        ++ record {
          id = suc s.next_id;
          content = given o.content;
          dismissible = or_else o.dismissible false;
          size = or_else o.size sm;
          class_name = o.class_name;
          show_close_button = o.show_close_button;
        }
          ∷ [];
  }

  unfoldable pub confirm : ConfirmOptions → Dialogs A → Dialogs A
  confirm o s = record s {
    next_id = suc s.next_id;
    entries =
        s.entries
        ++ record {
          id = suc s.next_id;
          content = confirmation o false;
          dismissible = false;
          size = or_else o.size sm;
          class_name = some "p-0";
          show_close_button = none;
        }
          ∷ [];
  }

  -- `setIsPending(b)` of a confirmation that is still shown.
  unfoldable pub with_pending : ℕ → Bool → DialogEntry A → DialogEntry A
  with_pending id b e = elim e.content [
    | given a ↦ e
    | confirmation o p ↦ if eqb e.id id then record e { content = confirmation o b } else e
  ]

  unfoldable pub set_pending : ℕ → Bool → List (DialogEntry A) → List (DialogEntry A)
  unfolding with_pending
  set_pending id b es = map (with_pending id b) es

  -- The buttons of a confirmation are enabled while nothing is pending.
  unfoldable pub is_enabled : ℕ → List (DialogEntry A) → Bool
  is_enabled id es =
      any
        (λ e. elim e.content [
          | given a ↦ false
          | confirmation o p ↦ if eqb e.id id then not p else false
        ])
        es

  -- A click on the confirm button: `handleConfirm` up to its `await`.
  unfoldable pub click_confirm : ℕ → Dialogs A → Dialogs A
  unfolding set_pending
  click_confirm id s =
      if is_enabled id s.entries
      then record s { entries = set_pending id true s.entries; confirmed = s.confirmed ++ id ∷ [] }
      else s

  -- A click on the cancel button.
  unfoldable pub click_cancel : ℕ → Dialogs A → Dialogs A
  click_cancel id s = if is_enabled id s.entries then close_dialog (some id) s else s

  -- `onConfirm` is over, well or not: the rest of `handleConfirm`.
  unfoldable pub on_confirmed : ℕ → Bool → Dialogs A → Dialogs A
  unfolding set_pending
  on_confirmed id is_ok s =
      let s' =
        if is_ok then close_dialog (some id) s else record s { failures = s.failures ++ id ∷ [] } in
      record s' { entries = set_pending id false s'.entries }

pub data DialogEvent (A : Type 0) : Type 0 where
  opened : OpenDialogOptions A → DialogEvent A
  asked : ConfirmOptions → DialogEvent A
  -- a call of `close`, or the end of `open` by Escape, the close button or a click outside
  closed : Option ℕ → DialogEvent A
  all_closed : DialogEvent A
  confirm_clicked cancel_clicked : ℕ → DialogEvent A
  confirm_ended : ℕ → (is_ok : Bool) → DialogEvent A

module _ {A : Type 0} where
  unfoldable pub handle_dialog : DialogEvent A → Dialogs A → Dialogs A
  handle_dialog (opened o) s = open_dialog o s
  handle_dialog (asked o) s = confirm o s
  handle_dialog (closed id) s = close_dialog id s
  handle_dialog all_closed s = close_all s
  handle_dialog (confirm_clicked id) s = click_confirm id s
  handle_dialog (cancel_clicked id) s = click_cancel id s
  handle_dialog (confirm_ended id is_ok) s = on_confirmed id is_ok s

  -- The dialogs after a list of events.
  unfoldable pub run_dialogs : List (DialogEvent A) → Dialogs A → Dialogs A
  run_dialogs [] s = s
  run_dialogs (e ∷ es) s = run_dialogs es (handle_dialog e s)
