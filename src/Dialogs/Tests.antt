-- ===== src/Dialogs/Tests.antt =====
-- Runs of the dialogs, and the theorems at concrete inputs.
use vidsilo.Base.{suc, ◌≡◌, refl, true, false, none, some, List, [], ◌∷◌, ◌++◌, String, arith}
use vidsilo.Dialogs.{
  ConfirmOptions, OpenDialogOptions, Dialogs, DialogEvent, opened, asked, closed, confirm_clicked,
  close_dialog, open_dialog, confirm, click_confirm, click_cancel, on_confirmed, run_dialogs,
  handle_dialog, drop_last, set_pending, with_pending, is_enabled,
}
use vidsilo.Dialogs.Order.{IsStack, run_dialogs-IsStack}
use vidsilo.Dialogs.Confirming.{click_confirm-confirm}

-- What a run of the dialogs computes with.
dialogs : Unit {0}
unfolding close_dialog open_dialog confirm click_confirm click_cancel on_confirmed run_dialogs
    handle_dialog drop_last set_pending with_pending is_enabled
dialogs = tt

abbrev none_open : Dialogs String
none_open = record { entries = []; next_id = 0; confirmed = []; failures = [] }

abbrev upload : OpenDialogOptions String
upload = record {
  content = "upload";
  dismissible = none;
  size = none;
  class_name = none;
  show_close_button = some true;
}

abbrev discard : ConfirmOptions
discard = record {
  title = "Discard?";
  description = none;
  confirm_label = none;
  cancel_label = none;
  variant = none;
  size = none;
}

-- The first of two dialogs is closed, and its number is not used again.
abbrev some_events : List (DialogEvent String)
some_events =
    opened upload ∷ opened upload ∷ closed (some 1) ∷ asked discard ∷ confirm_clicked 3 ∷ []

abbrev some_open : Dialogs String
some_open = run_dialogs some_events none_open

calls_action : some_open.confirmed ≡ 3 ∷ []
unfolding dialogs
calls_action = refl

some_open-IsStack : IsStack some_open
unfolding dialogs
some_open-IsStack = (omega arith, (omega arith, tt), (omega arith, tt, tt))

run_dialogs-IsStack_example : IsStack some_open
run_dialogs-IsStack_example = run_dialogs-IsStack some_events none_open tt

click_confirm-confirm_example :
    let id = suc some_open.next_id in
    let t = click_confirm id (confirm discard some_open) in
    (t.confirmed ≡ some_open.confirmed ++ id ∷ [])
    × (click_confirm id t ≡ t)
    × (click_cancel id t ≡ t)
    × ((on_confirmed id true t).entries ≡ some_open.entries)
    × ((on_confirmed id false t).entries ≡ (confirm discard some_open).entries)
click_confirm-confirm_example = click_confirm-confirm discard some_open some_open-IsStack
