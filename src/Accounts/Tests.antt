-- ===== src/Accounts/Tests.antt =====
-- Two users and a viewer, and the theorems at concrete inputs.
use vidsilo.Base.{
  ◌≡◌, refl, true, false, none, some, [], ◌∷◌, String, insert, trim, trim_start, trim_end, is_space,
}
use vidsilo.Formatting.{add_issues, field_errors}
use vidsilo.Dialogs.{ConfirmOptions, Dialogs}
use vidsilo.Accounts.{
  admin, editor, User, display_name, active_count, disabled_count, user_summary, viewer_summary,
  user_form, edit_user, save_user, submit_user, viewer_form, submit_viewer, AccountsPage,
  on_removed, on_user_removed,
}

accounts : Unit {0}
unfolding is_space trim trim_start trim_end insert add_issues field_errors display_name active_count
    disabled_count user_summary viewer_summary user_form edit_user save_user submit_user viewer_form
    submit_viewer on_removed on_user_removed
accounts = tt

abbrev ada : User
ada = record { id = 1; email = "ada@host"; name_surname = ""; role = admin; disabled = false }

abbrev bob : User
bob = record { id = 2; email = "bob@host"; name_surname = "Bob"; role = editor; disabled = true }

strip :
    user_summary (ada ∷ bob ∷ [])
    ≡ ("sumTotalUsers", 2)
      ∷ ("sumActiveUsers", 1)
      ∷ ("usersAdministrators", 1)
      ∷ ("sumDisabledUsers", 1)
      ∷ []
unfolding accounts
strip = refl

named_by_email : display_name ada.name_surname ada.email ≡ "ada@host"
unfolding accounts
named_by_email = refl

new_viewer_needs_password :
    (submit_viewer (record (viewer_form none) { email = " eve@host " })).1 ≡ none
unfolding accounts
new_viewer_needs_password = refl

trimmed :
    (submit_viewer (record (viewer_form none) { email = " eve@host "; password = "secret" })).1
    ≡ some (record {
      id = none;
      email = "eve@host";
      name_surname = "";
      password = "secret";
      disabled = false;
    })
unfolding accounts
trimmed = refl

abbrev question : ConfirmOptions
question = record {
  title = "deleteUserTitle";
  description = none;
  confirm_label = none;
  cancel_label = none;
  variant = none;
  size = none;
}

abbrev no_dialogs : Dialogs String
no_dialogs = record { entries = []; next_id = 0; confirmed = []; failures = [] }

abbrev quiet_page : AccountsPage
quiet_page = record { stale = false; toasts = [] }
