-- ===== src/Session/Tests.antt =====
-- Sign-ins, and the theorems at concrete inputs.
use vidsilo.Base.{ℕ, ◌≡◌, refl, true, false, none, some, [], ◌∷◌}
use vidsilo.Formatting.{add_issues, field_errors}
use vidsilo.Session.{
  session, me_answered, login_answered, on_me, on_login, on_logout, handle_session, run_session,
  page, login_for, admin_gate, next_path, LoginForm, type_email, type_password, submit_login,
  on_login_end, submit_password, on_password_end,
}
use vidsilo.Session.Return.{names_host, names_host-next_path}
use vidsilo.Session.Signing.{admin_gate-run_session}

sessions : Unit {0}
unfolding add_issues field_errors session on_me on_login on_logout handle_session run_session
    admin_gate next_path type_email type_password submit_login on_login_end submit_password
    on_password_end
sessions = tt

abbrev typed_login : LoginForm
typed_login = record {
  email = "a";
  password = "";
  show_password = false;
  busy = false;
  errors = [];
}

no_double_login : (submit_login (λ f. none) (submit_login (λ f. none) typed_login).0).1 ≡ false
unfolding sessions
no_double_login = refl

empty_password_refused :
    (submit_login
      (λ f. some (record { path = some "password"; message = "Password is required" } ∷ []))
      typed_login)
    ≡ (record typed_login { errors = ("password", "Password is required") ∷ [] }, false)
unfolding sessions
empty_password_refused = refl

emptied :
    (on_password_end true
      (record { current = "a"; next = "b"; confirm = "b"; busy = true; errors = [] })).next
    ≡ ""
unfolding sessions
emptied = refl

elsewhere_refused : next_path (some "//example.org") ≡ "/admin/dashboard"
unfolding sessions
elsewhere_refused = refl

names_host-next_path_example :
    (names_host (next_path (some "/admin/users")) ≡ false)
    × (next_path (some "/\\example.org") ≡ "/\\example.org")
    × (names_host (next_path (some "/\\example.org")) ≡ true)
names_host-next_path_example = names_host-next_path "/admin/users" "example.org" refl

admin_gate-run_session_example :
    (admin_gate "/admin/users" (
        run_session
          (login_answered (some 4) ∷ login_answered none ∷ [])
          (on_me none (session {U = ℕ})))
      ≡ page)
    × (admin_gate "/admin/users"
          (run_session (login_answered (some 4) ∷ me_answered none ∷ []) (session {U = ℕ}))
        ≡ login_for "/admin/users")
unfolding sessions
admin_gate-run_session_example =
    admin_gate-run_session {U = ℕ} "/admin/users" 4 none (login_answered none ∷ []) session refl
      refl
