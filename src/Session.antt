-- ===== src/Session.antt =====
-- web/components/auth-provider.tsx, the gate of web/app/admin/admin-shell.tsx, the form of
-- web/app/admin/login/page.tsx and web/components/change-password-dialog.tsx. What the schemas of
-- web/lib/validators.ts find is an argument; a user is a parameter.
pub mod Return
pub mod Signing
mod Tests
use Prim.Native.String
use vidsilo.Base.{
  Bool, true, false, not, ◌&&◌, Option, none, some, List, [], ◌∷◌, String, if◌then◌else◌, is_some,
  is_empty, starts_with, Dict, insert, ◌==◌,
}
use vidsilo.Formatting.{Issue, field_errors}

module _ (U : Type 0) where
  -- `is_asking` is set while the answer of `/api/auth/me` is awaited.
  pub record Session : Type 0 where
    pub user : Option U
    pub loading : Bool
    pub is_asking : Bool

-- What happens to the provider.
pub data SessionEvent (U : Type 0) : Type 0 where
  me_answered login_answered : Option U → SessionEvent U
  logout_answered : SessionEvent U

-- The gate of the admin pages: the loader, the page, or the login that returns to a path.
pub data Gate : Type 0 where
  loader page : Gate
  login_for : String → Gate

module _ {U : Type 0} where
  -- The provider as it is mounted.
  unfoldable pub session : Session U
  session = record { user = none; loading = true; is_asking = true }

  -- The answer of `/api/auth/me`, or none where it fails.
  unfoldable pub on_me : Option U → Session U → Session U
  on_me u s = record { user = u; loading = false; is_asking = false }

  -- The end of the request of `login`: the session, and whether `login` throws.
  unfoldable pub on_login : Option U → Session U → Session U × Bool
  on_login none s = (s, true)
  on_login (some u) s = (record s { user = some u }, false)

  -- The end of the request of `logout`, well or not.
  unfoldable pub on_logout : Session U → Session U
  on_logout s = record s { user = none }

  unfoldable pub handle_session : SessionEvent U → Session U → Session U
  unfolding on_me on_login on_logout
  handle_session (me_answered u) s = if s.is_asking then on_me u s else s
  handle_session (login_answered u) s = (on_login u s).0
  handle_session logout_answered s = on_logout s

  unfoldable pub run_session : List (SessionEvent U) → Session U → Session U
  unfolding handle_session
  run_session [] s = s
  run_session (e ∷ es) s = run_session es (handle_session e s)

  unfoldable pub admin_gate : String → Session U → Gate
  admin_gate pathname s =
      if pathname == "/admin/login"
      then page
      else if s.loading
      then loader
      else if is_some s.user
      then page
      else login_for pathname

-- `next`, of the parameter of that name.
unfoldable pub next_path : Option String → String
unfolding starts_with
next_path none = "/admin/dashboard"
next_path (some raw) =
    if not (raw == "") && starts_with "/" raw && not (starts_with "//" raw)
    then raw
    else "/admin/dashboard"

pub record LoginForm : Type 0 where
  pub email : String
  pub password : String
  pub show_password : Bool
  pub busy : Bool
  pub errors : Dict String

unfoldable pub type_email : String → LoginForm → LoginForm
unfolding insert
type_email s f = record f { email = s; errors = insert "email" "" f.errors }

unfoldable pub type_password : String → LoginForm → LoginForm
unfolding insert
type_password s f = record f { password = s; errors = insert "password" "" f.errors }

-- `onSubmit` up to its `await`: the form, and whether `login` is called. The button is off while busy.
unfoldable pub submit_login : (LoginForm → Option (List Issue)) → LoginForm → LoginForm × Bool
unfolding field_errors
submit_login found f =
    if f.busy
    then (f, false)
    else let errs = field_errors (found f) in
      if is_empty errs
      then (record f { errors = []; busy = true }, true)
      else (record f { errors = errs }, false)

-- The end of `login`, with the address that is gone to where it is well.
unfoldable pub on_login_end : Bool → Option String → LoginForm → LoginForm × Option String
unfolding next_path
on_login_end is_ok raw f = (record f { busy = false }, if is_ok then some (next_path raw) else none)

pub record PasswordForm : Type 0 where
  pub current : String
  pub next : String
  pub confirm : String
  pub busy : Bool
  pub errors : Dict String

-- `submit` of the password dialog up to its `await`: the form, and the two passwords that are sent.
unfoldable pub submit_password :
    (PasswordForm → Option (List Issue)) → PasswordForm → PasswordForm × Option (String × String)
unfolding field_errors
submit_password found f =
    if f.busy
    then (f, none)
    else let errs = field_errors (found f) in
      if is_empty errs
      then (record f { errors = []; busy = true }, some (f.current, f.next))
      else (record f { errors = errs }, none)

-- Its end: the fields are emptied where it is well.
unfoldable pub on_password_end : Bool → PasswordForm → PasswordForm
on_password_end true f = record f { current = ""; next = ""; confirm = ""; busy = false }
on_password_end false f = record f { busy = false }
