-- ===== src/Accounts.antt =====
-- web/app/admin/users/page.tsx and web/app/admin/viewers/page.tsx: the lists of accounts, their numbers and
-- their forms. What the schemas of web/lib/validators.ts find is an argument. Toasts stand newest first.
pub mod Sent
mod Tests
use Prim.Native.String
use vidsilo.Base.{
  ℕ, ◌-◌, Bool, true, false, not, ◌&&◌, ◌||◌, Option, none, some, List, [], ◌∷◌, ◌++◌, String,
  if◌then◌else◌, count, length, is_empty, is_blank, is_some, or_else, ltb, trim, Dict, insert,
}
use vidsilo.Formatting.{Issue, field_errors}

pub data Role : Type 0 where
  admin editor uploader viewer : Role

pub record User : Type 0 where
  pub id : ℕ
  pub email : String
  pub name_surname : String
  pub role : Role
  pub disabled : Bool

pub record Viewer : Type 0 where
  pub id : ℕ
  pub email : String
  pub name_surname : String
  pub disabled : Bool

-- `displayName`
unfoldable pub display_name : String → String → String
display_name name email = if is_blank name then email else name

abbrev pub is_admin : User → Bool
is_admin u = elim u.role [ admin ↦ true | _ ↦ false ]

abbrev pub role_label : Role → String
role_label admin = "roleAdmin"
role_label editor = "roleEditor"
role_label uploader = "roleUploader"
role_label viewer = "roleViewer"

unfoldable pub active_count : List User → ℕ
active_count us = count (λ u. not u.disabled) us

unfoldable pub disabled_count : List User → ℕ
unfolding active_count
disabled_count us = length us - active_count us

-- The strip above the users.
unfoldable pub user_summary : List User → List (String × ℕ)
unfolding active_count disabled_count
user_summary us =
    (("sumTotalUsers", length us)
      ∷ ("sumActiveUsers", active_count us)
      ∷ ("usersAdministrators", count is_admin us)
      ∷ [])
    ++ (if ltb 0 (disabled_count us) then ("sumDisabledUsers", disabled_count us) ∷ [] else [])

-- The strip above the viewers.
unfoldable pub viewer_summary : List Viewer → List (String × ℕ)
viewer_summary vs =
    let active = count (λ v. not v.disabled) vs in
    ("navViewers", length vs)
    ∷ ("viewerActive", active)
    ∷ ("viewerDisabled", length vs - active)
    ∷ []

pub record UserForm : Type 0 where
  pub initial : Option User
  pub email : String
  pub name_surname : String
  pub password : String
  pub role : Role
  pub disabled : Bool
  pub errors : Dict String
  pub is_pending : Bool

-- The form as it opens, for a new user or for one that there is.
unfoldable pub user_form : Option User → UserForm
user_form none = record {
  initial = none;
  email = "";
  name_surname = "";
  password = "";
  role = viewer;
  disabled = false;
  errors = [];
  is_pending = false;
}
user_form (some u) = record {
  initial = some u;
  email = u.email;
  name_surname = u.name_surname;
  password = "";
  role = u.role;
  disabled = u.disabled;
  errors = [];
  is_pending = false;
}

pub data UserEdit : Type 0 where
  email_typed name_typed password_typed : String → UserEdit
  role_chosen : Role → UserEdit
  status_chosen : (is_disabled : Bool) → UserEdit

unfoldable pub edit_user : UserEdit → UserForm → UserForm
unfolding insert
edit_user (email_typed s) f = record f { email = s; errors = insert "email" "" f.errors }
edit_user (name_typed s) f = record f { name_surname = s }
edit_user (password_typed s) f = record f { password = s; errors = insert "password" "" f.errors }
edit_user (role_chosen r) f = record f { role = r }
edit_user (status_chosen b) f = record f { disabled = b }

-- What is sent: a field that is none is left out.
pub record UserBody : Type 0 where
  pub email : String
  pub name_surname : String
  pub role : Role
  pub disabled : Option Bool
  pub password : Option String

pub data UserRequest : Type 0 where
  post_user : UserBody → UserRequest
  patch_user : (id : ℕ) → UserBody → UserRequest

-- `saveUser`
unfoldable pub save_user : UserForm → UserRequest
save_user f = elim f.initial [
  | none ↦ post_user (record {
    email = f.email;
    name_surname = f.name_surname;
    role = f.role;
    disabled = none;
    password = some f.password;
  })
  | some u ↦ patch_user u.id (record {
    email = f.email;
    name_surname = f.name_surname;
    role = f.role;
    disabled = some f.disabled;
    password = if is_blank f.password then none else some f.password;
  })
]

-- `submit`: the form, and what is sent. The button is off while a request is pending.
unfoldable pub submit_user :
    (UserForm → Option (List Issue)) → UserForm → UserForm × Option UserRequest
unfolding save_user field_errors
submit_user found f =
    if f.is_pending
    then (f, none)
    else let errs = field_errors (found f) in
      if is_empty errs
      then (record f { errors = []; is_pending = true }, some (save_user f))
      else (record f { errors = errs }, none)

pub record ViewerForm : Type 0 where
  pub initial : Option Viewer
  pub email : String
  pub name_surname : String
  pub password : String
  pub disabled : Bool
  pub is_pending : Bool

unfoldable pub viewer_form : Option Viewer → ViewerForm
viewer_form none = record {
  initial = none;
  email = "";
  name_surname = "";
  password = "";
  disabled = false;
  is_pending = false;
}
viewer_form (some v) = record {
  initial = some v;
  email = v.email;
  name_surname = v.name_surname;
  password = "";
  disabled = v.disabled;
  is_pending = false;
}

-- The id that is patched, or none where a viewer is made, with the body.
pub record ViewerRequest : Type 0 where
  pub id : Option ℕ
  pub email : String
  pub name_surname : String
  pub password : String
  pub disabled : Bool

-- `onSubmit`: the form, and what is sent.
unfoldable pub submit_viewer : ViewerForm → ViewerForm × Option ViewerRequest
unfolding trim
submit_viewer f =
    if not f.is_pending
      && not (is_blank (trim f.email))
      && (is_some f.initial || not (is_blank f.password))
    then (
      record f { is_pending = true },
      some (record {
        id = elim f.initial [ none ↦ none | some v ↦ some v.id ];
        email = trim f.email;
        name_surname = trim f.name_surname;
        password = f.password;
        disabled = f.disabled;
      }),
    )
    else (f, none)

pub data Toast : Type 0 where
  deleted removal_failed : Toast

-- The list is asked for again where `stale` is set.
pub record AccountsPage : Type 0 where
  pub stale : Bool
  pub toasts : List Toast

-- The end of `removeUser` and of `removeViewer`, and whether it ends well.
unfoldable pub on_removed : Bool → AccountsPage → AccountsPage × Bool
on_removed true p = (record p { stale = true; toasts = deleted ∷ p.toasts }, true)
on_removed false p = (record p { toasts = removal_failed ∷ p.toasts }, false)

-- That end under the question of `askRemove` of the users, whose `onError` has a toast of its own.
unfoldable pub on_user_removed : Bool → AccountsPage → AccountsPage × Bool
unfolding on_removed
on_user_removed is_ok p =
    let (q, ends_well) = on_removed is_ok p in
    (if ends_well then q else record q { toasts = removal_failed ∷ q.toasts }, ends_well)
