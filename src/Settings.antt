-- ===== src/Settings.antt =====
-- web/app/admin/settings/page.tsx: the settings that are shown, edited and saved in groups, and
-- internal/settings/settings.go: what the server accepts as a setting. The floating-point numbers and
-- what is computed with them are arguments.
pub mod Saving
mod Tests
use vidsilo.Base.{
  ℕ, Bool, true, false, not, ◌&&◌, ◌||◌, Option, none, some, List, [], ◌∷◌, ◌++◌, String, leb, eqb,
  ltb, any, ◌==◌, if◌then◌else◌, or_else, lookup, insert, Dict, split_at, join, map,
}
use vidsilo.Base.Words.{clean_words}

-- A value of `s[k]`; `missing` is undefined.
pub data SettingValue (N : Type 0) : Type 0 where
  text : String → SettingValue N
  number : N → SettingValue N
  flag : Bool → SettingValue N
  texts : List String → SettingValue N
  missing : SettingValue N

abbrev pub is_comma : ℕ → Bool
is_comma c = eqb c 44

abbrev pub is_flag : {N : Type 0} → SettingValue N → Bool
is_flag (flag b) = true
is_flag _ = false

-- `s[k]`
unfoldable pub setting : {N : Type 0} → String → List (String × SettingValue N) → SettingValue N
setting k [] = missing
setting k ((i, v) ∷ s) = let rest = setting k s in if i == k then v else rest

-- `s[k] = v`
unfoldable pub set_setting :
    {N : Type 0}
    → String
    → SettingValue N
    → List (String × SettingValue N)
    → List (String × SettingValue N)
set_setting k v [] = (k, v) ∷ []
set_setting k v ((i, w) ∷ s) =
    let rest = set_setting k v s in if i == k then (k, v) ∷ s else (i, w) ∷ rest

-- What `Number` reads a text as, and `String` writes a number as.
module _ {N : Type 0} (number_of : String → N) (text_of : N → String) where
  -- `str`
  unfoldable pub str : SettingValue N → String
  str (text t) = t
  str (number n) = text_of n
  str (flag true) = "true"
  str (flag false) = "false"
  str (texts ws) = join ", " ws
  str missing = ""

  -- The field of `patch` for a value, none for a switch.
  unfoldable pub patch_value : SettingValue N → Option (SettingValue N)
  unfolding str
  patch_value (flag b) = none
  patch_value (texts ws) = some (texts (clean_words (split_at is_comma (str (texts ws)))))
  patch_value (number n) = some (number (number_of (str (number n))))
  patch_value (text t) = some (text (str (text t)))
  patch_value missing = some (text (str missing))

  -- The loop of `saveGroup`.
  unfoldable pub patch_of :
      List String → List (String × SettingValue N) → List (String × SettingValue N)
  unfolding patch_value
  patch_of [] s = []
  patch_of (k ∷ ks) s =
      let rest = patch_of ks s in
      elim (patch_value (setting k s)) [ none ↦ rest | some v ↦ (k, v) ∷ rest ]

  -- What an input puts for a value when a text is typed into it; a select puts the text itself.
  unfoldable pub edit_input : String → SettingValue N → SettingValue N
  edit_input typed (number n) = number (number_of typed)
  edit_input typed (text t) = text typed
  edit_input typed (flag b) = text typed
  edit_input typed (texts ws) = text typed
  edit_input typed missing = text typed

pub data SettingsToast : Type 0 where
  settings_saved saved : SettingsToast
  failed : (message : String) → SettingsToast

-- The state of the page, with the bodies of its PATCH requests.
pub record SettingsPage (N : Type 0) : Type 0 where
  pub loaded : Option (List (String × SettingValue N))
  pub saving : Bool
  pub sent : List (List (String × SettingValue N))
  pub toasts : List SettingsToast

-- What the PATCH and the GET after it came to: the settings, or the message of an error.
pub data Saved (N : Type 0) : Type 0 where
  fresh : List (String × SettingValue N) → Saved N
  thrown : (message : String) → Saved N

module _ {N : Type 0} (number_of : String → N) (text_of : N → String) where
  unfoldable pub on_input : String → String → SettingsPage N → SettingsPage N
  unfolding edit_input
  on_input k typed p = elim p.loaded [
    | none ↦ p
    | some s ↦ record p {
      loaded = some (set_setting k (edit_input number_of text_of typed (setting k s)) s);
    }
  ]

  -- `saveGroup`, up to its `await`.
  unfoldable pub save_group : List String → SettingsPage N → SettingsPage N
  unfolding patch_of
  save_group keys p = elim p.loaded [
    | none ↦ p
    | some s ↦ record p { saving = true; sent = p.sent ++ patch_of number_of text_of keys s ∷ [] }
  ]

-- `saveGroup` from its `await`.
unfoldable pub on_group_saved : {N : Type 0} → Saved N → SettingsPage N → SettingsPage N
on_group_saved (fresh s) p = record p {
  loaded = some s;
  toasts = p.toasts ++ settings_saved ∷ [];
  saving = false;
}
on_group_saved (thrown m) p = record p { toasts = p.toasts ++ failed m ∷ []; saving = false }

-- `setBool`, up to its `await` and from there.
unfoldable pub set_bool : {N : Type 0} → String → Bool → SettingsPage N → SettingsPage N
set_bool k v p = record p { sent = p.sent ++ ((k, flag v) ∷ []) ∷ [] }

unfoldable pub on_bool_saved : {N : Type 0} → Saved N → SettingsPage N → SettingsPage N
on_bool_saved (fresh s) p = record p { loaded = some s; toasts = p.toasts ++ saved ∷ [] }
on_bool_saved (thrown m) p = record p { toasts = p.toasts ++ failed m ∷ [] }

-- `KeySpec`
pub data SpecType : Type 0 where
  a_string an_int a_bool a_list an_enum : SpecType

pub record KeySpec : Type 0 where
  pub type : SpecType
  pub enums : List String
  pub int_min : ℕ
  pub int_max : ℕ

-- What the server computes with a number: whether it is whole, and how it compares with a bound.
module _ {N : Type 0} (is_whole : N → Bool) (is_below is_above : N → ℕ → Bool) where
  -- `Validate` of a known key: whether it returns no error.
  unfoldable pub validate : KeySpec → SettingValue N → Bool
  validate spec v = elim spec.type [
    | a_string ↦ elim v [ text t ↦ true | _ ↦ false ]
    | an_int ↦ elim v [
      | number n ↦
          is_whole n
          && not (not (eqb spec.int_min 0) && is_below n spec.int_min)
          && not (not (eqb spec.int_max 0) && is_above n spec.int_max)
      | _ ↦ false
    ]
    | a_bool ↦ elim v [ flag b ↦ true | _ ↦ false ]
    | a_list ↦ elim v [ texts ws ↦ true | _ ↦ false ]
    | an_enum ↦ elim v [ text t ↦ any (λ e. t == e) spec.enums | _ ↦ false ]
  ]
