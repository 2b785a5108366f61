-- ===== src/Settings/Tests.antt =====
-- A group of settings, and the theorems at concrete inputs.
use vidsilo.Base.{
  ltb, ℕ, zero, suc, ◌≡◌, refl, ap, true, false, some, List, [], ◌∷◌, ◌++◌, String, split_at, join,
  trim, trim_start, trim_end, is_space,
}
use vidsilo.Base.Words.{clean_words}
use vidsilo.Settings.{
  SettingValue, text, number, flag, texts, setting, set_setting, str, patch_value, patch_of,
  edit_input, SettingsPage, on_input, save_group, on_group_saved, on_bool_saved, set_bool, fresh,
  KeySpec, a_list, an_int, validate,
}
use vidsilo.Settings.Saving.{retyped, resent, save_group-on_input}

saving_group : Unit {0}
unfolding clean_words setting set_setting str patch_value patch_of edit_input on_input save_group
    on_group_saved on_bool_saved set_bool validate split_at join trim trim_start trim_end is_space
saving_group = tt

-- A number is written as so many letters.
abbrev number_of : String → ℕ
number_of String.[] = 0
number_of (String.◌∷◌ c s) = suc (number_of s)

abbrev text_of : ℕ → String
text_of zero = String.[]
text_of (suc n) = String.◌∷◌ "1" (text_of n)

number_of-text_of : (n : ℕ) → number_of (text_of n) ≡ n
number_of-text_of zero = refl
number_of-text_of (suc n) = ap suc (number_of-text_of n)

abbrev general : List (String × SettingValue ℕ)
general =
    ("site_name", text "Films")
    ∷ ("upload.max_size_bytes", number 4)
    ∷ ("cache.enabled", flag true)
    ∷ ("upload.allowed_extensions", texts ("mp4" ∷ "mov" ∷ []))
    ∷ []

abbrev general_keys : List String
general_keys =
    "site_name" ∷ "upload.max_size_bytes" ∷ "cache.enabled" ∷ "upload.allowed_extensions" ∷ []

abbrev settings_page : SettingsPage ℕ
settings_page = record { loaded = some general; saving = false; sent = []; toasts = [] }

abbrev list_spec : KeySpec
list_spec = record { type = a_list; enums = []; int_min = 0; int_max = 0 }

-- A switch is saved: what was typed and not saved is gone.
typed_and_lost :
    (on_bool_saved (fresh general) (
      set_bool "cache.enabled" true
        (on_input number_of text_of "site_name" "Videos" settings_page))).loaded
    ≡ some general
unfolding saving_group
typed_and_lost = refl

abbrev listed : String
listed = "upload.allowed_extensions"

abbrev int_spec : KeySpec
int_spec = record { type = an_int; enums = []; int_min = 1; int_max = 10 }

-- A number that is not whole, one that is below the least, and one that is accepted.
ints_validated :
    (validate (λ n. false) ltb (λ n k. ltb k n) int_spec (number 4) ≡ false)
    × (validate (λ n. true) ltb (λ n k. ltb k n) int_spec (number 0) ≡ false)
    × (validate (λ n. true) ltb (λ n k. ltb k n) int_spec (number 4) ≡ true)
unfolding saving_group
ints_validated = (refl, refl, refl)

group_sent :
    (save_group number_of text_of general_keys
      (on_input number_of text_of listed "mp4, webm" settings_page)).sent
    ≡ (("site_name", text "Films")
        ∷ ("upload.max_size_bytes", number 4)
        ∷ (listed, text "mp4, webm")
        ∷ [])
      ∷ []
unfolding saving_group
group_sent = refl

save_group-on_input_example :
    ((save_group number_of text_of general_keys
        (on_input number_of text_of listed "mp4, webm" settings_page)).sent
      ≡ []
        ++ resent number_of text_of number_of-text_of listed "mp4, webm" general_keys general ∷ [])
    × (validate
          (λ n. true)
          ltb
          (λ n k. ltb k n)
          list_spec
          (retyped number_of text_of number_of-text_of "mp4, webm" (setting listed general))
        ≡ false)
unfolding saving_group
save_group-on_input_example =
    save_group-on_input number_of text_of number_of-text_of (λ n. true) ltb (λ n k. ltb k n)
      list_spec listed "mp4, webm" general_keys settings_page general refl
      (
        tt,
        (
          tt,
          (
            tt,
            (
              (
                record { trimmed = refl; there = refl; whole = refl },
                (record { trimmed = refl; there = refl; whole = refl }, tt),
              ),
              tt,
            ),
          ),
        ),
      )
      refl
