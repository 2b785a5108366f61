-- ===== src/Settings/Saving.antt =====
-- web/app/admin/settings/page.tsx and internal/settings/settings.go: what a saved group sends, and
-- what the server says to it.
use Prim.Native.String
use package.text.Mathlib.TextLemmas.{nil-append, cons-append}
use vidsilo.Base.{
  ℕ, ◌++◌, ◌≡◌, refl, ap, ◌∙◌, inl, inr, Bool, false, not, none, some, List, [], ◌∷◌, map, String,
  if◌then◌else◌, All, keep, Bool-cases, is_blank, trim, split_at, join, trim_start, trim_end,
  is_space, ◌==◌, eq_refl, eq_iff, sym,
}
use vidsilo.Base.Words.{split_at_whole, split_at_first, IsWord, clean_words, clean_words_whole}
use vidsilo.Settings.{
  SettingValue, text, number, flag, texts, missing, is_comma, is_flag, setting, set_setting, str,
  patch_value, patch_of, edit_input, SettingsPage, on_input, save_group, KeySpec, a_list, validate,
}

abbrev spaced : String → String
spaced w = String.◌∷◌ " " w

comma_space : (s : String) → String.◌++◌ ", " s ≡ String.◌∷◌ "," (spaced s)
comma_space s =
    cons-append "," " " s
    ∙ ap (String.◌∷◌ ",") (cons-append " " String.[] s ∙ ap spaced (nil-append s))

split_at-spaced :
    (s w : String) (ws : List String)
    → split_at is_comma s ≡ w ∷ ws
    → split_at is_comma (spaced s) ≡ spaced w ∷ ws
unfolding split_at
split_at-spaced s w ws e = rw (split_at, e) refl

split_at-join :
    (d : String) (ds : List String)
    → All (IsWord is_comma) (d ∷ ds)
    → split_at is_comma (join ", " (d ∷ ds)) ≡ d ∷ map spaced ds
unfolding join
split_at-join d [] (h, hs) = split_at_whole is_comma d h.whole
split_at-join d (e ∷ ds) (h, hs) =
    ap (λ l. split_at is_comma (String.◌++◌ d l)) (comma_space (join ", " (e ∷ ds)))
    ∙ split_at_first is_comma d "," (spaced (join ", " (e ∷ ds))) h.whole refl
    ∙ ap (λ l. d ∷ l)
        (split_at-spaced (join ", " (e ∷ ds)) e (map spaced ds) (split_at-join e ds hs))

trim-spaced : (w : String) → trim (spaced w) ≡ trim w
unfolding trim trim_start is_space
trim-spaced w = refl

trimmed_spaced : (ws : List String) → map trim (map spaced ws) ≡ map trim ws
trimmed_spaced [] = refl
trimmed_spaced (w ∷ ws) = rw (trim-spaced w, trimmed_spaced ws) refl

clean_words-spaced :
    (d : String) (ds : List String) → clean_words (d ∷ map spaced ds) ≡ clean_words (d ∷ ds)
unfolding clean_words
clean_words-spaced d ds = ap (λ l. keep (λ w. not (is_blank w)) (trim d ∷ l)) (trimmed_spaced ds)

clean_words-join :
    (ds : List String)
    → All (IsWord is_comma) ds
    → clean_words (split_at is_comma (join ", " ds)) ≡ ds
unfolding clean_words join split_at trim trim_start trim_end
clean_words-join [] h = refl
clean_words-join (d ∷ ds) h =
    ap clean_words (split_at-join d ds h)
    ∙ clean_words-spaced d ds
    ∙ clean_words_whole is_comma (d ∷ ds) h

-- A setting that the server has: the words of a list are trimmed, not empty and without commas.
abbrev pub IsStored : {N : Type 0} → SettingValue N → Type 0
IsStored (texts ws) = All (IsWord is_comma) ws
IsStored missing = ⊥
IsStored _ = Unit

-- The settings of the keys, without the switches.
abbrev pub unflagged :
    {N : Type 0} → List String → List (String × SettingValue N) → List (String × SettingValue N)
unflagged [] s = []
unflagged (k ∷ ks) s =
    if is_flag (setting k s) then unflagged ks s else (k, setting k s) ∷ unflagged ks s

setting-set_setting :
    {N : Type 0} (k : String) (v : SettingValue N) (s : List (String × SettingValue N))
    → setting k (set_setting k v s) ≡ v
unfolding setting set_setting
setting-set_setting k v [] = rw (setting, eq_refl k) refl
setting-set_setting k v ((i, w) ∷ s) = elim (Bool-cases (i == k)) [
  | inl e ↦ rw (set_setting, e, setting, eq_refl k) refl
  | inr e ↦ rw (set_setting, e, setting, e) (setting-set_setting k v s)
]

setting-set_other :
    {N : Type 0} (k i : String) (v : SettingValue N) (s : List (String × SettingValue N))
    → (k == i) ≡ false
    → setting i (set_setting k v s) ≡ setting i s
unfolding setting set_setting
setting-set_other k i v [] n = rw (setting, n) refl
setting-set_other k i v ((j, w) ∷ s) n = elim (Bool-cases (j == k)) [
  | inl e ↦
      let other : (j == i) ≡ false = ap (λ l. l == i) ((eq_iff j k).0 e) ∙ n in
      rw (set_setting, e, setting, n, other) refl
  | inr e ↦
      rw (set_setting, e, setting) (ap (λ r. if j == i then w else r) (setting-set_other k i v s n))
]

module _ {N : Type 0} (number_of : String → N) (text_of : N → String)
    (number_of-text_of : (n : N) → number_of (text_of n) ≡ n) where
  patch_value_stored :
      (v : SettingValue N)
      → IsStored v
      → patch_value number_of text_of v ≡ (if is_flag v then none else some v)
  unfolding patch_value str
  patch_value_stored (text t) h = refl
  patch_value_stored (number n) h = ap (λ m. some (number m)) (number_of-text_of n)
  patch_value_stored (flag b) h = refl
  patch_value_stored missing h = elim h [ ]
  patch_value_stored (texts ws) h = ap (λ l. some (texts l)) (clean_words-join ws h)

  -- Saving a group that was not edited sends its settings as they are, without the switches. The
  -- settings are there, the words of a list are trimmed, not empty and without commas, and a number
  -- that is written is read as itself.
  patch_of_stored :
      (ks : List String) (s : List (String × SettingValue N))
      → All (λ k. IsStored (setting k s)) ks
      → patch_of number_of text_of ks s ≡ unflagged ks s
  unfolding patch_of
  patch_of_stored [] s h = refl
  patch_of_stored (k ∷ ks) s (h, hs) =
      let e = patch_value_stored (setting k s) h in
      elim (Bool-cases (is_flag (setting k s))) [
        | inl f ↦ rw (patch_of, e, f) (patch_of_stored ks s hs)
        | inr f ↦ rw (patch_of, e, f) (ap (λ l. (k, setting k s) ∷ l) (patch_of_stored ks s hs))
      ]

  -- What is sent for a setting into whose input a text was typed.
  abbrev pub retyped : String → SettingValue N → SettingValue N
  retyped typed (number n) = number (number_of typed)
  retyped typed _ = text typed

  patch_value-edit_input :
      (typed : String) (v : SettingValue N)
      → patch_value number_of text_of (edit_input number_of text_of typed v)
        ≡ some (retyped typed v)
  unfolding patch_value edit_input str
  patch_value-edit_input typed (text t) = refl
  patch_value-edit_input typed (number n) =
      ap (λ m. some (number m)) (number_of-text_of (number_of typed))
  patch_value-edit_input typed (flag b) = refl
  patch_value-edit_input typed (texts ws) = refl
  patch_value-edit_input typed missing = refl

  retyped_refused :
      (is_whole : N → Bool) (is_below is_above : N → ℕ → Bool) (spec : KeySpec) (typed : String)
      (v : SettingValue N)
      → spec.type ≡ a_list
      → validate is_whole is_below is_above spec (retyped typed v) ≡ false
  unfolding validate
  retyped_refused is_whole is_below is_above spec typed (text t) e = rw (validate, e) refl
  retyped_refused is_whole is_below is_above spec typed (number n) e = rw (validate, e) refl
  retyped_refused is_whole is_below is_above spec typed (flag b) e = rw (validate, e) refl
  retyped_refused is_whole is_below is_above spec typed (texts ws) e = rw (validate, e) refl
  retyped_refused is_whole is_below is_above spec typed missing e = rw (validate, e) refl

  on_input_loaded :
      (k typed : String) (p : SettingsPage N) (s : List (String × SettingValue N))
      → p.loaded ≡ some s
      → on_input number_of text_of k typed p ≡ record p {
        loaded = some (set_setting k (edit_input number_of text_of typed (setting k s)) s);
      }
  unfolding on_input
  on_input_loaded k typed p s e = rw (on_input, e) refl

  -- What saving a group sends after a text was typed for one setting: the other settings as they
  -- are, without the switches.
  abbrev pub resent :
      (k typed : String)
      → List String
      → List (String × SettingValue N)
      → List (String × SettingValue N)
  resent k typed [] s = []
  resent k typed (i ∷ ks) s =
      if k == i
      then (i, retyped typed (setting k s)) ∷ resent k typed ks s
      else if is_flag (setting i s)
      then resent k typed ks s
      else (i, setting i s) ∷ resent k typed ks s

  patch_of_edited :
      (k typed : String) (ks : List String) (s : List (String × SettingValue N))
      → All (λ i. IsStored (setting i s)) ks
      → patch_of number_of text_of ks
          (set_setting k (edit_input number_of text_of typed (setting k s)) s)
        ≡ resent k typed ks s
  unfolding patch_of
  patch_of_edited k typed [] s h = refl
  patch_of_edited k typed (i ∷ ks) s (h, hs) =
      let w = edit_input number_of text_of typed (setting k s) in
      elim (Bool-cases (k == i)) [
        | inl e ↦
            let here : setting i (set_setting k w s) ≡ w =
              ap (λ l. setting l (set_setting k w s)) (sym ((eq_iff k i).0 e))
              ∙ setting-set_setting k w s in
            rw (patch_of, e, here, patch_value-edit_input typed (setting k s))
              (ap (λ l. (i, retyped typed (setting k s)) ∷ l) (patch_of_edited k typed ks s hs))
        | inr e ↦
            let other = setting-set_other k i w s e in
            elim (Bool-cases (is_flag (setting i s))) [
              | inl f ↦
                  rw (patch_of, e, other, patch_value_stored (setting i s) h, f)
                    (patch_of_edited k typed ks s hs)
              | inr f ↦
                  rw (patch_of, e, other, patch_value_stored (setting i s) h, f)
                    (ap (λ l. (i, setting i s) ∷ l) (patch_of_edited k typed ks s hs))
            ]
      ]

  -- Typing a text into the input of a setting and saving a group sends, in the order of the group's
  -- keys and for this setting, the number that the text is read as where the setting was a number,
  -- and else the text; and the other settings of the group as they are, without the switches. The
  -- server refuses what is sent of a setting that it keeps as a list, whatever is typed. The settings
  -- of the group are there, the words of a list are trimmed, not empty and without commas, and a
  -- number that is written is read as itself.
  pub save_group-on_input :
      (is_whole : N → Bool) (is_below is_above : N → ℕ → Bool) (spec : KeySpec) (k typed : String)
      (ks : List String) (p : SettingsPage N) (s : List (String × SettingValue N))
      → p.loaded ≡ some s
      → All (λ i. IsStored (setting i s)) ks
      → spec.type ≡ a_list
      → let t = save_group number_of text_of ks (on_input number_of text_of k typed p) in
        (t.sent ≡ p.sent ++ resent k typed ks s ∷ [])
        × (validate is_whole is_below is_above spec (retyped typed (setting k s)) ≡ false)
  unfolding save_group
  save_group-on_input is_whole is_below is_above spec k typed ks p s e h l = (
    ap (λ q. (save_group number_of text_of ks q).sent) (on_input_loaded k typed p s e)
        ∙ ap (λ l. p.sent ++ l ∷ []) (patch_of_edited k typed ks s h),
    retyped_refused is_whole is_below is_above spec typed (setting k s) l,
  )
