-- ===== src/Translations/Tests.antt =====
-- Messages with values, and the theorem at a concrete input.
use vidsilo.Base.{◌≡◌, refl, true, none, some, [], ◌∷◌, Dict, ◌==◌}
use vidsilo.Base.Numerals.{digits, decimal}
use vidsilo.Translations.{
  expand, drop, replace_from, replace_all, braced, Value, text, number, shown, is_one, enriched,
  fill_all, t,
}
use vidsilo.Translations.Pieces.{pieces_text, map_pieces}
use vidsilo.Translations.Messages.{english, pieces_of}
use vidsilo.Translations.Filled.{meant_piece, t_fills}
use vidsilo.Translations.Locale.{
  locales, is_locale, first_locale, provider, on_mount, on_site_config, set_locale, mounted,
  site_config_answered, locale_chosen, handle_provider, run_provider,
}

translations : Unit {0}
unfolding digits decimal expand drop replace_from replace_all braced shown is_one enriched fill_all
    t pieces_of locales is_locale first_locale provider on_mount on_site_config set_locale
    handle_provider run_provider
translations = tt

abbrev counted : Dict Value
counted = ("n", number 3) ∷ []

two_files : t (λ s. s == "1") english english "uploadStartN" (some counted) ≡ some "Upload 3 files"
unfolding translations
two_files = refl

one_file :
    t (λ s. s == "1") english english "uploadStartN" (some (("n", number 1) ∷ []))
    ≡ some "Upload 1 file"
unfolding translations
one_file = refl

-- `$` in a value is not taken as it is.
dollars_lost :
    t (λ s. s == "1") english english "playersDeleteTitle" (some (("name", text "US$$") ∷ []))
    ≡ some "Delete US$?"
unfolding translations
dollars_lost = refl

needle_shown :
    t (λ s. s == "1") english english "playersDeleteTitle" (some (("name", text "R$&D") ∷ []))
    ≡ some "Delete R{name}D?"
unfolding translations
needle_shown = refl

-- The site's default locale comes after the user's choice, and replaces it.
choice_replaced :
    (run_provider
      (mounted ∷ locale_chosen "en" ∷ site_config_answered (some "de") ∷ [])
      (provider true ("en" ∷ "de" ∷ []) none)).locale
    ≡ "de"
unfolding translations
choice_replaced = refl

t_fills_example :
    t (λ s. s == "1") english english "uploadStartN" (some counted)
    ≡ some (
        pieces_text
          (map_pieces (meant_piece (λ s. s == "1") counted) (pieces_of "Upload {n} file{s}")))
unfolding translations
t_fills_example =
    t_fills (λ s. s == "1") "uploadStartN" "Upload {n} file{s}" counted refl
      ((refl, refl, refl), tt)
