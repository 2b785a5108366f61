-- ===== src/Theme/Tests.antt =====
-- Themes of two tabs, and the theorem at a concrete input.
use vidsilo.Base.{◌≡◌, refl, true, false, none, some, List, [], ◌∷◌}
use vidsilo.Theme.{
  dark, light, resolve_theme, ThemePage, snapshot, apply_theme, show, on_change, on_mount,
  set_theme, toggle, ThemeEvent, chosen, toggled, stored_elsewhere, preference_changed,
  handle_theme, run_theme,
}
use vidsilo.Theme.Matched.{IsDrawn, IsMatched, run_theme-IsMatched}

themes : Unit {0}
unfolding resolve_theme snapshot apply_theme show on_change on_mount set_theme toggle handle_theme
    run_theme
themes = tt

abbrev first_visit : ThemePage
first_visit = record { stored = none; prefers_light = true; theme = dark; has_dark_class = true }

abbrev evening : List ThemeEvent
evening = toggled ∷ stored_elsewhere (some "light") ∷ chosen dark ∷ []

light_at_first : (on_mount first_visit).theme ≡ light
unfolding themes
light_at_first = refl

run_theme-IsMatched_example :
    IsDrawn (run_theme (preference_changed false ∷ evening) (on_mount first_visit))
    × IsMatched (run_theme evening (on_mount first_visit))
    × ((set_theme dark first_visit).theme ≡ dark)
    × ((set_theme dark first_visit).has_dark_class ≡ true)
    × (snapshot (set_theme dark first_visit) ≡ dark)
    × ((run_theme (preference_changed false ∷ []) (on_mount first_visit)).theme ≡ light)
    × (snapshot (run_theme (preference_changed false ∷ []) (on_mount first_visit)) ≡ dark)
unfolding themes
run_theme-IsMatched_example =
    run_theme-IsMatched (preference_changed false ∷ evening) evening first_visit dark false refl
