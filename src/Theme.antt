-- ===== src/Theme.antt =====
-- web/components/theme-provider.tsx: the theme that is stored, the one that React shows, and the class of the
-- document.
pub mod Matched
mod Tests
use Prim.Native.String.{String}
use vidsilo.Base.{
  Bool, true, false, not, ◌||◌, Option, none, some, List, [], ◌∷◌, if◌then◌else◌, ◌==◌,
}

pub data Theme : Type 0 where
  dark light : Theme

abbrev pub theme_name : Theme → String
theme_name dark = "dark"
theme_name light = "light"

-- `resolveTheme`
unfoldable pub resolve_theme : (prefers_light : Bool) → Option String → Theme
resolve_theme prefers_light none = if prefers_light then light else dark
resolve_theme prefers_light (some stored) =
    if stored == "light"
    then light
    else if stored == "dark"
    then dark
    else if prefers_light
    then light
    else dark

-- The page: the stored item, what the system prefers, what React has rendered, and whether the
-- document has the class `dark`.
pub record ThemePage : Type 0 where
  pub stored : Option String
  pub prefers_light : Bool
  pub theme : Theme
  pub has_dark_class : Bool

-- `getSnapshot`
unfoldable pub snapshot : ThemePage → Theme
unfolding resolve_theme
snapshot p = resolve_theme p.prefers_light p.stored

abbrev pub is_dark : Theme → Bool
is_dark dark = true
is_dark light = false

-- `applyTheme`
unfoldable pub apply_theme : Theme → ThemePage → ThemePage
apply_theme t p = record p { has_dark_class = is_dark t }

abbrev pub same_theme : Theme → Theme → Bool
same_theme dark t = is_dark t
same_theme light t = not (is_dark t)

-- React renders a snapshot where it is another one, and then the effect runs.
unfoldable pub show : Theme → ThemePage → ThemePage
unfolding apply_theme
show t p = if same_theme t p.theme then p else apply_theme t (record p { theme = t })

-- The callback of `subscribe`: React reads the snapshot.
unfoldable pub on_change : ThemePage → ThemePage
unfolding snapshot show
on_change p = show (snapshot p) p

-- The mount: the first render has the snapshot of the server, which is dark, with its effect; then
-- React reads the snapshot of the browser.
unfoldable pub on_mount : ThemePage → ThemePage
unfolding on_change apply_theme
on_mount p = on_change (apply_theme dark (record p { theme = dark }))

-- `set`
unfoldable pub set_theme : Theme → ThemePage → ThemePage
unfolding apply_theme on_change
set_theme next p = on_change (apply_theme next (record p { stored = some (theme_name next) }))

-- `toggle`
unfoldable pub toggle : ThemePage → ThemePage
unfolding set_theme
toggle p = set_theme (elim p.theme [ dark ↦ light | light ↦ dark ]) p

-- What happens: the user sets or toggles the theme, another tab stores one, or the system's preference
-- changes, which the provider does not listen to.
pub data ThemeEvent : Type 0 where
  chosen : Theme → ThemeEvent
  toggled : ThemeEvent
  stored_elsewhere : Option String → ThemeEvent
  preference_changed : (prefers_light : Bool) → ThemeEvent

unfoldable pub handle_theme : ThemeEvent → ThemePage → ThemePage
unfolding set_theme toggle on_change
handle_theme (chosen t) p = set_theme t p
handle_theme toggled p = toggle p
handle_theme (stored_elsewhere s) p = on_change (record p { stored = s })
handle_theme (preference_changed b) p = record p { prefers_light = b }

unfoldable pub run_theme : List ThemeEvent → ThemePage → ThemePage
unfolding handle_theme
run_theme [] p = p
run_theme (e ∷ es) p = run_theme es (handle_theme e p)
