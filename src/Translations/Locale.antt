-- ===== src/Translations/Locale.antt =====
-- web/lib/i18n.tsx: the locale in force, and the site's default one.
use Prim.Native.String.{String}
use vidsilo.Base.{
  Bool, true, false, not, ◌&&◌, Option, none, some, List, [], ◌∷◌, any, ◌==◌, truthy, or_else,
  if◌then◌else◌,
}

unfoldable pub locales : List String
locales = "en" ∷ []

-- `locales.includes(s)`
unfoldable pub is_locale : List String → String → Bool
is_locale offered s = any (λ l. l == s) offered

-- The provider: the locale shown, the stored item `lang`, and whether the default was asked for. `is_browser`
-- is `typeof window !== "undefined"`.
pub record Provider : Type 0 where
  pub is_browser : Bool
  pub offered : List String
  pub locale : String
  pub stored_lang : Option String
  pub default_lang_applied : Bool

-- The first render.
unfoldable pub first_locale : Bool → List String → Option String → String
unfolding is_locale
first_locale is_browser offered stored =
    if is_browser && is_locale offered (or_else stored "") then or_else stored "" else "en"

unfoldable pub provider : Bool → List String → Option String → Provider
unfolding first_locale
provider is_browser offered stored = record {
  is_browser = is_browser;
  offered = offered;
  locale = first_locale is_browser offered stored;
  stored_lang = stored;
  default_lang_applied = false;
}

-- The effect: the provider, and whether the site's configuration is asked for.
unfoldable pub on_mount : Provider → Provider × Bool
on_mount p =
    if not p.is_browser
    then (p, false)
    else if p.default_lang_applied
    then (p, false)
    else if truthy p.stored_lang
    then (p, false)
    else (record p { default_lang_applied = true }, true)

-- The answer to that: the site's default locale, or none where it fails.
unfoldable pub on_site_config : Option String → Provider → Provider
unfolding is_locale
on_site_config none p = p
on_site_config (some lang) p = if is_locale p.offered lang then record p { locale = lang } else p

-- `setLocale`
unfoldable pub set_locale : String → Provider → Provider
set_locale next p = record p { locale = next; stored_lang = some next }

pub data ProviderEvent : Type 0 where
  mounted : ProviderEvent
  site_config_answered : Option String → ProviderEvent
  locale_chosen : String → ProviderEvent

unfoldable pub handle_provider : ProviderEvent → Provider → Provider
unfolding on_mount on_site_config set_locale
handle_provider mounted p = (on_mount p).0
handle_provider (site_config_answered lang) p = on_site_config lang p
handle_provider (locale_chosen next) p = set_locale next p

unfoldable pub run_provider : List ProviderEvent → Provider → Provider
unfolding handle_provider
run_provider [] p = p
run_provider (e ∷ es) p = run_provider es (handle_provider e p)
