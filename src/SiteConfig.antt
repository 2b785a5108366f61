-- ===== src/SiteConfig.antt =====
-- web/lib/site-config.ts: the site's configuration, cached in local storage and fetched once for all
-- that ask meanwhile. A call of `getSiteConfig` is known by its number; times are in milliseconds.
pub mod Fetching
mod Tests
use vidsilo.Base.{
  ℕ, ◌+◌, ◌-◌, ◌*◌, Bool, true, false, not, ◌&&◌, Option, none, some, List, [], ◌∷◌, ◌++◌, map,
  String, if◌then◌else◌, ltb, Item, absent, corrupt, stored, truthy,
}

pub record SiteConfig : Type 0 where
  pub site_name : String
  pub default_lang : String
  pub library_mode : String
  pub version : String

abbrev pub cache_ttl_ms : ℕ
cache_ttl_ms = 5 * 60 * 1000

-- `CacheEntry`
pub record CacheEntry : Type 0 where
  pub config : SiteConfig
  pub ts : ℕ

-- A call is served, or rejected with what the request threw.
pub data Served : Type 0 where
  served : SiteConfig → Served
  rejected : Served

-- `in_flight` is set while a request is, and `waiting` are the calls that share it; `fetches` counts
-- the requests, `settled` has the calls in the order in which they were settled.
pub record ConfigCache : Type 0 where
  pub in_browser : Bool
  pub writable : Bool
  pub saved : Item CacheEntry
  pub in_flight : Bool
  pub waiting : List ℕ
  pub fetches : ℕ
  pub settled : List (ℕ × Served)

-- What the server renders with.
abbrev pub default_config : SiteConfig
default_config = record {
  site_name = "Vidsilo";
  default_lang = "en";
  library_mode = "disabled";
  version = "";
}

-- `cachedSiteConfig`
unfoldable pub cached_site_config : ℕ → ConfigCache → Option SiteConfig
cached_site_config now c =
    if c.in_browser
    then elim c.saved [
      | absent ↦ none
      | corrupt ↦ none
      | stored e ↦ if ltb (now - e.ts) cache_ttl_ms then some e.config else none
    ]
    else none

-- The call shares the request in flight, or makes one.
unfoldable pub await_config : ℕ → ConfigCache → ConfigCache
await_config number c = record c {
  in_flight = true;
  fetches = if c.in_flight then c.fetches else c.fetches + 1;
  waiting = c.waiting ++ number ∷ [];
}

-- In the browser or not, with what is cached.
unfoldable pub answer_call : ℕ → Bool → Option SiteConfig → ConfigCache → ConfigCache
unfolding await_config
answer_call number false cached c = record c {
  settled = c.settled ++ (number, served default_config) ∷ [];
}
answer_call number true (some cfg) c = record c { settled = c.settled ++ (number, served cfg) ∷ [] }
answer_call number true none c = await_config number c

unfoldable pub get_site_config : ℕ → ℕ → ConfigCache → ConfigCache
unfolding answer_call
get_site_config number now c = answer_call number c.in_browser (cached_site_config now c) c

abbrev pub served_or_rejected : Option SiteConfig → Served
served_or_rejected none = rejected
served_or_rejected (some cfg) = served cfg

-- The second `then`.
unfoldable pub saved_after : ℕ → Option SiteConfig → ConfigCache → Item CacheEntry
saved_after now none c = c.saved
saved_after now (some cfg) c =
    if c.writable then stored (record { config = cfg; ts = now }) else c.saved

-- The request ends: with a configuration, or with an error status, no JSON or no answer.
unfoldable pub on_config_answer : ℕ → Option SiteConfig → ConfigCache → ConfigCache
unfolding saved_after
on_config_answer now answer c = record c {
  saved = saved_after now answer c;
  in_flight = false;
  waiting = [];
  settled = c.settled ++ map (λ n. (n, served_or_rejected answer)) c.waiting;
}

-- `useSiteName` and `useAppVersion`: what is shown, while the component is mounted.
pub record Shown : Type 0 where
  pub alive : Bool
  pub value : String

abbrev pub site_name_shown : Shown
site_name_shown = record { alive = true; value = "Vidsilo" }

abbrev pub app_version_shown : Shown
app_version_shown = record { alive = true; value = "" }

unfoldable pub on_site_name : Served → Shown → Shown
on_site_name rejected s = s
on_site_name (served cfg) s =
    if s.alive && truthy (some cfg.site_name) then record s { value = cfg.site_name } else s

unfoldable pub on_app_version : Served → Shown → Shown
on_app_version rejected s = s
on_app_version (served cfg) s = if s.alive then record s { value = cfg.version } else s

pub data ConfigEvent : Type 0 where
  asked : (now : ℕ) → ConfigEvent
  config_answered : (now : ℕ) → Option SiteConfig → ConfigEvent

-- The calls are numbered from the second argument on; an answer comes only while a request is in
-- flight.
unfoldable pub run_config : List ConfigEvent → ℕ → ConfigCache → ConfigCache
unfolding get_site_config on_config_answer
run_config [] n c = c
run_config (asked now ∷ es) n c = run_config es (n + 1) (get_site_config n now c)
run_config (config_answered now answer ∷ es) n c =
    run_config es n (if c.in_flight then on_config_answer now answer c else c)
