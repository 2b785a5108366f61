-- ===== src/SiteConfig/Tests.antt =====
-- Calls for the site's configuration, and the theorems at concrete inputs.
use vidsilo.Base.{◌≡◌, ◌+◌, refl, true, false, none, some, List, [], ◌∷◌, arith, absent}
use vidsilo.SiteConfig.{
  SiteConfig, ConfigCache, served, rejected, cached_site_config, get_site_config, on_config_answer,
  answer_call, await_config, saved_after, ConfigEvent, asked, config_answered, run_config,
  site_name_shown, on_site_name, on_app_version,
}
use vidsilo.SiteConfig.Fetching.{Accounted, calls_in, run_config-Accounted}

asking : Unit {0}
unfolding cached_site_config get_site_config on_config_answer answer_call await_config saved_after
    run_config on_site_name on_app_version
asking = tt

abbrev films : SiteConfig
films = record {
  site_name = "Films";
  default_lang = "tr";
  library_mode = "enabled";
  version = "1.2";
}

abbrev nothing_cached : ConfigCache
nothing_cached = record {
  in_browser = true;
  writable = true;
  saved = absent;
  in_flight = false;
  waiting = [];
  fetches = 0;
  settled = [];
}

abbrev two_calls : List ConfigEvent
two_calls =
    asked 5 ∷ asked 6 ∷ config_answered 7 none ∷ asked 8 ∷ config_answered 9 (some films) ∷ []

ran :
    (run_config two_calls 0 nothing_cached).settled
    ≡ (0, rejected) ∷ (1, rejected) ∷ (2, served films) ∷ []
unfolding asking
ran = refl

name_shown : (on_site_name (served films) site_name_shown).value ≡ "Films"
unfolding asking
name_shown = refl

run_config-Accounted_example :
    Accounted (0 + calls_in two_calls) (run_config two_calls 0 nothing_cached)
run_config-Accounted_example =
    run_config-Accounted two_calls 0 nothing_cached
      (record { each_once = λ k. ground arith; shared = tt })

abbrev one_waits : ConfigCache
one_waits = run_config (asked 5 ∷ []) 0 nothing_cached
