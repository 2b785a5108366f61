-- ===== src/SiteConfig/Fetching.antt =====
-- web/lib/site-config.ts: how many requests there are, and what the calls get.
use vidsilo.Base.{
  ℕ, ◌≡◌, ◌<◌, refl, sym, subst, ap, ◌∙◌, Bool, true, false, Option, none, some, List, [], ◌∷◌,
  ◌++◌, map, arith, ◌+◌, ◌-◌, if◌then◌else◌, All, count, count-append, ltb, eqb, stored,
}
use vidsilo.SiteConfig.{
  SiteConfig, ConfigCache, cache_ttl_ms, Served, served, rejected, default_config,
  cached_site_config, get_site_config, on_config_answer, ConfigEvent, asked, config_answered,
  run_config, answer_call, await_config, saved_after, served_or_rejected,
}

-- How often a number is among the calls that were settled, and among those that wait.
abbrev pub times_settled : ℕ → List (ℕ × Served) → ℕ
times_settled k cs = count (λ c. eqb c.0 k) cs

abbrev pub times_waiting : ℕ → List ℕ → ℕ
times_waiting k ns = count (λ n. eqb n k) ns

times_settled-map :
    (k : ℕ) (o : Served) (ns : List ℕ) → times_settled k (map (λ n. (n, o)) ns) ≡ times_waiting k ns
times_settled-map k o [] = refl
times_settled-map k o (n ∷ ns) = ground (arith, times_settled-map k o ns)

-- A call waits exactly while a request is in flight.
abbrev pub Shared : Bool → List ℕ → Type 0
Shared true [] = ⊥
Shared true (n ∷ ns) = Unit
Shared false [] = Unit
Shared false (n ∷ ns) = ⊥

Shared-append_one : (n : ℕ) (ns : List ℕ) → Shared true (ns ++ n ∷ [])
Shared-append_one n [] = tt
Shared-append_one n (m ∷ ns) = tt

-- `calls` have been made: the numbers below are those of one call each, settled or waiting.
pub record Accounted (calls : ℕ) (c : ConfigCache) : Type 0 where
  pub each_once :
      (k : ℕ)
      → times_settled k c.settled + times_waiting k c.waiting ≡ (if ltb k calls then 1 else 0)
  pub shared : Shared c.in_flight c.waiting

settled_more :
    (n : ℕ) (o : Served) (c : ConfigCache)
    → Accounted n c
    → Accounted (n + 1) (record c { settled = c.settled ++ (n, o) ∷ [] })
settled_more n o c h = record {
  each_once =
      λ k. ground (arith, h.each_once k, count-append (λ c. eqb c.0 k) c.settled ((n, o) ∷ []));
  shared = h.shared;
}

get_site_config-Accounted :
    (n now : ℕ) (c : ConfigCache) → Accounted n c → Accounted (n + 1) (get_site_config n now c)
unfolding get_site_config answer_call await_config
get_site_config-Accounted n now c h = go c.in_browser (cached_site_config now c)
  where
    go : (b : Bool) (m : Option SiteConfig) → Accounted (n + 1) (answer_call n b m c)
    go false m = settled_more n (served default_config) c h
    go true (some cfg) = settled_more n (served cfg) c h
    go true none = record {
      each_once =
          λ k. ground (arith, h.each_once k, count-append (λ m. eqb m k) c.waiting (n ∷ []));
      shared = Shared-append_one n c.waiting;
    }

on_config_answer-Accounted :
    (n now : ℕ) (answer : Option SiteConfig) (c : ConfigCache)
    → Accounted n c
    → Accounted n (if c.in_flight then on_config_answer now answer c else c)
unfolding on_config_answer
on_config_answer-Accounted n now answer c h = go c.in_flight
  where
    go : (f : Bool) → Accounted n (if f then on_config_answer now answer c else c)
    go false = h
    go true = record {
      each_once = λ k.
          let o = served_or_rejected answer in
          omega (
            arith,
            h.each_once k,
            count-append (λ c. eqb c.0 k) c.settled (map (λ n. (n, o)) c.waiting),
            times_settled-map k o c.waiting,
          );
      shared = tt;
    }

-- How many calls there are among the events.
abbrev pub calls_in : List ConfigEvent → ℕ
calls_in [] = 0
calls_in (asked now ∷ es) = calls_in es + 1
calls_in (config_answered now answer ∷ es) = calls_in es

-- However calls of getSiteConfig and answers to its requests follow each other, each call that was
-- made is settled exactly once or waits, and not both, and no other number is; calls wait exactly
-- while a request is in flight. It was so at the start.
pub run_config-Accounted :
    (es : List ConfigEvent) (n : ℕ) (c : ConfigCache)
    → Accounted n c
    → Accounted (n + calls_in es) (run_config es n c)
unfolding run_config
run_config-Accounted [] n c h = subst (λ k. Accounted k c) (omega arith) h
run_config-Accounted (asked now ∷ es) n c h =
    subst (λ k. Accounted k (run_config es (n + 1) (get_site_config n now c))) (omega arith)
      (run_config-Accounted es (n + 1) (get_site_config n now c)
        (get_site_config-Accounted n now c h))
run_config-Accounted (config_answered now answer ∷ es) n c h =
    run_config-Accounted es n (if c.in_flight then on_config_answer now answer c else c)
      (on_config_answer-Accounted n now answer c h)

-- The calls, numbered, with what they are served.
abbrev pub served_all : SiteConfig → List ℕ → ℕ → List (ℕ × Served)
served_all cfg [] n = []
served_all cfg (now ∷ nows) n = (n, served cfg) ∷ served_all cfg nows (n + 1)

abbrev pub IsFresh : ℕ → ℕ → Type 0
IsFresh t now = now < t + cache_ttl_ms

cached_fresh :
    (cfg : SiteConfig) (t now : ℕ) (c : ConfigCache)
    → c.in_browser ≡ true
    → c.saved ≡ stored (record { config = cfg; ts = t })
    → IsFresh t now
    → cached_site_config now c ≡ some cfg
unfolding cached_site_config
cached_fresh cfg t now c b s f =
    let young : ltb (now - t) cache_ttl_ms ≡ true = ground (arith, f) in
    rw (cached_site_config, b, s, young) refl

append_nil : (l : List (ℕ × Served)) → l ++ [] ≡ l
append_nil [] = refl
append_nil (y ∷ l) = ap (λ k. y ∷ k) (append_nil l)

served_at_once :
    (cfg : SiteConfig) (n now : ℕ) (c : ConfigCache)
    → c.in_browser ≡ true
    → cached_site_config now c ≡ some cfg
    → get_site_config n now c ≡ record c { settled = c.settled ++ (n, served cfg) ∷ [] }
unfolding get_site_config answer_call
served_at_once cfg n now c b e =
    ap (λ i. answer_call n i (cached_site_config now c) c) b ∙ ap (λ m. answer_call n true m c) e

append_more :
    (l : List (ℕ × Served)) (x : ℕ × Served) (m : List (ℕ × Served))
    → (l ++ x ∷ []) ++ m ≡ l ++ x ∷ m
append_more [] x m = refl
append_more (y ∷ l) x m = ap (λ k. y ∷ k) (append_more l x m)

abbrev AsServed : SiteConfig → List ℕ → ℕ → ConfigCache → ConfigCache → Type 0
AsServed cfg nows n c d =
    (d.fetches ≡ c.fetches)
    × (d.in_flight ≡ c.in_flight)
    × (d.settled ≡ c.settled ++ served_all cfg nows n)

run_fresh :
    (cfg : SiteConfig) (t : ℕ) (nows : List ℕ) (n : ℕ) (c : ConfigCache)
    → c.in_browser ≡ true
    → c.saved ≡ stored (record { config = cfg; ts = t })
    → All (IsFresh t) nows
    → AsServed cfg nows n c (run_config (map (λ now. asked now) nows) n c)
unfolding run_config
run_fresh cfg t [] n c b s h = (refl, refl, sym (append_nil c.settled))
run_fresh cfg t (now ∷ nows) n c b s (f, h) =
    let c' = record c { settled = c.settled ++ (n, served cfg) ∷ [] } in
    let one : get_site_config n now c ≡ c' =
      served_at_once cfg n now c b (cached_fresh cfg t now c b s f) in
    let (x, y, z) = run_fresh cfg t nows (n + 1) c' b s h in
    subst (λ r. AsServed cfg (now ∷ nows) n c (run_config (map (λ k. asked k) nows) (n + 1) r))
      (sym one) (x, y, z ∙ append_more c.settled (n, served cfg) (served_all cfg nows (n + 1)))

-- In the browser, once a request has brought a configuration, all calls within the next five
-- minutes are served with it at once and none makes a request. Local storage can be written.
run_config-on_config_answer :
    (cfg : SiteConfig) (t : ℕ) (nows : List ℕ) (n : ℕ) (c : ConfigCache)
    → c.in_browser ≡ true
    → c.writable ≡ true
    → All (IsFresh t) nows
    → let d = run_config (map (λ now. asked now) nows) n (on_config_answer t (some cfg) c) in
      (d.fetches ≡ c.fetches)
      × (d.in_flight ≡ false)
      × (d.settled ≡ (c.settled ++ map (λ k. (k, served cfg)) c.waiting) ++ served_all cfg nows n)
unfolding on_config_answer saved_after
run_config-on_config_answer cfg t nows n c b w h =
    run_fresh cfg t nows n (on_config_answer t (some cfg) c) b
      (ap (λ k. if k then stored (record { config = cfg; ts = t }) else c.saved) w) h

asks_anew :
    (n now : ℕ) (c : ConfigCache)
    → c.in_browser ≡ true
    → cached_site_config now c ≡ none
    → get_site_config n now c ≡ await_config n c
unfolding get_site_config answer_call
asks_anew n now c b m =
    ap (λ i. answer_call n i (cached_site_config now c) c) b ∙ ap (λ m. answer_call n true m c) m

-- In the browser, a request for the configuration that fails rejects all calls that share it and
-- leaves the cache as it was; the next call makes a new request, when the cache has nothing fresh.
get_site_config-on_config_answer :
    (n now later : ℕ) (c : ConfigCache)
    → c.in_browser ≡ true
    → cached_site_config later c ≡ none
    → let t = get_site_config n later (on_config_answer now none c) in
      (t.settled ≡ c.settled ++ map (λ k. (k, rejected)) c.waiting)
      × (t.fetches ≡ c.fetches + 1)
      × (t.in_flight ≡ true)
      × (t.waiting ≡ n ∷ [])
      × (t.saved ≡ c.saved)
unfolding on_config_answer saved_after cached_site_config await_config
get_site_config-on_config_answer n now later c b m =
    let t = on_config_answer now none c in
    let e = asks_anew n later t b m in
    (
      ap (λ d. d.settled) e,
      ap (λ d. d.fetches) e,
      ap (λ d. d.in_flight) e,
      ap (λ d. d.waiting) e,
      ap (λ d. d.saved) e,
    )
