-- ===== src/UrlDownloads/Distinct.antt =====
-- web/lib/url-download-store.ts: what `checkUrls` does to the list of jobs.
use vidsilo.Base.{
  ℕ, suc, ◌+◌, ◌≡◌, refl, sym, ap, ◌∙◌, inl, inr, true, false, Option, none, some, List, [], ◌∷◌,
  ◌++◌, map, String, arith, eq_iff, Bool-cases, ◌⊎◌, length, All, is_empty,
}
use vidsilo.UrlDownloads.Job.{UrlDownloadJob, queued}
use vidsilo.UrlDownloads.{
  Downloads, CheckResult, CheckCount, has_url, fresh_lines, new_download, accept_download,
  take_results, check_urls, persist_downloads, emit_downloads,
}

-- No job before another has its URL.
abbrev pub HasDistinctUrls : List UrlDownloadJob → Type 0
HasDistinctUrls [] = Unit
HasDistinctUrls (j ∷ js) = (has_url j.url (map (λ k. k.url) js) ≡ false) × HasDistinctUrls js

-- `urls` has the URL of every job.
abbrev Covers : List String → List UrlDownloadJob → Type 0
Covers urls js = (u : String) → has_url u (map (λ j. j.url) js) ≡ true → has_url u urls ≡ true

has_url-append :
    (u : String) (js : List UrlDownloadJob) (j : UrlDownloadJob)
    → has_url u (map (λ k. k.url) (js ++ j ∷ [])) ≡ true
    → (has_url u (map (λ k. k.url) js) ≡ true) ⊎ (j.url ≡ u)
has_url-append u [] j h = ground (arith, eq_iff j.url u)
has_url-append u (k ∷ js) j h = ground (arith, has_url-append u js j)

has_url-append_false :
    (u : String) (js : List UrlDownloadJob) (j : UrlDownloadJob)
    → has_url u (map (λ k. k.url) js) ≡ false
    → ¬ (j.url ≡ u)
    → has_url u (map (λ k. k.url) (js ++ j ∷ [])) ≡ false
has_url-append_false u [] j h n = ground (arith, eq_iff j.url u)
has_url-append_false u (k ∷ js) j h n = ground (arith, has_url-append_false u js j)

append_one-HasDistinctUrls :
    (js : List UrlDownloadJob) (j : UrlDownloadJob)
    → has_url j.url (map (λ k. k.url) js) ≡ false
    → HasDistinctUrls js
    → HasDistinctUrls (js ++ j ∷ [])
append_one-HasDistinctUrls [] j n h = (refl, tt)
append_one-HasDistinctUrls (k ∷ js) j n (a, h) = (
  has_url-append_false k.url js j a (ground (arith, n, eq_iff k.url j.url)),
  append_one-HasDistinctUrls js j (ground (arith, n)) h,
)

kept_jobs : (s : Downloads) → (persist_downloads (emit_downloads s)).jobs ≡ s.jobs
unfolding persist_downloads emit_downloads
kept_jobs s = ground arith

cover_one :
    (urls : List String) (js : List UrlDownloadJob) (j : UrlDownloadJob)
    → Covers urls js
    → Covers (j.url ∷ urls) (js ++ j ∷ [])
cover_one urls js j h u e = elim (has_url-append u js j e) [
  | inl k ↦ ground (arith, h u k)
  | inr k ↦ ground (arith, eq_iff j.url u)
]

cover_all : (js : List UrlDownloadJob) → Covers (map (λ j. j.url) js) js
cover_all js u h = h

append_nil {ℓ} : {A : Type ℓ} (xs : List A) → xs ++ [] ≡ xs
append_nil [] = refl
append_nil (x ∷ xs) = ap (λ ys. x ∷ ys) (append_nil xs)

append_assoc {ℓ} : {A : Type ℓ} (xs ys zs : List A) → (xs ++ ys) ++ zs ≡ xs ++ (ys ++ zs)
append_assoc [] ys zs = refl
append_assoc (x ∷ xs) ys zs = ap (λ ws. x ∷ ws) (append_assoc xs ys zs)

-- `after` is `before` with `n` queued jobs behind it.
abbrev pub GrownBy : ℕ → List UrlDownloadJob → List UrlDownloadJob → Type 0
GrownBy n before after =
    (new : List UrlDownloadJob) × (after ≡ before ++ new)
    × (length new ≡ n)
    × All (λ j. j.status ≡ queued) new

no_growth : (js : List UrlDownloadJob) → GrownBy 0 js js
no_growth js = ([], sym (append_nil js), refl, tt)

grow_one :
    (n : ℕ) (js after : List UrlDownloadJob) (j : UrlDownloadJob)
    → j.status ≡ queued
    → GrownBy n (js ++ j ∷ []) after
    → GrownBy (suc n) js after
grow_one n js after j q (new, e, l, a) =
    (j ∷ new, e ∙ append_assoc js (j ∷ []) new, omega (arith, l), (q, a))

abbrev count_added : Option CheckCount → ℕ
count_added none = 0
count_added (some c) = c.added

module _ (uuid : ℕ → String) where
  -- What a run of the loop keeps, from the jobs and the count at its start.
  abbrev Kept : List UrlDownloadJob → ℕ → Downloads × CheckCount → Type 0
  Kept before added (s, c) =
      HasDistinctUrls s.jobs × ((n : ℕ) × (c.added ≡ added + n) × GrownBy n before s.jobs)

  take_results-Kept :
      (rs : List CheckResult) (urls : List String) (s : Downloads) (c : CheckCount)
      → HasDistinctUrls s.jobs
      → Covers urls s.jobs
      → Kept s.jobs c.added (take_results uuid rs urls (s, c))
  unfolding take_results accept_download new_download
  take_results-Kept [] urls s c d v = (d, (0, omega arith, no_growth s.jobs))
  take_results-Kept (r ∷ rs) urls s c d v = elim (Bool-cases r.is_ok) [
    | inr k ↦ rw k (take_results-Kept rs urls s (record c { failed = c.failed + 1 }) d v)
    | inl k ↦ elim (Bool-cases (has_url r.url urls)) [
      | inl m ↦ rw (k, m) (take_results-Kept rs urls s c d v)
      | inr m ↦
          let j = new_download uuid r s.drawn in
          let fresh : has_url r.url (map (λ i. i.url) s.jobs) ≡ false =
            ground (arith, v r.url, m) in
          let (d', (n, e, g)) =
            take_results-Kept rs (r.url ∷ urls) (accept_download uuid r s)
              (record c { added = c.added + 1 }) (append_one-HasDistinctUrls s.jobs j fresh d)
              (cover_one urls s.jobs j v) in
          rw (k, m) (d', (suc n, omega (arith, e), grow_one n s.jobs _ j refl g))
    ]
  ]

  -- If no two jobs have the same URL, then after `checkUrls` no two have, also where the answer of
  -- the server repeats a URL; the jobs that were there before stand unchanged in front, and the new
  -- ones behind them are queued and as many as it reports added, none where the request throws.
  pub check_urls-HasDistinctUrls :
      (lines : List String) (answer : Option (List CheckResult)) (s : Downloads)
      → HasDistinctUrls s.jobs
      → let (t, c) = check_urls uuid lines answer s in
        HasDistinctUrls t.jobs × GrownBy (count_added c) s.jobs t.jobs
  unfolding check_urls
  check_urls-HasDistinctUrls lines answer s d =
      go answer (Bool-cases (is_empty (fresh_lines lines)))
    where
      after : Option (List CheckResult) → Type 0
      after a =
          let (t, c) = check_urls uuid lines a s in
          HasDistinctUrls t.jobs × GrownBy (count_added c) s.jobs t.jobs

      go :
          (a : Option (List CheckResult))
          → (is_empty (fresh_lines lines) ≡ true) ⊎ (is_empty (fresh_lines lines) ≡ false)
          → after a
      go a (inl k) = rw (k, check_urls) (d, no_growth s.jobs)
      go none (inr k) = rw (k, check_urls) (d, no_growth s.jobs)
      go (some rs) (inr k) =
          let c : CheckCount = record { added = 0; failed = 0 } in
          let (d', (n, e, g)) =
            take_results-Kept rs (map (λ j. j.url) s.jobs) s c d (cover_all s.jobs) in
          let (new, ns, l, q) = g in
          rw (k, check_urls, kept_jobs _) (d', (new, ns, omega (arith, e, l), q))
