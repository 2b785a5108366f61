-- ===== src/UrlDownloads/Honest/Steps.antt =====
-- web/lib/url-download-store.ts: the progress bars over each operation and answer.
use vidsilo.Base.{
  ℕ, ◌≡◌, refl, inl, inr, true, not, ◌&&◌, ◌||◌, Option, none, some, List, [], ◌∷◌, map, min,
  String, arith, eq_iff, if◌then◌else◌, ◌==◌, ltb, Bool-cases, Option-cases, find, truthy,
}
use vidsilo.UploadStore.Run.{percent}
use vidsilo.UrlDownloads.Job.{
  UrlDownloadStatus, failed, Progress, at, indeterminate, UrlDownloadJob, UrlPatch, apply_url_patch,
  is_queued, is_downloading,
}
use vidsilo.UrlDownloads.{
  Poller, idle, stuck, submitting, watching, resolving, Phase, submits, polls, Downloads, update,
  persist_downloads, emit_downloads, mark_url_downloads_completed,
}
use vidsilo.UrlDownloads.Polling.{
  SubmitResult, ActiveRow, EntryState, set_poller, poll_round, submit_round, send_rename,
  submit_refused, submit_accepted, submit_answer, show_progress, row_of, tick_answer,
  continue_phase, entry_answer,
}
use vidsilo.UrlDownloads.Honest.{
  is_below, is_within, IsHonest, AllHonest, BelowAt, Awaited, Fair, Honest, drop_awaited, All-map,
  persist_downloads-Fair,
}

below_within : (st : UrlDownloadStatus) (p : Progress) → is_below p ≡ true → is_within st p ≡ true
below_within st (at n) h = ground (arith, h)
below_within st indeterminate h = refl

capped_within : (st : UrlDownloadStatus) (n : ℕ) → is_within st (at (min 99 n)) ≡ true
capped_within st n = ground arith

-- A patch, set for the job called `id`, that leaves every such job honest.
update-Fair :
    (id : String) (p : UrlPatch) (s : Downloads)
    → ((k : UrlDownloadJob) → IsHonest k → IsHonest (apply_url_patch p k))
    → Fair s
    → Fair (update id p s)
unfolding update
update-Fair id p s g h =
    persist_downloads-Fair _ s
      (All-map _ _ _
        (λ k q. elim (Bool-cases (k.id == id)) [ inl e ↦ rw e (g k q) | inr e ↦ rw e q ]) s.jobs
        h.now)
      h.later

-- The same, where the jobs called `id` are known to show less than 100.
update_below-Fair :
    (id : String) (p : UrlPatch) (s : Downloads)
    → ((k : UrlDownloadJob) → is_below k.progress ≡ true → IsHonest (apply_url_patch p k))
    → BelowAt id s.jobs
    → Fair s
    → Fair (update id p s)
unfolding update
update_below-Fair id p s g b h = persist_downloads-Fair _ s (go s.jobs h.now b) h.later
  where
    go :
        (js : List UrlDownloadJob)
        → AllHonest js
        → BelowAt id js
        → AllHonest (map (λ k. if k.id == id then apply_url_patch p k else k) js)
    go [] q c = tt
    go (k ∷ js) (q, qs) (c, cs) = (
      elim (Bool-cases (k.id == id)) [
        | inl e ↦ rw e (g k (c (ground (arith, e, eq_iff k.id id))))
        | inr e ↦ rw e q
      ],
      go js qs cs,
    )

set_poller-Honest :
    (b : Poller) (s : Downloads) → Awaited b s.jobs → Fair s → Honest (set_poller b s)
unfolding set_poller
set_poller-Honest b s a h = record { now = h.now; later = h.later; awaited = a }

poll_round-Honest : (now : ℕ) (s : Downloads) → Fair s → Honest (poll_round now s)
unfolding poll_round mark_url_downloads_completed set_poller
poll_round-Honest now s h =
    elim (Option-cases (find (λ j. is_downloading j.status && truthy j.entry_id) s.jobs)) [
      | inr (j, e) ↦ rw (e, poll_round) (record { now = h.now; later = h.later; awaited = tt })
      | inl e ↦
          rw (e, poll_round)
            (record { now = ground (arith, h.now); later = ground (arith, h.later); awaited = tt })
    ]

-- A job just sent shows no percentage.
sent-BelowAt :
    (id : String) (p : UrlPatch) (js : List UrlDownloadJob)
    → ((k : UrlDownloadJob) → is_below (apply_url_patch p k).progress ≡ true)
    → BelowAt id (map (λ k. if k.id == id then apply_url_patch p k else k) js)
sent-BelowAt id p [] g = tt
sent-BelowAt id p (k ∷ js) g = (
  elim (Bool-cases (k.id == id)) [
    | inl e ↦ rw e (λ _. g k)
    | inr e ↦ rw e (λ i. ground (arith, i, e, eq_iff k.id id))
  ],
  sent-BelowAt id p js g,
)

update_poller : (id : String) (p : UrlPatch) (s : Downloads) → (update id p s).poller ≡ s.poller
unfolding update persist_downloads emit_downloads
update_poller id p s = ground arith

update_jobs :
    (id : String) (p : UrlPatch) (s : Downloads)
    → (update id p s).jobs ≡ map (λ k. if k.id == id then apply_url_patch p k else k) s.jobs
unfolding update persist_downloads emit_downloads
update_jobs id p s = ground arith

update-BelowAt :
    (id : String) (p : UrlPatch) (s : Downloads)
    → ((k : UrlDownloadJob) → is_below (apply_url_patch p k).progress ≡ true)
    → BelowAt id (update id p s).jobs
update-BelowAt id p s g = rw (update_jobs id p s) (sent-BelowAt id p s.jobs g)

pub submit_round-Honest : (now : ℕ) (s : Downloads) → Fair s → Honest (submit_round now s)
unfolding submit_round apply_url_patch
submit_round-Honest now s h = elim (Option-cases (find (λ j. is_queued j.status) s.jobs)) [
  | inl e ↦ rw (e, submit_round) (poll_round-Honest now s h)
  | inr (j, e) ↦
      rw (e, submit_round)
        (set_poller-Honest (submitting j) _ (update-BelowAt j.id _ s (λ k. refl))
          (update-Fair j.id _ s (λ k q. refl) h))
]

submit_refused-Honest :
    (now : ℕ) (j : UrlDownloadJob) (reason : Option String) (s : Downloads)
    → BelowAt j.id s.jobs
    → Fair s
    → Honest (submit_refused now j reason s)
unfolding submit_refused apply_url_patch
submit_refused-Honest now j reason s b h =
    submit_round-Honest now _
      (update_below-Fair j.id _ s (λ k q. below_within failed k.progress q) b h)

send_rename-Fair :
    (entry : Option String) (j : UrlDownloadJob) (s : Downloads)
    → Fair s
    → Fair (send_rename entry j s)
unfolding send_rename
send_rename-Fair none j s h = h
send_rename-Fair (some e) j s h =
    elim (Bool-cases (not (e == "") && (truthy j.title || truthy j.category))) [
      | inl k ↦ rw (k, send_rename) (record { now = h.now; later = h.later })
      | inr k ↦ rw (k, send_rename) h
    ]

submit_accepted-Honest :
    (j : UrlDownloadJob) (entry : Option String) (s : Downloads)
    → Fair s
    → Honest (submit_accepted j entry s)
unfolding submit_accepted apply_url_patch
submit_accepted-Honest j entry s h =
    set_poller-Honest (watching submits entry j) _ tt
      (send_rename-Fair entry j _ (update-Fair j.id _ s (λ k q. q) h))

pub submit_answer-Honest :
    (now : ℕ) (answer : Option (List SubmitResult)) (j : UrlDownloadJob) (s : Downloads)
    → BelowAt j.id s.jobs
    → Fair s
    → Honest (submit_answer now answer j s)
unfolding submit_answer
submit_answer-Honest now none j s b h = set_poller-Honest idle s tt h
submit_answer-Honest now (some []) j s b h = submit_refused-Honest now j none s b h
submit_answer-Honest now (some (r ∷ rs)) j s b h = elim (Bool-cases r.is_ok) [
  | inl k ↦ rw (k, submit_answer) (submit_accepted-Honest j r.entry_id s h)
  | inr k ↦ rw (k, submit_answer) (submit_refused-Honest now j r.reason s b h)
]

-- A row shows at most 99, and the poller still watches.
show_progress-Honest :
    (ph : Phase) (entry : Option String) (j : UrlDownloadJob) (row : ActiveRow) (s : Downloads)
    → s.poller ≡ watching ph entry j
    → Honest s
    → Honest (show_progress j row s)
unfolding show_progress apply_url_patch
show_progress-Honest ph entry j row s w h = elim (Bool-cases (ltb 0 row.total_bytes)) [
  | inr k ↦ rw (k, show_progress) h
  | inl k ↦
      let f =
        update-Fair j.id _ s (λ k q. capped_within _ (percent row.bytes row.total_bytes))
          (drop_awaited h) in
      rw (k, show_progress)
        (record { now = f.now; later = f.later; awaited = rw (update_poller j.id _ s, w) tt })
]

pub tick_answer-Honest :
    (rows : Option (List ActiveRow)) (ph : Phase) (entry : Option String) (j : UrlDownloadJob)
    → (s : Downloads) → s.poller ≡ watching ph entry j
    → Honest s
    → Honest (tick_answer rows ph entry j s)
unfolding tick_answer
tick_answer-Honest none ph entry j s w h = h
tick_answer-Honest (some rows) ph entry j s w h = elim (Option-cases (row_of entry rows)) [
  | inr (row, e) ↦ rw (e, tick_answer) (show_progress-Honest ph entry j row s w h)
  | inl e ↦ rw (e, tick_answer) (set_poller-Honest (resolving ph entry j) s tt (drop_awaited h))
]

continue_phase-Honest :
    (now : ℕ) (ph : Phase) (s : Downloads) → Fair s → Honest (continue_phase now ph s)
unfolding continue_phase
continue_phase-Honest now submits s h = submit_round-Honest now s h
continue_phase-Honest now polls s h = poll_round-Honest now s h

pub entry_answer-Honest :
    (now : ℕ) (answer : Option EntryState) (ph : Phase) (j : UrlDownloadJob) (s : Downloads)
    → Fair s
    → Honest (entry_answer now answer ph j s)
unfolding entry_answer apply_url_patch
entry_answer-Honest now none ph j s h = set_poller-Honest stuck s tt h
entry_answer-Honest now (some e) ph j s h = elim (Bool-cases (e.status == "failed")) [
  | inl k ↦
      rw (k, entry_answer) (continue_phase-Honest now ph _ (update-Fair j.id _ s (λ _ _. refl) h))
  | inr k ↦
      rw (k, entry_answer) (continue_phase-Honest now ph _ (update-Fair j.id _ s (λ _ _. refl) h))
]
