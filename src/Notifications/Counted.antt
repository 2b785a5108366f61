-- ===== src/Notifications/Counted.antt =====
-- web/components/upload-notifications.tsx: how often the pages are refreshed.
use vidsilo.Base.{
  ◌≡◌, refl, ap, ◌∙◌, subst, eq_iff, inl, inr, Bool, true, false, not, ◌&&◌, ◌||◌, List, [], ◌∷◌,
  String, arith, ◌+◌, if◌then◌else◌, ◌==◌, any, length, Bool-cases, ltb,
}
use vidsilo.UploadStore.Job.{UploadJob, is_done}
use vidsilo.UrlDownloads.Job.{UrlDownloadJob}
use vidsilo.Notifications.{
  Notifications, mounted, is_currently_active, on_activity, has_id, add_id, seed, announce, on_jobs,
  on_render, run_renders,
}

-- No id stands twice.
abbrev pub NoRepeats : List String → Type 0
NoRepeats [] = Unit
NoRepeats (i ∷ is) = (has_id i is ≡ false) × NoRepeats is

pub add_id-NoRepeats : (id : String) (is : List String) → NoRepeats is → NoRepeats (add_id id is)
add_id-NoRepeats id is h = elim (Bool-cases (has_id id is)) [ inl e ↦ rw e h | inr e ↦ rw e (e, h) ]

seed-NoRepeats : (js : List UploadJob) (is : List String) → NoRepeats is → NoRepeats (seed js is)
unfolding seed
seed-NoRepeats [] is h = h
seed-NoRepeats (j ∷ js) is h = elim (Bool-cases (is_done j.status)) [
  | inl e ↦ rw (e, seed) (seed-NoRepeats js _ (add_id-NoRepeats j.id is h))
  | inr e ↦ rw (e, seed) (seed-NoRepeats js is h)
]

-- One refresh for each toast and for each id noted since.
record Accounted (n m : Notifications) : Type 0 where
  even : m.refreshes + n.toasts + length n.done_ids ≡ n.refreshes + m.toasts + length m.done_ids
  unrepeated : NoRepeats m.done_ids
  still : m.seeded ≡ true

step-Accounted : (n m o : Notifications) → Accounted n m → Accounted m o → Accounted n o
step-Accounted n m o h k = record {
  even = omega (arith, h.even, k.even);
  unrepeated = k.unrepeated;
  still = k.still;
}

announce-Accounted :
    (js : List UploadJob) (n : Notifications)
    → n.seeded ≡ true
    → NoRepeats n.done_ids
    → Accounted n (announce js n)
unfolding announce
announce-Accounted [] n s h = record { even = omega arith; unrepeated = h; still = s }
announce-Accounted (j ∷ js) n s h =
    elim (Bool-cases (is_done j.status && not (has_id j.id n.done_ids))) [
      | inl e ↦
          let new : has_id j.id n.done_ids ≡ false = ground arith in
          let n' = record n { done_ids = j.id ∷ n.done_ids; refreshes = n.refreshes + 1 } in
          rw (e, announce, new)
            (step-Accounted n n' (announce js n')
              (record { even = omega arith; unrepeated = (new, h); still = s })
              (announce-Accounted js n' s (new, h)))
      | inr e ↦ rw (e, announce) (announce-Accounted js n s h)
    ]

on_activity-Accounted :
    (js : List UploadJob) (us : List UrlDownloadJob) (n : Notifications)
    → n.seeded ≡ true
    → NoRepeats n.done_ids
    → Accounted n (on_activity js us n)
unfolding on_activity
on_activity-Accounted js us n s h = elim (Bool-cases (is_currently_active js us)) [
  | inl e ↦ rw (e, on_activity) (record { even = omega arith; unrepeated = h; still = s })
  | inr e ↦ elim (Bool-cases (n.was_active && (ltb 0 (length js) || ltb 0 (length us)))) [
    | inl f ↦ rw (e, on_activity, f) (record { even = omega arith; unrepeated = h; still = s })
    | inr f ↦ rw (e, on_activity, f) (record { even = omega arith; unrepeated = h; still = s })
  ]
]

on_render-Accounted :
    (js : List UploadJob) (us : List UrlDownloadJob) (n : Notifications)
    → n.seeded ≡ true
    → NoRepeats n.done_ids
    → Accounted n (on_render js us n)
unfolding on_render on_jobs
on_render-Accounted js us n s h =
    let m = on_activity js us n in
    let a = on_activity-Accounted js us n s h in
    rw (on_jobs, a.still)
      (step-Accounted n m (announce js m) a (announce-Accounted js m a.still a.unrepeated))

run_renders-Accounted :
    (rs : List (List UploadJob × List UrlDownloadJob)) (n : Notifications)
    → n.seeded ≡ true
    → NoRepeats n.done_ids
    → Accounted n (run_renders rs n)
unfolding run_renders
run_renders-Accounted [] n s h = record { even = omega arith; unrepeated = h; still = s }
run_renders-Accounted ((js, us) ∷ rs) n s h =
    let a = on_render-Accounted js us n s h in
    step-Accounted n (on_render js us n) _ a
      (run_renders-Accounted rs (on_render js us n) a.still a.unrepeated)

-- An upload with the id is done.
abbrev pub is_done_in : String → List UploadJob → Bool
is_done_in i js = any (λ j. is_done j.status && j.id == i) js

has_equal :
    (i k : String) (is : List String) → (k == i) ≡ true → has_id k is ≡ true → has_id i is ≡ true
has_equal i k is e h = subst (λ x. has_id x is ≡ true) ((eq_iff k i).0 e) h

has-add_id : (i k : String) (is : List String) → has_id i (add_id k is) ≡ (k == i || has_id i is)
has-add_id i k is = elim (Bool-cases (has_id k is)) [
  | inl e ↦ rw e (ground (arith, has_equal i k is))
  | inr e ↦ rw e refl
]

has-seed :
    (i : String) (js : List UploadJob) (is : List String)
    → has_id i (seed js is) ≡ (has_id i is || is_done_in i js)
unfolding seed
has-seed i [] is = ground arith
has-seed i (j ∷ js) is = elim (Bool-cases (is_done j.status)) [
  | inl e ↦ rw (e, seed) (ground (arith, has-seed i js (add_id j.id is), has-add_id i j.id is))
  | inr e ↦ rw (e, seed) (ground (arith, has-seed i js is))
]

has-announce :
    (i : String) (js : List UploadJob) (n : Notifications)
    → has_id i (announce js n).done_ids ≡ (has_id i n.done_ids || is_done_in i js)
unfolding announce
has-announce i [] n = ground arith
has-announce i (j ∷ js) n = elim (Bool-cases (is_done j.status && not (has_id j.id n.done_ids))) [
  | inl e ↦
      let n' = record n { done_ids = add_id j.id n.done_ids; refreshes = n.refreshes + 1 } in
      rw (e, announce) (ground (arith, e, has-announce i js n', has-add_id i j.id n.done_ids))
  | inr e ↦ rw (e, announce) (ground (arith, e, has-announce i js n, has_equal i j.id n.done_ids))
]

activity_kept :
    (js : List UploadJob) (us : List UrlDownloadJob) (n : Notifications)
    → ((on_activity js us n).done_ids ≡ n.done_ids) × ((on_activity js us n).seeded ≡ n.seeded)
unfolding on_activity
activity_kept js us n = elim (Bool-cases (is_currently_active js us)) [
  | inl e ↦ rw (e, on_activity) (refl, refl)
  | inr e ↦ elim (Bool-cases (n.was_active && (ltb 0 (length js) || ltb 0 (length us)))) [
    | inl f ↦ rw (e, on_activity, f) (refl, refl)
    | inr f ↦ rw (e, on_activity, f) (refl, refl)
  ]
]

-- An upload with the id is done at one of the renders.
abbrev pub ever_done : String → List (List UploadJob × List UrlDownloadJob) → Bool
ever_done i [] = false
ever_done i ((js, us) ∷ rs) = is_done_in i js || ever_done i rs

has-on_jobs :
    (i : String) (js : List UploadJob) (m : Notifications)
    → m.seeded ≡ true
    → has_id i (on_jobs js m).done_ids ≡ (has_id i m.done_ids || is_done_in i js)
unfolding on_jobs
has-on_jobs i js m s =
    ap
      (λ b.
        has_id i
          (if b
            then announce js m
            else record m { seeded = true; done_ids = seed js m.done_ids }).done_ids)
      s
    ∙ has-announce i js m

has-run_renders :
    (i : String) (rs : List (List UploadJob × List UrlDownloadJob)) (n : Notifications)
    → n.seeded ≡ true
    → NoRepeats n.done_ids
    → has_id i (run_renders rs n).done_ids ≡ (has_id i n.done_ids || ever_done i rs)
unfolding run_renders on_render
has-run_renders i [] n s h = ground arith
has-run_renders i ((js, us) ∷ rs) n s h =
    let m = on_activity js us n in
    let (k, s') = activity_kept js us n in
    let a = on_render-Accounted js us n s h in
    let rest = has-run_renders i rs (on_render js us n) a.still a.unrepeated in
    let this : has_id i (on_render js us n).done_ids ≡ (has_id i n.done_ids || is_done_in i js) =
      has-on_jobs i js m (s' ∙ s) ∙ ap (λ l. has_id i l || is_done_in i js) k in
    ground (arith, rest, this)

first_render :
    (js : List UploadJob) (us : List UrlDownloadJob)
    → let n = on_render js us mounted in
      (n.seeded ≡ true)
      × NoRepeats n.done_ids
      × (n.refreshes ≡ 0)
      × (n.toasts ≡ 0)
      × ((i : String) → has_id i n.done_ids ≡ is_done_in i js)
unfolding on_render on_jobs on_activity
first_render js us = elim (Bool-cases (is_currently_active js us)) [
  | inl e ↦ rw (e, on_activity) (refl, seed-NoRepeats js [] tt, refl, refl, λ i. has-seed i js [])
  | inr e ↦ rw (e, on_activity) (refl, seed-NoRepeats js [] tt, refl, refl, λ i. has-seed i js [])
]

-- From the mount on, the pages are refreshed once for each toast and once for each upload that is
-- done at some render and was not at the first one, in however many renders it stays.
run_renders_lem :
    (js : List UploadJob) (us : List UrlDownloadJob)
    (rs : List (List UploadJob × List UrlDownloadJob))
    → let n = on_render js us mounted in
      let m = run_renders rs n in
      (m.refreshes + length n.done_ids ≡ m.toasts + length m.done_ids)
      × NoRepeats m.done_ids
      × NoRepeats n.done_ids
      × ((i : String)
          → (has_id i n.done_ids ≡ is_done_in i js)
            × (has_id i m.done_ids ≡ (is_done_in i js || ever_done i rs)))
run_renders_lem js us rs =
    let n = on_render js us mounted in
    let (s, u, r, t, d) = first_render js us in
    let a = run_renders-Accounted rs n s u in
    (
      omega (arith, a.even, r, t),
      a.unrepeated,
      u,
      λ i. (d i, has-run_renders i rs n s u ∙ ap (λ b. b || ever_done i rs) (d i)),
    )
