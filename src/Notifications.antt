-- ===== src/Notifications.antt =====
-- web/components/upload-notifications.tsx: what is announced when uploads end, wherever the user is.
pub mod Counted
mod Tests
use vidsilo.Base.{
  ℕ, Bool, true, false, not, ◌&&◌, ◌||◌, List, [], ◌∷◌, String, ◌+◌, if◌then◌else◌, ◌==◌, ltb, any,
  count, length,
}
use vidsilo.UploadStore.Job.{UploadJob, is_done, is_active}
use vidsilo.UrlDownloads.Job.{UrlDownloadJob, is_queued, is_downloading, is_checking}

-- The refs of the component, the toasts it has shown and its calls of `router.refresh`.
pub record Notifications : Type 0 where
  pub done_ids : List String
  pub seeded : Bool
  pub was_active : Bool
  pub toasts : ℕ
  pub refreshes : ℕ

abbrev pub mounted : Notifications
mounted = record { done_ids = []; seeded = false; was_active = false; toasts = 0; refreshes = 0 }

unfoldable pub is_currently_active : List UploadJob → List UrlDownloadJob → Bool
is_currently_active js us =
    ltb 0 (count (λ j. is_active j.status) js)
    || ltb 0 (count (λ j. is_downloading j.status || is_checking j.status || is_queued j.status) us)

unfoldable pub on_activity : List UploadJob → List UrlDownloadJob → Notifications → Notifications
unfolding is_currently_active
on_activity js us n =
    if is_currently_active js us
    then record n { was_active = true }
    else if n.was_active && (ltb 0 (length js) || ltb 0 (length us))
    then record n { was_active = false; toasts = n.toasts + 1; refreshes = n.refreshes + 1 }
    else n

-- `doneIds.current.has(id)`
abbrev pub has_id : String → List String → Bool
has_id id is = any (λ i. i == id) is

-- `doneIds.current.add(id)`
abbrev pub add_id : String → List String → List String
add_id id is = if has_id id is then is else id ∷ is

-- The loop of the first run.
unfoldable pub seed : List UploadJob → List String → List String
seed [] is = is
seed (j ∷ js) is = seed js (if is_done j.status then add_id j.id is else is)

-- The loop of the later runs.
unfoldable pub announce : List UploadJob → Notifications → Notifications
announce [] n = n
announce (j ∷ js) n = announce js (
    if is_done j.status && not (has_id j.id n.done_ids)
    then record n { done_ids = add_id j.id n.done_ids; refreshes = n.refreshes + 1 }
    else n)

unfoldable pub on_jobs : List UploadJob → Notifications → Notifications
unfolding seed announce
on_jobs js n =
    if n.seeded then announce js n else record n { seeded = true; done_ids = seed js n.done_ids }

-- Both effects, in their order, at a render. React runs an effect again only where what it depends on
-- has changed; here both run at every render.
unfoldable pub on_render : List UploadJob → List UrlDownloadJob → Notifications → Notifications
unfolding on_activity on_jobs
on_render js us n = on_jobs js (on_activity js us n)

unfoldable pub run_renders :
    List (List UploadJob × List UrlDownloadJob) → Notifications → Notifications
unfolding on_render
run_renders [] n = n
run_renders ((js, us) ∷ rs) n = run_renders rs (on_render js us n)
