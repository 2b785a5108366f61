-- ===== src/Jobs.antt =====
-- web/app/admin/jobs/page.tsx: the list of jobs, its numbers and its actions. Toasts stand newest first.
mod Tests
use vidsilo.Base.{
  ℕ, Bool, true, false, not, ◌&&◌, ◌||◌, Option, none, some, List, [], ◌∷◌, ◌++◌, String,
  if◌then◌else◌, count, length, is_empty, or_else, truthy, ◌==◌,
}
use vidsilo.Dialogs.{Variant, destructive, ConfirmOptions}

pub data JobStatus : Type 0 where
  queued running done failed cancelled : JobStatus

-- The fields of a `JobActivity` that the page reads.
pub record JobActivity : Type 0 where
  pub id : ℕ
  pub type : String
  pub entry_title : String
  pub status : JobStatus
  pub attempts : ℕ
  pub error : Option String
  pub progress : Option String
  pub label : Option String
  pub paused : Bool

abbrev pub is_queued : JobActivity → Bool
is_queued j = elim j.status [ queued ↦ true | _ ↦ false ]

abbrev pub is_running : JobActivity → Bool
is_running j = elim j.status [ running ↦ true | _ ↦ false ]

abbrev pub is_done : JobActivity → Bool
is_done j = elim j.status [ done ↦ true | _ ↦ false ]

abbrev pub is_failed : JobActivity → Bool
is_failed j = elim j.status [ failed ↦ true | _ ↦ false ]

-- The numbers of the cards: all, done, running, queued, failed.
pub record JobCounts : Type 0 where
  pub total : ℕ
  pub completed : ℕ
  pub active : ℕ
  pub waiting : ℕ
  pub broken : ℕ

-- The list, or none before it is loaded.
unfoldable pub job_counts : Option (List JobActivity) → JobCounts
job_counts jobs =
    let list = or_else jobs [] in
    record {
      total = length list;
      completed = count is_done list;
      active = count is_running list;
      waiting = count is_queued list;
      broken = count is_failed list;
    }

pub data JobAction : Type 0 where
  pause resume cancel retry : JobAction

-- The buttons of a row.
unfoldable pub actions_of : JobActivity → List JobAction
actions_of j = elim j.status [
  | queued ↦ (if j.paused then resume else pause) ∷ cancel ∷ []
  | running ↦ cancel ∷ []
  | done ↦ []
  | failed ↦ retry ∷ []
  | cancelled ↦ retry ∷ []
]

-- The badges before the entry of a row: the type, the label, and the poster and sprite.
unfoldable pub badges_of : JobActivity → List String
badges_of j =
    (if j.type == "probe" then "jobProbe" else "jobTranscode")
    ∷ ((if truthy j.label then or_else j.label "" ∷ [] else [])
        ++ (if (j.type == "probe") && truthy j.progress then "jobPosterSprite" ∷ [] else []))

-- The polling, in milliseconds.
unfoldable pub poll_interval : (is_visible : Bool) → Option ℕ
poll_interval is_visible = if is_visible then some 5000 else none

pub data Toast : Type 0 where
  job_retried action_failed : Toast

-- `stale` is set where the list is asked for again.
pub record JobsPage : Type 0 where
  pub jobs : Option (List JobActivity)
  pub stale : Bool
  pub toasts : List Toast

-- `act`, once its request is answered: it does not throw.
unfoldable pub on_act : Bool → JobsPage → JobsPage
on_act true p = record p { stale = true }
on_act false p = record p { toasts = action_failed ∷ p.toasts }

-- `retry`
unfoldable pub on_retry : Bool → JobsPage → JobsPage
unfolding on_act
on_retry is_ok p = let q = on_act is_ok p in record q { toasts = job_retried ∷ q.toasts }

-- The question of `askCancel`.
unfoldable pub cancel_options : ConfirmOptions
cancel_options = record {
  title = "jobAbortTitle";
  description = some "jobAbortDesc";
  confirm_label = some "jobAbort";
  cancel_label = some "cancel";
  variant = some destructive;
  size = none;
}

-- `onConfirm` of `askCancel`, once its request is answered: the page, and whether it ends well.
unfoldable pub on_cancel : Bool → JobsPage → JobsPage × Bool
unfolding on_act
on_cancel is_ok p = (on_act is_ok p, true)
