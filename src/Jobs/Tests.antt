-- ===== src/Jobs/Tests.antt =====
-- Two jobs, and the theorem at a concrete input.
use vidsilo.Base.{◌≡◌, refl, false, none, some, [], ◌∷◌, String}
use vidsilo.Dialogs.{Dialogs}
use vidsilo.Jobs.{
  JobActivity, queued, cancelled, job_counts, pause, cancel, actions_of, badges_of, poll_interval,
  JobsPage, on_act, on_retry, cancel_options, on_cancel,
}

jobs_page : Unit {0}
unfolding job_counts actions_of badges_of poll_interval on_act on_retry cancel_options on_cancel
jobs_page = tt

abbrev waiting_probe : JobActivity
waiting_probe = record {
  id = 1;
  type = "probe";
  entry_title = "film";
  status = queued;
  attempts = 0;
  error = none;
  progress = some "sprite";
  label = none;
  paused = false;
}

abbrev shown_page : JobsPage
shown_page = record {
  jobs = some (waiting_probe ∷ record waiting_probe { id = 2; status = cancelled } ∷ []);
  stale = false;
  toasts = [];
}

numbers : (job_counts shown_page.jobs).waiting ≡ 1
unfolding jobs_page
numbers = refl

buttons : actions_of waiting_probe ≡ pause ∷ cancel ∷ []
unfolding jobs_page
buttons = refl

badges : badges_of waiting_probe ≡ "jobProbe" ∷ "jobPosterSprite" ∷ []
unfolding jobs_page
badges = refl

abbrev no_dialogs : Dialogs String
no_dialogs = record { entries = []; next_id = 0; confirmed = []; failures = [] }
