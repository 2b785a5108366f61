-- ===== src/EntryDetail/LiveTests.antt =====
-- Runs of the dialog of an entry over time, and the theorems at concrete inputs.
use vidsilo.Base.{◌≡◌, refl, Bool, true, false, none, some, List, [], ◌∷◌, ◌==◌, eqb}
use vidsilo.EntryDetail.{
  EntryDetail, FormEdit, title, flavor, poster, fill, base_ticked, set_of, tick, choose_poster,
  sets_equal, is_dirty, save_body, edit_form, edit_all,
}
use vidsilo.EntryDetail.ChangeList.{Known}
use vidsilo.EntryDetail.Live.{
  LiveEntry, transcoding, ready, LiveDialog, live_dialog, refetch_interval, is_editable, on_entry,
  is_open_edit, on_edit, save_entry, on_saved, can_reprocess, on_reprocess, subtitle_form, or_text,
  submit_subtitle, on_subtitle, on_subtitle_deleted,
}
use vidsilo.EntryDetail.Refetched.{edit_live, Move, edited, answered}
use vidsilo.EntryDetail.Poster.{cols, rows, position}

live : Unit {0}
unfolding set_of base_ticked fill tick choose_poster sets_equal is_dirty save_body edit_form
    edit_all live_dialog refetch_interval is_editable on_entry is_open_edit on_edit save_entry
    on_saved can_reprocess on_reprocess subtitle_form or_text submit_subtitle on_subtitle
    on_subtitle_deleted edit_live cols rows position
live = tt

abbrev clip : EntryDetail
clip = record {
  title = "clip";
  description = "";
  category_id = none;
  is_public = true;
  access_denied = false;
  domain_acl_id = none;
  player_id = none;
  poster_frame = 3;
  sprite_frames = 25;
  flavors = [];
}

abbrev lists : Known
lists = record {
  categories = [];
  acls = [];
  players = [];
  flavors = [];
  translate = λ key. key;
  poster_text = λ n. "frame";
  text_of = λ n. "id";
}

abbrev held : LiveEntry
held = record { detail = clip; status = transcoding }

abbrev shared : LiveEntry
shared = record { detail = record clip { sprite_frames = 30 }; status = ready }

abbrev same_title : LiveEntry → LiveEntry → Bool
same_title a b = a.detail.title == b.detail.title

abbrev never : LiveEntry → LiveEntry → Bool
never a b = false

abbrev loaded : LiveDialog
loaded = record {
  entry = some held;
  form = some (fill clip);
  stale_entry = false;
  stale_list = false;
  toasts = [];
}

abbrev title_edits : List FormEdit
title_edits = title "new title" ∷ poster 14 ∷ []

polls : refetch_interval (some held) ≡ some 5000
unfolding live
polls = refl

flavors_locked : edit_live (flavor 1 true ∷ []) loaded ≡ loaded
unfolding live
flavors_locked = refl

not_while_in_work : can_reprocess true loaded ≡ false
unfolding live
not_while_in_work = refl

asked_again : (on_saved true (edit_live title_edits loaded)).stale_entry ≡ true
unfolding live
asked_again = refl

labelled :
    (submit_subtitle (record subtitle_form { lang = "tr"; file = some "a.vtt" })).1
    ≡ some (record { file = "a.vtt"; lang = "tr"; label = "tr" })
unfolding live
labelled = refl

typed_title_lost :
    (on_entry never shared (edit_live title_edits loaded)).form ≡ some (fill shared.detail)
unfolding live
typed_title_lost = refl

abbrev same_frames : LiveEntry → LiveEntry → Bool
same_frames a b = eqb a.detail.sprite_frames b.detail.sprite_frames

abbrev moves : List Move
moves = edited (title "new title") ∷ answered held ∷ edited (poster 14) ∷ []
