-- ===== src/Player/Controls.antt =====
-- web/components/vidsilo-player.tsx: the controls, the keyboard, the seek bar with its preview, and
-- the controls' hiding. A fraction of a millisecond is dropped; left of the bar counts as time 0.
use vidsilo.Base.{
  ℕ, ◌+◌, ◌-◌, ◌*◌, ◌/◌, ◌%◌, ◌≡◌, ◌<◌, min, max, Bool, true, false, not, ◌&&◌, Option, none, some,
  if◌then◌else◌, ltb, arith,
}
use vidsilo.Player.{Position, left_of, along, Player}
use vidsilo.Player.Settings.{toggle_mute}

unfoldable pub toggle_play : Player → Player
toggle_play p = record p { video = record p.video { paused = not p.video.paused } }

unfoldable pub seek_to : ℕ → Player → Player
seek_to ms p = record p { video = record p.video { current_time = ms }; current = ms }

-- `scrubAt`, in percent.
unfoldable pub scrub_at : Position → ℕ
scrub_at left_of = 0
scrub_at (along n) = min 100 n

-- The position may lie right of the bar.
unfoldable pub seek_from_event : Position → Player → Player
unfolding seek_to
seek_from_event left_of p = seek_to 0 p
seek_from_event (along n) p = seek_to (n * p.duration / 100) p

pub data Key : Type 0 where
  space arrow_right arrow_left arrow_up arrow_down full_screen mute other_key : Key

pub data Target : Type 0 where
  form_field seek_bar elsewhere : Target

-- An assignment of NaN to `currentTime` throws.
unfoldable pub skip_forward : Player → Player
skip_forward p = elim p.video.duration [
  | none ↦ p
  | some d ↦ record p {
    video = record p.video { current_time = min d (p.video.current_time + 10000) };
  }
]

unfoldable pub skip_back : Player → Player
skip_back p = record p { video = record p.video { current_time = p.video.current_time - 10000 } }

unfoldable pub press_key : Key → Player → Player
unfolding toggle_play skip_forward skip_back toggle_mute
press_key space p = toggle_play p
press_key arrow_right p = skip_forward p
press_key arrow_left p = skip_back p
press_key arrow_up p = record p {
  video = record p.video { volume = min 100 (p.video.volume + 10) };
}
press_key arrow_down p = record p {
  video = record p.video { volume = if ltb p.video.volume 10 then 0 else p.video.volume - 10 };
}
press_key mute p = toggle_mute p
press_key full_screen p = p
press_key other_key p = p

-- The listener of the window, and the seek bar's own.
unfoldable pub on_key : Target → Key → Player → Player
unfolding press_key skip_forward skip_back
on_key elsewhere k p = press_key k p
on_key form_field k p = p
on_key seek_bar arrow_right p = skip_forward p
on_key seek_bar arrow_left p = skip_back p
on_key seek_bar k p = p

pub data Pointer : Type 0 where
  mouse_moved pressed dragged released clicked : Position → Pointer
  left cancelled : Pointer

unfoldable pub on_seek_bar : Pointer → Player → Player
unfolding seek_from_event
on_seek_bar (mouse_moved at) p = record p { scrub = some at }
on_seek_bar left p = if p.dragging then p else record p { scrub = none }
on_seek_bar (pressed at) p = seek_from_event at (record p { dragging = true })
on_seek_bar (dragged at) p = if p.dragging then record p { scrub = some at } else p
on_seek_bar (released at) p = record (seek_from_event at (record p { dragging = false })) {
  scrub = none;
}
on_seek_bar cancelled p = record p { dragging = false; scrub = none }
on_seek_bar (clicked at) p = seek_from_event at p

module _ (auto_hide : Bool) where
  -- A timer that is armed is armed anew; without `autoHideControls` none is.
  abbrev pub arm_hide_timer : Player → Player
  arm_hide_timer p = record p { hides_soon = auto_hide }

  -- A tap outside the controls.
  unfoldable pub on_tap : Player → Player
  on_tap p = arm_hide_timer (
      if p.tapped && not p.video.paused
      then record p { video = record p.video { paused = true } }
      else record p { tapped = not p.tapped })

  unfoldable pub on_pointer_move : Player → Player
  on_pointer_move p = arm_hide_timer (record p { tapped = true })

unfoldable pub on_hide : Player → Player
on_hide p = if p.hides_soon then record p { tapped = false; hides_soon = false } else p

-- The preview of the frame under the pointer: its number, its column and its row in the sprite,
-- which has ten columns. There is none where the duration is 0.
pub record Cell : Type 0 where
  pub frame : ℕ
  pub column : ℕ
  pub row : ℕ

abbrev pub scrub_cols : ℕ
scrub_cols = 10

unfoldable pub scrub_rows : ℕ → ℕ
scrub_rows frames = max 1 ((frames + 9) / 10)

unfoldable pub scrub_cell : ℕ → Player → Option Cell
unfolding scrub_at
scrub_cell frames p = elim p.scrub [
  | none ↦ none
  | some at ↦
      let frame = min (frames - 1) (scrub_at at * frames / 100) in
      if ltb 0 frames && ltb 0 p.duration
      then some (record { frame = frame; column = frame % scrub_cols; row = frame / scrub_cols })
      else none
]

-- The previewed frame is one of the sprite's, wherever the pointer is, and lies in its grid.
scrub_cell_bounds :
    (frames : ℕ) (p : Player) (c : Cell)
    → scrub_cell frames p ≡ some c
    → (c.frame < frames)
      × (c.column < scrub_cols)
      × (c.row < scrub_rows frames)
      × (c.row * scrub_cols + c.column ≡ c.frame)
unfolding scrub_cell scrub_rows
scrub_cell_bounds frames p c h = ground (arith, h)
