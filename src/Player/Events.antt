-- ===== src/Player/Events.antt =====
-- web/components/vidsilo-player.tsx: what can happen to the player.
use vidsilo.Base.{ℕ, Bool, true, false, Option, List, [], ◌∷◌}
use vidsilo.Player.{Video, Player, flush_watch, on_tick, on_play, on_pause, on_time, on_meta}
use vidsilo.Player.Settings.{
  apply_settings, on_volume, set_playback_rate, slide_volume, toggle_mute,
}
use vidsilo.Player.Controls.{
  toggle_play, Key, Target, on_key, Pointer, on_seek_bar, on_tap, on_pointer_move, on_hide,
}

-- The browser changes the media element; it reports; the timers; the page is left; the user.
pub data PlayerEvent : Type 0 where
  element_changed : Video → PlayerEvent
  play_started paused time_updated volume_changed waiting resumed metadata_loaded : PlayerEvent
  settings_changed unloading hide_over : PlayerEvent
  second_over : (now : ℕ) → PlayerEvent
  key_pressed : Target → Key → PlayerEvent
  pointed : Pointer → PlayerEvent
  tapped moved play_clicked mute_clicked : PlayerEvent
  volume_slid rate_chosen : ℕ → PlayerEvent

module _ (start_time : Option ℕ) (auto_hide : Bool) where
  unfoldable pub handle_player : PlayerEvent → Player → Player
  handle_player (element_changed v) p = record p { video = v }
  handle_player play_started p = on_play p
  handle_player paused p = on_pause p
  handle_player time_updated p = on_time p
  handle_player volume_changed p = on_volume p
  handle_player waiting p = record p { buffering = true }
  handle_player resumed p = record p { buffering = false }
  handle_player metadata_loaded p = on_meta start_time p
  handle_player settings_changed p = apply_settings p
  handle_player unloading p = flush_watch p
  handle_player hide_over p = on_hide p
  handle_player (second_over now) p = on_tick now p
  handle_player (key_pressed t k) p = on_key t k p
  handle_player (pointed e) p = on_seek_bar e p
  handle_player tapped p = on_tap auto_hide p
  handle_player moved p = on_pointer_move auto_hide p
  handle_player play_clicked p = toggle_play p
  handle_player mute_clicked p = toggle_mute p
  handle_player (volume_slid v) p = slide_volume v p
  handle_player (rate_chosen r) p = set_playback_rate r p

  unfoldable pub run_player : List PlayerEvent → Player → Player
  run_player [] p = p
  run_player (e ∷ es) p = run_player es (handle_player e p)
