-- ===== src/Player/Tests.antt =====
-- Runs of the player, and the theorems at concrete inputs.
use vidsilo.Base.{◌+◌, ◌≡◌, refl, true, false, none, some, List, [], ◌∷◌}
use vidsilo.Player.{
  Video, Player, SavedSettings, play, watch, along, flush_watch, post, on_tick, on_play, on_pause,
  on_meta,
}
use vidsilo.Player.Settings.{mount, apply_settings, restore_volume, restore_muted, restore_rate}
use vidsilo.Player.Controls.{
  scrub_cell, scrub_rows, scrub_at, on_key, press_key, elsewhere, arrow_up, on_seek_bar,
}
use vidsilo.Player.Events.{
  PlayerEvent, element_changed, play_started, paused, second_over, metadata_loaded, handle_player,
  run_player, key_pressed,
}
use vidsilo.Player.Reports.{Reported, run_player-Reported, seconds_played}

-- What a run of the player computes with.
playback : Unit {0}
unfolding flush_watch post on_tick on_play on_pause on_meta mount apply_settings restore_volume
    restore_muted restore_rate scrub_cell scrub_rows scrub_at on_key press_key on_seek_bar
    handle_player run_player
playback = tt

abbrev at_rest : Video
at_rest = record {
  paused = true;
  ended = false;
  muted = false;
  current_time = 0;
  duration = none;
  volume = 100;
  rate = 100;
}

abbrev in_motion : Video
in_motion = record at_rest { paused = false; duration = some 60000 }

abbrev nothing_saved : SavedSettings
nothing_saved = record { volume = none; muted = none; rate = none }

abbrev saved_once : SavedSettings
saved_once = record { volume = some 40; muted = some false; rate = some 150 }

abbrev mounted : Player
mounted = mount at_rest 60000 false saved_once

starts_silent : (mount at_rest 60000 false nothing_saved).volume ≡ 0
unfolding playback
starts_silent = refl

abbrev some_playing : List PlayerEvent
some_playing =
    metadata_loaded
    ∷ element_changed in_motion
    ∷ play_started
    ∷ second_over 50000
    ∷ second_over 51000
    ∷ second_over 52000
    ∷ element_changed at_rest
    ∷ paused
    ∷ second_over 53000
    ∷ key_pressed elsewhere arrow_up
    ∷ []

reports_seconds :
    (run_player (some 5000) true some_playing mounted).beacons ≡ play ∷ watch 1 ∷ watch 2 ∷ []
unfolding playback
reports_seconds = refl

run_player-Reported_example :
    Reported
      (run_player (some 5000) true some_playing mounted)
      (0 + seconds_played (some 5000) true some_playing mounted)
unfolding playback
run_player-Reported_example =
    run_player-Reported (some 5000) true some_playing mounted 0
      (record { total = refl; once = refl; positive = tt })

-- The pointer is dragged past the end of the bar, over a sprite of 25 frames.
abbrev past_end : Player
past_end = record mounted { scrub = some (along 130) }
