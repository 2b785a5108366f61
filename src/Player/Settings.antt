-- ===== src/Player/Settings.antt =====
-- web/components/vidsilo-player.tsx: volume, mute and rate, restored from local storage and saved
-- there. A number is saved as its text, and read back as that number.
use vidsilo.Base.{
  ℕ, ◌≡◌, ◌≤◌, Bool, true, false, not, ◌||◌, Option, none, some, List, [], ◌∷◌, if◌then◌else◌, leb,
  eqb, or_else, any, arith,
}
use vidsilo.Player.{Video, SavedSettings, Player}

-- `Number(null)` is 0.
unfoldable pub restore_volume : Option ℕ → ℕ
restore_volume item = let v = or_else item 0 in if leb v 100 then v else 100

unfoldable pub restore_muted : Option Bool → Bool → Bool
restore_muted item muted = or_else item false || muted

abbrev pub rates : List ℕ
rates = 50 ∷ 75 ∷ 100 ∷ 125 ∷ 150 ∷ 200 ∷ []

unfoldable pub restore_rate : Option ℕ → ℕ
restore_rate item = let r = or_else item 0 in if any (λ s. eqb s r) rates then r else 100

-- The state of a player that is mounted: `duration` is that of the entry, `muted` the property.
unfoldable pub mount : Video → ℕ → Bool → SavedSettings → Player
unfolding restore_volume restore_muted restore_rate
mount v duration muted saved = record {
  video = v;
  playing = false;
  buffering = false;
  current = 0;
  duration = duration;
  volume = restore_volume saved.volume;
  muted = restore_muted saved.muted muted;
  rate = restore_rate saved.rate;
  scrub = none;
  dragging = false;
  tapped = false;
  hides_soon = false;
  watched = 0;
  last_beacon = 0;
  played = false;
  start_applied = false;
  beacons = [];
  saved = saved;
}

-- The effects on a change of the settings: they go to the media element and to local storage.
unfoldable pub apply_settings : Player → Player
apply_settings p = record p {
  video = record p.video { volume = p.volume; muted = p.muted; rate = p.rate };
  saved = record { volume = some p.volume; muted = some p.muted; rate = some p.rate };
}

-- The element's volume or mute has changed.
unfoldable pub on_volume : Player → Player
on_volume p = record p { volume = p.video.volume; muted = p.video.muted }

unfoldable pub set_playback_rate : ℕ → Player → Player
set_playback_rate r p = record p { video = record p.video { rate = r }; rate = r }

-- The volume slider.
unfoldable pub slide_volume : ℕ → Player → Player
slide_volume v p = record p { video = record p.video { volume = v; muted = eqb v 0 } }

unfoldable pub toggle_mute : Player → Player
toggle_mute p = record p { video = record p.video { muted = not p.video.muted } }

-- What a player saves is what the next one starts with, and what its effects then set on the media
-- element; the volume is in its range and the rate one of those on offer.
mount-apply_settings :
    (p : Player) (v : Video) (duration : ℕ)
    → p.volume ≤ 100
    → any (λ s. eqb s p.rate) rates ≡ true
    → let q = mount v duration false (apply_settings p).saved in
      (q.volume ≡ p.volume)
      × (q.muted ≡ p.muted)
      × (q.rate ≡ p.rate)
      × ((apply_settings q).video.volume ≡ p.volume)
      × ((apply_settings q).saved ≡ (apply_settings p).saved)
unfolding mount apply_settings
mount-apply_settings p v duration h r = ground (arith, h, r)
