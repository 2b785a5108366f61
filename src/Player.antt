-- ===== src/Player.antt =====
-- web/components/vidsilo-player.tsx: the state of the player, what it does with the media element
-- and with local storage, and its reports of plays and of seconds watched. Times are milliseconds,
-- volumes and rates hundredths, positions on the seek bar percent. The browser changes the media
-- element, and its events are handled one by one.
pub mod Settings
pub mod Controls
pub mod Events
pub mod Reports
mod Tests
use vidsilo.Base.{
  ℕ, suc, ◌+◌, ◌-◌, ◌≡◌, min, Bool, true, false, not, ◌&&◌, Option, none, some, List, [], ◌∷◌, ◌++◌,
  String, if◌then◌else◌, ltb,
}

-- The fields of the media element that the player reads or sets; the duration is NaN, `none`, until
-- the metadata is loaded.
pub record Video : Type 0 where
  pub paused : Bool
  pub ended : Bool
  pub muted : Bool
  pub current_time : ℕ
  pub duration : Option ℕ
  pub volume : ℕ
  pub rate : ℕ

-- The bodies that `beacon` posts, of the play and of the watch route.
pub data Beacon : Type 0 where
  play : Beacon
  watch : (seconds : ℕ) → Beacon

-- A position of the pointer on the seek bar: left of the bar, or so far along.
pub data Position : Type 0 where
  left_of : Position
  along : (percent : ℕ) → Position

-- What local storage has of the player's settings.
pub record SavedSettings : Type 0 where
  pub volume : Option ℕ
  pub muted : Option Bool
  pub rate : Option ℕ

pub record Player : Type 0 where
  pub video : Video
  -- the state of the component
  pub playing : Bool
  pub buffering : Bool
  pub current : ℕ
  pub duration : ℕ
  pub volume : ℕ
  pub muted : Bool
  pub rate : ℕ
  pub scrub : Option Position
  pub dragging : Bool
  pub tapped : Bool
  pub hides_soon : Bool
  -- watchedRef, lastBeaconRef, playedRef, startAppliedRef
  pub watched : ℕ
  pub last_beacon : ℕ
  pub played : Bool
  pub start_applied : Bool
  -- what was posted, and local storage
  pub beacons : List Beacon
  pub saved : SavedSettings

unfoldable pub post : Beacon → Player → Player
post b p = record p { beacons = p.beacons ++ b ∷ [] }

unfoldable pub flush_watch : Player → Player
unfolding post
flush_watch p = if ltb 0 p.watched then record (post (watch p.watched) p) { watched = 0 } else p

-- The ticker of every second.
unfoldable pub on_tick : ℕ → Player → Player
unfolding flush_watch
on_tick now p =
    let p' = record p { watched = p.watched + 1 } in
    if not p.video.paused && not p.video.ended
    then (if ltb 30000 (now - p.last_beacon)
        then flush_watch (record p' { last_beacon = now })
        else p')
    else p

unfoldable pub on_play : Player → Player
unfolding post
on_play p =
    let p' = record p { playing = true } in
    if p.played then p' else post play (record p' { played = true })

unfoldable pub on_pause : Player → Player
unfolding flush_watch
on_pause p = flush_watch (record p { playing = false })

unfoldable pub on_time : Player → Player
on_time p = record p { current = p.video.current_time }

-- `video.duration > 0`, of a duration that may be NaN.
abbrev pub known_duration : Player → Player
known_duration p = elim p.video.duration [
  | none ↦ p
  | some d ↦ if ltb 0 d then record p { duration = d } else p
]

-- `startTime < video.duration`
abbrev pub is_before_end : ℕ → Option ℕ → Bool
is_before_end t none = false
is_before_end t (some d) = ltb t d

-- The metadata is loaded: the deep link's start is applied once.
unfoldable pub on_meta : Option ℕ → Player → Player
on_meta start_time p =
    let p' = known_duration p in
    elim start_time [
      | none ↦ p'
      | some t ↦
          if not p.start_applied && ltb 0 t && is_before_end t p.video.duration
          then record p' { start_applied = true; video = record p.video { current_time = t } }
          else p'
    ]
