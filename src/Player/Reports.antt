-- ===== src/Player/Reports.antt =====
-- web/components/vidsilo-player.tsx: the reports of plays and of seconds watched.
use vidsilo.Base.{
  ℕ, suc, ◌+◌, ◌-◌, ◌≡◌, ◌<◌, refl, subst, ◌∙◌, inl, inr, Bool-cases, Bool, not, ◌&&◌, Option, List,
  [], ◌∷◌, ◌++◌, arith, if◌then◌else◌, ltb, All, All-append,
}
use vidsilo.Player.{
  Beacon, play, watch, Player, post, flush_watch, on_tick, on_play, on_pause, on_time, on_meta,
}
use vidsilo.Player.Settings.{
  apply_settings, on_volume, set_playback_rate, slide_volume, toggle_mute,
}
use vidsilo.Player.Controls.{
  toggle_play, Key, Target, form_field, seek_bar, elsewhere, on_key, press_key, Pointer,
  on_seek_bar, on_tap, on_pointer_move, on_hide, skip_forward, skip_back, seek_from_event, seek_to,
}
use vidsilo.Player.Events.{
  PlayerEvent, element_changed, play_started, paused, time_updated, volume_changed, waiting,
  resumed, metadata_loaded, settings_changed, unloading, hide_over, second_over, key_pressed,
  pointed, tapped, moved, play_clicked, mute_clicked, volume_slid, rate_chosen, handle_player,
  run_player,
}

-- The seconds that were reported, and how often a play was.
abbrev pub reported : List Beacon → ℕ
reported [] = 0
reported (play ∷ bs) = reported bs
reported (watch n ∷ bs) = n + reported bs

abbrev pub plays : List Beacon → ℕ
plays [] = 0
plays (play ∷ bs) = suc (plays bs)
plays (watch n ∷ bs) = plays bs

abbrev IsPositive : Beacon → Type 0
IsPositive play = Unit
IsPositive (watch n) = 0 < n

reported-append : (bs cs : List Beacon) → reported (bs ++ cs) ≡ reported bs + reported cs
reported-append [] cs = omega arith
reported-append (play ∷ bs) cs = reported-append bs cs
reported-append (watch n ∷ bs) cs = omega (arith, reported-append bs cs)

plays-append : (bs cs : List Beacon) → plays (bs ++ cs) ≡ plays bs + plays cs
plays-append [] cs = omega arith
plays-append (play ∷ bs) cs = omega (arith, plays-append bs cs)
plays-append (watch n ∷ bs) cs = plays-append bs cs

-- What the reports depend on.
record SameReports (p q : Player) : Type 0 where
  beacons : q.beacons ≡ p.beacons
  watched : q.watched ≡ p.watched
  played : q.played ≡ p.played

-- The media element plays, and the second counts.
abbrev pub counts : PlayerEvent → Player → ℕ
counts (second_over now) p = if not p.video.paused && not p.video.ended then 1 else 0
counts _ p = 0

pub record Reported (p : Player) (seconds : ℕ) : Type 0 where
  pub total : reported p.beacons + p.watched ≡ seconds
  pub once : plays p.beacons ≡ (if p.played then 1 else 0)
  pub positive : All IsPositive p.beacons

same-Reported : (p q : Player) (n : ℕ) → SameReports p q → Reported p n → Reported q n
same-Reported p q n s h = record {
  total = rw (s.beacons, s.watched) h.total;
  once = rw (s.beacons, s.played) h.once;
  positive = rw s.beacons h.positive;
}

plus_zero : (p : Player) (n : ℕ) → Reported p n → Reported p (n + 0)
plus_zero p n h = subst (λ m. Reported p m) (omega arith) h

flush_watch-Reported : (p : Player) (n : ℕ) → Reported p n → Reported (flush_watch p) n
unfolding flush_watch post
flush_watch-Reported p n h = elim (Bool-cases (ltb 0 p.watched)) [
  | inr e ↦ rw (e, flush_watch) h
  | inl e ↦
      rw (e, flush_watch)
        (record {
          total = omega (arith, h.total, reported-append p.beacons (watch p.watched ∷ []));
          once = plays-append p.beacons (watch p.watched ∷ []) ∙ ground (arith, h.once);
          positive = All-append _ p.beacons _ h.positive (ground (arith, e), tt);
        })
]

on_tick-Reported :
    (now : ℕ) (p : Player) (n : ℕ)
    → Reported p n
    → Reported (on_tick now p) (n + counts (second_over now) p)
unfolding on_tick
on_tick-Reported now p n h = elim (Bool-cases (not p.video.paused && not p.video.ended)) [
  | inr e ↦
      rw (e, on_tick)
        (record { total = omega (arith, h.total); once = h.once; positive = h.positive })
  | inl e ↦
      let p' = record p { watched = p.watched + 1 } in
      let later = record p' { last_beacon = now } in
      elim (Bool-cases (ltb 30000 (now - p.last_beacon))) [
        | inl l ↦
            rw (e, on_tick, l)
              (flush_watch-Reported later (n + 1)
                (record { total = omega (arith, h.total); once = h.once; positive = h.positive }))
        | inr l ↦
            rw (e, on_tick, l)
              (record { total = omega (arith, h.total); once = h.once; positive = h.positive })
      ]
]

on_play-Reported : (p : Player) (n : ℕ) → Reported p n → Reported (on_play p) n
unfolding on_play post
on_play-Reported p n h = elim (Bool-cases p.played) [
  | inl e ↦
      rw (e, on_play)
        (record { total = h.total; once = ground (arith, h.once, e); positive = h.positive })
  | inr e ↦
      rw (e, on_play)
        (record {
          total = omega (arith, h.total, reported-append p.beacons (play ∷ []));
          once = plays-append p.beacons (play ∷ []) ∙ ground (arith, h.once, e);
          positive = All-append _ p.beacons _ h.positive (tt, tt);
        })
]

press_key-same : (k : Key) (p : Player) → SameReports p (press_key k p)
unfolding press_key toggle_play skip_forward skip_back toggle_mute
press_key-same k p = ground arith

on_key-same : (t : Target) (k : Key) (p : Player) → SameReports p (on_key t k p)
unfolding on_key skip_forward skip_back
on_key-same form_field k p = ground arith
on_key-same elsewhere k p = press_key-same k p
on_key-same seek_bar k p = ground arith

on_seek_bar-same : (e : Pointer) (p : Player) → SameReports p (on_seek_bar e p)
unfolding on_seek_bar seek_from_event seek_to
on_seek_bar-same e p = ground arith

on_meta-same : (st : Option ℕ) (p : Player) → SameReports p (on_meta st p)
unfolding on_meta
on_meta-same st p = ground arith

on_tap-same : (hide : Bool) (p : Player) → SameReports p (on_tap hide p)
unfolding on_tap
on_tap-same hide p = ground arith

on_hide-same : (p : Player) → SameReports p (on_hide p)
unfolding on_hide
on_hide-same p = ground arith

module _ (start_time : Option ℕ) (auto_hide : Bool) where
  -- The seconds of a history in which the media element played.
  unfoldable pub seconds_played : List PlayerEvent → Player → ℕ
  seconds_played [] p = 0
  seconds_played (e ∷ es) p =
      counts e p + seconds_played es (handle_player start_time auto_hide e p)

  handle_player-Reported :
      (e : PlayerEvent) (p : Player) (n : ℕ)
      → Reported p n
      → Reported (handle_player start_time auto_hide e p) (n + counts e p)
  unfolding handle_player on_time on_volume apply_settings on_pointer_move toggle_play toggle_mute
      slide_volume set_playback_rate on_pause
  handle_player-Reported (second_over now) p n h = on_tick-Reported now p n h
  handle_player-Reported play_started p n h = plus_zero _ n (on_play-Reported p n h)
  handle_player-Reported paused p n h = plus_zero _ n (
      flush_watch-Reported _ n
        (same-Reported p _ n (record { beacons = refl; watched = refl; played = refl }) h))
  handle_player-Reported unloading p n h = plus_zero _ n (flush_watch-Reported p n h)
  handle_player-Reported metadata_loaded p n h =
      plus_zero _ n (same-Reported p _ n (on_meta-same start_time p) h)
  handle_player-Reported hide_over p n h = plus_zero _ n (same-Reported p _ n (on_hide-same p) h)
  handle_player-Reported (key_pressed t k) p n h =
      plus_zero _ n (same-Reported p _ n (on_key-same t k p) h)
  handle_player-Reported (pointed e) p n h =
      plus_zero _ n (same-Reported p _ n (on_seek_bar-same e p) h)
  handle_player-Reported tapped p n h =
      plus_zero _ n (same-Reported p _ n (on_tap-same auto_hide p) h)
  handle_player-Reported (element_changed v) p n h =
      plus_zero _ n
        (same-Reported p _ n (record { beacons = refl; watched = refl; played = refl }) h)
  handle_player-Reported time_updated p n h =
      plus_zero _ n
        (same-Reported p _ n (record { beacons = refl; watched = refl; played = refl }) h)
  handle_player-Reported volume_changed p n h =
      plus_zero _ n
        (same-Reported p _ n (record { beacons = refl; watched = refl; played = refl }) h)
  handle_player-Reported waiting p n h =
      plus_zero _ n
        (same-Reported p _ n (record { beacons = refl; watched = refl; played = refl }) h)
  handle_player-Reported resumed p n h =
      plus_zero _ n
        (same-Reported p _ n (record { beacons = refl; watched = refl; played = refl }) h)
  handle_player-Reported settings_changed p n h =
      plus_zero _ n
        (same-Reported p _ n (record { beacons = refl; watched = refl; played = refl }) h)
  handle_player-Reported moved p n h =
      plus_zero _ n
        (same-Reported p _ n (record { beacons = refl; watched = refl; played = refl }) h)
  handle_player-Reported play_clicked p n h =
      plus_zero _ n
        (same-Reported p _ n (record { beacons = refl; watched = refl; played = refl }) h)
  handle_player-Reported mute_clicked p n h =
      plus_zero _ n
        (same-Reported p _ n (record { beacons = refl; watched = refl; played = refl }) h)
  handle_player-Reported (volume_slid v) p n h =
      plus_zero _ n
        (same-Reported p _ n (record { beacons = refl; watched = refl; played = refl }) h)
  handle_player-Reported (rate_chosen r) p n h =
      plus_zero _ n
        (same-Reported p _ n (record { beacons = refl; watched = refl; played = refl }) h)

  -- Over any history the seconds that were reported, with those that wait for the next report, are
  -- the seconds in which the media element played, with those at its start; a play is reported
  -- at most once, and no report is of 0 seconds. It was so before the first event.
  pub run_player-Reported :
      (es : List PlayerEvent) (p : Player) (n : ℕ)
      → Reported p n
      → Reported (run_player start_time auto_hide es p) (n + seconds_played es p)
  unfolding run_player seconds_played
  run_player-Reported [] p n h = plus_zero p n h
  run_player-Reported (e ∷ es) p n h =
      subst
        (λ m.
          Reported (run_player start_time auto_hide es (handle_player start_time auto_hide e p)) m)
        (omega arith) (run_player-Reported es _ _ (handle_player-Reported e p n h))
