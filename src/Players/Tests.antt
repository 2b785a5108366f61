-- ===== src/Players/Tests.antt =====
-- A design in the form, and the theorems at concrete inputs.
use vidsilo.Base.{◌≡◌, refl, true, false, none, some, trim, trim_start, trim_end, is_space, join}
use vidsilo.Players.Rebuilt.{submit_player-player_form}
use vidsilo.Players.{
  at, PlayerForm, player_form, filled, clamped, build_config, submit_player, patch_player,
  summarize,
}

designing : Unit {0}
unfolding player_form filled clamped build_config submit_player summarize trim trim_start trim_end
    is_space join
designing = tt

abbrev typed_design : PlayerForm
typed_design = record {
  initial = none;
  name = "Main";
  accent_color = " #fff ";
  logo_url = "  ";
  logo_href = "";
  logo_position = "middle";
  logo_size = at 1000;
  logo_opacity = at 0;
  show_loader = false;
  auto_hide_controls = true;
  is_pending = false;
  error = none;
}

-- An opacity of 0 is saved as 0.8.
opaque : (build_config typed_design).logo_opacity ≡ some 80
unfolding designing
opaque = refl

summarized : summarize "Logo" "No loader" (build_config typed_design) ≡ "#fff · No loader"
unfolding designing
summarized = refl

submit_player-player_form_example :
    submit_player
      (player_form (some (record { id = 3; name = " Main "; config = build_config typed_design })))
    ≡ some (patch_player 3 (trim " Main ") (build_config typed_design))
unfolding designing
submit_player-player_form_example = submit_player-player_form typed_design 3 " Main " tt refl
