-- ===== src/Flavors/Tests.antt =====
-- A flavor in the form, and the theorem at a concrete input.
use vidsilo.Base.{◌≡◌, refl, true, none, some, [], ◌∷◌, trim, trim_start, trim_end, is_space}
use vidsilo.Flavors.{
  Flavor, h264, crf_mode, bitrate_mode, blank, flavor_form, patch_flavor, edit_flavor, shown_rate,
  flavor_body, patch_flavor_of, save_flavor, fits, flavor_schema, submit_flavor, toggle_flavor,
  enabled_count, disabled_count,
}
use vidsilo.Flavors.Modes.{switched, submit_flavor-edit_flavor}

flavors : Unit {0}
unfolding blank flavor_form patch_flavor edit_flavor shown_rate flavor_body save_flavor fits
    flavor_schema trim trim_start trim_end is_space submit_flavor toggle_flavor enabled_count
    disabled_count
flavors = tt

abbrev streamed : Flavor
streamed = record {
  id = 4;
  name = "720p";
  label = "720p";
  codec = h264;
  height = 720;
  video_mode = bitrate_mode;
  crf = none;
  video_bitrate = some 2500;
  audio_bitrate = 128;
  preset = "fast";
  enabled = true;
  position = 1;
}

all_counted : disabled_count (streamed ∷ blank ∷ []) ≡ 1
unfolding flavors
all_counted = refl

unnamed_refused : (submit_flavor (flavor_form blank)).0.has_errors ≡ true
unfolding flavors
unnamed_refused = refl

submit_flavor-edit_flavor_example :
    ((submit_flavor (flavor_form streamed)).1 ≡ some (patch_flavor_of 4 streamed))
    × ((submit_flavor (switched streamed)).1
        ≡ some (
            patch_flavor_of 4
              (record streamed { video_mode = crf_mode; crf = none; video_bitrate = none })))
    × (shown_rate (switched streamed).draft ≡ 230)
unfolding flavors
submit_flavor-edit_flavor_example = submit_flavor-edit_flavor streamed refl refl refl
