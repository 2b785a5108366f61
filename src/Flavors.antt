-- ===== src/Flavors.antt =====
-- web/app/admin/flavors/page.tsx: the form of a flavor and the list of flavors. Numbers are whole and
-- from 0, a crf is in tenths. The schema is that of web/lib/validators.ts; a character counts once.
pub mod Modes
mod Tests
use Prim.Native.Nat.{zero, suc}
use Prim.Native.String
use vidsilo.Base.{
  ℕ, ◌-◌, Bool, true, false, not, ◌&&◌, leb, ltb, is_blank, trim, Option, none, some, List, [], ◌∷◌,
  String, if◌then◌else◌, eqb, count, length, or_else,
}

pub data Codec : Type 0 where
  h264 h265 : Codec

pub data VideoMode : Type 0 where
  crf_mode bitrate_mode : VideoMode

pub record Flavor : Type 0 where
  pub id : ℕ
  pub name : String
  pub label : String
  pub codec : Codec
  pub height : ℕ
  pub video_mode : VideoMode
  pub crf : Option ℕ
  pub video_bitrate : Option ℕ
  pub audio_bitrate : ℕ
  pub preset : String
  pub enabled : Bool
  pub position : ℕ

unfoldable pub blank : Flavor
blank = record {
  id = 0;
  name = "";
  label = "";
  codec = h264;
  height = 480;
  video_mode = crf_mode;
  crf = some 230;
  video_bitrate = none;
  audio_bitrate = 128;
  preset = "veryfast";
  enabled = false;
  position = 0;
}

-- `has_errors` is set where the last submission was refused by the schema.
pub record FlavorForm : Type 0 where
  pub initial : Flavor
  pub draft : Flavor
  pub has_errors : Bool

unfoldable pub flavor_form : Flavor → FlavorForm
flavor_form f = record { initial = f; draft = f; has_errors = false }

-- What the controls set; a select may give no value.
pub data FlavorEdit : Type 0 where
  name_typed label_typed : String → FlavorEdit
  codec_chosen : Option Codec → FlavorEdit
  mode_chosen : Option VideoMode → FlavorEdit
  height_typed crf_typed video_bitrate_typed audio_bitrate_typed : ℕ → FlavorEdit
  preset_chosen : Option String → FlavorEdit

unfoldable pub patch_flavor : FlavorEdit → Flavor → Flavor
patch_flavor (name_typed s) f = record f { name = s }
patch_flavor (label_typed s) f = record f { label = s }
patch_flavor (codec_chosen c) f = record f { codec = or_else c h264 }
patch_flavor (mode_chosen m) f = record f { video_mode = or_else m crf_mode }
patch_flavor (height_typed n) f = record f { height = n }
patch_flavor (crf_typed n) f = record f { crf = some n }
patch_flavor (video_bitrate_typed n) f = record f { video_bitrate = some n }
patch_flavor (audio_bitrate_typed n) f = record f { audio_bitrate = n }
patch_flavor (preset_chosen p) f = record f { preset = or_else p "veryfast" }

-- `set`
unfoldable pub edit_flavor : FlavorEdit → FlavorForm → FlavorForm
unfolding patch_flavor
edit_flavor e d = record d { draft = patch_flavor e d.draft }

-- What the input of the mode in force shows.
unfoldable pub shown_rate : Flavor → ℕ
shown_rate f = elim f.video_mode [
  | crf_mode ↦ or_else f.crf 230
  | bitrate_mode ↦ or_else f.video_bitrate 0
]

-- `body`
unfoldable pub flavor_body : Flavor → Flavor
flavor_body f = elim f.video_mode [
  | crf_mode ↦ record f { video_bitrate = none }
  | bitrate_mode ↦ record f { crf = none }
]

pub data FlavorRequest : Type 0 where
  post_flavor : Flavor → FlavorRequest
  patch_flavor_of : (id : ℕ) → Flavor → FlavorRequest

-- `saveFlavor`, of the id that the form was opened with.
unfoldable pub save_flavor : FlavorForm → FlavorRequest
unfolding flavor_body
save_flavor d =
    if not (eqb d.initial.id 0)
    then patch_flavor_of d.draft.id (flavor_body d.draft)
    else post_flavor (flavor_body d.draft)

-- `s.length <= n`
unfoldable pub fits : ℕ → String → Bool
fits n String.[] = true
fits zero (String.◌∷◌ c s) = false
fits (suc n) (String.◌∷◌ c s) = fits n s

-- A rate that is null, or passes the test.
abbrev pub is_null_or : (ℕ → Bool) → Option ℕ → Bool
is_null_or p none = true
is_null_or p (some n) = p n

-- `flavorSchema`: whether `fieldErrors` finds nothing. Codec and mode are of the right kind.
unfoldable pub flavor_schema : Flavor → Bool
unfolding fits
flavor_schema f =
    not (is_blank (trim f.name))
    && fits 60 (trim f.label)
    && leb 1 f.height
    && is_null_or (λ n. leb n 510) f.crf
    && is_null_or (λ n. ltb 0 n) f.video_bitrate
    && ltb 0 f.audio_bitrate
    && not (is_blank f.preset)

-- `submit`: the form, and what is sent.
unfoldable pub submit_flavor : FlavorForm → FlavorForm × Option FlavorRequest
unfolding flavor_body save_flavor flavor_schema
submit_flavor d =
    if flavor_schema (flavor_body d.draft)
    then (record d { has_errors = false }, some (save_flavor d))
    else (record d { has_errors = true }, none)

-- `toggleFlavor`
unfoldable pub toggle_flavor : Flavor → FlavorRequest
toggle_flavor f = patch_flavor_of f.id (record f { enabled = not f.enabled })

unfoldable pub enabled_count : List Flavor → ℕ
enabled_count fs = count (λ f. f.enabled) fs

unfoldable pub disabled_count : List Flavor → ℕ
unfolding enabled_count
disabled_count fs = length fs - enabled_count fs
