-- ===== src/Players.antt =====
-- web/app/admin/players/page.tsx: the form of a player's design. The size of the logo is in whole
-- pixels, its opacity in hundredths.
pub mod Rebuilt
mod Tests
use vidsilo.Base.{
  ℕ, Bool, true, false, not, Option, none, some, List, [], ◌∷◌, ◌++◌, String, if◌then◌else◌, ◌==◌,
  any, or_else, min, max, is_blank, trim, truthy, join, eqb,
}

pub record PlayerConfig : Type 0 where
  pub accent_color : Option String
  pub logo_url : Option String
  pub logo_href : Option String
  pub logo_position : Option String
  pub logo_size : Option ℕ
  pub logo_opacity : Option ℕ
  pub show_loader : Option Bool
  pub auto_hide_controls : Option Bool

pub record PlayerDesign : Type 0 where
  pub id : ℕ
  pub name : String
  pub config : PlayerConfig

-- What `Number` reads in the text of an input.
pub data Typed : Type 0 where
  not_a_number negative : Typed
  at : ℕ → Typed

-- The states of the form; `error` is what the last attempt to save was refused with.
pub record PlayerForm : Type 0 where
  pub initial : Option PlayerDesign
  pub name : String
  pub accent_color : String
  pub logo_url : String
  pub logo_href : String
  pub logo_position : String
  pub logo_size : Typed
  pub logo_opacity : Typed
  pub show_loader : Bool
  pub auto_hide_controls : Bool
  pub is_pending : Bool
  pub error : Option String

abbrev pub positions : List String
positions = "top-left" ∷ "top-right" ∷ "bottom-left" ∷ "bottom-right" ∷ []

abbrev pub empty_config : PlayerConfig
empty_config = record {
  accent_color = none;
  logo_url = none;
  logo_href = none;
  logo_position = none;
  logo_size = none;
  logo_opacity = none;
  show_loader = none;
  auto_hide_controls = none;
}

abbrev pub config_of : Option PlayerDesign → PlayerConfig
config_of none = empty_config
config_of (some p) = p.config

abbrev pub name_of : Option PlayerDesign → String
name_of none = ""
name_of (some p) = p.name

-- `x !== false`
abbrev pub is_not_false : Option Bool → Bool
is_not_false (some false) = false
is_not_false _ = true

unfoldable pub player_form : Option PlayerDesign → PlayerForm
player_form initial =
    let cfg = config_of initial in
    record {
      initial = initial;
      name = name_of initial;
      accent_color = or_else cfg.accent_color "";
      logo_url = or_else cfg.logo_url "";
      logo_href = or_else cfg.logo_href "";
      logo_position = or_else cfg.logo_position "top-right";
      logo_size = at (or_else cfg.logo_size 64);
      logo_opacity = at (or_else cfg.logo_opacity 80);
      show_loader = is_not_false cfg.show_loader;
      auto_hide_controls = is_not_false cfg.auto_hide_controls;
      is_pending = false;
      error = none;
    }

-- `text.trim() || undefined`
unfoldable pub filled : String → Option String
filled s = if is_blank (trim s) then none else some (trim s)

-- `Math.max(low, Math.min(high, Number(text) || otherwise))`
unfoldable pub clamped : (low high otherwise : ℕ) → Typed → ℕ
clamped low high otherwise not_a_number = max low (min high otherwise)
clamped low high otherwise negative = low
clamped low high otherwise (at n) = max low (min high (if eqb n 0 then otherwise else n))

unfoldable pub build_config : PlayerForm → PlayerConfig
unfolding filled clamped
build_config f = record {
  accent_color = filled f.accent_color;
  logo_url = filled f.logo_url;
  logo_href = filled f.logo_href;
  logo_position =
      some (if any (λ p. p == f.logo_position) positions then f.logo_position else "top-right");
  logo_size = some (clamped 16 512 64 f.logo_size);
  logo_opacity = some (clamped 0 100 80 f.logo_opacity);
  show_loader = some f.show_loader;
  auto_hide_controls = some f.auto_hide_controls;
}

pub data PlayerRequest : Type 0 where
  post_player : String → PlayerConfig → PlayerRequest
  patch_player : (id : ℕ) → String → PlayerConfig → PlayerRequest

abbrev save_player : Option PlayerDesign → String → PlayerConfig → PlayerRequest
save_player none name config = post_player name config
save_player (some p) name config = patch_player p.id name config

-- The form is submitted: what is sent, if anything.
unfoldable pub submit_player : PlayerForm → Option PlayerRequest
unfolding build_config
submit_player f =
    if f.is_pending
    then none
    else if is_blank (trim f.name)
    then none
    else some (save_player f.initial (trim f.name) (build_config f))

-- `summarize`, with the words that stand for a logo and for no loader.
abbrev summary_parts : String → String → PlayerConfig → List String
summary_parts logo no_loader c =
    (if truthy c.accent_color then or_else c.accent_color "" ∷ [] else [])
    ++ (if truthy c.logo_url then logo ∷ [] else [])
    ++ (if is_not_false c.show_loader then [] else no_loader ∷ [])

unfoldable pub summarize : String → String → PlayerConfig → String
summarize logo no_loader c =
    let line = join " · " (summary_parts logo no_loader c) in if is_blank line then "—" else line
