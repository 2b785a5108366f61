-- ===== src/Players/Rebuilt.antt =====
-- web/app/admin/players/page.tsx: the bounds of a saved design, and editing one without a change.
use vidsilo.Base.{
  ℕ, ◌≡◌, ◌≤◌, ◌<◌, refl, ap, ◌∙◌, Bool, true, false, none, some, String, arith, if◌then◌else◌,
  ◌==◌, any, or_else, is_blank, trim, trim_start, trim_end,
}
use vidsilo.Base.Words.{trim_twice}
use vidsilo.Players.{
  Typed, not_a_number, negative, at, PlayerForm, positions, is_not_false, player_form, filled,
  clamped, build_config, patch_player, submit_player,
}

clamped_within :
    (low high otherwise : ℕ) (t : Typed)
    → low ≤ high
    → (low ≤ clamped low high otherwise t) × (clamped low high otherwise t ≤ high)
unfolding clamped
clamped_within low high otherwise not_a_number h = (omega arith, omega (arith, h))
clamped_within low high otherwise negative h = (omega arith, h)
clamped_within low high otherwise (at n) h = (omega arith, omega (arith, h))

-- A number within the bounds that is not 0 stays.
clamped_fixed :
    (low high otherwise n : ℕ) → low ≤ n → n ≤ high → 0 < n → clamped low high otherwise (at n) ≡ n
unfolding clamped
clamped_fixed low high otherwise n h k z = ground (arith, h, k, z)

abbrev pub IsNotNegative : Typed → Type 0
IsNotNegative negative = ⊥
IsNotNegative _ = Unit

opacity_positive : (t : Typed) → IsNotNegative t → 0 < clamped 0 100 80 t
unfolding clamped
opacity_positive not_a_number h = omega arith
opacity_positive negative h = elim h [ ]
opacity_positive (at n) h = ground arith

filled_trimmed : (s : String) → is_blank (trim s) ≡ false → filled (trim s) ≡ some (trim s)
unfolding filled
filled_trimmed s e = rw (filled, trim_twice s, e) refl

filled_blank : filled "" ≡ none
unfolding filled trim trim_start trim_end
filled_blank = refl

filled_twice : (s : String) → filled (or_else (filled s) "") ≡ filled s
unfolding filled
filled_twice s = go (is_blank (trim s)) refl
  where
    go :
        (b : Bool)
        → is_blank (trim s) ≡ b
        → filled (or_else (if b then none else some (trim s)) "")
          ≡ (if b then none else some (trim s))
    go true e = filled_blank
    go false e = filled_trimmed s e

abbrev placed : String → String
placed s = if any (λ p. p == s) positions then s else "top-right"

positions-placed : (s : String) → any (λ p. p == placed s) positions ≡ true
positions-placed s = go (any (λ p. p == s) positions) refl
  where
    go :
        (b : Bool)
        → any (λ p. p == s) positions ≡ b
        → any (λ p. p == (if b then s else "top-right")) positions ≡ true
    go true e = e
    go false e = refl

placed_twice : (s : String) → placed (placed s) ≡ placed s
placed_twice s = ap (λ b. if b then placed s else "top-right") (positions-placed s)

-- A saved design is within the bounds: one of the four positions, 16 to 512 pixels, an opacity of
-- at most 1.
build_config_bounds :
    (f : PlayerForm)
    → let c = build_config f in
      (any (λ p. p == or_else c.logo_position "") positions ≡ true)
      × (16 ≤ or_else c.logo_size 0)
      × (or_else c.logo_size 0 ≤ 512)
      × (or_else c.logo_opacity 101 ≤ 100)
unfolding build_config
build_config_bounds f =
    let (l, h) = clamped_within 16 512 64 f.logo_size (omega arith) in
    (
      positions-placed f.logo_position,
      l,
      h,
      (clamped_within 0 100 80 f.logo_opacity (omega arith)).1,
    )

is_not_false-some : (b : Bool) → is_not_false (some b) ≡ b
is_not_false-some true = refl
is_not_false-some false = refl

rebuilt :
    (f : PlayerForm) (id : ℕ) (name : String)
    → IsNotNegative f.logo_opacity
    → build_config (player_form (some (record { id = id; name = name; config = build_config f })))
      ≡ build_config f
unfolding build_config player_form
rebuilt f id name o =
    let (l, h) = clamped_within 16 512 64 f.logo_size (omega arith) in
    let (_, k) = clamped_within 0 100 80 f.logo_opacity (omega arith) in
    λ i. record {
      accent_color = filled_twice f.accent_color i;
      logo_url = filled_twice f.logo_url i;
      logo_href = filled_twice f.logo_href i;
      logo_position = some (placed_twice f.logo_position i);
      logo_size =
          some (clamped_fixed 16 512 64 (clamped 16 512 64 f.logo_size) l h (omega (arith, l)) i);
      logo_opacity = some (
          clamped_fixed 0 100 80 (clamped 0 100 80 f.logo_opacity) (omega arith) k
            (opacity_positive f.logo_opacity o) i);
      show_loader = some (is_not_false-some f.show_loader i);
      auto_hide_controls = some (is_not_false-some f.auto_hide_controls i);
    }

-- A design that was saved is sent unchanged when it is opened and submitted with no edit, unless
-- its opacity was typed as negative. Its name is not blank.
pub submit_player-player_form :
    (f : PlayerForm) (id : ℕ) (name : String)
    → IsNotNegative f.logo_opacity
    → is_blank (trim name) ≡ false
    → submit_player (player_form (some (record { id = id; name = name; config = build_config f })))
      ≡ some (patch_player id (trim name) (build_config f))
unfolding player_form submit_player
submit_player-player_form f id name o n =
    ap
      (λ b.
        if b
        then none
        else some (
            patch_player id (trim name) (
              build_config
                (player_form (some (record { id = id; name = name; config = build_config f }))))))
      n
    ∙ ap (λ c. some (patch_player id (trim name) c)) (rebuilt f id name o)
