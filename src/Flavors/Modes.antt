-- ===== src/Flavors/Modes.antt =====
-- web/app/admin/flavors/page.tsx: what is sent of the two modes of a flavor.
use vidsilo.Base.{
  ℕ, ◌≡◌, sym, ap, arith, or_else, ◌∙◌, Bool, true, false, not, Option, none, some, if◌then◌else◌,
  eqb,
}
use vidsilo.Flavors.{
  VideoMode, crf_mode, bitrate_mode, Flavor, FlavorForm, flavor_form, mode_chosen, patch_flavor,
  edit_flavor, shown_rate, flavor_body, FlavorRequest, patch_flavor_of, post_flavor, save_flavor,
  submit_flavor, flavor_schema,
}

abbrev pub other_mode : VideoMode → VideoMode
other_mode crf_mode = bitrate_mode
other_mode bitrate_mode = crf_mode

-- What an input shows where the flavor has no value for its mode.
abbrev pub unset_rate : VideoMode → ℕ
unset_rate crf_mode = 230
unset_rate bitrate_mode = 0

-- A flavor with neither value, in the other mode.
abbrev pub unrated : Flavor → Flavor
unrated f = record f { video_mode = other_mode f.video_mode; crf = none; video_bitrate = none }

-- The rate of the mode that is not in force.
abbrev pub other_rate : Flavor → Option ℕ
other_rate f = elim f.video_mode [ crf_mode ↦ f.video_bitrate | bitrate_mode ↦ f.crf ]

sent :
    (d : FlavorForm) (g : Flavor)
    → eqb d.initial.id 0 ≡ false
    → flavor_body d.draft ≡ g
    → flavor_schema g ≡ true
    → (submit_flavor d).1 ≡ some (patch_flavor_of d.draft.id g)
unfolding submit_flavor save_flavor
sent d g i e v =
    ap (λ b. (ended b).1) (ap flavor_schema e ∙ v)
    ∙ ap (λ b. some (saved b)) i
    ∙ ap (λ b. some (patch_flavor_of d.draft.id b)) e
  where
    ended : Bool → FlavorForm × Option FlavorRequest
    ended b =
        if b
        then (record d { has_errors = false }, some (save_flavor d))
        else (record d { has_errors = true }, none)

    saved : Bool → FlavorRequest
    saved b =
        if not b
        then patch_flavor_of d.draft.id (flavor_body d.draft)
        else post_flavor (flavor_body d.draft)

flavor_body_saved : (f : Flavor) → other_rate f ≡ none → flavor_body f ≡ f
unfolding flavor_body
flavor_body_saved f h = go f.video_mode h
  where
    go :
        (m : VideoMode)
        → (elim m [ crf_mode ↦ f.video_bitrate | bitrate_mode ↦ f.crf ]) ≡ none
        → flavor_body (record f { video_mode = m }) ≡ record f { video_mode = m }
    go crf_mode h = ap (λ o. record f { video_mode = crf_mode; video_bitrate = o }) (sym h)
    go bitrate_mode h = ap (λ o. record f { video_mode = bitrate_mode; crf = o }) (sym h)

flavor_schema-unrated : (f : Flavor) → flavor_schema f ≡ true → flavor_schema (unrated f) ≡ true
unfolding flavor_schema
flavor_schema-unrated f v = ground (arith, v)

-- A flavor whose mode was switched.
abbrev pub switched : Flavor → FlavorForm
switched f = edit_flavor (mode_chosen (some (other_mode f.video_mode))) (flavor_form f)

flavor_body-switched :
    (f : Flavor) → other_rate f ≡ none → flavor_body (switched f).draft ≡ unrated f
unfolding flavor_body flavor_form edit_flavor patch_flavor
flavor_body-switched f h = go f.video_mode h
  where
    go :
        (m : VideoMode)
        → (elim m [ crf_mode ↦ f.video_bitrate | bitrate_mode ↦ f.crf ]) ≡ none
        → flavor_body (record f { video_mode = other_mode m })
          ≡ record f { video_mode = other_mode m; crf = none; video_bitrate = none }
    go crf_mode h =
        ap (λ o. record f { video_mode = bitrate_mode; crf = none; video_bitrate = o }) h
    go bitrate_mode h =
        ap (λ o. record f { video_mode = crf_mode; crf = o; video_bitrate = none }) h

shown_rate-switched :
    (f : Flavor)
    → other_rate f ≡ none
    → shown_rate (switched f).draft ≡ unset_rate (other_mode f.video_mode)
unfolding flavor_form edit_flavor patch_flavor shown_rate
shown_rate-switched f h = go f.video_mode h
  where
    go :
        (m : VideoMode)
        → (elim m [ crf_mode ↦ f.video_bitrate | bitrate_mode ↦ f.crf ]) ≡ none
        → shown_rate (record f { video_mode = other_mode m }) ≡ unset_rate (other_mode m)
    go crf_mode h = ap (λ o. or_else o 0) h
    go bitrate_mode h = ap (λ o. or_else o 230) h

-- A saved flavor that is opened and submitted with no edit is sent as it is, with the rate of its
-- mode. Where only its mode is switched, it is sent with neither a crf nor a bitrate, and the schema
-- takes that, while the form shows a crf of 23 or a bitrate of 0. The saved flavor has no rate for
-- the mode that is not in force, and the schema accepts it.
pub submit_flavor-edit_flavor :
    (f : Flavor)
    → eqb f.id 0 ≡ false
    → other_rate f ≡ none
    → flavor_schema f ≡ true
    → ((submit_flavor (flavor_form f)).1 ≡ some (patch_flavor_of f.id f))
      × ((submit_flavor (switched f)).1 ≡ some (patch_flavor_of f.id (unrated f)))
      × (shown_rate (switched f).draft ≡ unset_rate (other_mode f.video_mode))
unfolding flavor_form edit_flavor patch_flavor
submit_flavor-edit_flavor f i h v = (
  sent (flavor_form f) f i (flavor_body_saved f h) v,
  sent (switched f) (unrated f) i (flavor_body-switched f h) (flavor_schema-unrated f v),
  shown_rate-switched f h,
)
