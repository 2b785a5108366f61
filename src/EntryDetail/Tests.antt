-- ===== src/EntryDetail/Tests.antt =====
-- Runs of the form of the entry dialog, and the theorems at concrete inputs.
use vidsilo.Base.{ℕ, ◌≡◌, ◌↔◌, refl, true, false, none, some, List, [], ◌∷◌, is_empty}
use vidsilo.EntryDetail.{
  EntryDetail, done, skipped, FormEdit, title, flavor, reset, Change, has, set_of, base_ticked,
  fill, tick, sets_equal, is_dirty, save_body, edit_form, edit_all,
}
use vidsilo.EntryDetail.ChangeList.{
  Known, push_each, text_length, take_text, truncate, or_dash, join_names, name_of, name_or,
  flag_name, names_of, change_rows, build_changes, save,
}
use vidsilo.EntryDetail.Changes.{is_in_use, save_iff_is_dirty, flavor_ids-edit_all}

-- What a run of the form computes with.
form : Unit {0}
unfolding set_of base_ticked fill tick sets_equal is_dirty save_body edit_form edit_all push_each
    text_length take_text truncate or_dash join_names name_of name_or flag_name names_of change_rows
    build_changes save
form = tt

abbrev film : EntryDetail
film = record {
  title = "film";
  description = "";
  category_id = none;
  is_public = true;
  access_denied = false;
  domain_acl_id = none;
  player_id = some 4;
  poster_frame = 9;
  sprite_frames = 6;
  flavors =
      record { flavor_id = 1; status = done }
      ∷ record { flavor_id = 2; status = skipped }
      ∷ record { flavor_id = 3; status = done }
      ∷ [];
}

abbrev known : Known
known = record {
  categories = [];
  acls = [];
  players = [];
  flavors = record { id = 2; name = "720p" } ∷ [];
  translate = λ key. key;
  poster_text = λ n. "frame";
  text_of = λ n. "id";
}

-- Two flavors change places, and one is unticked.
abbrev edits : List FormEdit
edits = flavor 1 false ∷ flavor 1 true ∷ flavor 2 true ∷ flavor 3 false ∷ title "" ∷ []

poster_is_clamped : (fill film).poster_frame ≡ 5
unfolding form
poster_is_clamped = refl

shows_changes :
    save known film (edit_all film edits (fill film))
    ≡ some (
        record { label = "chgTitle"; was = "film"; becomes = "—" }
        ∷ record { label = "chgFlavors"; was = "id"; becomes = "720p" }
        ∷ [])
unfolding form
shows_changes = refl

sends_flavors : (save_body film (edit_all film edits (fill film))).flavor_ids ≡ some (1 ∷ 2 ∷ [])
unfolding form
sends_flavors = refl

save_iff_is_dirty_example :
    let d = edit_all film edits (fill film) in
    ((save known film d ≡ none) ↔ (is_dirty film d ≡ false))
    × ((cs : List Change) → save known film d ≡ some cs → is_empty cs ≡ false)
save_iff_is_dirty_example = save_iff_is_dirty known film (edit_all film edits (fill film))

flavor_ids-edit_all_example :
    let d = edit_all film edits (fill film) in
    (((save_body film d).flavor_ids ≡ none) ↔ ((v : ℕ) → has v d.ticked ≡ is_in_use v film.flavors))
    × (is_dirty film (edit_form film reset d) ≡ false)
flavor_ids-edit_all_example = flavor_ids-edit_all film edits
