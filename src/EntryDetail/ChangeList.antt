-- ===== src/EntryDetail/ChangeList.antt =====
-- web/components/entry-detail-dialog.tsx: `buildChanges` and `save`.
use Prim.Native.String.{[] as empty, ◌∷◌ as push, ◌++◌ as join}
use vidsilo.Base.{
  ℕ, zero, suc, Bool, not, Option, none, some, List, [], ◌∷◌, map, String, if◌then◌else◌, ◌==◌, ltb,
  keep, find, eqb, is_empty,
}
use vidsilo.EntryDetail.{
  EntryDetail, Form, Reference, Change, has, base_ticked, sets_equal, same_id, same_flag,
}

-- `s.length`
unfoldable pub text_length : String → ℕ
text_length empty = 0
text_length (push c s) = suc (text_length s)

-- `s.slice(0, n)`
unfoldable pub take_text : ℕ → String → String
take_text zero s = ""
take_text (suc n) empty = ""
take_text (suc n) (push c s) = push c (take_text n s)

unfoldable pub truncate : String → String
unfolding text_length take_text
truncate s = if ltb 50 (text_length s) then join (take_text 50 s) "…" else s

-- `s || "—"`
unfoldable pub or_dash : String → String
or_dash s = if s == "" then "—" else s

-- `names.join(", ")`
unfoldable pub join_names : List String → String
join_names [] = ""
join_names (n ∷ []) = n
join_names (n ∷ m ∷ ns) = join n (join ", " (join_names (m ∷ ns)))

-- Each `if` of `buildChanges` pushes its item.
unfoldable pub push_each : List (Bool × Change) → List Change
push_each [] = []
push_each ((changed, c) ∷ rest) = let items = push_each rest in if changed then c ∷ items else items

-- What the dialog knows of the lists that ids refer to, and the translations that it shows.
pub record Known : Type 0 where
  pub categories : List Reference
  pub acls : List Reference
  pub players : List Reference
  pub flavors : List Reference
  pub translate : String → String
  pub poster_text : ℕ → String
  -- `String(id)`
  pub text_of : ℕ → String

unfoldable pub name_of : Known → List Reference → ℕ → String
name_of k refs id = elim (find (λ r. eqb r.id id) refs) [ some r ↦ r.name | none ↦ k.text_of id ]

unfoldable pub name_or : Known → String → List Reference → Option ℕ → String
unfolding name_of
name_or k missing refs none = k.translate missing
name_or k missing refs (some id) = name_of k refs id

unfoldable pub flag_name : Known → String → String → Bool → String
flag_name k when_set when_clear b = k.translate (if b then when_set else when_clear)

unfoldable pub names_of : Known → List ℕ → String
unfolding name_of join_names or_dash
names_of k ids = if is_empty ids then "—" else join_names (map (name_of k k.flavors) ids)

-- The conditions of `buildChanges` with the items that they push.
unfoldable pub change_rows : Known → EntryDetail → Form → List (Bool × Change)
unfolding truncate or_dash name_or flag_name names_of
change_rows k e d =
    (
      not (d.title == e.title),
      record { label = k.translate "chgTitle"; was = or_dash e.title; becomes = or_dash d.title },
    )
    ∷ (
      not (d.description == e.description),
      record {
        label = k.translate "chgDesc";
        was = or_dash (truncate e.description);
        becomes = or_dash (truncate d.description);
      },
    )
    ∷ (
      not (same_id d.category_id e.category_id),
      record {
        label = k.translate "chgCategory";
        was = name_or k "none" k.categories e.category_id;
        becomes = name_or k "none" k.categories d.category_id;
      },
    )
    ∷ (
      not (same_flag d.is_public e.is_public),
      record {
        label = k.translate "chgVisibility";
        was = flag_name k "visibilityPublic" "visibilityPrivate" e.is_public;
        becomes = flag_name k "visibilityPublic" "visibilityPrivate" d.is_public;
      },
    )
    ∷ (
      not (same_flag d.access_denied e.access_denied),
      record {
        label = k.translate "chgAccess";
        was = flag_name k "accessDenied" "accessAllowed" e.access_denied;
        becomes = flag_name k "accessDenied" "accessAllowed" d.access_denied;
      },
    )
    ∷ (
      not (same_id d.acl_id e.domain_acl_id),
      record {
        label = k.translate "chgAcl";
        was = name_or k "allowAll" k.acls e.domain_acl_id;
        becomes = name_or k "allowAll" k.acls d.acl_id;
      },
    )
    ∷ (
      not (same_id d.player_id e.player_id),
      record {
        label = k.translate "chgPlayer";
        was = name_or k "playersDefault" k.players e.player_id;
        becomes = name_or k "playersDefault" k.players d.player_id;
      },
    )
    ∷ (
      not (sets_equal d.ticked (base_ticked e)),
      record {
        label = k.translate "chgFlavors";
        was = names_of k (keep (λ v. not (has v d.ticked)) (base_ticked e));
        becomes = names_of k (keep (λ v. not (has v (base_ticked e))) d.ticked);
      },
    )
    ∷ (
      d.poster_touched,
      record {
        label = k.translate "chgPoster";
        was = k.poster_text e.poster_frame;
        becomes = k.poster_text d.poster_frame;
      },
    )
    ∷ []

unfoldable pub build_changes : Known → EntryDetail → Form → List Change
unfolding push_each change_rows
build_changes k e d = push_each (change_rows k e d)

-- `save` asks to confirm the changes, where there are any.
unfoldable pub save : Known → EntryDetail → Form → Option (List Change)
save k e d = let changes = build_changes k e d in if is_empty changes then none else some changes
