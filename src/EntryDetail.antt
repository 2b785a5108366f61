-- ===== src/EntryDetail.antt =====
-- web/components/entry-detail-dialog.tsx: the form of the dialog that edits an entry, its dirty
-- test, the list of changes that a save asks to confirm, and the request of a save. A set is the
-- list of its elements in the order of their insertion. A text is counted in characters.
pub mod Sets
pub mod ChangeList
pub mod Changes
pub mod Live
pub mod Refetched
pub mod Poster
mod Tests
mod LiveTests
use vidsilo.Base.{
  ℕ, suc, ◌-◌, ◌≡◌, min, Bool, true, false, not, ◌&&◌, ◌||◌, Option, none, some, List, [], ◌∷◌,
  ◌++◌, map, String, if◌then◌else◌, ◌==◌, eqb, ltb, length, all, any, keep, find, is_empty,
}

pub data FlavorStatus : Type 0 where
  pending transcoding done failed skipped : FlavorStatus

pub record EntryFlavor : Type 0 where
  pub flavor_id : ℕ
  pub status : FlavorStatus

-- The fields of an `EntryDetail` that the form reads.
pub record EntryDetail : Type 0 where
  pub title : String
  pub description : String
  pub category_id : Option ℕ
  pub is_public : Bool
  pub access_denied : Bool
  pub domain_acl_id : Option ℕ
  pub player_id : Option ℕ
  pub poster_frame : ℕ
  pub sprite_frames : ℕ
  pub flavors : List EntryFlavor

-- `draft` with the other state of the form, once the entry is loaded.
pub record Form : Type 0 where
  pub title : String
  pub description : String
  pub category_id : Option ℕ
  pub is_public : Bool
  pub access_denied : Bool
  pub acl_id : Option ℕ
  pub player_id : Option ℕ
  pub ticked : List ℕ
  pub poster_frame : ℕ
  pub poster_touched : Bool

-- The body of the PATCH request of a save; an absent field is left out.
pub record SaveBody : Type 0 where
  pub title : String
  pub description : String
  pub category_id : Option ℕ
  pub is_public : Bool
  pub access_denied : Bool
  pub domain_acl_id : Option ℕ
  pub player_id : Option ℕ
  pub flavor_ids : Option (List ℕ)
  pub poster_frame : Option ℕ

-- A category, ACL, player or flavor that a change is shown by.
pub record Reference : Type 0 where
  pub id : ℕ
  pub name : String

pub record Change : Type 0 where
  pub label : String
  pub was : String
  pub becomes : String

-- `s.has(v)`
abbrev pub has : ℕ → List ℕ → Bool
has v s = any (eqb v) s

-- `new Set(xs)`: the first occurrences.
unfoldable pub set_of : List ℕ → List ℕ
set_of [] = []
set_of (x ∷ xs) = x ∷ keep (λ y. not (eqb x y)) (set_of xs)

abbrev pub is_skipped : FlavorStatus → Bool
is_skipped skipped = true
is_skipped _ = false

-- The flavors that the server has ticked.
unfoldable pub base_ticked : EntryDetail → List ℕ
base_ticked e = set_of (map (λ f. f.flavor_id) (keep (λ f. not (is_skipped f.status)) e.flavors))

-- The form as the effect fills it from the entry, and as the reset button does.
unfoldable pub fill : EntryDetail → Form
fill e = record {
  title = e.title;
  description = e.description;
  category_id = e.category_id;
  is_public = e.is_public;
  access_denied = e.access_denied;
  acl_id = e.domain_acl_id;
  player_id = e.player_id;
  ticked = base_ticked e;
  poster_frame = if ltb 0 e.sprite_frames then min e.poster_frame (e.sprite_frames - 1) else 0;
  poster_touched = false;
}

-- `next.add(id)` or `next.delete(id)` of a copy of the set.
unfoldable pub tick : ℕ → Bool → Form → Form
tick id v d = record d {
  ticked =
      if v
      then (if has id d.ticked then d.ticked else d.ticked ++ id ∷ [])
      else keep (λ x. not (eqb id x)) d.ticked;
}

unfoldable pub choose_poster : ℕ → Form → Form
choose_poster n d = record d { poster_frame = n; poster_touched = true }

unfoldable pub sets_equal : List ℕ → List ℕ → Bool
sets_equal a b = eqb (length a) (length b) && all (λ v. has v b) a

abbrev pub same_id : Option ℕ → Option ℕ → Bool
same_id none none = true
same_id (some m) (some n) = eqb m n
same_id _ _ = false

abbrev pub same_flag : Bool → Bool → Bool
same_flag true b = b
same_flag false b = not b

unfoldable pub is_dirty : EntryDetail → Form → Bool
is_dirty e d =
    not (d.title == e.title)
    || not (d.description == e.description)
    || not (same_id d.category_id e.category_id)
    || not (same_flag d.is_public e.is_public)
    || not (same_flag d.access_denied e.access_denied)
    || not (same_id d.acl_id e.domain_acl_id)
    || not (same_id d.player_id e.player_id)
    || d.poster_touched
    || not (sets_equal d.ticked (base_ticked e))

unfoldable pub save_body : EntryDetail → Form → SaveBody
save_body e d = record {
  title = d.title;
  description = d.description;
  category_id = d.category_id;
  is_public = d.is_public;
  access_denied = d.access_denied;
  domain_acl_id = d.acl_id;
  player_id = d.player_id;
  flavor_ids =
      if not (eqb (length (base_ticked e)) (length d.ticked))
        || any (λ v. not (has v (base_ticked e))) d.ticked
      then some d.ticked
      else none;
  poster_frame = if d.poster_touched then some d.poster_frame else none;
}

-- What the controls of the dialog change.
pub data FormEdit : Type 0 where
  title description : String → FormEdit
  category acl player : Option ℕ → FormEdit
  visibility access : Bool → FormEdit
  flavor : ℕ → Bool → FormEdit
  poster : ℕ → FormEdit
  reset : FormEdit

unfoldable pub edit_form : EntryDetail → FormEdit → Form → Form
unfolding tick choose_poster fill
edit_form e (title v) d = record d { title = v }
edit_form e (description v) d = record d { description = v }
edit_form e (category v) d = record d { category_id = v }
edit_form e (acl v) d = record d { acl_id = v }
edit_form e (player v) d = record d { player_id = v }
edit_form e (visibility v) d = record d { is_public = v }
edit_form e (access v) d = record d { access_denied = v }
edit_form e (flavor id v) d = tick id v d
edit_form e (poster n) d = choose_poster n d
edit_form e reset d = fill e

-- The form after a list of edits.
unfoldable pub edit_all : EntryDetail → List FormEdit → Form → Form
edit_all e [] d = d
edit_all e (x ∷ xs) d = edit_all e xs (edit_form e x d)
