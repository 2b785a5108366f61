-- ===== src/EntryDetail/Changes.antt =====
-- web/components/entry-detail-dialog.tsx: the dirty test, the list of changes and the request compared.
use vidsilo.Base.{
  ℕ, ◌≡◌, ◌↔◌, refl, sym, map, keep, ◌&&◌, ap, ◌∙◌, inl, inr, Bool, true, false, not, ◌||◌, Option,
  none, some, List, [], ◌∷◌, ◌++◌, arith, ◌==◌, eqb, eq_refl, is_empty, any, all, Bool-cases,
}
use vidsilo.EntryDetail.{
  EntryDetail, EntryFlavor, is_skipped, Form, FormEdit, title, description, category, acl, player,
  visibility, access, flavor, poster, reset, Change, has, base_ticked, sets_equal, same_id,
  same_flag, is_dirty, fill, tick, choose_poster, save_body, edit_form, edit_all,
}
use vidsilo.EntryDetail.ChangeList.{Known, push_each, change_rows, build_changes, save}
use vidsilo.EntryDetail.Sets.{
  IsSetLike, has-set_of, set_of-IsSetLike, without-IsSetLike, sets_equal_iff,
}

has-append : (v : ℕ) (xs : List ℕ) (x : ℕ) → has v (xs ++ x ∷ []) ≡ (has v xs || eqb v x)
has-append v [] x = ground arith
has-append v (y ∷ ys) x = ground (arith, has-append v ys x)

one_fails : (p : ℕ → Bool) (xs : List ℕ) → any (λ v. not (p v)) xs ≡ not (all p xs)
one_fails p [] = refl
one_fails p (x ∷ xs) = ground (arith, one_fails p xs)

is_empty-push_each : (cs : List (Bool × Change)) → is_empty (push_each cs) ≡ not (any (λ c. c.0) cs)
unfolding push_each
is_empty-push_each [] = refl
is_empty-push_each ((changed, c) ∷ cs) = ground (arith, is_empty-push_each cs)

swap_last :
    (a b c d e f g h i : Bool)
    → (a || (b || (c || (d || (e || (f || (g || (h || (i || false)))))))))
      ≡ (a || b || c || d || e || f || g || i || h)
swap_last a b c d e f g h i = ground arith

any-change_rows :
    (k : Known) (e : EntryDetail) (d : Form) → any (λ c. c.0) (change_rows k e d) ≡ is_dirty e d
unfolding change_rows is_dirty
any-change_rows k e d =
    swap_last (not (d.title == e.title)) (not (d.description == e.description))
      (not (same_id d.category_id e.category_id)) (not (same_flag d.is_public e.is_public))
      (not (same_flag d.access_denied e.access_denied)) (not (same_id d.acl_id e.domain_acl_id))
      (not (same_id d.player_id e.player_id)) (not (sets_equal d.ticked (base_ticked e)))
      d.poster_touched

is_empty-build_changes :
    (k : Known) (e : EntryDetail) (d : Form) → is_empty (build_changes k e d) ≡ not (is_dirty e d)
unfolding build_changes
is_empty-build_changes k e d =
    is_empty-push_each (change_rows k e d) ∙ ap not (any-change_rows k e d)

-- `save` asks to confirm a list of changes exactly where the form is dirty: it does nothing where the
-- form is not dirty, and otherwise the list is not empty.
pub save_iff_is_dirty :
    (k : Known) (e : EntryDetail) (d : Form)
    → ((save k e d ≡ none) ↔ (is_dirty e d ≡ false))
      × ((cs : List Change) → save k e d ≡ some cs → is_empty cs ≡ false)
unfolding save
save_iff_is_dirty k e d = elim (Bool-cases (is_empty (build_changes k e d))) [
  | inl h ↦ rw (h, save) ground (arith, is_empty-build_changes k e d, h)
  | inr h ↦ rw (h, save) ground (arith, is_empty-build_changes k e d, h)
]

same_id_refl : (o : Option ℕ) → same_id o o ≡ true
same_id_refl none = refl
same_id_refl (some n) = ground arith

same_flag_refl : (b : Bool) → same_flag b b ≡ true
same_flag_refl true = refl
same_flag_refl false = refl

base_ticked-IsSetLike : (e : EntryDetail) → IsSetLike (base_ticked e)
unfolding base_ticked
base_ticked-IsSetLike e = set_of-IsSetLike _

sets_equal_refl : (e : EntryDetail) → sets_equal (base_ticked e) (base_ticked e) ≡ true
sets_equal_refl e =
    (sets_equal_iff (base_ticked e) (base_ticked e) (base_ticked-IsSetLike e)
        (base_ticked-IsSetLike e)).1
      (λ v. refl)

pub fill_clean : (e : EntryDetail) → is_dirty e (fill e) ≡ false
unfolding is_dirty fill
fill_clean e = ground (
  arith,
  eq_refl e.title,
  eq_refl e.description,
  same_id_refl e.category_id,
  same_flag_refl e.is_public,
  same_flag_refl e.access_denied,
  same_id_refl e.domain_acl_id,
  same_id_refl e.player_id,
  sets_equal_refl e,
)

append_one-IsSetLike :
    (x : ℕ) (xs : List ℕ) → has x xs ≡ false → IsSetLike xs → IsSetLike (xs ++ x ∷ [])
append_one-IsSetLike x [] h s = (refl, tt)
append_one-IsSetLike x (y ∷ ys) h (s, ss) =
    (ground (arith, h, s, has-append y ys x), append_one-IsSetLike x ys (ground (arith, h)) ss)

edit_form-IsSetLike :
    (e : EntryDetail) (x : FormEdit) (d : Form)
    → IsSetLike d.ticked
    → IsSetLike (edit_form e x d).ticked
unfolding edit_form tick choose_poster fill
edit_form-IsSetLike e (title v) d h = h
edit_form-IsSetLike e (description v) d h = h
edit_form-IsSetLike e (category v) d h = h
edit_form-IsSetLike e (acl v) d h = h
edit_form-IsSetLike e (player v) d h = h
edit_form-IsSetLike e (visibility v) d h = h
edit_form-IsSetLike e (access v) d h = h
edit_form-IsSetLike e (flavor id true) d h = elim (Bool-cases (has id d.ticked)) [
  | inl m ↦ rw m h
  | inr m ↦ rw m (append_one-IsSetLike id d.ticked m h)
]
edit_form-IsSetLike e (flavor id false) d h = without-IsSetLike id d.ticked h
edit_form-IsSetLike e (poster n) d h = h
edit_form-IsSetLike e reset d h = base_ticked-IsSetLike e

fill-IsSetLike : (e : EntryDetail) → IsSetLike (fill e).ticked
unfolding fill
fill-IsSetLike e = base_ticked-IsSetLike e

edit_all-IsSetLike :
    (e : EntryDetail) (xs : List FormEdit) (d : Form)
    → IsSetLike d.ticked
    → IsSetLike (edit_all e xs d).ticked
unfolding edit_all
edit_all-IsSetLike e [] d h = h
edit_all-IsSetLike e (x ∷ xs) d h = edit_all-IsSetLike e xs _ (edit_form-IsSetLike e x d h)

flavor_ids_iff_sets_equal :
    (e : EntryDetail) (d : Form)
    → ((save_body e d).flavor_ids ≡ none) ↔ (sets_equal d.ticked (base_ticked e) ≡ true)
unfolding save_body sets_equal
flavor_ids_iff_sets_equal e d = ground (arith, one_fails (λ v. has v (base_ticked e)) d.ticked)

-- The server has the flavor, and does not skip it.
abbrev pub is_in_use : ℕ → List EntryFlavor → Bool
is_in_use v fs = any (λ f. eqb v f.flavor_id && not (is_skipped f.status)) fs

has-base_ticked : (v : ℕ) (e : EntryDetail) → has v (base_ticked e) ≡ is_in_use v e.flavors
unfolding base_ticked
has-base_ticked v e = has-set_of v _ ∙ go e.flavors
  where
    go :
        (fs : List EntryFlavor)
        → has v (map (λ f. f.flavor_id) (keep (λ f. not (is_skipped f.status)) fs)) ≡ is_in_use v fs
    go [] = refl
    go (f ∷ fs) = elim (Bool-cases (is_skipped f.status)) [
      | inl e ↦ rw e (ground (arith, go fs))
      | inr e ↦ rw e (ground (arith, go fs))
    ]

-- A save lets the server change the flavors exactly where the ticked ones are not, as a set, those
-- that the server has and does not skip, whatever was edited since the form was filled; and a form
-- just filled or reset is not dirty.
pub flavor_ids-edit_all :
    (e : EntryDetail) (xs : List FormEdit)
    → let d = edit_all e xs (fill e) in
      (((save_body e d).flavor_ids ≡ none) ↔ ((v : ℕ) → has v d.ticked ≡ is_in_use v e.flavors))
      × (is_dirty e (edit_form e reset d) ≡ false)
unfolding edit_form
flavor_ids-edit_all e xs =
    let d = edit_all e xs (fill e) in
    let s : IsSetLike d.ticked = edit_all-IsSetLike e xs (fill e) (fill-IsSetLike e) in
    let f = flavor_ids_iff_sets_equal e d in
    let g = sets_equal_iff d.ticked (base_ticked e) s (base_ticked-IsSetLike e) in
    (
      (
        λ h v. g.0 (f.0 h) v ∙ has-base_ticked v e,
        λ h. f.1 (g.1 (λ v. h v ∙ sym (has-base_ticked v e))),
      ),
      fill_clean e,
    )
