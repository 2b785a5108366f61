-- ===== src/Entries/Refetched.antt =====
-- web/app/admin/entries/page.tsx: the refetch when one of the user's own uploads completes.
use vidsilo.Base.{
  ◌≡◌, refl, ap, inl, inr, Bool, true, false, not, ◌&&◌, ◌||◌, List, [], ◌∷◌, String, arith, ◌+◌,
  if◌then◌else◌, ◌==◌, any, Bool-cases, eq_iff, eq_refl,
}
use vidsilo.UploadStore.Job.{UploadJob, is_done}
use vidsilo.Entries.{EntriesPage, has, note_done, changed, on_uploads}

-- A completed upload with the id is in the list.
abbrev pub completed : String → List UploadJob → Bool
completed i us = any (λ u. is_done u.status && u.id == i) us

-- A completed upload that is not noted is in the list.
abbrev pub has_news : List UploadJob → List String → Bool
has_news us ids = any (λ u. is_done u.status && not (has u.id ids)) us

has_equal : (i k : String) (is : List String) → (k == i) ≡ true → has k is ≡ has i is
has_equal i k is e = ap (λ x. has x is) ((eq_iff k i).0 e)

has-note_done :
    (i : String) (us : List UploadJob) (ids : List String)
    → has i (note_done us ids) ≡ (has i ids || completed i us)
unfolding note_done
has-note_done i [] ids = ground arith
has-note_done i (u ∷ us) ids = elim (Bool-cases (is_done u.status && not (has u.id ids))) [
  | inl e ↦ rw (e, note_done) (ground (arith, e, has-note_done i us (u.id ∷ ids)))
  | inr e ↦ rw (e, note_done) (ground (arith, e, has-note_done i us ids, has_equal i u.id ids))
]

changed_lem : (us : List UploadJob) (ids : List String) → changed us ids ≡ has_news us ids
unfolding changed
changed_lem [] ids = refl
changed_lem (u ∷ us) ids = ground (arith, changed_lem us ids)

no_news :
    (us : List UploadJob) (ids : List String) → has_news us ids ≡ false → note_done us ids ≡ ids
unfolding note_done
no_news [] ids h = refl
no_news (u ∷ us) ids h =
    let e : (is_done u.status && not (has u.id ids)) ≡ false = ground (arith, h) in
    rw (e, note_done) (no_news us ids (ground (arith, h)))

-- Noting the completed uploads of a list leaves no news in it, whatever else is noted.
all_noted :
    (us : List UploadJob) (noted : List String)
    → ((i : String) → completed i us ≡ true → has i noted ≡ true)
    → has_news us noted ≡ false
all_noted [] noted h = refl
all_noted (u ∷ us) noted h =
    let rest = all_noted us noted (λ i c. h i (ground (arith, c))) in
    elim (Bool-cases (is_done u.status)) [
      | inl e ↦
          let there : has u.id noted ≡ true = h u.id (ground (arith, e, eq_refl u.id)) in
          ground (arith, rest, there)
      | inr e ↦ ground (arith, rest, e)
    ]

-- The list is fetched again, once, exactly where an upload is completed that was not noted; then
-- all completed uploads are noted, and the same uploads change nothing any more.
on_uploads_lem :
    (us : List UploadJob) (p : EntriesPage)
    → let t = on_uploads us p in
      (t.refetches ≡ (if has_news us p.done_ids then p.refetches + 1 else p.refetches))
      × ((i : String) → has i t.done_ids ≡ (has i p.done_ids || completed i us))
      × (on_uploads us t ≡ t)
unfolding on_uploads
on_uploads_lem us p =
    let noted = note_done us p.done_ids in
    let quiet : has_news us noted ≡ false =
      all_noted us noted (λ i c. ground (arith, c, has-note_done i us p.done_ids)) in
    (
      ap (λ b. if b then p.refetches + 1 else p.refetches) (changed_lem us p.done_ids),
      λ i. has-note_done i us p.done_ids,
      rw (changed_lem us noted, quiet, no_news us noted quiet) refl,
    )
