-- ===== src/Entries/Selected.antt =====
-- web/app/admin/entries/page.tsx: the selection, the page number and what is requested.
use vidsilo.Base.{
  ℕ, ◌≡◌, ◌≤◌, refl, ap, ◌∙◌, inl, inr, Bool, true, false, not, ◌&&◌, ◌||◌, none, some, List, [],
  ◌∷◌, map, String, arith, ◌+◌, ◌-◌, ◌*◌, if◌then◌else◌, ◌==◌, count, leb, Bool-cases, eq_iff,
  eq_refl, count-append,
}
use vidsilo.Entries.{
  EntriesPage, EntryRequest, delete_entry, reprocess, has, add, remove, set_of_ids, on_uploads,
  set_q, set_status, set_category, set_limit, previous_page, next_page, toggle_select, select_all,
  bulk_delete, delete_one, bulk_reprocess,
}
use vidsilo.Entries.Events.{
  EntriesEvent, uploads_changed, typed, status_chosen, category_chosen, limit_chosen,
  previous_clicked, next_clicked, row_toggled, all_toggled, delete_confirmed, reprocess_confirmed,
  row_deleted, handle_entries, run_entries,
}

-- No id stands twice.
abbrev pub NoRepeats : List String → Type 0
NoRepeats [] = Unit
NoRepeats (i ∷ is) = (has i is ≡ false) × NoRepeats is

has_equal : (i k : String) (is : List String) → (k == i) ≡ true → has k is ≡ has i is
has_equal i k is e = ap (λ x. has x is) ((eq_iff k i).0 e)

has-add : (i k : String) (is : List String) → has i (add k is) ≡ (k == i || has i is)
has-add i k is = elim (Bool-cases (has k is)) [
  | inl e ↦ rw e (ground (arith, has_equal i k is))
  | inr e ↦ rw e refl
]

flipped : (i k : String) → (i == k) ≡ (k == i)
flipped i k = ground (arith, eq_iff i k, eq_iff k i)

has-remove : (i k : String) (is : List String) → has i (remove k is) ≡ (not (k == i) && has i is)
has-remove i k [] = ground arith
has-remove i k (j ∷ is) =
    ground (arith, has-remove i k is, eq_iff j k, eq_iff j i, eq_iff k i, eq_refl i, flipped k i)

add-NoRepeats : (k : String) (is : List String) → NoRepeats is → NoRepeats (add k is)
add-NoRepeats k is h = elim (Bool-cases (has k is)) [ inl e ↦ rw e h | inr e ↦ rw e (e, h) ]

remove-NoRepeats : (k : String) (is : List String) → NoRepeats is → NoRepeats (remove k is)
remove-NoRepeats k [] h = tt
remove-NoRepeats k (j ∷ is) (h, hs) = elim (Bool-cases (j == k)) [
  | inl e ↦ rw e (remove-NoRepeats k is hs)
  | inr e ↦ rw e (ground (arith, h, has-remove j k is), remove-NoRepeats k is hs)
]

set_of_ids-NoRepeats : (is : List String) → NoRepeats (set_of_ids is)
unfolding set_of_ids
set_of_ids-NoRepeats [] = tt
set_of_ids-NoRepeats (i ∷ is) = add-NoRepeats i (set_of_ids is) (set_of_ids-NoRepeats is)

-- A click on a row changes whether it is selected, and no other row.
has-toggle_select :
    (i id : String) (p : EntriesPage)
    → has i (toggle_select id p).selected
      ≡ (if id == i then not (has i p.selected) else has i p.selected)
unfolding toggle_select
has-toggle_select i id p = elim (Bool-cases (has id p.selected)) [
  | inl e ↦
      rw (e, toggle_select) (ground (arith, has-remove i id p.selected, has_equal i id p.selected))
  | inr e ↦
      rw (e, toggle_select) (ground (arith, has-add i id p.selected, has_equal i id p.selected))
]

-- What every event keeps.
pub record IsProper (p : EntriesPage) : Type 0 where
  pub first_page : 1 ≤ p.page
  pub unrepeated : NoRepeats p.selected

same_selection : (p : EntriesPage) (n : ℕ) → 1 ≤ n → IsProper p → IsProper (record p { page = n })
same_selection p n k h = record { first_page = k; unrepeated = h.unrepeated }

handle_entries-IsProper :
    (e : EntriesEvent) (p : EntriesPage) → IsProper p → IsProper (handle_entries e p)
unfolding handle_entries on_uploads set_q set_status set_category set_limit previous_page next_page
    toggle_select select_all bulk_delete delete_one bulk_reprocess
handle_entries-IsProper (uploads_changed us) p h = record {
  first_page = h.first_page;
  unrepeated = h.unrepeated;
}
handle_entries-IsProper (typed q) p h = record {
  first_page = omega arith;
  unrepeated = h.unrepeated;
}
handle_entries-IsProper (status_chosen v) p h = record {
  first_page = omega arith;
  unrepeated = h.unrepeated;
}
handle_entries-IsProper (category_chosen v) p h = record {
  first_page = omega arith;
  unrepeated = h.unrepeated;
}
handle_entries-IsProper (limit_chosen v) p h = record {
  first_page = omega arith;
  unrepeated = h.unrepeated;
}
handle_entries-IsProper previous_clicked p h = elim (Bool-cases (leb p.page 1)) [
  | inl e ↦ rw (e, previous_page) h
  | inr e ↦ rw (e, previous_page) (same_selection p (p.page - 1) (ground arith) h)
]
handle_entries-IsProper (next_clicked l) p h = elim (Bool-cases (leb l.total (p.page * l.limit))) [
  | inl e ↦ rw (e, next_page) h
  | inr e ↦ rw (e, next_page) (same_selection p (p.page + 1) (omega arith) h)
]
handle_entries-IsProper (row_toggled id) p h = record {
  first_page = h.first_page;
  unrepeated = elim (Bool-cases (has id p.selected)) [
    | inl e ↦ rw e (remove-NoRepeats id p.selected h.unrepeated)
    | inr e ↦ rw e (e, h.unrepeated)
  ];
}
handle_entries-IsProper (all_toggled checked none) p h = record {
  first_page = h.first_page;
  unrepeated = tt;
}
handle_entries-IsProper (all_toggled true (some list)) p h = record {
  first_page = h.first_page;
  unrepeated = set_of_ids-NoRepeats list.items;
}
handle_entries-IsProper (all_toggled false (some list)) p h = record {
  first_page = h.first_page;
  unrepeated = tt;
}
handle_entries-IsProper (delete_confirmed ids) p h = record {
  first_page = h.first_page;
  unrepeated = tt;
}
handle_entries-IsProper (reprocess_confirmed ids answer) p h = record {
  first_page = h.first_page;
  unrepeated = tt;
}
handle_entries-IsProper (row_deleted id none) p h = record {
  first_page = h.first_page;
  unrepeated = h.unrepeated;
}
handle_entries-IsProper (row_deleted id (some m)) p h = record {
  first_page = h.first_page;
  unrepeated = h.unrepeated;
}

run_entries-IsProper :
    (es : List EntriesEvent) (p : EntriesPage) → IsProper p → IsProper (run_entries es p)
unfolding run_entries
run_entries-IsProper [] p h = h
run_entries-IsProper (e ∷ es) p h =
    run_entries-IsProper es (handle_entries e p) (handle_entries-IsProper e p h)

-- The request to delete the entry.
abbrev pub deletes : String → EntryRequest → Bool
deletes i (delete_entry k) = k == i
deletes i (reprocess ids) = false

pub deletions_lem :
    (i : String) (is : List String)
    → NoRepeats is
    → count (deletes i) (map (λ id. delete_entry id) is) ≡ (if has i is then 1 else 0)
deletions_lem i [] h = refl
deletions_lem i (k ∷ is) (h, hs) = ground (arith, deletions_lem i is hs, h, has_equal i k is)

-- After any events, the page number is at least 1; deleting what is selected requests the deletion
-- of each selected entry exactly once and of no other, and nothing stays selected. At the start the
-- page number was at least 1 and no entry was selected twice.
pub bulk_delete-run_entries :
    (es : List EntriesEvent) (p₀ : EntriesPage) (i : String)
    → IsProper p₀
    → let p = run_entries es p₀ in
      let d = bulk_delete p.selected p in
      (1 ≤ p.page)
      × (count (deletes i) d.requests
          ≡ count (deletes i) p.requests + (if has i p.selected then 1 else 0))
      × (d.selected ≡ [])
unfolding bulk_delete
bulk_delete-run_entries es p₀ i h =
    let p = run_entries es p₀ in
    let k = run_entries-IsProper es p₀ h in
    (
      k.first_page,
      count-append (deletes i) p.requests (map (λ id. delete_entry id) p.selected)
          ∙ ap (λ n. count (deletes i) p.requests + n) (deletions_lem i p.selected k.unrepeated),
      refl,
    )
