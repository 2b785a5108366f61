-- ===== src/Entries.antt =====
-- web/app/admin/entries/page.tsx: the list of entries, its filters, pages, selection and actions on
-- the selected entries. An action takes what the server answered.
pub mod Events
pub mod Selected
pub mod Refetched
mod Tests
use vidsilo.Base.{
  ℕ, ◌+◌, ◌-◌, ◌*◌, ◌/◌, max, Bool, true, false, not, ◌&&◌, ◌||◌, Option, none, some, List, [], ◌∷◌,
  ◌++◌, map, String, if◌then◌else◌, ◌==◌, ltb, leb, any, all, keep, length, is_empty, or_else,
}
use vidsilo.UploadStore.Job.{UploadJob, is_done}

-- `params` of the list's query; a filter that is empty is left out.
pub record EntryQuery : Type 0 where
  pub page : ℕ
  pub limit : ℕ
  pub q : Option String
  pub status : Option String
  pub category : Option String

-- The ids of the items that are shown.
pub record EntryList : Type 0 where
  pub items : List String
  pub total : ℕ
  pub page : ℕ
  pub limit : ℕ

pub data EntryRequest : Type 0 where
  delete_entry : (id : String) → EntryRequest
  reprocess : List String → EntryRequest

pub data EntryToast : Type 0 where
  entries_deleted entries_reprocessed : ℕ → EntryToast
  deleted : EntryToast
  failed : (message : String) → EntryToast

-- The state of the page, with what it has requested, shown and invalidated.
pub record EntriesPage : Type 0 where
  pub q : String
  pub status : String
  pub category : String
  pub page : ℕ
  pub limit : ℕ
  pub selected : List String
  pub done_ids : List String
  pub requests : List EntryRequest
  pub toasts : List EntryToast
  pub refetches : ℕ

abbrev present : String → Option String
present s = if s == "" then none else some s

unfoldable pub query_of : EntriesPage → EntryQuery
query_of p = record {
  page = p.page;
  limit = p.limit;
  q = present p.q;
  status = present p.status;
  category = present p.category;
}

-- `Set.has`, `Set.add` and `Set.delete`
abbrev pub has : String → List String → Bool
has id ids = any (λ i. i == id) ids

abbrev pub add : String → List String → List String
add id ids = if has id ids then ids else id ∷ ids

abbrev pub remove : String → List String → List String
remove id ids = keep (λ i. not (i == id)) ids

-- `new Set(ids)`
unfoldable pub set_of_ids : List String → List String
set_of_ids [] = []
set_of_ids (id ∷ ids) = add id (set_of_ids ids)

-- The effect on the user's own uploads: the loop, then the refetch.
unfoldable pub note_done : List UploadJob → List String → List String
note_done [] ids = ids
note_done (u ∷ us) ids =
    note_done us (if is_done u.status && not (has u.id ids) then u.id ∷ ids else ids)

unfoldable pub changed : List UploadJob → List String → Bool
changed [] ids = false
changed (u ∷ us) ids =
    let rest = changed us ids in if is_done u.status && not (has u.id ids) then true else rest

unfoldable pub on_uploads : List UploadJob → EntriesPage → EntriesPage
unfolding note_done changed
on_uploads us p = record p {
  done_ids = note_done us p.done_ids;
  refetches = if changed us p.done_ids then p.refetches + 1 else p.refetches;
}

-- The filters, `limit` and the two buttons, with what disables them.
unfoldable pub set_q : String → EntriesPage → EntriesPage
set_q q p = record p { q = q; page = 1 }

unfoldable pub set_status : Option String → EntriesPage → EntriesPage
set_status v p = record p { status = or_else v ""; page = 1 }

unfoldable pub set_category : Option String → EntriesPage → EntriesPage
set_category v p = record p { category = or_else v ""; page = 1 }

unfoldable pub set_limit : Option ℕ → EntriesPage → EntriesPage
set_limit v p = record p { limit = or_else v 20; page = 1 }

unfoldable pub previous_page : EntriesPage → EntriesPage
previous_page p = if leb p.page 1 then p else record p { page = p.page - 1 }

unfoldable pub next_page : EntryList → EntriesPage → EntriesPage
next_page list p =
    if leb list.total (p.page * list.limit) then p else record p { page = p.page + 1 }

-- `Math.max(1, Math.ceil(list.total / list.limit))`
unfoldable pub page_count : EntryList → ℕ
page_count list = max 1 ((list.total + list.limit - 1) / list.limit)

unfoldable pub toggle_select : String → EntriesPage → EntriesPage
toggle_select id p = record p {
  selected = if has id p.selected then remove id p.selected else add id p.selected;
}

-- The checkbox in the head of the table: whether it is checked, and a click.
unfoldable pub all_selected : Option EntryList → EntriesPage → Bool
all_selected none p = false
all_selected (some list) p = ltb 0 (length list.items) && all (λ id. has id p.selected) list.items

unfoldable pub select_all : Bool → Option EntryList → EntriesPage → EntriesPage
unfolding set_of_ids
select_all checked none p = record p { selected = [] }
select_all checked (some list) p = record p {
  selected = if checked then set_of_ids list.items else [];
}

-- Each request ends, and a failed one is ignored: the answers do not matter.
unfoldable pub bulk_delete : List String → EntriesPage → EntriesPage
bulk_delete ids p = record p {
  requests = p.requests ++ map (λ id. delete_entry id) ids;
  selected = [];
  toasts = p.toasts ++ entries_deleted (length ids) ∷ [];
  refetches = p.refetches + 1;
}

-- What a request came to: nothing, or the message of an error.
abbrev pub failure_toast : Option String → List EntryToast
failure_toast none = []
failure_toast (some message) = failed message ∷ []

unfoldable pub delete_one : String → Option String → EntriesPage → EntriesPage
delete_one id none p = record p {
  requests = p.requests ++ delete_entry id ∷ [];
  toasts = p.toasts ++ deleted ∷ [];
  refetches = p.refetches + 1;
}
delete_one id (some message) p = record p {
  requests = p.requests ++ delete_entry id ∷ [];
  toasts = p.toasts ++ failed message ∷ [];
}

unfoldable pub bulk_reprocess : List String → Option String → EntriesPage → EntriesPage
bulk_reprocess ids answer p = record p {
  requests = p.requests ++ reprocess ids ∷ [];
  selected = [];
  toasts = p.toasts ++ failure_toast answer ++ entries_reprocessed (length ids) ∷ [];
  refetches = p.refetches + 1;
}
