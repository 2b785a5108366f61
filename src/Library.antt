-- ===== src/Library.antt =====
-- web/app/(public)/page.tsx: the public library. The pages that the server gives for filters are an
-- argument; they do not change while the page is open.
pub mod Invariant
pub mod Shown
pub mod Skipped
mod Tests
use vidsilo.Base.{
  ℕ, ◌+◌, Bool, true, false, not, ◌&&◌, ◌||◌, Option, none, some, List, [], ◌∷◌, ◌++◌, String,
  if◌then◌else◌, ltb, ◌==◌, is_blank, is_empty, is_some, length, truthy,
}
use vidsilo.Base.Numerals.{decimal}

unfoldable pub page_size : ℕ
page_size = 24

pub record Filters : Type 0 where
  pub debounced_q : String
  pub category : String
  pub sort : String

-- `new URLSearchParams`, as a list.
unfoldable pub catalog_params : Filters → ℕ → List (String × String)
unfolding page_size decimal
catalog_params f page =
    (("page", decimal page) ∷ ("limit", decimal page_size) ∷ [])
    ++ ((if is_blank f.debounced_q then [] else ("q", f.debounced_q) ∷ [])
        ++ ((if is_blank f.category then [] else ("category", f.category) ∷ [])
            ++ (if f.sort == "title" || f.sort == "oldest" || f.sort == "duration"
                then ("sort", f.sort) ∷ []
                else [])))

-- What the gate does: the addresses that it goes to, or the viewer that it finds, if any.
pub data Gate (V : Type 0) : Type 0 where
  to_admin_login to_login : Gate V
  stays : Option (Option V) → Gate V

-- The gate, of `libraryMode` and the answers of `/api/viewer/me` and of `/api/auth/me`.
unfoldable pub gate : {V : Type 0} → String → Option V → Bool → Gate V
gate mode viewer is_staff =
    if mode == "disabled"
    then to_admin_login
    else if not (mode == "login_only")
    then stays none
    else elim viewer [
      | some v ↦ stays (some (some v))
      | none ↦ if is_staff then stays (some none) else to_login
    ]

-- `snapshot`
pub record Snapshot : Type 0 where
  pub of : Filters
  pub next : ℕ

unfoldable pub same_filters : Filters → Filters → Bool
same_filters f g =
    (f.debounced_q == g.debounced_q) && (f.category == g.category) && (f.sort == g.sort)

-- What happens on the page; requests are answered well or not.
pub data LibraryEvent : Type 0 where
  typed category_chosen sort_chosen : String → LibraryEvent
  typing_over more_clicked : LibraryEvent
  search_answered more_answered : Bool → LibraryEvent

module _ (A : Type 0) where
  pub record Catalog : Type 0 where
    pub items : List A
    pub total : ℕ

  -- `filters` are the active ones. `timer` is set while the typed text waits, `search` holds the filters of
  -- the request for the first page that is in flight and not cancelled, `more` that of loadMore.
  pub record LibraryPage : Type 0 where
    pub q : String
    pub timer : Bool
    pub filters : Filters
    pub page : ℕ
    pub catalog : Option Catalog
    pub error : Bool
    pub search : Option Filters
    pub more : Option Snapshot

abbrev pub no_filters : Filters
no_filters = record { debounced_q = ""; category = ""; sort = "newest" }

module _ {A : Type 0} where
  -- The page after its effects have run.
  unfoldable pub library_page : LibraryPage A
  library_page = record {
    q = "";
    timer = false;
    filters = no_filters;
    page = 1;
    catalog = none;
    error = false;
    search = some no_filters;
    more = none;
  }

  -- New filters: where they differ, the request in flight is cancelled and another is sent.
  unfoldable pub set_filters : Filters → LibraryPage A → LibraryPage A
  unfolding same_filters
  set_filters f p =
      if same_filters p.filters f then p else record p { filters = f; search = some f }

  -- `setQ`, and the timer that starts anew.
  unfoldable pub type_q : String → LibraryPage A → LibraryPage A
  type_q q p = record p { q = q; timer = true }

  -- The end of the timer.
  unfoldable pub debounce : LibraryPage A → LibraryPage A
  unfolding set_filters
  debounce p =
      if p.timer
      then set_filters (record p.filters { debounced_q = p.q }) (record p { timer = false })
      else p

  -- `setCategory`
  unfoldable pub set_category : String → LibraryPage A → LibraryPage A
  unfolding set_filters
  set_category c p = set_filters (record p.filters { category = c }) p

  -- `setSort`
  unfoldable pub set_sort : String → LibraryPage A → LibraryPage A
  unfolding set_filters
  set_sort s p = set_filters (record p.filters { sort = s }) p

  -- `items`
  unfoldable pub items_of : LibraryPage A → List A
  items_of p = elim p.catalog [ none ↦ [] | some c ↦ c.items ]

  -- `hasMore`
  unfoldable pub has_more : LibraryPage A → Bool
  unfolding items_of
  has_more p = ltb (length (items_of p)) (elim p.catalog [ none ↦ 0 | some c ↦ c.total ])

  -- `loadMore`
  unfoldable pub load_more : LibraryPage A → LibraryPage A
  load_more p =
      if is_some p.more
      then p
      else record p { more = some (record { of = p.filters; next = p.page + 1 }) }

  -- The button is there where items are shown, and there are more.
  unfoldable pub is_more_shown : LibraryPage A → Bool
  unfolding items_of has_more
  is_more_shown p = not p.error && not (is_empty (items_of p)) && has_more p

  unfoldable pub click_more : LibraryPage A → LibraryPage A
  unfolding load_more is_more_shown
  click_more p = if is_more_shown p then load_more p else p

  -- The answer to the request for the first page.
  unfoldable pub on_search : Option (Catalog A) → LibraryPage A → LibraryPage A
  on_search none p = record p { search = none; error = true }
  on_search (some c) p = record p { search = none; error = false; catalog = some c; page = 1 }

  -- `setData`, of the answer to loadMore.
  unfoldable pub append_page : Option (Catalog A) → Catalog A → Catalog A
  append_page none c = c
  append_page (some prev) c = record c { items = prev.items ++ c.items }

  -- The answer to loadMore.
  unfoldable pub on_more : Snapshot → Option (Catalog A) → LibraryPage A → LibraryPage A
  unfolding same_filters append_page
  on_more snapshot none p = record p { more = none }
  on_more snapshot (some c) p =
      if not (same_filters p.filters snapshot.of)
      then record p { more = none }
      else record p { more = none; catalog = some (append_page p.catalog c); page = snapshot.next }

  module _ (serve : Filters → ℕ → Catalog A) where
    unfoldable pub handle_library : LibraryEvent → LibraryPage A → LibraryPage A
    unfolding type_q debounce set_category set_sort click_more on_search on_more
    handle_library (typed q) p = type_q q p
    handle_library typing_over p = debounce p
    handle_library (category_chosen c) p = set_category c p
    handle_library (sort_chosen s) p = set_sort s p
    handle_library more_clicked p = click_more p
    handle_library (search_answered is_ok) p = elim p.search [
      | none ↦ p
      | some f ↦ on_search (if is_ok then some (serve f 1) else none) p
    ]
    handle_library (more_answered is_ok) p = elim p.more [
      | none ↦ p
      | some s ↦ on_more s (if is_ok then some (serve s.of s.next) else none) p
    ]

    unfoldable pub run_library : List LibraryEvent → LibraryPage A → LibraryPage A
    unfolding handle_library
    run_library [] p = p
    run_library (e ∷ es) p = run_library es (handle_library e p)
