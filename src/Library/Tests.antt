-- ===== src/Library/Tests.antt =====
-- A small catalogue, and the theorems at concrete inputs.
use vidsilo.Base.{ℕ, ◌≡◌, refl, true, false, none, some, List, [], ◌∷◌}
use vidsilo.Base.Numerals.{digits, decimal}
use vidsilo.Library.{
  page_size, Filters, catalog_params, gate, stays, to_login, same_filters, Catalog, LibraryPage,
  library_page, no_filters, set_filters, type_q, debounce, set_category, set_sort, items_of,
  has_more, load_more, is_more_shown, click_more, on_search, append_page, on_more, LibraryEvent,
  typed, typing_over, more_clicked, search_answered, more_answered, handle_library, run_library,
}
use vidsilo.Library.Invariant.{IsShown}
use vidsilo.Library.Shown.{are_calm, run_library-IsShown}
use vidsilo.Library.Skipped.{there_and_back, late_first_page, run_library-there_and_back}

library : Unit {0}
unfolding digits decimal page_size catalog_params gate same_filters library_page set_filters type_q
    debounce set_category set_sort items_of has_more load_more is_more_shown click_more on_search
    append_page on_more handle_library run_library are_calm
library = tt

-- One item on each of nine pages: the page's number.
abbrev numbered : Filters → ℕ → Catalog ℕ
numbered f n = record { items = n ∷ []; total = 9 }

abbrev calm_events : List LibraryEvent
calm_events =
    search_answered true
    ∷ more_clicked
    ∷ more_answered true
    ∷ more_clicked
    ∷ more_answered false
    ∷ typed "cat"
    ∷ []

abbrev two_pages : LibraryPage ℕ
unfolding library
two_pages = run_library numbered calm_events library_page

asked_for :
    catalog_params (record no_filters { category = "3"; sort = "title" }) 2
    ≡ ("page", "2") ∷ ("limit", "24") ∷ ("category", "3") ∷ ("sort", "title") ∷ []
unfolding library
asked_for = refl

newest_by_default : catalog_params no_filters 1 ≡ ("page", "1") ∷ ("limit", "24") ∷ []
unfolding library
newest_by_default = refl

staff_stays : gate {V = ℕ} "login_only" none true ≡ stays (some none)
unfolding library
staff_stays = refl

stranger_leaves : gate {V = ℕ} "login_only" none false ≡ to_login
unfolding library
stranger_leaves = refl

typed_later :
    (run_library numbered (typed "c" ∷ typed "ca" ∷ typing_over ∷ []) library_page).search
    ≡ some (record no_filters { debounced_q = "ca" })
unfolding library
typed_later = refl

two_shown : items_of two_pages ≡ 1 ∷ 2 ∷ []
unfolding library two_pages
two_shown = refl

run_library-IsShown_example : IsShown numbered (run_library numbered calm_events library_page)
unfolding library
run_library-IsShown_example = run_library-IsShown numbered calm_events refl

run_library-there_and_back_example :
    ((run_library numbered (there_and_back numbered "3" two_pages) two_pages).catalog
      ≡ some (record { items = 1 ∷ 3 ∷ []; total = 9 }))
    × ((run_library numbered (there_and_back numbered "3" two_pages) two_pages).page ≡ 3)
    × ((run_library numbered (late_first_page numbered "3" two_pages) two_pages).catalog
        ≡ some (record { items = 1 ∷ []; total = 9 }))
    × ((run_library numbered (late_first_page numbered "3" two_pages) two_pages).page ≡ 1)
unfolding library two_pages
run_library-there_and_back_example =
    run_library-there_and_back numbered two_pages "3" refl refl refl
