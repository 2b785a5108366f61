-- ===== src/Library/Skipped.antt =====
-- web/app/(public)/page.tsx: an answer to loadMore that comes after its filters were left and chosen again.
use Prim.Native.String.{String}
use vidsilo.Base.{
  ℕ, ◌+◌, ◌≡◌, refl, sym, ap, ◌∙◌, Bool, true, false, not, none, some, List, [], ◌∷◌, ◌++◌, arith,
  if◌then◌else◌, is_some, ◌==◌, eq_refl, text_of_ne, ne_of_text,
}
use vidsilo.Library.{
  Filters, same_filters, Catalog, LibraryPage, set_filters, set_category, is_more_shown, load_more,
  click_more, on_search, append_page, on_more, LibraryEvent, category_chosen, more_clicked,
  search_answered, more_answered, handle_library, run_library,
}

same_filters_refl : (f : Filters) → same_filters f f ≡ true
unfolding same_filters
same_filters_refl f = ground (arith, eq_refl f.debounced_q, eq_refl f.category, eq_refl f.sort)

same_filters_other :
    (f : Filters) (c : String)
    → (f.category == c) ≡ false
    → same_filters f (record f { category = c }) ≡ false
unfolding same_filters
same_filters_other f c e = ground (arith, e, eq_refl f.debounced_q)

other_same_filters :
    (f : Filters) (c : String)
    → (f.category == c) ≡ false
    → same_filters (record f { category = c }) f ≡ false
unfolding same_filters
other_same_filters f c e =
    let g : (c == f.category) ≡ false =
      text_of_ne c f.category (λ q. ne_of_text f.category c e (sym q)) in
    ground (arith, g, eq_refl f.debounced_q)

module _ {A : Type 0} where
  click_more_lem :
      (p : LibraryPage A)
      → is_more_shown p ≡ true
      → p.more ≡ none
      → click_more p ≡ record p { more = some (record { of = p.filters; next = p.page + 1 }) }
  unfolding click_more load_more
  click_more_lem p v m =
      ap (λ b. if b then load_more p else p) v
      ∙ ap
          (λ k.
            if is_some k
            then p
            else record p { more = some (record { of = p.filters; next = p.page + 1 }) })
          m

  set_filters_lem :
      (f : Filters) (p : LibraryPage A)
      → same_filters p.filters f ≡ false
      → set_filters f p ≡ record p { filters = f; search = some f }
  unfolding set_filters
  set_filters_lem f p e = ap (λ b. if b then p else record p { filters = f; search = some f }) e

  module _ (serve : Filters → ℕ → Catalog A) where
    -- The category is left for another and chosen again while loadMore waits.
    abbrev pub there_and_back : String → LibraryPage A → List LibraryEvent
    there_and_back c p =
        more_clicked
        ∷ category_chosen c
        ∷ category_chosen p.filters.category
        ∷ search_answered true
        ∷ more_answered true
        ∷ []

    -- The same, where the further page comes before the first one.
    abbrev pub late_first_page : String → LibraryPage A → List LibraryEvent
    late_first_page c p =
        more_clicked
        ∷ category_chosen c
        ∷ category_chosen p.filters.category
        ∷ more_answered true
        ∷ search_answered true
        ∷ []

    -- Where the button is clicked that loads more, another category is chosen and then the former one
    -- again, and both answers come well: where the first page comes before the page that was asked for,
    -- the library shows the first page followed by that page, whatever lies between these two, and goes
    -- on from the latter; where it comes after it, the library shows the first page alone. No other
    -- answer to that button is awaited before.
    pub run_library-there_and_back :
        (p : LibraryPage A) (c : String)
        → is_more_shown p ≡ true
        → p.more ≡ none
        → (p.filters.category == c) ≡ false
        → ((run_library serve (there_and_back c p) p).catalog
            ≡ some (record {
              items = (serve p.filters 1).items ++ (serve p.filters (p.page + 1)).items;
              total = (serve p.filters (p.page + 1)).total;
            }))
          × ((run_library serve (there_and_back c p) p).page ≡ p.page + 1)
          × ((run_library serve (late_first_page c p) p).catalog ≡ some (serve p.filters 1))
          × ((run_library serve (late_first_page c p) p).page ≡ 1)
    unfolding run_library handle_library set_category on_search on_more append_page
    run_library-there_and_back p c v m e = (
      ap (λ q. q.catalog) all ∙ ap (λ b. (last b).catalog) same,
      ap (λ q. q.page) all ∙ ap (λ b. (last b).page) same,
      ap (λ q. q.catalog) late ∙ (overwritten (same_filters p.filters p.filters)).0,
      ap (λ q. q.page) late ∙ (overwritten (same_filters p.filters p.filters)).1,
    )
      where
        asked : LibraryPage A
        asked = record p { more = some (record { of = p.filters; next = p.page + 1 }) }

        left : LibraryPage A
        left = record asked {
          filters = record p.filters { category = c };
          search = some (record p.filters { category = c });
        }

        back : LibraryPage A
        back = record left { filters = p.filters; search = some p.filters }

        found : LibraryPage A
        found = record back {
          search = none;
          error = false;
          catalog = some (serve p.filters 1);
          page = 1;
        }

        last : Bool → LibraryPage A
        last b = if not b then record found { more = none } else record found {
          more = none;
          catalog = some (append_page (some (serve p.filters 1)) (serve p.filters (p.page + 1)));
          page = p.page + 1;
        }

        same : same_filters p.filters p.filters ≡ true
        same = same_filters_refl p.filters

        other : same_filters p.filters (record p.filters { category = c }) ≡ false
        other = same_filters_other p.filters c e

        again : same_filters (record p.filters { category = c }) p.filters ≡ false
        again = other_same_filters p.filters c e

        -- The further page, before the first one.
        further : Bool → LibraryPage A
        further b = if not b then record back { more = none } else record back {
          more = none;
          catalog = some (append_page back.catalog (serve p.filters (p.page + 1)));
          page = p.page + 1;
        }

        overwritten :
            (b : Bool)
            → ((handle_library serve (search_answered true) (further b)).catalog
                ≡ some (serve p.filters 1))
              × ((handle_library serve (search_answered true) (further b)).page ≡ 1)
        overwritten true = (refl, refl)
        overwritten false = (refl, refl)

        all_but :
            (rest : List LibraryEvent)
            → run_library serve
                (more_clicked ∷ category_chosen c ∷ category_chosen p.filters.category ∷ rest)
                p
              ≡ run_library serve rest back
        all_but rest =
            ap
              (λ q.
                run_library serve (category_chosen c ∷ category_chosen p.filters.category ∷ rest) q)
              (click_more_lem p v m)
            ∙ ap (λ q. run_library serve (category_chosen p.filters.category ∷ rest) q)
                (set_filters_lem (record p.filters { category = c }) asked other)
            ∙ ap (λ q. run_library serve rest q) (set_filters_lem p.filters left again)

        all : run_library serve (there_and_back c p) p ≡ last (same_filters p.filters p.filters)
        all = all_but (search_answered true ∷ more_answered true ∷ [])

        late :
            run_library serve (late_first_page c p) p
            ≡ handle_library serve
                (search_answered true)
                (further (same_filters p.filters p.filters))
        late = all_but (more_answered true ∷ search_answered true ∷ [])
