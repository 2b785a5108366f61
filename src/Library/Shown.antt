-- ===== src/Library/Shown.antt =====
-- web/app/(public)/page.tsx: the items that the library shows, over any history.
use vidsilo.Base.{
  ℕ, ◌≡◌, refl, sym, subst, inl, inr, Bool, true, false, not, ◌&&◌, Option, none, some, List, [],
  ◌∷◌, arith, if◌then◌else◌, is_some, Bool-cases, Option-cases,
}
use vidsilo.Library.{
  Filters, Catalog, LibraryPage, library_page, set_filters, type_q, debounce, set_category,
  set_sort, is_more_shown, load_more, click_more, on_search, on_more, LibraryEvent, typed,
  category_chosen, sort_chosen, typing_over, more_clicked, search_answered, more_answered,
  handle_library, run_library,
}
use vidsilo.Library.Invariant.{
  IsShown, set_filters-IsShown, on_search-IsShown, load_more-IsShown, on_more-IsShown,
}

-- No filter changes while loadMore waits, and loadMore is not clicked while the first page is awaited.
abbrev pub is_calm : {A : Type 0} → LibraryEvent → LibraryPage A → Bool
is_calm (typed q) p = true
is_calm typing_over p = not (is_some p.more)
is_calm (category_chosen c) p = not (is_some p.more)
is_calm (sort_chosen s) p = not (is_some p.more)
is_calm more_clicked p = not (is_some p.search)
is_calm (search_answered is_ok) p = true
is_calm (more_answered is_ok) p = true

module _ {A : Type 0} (serve : Filters → ℕ → Catalog A) where
  handle_library-IsShown :
      (e : LibraryEvent) (p : LibraryPage A)
      → is_calm e p ≡ true
      → IsShown serve p
      → IsShown serve (handle_library serve e p)
  unfolding handle_library type_q debounce set_category set_sort click_more
  handle_library-IsShown (typed q) p k h = h
  handle_library-IsShown typing_over p k h = go p.timer
    where
      go :
          (b : Bool)
          → IsShown serve (
              if b
              then set_filters (record p.filters { debounced_q = p.q }) (record p { timer = false })
              else p)
      go true =
          set_filters-IsShown serve (record p.filters { debounced_q = p.q })
            (record p { timer = false }) (ground (arith, k)) h
      go false = h
  handle_library-IsShown (category_chosen c) p k h =
      set_filters-IsShown serve (record p.filters { category = c }) p (ground (arith, k)) h
  handle_library-IsShown (sort_chosen s) p k h =
      set_filters-IsShown serve (record p.filters { sort = s }) p (ground (arith, k)) h
  handle_library-IsShown more_clicked p k h = elim (Bool-cases (is_more_shown p)) [
    | inl e ↦
        subst (λ b. IsShown serve (if b then load_more p else p)) (sym e)
          (load_more-IsShown serve p e (none_of p.search k) h)
    | inr e ↦ subst (λ b. IsShown serve (if b then load_more p else p)) (sym e) h
  ]
    where
      none_of : (s : Option Filters) → not (is_some s) ≡ true → s ≡ none
      none_of none k = refl
      none_of (some s) k = cc
  handle_library-IsShown (search_answered b) p k h = elim (Option-cases p.search) [
    | inl e ↦
        subst
          (λ s.
            IsShown serve
              (elim s [ none ↦ p | some f ↦ on_search (if b then some (serve f 1) else none) p ]))
          (sym e) h
    | inr (g, e) ↦
        subst
          (λ s.
            IsShown serve
              (elim s [ none ↦ p | some f ↦ on_search (if b then some (serve f 1) else none) p ]))
          (sym e) (on_search-IsShown serve g b p e h)
  ]
  handle_library-IsShown (more_answered b) p k h = elim (Option-cases p.more) [
    | inl e ↦
        subst
          (λ m. IsShown serve (elim m [
            | none ↦ p
            | some s ↦ on_more s (if b then some (serve s.of s.next) else none) p
          ]))
          (sym e) h
    | inr (m, e) ↦
        subst
          (λ m. IsShown serve (elim m [
            | none ↦ p
            | some s ↦ on_more s (if b then some (serve s.of s.next) else none) p
          ]))
          (sym e) (on_more-IsShown serve m b p e h)
  ]

  unfoldable pub are_calm : List LibraryEvent → LibraryPage A → Bool
  unfolding handle_library
  are_calm [] p = true
  are_calm (e ∷ es) p = is_calm e p && are_calm es (handle_library serve e p)

  run_from-IsShown :
      (es : List LibraryEvent) (p : LibraryPage A)
      → are_calm es p ≡ true
      → IsShown serve p
      → IsShown serve (run_library serve es p)
  unfolding run_library are_calm
  run_from-IsShown [] p k h = h
  run_from-IsShown (e ∷ es) p k h =
      run_from-IsShown es (handle_library serve e p) (ground (arith, k))
        (handle_library-IsShown e p (ground (arith, k)) h)

  -- Where no filter changes while loadMore waits for its answer, and loadMore is not clicked while the
  -- first page is awaited, the library shows nothing yet or the first pages of some filters, each once
  -- and in order, as many as its page number says; they are those of the filters in force unless the
  -- first page is awaited or could not be had. loadMore waits, if at all, for the page after those.
  pub run_library-IsShown :
      (es : List LibraryEvent)
      → are_calm es library_page ≡ true
      → IsShown serve (run_library serve es library_page)
  unfolding library_page
  run_library-IsShown es k = run_from-IsShown es library_page k (refl, inl (refl, refl))
