-- ===== src/Library/Invariant.antt =====
-- web/app/(public)/page.tsx: what the library shows, and the operations that keep it so.
use Prim.Native.Nat.{zero, suc}
use vidsilo.Base.{
  ℕ, ◌+◌, ◌≡◌, refl, sym, subst, ap, ◌∙◌, ◌⊎◌, inl, inr, Bool, true, false, not, Option, none, some,
  List, [], ◌++◌, arith, if◌then◌else◌, is_some, is_empty,
}
use vidsilo.Library.{
  Filters, Snapshot, same_filters, Catalog, LibraryPage, set_filters, items_of, is_more_shown,
  load_more, on_search, append_page, on_more,
}

module _ {A : Type 0} (serve : Filters → ℕ → Catalog A) where
  -- The items of the first pages.
  abbrev pub pages_upto : Filters → ℕ → List A
  pages_upto f zero = []
  pages_upto f (suc n) = pages_upto f n ++ (serve f (suc n)).items

  -- The first pages, with the total that came with the last of them.
  abbrev pub full : Filters → ℕ → Catalog A
  full f n = record { items = pages_upto f n; total = (serve f n).total }

  abbrev SearchFits : Filters → Option Filters → Type 0
  SearchFits f none = Unit
  SearchFits f (some g) = g ≡ f

  abbrev MoreFits : Filters → ℕ → Option Filters → Bool → Option Snapshot → Type 0
  MoreFits f n s e none = Unit
  MoreFits f n s e (some m) = (m ≡ record { of = f; next = n + 1 }) × (s ≡ none) × (e ≡ false)

  abbrev Current : Filters → Filters → Option Filters → Bool → Type 0
  Current f g none false = f ≡ g
  Current f g none true = Unit
  Current f g (some s) e = Unit

  abbrev Fits : LibraryPage A → Filters → Type 0
  Fits p f =
      (p.catalog ≡ some (full f p.page))
      × MoreFits f p.page p.search p.error p.more
      × Current f p.filters p.search p.error

  abbrev pub IsShown : LibraryPage A → Type 0
  IsShown p =
      SearchFits p.filters p.search
      × (((p.catalog ≡ none) × (p.more ≡ none)) ⊎ ((f : Filters) × Fits p f))

  no_more :
      (f : Filters) (n : ℕ) (s : Option Filters) (e : Bool) (m : Option Snapshot)
      → is_some m ≡ false
      → MoreFits f n s e m
  no_more f n s e none h = tt
  no_more f n s e (some m) h = cc

  pub set_filters-IsShown :
      (f : Filters) (p : LibraryPage A)
      → is_some p.more ≡ false
      → IsShown p
      → IsShown (set_filters f p)
  unfolding set_filters
  set_filters-IsShown f p m (s, h) = go (same_filters p.filters f) h
    where
      go :
          (b : Bool)
          → ((p.catalog ≡ none) × (p.more ≡ none)) ⊎ ((f : Filters) × Fits p f)
          → IsShown (if b then p else record p { filters = f; search = some f })
      go true h = (s, h)
      go false (inl h) = (refl, inl h)
      go false (inr (g, (c, k, l))) =
          (refl, inr (g, (c, no_more g p.page (some f) p.error p.more m, tt)))

  -- While a search is in flight, loadMore is not.
  no_more_yet :
      (f g : Filters) (n : ℕ) (s : Option Filters) (e : Bool) (m : Option Snapshot)
      → s ≡ some g
      → MoreFits f n s e m
      → is_some m ≡ false
  no_more_yet f g n s e none h k = refl
  no_more_yet f g n s e (some m) h (a, b, c) = cc

  pub on_search-IsShown :
      (g : Filters) (b : Bool) (p : LibraryPage A)
      → p.search ≡ some g
      → IsShown p
      → IsShown (on_search (if b then some (serve g 1) else none) p)
  unfolding on_search
  on_search-IsShown g b p e (s, h) = go b h
    where
      here : g ≡ p.filters
      here = subst (SearchFits p.filters) e s

      go :
          (b : Bool)
          → ((p.catalog ≡ none) × (p.more ≡ none)) ⊎ ((f : Filters) × Fits p f)
          → IsShown (on_search (if b then some (serve g 1) else none) p)
      go false (inl h) = (tt, inl h)
      go false (inr (f, (c, k, l))) =
          let m = no_more_yet f g p.page p.search p.error p.more e k in
          (tt, inr (f, (c, no_more f p.page none true p.more m, tt)))
      go true (inl (c, k)) =
          (tt, inr (g, (refl, no_more g 1 none false p.more (ap is_some k), here)))
      go true (inr (f, (c, k, l))) =
          let m = no_more_yet f g p.page p.search p.error p.more e k in
          (tt, inr (g, (refl, no_more g 1 none false p.more m, here)))

  pub load_more-IsShown :
      (p : LibraryPage A)
      → is_more_shown p ≡ true
      → p.search ≡ none
      → IsShown p
      → IsShown (load_more p)
  unfolding load_more is_more_shown items_of
  load_more-IsShown p v e (s, h) = go (is_some p.more) h
    where
      calm : p.error ≡ false
      calm = ground (arith, v)

      nothing : p.catalog ≡ none → ⊥
      nothing c =
          let some_items : not (is_empty (items_of p)) ≡ true = ground (arith, v) in
          let none_items : not (is_empty {A = A} []) ≡ true =
            subst (λ k. not (is_empty {A = A} (elim k [ none ↦ [] | some c ↦ c.items ])) ≡ true) c
              some_items in
          cc

      now : (f : Filters) → Current f p.filters p.search p.error → f ≡ p.filters
      now f l =
          subst (λ b. Current f p.filters none b) calm
            (subst (λ s. Current f p.filters s p.error) e l)

      go :
          (b : Bool)
          → ((p.catalog ≡ none) × (p.more ≡ none)) ⊎ ((f : Filters) × Fits p f)
          → IsShown (
              if b
              then p
              else record p { more = some (record { of = p.filters; next = p.page + 1 }) })
      go true h = (s, h)
      go false (inl (c, k)) = absurd (nothing c)
      go false (inr (f, (c, k, l))) = (
        s,
        inr (f, (c, (ap (λ g. record { of = g; next = p.page + 1 }) (sym (now f l)), e, calm), l)),
      )

  pub on_more-IsShown :
      (m : Snapshot) (b : Bool) (p : LibraryPage A)
      → p.more ≡ some m
      → IsShown p
      → IsShown (on_more m (if b then some (serve m.of m.next) else none) p)
  unfolding on_more append_page
  on_more-IsShown m b p e (s, inl (c, k)) = cc
  on_more-IsShown m false p e (s, inr (f, (c, k, l))) = (s, inr (f, (c, tt, l)))
  on_more-IsShown m true p e (s, inr (f, (c, k, l))) = go (same_filters p.filters m.of)
    where
      here : m ≡ record { of = f; next = p.page + 1 }
      here = (subst (MoreFits f p.page p.search p.error) e k).0

      more :
          {n : ℕ} (k : n ≡ suc p.page) → some (append_page p.catalog (serve f n)) ≡ some (full f n)
      more {n} k =
          ap (λ k. some (append_page k (serve f n))) c
          ∙ subst (λ n. some (append_page (some (full f p.page)) (serve f n)) ≡ some (full f n))
              (sym k) refl

      go :
          (b : Bool)
          → IsShown (
              if not b then record p { more = none } else record p {
                more = none;
                catalog = some (append_page p.catalog (serve m.of m.next));
                page = m.next;
              })
      go true =
          subst
            (λ m. IsShown (record p {
              more = none;
              catalog = some (append_page p.catalog (serve m.of m.next));
              page = m.next;
            }))
            (sym here) (s, inr (f, (more (omega arith), tt, l)))
      go false = (s, inr (f, (c, tt, l)))
