-- ===== src/Theme/Matched.antt =====
-- web/components/theme-provider.tsx: the class of the document against the snapshot.
use vidsilo.Base.{
  ◌≡◌, refl, sym, ap, ◌∙◌, inl, inr, Bool, true, false, none, some, List, [], ◌∷◌, arith, all,
  Bool-cases,
}
use vidsilo.Theme.{
  Theme, dark, light, theme_name, resolve_theme, ThemePage, snapshot, is_dark, apply_theme,
  same_theme, show, on_change, on_mount, set_theme, toggle, ThemeEvent, chosen, toggled,
  stored_elsewhere, preference_changed, handle_theme, run_theme,
}

-- The document has the theme that React shows.
abbrev pub IsDrawn : ThemePage → Type 0
IsDrawn p = p.has_dark_class ≡ is_dark p.theme

-- React and the document show the theme of the snapshot.
abbrev pub IsMatched : ThemePage → Type 0
IsMatched p = (p.theme ≡ snapshot p) × IsDrawn p

-- The system's preference does not change.
abbrev pub is_steady : ThemeEvent → Bool
is_steady (preference_changed b) = false
is_steady _ = true

-- A theme that is stored is the one that is resolved.
resolve_theme-theme_name : (b : Bool) (t : Theme) → resolve_theme b (some (theme_name t)) ≡ t
unfolding resolve_theme
resolve_theme-theme_name b dark = refl
resolve_theme-theme_name b light = refl

same_theme_lem : (t u : Theme) → same_theme t u ≡ true → u ≡ t
same_theme_lem dark dark h = refl
same_theme_lem dark light h = cc
same_theme_lem light dark h = cc
same_theme_lem light light h = refl

-- What a snapshot that is shown leaves.
show_lem :
    (t : Theme) (p : ThemePage)
    → (p.theme ≡ t → p.has_dark_class ≡ is_dark t)
    → ((show t p).theme ≡ t)
      × IsDrawn (show t p)
      × ((show t p).stored ≡ p.stored)
      × (snapshot (show t p) ≡ snapshot p)
unfolding show apply_theme snapshot
show_lem t p h = elim (Bool-cases (same_theme t p.theme)) [
  | inl e ↦
      let u = same_theme_lem t p.theme e in rw (show, e) (u, h u ∙ ap is_dark (sym u), refl, refl)
  | inr e ↦ rw (show, e) (refl, refl, refl, refl)
]

on_change-IsMatched : (p : ThemePage) → IsDrawn p → IsMatched (on_change p)
unfolding on_change
on_change-IsMatched p h =
    let (a, b, _, d) = show_lem (snapshot p) p (λ e. h ∙ ap is_dark e) in (a ∙ sym d, b)

-- A theme that is set is shown, by React and by the document, and stored.
set_theme_lem :
    (t : Theme) (p : ThemePage)
    → ((set_theme t p).theme ≡ t)
      × ((set_theme t p).has_dark_class ≡ is_dark t)
      × ((set_theme t p).stored ≡ some (theme_name t))
      × (snapshot (set_theme t p) ≡ t)
unfolding set_theme on_change apply_theme snapshot
set_theme_lem t p =
    let q = apply_theme t (record p { stored = some (theme_name t) }) in
    let e : snapshot q ≡ t = resolve_theme-theme_name p.prefers_light t in
    let (a, b, c, d) = show_lem (snapshot q) q (λ h. ap is_dark (sym e)) in
    (a ∙ e, b ∙ ap is_dark (a ∙ e), c, d ∙ e)

on_mount-IsMatched : (p : ThemePage) → IsMatched (on_mount p)
unfolding on_mount apply_theme
on_mount-IsMatched p = on_change-IsMatched (apply_theme dark (record p { theme = dark })) refl

set_theme-IsMatched : (t : Theme) (p : ThemePage) → IsMatched (set_theme t p)
set_theme-IsMatched t p =
    let (a, b, _, d) = set_theme_lem t p in (a ∙ sym d, b ∙ ap is_dark (sym a))

handle_theme-IsDrawn : (e : ThemeEvent) (p : ThemePage) → IsDrawn p → IsDrawn (handle_theme e p)
unfolding handle_theme toggle
handle_theme-IsDrawn (chosen t) p h = (set_theme-IsMatched t p).1
handle_theme-IsDrawn toggled p h =
    (set_theme-IsMatched (elim p.theme [ dark ↦ light | light ↦ dark ]) p).1
handle_theme-IsDrawn (stored_elsewhere s) p h = (on_change-IsMatched (record p { stored = s }) h).1
handle_theme-IsDrawn (preference_changed b) p h = h

handle_theme-IsMatched :
    (e : ThemeEvent) (p : ThemePage)
    → is_steady e ≡ true
    → IsMatched p
    → IsMatched (handle_theme e p)
unfolding handle_theme toggle
handle_theme-IsMatched (chosen t) p k h = set_theme-IsMatched t p
handle_theme-IsMatched toggled p k h =
    set_theme-IsMatched (elim p.theme [ dark ↦ light | light ↦ dark ]) p
handle_theme-IsMatched (stored_elsewhere s) p k h =
    on_change-IsMatched (record p { stored = s }) h.1
handle_theme-IsMatched (preference_changed b) p k h = cc

run_from-IsDrawn : (es : List ThemeEvent) (p : ThemePage) → IsDrawn p → IsDrawn (run_theme es p)
unfolding run_theme
run_from-IsDrawn [] p h = h
run_from-IsDrawn (e ∷ es) p h = run_from-IsDrawn es (handle_theme e p) (handle_theme-IsDrawn e p h)

run_from-IsMatched :
    (es : List ThemeEvent) (p : ThemePage)
    → all is_steady es ≡ true
    → IsMatched p
    → IsMatched (run_theme es p)
unfolding run_theme
run_from-IsMatched [] p k h = h
run_from-IsMatched (e ∷ es) p k h =
    run_from-IsMatched es (handle_theme e p) (ground (arith, k))
      (handle_theme-IsMatched e p (ground (arith, k)) h)

-- Once the provider is mounted, the document has the theme that React shows, whatever is chosen,
-- toggled or stored in another tab and whatever the system prefers; both have the theme of the
-- snapshot as long as that preference does not change. A theme that is chosen is shown by both and is
-- the snapshot, also where the document had another one. Where nothing is stored and the preference
-- changes, the snapshot is what is preferred now, and both keep what was preferred before.
pub run_theme-IsMatched :
    (es steady : List ThemeEvent) (p : ThemePage) (t : Theme) (b : Bool)
    → all is_steady steady ≡ true
    → IsDrawn (run_theme es (on_mount p))
      × IsMatched (run_theme steady (on_mount p))
      × ((set_theme t p).theme ≡ t)
      × ((set_theme t p).has_dark_class ≡ is_dark t)
      × (snapshot (set_theme t p) ≡ t)
      × ((run_theme (preference_changed b ∷ []) (on_mount (record p { stored = none }))).theme
          ≡ resolve_theme p.prefers_light none)
      × (snapshot (run_theme (preference_changed b ∷ []) (on_mount (record p { stored = none })))
          ≡ resolve_theme b none)
unfolding run_theme handle_theme on_mount on_change apply_theme snapshot
run_theme-IsMatched es steady p t b k =
    let (c, d, _, e) = set_theme_lem t p in
    let q = record p { stored = none; theme = dark; has_dark_class = true } in
    let (f, _, g, _) = show_lem (snapshot q) q (λ h. ap is_dark h) in
    (
      run_from-IsDrawn es (on_mount p) (on_mount-IsMatched p).1,
      run_from-IsMatched steady (on_mount p) k (on_mount-IsMatched p),
      c,
      d,
      e,
      f,
      ap (resolve_theme b) g,
    )
