-- ===== src/Dialogs/Order.antt =====
-- web/hooks/use-dialog.tsx: the order of the dialogs and of their ids.
use vidsilo.Base.{
  ℕ, suc, ◌≡◌, ◌≤◌, ◌<◌, refl, sym, subst, inl, inr, Bool, true, false, Option, none, some, List,
  [], ◌∷◌, ◌++◌, map, arith, keep, All, Bool-cases, All-keep, All-append,
}
use vidsilo.Dialogs.{
  DialogEntry, Dialogs, drop_last, close_dialog, close_all, open_dialog, confirm, with_pending,
  set_pending, is_enabled, click_confirm, click_cancel, on_confirmed, DialogEvent, opened, asked,
  closed, all_closed, confirm_clicked, cancel_clicked, confirm_ended, handle_dialog, run_dialogs,
}

module _ {A : Type 0} where
  -- Ids increase from each entry to the next, and none is above `n`.
  abbrev pub Ascends : ℕ → List (DialogEntry A) → Type 0
  Ascends n [] = Unit
  Ascends n (e ∷ es) = (e.id ≤ n) × All (λ f. e.id < f.id) es × Ascends n es

  abbrev pub IsStack : Dialogs A → Type 0
  IsStack s = Ascends s.next_id s.entries

  keep-Ascends :
      (p : DialogEntry A → Bool) (n : ℕ) (es : List (DialogEntry A))
      → Ascends n es
      → Ascends n (keep p es)
  keep-Ascends p n [] h = tt
  keep-Ascends p n (e ∷ es) (b, a, h) = elim (Bool-cases (p e)) [
    | inl k ↦ rw k (b, All-keep _ p es a, keep-Ascends p n es h)
    | inr k ↦ rw k (keep-Ascends p n es h)
  ]

  drop_last-All :
      (P : DialogEntry A → Type 0) (es : List (DialogEntry A)) → All P es → All P (drop_last es)
  unfolding drop_last
  drop_last-All P [] h = tt
  drop_last-All P (e ∷ []) h = tt
  drop_last-All P (e ∷ f ∷ es) (h, hs) = (h, drop_last-All P (f ∷ es) hs)

  drop_last-Ascends : (n : ℕ) (es : List (DialogEntry A)) → Ascends n es → Ascends n (drop_last es)
  unfolding drop_last
  drop_last-Ascends n [] h = tt
  drop_last-Ascends n (e ∷ []) h = tt
  drop_last-Ascends n (e ∷ f ∷ es) (b, a, h) =
      (b, drop_last-All _ (f ∷ es) a, drop_last-Ascends n (f ∷ es) h)

  push-Ascends :
      (n : ℕ) (x : DialogEntry A) (es : List (DialogEntry A))
      → x.id ≡ suc n
      → Ascends n es
      → Ascends (suc n) (es ++ x ∷ [])
  push-Ascends n x [] i h = (omega (arith, i), tt, tt)
  push-Ascends n x (e ∷ es) i (b, a, h) = (
    omega (arith, b),
    All-append _ es (x ∷ []) a (omega (arith, b, i), tt),
    push-Ascends n x es i h,
  )

  with_pending_id : (id : ℕ) (b : Bool) (e : DialogEntry A) → (with_pending id b e).id ≡ e.id
  unfolding with_pending
  with_pending_id id b e = ground arith

  map-All_above :
      (f : DialogEntry A → DialogEntry A)
      → ((e : DialogEntry A) → (f e).id ≡ e.id)
      → (m : ℕ) (es : List (DialogEntry A)) → All (λ e. m < e.id) es
      → All (λ e. m < e.id) (map f es)
  map-All_above f g m [] h = tt
  map-All_above f g m (e ∷ es) (h, hs) = (omega (arith, h, g e), map-All_above f g m es hs)

  map-Ascends :
      (f : DialogEntry A → DialogEntry A)
      → ((e : DialogEntry A) → (f e).id ≡ e.id)
      → (n : ℕ) (es : List (DialogEntry A)) → Ascends n es
      → Ascends n (map f es)
  map-Ascends f g n [] h = tt
  map-Ascends f g n (e ∷ es) (l, a, h) = (
    omega (arith, l, g e),
    subst (λ m. All (λ x. m < x.id) (map f es)) (sym (g e)) (map-All_above f g e.id es a),
    map-Ascends f g n es h,
  )

  set_pending-Ascends :
      (id : ℕ) (b : Bool) (n : ℕ) (es : List (DialogEntry A))
      → Ascends n es
      → Ascends n (set_pending id b es)
  unfolding set_pending
  set_pending-Ascends id b n es h = map-Ascends (with_pending id b) (with_pending_id id b) n es h

  close_dialog-IsStack : (id : Option ℕ) (s : Dialogs A) → IsStack s → IsStack (close_dialog id s)
  unfolding close_dialog
  close_dialog-IsStack none s h = drop_last-Ascends s.next_id s.entries h
  close_dialog-IsStack (some id) s h = keep-Ascends _ s.next_id s.entries h

  click_confirm-IsStack : (id : ℕ) (s : Dialogs A) → IsStack s → IsStack (click_confirm id s)
  unfolding click_confirm
  click_confirm-IsStack id s h = elim (Bool-cases (is_enabled id s.entries)) [
    | inl e ↦ rw (e, click_confirm) (set_pending-Ascends id true s.next_id s.entries h)
    | inr e ↦ rw (e, click_confirm) h
  ]

  click_cancel-IsStack : (id : ℕ) (s : Dialogs A) → IsStack s → IsStack (click_cancel id s)
  unfolding click_cancel
  click_cancel-IsStack id s h = elim (Bool-cases (is_enabled id s.entries)) [
    | inl e ↦ rw (e, click_cancel) (close_dialog-IsStack (some id) s h)
    | inr e ↦ rw (e, click_cancel) h
  ]

  on_confirmed-IsStack :
      (id : ℕ) (ok : Bool) (s : Dialogs A) → IsStack s → IsStack (on_confirmed id ok s)
  unfolding on_confirmed
  on_confirmed-IsStack id true s h =
      set_pending-Ascends id false _ _ (close_dialog-IsStack (some id) s h)
  on_confirmed-IsStack id false s h = set_pending-Ascends id false s.next_id s.entries h

  handle_dialog-IsStack :
      (e : DialogEvent A) (s : Dialogs A) → IsStack s → IsStack (handle_dialog e s)
  unfolding handle_dialog open_dialog confirm close_all
  handle_dialog-IsStack (opened o) s h = push-Ascends s.next_id _ s.entries refl h
  handle_dialog-IsStack (asked o) s h = push-Ascends s.next_id _ s.entries refl h
  handle_dialog-IsStack (closed id) s h = close_dialog-IsStack id s h
  handle_dialog-IsStack all_closed s h = tt
  handle_dialog-IsStack (confirm_clicked id) s h = click_confirm-IsStack id s h
  handle_dialog-IsStack (cancel_clicked id) s h = click_cancel-IsStack id s h
  handle_dialog-IsStack (confirm_ended id ok) s h = on_confirmed-IsStack id ok s h

  -- Whatever is opened, asked, clicked and closed, the ids of the dialogs increase from each one to
  -- the next, so that none has the id of another, and none is above the last id given out. It was so
  -- before the first event.
  pub run_dialogs-IsStack :
      (es : List (DialogEvent A)) (s : Dialogs A) → IsStack s → IsStack (run_dialogs es s)
  unfolding run_dialogs
  run_dialogs-IsStack [] s h = h
  run_dialogs-IsStack (e ∷ es) s h = run_dialogs-IsStack es _ (handle_dialog-IsStack e s h)
