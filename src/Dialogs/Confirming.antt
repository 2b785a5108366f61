-- ===== src/Dialogs/Confirming.antt =====
-- web/hooks/use-dialog.tsx: a dialog from its opening to its end.
use vidsilo.Base.{
  ℕ, suc, ◌≡◌, refl, sym, ap, ◌∙◌, Bool, true, false, not, none, some, List, [], ◌∷◌, ◌++◌, arith,
  or_else, eqb, keep,
}
use vidsilo.Dialogs.{
  sm, ConfirmOptions, confirmation, DialogEntry, OpenDialogOptions, Dialogs, drop_last,
  close_dialog, open_dialog, confirm, with_pending, set_pending, is_enabled, click_confirm,
  click_cancel, on_confirmed,
}
use vidsilo.Dialogs.Order.{Ascends, IsStack}

module _ {A : Type 0} where
  keep_below :
      (n : ℕ) (es : List (DialogEntry A)) (x : DialogEntry A)
      → x.id ≡ suc n
      → Ascends n es
      → keep (λ e. not (eqb e.id (suc n))) (es ++ x ∷ []) ≡ es
  keep_below n [] x i h = ground (arith, i)
  keep_below n (e ∷ es) x i (b, a, h) = ground (arith, b, keep_below n es x i h)

  drop_last-snoc : (es : List (DialogEntry A)) (x : DialogEntry A) → drop_last (es ++ x ∷ []) ≡ es
  unfolding drop_last
  drop_last-snoc [] x = refl
  drop_last-snoc (e ∷ []) x = refl
  drop_last-snoc (e ∷ f ∷ es) x = ap (λ fs. e ∷ fs) (drop_last-snoc (f ∷ es) x)

  set_pending-below :
      (n : ℕ) (b : Bool) (es xs : List (DialogEntry A))
      → Ascends n es
      → set_pending (suc n) b (es ++ xs) ≡ es ++ set_pending (suc n) b xs
  unfolding set_pending with_pending
  set_pending-below n b [] xs h = refl
  set_pending-below n b (e ∷ es) xs (l, a, h) = ground (arith, l, set_pending-below n b es xs h)

  is_enabled-below :
      (n : ℕ) (es xs : List (DialogEntry A))
      → Ascends n es
      → is_enabled (suc n) (es ++ xs) ≡ is_enabled (suc n) xs
  unfolding is_enabled
  is_enabled-below n [] xs h = refl
  is_enabled-below n (e ∷ es) xs (l, a, h) = ground (arith, l, is_enabled-below n es xs h)

  append_nil : (es : List (DialogEntry A)) → es ++ [] ≡ es
  append_nil [] = refl
  append_nil (e ∷ es) = ap (λ fs. e ∷ fs) (append_nil es)

  set_pending-none :
      (n : ℕ) (b : Bool) (es : List (DialogEntry A)) → Ascends n es → set_pending (suc n) b es ≡ es
  unfolding set_pending
  set_pending-none n b es h =
      ap (set_pending (suc n) b) (sym (append_nil es))
      ∙ set_pending-below n b es [] h
      ∙ append_nil es

  -- A dialog that was just opened is the one that `close` takes away, by its id or as the topmost:
  -- the other dialogs are as before. The dialogs were a stack.
  close_dialog-open_dialog :
      (o : OpenDialogOptions A) (s : Dialogs A)
      → IsStack s
      → let t = open_dialog o s in
        ((close_dialog (some t.next_id) t).entries ≡ s.entries)
        × ((close_dialog none t).entries ≡ s.entries)
  unfolding close_dialog open_dialog
  close_dialog-open_dialog o s h =
      (keep_below s.next_id s.entries _ refl h, drop_last-snoc s.entries _)

  shown : ConfirmOptions → Bool → ℕ → DialogEntry A
  shown o p n = record {
    id = suc n;
    content = confirmation o p;
    dismissible = false;
    size = or_else o.size sm;
    class_name = some "p-0";
    show_close_button = none;
  }

  enabled_alone :
      (o : ConfirmOptions) (p : Bool) (s : Dialogs A)
      → is_enabled {A = A} (suc s.next_id) (shown o p s.next_id ∷ []) ≡ not p
  unfolding is_enabled shown
  enabled_alone o p s = ground arith

  enabled_shown :
      (o : ConfirmOptions) (p : Bool) (s : Dialogs A)
      → IsStack s
      → is_enabled (suc s.next_id) (s.entries ++ shown o p s.next_id ∷ []) ≡ not p
  enabled_shown o p s h =
      is_enabled-below s.next_id s.entries (shown o p s.next_id ∷ []) h ∙ enabled_alone o p s

  pending_alone :
      (o : ConfirmOptions) (p q : Bool) (n : ℕ)
      → set_pending (suc n) q (shown o p n ∷ []) ≡ shown o q n ∷ []
  unfolding shown set_pending with_pending
  pending_alone o p q n = ground arith

  pending_shown :
      (o : ConfirmOptions) (p q : Bool) (s : Dialogs A)
      → IsStack s
      → set_pending (suc s.next_id) q (s.entries ++ shown o p s.next_id ∷ [])
        ≡ s.entries ++ shown o q s.next_id ∷ []
  pending_shown o p q s h =
      set_pending-below s.next_id q s.entries (shown o p s.next_id ∷ []) h
      ∙ ap (λ xs. s.entries ++ xs) (pending_alone o p q s.next_id)

  clicked : (o : ConfirmOptions) (s : Dialogs A) → Dialogs A
  clicked o s = record {
    entries = s.entries ++ shown o true s.next_id ∷ [];
    next_id = suc s.next_id;
    confirmed = s.confirmed ++ suc s.next_id ∷ [];
    failures = s.failures;
  }

  clicked_confirmed :
      (o : ConfirmOptions) (s : Dialogs A)
      → (clicked o s).confirmed ≡ s.confirmed ++ suc s.next_id ∷ []
  unfolding clicked
  clicked_confirmed o s = refl

  asked_state : (o : ConfirmOptions) (s : Dialogs A) → Dialogs A
  asked_state o s = record s {
    entries = s.entries ++ shown o false s.next_id ∷ [];
    next_id = suc s.next_id;
  }

  confirm-asked_state : (o : ConfirmOptions) (s : Dialogs A) → confirm o s ≡ asked_state o s
  unfolding confirm asked_state shown
  confirm-asked_state o s = refl

  click_confirm-asked_state :
      (o : ConfirmOptions) (s : Dialogs A)
      → IsStack s
      → click_confirm (suc s.next_id) (asked_state o s) ≡ clicked o s
  unfolding click_confirm asked_state clicked
  click_confirm-asked_state o s h =
      rw (enabled_shown o false s h, pending_shown o false true s h) refl

  click_confirm-clicked :
      (o : ConfirmOptions) (s : Dialogs A)
      → IsStack s
      → click_confirm (suc s.next_id) (clicked o s) ≡ clicked o s
  unfolding click_confirm clicked
  click_confirm-clicked o s h = rw (enabled_shown o true s h) refl

  click_cancel-clicked :
      (o : ConfirmOptions) (s : Dialogs A)
      → IsStack s
      → click_cancel (suc s.next_id) (clicked o s) ≡ clicked o s
  unfolding click_cancel clicked
  click_cancel-clicked o s h = rw (enabled_shown o true s h) refl

  on_confirmed_well :
      (o : ConfirmOptions) (s : Dialogs A)
      → IsStack s
      → (on_confirmed (suc s.next_id) true (clicked o s)).entries ≡ s.entries
  unfolding on_confirmed close_dialog clicked shown
  on_confirmed_well o s h =
      ap (set_pending (suc s.next_id) false) (keep_below s.next_id s.entries _ refl h)
      ∙ set_pending-none s.next_id false s.entries h

  on_confirmed_badly :
      (o : ConfirmOptions) (s : Dialogs A)
      → IsStack s
      → (on_confirmed (suc s.next_id) false (clicked o s)).entries ≡ (asked_state o s).entries
  unfolding on_confirmed clicked asked_state
  on_confirmed_badly o s h = pending_shown o true false s h

  -- A click on the button of a new confirmation calls its action once, and until the action has
  -- ended neither button does anything. Where it ends well the dialog is gone and the others are as
  -- before; where it fails the dialog is as it was before the click. The dialogs were a stack.
  pub click_confirm-confirm :
      (o : ConfirmOptions) (s : Dialogs A)
      → IsStack s
      → let id = suc s.next_id in
        let t = click_confirm id (confirm o s) in
        (t.confirmed ≡ s.confirmed ++ id ∷ [])
        × (click_confirm id t ≡ t)
        × (click_cancel id t ≡ t)
        × ((on_confirmed id true t).entries ≡ s.entries)
        × ((on_confirmed id false t).entries ≡ (confirm o s).entries)
  click_confirm-confirm o s h =
      rw (confirm-asked_state o s, click_confirm-asked_state o s h)
        (
          clicked_confirmed o s,
          click_confirm-clicked o s h,
          click_cancel-clicked o s h,
          on_confirmed_well o s h,
          on_confirmed_badly o s h,
        )
