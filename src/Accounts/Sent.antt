-- ===== src/Accounts/Sent.antt =====
-- web/app/admin/users/page.tsx: what the form of a user sends, and a removal that fails.
use vidsilo.Base.{
  suc, ◌+◌, ◌≡◌, refl, Bool, true, false, not, Option, none, some, List, [], ◌∷◌, String, arith,
  length, count, is_blank,
}
use vidsilo.Formatting.{Issue, field_errors}
use vidsilo.Dialogs.{ConfirmOptions, Dialogs, confirm, click_confirm, on_confirmed}
use vidsilo.Dialogs.Order.{IsStack}
use vidsilo.Dialogs.Confirming.{click_confirm-confirm}
use vidsilo.Accounts.{
  User, active_count, disabled_count, UserForm, user_form, password_typed, edit_user, UserBody,
  patch_user, save_user, submit_user, AccountsPage, removal_failed, on_removed, on_user_removed,
}

all_counted :
    (us : List User) → count (λ u. not u.disabled) us + count (λ u. u.disabled) us ≡ length us
all_counted [] = omega arith
all_counted (u ∷ us) = one u.disabled (all_counted us)
  where
    one :
        (b : Bool)
        → count (λ u. not u.disabled) us + count (λ u. u.disabled) us ≡ length us
        → (let vs = record u { disabled = b } ∷ us in
            count (λ u. not u.disabled) vs + count (λ u. u.disabled) vs ≡ length vs)
    one true h = omega (arith, h)
    one false h = omega (arith, h)

-- The number of disabled users that the strip shows is the number of those users.
pub disabled_count_lem : (us : List User) → disabled_count us ≡ count (λ u. u.disabled) us
unfolding disabled_count active_count
disabled_count_lem us = omega (arith, all_counted us)

-- What is sent of a user as it is, with a password or without.
abbrev pub body_of : User → Option String → UserBody
body_of u password = record {
  email = u.email;
  name_surname = u.name_surname;
  role = u.role;
  disabled = some u.disabled;
  password = password;
}

module _ (found : UserForm → Option (List Issue)) where
  -- Where the schema finds nothing, a user that is opened and saved with no edit is sent unchanged and
  -- without a password, and one of whom only a password was typed is sent with it.
  submit_user-user_form :
      (u : User) (password : String)
      → is_blank password ≡ false
      → found (user_form (some u)) ≡ none
      → found (edit_user (password_typed password) (user_form (some u))) ≡ none
      → ((submit_user found (user_form (some u))).1 ≡ some (patch_user u.id (body_of u none)))
        × ((submit_user found (edit_user (password_typed password) (user_form (some u)))).1
            ≡ some (patch_user u.id (body_of u (some password))))
  unfolding submit_user user_form edit_user save_user field_errors
  submit_user-user_form u password b h k = (rw h refl, rw (k, b) refl)

module _ {A : Type 0} where
  -- A removal of a user that the server refuses leaves the question open, and its failure is shown twice.
  -- The dialogs were a stack.
  on_confirmed-on_user_removed :
      (o : ConfirmOptions) (s : Dialogs A) (p : AccountsPage)
      → IsStack s
      → ((on_confirmed
            (suc s.next_id)
            (on_user_removed false p).1
            (click_confirm (suc s.next_id) (confirm o s))).entries
          ≡ (confirm o s).entries)
        × ((on_user_removed false p).0.toasts ≡ removal_failed ∷ removal_failed ∷ p.toasts)
  unfolding on_user_removed on_removed
  on_confirmed-on_user_removed o s p h =
      let (a, b, c, d, e) = click_confirm-confirm o s h in (e, refl)
