-- ===== src/Session/Return.antt =====
-- web/app/admin/login/page.tsx: the address that a sign-in returns to.
use Prim.Native.Char.{code}
use Prim.Native.String.{String, [], ◌∷◌, ◌++◌}
use text.Mathlib.TextLemmas.{nil-append, cons-append}
use vidsilo.Base.{
  ℕ, ◌≡◌, refl, sym, ap, text_of_ne, ◌∙◌, inl, inr, Bool, true, false, not, ◌&&◌, ◌||◌, some, arith,
  Bool-cases, if◌then◌else◌, eqb, ◌==◌, starts_with,
}
use vidsilo.Base.Words.{is_free}
use vidsilo.Session.{next_path}

-- A tab or a line end, which the parser of URLs takes out of an address.
abbrev is_dropped : ℕ → Bool
is_dropped c = eqb c 9 || eqb c 10 || eqb c 13

-- A slash, or the backslash that the parser of URLs takes for one.
abbrev is_slash : ℕ → Bool
is_slash c = eqb c 47 || eqb c 92

-- What an address of a page is checked for.
abbrev pub is_odd : ℕ → Bool
is_odd c = is_dropped c || eqb c 92

abbrev cleaned : String → String
cleaned [] = []
cleaned (c ∷ s) = let rest = cleaned s in if is_dropped (code c) then rest else c ∷ rest

abbrev two_slashes : String → Bool
two_slashes [] = false
two_slashes (c ∷ []) = false
two_slashes (c ∷ d ∷ s) = is_slash (code c) && is_slash (code d)

-- The address, relative to a page, names a host of its own: it begins with two slashes once it is
-- cleaned.
abbrev pub names_host : String → Bool
names_host s = two_slashes (cleaned s)

cleaned_same : (s : String) → is_free is_odd s ≡ true → cleaned s ≡ s
cleaned_same [] h = refl
cleaned_same (c ∷ s) h =
    let e : is_dropped (code c) ≡ false = ground (arith, h) in
    rw e (ap (λ s. c ∷ s) (cleaned_same s (ground (arith, h))))

one_slash :
    (s : String) → is_free is_odd s ≡ true → starts_with "//" s ≡ false → two_slashes s ≡ false
unfolding starts_with
one_slash [] h k = refl
one_slash (c ∷ []) h k = refl
one_slash (c ∷ d ∷ s) h k = ground (arith, h, k)

slashes : (s : String) → "/\\" ++ s ≡ "/" ∷ "\\" ∷ s
slashes s =
    cons-append "/" "\\" s
    ∙ ap (λ t. "/" ∷ t) (cons-append "\\" "" s ∙ ap (λ t. "\\" ∷ t) (nil-append s))

kept : (s : String) → next_path (some ("/" ∷ "\\" ∷ s)) ≡ "/" ∷ "\\" ∷ s
unfolding next_path starts_with
kept s =
    let e : (("/" ∷ "\\" ∷ s) == "") ≡ false = text_of_ne ("/" ∷ "\\" ∷ s) "" (λ h. cc) in rw e refl

stays : (raw : String) → is_free is_odd raw ≡ true → names_host (next_path (some raw)) ≡ false
unfolding next_path
stays raw h =
    elim (Bool-cases (not (raw == "") && starts_with "/" raw && not (starts_with "//" raw))) [
      | inl e ↦ rw e (ap two_slashes (cleaned_same raw h) ∙ one_slash raw h (ground (arith, e)))
      | inr e ↦ rw e refl
    ]

-- Where the parameter has no backslash, no tab and no line end, the address that the login goes to names
-- no host. Where a slash and a backslash come first in the parameter, the address is the parameter, and
-- it names a host.
pub names_host-next_path :
    (raw s : String)
    → is_free is_odd raw ≡ true
    → (names_host (next_path (some raw)) ≡ false)
      × (next_path (some ("/\\" ++ s)) ≡ "/\\" ++ s)
      × (names_host (next_path (some ("/\\" ++ s))) ≡ true)
names_host-next_path raw s h =
    let same : next_path (some ("/\\" ++ s)) ≡ "/\\" ++ s =
      ap (λ t. next_path (some t)) (slashes s) ∙ kept s ∙ sym (slashes s) in
    (stays raw h, same, ap names_host (same ∙ slashes s))
