-- ===== src/Formatting/Series.antt =====
-- web/lib/charts.ts and web/lib/validators.ts: maps that a loop fills.
use Prim.Native.Nat.{zero, suc}
use Prim.Native.String.{String}
use vidsilo.Base.{
  subst, ℕ, ◌≡◌, refl, ap, ◌∙◌, sym, inl, inr, Bool, true, false, Option, none, some, List, [], ◌∷◌,
  if◌then◌else◌, or_else, is_some, ◌==◌, eq_iff, Bool-cases, Dict, lookup, insert,
}
use vidsilo.Base.Lookups.{lookup-insert}
use vidsilo.Formatting.{by_day, padded, pad_series, Issue, add_issues, field_errors}

-- The value of the last entry for a key.
unfoldable pub last_of {ℓ} : {V : Type ℓ} → String → Dict V → Option V
unfolding lookup
last_of key [] = none
last_of key ((k, v) ∷ entries) = elim (last_of key entries) [
  | some w ↦ some w
  | none ↦ if k == key then some v else none
]

-- What is found, or else what was there.
abbrev or_option {ℓ} : {V : Type ℓ} → Option V → Option V → Option V
or_option none o = o
or_option (some v) o = some v

lookup-by_day :
    (key : String) (points found : Dict ℕ)
    → lookup key (by_day points found) ≡ or_option (last_of key points) (lookup key found)
unfolding by_day last_of
lookup-by_day key [] found = refl
lookup-by_day key ((d, v) ∷ points) found =
    lookup-by_day key points (insert d v found)
    ∙ ap (or_option (last_of key points)) (lookup-insert d key v found)
    ∙ go (last_of key points) (d == key)
  where
    go :
        (o : Option ℕ) (b : Bool)
        → or_option o (if b then some v else lookup key found)
          ≡ or_option
              (elim o [ some w ↦ some w | none ↦ if b then some v else none ])
              (lookup key found)
    go none true = refl
    go none false = refl
    go (some w) b = refl

-- The map of the points has for each day the value of the last one.
pub lookup-by_day_lem :
    (key : String) (points : Dict ℕ) → lookup key (by_day points []) ≡ last_of key points
unfolding lookup last_of
lookup-by_day_lem key points = lookup-by_day key points [] ∙ go (last_of key points)
  where
    go : (o : Option ℕ) → or_option o none ≡ o
    go none = refl
    go (some v) = refl

-- One row for each of the last days, with the value of the last point of that day, or 0.
abbrev pub daily : (ℕ → String) → Dict ℕ → ℕ → Dict ℕ
daily key points zero = []
daily key points (suc i) = (key i, or_else (last_of (key i) points) 0) ∷ daily key points i

-- padSeries gives a row for each of the given number of days up to today, the oldest one first, with the
-- value of the last point of that day, or 0 where the points have none.
pad_series_lem :
    (key : ℕ → String) (points : Dict ℕ) (days : ℕ)
    → pad_series key points days ≡ daily key points days
unfolding pad_series padded
pad_series_lem key points zero = refl
pad_series_lem key points (suc i) =
    λ k. (key i, or_else (lookup-by_day_lem (key i) points k) 0) ∷ pad_series_lem key points i k

-- The message of the first issue of a field.
abbrev pub first_message : String → List Issue → Option String
first_message key [] = none
first_message key (i ∷ is) =
    if or_else i.path "form" == key then some i.message else first_message key is

ne_of_flags : false ≡ true → ⊥
ne_of_flags h = cc

kept :
    (m : String) (b : Bool) (o r : Option String)
    → (b ≡ true → is_some o ≡ true)
    → or_option o r ≡ or_option o (if b then some m else r)
kept m true none r h = absurd (ne_of_flags (h refl))
kept m true (some v) r h = refl
kept m false o r h = refl

added :
    (m : String) (b : Bool) (o r : Option String)
    → (b ≡ true → is_some o ≡ false)
    → or_option (if b then some m else o) r ≡ or_option o (if b then some m else r)
added m true none r h = refl
added m true (some v) r h = absurd (ne_of_flags (sym (h refl)))
added m false o r h = refl

lookup-add_issues :
    (key : String) (is : List Issue) (out : Dict String)
    → lookup key (add_issues is out) ≡ or_option (lookup key out) (first_message key is)
unfolding add_issues
lookup-add_issues key [] out = go (lookup key out)
  where
    go : (o : Option String) → o ≡ or_option o none
    go none = refl
    go (some v) = refl
lookup-add_issues key (i ∷ is) out =
    let k = or_else i.path "form" in
    elim (Bool-cases (is_some (lookup k out))) [
      | inl e ↦ rw e (
          lookup-add_issues key is out
          ∙ kept i.message (k == key) (lookup key out) (first_message key is)
              (λ h. subst (λ j. is_some (lookup j out) ≡ true) ((eq_iff k key).0 h) e))
      | inr e ↦ rw e (
          lookup-add_issues key is (insert k i.message out)
          ∙ ap (λ o. or_option o (first_message key is)) (lookup-insert k key i.message out)
          ∙ added i.message (k == key) (lookup key out) (first_message key is)
              (λ h. subst (λ j. is_some (lookup j out) ≡ false) ((eq_iff k key).0 h) e))
    ]

-- fieldErrors has for each field the message of its first issue, and no other field; issues without a
-- path count as those of the field "form".
pub lookup-field_errors :
    (key : String) (is : List Issue) → lookup key (field_errors (some is)) ≡ first_message key is
unfolding field_errors
lookup-field_errors key is = lookup-add_issues key is []
