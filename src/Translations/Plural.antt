-- ===== src/Translations/Plural.antt =====
-- web/lib/i18n.tsx: the plural that `t` adds to the values of a message.
use vidsilo.Base.{
  String, ◌≡◌, refl, ap, Bool, true, false, Option, none, some, if◌then◌else◌, ◌==◌, eqb, Dict,
  lookup, insert, arith, ◌⊎◌, inl, inr, Bool-cases, Option-cases, eq_iff,
}
use vidsilo.Base.Lookups.{lookup-insert}
use vidsilo.Translations.{Value, text, number, is_one, enriched}

module _ (reads_as_one : String → Bool) where
  -- The plural of a count: nothing for one, and else "s".
  abbrev pub plural_of : Option Value → Option Value
  plural_of none = none
  plural_of (some (number n)) = some (text (if eqb n 1 then "" else "s"))
  plural_of (some (text n)) = some (text (if reads_as_one n then "" else "s"))

  -- A placeholder stands for its value, and `s` without a value for the plural of the count.
  abbrev pub meaning : (own : Option Value) → (is_s : Bool) → (plural : Option Value) → Option Value
  meaning (some v) is_s p = some v
  meaning none true p = p
  meaning none false p = none

  abbrev pub value_of : Dict Value → String → Option Value
  value_of vars j = meaning (lookup j vars) (j == "s") (plural_of (lookup "n" vars))

  pub lookup-enriched :
      (vars : Dict Value) (j : String) → lookup j (enriched reads_as_one vars) ≡ value_of vars j
  unfolding enriched is_one
  lookup-enriched vars j = elim (Option-cases (lookup "n" vars)) [
    | inl e ↦ rw (enriched, e) (unchanged (lookup j vars) (j == "s"))
    | inr (n, e) ↦ elim (Option-cases (lookup "s" vars)) [
      | inl f ↦ rw (enriched, e, f) (added n f (Bool-cases (j == "s")))
      | inr (v, f) ↦ rw (enriched, e, f) (kept n v f (Bool-cases (j == "s")))
    ]
  ]
    where
      unchanged : (o : Option Value) (b : Bool) → o ≡ meaning o b none
      unchanged none true = refl
      unchanged none false = refl
      unchanged (some v) b = refl

      is_s : (j == "s") ≡ true → ("s" == j) ≡ true
      is_s g = ground (arith, g, eq_iff j "s", eq_iff "s" j)

      is_no_s : (j == "s") ≡ false → ("s" == j) ≡ false
      is_no_s g = ground (arith, g, eq_iff j "s", eq_iff "s" j)

      at_s : (j == "s") ≡ true → lookup j vars ≡ lookup "s" vars
      at_s g = ap (λ k. lookup k vars) ((eq_iff j "s").0 g)

      as_plural :
          (n : Value) → some (text (if is_one reads_as_one n then "" else "s")) ≡ plural_of (some n)
      as_plural (number n) = refl
      as_plural (text n) = refl

      elsewhere : (o p : Option Value) → o ≡ meaning o false p
      elsewhere none p = refl
      elsewhere (some v) p = refl

      added :
          (n : Value)
          → lookup "s" vars ≡ none
          → ((j == "s") ≡ true) ⊎ ((j == "s") ≡ false)
          → lookup j (insert "s" (text (if is_one reads_as_one n then "" else "s")) vars)
            ≡ meaning (lookup j vars) (j == "s") (plural_of (some n))
      added n f (inl g) =
          rw
            (
              lookup-insert "s" j (text (if is_one reads_as_one n then "" else "s")) vars,
              is_s g,
              at_s g,
              f,
              g,
            )
            (as_plural n)
      added n f (inr g) =
          rw
            (
              lookup-insert "s" j (text (if is_one reads_as_one n then "" else "s")) vars,
              is_no_s g,
              g,
            )
            (elsewhere (lookup j vars) (plural_of (some n)))

      kept :
          (n v : Value)
          → lookup "s" vars ≡ some v
          → ((j == "s") ≡ true) ⊎ ((j == "s") ≡ false)
          → lookup j vars ≡ meaning (lookup j vars) (j == "s") (plural_of (some n))
      kept n v f (inl g) = rw (at_s g, f) refl
      kept n v f (inr g) = rw g (elsewhere (lookup j vars) (plural_of (some n)))
