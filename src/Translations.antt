-- ===== src/Translations.antt =====
-- web/lib/i18n.tsx: the lookup of a message and the values in it. How a text is read as a number is an
-- argument.
pub mod Pieces
pub mod Messages
pub mod Plural
pub mod Filled
pub mod Counting
pub mod Locale
mod Tests
use Prim.Native.Nat.{ℕ, zero, suc, ◌-◌}
use Prim.Native.Char.{code}
use Prim.Native.String.{String, [], ◌∷◌, ◌++◌}
use vidsilo.Base.{
  Bool, true, false, ◌&&◌, Option, none, some, List, if◌then◌else◌, eqb, is_some, Dict, lookup,
  insert, starts_with,
}
use vidsilo.Base.Numerals.{decimal}

-- What `$$`, `$&`, `` $` `` and `$'` of a replacement stand for, where it has no other `$`.
unfoldable pub expand : String → String → String → String → String
expand needle before after [] = []
expand needle before after (c ∷ []) = c ∷ []
expand needle before after (c ∷ d ∷ s) =
    let rest = expand needle before after s in
    let next = expand needle before after (d ∷ s) in
    if eqb (code c) 36
    then (if eqb (code d) 36
        then "$" ++ rest
        else if eqb (code d) 38
        then needle ++ rest
        else if eqb (code d) 96
        then before ++ rest
        else if eqb (code d) 39
        then after ++ rest
        else c ∷ next)
    else c ∷ next

-- `s.length`, of a text of which each character counts once.
abbrev pub size : String → ℕ
size [] = 0
size (c ∷ s) = suc (size s)

-- `s.slice(n)`
unfoldable pub drop : ℕ → String → String
drop zero s = s
drop (suc n) [] = []
drop (suc n) (c ∷ s) = drop n s

module _ (needle value : String) where
  -- `replaceAll` in the text after `before`, of which the first `skip` characters are replaced.
  unfoldable pub replace_from : String → ℕ → String → String
  unfolding expand drop starts_with
  replace_from before skip [] = []
  replace_from before (suc skip) (c ∷ s) = replace_from (before ++ (c ∷ [])) skip s
  replace_from before zero (c ∷ s) =
      let is_hit = starts_with needle (c ∷ s) in
      let rest = replace_from (before ++ (c ∷ [])) (if is_hit then size needle - 1 else 0) s in
      if is_hit then expand needle before (drop (size needle) (c ∷ s)) value ++ rest else c ∷ rest

-- `out.replaceAll(needle, value)`, of a needle that is not empty.
unfoldable pub replace_all : String → String → String → String
unfolding replace_from
replace_all needle value s = replace_from needle value [] 0 s

-- `{${k}}`
unfoldable pub braced : String → String
braced k = "{" ++ (k ++ "}")

pub data Value : Type 0 where
  text : String → Value
  number : ℕ → Value

-- `String(v)`
unfoldable pub shown : Value → String
unfolding decimal
shown (text s) = s
shown (number n) = decimal n

module _ (reads_as_one : String → Bool) where
  -- `Number(v) === 1`
  unfoldable pub is_one : Value → Bool
  is_one (text s) = reads_as_one s
  is_one (number n) = eqb n 1

  -- `enrichedVars`
  unfoldable pub enriched : Dict Value → Dict Value
  unfolding is_one lookup insert
  enriched vars = elim (lookup "n" vars) [
    | none ↦ vars
    | some n ↦
        if is_some (lookup "s" vars)
        then vars
        else insert "s" (text (if is_one n then "" else "s")) vars
  ]

-- The loop over `Object.entries(enrichedVars)`.
unfoldable pub fill_all : Dict Value → String → String
unfolding replace_all braced shown
fill_all List.[] out = out
fill_all (List.◌∷◌ (k, v) vars) out = fill_all vars (replace_all (braced k) (shown v) out)

-- `t`: the message of a key that the messages have, or else the English one.
unfoldable pub t :
    (String → Bool) → Dict String → Dict String → String → Option (Dict Value) → Option String
unfolding enriched fill_all lookup
t reads_as_one messages english key vars =
    let found : Option String = elim (lookup key messages) [
      | some out ↦ some out
      | none ↦ lookup key english
    ] in
    elim found [
      | none ↦ none
      | some out ↦ elim vars [
        | none ↦ some out
        | some vars ↦ some (fill_all (enriched reads_as_one vars) out)
      ]
    ]
