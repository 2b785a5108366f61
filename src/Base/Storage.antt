-- ===== src/Base/Storage.antt =====
-- What the two queues share of the browser's local storage and of text.
use Prim.Native.Nat.{ℕ, ◌*◌}
use Prim.Native.Char.{code}
use Prim.Native.String
use Prim.Native.String.{String, [], ◌∷◌}
use mathlib.Core.Bool.{Bool, true, false, ◌&&◌, ◌||◌}
use mathlib.Core.Option.{Option, none, some}
use mathlib.Core.List.{List}
use vidsilo.Base.Tests.{leb, eqb, if◌then◌else◌}

-- A `localStorage` item: missing, no valid JSON, or a stored value.
pub data Item {ℓ} (A : Type ℓ) : Type ℓ where
  absent corrupt : Item A
  stored : A → Item A

abbrev pub day_ms : ℕ
day_ms = 24 * 60 * 60 * 1000

-- `finished_at` is set, and no earlier than the cutoff.
abbrev pub finished_since : ℕ → Option ℕ → Bool
finished_since cutoff none = false
finished_since cutoff (some at) = leb cutoff at

-- The white space and line ends that `trim` removes.
unfoldable pub is_space : ℕ → Bool
is_space c =
    (leb 9 c && leb c 13)
    || eqb c 32
    || eqb c 0xa0
    || eqb c 0x1680
    || (leb 0x2000 c && leb c 0x200a)
    || eqb c 0x2028
    || eqb c 0x2029
    || eqb c 0x202f
    || eqb c 0x205f
    || eqb c 0x3000
    || eqb c 0xfeff

abbrev pub is_blank : String → Bool
is_blank [] = true
is_blank (c ∷ s) = false

unfoldable pub trim_end : String → String
unfolding is_space
trim_end [] = []
trim_end (c ∷ s) =
    let rest = trim_end s in if is_space (code c) && is_blank rest then [] else c ∷ rest

unfoldable pub trim_start : String → String
unfolding is_space
trim_start [] = []
trim_start (c ∷ s) = let rest = trim_start s in if is_space (code c) then rest else c ∷ s

-- `s.trim()`
unfoldable pub trim : String → String
unfolding trim_start trim_end
trim s = trim_end (trim_start s)

-- `s.startsWith(t)`, the needle first.
unfoldable pub starts_with : String → String → Bool
starts_with [] s = true
starts_with (c ∷ t) [] = false
starts_with (c ∷ t) (d ∷ s) = eqb (code c) (code d) && starts_with t s

-- `s.includes(t)`, the needle first.
unfoldable pub includes : String → String → Bool
unfolding starts_with
includes t [] = is_blank t
includes t (c ∷ s) = starts_with t (c ∷ s) || includes t s

-- `s.split(...)` at each character that passes the test: the texts between those, one at least.
unfoldable pub split_at : (ℕ → Bool) → String → List String
split_at p [] = List.◌∷◌ [] List.[]
split_at p (c ∷ s) = elim (split_at p s) [
  | List.[] ↦ List.[]
  | List.◌∷◌ w ws ↦ if p (code c) then List.◌∷◌ [] (List.◌∷◌ w ws) else List.◌∷◌ (c ∷ w) ws
]

-- `s.split("\n")`
unfoldable pub lines_of : String → List String
unfolding split_at
lines_of s = split_at (λ c. eqb c 10) s

-- `texts.join(sep)`
unfoldable pub join : String → List String → String
join sep List.[] = []
join sep (List.◌∷◌ w List.[]) = w
join sep (List.◌∷◌ w (List.◌∷◌ v ws)) =
    let rest = join sep (List.◌∷◌ v ws) in String.◌++◌ w (String.◌++◌ sep rest)
