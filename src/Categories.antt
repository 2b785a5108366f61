-- ===== src/Categories.antt =====
-- web/app/admin/categories/page.tsx: the tree of categories as rows, and the depth at which a row is
-- indented. The loop over the parents runs on fuel.
pub mod Depths
mod Tests
use vidsilo.Base.{
  ℕ, suc, zero, ◌+◌, ◌-◌, Bool, true, false, not, Option, none, some, List, [], ◌∷◌, ◌++◌, String,
  if◌then◌else◌, eqb, find, keep, length, count,
}

pub record Category : Type 0 where
  pub id : ℕ
  pub parent_id : Option ℕ
  pub name : String

-- A category with its `children`; a missing list is an empty one.
mutual
  pub data Tree : Type 0 where
    node : Category → Forest → Tree

  pub data Forest : Type 0 where
    leaf : Forest
    more : Tree → Forest → Forest

-- `walk`, in the order of `out`.
unfoldable mutual
  pub walk_tree : Tree → List Category
  walk_tree (node c children) = c ∷ walk children

  pub walk : Forest → List Category
  walk leaf = []
  walk (more t ts) = walk_tree t ++ walk ts

-- A parent in a condition: `null` and 0 count as false.
abbrev pub parent : Category → Option ℕ
parent c = elim c.parent_id [ none ↦ none | some zero ↦ none | some (suc p) ↦ some (suc p) ]

-- `flat.find((c) => c.id === id)`
abbrev pub find_id : ℕ → List Category → Option Category
find_id id flat = find (λ c. eqb c.id id) flat

-- The `while`; none where the fuel is used up.
unfoldable pub climb : ℕ → ℕ → Option Category → List Category → Option ℕ
climb fuel d none flat = some d
climb zero d (some c) flat = elim (parent c) [ none ↦ some d | some p ↦ none ]
climb (suc fuel) d (some c) flat = elim (parent c) [
  | none ↦ some d
  | some p ↦ climb fuel (d + 1) (find_id p flat) flat
]

unfoldable pub depth_of : ℕ → ℕ → List Category → Option ℕ
unfolding climb
depth_of fuel id flat = climb fuel 0 (find_id id flat) flat

unfoldable pub root_count : List Category → ℕ
root_count flat = count (λ c. elim (parent c) [ none ↦ true | some p ↦ false ]) flat

unfoldable pub child_count : List Category → ℕ
unfolding root_count
child_count flat = length flat - root_count flat
