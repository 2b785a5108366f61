-- ===== src/Categories/Tests.antt =====
-- A tree of categories, and the theorem at a concrete input.
use vidsilo.Base.{ℕ, ◌≡◌, refl, Option, none, some, List, [], ◌∷◌, All, length}
use vidsilo.Categories.{
  Category, node, Forest, leaf, more, walk_tree, walk, climb, depth_of, root_count, child_count,
}
use vidsilo.Categories.Depths.{levels, IsHung, depth_of-walk}

rows : Unit {0}
unfolding walk_tree walk climb depth_of root_count child_count levels IsHung
rows = tt

abbrev category : ℕ → Option ℕ → Category
category id p = record { id = id; parent_id = p; name = "c" }

-- Series, with Drama and Crime under it and Nordic under Crime; and News.
abbrev shelf : Forest
shelf =
    more
      (node (category 1 none) (
        more (node (category 2 (some 1)) leaf)
          (more (node (category 3 (some 1)) (more (node (category 4 (some 3)) leaf) leaf)) leaf)))
      (more (node (category 5 none) leaf) leaf)

counted : child_count (walk shelf) ≡ 3
unfolding rows
counted = refl

-- Two categories that are each other's parent: the loop does not end.
abbrev circle : List Category
circle = category 1 (some 2) ∷ category 2 (some 1) ∷ []

goes_round : depth_of 40 1 circle ≡ none
unfolding rows
goes_round = refl

depth_of-walk_example :
    All (λ e. depth_of (length (walk shelf)) e.0 (walk shelf) ≡ some e.1) (levels 0 shelf)
unfolding rows
depth_of-walk_example =
    depth_of-walk shelf ((refl, ((refl, tt), ((refl, ((refl, tt), tt)), tt))), ((refl, tt), tt))
      (
        (refl, (refl, (refl, (refl, tt)))),
        ((refl, (refl, (refl, tt))), ((refl, (refl, tt)), ((refl, tt), (tt, tt)))),
      )
