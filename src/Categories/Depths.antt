-- ===== src/Categories/Depths.antt =====
-- web/app/admin/categories/page.tsx: the depth of a row against its depth in the tree.
use vidsilo.Base.{
  ℕ, suc, zero, ◌≡◌, ◌≤◌, ◌<◌, refl, sym, ap, ◌∙◌, subst, true, false, Option, none, some, List, [],
  ◌∷◌, ◌++◌, arith, ◌+◌, if◌then◌else◌, eqb, All, All-append, length, length-append,
}
use vidsilo.Categories.{
  Category, Tree, node, Forest, leaf, more, walk_tree, walk, parent, find_id, climb, depth_of,
}

-- The ids in the tree's order, with their depths.
unfoldable mutual
  pub levels_tree : ℕ → Tree → List (ℕ × ℕ)
  levels_tree d (node c children) = (c.id, d) ∷ levels (d + 1) children

  pub levels : ℕ → Forest → List (ℕ × ℕ)
  levels d leaf = []
  levels d (more t ts) = levels_tree d t ++ levels d ts

-- Each category has the parent under which it stands.
unfoldable mutual
  IsHungTree : Option ℕ → Tree → Type 0
  IsHungTree p (node c children) = (parent c ≡ p) × IsHung (some c.id) children

  pub IsHung : Option ℕ → Forest → Type 0
  IsHung p leaf = Unit
  IsHung p (more t ts) = IsHungTree p t × IsHung p ts

-- No two rows have one id.
abbrev pub DistinctIds : List Category → Type 0
DistinctIds [] = Unit
DistinctIds (c ∷ cs) = All (λ e. eqb c.id e.id ≡ false) cs × DistinctIds cs

abbrev IsFound : List Category → Category → Type 0
IsFound flat c = find_id c.id flat ≡ some c

IsFound-cons :
    (c : Category) (flat cs : List Category)
    → All (λ e. eqb c.id e.id ≡ false) cs
    → All (IsFound flat) cs
    → All (IsFound (c ∷ flat)) cs
IsFound-cons c flat [] n h = tt
IsFound-cons c flat (e ∷ cs) (n, ns) (h, hs) =
    (ap (λ b. if b then some c else find_id e.id flat) n ∙ h, IsFound-cons c flat cs ns hs)

eqb_refl : (n : ℕ) → eqb n n ≡ true
eqb_refl n = ground arith

All-IsFound : (flat : List Category) → DistinctIds flat → All (IsFound flat) flat
All-IsFound [] h = tt
All-IsFound (c ∷ cs) (n, h) = (
  ap (λ b. if b then some c else find_id c.id cs) (eqb_refl c.id),
  IsFound-cons c cs cs n (All-IsFound cs h),
)

All-split : (P : Category → Type 0) (xs ys : List Category) → All P (xs ++ ys) → All P xs × All P ys
All-split P [] ys h = (tt, h)
All-split P (x ∷ xs) ys (p, h) = let (a, b) = All-split P xs ys h in ((p, a), b)

All-weaken :
    (P Q : ℕ × ℕ → Type 0) (xs : List (ℕ × ℕ)) → ((e : ℕ × ℕ) → P e → Q e) → All P xs → All Q xs
All-weaken P Q [] w h = tt
All-weaken P Q (x ∷ xs) w (p, h) = (w x p, All-weaken P Q xs w h)

abbrev Below : ℕ → ℕ × ℕ → Type 0
Below n e = e.1 < n

-- No category is deeper than there are rows.
mutual
  unfolding walk_tree walk levels_tree levels

  levels_tree_bounds : (d : ℕ) (t : Tree) → All (Below (d + length (walk_tree t))) (levels_tree d t)
  levels_tree_bounds d (node c children) = (
    omega arith,
    All-weaken _ _ (levels (d + 1) children) (λ e l. omega (arith, l))
        (levels_bounds (d + 1) children),
  )

  levels_bounds : (d : ℕ) (g : Forest) → All (Below (d + length (walk g))) (levels d g)
  levels_bounds d leaf = tt
  levels_bounds d (more t ts) =
      let n = length-append (walk_tree t) (walk ts) in
      All-append (Below (d + length (walk_tree t ++ walk ts))) (levels_tree d t) (levels d ts)
        (All-weaken _ _ (levels_tree d t) (λ e l. omega (arith, l, n)) (levels_tree_bounds d t))
        (All-weaken _ _ (levels d ts) (λ e l. omega (arith, l, n)) (levels_bounds d ts))

module _ (flat : List Category) where
  -- The rest of the climb, from the parent on.
  abbrev step : ℕ → ℕ → Option ℕ → Option ℕ
  step fuel k none = some k
  step zero k (some p) = none
  step (suc fuel) k (some p) = climb fuel (k + 1) (find_id p flat) flat

  climb-step : (fuel k : ℕ) (c : Category) → climb fuel k (some c) flat ≡ step fuel k (parent c)
  unfolding climb
  climb-step zero k c = go (parent c)
    where
      go : (p : Option ℕ) → elim p [ none ↦ some k | some q ↦ none ] ≡ step zero k p
      go none = refl
      go (some q) = refl
  climb-step (suc fuel) k c = go (parent c)
    where
      go :
          (p : Option ℕ)
          → elim p [ none ↦ some k | some q ↦ climb fuel (k + 1) (find_id q flat) flat ]
            ≡ step (suc fuel) k p
      go none = refl
      go (some q) = refl

  -- From the parent it takes so many steps.
  abbrev Arrives : Option ℕ → ℕ → Type 0
  Arrives p d = (fuel k : ℕ) → d ≤ fuel → step fuel k p ≡ some (k + d)

  climb-Arrives :
      (c : Category) (d fuel k : ℕ)
      → IsFound flat c
      → Arrives (parent c) d
      → d ≤ fuel
      → climb fuel k (find_id c.id flat) flat ≡ some (k + d)
  climb-Arrives c d fuel k f h e =
      ap (λ o. climb fuel k o flat) f ∙ climb-step fuel k c ∙ h fuel k e

  Arrives-some :
      (c : Category) (d : ℕ) → IsFound flat c → Arrives (parent c) d → Arrives (some c.id) (d + 1)
  Arrives-some c d f h zero k e = absurd (omega (arith, e))
  Arrives-some c d f h (suc fuel) k e =
      climb-Arrives c d fuel (k + 1) f h (omega (arith, e)) ∙ ap some (omega arith)

  -- Enough fuel gives the depth.
  abbrev IsDepth : ℕ × ℕ → Type 0
  IsDepth e = (fuel : ℕ) → e.1 ≤ fuel → depth_of fuel e.0 flat ≡ some e.1

  mutual
    unfolding walk_tree walk levels_tree levels IsHungTree IsHung depth_of

    depths_tree :
        (t : Tree) (p : Option ℕ) (d : ℕ)
        → IsHungTree p t
        → Arrives p d
        → All (IsFound flat) (walk_tree t)
        → All IsDepth (levels_tree d t)
    depths_tree (node c children) p d (e, h) a (f, fs) =
        let a' : Arrives (parent c) d = subst (λ q. Arrives q d) (sym e) a in
        (
          λ fuel l. climb-Arrives c d fuel 0 f a' l ∙ ap some (omega arith),
          depths children (some c.id) (d + 1) h (Arrives-some c d f a') fs,
        )

    depths :
        (g : Forest) (p : Option ℕ) (d : ℕ)
        → IsHung p g
        → Arrives p d
        → All (IsFound flat) (walk g)
        → All IsDepth (levels d g)
    depths leaf p d h a fs = tt
    depths (more t ts) p d (h, hs) a fs =
        let (f, f') = All-split (IsFound flat) (walk_tree t) (walk ts) fs in
        All-append IsDepth (levels_tree d t) (levels d ts) (depths_tree t p d h a f)
          (depths ts p d hs a f')

All-both :
    (P Q R : ℕ × ℕ → Type 0) (xs : List (ℕ × ℕ))
    → ((e : ℕ × ℕ) → P e → Q e → R e)
    → All P xs
    → All Q xs
    → All R xs
All-both P Q R [] w h k = tt
All-both P Q R (x ∷ xs) w (p, h) (q, k) = (w x p q, All-both P Q R xs w h k)

-- For every category of a tree, the loop over the parents ends after fewer rounds than there are
-- rows, and gives the depth in the tree. Ids are distinct, and each category names the one that it
-- stands under as its parent.
pub depth_of-walk :
    (g : Forest)
    → IsHung none g
    → DistinctIds (walk g)
    → All (λ e. depth_of (length (walk g)) e.0 (walk g) ≡ some e.1) (levels 0 g)
depth_of-walk g h n =
    All-both (IsDepth (walk g)) (Below (0 + length (walk g))) _ (levels 0 g)
      (λ e d l. d (length (walk g)) (omega (arith, l)))
      (depths (walk g) g none 0 h (λ fuel k e. ap some (omega arith)) (All-IsFound (walk g) n))
      (levels_bounds 0 g)
