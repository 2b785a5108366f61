-- ===== src/EntryDetail/Sets.antt =====
-- web/components/entry-detail-dialog.tsx: `setsEqual`, of sets as lists without repetition.
use vidsilo.Base.{
  ℕ, ◌≤◌, ◌<◌, ◌≡◌, ◌↔◌, refl, sym, subst, ◌∙◌, inl, inr, Bool, true, false, not, List, [], ◌∷◌,
  arith, eqb, eqb_iff, length, all, keep, Bool-cases,
}
use vidsilo.EntryDetail.{has, set_of, sets_equal}

ne_of_flags : (b : Bool) → b ≡ false → b ≡ true → ⊥
ne_of_flags b h k = cc

-- No element stands twice.
abbrev pub IsSetLike : List ℕ → Type 0
IsSetLike [] = Unit
IsSetLike (x ∷ xs) = (has x xs ≡ false) × IsSetLike xs

abbrev without : ℕ → List ℕ → List ℕ
without x xs = keep (λ y. not (eqb x y)) xs

has-without :
    (v x : ℕ) (xs : List ℕ)
    → (has v (without x xs) ≡ true) ↔ ((has v xs ≡ true) × (eqb x v ≡ false))
has-without v x [] = ground arith
has-without v x (y ∷ ys) = ground (arith, has-without v x ys)

pub without-IsSetLike : (x : ℕ) (xs : List ℕ) → IsSetLike xs → IsSetLike (without x xs)
without-IsSetLike x [] h = tt
without-IsSetLike x (y ∷ ys) (h, hs) = elim (Bool-cases (eqb x y)) [
  | inl e ↦ rw e (without-IsSetLike x ys hs)
  | inr e ↦ rw e (ground (arith, h, has-without y x ys), without-IsSetLike x ys hs)
]

pub set_of-IsSetLike : (xs : List ℕ) → IsSetLike (set_of xs)
unfolding set_of
set_of-IsSetLike [] = tt
set_of-IsSetLike (x ∷ xs) = (
  ground (arith, has-without x x (set_of xs)),
  without-IsSetLike x (set_of xs) (set_of-IsSetLike xs),
)

-- A list without its repetitions has the same elements.
pub has-set_of : (v : ℕ) (xs : List ℕ) → has v (set_of xs) ≡ has v xs
unfolding set_of
has-set_of v [] = refl
has-set_of v (x ∷ xs) =
    ground (arith, has-set_of v xs, has-without v x (set_of xs), eqb_iff v x, eqb_iff x v)

length-without-le : (x : ℕ) (xs : List ℕ) → length (without x xs) ≤ length xs
length-without-le x [] = omega arith
length-without-le x (y ∷ ys) = ground (arith, length-without-le x ys)

length-without-lt : (x : ℕ) (xs : List ℕ) → has x xs ≡ true → length (without x xs) < length xs
length-without-lt x [] h = cc
length-without-lt x (y ∷ ys) h = ground (arith, length-without-le x ys, length-without-lt x ys, h)

abbrev Within : List ℕ → List ℕ → Type 0
Within a b = (v : ℕ) → has v a ≡ true → has v b ≡ true

elements_of_test : (a b : List ℕ) → all (λ v. has v b) a ≡ true → Within a b
elements_of_test [] b h v q = cc
elements_of_test (x ∷ xs) b h v q = elim (Bool-cases (eqb v x)) [
  | inl e ↦ subst (λ w. has w b ≡ true) (sym ((eqb_iff v x).0 e)) (ground (arith, h))
  | inr e ↦ elements_of_test xs b (ground (arith, h)) v (ground (arith, q, e))
]

all_found : (a b : List ℕ) → Within a b → all (λ v. has v b) a ≡ true
all_found [] b h = refl
all_found (x ∷ xs) b h =
    let first : has x b ≡ true = h x (ground arith) in
    let rest = all_found xs b (λ v q. h v (ground (arith, q))) in ground (arith, first, rest)

-- A set within another is no longer.
length-le_of_Within : (a b : List ℕ) → IsSetLike a → Within a b → length a ≤ length b
length-le_of_Within [] b h w = omega arith
length-le_of_Within (x ∷ xs) b (h, hs) w =
    let inside : Within xs (without x b) = λ v q. (has-without v x b).1 (
      w v (ground (arith, q)),
      elim (Bool-cases (eqb x v)) [
        | inl e ↦
            absurd
              (ne_of_flags (has x xs) h (subst (λ u. has u xs ≡ true) (sym ((eqb_iff x v).0 e)) q))
        | inr e ↦ e
      ],
    ) in
    omega (
      arith,
      length-le_of_Within xs (without x b) hs inside,
      length-without-lt x b (w x (ground arith)),
    )

-- The test of two sets is right: they have the same elements.
pub sets_equal_iff :
    (a b : List ℕ)
    → IsSetLike a
    → IsSetLike b
    → (sets_equal a b ≡ true) ↔ ((v : ℕ) → has v a ≡ has v b)
unfolding sets_equal
sets_equal_iff a b ha hb = (to, from)
  where
    to : sets_equal a b ≡ true → (v : ℕ) → has v a ≡ has v b
    to h v =
        let w : Within a b = elements_of_test a b (ground (arith, h)) in
        elim (Bool-cases (has v a)) [
          | inl e ↦ e ∙ sym (w v e)
          | inr e ↦ elim (Bool-cases (has v b)) [
            | inr f ↦ e ∙ sym f
            | inl f ↦
                let inside : Within a (without v b) = λ u q. (has-without u v b).1 (
                  w u q,
                  elim (Bool-cases (eqb v u)) [
                    | inl g ↦ absurd (
                        ne_of_flags (has v a) e
                          (subst (λ x. has x a ≡ true) (sym ((eqb_iff v u).0 g)) q))
                    | inr g ↦ g
                  ],
                ) in
                absurd (
                  omega (
                    arith,
                    length-le_of_Within a (without v b) ha inside,
                    length-without-lt v b f,
                    (eqb_iff (length a) (length b)).0 (ground (arith, h)),
                  ))
          ]
        ]

    from : ((v : ℕ) → has v a ≡ has v b) → sets_equal a b ≡ true
    from h =
        let there = all_found a b (λ v q. sym (h v) ∙ q) in
        let m = length-le_of_Within a b ha (λ v q. sym (h v) ∙ q) in
        let n = length-le_of_Within b a hb (λ v q. h v ∙ q) in ground (arith, there, m, n)
