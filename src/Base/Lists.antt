-- ===== src/Base/Lists.antt =====
-- JavaScript's list methods over a Boolean test, and their laws.
use Prim.Native.Nat.{ℕ, suc, ◌+◌}
use mathlib.Core.Path.{◌≡◌, refl, ap, subst}
use mathlib.Core.Logic.{inl, inr}
use mathlib.Core.Bool.{Bool, true, false, ◌&&◌, ◌||◌}
use mathlib.Core.Option.{Option, none, some}
use mathlib.Core.List.{List, [], ◌∷◌, ◌++◌, map}
use native.Mathlib.Omega.{arith}
use vidsilo.Base.Tests.{if◌then◌else◌, Bool-cases}

module _ {ℓ} {A : Type ℓ} where
  abbrev pub length : List A → ℕ
  length [] = 0
  length (x ∷ xs) = suc (length xs)

  -- `xs.some(p)`
  abbrev pub any : (A → Bool) → List A → Bool
  any p [] = false
  any p (x ∷ xs) = p x || any p xs

  -- `xs.every(p)`
  abbrev pub all : (A → Bool) → List A → Bool
  all p [] = true
  all p (x ∷ xs) = p x && all p xs

  -- `xs.filter(p)`
  abbrev pub keep : (A → Bool) → List A → List A
  keep p [] = []
  keep p (x ∷ xs) = if p x then x ∷ keep p xs else keep p xs

  -- `xs.find(p)`
  abbrev pub find : (A → Bool) → List A → Option A
  find p [] = none
  find p (x ∷ xs) = if p x then some x else find p xs

  -- `xs.filter(p).length`
  abbrev pub count : (A → Bool) → List A → ℕ
  count p xs = length (keep p xs)

  abbrev pub All {κ} : (A → Type κ) → List A → Type κ
  All P [] = Unit
  All P (x ∷ xs) = P x × All P xs

  abbrev pub is_empty : List A → Bool
  is_empty [] = true
  is_empty (x ∷ xs) = false

  pub length-append : (xs ys : List A) → length (xs ++ ys) ≡ length xs + length ys
  length-append [] ys = omega arith
  length-append (x ∷ xs) ys = omega (arith, length-append xs ys)

  pub keep-append : (p : A → Bool) (xs ys : List A) → keep p (xs ++ ys) ≡ keep p xs ++ keep p ys
  keep-append p [] ys = refl
  keep-append p (x ∷ xs) ys = ground (arith, keep-append p xs ys)

  pub count-append : (p : A → Bool) (xs ys : List A) → count p (xs ++ ys) ≡ count p xs + count p ys
  count-append p [] ys = omega arith
  count-append p (x ∷ xs) ys = ground (arith, count-append p xs ys)

  pub any-append : (p : A → Bool) (xs ys : List A) → any p (xs ++ ys) ≡ (any p xs || any p ys)
  any-append p [] ys = refl
  any-append p (x ∷ xs) ys = ground (arith, any-append p xs ys)

  -- What `find` returns passes the test.
  pub find_sound : (p : A → Bool) (xs : List A) (x : A) → find p xs ≡ some x → p x ≡ true
  find_sound p [] x h = cc
  find_sound p (y ∷ xs) x h = ground (arith, find_sound p xs x)

  pub find-eq-none_iff_any : (p : A → Bool) (xs : List A) → find p xs ≡ none → any p xs ≡ false
  find-eq-none_iff_any p [] h = refl
  find-eq-none_iff_any p (x ∷ xs) h = ground (arith, find-eq-none_iff_any p xs)

  pub any-false-count : (p : A → Bool) (xs : List A) → any p xs ≡ false → count p xs ≡ 0
  any-false-count p [] h = refl
  any-false-count p (x ∷ xs) h = ground (arith, any-false-count p xs)

  pub keep-keep : (q r : A → Bool) (xs : List A) → keep q (keep r xs) ≡ keep (λ x. r x && q x) xs
  keep-keep q r [] = refl
  keep-keep q r (x ∷ xs) = ground (arith, keep-keep q r xs)

  pub keep-cong : (q r : A → Bool) (xs : List A) → All (λ x. q x ≡ r x) xs → keep q xs ≡ keep r xs
  keep-cong q r [] h = refl
  keep-cong q r (x ∷ xs) (h, hs) = ground (arith, h, keep-cong q r xs hs)

  pub keep_all : (xs : List A) → keep (λ x. true) xs ≡ xs
  keep_all [] = refl
  keep_all (x ∷ xs) = ap (λ ys. x ∷ ys) (keep_all xs)

  module _ {κ} (P : A → Type κ) where
    pub All-append : (xs ys : List A) → All P xs → All P ys → All P (xs ++ ys)
    All-append [] ys h k = k
    All-append (x ∷ xs) ys (p, h) k = (p, All-append xs ys h k)

    pub All-keep : (p : A → Bool) (xs : List A) → All P xs → All P (keep p xs)
    All-keep p [] h = tt
    All-keep p (x ∷ xs) (q, h) = ground (arith, All-keep p xs h)

    pub All-map :
        (f : A → A) → ((x : A) → P x → P (f x)) → (xs : List A) → All P xs → All P (map f xs)
    All-map f k [] h = tt
    All-map f k (x ∷ xs) (p, h) = (k x p, All-map f k xs h)

    pub All-find : (p : A → Bool) (xs : List A) {x : A} → All P xs → find p xs ≡ some x → P x
    All-find p [] h e = cc
    All-find p (y ∷ xs) {x} (q, h) e = elim (Bool-cases (p y)) [
      | inl hit ↦ subst P (ground arith) q
      | inr miss ↦ All-find p xs h (ground arith)
    ]
