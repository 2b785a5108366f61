-- ===== src/Base/Lookups.antt =====
-- What a map has after a key is set.
use vidsilo.Base.{
  subst, text_of_ne, ne_of_text, ◌≡◌, refl, ◌∙◌, sym, inl, inr, Bool, true, false, Option, some, [],
  ◌∷◌, if◌then◌else◌, ◌==◌, eq_iff, Bool-cases, Dict, String, lookup, insert,
}

abbrev put {ℓ} : {V : Type ℓ} → String → V → String → Option V → Option V
put k v key old = if k == key then some v else old

flat :
    {V : Type 0} (b : Bool) (v w : V) (o : Option V)
    → (if b then some v else o) ≡ (if b then some v else if b then some w else o)
flat true v w o = refl
flat false v w o = refl

pub lookup-insert :
    {V : Type 0} (k key : String) (v : V) (entries : Dict V)
    → lookup key (insert k v entries) ≡ put k v key (lookup key entries)
unfolding lookup insert
lookup-insert k key v [] = refl
lookup-insert k key v ((j, w) ∷ entries) = elim (Bool-cases (j == k)) [
  | inl e ↦ rw e (
      subst
        (λ i.
          (if i == key then some v else lookup key entries)
          ≡ (if k == key then some v else if i == key then some w else lookup key entries))
        (sym ((eq_iff j k).0 e)) (flat (k == key) v w (lookup key entries)))
  | inr e ↦ rw e (elim (Bool-cases (j == key)) [
    | inl f ↦
        let g : (k == key) ≡ false =
          text_of_ne k key (λ q. ne_of_text j k e ((eq_iff j key).0 f ∙ sym q)) in
        rw (f, g) refl
    | inr f ↦ rw f (lookup-insert k key v entries)
  ])
]
