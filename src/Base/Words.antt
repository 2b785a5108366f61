-- ===== src/Base/Words.antt =====
-- Splitting, joining and trimming texts.
use Prim.Native.Char.{Char, code}
use Prim.Native.String
use Prim.Native.String.{String, [], ◌∷◌}
use text.Mathlib.TextLemmas.{nil-append, cons-append}
use vidsilo.Base.{
  ℕ, ◌≡◌, refl, sym, subst, ap, ◌∙◌, inl, inr, Bool, true, false, not, ◌&&◌, List, arith, All,
  Bool-cases, is_blank, is_space, trim, trim_start, trim_end, split_at, keep, map,
}

-- No character passes the test.
abbrev pub is_free : (ℕ → Bool) → String → Bool
is_free p [] = true
is_free p (c ∷ s) = not (p (code c)) && is_free p s

module _ (p : ℕ → Bool) where
  is_free-trim_start : (s : String) → is_free p s ≡ true → is_free p (trim_start s) ≡ true
  unfolding trim_start
  is_free-trim_start [] h = refl
  is_free-trim_start (c ∷ s) h = elim (Bool-cases (is_space (code c))) [
    | inl e ↦ rw (e, trim_start) (is_free-trim_start s (ground (arith, h)))
    | inr e ↦ rw (e, trim_start) h
  ]

  is_free-trim_end : (s : String) → is_free p s ≡ true → is_free p (trim_end s) ≡ true
  unfolding trim_end
  is_free-trim_end [] h = refl
  is_free-trim_end (c ∷ s) h = elim (Bool-cases (is_space (code c) && is_blank (trim_end s))) [
    | inl e ↦ rw (e, trim_end) refl
    | inr e ↦ rw (e, trim_end) (ground (arith, h, is_free-trim_end s))
  ]

  pub is_free-trim : (s : String) → is_free p s ≡ true → is_free p (trim s) ≡ true
  unfolding trim
  is_free-trim s h = is_free-trim_end (trim_start s) (is_free-trim_start s h)

  split_at_cons : (s : String) → (w : String) × (ws : List String) × (split_at p s ≡ List.◌∷◌ w ws)
  unfolding split_at
  split_at_cons [] = ([], List.[], refl)
  split_at_cons (c ∷ s) =
      let (w, ws, e) = split_at_cons s in
      elim (Bool-cases (p (code c))) [
        | inl h ↦ ([], List.◌∷◌ w ws, rw (split_at, e, h) refl)
        | inr h ↦ (c ∷ w, ws, rw (split_at, e, h) refl)
      ]

  pub split_at-All-is_free : (s : String) → All (λ w. is_free p w ≡ true) (split_at p s)
  unfolding split_at
  split_at-All-is_free [] = (refl, tt)
  split_at-All-is_free (c ∷ s) =
      let (w, ws, e) = split_at_cons s in
      let rest : All (λ v. is_free p v ≡ true) (List.◌∷◌ w ws) =
        subst (λ l. All (λ v. is_free p v ≡ true) l) e (split_at-All-is_free s) in
      elim (Bool-cases (p (code c))) [
        | inl h ↦ rw (split_at, e, h) (refl, rest)
        | inr h ↦ rw (split_at, e, h) (ground (arith, h, rest.0), rest.1)
      ]

  pub split_at_whole : (w : String) → is_free p w ≡ true → split_at p w ≡ List.◌∷◌ w List.[]
  unfolding split_at
  split_at_whole [] h = refl
  split_at_whole (c ∷ w) h =
      let e : p (code c) ≡ false = ground (arith, h) in
      rw (split_at, split_at_whole w (ground (arith, h)), e) refl

  split_at_here :
      (c : Char) (s : String) → p (code c) ≡ true → split_at p (c ∷ s) ≡ List.◌∷◌ [] (split_at p s)
  unfolding split_at
  split_at_here c s k = let (v, vs, e) = split_at_cons s in rw (split_at, e, k) refl

  pub split_at_first :
      (w : String) (c : Char) (s : String)
      → is_free p w ≡ true
      → p (code c) ≡ true
      → split_at p (String.◌++◌ w (c ∷ s)) ≡ List.◌∷◌ w (split_at p s)
  unfolding split_at
  split_at_first [] c s h k = ap (split_at p) (nil-append (c ∷ s)) ∙ split_at_here c s k
  split_at_first (d ∷ w) c s h k =
      let e : p (code d) ≡ false = ground (arith, h) in
      ap (split_at p) (cons-append d w (c ∷ s))
      ∙ rw (split_at, split_at_first w c s (ground (arith, h)) k, e) refl

-- No white space stands first.
abbrev heads_clean : String → Bool
heads_clean [] = true
heads_clean (c ∷ s) = not (is_space (code c))

heads_clean-trim_start : (s : String) → heads_clean (trim_start s) ≡ true
unfolding trim_start
heads_clean-trim_start [] = refl
heads_clean-trim_start (c ∷ s) = elim (Bool-cases (is_space (code c))) [
  | inl e ↦ rw (e, trim_start) (heads_clean-trim_start s)
  | inr e ↦ rw (e, trim_start) (ap not e)
]

trim_start_clean : (s : String) → heads_clean s ≡ true → trim_start s ≡ s
unfolding trim_start
trim_start_clean [] h = refl
trim_start_clean (c ∷ s) h =
    let e : is_space (code c) ≡ false = ground (arith, h) in rw (trim_start, e) refl

heads_clean-trim_end : (s : String) → heads_clean s ≡ true → heads_clean (trim_end s) ≡ true
unfolding trim_end
heads_clean-trim_end [] h = refl
heads_clean-trim_end (c ∷ s) h = elim (Bool-cases (is_space (code c) && is_blank (trim_end s))) [
  | inl e ↦ rw (e, trim_end) refl
  | inr e ↦ rw (e, trim_end) h
]

trim_end_solid :
    (c : Char) (s : String)
    → trim_end s ≡ s
    → (is_space (code c) && is_blank s) ≡ false
    → trim_end (c ∷ s) ≡ c ∷ s
unfolding trim_end
trim_end_solid c s h e = rw (trim_end, h, e) refl

trim_end_twice : (s : String) → trim_end (trim_end s) ≡ trim_end s
unfolding trim_end
trim_end_twice [] = refl
trim_end_twice (c ∷ s) = elim (Bool-cases (is_space (code c) && is_blank (trim_end s))) [
  | inl e ↦ rw (trim_end, e) refl
  | inr e ↦
      let f : trim_end (c ∷ s) ≡ c ∷ trim_end s = rw (trim_end, e) refl in
      ap trim_end f ∙ trim_end_solid c (trim_end s) (trim_end_twice s) e ∙ sym f
]

pub trim_twice : (s : String) → trim (trim s) ≡ trim s
unfolding trim
trim_twice s =
    ap trim_end (
      trim_start_clean (trim_end (trim_start s))
        (heads_clean-trim_end (trim_start s) (heads_clean-trim_start s)))
    ∙ trim_end_twice (trim_start s)

-- A text that splitting, trimming and joining leave whole.
pub record IsWord (p : ℕ → Bool) (w : String) : Type 0 where
  pub trimmed : trim w ≡ w
  pub there : is_blank w ≡ false
  pub whole : is_free p w ≡ true

-- `texts.map(trim).filter(Boolean)`
unfoldable pub clean_words : List String → List String
clean_words ws = keep (λ w. not (is_blank w)) (map trim ws)

module _ (p : ℕ → Bool) where
  pub clean_words-All-IsWord :
      (ws : List String) → All (λ w. is_free p w ≡ true) ws → All (IsWord p) (clean_words ws)
  unfolding clean_words
  clean_words-All-IsWord List.[] h = tt
  clean_words-All-IsWord (List.◌∷◌ w ws) (h, hs) = elim (Bool-cases (is_blank (trim w))) [
    | inl e ↦ rw (e, clean_words) (clean_words-All-IsWord ws hs)
    | inr e ↦
        rw (e, clean_words)
          (
            record { trimmed = trim_twice w; there = e; whole = is_free-trim p w h },
            clean_words-All-IsWord ws hs,
          )
  ]

  pub clean_words_whole : (ws : List String) → All (IsWord p) ws → clean_words ws ≡ ws
  unfolding clean_words
  clean_words_whole List.[] h = refl
  clean_words_whole (List.◌∷◌ w ws) (h, hs) =
      rw (clean_words, h.trimmed, h.there) (ap (λ l. List.◌∷◌ w l) (clean_words_whole ws hs))
