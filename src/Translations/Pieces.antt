-- ===== src/Translations/Pieces.antt =====
-- web/lib/i18n.tsx: messages as sequences of texts and placeholders.
use Prim.Native.Nat.{ℕ, zero, suc, ◌-◌, Ordering, compare}
use Prim.Native.Char.{Char, code}
use Prim.Native.String.{String, [], ◌∷◌, ◌++◌}
use text.Mathlib.TextLemmas.{nil-append, cons-append}
use text.Mathlib.TextEquality.{codes_equal}
use vidsilo.Base.{
  ne_of_text, text_of_ne, ◌≡◌, refl, sym, ap, ◌∙◌, inl, inr, Bool, true, false, ◌||◌, List, arith,
  All, Bool-cases, if◌then◌else◌, eqb, ◌==◌, eq_iff, starts_with,
}
use vidsilo.Base.Words.{is_free}
use vidsilo.Translations.{size, expand, drop, replace_from, replace_all, braced}

abbrev pub is_brace : ℕ → Bool
is_brace c = eqb c 123 || eqb c 125

abbrev pub is_dollar : ℕ → Bool
is_dollar c = eqb c 36

pub data Piece : Type 0 where
  plain hole : String → Piece

-- A piece with no brace of its own.
abbrev pub is_sound : Piece → Bool
is_sound (plain s) = is_free is_brace s
is_sound (hole k) = is_free is_brace k

abbrev pub piece_text : Piece → String
piece_text (plain s) = s
piece_text (hole k) = braced k

abbrev pub pieces_text : List Piece → String
pieces_text List.[] = []
pieces_text (List.◌∷◌ p ps) = piece_text p ++ pieces_text ps

-- A piece with the placeholder `k` filled in.
abbrev pub fill_piece : String → String → Piece → Piece
fill_piece k v (plain s) = plain s
fill_piece k v (hole j) = if k == j then plain v else hole j

abbrev pub map_pieces : (Piece → Piece) → List Piece → List Piece
map_pieces f List.[] = List.[]
map_pieces f (List.◌∷◌ p ps) = List.◌∷◌ (f p) (map_pieces f ps)

-- `replaceAll` with a value that stands for itself.
abbrev swap_from : String → String → ℕ → String → String
unfolding starts_with
swap_from needle value skip [] = []
swap_from needle value (suc skip) (c ∷ s) = swap_from needle value skip s
swap_from needle value zero (c ∷ s) =
    let is_hit = starts_with needle (c ∷ s) in
    let rest = swap_from needle value (if is_hit then size needle - 1 else 0) s in
    if is_hit then value ++ rest else c ∷ rest

expand_plain :
    (needle before after v : String) → is_free is_dollar v ≡ true → expand needle before after v ≡ v
unfolding expand
expand_plain needle before after [] h = refl
expand_plain needle before after (c ∷ []) h = refl
expand_plain needle before after (c ∷ d ∷ s) h =
    let e : eqb (code c) 36 ≡ false = ground (arith, h) in
    rw (expand, e) (ap (λ v. c ∷ v) (expand_plain needle before after (d ∷ s) (ground (arith, h))))

module _ (needle value : String) (h : is_free is_dollar value ≡ true) where
  replace-swap :
      (before : String) (skip : ℕ) (s : String)
      → replace_from needle value before skip s ≡ swap_from needle value skip s
  unfolding replace_from
  replace-swap before skip [] = refl
  replace-swap before (suc skip) (c ∷ s) = replace-swap (before ++ (c ∷ [])) skip s
  replace-swap before zero (c ∷ s) = elim (Bool-cases (starts_with needle (c ∷ s))) [
    | inl e ↦
        rw
          (
            replace_from,
            e,
            expand_plain needle before (drop (size needle) (c ∷ s)) value h,
            replace-swap (before ++ (c ∷ [])) (size needle - 1) s,
          )
          refl
    | inr e ↦ rw (replace_from, e, replace-swap (before ++ (c ∷ [])) 0 s) refl
  ]

swap_skip :
    (needle value w s : String)
    → swap_from needle value (size w) (w ++ s) ≡ swap_from needle value 0 s
unfolding swap_from
swap_skip needle value [] s = ap (swap_from needle value 0) (nil-append s)
swap_skip needle value (c ∷ w) s =
    ap (swap_from needle value (suc (size w))) (cons-append c w s) ∙ swap_skip needle value w s

starts_with-append : (w s : String) → starts_with w (w ++ s) ≡ true
unfolding starts_with
starts_with-append [] s = refl
starts_with-append (c ∷ w) s =
    ap (starts_with (c ∷ w)) (cons-append c w s) ∙ ground (arith, starts_with-append w s)

-- Where the needle does not begin, `replaceAll` goes on after a character.
swap_past :
    (needle value : String) (c : Char) (s : String)
    → starts_with needle (c ∷ s) ≡ false
    → swap_from needle value 0 (c ∷ s) ≡ c ∷ swap_from needle value 0 s
unfolding swap_from
swap_past needle value c s e = rw e refl

-- Where it begins, `replaceAll` goes on after it.
swap_hit :
    (c : Char) (w value s : String)
    → swap_from (c ∷ w) value 0 ((c ∷ w) ++ s) ≡ value ++ swap_from (c ∷ w) value 0 s
unfolding swap_from
swap_hit c w value s =
    ap (swap_from (c ∷ w) value 0) (cons-append c w s)
    ∙ hit (w ++ s)
        (sym (ap (starts_with (c ∷ w)) (cons-append c w s)) ∙ starts_with-append (c ∷ w) s)
    ∙ ap (λ r. value ++ r) (swap_skip (c ∷ w) value w s)
  where
    hit :
        (r : String)
        → starts_with (c ∷ w) (c ∷ r) ≡ true
        → swap_from (c ∷ w) value 0 (c ∷ r) ≡ value ++ swap_from (c ∷ w) value (size w) r
    hit r e = let n : suc (size w) - 1 ≡ size w = omega arith in rw (e, n) refl

braced_lem : (k : String) → braced k ≡ "{" ∷ (k ++ "}")
unfolding braced
braced_lem k = cons-append "{" [] (k ++ "}") ∙ ap (λ s. "{" ∷ s) (nil-append (k ++ "}"))

abbrev is_open : ℕ → Bool
is_open c = eqb c 123

is_open-closed : (k : String) → is_free is_brace k ≡ true → is_free is_open (k ++ "}") ≡ true
is_open-closed [] h = ap (is_free is_open) (nil-append "}")
is_open-closed (c ∷ k) h =
    ap (is_free is_open) (cons-append c k "}") ∙ ground (arith, h, is_open-closed k)

is_open-is_brace : (s : String) → is_free is_brace s ≡ true → is_free is_open s ≡ true
is_open-is_brace [] h = refl
is_open-is_brace (c ∷ s) h = ground (arith, h, is_open-is_brace s)

module _ (w value : String) where
  -- A text without an opening brace stays.
  swap_text :
      (s r : String)
      → is_free is_open s ≡ true
      → swap_from ("{" ∷ w) value 0 (s ++ r) ≡ s ++ swap_from ("{" ∷ w) value 0 r
  unfolding starts_with
  swap_text [] r h =
      ap (swap_from ("{" ∷ w) value 0) (nil-append r)
      ∙ sym (nil-append (swap_from ("{" ∷ w) value 0 r))
  swap_text (c ∷ s) r h =
      ap (swap_from ("{" ∷ w) value 0) (cons-append c s r)
      ∙ swap_past ("{" ∷ w) value c (s ++ r) (ground (arith, h))
      ∙ ap (λ s. c ∷ s) (swap_text s r (ground (arith, h)))
      ∙ sym (cons-append c s (swap_from ("{" ∷ w) value 0 r))

codes_agree : (c d : Char) → eqb (code c) (code d) ≡ true → c ≡ d
codes_agree c d h = codes_equal c d (go (compare (code c) (code d)) h)
  where
    go : (o : Ordering) → (elim o [ Ordering.eq ↦ true | _ ↦ false ]) ≡ true → o ≡ Ordering.eq
    go Ordering.lt h = cc
    go Ordering.eq h = refl
    go Ordering.gt h = cc

-- The name of a placeholder does not begin another's.
starts_with-closed :
    (k j r : String)
    → is_free is_brace k ≡ true
    → is_free is_brace j ≡ true
    → (k == j) ≡ false
    → starts_with (k ++ "}") ((j ++ "}") ++ r) ≡ false
unfolding starts_with
starts_with-closed [] [] r h g e = cc
starts_with-closed [] (d ∷ j) r h g e =
    rw (nil-append "}", cons-append d j "}", cons-append d (j ++ "}") r) (ground (arith, g))
starts_with-closed (c ∷ k) [] r h g e =
    rw (nil-append "}", cons-append c k "}", cons-append "}" [] r) (ground (arith, h))
starts_with-closed (c ∷ k) (d ∷ j) r h g e =
    rw (cons-append d j "}", cons-append c k "}", cons-append d (j ++ "}") r)
      (elim (Bool-cases (eqb (code c) (code d))) [
        | inl f ↦
            let rest : (k == j) ≡ false =
              text_of_ne k j (λ p. ne_of_text (c ∷ k) (d ∷ j) e (λ i. codes_agree c d f i ∷ p i)) in
            ground (arith, starts_with-closed k j r (ground (arith, h)) (ground (arith, g)) rest)
        | inr f ↦ ground (arith, f)
      ])

-- The message of a placeholder that is not the needle's stays.
swap_other :
    (k j value r : String)
    → is_free is_brace k ≡ true
    → is_free is_brace j ≡ true
    → (k == j) ≡ false
    → swap_from (braced k) value 0 (braced j ++ r) ≡ braced j ++ swap_from (braced k) value 0 r
unfolding starts_with
swap_other k j value r h g e =
    rw (braced_lem k, braced_lem j, cons-append "{" (j ++ "}") r)
      (swap_past ("{" ∷ (k ++ "}")) value "{" ((j ++ "}") ++ r) (miss e)
        ∙ ap (λ s. "{" ∷ s) (swap_text (k ++ "}") value (j ++ "}") r (is_open-closed j g))
        ∙ sym (cons-append "{" (j ++ "}") (swap_from ("{" ∷ (k ++ "}")) value 0 r)))
  where
    miss : (k == j) ≡ false → starts_with ("{" ∷ (k ++ "}")) ("{" ∷ ((j ++ "}") ++ r)) ≡ false
    miss e = ground (arith, starts_with-closed k j r h g e)

-- `replaceAll` of a placeholder over one piece.
swap_piece :
    (k value : String) (p : Piece) (r : String)
    → is_free is_brace k ≡ true
    → is_sound p ≡ true
    → swap_from (braced k) value 0 (piece_text p ++ r)
      ≡ piece_text (fill_piece k value p) ++ swap_from (braced k) value 0 r
swap_piece k value (plain s) r h g =
    rw (braced_lem k) (swap_text (k ++ "}") value s r (is_open-is_brace s g))
swap_piece k value (hole j) r h g = elim (Bool-cases (k == j)) [
  | inl e ↦ rw e (
      ap (λ j. swap_from (braced k) value 0 (braced j ++ r)) (sym ((eq_iff k j).0 e))
      ∙ rw (braced_lem k) (swap_hit "{" (k ++ "}") value r))
  | inr e ↦ rw e (swap_other k j value r h g e)
]

-- `replaceAll` of a placeholder fills it in, wherever it stands.
pub replace_all-pieces_text :
    (k value : String) (ps : List Piece)
    → is_free is_dollar value ≡ true
    → is_free is_brace k ≡ true
    → All (λ p. is_sound p ≡ true) ps
    → replace_all (braced k) value (pieces_text ps)
      ≡ pieces_text (map_pieces (fill_piece k value) ps)
unfolding replace_all
replace_all-pieces_text k value ps v h g =
    replace-swap (braced k) value v [] 0 (pieces_text ps) ∙ go ps g
  where
    go :
        (ps : List Piece)
        → All (λ p. is_sound p ≡ true) ps
        → swap_from (braced k) value 0 (pieces_text ps)
          ≡ pieces_text (map_pieces (fill_piece k value) ps)
    go List.[] g = refl
    go (List.◌∷◌ p ps) (g, gs) =
        swap_piece k value p (pieces_text ps) h g
        ∙ ap (λ s. piece_text (fill_piece k value p) ++ s) (go ps gs)
