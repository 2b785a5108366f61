-- ===== src/Translations/Filled.antt =====
-- web/lib/i18n.tsx: `t` against filling in all placeholders of a message at once.
use Prim.Native.String.{String}
use vidsilo.Base.{
  ◌≡◌, refl, ap, ◌∙◌, sym, Bool, true, false, Option, none, some, List, [], ◌∷◌, All, if◌then◌else◌,
  is_some, ◌==◌, Dict, lookup, insert,
}
use vidsilo.Base.Words.{is_free}
use vidsilo.Translations.{Value, text, shown, is_one, enriched, fill_all, t}
use vidsilo.Translations.Pieces.{
  is_brace, is_dollar, Piece, plain, hole, is_sound, pieces_text, fill_piece, map_pieces,
  replace_all-pieces_text,
}
use vidsilo.Translations.Plural.{value_of, lookup-enriched}
use vidsilo.Translations.Messages.{english, pieces_of, english-lookup}

-- A name without braces, with a value that has no braces and no `$`.
abbrev pub IsClean : String × Value → Type 0
IsClean (k, v) =
    (is_free is_brace k ≡ true)
    × (is_free is_brace (shown v) ≡ true)
    × (is_free is_dollar (shown v) ≡ true)

-- A piece with its value, where the values have one for it.
unfoldable pub filled_piece : Dict Value → Piece → Piece
unfolding lookup shown
filled_piece vars (plain s) = plain s
filled_piece vars (hole j) = elim (lookup j vars) [ none ↦ hole j | some v ↦ plain (shown v) ]

All-map_pieces :
    (k s : String) (ps : List Piece)
    → is_free is_brace s ≡ true
    → All (λ p. is_sound p ≡ true) ps
    → All (λ p. is_sound p ≡ true) (map_pieces (fill_piece k s) ps)
All-map_pieces k s [] h g = tt
All-map_pieces k s (plain r ∷ ps) h (g, gs) = (g, All-map_pieces k s ps h gs)
All-map_pieces k s (hole j ∷ ps) h (g, gs) = (one (k == j), All-map_pieces k s ps h gs)
  where
    one : (b : Bool) → is_sound (if b then plain s else hole j) ≡ true
    one true = h
    one false = g

map_pieces_twice :
    (k : String) (v : Value) (vars : Dict Value) (ps : List Piece)
    → map_pieces (filled_piece vars) (map_pieces (fill_piece k (shown v)) ps)
      ≡ map_pieces (filled_piece ((k, v) ∷ vars)) ps
unfolding filled_piece lookup
map_pieces_twice k v vars [] = refl
map_pieces_twice k v vars (plain s ∷ ps) = ap (λ ps. plain s ∷ ps) (map_pieces_twice k v vars ps)
map_pieces_twice k v vars (hole j ∷ ps) = λ i. one (k == j) i ∷ map_pieces_twice k v vars ps i
  where
    one :
        (b : Bool)
        → filled_piece vars (if b then plain (shown v) else hole j)
          ≡ (elim (if b then some v else lookup j vars) [
            | none ↦ hole j
            | some v ↦ plain (shown v)
          ])
    one true = refl
    one false = refl

map_pieces_none : (ps : List Piece) → map_pieces (filled_piece []) ps ≡ ps
unfolding filled_piece lookup
map_pieces_none [] = refl
map_pieces_none (plain s ∷ ps) = ap (λ ps. plain s ∷ ps) (map_pieces_none ps)
map_pieces_none (hole j ∷ ps) = ap (λ ps. hole j ∷ ps) (map_pieces_none ps)

fill_all_lem :
    (vars : Dict Value) (ps : List Piece)
    → All IsClean vars
    → All (λ p. is_sound p ≡ true) ps
    → fill_all vars (pieces_text ps) ≡ pieces_text (map_pieces (filled_piece vars) ps)
unfolding fill_all
fill_all_lem [] ps h g = ap pieces_text (sym (map_pieces_none ps))
fill_all_lem ((k, v) ∷ vars) ps ((b, s, d), h) g =
    ap (fill_all vars) (replace_all-pieces_text k (shown v) ps d b g)
    ∙ fill_all_lem vars (map_pieces (fill_piece k (shown v)) ps) h
        (All-map_pieces k (shown v) ps s g)
    ∙ ap pieces_text (map_pieces_twice k v vars ps)

All-insert :
    (k : String) (v : Value) (vars : Dict Value)
    → IsClean (k, v)
    → All IsClean vars
    → All IsClean (insert k v vars)
unfolding insert
All-insert k v [] c h = (c, tt)
All-insert k v ((j, w) ∷ vars) c (d, h) = one (All-insert k v vars c h) (j == k)
  where
    one :
        All IsClean (insert k v vars)
        → (b : Bool) → All IsClean (if b then (j, v) ∷ vars else (j, w) ∷ insert k v vars)
    one rest true = ((d.0, c.1, c.2), h)
    one rest false = (d, rest)

module _ (reads_as_one : String → Bool) where
  All-enriched : (vars : Dict Value) → All IsClean vars → All IsClean (enriched reads_as_one vars)
  unfolding enriched shown
  All-enriched vars h = go (lookup "n" vars) (is_some (lookup "s" vars))
    where
      plural : (b : Bool) → IsClean ("s", text (if b then "" else "s"))
      plural true = (refl, refl, refl)
      plural false = (refl, refl, refl)

      go :
          (n : Option Value) (b : Bool)
          → All IsClean (elim n [
            | none ↦ vars
            | some n ↦
                if b
                then vars
                else insert "s" (text (if is_one reads_as_one n then "" else "s")) vars
          ])
      go none b = h
      go (some n) true = h
      go (some n) false = All-insert "s" _ vars (plural (is_one reads_as_one n)) h

  t-fill_all :
      (key m : String) (ms : Dict String) (vars : Dict Value)
      → lookup key ms ≡ some m
      → t reads_as_one ms ms key (some vars) ≡ some (fill_all (enriched reads_as_one vars) m)
  unfolding t
  t-fill_all key m ms vars e = rw (e, t) refl

  -- A piece with what it stands for.
  abbrev pub meant_piece : Dict Value → Piece → Piece
  meant_piece vars (plain s) = plain s
  meant_piece vars (hole j) = elim (value_of reads_as_one vars j) [
    | none ↦ hole j
    | some v ↦ plain (shown v)
  ]

  filled_meant :
      (vars : Dict Value) (p : Piece)
      → filled_piece (enriched reads_as_one vars) p ≡ meant_piece vars p
  unfolding filled_piece
  filled_meant vars (plain s) = refl
  filled_meant vars (hole j) =
      ap (λ o. elim o [ none ↦ hole j | some v ↦ plain (shown v) ])
        (lookup-enriched reads_as_one vars j)

  all_meant :
      (vars : Dict Value) (ps : List Piece)
      → map_pieces (filled_piece (enriched reads_as_one vars)) ps ≡ map_pieces (meant_piece vars) ps
  all_meant vars [] = refl
  all_meant vars (p ∷ ps) = λ i. filled_meant vars p i ∷ all_meant vars ps i

  -- For every key of the English messages, t gives the message with each placeholder that has a value
  -- replaced by it, all at once, and the others as they are; where there is a count `n` and no `s`, `s`
  -- is empty for a count of one and else "s". The names have no braces, the values neither braces nor a
  -- dollar sign.
  pub t_fills :
      (key m : String) (vars : Dict Value)
      → lookup key english ≡ some m
      → All IsClean vars
      → t reads_as_one english english key (some vars)
        ≡ some (pieces_text (map_pieces (meant_piece vars) (pieces_of m)))
  t_fills key m vars e h =
      let (p, g) = english-lookup key m e in
      t-fill_all key m english vars e
      ∙ ap some (
          ap (fill_all (enriched reads_as_one vars)) (sym p)
          ∙ fill_all_lem (enriched reads_as_one vars) (pieces_of m) (All-enriched vars h) g
          ∙ ap pieces_text (all_meant vars (pieces_of m)))
