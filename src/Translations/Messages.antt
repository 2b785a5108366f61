-- ===== src/Translations/Messages.antt =====
-- web/lib/i18n.tsx: the English messages, and their placeholders.
mod Shell
mod Dashboard
mod Entries
mod Forms
mod Playing
use Prim.Native.Nat.{ℕ}
use Prim.Native.String
use Prim.Native.String.{String}
use vidsilo.Base.{
  ◌≡◌, refl, subst, inl, inr, Bool, true, false, ◌&&◌, Option, none, some, List, [], ◌∷◌, ◌++◌,
  arith, All, all, Bool-cases, if◌then◌else◌, eqb, ◌==◌, eq_iff, Dict, lookup, split_at,
}
use vidsilo.Translations.Pieces.{Piece, plain, hole, is_sound, pieces_text}
use Shell.{shell_messages}
use Dashboard.{dashboard_messages}
use Entries.{entry_messages}
use Forms.{form_messages}
use Playing.{playing_messages}

-- `en`
abbrev pub english : Dict String
english =
    shell_messages
    ++ (dashboard_messages ++ (entry_messages ++ (form_messages ++ playing_messages)))

-- What stands after an opening brace: a placeholder and the text after it.
unfoldable piece_parts : List String → List Piece
piece_parts (k ∷ s ∷ []) = hole k ∷ plain s ∷ []
piece_parts parts = []

unfoldable later_pieces : List String → List Piece
unfolding piece_parts split_at
later_pieces [] = []
later_pieces (part ∷ parts) = piece_parts (split_at (λ c. eqb c 125) part) ++ later_pieces parts

-- The pieces of a message.
unfoldable pub pieces_of : String → List Piece
unfolding later_pieces split_at
pieces_of m = elim (split_at (λ c. eqb c 123) m) [
  | [] ↦ []
  | s ∷ parts ↦ plain s ∷ later_pieces parts
]

-- The pieces make up the message, and have no braces of their own.
abbrev is_template : String → Bool
is_template m = (pieces_text (pieces_of m) == m) && all is_sound (pieces_of m)

abbrev are_templates : Dict String → Bool
are_templates [] = true
are_templates ((k, m) ∷ ms) = is_template m && are_templates ms

english-are_templates : are_templates english ≡ true
unfolding pieces_of vidsilo.Translations.braced
english-are_templates = refl

are_templates-lookup :
    (key m : String) (ms : Dict String)
    → are_templates ms ≡ true
    → lookup key ms ≡ some m
    → is_template m ≡ true
unfolding lookup
are_templates-lookup key m [] h e = cc
are_templates-lookup key m ((k, n) ∷ ms) h e = elim (Bool-cases (k == key)) [
  | inl f ↦
      let g : n ≡ m = ground (arith, e, f) in
      subst (λ m. is_template m ≡ true) g (ground (arith, h))
  | inr f ↦ are_templates-lookup key m ms (ground (arith, h)) (ground (arith, e, f))
]

all-All : (ps : List Piece) → all is_sound ps ≡ true → All (λ p. is_sound p ≡ true) ps
all-All [] h = tt
all-All (p ∷ ps) h = (ground (arith, h), all-All ps (ground (arith, h)))

-- A message of the table is made up of pieces without braces of their own.
pub english-lookup :
    (key m : String)
    → lookup key english ≡ some m
    → (pieces_text (pieces_of m) ≡ m) × All (λ p. is_sound p ≡ true) (pieces_of m)
english-lookup key m e =
    let h = are_templates-lookup key m english english-are_templates e in
    (
      (eq_iff (pieces_text (pieces_of m)) m).0 (ground (arith, h)),
      all-All (pieces_of m) (ground (arith, h)),
    )
