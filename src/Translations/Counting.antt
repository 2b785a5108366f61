-- ===== src/Translations/Counting.antt =====
-- web/lib/i18n.tsx and web/app/admin/dashboard/page.tsx: the number of entries of a status.
use Prim.Native.String.{String, ◌++◌}
use package.text.Mathlib.TextLemmas.{nil-append}
use vidsilo.Base.{
  ℕ, ◌≡◌, refl, ap, ◌∙◌, inl, inr, Bool, some, [], ◌∷◌, arith, Bool-cases, if◌then◌else◌, eqb,
}
use vidsilo.Base.Numerals.{decimal, is_free-decimal}
use vidsilo.Translations.{text, number, shown, is_one, enriched, t}
use vidsilo.Translations.Pieces.{is_brace, is_dollar}
use vidsilo.Translations.Messages.{english, pieces_of}
use vidsilo.Translations.Filled.{filled_piece, t_fills}

module _ (reads_as_one : String → Bool) where
  -- The dashboard shows every number of entries as that number and "entrs", or as "1 entr".
  t-dash_entry_count :
      (n : ℕ)
      → t reads_as_one english english "dashEntryCount" (some (("n", number n) ∷ []))
        ≡ some (decimal n ++ (if eqb n 1 then " entr" else " entrs"))
  unfolding enriched is_one filled_piece pieces_of shown
  t-dash_entry_count n =
      t_fills reads_as_one "dashEntryCount" "{n} entr{s}" (("n", number n) ∷ []) refl (
        (
          refl,
          is_free-decimal is_brace (λ c h. ground (arith, h)) n,
          is_free-decimal is_dollar (λ c h. ground (arith, h)) n,
        ),
        tt,
      )
      ∙ elim (Bool-cases (eqb n 1)) [
        | inl e ↦ rw e (ap some (nil-append (decimal n ++ " entr")))
        | inr e ↦ rw e (ap some (nil-append (decimal n ++ " entrs")))
      ]
