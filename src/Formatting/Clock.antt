-- ===== src/Formatting/Clock.antt =====
-- web/lib/format.ts: durations as hours, minutes and seconds.
use Prim.Native.String.{String, ◌++◌}
use text.Mathlib.TextLemmas.{nil-append, cons-append}
use vidsilo.Base.{
  ℕ, ◌+◌, ◌*◌, ◌/◌, ◌%◌, ◌<◌, ◌≡◌, refl, sym, subst, ap, ◌∙◌, inl, inr, Bool, true, some, List, [],
  ◌∷◌, arith, All, if◌then◌else◌, eqb, ltb, Bool-cases, split_at,
}
use vidsilo.Base.Words.{is_free, split_at_first, split_at_whole}
use vidsilo.Base.Numerals.{decimal, read_decimal, read_decimal-decimal, is_free-decimal}
use vidsilo.Formatting.{pad2, total_seconds, format_duration}

abbrev pub is_colon : ℕ → Bool
is_colon c = eqb c 58

-- The seconds of a text of numbers between colons, each worth sixty of the next.
abbrev clock_on : ℕ → List String → ℕ
clock_on n [] = n
clock_on n (w ∷ ws) = clock_on (60 * n + read_decimal w) ws

abbrev pub parts_of : String → List String
parts_of s = split_at is_colon s

abbrev pub clock_of : String → ℕ
clock_of s = clock_on 0 (split_at is_colon s)

-- The numbers after the first one are below sixty.
abbrev pub AllSixtieths : List String → Type 0
AllSixtieths [] = Unit
AllSixtieths (w ∷ ws) = All (λ v. read_decimal v < 60) ws

read_decimal-pad2 : (w : String) → read_decimal (pad2 w) ≡ read_decimal w
read_decimal-pad2 String.[] = refl
read_decimal-pad2 (String.◌∷◌ c String.[]) = refl
read_decimal-pad2 (String.◌∷◌ c (String.◌∷◌ d w)) = refl

is_free-pad2 : (w : String) → is_free is_colon w ≡ true → is_free is_colon (pad2 w) ≡ true
is_free-pad2 String.[] h = refl
is_free-pad2 (String.◌∷◌ c String.[]) h = h
is_free-pad2 (String.◌∷◌ c (String.◌∷◌ d w)) h = h

decimal_free : (n : ℕ) → is_free is_colon (decimal n) ≡ true
decimal_free n = is_free-decimal is_colon (λ c h. ground (arith, h)) n

padded_free : (n : ℕ) → is_free is_colon (pad2 (decimal n)) ≡ true
padded_free n = is_free-pad2 (decimal n) (decimal_free n)

padded_read : (n : ℕ) → read_decimal (pad2 (decimal n)) ≡ n
padded_read n = read_decimal-pad2 (decimal n) ∙ read_decimal-decimal n

colon : (s : String) → ":" ++ s ≡ String.◌∷◌ ":" s
colon s = cons-append ":" "" s ∙ ap (λ s. String.◌∷◌ ":" s) (nil-append s)

split_colon :
    (w s : String)
    → is_free is_colon w ≡ true
    → split_at is_colon (w ++ (":" ++ s)) ≡ w ∷ split_at is_colon s
split_colon w s h =
    ap (λ r. split_at is_colon (w ++ r)) (colon s) ∙ split_at_first is_colon w ":" s h refl

abbrev Reads : String → ℕ → Type 0
Reads text n = (clock_of text ≡ n) × AllSixtieths (parts_of text)

abbrev hms : ℕ → ℕ → ℕ → String
hms h m s = decimal h ++ (":" ++ (pad2 (decimal m) ++ (":" ++ pad2 (decimal s))))

abbrev ms_text : ℕ → ℕ → String
ms_text m s = decimal m ++ (":" ++ pad2 (decimal s))

parts-hms :
    (h m s : ℕ) → parts_of (hms h m s) ≡ decimal h ∷ pad2 (decimal m) ∷ pad2 (decimal s) ∷ []
parts-hms h m s =
    split_colon (decimal h) (pad2 (decimal m) ++ (":" ++ pad2 (decimal s))) (decimal_free h)
    ∙ ap (λ ws. decimal h ∷ ws)
        (split_colon (pad2 (decimal m)) (pad2 (decimal s)) (padded_free m)
          ∙ ap (λ ws. pad2 (decimal m) ∷ ws)
              (split_at_whole is_colon (pad2 (decimal s)) (padded_free s)))

parts-ms_text : (m s : ℕ) → parts_of (ms_text m s) ≡ decimal m ∷ pad2 (decimal s) ∷ []
parts-ms_text m s =
    split_colon (decimal m) (pad2 (decimal s)) (decimal_free m)
    ∙ ap (λ ws. decimal m ∷ ws) (split_at_whole is_colon (pad2 (decimal s)) (padded_free s))

abbrev ReadsParts : List String → ℕ → Type 0
ReadsParts ws n = (clock_on 0 ws ≡ n) × AllSixtieths ws

hms-Reads : (h m s n : ℕ) → m < 60 → s < 60 → n ≡ 3600 * h + 60 * m + s → Reads (hms h m s) n
hms-Reads h m s n a b e =
    subst (λ ws. ReadsParts ws n) (sym (parts-hms h m s))
      (rw (read_decimal-decimal h, padded_read m, padded_read s) (omega (arith, e), (a, (b, tt))))

ms_text-Reads : (m s n : ℕ) → s < 60 → n ≡ 60 * m + s → Reads (ms_text m s) n
ms_text-Reads m s n b e =
    subst (λ ws. ReadsParts ws n) (sym (parts-ms_text m s))
      (rw (read_decimal-decimal m, padded_read s) (omega (arith, e), (b, tt)))

format-Reads :
    (n : ℕ)
    → Reads
        (if ltb 0 (n / 3600)
          then hms (n / 3600) ((n % 3600) / 60) (n % 60)
          else ms_text ((n % 3600) / 60) (n % 60))
        n
format-Reads n = elim (Bool-cases (ltb 0 (n / 3600))) [
  | inl e ↦
      rw e (
        hms-Reads (n / 3600) ((n % 3600) / 60) (n % 60) n (omega arith) (omega arith) (omega arith))
  | inr e ↦ rw e (ms_text-Reads ((n % 3600) / 60) (n % 60) n (omega arith) (ground (arith, e)))
]

-- The text of a duration is read back as the duration rounded to a second, and the minutes after the
-- hours, as the seconds, are below sixty.
pub clock_of-format_duration :
    (ms : ℕ)
    → (clock_of (format_duration (some ms)) ≡ (ms + 500) / 1000)
      × AllSixtieths (parts_of (format_duration (some ms)))
unfolding format_duration total_seconds
clock_of-format_duration ms = format-Reads (total_seconds ms)
