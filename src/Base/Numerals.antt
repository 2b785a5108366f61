-- ===== src/Base/Numerals.antt =====
-- Numbers as texts: `String(n)` of a number without a fraction, and `padStart`.
use Prim.Native.Nat.{ℕ, zero, suc, ◌+◌, ◌-◌, ◌*◌, ◌/◌, ◌%◌, ◌<◌}
use Prim.Native.Char.{Char, code}
use Prim.Native.String.{String, [], ◌∷◌}
use mathlib.Core.Path.{◌≡◌, refl, ap, ◌∙◌}
use mathlib.Core.Logic.{inl, inr}
use mathlib.Core.Bool.{Bool, true, false, ◌&&◌}
use native.Mathlib.Omega.{arith}
use vidsilo.Base.Words.{is_free}
use vidsilo.Base.Tests.{ltb, leb, Bool-cases}

abbrev digit : ℕ → Char
digit zero = "0"
digit (suc zero) = "1"
digit (suc (suc zero)) = "2"
digit (suc (suc (suc zero))) = "3"
digit (suc (suc (suc (suc zero)))) = "4"
digit (suc (suc (suc (suc (suc zero))))) = "5"
digit (suc (suc (suc (suc (suc (suc zero)))))) = "6"
digit (suc (suc (suc (suc (suc (suc (suc zero))))))) = "7"
digit (suc (suc (suc (suc (suc (suc (suc (suc zero)))))))) = "8"
digit (suc (suc (suc (suc (suc (suc (suc (suc (suc n))))))))) = "9"

-- The digits of `n` before a text, for fuel above `n`.
unfoldable pub digits : ℕ → ℕ → String → String
digits zero n s = s
digits (suc fuel) n s = elim (ltb n 10) [
  | true ↦ digit n ∷ s
  | false ↦ digits fuel (n / 10) (digit (n % 10) ∷ s)
]

-- `String(n)`
unfoldable pub decimal : ℕ → String
unfolding digits
decimal n = digits (suc n) n []

-- What digits after a number stand for.
abbrev pub read_on : ℕ → String → ℕ
read_on n [] = n
read_on n (c ∷ s) = read_on (10 * n + (code c - 48)) s

-- The number that digits stand for.
abbrev pub read_decimal : String → ℕ
read_decimal s = read_on 0 s

abbrev pub is_digit : ℕ → Bool
is_digit c = leb 48 c && leb c 57

digit-code : (n : ℕ) → n < 10 → code (digit n) ≡ 48 + n
digit-code zero h = refl
digit-code (suc zero) h = refl
digit-code (suc (suc zero)) h = refl
digit-code (suc (suc (suc zero))) h = refl
digit-code (suc (suc (suc (suc zero)))) h = refl
digit-code (suc (suc (suc (suc (suc zero))))) h = refl
digit-code (suc (suc (suc (suc (suc (suc zero)))))) h = refl
digit-code (suc (suc (suc (suc (suc (suc (suc zero))))))) h = refl
digit-code (suc (suc (suc (suc (suc (suc (suc (suc zero)))))))) h = refl
digit-code (suc (suc (suc (suc (suc (suc (suc (suc (suc n))))))))) h = omega arith

read_on-digits : (fuel n : ℕ) (s : String) → n < fuel → read_on 0 (digits fuel n s) ≡ read_on n s
unfolding digits
read_on-digits zero n s h = omega arith
read_on-digits (suc fuel) n s h = elim (Bool-cases (ltb n 10)) [
  | inl e ↦ rw (digits, e, digit-code n (ground arith)) (ap (λ m. read_on m s) (omega arith))
  | inr e ↦
      rw (digits, e)
        (read_on-digits fuel (n / 10) (digit (n % 10) ∷ s) (ground arith)
          ∙ rw (digit-code (n % 10) (omega arith)) (ap (λ m. read_on m s) (omega arith)))
]

-- A written number is read back.
pub read_decimal-decimal : (n : ℕ) → read_decimal (decimal n) ≡ n
unfolding decimal
read_decimal-decimal n = read_on-digits (suc n) n [] (omega arith)

digit-is_digit : (n : ℕ) → is_digit (code (digit n)) ≡ true
digit-is_digit zero = refl
digit-is_digit (suc zero) = refl
digit-is_digit (suc (suc zero)) = refl
digit-is_digit (suc (suc (suc zero))) = refl
digit-is_digit (suc (suc (suc (suc zero)))) = refl
digit-is_digit (suc (suc (suc (suc (suc zero))))) = refl
digit-is_digit (suc (suc (suc (suc (suc (suc zero)))))) = refl
digit-is_digit (suc (suc (suc (suc (suc (suc (suc zero))))))) = refl
digit-is_digit (suc (suc (suc (suc (suc (suc (suc (suc zero)))))))) = refl
digit-is_digit (suc (suc (suc (suc (suc (suc (suc (suc (suc n))))))))) = refl

module _ (p : ℕ → Bool) (other : (c : ℕ) → is_digit c ≡ true → p c ≡ false) where
  is_free-digits :
      (fuel n : ℕ) (s : String) → is_free p s ≡ true → is_free p (digits fuel n s) ≡ true
  unfolding digits
  is_free-digits zero n s h = h
  is_free-digits (suc fuel) n s h = elim (Bool-cases (ltb n 10)) [
    | inl e ↦ rw (digits, e) (ground (arith, h, other (code (digit n)) (digit-is_digit n)))
    | inr e ↦
        rw (digits, e)
          (is_free-digits fuel (n / 10) (digit (n % 10) ∷ s)
            (ground (arith, h, other (code (digit (n % 10))) (digit-is_digit (n % 10)))))
  ]

  -- A written number has digits only.
  pub is_free-decimal : (n : ℕ) → is_free p (decimal n) ≡ true
  unfolding decimal
  is_free-decimal n = is_free-digits (suc n) n [] refl
