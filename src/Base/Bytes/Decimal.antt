-- ===== src/Base/Bytes/Decimal.antt =====
-- Printing a number and reading it back: decimal, pad_decimal and atol.
use Prim.Native.Nat.{ℕ, zero, suc, ◌+◌, ◌-◌, ◌/◌, ◌%◌, ◌^◌, ◌≤◌, ◌<◌}
use mathlib.Core.Path.{◌≡◌, refl, ◌∙◌}
use mathlib.Core.Logic.{inl, inr}
use mathlib.Core.Bool.{false}
use mathlib.Core.List.{[], ◌∷◌, ◌++◌}
use native.Mathlib.Omega.{arith}
use native.Mathlib.Nat.{pow-suc}
use my_study.Base.Tests.{ltb, Bool-cases}
use my_study.Base.Lists.{length, replicate, All, length-append, length-replicate}
use my_study.Base.Int.{pos}
use my_study.Base.Bytes.{
  Bytes, digits_value, to_long, signed_value, atol, decimal_loop, decimal, pad_decimal, long_max,
}

abbrev pub IsDigit : ℕ → Type 0
IsDigit c = (48 ≤ c) × (c ≤ 57)

decimal_loop-digits :
    (fuel n : ℕ) (out : Bytes) → All IsDigit out → All IsDigit (decimal_loop fuel n out)
unfolding decimal_loop
decimal_loop-digits zero n out h = h
decimal_loop-digits (suc fuel) n out h =
    let ih =
      decimal_loop-digits fuel (n / 10) ((48 + n % 10) ∷ out) ((omega arith, omega arith), h) in
    elim (Bool-cases (ltb n 10)) [ inl e ↦ rw e ((omega arith, omega arith), h) | inr e ↦ rw e ih ]

pub decimal-digits : (n : ℕ) → All IsDigit (decimal n)
unfolding decimal
decimal-digits n = decimal_loop-digits (suc n) n [] tt

decimal_loop-value :
    (fuel n : ℕ) (out : Bytes)
    → n < fuel
    → digits_value 0 (decimal_loop fuel n out) ≡ digits_value n out
unfolding decimal_loop digits_value
decimal_loop-value zero n out h = absurd (omega arith)
decimal_loop-value (suc fuel) n out h =
    ground (arith, decimal_loop-value fuel (n / 10) ((48 + n % 10) ∷ out))

decimal-value : (n : ℕ) → digits_value 0 (decimal n) ≡ n
unfolding decimal digits_value
decimal-value n = decimal_loop-value (suc n) n [] (omega arith)

tenth_lt : (n width : ℕ) → n < 10 ^ suc (suc width) → n / 10 < 10 ^ suc width
tenth_lt n width h = omega (arith, pow-suc 10 (suc width))

decimal_loop-length :
    (fuel width n : ℕ) (out : Bytes)
    → n < 10 ^ suc width
    → n < fuel
    → (length (decimal_loop fuel n out) ≤ length out + suc width)
      × (length out < length (decimal_loop fuel n out))
unfolding decimal_loop
decimal_loop-length zero width n out h lt = absurd (omega arith)
decimal_loop-length (suc fuel) zero n out h lt = ground arith
decimal_loop-length (suc fuel) (suc width) n out h lt =
    ground
      (arith, decimal_loop-length fuel width (n / 10) ((48 + n % 10) ∷ out) (tenth_lt n width h))

pub length-decimal :
    (width n : ℕ) → n < 10 ^ suc width → (length (decimal n) ≤ suc width) × (0 < length (decimal n))
unfolding decimal
length-decimal width n h = omega (arith, decimal_loop-length (suc n) width n [] h (omega arith))

pub length-pad_decimal :
    (width n : ℕ) → n < 10 ^ suc width → length (pad_decimal (suc width) n) ≡ suc width
unfolding pad_decimal
length-pad_decimal width n h = omega (
  arith,
  length-decimal width n h,
  length-append (replicate (suc width - length (decimal n)) 32) (decimal n),
  length-replicate {A = ℕ} (suc width - length (decimal n)) 32,
)

signed_value-digits :
    (c : ℕ) (s : Bytes) → IsDigit c → signed_value (c ∷ s) ≡ to_long false (digits_value 0 (c ∷ s))
unfolding signed_value
signed_value-digits c s h = ground arith

atol-digits : (s : Bytes) → All IsDigit s → atol s ≡ to_long false (digits_value 0 s)
unfolding atol to_long digits_value
atol-digits [] h = refl
atol-digits (c ∷ s) (hc, hs) = ground (arith, signed_value-digits c s hc)

atol-blanks : (n : ℕ) (s : Bytes) → atol (replicate n 32 ++ s) ≡ atol s
unfolding atol
atol-blanks zero s = refl
atol-blanks (suc n) s = atol-blanks n s

pub atol-decimal : (n : ℕ) → n ≤ long_max → atol (decimal n) ≡ pos n
unfolding to_long
atol-decimal n h = atol-digits (decimal n) (decimal-digits n) ∙ rw (decimal-value n) (ground arith)

-- Reading a number that was printed in a field of any width gives it back.
pub atol-pad_decimal : (width n : ℕ) → n ≤ long_max → atol (pad_decimal width n) ≡ pos n
unfolding pad_decimal
atol-pad_decimal width n h = rw (atol-blanks _ (decimal n)) (atol-decimal n h)
