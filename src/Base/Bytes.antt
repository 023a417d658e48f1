-- ===== src/Base/Bytes.antt =====
-- Bytes, C strings and the functions of the C library that the programs call on them: strlen,
-- strcmp, strchr, atol, and the formats `%ld` and `%*ld` of sprintf.
pub mod Decimal
pub mod Text
use Prim.Native.Nat.{ℕ, zero, suc, ◌+◌, ◌-◌, ◌*◌, ◌/◌, ◌%◌, ◌^◌}
use mathlib.Core.Bool.{Bool, true, false, ◌&&◌, ◌||◌}
use mathlib.Core.Option
use mathlib.Core.Option.{Option, none, some}
use mathlib.Core.List.{List, [], ◌∷◌, ◌++◌}
use my_study.Base.Tests.{ltb, leb, ◌==◌, if◌then◌else◌}
use my_study.Base.Lists.{length, replicate}
use my_study.Base.Int.{ℤ, pos, negsuc}

abbrev pub Bytes : Type 0
Bytes = List ℕ

-- The C string that starts a buffer: the bytes before the first NUL.
unfoldable pub c_string : Bytes → Bytes
c_string [] = []
c_string (c ∷ s) = if c == 0 then [] else c ∷ c_string s

-- `strcmp(a, b) == 0`
unfoldable pub str_eq : Bytes → Bytes → Bool
str_eq [] [] = true
str_eq [] (d ∷ t) = false
str_eq (c ∷ s) [] = false
str_eq (c ∷ s) (d ∷ t) = c == d && str_eq s t

-- `strchr(s, sep)`: the bytes before the first `sep`, and those behind it.
unfoldable pub split_at : ℕ → Bytes → Option (Bytes × Bytes)
split_at sep [] = none
split_at sep (c ∷ s) =
    if c == sep then some ([], s) else Option.map (λ p. (c ∷ p.0, p.1)) (split_at sep s)

abbrev pub is_digit : ℕ → Bool
is_digit c = leb b'0' c && leb c b'9'

-- `isspace` of the C locale
abbrev pub is_space : ℕ → Bool
is_space c = c == 32 || (leb 9 c && leb c 13)

unfoldable pub digits_value : ℕ → Bytes → ℕ
digits_value acc [] = acc
digits_value acc (c ∷ s) = if is_digit c then digits_value (acc * 10 + (c - b'0')) s else acc

abbrev pub long_max : ℕ
long_max = 2 ^ 63 - 1

-- strtol clamps a value that a long does not hold.
unfoldable pub to_long : Bool → ℕ → ℤ
to_long false n = if ltb long_max n then pos long_max else pos n
to_long true n =
    if n == 0 then pos 0 else if ltb long_max n then negsuc long_max else negsuc (n - 1)

signed_value : Bytes → ℤ
unfolding to_long digits_value
signed_value [] = pos 0
signed_value (c ∷ s) =
    if c == b'-'
    then to_long true (digits_value 0 s)
    else if c == b'+'
    then to_long false (digits_value 0 s)
    else to_long false (digits_value 0 (c ∷ s))

-- `atol`: blanks, a sign, digits up to the first other byte.
unfoldable pub atol : Bytes → ℤ
unfolding signed_value
atol [] = pos 0
atol (c ∷ s) = let rest = atol s in if is_space c then rest else signed_value (c ∷ s)

decimal_loop : ℕ → ℕ → Bytes → Bytes
decimal_loop zero n out = out
decimal_loop (suc fuel) n out =
    let out' = (b'0' + n % 10) ∷ out in
    let more = decimal_loop fuel (n / 10) out' in if ltb n 10 then out' else more

-- `%ld` of a value that is not negative; a number has fewer digits than `n + 1`.
unfoldable pub decimal : ℕ → Bytes
unfolding decimal_loop
decimal n = decimal_loop (suc n) n []

-- `%*ld`: at least `width` bytes, filled with blanks in front.
unfoldable pub pad_decimal : ℕ → ℕ → Bytes
unfolding decimal
pad_decimal width n = replicate (width - length (decimal n)) 32 ++ decimal n
