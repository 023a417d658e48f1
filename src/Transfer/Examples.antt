-- ===== src/Transfer/Examples.antt =====
-- The transfer loops on a scripted descriptor.
use my_study.Base.{
  ℕ, suc, ◌≡◌, ap, Bool, true, false, Option, none, some, List, [], ◌∷◌, length, length-take, take,
  arith,
}
use my_study.Base.Bytes.{Bytes}
use my_study.Transfer.{readn, treadn, writen}
use my_study.Transfer.Loops.{Ended, TreadnEnded, Bounded, readn-Ended, treadn-Ended}
use my_study.Transfer.Writes.{Written, BoundedWrite, writen-Written}

-- What the descriptor does in turn: an error, or bytes.
abbrev Script : Type 0
Script = List (Option Bytes)

unfoldable read_next : ℕ → Script → Option Bytes × Script
read_next n [] = (some [], [])
read_next n (none ∷ s) = (none, s)
read_next n (some bs ∷ s) = (some (take n bs), s)

read_next-Bounded : (n : ℕ) (s₀ : Script) → Bounded read_next n s₀
unfolding read_next
read_next-Bounded n s₀ k [] s' got e = let q : [] ≡ got = cc in omega (arith, ap length q)
read_next-Bounded n s₀ k (none ∷ s) s' got e = cc
read_next-Bounded n s₀ k (some bs ∷ s) s' got e =
    let q : take k bs ≡ got = cc in omega (arith, ap length q, length-take k bs)

abbrev script : Script
script = some (1 ∷ 2 ∷ []) ∷ some (3 ∷ []) ∷ none ∷ []

readn-Ended_example : Ended read_next 4 script (readn read_next 4 script)
readn-Ended_example = readn-Ended read_next 4 script (read_next-Bounded 4 script)

unfoldable ready : Script → Option Bool × Script
ready [] = (some false, [])
ready (o ∷ s) = (some true, o ∷ s)

treadn-Ended_example : TreadnEnded ready read_next 4 script (treadn ready read_next 4 script)
treadn-Ended_example = treadn-Ended ready read_next 4 script (read_next-Bounded 4 script)

-- A descriptor that takes two bytes at a time, and counts the writes.
unfoldable write_two : Bytes → ℕ → Option ℕ × ℕ
write_two [] s = (some 0, s)
write_two (a ∷ []) s = (some 1, suc s)
write_two (a ∷ b ∷ d) s = (some 2, suc s)

write_two-BoundedWrite : (bytes : Bytes) (s₀ : ℕ) → BoundedWrite write_two bytes s₀
unfolding write_two
write_two-BoundedWrite bytes s₀ [] s s' k e = let q : 0 ≡ k = cc in omega (arith, q)
write_two-BoundedWrite bytes s₀ (a ∷ []) s s' k e = let q : 1 ≡ k = cc in omega (arith, q)
write_two-BoundedWrite bytes s₀ (a ∷ b ∷ d) s s' k e = let q : 2 ≡ k = cc in omega (arith, q)

writen-Written_example : Written write_two (1 ∷ 2 ∷ 3 ∷ []) 0 (writen write_two (1 ∷ 2 ∷ 3 ∷ []) 0)
writen-Written_example =
    writen-Written write_two (1 ∷ 2 ∷ 3 ∷ []) 0 (write_two-BoundedWrite (1 ∷ 2 ∷ 3 ∷ []) 0)
