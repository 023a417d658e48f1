-- ===== src/Base/Bytes/Text.antt =====
-- What strlen, strcmp and strchr compute on a text that holds no NUL and no separator.
use Prim.Native.Nat.{ℕ}
use mathlib.Core.Path.{◌≡◌, refl}
use mathlib.Core.Logic.{◌≢◌}
use mathlib.Core.Bool.{true, false}
use mathlib.Core.Option.{none, some}
use mathlib.Core.List.{[], ◌∷◌, ◌++◌}
use native.Mathlib.Omega.{arith}
use my_study.Base.Tests.{ne→==, ==_refl}
use my_study.Base.Lists.{All}
use my_study.Base.Bytes.{Bytes, c_string, str_eq, split_at}

abbrev pub Lacks : ℕ → Bytes → Type 0
Lacks b = All (λ c. c ≢ b)

pub c_string-of_Lacks : (s : Bytes) → Lacks 0 s → c_string s ≡ s
unfolding c_string
c_string-of_Lacks [] h = refl
c_string-of_Lacks (c ∷ s) (hc, hs) = rw (ne→== c 0 hc, c_string-of_Lacks s hs)

pub c_string-Lacks : (s : Bytes) → Lacks 0 (c_string s)
unfolding c_string
c_string-Lacks [] = tt
c_string-Lacks (c ∷ s) = ground (arith, c_string-Lacks s)

pub str_eq_refl : (s : Bytes) → str_eq s s ≡ true
unfolding str_eq
str_eq_refl [] = refl
str_eq_refl (c ∷ s) = rw (==_refl c, str_eq_refl s)

pub str_eq→eq : (s t : Bytes) → str_eq s t ≡ true → s ≡ t
unfolding str_eq
str_eq→eq [] [] h = refl
str_eq→eq [] (d ∷ t) h = cc
str_eq→eq (c ∷ s) [] h = cc
str_eq→eq (c ∷ s) (d ∷ t) h = ground (arith, str_eq→eq s t)

pub str_eq-ne : (s t : Bytes) → s ≢ t → str_eq s t ≡ false
str_eq-ne s t h = ground (arith, str_eq→eq s t)

pub split_at-append :
    (sep : ℕ) (s t : Bytes) → Lacks sep s → split_at sep (s ++ (sep ∷ t)) ≡ some (s, t)
unfolding split_at
split_at-append sep [] t h = rw (==_refl sep)
split_at-append sep (c ∷ s) t (hc, hs) = rw (ne→== c sep hc, split_at-append sep s t hs)

pub split_at-of_Lacks : (sep : ℕ) (s : Bytes) → Lacks sep s → split_at sep s ≡ none
unfolding split_at
split_at-of_Lacks sep [] h = refl
split_at-of_Lacks sep (c ∷ s) (hc, hs) = rw (ne→== c sep hc, split_at-of_Lacks sep s hs)
