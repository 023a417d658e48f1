-- ===== src/Posix/Transfers.antt =====
-- What a range of a file holds after a write to the same range, or to one apart from it.
use my_study.Base.{
  ℕ, zero, suc, ◌+◌, ◌-◌, ◌≤◌, ◌≡◌, refl, ap, [], ◌∷◌, ◌++◌, arith, length, take, drop, take-append,
  drop-drop, length-append, length-take, length-drop, drop-append, take-append_eq, drop-append_eq,
  drop-nil, sym, ◌∙◌,
}
use native.Mathlib.Nat.{zero-add, suc-add}
use my_study.Base.Bytes.{Bytes}
use my_study.Posix.{slice, overwrite}

pub slice-overwrite_self :
    (f : Bytes) (offset : ℕ) (d : Bytes) → slice (overwrite f offset d) offset (length d) ≡ d
unfolding slice overwrite
slice-overwrite_self [] zero d = take_length d
  where
    take_length : (d : Bytes) → take (length d) d ≡ d
    take_length [] = refl
    take_length (x ∷ d) = ap (λ l. x ∷ l) (take_length d)
slice-overwrite_self [] (suc offset) d = slice-overwrite_self [] offset d
slice-overwrite_self (b ∷ f) zero d = take-append d (drop (length d) (b ∷ f))
slice-overwrite_self (b ∷ f) (suc offset) d = slice-overwrite_self f offset d

-- A range that ends before the write begins.
pub slice-overwrite_before :
    (f : Bytes) (offset : ℕ) (d : Bytes) (o n : ℕ)
    → o + n ≤ offset
    → o + n ≤ length f
    → slice (overwrite f offset d) o n ≡ slice f o n
unfolding slice overwrite
slice-overwrite_before f offset d zero zero h k = refl
slice-overwrite_before [] offset d zero (suc n) h k = absurd (omega arith)
slice-overwrite_before (b ∷ f) zero d zero (suc n) h k = absurd (omega arith)
slice-overwrite_before (b ∷ f) (suc offset) d zero (suc n) h k =
    ap (λ l. b ∷ l) (slice-overwrite_before f offset d 0 n (omega arith) (omega arith))
slice-overwrite_before [] offset d (suc o) n h k = absurd (omega arith)
slice-overwrite_before (b ∷ f) zero d (suc o) n h k = absurd (omega arith)
slice-overwrite_before (b ∷ f) (suc offset) d (suc o) n h k =
    slice-overwrite_before f offset d o n (omega arith) (omega arith)

drop-drop_append :
    (d f : Bytes) (k : ℕ) → drop (length d + k) (d ++ drop (length d) f) ≡ drop (length d + k) f
drop-drop_append d f k =
    sym (drop-drop (length d) k (d ++ drop (length d) f))
    ∙ ap (drop k) (drop-append d (drop (length d) f))
    ∙ drop-drop (length d) k f

drop_all : (d : Bytes) (o : ℕ) → length d ≤ o → drop o d ≡ []
drop_all [] o h = drop-nil o
drop_all (x ∷ d) zero h = absurd (omega arith)
drop_all (x ∷ d) (suc o) h = drop_all d o (omega arith)

drop-overwrite :
    (f : Bytes) (offset : ℕ) (d : Bytes) (o : ℕ)
    → offset + length d ≤ o
    → drop o (overwrite f offset d) ≡ drop o f
unfolding overwrite
drop-overwrite [] zero d o h = drop_all d o (omega arith) ∙ sym (drop-nil o)
drop-overwrite [] (suc offset) d zero h = absurd (omega arith)
drop-overwrite [] (suc offset) d (suc o) h = drop-overwrite [] offset d o (omega arith) ∙ drop-nil o
drop-overwrite (b ∷ f) zero d o h =
    let e : length d + (o - length d) ≡ o = omega arith in
    rw e at (drop-drop_append d (b ∷ f) (o - length d))
drop-overwrite (b ∷ f) (suc offset) d zero h = absurd (omega arith)
drop-overwrite (b ∷ f) (suc offset) d (suc o) h = drop-overwrite f offset d o (omega arith)

-- A range that begins behind the end of the write.
pub slice-overwrite_after :
    (f : Bytes) (offset : ℕ) (d : Bytes) (o n : ℕ)
    → offset + length d ≤ o
    → slice (overwrite f offset d) o n ≡ slice f o n
unfolding slice
slice-overwrite_after f offset d o n h = ap (take n) (drop-overwrite f offset d o h)

-- A write that begins inside the file or at its end makes the file as long as its last byte wants.
pub length-overwrite :
    (f : Bytes) (offset : ℕ) (d : Bytes)
    → (length f ≤ length (overwrite f offset d))
      × (offset + length d ≤ length (overwrite f offset d))
      × (length (overwrite f offset d) ≤ length f + offset + length d)
unfolding overwrite
length-overwrite [] zero d = (omega arith, omega arith, omega arith)
length-overwrite [] (suc offset) d =
    let ih = length-overwrite [] offset d in (omega arith, omega arith, omega arith)
length-overwrite (b ∷ f) zero d =
    let e = length-append d (drop (length d) (b ∷ f)) in
    let k = length-drop (length d) (b ∷ f) in (omega arith, omega arith, omega arith)
length-overwrite (b ∷ f) (suc offset) d =
    let ih = length-overwrite f offset d in (omega arith, omega arith, omega arith)

pub overwrite-end : (f d : Bytes) → overwrite f (length f) d ≡ f ++ d
unfolding overwrite
overwrite-end [] d = refl
overwrite-end (b ∷ f) d = ap (λ l. b ∷ l) (overwrite-end f d)

-- The length stays where the write ends inside the file.
pub length-overwrite_inside :
    (f : Bytes) (offset : ℕ) (d : Bytes)
    → offset + length d ≤ length f
    → length (overwrite f offset d) ≡ length f
unfolding overwrite
length-overwrite_inside [] zero d h = omega arith
length-overwrite_inside [] (suc offset) d h = absurd (omega arith)
length-overwrite_inside (b ∷ f) zero d h =
    omega (arith, length-append d (drop (length d) (b ∷ f)), length-drop (length d) (b ∷ f))
length-overwrite_inside (b ∷ f) (suc offset) d h =
    omega (arith, length-overwrite_inside f offset d (omega arith))

take_add : (m n : ℕ) (xs : Bytes) → take (m + n) xs ≡ take m xs ++ take n (drop m xs)
take_add zero n xs = ap (λ (k : ℕ). take k xs) (zero-add n)
take_add (suc m) zero [] = ap (λ (k : ℕ). take k []) (suc-add m 0)
take_add (suc m) (suc n) [] = ap (λ (k : ℕ). take k []) (suc-add m (suc n))
take_add (suc m) n (x ∷ xs) =
    ap (λ (k : ℕ). take k (x ∷ xs)) (suc-add m n) ∙ ap (λ l. x ∷ l) (take_add m n xs)

-- Reading two neighbouring ranges is reading one.
pub slice-append : (f : Bytes) (o m n : ℕ) → slice f o (m + n) ≡ slice f o m ++ slice f (o + m) n
unfolding slice
slice-append f o m n =
    take_add m n (drop o f) ∙ ap (λ l. take m (drop o f) ++ take n l) (drop-drop o m f)

pub length-slice : (f : Bytes) (o n : ℕ) → o + n ≤ length f → length (slice f o n) ≡ n
unfolding slice
length-slice f o n h = omega (arith, length-take n (drop o f), length-drop o f)

-- A range that holds a text holds its parts.
pub slice_parts :
    (f : Bytes) (o m n : ℕ) (a b : Bytes)
    → length a ≡ m
    → o + m ≤ length f
    → slice f o (m + n) ≡ a ++ b
    → (slice f o m ≡ a) × (slice f (o + m) n ≡ b)
slice_parts f o m n a b la h e =
    let whole : slice f o m ++ slice f (o + m) n ≡ a ++ b = sym (slice-append f o m n) ∙ e in
    let front = length-slice f o m h in
    (
      sym (take-append_eq (slice f o m) (slice f (o + m) n) front)
          ∙ ap (take m) whole
          ∙ take-append_eq a b la,
      sym (drop-append_eq (slice f o m) (slice f (o + m) n) front)
          ∙ ap (drop m) whole
          ∙ drop-append_eq a b la,
    )
