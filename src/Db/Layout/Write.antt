-- ===== src/Db/Layout/Write.antt =====
-- What the writing functions of db.c leave in the files.
use my_study.Base.{
  ℕ, ◌+◌, ◌≤◌, ◌<◌, ◌≡◌, List, [], ◌∷◌, ◌++◌, arith, length, length-append, All, subst, refl,
}
use my_study.Base.Bytes.{Bytes, pad_decimal}
use my_study.Base.Bytes.Text.{Lacks}
use my_study.Base.Bytes.Decimal.{length-pad_decimal}
use my_study.Posix.{slice, overwrite}
use my_study.Posix.Transfers.{slice-overwrite_self, length-overwrite, slice_parts}
use my_study.Db.State.{ptr_sz, ptr_max, idxlen_sz, newline}
use my_study.Db.Layout.{PtrAt, Entry, RecAt, DatAt, IsRecord, end_of, text_of, datlen_of, last_ptr}
use my_study.Db.Layout.Frame.{Outside}

-- The pointer field that `_db_writeptr` writes.
abbrev pub ptr_bytes : ℕ → Bytes
ptr_bytes v = pad_decimal ptr_sz v

pub length-ptr_bytes : (v : ℕ) → v ≤ ptr_max → length (ptr_bytes v) ≡ ptr_sz
length-ptr_bytes v h = length-pad_decimal 6 v (omega (arith, h))

pub PtrAt-write :
    (f : Bytes) (off v : ℕ) → v ≤ ptr_max → PtrAt (overwrite f off (ptr_bytes v)) off v
PtrAt-write f off v h = record {
  inside = omega (arith, length-overwrite f off (ptr_bytes v), length-ptr_bytes v h);
  holds =
      subst (λ n. slice (overwrite f off (ptr_bytes v)) off n ≡ ptr_bytes v) (length-ptr_bytes v h)
        (slice-overwrite_self f off (ptr_bytes v));
  small = h;
}

-- The index record that `_db_writeidx` writes for `e`, with the pointer `v`.
abbrev pub rec_bytes : Entry → ℕ → Bytes
rec_bytes e v = ptr_bytes v ++ (pad_decimal idxlen_sz (length (text_of e)) ++ text_of e)

module _ (e : Entry) (v : ℕ) (h : v ≤ ptr_max) (k : IsRecord e.key e.datoff (datlen_of e)) where
  len_width : length (pad_decimal idxlen_sz (length (text_of e))) ≡ idxlen_sz
  len_width = length-pad_decimal 3 (length (text_of e)) (omega (arith, k.short_enough))

  pub length-rec_bytes : length (rec_bytes e v) ≡ ptr_sz + (idxlen_sz + length (text_of e))
  length-rec_bytes = omega (
    arith,
    length-ptr_bytes v h,
    len_width,
    length-append (ptr_bytes v) (pad_decimal idxlen_sz (length (text_of e)) ++ text_of e),
    length-append (pad_decimal idxlen_sz (length (text_of e))) (text_of e),
  )

  pub RecAt-write :
      (f : Bytes)
      → 0 < e.off
      → e.off ≤ ptr_max
      → PtrAt (overwrite f e.off (rec_bytes e v)) e.off v
        × RecAt (overwrite f e.off (rec_bytes e v)) e
  RecAt-write f pos_off small =
      let f' = overwrite f e.off (rec_bytes e v) in
      let size : length f' ≡ length f' = refl in
      let room : end_of e ≤ length f' =
        omega (arith, length-overwrite f e.off (rec_bytes e v), length-rec_bytes) in
      let whole : slice f' e.off (ptr_sz + (idxlen_sz + length (text_of e))) ≡ rec_bytes e v =
        subst (λ n. slice f' e.off n ≡ rec_bytes e v) length-rec_bytes
          (slice-overwrite_self f e.off (rec_bytes e v)) in
      let outer =
        slice_parts f' e.off ptr_sz (idxlen_sz + length (text_of e)) (ptr_bytes v)
          (pad_decimal idxlen_sz (length (text_of e)) ++ text_of e) (length-ptr_bytes v h)
          (omega (arith, room)) whole in
      let inner =
        slice_parts f' (e.off + ptr_sz) idxlen_sz (length (text_of e))
          (pad_decimal idxlen_sz (length (text_of e))) (text_of e) len_width (omega (arith, room))
          outer.1 in
      let here : e.off + ptr_sz + idxlen_sz ≡ e.off + (ptr_sz + idxlen_sz) = omega arith in
      (
        record { inside = omega (arith, room); holds = outer.0; small = h },
        record {
          not_null = pos_off;
          fits = small;
          ends = room;
          len_holds = inner.0;
          text_holds = subst (λ o. slice f' o (length (text_of e)) ≡ text_of e) here inner.1;
          valid = k;
        },
      )

-- The data record that `_db_writedat` writes.
abbrev pub dat_bytes : Entry → Bytes
dat_bytes e = e.text ++ (newline ∷ [])

pub length-dat_bytes : (e : Entry) → length (dat_bytes e) ≡ datlen_of e
length-dat_bytes e = omega (arith, length-append e.text (newline ∷ []))

pub DatAt-write :
    (g : Bytes) (e : Entry) → Lacks 0 e.text → DatAt (overwrite g e.datoff (dat_bytes e)) e
DatAt-write g e h = record {
  inside = omega (arith, length-overwrite g e.datoff (dat_bytes e), length-dat_bytes e);
  holds =
      subst (λ n. slice (overwrite g e.datoff (dat_bytes e)) e.datoff n ≡ dat_bytes e)
        (length-dat_bytes e) (slice-overwrite_self g e.datoff (dat_bytes e));
  no_nul = h;
}

-- The starts of the entries, as chain pointers, lie outside a range.
abbrev pub StartsOutside : ℕ → ℕ → List Entry → Type 0
StartsOutside lo hi = All (λ e. Outside e.off ptr_sz lo hi)

pub last_ptr-Outside :
    (lo hi : ℕ) (p : ℕ) (es : List Entry)
    → Outside p ptr_sz lo hi
    → StartsOutside lo hi es
    → Outside (last_ptr p es) ptr_sz lo hi
last_ptr-Outside lo hi p [] out h = out
last_ptr-Outside lo hi p (e ∷ es) out (oe, h) = last_ptr-Outside lo hi e.off es oe h
