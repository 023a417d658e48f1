-- ===== src/Db/Layout/Frame.antt =====
-- What a write to the index file or the data file leaves as it was.
use my_study.Base.{ℕ, ◌+◌, ◌≤◌, ◌≡◌, ◌∙◌, ◌⊎◌, inl, inr, List, [], ◌∷◌, arith, length, All}
use my_study.Base.Bytes.{Bytes}
use my_study.Posix.{slice, overwrite}
use my_study.Posix.Transfers.{slice-overwrite_before, slice-overwrite_after, length-overwrite}
use my_study.Db.State.{ptr_sz, idxlen_sz}
use my_study.Db.Layout.{PtrAt, Entry, RecAt, DatAt, Seg, Rest, end_of, text_of, datlen_of}

-- The range from `lo` to `hi` meets no byte of the `n` bytes at `a`.
abbrev pub Outside : ℕ → ℕ → ℕ → ℕ → Type 0
Outside a n lo hi = (hi ≤ a) ⊎ (a + n ≤ lo)

slice_frame :
    (f : Bytes) (a : ℕ) (d : Bytes) (o n : ℕ)
    → Outside a (length d) o (o + n)
    → o + n ≤ length f
    → slice (overwrite f a d) o n ≡ slice f o n
slice_frame f a d o n (inl h) k = slice-overwrite_before f a d o n h k
slice_frame f a d o n (inr h) k = slice-overwrite_after f a d o n h

module _ (f : Bytes) (a : ℕ) (d : Bytes) where
  pub PtrAt-frame :
      (off v : ℕ)
      → Outside a (length d) off (off + ptr_sz)
      → PtrAt f off v
      → PtrAt (overwrite f a d) off v
  PtrAt-frame off v out p = record {
    inside = omega (arith, p.inside, length-overwrite f a d);
    holds = slice_frame f a d off ptr_sz out p.inside ∙ p.holds;
    small = p.small;
  }

  -- The chain pointer of the record may be written.
  pub RecAt-frame :
      (e : Entry)
      → Outside a (length d) (e.off + ptr_sz) (end_of e)
      → RecAt f e
      → RecAt (overwrite f a d) e
  RecAt-frame e out r = record {
    not_null = r.not_null;
    fits = r.fits;
    ends = omega (arith, r.ends, length-overwrite f a d);
    len_holds =
        slice_frame f a d (e.off + ptr_sz) idxlen_sz (omega (arith, out)) (omega (arith, r.ends))
        ∙ r.len_holds;
    text_holds =
        slice_frame f a d (e.off + (ptr_sz + idxlen_sz)) (length (text_of e)) (omega (arith, out))
          r.ends
        ∙ r.text_holds;
    valid = r.valid;
  }

  pub DatAt-frame :
      (e : Entry)
      → Outside a (length d) e.datoff (e.datoff + datlen_of e)
      → DatAt f e
      → DatAt (overwrite f a d) e
  DatAt-frame e out t = record {
    inside = omega (arith, t.inside, length-overwrite f a d);
    holds = slice_frame f a d e.datoff (datlen_of e) out t.inside ∙ t.holds;
    no_nul = t.no_nul;
  }

-- The entries lie outside a range of the index file, or of the data file.
abbrev pub Away : ℕ → ℕ → List Entry → Type 0
Away a n = All (λ e. Outside a n e.off (end_of e))

abbrev pub DatAway : ℕ → ℕ → List Entry → Type 0
DatAway a n = All (λ e. Outside a n e.datoff (e.datoff + datlen_of e))

module _ (f g : Bytes) (a : ℕ) (d : Bytes) where
  pub Seg-frame :
      (p : ℕ) (es : List Entry) (v : ℕ)
      → Outside a (length d) p (p + ptr_sz)
      → Away a (length d) es
      → Seg f g p es v
      → Seg (overwrite f a d) g p es v
  Seg-frame p [] v out away s = PtrAt-frame f a d p v out s
  Seg-frame p (e ∷ es) v out (oe, away) (h, r, t, s) = (
    PtrAt-frame f a d p e.off out h,
    RecAt-frame f a d e (omega (arith, oe)) r,
    t,
    Seg-frame e.off es v (omega (arith, oe)) away s,
  )

  pub Rest-frame :
      (es : List Entry) → Away a (length d) es → Rest f g es → Rest (overwrite f a d) g es
  Rest-frame [] away s = tt
  Rest-frame (e ∷ es) (oe, away) (r, t, s) = (
    RecAt-frame f a d e (omega (arith, oe)) r,
    t,
    Seg-frame e.off es 0 (omega (arith, oe)) away s,
  )

  pub Seg-frame_dat :
      (p : ℕ) (es : List Entry) (v : ℕ)
      → DatAway a (length d) es
      → Seg f g p es v
      → Seg f (overwrite g a d) p es v
  Seg-frame_dat p [] v away s = s
  Seg-frame_dat p (e ∷ es) v (oe, away) (h, r, t, s) =
      (h, r, DatAt-frame g a d e oe t, Seg-frame_dat e.off es v away s)

  pub Rest-frame_dat :
      (es : List Entry) → DatAway a (length d) es → Rest f g es → Rest f (overwrite g a d) es
  Rest-frame_dat [] away s = tt
  Rest-frame_dat (e ∷ es) (oe, away) (r, t, s) =
      (r, DatAt-frame g a d e oe t, Seg-frame_dat e.off es 0 away s)
