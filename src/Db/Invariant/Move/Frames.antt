-- ===== src/Db/Invariant/Move/Frames.antt =====
-- The four writes of a move, each on a list of records that lie apart from what is written.
use my_study.Base.{ℕ, ◌+◌, ◌*◌, ◌≤◌, ◌≢◌, inl, inr, List, [], ◌∷◌, arith, length, All, All-map}
use my_study.Base.Bytes.{Bytes}
use my_study.Posix.{overwrite}
use my_study.Db.State.{ptr_sz, ptr_max}
use my_study.Db.Layout.{PtrAt, Entry, Seg, Rest, IsRecord, last_ptr, end_of, datlen_of}
use my_study.Db.Layout.Frame.{
  Outside, Away, DatAway, PtrAt-frame, Seg-frame, Seg-frame_dat, Rest-frame, Rest-frame_dat,
}
use my_study.Db.Layout.Write.{
  ptr_bytes, length-ptr_bytes, rec_bytes, length-rec_bytes, dat_bytes, length-dat_bytes,
  last_ptr-Outside,
}
use my_study.Db.Invariant.{header, ApartAll}
use my_study.Db.Invariant.Slots.{Cross}
use my_study.Db.Invariant.Move.{InPlace}

-- The records `es` lie apart from `e` and from those before it, and behind the pointer table.
pub record Clear (nhash : ℕ) (before : List Entry) (e : Entry) (es : List Entry) : Type 0 where
  pub of_entry : ApartAll e es
  pub of_table : All (λ d. header nhash ≤ d.off) es
  pub of_before : Cross before es

-- The start of slot `k`'s pointer lies in the table.
pub slot_below : (nhash k : ℕ) → k ≤ nhash → k * ptr_sz + ptr_sz ≤ header nhash
slot_below nhash k h = omega arith

-- Two slots have different pointers.
pub slot_apart : (k j : ℕ) → k ≢ j → Outside (k * ptr_sz) ptr_sz (j * ptr_sz) (j * ptr_sz + ptr_sz)
slot_apart k j h = grind arith

last_ptr-Away :
    (nhash p : ℕ) (before es : List Entry)
    → p + ptr_sz ≤ header nhash
    → All (λ d. header nhash ≤ d.off) es
    → Cross before es
    → Away (last_ptr p before) ptr_sz es
last_ptr-Away nhash p before [] low behind cross = tt
last_ptr-Away nhash p before (d ∷ es) low (bd, behind) cross = (
  last_ptr-Outside d.off (end_of d) p before (inr (omega arith))
      (All-map before (λ x a. omega (arith, a.0.in_idx)) cross),
  last_ptr-Away nhash p before es low behind (All-map before (λ x a. a.1) cross),
)

module _ (nhash : ℕ) (before : List Entry) (e e' : Entry) (i : InPlace e e') (f g : Bytes) where
  module _ (es : List Entry) where
    dat_away : ApartAll e es → DatAway e'.datoff (length (dat_bytes e')) es
    dat_away = All-map es (λ d a. omega (arith, a.in_dat, i.datoff, i.datlen, length-dat_bytes e'))

    pub Rest-dat :
        Clear nhash before e es → Rest f g es → Rest f (overwrite g e'.datoff (dat_bytes e')) es
    Rest-dat c = Rest-frame_dat f g e'.datoff (dat_bytes e') es (dat_away c.of_entry)

    pub Seg-dat :
        (p v : ℕ)
        → ApartAll e es
        → Seg f g p es v
        → Seg f (overwrite g e'.datoff (dat_bytes e')) p es v
    Seg-dat p v c = Seg-frame_dat f g e'.datoff (dat_bytes e') p es v (dat_away c)

    module _ (w : ℕ) (small : w ≤ ptr_max) where
      rec-Away :
          IsRecord e'.key e'.datoff (datlen_of e')
          → ApartAll e es
          → Away e'.off (length (rec_bytes e' w)) es
      rec-Away k =
          All-map es (λ d a. omega (arith, a.in_idx, i.off, i.size, length-rec_bytes e' w small k))

      pub Rest-rec :
          IsRecord e'.key e'.datoff (datlen_of e')
          → Clear nhash before e es
          → Rest f g es
          → Rest (overwrite f e'.off (rec_bytes e' w)) g es
      Rest-rec k c = Rest-frame f g e'.off (rec_bytes e' w) es (rec-Away k c.of_entry)

      pub Rest-slot :
          (b : ℕ)
          → b ≤ nhash
          → All (λ d. header nhash ≤ d.off) es
          → Rest f g es
          → Rest (overwrite f (b * ptr_sz) (ptr_bytes w)) g es
      Rest-slot b h c = Rest-frame f g (b * ptr_sz) (ptr_bytes w) es (
          All-map es (λ d le. inr (omega (arith, length-ptr_bytes w small, slot_below nhash b h)))
            c)

      pub Rest-last :
          (a : ℕ)
          → a ≤ nhash
          → Clear nhash before e es
          → Rest f g es
          → Rest (overwrite f (last_ptr (a * ptr_sz) before) (ptr_bytes w)) g es
      Rest-last a h c = Rest-frame f g (last_ptr (a * ptr_sz) before) (ptr_bytes w) es (
          rw (length-ptr_bytes w small) (
            last_ptr-Away nhash (a * ptr_sz) before es (slot_below nhash a h) c.of_table
              c.of_before))

      pub Seg-rec :
          (p v : ℕ)
          → IsRecord e'.key e'.datoff (datlen_of e')
          → p + ptr_sz ≤ e.off
          → ApartAll e es
          → Seg f g p es v
          → Seg (overwrite f e'.off (rec_bytes e' w)) g p es v
      Seg-rec p v k h c =
          Seg-frame f g e'.off (rec_bytes e' w) p es v (inl (omega (arith, i.off))) (rec-Away k c)

      pub Seg-slot :
          (b a v : ℕ)
          → b ≤ nhash
          → b ≢ a
          → All (λ d. header nhash ≤ d.off) es
          → Seg f g (a * ptr_sz) es v
          → Seg (overwrite f (b * ptr_sz) (ptr_bytes w)) g (a * ptr_sz) es v
      Seg-slot b a v h ne c =
          Seg-frame f g (b * ptr_sz) (ptr_bytes w) (a * ptr_sz) es v
            (rw (length-ptr_bytes w small) (slot_apart b a ne))
            (All-map es
              (λ d le. inr (omega (arith, length-ptr_bytes w small, slot_below nhash b h))) c)

  -- The pointers of the other slots.
  module _ (w : ℕ) (small : w ≤ ptr_max) (k v : ℕ) (hk : k ≤ nhash) where
    pub PtrAt-rec :
        header nhash ≤ e.off
        → PtrAt f (k * ptr_sz) v
        → PtrAt (overwrite f e'.off (rec_bytes e' w)) (k * ptr_sz) v
    PtrAt-rec h =
        PtrAt-frame f e'.off (rec_bytes e' w) (k * ptr_sz) v
          (inl (omega (arith, i.off, slot_below nhash k hk)))

    pub PtrAt-slot :
        (b : ℕ)
        → b ≢ k
        → PtrAt f (k * ptr_sz) v
        → PtrAt (overwrite f (b * ptr_sz) (ptr_bytes w)) (k * ptr_sz) v
    PtrAt-slot b ne =
        PtrAt-frame f (b * ptr_sz) (ptr_bytes w) (k * ptr_sz) v
          (rw (length-ptr_bytes w small) (slot_apart b k ne))

    pub PtrAt-last :
        (a : ℕ)
        → a ≢ k
        → All (λ d. header nhash ≤ d.off) before
        → PtrAt f (k * ptr_sz) v
        → PtrAt (overwrite f (last_ptr (a * ptr_sz) before) (ptr_bytes w)) (k * ptr_sz) v
    PtrAt-last a ne behind =
        PtrAt-frame f (last_ptr (a * ptr_sz) before) (ptr_bytes w) (k * ptr_sz) v (
          rw (length-ptr_bytes w small) (
            last_ptr-Outside (k * ptr_sz) (k * ptr_sz + ptr_sz) (a * ptr_sz) before
              (slot_apart a k ne)
              (All-map before (λ d le. inl (omega (arith, slot_below nhash k hk))) behind)))
