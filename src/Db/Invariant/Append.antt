-- ===== src/Db/Invariant/Append.antt =====
-- A record at the ends of both files comes to the front of a chain.
use my_study.Base.{
  ℕ, suc, ◌+◌, ◌*◌, ◌≤◌, ◌<◌, ◌≡◌, ◌≢◌, sym, inl, inr, List, [], ◌∷◌, arith, length, All, All-map,
}
use my_study.Base.Bytes.{Bytes}
use my_study.Base.Bytes.Text.{Lacks}
use my_study.Posix.{overwrite}
use my_study.Posix.Transfers.{length-overwrite}
use my_study.Db.State.{ptr_sz, ptr_max}
use my_study.Db.Layout.{PtrAt, Entry, Linked, Rest, IsRecord, first_off, end_of, datlen_of}
use my_study.Db.Layout.Split.{Linked-first, Linked-Rest, Linked-join}
use my_study.Db.Layout.Frame.{Away, PtrAt-frame, RecAt-frame, Rest-frame, Rest-frame_dat}
use my_study.Db.Layout.Write.{
  ptr_bytes, length-ptr_bytes, PtrAt-write, rec_bytes, RecAt-write, dat_bytes, DatAt-write,
}
use my_study.Db.Invariant.{Holds, header, ApartAll, PairwiseApart, DistinctKeys}
use my_study.Db.Invariant.Slots.{put, put_ind, AcrossSlots-put}
use my_study.Db.Invariant.Move.Frames.{slot_below, slot_apart}

-- The entries of a chain lie inside both files.
abbrev Inside : Bytes → Bytes → Entry → Type 0
Inside f g d = (end_of d ≤ length f) × (d.datoff + datlen_of d ≤ length g)

Linked-Inside : (f g : Bytes) (p v : ℕ) (es : List Entry) → Rest f g es → All (Inside f g) es
Linked-Inside f g p v [] r = tt
Linked-Inside f g p v (d ∷ es) (r, t, l) =
    ((r.ends, t.inside), Linked-Inside f g p v es (Linked-Rest f g d.off es l))

-- What the new record of slot `b` must be; the index file is not too long for its offset.
pub record Appends (f g : Bytes) (nhash b : ℕ) (e : Entry) : Type 0 where
  pub to : b ≤ nhash
  pub at_idx_end : e.off ≡ length f
  pub at_dat_end : e.datoff ≡ length g
  pub fits : length f ≤ ptr_max
  pub valid : IsRecord e.key e.datoff (datlen_of e)
  pub no_nul : Lacks 0 e.text

module _ (f g : Bytes) (nhash : ℕ) (lists : ℕ → List Entry) (inv : Holds f g nhash lists) (b : ℕ)
    (e : Entry) (m : Appends f g nhash b e) where
  abbrev in_ptr : ℕ
  in_ptr = first_off (lists b)

  in_small : in_ptr ≤ ptr_max
  in_small = (Linked-first f g (b * ptr_sz) (lists b) (inv.linked b m.to)).small

  off_small : e.off ≤ ptr_max
  off_small = omega (arith, m.at_idx_end, m.fits)

  -- The files after the data record, the index record and the chain pointer.
  abbrev pub idx_grown : Bytes
  idx_grown = overwrite f e.off (rec_bytes e in_ptr)

  abbrev pub idx_linked : Bytes
  idx_linked = overwrite idx_grown (b * ptr_sz) (ptr_bytes e.off)

  abbrev pub dat_grown : Bytes
  dat_grown = overwrite g e.datoff (dat_bytes e)

  inside : (k : ℕ) → k ≤ nhash → All (Inside f g) (lists k)
  inside k h =
      Linked-Inside f g 0 0 (lists k) (Linked-Rest f g (k * ptr_sz) (lists k) (inv.linked k h))

  PtrAt-linked :
      (k v : ℕ) → k ≤ nhash → k ≢ b → PtrAt f (k * ptr_sz) v → PtrAt idx_linked (k * ptr_sz) v
  PtrAt-linked k v h ne p =
      PtrAt-frame idx_grown (b * ptr_sz) (ptr_bytes e.off) (k * ptr_sz) v
        (rw (length-ptr_bytes e.off off_small) (slot_apart b k (λ q. ne (sym q))))
        (PtrAt-frame f e.off (rec_bytes e in_ptr) (k * ptr_sz) v
          (inl (omega (arith, slot_below nhash k h, m.at_idx_end, inv.has_header))) p)

  slot-Away : (k : ℕ) → k ≤ nhash → Away (b * ptr_sz) (length (ptr_bytes e.off)) (lists k)
  slot-Away k h =
      All-map (lists k)
        (λ d le. inr (omega (arith, length-ptr_bytes e.off off_small, slot_below nhash b m.to)))
        (inv.behind k h)

  Rest-linked : (k : ℕ) → k ≤ nhash → Rest idx_linked dat_grown (lists k)
  Rest-linked k h =
      Rest-frame idx_grown dat_grown (b * ptr_sz) (ptr_bytes e.off) (lists k) (slot-Away k h) (
        Rest-frame f dat_grown e.off (rec_bytes e in_ptr) (lists k)
          (All-map (lists k) (λ d i. inl (omega (arith, i.0, m.at_idx_end))) (inside k h))
          (Rest-frame_dat f g e.datoff (dat_bytes e) (lists k)
            (All-map (lists k) (λ d i. inl (omega (arith, i.1, m.at_dat_end))) (inside k h))
            (Linked-Rest f g (k * ptr_sz) (lists k) (inv.linked k h))))

  apart_all : (k : ℕ) → k ≤ nhash → ApartAll e (lists k)
  apart_all k h =
      All-map (lists k)
        (λ d i. record {
          in_idx = inr (omega (arith, i.0, m.at_idx_end));
          in_dat = inr (omega (arith, i.1, m.at_dat_end));
        })
        (inside k h)

  has_header_after : header nhash ≤ length idx_linked
  has_header_after = omega (
    arith,
    inv.has_header,
    length-overwrite f e.off (rec_bytes e in_ptr),
    length-overwrite idx_grown (b * ptr_sz) (ptr_bytes e.off),
  )

  Linked-new : Linked idx_linked dat_grown (b * ptr_sz) (e ∷ lists b)
  Linked-new =
      let not_null : 0 < e.off = omega (arith, inv.has_header, m.at_idx_end) in
      let written = RecAt-write e in_ptr in_small m.valid f not_null off_small in
      let n = length-ptr_bytes e.off off_small in
      let low : b * ptr_sz + ptr_sz ≤ e.off =
        omega (arith, slot_below nhash b m.to, inv.has_header, m.at_idx_end) in
      (
        PtrAt-write idx_grown (b * ptr_sz) e.off off_small,
        RecAt-frame idx_grown (b * ptr_sz) (ptr_bytes e.off) e (inr (omega (arith, n, low)))
            written.1,
        DatAt-write g e m.no_nul,
        Linked-join idx_linked dat_grown e.off [] (lists b)
            (PtrAt-frame idx_grown (b * ptr_sz) (ptr_bytes e.off) e.off in_ptr
              (inr (omega (arith, n, low))) written.0)
            (Rest-linked b m.to),
      )

  -- The new record keeps the invariant.
  pub Holds-appended :
      ((k : ℕ) → k < nhash → DistinctKeys (put b (e ∷ lists b) lists (suc k)))
      → Holds idx_linked dat_grown nhash (put b (e ∷ lists b) lists)
  Holds-appended distinct = record {
    has_chains = inv.has_chains;
    has_header = has_header_after;
    linked =
        put_ind (λ k es. k ≤ nhash → Linked idx_linked dat_grown (k * ptr_sz) es) b (e ∷ lists b)
          lists (λ h. Linked-new)
          (λ k ne h.
            Linked-join idx_linked dat_grown (k * ptr_sz) [] (lists k)
              (PtrAt-linked k (first_off (lists k)) h ne
                (Linked-first f g (k * ptr_sz) (lists k) (inv.linked k h)))
              (Rest-linked k h));
    behind =
        put_ind (λ k es. k ≤ nhash → All (λ d. header nhash ≤ d.off) es) b (e ∷ lists b) lists
          (λ h. (omega (arith, m.at_idx_end, inv.has_header), inv.behind b m.to))
          (λ k ne h. inv.behind k h);
    within =
        put_ind (λ k es. k ≤ nhash → PairwiseApart es) b (e ∷ lists b) lists
          (λ h. (apart_all b m.to, inv.within b m.to)) (λ k ne h. inv.within k h);
    across =
        AcrossSlots-put nhash b (e ∷ lists b) lists inv.across
          (λ k h ne. (apart_all k h, inv.across b k m.to h (λ q. ne (sym q))));
    distinct = distinct;
  }
