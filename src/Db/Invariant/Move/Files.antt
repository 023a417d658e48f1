-- ===== src/Db/Invariant/Move/Files.antt =====
-- A move in the order of `_db_dodelete`: the record, the new slot, the old chain; and the facts
-- about a move that the other order shares.
use my_study.Base.{
  ℕ, ◌+◌, ◌*◌, ◌≤◌, ◌≢◌, sym, subst, inl, inr, List, [], ◌∷◌, arith, All, All-map, All-split,
}
use my_study.Base.Bytes.{Bytes}
use my_study.Posix.{overwrite}
use my_study.Posix.Transfers.{length-overwrite}
use my_study.Db.State.{ptr_sz, ptr_max}
use my_study.Db.Layout.{PtrAt, Entry, RecAt, DatAt, Seg, Linked, Rest, first_off, last_ptr, end_of}
use my_study.Db.Layout.Split.{Linked-first, Linked-Rest, Seg-split, Linked-join}
use my_study.Db.Layout.Frame.{Outside, PtrAt-frame, RecAt-frame}
use my_study.Db.Layout.Write.{
  ptr_bytes, length-ptr_bytes, PtrAt-write, rec_bytes, RecAt-write, dat_bytes, DatAt-write,
  last_ptr-Outside, StartsOutside,
}
use my_study.Db.Layout.Redirect.{IdxApart, Seg-redirect}
use my_study.Db.Invariant.{Holds, header, Apart, ApartAll, PairwiseApart}
use my_study.Db.Invariant.Move.{Moves, Moved, parts, left_behind, apart_others, before_others}
use my_study.Db.Invariant.Move.Frames.{
  Clear, slot_below, Rest-dat, Seg-dat, Rest-rec, Rest-slot, Rest-last, Seg-rec, Seg-slot,
  PtrAt-rec, PtrAt-slot, PtrAt-last,
}

idx_apart : (es : List Entry) → PairwiseApart es → IdxApart es
idx_apart [] p = tt
idx_apart (e ∷ es) (a, p) = (All-map es (λ d x. omega (arith, x.in_idx)) a, idx_apart es p)

module _ (f g : Bytes) (nhash : ℕ) (lists : ℕ → List Entry) (inv : Holds f g nhash lists) (a b : ℕ)
    (before : List Entry) (e : Entry) (after : List Entry) (e' : Entry)
    (m : Moves nhash lists a b before e after e') where
  pub split : Seg f g (a * ptr_sz) before e.off × RecAt f e × DatAt g e × Linked f g e.off after
  split =
      Seg-split f g (a * ptr_sz) before e after
        (subst (Linked f g (a * ptr_sz)) m.whole (inv.linked a m.from))

  -- The pointers that the move writes: into the old chain, the record, and the new slot.
  abbrev pub out_ptr : ℕ
  out_ptr = first_off after

  abbrev pub in_ptr : ℕ
  in_ptr = first_off (lists b)

  pub out_small : out_ptr ≤ ptr_max
  out_small = (Linked-first f g e.off after split.3).small

  pub in_small : in_ptr ≤ ptr_max
  in_small = (Linked-first f g (b * ptr_sz) (lists b) (inv.linked b m.to)).small

  pub off_small : e'.off ≤ ptr_max
  off_small = omega (arith, m.in_place.off, split.1.fits)

  pub entry_behind : header nhash ≤ e.off
  entry_behind = (left_behind f g nhash lists inv a b before e after e' m).1.0

  pub before_behind : All (λ d. header nhash ≤ d.off) before
  before_behind = (left_behind f g nhash lists inv a b before e after e' m).0

  pub Clear-others : (k : ℕ) → k ≤ nhash → k ≢ a → Clear nhash before e (lists k)
  Clear-others k h ne = record {
    of_entry = apart_others f g nhash lists inv a b before e after e' m k h ne;
    of_table = inv.behind k h;
    of_before = before_others f g nhash lists inv a b before e after e' m k h ne;
  }

  pub halves : ApartAll e before × ApartAll e after
  halves = All-split (Apart e) before after (parts f g nhash lists inv a b before e after e' m).1

  pub Clear-after : Clear nhash before e after
  Clear-after = record {
    of_entry = halves.1;
    of_table = (left_behind f g nhash lists inv a b before e after e' m).1.1;
    of_before = (parts f g nhash lists inv a b before e after e' m).2;
  }

  pub b_ne_a : b ≢ a
  b_ne_a q = m.differ (sym q)

  pub before_apart : IdxApart before
  before_apart = idx_apart before (parts f g nhash lists inv a b before e after e' m).3

  pub before_outside : StartsOutside (a * ptr_sz) (a * ptr_sz + ptr_sz) before
  before_outside =
      All-map before (λ d le. inl (omega (arith, slot_below nhash a m.from))) before_behind

  -- The pointer at the end of `before` lies apart from the moved record.
  pub last-Outside : Outside (last_ptr (a * ptr_sz) before) ptr_sz e'.off (end_of e')
  last-Outside =
      last_ptr-Outside e'.off (end_of e') (a * ptr_sz) before
        (inr (omega (arith, slot_below nhash a m.from, m.in_place.off, entry_behind)))
        (All-map before (λ d x. omega (arith, x.in_idx, m.in_place.off, m.in_place.size)) halves.0)

  -- `_db_dodelete`: the record, the new slot, the old chain.
  abbrev pub record_first : Bytes
  record_first =
      overwrite
        (overwrite (overwrite f e'.off (rec_bytes e' in_ptr)) (b * ptr_sz) (ptr_bytes e'.off))
        (last_ptr (a * ptr_sz) before) (ptr_bytes out_ptr)

  abbrev pub data_after : Bytes
  data_after = overwrite g e'.datoff (dat_bytes e')

  Rest-record_first :
      (es : List Entry) → Clear nhash before e es → Rest f g es → Rest record_first data_after es
  Rest-record_first es c r =
      let i = m.in_place in
      Rest-last nhash before e e' i _ data_after es out_ptr out_small a m.from c (
        Rest-slot nhash before e e' i _ data_after es e'.off off_small b m.to c.of_table (
          Rest-rec nhash before e e' i f data_after es in_ptr in_small m.valid c
            (Rest-dat nhash before e e' i f g es c r)))

  PtrAt-record_first :
      (k v : ℕ)
      → k ≤ nhash
      → k ≢ a
      → k ≢ b
      → PtrAt f (k * ptr_sz) v
      → PtrAt record_first (k * ptr_sz) v
  PtrAt-record_first k v h na nb p =
      let i = m.in_place in
      PtrAt-last nhash before e e' i _ g out_ptr out_small k v h a (λ q. na (sym q)) before_behind
        (PtrAt-slot nhash before e e' i _ g e'.off off_small k v h b (λ q. nb (sym q))
          (PtrAt-rec nhash before e e' i f g in_ptr in_small k v h entry_behind p))

  written :
      PtrAt (overwrite f e'.off (rec_bytes e' in_ptr)) e'.off in_ptr
      × RecAt (overwrite f e'.off (rec_bytes e' in_ptr)) e'
  written =
      RecAt-write e' in_ptr in_small m.valid f (omega (arith, m.in_place.off, split.1.not_null))
        off_small

  pub Moved-record_first : Moved record_first data_after nhash lists a b before e' after
  Moved-record_first =
      let i = m.in_place in
      let f1 = overwrite f e'.off (rec_bytes e' in_ptr) in
      let f2 = overwrite f1 (b * ptr_sz) (ptr_bytes e'.off) in
      let n = length-ptr_bytes e'.off off_small in
      let n' = length-ptr_bytes out_ptr out_small in
      record {
        has_header = omega (
          arith,
          inv.has_header,
          length-overwrite f e'.off (rec_bytes e' in_ptr),
          length-overwrite f1 (b * ptr_sz) (ptr_bytes e'.off),
          length-overwrite f2 (last_ptr (a * ptr_sz) before) (ptr_bytes out_ptr),
        );
        others = λ k h na nb.
            Linked-join record_first data_after (k * ptr_sz) [] (lists k)
              (PtrAt-record_first k (first_off (lists k)) h na nb
                (Linked-first f g (k * ptr_sz) (lists k) (inv.linked k h)))
              (Rest-record_first (lists k) (Clear-others k h na)
                (Linked-Rest f g (k * ptr_sz) (lists k) (inv.linked k h)));
        left =
            Linked-join record_first data_after (a * ptr_sz) before after
              (Seg-redirect f2 data_after (a * ptr_sz) before e.off out_ptr out_small before_outside
                before_apart
                (Seg-slot nhash before e e' i f1 data_after before e'.off off_small b a e.off m.to
                  b_ne_a before_behind
                  (Seg-rec nhash before e e' i f data_after before in_ptr in_small (a * ptr_sz)
                    e.off m.valid (omega (arith, slot_below nhash a m.from, entry_behind)) halves.0
                    (Seg-dat nhash before e e' i f g before (a * ptr_sz) e.off halves.0 split.0))))
              (Rest-record_first after Clear-after (Linked-Rest f g e.off after split.3));
        joined = (
          PtrAt-last nhash before e e' i f2 g out_ptr out_small b e'.off m.to a m.differ
              before_behind (PtrAt-write f1 (b * ptr_sz) e'.off off_small),
          RecAt-frame f2 (last_ptr (a * ptr_sz) before) (ptr_bytes out_ptr) e'
              (omega (arith, last-Outside, n'))
              (RecAt-frame f1 (b * ptr_sz) (ptr_bytes e'.off) e'
                (inr (omega (arith, n, slot_below nhash b m.to, entry_behind, i.off))) written.1),
          DatAt-write g e' m.no_nul,
          Linked-join record_first data_after e'.off [] (lists b)
              (PtrAt-frame f2 (last_ptr (a * ptr_sz) before) (ptr_bytes out_ptr) e'.off in_ptr
                (omega (arith, last-Outside, n'))
                (PtrAt-frame f1 (b * ptr_sz) (ptr_bytes e'.off) e'.off in_ptr
                  (inr (omega (arith, n, slot_below nhash b m.to, entry_behind, i.off))) written.0))
              (Rest-record_first (lists b) (Clear-others b m.to b_ne_a)
                (Linked-Rest f g (b * ptr_sz) (lists b) (inv.linked b m.to))),
        );
      }
