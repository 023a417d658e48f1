-- ===== src/Db/Invariant/Move/Reuse.antt =====
-- A move in the order of `_db_findfree` and `db_store`: the old chain, the record, the new slot.
use my_study.Base.{ℕ, ◌+◌, ◌*◌, ◌≤◌, ◌≢◌, sym, inr, List, [], ◌∷◌, arith, All}
use my_study.Base.Bytes.{Bytes}
use my_study.Posix.{overwrite}
use my_study.Posix.Transfers.{length-overwrite}
use my_study.Db.State.{ptr_sz, ptr_max}
use my_study.Db.Layout.{PtrAt, Entry, Rest, Seg, Linked, first_off, last_ptr}
use my_study.Db.Layout.Split.{Linked-first, Linked-Rest, Linked-join}
use my_study.Db.Layout.Frame.{PtrAt-frame, RecAt-frame}
use my_study.Db.Layout.Write.{
  ptr_bytes, length-ptr_bytes, PtrAt-write, rec_bytes, RecAt-write, dat_bytes, DatAt-write,
}
use my_study.Db.Layout.Redirect.{Seg-redirect}
use my_study.Db.Invariant.{Holds, header, ApartAll}
use my_study.Db.Invariant.Move.{Moves, Moved}
use my_study.Db.Invariant.Move.Frames.{
  Clear, slot_below, Rest-dat, Seg-dat, Rest-rec, Rest-slot, Rest-last, Seg-rec, Seg-slot,
  PtrAt-rec, PtrAt-slot, PtrAt-last,
}
use my_study.Db.Invariant.Move.Files

module _ (f g : Bytes) (nhash : ℕ) (lists : ℕ → List Entry) (inv : Holds f g nhash lists) (a b : ℕ)
    (before : List Entry) (e : Entry) (after : List Entry) (e' : Entry)
    (m : Moves nhash lists a b before e after e') where
  -- The index file after each write.
  abbrev pub unlinked : Bytes
  unlinked = overwrite f (last_ptr (a * ptr_sz) before) (ptr_bytes (first_off after))

  abbrev pub rewritten : Bytes
  rewritten = overwrite unlinked e'.off (rec_bytes e' (first_off (lists b)))

  abbrev pub chain_first : Bytes
  chain_first = overwrite rewritten (b * ptr_sz) (ptr_bytes e'.off)

  abbrev dat : Bytes
  dat = overwrite g e'.datoff (dat_bytes e')

  in_small : first_off (lists b) ≤ ptr_max
  in_small = Files.in_small f g nhash lists inv a b before e after e' m

  out_small : first_off after ≤ ptr_max
  out_small = Files.out_small f g nhash lists inv a b before e after e' m

  off_small : e'.off ≤ ptr_max
  off_small = Files.off_small f g nhash lists inv a b before e after e' m

  entry_behind : header nhash ≤ e.off
  entry_behind = Files.entry_behind f g nhash lists inv a b before e after e' m

  before_behind : All (λ d. header nhash ≤ d.off) before
  before_behind = Files.before_behind f g nhash lists inv a b before e after e' m

  Clear-after : Clear nhash before e after
  Clear-after = Files.Clear-after f g nhash lists inv a b before e after e' m

  Clear-others : (k : ℕ) → k ≤ nhash → k ≢ a → Clear nhash before e (lists k)
  Clear-others = Files.Clear-others f g nhash lists inv a b before e after e' m

  halves : ApartAll e before × ApartAll e after
  halves = Files.halves f g nhash lists inv a b before e after e' m

  b_ne_a : b ≢ a
  b_ne_a = Files.b_ne_a f g nhash lists inv a b before e after e' m

  Rest-chain_first :
      (es : List Entry) → Clear nhash before e es → Rest f g es → Rest chain_first dat es
  Rest-chain_first es c r =
      let i = m.in_place in
      Rest-slot nhash before e e' i rewritten dat es e'.off off_small b m.to c.of_table (
        Rest-rec nhash before e e' i unlinked dat es (first_off (lists b)) in_small m.valid c (
          Rest-dat nhash before e e' i unlinked g es c
            (Rest-last nhash before e e' i f g es (first_off after) out_small a m.from c r)))

  PtrAt-chain_first :
      (k v : ℕ)
      → k ≤ nhash
      → k ≢ a
      → k ≢ b
      → PtrAt f (k * ptr_sz) v
      → PtrAt chain_first (k * ptr_sz) v
  PtrAt-chain_first k v h na nb p =
      let i = m.in_place in
      PtrAt-slot nhash before e e' i rewritten g e'.off off_small k v h b (λ q. nb (sym q))
        (PtrAt-rec nhash before e e' i unlinked g (first_off (lists b)) in_small k v h entry_behind
          (PtrAt-last nhash before e e' i f g (first_off after) out_small k v h a (λ q. na (sym q))
            before_behind p))

  Seg-left : Seg chain_first dat (a * ptr_sz) before (first_off after)
  Seg-left =
      let i = m.in_place in
      let s = Files.split f g nhash lists inv a b before e after e' m in
      Seg-slot nhash before e e' i rewritten dat before e'.off off_small b a (first_off after) m.to
        b_ne_a before_behind
        (Seg-rec nhash before e e' i unlinked dat before (first_off (lists b)) in_small (a * ptr_sz)
          (first_off after) m.valid (omega (arith, slot_below nhash a m.from, entry_behind))
          halves.0
          (Seg-dat nhash before e e' i unlinked g before (a * ptr_sz) (first_off after) halves.0 (
            Seg-redirect f g (a * ptr_sz) before e.off (first_off after) out_small
              (Files.before_outside f g nhash lists inv a b before e after e' m)
              (Files.before_apart f g nhash lists inv a b before e after e' m) s.0)))

  joined_new : Linked chain_first dat (b * ptr_sz) (e' ∷ lists b)
  joined_new =
      let i = m.in_place in
      let s = Files.split f g nhash lists inv a b before e after e' m in
      let low : b * ptr_sz + ptr_sz ≤ e'.off =
        omega (arith, slot_below nhash b m.to, entry_behind, i.off) in
      let n = length-ptr_bytes e'.off off_small in
      let written =
        RecAt-write e' (first_off (lists b)) in_small m.valid unlinked
          (omega (arith, i.off, s.1.not_null)) off_small in
      (
        PtrAt-write rewritten (b * ptr_sz) e'.off off_small,
        RecAt-frame rewritten (b * ptr_sz) (ptr_bytes e'.off) e' (inr (omega (arith, n, low)))
            written.1,
        DatAt-write g e' m.no_nul,
        Linked-join chain_first dat e'.off [] (lists b)
            (PtrAt-frame rewritten (b * ptr_sz) (ptr_bytes e'.off) e'.off (first_off (lists b))
              (inr (omega (arith, n, low))) written.0)
            (Rest-chain_first (lists b) (Clear-others b m.to b_ne_a)
              (Linked-Rest f g (b * ptr_sz) (lists b) (inv.linked b m.to))),
      )

  pub Moved-chain_first : Moved chain_first dat nhash lists a b before e' after
  Moved-chain_first = record {
    has_header = omega (
      arith,
      inv.has_header,
      length-overwrite f (last_ptr (a * ptr_sz) before) (ptr_bytes (first_off after)),
      length-overwrite unlinked e'.off (rec_bytes e' (first_off (lists b))),
      length-overwrite rewritten (b * ptr_sz) (ptr_bytes e'.off),
    );
    others = λ k h na nb.
        Linked-join chain_first dat (k * ptr_sz) [] (lists k)
          (PtrAt-chain_first k (first_off (lists k)) h na nb
            (Linked-first f g (k * ptr_sz) (lists k) (inv.linked k h)))
          (Rest-chain_first (lists k) (Clear-others k h na)
            (Linked-Rest f g (k * ptr_sz) (lists k) (inv.linked k h)));
    left = Linked-join chain_first dat (a * ptr_sz) before after Seg-left (
        Rest-chain_first after Clear-after (
          Linked-Rest f g e.off after (Files.split f g nhash lists inv a b before e after e' m).3));
    joined = joined_new;
  }
