-- ===== src/Db/Invariant/Delete.antt =====
-- `db_delete` removes the key from the abstract view, and gives its record to the free list.
use my_study.Base.{
  ℕ, suc, ◌+◌, ◌-◌, ◌*◌, ◌≤◌, ◌<◌, ◌≡◌, ◌≢◌, ◌∙◌, refl, sym, subst, ap, inl, inr, Bool, true, false,
  Option, none, some, List, [], ◌∷◌, ◌++◌, arith, length, length-append, length-replicate,
  replicate, All-replicate,
}
use my_study.Base.Int.{pos}
use my_study.Base.Bytes.{Bytes}
use my_study.Posix.{File, overwrite}
use my_study.Posix.Transfers.{length-overwrite_inside}
use my_study.Db.State.{Db, ptr_sz, ptr_max, LockCall, idxfd, space, sep, free_off, newline}
use my_study.Db.Returns.{Returns, returns, bind}
use my_study.Db.Api.{delete, dodelete}
use my_study.Db.Steps.{writedat-at, writeidx-at, writeptr-ok, length-record_text}
use my_study.Db.Layout.{
  Entry, PtrAt, IsRecord, Linked, RecAt, DatAt, Seg, first_off, last_ptr, datlen_of,
}
use my_study.Db.Layout.Write.{
  ptr_bytes, rec_bytes, dat_bytes, length-ptr_bytes, length-rec_bytes, length-dat_bytes,
}
use my_study.Db.Layout.Split.{Linked-first, Seg-split, Seg-last}
use my_study.Db.Layout.Read.{loaded, readptr-PtrAt}
use my_study.Db.Chain.{
  Without, Split, chain_cases, passed_kept, bucket, at_bucket, find_and_lock-none,
  find_and_lock-some,
}
use my_study.Db.Invariant.{IsOpen, Enough, DistinctKeys, value, slot, hash-lt}
use my_study.Db.Invariant.Slots.{put, put_self, put_ne, put_ind, DistinctKeys-split}
use my_study.Db.Invariant.Fetch.{
  IsOpen-Same, stored-Split, bucket-slot, Linked-at_bucket, stored, value-Without,
}
use my_study.Db.Invariant.Move.{InPlace, Moves, moved_lists, Holds-Moved}
use my_study.Db.Invariant.Move.Files.{Moved-record_first}
use my_study.Db.Invariant.Views.{removed, removed-absent, stored-removed, Without-rest}

-- The record of the free list that stands where `e` stood: key and data are blanks.
abbrev pub blank : Entry → Entry
blank e = record e { key = replicate (length e.key) space; text = replicate (length e.text) space }

blank-InPlace : (e : Entry) → InPlace e (blank e)
blank-InPlace e = record {
  off = refl;
  datoff = refl;
  size = rw (length-replicate (length e.text) space) (
      omega (
        arith,
        length-record_text (replicate (length e.key) space) e.datoff (datlen_of e),
        length-record_text e.key e.datoff (datlen_of e),
        length-replicate (length e.key) space,
      ));
  datlen = length-replicate (length e.text) space;
}

blank-IsRecord :
    (e : Entry)
    → IsRecord e.key e.datoff (datlen_of e)
    → IsRecord (blank e).key e.datoff (datlen_of (blank e))
blank-IsRecord e k = record {
  no_nul = All-replicate (λ c. c ≢ 0) (length e.key) space (omega arith);
  no_sep = All-replicate (λ c. c ≢ sep) (length e.key) space (omega arith);
  long_enough = omega (arith, (blank-InPlace e).size, k.long_enough);
  short_enough = omega (arith, (blank-InPlace e).size, k.short_enough);
  datoff_fits = k.datoff_fits;
  has_data = omega arith;
  data_fits = omega (arith, length-replicate (length e.text) space, k.data_fits);
}

-- The handle after `_db_dodelete` on the record of `e`.
module _ (db : Db) (e : Entry) (next free last : ℕ) where
  abbrev pub before_delete : Db
  before_delete = record (loaded db e next) { ptroff = pos last }

  -- The same with the buffers blank, the free list locked and the data record written.
  abbrev wiped : Db
  wiped = record before_delete {
    dat = record {
      bytes = overwrite db.dat.bytes e.datoff ((blank e).text ++ (newline ∷ []));
      offset = e.datoff + length ((blank e).text ++ (newline ∷ []));
    };
    idxbuf = (blank e).key;
    datbuf = (blank e).text;
    datlen = datlen_of (blank e);
    locks = LockCall.writew_lock idxfd free_off 1 ∷ db.locks;
  }

  -- What `_db_dodelete` leaves in the files, and its lock calls.
  abbrev pub Wiped : Unit {0} → Db → Type 0
  Wiped _ db' =
      (db'.idx.bytes
        ≡ overwrite
            (overwrite (overwrite db.idx.bytes e.off (rec_bytes (blank e) free)) free_off
              (ptr_bytes e.off))
            last (ptr_bytes next))
      × (db'.dat.bytes ≡ overwrite db.dat.bytes e.datoff (dat_bytes (blank e)))
      × (db'.nhash ≡ db.nhash)
      × (db'.hashoff ≡ db.hashoff)
      × (db'.chainoff ≡ db.chainoff)
      × (db'.locks
          ≡ LockCall.un_lock idxfd free_off 1 ∷ LockCall.writew_lock idxfd free_off 1 ∷ db.locks)

  pub dodelete-ok :
      IsRecord e.key e.datoff (datlen_of e)
      → next ≤ ptr_max
      → e.off ≤ ptr_max
      → PtrAt db.idx.bytes free_off free
      → Returns Wiped (dodelete before_delete)
  unfolding dodelete
  dodelete-ok r next_small off_small head =
      let len : datlen_of e - 1 ≡ length e.text = omega arith in
      rw
        (
          len,
          writedat-at,
          readptr-PtrAt wiped free_off free head,
          writeidx-at
              (record wiped { idx = record { bytes = db.idx.bytes; offset = free_off + ptr_sz } })
              (blank e).key free (blank-IsRecord e r) head.small e.off,
          writeptr-ok _ free_off e.off off_small,
          writeptr-ok _ last next next_small,
        )
        (returns (refl, refl, refl, refl, refl, refl))

-- The record that the search found, and the free list, in the files of a database.
module _ (db : Db) (key : Bytes) (lists : ℕ → List Entry) (o : IsOpen db lists)
    (s : Split key (lists (slot db key))) where
  in_table : slot db key ≤ db.nhash
  in_table = hash-lt db.nhash key o.files.has_chains

  moves : Moves db.nhash lists (slot db key) 0 s.before s.entry s.behind (blank s.entry)
  moves =
      let at_entry =
        Seg-split db.idx.bytes db.dat.bytes (slot db key * ptr_sz) s.before s.entry s.behind (
          subst (Linked db.idx.bytes db.dat.bytes (slot db key * ptr_sz)) s.whole
            (o.files.linked (slot db key) in_table)) in
      record {
        from = in_table;
        to = omega arith;
        differ = omega arith;
        whole = s.whole;
        in_place = blank-InPlace s.entry;
        valid = blank-IsRecord s.entry at_entry.1.valid;
        no_nul = All-replicate (λ c. c ≢ 0) (length s.entry.text) space (omega arith);
      }

  -- The lists once the record is free.
  abbrev pub freed : ℕ → List Entry
  freed = moved_lists lists (slot db key) 0 s.before (blank s.entry) s.behind

  freed-distinct : (k : ℕ) → k < db.nhash → DistinctKeys (freed (suc k))
  freed-distinct k h =
      subst DistinctKeys
        (sym (put_ne 0 _ (put (slot db key) (s.before ++ s.behind) lists) (suc k) (omega arith)))
        (put_ind (λ j es. j ≡ suc k → DistinctKeys es) (slot db key) (s.before ++ s.behind) lists
          (λ q.
            (DistinctKeys-split s.before s.entry s.behind
              (subst DistinctKeys s.whole (o.files.distinct _ in_table))).0)
          (λ j ne q. subst (λ i. DistinctKeys (lists i)) (sym q) (o.files.distinct k h)) (suc k)
          refl)

  pub freed-stored :
      (db' : Db) (k : Bytes)
      → db'.nhash ≡ db.nhash
      → stored db' k freed ≡ removed key (λ k. stored db k lists) k
  freed-stored db' k n = rw n (
      ap (value k)
        (put_ne 0 _ (put (slot db key) (s.before ++ s.behind) lists) (slot db k) (omega arith))
      ∙ stored-removed db key lists s.before s.entry s.behind k s.whole s.same
          (o.files.distinct _ in_table))

  whole_split :
      Seg db.idx.bytes db.dat.bytes (slot db key * ptr_sz) s.before s.entry.off
      × RecAt db.idx.bytes s.entry
      × DatAt db.dat.bytes s.entry
      × Linked db.idx.bytes db.dat.bytes s.entry.off s.behind
  whole_split =
      Seg-split db.idx.bytes db.dat.bytes (slot db key * ptr_sz) s.before s.entry s.behind (
        subst (Linked db.idx.bytes db.dat.bytes (slot db key * ptr_sz)) s.whole
          (o.files.linked (slot db key) in_table))

  at_entry : RecAt db.idx.bytes s.entry × PtrAt db.idx.bytes s.entry.off (first_off s.behind)
  at_entry =
      (whole_split.1, Linked-first db.idx.bytes db.dat.bytes s.entry.off s.behind whole_split.3)

  free_head : PtrAt db.idx.bytes 0 (first_off (lists 0))
  free_head = Linked-first db.idx.bytes db.dat.bytes 0 (lists 0) (o.files.linked 0 (omega arith))

  -- The handle once the search has found the record.
  abbrev pub found_db : Db
  found_db =
      before_delete (at_bucket db key true) s.entry (first_off s.behind) (first_off (lists 0))
        (last_ptr (bucket db key) s.before)

  pub dodelete_found :
      Returns
        (Wiped
          (at_bucket db key true)
          s.entry
          (first_off s.behind)
          (first_off (lists 0))
          (last_ptr (bucket db key) s.before))
        (dodelete found_db)
  dodelete_found =
      dodelete-ok (at_bucket db key true) s.entry (first_off s.behind) (first_off (lists 0))
        (last_ptr (bucket db key) s.before) at_entry.0.valid at_entry.1.small at_entry.0.fits
        free_head

  pub IsOpen-freed :
      (db' : Db)
      → Wiped
          (at_bucket db key true)
          s.entry
          (first_off s.behind)
          (first_off (lists 0))
          (last_ptr (bucket db key) s.before)
          tt
          db'
      → IsOpen db' freed
  IsOpen-freed db' w = record {
    files =
        rw (w.0, w.1, w.2, bucket-slot db key o)
          (Holds-Moved db.idx.bytes db.dat.bytes db.nhash lists o.files (slot db key) 0 s.before
            s.entry s.behind (blank s.entry) moves _ _
            (Moved-record_first db.idx.bytes db.dat.bytes db.nhash lists o.files (slot db key) 0
              s.before s.entry s.behind (blank s.entry) moves)
            freed-distinct);
    table = w.3 ∙ o.table;
  }

  -- The files keep their lengths.
  pub freed-lengths :
      (db' : Db)
      → Wiped
          (at_bucket db key true)
          s.entry
          (first_off s.behind)
          (first_off (lists 0))
          (last_ptr (bucket db key) s.before)
          tt
          db'
      → (length db'.idx.bytes ≡ length db.idx.bytes) × (length db'.dat.bytes ≡ length db.dat.bytes)
  freed-lengths db' w =
      let f = db.idx.bytes in
      let e' = blank s.entry in
      let v = first_off (lists 0) in
      let last = last_ptr (bucket db key) s.before in
      let f1 = overwrite f s.entry.off (rec_bytes e' v) in
      let f2 = overwrite f1 free_off (ptr_bytes s.entry.off) in
      let n1 = length-rec_bytes e' v free_head.small (blank-IsRecord s.entry at_entry.0.valid) in
      let n2 = length-ptr_bytes s.entry.off at_entry.0.fits in
      let n3 = length-ptr_bytes (first_off s.behind) at_entry.1.small in
      let at_last : PtrAt f last s.entry.off =
        rw (bucket-slot db key o)
          (Seg-last f db.dat.bytes (slot db key * ptr_sz) s.before s.entry.off whole_split.0) in
      let l1 : length f1 ≡ length f =
        length-overwrite_inside f s.entry.off (rec_bytes e' v)
          (omega (arith, n1, (blank-InPlace s.entry).size, at_entry.0.ends)) in
      let l2 : length f2 ≡ length f1 =
        length-overwrite_inside f1 free_off (ptr_bytes s.entry.off)
          (omega (arith, n2, l1, free_head.inside)) in
      let l3 : length (overwrite f2 last (ptr_bytes (first_off s.behind))) ≡ length f2 =
        length-overwrite_inside f2 last (ptr_bytes (first_off s.behind))
          (omega (arith, n3, l1, l2, at_last.inside)) in
      (
        ap length w.0 ∙ l3 ∙ l2 ∙ l1,
        ap length w.1
            ∙ length-overwrite_inside db.dat.bytes s.entry.datoff (dat_bytes e') (
                omega (
                  arith,
                  length-dat_bytes e',
                  length-replicate (length s.entry.text) space,
                  whole_split.2.inside,
                )),
      )

  pub freed-absent : Without key (freed (slot db key))
  freed-absent =
      subst (Without key)
        (sym (
          put_ne 0 (blank s.entry ∷ lists 0) (put (slot db key) (s.before ++ s.behind) lists)
            (slot db key) (omega arith)
          ∙ put_self (slot db key) (s.before ++ s.behind) lists))
        (Without-rest key s.before s.entry s.behind s.same
          (subst DistinctKeys s.whole (o.files.distinct _ in_table)))

abbrev pub is_some : Option Bytes → Bool
is_some none = false
is_some (some _) = true

-- The lock calls on the free list, the latest first.
abbrev pub free_locks : Bool → List LockCall
free_locks true = LockCall.un_lock idxfd free_off 1 ∷ LockCall.writew_lock idxfd free_off 1 ∷ []
free_locks false = []

-- What `db_delete` promises: it says whether the key was there; afterwards the database holds the
-- same map without the key; and it unlocks what it locks.
abbrev pub Deleted : Db → Bytes → (ℕ → List Entry) → Bool → Db → Type 0
Deleted db key lists r db' =
    (r ≡ is_some (stored db key lists))
    × ((lists' : ℕ → List Entry) × IsOpen db' lists'
        × ((k : Bytes) → stored db' k lists' ≡ removed key (λ k. stored db k lists) k))
    × (db'.locks
        ≡ LockCall.un_lock idxfd (bucket db key) 1
          ∷ (free_locks r ++ (LockCall.writew_lock idxfd (bucket db key) 1 ∷ db.locks)))

delete-some :
    (fuel : ℕ) (key : Bytes) (db : Db) (lists : ℕ → List Entry)
    → IsOpen db lists
    → Enough fuel lists
    → (s : Split key (lists (slot db key))) → Returns (Deleted db key lists) (delete fuel key db)
unfolding delete
delete-some fuel key db lists o enough s =
    let l =
      subst (Linked db.idx.bytes db.dat.bytes (bucket db key)) s.whole
        (Linked-at_bucket db key o) in
    let short : length s.before < fuel = omega (
      arith,
      enough (slot db key),
      ap length s.whole,
      length-append s.before (s.entry ∷ s.behind),
    ) in
    rw (find_and_lock-some fuel key true db s.before s.entry s.behind l s.others s.same short) (
      bind
        (bind
          {Q = λ _ db'.
            Wiped (at_bucket db key true) s.entry (first_off s.behind) (first_off (lists 0))
              (last_ptr (bucket db key) s.before) tt db'}
          (dodelete_found db key lists o s) (λ _ db' w. returns w))
        λ _ db' w. returns (
          ap is_some (sym (stored-Split db key lists s)),
          (
            freed db key lists o s,
            IsOpen-Same (record { idx = refl; dat = refl; nhash = refl; hashoff = refl })
                (IsOpen-freed db key lists o s db' w),
            λ k. freed-stored db key lists o s db' k w.2,
          ),
          cc (w.4, w.5),
        ))

delete-none :
    (fuel : ℕ) (key : Bytes) (db : Db) (lists : ℕ → List Entry)
    → IsOpen db lists
    → Enough fuel lists
    → Without key (lists (slot db key))
    → Returns (Deleted db key lists) (delete fuel key db)
unfolding delete
delete-none fuel key db lists o enough w =
    let es = lists (slot db key) in
    let kept = passed_kept (at_bucket db key true) (bucket db key) es in
    let none_there = value-Without key es w in
    rw (find_and_lock-none fuel key true db es (Linked-at_bucket db key o) w (enough (slot db key)))
      (returns (
        ap is_some (sym none_there),
        (
          lists,
          IsOpen-Same {db = db}
              (record {
                idx = kept.0;
                dat = ap (λ (f : File). f.bytes) kept.1;
                nhash = kept.3;
                hashoff = kept.4;
              })
              o,
          λ k. rw kept.3 (absent k none_there),
        ),
        cc (kept.2, kept.5),
      ))
  where
    absent :
        (k : Bytes)
        → stored db key lists ≡ none
        → stored db k lists ≡ removed key (λ k. stored db k lists) k
    absent k h = removed-absent key k (λ k. stored db k lists) h

-- `db_delete` ends; it returns 0 where the key is there and -1 where it is not; afterwards the
-- database is sound and holds the same map without the key; it unlocks all that it locks, the free
-- list where it frees a record and the chain of the key.
pub delete-removed :
    (fuel : ℕ) (key : Bytes) (db : Db) (lists : ℕ → List Entry)
    → IsOpen db lists
    → Enough fuel lists
    → Returns (Deleted db key lists) (delete fuel key db)
delete-removed fuel key db lists o enough = elim (chain_cases key (lists (slot db key))) [
  | inl w ↦ delete-none fuel key db lists o enough w
  | inr s ↦ delete-some fuel key db lists o enough s
]
