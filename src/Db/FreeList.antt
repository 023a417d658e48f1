-- ===== src/Db/FreeList.antt =====
-- `_db_findfree` unlinks the first free record of the wanted sizes.
use my_study.Base.{
  ℕ, zero, suc, ◌+◌, ◌<◌, ◌≡◌, ◌⊎◌, inl, inr, refl, ap, Bool, true, false, ◌&&◌, List, [], ◌∷◌,
  ◌++◌, arith, ne→==, Bool-cases, length, ◌==◌, All,
}
use my_study.Base.Int.{pos}
use my_study.Base.Bytes.{pad_decimal}
use my_study.Db.State.{Db, ok, ptr_sz, LockCall, idxfd, free_off}
use my_study.Db.Search.{free_loop, findfree}
use my_study.Db.Steps.{writeptr-ok, idx_written}
use my_study.Db.Layout.{Entry, Linked, first_off, last_ptr, datlen_of}
use my_study.Db.Layout.Split.{Linked-first, Seg-split}
use my_study.Db.Layout.Read.{loaded, readptr-PtrAt, readidx-RecAt}

-- The test of the loop.
abbrev pub fits : ℕ → ℕ → Entry → Bool
fits keylen datlen e = length e.key == keylen && datlen_of e == datlen

abbrev pub NoneFits : ℕ → ℕ → List Entry → Type 0
NoneFits keylen datlen = All (λ e. fits keylen datlen e ≡ false)

-- The first record that fits, and what stands before and behind it.
pub record FreeSplit (keylen datlen : ℕ) (es : List Entry) : Type 0 where
  pub before : List Entry
  pub entry : Entry
  pub behind : List Entry
  pub whole : es ≡ before ++ (entry ∷ behind)
  pub others : NoneFits keylen datlen before
  pub same : fits keylen datlen entry ≡ true

pub free_cases :
    (keylen datlen : ℕ) (es : List Entry) → NoneFits keylen datlen es ⊎ FreeSplit keylen datlen es
free_cases keylen datlen [] = inl tt
free_cases keylen datlen (e ∷ es) = elim (Bool-cases (fits keylen datlen e)) [
  | inl h ↦
      inr (record { before = []; entry = e; behind = es; whole = refl; others = tt; same = h })
  | inr h ↦ elim (free_cases keylen datlen es) [
    | inl w ↦ inl (h, w)
    | inr s ↦ inr (record {
      before = e ∷ s.before;
      entry = s.entry;
      behind = s.behind;
      whole = ap (λ l. e ∷ l) s.whole;
      others = (h, s.others);
      same = s.same;
    })
  ]
]

-- The handle after all the entries were read.
unfoldable pub read_all : Db → List Entry → Db
read_all db [] = db
read_all db (e ∷ es) = read_all (loaded db e (first_off es)) es

pub read_all_kept :
    (db : Db) (es : List Entry)
    → ((read_all db es).idx.bytes ≡ db.idx.bytes)
      × ((read_all db es).dat ≡ db.dat)
      × ((read_all db es).chainoff ≡ db.chainoff)
      × ((read_all db es).nhash ≡ db.nhash)
      × ((read_all db es).hashoff ≡ db.hashoff)
      × ((read_all db es).locks ≡ db.locks)
unfolding read_all
read_all_kept db [] = (refl, refl, refl, refl, refl, refl)
read_all_kept db (e ∷ es) = read_all_kept (loaded db e (first_off es)) es

-- The handle with the free list locked and its pointer read.
abbrev pub at_free : Db → Db
at_free db = record db {
  idx = record { bytes = db.idx.bytes; offset = free_off + ptr_sz };
  locks = LockCall.writew_lock idxfd free_off 1 ∷ db.locks;
}

module _ (keylen datlen : ℕ) where
  free_loop-none :
      (fuel p : ℕ) (es : List Entry) (db : Db)
      → Linked db.idx.bytes db.dat.bytes p es
      → NoneFits keylen datlen es
      → length es < fuel
      → free_loop fuel keylen datlen (pos p) (pos (first_off es)) db
        ≡ ok (pos (last_ptr p es), pos 0) (read_all db es)
  unfolding free_loop read_all
  free_loop-none zero p es db l w h = absurd (omega arith)
  free_loop-none (suc fuel) p [] db l w h = refl
  free_loop-none (suc fuel) p (e ∷ es) db (_, r, _, l) (ne, w) h =
      rw
        (
          ne→== e.off 0 (omega (arith, r.not_null)),
          readidx-RecAt db e (first_off es) r (Linked-first db.idx.bytes db.dat.bytes e.off es l),
          ne,
        )
        (free_loop-none fuel e.off es (loaded db e (first_off es)) l w (omega arith))

  free_loop-some :
      (fuel p : ℕ) (before : List Entry) (e : Entry) (es : List Entry) (db : Db)
      → Linked db.idx.bytes db.dat.bytes p (before ++ (e ∷ es))
      → NoneFits keylen datlen before
      → fits keylen datlen e ≡ true
      → length before < fuel
      → free_loop fuel keylen datlen (pos p) (pos (first_off (before ++ (e ∷ es)))) db
        ≡ ok (pos (last_ptr p before), pos e.off) (loaded db e (first_off es))
  unfolding free_loop
  free_loop-some zero p before e es db l w same h = absurd (omega arith)
  free_loop-some (suc fuel) p [] e es db (_, r, _, l) w same h = rw (
    ne→== e.off 0 (omega (arith, r.not_null)),
    readidx-RecAt db e (first_off es) r (Linked-first db.idx.bytes db.dat.bytes e.off es l),
    same,
  )
  free_loop-some (suc fuel) p (d ∷ before) e es db (_, r, _, l) (ne, w) same h =
      let next = first_off (before ++ (e ∷ es)) in
      rw
        (
          ne→== d.off 0 (omega (arith, r.not_null)),
          readidx-RecAt db d next r
              (Linked-first db.idx.bytes db.dat.bytes d.off (before ++ (e ∷ es)) l),
          ne,
        )
        (free_loop-some fuel d.off before e es (loaded db d next) l w same (omega arith))

  module _ (fuel : ℕ) (db : Db) where
    pub findfree-none :
        (es : List Entry)
        → Linked db.idx.bytes db.dat.bytes free_off es
        → NoneFits keylen datlen es
        → length es < fuel
        → findfree fuel keylen datlen db
          ≡ ok false (record (read_all (at_free db) es) {
            locks = LockCall.un_lock idxfd free_off 1 ∷ (read_all (at_free db) es).locks;
          })
    unfolding findfree
    findfree-none es l w h = rw (
      readptr-PtrAt (record db { locks = LockCall.writew_lock idxfd free_off 1 ∷ db.locks })
          free_off (first_off es) (Linked-first db.idx.bytes db.dat.bytes free_off es l),
      free_loop-none fuel free_off es (at_free db) l w h,
    )

    pub findfree-some :
        (before : List Entry) (e : Entry) (es : List Entry)
        → Linked db.idx.bytes db.dat.bytes free_off (before ++ (e ∷ es))
        → NoneFits keylen datlen before
        → fits keylen datlen e ≡ true
        → length before < fuel
        → findfree fuel keylen datlen db
          ≡ ok true
              (record (idx_written
                (loaded (at_free db) e (first_off es))
                (last_ptr free_off before)
                (pad_decimal ptr_sz (first_off es))) {
                  locks =
                      LockCall.un_lock idxfd free_off 1
                      ∷ LockCall.writew_lock idxfd free_off 1
                      ∷ db.locks;
                })
    unfolding findfree
    findfree-some before e es l w same h =
        let s = Seg-split db.idx.bytes db.dat.bytes free_off before e es l in
        rw (
          readptr-PtrAt (record db { locks = LockCall.writew_lock idxfd free_off 1 ∷ db.locks })
              free_off (first_off (before ++ (e ∷ es)))
              (Linked-first db.idx.bytes db.dat.bytes free_off (before ++ (e ∷ es)) l),
          free_loop-some fuel free_off before e es (at_free db) l w same h,
          ne→== e.off 0 (omega (arith, s.1.not_null)),
          writeptr-ok (loaded (at_free db) e (first_off es)) (last_ptr free_off before)
              (first_off es) (Linked-first db.idx.bytes db.dat.bytes e.off es s.3).small,
        )
