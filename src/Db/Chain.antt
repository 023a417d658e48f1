-- ===== src/Db/Chain.antt =====
-- The search along a hash chain: `_db_find_and_lock` finds the first record with the key.
use my_study.Base.{
  ℕ, zero, suc, ◌+◌, ◌*◌, ◌<◌, ◌≡◌, ◌≢◌, ◌⊎◌, inl, inr, refl, Bool, true, false, List, [], ◌∷◌,
  ◌++◌, arith, ne→==, Bool-cases, if◌then◌else◌, length, All, ap,
}
use my_study.Base.Int.{pos}
use my_study.Base.Bytes.{Bytes, str_eq}
use my_study.Base.Bytes.Text.{str_eq→eq, str_eq_refl, str_eq-ne}
use my_study.Db.State.{Db, ok, ptr_sz, LockCall, idxfd}
use my_study.Db.Search.{find_loop, find_and_lock, hash}
use my_study.Db.Layout.{Entry, Linked, first_off, last_ptr}
use my_study.Db.Layout.Split.{Linked-first, Seg-split}
use my_study.Db.Layout.Read.{loaded, readptr-PtrAt, readidx-RecAt}

abbrev pub Without : Bytes → List Entry → Type 0
Without key = All (λ e. e.key ≢ key)

-- The first entry with the key, and what stands before and behind it.
pub record Split (key : Bytes) (es : List Entry) : Type 0 where
  pub before : List Entry
  pub entry : Entry
  pub behind : List Entry
  pub whole : es ≡ before ++ (entry ∷ behind)
  pub others : Without key before
  pub same : entry.key ≡ key

pub chain_cases : (key : Bytes) (es : List Entry) → Without key es ⊎ Split key es
chain_cases key [] = inl tt
chain_cases key (e ∷ es) = elim (Bool-cases (str_eq e.key key)) [
  | inl h ↦ inr (record {
    before = [];
    entry = e;
    behind = es;
    whole = refl;
    others = tt;
    same = str_eq→eq e.key key h;
  })
  | inr h ↦ elim (chain_cases key es) [
    | inl w ↦ inl (differ h, w)
    | inr s ↦ inr (record {
      before = e ∷ s.before;
      entry = s.entry;
      behind = s.behind;
      whole = ap (λ l. e ∷ l) s.whole;
      others = (differ h, s.others);
      same = s.same;
    })
  ]
]
  where
    differ : str_eq e.key key ≡ false → e.key ≢ key
    differ h q = cc (h, str_eq_refl key, ap (λ k. str_eq k key) q)

-- The handle after all the entries behind the pointer at `p` were read.
unfoldable pub passed : Db → ℕ → List Entry → Db
passed db p [] = record db { ptroff = pos p }
passed db p (e ∷ es) = passed (loaded db e (first_off es)) e.off es

pub passed_kept :
    (db : Db) (p : ℕ) (es : List Entry)
    → ((passed db p es).idx.bytes ≡ db.idx.bytes)
      × ((passed db p es).dat ≡ db.dat)
      × ((passed db p es).chainoff ≡ db.chainoff)
      × ((passed db p es).nhash ≡ db.nhash)
      × ((passed db p es).hashoff ≡ db.hashoff)
      × ((passed db p es).locks ≡ db.locks)
unfolding passed
passed_kept db p [] = (refl, refl, refl, refl, refl, refl)
passed_kept db p (e ∷ es) = passed_kept (loaded db e (first_off es)) e.off es

find_loop-none :
    (fuel : ℕ) (key : Bytes) (p : ℕ) (es : List Entry) (db : Db)
    → Linked db.idx.bytes db.dat.bytes p es
    → Without key es
    → length es < fuel
    → find_loop fuel key (pos (first_off es)) (record db { ptroff = pos p })
      ≡ ok (pos 0) (passed db p es)
unfolding find_loop passed
find_loop-none zero key p es db l w h = absurd (omega arith)
find_loop-none (suc fuel) key p [] db l w h = refl
find_loop-none (suc fuel) key p (e ∷ es) db (_, r, _, l) (ne, w) h =
    rw
      (
        ne→== e.off 0 (omega (arith, r.not_null)),
        readidx-RecAt (record db { ptroff = pos p }) e (first_off es) r
            (Linked-first db.idx.bytes db.dat.bytes e.off es l),
        str_eq-ne e.key key ne,
      )
      (find_loop-none fuel key e.off es (loaded db e (first_off es)) l w (omega arith))

find_loop-some :
    (fuel : ℕ) (key : Bytes) (p : ℕ) (before : List Entry) (e : Entry) (es : List Entry) (db : Db)
    → Linked db.idx.bytes db.dat.bytes p (before ++ (e ∷ es))
    → Without key before
    → e.key ≡ key
    → length before < fuel
    → find_loop fuel key (pos (first_off (before ++ (e ∷ es)))) (record db { ptroff = pos p })
      ≡ ok (pos e.off) (loaded (record db { ptroff = pos (last_ptr p before) }) e (first_off es))
unfolding find_loop
find_loop-some zero key p before e es db l w same h = absurd (omega arith)
find_loop-some (suc fuel) key p [] e es db (_, r, _, l) w same h = rw (
  ne→== e.off 0 (omega (arith, r.not_null)),
  readidx-RecAt (record db { ptroff = pos p }) e (first_off es) r
      (Linked-first db.idx.bytes db.dat.bytes e.off es l),
  same,
  str_eq_refl key,
)
find_loop-some (suc fuel) key p (d ∷ before) e es db (_, r, _, l) (ne, w) same h =
    let next = first_off (before ++ (e ∷ es)) in
    rw
      (
        ne→== d.off 0 (omega (arith, r.not_null)),
        readidx-RecAt (record db { ptroff = pos p }) d next r
            (Linked-first db.idx.bytes db.dat.bytes d.off (before ++ (e ∷ es)) l),
        str_eq-ne d.key key ne,
      )
      (find_loop-some fuel key d.off before e es (loaded db d next) l w same (omega arith))

-- The chain pointer of a key.
abbrev pub bucket : Db → Bytes → ℕ
bucket db key = hash db.nhash key * ptr_sz + db.hashoff

-- The handle once the chain of the key is locked.
abbrev pub at_bucket : Db → Bytes → Bool → Db
at_bucket db key writelock = record db {
  idx = record { bytes = db.idx.bytes; offset = bucket db key + ptr_sz };
  chainoff = bucket db key;
  locks =
      (if writelock
        then LockCall.writew_lock idxfd (bucket db key) 1
        else LockCall.readw_lock idxfd (bucket db key) 1)
      ∷ db.locks;
}

module _ (fuel : ℕ) (key : Bytes) (writelock : Bool) (db : Db) where
  start : Db
  start = record (at_bucket db key writelock) { idx = db.idx; ptroff = pos (bucket db key) }

  pub find_and_lock-none :
      (es : List Entry)
      → Linked db.idx.bytes db.dat.bytes (bucket db key) es
      → Without key es
      → length es < fuel
      → find_and_lock fuel key writelock db
        ≡ ok false (passed (at_bucket db key writelock) (bucket db key) es)
  unfolding find_and_lock start
  find_and_lock-none es l w h = rw (
    readptr-PtrAt start (bucket db key) (first_off es)
        (Linked-first db.idx.bytes db.dat.bytes (bucket db key) es l),
    find_loop-none fuel key (bucket db key) es (at_bucket db key writelock) l w h,
  )

  -- Where the chain of the key holds a record with the key, and none before it, the search locks the
  -- chain, stops at that record with its fields loaded, and remembers the pointer that leads to it;
  -- one round of the loop more than there are records before it is enough.
  pub find_and_lock-some :
      (before : List Entry) (e : Entry) (es : List Entry)
      → Linked db.idx.bytes db.dat.bytes (bucket db key) (before ++ (e ∷ es))
      → Without key before
      → e.key ≡ key
      → length before < fuel
      → find_and_lock fuel key writelock db
        ≡ ok true (
            loaded
              (record (at_bucket db key writelock) {
                ptroff = pos (last_ptr (bucket db key) before);
              })
              e
              (first_off es))
  unfolding find_and_lock start
  find_and_lock-some before e es l w same h =
      let found = Seg-split db.idx.bytes db.dat.bytes (bucket db key) before e es l in
      rw (
        readptr-PtrAt start (bucket db key) (first_off (before ++ (e ∷ es)))
            (Linked-first db.idx.bytes db.dat.bytes (bucket db key) (before ++ (e ∷ es)) l),
        find_loop-some fuel key (bucket db key) before e es (at_bucket db key writelock) l w same h,
        ne→== e.off 0 (omega (arith, found.1.not_null)),
      )
