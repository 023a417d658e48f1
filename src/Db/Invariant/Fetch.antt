-- ===== src/Db/Invariant/Fetch.antt =====
-- `db_fetch` returns what the abstract view holds.
use my_study.Base.{
  ℕ, ◌*◌, ◌<◌, ◌≡◌, refl, inl, inr, false, none, some, List, [], ◌∷◌, ◌++◌, arith, length,
  length-append, subst, ap, sym, ◌∙◌, Option,
}
use my_study.Base.Int.{pos}
use my_study.Base.Bytes.{Bytes}
use my_study.Base.Bytes.Text.{str_eq_refl, str_eq-ne}
use my_study.Posix.{File}
use my_study.Db.State.{Db, ptr_sz, LockCall, idxfd}
use my_study.Db.Returns.{Returns, returns}
use my_study.Db.Api.{fetch}
use my_study.Db.Layout.{Entry, Linked, first_off, last_ptr}
use my_study.Db.Layout.Split.{Seg-split}
use my_study.Db.Layout.Read.{loaded, readdat-DatAt}
use my_study.Db.Chain.{
  Without, Split, chain_cases, passed_kept, bucket, at_bucket, find_and_lock-none,
  find_and_lock-some,
}
use my_study.Db.Invariant.{IsOpen, Enough, value, slot, hash-lt}

pub value-Without : (key : Bytes) (es : List Entry) → Without key es → value key es ≡ none
unfolding value
value-Without key [] w = refl
value-Without key (e ∷ es) (ne, w) = simp (str_eq-ne e.key key ne) (value-Without key es w)

pub value-found :
    (key : Bytes) (before : List Entry) (e : Entry) (es : List Entry)
    → Without key before
    → e.key ≡ key
    → value key (before ++ (e ∷ es)) ≡ some e.text
unfolding value
value-found key [] e es w same = simp (same, str_eq_refl)
value-found key (d ∷ before) e es (ne, w) same =
    simp (str_eq-ne d.key key ne) (value-found key before e es w same)

-- What one call leaves as it was: the files, and the chains in them.
pub record Same (db db' : Db) : Type 0 where
  pub idx : db'.idx.bytes ≡ db.idx.bytes
  pub dat : db'.dat.bytes ≡ db.dat.bytes
  pub nhash : db'.nhash ≡ db.nhash
  pub hashoff : db'.hashoff ≡ db.hashoff

pub IsOpen-Same :
    {db db' : Db} {lists : ℕ → List Entry} → Same db db' → IsOpen db lists → IsOpen db' lists
IsOpen-Same s o = record { files = rw (s.idx, s.dat, s.nhash) o.files; table = s.hashoff ∙ o.table }

-- The bucket of a key stands at its slot.
pub bucket-slot :
    (db : Db) (key : Bytes) {lists : ℕ → List Entry}
    → IsOpen db lists
    → bucket db key ≡ slot db key * ptr_sz
bucket-slot db key o = omega (arith, o.table)

pub Linked-at_bucket :
    (db : Db) (key : Bytes) {lists : ℕ → List Entry}
    → IsOpen db lists
    → Linked db.idx.bytes db.dat.bytes (bucket db key) (lists (slot db key))
Linked-at_bucket db key {lists} o =
    subst (λ p. Linked db.idx.bytes db.dat.bytes p (lists (slot db key)))
      (sym (bucket-slot db key o))
      (o.files.linked (slot db key) (hash-lt db.nhash key o.files.has_chains))

-- The lock calls of a call that locks the bucket and unlocks it again.
abbrev pub bracketed : LockCall → Db → Bytes → List LockCall
bracketed lock db key = LockCall.un_lock idxfd (bucket db key) 1 ∷ lock ∷ db.locks

-- The text that the abstract view holds under the key.
abbrev pub stored : Db → Bytes → (ℕ → List Entry) → Option Bytes
stored db key lists = value key (lists (slot db key))

pub stored-Split :
    (db : Db) (key : Bytes) (lists : ℕ → List Entry) (s : Split key (lists (slot db key)))
    → stored db key lists ≡ some s.entry.text
stored-Split db key lists s =
    ap (value key) s.whole ∙ value-found key s.before s.entry s.behind s.others s.same

-- What `db_fetch` promises: the result, unchanged files, and the lock calls.
abbrev pub Fetched : Db → Bytes → Option Bytes → Option Bytes → Db → Type 0
Fetched db key v r db' =
    (r ≡ v)
    × Same db db'
    × (db'.locks ≡ bracketed (LockCall.readw_lock idxfd (bucket db key) 1) db key)

fetch-none :
    (fuel : ℕ) (key : Bytes) (db : Db) (lists : ℕ → List Entry)
    → IsOpen db lists
    → Enough fuel lists
    → Without key (lists (slot db key))
    → Returns (Fetched db key none) (fetch fuel key db)
unfolding fetch
fetch-none fuel key db lists o enough w =
    let es = lists (slot db key) in
    let kept = passed_kept (at_bucket db key false) (bucket db key) es in
    rw
      (find_and_lock-none fuel key false db es (Linked-at_bucket db key o) w (enough (slot db key)))
      (returns (
        refl,
        record {
          idx = kept.0;
          dat = ap (λ (f : File). f.bytes) kept.1;
          nhash = kept.3;
          hashoff = kept.4;
        },
        cc (kept.2, kept.5),
      ))

fetch-some :
    (fuel : ℕ) (key : Bytes) (db : Db) (lists : ℕ → List Entry)
    → IsOpen db lists
    → Enough fuel lists
    → (s : Split key (lists (slot db key)))
    → Returns (Fetched db key (some s.entry.text)) (fetch fuel key db)
unfolding fetch
fetch-some fuel key db lists o enough s =
    let l =
      subst (Linked db.idx.bytes db.dat.bytes (bucket db key)) s.whole
        (Linked-at_bucket db key o) in
    let at_entry =
      Seg-split db.idx.bytes db.dat.bytes (bucket db key) s.before s.entry s.behind l in
    let short : length s.before < fuel = omega (
      arith,
      enough (slot db key),
      ap length s.whole,
      length-append s.before (s.entry ∷ s.behind),
    ) in
    rw
      (
        find_and_lock-some fuel key false db s.before s.entry s.behind l s.others s.same short,
        readdat-DatAt
            (loaded
              (record (at_bucket db key false) { ptroff = pos (last_ptr (bucket db key) s.before) })
              s.entry (first_off s.behind))
            s.entry at_entry.2 refl refl,
      )
      (returns (refl, record { idx = refl; dat = refl; nhash = refl; hashoff = refl }, refl))

-- `db_fetch` ends; it returns the data that the database holds under the key, and none where there
-- is no such record; it changes neither file; and it unlocks the one byte that it locks.
pub fetch-stored :
    (fuel : ℕ) (key : Bytes) (db : Db) (lists : ℕ → List Entry)
    → IsOpen db lists
    → Enough fuel lists
    → Returns (Fetched db key (stored db key lists)) (fetch fuel key db)
fetch-stored fuel key db lists o enough = elim (chain_cases key (lists (slot db key))) [
  | inl w ↦ rw (value-Without key (lists (slot db key)) w) (fetch-none fuel key db lists o enough w)
  | inr s ↦ rw (stored-Split db key lists s) (fetch-some fuel key db lists o enough s)
]
