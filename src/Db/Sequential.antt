-- ===== src/Db/Sequential.antt =====
-- `db_nextrec` on an index file whose records follow one another.
use mathlib.Core.Option
use my_study.Base.{
  ℕ, zero, suc, ◌+◌, ◌≤◌, ◌<◌, ◌≡◌, ◌∙◌, refl, sym, ap, subst, inl, inr, Bool, true, false, Option,
  none, some, List, [], ◌∷◌, arith, length, drop, if◌then◌else◌, Bool-cases, Option-cases, All,
}
use my_study.Base.Int.{pos, negsuc}
use my_study.Base.Bytes.{Bytes}
use my_study.Posix.{File, slice}
use my_study.Db.State.{Db, ok, seek_idx, read_idx, LockCall, idxfd, free_off}
use my_study.Db.Returns.{Returns, returns, bind, weaken}
use my_study.Db.Records.{readidx, seek_record}
use my_study.Db.Api.{all_blank, nextrec_loop, nextrec}
use my_study.Db.Layout.{Entry, PtrAt, RecAt, DatAt, end_of, datlen_of}
use my_study.Db.Layout.Read.{loaded, readidx-next, readdat-DatAt}

-- The index file from `off` on is the records of the entries, one behind the other.
abbrev pub Tiled : Bytes → ℕ → List Entry → Type 0
Tiled f off [] = length f ≤ off
Tiled f off (e ∷ es) =
    (e.off ≡ off) × RecAt f e × ((next : ℕ) × PtrAt f e.off next) × Tiled f (end_of e) es

-- The first record whose key is not blank, and the records behind it.
unfoldable pub first_live : List Entry → Option Entry
first_live [] = none
first_live (e ∷ es) = if all_blank e.key then first_live es else some e

unfoldable pub behind_live : List Entry → List Entry
behind_live [] = []
behind_live (e ∷ es) = if all_blank e.key then behind_live es else es

drop-past : (f : Bytes) (n : ℕ) → length f ≤ n → drop n f ≡ []
drop-past [] zero h = refl
drop-past [] (suc n) h = refl
drop-past (b ∷ f) zero h = absurd (omega arith)
drop-past (b ∷ f) (suc n) h = drop-past f n (omega arith)

-- At the end of the index file `_db_readidx` returns -1.
readidx-eof :
    (db : Db)
    → length db.idx.bytes ≤ db.idx.offset
    → readidx (pos 0) db
      ≡ ok (negsuc 0) (record db {
        idx = record { bytes = db.idx.bytes; offset = db.idx.offset + 0 };
        idxoff = db.idx.offset;
      })
unfolding readidx seek_record seek_idx read_idx slice
readidx-eof db h = rw (drop-past db.idx.bytes db.idx.offset h)

abbrev Found : Option Entry → Bool → Db → Type 0
Found none more db' = more ≡ false
Found (some e) more db' =
    (more ≡ true) × (db'.idxbuf ≡ e.key) × (db'.datoff ≡ e.datoff) × (db'.datlen ≡ datlen_of e)

-- What the loop of `db_nextrec` stops at.
abbrev Stopped : Db → List Entry → Bool → Db → Type 0
Stopped db es more db' =
    Found (first_live es) more db'
    × (db'.idx.bytes ≡ db.idx.bytes)
    × (db'.dat ≡ db.dat)
    × (db'.locks ≡ db.locks)
    × Tiled db'.idx.bytes db'.idx.offset (behind_live es)

Stopped-skip :
    (db : Db) (e : Entry) (es : List Entry) (next : ℕ)
    → all_blank e.key ≡ true
    → (more : Bool) (db' : Db) → Stopped (loaded db e next) es more db'
    → Stopped db (e ∷ es) more db'
unfolding first_live behind_live
Stopped-skip db e es next b more db' s = rw b s

Stopped-live :
    (db : Db) (e : Entry) (es : List Entry) (next : ℕ)
    → all_blank e.key ≡ false
    → Tiled db.idx.bytes (end_of e) es
    → Stopped db (e ∷ es) true (loaded db e next)
unfolding first_live behind_live
Stopped-live db e es next b t = rw b ((refl, refl, refl, refl), refl, refl, refl, t)

nextrec_loop-Stopped :
    (fuel : ℕ) (db : Db) (es : List Entry)
    → Tiled db.idx.bytes db.idx.offset es
    → length es < fuel
    → Returns (Stopped db es) (nextrec_loop fuel db)
unfolding nextrec_loop first_live behind_live
nextrec_loop-Stopped zero db es t h = absurd (omega arith)
nextrec_loop-Stopped (suc fuel) db [] t h =
    rw (readidx-eof db t) (returns (refl, refl, refl, refl, omega (arith, t)))
nextrec_loop-Stopped (suc fuel) db (e ∷ es) (here, r, (next, p), t) h =
    rw (readidx-next db e next r p (sym here)) (elim (Bool-cases (all_blank e.key)) [
      | inl b ↦ rw b (
          weaken (nextrec_loop-Stopped fuel (loaded db e next) es t (omega arith))
            (Stopped-skip db e es next b))
      | inr b ↦ rw b (returns (Stopped-live db e es next b t))
    ])

-- What `db_nextrec` promises.
abbrev pub Next : Db → List Entry → Option (Bytes × Bytes) → Db → Type 0
Next db es r db' =
    (r ≡ Option.map (λ e. (e.key, e.text)) (first_live es))
    × (db'.idx.bytes ≡ db.idx.bytes)
    × (db'.dat.bytes ≡ db.dat.bytes)
    × Tiled db'.idx.bytes db'.idx.offset (behind_live es)
    × (db'.locks
        ≡ LockCall.un_lock idxfd free_off 1 ∷ LockCall.readw_lock idxfd free_off 1 ∷ db.locks)

live-DatAt :
    (g : Bytes) (es : List Entry) (e : Entry)
    → All (DatAt g) es
    → first_live es ≡ some e
    → DatAt g e
unfolding first_live
live-DatAt g [] e h q = cc
live-DatAt g (d ∷ es) e (hd, hs) q = elim (Bool-cases (all_blank d.key)) [
  | inl b ↦
      let skip : first_live (d ∷ es) ≡ first_live es = rw b in live-DatAt g es e hs (sym skip ∙ q)
  | inr b ↦ let this : first_live (d ∷ es) ≡ some d = rw b in subst (DatAt g) (cc (sym this ∙ q)) hd
]

-- Where the index file is, from its offset on, a sequence of records whose data is there,
-- `db_nextrec` ends; it returns key and data of the first record whose key is not all blanks, and
-- NULL where there is none; the file is then positioned at the records behind that one; neither
-- file changes; and the free list is locked for reading and unlocked.
pub nextrec-first_live :
    (fuel : ℕ) (db : Db) (es : List Entry)
    → Tiled db.idx.bytes db.idx.offset es
    → All (DatAt db.dat.bytes) es
    → length es < fuel
    → Returns (Next db es) (nextrec fuel db)
unfolding nextrec
nextrec-first_live fuel db es t d h =
    bind
      (nextrec_loop-Stopped fuel
        (record db { locks = LockCall.readw_lock idxfd free_off 1 ∷ db.locks }) es t h)
      λ more db' s. elim (Option-cases (first_live es)) [
        | inl n ↦
            let no : more ≡ false = subst (λ o. Found o more db') n s.0 in
            rw no (returns (rw n refl, s.1, ap (λ (f : File). f.bytes) s.2, s.4, rw s.3))
        | inr (e, q) ↦
            let yes = subst (λ o. Found o more db') q s.0 in
            let there : DatAt db'.dat.bytes e = rw s.2 (live-DatAt db.dat.bytes es e d q) in
            rw (yes.0, readdat-DatAt db' e there yes.2 yes.3)
              (returns (rw (yes.1, q), s.1, ap (λ (f : File). f.bytes) s.2, s.4, rw s.3))
      ]
