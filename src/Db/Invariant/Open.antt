-- ===== src/Db/Invariant/Open.antt =====
-- `db_open` of a new database.
use my_study.Base.{
  ℕ, zero, suc, ◌+◌, ◌*◌, ◌<◌, ◌≡◌, refl, true, none, List, [], ◌∷◌, ◌++◌, append_assoc, arith,
  length, length-append, take-append_eq, drop-append_eq, drop-drop,
}
use my_study.Base.Bytes.{Bytes, pad_decimal}
use my_study.Base.Bytes.Decimal.{length-pad_decimal}
use my_study.Posix.{slice, write}
use my_study.Db.State.{Db, ptr_sz, nhash_def, newline, LockCall, idxfd, write_idx, seek_idx}
use my_study.Db.Returns.{Returns, returns}
use my_study.Db.Api.{zero_ptrs, init_index, rewind, setup, alloc}
use my_study.Db.Layout.{Entry}
use my_study.Db.Invariant.{IsOpen, header, value}
use my_study.Db.Invariant.Fetch.{stored}

zero_width : length (pad_decimal ptr_sz 0) ≡ ptr_sz
zero_width = length-pad_decimal 6 0 (omega arith)

length-zero_ptrs : (n : ℕ) → length (zero_ptrs n) ≡ n * ptr_sz
unfolding zero_ptrs
length-zero_ptrs zero = refl
length-zero_ptrs (suc n) =
    omega
      (arith, length-append (pad_decimal ptr_sz 0) (zero_ptrs n), zero_width, length-zero_ptrs n)

slice-zero_ptrs :
    (n k : ℕ) (t : Bytes)
    → k < n
    → slice (zero_ptrs n ++ t) (k * ptr_sz) ptr_sz ≡ pad_decimal ptr_sz 0
unfolding zero_ptrs slice
slice-zero_ptrs zero k t h = absurd (omega arith)
slice-zero_ptrs (suc n) zero t h =
    rw (append_assoc (pad_decimal ptr_sz 0) (zero_ptrs n) t)
      (take-append_eq (pad_decimal ptr_sz 0) (zero_ptrs n ++ t) zero_width)
slice-zero_ptrs (suc n) (suc k) t h =
    let e : suc k * ptr_sz ≡ ptr_sz + k * ptr_sz = omega arith in
    rw
      (
        append_assoc (pad_decimal ptr_sz 0) (zero_ptrs n) t,
        e,
        ← drop-drop ptr_sz (k * ptr_sz) (pad_decimal ptr_sz 0 ++ (zero_ptrs n ++ t)),
        drop-append_eq (pad_decimal ptr_sz 0) (zero_ptrs n ++ t) zero_width,
      )
      (slice-zero_ptrs n k t (omega arith))

-- The index file of an empty database.
abbrev pub fresh : Bytes
fresh = zero_ptrs (nhash_def + 1) ++ (newline ∷ [])

pub length-fresh : length fresh ≡ header nhash_def
length-fresh = omega (
  arith,
  length-append (zero_ptrs (nhash_def + 1)) (newline ∷ []),
  length-zero_ptrs (nhash_def + 1),
)

abbrev pub no_lists : ℕ → List Entry
no_lists k = []

pub fresh-IsOpen :
    (db : Db)
    → db.idx.bytes ≡ fresh
    → db.nhash ≡ nhash_def
    → db.hashoff ≡ ptr_sz
    → IsOpen db no_lists
fresh-IsOpen db e n h = record {
  files =
      rw (e, n)
        (record {
          has_chains = omega arith;
          has_header = omega (arith, length-fresh);
          linked = λ k le. record {
            inside = omega (arith, length-fresh);
            holds = slice-zero_ptrs (nhash_def + 1) k (newline ∷ []) (omega arith);
            small = omega arith;
          };
          behind = λ k le. tt;
          within = λ k le. tt;
          across = λ k m hk hm ne. tt;
          distinct = λ k h. tt;
        });
  table = h;
}

-- `db_open` with O_CREAT and O_TRUNC of files that are empty then writes a table of 138 null
-- pointers and a newline; the database is sound and holds no key, the index file is positioned
-- behind the table, and the lock of the whole file is given back.
pub setup-fresh :
    (name dat : Bytes)
    → Returns
        (λ _ db.
          (db.idx.bytes ≡ fresh)
          × (db.idx.offset ≡ header nhash_def)
          × (db.locks ≡ LockCall.un_lock idxfd 0 0 ∷ LockCall.writew_lock idxfd 0 0 ∷ [])
          × ((lists : ℕ → List Entry) × IsOpen db lists
              × ((key : Bytes) → stored db key lists ≡ none)))
        (setup true true (alloc name [] dat))
unfolding setup init_index rewind alloc write_idx seek_idx write value
setup-fresh name dat =
    returns (refl, refl, refl, (no_lists, fresh-IsOpen _ refl refl refl, λ key. refl))
