-- ===== src/Db/Invariant.antt =====
-- The invariant of a database: every slot of the pointer table leads through the records of a list,
-- and the records of all lists lie apart in both files. Slot 0 is the free list, slot `k + 1` the
-- chain of hash value `k`.
pub mod Fetch
pub mod Slots
pub mod Move
pub mod Views
pub mod Delete
pub mod Append
pub mod Rewrite
pub mod Insert
pub mod Store
pub mod Open
use my_study.Base.{
  ℕ, zero, suc, ◌+◌, ◌*◌, ◌%◌, ◌≤◌, ◌<◌, ◌≡◌, ◌≢◌, ◌⊎◌, refl, Option, none, some, List, [], ◌∷◌,
  arith, length, All, if◌then◌else◌,
}
use native.Mathlib.Nat.{mod-lt}
use my_study.Base.Bytes.{Bytes, str_eq}
use my_study.Db.State.{Db, ptr_sz}
use my_study.Db.Search.{hash, hash_loop}
use my_study.Db.Layout.{Entry, Linked, end_of, datlen_of}

-- Two records share no byte, neither of the index file nor of the data file.
pub record Apart (d e : Entry) : Type 0 where
  pub in_idx : (end_of d ≤ e.off) ⊎ (end_of e ≤ d.off)
  pub in_dat : (d.datoff + datlen_of d ≤ e.datoff) ⊎ (e.datoff + datlen_of e ≤ d.datoff)

abbrev pub ApartAll : Entry → List Entry → Type 0
ApartAll d = All (Apart d)

abbrev pub PairwiseApart : List Entry → Type 0
PairwiseApart [] = Unit
PairwiseApart (e ∷ es) = ApartAll e es × PairwiseApart es

abbrev pub DistinctKeys : List Entry → Type 0
DistinctKeys [] = Unit
DistinctKeys (e ∷ es) = All (λ d. d.key ≢ e.key) es × DistinctKeys es

-- The first byte behind the pointer table and its newline.
abbrev pub header : ℕ → ℕ
header nhash = (nhash + 1) * ptr_sz + 1

pub record Holds (f g : Bytes) (nhash : ℕ) (lists : ℕ → List Entry) : Type 0 where
  pub has_chains : 0 < nhash
  pub has_header : header nhash ≤ length f
  pub linked : (k : ℕ) → k ≤ nhash → Linked f g (k * ptr_sz) (lists k)
  pub behind : (k : ℕ) → k ≤ nhash → All (λ e. header nhash ≤ e.off) (lists k)
  pub within : (k : ℕ) → k ≤ nhash → PairwiseApart (lists k)
  pub across : (k m : ℕ) → k ≤ nhash → m ≤ nhash → k ≢ m → All (λ e. ApartAll e (lists m)) (lists k)
  pub distinct : (k : ℕ) → k < nhash → DistinctKeys (lists (suc k))

-- A handle on such files.
pub record IsOpen (db : Db) (lists : ℕ → List Entry) : Type 0 where
  pub files : Holds db.idx.bytes db.dat.bytes db.nhash lists
  pub table : db.hashoff ≡ ptr_sz

-- The slot of a key.
abbrev pub slot : Db → Bytes → ℕ
slot db key = suc (hash db.nhash key)

-- The data of the first record with the key: the abstract view of a chain.
unfoldable pub value : Bytes → List Entry → Option Bytes
value key [] = none
value key (e ∷ es) = if str_eq e.key key then some e.text else value key es

-- The hash value of a key is below the size of the table.
pub hash-lt : (nhash : ℕ) (key : Bytes) → 0 < nhash → hash nhash key < nhash
unfolding hash
hash-lt nhash key h = mod-lt (hash_loop 0 1 key) h

-- More rounds than the longest chain has records.
abbrev pub Enough : ℕ → (ℕ → List Entry) → Type 0
Enough fuel lists = (k : ℕ) → length (lists k) < fuel
