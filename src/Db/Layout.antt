-- ===== src/Db/Layout.antt =====
-- How the index file of db.c is laid out: pointers, index records, and records linked in chains;
-- and the data record that an index record points to.
pub mod Read
pub mod Frame
pub mod Write
pub mod Redirect
pub mod Split
use my_study.Base.{ℕ, ◌+◌, ◌≤◌, ◌<◌, ◌≡◌, ◌⊎◌, List, [], ◌∷◌, ◌++◌, length, All}
use my_study.Base.Bytes.{Bytes, pad_decimal, long_max}
use my_study.Base.Bytes.Text.{Lacks}
use my_study.Posix.{slice}
use my_study.Db.State.{ptr_sz, ptr_max, idxlen_sz, idxlen_min, idxlen_max, datlen_max, sep, newline}
use my_study.Db.Records.{record_text}

-- The pointer field at `off` holds `v`.
pub record PtrAt (f : Bytes) (off v : ℕ) : Type 0 where
  pub inside : off + ptr_sz ≤ length f
  pub holds : slice f off ptr_sz ≡ pad_decimal ptr_sz v
  pub small : v ≤ ptr_max

-- A record: where its index record starts, its key, where its data record starts, and its data.
pub record Entry : Type 0 where
  pub off : ℕ
  pub key : Bytes
  pub datoff : ℕ
  pub text : Bytes

-- The length of the data record, with its newline.
abbrev pub datlen_of : Entry → ℕ
datlen_of e = length e.text + 1

abbrev pub text_of : Entry → Bytes
text_of e = record_text e.key e.datoff (datlen_of e)

-- The first byte behind an entry in the index file.
abbrev pub end_of : Entry → ℕ
end_of e = e.off + (ptr_sz + idxlen_sz) + length (text_of e)

-- What the fields of an index record must be for `_db_readidx` to accept it.
pub record IsRecord (key : Bytes) (datoff datlen : ℕ) : Type 0 where
  pub no_nul : Lacks 0 key
  pub no_sep : Lacks sep key
  pub long_enough : idxlen_min ≤ length (record_text key datoff datlen)
  pub short_enough : length (record_text key datoff datlen) ≤ idxlen_max
  pub datoff_fits : datoff ≤ long_max
  pub has_data : 1 ≤ datlen
  pub data_fits : datlen ≤ datlen_max

-- The index record of `e`, apart from its chain pointer.
pub record RecAt (f : Bytes) (e : Entry) : Type 0 where
  pub not_null : 0 < e.off
  pub fits : e.off ≤ ptr_max
  pub ends : end_of e ≤ length f
  pub len_holds : slice f (e.off + ptr_sz) idxlen_sz ≡ pad_decimal idxlen_sz (length (text_of e))
  pub text_holds : slice f (e.off + (ptr_sz + idxlen_sz)) (length (text_of e)) ≡ text_of e
  pub valid : IsRecord e.key e.datoff (datlen_of e)

-- The data record of `e`.
pub record DatAt (g : Bytes) (e : Entry) : Type 0 where
  pub inside : e.datoff + datlen_of e ≤ length g
  pub holds : slice g e.datoff (datlen_of e) ≡ e.text ++ (newline ∷ [])
  pub no_nul : Lacks 0 e.text

-- In the index file `f` and the data file `g` the pointer at `p` leads through the entries to `v`.
abbrev pub Seg : Bytes → Bytes → ℕ → List Entry → ℕ → Type 0
Seg f g p [] v = PtrAt f p v
Seg f g p (e ∷ es) v = PtrAt f p e.off × RecAt f e × DatAt g e × Seg f g e.off es v

-- A whole chain ends in a pointer of value 0.
abbrev pub Linked : Bytes → Bytes → ℕ → List Entry → Type 0
Linked f g p es = Seg f g p es 0

-- The offset of the first entry, or 0: what the pointer to a chain holds.
abbrev pub first_off : List Entry → ℕ
first_off [] = 0
first_off (e ∷ es) = e.off

-- The pointer that leads out of the entries behind the pointer at `p`.
abbrev pub last_ptr : ℕ → List Entry → ℕ
last_ptr p [] = p
last_ptr p (e ∷ es) = last_ptr e.off es

-- A chain without the pointer to it.
abbrev pub Rest : Bytes → Bytes → List Entry → Type 0
Rest f g [] = Unit
Rest f g (e ∷ es) = RecAt f e × DatAt g e × Linked f g e.off es
