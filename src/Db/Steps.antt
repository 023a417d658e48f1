-- ===== src/Db/Steps.antt =====
-- The writing functions of db.c, on arguments that they accept.
use my_study.Base.{
  ℕ, ◌+◌, ◌*◌, ◌≤◌, ◌≡◌, refl, [], ◌∷◌, ◌++◌, arith, length, length-append, le→leb, le→ltb,
}
use my_study.Base.Int.{pos}
use my_study.Base.Bytes.{Bytes, pad_decimal, decimal}
use my_study.Posix.{overwrite}
use my_study.Db.State.{
  Db, ok, ptr_sz, ptr_max, idxlen_sz, idxlen_min, idxlen_max, newline, sep, seek_idx, seek_dat,
  write_idx, write_dat, LockCall, idxfd, datfd,
}
use my_study.Db.Records.{at, at_end, writedat, writeidx, writeptr, format_record, record_text}
use my_study.Db.Layout.{IsRecord}

-- The bytes that `_db_writeidx` writes.
abbrev pub record_bytes : Bytes → ℕ → ℕ → ℕ → Bytes
record_bytes key datoff datlen v =
    pad_decimal ptr_sz v
    ++ (pad_decimal idxlen_sz (length (record_text key datoff datlen))
        ++ record_text key datoff datlen)

pub length-record_text :
    (key : Bytes) (datoff datlen : ℕ)
    → length (record_text key datoff datlen)
      ≡ length key + length (decimal datoff) + length (decimal datlen) + 3
unfolding record_text
length-record_text key datoff datlen = omega (
  arith,
  length-append key (sep ∷ (decimal datoff ++ (sep ∷ (decimal datlen ++ (newline ∷ []))))),
  length-append (decimal datoff) (sep ∷ (decimal datlen ++ (newline ∷ []))),
  length-append (decimal datlen) (newline ∷ []),
)

abbrev pub idx_written : Db → ℕ → Bytes → Db
idx_written db off d = record db {
  idx = record { bytes = overwrite db.idx.bytes off d; offset = off + length d };
}

abbrev pub dat_written : Db → ℕ → Bytes → Db
dat_written db off d = record db {
  dat = record { bytes = overwrite db.dat.bytes off d; offset = off + length d };
}

pub writeptr-ok :
    (db : Db) (off v : ℕ)
    → v ≤ ptr_max
    → writeptr (pos off) (pos v) db ≡ ok tt (idx_written db off (pad_decimal ptr_sz v))
unfolding writeptr seek_idx write_idx
writeptr-ok db off v h = rw (le→ltb ptr_max v h)

-- The handle after `_db_writedat`, at an offset and at the end.
abbrev pub data_at : Db → Bytes → ℕ → Db
data_at db text off = record (dat_written db off (text ++ (newline ∷ []))) {
  datoff = off;
  datlen = length text + 1;
}

abbrev pub data_at_end : Db → Bytes → Db
data_at_end db text = record (dat_written db (length db.dat.bytes) (text ++ (newline ∷ []))) {
  datoff = length db.dat.bytes;
  datlen = length text + 1;
  locks = LockCall.un_lock datfd 0 0 ∷ LockCall.writew_lock datfd 0 0 ∷ db.locks;
}

-- The handle after `_db_writeidx`, at an offset and at the end.
abbrev pub index_at : Db → Bytes → ℕ → ℕ → Db
index_at db key v off = record (idx_written db off (record_bytes key db.datoff db.datlen v)) {
  idxbuf = record_text key db.datoff db.datlen;
  ptrval = pos v;
  idxoff = off;
}

abbrev pub index_at_end : Db → Bytes → ℕ → Db
index_at_end db key v = record (index_at db key v (length db.idx.bytes)) {
  locks =
      LockCall.un_lock idxfd ((db.nhash + 1) * ptr_sz + 1) 0
      ∷ LockCall.writew_lock idxfd ((db.nhash + 1) * ptr_sz + 1) 0
      ∷ db.locks;
}

pub writedat-at :
    (db : Db) (text : Bytes) (off : ℕ) → writedat text (at off) db ≡ ok tt (data_at db text off)
unfolding writedat seek_dat write_dat
writedat-at db text off = refl

pub writedat-at_end :
    (db : Db) (text : Bytes) → writedat text at_end db ≡ ok tt (data_at_end db text)
unfolding writedat seek_dat write_dat
writedat-at_end db text = refl

module _ (db : Db) (key : Bytes) (v : ℕ) (k : IsRecord key db.datoff db.datlen)
    (h : v ≤ ptr_max) where
  format_record-ok :
      format_record key (pos v) db
      ≡ ok
          (v, record_text key db.datoff db.datlen)
          (record db { idxbuf = record_text key db.datoff db.datlen; ptrval = pos v })
  unfolding format_record
  format_record-ok =
      let n = length (record_text key db.datoff db.datlen) in
      rw (
        le→ltb ptr_max v h,
        le→leb (n + 1) (idxlen_max + 2) (omega (arith, k.short_enough)),
        le→leb idxlen_min n k.long_enough,
        le→leb n idxlen_max k.short_enough,
      )

  pub writeidx-at : (off : ℕ) → writeidx key (at off) (pos v) db ≡ ok tt (index_at db key v off)
  unfolding writeidx seek_idx write_idx
  writeidx-at off = rw format_record-ok

  pub writeidx-at_end : writeidx key at_end (pos v) db ≡ ok tt (index_at_end db key v)
  unfolding writeidx seek_idx write_idx
  writeidx-at_end = rw format_record-ok
