-- ===== src/Db/Records.antt =====
-- The functions of db.c that read and write one pointer, index record or data record.
use my_study.Base.{
  ℕ, ◌+◌, ◌-◌, Bool, false, ◌&&◌, ◌||◌, none, some, [], ◌∷◌, ◌++◌, ltb, leb, ◌==◌, if◌then◌else◌,
  length, take, drop, get_elem?, ◌*◌,
}
use my_study.Base.Int.{ℤ, pos, negsuc}
use my_study.Base.Bytes.{Bytes, c_string, split_at, atol, decimal, pad_decimal}
use my_study.Db.State.{
  M, Error, pure, fail, ◌>>=◌, ◌>>◌, get, modify, check, require, natural, call_lock, LockCall,
  idxfd, datfd, seek_idx, seek_dat, read_idx, read_dat, write_idx, write_dat, ptr_sz, ptr_max,
  idxlen_sz, idxlen_min, idxlen_max, datlen_max, sep, newline,
}

abbrev pub is_zero : ℤ → Bool
is_zero (pos n) = n == 0
is_zero (negsuc n) = false

-- `_db_readptr`
unfoldable pub readptr : ℤ → M ℤ
readptr offset = do
  seek_idx offset
  asciiptr ← read_idx ptr_sz
  check (length asciiptr == ptr_sz) Error.read_error
  pure (atol asciiptr)

-- The sanity check `buf[len - 1] != NEWLINE`, and the bytes before the newline.
unfoldable pub ends_in_newline : Bytes → ℕ → Bool
ends_in_newline buf len = elim (get_elem? buf (len - 1)) [ none ↦ false | some c ↦ c == newline ]

-- The checks on the length fields: `idxlen` and `datlen` are unsigned, so a negative value is
-- larger than any limit.
unfoldable pub bounded : Error → ℕ → ℕ → ℤ → M ℕ
bounded e lo hi (pos n) = if ltb n lo || ltb hi n then fail e else pure n
bounded e lo hi (negsuc n) = fail e

-- Position the index file; offset 0 means the current offset.
unfoldable pub seek_record : ℤ → M ℕ
seek_record offset = do
  db ← get
  if is_zero offset then seek_idx (pos db.idx.offset) else seek_idx offset

-- The separators, and the fields behind them.
unfoldable pub parse_record : Bytes → M (Bytes × ℕ × ℕ)
parse_record text = do
  (key, rest) ← require Error.missing_first_separator (split_at sep text)
  (start, len) ← require Error.missing_second_separator (split_at sep rest)
  elim (split_at sep len) [ none ↦ pure tt | some _ ↦ fail Error.too_many_separators ]
  datoff ← natural Error.negative_offset (atol start)
  datlen ← bounded Error.invalid_length 1 datlen_max (atol len)
  pure (key, datoff, datlen)

-- `_db_readidx` from the length field on.
unfoldable pub read_record : ℕ → Bytes → M ℤ
unfolding ends_in_newline bounded parse_record
read_record idxoff front = do
  let ptrval = atol (take ptr_sz front)
  idxlen ← bounded Error.invalid_length idxlen_min idxlen_max (atol (drop ptr_sz front))
  buf ← read_idx idxlen
  check (length buf == idxlen) Error.read_error
  check (ends_in_newline buf idxlen) Error.missing_newline
  (key, datoff, datlen) ← parse_record (c_string (take (idxlen - 1) buf))
  modify λ db. record db {
    idxbuf = key;
    idxoff = idxoff;
    idxlen = idxlen;
    datoff = datoff;
    datlen = datlen;
    ptrval = ptrval;
  }
  pure ptrval

-- `_db_readidx`: -1 at the end of the file, if the offset was 0.
unfoldable pub readidx : ℤ → M ℤ
unfolding seek_record read_record
readidx offset = do
  idxoff ← seek_record offset
  front ← read_idx (ptr_sz + idxlen_sz)
  if length front == ptr_sz + idxlen_sz
      then read_record idxoff front
      else if length front == 0 && is_zero offset
      then modify (λ db. record db { idxoff = idxoff }) >> pure (negsuc 0)
      else fail Error.read_error

-- `_db_readdat`
unfoldable pub readdat : M Bytes
unfolding ends_in_newline
readdat = do
  db ← get
  seek_dat db.datoff
  buf ← read_dat db.datlen
  check (length buf == db.datlen) Error.read_error
  check (ends_in_newline buf db.datlen) Error.missing_newline
  modify (λ db. record db { datbuf = c_string (take (db.datlen - 1) buf) })
  pure (c_string (take (db.datlen - 1) buf))

-- The `whence` of the two writers: an offset, or the end of the file.
pub data Place : Type 0 where
  at : ℕ → Place
  at_end : Place

-- `_db_writedat`
unfoldable pub writedat : Bytes → Place → M (Unit {0})
writedat text (at offset) = do
  datoff ← seek_dat offset
  modify (λ db. record db { datoff = datoff; datlen = length text + 1 })
  write_dat (text ++ (newline ∷ []))
writedat text at_end = do
  call_lock (LockCall.writew_lock datfd 0 0)
  db ← get
  datoff ← seek_dat (length db.dat.bytes)
  modify (λ db. record db { datoff = datoff; datlen = length text + 1 })
  write_dat (text ++ (newline ∷ []))
  call_lock (LockCall.un_lock datfd 0 0)

-- What sprintf puts into `idxbuf`.
unfoldable pub record_text : Bytes → ℕ → ℕ → Bytes
record_text key datoff datlen =
    key ++ (sep ∷ (decimal datoff ++ (sep ∷ (decimal datlen ++ (newline ∷ [])))))

-- The range checks of `_db_writeidx` and `_db_writeptr` on a pointer.
unfoldable pub valid_ptr : ℤ → M ℕ
valid_ptr (pos n) = if ltb ptr_max n then fail Error.invalid_ptr else pure n
valid_ptr (negsuc n) = fail Error.invalid_ptr

-- `_db_writeidx` up to the lock: the record's text, in a buffer of IDXLEN_MAX + 2 bytes.
unfoldable pub format_record : Bytes → ℤ → M (ℕ × Bytes)
unfolding valid_ptr record_text
format_record key ptrval = do
  value ← valid_ptr ptrval
  db ← get
  let text = record_text key db.datoff db.datlen
  check (leb (length text + 1) (idxlen_max + 2)) Error.overflow
  modify (λ db. record db { idxbuf = text; ptrval = ptrval })
  check (leb idxlen_min (length text) && leb (length text) idxlen_max) Error.invalid_length
  pure (value, text)

-- The two parts that writev writes.
unfoldable pub write_record : ℕ → Bytes → M (Unit {0})
write_record value text =
    write_idx (pad_decimal ptr_sz value ++ (pad_decimal idxlen_sz (length text) ++ text))

-- `_db_writeidx`
unfoldable pub writeidx : Bytes → Place → ℤ → M (Unit {0})
unfolding write_record
writeidx key (at offset) ptrval = do
  (value, text) ← format_record key ptrval
  idxoff ← seek_idx (pos offset)
  modify (λ db. record db { idxoff = idxoff })
  write_record value text
writeidx key at_end ptrval = do
  (value, text) ← format_record key ptrval
  db ← get
  let start = (db.nhash + 1) * ptr_sz + 1
  call_lock (LockCall.writew_lock idxfd start 0)
  idxoff ← seek_idx (pos (length db.idx.bytes))
  modify (λ db. record db { idxoff = idxoff })
  write_record value text
  call_lock (LockCall.un_lock idxfd start 0)

-- `_db_writeptr`
unfoldable pub writeptr : ℤ → ℤ → M (Unit {0})
unfolding valid_ptr
writeptr offset ptrval = do
  value ← valid_ptr ptrval
  seek_idx offset
  write_idx (pad_decimal ptr_sz value)
