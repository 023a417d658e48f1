-- ===== src/Db/Layout/Read.antt =====
-- What the reading functions of db.c return on a file of that layout.
use my_study.Base.{
  ℕ, ◌+◌, ◌-◌, ◌≡◌, ◌≢◌, refl, sym, ◌∙◌, true, some, [], ◌∷◌, ◌++◌, arith, ==_refl, le→ltb, length,
  take, get_elem?, length-append, take-append, take-append_eq, drop-append_eq, ne→==, append_assoc,
  All, All-append,
}
use my_study.Base.Int.{pos}
use my_study.Base.Bytes.{Bytes, c_string, atol, decimal, pad_decimal}
use my_study.Base.Bytes.Decimal.{
  IsDigit, decimal-digits, atol-decimal, atol-pad_decimal, length-pad_decimal,
}
use my_study.Base.Bytes.Text.{Lacks, c_string-of_Lacks, split_at-append, split_at-of_Lacks}
use my_study.Posix.{slice}
use my_study.Posix.Transfers.{slice-append}
use my_study.Db.State.{
  datlen_max, Db, ok, seek_idx, read_idx, seek_dat, read_dat, ptr_sz, idxlen_sz, idxlen_min,
  idxlen_max, sep, newline,
}
use my_study.Db.Records.{
  readptr, readidx, read_record, parse_record, record_text, ends_in_newline, bounded, readdat,
  seek_record,
}
use my_study.Db.Layout.{PtrAt, Entry, text_of, IsRecord, RecAt, DatAt, end_of, datlen_of}

-- The handle with the index file's offset at `n`.
abbrev pub moved : Db → ℕ → Db
moved db n = record db { idx = record { bytes = db.idx.bytes; offset = n } }

pub readptr-PtrAt :
    (db : Db) (off v : ℕ)
    → PtrAt db.idx.bytes off v
    → readptr (pos off) db ≡ ok (pos v) (moved db (off + ptr_sz))
unfolding readptr seek_idx read_idx
readptr-PtrAt db off v p = rw (
  p.holds,
  length-pad_decimal 6 v (omega (arith, p.small)),
  atol-pad_decimal 7 v (omega (arith, p.small)),
)

-- A printed number holds no byte that is not a digit.
Lacks-of_digits : (b : ℕ) (s : Bytes) → ¬ (IsDigit b) → All IsDigit s → Lacks b s
Lacks-of_digits b [] n h = tt
Lacks-of_digits b (c ∷ s) n (hc, hs) = ((λ e. n (rw (sym e) hc)), Lacks-of_digits b s n hs)

pub decimal-Lacks : (b n : ℕ) → ¬ (IsDigit b) → Lacks b (decimal n)
decimal-Lacks b n h = Lacks-of_digits b (decimal n) h (decimal-digits n)

-- The text of a record without its newline.
abbrev pub fields : Bytes → ℕ → ℕ → Bytes
fields key datoff datlen = key ++ (sep ∷ (decimal datoff ++ (sep ∷ decimal datlen)))

record_text-fields :
    (key : Bytes) (datoff datlen : ℕ)
    → record_text key datoff datlen ≡ fields key datoff datlen ++ (newline ∷ [])
unfolding record_text
record_text-fields key datoff datlen = simp append_assoc

fields-no_nul : (key : Bytes) (datoff datlen : ℕ) → Lacks 0 key → Lacks 0 (fields key datoff datlen)
fields-no_nul key datoff datlen h =
    All-append (λ c. c ≢ 0) key _ h
      (
        omega arith,
        All-append (λ c. c ≢ 0) (decimal datoff) _ (decimal-Lacks 0 datoff (omega arith))
            (omega arith, decimal-Lacks 0 datlen (omega arith)),
      )

parse_record-fields :
    (db : Db) (key : Bytes) (datoff datlen : ℕ)
    → IsRecord key datoff datlen
    → parse_record (fields key datoff datlen) db ≡ ok (key, datoff, datlen) db
unfolding parse_record bounded
parse_record-fields db key datoff datlen v = rw (
  split_at-append sep key (decimal datoff ++ (sep ∷ decimal datlen)) v.no_sep,
  split_at-append sep (decimal datoff) (decimal datlen) (decimal-Lacks sep datoff (omega arith)),
  split_at-of_Lacks sep (decimal datlen) (decimal-Lacks sep datlen (omega arith)),
  atol-decimal datoff v.datoff_fits,
  atol-decimal datlen (omega (arith, v.data_fits)),
  le→ltb datlen 1 v.has_data,
  le→ltb datlen_max datlen v.data_fits,
)

-- A line's newline, and what stands before it.
line-take : (s : Bytes) → take (length (s ++ (newline ∷ [])) - 1) (s ++ (newline ∷ [])) ≡ s
line-take s =
    let e : length (s ++ (newline ∷ [])) - 1 ≡ length s =
      omega (arith, length-append s (newline ∷ [])) in
    rw e (take-append s (newline ∷ []))

get_elem?-append : (s : Bytes) (c : ℕ) → get_elem? (s ++ (c ∷ [])) (length s) ≡ some c
get_elem?-append [] c = refl
get_elem?-append (d ∷ s) c = get_elem?-append s c

line-ends :
    (s : Bytes) → ends_in_newline (s ++ (newline ∷ [])) (length (s ++ (newline ∷ []))) ≡ true
unfolding ends_in_newline
line-ends s =
    let e : length (s ++ (newline ∷ [])) - 1 ≡ length s =
      omega (arith, length-append s (newline ∷ [])) in
    rw (e, ends_in_newline, get_elem?-append s newline)

-- The handle after `_db_readidx` has read the record of `e`.
abbrev pub loaded : Db → Entry → ℕ → Db
loaded db e next = record db {
  idx = record { bytes = db.idx.bytes; offset = end_of e };
  idxbuf = e.key;
  idxoff = e.off;
  idxlen = length (text_of e);
  datoff = e.datoff;
  datlen = datlen_of e;
  ptrval = pos next;
}

record-front :
    (f : Bytes) (e : Entry) (next : ℕ)
    → RecAt f e
    → PtrAt f e.off next
    → slice f e.off (ptr_sz + idxlen_sz)
      ≡ pad_decimal ptr_sz next ++ pad_decimal idxlen_sz (length (text_of e))
record-front f e next r p = slice-append f e.off ptr_sz idxlen_sz ∙ rw (p.holds, r.len_holds)

module _ (db : Db) (e : Entry) (next : ℕ) (r : RecAt db.idx.bytes e)
    (p : PtrAt db.idx.bytes e.off next) where
  width : length (pad_decimal ptr_sz next) ≡ ptr_sz
  width = length-pad_decimal 6 next (omega (arith, p.small))

  len_width : length (pad_decimal idxlen_sz (length (text_of e))) ≡ idxlen_sz
  len_width = length-pad_decimal 3 (length (text_of e)) (omega (arith, r.valid.short_enough))

  text : text_of e ≡ fields e.key e.datoff (datlen_of e) ++ (newline ∷ [])
  text = record_text-fields e.key e.datoff (datlen_of e)

  body_read : slice db.idx.bytes (e.off + (ptr_sz + idxlen_sz)) (length (text_of e)) ≡ text_of e
  body_read = r.text_holds

  body_take :
      c_string (take (length (text_of e) - 1) (text_of e)) ≡ fields e.key e.datoff (datlen_of e)
  body_take =
      rw (text, line-take (fields e.key e.datoff (datlen_of e)))
        (c_string-of_Lacks _ (fields-no_nul e.key e.datoff (datlen_of e) r.valid.no_nul))

  body_ends : ends_in_newline (text_of e) (length (text_of e)) ≡ true
  body_ends = rw text (line-ends (fields e.key e.datoff (datlen_of e)))

  len_read : atol (pad_decimal idxlen_sz (length (text_of e))) ≡ pos (length (text_of e))
  len_read = atol-pad_decimal idxlen_sz (length (text_of e)) (omega (arith, r.valid.short_enough))

  read_record-RecAt :
      read_record e.off
        (pad_decimal ptr_sz next ++ pad_decimal idxlen_sz (length (text_of e)))
        (moved db (e.off + (ptr_sz + idxlen_sz)))
      ≡ ok (pos next) (loaded db e next)
  unfolding read_record bounded read_idx
  read_record-RecAt = rw (
    take-append_eq (pad_decimal ptr_sz next) (pad_decimal idxlen_sz (length (text_of e))) width,
    drop-append_eq (pad_decimal ptr_sz next) (pad_decimal idxlen_sz (length (text_of e))) width,
    len_read,
    le→ltb (length (text_of e)) idxlen_min r.valid.long_enough,
    le→ltb idxlen_max (length (text_of e)) r.valid.short_enough,
    body_read,
    ==_refl (length (text_of e)),
    body_ends,
    body_take,
    parse_record-fields (moved db (end_of e)) e.key e.datoff (datlen_of e) r.valid,
    atol-pad_decimal ptr_sz next (omega (arith, p.small)),
  )

  pub readidx-RecAt : readidx (pos e.off) db ≡ ok (pos next) (loaded db e next)
  unfolding readidx seek_record seek_idx read_idx
  readidx-RecAt =
      rw
        (
          ne→== e.off 0 (omega (arith, r.not_null)),
          record-front db.idx.bytes e next r p,
          length-append (pad_decimal ptr_sz next) (pad_decimal idxlen_sz (length (text_of e))),
          width,
          len_width,
        )
        read_record-RecAt

  -- The same at the current offset, which is what offset 0 asks for.
  pub readidx-next : db.idx.offset ≡ e.off → readidx (pos 0) db ≡ ok (pos next) (loaded db e next)
  unfolding readidx seek_record seek_idx read_idx
  readidx-next here =
      rw
        (
          here,
          record-front db.idx.bytes e next r p,
          length-append (pad_decimal ptr_sz next) (pad_decimal idxlen_sz (length (text_of e))),
          width,
          len_width,
        )
        read_record-RecAt

-- `_db_readdat` returns the text of the data record.
pub readdat-DatAt :
    (db : Db) (e : Entry)
    → DatAt db.dat.bytes e
    → db.datoff ≡ e.datoff
    → db.datlen ≡ datlen_of e
    → readdat db
      ≡ ok e.text (record db {
        dat = record { bytes = db.dat.bytes; offset = e.datoff + datlen_of e };
        datbuf = e.text;
      })
unfolding readdat seek_dat read_dat
readdat-DatAt db e d eo el =
    let len : datlen_of e ≡ length (e.text ++ (newline ∷ [])) =
      omega (arith, length-append e.text (newline ∷ [])) in
    let cut : take (datlen_of e - 1) (e.text ++ (newline ∷ [])) ≡ e.text =
      rw len (line-take e.text) in
    let ends : ends_in_newline (e.text ++ (newline ∷ [])) (datlen_of e) ≡ true =
      rw len (line-ends e.text) in
    rw (eo, el, d.holds, ← len, ==_refl (datlen_of e), ends, cut, c_string-of_Lacks e.text d.no_nul)
