-- ===== src/Db/RoundTrip.antt =====
-- What the writers of db.c write, its readers read back.
use my_study.Base.{ℕ, ◌+◌, ◌≤◌, ◌<◌, ◌≡◌, refl, length}
use my_study.Base.Int.{ℤ, pos}
use my_study.Base.Bytes.{Bytes}
use my_study.Base.Bytes.Text.{Lacks}
use my_study.Db.State.{Db, M, ok, pure, ◌>>=◌, ◌>>◌, ptr_sz, ptr_max}
use my_study.Db.Returns.{Returns, returns}
use my_study.Db.Records.{at, readptr, writeptr, readidx, readdat, writeidx, writedat}
use my_study.Db.Steps.{idx_written, writeptr-ok, writedat-at, writeidx-at, data_at, index_at}
use my_study.Db.Layout.{IsRecord, Entry}
use my_study.Db.Layout.Read.{readptr-PtrAt, readidx-RecAt, readdat-DatAt, moved, loaded}
use my_study.Db.Layout.Write.{ptr_bytes, PtrAt-write, RecAt-write, DatAt-write}

-- `_db_writeptr` accepts every offset up to PTR_MAX, and `_db_readptr` at the same place returns it;
-- the file is the one that was written, and its offset is behind the field.
pub readptr-writeptr :
    (db : Db) (off v : ℕ)
    → v ≤ ptr_max
    → (writeptr (pos off) (pos v) >> readptr (pos off)) db
      ≡ ok (pos v) (moved (idx_written db off (ptr_bytes v)) (off + ptr_sz))
readptr-writeptr db off v h = rw (
  writeptr-ok db off v h,
  readptr-PtrAt (idx_written db off (ptr_bytes v)) off v (PtrAt-write db.idx.bytes off v h),
)

-- Write a data record and its index record, and read both.
unfoldable pub write_then_read : Bytes → Bytes → ℕ → ℕ → ℕ → M (ℤ × Bytes)
write_then_read key text off datoff v = do
  writedat text (at datoff)
  writeidx key (at off) (pos v)
  next ← readidx (pos off)
  got ← readdat
  pure (next, got)

-- A record that the format has room for is read as it was written: the chain pointer, the key, the
-- place and the length of the data, and the data; the offset of the record must not be 0.
pub readdat-writedat :
    (db : Db) (key text : Bytes) (off datoff v : ℕ)
    → IsRecord key datoff (length text + 1)
    → Lacks 0 text
    → 0 < off
    → off ≤ ptr_max
    → v ≤ ptr_max
    → Returns
        (λ r db'.
          (r ≡ (pos v, text))
          × (db'.idxbuf ≡ key)
          × (db'.idxoff ≡ off)
          × (db'.datoff ≡ datoff)
          × (db'.datlen ≡ length text + 1)
          × (db'.ptrval ≡ pos v))
        (write_then_read key text off datoff v db)
unfolding write_then_read
readdat-writedat db key text off datoff v k no_nul positive fits small =
    let e : Entry = record { off = off; key = key; datoff = datoff; text = text } in
    let written = index_at (data_at db text datoff) key v off in
    let at_off = RecAt-write e v small k db.idx.bytes positive fits in
    rw
      (
        writedat-at db text datoff,
        writeidx-at (data_at db text datoff) key v k small off,
        readidx-RecAt written e v at_off.1 at_off.0,
        readdat-DatAt (loaded written e v) e (DatAt-write db.dat.bytes e no_nul) refl refl,
      )
      (returns (refl, refl, refl, refl, refl, refl))
