-- ===== src/MemStream/Tests.antt =====
-- Runs of the memory stream, and its theorems at concrete inputs.
use my_study.Base.{◌^◌, ◌≡◌, refl, sym, true, false, none, some, List, [], ◌∷◌, length, arith}
use my_study.Base.Int.{pos, negsuc}
use my_study.Base.Bytes.{Bytes}
use my_study.MemStream.{
  MemStream, Whence, Write, fmemopen, open_with, type_to_flags, mode_loop, mode_step, is_empty,
  mstream_read, mstream_write, mstream_seek, seek_to, offset_from,
}
use my_study.MemStream.Valid.{Valid}
use my_study.MemStream.Invariant.{Call, after_all, after_all-Valid, fmemopen-Valid}
use my_study.MemStream.Transfers.{read-write}

abbrev four : Bytes
four = 7 ∷ 7 ∷ 7 ∷ 7 ∷ []

-- `w+` on a buffer of four bytes.
abbrev stream : MemStream
stream = record {
  buf = four;
  rsize = 4;
  vsize = 0;
  curpos = 0;
  flags = record {
    ms_read = true;
    ms_write = true;
    ms_append = false;
    ms_truncate = true;
    ms_mybuf = true;
  };
}

opened : fmemopen none 4 (b'w' ∷ b'+' ∷ []) (some four) ≡ some stream
unfolding fmemopen open_with type_to_flags mode_loop mode_step is_empty
opened = refl

abbrev mode : Bytes
mode = b'w' ∷ b'+' ∷ []

none_given : (given : Bytes) → none ≡ some given → length given ≡ 4
none_given given e = cc

some_fresh : (fresh : Bytes) → some four ≡ some fresh → length fresh ≡ 4
some_fresh fresh e = let same : four ≡ fresh = cc in rw (sym same)

fmemopen-Valid_example : Valid stream
fmemopen-Valid_example = fmemopen-Valid none 4 mode (some four) stream none_given some_fresh opened

stream-Valid : Valid stream
stream-Valid = record {
  whole = refl;
  room = omega arith;
  virtual = omega arith;
  position = omega arith;
}

abbrev calls : List Call
calls = Call.writes (b'h' ∷ b'i' ∷ []) ∷ Call.seeks (negsuc 0) Whence.seek_cur ∷ Call.reads 9 ∷ []

after_all-Valid_example : Valid (after_all calls stream)
after_all-Valid_example = after_all-Valid calls stream stream-Valid (omega arith)

read-write_example :
    ((mstream_write (b'h' ∷ b'i' ∷ []) stream).0 ≡ Write.wrote 2)
    × ((mstream_read 2
          (mstream_seek (pos 0) Whence.seek_set (mstream_write (b'h' ∷ b'i' ∷ []) stream).1).1).0
        ≡ some (b'h' ∷ b'i' ∷ []))
read-write_example =
    read-write stream (b'h' ∷ b'i' ∷ []) stream-Valid refl refl refl (omega arith) (omega arith)
      (omega arith)

-- A position that an int does not hold.
far_seek : mstream_seek (pos (2 ^ 32)) Whence.seek_set stream ≡ (some 0, stream)
unfolding mstream_seek seek_to offset_from
far_seek = refl
