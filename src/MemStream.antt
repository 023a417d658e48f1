-- ===== src/MemStream.antt =====
-- The in-memory stream of apue.3e/exercises/fmemopen.c: the mode string, the buffer with its real
-- and virtual size, and the callbacks that funopen installs. Offsets go through `int off`, which
-- wraps; a request's length is an int and not negative.
pub mod Valid
pub mod Sizes
pub mod Invariant
pub mod Transfers
mod Tests
use my_study.Base.{
  ℕ, zero, suc, ◌+◌, ◌-◌, ◌%◌, ◌^◌, ◌≤◌, ◌<◌, Bool, true, false, ◌&&◌, ◌||◌, not, Option, none,
  some, List, [], ◌∷◌, ◌++◌, length, ltb, leb, ◌==◌, if◌then◌else◌, min,
}
use my_study.Base.Int.{ℤ, pos, negsuc}
use my_study.Base.Bytes.{Bytes}
use my_study.Posix.{slice, overwrite}

-- MS_READ, MS_WRITE, MS_APPEND, MS_TRUNCATE and MS_MYBUF: the bits of `flags`.
pub record Flags : Type 0 where
  pub ms_read : Bool
  pub ms_write : Bool
  pub ms_append : Bool
  pub ms_truncate : Bool
  pub ms_mybuf : Bool

abbrev pub no_flags : Flags
no_flags = record {
  ms_read = false;
  ms_write = false;
  ms_append = false;
  ms_truncate = false;
  ms_mybuf = false;
}

-- `flags == 0`
unfoldable pub is_empty : Flags → Bool
is_empty f = not (f.ms_read || f.ms_write || f.ms_append || f.ms_truncate || f.ms_mybuf)

-- What one character of the mode does to the flags; none is the error.
unfoldable pub mode_step : ℕ → Flags → Option Flags
unfolding is_empty
mode_step c f =
    if c == b'r'
    then (if is_empty f then some (record f { ms_read = true }) else none)
    else if c == b'w'
    then (if is_empty f then some (record f { ms_write = true; ms_truncate = true }) else none)
    else if c == b'a'
    then (if is_empty f then some (record f { ms_append = true }) else none)
    else if c == b'+'
    then (if is_empty f then none else some (record f { ms_read = true; ms_write = true }))
    else if c == b'b'
    then (if is_empty f then none else some f)
    else none

-- The for loop of `type_to_flags`.
unfoldable pub mode_loop : Bytes → Flags → Option Flags
mode_loop [] f = some f
mode_loop (c ∷ mode) f = elim (mode_step c f) [ none ↦ none | some f' ↦ mode_loop mode f' ]

-- `type_to_flags`: none where it returns 0.
unfoldable pub type_to_flags : Bytes → Option Flags
unfolding mode_loop mode_step is_empty
type_to_flags mode = elim (mode_loop mode no_flags) [
  | none ↦ none
  | some f ↦ if is_empty f then none else some f
]

-- `find_end`, with at most `len` bytes of the buffer looked at.
unfoldable pub find_end : Bytes → ℕ → ℕ
find_end buf zero = zero
find_end [] (suc len) = zero
find_end (c ∷ buf) (suc len) = let rest = find_end buf len in if c == 0 then zero else suc rest

pub record MemStream : Type 0 where
  pub buf : Bytes
  pub rsize : ℕ
  pub vsize : ℕ
  pub curpos : ℕ
  pub flags : Flags

-- The virtual size that the mode asks for.
abbrev pub first_vsize : Flags → ℕ → ℕ → ℕ
first_vsize f curpos size = if f.ms_append then curpos else if f.ms_truncate then 0 else size

-- `fmemopen` once the mode is read: with a buffer of its own, or with the caller's.
unfoldable pub open_with : Option Flags → Option Bytes → ℕ → Option Bytes → Option MemStream
unfolding find_end
open_with none buf size heap = none
open_with (some f) none size none = none
open_with (some f) none size (some fresh) =
    if f.ms_read && f.ms_write
    then some (record {
      buf = fresh;
      rsize = size;
      vsize = first_vsize f 0 size;
      curpos = 0;
      flags = record f { ms_mybuf = true };
    })
    else none
open_with (some f) (some given) size heap =
    let curpos = if f.ms_append then find_end given size else 0 in
    some (record {
      buf = given;
      rsize = size;
      vsize = first_vsize f curpos size;
      curpos = curpos;
      flags = f;
    })

-- `fmemopen`; `buf` is the caller's buffer or NULL, `heap` what malloc(size) delivers, none where
-- it fails. The allocation of the structure and funopen succeed. None is NULL.
unfoldable pub fmemopen : Option Bytes → ℕ → Bytes → Option Bytes → Option MemStream
unfolding type_to_flags open_with
fmemopen buf size mode heap =
    if size == 0 then none else open_with (type_to_flags mode) buf size heap

-- `mstream_read`: the bytes, or none with EBADF.
unfoldable pub mstream_read : ℕ → MemStream → Option Bytes × MemStream
unfolding slice
mstream_read len ms =
    if not ms.flags.ms_read
    then (none, ms)
    else if leb ms.vsize ms.curpos
    then (some [], ms)
    else let nr = min len (ms.vsize - ms.curpos) in
      (some (slice ms.buf ms.curpos nr), record ms { curpos = ms.curpos + nr })

-- The copy of `mstream_write` at `off`, and the larger virtual size with the NUL behind it.
unfoldable pub copy_in : Bytes → ℕ → MemStream → MemStream
unfolding overwrite
copy_in bytes off ms =
    let ms = record ms { buf = overwrite ms.buf off bytes; curpos = off + length bytes } in
    if ltb ms.vsize ms.curpos
    then record ms {
      vsize = ms.curpos;
      buf =
          if ms.flags.ms_read && ms.flags.ms_write && ltb ms.curpos ms.rsize
          then overwrite ms.buf ms.curpos (0 ∷ [])
          else ms.buf;
    }
    else ms

-- The NUL that a stream which cannot be read gets behind the data, or over its last byte.
unfoldable pub close_off : MemStream → MemStream
unfolding overwrite
close_off ms =
    if (ms.flags.ms_write || ms.flags.ms_append) && not ms.flags.ms_read
    then record ms {
      buf =
          if ltb ms.curpos ms.rsize
          then overwrite ms.buf ms.curpos (0 ∷ [])
          else overwrite ms.buf (ms.rsize - 1) (0 ∷ []);
    }
    else ms

-- What becomes of a number in `int off`; none is a negative one.
abbrev pub to_int : ℕ → Option ℕ
to_int n = if ltb (n % 2 ^ 32) (2 ^ 31) then some (n % 2 ^ 32) else none

-- EBADF, the count, or a copy to a place before the buffer.
pub data Write : Type 0 where
  ebadf out_of_bounds : Write
  wrote : ℕ → Write

-- `mstream_write` at `off`.
unfoldable pub write_at : Bytes → Option ℕ → MemStream → Write × MemStream
write_at bytes none ms = (Write.out_of_bounds, ms)
write_at bytes (some off) ms =
    let nw = min (length bytes) (ms.rsize - off) in
    (Write.wrote nw, close_off (copy_in (slice bytes 0 nw) off ms))

-- `mstream_write`
unfoldable pub mstream_write : Bytes → MemStream → Write × MemStream
unfolding write_at
mstream_write bytes ms =
    if not (ms.flags.ms_append || ms.flags.ms_write)
    then (Write.ebadf, ms)
    else write_at bytes (to_int (if ms.flags.ms_append then ms.vsize else ms.curpos)) ms

pub data Whence : Type 0 where
  seek_set seek_end seek_cur : Whence

-- `base + pos` in `int off`; none is a negative one.
unfoldable pub offset_from : ℕ → ℤ → Option ℕ
offset_from base (pos n) = to_int (base + n)
offset_from base (negsuc n) = to_int (base + (2 ^ 32 - 1 - n % 2 ^ 32))

abbrev pub seek_base : Whence → MemStream → ℕ
seek_base Whence.seek_set ms = 0
seek_base Whence.seek_end ms = ms.vsize
seek_base Whence.seek_cur ms = ms.curpos

-- The range check of `mstream_seek`, and the new position.
unfoldable pub seek_to : Option ℕ → MemStream → Option ℕ × MemStream
seek_to none ms = (none, ms)
seek_to (some off) ms =
    if ltb ms.vsize off then (none, ms) else (some off, record ms { curpos = off })

-- `mstream_seek`: the offset, or none with EINVAL.
unfoldable pub mstream_seek : ℤ → Whence → MemStream → Option ℕ × MemStream
unfolding offset_from seek_to
mstream_seek p whence ms = seek_to (offset_from (seek_base whence ms) p) ms
