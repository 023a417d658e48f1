-- ===== src/MemStream/Transfers.antt =====
-- What a memory stream gives back of what was written to it.
use native.Mathlib.Nat.{min-eq_left}
use my_study.Base.{
  ℕ, ◌+◌, ◌-◌, ◌^◌, ◌≤◌, ◌<◌, ◌≡◌, refl, ap, ◌∙◌, inl, inr, Bool, true, false, ◌&&◌, ◌||◌, not,
  some, [], ◌∷◌, length, ltb, leb, if◌then◌else◌, arith, Bool-cases, take, le→ltb,
}
use my_study.Base.Int.{pos}
use my_study.Base.Bytes.{Bytes}
use my_study.Posix.{slice, overwrite}
use my_study.Posix.Transfers.{length-overwrite_inside, slice-overwrite_self, slice-overwrite_before}
use my_study.MemStream.{
  MemStream, Flags, Whence, mstream_read, mstream_write, mstream_seek, seek_to, offset_from,
  copy_in, close_off, write_at, Write,
}
use my_study.MemStream.Valid.{Valid}
use my_study.MemStream.Sizes.{to_int-small}

take-length : (d : Bytes) → take (length d) d ≡ d
take-length [] = refl
take-length (b ∷ d) = ap (λ l. b ∷ l) (take-length d)

gt→leb : (a b : ℕ) → b < a → leb a b ≡ false
gt→leb a b h = ground arith

-- The buffer with a NUL behind the data, or without.
slice-nul :
    (b : Bool) (buf d : Bytes) (off : ℕ)
    → off + length d ≤ length buf
    → slice
        (if b
          then overwrite (overwrite buf off d) (off + length d) (0 ∷ [])
          else overwrite buf off d)
        off
        (length d)
      ≡ d
slice-nul true buf d off h =
    slice-overwrite_before (overwrite buf off d) (off + length d) (0 ∷ []) off (length d)
      (omega arith) (omega (arith, length-overwrite_inside buf off d h))
    ∙ slice-overwrite_self buf off d
slice-nul false buf d off h = slice-overwrite_self buf off d

seek-set :
    (ms : MemStream) (off : ℕ)
    → off ≤ ms.vsize
    → off < 2 ^ 31
    → mstream_seek (pos off) Whence.seek_set ms ≡ (some off, record ms { curpos = off })
unfolding mstream_seek seek_to offset_from
seek-set ms off h small =
    let e : 0 + off ≡ off = omega arith in rw (e, to_int-small off small, le→ltb ms.vsize off h)

-- What is read from `off` after a seek there.
read-at :
    (ms : MemStream) (off len : ℕ)
    → ms.flags.ms_read ≡ true
    → 0 < len
    → off + len ≤ ms.vsize
    → off < 2 ^ 31
    → (mstream_read len (mstream_seek (pos off) Whence.seek_set ms).1).0
      ≡ some (slice ms.buf off len)
unfolding mstream_read
read-at ms off len r positive fits small = rw (
  seek-set ms off (omega arith) small,
  r,
  gt→leb ms.vsize off (omega arith),
  min-eq_left {n = len} {m = ms.vsize - off} (omega arith),
)

flags-copy_in : (bytes : Bytes) (off : ℕ) (ms : MemStream) → (copy_in bytes off ms).flags ≡ ms.flags
unfolding copy_in
flags-copy_in bytes off ms = elim (Bool-cases (ltb ms.vsize (off + length bytes))) [
  | inl b ↦ rw b
  | inr b ↦ rw b
]

vsize-copy_in :
    (bytes : Bytes) (off : ℕ) (ms : MemStream) → off + length bytes ≤ (copy_in bytes off ms).vsize
unfolding copy_in
vsize-copy_in bytes off ms = elim (Bool-cases (ltb ms.vsize (off + length bytes))) [
  | inl b ↦ rw b (omega arith)
  | inr b ↦ rw b (ground (arith, b))
]

slice-copy_in :
    (bytes : Bytes) (off : ℕ) (ms : MemStream)
    → off + length bytes ≤ length ms.buf
    → slice (copy_in bytes off ms).buf off (length bytes) ≡ bytes
unfolding copy_in
slice-copy_in bytes off ms h = elim (Bool-cases (ltb ms.vsize (off + length bytes))) [
  | inl b ↦ rw b (
      slice-nul (ms.flags.ms_read && ms.flags.ms_write && ltb (off + length bytes) ms.rsize) ms.buf
        bytes off h)
  | inr b ↦ rw b (slice-overwrite_self ms.buf off bytes)
]

slice-all : (d : Bytes) → slice d 0 (length d) ≡ d
unfolding slice
slice-all d = take-length d

close_off-readable : (ms : MemStream) → ms.flags.ms_read ≡ true → close_off ms ≡ ms
unfolding close_off
close_off-readable ms r = elim (Bool-cases (ms.flags.ms_write || ms.flags.ms_append)) [
  | inl b ↦ rw (b, r)
  | inr b ↦ rw b
]

writable : (a w : Bool) → w ≡ true → not (a || w) ≡ false
writable true true e = refl
writable false true e = refl
writable a false e = cc

unless : (b : Bool) (x y : ℕ) → b ≡ false → (if b then x else y) ≡ y
unless b x y e = rw e

module _ (ms : MemStream) (bytes : Bytes) (v : Valid ms) (reads : ms.flags.ms_read ≡ true)
    (writes : ms.flags.ms_write ≡ true) (no_append : ms.flags.ms_append ≡ false)
    (some_bytes : 0 < length bytes) (fits : ms.curpos + length bytes ≤ ms.rsize)
    (small : ms.rsize < 2 ^ 31) where
  written : mstream_write bytes ms ≡ (Write.wrote (length bytes), copy_in bytes ms.curpos ms)
  unfolding mstream_write write_at
  written = rw (
    writable ms.flags.ms_append ms.flags.ms_write writes,
    unless ms.flags.ms_append ms.vsize ms.curpos no_append,
    to_int-small ms.curpos (omega arith),
    min-eq_left {n = length bytes} {m = ms.rsize - ms.curpos} (omega arith),
    slice-all bytes,
    close_off-readable (copy_in bytes ms.curpos ms)
        (ap (λ (f : Flags). f.ms_read) (flags-copy_in bytes ms.curpos ms) ∙ reads),
  )

  -- On a valid stream for reading and writing that does not append, of a real size below 2^31, a
  -- write of some bytes that fit takes them all, and a read at the place where they were written
  -- returns them.
  pub read-write :
      ((mstream_write bytes ms).0 ≡ Write.wrote (length bytes))
      × ((mstream_read
            (length bytes)
            (mstream_seek (pos ms.curpos) Whence.seek_set (mstream_write bytes ms).1).1).0
          ≡ some bytes)
  read-write =
      let ms' = copy_in bytes ms.curpos ms in
      rw written (
        refl,
        read-at ms' ms.curpos (length bytes)
              (ap (λ (f : Flags). f.ms_read) (flags-copy_in bytes ms.curpos ms) ∙ reads) some_bytes
              (vsize-copy_in bytes ms.curpos ms) (omega arith)
            ∙ ap some (slice-copy_in bytes ms.curpos ms (omega (arith, v.whole))),
      )
