-- ===== src/MemStream/Sizes.antt =====
-- The real size of a memory stream, which no callback changes, and the sizes that an int keeps.
use my_study.Base.{
  ℕ, ◌+◌, ◌-◌, ◌%◌, ◌^◌, lt→ltb, ◌<◌, ◌≡◌, refl, ◌∙◌, inl, inr, ◌&&◌, ◌||◌, not, Option, none, some,
  length, ltb, leb, if◌then◌else◌, min, arith, Bool-cases,
}
use my_study.Base.Bytes.{Bytes}
use my_study.Posix.{slice}
use my_study.MemStream.{
  MemStream, mstream_read, mstream_write, write_at, to_int, seek_to, copy_in, close_off,
}

pub to_int-small : (n : ℕ) → n < 2 ^ 31 → to_int n ≡ some n
to_int-small n h = let same : n % 2 ^ 32 ≡ n = omega arith in rw (same, lt→ltb n (2 ^ 31) h)

copy_in-rsize : (bytes : Bytes) (off : ℕ) (ms : MemStream) → (copy_in bytes off ms).rsize ≡ ms.rsize
unfolding copy_in
copy_in-rsize bytes off ms = elim (Bool-cases (ltb ms.vsize (off + length bytes))) [
  | inl b ↦ rw b
  | inr b ↦ rw b
]

close_off-rsize : (ms : MemStream) → (close_off ms).rsize ≡ ms.rsize
unfolding close_off
close_off-rsize ms =
    elim (Bool-cases ((ms.flags.ms_write || ms.flags.ms_append) && not ms.flags.ms_read)) [
      | inl b ↦ rw b
      | inr b ↦ rw b
    ]

write_at-rsize :
    (bytes : Bytes) (o : Option ℕ) (ms : MemStream) → (write_at bytes o ms).1.rsize ≡ ms.rsize
unfolding write_at
write_at-rsize bytes none ms = refl
write_at-rsize bytes (some off) ms =
    let nw = min (length bytes) (ms.rsize - off) in
    close_off-rsize (copy_in (slice bytes 0 nw) off ms) ∙ copy_in-rsize (slice bytes 0 nw) off ms

pub write-rsize : (bytes : Bytes) (ms : MemStream) → (mstream_write bytes ms).1.rsize ≡ ms.rsize
unfolding mstream_write
write-rsize bytes ms = elim (Bool-cases (not (ms.flags.ms_append || ms.flags.ms_write))) [
  | inl b ↦ rw b
  | inr b ↦
      rw b (write_at-rsize bytes (to_int (if ms.flags.ms_append then ms.vsize else ms.curpos)) ms)
]

pub read-rsize : (len : ℕ) (ms : MemStream) → (mstream_read len ms).1.rsize ≡ ms.rsize
unfolding mstream_read
read-rsize len ms = elim (Bool-cases (not ms.flags.ms_read)) [
  | inl b ↦ rw b
  | inr b ↦ elim (Bool-cases (leb ms.vsize ms.curpos)) [ inl e ↦ rw (b, e) | inr e ↦ rw (b, e) ]
]

pub seek_to-rsize : (o : Option ℕ) (ms : MemStream) → (seek_to o ms).1.rsize ≡ ms.rsize
unfolding seek_to
seek_to-rsize none ms = refl
seek_to-rsize (some off) ms = elim (Bool-cases (ltb ms.vsize off)) [ inl b ↦ rw b | inr b ↦ rw b ]
