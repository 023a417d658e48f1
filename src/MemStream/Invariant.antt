-- ===== src/MemStream/Invariant.antt =====
-- What every callback of a memory stream keeps of its sizes, and that fmemopen establishes it.
use my_study.Base.{
  ℕ, zero, suc, ◌-◌, ◌^◌, ◌≤◌, ◌<◌, ◌≡◌, refl, sym, subst, ◌∙◌, inl, inr, Bool, true, false, ◌&&◌,
  ◌||◌, not, Option, none, some, List, [], ◌∷◌, length, ltb, leb, ◌==◌, if◌then◌else◌, min, arith,
  Bool-cases,
}
use my_study.Base.Int.{ℤ}
use my_study.Base.Bytes.{Bytes}
use my_study.Posix.{slice}
use my_study.Posix.Transfers.{length-slice}
use my_study.MemStream.{
  MemStream, Flags, Whence, mstream_read, mstream_write, mstream_seek, write_at, seek_to, copy_in,
  offset_from, seek_base, find_end, open_with, fmemopen, type_to_flags, first_vsize,
}
use my_study.MemStream.Valid.{Valid, copy_in-Valid, close_off-Valid}
use my_study.MemStream.Sizes.{to_int-small, read-rsize, write-rsize, seek_to-rsize}

-- What a client does with an open stream.
pub data Call : Type 0 where
  reads : ℕ → Call
  writes : Bytes → Call
  seeks : ℤ → Whence → Call

abbrev pub after : Call → MemStream → MemStream
after (Call.reads len) ms = (mstream_read len ms).1
after (Call.writes bytes) ms = (mstream_write bytes ms).1
after (Call.seeks p whence) ms = (mstream_seek p whence ms).1

abbrev pub after_all : List Call → MemStream → MemStream
after_all [] ms = ms
after_all (c ∷ cs) ms = after_all cs (after c ms)

read-Valid : (len : ℕ) (ms : MemStream) → Valid ms → Valid (mstream_read len ms).1
unfolding mstream_read
read-Valid len ms v = elim (Bool-cases (not ms.flags.ms_read)) [
  | inl b ↦ rw b v
  | inr b ↦ elim (Bool-cases (leb ms.vsize ms.curpos)) [
    | inl e ↦ rw (b, e) v
    | inr e ↦
        rw (b, e)
          (record {
            whole = v.whole;
            room = v.room;
            virtual = v.virtual;
            position = ground (arith, e);
          })
  ]
]

-- The real size fits an int.
abbrev pub Small : MemStream → Type 0
Small ms = ms.rsize < 2 ^ 31

write_at-Valid :
    (bytes : Bytes) (off : ℕ) (ms : MemStream)
    → Valid ms
    → off ≤ ms.rsize
    → Valid (write_at bytes (some off) ms).1
unfolding write_at
write_at-Valid bytes off ms v below =
    let nw = min (length bytes) (ms.rsize - off) in
    let count : length (slice bytes 0 nw) ≡ nw = length-slice bytes 0 nw (omega arith) in
    close_off-Valid (copy_in (slice bytes 0 nw) off ms)
      (copy_in-Valid (slice bytes 0 nw) off ms v (omega (arith, count, below)))

write-Valid :
    (bytes : Bytes) (ms : MemStream) → Valid ms → Small ms → Valid (mstream_write bytes ms).1
unfolding mstream_write
write-Valid bytes ms v small =
    let off = if ms.flags.ms_append then ms.vsize else ms.curpos in
    let below : off ≤ ms.rsize = within ms.flags.ms_append in
    elim (Bool-cases (not (ms.flags.ms_append || ms.flags.ms_write))) [
      | inl b ↦ rw b v
      | inr b ↦ rw b (
          subst (λ o. Valid (write_at bytes o ms).1)
            (sym (to_int-small off (omega (arith, below, small))))
            (write_at-Valid bytes off ms v below))
    ]
  where
    within : (b : Bool) → (if b then ms.vsize else ms.curpos) ≤ ms.rsize
    within true = v.virtual
    within false = omega (arith, v.virtual, v.position)

seek_to-Valid : (o : Option ℕ) (ms : MemStream) → Valid ms → Valid (seek_to o ms).1
unfolding seek_to
seek_to-Valid none ms v = v
seek_to-Valid (some off) ms v = elim (Bool-cases (ltb ms.vsize off)) [
  | inl b ↦ rw b v
  | inr b ↦
      rw b (record {
        whole = v.whole;
        room = v.room;
        virtual = v.virtual;
        position = ground (arith, b);
      })
]

seek-Valid :
    (p : ℤ) (whence : Whence) (ms : MemStream) → Valid ms → Valid (mstream_seek p whence ms).1
unfolding mstream_seek
seek-Valid p whence ms v = seek_to-Valid (offset_from (seek_base whence ms) p) ms v

after-Valid : (c : Call) (ms : MemStream) → Valid ms → Small ms → Valid (after c ms)
after-Valid (Call.reads len) ms v small = read-Valid len ms v
after-Valid (Call.writes bytes) ms v small = write-Valid bytes ms v small
after-Valid (Call.seeks p whence) ms v small = seek-Valid p whence ms v

after-rsize : (c : Call) (ms : MemStream) → (after c ms).rsize ≡ ms.rsize
unfolding mstream_seek
after-rsize (Call.reads len) ms = read-rsize len ms
after-rsize (Call.writes bytes) ms = write-rsize bytes ms
after-rsize (Call.seeks p whence) ms = seek_to-rsize (offset_from (seek_base whence ms) p) ms

-- Any sequence of reads, writes and seeks, to any positions, keeps a stream's position within its
-- virtual size, the virtual size within the real size, and the buffer as long as the real size,
-- where the real size is below 2^31.
pub after_all-Valid :
    (cs : List Call) (ms : MemStream) → Valid ms → ms.rsize < 2 ^ 31 → Valid (after_all cs ms)
after_all-Valid [] ms v small = v
after_all-Valid (c ∷ cs) ms v small =
    after_all-Valid cs (after c ms) (after-Valid c ms v small)
      (subst (λ n. n < 2 ^ 31) (sym (after-rsize c ms)) small)

find_end-le : (buf : Bytes) (len : ℕ) → find_end buf len ≤ len
unfolding find_end
find_end-le buf zero = omega arith
find_end-le [] (suc len) = omega arith
find_end-le (c ∷ buf) (suc len) = ground (arith, find_end-le buf len)

opened-Valid :
    (buf : Bytes) (size c : ℕ) (f g : Flags)
    → 0 < size
    → length buf ≡ size
    → c ≤ size
    → (f.ms_append ≡ false → c ≡ 0)
    → Valid
        (record { buf = buf; rsize = size; vsize = first_vsize f c size; curpos = c; flags = g })
opened-Valid buf size c f g room w le start = elim (Bool-cases f.ms_append) [
  | inl b ↦ rw b (record { whole = w; room = room; virtual = le; position = omega arith })
  | inr b ↦ elim (Bool-cases f.ms_truncate) [
    | inl t ↦
        rw (b, t)
          (record {
            whole = w;
            room = room;
            virtual = omega arith;
            position = omega (arith, start b);
          })
    | inr t ↦ rw (b, t) (record { whole = w; room = room; virtual = omega arith; position = le })
  ]
]

-- A conditional result that is there comes from the branch that gives one.
chosen :
    (b : Bool) (x : Option MemStream) (ms : MemStream)
    → (if b then x else none) ≡ some ms
    → x ≡ some ms
chosen true x ms e = e
chosen false x ms e = cc

open_with-Valid :
    (f : Option Flags) (buf : Option Bytes) (size : ℕ) (heap : Option Bytes) (ms : MemStream)
    → 0 < size
    → ((given : Bytes) → buf ≡ some given → length given ≡ size)
    → ((fresh : Bytes) → heap ≡ some fresh → length fresh ≡ size)
    → open_with f buf size heap ≡ some ms
    → Valid ms
unfolding open_with
open_with-Valid none buf size heap ms room hb hh e = cc
open_with-Valid (some f) none size none ms room hb hh e = cc
open_with-Valid (some f) none size (some fresh) ms room hb hh e =
    subst Valid (cc (chosen (f.ms_read && f.ms_write) _ ms e)) (
      opened-Valid fresh size 0 f (record f { ms_mybuf = true }) room (hh fresh refl) (omega arith)
        (λ q. refl))
open_with-Valid (some f) (some given) size heap ms room hb hh e =
    let c = if f.ms_append then find_end given size else 0 in
    subst Valid (cc e) (
      opened-Valid given size c f f room (hb given refl) (start_le f.ms_append)
        (starts f.ms_append))
  where
    start_le : (b : Bool) → (if b then find_end given size else 0) ≤ size
    start_le true = find_end-le given size
    start_le false = omega arith

    starts : (b : Bool) → b ≡ false → (if b then find_end given size else 0) ≡ 0
    starts true q = cc
    starts false q = refl

-- A stream that `fmemopen` returns for a buffer of the size given is valid, whether the buffer is
-- the caller's or its own.
pub fmemopen-Valid :
    (buf : Option Bytes) (size : ℕ) (mode : Bytes) (heap : Option Bytes) (ms : MemStream)
    → ((given : Bytes) → buf ≡ some given → length given ≡ size)
    → ((fresh : Bytes) → heap ≡ some fresh → length fresh ≡ size)
    → fmemopen buf size mode heap ≡ some ms
    → Valid ms
unfolding fmemopen
fmemopen-Valid buf size mode heap ms hb hh e = elim (Bool-cases (size == 0)) [
  | inl z ↦ absurd (none_some (sym (empty z) ∙ e))
  | inr z ↦
      open_with-Valid (type_to_flags mode) buf size heap ms (ground (arith, z)) hb hh
        (sym (other z) ∙ e)
]
  where
    none_some : none ≡ some ms → ⊥
    none_some q = cc

    empty : (size == 0) ≡ true → fmemopen buf size mode heap ≡ none
    empty z = rw z

    other :
        (size == 0) ≡ false
        → fmemopen buf size mode heap ≡ open_with (type_to_flags mode) buf size heap
    other z = rw z
