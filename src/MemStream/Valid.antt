-- ===== src/MemStream/Valid.antt =====
-- What it means that the sizes of a memory stream agree, and that the copy of a write keeps it.
use my_study.Base.{
  ℕ, ◌+◌, ◌-◌, ◌≤◌, ◌<◌, ◌≡◌, refl, ◌∙◌, inl, inr, Bool, true, false, ◌&&◌, ◌||◌, not, [], ◌∷◌,
  length, ltb, if◌then◌else◌, arith, Bool-cases,
}
use my_study.Base.Bytes.{Bytes}
use my_study.Posix.{overwrite}
use my_study.Posix.Transfers.{length-overwrite_inside}
use my_study.MemStream.{MemStream, copy_in, close_off}

-- The position is within the virtual size, that within the real size, and that is the buffer's.
pub record Valid (ms : MemStream) : Type 0 where
  pub whole : length ms.buf ≡ ms.rsize
  pub room : 0 < ms.rsize
  pub virtual : ms.vsize ≤ ms.rsize
  pub position : ms.curpos ≤ ms.vsize

length-set :
    (buf : Bytes) (n off : ℕ) (c : ℕ)
    → length buf ≡ n
    → off < n
    → length (overwrite buf off (c ∷ [])) ≡ n
length-set buf n off c w h = length-overwrite_inside buf off (c ∷ []) (omega (arith, w)) ∙ w

length-set_if :
    (b : Bool) (buf : Bytes) (n off : ℕ)
    → length buf ≡ n
    → (b ≡ true → off < n)
    → length (if b then overwrite buf off (0 ∷ []) else buf) ≡ n
length-set_if true buf n off w h = length-set buf n off 0 w (h refl)
length-set_if false buf n off w h = w

pub copy_in-Valid :
    (bytes : Bytes) (off : ℕ) (ms : MemStream)
    → Valid ms
    → off + length bytes ≤ ms.rsize
    → Valid (copy_in bytes off ms)
unfolding copy_in
copy_in-Valid bytes off ms v h =
    let n = off + length bytes in
    let copied : length (overwrite ms.buf off bytes) ≡ ms.rsize =
      length-overwrite_inside ms.buf off bytes (omega (arith, v.whole, h)) ∙ v.whole in
    elim (Bool-cases (ltb ms.vsize n)) [
      | inl b ↦ rw b (record {
        whole =
            length-set_if (ms.flags.ms_read && ms.flags.ms_write && ltb n ms.rsize)
              (overwrite ms.buf off bytes) ms.rsize n copied
              (below ms.flags.ms_read ms.flags.ms_write n);
        room = v.room;
        virtual = h;
        position = omega arith;
      })
      | inr b ↦ rw b (record {
        whole = copied;
        room = v.room;
        virtual = v.virtual;
        position = ground (arith, b);
      })
    ]
  where
    below : (r w : Bool) (n : ℕ) → (r && w && ltb n ms.rsize) ≡ true → n < ms.rsize
    below r w n e = ground (arith, e)

pub close_off-Valid : (ms : MemStream) → Valid ms → Valid (close_off ms)
unfolding close_off
close_off-Valid ms v =
    elim (Bool-cases ((ms.flags.ms_write || ms.flags.ms_append) && not ms.flags.ms_read)) [
      | inl b ↦
          rw b
            (record { whole = closed; room = v.room; virtual = v.virtual; position = v.position })
      | inr b ↦ rw b v
    ]
  where
    closed :
        length (
          if ltb ms.curpos ms.rsize
          then overwrite ms.buf ms.curpos (0 ∷ [])
          else overwrite ms.buf (ms.rsize - 1) (0 ∷ []))
        ≡ ms.rsize
    closed = elim (Bool-cases (ltb ms.curpos ms.rsize)) [
      | inl b ↦ rw b (length-set ms.buf ms.rsize ms.curpos 0 v.whole (ground (arith, b)))
      | inr b ↦ rw b (length-set ms.buf ms.rsize (ms.rsize - 1) 0 v.whole (omega (arith, v.room)))
    ]
