-- ===== src/Posix.antt =====
-- Regular files as read(2), write(2) and lseek(2) see them through one open descriptor: bytes, and
-- the offset of the next transfer. Transfers meet no device error.
pub mod Transfers
use my_study.Base.{ℕ, zero, suc, ◌+◌, List, [], ◌∷◌, ◌++◌, length, take, drop}
use my_study.Base.Bytes.{Bytes}

pub record File : Type 0 where
  pub bytes : Bytes
  pub offset : ℕ

-- What read delivers: at most `n` bytes, fewer at the end of the file.
unfoldable pub slice : Bytes → ℕ → ℕ → Bytes
slice f offset n = take n (drop offset f)

-- The file after a write: a gap behind the old end reads as NUL bytes.
unfoldable pub overwrite : Bytes → ℕ → Bytes → Bytes
overwrite [] zero d = d
overwrite [] (suc offset) d = 0 ∷ overwrite [] offset d
overwrite (b ∷ f) zero d = d ++ drop (length d) (b ∷ f)
overwrite (b ∷ f) (suc offset) d = b ∷ overwrite f offset d

unfoldable pub read : File → ℕ → Bytes × File
unfolding slice
read f n = let got = slice f.bytes f.offset n in (got, record f { offset = f.offset + length got })

unfoldable pub write : File → Bytes → File
unfolding overwrite
write f d = record { bytes = overwrite f.bytes f.offset d; offset = f.offset + length d }
