-- ===== src/Db/State.antt =====
-- The DB structure of apue.3e/db/db.c, the calls that end the process, the system calls on the
-- two files, and the trace of record locks.
use my_study.Base.{ℕ, Bool, Option, none, some, List, ◌∷◌, if◌then◌else◌}
use my_study.Base.Int.{ℤ, pos, negsuc}
use my_study.Base.Bytes.{Bytes}
use my_study.Posix.{File, read, write}

-- IDXLEN_SZ
abbrev pub idxlen_sz : ℕ
idxlen_sz = 4

-- PTR_SZ, and HASH_OFF
abbrev pub ptr_sz : ℕ
ptr_sz = 7

-- PTR_MAX
abbrev pub ptr_max : ℕ
ptr_max = 9_999_999

-- NHASH_DEF
abbrev pub nhash_def : ℕ
nhash_def = 137

-- FREE_OFF
abbrev pub free_off : ℕ
free_off = 0

-- IDXLEN_MIN
abbrev pub idxlen_min : ℕ
idxlen_min = 6

-- IDXLEN_MAX
abbrev pub idxlen_max : ℕ
idxlen_max = 1024

-- DATLEN_MIN
abbrev pub datlen_min : ℕ
datlen_min = 2

-- DATLEN_MAX
abbrev pub datlen_max : ℕ
datlen_max = 1024

-- SEP
abbrev pub sep : ℕ
sep = b':'

-- SPACE
abbrev pub space : ℕ
space = 32

-- NEWLINE
abbrev pub newline : ℕ
newline = 10

pub data Fd : Type 0 where
  idxfd datfd : Fd

-- Calls of the record locks: descriptor, first byte, and length, where 0 reaches to the end.
pub data LockCall : Type 0 where
  writew_lock readw_lock un_lock : Fd → ℕ → ℕ → LockCall

-- `off_t` fields that the code keeps from being negative are natural numbers. A buffer is the C
-- string that it holds. `locks` is the trace of lock calls, the latest first.
pub record Db : Type 0 where
  pub idx : File
  pub dat : File
  pub idxbuf : Bytes
  pub datbuf : Bytes
  pub name : Bytes
  pub idxoff : ℕ
  pub idxlen : ℕ
  pub datoff : ℕ
  pub datlen : ℕ
  pub ptrval : ℤ
  pub ptroff : ℤ
  pub chainoff : ℕ
  pub hashoff : ℕ
  pub nhash : ℕ
  pub cnt_delok : ℕ
  pub cnt_delerr : ℕ
  pub cnt_fetchok : ℕ
  pub cnt_fetcherr : ℕ
  pub cnt_nextrec : ℕ
  pub cnt_stor1 : ℕ
  pub cnt_stor2 : ℕ
  pub cnt_stor3 : ℕ
  pub cnt_stor4 : ℕ
  pub cnt_storerr : ℕ
  pub locks : List LockCall

-- The messages of err_dump and err_quit, which end the process; `overflow` stands for a sprintf
-- that writes past the end of its buffer.
pub data Error : Type 0 where
  lseek_error read_error : Error
  invalid_length missing_newline missing_first_separator missing_second_separator : Error
  too_many_separators negative_offset invalid_ptr invalid_data_length overflow : Error

-- `out_of_fuel` is the model's: a loop went more rounds than it was given.
pub data Run (A : Type 0) : Type 0 where
  ok : A → Db → Run A
  fatal : Error → Run A
  out_of_fuel : Run A

abbrev pub M : Type 0 → Type 0
M A = Db → Run A

abbrev pub pure : {A : Type 0} → A → M A
pure = ok

abbrev pub fail : {A : Type 0} → Error → M A
fail e = λ db. fatal e

module _ {A B : Type 0} where
  abbrev pub and_then : Run A → (A → M B) → Run B
  and_then (ok a db) k = k a db
  and_then (fatal e) k = fatal e
  and_then out_of_fuel k = out_of_fuel

  infixl 5 ◌>>=◌ ◌>>◌
  abbrev pub ◌>>=◌ : M A → (A → M B) → M B
  m >>= k = λ db. and_then (m db) k

  abbrev pub ◌>>◌ : M A → M B → M B
  m >> n = m >>= λ _. n

abbrev pub get : M Db
get db = ok db db

abbrev pub modify : (Db → Db) → M (Unit {0})
modify f db = ok tt (f db)

abbrev pub check : Bool → Error → M (Unit {0})
check b e = if b then pure tt else fail e

abbrev pub require : {A : Type 0} → Error → Option A → M A
require e none = fail e
require e (some a) = pure a

-- A value that may not be negative.
abbrev pub natural : Error → ℤ → M ℕ
natural e (pos n) = pure n
natural e (negsuc n) = fail e

abbrev pub call_lock : LockCall → M (Unit {0})
call_lock c = modify (λ db. record db { locks = c ∷ db.locks })

-- `lseek(fd, offset, SEEK_SET)`
unfoldable pub seek_idx : ℤ → M ℕ
seek_idx (pos n) db = ok n (record db { idx = record { bytes = db.idx.bytes; offset = n } })
seek_idx (negsuc n) db = fatal Error.lseek_error

unfoldable pub seek_dat : ℕ → M ℕ
seek_dat n db = ok n (record db { dat = record { bytes = db.dat.bytes; offset = n } })

-- `read(fd, …, n)`
unfoldable pub read_idx : ℕ → M Bytes
unfolding read
read_idx n db = let (got, f) = read db.idx n in ok got (record db { idx = f })

unfoldable pub read_dat : ℕ → M Bytes
unfolding read
read_dat n db = let (got, f) = read db.dat n in ok got (record db { dat = f })

-- `write(fd, …)`
unfoldable pub write_idx : Bytes → M (Unit {0})
unfolding write
write_idx d db = ok tt (record db { idx = write db.idx d })

unfoldable pub write_dat : Bytes → M (Unit {0})
unfolding write
write_dat d db = ok tt (record db { dat = write db.dat d })
