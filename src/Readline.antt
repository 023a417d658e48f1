-- ===== src/Readline.antt =====
-- The buffered lines of unpv13e/lib/readline.c.
pub mod Lines
mod Examples
use my_study.Base.{ℕ, zero, suc, ◌+◌, ◌-◌, ◌==◌, List, [], ◌∷◌, ◌++◌, if◌then◌else◌}
use my_study.Base.Bytes.{Bytes}

-- What read(2) returns: a byte and those behind it, at most as many as `read_buf` holds, EINTR, or
-- another error. Where no more results are given it is at the end of the file.
pub data Read : Type 0 where
  got : ℕ → Bytes → Read
  interrupted failed : Read

-- The static variables, `read_cnt` bytes at `read_ptr`, and the results of the reads to come. After
-- an error read_cnt is -1, which my_read treats like 0.
pub record Reader : Type 0 where
  pub buffer : Bytes
  pub reads : List Read

-- What `my_read` returns: 1 and the byte, 0, or -1.
pub data Got : Type 0 where
  byte : ℕ → Got
  eof error : Got

-- The code from `again` on.
unfoldable pub refill : List Read → Got × Reader
refill [] = (Got.eof, record { buffer = []; reads = [] })
refill (Read.got c s ∷ rs) = (Got.byte c, record { buffer = s; reads = rs })
refill (Read.interrupted ∷ rs) = refill rs
refill (Read.failed ∷ rs) = (Got.error, record { buffer = []; reads = rs })

-- `my_read` with what the buffer holds.
unfoldable pub next_byte : Bytes → List Read → Got × Reader
next_byte [] rs = refill rs
next_byte (c ∷ s) rs = (Got.byte c, record { buffer = s; reads = rs })

-- `my_read`
unfoldable pub my_read : Reader → Got × Reader
my_read r = next_byte r.buffer r.reads

-- What `readline` returns and stores: the count with the bytes before the NUL, or -1.
pub data Line : Type 0 where
  line : ℕ → Bytes → Line
  failed : Line

abbrev pub newline : ℕ
newline = b'\n'

-- The body of the for loop, where `n` and the bytes so far are given; `again` goes round it.
unfoldable pub line_step :
    ℕ → Bytes → (ℕ → Bytes → Reader → Line × Reader) → Got × Reader → Line × Reader
line_step n stored again (Got.byte c, r) =
    if c == newline
    then (Line.line n (stored ++ (c ∷ [])), r)
    else again (suc n) (stored ++ (c ∷ [])) r
line_step n stored again (Got.eof, r) = (Line.line (n - 1) stored, r)
line_step n stored again (Got.error, r) = (Line.failed, r)

-- The for loop, for as many rounds as are left, `maxlen - n`.
unfoldable pub line_loop : ℕ → ℕ → Bytes → Reader → Line × Reader
line_loop zero n stored r = (Line.line n stored, r)
line_loop (suc left) n stored r = line_step n stored (line_loop left) (my_read r)

-- `readline`
unfoldable pub readline : ℕ → Reader → Line × Reader
readline maxlen r = line_loop (maxlen - 1) 1 [] r

-- `readlinebuf`: the count and the bytes at `*vptrptr`, where the buffer is not at an error.
abbrev pub readlinebuf : Reader → Bytes
readlinebuf r = r.buffer
