-- ===== src/Nonblock.antt =====
-- `str_cli` of unpv13e/nonblock/strclinonb.c: two buffers between standard input, a socket and
-- standard output, all non-blocking, and the loop round select.
pub mod Flow
mod Examples
use my_study.Base.{
  ℕ, zero, suc, ◌+◌, ◌-◌, Bool, true, false, ◌&&◌, ◌||◌, not, List, [], ◌∷◌, ◌++◌, length, take,
  ltb, ◌==◌, if◌then◌else◌, min, replicate,
}
use my_study.Base.Bytes.{Bytes}
use my_study.Posix.{slice, overwrite}

-- MAXLINE
abbrev pub maxline : ℕ
maxline = 4096

-- One buffer with its pointers: `to`, `toiptr`, `tooptr`, or `fr`, `friptr`, `froptr`.
pub record Buffer : Type 0 where
  pub bytes : Bytes
  pub iptr : ℕ
  pub optr : ℕ

-- `sent` and `shown` are what went to the socket and to standard output, `typed` and `received` what
-- came from standard input and the socket, `shutdowns` the calls of Shutdown.
pub record Client : Type 0 where
  pub to : Buffer
  pub fr : Buffer
  pub stdineof : Bool
  pub typed : Bytes
  pub sent : Bytes
  pub received : Bytes
  pub shown : Bytes
  pub shutdowns : ℕ

abbrev pub fresh_buffer : Buffer
fresh_buffer = record { bytes = replicate maxline 0; iptr = 0; optr = 0 }

-- The state before the loop.
abbrev pub first : Client
first = record {
  to = fresh_buffer;
  fr = fresh_buffer;
  stdineof = false;
  typed = [];
  sent = [];
  received = [];
  shown = [];
  shutdowns = 0;
}

-- What read and write return: EWOULDBLOCK, another error, the end of the file, bytes, and a count.
pub data ReadResult : Type 0 where
  would_block read_error : ReadResult
  got : Bytes → ReadResult

pub data WriteResult : Type 0 where
  would_block write_error : WriteResult
  took : ℕ → WriteResult

-- What one round meets: the descriptors that select finds ready, and what the calls on them return.
pub record Round : Type 0 where
  pub stdin_ready : Bool
  pub stdin : ReadResult
  pub sock_readable : Bool
  pub sock_in : ReadResult
  pub stdout_ready : Bool
  pub stdout : WriteResult
  pub sock_writable : Bool
  pub sock_out : WriteResult

-- The calls that end the process.
pub data Quit : Type 0 where
  stdin_failed socket_read_failed server_terminated stdout_failed socket_write_failed : Quit

-- `going` stays in the loop, with whether a descriptor is to be written; `returned` is the return.
pub data Step : Type 0 where
  going : Client → Bool → Step
  returned : Client → Step
  quit : Quit → Step

-- The bytes in a buffer that are still to be written.
unfoldable pub pending : Buffer → Bytes
unfolding slice
pending b = slice b.bytes b.optr (b.iptr - b.optr)

-- A read into the buffer; read(2) returns at most the room asked for.
unfoldable pub fill : Bytes → Buffer → Buffer
unfolding overwrite
fill bs b = record { bytes = overwrite b.bytes b.iptr bs; iptr = b.iptr + length bs; optr = b.optr }

abbrev pub fitting : Buffer → Bytes → Bytes
fitting b bs = take (maxline - b.iptr) bs

-- A write of `k` bytes from the buffer, back to its beginning when it is empty.
unfoldable pub drain : ℕ → Buffer → Buffer
drain k b =
    if b.optr + k == b.iptr
    then record { bytes = b.bytes; iptr = 0; optr = 0 }
    else record { bytes = b.bytes; iptr = b.iptr; optr = b.optr + k }

-- The end of standard input, and bytes from it.
unfoldable pub stdin_got : Bytes → Client → Bool → Step
stdin_got [] c wset =
    Step.going
      (record c {
        stdineof = true;
        shutdowns = if c.to.optr == c.to.iptr then suc c.shutdowns else c.shutdowns;
      })
      wset
stdin_got (b ∷ bs) c wset =
    Step.going (record c { to = fill (b ∷ bs) c.to; typed = c.typed ++ (b ∷ bs) }) true

-- Standard input, where it is asked for and ready; the flag says whether `sockfd` is in `wset`.
unfoldable pub read_stdin : ReadResult → Client → Bool → Step
read_stdin ReadResult.would_block c wset = Step.going c wset
read_stdin ReadResult.read_error c wset = Step.quit Quit.stdin_failed
read_stdin (ReadResult.got bs) c wset = stdin_got (fitting c.to bs) c wset

-- The end of the socket, and bytes from it.
unfoldable pub socket_got : Bytes → Client → Bool → Step
socket_got [] c wset = if c.stdineof then Step.returned c else Step.quit Quit.server_terminated
socket_got (b ∷ bs) c wset =
    Step.going (record c { fr = fill (b ∷ bs) c.fr; received = c.received ++ (b ∷ bs) }) true

-- The socket, where it is asked for and readable; the flag is for standard output.
unfoldable pub read_socket : ReadResult → Client → Bool → Step
read_socket ReadResult.would_block c wset = Step.going c wset
read_socket ReadResult.read_error c wset = Step.quit Quit.socket_read_failed
read_socket (ReadResult.got bs) c wset = socket_got (fitting c.fr bs) c wset

-- Standard output, where there is something to write; write(2) takes at most what it is given.
unfoldable pub write_stdout : WriteResult → Client → Step
write_stdout WriteResult.would_block c = Step.going c false
write_stdout WriteResult.write_error c = Step.quit Quit.stdout_failed
write_stdout (WriteResult.took k) c =
    let n = min k (c.fr.iptr - c.fr.optr) in
    Step.going (record c { fr = drain n c.fr; shown = c.shown ++ take n (pending c.fr) }) false

-- The socket, likewise; the FIN follows the last byte behind the end of standard input.
unfoldable pub write_socket : WriteResult → Client → Step
write_socket WriteResult.would_block c = Step.going c false
write_socket WriteResult.write_error c = Step.quit Quit.socket_write_failed
write_socket (WriteResult.took k) c =
    let n = min k (c.to.iptr - c.to.optr) in
    Step.going
      (record c {
        to = drain n c.to;
        sent = c.sent ++ take n (pending c.to);
        shutdowns =
            if c.to.optr + n == c.to.iptr && c.stdineof then suc c.shutdowns else c.shutdowns;
      })
      false

abbrev pub then_go : Step → (Client → Bool → Step) → Step
then_go (Step.going c w) next = next c w
then_go (Step.returned c) next = Step.returned c
then_go (Step.quit q) next = Step.quit q

-- The four parts of a round. select reports only what it was asked for.
abbrev pub ask_stdin : Client → Bool
ask_stdin c = not c.stdineof && ltb c.to.iptr maxline

abbrev pub from_stdin : Round → Client → Step
from_stdin r c =
    let wset = not (c.to.optr == c.to.iptr) && r.sock_writable in
    if ask_stdin c && r.stdin_ready then read_stdin r.stdin c wset else Step.going c wset

-- `wset` for standard output is the answer to the question before anything was read.
abbrev pub from_socket : Round → Bool → Client → Step
from_socket r wset c =
    if ltb c.fr.iptr maxline && r.sock_readable
    then read_socket r.sock_in c wset
    else Step.going c wset

abbrev pub to_stdout : Round → Client → Bool → Step
to_stdout r c wset =
    if wset && ltb c.fr.optr c.fr.iptr then write_stdout r.stdout c else Step.going c false

abbrev pub to_socket : Round → Client → Bool → Step
to_socket r c wset =
    if wset && ltb c.to.optr c.to.iptr then write_socket r.sock_out c else Step.going c false

abbrev pub writes : Round → Bool → Client → Bool → Step
writes r sock_w c out_w = then_go (to_stdout r c out_w) λ c w. to_socket r c sock_w

abbrev pub behind_stdin : Round → Client → Bool → Step
behind_stdin r c sock_w =
    then_go (from_socket r (not (c.fr.optr == c.fr.iptr) && r.stdout_ready) c) (writes r sock_w)

-- One round of the loop.
unfoldable pub round : Round → Client → Step
round r c = then_go (from_stdin r c) (behind_stdin r)
