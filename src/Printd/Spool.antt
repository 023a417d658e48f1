-- ===== src/Printd/Spool.antt =====
-- The spool directory of apue.3e/printer/printd.c: client_thread, which takes a job from a client,
-- build_qonstart, and the job numbers.
use my_study.Base.{
  ℕ, ◌+◌, ◌^◌, ◌==◌, ltb, Bool, true, false, not, Option, none, some, List, [], ◌∷◌, ◌++◌, length,
  drop, take, if◌then◌else◌,
}
use my_study.Base.Int.{ℤ, pos}
use my_study.Base.Bytes.{Bytes, str_eq, decimal, atol}

-- `struct printreq`, the flag PR_TEXT apart; `flags` are the other bits.
pub record PrintReq : Type 0 where
  pub size : ℕ
  pub text : Bool
  pub flags : ℕ
  pub usernm : Bytes
  pub jobnm : Bytes

-- A file of the directory reqs: the request, or less than one.
pub data ReqFile : Type 0 where
  whole : PrintReq → ReqFile
  torn : ReqFile

-- The two directories by the names of their files, which are job numbers; none is no file. `pending`
-- is the list of jobs, and `nextjob` stands between 1 and 2^31 - 1.
pub record Spool : Type 0 where
  pub data_files : ℕ → Option Bytes
  pub req_files : ℕ → Option ReqFile
  pub pending : List (ℕ × PrintReq)
  pub nextjob : ℕ

module _ {ℓ} {A : Type ℓ} where
  -- A file is made or replaced, or unlinked.
  abbrev pub put : (ℕ → Option A) → ℕ → Option A → ℕ → Option A
  put files id file n = if n == id then file else files n

-- What a call that makes or writes a file returns: success, a number of bytes that is less than it
-- was given, or -1 with the number of the error.
pub data Done : Type 0 where
  done : Done
  short failed : ℕ → Done

-- A round of the while loop: the bytes that tread returned, and what the write returned. `stale` is
-- what the buffer holds behind them.
pub record Block : Type 0 where
  pub bytes : Bytes
  pub stale : Bytes
  pub written : Done

-- The calls of one client: treadn of the request, creat of the two files, the blocks up to the end
-- of the data, a timeout or an error, and the write of the request.
pub record Calls : Type 0 where
  pub header : Option PrintReq
  pub header_error : ℕ
  pub creat_data : Done
  pub blocks : List Block
  pub creat_req : Done
  pub write_req : Done

-- `retcode` and `jobid` of the response.
pub data Response : Type 0 where
  refused : ℕ → Response
  accepted : ℕ → Response

-- EIO
abbrev pub eio : ℕ
eio = 5

abbrev pub errno_of : Done → ℕ
errno_of (Done.failed e) = e
errno_of _ = eio

abbrev pub is_done : Done → Bool
is_done Done.done = true
is_done _ = false

-- The bytes that a write puts into the file.
abbrev pub taken : Done → Bytes → Bytes
taken Done.done bytes = bytes
taken (Done.short k) bytes = take k bytes
taken (Done.failed e) bytes = []

-- `get_newjobno`; the counter of 32 bits goes from its largest value to a negative one.
abbrev pub next_jobno : ℕ → ℕ
next_jobno n = if ltb (n + 1) (2 ^ 31) then n + 1 else 1

-- "%!PS"
abbrev pub ps_mark : Bytes
ps_mark = b'%' ∷ b'!' ∷ b'P' ∷ b'S' ∷ []

-- Whether strncmp finds no "%!PS" at the start of `buf` in the first round: in what the first read
-- returned, with what the buffer holds behind that.
unfoldable pub is_text : List Block → Bool
is_text [] = false
is_text (b ∷ bs) = not (str_eq (take 4 (b.bytes ++ b.stale)) ps_mark)

-- The while loop: what the data file holds behind `file`, and the number of the error that ends it.
unfoldable pub copy_blocks : Bytes → List Block → Bytes × Option ℕ
copy_blocks file [] = (file, none)
copy_blocks file (b ∷ bs) =
    let rest = copy_blocks (file ++ b.bytes) bs in
    if is_done b.written then rest else (file ++ taken b.written b.bytes, some (errno_of b.written))

-- The flag is set in the copy of the request.
abbrev pub mark_text : Bool → PrintReq → PrintReq
mark_text true req = record req { text = true }
mark_text false req = req

abbrev pub add_pending : Spool → ℕ → PrintReq → Spool
add_pending s id req = record s { pending = s.pending ++ ((id, req) ∷ []) }

abbrev pub set_data : Spool → ℕ → Option Bytes → Spool
set_data s id file = record s { data_files = put s.data_files id file }

abbrev pub set_req : Spool → ℕ → Option ReqFile → Spool
set_req s id file = record s { req_files = put s.req_files id file }

-- The write of the request to the control file, which creat left empty and a write that is short or
-- fails leaves torn; the unlinks where it is not whole, and the end.
unfoldable pub write_request : Done → Spool → ℕ → PrintReq → Response × Spool
write_request Done.done s id req =
    (Response.accepted id, add_pending (set_req s id (some (ReqFile.whole req))) id req)
write_request (Done.short k) s id req = (Response.refused eio, set_data (set_req s id none) id none)
write_request (Done.failed e) s id req = (Response.refused e, set_data (set_req s id none) id none)

-- The control file: creat makes it empty.
unfoldable pub write_control : Calls → Spool → ℕ → PrintReq → Response × Spool
unfolding write_request
write_control c s id req =
    if is_done c.creat_req
    then write_request c.write_req (set_req s id (some ReqFile.torn)) id req
    else (Response.refused (errno_of c.creat_req), set_data s id none)

-- What follows the while loop, or what its error does to the data file.
unfoldable pub store_data : Calls → Spool → ℕ → PrintReq → Bytes × Option ℕ → Response × Spool
store_data c s id req (file, none) =
    write_control c (set_data s id (some file)) id (mark_text (is_text c.blocks) req)
store_data c s id req (file, some e) =
    (Response.refused e, set_data (set_data s id (some file)) id none)

abbrev pub take_number : Spool → Spool
take_number s = record s { nextjob = next_jobno s.nextjob }

-- `client_thread` behind treadn.
unfoldable pub take_job : Calls → Spool → Option PrintReq → Response × Spool
take_job c s none = (Response.refused c.header_error, s)
take_job c s (some req) =
    if is_done c.creat_data
    then store_data c (set_data (take_number s) s.nextjob (some [])) s.nextjob req
        (copy_blocks [] c.blocks)
    else (Response.refused (errno_of c.creat_data), take_number s)

-- `client_thread`
unfoldable pub client_thread : Calls → Spool → Response × Spool
client_thread c s = take_job c s c.header

-- What open and read do to an entry of the directory reqs: open fails, read delivers what the file
-- holds, or it fails.
pub data Opening : Type 0 where
  unopened opened unreadable : Opening

pub record Entry : Type 0 where
  pub number : ℕ
  pub opening : Opening

-- The end of a request that cannot be read whole.
abbrev pub drop_job : Spool → ℕ → Spool
drop_job s id = set_data (set_req s id none) id none

-- A file that was read.
unfoldable pub add_read : Spool → ℕ → Option ReqFile → Spool
add_read s id (some (ReqFile.whole req)) = add_pending s id req
add_read s id _ = drop_job s id

-- One round of the while loop.
unfoldable pub add_entry : Entry → Spool → Spool
unfolding add_read
add_entry e s = elim e.opening [
  | Opening.unopened ↦ s
  | Opening.opened ↦ add_read s e.number (s.req_files e.number)
  | Opening.unreadable ↦ drop_job s e.number
]

-- `build_qonstart` on the entries but "." and "..".
unfoldable pub build_qonstart : List Entry → Spool → Spool
unfolding add_entry
build_qonstart [] s = s
build_qonstart (e ∷ es) s = build_qonstart es (add_entry e s)

-- The file of the job number: `update_jobno` writes from its start and leaves what is behind.
unfoldable pub update_jobno : Bytes → ℕ → Bytes
update_jobno file nextjob = decimal nextjob ++ drop (length (decimal nextjob)) file

-- `init_request`, as far as the number goes.
unfoldable pub init_request : Bytes → ℤ
init_request [] = pos 1
init_request (c ∷ s) = atol (c ∷ s)
