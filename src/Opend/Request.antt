-- ===== src/Opend/Request.antt =====
-- A request of the open server: csopen of apue.3e/ipc2/open/open.c, buf_args of apue.3e/lib/bufargs.c,
-- and cli_args and handle_request of apue.3e/ipc2/opend.
use my_study.Base.{
  ℕ, zero, suc, ◌==◌, ◌-◌, ltb, Bool, ◌||◌, Option, none, some, List, [], ◌∷◌, ◌++◌, length,
  if◌then◌else◌,
}
use my_study.Base.Int.{ℤ}
use my_study.Base.Bytes.{Bytes, c_string, str_eq, atol, decimal}

-- WHITE
abbrev pub is_white : ℕ → Bool
is_white c = c == 32 || c == 9 || c == 10

-- strtok without the delimiters in front of a token.
unfoldable pub skip_white : Bytes → Bytes
skip_white [] = []
skip_white (c ∷ s) = let rest = skip_white s in if is_white c then rest else c ∷ s

-- The token that starts a text, and what is behind the delimiter that ends it.
unfoldable pub word : Bytes → Bytes × Bytes
word [] = ([], [])
word (c ∷ s) = let rest = word s in if is_white c then ([], s) else (c ∷ rest.0, rest.1)

-- A token and what `more` finds behind it, or the end of the text.
abbrev pub token_then : (Bytes → List Bytes) → Bytes → List Bytes
token_then more [] = []
token_then more (c ∷ s) = (word (c ∷ s)).0 ∷ more (word (c ∷ s)).1

-- The tokens of the calls of strtok; each has a byte, so that the length of the text is enough fuel.
unfoldable pub tokens_from : ℕ → Bytes → List Bytes
tokens_from zero s = []
tokens_from (suc fuel) s = token_then (tokens_from fuel) (skip_white s)

-- `argv[0]`, which is the start of `buf` up to the end of its first token.
unfoldable pub argv_0 : Bytes → Bytes
unfolding word
argv_0 [] = []
argv_0 (c ∷ s) = let rest = argv_0 s in if is_white c then c ∷ rest else (word (c ∷ s)).0

-- MAXARGC
abbrev pub maxargc : ℕ
maxargc = 50

-- The array for the tokens, where there are not too many.
abbrev pub argv_of : Bytes → List Bytes → Option (List Bytes)
argv_of buf [] = none
argv_of buf (w ∷ ws) = if ltb (length ws) (maxargc - 1) then some (argv_0 buf ∷ ws) else none

-- `buf_args`: the argument of `optfunc`, or none for -1.
unfoldable pub buf_args : Bytes → Option (List Bytes)
buf_args buf = argv_of buf (tokens_from (length buf) buf)

-- CL_OPEN
abbrev pub cl_open : Bytes
cl_open = b'o' ∷ b'p' ∷ b'e' ∷ b'n' ∷ []

-- `cli_args`: `pathname` and `oflag`, or none for -1.
unfoldable pub cli_args : List Bytes → Option (Bytes × ℤ)
cli_args (a ∷ path ∷ flag ∷ []) = if str_eq a cl_open then some (path, atol flag) else none
cli_args _ = none

-- What the server does: an error message, where `usage` is what errmsg holds, or the descriptor that
-- it opened for the path.
pub data Reply : Type 0 where
  unterminated usage : Reply
  cannot_open : Bytes → Reply
  sent : ℕ → Bytes → ℤ → Reply

-- `buf[nread - 1]`; the callers have read a byte.
unfoldable pub last_byte : Bytes → ℕ
last_byte [] = 1
last_byte (c ∷ []) = c
last_byte (c ∷ d ∷ s) = last_byte (d ∷ s)

abbrev pub opened : Option ℕ → Bytes → ℤ → Reply
opened none path flag = Reply.cannot_open path
opened (some fd) path flag = Reply.sent fd path flag

-- The end of `handle_request`; `open_file` is open(2).
abbrev pub answer : (Bytes → ℤ → Option ℕ) → Option (Bytes × ℤ) → Reply
answer open_file none = Reply.usage
answer open_file (some (path, flag)) = opened (open_file path flag) path flag

abbrev pub options : Option (List Bytes) → Option (Bytes × ℤ)
options none = none
options (some argv) = cli_args argv

-- `handle_request` on the bytes that were read.
unfoldable pub handle_request : (Bytes → ℤ → Option ℕ) → Bytes → Reply
handle_request open_file buf =
    if last_byte buf == 0
    then answer open_file (options (buf_args (c_string buf)))
    else Reply.unterminated

-- What `csopen` writes, for a flag that is not negative.
unfoldable pub csopen : Bytes → ℕ → Bytes
csopen name oflag = (cl_open ++ (32 ∷ (name ++ (32 ∷ decimal oflag)))) ++ (0 ∷ [])
