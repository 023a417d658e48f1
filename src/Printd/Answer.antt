-- ===== src/Printd/Answer.antt =====
-- What client_thread of apue.3e/printer/printd.c does to the spool directory on each of its branches.
use my_study.Base.{
  ℕ, ◌≡◌, ◌≢◌, refl, sym, ap, ◌∙◌, ◌==◌, ==→eq, ne→==, ==_refl, Bool, false, Option, none, some,
  List, [], ◌∷◌, ◌++◌, append_assoc, append-nil, ◌⊎◌, inl, inr, arith, Bool-cases,
}
use my_study.Base.Bytes.{Bytes}
use my_study.Printd.Marked.{Marked, is_text-Marked}
use my_study.Printd.Spool.{
  PrintReq, ReqFile, Spool, put, Block, Calls, Done, Response, is_done, is_text, copy_blocks,
  mark_text, set_data, set_req, write_request, write_control, store_data, take_number, take_job,
  client_thread,
}

module _ {ℓ} {A : Type ℓ} where
  pub put-same : (files : ℕ → Option A) (id : ℕ) (file : Option A) → put files id file id ≡ file
  put-same files id file = rw (==_refl id)

  pub put-other :
      (files : ℕ → Option A) (id n : ℕ) (file : Option A) → n ≢ id → put files id file n ≡ files n
  put-other files id n file ne = rw (ne→== n id ne)

  -- A name that was not there and is not there again.
  pub put-back :
      (files files' : ℕ → Option A) (id n : ℕ)
      → files id ≡ none
      → (n ≢ id → files' n ≡ files n)
      → put files' id none n ≡ files n
  put-back files files' id n unused same = elim (Bool-cases (n == id)) [
    | inl here ↦ rw here (sym unused ∙ sym (ap files (==→eq n id here)))
    | inr there ↦ let ne : n ≢ id = ground arith in rw there (same ne)
  ]

-- The bytes of the blocks in order.
abbrev pub joined : List Block → Bytes
joined [] = []
joined (b ∷ bs) = b.bytes ++ joined bs

-- A write of a block fails or is short.
abbrev pub AnyFailed : List Block → Type 0
AnyFailed [] = ⊥
AnyFailed (b ∷ bs) = (is_done b.written ≡ false) ⊎ AnyFailed bs

-- One of a client's calls fails.
pub data Failing (c : Calls) : Type 0 where
  no_header : c.header ≡ none → Failing c
  no_data : is_done c.creat_data ≡ false → Failing c
  no_block : AnyFailed c.blocks → Failing c
  no_control : is_done c.creat_req ≡ false → Failing c
  no_request : is_done c.write_req ≡ false → Failing c

-- The files but those of one job are the same.
abbrev pub SameBut : ℕ → Spool → Spool → Type 0
SameBut id s s' =
    (n : ℕ) → n ≢ id → (s'.req_files n ≡ s.req_files n) × (s'.data_files n ≡ s.data_files n)

-- A job that is refused: a call failed, and the files and the list are what they were.
pub record Refused (c : Calls) (s s' : Spool) : Type 0 where
  pub failing : Failing c
  pub files : (n : ℕ) → (s'.req_files n ≡ s.req_files n) × (s'.data_files n ≡ s.data_files n)
  pub list : s'.pending ≡ s.pending

-- A job that is accepted: its number is the next one, the request that came, with PR_TEXT set where
-- the buffer behind the first read does not start as PostScript does, and all bytes of its data are
-- stored, it is the last of the list, and other files are the same.
pub record Accepted (c : Calls) (s : Spool) (id : ℕ) (s' : Spool) : Type 0 where
  pub number : id ≡ s.nextjob
  pub req : PrintReq
  pub came : c.header ≡ some req
  pub text : Bool
  pub marked : Marked c.blocks text
  pub request : s'.req_files id ≡ some (ReqFile.whole (mark_text text req))
  pub data_file : s'.data_files id ≡ some (joined c.blocks)
  pub list : s'.pending ≡ s.pending ++ ((id, mark_text text req) ∷ [])
  pub others : SameBut id s s'

abbrev pub Answer : Calls → Spool → Response × Spool → Type 0
Answer c s (Response.refused e, s') = Refused c s s'
Answer c s (Response.accepted id, s') = Accepted c s id s'

-- How the while loop ends.
abbrev Copied : List Block → Bytes → Bytes × Option ℕ → Type 0
Copied bs file (stored, none) = stored ≡ file ++ joined bs
Copied bs file (stored, some e) = AnyFailed bs

Copied-later :
    (b : Block) (bs : List Block) (file : Bytes) (r : Bytes × Option ℕ)
    → Copied bs (file ++ b.bytes) r
    → Copied (b ∷ bs) file r
Copied-later b bs file (stored, none) h = h ∙ append_assoc file b.bytes (joined bs)
Copied-later b bs file (stored, some e) h = inr h

copy_blocks-Copied : (bs : List Block) (file : Bytes) → Copied bs file (copy_blocks file bs)
unfolding copy_blocks
copy_blocks-Copied [] file = sym (append-nil file)
copy_blocks-Copied (b ∷ bs) file = elim (Bool-cases (is_done b.written)) [
  | inl e ↦ rw e (
      Copied-later b bs file (copy_blocks (file ++ b.bytes) bs)
        (copy_blocks-Copied bs (file ++ b.bytes)))
  | inr e ↦ rw e (inl e)
]

module _ (c : Calls) (s : Spool) (no_req : s.req_files s.nextjob ≡ none)
    (no_file : s.data_files s.nextjob ≡ none) where
  abbrev id : ℕ
  id = s.nextjob

  -- The data is stored.
  abbrev with_data : Bytes → Spool
  with_data file = set_data (set_data (take_number s) id (some [])) id (some file)

  with_data-other : (file : Bytes) (n : ℕ) → n ≢ id → (with_data file).data_files n ≡ s.data_files n
  with_data-other file n ne =
      put-other (put s.data_files id (some [])) id n (some file) ne
      ∙ put-other s.data_files id n (some []) ne

  no_data_file : (file : Bytes) (n : ℕ) → put (with_data file).data_files id none n ≡ s.data_files n
  no_data_file file n =
      put-back s.data_files (with_data file).data_files id n no_file (with_data-other file n)

  no_req_file : (n : ℕ) → put (put s.req_files id (some ReqFile.torn)) id none n ≡ s.req_files n
  no_req_file n =
      put-back s.req_files (put s.req_files id (some ReqFile.torn)) id n no_req
        (put-other s.req_files id n (some ReqFile.torn))

  write_request-Answer :
      (file : Bytes) (req : PrintReq) (text : Bool) (w : Done)
      → c.write_req ≡ w
      → c.header ≡ some req
      → file ≡ joined c.blocks
      → Marked c.blocks text
      → Answer c s (
          write_request w (set_req (with_data file) id (some ReqFile.torn)) id (mark_text text req))
  unfolding write_request
  write_request-Answer file req text Done.done e h f m = record {
    number = refl;
    req = req;
    came = h;
    text = text;
    marked = m;
    request = put-same (put s.req_files id (some ReqFile.torn)) id _;
    data_file = put-same (put s.data_files id (some [])) id (some file) ∙ ap some f;
    list = refl;
    others = λ n ne. (
      put-other (put s.req_files id (some ReqFile.torn)) id n _ ne
          ∙ put-other s.req_files id n (some ReqFile.torn) ne,
      with_data-other file n ne,
    );
  }
  write_request-Answer file req text (Done.short k) e h f m = record {
    failing = no_request (rw e refl);
    files = λ n. (no_req_file n, no_data_file file n);
    list = refl;
  }
  write_request-Answer file req text (Done.failed k) e h f m = record {
    failing = no_request (rw e refl);
    files = λ n. (no_req_file n, no_data_file file n);
    list = refl;
  }

  write_control-Answer :
      (file : Bytes) (req : PrintReq) (text : Bool)
      → c.header ≡ some req
      → file ≡ joined c.blocks
      → Marked c.blocks text
      → Answer c s (write_control c (with_data file) id (mark_text text req))
  unfolding write_control
  write_control-Answer file req text h f m = elim (Bool-cases (is_done c.creat_req)) [
    | inl b ↦ rw b (write_request-Answer file req text c.write_req refl h f m)
    | inr b ↦
        rw b
          (record { failing = no_control b; files = λ n. (refl, no_data_file file n); list = refl })
  ]

  store_data-Answer :
      (req : PrintReq) (r : Bytes × Option ℕ)
      → c.header ≡ some req
      → Copied c.blocks [] r
      → Answer c s (store_data c (set_data (take_number s) id (some [])) id req r)
  unfolding store_data
  store_data-Answer req (file, none) h copied =
      write_control-Answer file req (is_text c.blocks) h copied (is_text-Marked c.blocks)
  store_data-Answer req (file, some e) h copied = record {
    failing = no_block copied;
    files = λ n. (refl, no_data_file file n);
    list = refl;
  }

  take_job-Answer : (o : Option PrintReq) → c.header ≡ o → Answer c s (take_job c s o)
  unfolding take_job
  take_job-Answer none h = record { failing = no_header h; files = λ n. (refl, refl); list = refl }
  take_job-Answer (some req) h = elim (Bool-cases (is_done c.creat_data)) [
    | inl b ↦
        rw b (store_data-Answer req (copy_blocks [] c.blocks) h (copy_blocks-Copied c.blocks []))
    | inr b ↦ rw b (record { failing = no_data b; files = λ n. (refl, refl); list = refl })
  ]

  -- What client_thread answers agrees with what it did to the files and to the list.
  pub client_thread-Answer : Answer c s (client_thread c s)
  unfolding client_thread
  client_thread-Answer = take_job-Answer c.header refl
