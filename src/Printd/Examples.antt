-- ===== src/Printd/Examples.antt =====
-- The daemon on a few jobs.
use my_study.Base.{List, ℕ, ◌≡◌, refl, none, some, [], ◌∷◌, arith, true, false, length, replicate}
use my_study.Base.Int.{pos}
use my_study.Base.Bytes.{Bytes}
use my_study.Printd.Ipp.{ipp_bytes, ipp_header, uri_text}
use my_study.Printd.Attributes.{print_attributes, and_then}
use my_study.Printd.Encoded.{read_request, read_request-ipp_header}
use my_study.Printd.Lengths.{length-ipp_header}
use my_study.Base.Bytes.Decimal.{length-decimal}
use my_study.Printd.Spool.{
  PrintReq, ReqFile, Spool, put, Done, Block, Calls, client_thread, Entry, Opening, update_jobno,
  init_request,
}
use my_study.Printd.Kept.{Kept, client_thread-Kept}
use my_study.Printd.Restart.{Pending, init_request-update_jobno}
use my_study.Printd.Answer.{Answer}
use my_study.Printd.Numbers.{number_after}
use my_study.Links.{Store, Queue}
use my_study.Printd.Jobs.{add_job, replace_job, remove_job}
use my_study.Printd.Pending.{Reaches, Represents, Reaches-Represents}

abbrev no_nodes : Store ℕ
no_nodes p = record { next = none; prev = none; item = 0 }

abbrev no_jobs : Queue ℕ
no_jobs = record { head = none; tail = none; nodes = no_nodes }

-- Two jobs come in; the first is taken and put back.
abbrev retried : Queue ℕ
retried = replace_job (remove_job (add_job (add_job no_jobs 1 71) 2 72) 1) 1

Reaches-Represents_example : Represents retried ((1, 71) ∷ (2, 72) ∷ [])
unfolding add_job remove_job
Reaches-Represents_example = Reaches-Represents retried ((1, 71) ∷ (2, 72) ∷ []) (
    Reaches.replaced 1 ((λ e. omega arith), tt)
      (Reaches.removed [] ((2, 72) ∷ []) 1 71 (
        Reaches.added 2 72 ((λ e. omega arith), tt)
          (Reaches.added 1 71 tt (Reaches.started no_nodes)))))

abbrev request : PrintReq
request = record { size = 6; text = false; flags = 0; usernm = b'a' ∷ b'l' ∷ []; jobnm = b'x' ∷ [] }

abbrev empty_spool : Spool
empty_spool = record { data_files = λ n. none; req_files = λ n. none; pending = []; nextjob = 1 }

empty_spool-Kept : Kept empty_spool
empty_spool-Kept = record {
  listed = tt;
  whole = λ id f e. let wrong : ⊥ = ground arith in absurd wrong;
  owned = λ id file e. let wrong : ⊥ = ground arith in absurd wrong;
  number = (omega arith, omega arith);
}

abbrev block : Block
block = record { bytes = b'h' ∷ b'i' ∷ b'!' ∷ b'\n' ∷ []; stale = []; written = Done.done }

abbrev good_calls : Calls
good_calls = record {
  header = some request;
  header_error = 0;
  creat_data = Done.done;
  blocks = block ∷ [];
  creat_req = Done.done;
  write_req = Done.done;
}

client_thread-Kept_example :
    Kept (client_thread good_calls empty_spool).1
    × Answer good_calls empty_spool (client_thread good_calls empty_spool)
    × ((client_thread good_calls empty_spool).1.nextjob ≡ number_after (some request) 1)
client_thread-Kept_example = client_thread-Kept good_calls empty_spool empty_spool-Kept refl

abbrev one_job : Spool
one_job = record {
  data_files = put empty_spool.data_files 1 (some block.bytes);
  req_files = put empty_spool.req_files 1 (some (ReqFile.whole request));
  pending = (1, request) ∷ [];
  nextjob = 2;
}

-- Another entry cannot be read.
abbrev entries : List Entry
entries =
    record { number = 7; opening = Opening.unreadable }
    ∷ record { number = 1; opening = Opening.opened }
    ∷ []

init_request-update_jobno_example : init_request (update_jobno (b'9' ∷ []) 10) ≡ pos 10
init_request-update_jobno_example =
    init_request-update_jobno (b'9' ∷ []) 10 (omega arith)
      (omega (arith, length-decimal 9 10 (omega arith)))

abbrev lp : Bytes
lp = b'l' ∷ b'p' ∷ []

read_request-ipp_header_example :
    and_then (ipp_header lp 70000 (b'a' ∷ []) (b'x' ∷ b'y' ∷ []) true) (read_request 7)
    ≡ some (record {
      major = 1;
      minor = 1;
      operation = 2;
      request_id = 70000;
      group = 1;
      attributes = some (print_attributes lp (b'a' ∷ []) (b'x' ∷ b'y' ∷ []) true, []);
    })
read_request-ipp_header_example =
    read_request-ipp_header lp (b'a' ∷ []) (b'x' ∷ b'y' ∷ []) 70000 true (omega arith)
      (record { in_str = omega arith; in_ibuf = omega arith })

abbrev long_printer : Bytes
long_printer = replicate 40 b'p'

abbrev long_user : Bytes
long_user = replicate 63 b'u'

abbrev long_job : Bytes
long_job = replicate 255 b'j'

-- Names that a request can hold: the header is longer than `ibuf`.
length-ipp_header_example :
    (length (ipp_bytes (uri_text long_printer) 7 long_user long_job false) ≡ 540)
    × (ipp_header long_printer 7 long_user long_job false ≡ none)
length-ipp_header_example = length-ipp_header long_printer long_user long_job 7 false
