-- ===== src/Printd/Numbers.antt =====
-- The next job number of apue.3e/printer/printd.c behind client_thread.
use my_study.Base.{
  [], ℕ, ◌≡◌, refl, ◌∙◌, ◌+◌, ◌-◌, ◌%◌, ◌^◌, ◌<◌, Option, none, some, inl, inr, arith, Bool-cases,
  ltb,
}
use my_study.Base.Bytes.{Bytes}
use my_study.Printd.Spool.{
  PrintReq, Spool, Calls, Done, is_done, next_jobno, is_text, copy_blocks, mark_text, write_request,
  write_control, store_data, take_job, client_thread,
}

-- The next job number: the one after 2^31 - 1 is 1, and a client without a request takes none.
abbrev pub number_after : Option PrintReq → ℕ → ℕ
number_after none n = n
number_after (some req) n = n % (2 ^ 31 - 1) + 1

next_jobno-mod : (n : ℕ) → 0 < n → n < 2 ^ 31 → next_jobno n ≡ n % (2 ^ 31 - 1) + 1
next_jobno-mod n positive small = elim (Bool-cases (ltb (n + 1) (2 ^ 31))) [
  | inl b ↦ rw b (ground (arith, b))
  | inr b ↦ rw b (ground (arith, b))
]

pub number-next :
    (o : Option PrintReq) (n : ℕ)
    → 0 < n
    → n < 2 ^ 31
    → (0 < number_after o n) × (number_after o n < 2 ^ 31)
number-next none n positive small = (positive, small)
number-next (some req) n positive small = (omega arith, omega arith)

-- No step behind `get_newjobno` changes the number.
write_request-nextjob :
    (w : Done) (s : Spool) (id : ℕ) (req : PrintReq)
    → (write_request w s id req).1.nextjob ≡ s.nextjob
unfolding write_request
write_request-nextjob Done.done s id req = refl
write_request-nextjob (Done.short k) s id req = refl
write_request-nextjob (Done.failed e) s id req = refl

write_control-nextjob :
    (c : Calls) (s : Spool) (id : ℕ) (req : PrintReq)
    → (write_control c s id req).1.nextjob ≡ s.nextjob
unfolding write_control
write_control-nextjob c s id req = elim (Bool-cases (is_done c.creat_req)) [
  | inl b ↦ rw b (write_request-nextjob c.write_req _ id req)
  | inr b ↦ rw b refl
]

store_data-nextjob :
    (c : Calls) (s : Spool) (id : ℕ) (req : PrintReq) (r : Bytes × Option ℕ)
    → (store_data c s id req r).1.nextjob ≡ s.nextjob
unfolding store_data
store_data-nextjob c s id req (file, none) =
    write_control-nextjob c _ id (mark_text (is_text c.blocks) req)
store_data-nextjob c s id req (file, some e) = refl

pub client_thread-nextjob :
    (c : Calls) (s : Spool)
    → 0 < s.nextjob
    → s.nextjob < 2 ^ 31
    → (client_thread c s).1.nextjob ≡ number_after c.header s.nextjob
unfolding client_thread take_job
client_thread-nextjob c s positive small = on c.header
  where
    on : (o : Option PrintReq) → (take_job c s o).1.nextjob ≡ number_after o s.nextjob
    on none = refl
    on (some req) = elim (Bool-cases (is_done c.creat_data)) [
      | inl b ↦ rw b (
          store_data-nextjob c _ s.nextjob req (copy_blocks [] c.blocks)
          ∙ next_jobno-mod s.nextjob positive small)
      | inr b ↦ rw b (next_jobno-mod s.nextjob positive small)
    ]
