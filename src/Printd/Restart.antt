-- ===== src/Printd/Restart.antt =====
-- That a restart of the daemon of apue.3e/printer/printd.c brings back its jobs and their numbers.
use my_study.Base.{
  ℕ, zero, suc, ◌≡◌, refl, ◌∙◌, ◌^◌, ◌<◌, ◌≤◌, some, List, [], ◌∷◌, append-nil, All, ◌⊎◌, arith,
  length, drop, drop-nil,
}
use my_study.Base.Int.{pos}
use my_study.Base.Bytes.{Bytes, decimal, atol}
use my_study.Base.Bytes.Decimal.{atol-decimal, length-decimal}
use my_study.Printd.Spool.{PrintReq, ReqFile, Spool, Entry, Opening, update_jobno, init_request}
use my_study.Printd.Kept.{Kept}

-- An element with the property stands in the list.
abbrev pub Any {ℓ} : {A : Type ℓ} → (A → Type 0) → List A → Type 0
Any P [] = ⊥
Any P (x ∷ xs) = P x ⊎ Any P xs

-- The directory has an entry for the job.
abbrev pub Listed : ℕ → List Entry → Type 0
Listed id es = Any (λ (e : Entry). e.number ≡ id) es

-- open and read do not fail on the entries for the job.
abbrev pub Readable : ℕ → List Entry → Type 0
Readable id es = All (λ (e : Entry). e.number ≡ id → e.opening ≡ Opening.opened) es

-- The job is in the list.
abbrev pub Pending : ℕ → PrintReq → Spool → Type 0
Pending id req s = Any (λ (j : ℕ × PrintReq). (j.0 ≡ id) × (j.1 ≡ req)) s.pending

module _ (id : ℕ) (req : PrintReq) where
  abbrev IsJob : ℕ × PrintReq → Type 0
  IsJob j = (j.0 ≡ id) × (j.1 ≡ req)

  -- The request stands in its file.
  abbrev InFile : Spool → Type 0
  InFile s = s.req_files id ≡ some (ReqFile.whole req)

drop-all : (m : ℕ) (s : Bytes) → length s ≤ m → drop m s ≡ []
drop-all m [] h = drop-nil m
drop-all zero (c ∷ s) h = absurd (omega arith)
drop-all (suc m) (c ∷ s) h = drop-all m s (omega arith)

init_request-atol : (s : Bytes) → 0 < length s → init_request s ≡ atol s
unfolding init_request
init_request-atol [] h = absurd (omega arith)
init_request-atol (c ∷ s) h = refl

-- The number that update_jobno writes is the one that init_request reads, where the file was not
-- longer than its digits before.
pub init_request-update_jobno :
    (file : Bytes) (n : ℕ)
    → n < 2 ^ 31
    → length file ≤ length (decimal n)
    → init_request (update_jobno file n) ≡ pos n
unfolding update_jobno
init_request-update_jobno file n small short =
    let digits = length-decimal 9 n (omega arith) in
    rw (drop-all (length (decimal n)) file short, append-nil (decimal n))
      (init_request-atol (decimal n) digits.1 ∙ atol-decimal n (omega arith))
