-- ===== src/Printd/Kept.antt =====
-- That the spool directory of apue.3e/printer/printd.c agrees with the list of jobs.
use my_study.Base.{
  ℕ, ◌≡◌, ◌≢◌, refl, sym, ap, ◌∙◌, subst, ◌^◌, ◌<◌, ◌==◌, ==→eq, Option, none, some, List, [], ◌∷◌,
  All, All-append, inl, inr, arith, Bool-cases,
}
use my_study.Base.Bytes.{Bytes}
use my_study.Printd.Spool.{PrintReq, ReqFile, Spool, Calls, Response, mark_text, client_thread}
use my_study.Printd.Numbers.{number_after, number-next, client_thread-nextjob}
use my_study.Printd.Answer.{Answer, Accepted, Refused, SameBut, joined, client_thread-Answer}

-- A file of the request, and one of the data.
abbrev pub Stored : Spool → ℕ → PrintReq → Type 0
Stored s id req =
    (s.req_files id ≡ some (ReqFile.whole req)) × ((file : Bytes) × (s.data_files id ≡ some file))

-- Every job of the list has its two files, every request that stands in the directory is whole and
-- has its data, and every data file has its request.
pub record Kept (s : Spool) : Type 0 where
  pub listed : All (λ (j : ℕ × PrintReq). Stored s j.0 j.1) s.pending
  pub whole :
      (id : ℕ) (f : ReqFile)
      → s.req_files id ≡ some f
      → (req : PrintReq) × ((f ≡ ReqFile.whole req) × Stored s id req)
  pub owned :
      (id : ℕ) (file : Bytes)
      → s.data_files id ≡ some file
      → (req : PrintReq) × (s.req_files id ≡ some (ReqFile.whole req))
  pub number : (0 < s.nextjob) × (s.nextjob < 2 ^ 31)

Stored-moved :
    (s s' : Spool) (n : ℕ) (req : PrintReq)
    → s'.req_files n ≡ s.req_files n
    → s'.data_files n ≡ s.data_files n
    → Stored s n req
    → Stored s' n req
Stored-moved s s' n req r d h = (r ∙ h.0, (h.1.0, d ∙ h.1.1))

-- A job without a request is none of the list.
not_listed :
    (s : Spool) (id : ℕ) (js : List (ℕ × PrintReq))
    → s.req_files id ≡ none
    → All (λ (j : ℕ × PrintReq). Stored s j.0 j.1) js
    → All (λ (j : ℕ × PrintReq). j.0 ≢ id) js
not_listed s id [] unused h = tt
not_listed s id (j ∷ js) unused h = (
  (λ e. let here = ap s.req_files e ∙ unused in let there = h.0.0 in cc),
  not_listed s id js unused h.1,
)

listed-SameBut :
    (s s' : Spool) (id : ℕ) (js : List (ℕ × PrintReq))
    → SameBut id s s'
    → All (λ (j : ℕ × PrintReq). j.0 ≢ id) js
    → All (λ (j : ℕ × PrintReq). Stored s j.0 j.1) js
    → All (λ (j : ℕ × PrintReq). Stored s' j.0 j.1) js
listed-SameBut s s' id [] same ne h = tt
listed-SameBut s s' id (j ∷ js) same ne h =
    let files = same j.0 ne.0 in
    (Stored-moved s s' j.0 j.1 files.0 files.1 h.0, listed-SameBut s s' id js same ne.1 h.1)

-- A job without a request has no data either.
no_data_file : (s : Spool) (id : ℕ) → Kept s → s.req_files id ≡ none → s.data_files id ≡ none
no_data_file s id h unused = on (s.data_files id) refl
  where
    on : (o : Option Bytes) → s.data_files id ≡ o → o ≡ none
    on none e = refl
    on (some file) e = let req = (h.owned id file e).1 in absurd cc

module _ (c : Calls) (s s' : Spool) (h : Kept s)
    (bounds : (0 < s'.nextjob) × (s'.nextjob < 2 ^ 31)) where
  Refused-Kept : s.req_files s.nextjob ≡ none → Refused c s s' → Kept s'
  Refused-Kept unused r = record {
    listed = subst (All (λ (j : ℕ × PrintReq). Stored s' j.0 j.1)) (sym r.list) (
        listed-SameBut s s' s.nextjob s.pending (λ n ne. r.files n)
          (not_listed s s.nextjob s.pending unused h.listed) h.listed);
    whole = λ n f e.
        let files = r.files n in
        let old = h.whole n f (sym files.0 ∙ e) in
        (old.0, (old.1.0, Stored-moved s s' n old.0 files.0 files.1 old.1.1));
    owned = λ n file e.
        let files = r.files n in
        let old = h.owned n file (sym files.1 ∙ e) in (old.0, files.0 ∙ old.1);
    number = bounds;
  }

  module _ (id : ℕ) (a : Accepted c s id s') where
    stored : Stored s' id (mark_text a.text a.req)
    stored = (a.request, (joined c.blocks, a.data_file))

    Accepted-whole :
        (n : ℕ) (f : ReqFile)
        → s'.req_files n ≡ some f
        → (r : PrintReq) × ((f ≡ ReqFile.whole r) × Stored s' n r)
    Accepted-whole n f e = elim (Bool-cases (n == id)) [
      | inl here ↦
          let at_n = ==→eq n id here in
          let req = mark_text a.text a.req in
          let there = sym e ∙ ap s'.req_files at_n ∙ a.request in
          let same_file : f ≡ ReqFile.whole req = cc in
          (req, (same_file, subst (λ k. Stored s' k req) (sym at_n) stored))
      | inr there ↦
          let ne : n ≢ id = ground arith in
          let files = a.others n ne in
          let old = h.whole n f (sym files.0 ∙ e) in
          (old.0, (old.1.0, Stored-moved s s' n old.0 files.0 files.1 old.1.1))
    ]

    Accepted-owned :
        (n : ℕ) (file : Bytes)
        → s'.data_files n ≡ some file
        → (r : PrintReq) × (s'.req_files n ≡ some (ReqFile.whole r))
    Accepted-owned n file e = elim (Bool-cases (n == id)) [
      | inl here ↦ (mark_text a.text a.req, ap s'.req_files (==→eq n id here) ∙ a.request)
      | inr there ↦
          let ne : n ≢ id = ground arith in
          let files = a.others n ne in
          let old = h.owned n file (sym files.1 ∙ e) in (old.0, files.0 ∙ old.1)
    ]

    Accepted-Kept : s.req_files id ≡ none → Kept s'
    Accepted-Kept unused = record {
      listed = subst (All (λ (j : ℕ × PrintReq). Stored s' j.0 j.1)) (sym a.list) (
          All-append (λ (j : ℕ × PrintReq). Stored s' j.0 j.1) s.pending
            ((id, mark_text a.text a.req) ∷ [])
            (listed-SameBut s s' id s.pending a.others (not_listed s id s.pending unused h.listed)
              h.listed)
            (stored, tt));
      whole = Accepted-whole;
      owned = Accepted-owned;
      number = bounds;
    }

Answer-Kept :
    (c : Calls) (s : Spool) (r : Response × Spool)
    → Kept s
    → s.req_files s.nextjob ≡ none
    → (0 < r.1.nextjob) × (r.1.nextjob < 2 ^ 31)
    → Answer c s r
    → Kept r.1
Answer-Kept c s (Response.refused e, s') h unused bounds a = Refused-Kept c s s' h bounds unused a
Answer-Kept c s (Response.accepted id, s') h unused bounds a =
    Accepted-Kept c s s' h bounds id a (ap s.req_files a.number ∙ unused)

-- Whatever the calls of a client return, where the directories agree with the list of jobs and the
-- next job number is not in use: they agree behind client_thread, so every job of the list has its
-- request and its data, and no request stands there in part or without its data, nor data without its
-- request. A client that is refused met a failing call, and leaves the files and the list as they
-- were; one that is accepted gets the next number, all its data are stored under it with its request,
-- in which PR_TEXT is set where the buffer behind the first read does not start with "%!PS", and its
-- job is the last of the list. The next number counts up to 2^31 - 1 and starts again at 1; a client
-- whose request does not come takes none.
pub client_thread-Kept :
    (c : Calls) (s : Spool)
    → Kept s
    → s.req_files s.nextjob ≡ none
    → Kept (client_thread c s).1
      × Answer c s (client_thread c s)
      × ((client_thread c s).1.nextjob ≡ number_after c.header s.nextjob)
client_thread-Kept c s h unused =
    let number = client_thread-nextjob c s h.number.0 h.number.1 in
    let bounds = number-next c.header s.nextjob h.number.0 h.number.1 in
    let answer = client_thread-Answer c s unused (no_data_file s s.nextjob h unused) in
    (
      Answer-Kept c s (client_thread c s) h unused
          (subst (λ n. (0 < n) × (n < 2 ^ 31)) (sym number) bounds) answer,
      answer,
      number,
    )
