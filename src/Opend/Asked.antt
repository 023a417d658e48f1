-- ===== src/Opend/Asked.antt =====
-- That the server opens what the client asked for, and what client_del does.
use my_study.Base.{
  ℕ, suc, ◌≡◌, ◌≢◌, refl, sym, ap, ◌∙◌, ◌^◌, ◌<◌, ne→==, false, Option, some, [], ◌∷◌, ◌++◌, length,
  All, All-append, arith, subst,
}
use my_study.Base.Int.{ℤ, pos}
use my_study.Base.Bytes.{Bytes, c_string, str_eq, atol, decimal}
use my_study.Base.Bytes.Decimal.{decimal-digits, IsDigit, length-decimal, atol-decimal}
use my_study.Opend.Request.{
  is_white, skip_white, word, tokens_from, argv_0, argv_of, buf_args, cl_open, cli_args, last_byte,
  opened, handle_request, csopen,
}

-- A byte of a word: neither white space nor NUL.
abbrev pub InWord : ℕ → Type 0
InWord c = (is_white c ≡ false) × (c ≢ 0)

word-blank : (w rest : Bytes) → All InWord w → word (w ++ (32 ∷ rest)) ≡ (w, rest)
unfolding word
word-blank [] rest h = refl
word-blank (c ∷ w) rest h = rw (word-blank w rest h.1, h.0.0)

word-all : (w : Bytes) → All InWord w → word w ≡ (w, [])
unfolding word
word-all [] h = refl
word-all (c ∷ w) h = rw (word-all w h.1, h.0.0)

tokens_from-blank :
    (fuel c : ℕ) (w rest : Bytes)
    → All InWord (c ∷ w)
    → tokens_from (suc fuel) ((c ∷ w) ++ (32 ∷ rest)) ≡ (c ∷ w) ∷ tokens_from fuel rest
unfolding tokens_from skip_white
tokens_from-blank fuel c w rest h = rw (h.0.0, word-blank (c ∷ w) rest h)

tokens_from-last :
    (fuel c : ℕ) (w : Bytes)
    → All InWord (c ∷ w)
    → tokens_from (suc (suc fuel)) (c ∷ w) ≡ (c ∷ w) ∷ []
unfolding tokens_from skip_white
tokens_from-last fuel c w h = rw (h.0.0, word-all (c ∷ w) h)

c_string-nul : (s : Bytes) → All (λ c. c ≢ 0) s → c_string (s ++ (0 ∷ [])) ≡ s
unfolding c_string
c_string-nul [] h = refl
c_string-nul (c ∷ s) h = rw (ne→== c 0 h.0, c_string-nul s h.1)

last_byte-nul : (s : Bytes) → last_byte (s ++ (0 ∷ [])) ≡ 0
unfolding last_byte
last_byte-nul [] = refl
last_byte-nul (c ∷ []) = refl
last_byte-nul (c ∷ d ∷ s) = last_byte-nul (d ∷ s)

All-InWord : (s : Bytes) → All IsDigit s → All InWord s
All-InWord [] h = tt
All-InWord (c ∷ s) h = ((digit h.0, (λ e. let k = h.0 in omega arith)), All-InWord s h.1)
  where
    digit : IsDigit c → is_white c ≡ false
    digit h = ground arith

All-nonzero : (s : Bytes) → All InWord s → All (λ c. c ≢ 0) s
All-nonzero [] h = tt
All-nonzero (c ∷ s) h = (h.0.1, All-nonzero s h.1)

-- The text before the NUL.
abbrev asked : Bytes → Bytes → Bytes
asked name flag = cl_open ++ (32 ∷ (name ++ (32 ∷ flag)))

open-InWord : All InWord cl_open
open-InWord = (
  (refl, (λ e. omega arith)),
  ((refl, (λ e. omega arith)), ((refl, (λ e. omega arith)), ((refl, (λ e. omega arith)), tt))),
)

argv_0-open : (rest : Bytes) → argv_0 (cl_open ++ (32 ∷ rest)) ≡ cl_open
unfolding argv_0
argv_0-open rest = ap (λ (p : Bytes × Bytes). p.0) (word-blank cl_open rest open-InWord)

buf_args-asked :
    (c d : ℕ) (name flag : Bytes)
    → All InWord (c ∷ name)
    → All InWord (d ∷ flag)
    → buf_args (asked (c ∷ name) (d ∷ flag)) ≡ some (cl_open ∷ (c ∷ name) ∷ (d ∷ flag) ∷ [])
unfolding buf_args argv_0
buf_args-asked c d name flag h k =
    let rest = (c ∷ name) ++ (32 ∷ d ∷ flag) in
    let fuel = length (name ++ (32 ∷ d ∷ flag)) in
    ap (argv_of (cl_open ++ (32 ∷ rest))) (
      tokens_from-blank (suc (suc (suc (suc (suc fuel))))) b'o' (b'p' ∷ b'e' ∷ b'n' ∷ []) rest
        open-InWord
      ∙ ap (λ ts. cl_open ∷ ts)
          (tokens_from-blank (suc (suc (suc (suc fuel)))) c name (d ∷ flag) h
            ∙ ap (λ ts. (c ∷ name) ∷ ts) (tokens_from-last (suc (suc fuel)) d flag k)))
    ∙ ap (λ a. some (a ∷ (c ∷ name) ∷ (d ∷ flag) ∷ [])) (argv_0-open rest)

-- The whole request, with the flag as it is written.
handle_request-asked :
    (open_file : Bytes → ℤ → Option ℕ) (c d : ℕ) (name flag : Bytes)
    → All InWord (c ∷ name)
    → All InWord (d ∷ flag)
    → handle_request open_file (asked (c ∷ name) (d ∷ flag) ++ (0 ∷ []))
      ≡ opened (open_file (c ∷ name) (atol (d ∷ flag))) (c ∷ name) (atol (d ∷ flag))
unfolding handle_request cli_args str_eq
handle_request-asked open_file c d name flag h k = rw (
  last_byte-nul (asked (c ∷ name) (d ∷ flag)),
  c_string-nul (asked (c ∷ name) (d ∷ flag)) nonzero,
  buf_args-asked c d name flag h k,
)
  where
    nonzero : All (λ c. c ≢ 0) (asked (c ∷ name) (d ∷ flag))
    nonzero =
        All-append (λ c. c ≢ 0) cl_open (32 ∷ ((c ∷ name) ++ (32 ∷ d ∷ flag)))
          (All-nonzero cl_open open-InWord)
          (
            (λ e. omega arith),
            All-append (λ c. c ≢ 0) (c ∷ name) (32 ∷ d ∷ flag) (All-nonzero (c ∷ name) h)
                ((λ e. omega arith), All-nonzero (d ∷ flag) k),
          )

-- The server opens exactly the file that the client named, with its flag, and sends its descriptor or
-- says that it cannot be opened: for a name that is not empty and has neither white space nor a NUL,
-- and a flag below 2^31.
pub handle_request-csopen :
    (open_file : Bytes → ℤ → Option ℕ) (c : ℕ) (name : Bytes) (oflag : ℕ)
    → All InWord (c ∷ name)
    → oflag < 2 ^ 31
    → handle_request open_file (csopen (c ∷ name) oflag)
      ≡ opened (open_file (c ∷ name) (pos oflag)) (c ∷ name) (pos oflag)
unfolding csopen
handle_request-csopen open_file c name oflag h small =
    on (decimal oflag) refl (length-decimal 9 oflag (omega arith)).1
  where
    on :
        (digits : Bytes)
        → decimal oflag ≡ digits
        → 0 < length digits
        → handle_request open_file (asked (c ∷ name) digits ++ (0 ∷ []))
          ≡ opened (open_file (c ∷ name) (pos oflag)) (c ∷ name) (pos oflag)
    on [] e some_there = absurd (omega arith)
    on (d ∷ flag) e some_there =
        let value = ap atol (sym e) ∙ atol-decimal oflag (omega arith) in
        handle_request-asked open_file c d name flag h
          (subst (All InWord) e (All-InWord (decimal oflag) (decimal-digits oflag)))
        ∙ ap (λ v. opened (open_file (c ∷ name) v) (c ∷ name) v) value
