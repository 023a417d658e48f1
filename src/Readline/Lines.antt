-- ===== src/Readline/Lines.antt =====
-- readline against the lines of the whole input.
use my_study.Base.{
  ℕ, zero, suc, ◌≡◌, refl, sym, ◌∙◌, ◌+◌, ◌-◌, ◌<◌, ◌==◌, Bool, true, false, List, [], ◌∷◌, ◌++◌,
  append_assoc, append-nil, length, length-append, All, ◌⊎◌, inl, inr, if◌then◌else◌, arith, subst,
}
use my_study.Base.Bytes.{Bytes}
use my_study.Readline.{
  Read, Reader, Got, refill, next_byte, my_read, Line, newline, line_step, line_loop, readline,
}

-- The bytes that reads bring.
abbrev pub arriving : List Read → Bytes
arriving [] = []
arriving (Read.got c s ∷ rs) = c ∷ s ++ arriving rs
arriving (Read.interrupted ∷ rs) = arriving rs
arriving (Read.failed ∷ rs) = arriving rs

-- All bytes that the caller has not had.
abbrev pub ahead : Reader → Bytes
ahead r = r.buffer ++ arriving r.reads

-- No read fails but by EINTR.
abbrev pub Fine : Read → Type 0
Fine Read.failed = ⊥
Fine _ = Unit

-- The first line of some bytes, with its newline, or as much of it as has room, and what follows.
unfoldable pub first_line : ℕ → Bytes → Bytes × Bytes
first_line zero s = ([], s)
first_line (suc room) [] = ([], [])
first_line (suc room) (c ∷ s) =
    let rest = first_line room s in if c == newline then (c ∷ [], s) else (c ∷ rest.0, rest.1)

-- `readline` has taken the line and left what follows. The count is that of the bytes, or one more
-- where there was no room for the whole line.
pub record Takes (maxlen : ℕ) (stored : Bytes) (cut : Bytes × Bytes) (n : ℕ) (line : Bytes)
    (r : Reader) : Type 0 where
  pub same : line ≡ stored ++ cut.0
  pub follows : ahead r ≡ cut.1
  pub fine : All Fine r.reads
  pub count : (n ≡ length line) ⊎ ((n ≡ maxlen) × (length line + 1 ≡ maxlen))

abbrev pub TakesLine : ℕ → Bytes → Bytes × Bytes → Line × Reader → Type 0
TakesLine maxlen stored cut (Line.line n line, r) = Takes maxlen stored cut n line r
TakesLine maxlen stored cut (Line.failed, r) = ⊥

-- One byte of what is ahead, or its end.
abbrev Brings : Bytes → Got × Reader → Type 0
Brings s (Got.byte c, r) = (s ≡ c ∷ ahead r) × All Fine r.reads
Brings s (Got.eof, r) = (s ≡ []) × ((ahead r ≡ []) × All Fine r.reads)
Brings s (Got.error, r) = ⊥

refill-Brings : (rs : List Read) → All Fine rs → Brings (arriving rs) (refill rs)
unfolding refill
refill-Brings [] h = (refl, (refl, tt))
refill-Brings (Read.got c s ∷ rs) h = (refl, h.1)
refill-Brings (Read.interrupted ∷ rs) h = refill-Brings rs h.1
refill-Brings (Read.failed ∷ rs) h = absurd h.0

my_read-Brings : (r : Reader) → All Fine r.reads → Brings (ahead r) (my_read r)
unfolding my_read next_byte
my_read-Brings r h = on r.buffer
  where
    on : (s : Bytes) → Brings (s ++ arriving r.reads) (next_byte s r.reads)
    on [] = refill-Brings r.reads h
    on (c ∷ s) = (refl, h)

TakesLine-cons :
    (maxlen : ℕ) (stored : Bytes) (c : ℕ) (cut : Bytes × Bytes) (result : Line × Reader)
    → TakesLine maxlen (stored ++ (c ∷ [])) cut result
    → TakesLine maxlen stored (c ∷ cut.0, cut.1) result
TakesLine-cons maxlen stored c cut (Line.line n line, r) h = record {
  same = h.same ∙ append_assoc stored (c ∷ []) cut.0;
  follows = h.follows;
  fine = h.fine;
  count = h.count;
}
TakesLine-cons maxlen stored c cut (Line.failed, r) h = h

-- A state of the loop: `left` rounds are to come, and there was room for the bytes so far.
abbrev AtRound : ℕ → ℕ → ℕ → Bytes → Type 0
AtRound maxlen left n stored = (n ≡ length stored + 1) × (n + left ≡ maxlen)

TakesAll : ℕ → ℕ → Type 0
TakesAll maxlen left =
    (n : ℕ) (stored : Bytes) (r : Reader)
    → AtRound maxlen left n stored
    → All Fine r.reads
    → TakesLine maxlen stored (first_line left (ahead r)) (line_loop left n stored r)

line_step-TakesLine :
    (maxlen left n : ℕ) (stored s : Bytes) (g : Got × Reader)
    → TakesAll maxlen left
    → AtRound maxlen (suc left) n stored
    → Brings s g
    → TakesLine maxlen stored (first_line (suc left) s) (line_step n stored (line_loop left) g)
unfolding TakesAll line_step first_line
line_step-TakesLine maxlen left n stored s (Got.byte c, r) all at (here, fine) =
    subst
      (λ s. TakesLine maxlen stored (first_line (suc left) s) (
        if c == newline
        then (Line.line n (stored ++ (c ∷ [])), r)
        else line_loop left (suc n) (stored ++ (c ∷ [])) r))
      (sym here) (either (c == newline))
  where
    long : length (stored ++ (c ∷ [])) ≡ length stored + 1
    long = length-append stored (c ∷ [])

    either :
        (b : Bool)
        → TakesLine maxlen stored
            (if b
              then (c ∷ [], ahead r)
              else (c ∷ (first_line left (ahead r)).0, (first_line left (ahead r)).1))
            (if b
              then (Line.line n (stored ++ (c ∷ [])), r)
              else line_loop left (suc n) (stored ++ (c ∷ [])) r)
    either true = record { same = refl; follows = refl; fine = fine; count = inl (at.0 ∙ sym long) }
    either false = TakesLine-cons maxlen stored c (first_line left (ahead r)) _ (
        all (suc n) (stored ++ (c ∷ [])) r
          (let k = at in omega (arith, long), let k = at in omega arith) fine)
line_step-TakesLine maxlen left n stored s (Got.eof, r) all at (ended, (rest, fine)) =
    subst (λ s. TakesLine maxlen stored (first_line (suc left) s) (Line.line (n - 1) stored, r))
      (sym ended)
      (record {
        same = sym (append-nil stored);
        follows = rest;
        fine = fine;
        count = inl (let k = at in omega arith);
      })
line_step-TakesLine maxlen left n stored s (Got.error, r) all at bring = absurd bring

line_loop-TakesAll : (maxlen left : ℕ) → TakesAll maxlen left
unfolding TakesAll line_loop first_line
line_loop-TakesAll maxlen zero n stored r at fine = record {
  same = sym (append-nil stored);
  follows = refl;
  fine = fine;
  count = inr (let k = at in (omega arith, omega arith));
}
line_loop-TakesAll maxlen (suc left) n stored r at fine =
    line_step-TakesLine maxlen left n stored (ahead r) (my_read r) (line_loop-TakesAll maxlen left)
      at (my_read-Brings r fine)

-- However the input is split between reads, and whatever part of it is in the buffer: where no read
-- fails but by EINTR, readline returns and stores the first line of what is ahead, with its newline,
-- or as much of it as fits before the NUL, or all up to the end of the file; it leaves exactly what
-- follows to the next call; and the count is that of the bytes, or `maxlen`, one more, where the
-- buffer was full before the end of the line.
pub readline-TakesLine :
    (maxlen : ℕ) (r : Reader)
    → 0 < maxlen
    → All Fine r.reads
    → TakesLine maxlen [] (first_line (maxlen - 1) (ahead r)) (readline maxlen r)
unfolding readline TakesAll
readline-TakesLine maxlen r room fine =
    line_loop-TakesAll maxlen (maxlen - 1) 1 [] r (refl, omega arith) fine
