-- ===== src/Nonblock/Flow.antt =====
-- No byte is lost, doubled or reordered between the descriptors of `str_cli`.
use my_study.Base.{
  ℕ, zero, suc, ◌+◌, ◌-◌, ◌≤◌, ◌<◌, ◌≡◌, refl, sym, ap, ◌∙◌, inl, inr, Bool, true, false, ◌&&◌, not,
  List, [], ◌∷◌, ◌++◌, append_assoc, length, length-take, take, drop, ltb, ◌==◌, ==→eq,
  if◌then◌else◌, min, Bool-cases, arith,
}
use my_study.Base.Bytes.{Bytes}
use my_study.Posix.{slice, overwrite}
use my_study.Posix.Transfers.{
  slice-append, slice-overwrite_self, slice-overwrite_before, length-overwrite_inside,
}
use my_study.Nonblock.{
  Buffer, Client, Step, Quit, ReadResult, WriteResult, Round, maxline, pending, fill, fitting,
  drain, stdin_got, socket_got, read_stdin, read_socket, write_stdout, write_socket, round, then_go,
  first, ask_stdin, from_stdin, from_socket, to_stdout, to_socket, writes, behind_stdin,
  fresh_buffer,
}

-- The pointers are in order and inside the buffer, and what came in is what went out and what is
-- pending.
pub record Flows (b : Buffer) (seen taken : Bytes) : Type 0 where
  pub size : length b.bytes ≡ maxline
  pub ordered : b.optr ≤ b.iptr
  pub inside : b.iptr ≤ maxline
  pub whole : seen ≡ taken ++ pending b

fill-Flows :
    (b : Buffer) (seen taken bs : Bytes)
    → Flows b seen taken
    → b.iptr + length bs ≤ maxline
    → Flows (fill bs b) (seen ++ bs) taken
unfolding fill pending
fill-Flows b seen taken bs f h =
    let buf = overwrite b.bytes b.iptr bs in
    let size : b.iptr + length bs - b.optr ≡ (b.iptr - b.optr) + length bs =
      omega (arith, f.ordered) in
    let at : b.optr + (b.iptr - b.optr) ≡ b.iptr = omega (arith, f.ordered) in
    let old : slice buf b.optr (b.iptr - b.optr) ≡ slice b.bytes b.optr (b.iptr - b.optr) =
      slice-overwrite_before b.bytes b.iptr bs b.optr (b.iptr - b.optr) (omega (arith, at))
        (omega (arith, at, f.size, f.inside)) in
    record {
      size = length-overwrite_inside b.bytes b.iptr bs (omega (arith, f.size, h)) ∙ f.size;
      ordered = omega (arith, f.ordered);
      inside = h;
      whole =
          rw
            (
              size,
              slice-append buf b.optr (b.iptr - b.optr) (length bs),
              at,
              old,
              slice-overwrite_self b.bytes b.iptr bs,
              f.whole,
            )
            (append_assoc taken (pending b) bs);
    }

take-take : (k n : ℕ) (xs : Bytes) → k ≤ n → take k (take n xs) ≡ take k xs
take-take zero n xs h = refl
take-take (suc k) zero xs h = absurd (omega arith)
take-take (suc k) (suc n) [] h = refl
take-take (suc k) (suc n) (x ∷ xs) h = ap (λ l. x ∷ l) (take-take k n xs (omega arith))

-- What is pending is its first `k` bytes and what is pending behind them.
pending-split :
    (b : Buffer) (k : ℕ)
    → k ≤ b.iptr - b.optr
    → pending b ≡ take k (pending b) ++ slice b.bytes (b.optr + k) (b.iptr - b.optr - k)
unfolding pending slice
pending-split b k h =
    let n : b.iptr - b.optr ≡ k + (b.iptr - b.optr - k) = omega arith in
    rw (take-take k (b.iptr - b.optr) (drop b.optr b.bytes) h)
      (ap (slice b.bytes b.optr) n ∙ slice-append b.bytes b.optr k (b.iptr - b.optr - k))

slice-none : (f : Bytes) (o n : ℕ) → n ≡ 0 → slice f o n ≡ []
unfolding slice
slice-none f o n h = rw h

drain-Flows :
    (b : Buffer) (seen taken : Bytes) (k : ℕ)
    → Flows b seen taken
    → k ≤ b.iptr - b.optr
    → Flows (drain k b) seen (taken ++ take k (pending b))
unfolding drain pending
drain-Flows b seen taken k f h =
    let parts : seen
        ≡ (taken ++ take k (pending b)) ++ slice b.bytes (b.optr + k) (b.iptr - b.optr - k) =
      f.whole
      ∙ ap (λ l. taken ++ l) (pending-split b k h)
      ∙ sym (
          append_assoc taken (take k (pending b))
            (slice b.bytes (b.optr + k) (b.iptr - b.optr - k))) in
    let less : b.iptr - b.optr - k ≡ b.iptr - (b.optr + k) = omega arith in
    elim (Bool-cases (b.optr + k == b.iptr)) [
      | inl e ↦
          let none_left : b.iptr - b.optr - k ≡ 0 = omega (arith, ==→eq (b.optr + k) b.iptr e) in
          rw e (record {
            size = f.size;
            ordered = omega arith;
            inside = omega arith;
            whole =
                parts
                ∙ ap (λ l. (taken ++ take k (pending b)) ++ l)
                    (slice-none b.bytes (b.optr + k) (b.iptr - b.optr - k) none_left
                      ∙ sym (slice-none b.bytes 0 (0 - 0) refl));
          })
      | inr e ↦ rw e (record {
        size = f.size;
        ordered = omega (arith, h, f.ordered);
        inside = f.inside;
        whole =
            parts ∙ ap (λ n. (taken ++ take k (pending b)) ++ slice b.bytes (b.optr + k) n) less;
      })
    ]

-- What `str_cli` keeps: both directions flow, and the FIN has been sent once exactly if standard
-- input has ended and nothing is left to send.
pub record Relays (c : Client) : Type 0 where
  pub up : Flows c.to c.typed c.sent
  pub down : Flows c.fr c.received c.shown
  pub fin : c.shutdowns ≡ (if c.stdineof && (c.to.optr == c.to.iptr) then 1 else 0)

-- The same of what a step leaves; a return comes behind the end of standard input.
abbrev pub Keeps : Step → Type 0
Keeps (Step.going c w) = Relays c
Keeps (Step.returned c) = Relays c × (c.stdineof ≡ true)
Keeps (Step.quit q) = Unit

fitting-fits :
    (b : Buffer) (bs : Bytes) → b.iptr ≤ maxline → b.iptr + length (fitting b bs) ≤ maxline
fitting-fits b bs h = omega (arith, length-take (maxline - b.iptr) bs, h)

stdin_got-Keeps :
    (bs : Bytes) (c : Client) (w : Bool)
    → Relays c
    → c.stdineof ≡ false
    → c.to.iptr + length bs ≤ maxline
    → Keeps (stdin_got bs c w)
unfolding stdin_got
stdin_got-Keeps [] c w h going le =
    let none_yet : c.shutdowns ≡ 0 = h.fin ∙ rw going in
    record { up = h.up; down = h.down; fin = rw none_yet }
stdin_got-Keeps (b ∷ bs) c w h going le =
    let none_yet : c.shutdowns ≡ 0 = h.fin ∙ rw going in
    record {
      up = fill-Flows c.to c.typed c.sent (b ∷ bs) h.up le;
      down = h.down;
      fin = rw going none_yet;
    }

read_stdin-Keeps :
    (r : ReadResult) (c : Client) (w : Bool)
    → Relays c
    → c.stdineof ≡ false
    → Keeps (read_stdin r c w)
unfolding read_stdin
read_stdin-Keeps ReadResult.would_block c w h going = h
read_stdin-Keeps ReadResult.read_error c w h going = tt
read_stdin-Keeps (ReadResult.got bs) c w h going =
    stdin_got-Keeps (fitting c.to bs) c w h going (fitting-fits c.to bs h.up.inside)

socket_got-Keeps :
    (bs : Bytes) (c : Client) (w : Bool)
    → Relays c
    → c.fr.iptr + length bs ≤ maxline
    → Keeps (socket_got bs c w)
unfolding socket_got
socket_got-Keeps [] c w h le = ended c.stdineof refl
  where
    ended :
        (b : Bool)
        → c.stdineof ≡ b
        → Keeps (if b then Step.returned c else Step.quit Quit.server_terminated)
    ended true e = (h, e)
    ended false e = tt
socket_got-Keeps (b ∷ bs) c w h le = record {
  up = h.up;
  down = fill-Flows c.fr c.received c.shown (b ∷ bs) h.down le;
  fin = h.fin;
}

read_socket-Keeps : (r : ReadResult) (c : Client) (w : Bool) → Relays c → Keeps (read_socket r c w)
unfolding read_socket
read_socket-Keeps ReadResult.would_block c w h = h
read_socket-Keeps ReadResult.read_error c w h = tt
read_socket-Keeps (ReadResult.got bs) c w h =
    socket_got-Keeps (fitting c.fr bs) c w h (fitting-fits c.fr bs h.down.inside)

write_stdout-Keeps : (r : WriteResult) (c : Client) → Relays c → Keeps (write_stdout r c)
unfolding write_stdout
write_stdout-Keeps WriteResult.would_block c h = h
write_stdout-Keeps WriteResult.write_error c h = tt
write_stdout-Keeps (WriteResult.took k) c h = record {
  up = h.up;
  down = drain-Flows c.fr c.received c.shown (min k (c.fr.iptr - c.fr.optr)) h.down (omega arith);
  fin = h.fin;
}

-- The buffer is empty afterwards exactly if the write took all that was pending.
drain-empty : (k : ℕ) (b : Buffer) → ((drain k b).optr == (drain k b).iptr) ≡ (b.optr + k == b.iptr)
unfolding drain
drain-empty k b = elim (Bool-cases (b.optr + k == b.iptr)) [
  | inl e ↦ rw e
  | inr e ↦ rw e (e ∙ refl)
]

fin-count : (t e : Bool) (s : ℕ) → s ≡ 0 → (if t && e then suc s else s) ≡ (if e && t then 1 else 0)
fin-count true true s z = rw z
fin-count true false s z = z
fin-count false true s z = z
fin-count false false s z = z

write_socket-Keeps :
    (r : WriteResult) (c : Client) → Relays c → c.to.optr < c.to.iptr → Keeps (write_socket r c)
unfolding write_socket
write_socket-Keeps WriteResult.would_block c h lt = h
write_socket-Keeps WriteResult.write_error c h lt = tt
write_socket-Keeps (WriteResult.took k) c h lt =
    let none_yet : c.shutdowns ≡ 0 = h.fin ∙ not_empty c.stdineof in
    record {
      up = drain-Flows c.to c.typed c.sent (min k (c.to.iptr - c.to.optr)) h.up (omega arith);
      down = h.down;
      fin = rw (drain-empty (min k (c.to.iptr - c.to.optr)) c.to) (
          fin-count (c.to.optr + min k (c.to.iptr - c.to.optr) == c.to.iptr) c.stdineof c.shutdowns
            none_yet);
    }
  where
    not_empty : (b : Bool) → (if b && (c.to.optr == c.to.iptr) then 1 else zero) ≡ 0
    not_empty true = ground (arith, lt)
    not_empty false = refl

then_go-Keeps :
    (s : Step) (next : Client → Bool → Step)
    → Keeps s
    → ((c : Client) (w : Bool) → Relays c → Keeps (next c w))
    → Keeps (then_go s next)
then_go-Keeps (Step.going c w) next h k = k c w h
then_go-Keeps (Step.returned c) next h k = h
then_go-Keeps (Step.quit q) next h k = h

if-Keeps : (b : Bool) (s t : Step) → (b ≡ true → Keeps s) → Keeps t → Keeps (if b then s else t)
if-Keeps true s t h k = h refl
if-Keeps false s t h k = k

and_true : (a b : Bool) → (a && b) ≡ true → (a ≡ true) × (b ≡ true)
and_true true true e = (refl, refl)
and_true true false e = cc
and_true false b e = cc

ltb→lt : (a b : ℕ) → ltb a b ≡ true → a < b
ltb→lt a b e = ground (arith, e)

not-true : (b : Bool) → not b ≡ true → b ≡ false
not-true true e = cc
not-true false e = refl

from_stdin-Keeps : (r : Round) (c : Client) → Relays c → Keeps (from_stdin r c)
from_stdin-Keeps r c h =
    let wset = not (c.to.optr == c.to.iptr) && r.sock_writable in
    if-Keeps (ask_stdin c && r.stdin_ready) (read_stdin r.stdin c wset) (Step.going c wset)
      (λ e.
        let asked = and_true (ask_stdin c) r.stdin_ready e in
        let more = and_true (not c.stdineof) (ltb c.to.iptr maxline) asked.0 in
        read_stdin-Keeps r.stdin c wset h (not-true c.stdineof more.0))
      h

to_socket-Keeps : (r : Round) (c : Client) (w : Bool) → Relays c → Keeps (to_socket r c w)
to_socket-Keeps r c w h =
    if-Keeps (w && ltb c.to.optr c.to.iptr) (write_socket r.sock_out c) (Step.going c false)
      (λ e.
        write_socket-Keeps r.sock_out c h
          (ltb→lt c.to.optr c.to.iptr (and_true w (ltb c.to.optr c.to.iptr) e).1))
      h

writes-Keeps :
    (r : Round) (sock_w : Bool) (c : Client) (w : Bool) → Relays c → Keeps (writes r sock_w c w)
writes-Keeps r sock_w c w h =
    then_go-Keeps (to_stdout r c w) (λ c w. to_socket r c sock_w)
      (if-Keeps (w && ltb c.fr.optr c.fr.iptr) (write_stdout r.stdout c) (Step.going c false)
        (λ e. write_stdout-Keeps r.stdout c h) h)
      (λ c w h. to_socket-Keeps r c sock_w h)

behind_stdin-Keeps : (r : Round) (c : Client) (w : Bool) → Relays c → Keeps (behind_stdin r c w)
behind_stdin-Keeps r c w h =
    let wset = not (c.fr.optr == c.fr.iptr) && r.stdout_ready in
    then_go-Keeps (from_socket r wset c) (writes r w)
      (if-Keeps (ltb c.fr.iptr maxline && r.sock_readable) (read_socket r.sock_in c wset)
        (Step.going c wset) (λ e. read_socket-Keeps r.sock_in c wset h) h)
      (writes-Keeps r w)

round-Keeps : (r : Round) (c : Client) → Relays c → Keeps (round r c)
unfolding round
round-Keeps r c h =
    then_go-Keeps (from_stdin r c) (behind_stdin r) (from_stdin-Keeps r c h) (behind_stdin-Keeps r)

-- The loop, for as many rounds as are given.
abbrev pub rounds : List Round → Client → Step
rounds [] c = Step.going c false
rounds (r ∷ rs) c = then_go (round r c) (λ c w. rounds rs c)

rounds-Keeps : (rs : List Round) (c : Client) → Relays c → Keeps (rounds rs c)
rounds-Keeps [] c h = h
rounds-Keeps (r ∷ rs) c h =
    then_go-Keeps (round r c) (λ c w. rounds rs c) (round-Keeps r c h)
      (λ c w h. rounds-Keeps rs c h)

fresh-Flows : Flows fresh_buffer [] []
unfolding pending slice
fresh-Flows = record { size = refl; ordered = omega arith; inside = omega arith; whole = refl }

-- Whatever select and the calls on the descriptors return, in every round: the bytes from standard
-- input are those sent and those pending, in order, and likewise in the other direction; pointers
-- stay in order and inside the buffers; the FIN has been sent once exactly if standard input has
-- ended and all of it was sent; and `str_cli` returns only behind the end of standard input.
pub str_cli-Keeps : (rs : List Round) → Keeps (rounds rs first)
str_cli-Keeps rs =
    rounds-Keeps rs first (record { up = fresh-Flows; down = fresh-Flows; fin = refl })
