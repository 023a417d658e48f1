-- ===== src/Transfer.antt =====
-- The loops that move all bytes of a buffer in spite of short transfers: readn and writen of
-- apue.3e/lib, and treadn of apue.3e/printer/util.c. The system call is a parameter.
pub mod Loops
pub mod Writes
mod Examples
use my_study.Base.{
  ℕ, zero, suc, ◌+◌, ◌-◌, Bool, true, false, Option, none, some, List, [], ◌∷◌, ◌++◌, length, ◌==◌,
  if◌then◌else◌, drop,
}
use my_study.Base.Bytes.{Bytes}

-- What a loop returns: -1, or the count; `out_of_fuel` is the model's.
pub data Result (A : Type 0) : Type 0 where
  failed : Result A
  done : A → Result A
  out_of_fuel : Result A

module _ {S : Type 0} where
  -- What readn does with the outcome of one read; `again` goes round the loop.
  unfoldable pub read_step :
      ℕ → ℕ → Bytes → (ℕ → Bytes → S → Result Bytes × S) → Option Bytes × S → Result Bytes × S
  read_step n nleft got again (none, s') = if nleft == n then (failed, s') else (done got, s')
  read_step n nleft got again (some [], s') = (done got, s')
  read_step n nleft got again (some (b ∷ bs), s') =
      again (nleft - length (b ∷ bs)) (got ++ (b ∷ bs)) s'

  -- read(2): the size asked for and the descriptor's state, and what arrives; none is an error, and
  -- no byte the end of the file.
  module _ (read : ℕ → S → Option Bytes × S) where
    -- The while loop; `got` is what has been stored, `n` what the caller asked for.
    unfoldable pub readn_loop : ℕ → ℕ → ℕ → Bytes → S → Result Bytes × S
    readn_loop zero n nleft got s = if nleft == 0 then (done got, s) else (out_of_fuel, s)
    readn_loop (suc fuel) n nleft got s =
        if nleft == 0
        then (done got, s)
        else read_step n nleft got (readn_loop fuel n) (read nleft s)

    -- `readn`
    unfoldable pub readn : ℕ → S → Result Bytes × S
    readn n s = readn_loop n n n [] s

  -- What `tread` does once select has answered: an error, the timeout, or a readable descriptor.
  unfoldable pub tread_ready : (ℕ → S → Option Bytes × S) → ℕ → Option Bool × S → Option Bytes × S
  tread_ready read n (none, s') = (none, s')
  tread_ready read n (some false, s') = (none, s')
  tread_ready read n (some true, s') = read n s'

  -- `tread`; `select` waits for the descriptor with a timeout.
  unfoldable pub tread :
      (S → Option Bool × S) → (ℕ → S → Option Bytes × S) → ℕ → S → Option Bytes × S
  unfolding tread_ready
  tread select read n s = tread_ready read n (select s)

  -- `treadn`: the loop of `readn` round `tread`.
  unfoldable pub treadn :
      (S → Option Bool × S) → (ℕ → S → Option Bytes × S) → ℕ → S → Result Bytes × S
  treadn select read n s = readn_loop (tread select read) n n n [] s

  -- What writen does with the outcome of one write.
  unfoldable pub write_step : ℕ → Bytes → (Bytes → S → Result ℕ × S) → Option ℕ × S → Result ℕ × S
  write_step n ptr again (none, s') =
      if length ptr == n then (failed, s') else (done (n - length ptr), s')
  write_step n ptr again (some zero, s') = (done (n - length ptr), s')
  write_step n ptr again (some (suc k), s') = again (drop (suc k) ptr) s'

  -- write(2): the bytes handed over, and how many are taken.
  module _ (write : Bytes → S → Option ℕ × S) where
    -- The while loop; `ptr` is what is left to write.
    unfoldable pub writen_loop : ℕ → ℕ → Bytes → S → Result ℕ × S
    writen_loop zero n ptr s = if length ptr == 0 then (done n, s) else (out_of_fuel, s)
    writen_loop (suc fuel) n ptr s =
        if length ptr == 0 then (done n, s) else write_step n ptr (writen_loop fuel n) (write ptr s)

    -- `writen`
    unfoldable pub writen : Bytes → S → Result ℕ × S
    writen bytes s = writen_loop (length bytes) (length bytes) bytes s
