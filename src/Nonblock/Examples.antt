-- ===== src/Nonblock/Examples.antt =====
-- `str_cli` on two rounds.
use my_study.Base.{true, false, [], ◌∷◌}
use my_study.Nonblock.{Round, ReadResult, WriteResult, first}
use my_study.Nonblock.Flow.{Keeps, rounds, str_cli-Keeps}

-- Two bytes are typed and one of them is sent.
abbrev typing : Round
typing = record {
  stdin_ready = true;
  stdin = ReadResult.got (b'h' ∷ b'i' ∷ []);
  sock_readable = false;
  sock_in = ReadResult.would_block;
  stdout_ready = false;
  stdout = WriteResult.would_block;
  sock_writable = true;
  sock_out = WriteResult.took 1;
}

-- Standard input ends.
abbrev ending : Round
ending = record typing { stdin = ReadResult.got []; sock_out = WriteResult.took 9 }

str_cli-Keeps_example : Keeps (rounds (typing ∷ ending ∷ []) first)
str_cli-Keeps_example = str_cli-Keeps (typing ∷ ending ∷ [])
