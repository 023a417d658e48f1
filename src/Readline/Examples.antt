-- ===== src/Readline/Examples.antt =====
-- A line that comes in two reads.
use my_study.Base.{[], ◌∷◌, arith}
use my_study.Readline.{Read, Reader, readline}
use my_study.Readline.Lines.{TakesLine, first_line, ahead, readline-TakesLine}

abbrev two_reads : Reader
two_reads = record {
  buffer = b'G' ∷ b'E' ∷ [];
  reads = Read.interrupted ∷ Read.got b'T' (b'\n' ∷ b'H' ∷ []) ∷ Read.got b'o' (b'\n' ∷ []) ∷ [];
}

readline-TakesLine_example :
    TakesLine 16 [] (first_line 15 (ahead two_reads)) (readline 16 two_reads)
readline-TakesLine_example = readline-TakesLine 16 two_reads (omega arith) (tt, (tt, (tt, tt)))
