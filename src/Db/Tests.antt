-- ===== src/Db/Tests.antt =====
-- Runs of the operations on a small database, and the theorems at concrete inputs.
use my_study.Base.{◌≡◌, refl, Bool, true, Option, none, some, [], ◌∷◌}
use my_study.Base.Bytes.{
  Bytes, pad_decimal, decimal, digits_value, to_long, atol, split_at, c_string, str_eq,
}
use my_study.Db.State.{
  M, Run, ok, pure, ◌>>=◌, ◌>>◌, write_idx, seek_idx, read_idx, seek_dat, write_dat, read_dat,
}
use my_study.Db.Records.{
  readptr, readidx, readdat, writedat, writeidx, writeptr, bounded, ends_in_newline, format_record,
  parse_record, read_record, record_text, seek_record, valid_ptr, write_record,
}
use my_study.Posix.{overwrite, read, slice, write}
use my_study.Db.Search.{find_and_lock, find_loop, findfree, free_loop, hash, hash_loop}
use my_study.Db.Api.{
  Flag, alloc, setup, init_index, rewind, fetch, store, store_found, store_new, store_replace,
  append_record, reuse_record, delete, dodelete, nextrec, nextrec_loop, zero_ptrs, all_blank,
}

abbrev beta : Bytes
beta = b'b' ∷ b'e' ∷ b't' ∷ b'a' ∷ []

abbrev alpha : Bytes
alpha = b'a' ∷ b'l' ∷ []

-- All that a run computes with.
running : Unit {0}
unfolding setup init_index rewind store store_found store_new store_replace append_record
    reuse_record fetch delete dodelete nextrec nextrec_loop find_and_lock find_loop findfree
    free_loop hash hash_loop write_idx seek_idx read_idx seek_dat write_dat read_dat readptr readidx
    readdat writedat writeidx writeptr bounded ends_in_newline format_record parse_record
    read_record record_text seek_record valid_ptr write_record pad_decimal decimal digits_value
    to_long atol split_at c_string str_eq overwrite read slice write zero_ptrs all_blank
running = tt

-- Store two records, replace one by a longer text, delete the other, reuse its place.
session : M (Option Bytes × Option Bytes × Bool × Option Bytes)
unfolding running
session = do
  setup true true
  store 9 beta (b'1' ∷ []) Flag.db_insert
  store 9 alpha (b'2' ∷ []) Flag.db_store
  store 9 beta (b'3' ∷ b'4' ∷ []) Flag.db_replace
  first ← fetch 9 beta
  gone ← delete 9 alpha
  second ← fetch 9 alpha
  store 9 alpha (b'5' ∷ []) Flag.db_insert
  third ← fetch 9 alpha
  pure (first, second, gone, third)

result :
    Run (Option Bytes × Option Bytes × Bool × Option Bytes)
    → Option (Option Bytes × Option Bytes × Bool × Option Bytes)
result (ok a _) = some a
result _ = none

session_output :
    result (session (alloc [] [] [])) ≡ some (some (b'3' ∷ b'4' ∷ []), none, true, some (b'5' ∷ []))
unfolding session result alloc
session_output = refl
